-- ===== src/Net/Reduce/Materialize.antt =====
-- src/net/reduce/graph.rs: `materialize`, which reads the working graph back as a net. The removed
-- places and transitions are left out and the others renumbered in order; the trace gives for each
-- new place and transition those of the first net that it stands for.
pub mod Writes
pub mod Live
pub mod RoundTrip
use rust_pta.Prelude.{ℕ, ◌+◌, Bool, Option, none, some, ◌>>=◌, List, [], ◌∷◌, map}
use rust_pta.Prelude.{length, replicate, get_elem?, set, if◌then◌else◌}
use rust_pta.Net.IndexVec.{PlaceId, TransitionId, from_usize}
use rust_pta.Net.Structure.{Weight, Place, Transition}
use rust_pta.Net.Incidence
use rust_pta.Net.Incidence.{Incidence}
use rust_pta.Net.Core.{Net}
use rust_pta.Net.Reduce.Graph.{GraphPlace, GraphTransition, ReductionGraph}

pub record ReductionTrace : Type 0 where
  pub place_mapping : List (List PlaceId)
  pub transition_mapping : List (List TransitionId)

pub record MaterializedNet : Type 0 where
  pub net : Net
  pub trace : ReductionTrace

-- `Net::new`
abbrev pub new_net :
    List Place → List Transition → Incidence Weight → Incidence Weight → Option (List Weight) → Net
new_net places transitions pre post caps = record {
  places = places;
  transitions = transitions;
  pre = pre;
  post = post;
  caps = caps;
}

-- The ids that `push` gives to the elements that are not removed, `k` of which came before.
unfoldable pub renumber : ℕ → List Bool → List (Option ℕ)
renumber k [] = []
renumber k (removed ∷ rest) =
    (if removed then none else some (from_usize k)) ∷ renumber (if removed then k else k + 1) rest

unfoldable pub place_mapping : List GraphPlace → List (Option PlaceId)
unfolding renumber
place_mapping places = renumber 0 (map (λ (p : GraphPlace). p.removed) places)

unfoldable pub transition_mapping : List GraphTransition → List (Option TransitionId)
unfolding renumber
transition_mapping transitions = renumber 0 (map (λ (t : GraphTransition). t.removed) transitions)

unfoldable pub new_places : List GraphPlace → List Place
new_places [] = []
new_places (p ∷ rest) =
    let others = new_places rest in if p.removed then others else p.place ∷ others

unfoldable pub new_transitions : List GraphTransition → List Transition
new_transitions [] = []
new_transitions (t ∷ rest) =
    let others = new_transitions rest in if t.removed then others else t.transition ∷ others

-- `if let Some(new_p) = place_mapping[*place_idx] { matrix.set(new_p, new_t, *weight); }` for each
-- arc of a transition.
unfoldable pub set_arcs :
    List (Option PlaceId)
    → TransitionId
    → List (ℕ × Weight)
    → Incidence Weight
    → Option (Incidence Weight)
set_arcs mapping new_t [] matrix = some matrix
set_arcs mapping new_t ((place_idx, weight) ∷ rest) matrix = get_elem? mapping place_idx >>= elim [
  | none ↦ set_arcs mapping new_t rest matrix
  | some new_p ↦ Incidence.set_entry matrix new_p new_t weight >>= set_arcs mapping new_t rest
]

-- The loop over the transitions and their new ids, on `pre` and `post`.
unfoldable pub set_all_arcs :
    List (Option PlaceId)
    → List (Option TransitionId)
    → List GraphTransition
    → Incidence Weight × Incidence Weight
    → Option (Incidence Weight × Incidence Weight)
unfolding set_arcs
set_all_arcs mapping (none ∷ ids) (t ∷ rest) matrices = set_all_arcs mapping ids rest matrices
set_all_arcs mapping (some new_t ∷ ids) (t ∷ rest) (pre, post) = do
  pre' ← set_arcs mapping new_t t.inputs pre
  post' ← set_arcs mapping new_t t.outputs post
  set_all_arcs mapping ids rest (pre', post')
set_all_arcs mapping _ _ matrices = some matrices

-- `trace_data[new_id.index()] = originals.clone()` for each element that has a new id.
unfoldable pub set_traces : List (Option ℕ) → List (List ℕ) → List (List ℕ) → Option (List (List ℕ))
set_traces (none ∷ ids) (_ ∷ rest) trace = set_traces ids rest trace
set_traces (some id ∷ ids) (originals ∷ rest) trace = do
  _ ← get_elem? trace id
  set_traces ids rest (set trace id originals)
set_traces _ _ trace = some trace

unfoldable pub materialize : ReductionGraph → Option MaterializedNet
unfolding place_mapping transition_mapping new_places new_transitions set_all_arcs set_traces
    Incidence.new
materialize graph = do
  let places = new_places graph.places
  let transitions = new_transitions graph.transitions
  let place_ids = place_mapping graph.places
  let transition_ids = transition_mapping graph.transitions
  let zeros : Incidence Weight = Incidence.new (length places) (length transitions) 0
  (pre, post) ← set_all_arcs place_ids transition_ids graph.transitions (zeros, zeros)
  place_trace ←
      set_traces place_ids (map (λ (p : GraphPlace). p.originals) graph.places)
        (replicate (length places) [])
  transition_trace ←
      set_traces transition_ids (map (λ (t : GraphTransition). t.originals) graph.transitions)
        (replicate (length transitions) [])
  some record {
    net =
        new_net places transitions pre post
          (if graph.has_capacity then some (map (λ (p : Place). p.capacity) places) else none);
    trace = record { place_mapping = place_trace; transition_mapping = transition_trace };
  }
