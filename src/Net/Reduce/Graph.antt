-- ===== src/Net/Reduce/Graph.antt =====
-- src/net/reduce/graph.rs: the working graph, its construction from a net, and its three editing
-- operations. `none` is a panic. A vector's `retain`, and `get_mut` of an index, which does nothing
-- out of range, are `retain` and `modify`.
pub mod Arcs
pub mod Rows
pub mod Adjacent
pub mod Reads
use rust_pta.Prelude.{ℕ, zero, suc, Bool, true, false, not, Option, none, some, ◌>>=◌, for_each}
use rust_pta.Prelude.{List, [], ◌∷◌, ◌++◌, map, get_elem?, set, ◌==◌, if◌then◌else◌, String}
use rust_pta.Net.IndexVec.{PlaceId, TransitionId, iter_enumerated}
use rust_pta.Net.Structure.{Weight, Place, Transition, TransitionType}
use rust_pta.Net.Core.{Net}

pub record GraphPlace : Type 0 where
  pub place : Place
  pub originals : List PlaceId
  pub incoming : List ℕ
  pub outgoing : List ℕ
  pub removed : Bool

pub record GraphTransition : Type 0 where
  pub transition : Transition
  pub originals : List TransitionId
  pub inputs : List (ℕ × Weight)
  pub outputs : List (ℕ × Weight)
  pub removed : Bool

pub record ReductionGraph : Type 0 where
  pub places : List GraphPlace
  pub transitions : List GraphTransition
  pub merge_counter : ℕ
  pub has_capacity : Bool

module _ {ℓ} {A : Type ℓ} where
  unfoldable pub retain : (A → Bool) → List A → List A
  retain keep [] = []
  retain keep (x ∷ xs) = let rest = retain keep xs in if keep x then x ∷ rest else rest

  unfoldable pub modify : List A → ℕ → (A → A) → List A
  modify [] i f = []
  modify (x ∷ xs) zero f = f x ∷ xs
  modify (x ∷ xs) (suc i) f = x ∷ modify xs i f

  -- A write through `xs[i]`.
  unfoldable pub update_at : List A → ℕ → (A → A) → Option (List A)
  update_at xs i f = do x ← get_elem? xs i; some (set xs i (f x))

unfoldable pub fresh_place : PlaceId × Place → GraphPlace
fresh_place (place_id, place) = record {
  place = place;
  originals = place_id ∷ [];
  incoming = [];
  outgoing = [];
  removed = false;
}

unfoldable pub fresh_transition : TransitionId × Transition → GraphTransition
fresh_transition (transition_id, transition) = record {
  transition = transition;
  originals = transition_id ∷ [];
  inputs = [];
  outputs = [];
  removed = false;
}

abbrev pub push_outgoing : ℕ → GraphPlace → GraphPlace
push_outgoing t_idx place = record place { outgoing = place.outgoing ++ t_idx ∷ [] }

abbrev pub push_incoming : ℕ → GraphPlace → GraphPlace
push_incoming t_idx place = record place { incoming = place.incoming ++ t_idx ∷ [] }

abbrev pub push_input : ℕ → Weight → GraphTransition → GraphTransition
push_input p_idx weight transition = record transition {
  inputs = transition.inputs ++ (p_idx, weight) ∷ [];
}

abbrev pub push_output : ℕ → Weight → GraphTransition → GraphTransition
push_output p_idx weight transition = record transition {
  outputs = transition.outputs ++ (p_idx, weight) ∷ [];
}

-- The body of the two loops over the entries of a row of `pre`.
unfoldable pub read_input : ℕ → ReductionGraph → TransitionId × Weight → Option ReductionGraph
unfolding update_at
read_input p_idx graph (t_idx, weight) = if weight == 0 then some graph else (do
  places ← update_at graph.places p_idx (push_outgoing t_idx)
  transitions ← update_at graph.transitions t_idx (push_input p_idx weight)
  some (record graph { places = places; transitions = transitions }))

-- The body of the two loops over the entries of a row of `post`.
unfoldable pub read_output : ℕ → ReductionGraph → TransitionId × Weight → Option ReductionGraph
unfolding update_at
read_output p_idx graph (t_idx, weight) = if weight == 0 then some graph else (do
  places ← update_at graph.places p_idx (push_incoming t_idx)
  transitions ← update_at graph.transitions t_idx (push_output p_idx weight)
  some (record graph { places = places; transitions = transitions }))

-- The loop over the rows of a matrix.
unfoldable pub read_row :
    (ℕ → ReductionGraph → TransitionId × Weight → Option ReductionGraph)
    → ReductionGraph
    → PlaceId × List Weight
    → Option ReductionGraph
read_row body graph (place_id, row) = for_each (body place_id) graph (iter_enumerated row)

unfoldable pub has_caps : Option (List Weight) → Bool
has_caps none = false
has_caps (some _) = true

-- The graph before the arcs are read.
unfoldable pub without_arcs : Net → ReductionGraph
unfolding fresh_place fresh_transition has_caps
without_arcs net = record {
  places = map fresh_place (iter_enumerated net.places);
  transitions = map fresh_transition (iter_enumerated net.transitions);
  merge_counter = 0;
  has_capacity = has_caps net.caps;
}

unfoldable pub from_net : Net → Option ReductionGraph
unfolding without_arcs read_row read_input read_output
from_net net = do
  graph ← for_each (read_row read_input) (without_arcs net) (iter_enumerated net.pre.rows)
  for_each (read_row read_output) graph (iter_enumerated net.post.rows)

-- The new graph and the index of the transition, `len() - 1` after the push.
unfoldable pub add_transition : ReductionGraph → GraphTransition → ReductionGraph
add_transition graph transition = record graph {
  transitions = graph.transitions ++ transition ∷ [];
}

abbrev pub drop_outgoing : ℕ → GraphPlace → GraphPlace
drop_outgoing idx place = record place { outgoing = retain (λ t. not (t == idx)) place.outgoing }

abbrev pub drop_incoming : ℕ → GraphPlace → GraphPlace
drop_incoming idx place = record place { incoming = retain (λ t. not (t == idx)) place.incoming }

-- `for (place_idx, _) in arcs { if let Some(place) = places.get_mut(place_idx) { … } }`
unfoldable pub modify_each {ℓ κ} :
    {A : Type ℓ} {B : Type κ} → (B → ℕ) → (A → A) → List A → List B → List A
unfolding modify
modify_each index f xs [] = xs
modify_each index f xs (b ∷ bs) = modify_each index f (modify xs (index b) f) bs

abbrev pub arc_place : ℕ × Weight → ℕ
arc_place arc = arc.0

abbrev pub gone_transition : GraphTransition → GraphTransition
gone_transition transition = record transition { inputs = []; outputs = []; removed = true }

-- The end of `remove_transition`, past its guard.
abbrev pub without_transition : ReductionGraph → ℕ → GraphTransition → ReductionGraph
without_transition graph idx transition = record graph {
  places =
      modify_each arc_place (drop_incoming idx)
        (modify_each arc_place (drop_outgoing idx) graph.places transition.inputs)
        transition.outputs;
  transitions = set graph.transitions idx (gone_transition transition);
}

unfoldable pub remove_transition : ReductionGraph → ℕ → ReductionGraph
unfolding retain modify modify_each
remove_transition graph idx = elim (get_elem? graph.transitions idx) [
  | none ↦ graph
  | some transition ↦ if transition.removed then graph else without_transition graph idx transition
]

abbrev pub drop_output : ℕ → GraphTransition → GraphTransition
drop_output idx transition = record transition {
  outputs = retain (λ arc. not (arc_place arc == idx)) transition.outputs;
}

abbrev pub drop_input : ℕ → GraphTransition → GraphTransition
drop_input idx transition = record transition {
  inputs = retain (λ arc. not (arc_place arc == idx)) transition.inputs;
}

abbrev pub same_index : ℕ → ℕ
same_index idx = idx

abbrev pub gone_place : GraphPlace → GraphPlace
gone_place place = record place { incoming = []; outgoing = []; removed = true }

-- The end of `remove_place`, past its guard.
abbrev pub without_place : ReductionGraph → ℕ → GraphPlace → ReductionGraph
without_place graph idx place = record graph {
  places = set graph.places idx (gone_place place);
  transitions =
      modify_each same_index (drop_input idx)
        (modify_each same_index (drop_output idx) graph.transitions place.incoming) place.outgoing;
}

unfoldable pub remove_place : ReductionGraph → ℕ → ReductionGraph
unfolding retain modify modify_each
remove_place graph idx = elim (get_elem? graph.places idx) [
  | none ↦ graph
  | some place ↦ if place.removed then graph else without_place graph idx place
]

-- `*idx < self.transitions.len() && !self.transitions[*idx].removed`
unfoldable pub live_transition : List GraphTransition → ℕ → Bool
live_transition transitions idx = elim (get_elem? transitions idx) [
  | none ↦ false
  | some t ↦ not t.removed
]

unfoldable pub live_place : List GraphPlace → ℕ → Bool
live_place places idx = elim (get_elem? places idx) [ none ↦ false | some p ↦ not p.removed ]

unfoldable pub clean_place : List GraphTransition → GraphPlace → GraphPlace
unfolding retain live_transition
clean_place transitions place = record place {
  incoming = retain (live_transition transitions) place.incoming;
  outgoing = retain (live_transition transitions) place.outgoing;
}

unfoldable pub clean_transition : List GraphPlace → GraphTransition → GraphTransition
unfolding retain live_place
clean_transition places transition = if transition.removed then transition else record transition {
  inputs = retain (λ arc. live_place places (arc_place arc)) transition.inputs;
  outputs = retain (λ arc. live_place places (arc_place arc)) transition.outputs;
}

-- The places are cleaned first, which leaves their `removed` as it is.
unfoldable pub clean_adjacency : ReductionGraph → ReductionGraph
unfolding clean_place clean_transition
clean_adjacency graph =
    let places = map (clean_place graph.transitions) graph.places in
    record graph { places = places; transitions = map (clean_transition places) graph.transitions }

-- `GraphTransition::new_with_type`
unfoldable pub new_with_type :
    String
    → TransitionType
    → List TransitionId
    → List (ℕ × Weight)
    → List (ℕ × Weight)
    → GraphTransition
new_with_type name transition_type originals inputs outputs = record {
  transition = record { name = name; transition_type = transition_type };
  originals = originals;
  inputs = inputs;
  outputs = outputs;
  removed = false;
}

-- A step of the reduction, as it is reported.
pub data ReductionStep : Type 0 where
  -- the places and the transitions
  loop_removed : List PlaceId → List TransitionId → ReductionStep
  -- the head, the tail, the transitions merged and the places removed
  sequence_merged : List PlaceId → List PlaceId → List TransitionId → List PlaceId → ReductionStep
  intermediate_place_eliminated : List PlaceId → List TransitionId → ReductionStep

-- `places[*idx].originals.clone()` for each index, in sequence.
unfoldable pub place_originals : ReductionGraph → List ℕ → Option (List PlaceId)
place_originals graph [] = some []
place_originals graph (idx ∷ rest) = do
  place ← get_elem? graph.places idx
  others ← place_originals graph rest
  some (place.originals ++ others)

unfoldable pub transition_originals : ReductionGraph → List ℕ → Option (List TransitionId)
transition_originals graph [] = some []
transition_originals graph (idx ∷ rest) = do
  transition ← get_elem? graph.transitions idx
  others ← transition_originals graph rest
  some (transition.originals ++ others)
