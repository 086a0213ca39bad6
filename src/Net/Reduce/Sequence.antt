-- ===== src/Net/Reduce/Sequence.antt =====
-- src/net/reduce/sequence_merge.rs: the merge of a linear sequence of places and transitions into
-- one transition. The `while changed` loop and the inner loop, which walks along the sequence, run
-- on fuel.
pub mod Diverges
use Prim.Native.String.{◌++◌ as ◌<>◌}
use rust_pta.Prelude.{
  ℕ, zero, suc, ◌+◌, ◌-◌, Bool, true, false, not, ◌||◌, ◌&&◌, Option, none, some,
}
use rust_pta.Prelude.{◌>>=◌, Run, done, panicked, out_of_fuel, List, [], ◌∷◌, ◌++◌, length}
use rust_pta.Prelude.{get_elem?, ltb, ◌==◌, if◌then◌else◌}
use rust_pta.Prelude.Text.{decimal}
use rust_pta.Net.Structure.{Weight, TransitionType, normal}
use rust_pta.Net.Structure.Eq.{type_eq}
use rust_pta.Net.Reduce.Graph.{
  ReductionGraph, GraphPlace, clean_adjacency, ReductionStep, sequence_merged, new_with_type,
  add_transition, retain, update_at, push_outgoing, push_incoming, place_originals,
  transition_originals,
}
use rust_pta.Net.Reduce.Loops.{is_resources, member, remove_transitions, remove_places, or_panic}
use rust_pta.Net.Reduce.Intermediate.{next_counter}

-- What the inner loop has collected.
pub record Chain : Type 0 where
  pub places : List ℕ
  pub transitions : List ℕ
  pub weights : List Weight
  pub types : List TransitionType

-- How a round of the inner loop ends: with `valid_chain = false`, by a `break` that keeps the chain,
-- or after the pushes, with the test of the last `break`.
pub data ChainStep : Type 0 where
  invalid : ChainStep
  stop : ChainStep
  extend : ℕ → ℕ → Weight → TransitionType → Bool → ChainStep

-- The part of a round after the transition's guards: its arcs and the next place.
unfoldable pub next_step :
    ReductionGraph → ℕ → TransitionType → ℕ × Weight → ℕ × Weight → Option ChainStep
unfolding is_resources
next_step graph transition_idx type arc_in arc_out = do
  next ← get_elem? graph.places arc_out.0
  some (
      if next.removed || is_resources next.place.place_type
      then invalid
      else if not (length next.incoming == 1)
      then stop
      else if arc_in.1 == arc_out.1
      then extend transition_idx arc_out.0 arc_in.1 type (not (length next.outgoing == 1))
      else invalid)

unfoldable pub chain_step : ReductionGraph → ℕ → Option ChainStep
unfolding next_step
chain_step graph current = do
  place ← get_elem? graph.places current
  elim (get_elem? place.outgoing 0) [
    | none ↦ some invalid
    | some transition_idx ↦ do
      transition ← get_elem? graph.transitions transition_idx
      if transition.removed
            || not (length transition.inputs == 1)
            || not (length transition.outputs == 1)
          then some invalid
          else (do
            arc_in ← get_elem? transition.inputs 0
            arc_out ← get_elem? transition.outputs 0
            next_step graph transition_idx transition.transition.transition_type arc_in arc_out)
  ]

abbrev pub extended : Chain → ℕ → ℕ → Weight → TransitionType → Chain
extended chain transition_idx next weight type = record {
  places = chain.places ++ next ∷ [];
  transitions = chain.transitions ++ transition_idx ∷ [];
  weights = chain.weights ++ weight ∷ [];
  types = chain.types ++ type ∷ [];
}

-- The inner loop; `none` is an invalid chain. It keeps no set of the places that it has visited.
unfoldable pub walk_chain : ReductionGraph → ℕ → ℕ → Chain → Run (Option Chain)
unfolding chain_step
walk_chain graph zero current chain = out_of_fuel
walk_chain graph (suc fuel) current chain = elim (chain_step graph current) [
  | none ↦ panicked
  | some invalid ↦ done none
  | some stop ↦ done (some chain)
  | some (extend transition_idx next weight type true) ↦
      done (some (extended chain transition_idx next weight type))
  | some (extend transition_idx next weight type false) ↦
      walk_chain graph fuel next (extended chain transition_idx next weight type)
]

-- `windows(2).all(|window| window[0] == window[1])`
unfoldable pub all_equal {ℓ} : {A : Type ℓ} → (A → A → Bool) → List A → Bool
all_equal eq (x ∷ y ∷ rest) = eq x y && all_equal eq (y ∷ rest)
all_equal eq _ = true

unfoldable pub first_or {ℓ} : {A : Type ℓ} → List A → A → A
first_or [] default = default
first_or (x ∷ _) default = x

unfoldable pub last_of {ℓ} : {A : Type ℓ} → List A → Option A
last_of [] = none
last_of (x ∷ []) = some x
last_of (_ ∷ y ∷ rest) = last_of (y ∷ rest)

unfoldable pub without_last {ℓ} : {A : Type ℓ} → List A → List A
without_last [] = []
without_last (x ∷ []) = []
without_last (x ∷ y ∷ rest) = x ∷ without_last (y ∷ rest)

-- `place_chain[1..place_chain.len() - 1]`, and `skip(1).take(len.saturating_sub(2))`
unfoldable pub middle {ℓ} : {A : Type ℓ} → List A → List A
unfolding without_last
middle [] = []
middle (_ ∷ rest) = without_last rest

unfoldable pub chain_type : List TransitionType → TransitionType
unfolding all_equal first_or
chain_type types = if all_equal type_eq types then first_or types normal else normal

abbrev pub leave_chain : List ℕ → ℕ → GraphPlace → GraphPlace
leave_chain chain new_idx place =
    push_outgoing new_idx
      (record place { outgoing = retain (λ t. not (member t chain)) place.outgoing })

abbrev pub reach_chain : List ℕ → ℕ → GraphPlace → GraphPlace
reach_chain chain new_idx place =
    push_incoming new_idx
      (record place { incoming = retain (λ t. not (member t chain)) place.incoming })

-- The rest of the body of the `for` loop, for a chain from `head` to `tail` of the weight `weight`.
unfoldable pub merge_chain :
    ReductionGraph → ℕ → ℕ → Chain → Option (ReductionGraph × ReductionStep)
unfolding chain_type middle place_originals transition_originals new_with_type add_transition
    update_at retain remove_transitions remove_places clean_adjacency decimal first_or
merge_chain graph head tail chain = do
  let weight = first_or chain.weights 1
  merged ← transition_originals graph chain.transitions
  head_place ← get_elem? graph.places head
  tail_place ← get_elem? graph.places tail
  removed ← place_originals graph (middle chain.places)
  let new_idx = length graph.transitions
  let added = add_transition graph (
      new_with_type ("seq_merge#" <> decimal graph.merge_counter) (chain_type chain.types) merged
        ((head, weight) ∷ []) ((tail, weight) ∷ []))
  left ← update_at added.places head (leave_chain chain.transitions new_idx)
  reached ← update_at left tail (reach_chain chain.transitions new_idx)
  let linked = record added { places = reached; merge_counter = next_counter graph.merge_counter }
  some (
    clean_adjacency
        (remove_places (remove_transitions linked chain.transitions) (middle chain.places)),
    sequence_merged head_place.originals tail_place.originals merged removed,
  )

-- The guards between the inner loop and the construction: `none` is `continue`.
unfoldable pub accept_chain :
    ReductionGraph → ℕ → Chain → Option (Option (ReductionGraph × ReductionStep))
unfolding last_of all_equal merge_chain is_resources
accept_chain graph head chain = if ltb (length chain.transitions) 2 then some none else (do
  tail ← last_of chain.places
  tail_place ← get_elem? graph.places tail
  if is_resources tail_place.place.place_type || not (all_equal ◌==◌ chain.weights)
      then some none
      else (do changed ← merge_chain graph head tail chain; some (some changed)))

-- The three guards at the head of the `for` loop.
unfoldable pub starts_chain : ReductionGraph → ℕ → Option Bool
unfolding is_resources
starts_chain graph head = do
  place ← get_elem? graph.places head
  some (
      not
        (place.removed || is_resources place.place.place_type || not (length place.outgoing == 1)))

unfoldable pub after_chain :
    ReductionGraph → ℕ → Run (Option Chain) → Run (Option (ReductionGraph × ReductionStep))
unfolding or_panic accept_chain
after_chain graph head (done none) = done none
after_chain graph head (done (some chain)) = or_panic (accept_chain graph head chain)
after_chain graph head panicked = panicked
after_chain graph head out_of_fuel = out_of_fuel

-- One round of the `for` loop: `done none` is `continue`.
unfoldable pub merge_at : ℕ → ReductionGraph → ℕ → Run (Option (ReductionGraph × ReductionStep))
unfolding starts_chain walk_chain after_chain
merge_at fuel graph head = elim (starts_chain graph head) [
  | none ↦ panicked
  | some false ↦ done none
  | some true ↦ after_chain graph head (
      walk_chain graph fuel head
        (record { places = head ∷ []; transitions = []; weights = []; types = [] }))
]

-- `for head_idx in 0..self.places.len()`, with `n` rounds left, up to its `break`.
unfoldable pub first_merged :
    ℕ → ReductionGraph → ℕ → ℕ → Run (Option (ReductionGraph × ReductionStep))
unfolding merge_at
first_merged fuel graph zero head = done none
first_merged fuel graph (suc n) head = elim (merge_at fuel graph head) [
  | done none ↦ first_merged fuel graph n (head + 1)
  | done (some changed) ↦ done (some changed)
  | panicked ↦ panicked
  | out_of_fuel ↦ out_of_fuel
]

-- `while changed`
unfoldable pub merge_loop :
    ℕ → ℕ → ReductionGraph → List ReductionStep → Run (ReductionGraph × List ReductionStep)
unfolding first_merged
merge_loop inner zero graph steps = out_of_fuel
merge_loop inner (suc fuel) graph steps = elim (first_merged inner graph (length graph.places) 0) [
  | done none ↦ done (graph, steps)
  | done (some (graph', step)) ↦ merge_loop inner fuel graph' (steps ++ step ∷ [])
  | panicked ↦ panicked
  | out_of_fuel ↦ out_of_fuel
]

-- `fuel` bounds the inner loop. Each round of the outer loop but the last removes a place.
unfoldable pub merge_linear_sequences :
    ℕ → ReductionGraph → Run (ReductionGraph × List ReductionStep)
unfolding merge_loop
merge_linear_sequences fuel graph = merge_loop fuel (suc (length graph.places)) graph []
