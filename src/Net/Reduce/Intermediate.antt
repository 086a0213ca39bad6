-- ===== src/Net/Reduce/Intermediate.antt =====
-- src/net/reduce/intermediate_place.rs: the elimination of intermediate places. The `while changed`
-- loop runs on fuel.
pub mod Guards
pub mod Step
pub mod Total
use Prim.Native.String.{◌++◌ as ◌<>◌}
use rust_pta.Prelude.{ℕ, zero, suc, ◌+◌, ◌%◌, ◌/◌, ◌^◌, Bool, true, false, not, ◌||◌, Option, none}
use rust_pta.Prelude.{some, ◌>>=◌, Run, done, panicked, out_of_fuel, List, [], ◌∷◌, ◌++◌, length}
use rust_pta.Prelude.{get_elem?, get_or, ◌==◌, if◌then◌else◌, String}
use rust_pta.Prelude.Text.{decimal}
use rust_pta.Net.Structure.{Weight, TransitionType, normal}
use rust_pta.Net.Structure.Eq.{type_eq}
use rust_pta.Net.Reduce.Graph.{
  ReductionGraph, GraphPlace, GraphTransition, remove_transition, remove_place, clean_adjacency,
  ReductionStep, intermediate_place_eliminated, new_with_type, add_transition, retain, update_at,
  arc_place, drop_outgoing, drop_incoming, push_outgoing, push_incoming,
}
use rust_pta.Net.Reduce.Loops.{is_resources}

-- `self.merge_counter += 1`
abbrev pub next_counter : ℕ → ℕ
next_counter n = (n + 1) % 2 ^ 64

-- A place that passes the guards: the indices and the values of its transitions.
pub record Between : Type 0 where
  pub in_idx : ℕ
  pub in_transition : GraphTransition
  pub out_idx : ℕ
  pub out_transition : GraphTransition

-- The guards from the lengths of `outputs` and `inputs` on.
unfoldable pub same_weight : Between → Option Bool
same_weight b =
    if not (length b.in_transition.outputs == 1) || not (length b.out_transition.inputs == 1)
    then some false
    else (do
      arc_in ← get_elem? b.in_transition.outputs 0
      arc_out ← get_elem? b.out_transition.inputs 0
      some (arc_in.1 == arc_out.1))

-- The guards at the head of the `for` loop, up to the first `clone`.
unfoldable pub between : ReductionGraph → GraphPlace → Option (Option Between)
unfolding is_resources same_weight
between graph place =
    if place.removed
      || is_resources place.place.place_type
      || not (place.place.tokens == 0)
      || not (length place.incoming == 1)
      || not (length place.outgoing == 1)
    then some none
    else (do
      in_idx ← get_elem? place.incoming 0
      out_idx ← get_elem? place.outgoing 0
      in_transition ← get_elem? graph.transitions in_idx
      out_transition ← get_elem? graph.transitions out_idx
      let b : Between = record {
        in_idx = in_idx;
        in_transition = in_transition;
        out_idx = out_idx;
        out_transition = out_transition;
      }
      if in_transition.removed || out_transition.removed
          then some none
          else (do same ← same_weight b; some (if same then some b else none)))

unfoldable pub merged_type : TransitionType → TransitionType → TransitionType
merged_type left right = if type_eq left right then left else normal

-- `for (p_idx, _) in &inputs { … }`: the place loses one successor and gains another.
unfoldable pub relink {ℓ} : {A : Type ℓ} → (A → A) → List A → List (ℕ × Weight) → Option (List A)
unfolding update_at
relink change places [] = some places
relink change places (arc ∷ arcs) = do
  places' ← update_at places (arc_place arc) change
  relink change places' arcs

abbrev pub swap_outgoing : ℕ → ℕ → GraphPlace → GraphPlace
swap_outgoing old new place = push_outgoing new (drop_outgoing old place)

abbrev pub swap_incoming : ℕ → ℕ → GraphPlace → GraphPlace
swap_incoming old new place = push_incoming new (drop_incoming old place)

unfoldable pub merged_transition : ℕ → Between → GraphTransition
unfolding new_with_type decimal merged_type
merged_transition counter b =
    new_with_type ("inter_merge#" <> decimal counter)
      (merged_type b.in_transition.transition.transition_type
        b.out_transition.transition.transition_type)
      (b.in_transition.originals ++ b.out_transition.originals) b.in_transition.inputs
      b.out_transition.outputs

-- The rest of the body of the `for` loop, at the place `place_idx`.
unfoldable pub eliminate :
    ReductionGraph → ℕ → GraphPlace → Between → Option (ReductionGraph × ReductionStep)
unfolding merged_transition relink add_transition
eliminate graph place_idx place b = do
  let added = add_transition graph (merged_transition graph.merge_counter b)
  let new_idx = length graph.transitions
  sources ← relink (swap_outgoing b.in_idx new_idx) added.places b.in_transition.inputs
  targets ← relink (swap_incoming b.out_idx new_idx) sources b.out_transition.outputs
  let linked = record added { places = targets; merge_counter = next_counter graph.merge_counter }
  some (
    clean_adjacency
        (remove_place (remove_transition (remove_transition linked b.in_idx) b.out_idx) place_idx),
    intermediate_place_eliminated place.originals
        (b.in_transition.originals ++ b.out_transition.originals),
  )

-- One round of the `for` loop: `none` is `continue`.
unfoldable pub eliminate_at : ReductionGraph → ℕ → Option (Option (ReductionGraph × ReductionStep))
unfolding between eliminate
eliminate_at graph place_idx = do
  place ← get_elem? graph.places place_idx
  candidate ← between graph place
  elim candidate [
    | none ↦ some none
    | some b ↦ do changed ← eliminate graph place_idx place b; some (some changed)
  ]

-- `for place_idx in 0..self.places.len()`, with `n` rounds left, up to its `break`.
unfoldable pub first_eliminated :
    ReductionGraph → ℕ → ℕ → Option (Option (ReductionGraph × ReductionStep))
unfolding eliminate_at
first_eliminated graph zero place_idx = some none
first_eliminated graph (suc n) place_idx = do
  r ← eliminate_at graph place_idx
  elim r [ none ↦ first_eliminated graph n (place_idx + 1) | some changed ↦ some (some changed) ]

-- `while changed`
unfoldable pub eliminate_loop :
    ℕ → ReductionGraph → List ReductionStep → Run (ReductionGraph × List ReductionStep)
unfolding first_eliminated
eliminate_loop zero graph steps = out_of_fuel
eliminate_loop (suc fuel) graph steps = elim (first_eliminated graph (length graph.places) 0) [
  | none ↦ panicked
  | some none ↦ done (graph, steps)
  | some (some (graph', step)) ↦ eliminate_loop fuel graph' (steps ++ step ∷ [])
]

-- Each round but the last removes a place.
unfoldable pub eliminate_intermediate_places :
    ReductionGraph → Run (ReductionGraph × List ReductionStep)
unfolding eliminate_loop
eliminate_intermediate_places graph = eliminate_loop (suc (length graph.places)) graph []
