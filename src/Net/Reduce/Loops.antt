-- ===== src/Net/Reduce/Loops.antt =====
-- src/net/reduce/loop_removal.rs: the removal of simple loops that hold no token. The inner loop,
-- which walks along a cycle, runs on fuel.
pub mod Walk
pub mod Total
use rust_pta.Prelude.{ℕ, zero, suc, ◌+◌, Bool, true, false, not, ◌||◌, Option, none, some, ◌>>=◌}
use rust_pta.Prelude.{Run, done, panicked, out_of_fuel, List, [], ◌∷◌, ◌++◌, length, get_elem?}
use rust_pta.Prelude.{◌==◌, if◌then◌else◌}
use rust_pta.Net.Structure.{PlaceType, resources, function_start, function_end, basic_block}
use rust_pta.Net.Reduce.Graph.{
  ReductionGraph, GraphPlace, remove_transition, remove_place, clean_adjacency, ReductionStep,
  loop_removed, place_originals, transition_originals,
}

unfoldable pub is_resources : PlaceType → Bool
is_resources resources = true
is_resources _ = false

-- `HashSet::contains`
unfoldable pub member : ℕ → List ℕ → Bool
member i [] = false
member i (j ∷ js) = if i == j then true else member i js

-- One round of the inner loop at `current_place`: its transition and the next place, or `none` where
-- the round ends with `valid_cycle = false`.
unfoldable pub cycle_step : ReductionGraph → ℕ → Option (Option (ℕ × ℕ))
unfolding is_resources
cycle_step graph current = do
  place ← get_elem? graph.places current
  elim (get_elem? place.outgoing 0) [
    | none ↦ some none
    | some transition_idx ↦ do
      transition ← get_elem? graph.transitions transition_idx
      if transition.removed
            || not (length transition.inputs == 1)
            || not (length transition.outputs == 1)
          then some none
          else (do
            arc ← get_elem? transition.outputs 0
            next ← get_elem? graph.places arc.0
            some (
                if next.removed
                  || is_resources next.place.place_type
                  || not (length next.incoming == 1)
                  || not (length next.outgoing == 1)
                then none
                else some (transition_idx, arc.0)))
  ]

abbrev pub Cycle : Type 0
Cycle = List ℕ × List ℕ

-- The inner loop, on the places visited and the cycle found so far; `none` is an invalid cycle.
unfoldable pub walk_cycle : ReductionGraph → ℕ → ℕ → ℕ → List ℕ → Cycle → Run (Option Cycle)
unfolding cycle_step member
walk_cycle graph start zero current local_visited cycle = out_of_fuel
walk_cycle graph start (suc fuel) current local_visited (places, transitions) =
    elim (member current local_visited) [
      | true ↦ done none
      | false ↦ elim (cycle_step graph current) [
        | none ↦ panicked
        | some none ↦ done none
        | some (some (transition_idx, next)) ↦ elim (next == start) [
          | true ↦ done (some (places ++ current ∷ [], transitions ++ transition_idx ∷ []))
          | false ↦
              walk_cycle graph start fuel next (current ∷ local_visited)
                (places ++ current ∷ [], transitions ++ transition_idx ∷ [])
        ]
      ]
    ]

-- `cycle_places.iter().all(|idx| places[*idx].place.tokens == 0)`
unfoldable pub all_empty : ReductionGraph → List ℕ → Option Bool
all_empty graph [] = some true
all_empty graph (idx ∷ rest) = do
  place ← get_elem? graph.places idx
  if place.place.tokens == 0 then all_empty graph rest else some false

unfoldable pub remove_transitions : ReductionGraph → List ℕ → ReductionGraph
remove_transitions graph [] = graph
remove_transitions graph (idx ∷ rest) = remove_transitions (remove_transition graph idx) rest

unfoldable pub remove_places : ReductionGraph → List ℕ → ReductionGraph
remove_places graph [] = graph
remove_places graph (idx ∷ rest) = remove_places (remove_place graph idx) rest

-- What the outer loop carries.
pub record LoopState : Type 0 where
  pub graph : ReductionGraph
  pub visited : List ℕ
  pub steps : List ReductionStep

-- `if !removed_places.is_empty() || !removed_transitions.is_empty() { steps.push(…) }`
unfoldable pub push_loop : List ReductionStep → List ℕ → List ℕ → List ReductionStep
push_loop steps [] [] = steps
push_loop steps places transitions = steps ++ loop_removed places transitions ∷ []

-- The rest of a round after a valid cycle.
unfoldable pub remove_cycle : LoopState → Cycle → Option LoopState
unfolding all_empty place_originals transition_originals remove_transitions remove_places
    clean_adjacency push_loop
remove_cycle s (places, transitions) = do
  empty ← all_empty s.graph places
  if empty
      then (do
        removed_places ← place_originals s.graph places
        removed_transitions ← transition_originals s.graph transitions
        some record {
          graph = clean_adjacency (remove_places (remove_transitions s.graph transitions) places);
          visited = places ++ s.visited;
          steps = push_loop s.steps removed_places removed_transitions;
        })
      else some s

-- The five guards at the head of the outer loop.
unfoldable pub starts_cycle : LoopState → ℕ → Option Bool
unfolding member is_resources
starts_cycle s start = if member start s.visited then some false else (do
  place ← get_elem? s.graph.places start
  some (
      not (
        place.removed
        || is_resources place.place.place_type
        || not (length place.outgoing == 1)
        || not (length place.incoming == 1))))

-- A local name for a panic inside `Run`.
unfoldable pub or_panic {ℓ} : {A : Type ℓ} → Option A → Run A
or_panic none = panicked
or_panic (some a) = done a

unfoldable pub after_walk : LoopState → Run (Option Cycle) → Run LoopState
unfolding or_panic remove_cycle
after_walk s (done none) = done s
after_walk s (done (some cycle)) = or_panic (remove_cycle s cycle)
after_walk s panicked = panicked
after_walk s out_of_fuel = out_of_fuel

-- A round of the outer loop. The walk visits each place at most once.
unfoldable pub loop_round : LoopState → ℕ → Run LoopState
unfolding starts_cycle after_walk walk_cycle
loop_round s start = elim (starts_cycle s start) [
  | none ↦ panicked
  | some false ↦ done s
  | some true ↦
      after_walk s (walk_cycle s.graph start (suc (length s.graph.places)) start [] ([], []))
]

-- `for start_idx in 0..self.places.len()`, with `n` rounds left.
unfoldable pub loop_rounds : ℕ → ℕ → LoopState → Run LoopState
unfolding loop_round
loop_rounds zero start s = done s
loop_rounds (suc n) start s = elim (loop_round s start) [
  | done s' ↦ loop_rounds n (start + 1) s'
  | panicked ↦ panicked
  | out_of_fuel ↦ out_of_fuel
]

unfoldable pub remove_simple_loops : ReductionGraph → Run LoopState
unfolding loop_rounds
remove_simple_loops graph =
    loop_rounds (length graph.places) 0 (record { graph = graph; visited = []; steps = [] })
