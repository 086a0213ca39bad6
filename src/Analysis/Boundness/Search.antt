-- ===== src/Analysis/Boundness/Search.antt =====
-- src/analysis/boundness.rs: `check_by_coverability_tree` and the checks that call it. The lines that
-- print progress are left out.
use rust_pta.Prelude.{ℕ, zero, suc, ◌+◌, Option, none, some, ◌>>=◌}
use rust_pta.Prelude.{List, [], ◌∷◌, ◌++◌, map, get_elem?, ltb, if◌then◌else◌, for_each}
use rust_pta.Net.IndexVec.{PlaceId, TransitionId, from_usize}
use rust_pta.Net.Structure.{Marking}
use rust_pta.Net.Core.{Net, Result, ok, err, initial_marking, enabled_transitions, fire_transition}
use rust_pta.Net.Core.{firing}
use rust_pta.Analysis.Reachability.{Run, done, panicked, out_of_fuel, contains}
use rust_pta.Analysis.Boundness.{
  state_limit_exceeded, feature_needed, undetermined, BoundnessResult, bounded, unbounded, unknown,
  Tokens, CoverTree, new_root, has_omega, add_child, covers_tokens, covers, is_covered, walk,
  find_path_to_node, smaller_tokens, all_smaller, any_smaller, is_strictly_smaller, grown,
  mark_growth, mark_node, create_omega_marking, needs_omega,
}

pub record BoundnessAnalyzer : Type 0 where
  pub state_limit : Option ℕ

-- The variables of the search.
pub record Cover : Type 0 where
  pub tree : CoverTree
  pub queue : List ℕ
  pub visited_count : ℕ

-- The places with an ω, from index `i` on.
unfoldable pub omega_places : ℕ → List Tokens → List PlaceId
omega_places i [] = []
omega_places i (none ∷ rest) = from_usize i ∷ omega_places (suc i) rest
omega_places i (some _ ∷ rest) = omega_places (suc i) rest

-- What is pushed for a node is reversed in the end, so it goes to the front.
unfoldable pub push_front : Option TransitionId → List TransitionId → List TransitionId
push_front none witness_sequence = witness_sequence
push_front (some trans) witness_sequence = trans ∷ witness_sequence

-- The loop that follows the parents back to the root.
unfoldable pub backtrack : ℕ → CoverTree → List TransitionId → ℕ → Option (List TransitionId)
backtrack zero tree witness_sequence current = none
backtrack (suc fuel) tree witness_sequence current = do
  node ← get_elem? tree current
  elim node.parent [
    | none ↦ some witness_sequence
    | some parent ↦
        backtrack fuel tree (push_front node.transition_from_parent witness_sequence) parent
  ]

-- `unwrap_or(0)`
unfoldable pub unwrap_or_zero : Tokens → ℕ
unwrap_or_zero none = 0
unwrap_or_zero (some tokens) = tokens

-- `tree.add_child` and `queue.push_back`.
unfoldable pub attach : ℕ → List Tokens → TransitionId → Cover → Option Cover
attach node_index marking transition_id s = do
  (tree, child_idx) ← add_child s.tree node_index marking transition_id
  some (record s { tree = tree; queue = s.queue ++ child_idx ∷ [] })

-- The new marking is covered by a node on the way to the root, or by another.
unfoldable pub cover_path : ℕ → List Tokens → TransitionId → Cover → Option (List ℕ) → Option Cover
cover_path node_index next_marking transition_id s none =
    attach node_index next_marking transition_id s
cover_path node_index next_marking transition_id s (some path_nodes) = do
  grows ← needs_omega s.tree next_marking path_nodes
  if grows
      then (do
        omega_marking ← create_omega_marking s.tree path_nodes next_marking
        attach node_index omega_marking transition_id s)
      else some s

unfoldable pub cover_next : ℕ → List Tokens → TransitionId → Cover → Option Cover
cover_next node_index next_marking transition_id s = elim (is_covered 0 s.tree next_marking) [
  | none ↦ attach node_index next_marking transition_id s
  | some covered_by ↦
      find_path_to_node s.tree node_index covered_by
      >>= cover_path node_index next_marking transition_id s
]

unfoldable pub cover_result : ℕ → TransitionId → Cover → Result Marking → Option Cover
cover_result node_index transition_id s (err e) = some s
cover_result node_index transition_id s (ok next_marking) =
    cover_next node_index (map some next_marking) transition_id s

-- The body of the loop over the enabled transitions.
unfoldable pub cover_fire : Net → ℕ → Marking → Cover → TransitionId → Option Cover
cover_fire net node_index temp_marking s transition_id =
    fire_transition net temp_marking transition_id >>= cover_result node_index transition_id s

-- The limit, if the count is beyond it.
unfoldable pub over_limit : Option ℕ → ℕ → Option ℕ
over_limit none count = none
over_limit (some limit) count = if ltb limit count then some limit else none

-- A node without ω is expanded.
unfoldable pub cover_expand : Net → ℕ → List Tokens → Cover → Option Cover
cover_expand net node_index marking s = do
  let temp_marking = map unwrap_or_zero marking
  enabled ← enabled_transitions net temp_marking
  for_each (cover_fire net node_index temp_marking) s enabled

unfoldable pub report : CoverTree → ℕ → List Tokens → Option BoundnessResult
report tree node_index marking = do
  witness_sequence ← backtrack (suc node_index) tree [] node_index
  some (unbounded (omega_places 0 marking) (some witness_sequence))

-- The answer of one round, or the state for the next.
pub data Round : Type 0 where
  answer : BoundnessResult → Round
  next : Cover → Round

unfoldable pub cover_node : Net → ℕ → Cover → Option Round
cover_node net node_index s = do
  node ← get_elem? s.tree node_index
  if has_omega node.marking
      then (do r ← report s.tree node_index node.marking; some (answer r))
      else (do s' ← cover_expand net node_index node.marking s; some (next s'))

unfoldable pub cover_visit : BoundnessAnalyzer → Net → ℕ → Cover → Option Round
cover_visit self net node_index s = elim (over_limit self.state_limit s.visited_count) [
  | some limit ↦ some (answer (unknown (state_limit_exceeded limit)))
  | none ↦ cover_node net node_index s
]

unfoldable pub cover_round : BoundnessAnalyzer → Net → List ℕ → Cover → Option Round
cover_round self net [] s = some (answer bounded)
cover_round self net (node_index ∷ rest) s =
    cover_visit self net node_index (record s { queue = rest; visited_count = s.visited_count + 1 })

unfoldable pub cover_loop : BoundnessAnalyzer → Net → ℕ → Cover → Run BoundnessResult
cover_loop self net zero s = out_of_fuel
cover_loop self net (suc fuel) s = elim (cover_round self net s.queue s) [
  | none ↦ panicked
  | some (answer r) ↦ done r
  | some (next s') ↦ cover_loop self net fuel s'
]

unfoldable pub cover_start : Net → Cover
cover_start net = record {
  tree = new_root (initial_marking net) ∷ [];
  queue = 0 ∷ [];
  visited_count = 0;
}

unfoldable pub check_by_coverability_tree : BoundnessAnalyzer → Net → ℕ → Run BoundnessResult
check_by_coverability_tree self net fuel = cover_loop self net fuel (cover_start net)

-- Without the feature `invariants`.
unfoldable pub check_by_p_invariants : BoundnessAnalyzer → Net → BoundnessResult
check_by_p_invariants self net = unknown feature_needed

unfoldable pub settle : BoundnessResult → BoundnessResult
settle (unknown reason) = unknown undetermined
settle r = r

unfoldable pub map_run :
    (BoundnessResult → BoundnessResult) → Run BoundnessResult → Run BoundnessResult
map_run f (done r) = done (f r)
map_run f panicked = panicked
map_run f out_of_fuel = out_of_fuel

unfoldable pub or_by_coverability_tree :
    BoundnessAnalyzer → Net → ℕ → BoundnessResult → Run BoundnessResult
or_by_coverability_tree self net fuel bounded = done bounded
or_by_coverability_tree self net fuel _ = map_run settle (check_by_coverability_tree self net fuel)

unfoldable pub check : BoundnessAnalyzer → Net → ℕ → Run BoundnessResult
check self net fuel = or_by_coverability_tree self net fuel (check_by_p_invariants self net)

-- `BoundnessAnalyzer::default`
abbrev pub default_analyzer : BoundnessAnalyzer
default_analyzer = record { state_limit = some 10000 }

unfoldable pub check_boundness : Net → ℕ → Run BoundnessResult
check_boundness net fuel = check default_analyzer net fuel

unfoldable pub for_place : PlaceId → BoundnessResult → BoundnessResult
for_place place bounded = bounded
for_place place (unbounded unbounded_places witness_sequence) =
    if contains place unbounded_places then unbounded (place ∷ []) witness_sequence else bounded
for_place place (unknown reason) = unknown reason

unfoldable pub check_place_boundness : Net → PlaceId → ℕ → Run BoundnessResult
check_place_boundness net place fuel = map_run (for_place place) (check default_analyzer net fuel)

-- Whoever unfolds this can run the check.
unfoldable pub checking : Unit {0}
unfolding check check_by_p_invariants or_by_coverability_tree map_run settle
    check_by_coverability_tree cover_start cover_loop cover_round cover_visit cover_node report
    cover_expand over_limit cover_fire cover_result cover_next cover_path attach unwrap_or_zero
    backtrack push_front omega_places contains initial_marking firing new_root has_omega add_child
    covers_tokens covers is_covered walk find_path_to_node smaller_tokens all_smaller any_smaller
    is_strictly_smaller grown mark_growth mark_node create_omega_marking needs_omega
checking = tt
