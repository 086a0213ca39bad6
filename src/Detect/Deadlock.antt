-- ===== src/Detect/Deadlock.antt =====
-- src/detect/deadlock.rs: the deadlock detector, on a finished state graph. A hash set is a list;
-- where the code iterates a set of nodes and the result depends on the order, the order is a
-- parameter. The time that the analysis takes is left out of the report.
pub mod Detects
pub mod Reports
pub mod Stuck
use Prim.Native.String.{◌++◌ as ◌<>◌}
use rust_pta.Prelude.{ℕ, zero, suc, ◌+◌, Bool, true, false, not, ◌&&◌, ◌||◌, Option, none, some}
use rust_pta.Prelude.{◌>>=◌, Run, done, panicked, out_of_fuel, List, [], ◌∷◌, ◌++◌, map, length}
use rust_pta.Prelude.{ltb, ◌==◌, if◌then◌else◌, String, min}
use rust_pta.Prelude.Text.{decimal, contains_text}
use rust_pta.Net.IndexVec.{PlaceId, iter_enumerated}
use rust_pta.Analysis.Snapshot.{StateNode, StatePlaceSnapshot}
use rust_pta.Analysis.Reachability.{contains, insert}
use rust_pta.Detect.Cycles.{GraphView, Visit, Groups, find_deadlock_cycles, is_empty, insert_all}

pub record DeadlockState : Type 0 where
  pub state_id : String
  pub marking : List (String × ℕ)
  pub description : String

pub record DeadlockTrace : Type 0 where
  pub steps : List String
  pub final_state : Option DeadlockState

pub record StateSpaceInfo : Type 0 where
  pub total_states : ℕ
  pub total_transitions : ℕ
  pub reachable_states : ℕ

pub record DeadlockReport : Type 0 where
  pub tool_name : String
  pub has_deadlock : Bool
  pub deadlock_count : ℕ
  pub deadlock_states : List DeadlockState
  pub traces : List DeadlockTrace
  pub state_space_info : Option StateSpaceInfo
  pub error : Option String

-- `place.tokens > 0 && place.name.contains("main_end")`, for any of the places
unfoldable pub is_normal_termination : List StatePlaceSnapshot → Bool
is_normal_termination [] = false
is_normal_termination (place ∷ rest) =
    (ltb 0 place.tokens && contains_text place.name "main_end") || is_normal_termination rest

unfoldable pub find_snapshot : PlaceId → List StatePlaceSnapshot → Option StatePlaceSnapshot
find_snapshot place_id [] = none
find_snapshot place_id (p ∷ rest) =
    if p.place == place_id then some p else find_snapshot place_id rest

unfoldable pub describe : PlaceId → Option StatePlaceSnapshot → String
describe place_id none = "place#" <> decimal place_id
describe place_id (some p) = p.name <> (" (" <> (p.span <> ")"))

-- The `filter_map` over the marking; a count is cut off at `u8::MAX`.
unfoldable pub format_marking : List StatePlaceSnapshot → List (PlaceId × ℕ) → List (String × ℕ)
unfolding find_snapshot describe
format_marking places [] = []
format_marking places ((place_id, tokens) ∷ rest) =
    let others = format_marking places rest in
    if tokens == 0
    then others
    else (describe place_id (find_snapshot place_id places), min tokens 255) ∷ others

-- The first of a set of states, in the order in which the set is iterated.
unfoldable pub insert_first : List ℕ → List ℕ → List ℕ
insert_first [] deadlocks = deadlocks
insert_first (state ∷ _) deadlocks = insert state deadlocks

module _ (view : GraphView) (order : List ℕ → List ℕ) where
  -- The loop over the start nodes.
  unfoldable pub find_all : ℕ → List ℕ → Visit → Run Visit
  unfolding find_deadlock_cycles
  find_all fuel [] s = done s
  find_all fuel (start ∷ rest) s = elim (contains start s.visited) [
    | true ↦ find_all fuel rest s
    | false ↦ elim (find_deadlock_cycles view fuel start [] s) [
      | done s' ↦ find_all fuel rest s'
      | panicked ↦ panicked
      | out_of_fuel ↦ out_of_fuel
    ]
  ]

  unfoldable pub one_of_each : Groups → List ℕ → List ℕ
  unfolding insert_first
  one_of_each [] deadlocks = deadlocks
  one_of_each ((_, states) ∷ rest) deadlocks =
      one_of_each rest (insert_first (order states) deadlocks)

  -- No path of the search is longer than the number of nodes.
  unfoldable pub detect_cycle_deadlocks : Run (List ℕ)
  unfolding find_all one_of_each
  detect_cycle_deadlocks =
      elim (find_all (suc (length view.node_indices)) view.node_indices
        (record { visited = []; stack = []; groups = [] })) [
          | done s ↦ done (one_of_each s.groups [])
          | panicked ↦ panicked
          | out_of_fuel ↦ out_of_fuel
        ]

  -- `is_terminal && !is_normal_termination`
  unfoldable pub is_deadlock : ℕ → Option Bool
  unfolding is_normal_termination
  is_deadlock node_idx = do
    state ← view.node node_idx
    some (is_empty (view.targets node_idx) && not (is_normal_termination state.places))

  -- The loop over the nodes, from `deadlocks` on.
  unfoldable pub terminal_deadlocks : List ℕ → List ℕ → Option (List ℕ)
  unfolding is_deadlock
  terminal_deadlocks [] deadlocks = some deadlocks
  terminal_deadlocks (node_idx ∷ rest) deadlocks = do
    found ← is_deadlock node_idx
    terminal_deadlocks rest (if found then insert node_idx deadlocks else deadlocks)

  unfoldable pub or_cycles : List ℕ → Run (List ℕ)
  unfolding detect_cycle_deadlocks
  or_cycles [] = detect_cycle_deadlocks
  or_cycles (x ∷ xs) = done (x ∷ xs)

  unfoldable pub detect_reachability_deadlock : Run (List ℕ)
  unfolding terminal_deadlocks or_cycles
  detect_reachability_deadlock = elim (terminal_deadlocks view.node_indices []) [
    | none ↦ panicked
    | some deadlocks ↦ or_cycles deadlocks
  ]

  unfoldable pub format_deadlock_state : ℕ → Option DeadlockState
  unfolding format_marking
  format_deadlock_state node = do
    state ← view.node node
    some record {
      state_id = "s" <> decimal state.index;
      marking = format_marking state.places (iter_enumerated state.marking);
      description = "Deadlock state with blocked resources";
    }

  unfoldable pub create_deadlock_trace : ℕ → Option DeadlockTrace
  unfolding format_deadlock_state
  create_deadlock_trace node = do
    final ← format_deadlock_state node
    some record { steps = "Path reconstruction not implemented yet" ∷ []; final_state = some final }

  unfoldable pub collect_state_space_info : StateSpaceInfo
  collect_state_space_info = record {
    total_states = view.node_count;
    total_transitions = view.edge_count;
    reachable_states = view.node_count;
  }

  -- The loop over the deadlocks, which pushes a state and a trace for each.
  unfoldable pub report_states : List ℕ → Option (List DeadlockState × List DeadlockTrace)
  unfolding create_deadlock_trace
  report_states [] = some ([], [])
  report_states (node ∷ rest) = do
    state ← format_deadlock_state node
    trace ← create_deadlock_trace node
    (states, traces) ← report_states rest
    some (state ∷ states, trace ∷ traces)

  -- `!all_deadlocks.is_empty()`: the loop is run.
  unfoldable pub report_each : List ℕ → Option (List DeadlockState × List DeadlockTrace)
  unfolding report_states
  report_each [] = some ([], [])
  report_each (x ∷ xs) = report_states (order (x ∷ xs))

  unfoldable pub report_deadlocks : List ℕ → Option DeadlockReport
  unfolding report_each collect_state_space_info
  report_deadlocks deadlocks = do
    (states, traces) ← report_each deadlocks
    some record {
      tool_name = "Petri Net Deadlock Detector";
      has_deadlock = not (is_empty deadlocks);
      deadlock_count = length deadlocks;
      deadlock_states = states;
      traces = traces;
      state_space_info = some collect_state_space_info;
      error = none;
    }

  -- `dependency_deadlocks` is empty.
  unfoldable pub detect : Run DeadlockReport
  unfolding detect_reachability_deadlock report_deadlocks insert_all
  detect = elim detect_reachability_deadlock [
    | panicked ↦ panicked
    | out_of_fuel ↦ out_of_fuel
    | done found ↦ elim (report_deadlocks (insert_all found [])) [
      | none ↦ panicked
      | some report ↦ done report
    ]
  ]
