-- ===== src/Detect/Cycles.antt =====
-- src/detect/deadlock.rs: the search for cycles on which the same locks stay blocked. `none` is a
-- panic. A hash set is a list and a hash map an association list. The recursion runs on fuel.
pub mod Close
pub mod Ends
use Prim.Native.String.{◌++◌ as ◌<>◌}
use rust_pta.Prelude.{ℕ, zero, suc, ◌+◌, Bool, true, false, not, ◌&&◌, ◌||◌, Option, none, some}
use rust_pta.Prelude.{◌>>=◌, Run, done, panicked, out_of_fuel, List, [], ◌∷◌, ◌++◌, map, length}
use rust_pta.Prelude.{ltb, leb, ◌==◌, if◌then◌else◌, String, min}
use rust_pta.Prelude.Text.{decimal, contains_text}
use rust_pta.Net.IndexVec.{TransitionId, PlaceId, iter_enumerated}
use rust_pta.Net.Structure.{TransitionType, lock, rw_lock_write, rw_lock_read}
use rust_pta.Analysis.Snapshot.{StateNode, StateEdge, StatePlaceSnapshot, TransitionSummary}
use rust_pta.Analysis.Reachability.{contains, insert, marking_eq}

-- What the detector reads of the petgraph `StableGraph` of a finished state graph.
pub record GraphView : Type 0 where
  pub node_indices : List ℕ
  -- `graph[index]`
  pub node : ℕ → Option StateNode
  -- the targets of the edges of a node
  pub targets : ℕ → List ℕ
  pub edge_weights : List StateEdge
  pub node_count : ℕ
  pub edge_count : ℕ

abbrev pub is_empty {ℓ} : {A : Type ℓ} → List A → Bool
is_empty [] = true
is_empty (_ ∷ _) = false

unfoldable pub sort_insert : ℕ → List ℕ → List ℕ
sort_insert x [] = x ∷ []
sort_insert x (y ∷ ys) = let rest = sort_insert x ys in if leb x y then x ∷ y ∷ ys else y ∷ rest

-- `sort_unstable`
unfoldable pub sort : List ℕ → List ℕ
unfolding sort_insert
sort [] = []
sort (x ∷ xs) = sort_insert x (sort xs)

-- `dedup`
unfoldable pub dedup : List ℕ → List ℕ
dedup (x ∷ y ∷ rest) = let others = dedup (y ∷ rest) in if x == y then others else x ∷ others
dedup xs = xs

abbrev pub LockMap : Type 0
LockMap = List (ℕ × List TransitionId)

-- `entry(lock_id).or_default().push(id)`
unfoldable pub push_lock : ℕ → TransitionId → LockMap → LockMap
push_lock lock_id id [] = (lock_id, id ∷ []) ∷ []
push_lock lock_id id ((key, ids) ∷ rest) =
    let others = push_lock lock_id id rest in
    if key == lock_id then (key, ids ++ id ∷ []) ∷ rest else (key, ids) ∷ others

unfoldable pub lock_of : TransitionType → Option ℕ
lock_of (lock id) = some id
lock_of (rw_lock_write id) = some id
lock_of (rw_lock_read id) = some id
lock_of _ = none

unfoldable pub push_edges : List StateEdge → LockMap → LockMap
unfolding lock_of push_lock
push_edges [] locks = locks
push_edges (edge ∷ rest) locks = push_edges rest (elim (lock_of (edge.transition).transition_type) [
  | none ↦ locks
  | some lock_id ↦ push_lock lock_id (edge.transition).id locks
])

unfoldable pub get_lock : ℕ → LockMap → Option (List TransitionId)
get_lock lock_id [] = none
get_lock lock_id ((key, ids) ∷ rest) = if key == lock_id then some ids else get_lock lock_id rest

-- `entry(key).or_insert_with(HashSet::new).extend(cycle)`
abbrev pub Groups : Type 0
Groups = List (List ℕ × List ℕ)

unfoldable pub insert_all : List ℕ → List ℕ → List ℕ
insert_all [] set = set
insert_all (x ∷ xs) set = insert_all xs (insert x set)

unfoldable pub extend_group : List ℕ → List ℕ → Groups → Groups
unfolding insert_all
extend_group key cycle [] = (key, insert_all cycle []) ∷ []
extend_group key cycle ((k, states) ∷ rest) =
    let others = extend_group key cycle rest in
    if marking_eq k key then (k, insert_all cycle states) ∷ rest else (k, states) ∷ others

unfoldable pub has_summary : TransitionId → List TransitionSummary → Bool
has_summary id [] = false
has_summary id (summary ∷ rest) = (summary.id == id) || has_summary id rest

-- `path.iter().position(|&x| x == next).unwrap()`, then the rest of the path from there
unfoldable pub path_from : ℕ → List ℕ → Option (List ℕ)
path_from next [] = none
path_from next (x ∷ xs) = if x == next then some (x ∷ xs) else path_from next xs

pub record Visit : Type 0 where
  pub visited : List ℕ
  pub stack : List ℕ
  pub groups : Groups

-- `stack.remove(&current)`
unfoldable pub remove : ℕ → List ℕ → List ℕ
remove x [] = []
remove x (y ∷ ys) = if x == y then remove x ys else y ∷ remove x ys

module _ (view : GraphView) where
  unfoldable pub collect_lock_transitions : LockMap
  unfolding push_edges sort dedup
  collect_lock_transitions =
      map (λ (e : ℕ × List TransitionId). (e.0, dedup (sort e.1))) (push_edges view.edge_weights [])

  unfoldable pub is_transition_enabled : ℕ → TransitionId → Option Bool
  unfolding has_summary
  is_transition_enabled state id = do node ← view.node state; some (has_summary id node.enabled)

  -- `transitions.iter().all(|transition| !self.is_transition_enabled(node, *transition))`
  unfoldable pub all_blocked : ℕ → List TransitionId → Option Bool
  unfolding is_transition_enabled
  all_blocked node [] = some true
  all_blocked node (id ∷ rest) = do
    enabled ← is_transition_enabled node id
    if enabled then some false else all_blocked node rest

  -- The locks of a map that are blocked at a node.
  unfoldable pub blocked_locks : ℕ → LockMap → Option (List ℕ)
  unfolding all_blocked
  blocked_locks node [] = some []
  blocked_locks node ((lock_id, ids) ∷ rest) = do
    blocked ← all_blocked node ids
    others ← blocked_locks node rest
    some (if blocked then lock_id ∷ others else others)

  -- The loop over `consistently_blocked` at a later node; a lock without transitions is passed over.
  unfoldable pub still_blocked : LockMap → ℕ → List ℕ → Option (List ℕ)
  unfolding all_blocked get_lock
  still_blocked locks node [] = some []
  still_blocked locks node (lock_id ∷ rest) = do
    blocked ← elim (get_lock lock_id locks) [ none ↦ some false | some ids ↦ all_blocked node ids ]
    others ← still_blocked locks node rest
    some (if blocked then lock_id ∷ others else others)

  -- `for &node in &cycle[1..]`: the inner `none` is `return None`. The intersection with the set that
  -- was computed from it is that set.
  unfoldable pub blocked_on : LockMap → List ℕ → List ℕ → Option (Option (List ℕ))
  unfolding still_blocked
  blocked_on locks [] blocked = some (some blocked)
  blocked_on locks (node ∷ rest) blocked = do
    current ← still_blocked locks node blocked
    elim (is_empty current) [ true ↦ some none | false ↦ blocked_on locks rest current ]

  -- `edges(node).all(|edge| cycle.contains(&edge.target()))` for each node of the cycle
  unfoldable pub all_in : List ℕ → List ℕ → Bool
  all_in cycle [] = true
  all_in cycle (x ∷ xs) = contains x cycle && all_in cycle xs

  unfoldable pub is_stable : List ℕ → List ℕ → Bool
  unfolding all_in
  is_stable cycle [] = true
  is_stable cycle (node ∷ rest) = all_in cycle (view.targets node) && is_stable cycle rest

  unfoldable pub get_consistently_blocked_transitions : List ℕ → Option (Option (List ℕ))
  unfolding collect_lock_transitions blocked_locks blocked_on is_stable all_in
  get_consistently_blocked_transitions [] = none
  get_consistently_blocked_transitions (first ∷ rest) = do
    let locks = collect_lock_transitions
    at_first ← blocked_locks first locks
    on_cycle ← blocked_on locks rest at_first
    elim on_cycle [
      | none ↦ some none
      | some blocked ↦ some (
          if all_in blocked (map (λ (e : ℕ × List TransitionId). e.0) locks)
          then none
          else if is_stable (first ∷ rest) (first ∷ rest)
          then some blocked
          else none)
    ]

  -- The branch for an edge to a node on the stack.
  unfoldable pub close_cycle : ℕ → List ℕ → Visit → Option Visit
  unfolding path_from get_consistently_blocked_transitions extend_group sort
  close_cycle next path s = do
    cycle ← path_from next path
    blocked ← get_consistently_blocked_transitions cycle
    elim blocked [
      | none ↦ some s
      | some set ↦
          some (
            if is_empty set
            then s
            else record s { groups = extend_group (sort set) cycle s.groups })
    ]

  -- The loop over the edges of a node, given the recursive call.
  unfoldable pub visit_edges :
      (ℕ → List ℕ → Visit → Run Visit) → List ℕ → List ℕ → Visit → Run Visit
  unfolding close_cycle
  visit_edges rec path [] s = done s
  visit_edges rec path (next ∷ rest) s = elim (contains next s.visited) [
    | false ↦ elim (rec next path s) [
      | done s' ↦ visit_edges rec path rest s'
      | panicked ↦ panicked
      | out_of_fuel ↦ out_of_fuel
    ]
    | true ↦ elim (contains next s.stack) [
      | false ↦ visit_edges rec path rest s
      | true ↦ elim (close_cycle next path s) [
        | some s' ↦ visit_edges rec path rest s'
        | none ↦ panicked
      ]
    ]
  ]

  abbrev pub entered : ℕ → Visit → Visit
  entered current s = record s {
    visited = insert current s.visited;
    stack = insert current s.stack;
  }

  -- The recursion, on fuel for its depth.
  unfoldable pub find_deadlock_cycles : ℕ → ℕ → List ℕ → Visit → Run Visit
  unfolding visit_edges remove
  find_deadlock_cycles zero current path s = out_of_fuel
  find_deadlock_cycles (suc fuel) current path s =
      elim (visit_edges (find_deadlock_cycles fuel) (path ++ current ∷ []) (view.targets current)
        (entered current s)) [
          | done s' ↦ done (record s' { stack = remove current s'.stack })
          | panicked ↦ panicked
          | out_of_fuel ↦ out_of_fuel
        ]
