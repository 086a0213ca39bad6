-- ===== src/Detect/Cycles/Close.antt =====
-- src/detect/deadlock.rs: closing a cycle does not panic.
use rust_pta.Prelude.{ℕ, ◌≡◌, refl, sym, inl, inr}
use rust_pta.Prelude.{true, false, Bool-cases, Option}
use rust_pta.Prelude.{none, some, List, [], ◌∷◌, ◌∈◌}
use rust_pta.Prelude.{if◌then◌else◌, Returns, List-cases, Option-cases, ==→≢, ◌==◌, map, All}
use rust_pta.Net.IndexVec.{TransitionId}
use rust_pta.Analysis.Reachability.{insert, marking_eq}
use rust_pta.Analysis.Reachability.Map.{mem-insert}
use rust_pta.Detect.Cycles.{
  GraphView, Visit, LockMap, path_from, is_transition_enabled, all_blocked, blocked_locks,
  still_blocked, blocked_on, get_consistently_blocked_transitions, collect_lock_transitions,
  close_cycle, get_lock, is_stable, all_in, extend_group, sort, has_summary, Groups, insert_all,
}

abbrev pub Within : List ℕ → List ℕ → Type 0
Within xs ys = (x : ℕ) → x ∈ xs → x ∈ ys

-- The edges of the graph lead to its nodes, and each node has its data.
pub record IsClosed (view : GraphView) : Type 0 where
  pub nodes : (i : ℕ) → i ∈ view.node_indices → Returns (view.node i)
  pub edges : (i : ℕ) → i ∈ view.node_indices → Within (view.targets i) view.node_indices

module _ (view : GraphView) (closed : IsClosed view) where
  abbrev Inside : List ℕ → Type 0
  Inside xs = Within xs view.node_indices

  path_from_lem :
      (next : ℕ) (path : List ℕ)
      → next ∈ path
      → (first : ℕ) × (rest : List ℕ) × (path_from next path ≡ some (first ∷ rest))
        × Within (first ∷ rest) path
  unfolding path_from
  path_from_lem next [] m = absurd m
  path_from_lem next (x ∷ xs) m = elim (Bool-cases (x == next)) [
    | inl e ↦ (x, xs, rw (path_from, e) refl, λ y h. h)
    | inr ne ↦ elim m [
      | inl here ↦ absurd (==→≢ x next ne (sym here))
      | inr later ↦
          let (first, rest, e, within) = path_from_lem next xs later in
          (first, rest, rw (path_from, ne) e, λ y h. inr (within y h))
    ]
  ]

  all_blocked-Returns :
      (node : ℕ) (ids : List TransitionId)
      → Returns (view.node node)
      → Returns (all_blocked view node ids)
  unfolding all_blocked is_transition_enabled
  all_blocked-Returns node [] at = (true, refl)
  all_blocked-Returns node (id ∷ ids) (state, at) =
      let (b, e) = all_blocked-Returns node ids (state, at) in
      elim (Bool-cases (has_summary id state.enabled)) [
        | inl on ↦ (false, rw (all_blocked, is_transition_enabled, at, on) refl)
        | inr off ↦ (b, rw (all_blocked, is_transition_enabled, at, off) e)
      ]

  blocked_locks-Returns :
      (node : ℕ) (locks : LockMap)
      → Returns (view.node node)
      → Returns (blocked_locks view node locks)
  unfolding blocked_locks
  blocked_locks-Returns node [] at = ([], refl)
  blocked_locks-Returns node ((lock_id, ids) ∷ locks) at =
      let (b, e) = all_blocked-Returns node ids at in
      let (others, e') = blocked_locks-Returns node locks at in
      (if b then lock_id ∷ others else others, rw (blocked_locks, e, e') refl)

  one_blocked-Returns :
      (node : ℕ) (ids : Option (List TransitionId))
      → Returns (view.node node)
      → Returns (elim ids [ none ↦ some false | some ids ↦ all_blocked view node ids ])
  one_blocked-Returns node none at = (false, refl)
  one_blocked-Returns node (some ids) at = all_blocked-Returns node ids at

  still_blocked-Returns :
      (locks : LockMap) (node : ℕ) (blocked : List ℕ)
      → Returns (view.node node)
      → Returns (still_blocked view locks node blocked)
  unfolding still_blocked
  still_blocked-Returns locks node [] at = ([], refl)
  still_blocked-Returns locks node (lock_id ∷ blocked) at =
      let (b, e) = one_blocked-Returns node (get_lock lock_id locks) at in
      let (others, e') = still_blocked-Returns locks node blocked at in
      (if b then lock_id ∷ others else others, rw (still_blocked, e, e') refl)

  blocked_on-Returns :
      (locks : LockMap) (cycle blocked : List ℕ)
      → Inside cycle
      → Returns (blocked_on view locks cycle blocked)
  unfolding blocked_on
  blocked_on-Returns locks [] blocked inside = (some blocked, refl)
  blocked_on-Returns locks (node ∷ cycle) blocked inside =
      let (current, e) =
        still_blocked-Returns locks node blocked (closed.nodes node (inside node (inl refl))) in
      let (r, e') = blocked_on-Returns locks cycle current (λ x m. inside x (inr m)) in
      elim (List-cases current) [
        | inl gone ↦ (none, rw (blocked_on, e, gone) refl)
        | inr (x, xs, left) ↦ (r, rw (blocked_on, e, left) (rw left at e'))
      ]

  consistently-Returns :
      (first : ℕ) (rest : List ℕ)
      → Inside (first ∷ rest)
      → Returns (get_consistently_blocked_transitions view (first ∷ rest))
  unfolding get_consistently_blocked_transitions
  consistently-Returns first rest inside =
      let (at_first, e) =
        blocked_locks-Returns first (collect_lock_transitions view)
          (closed.nodes first (inside first (inl refl))) in
      let (r, e') =
        blocked_on-Returns (collect_lock_transitions view) rest at_first
          (λ x m. inside x (inr m)) in
      elim (Option-cases r) [
        | inl cut ↦ (none, rw (get_consistently_blocked_transitions, e, e', cut) refl)
        | inr (blocked, er) ↦ (
          if all_in view blocked
                (map (λ (l : ℕ × List TransitionId). l.0) (collect_lock_transitions view))
              then none
              else if is_stable view (first ∷ rest) (first ∷ rest)
              then some blocked
              else none,
          rw (get_consistently_blocked_transitions, e, e', er) refl,
        )
      ]

  -- The states of the groups are nodes.
  abbrev pub GroupsIn : Groups → Type 0
  GroupsIn groups = All (λ (g : List ℕ × List ℕ). Within g.1 view.node_indices) groups

  insert_all_within : (xs set : List ℕ) → Inside xs → Inside set → Inside (insert_all xs set)
  unfolding insert_all
  insert_all_within [] set hx hs = hs
  insert_all_within (x ∷ xs) set hx hs =
      insert_all_within xs (insert x set) (λ y m. hx y (inr m))
        (λ y m. elim ((mem-insert x y set).0 m) [ inl e ↦ hx y (inl e) | inr m' ↦ hs y m' ])

  extend_group-GroupsIn :
      (key cycle : List ℕ) (groups : Groups)
      → Inside cycle
      → GroupsIn groups
      → GroupsIn (extend_group key cycle groups)
  unfolding extend_group
  extend_group-GroupsIn key cycle [] hc h = (insert_all_within cycle [] hc (λ x m. absurd m), tt)
  extend_group-GroupsIn key cycle ((k, states) ∷ groups) hc h =
      elim (Bool-cases (marking_eq k key)) [
        | inl same ↦ rw same (insert_all_within cycle states hc h.0, h.1)
        | inr apart ↦ rw apart (h.0, extend_group-GroupsIn key cycle groups hc h.1)
      ]

  -- Closing a cycle changes the groups alone.
  pub close_cycle_lem :
      (next : ℕ) (path : List ℕ) (s : Visit)
      → next ∈ path
      → Inside path
      → (s' : Visit) × (close_cycle view next path s ≡ some s')
        × (s'.visited ≡ s.visited)
        × (s'.stack ≡ s.stack)
        × (GroupsIn s.groups → GroupsIn s'.groups)
  unfolding close_cycle
  close_cycle_lem next path s m inside =
      let (first, rest, e, within) = path_from_lem next path m in
      let (blocked, e') = consistently-Returns first rest (λ x h. inside x (within x h)) in
      elim (Option-cases blocked) [
        | inl cut ↦ (s, rw (close_cycle, e, e', cut) refl, refl, refl, λ h. h)
        | inr (set, es) ↦ elim (List-cases set) [
          | inl gone ↦ (s, rw (close_cycle, e, e', es, gone) refl, refl, refl, λ h. h)
          | inr (x, xs, left) ↦ (
            record s { groups = extend_group (sort (x ∷ xs)) (first ∷ rest) s.groups },
            rw (close_cycle, e, e', es, left) refl,
            refl,
            refl,
            extend_group-GroupsIn (sort (x ∷ xs)) (first ∷ rest) s.groups
                (λ y h. inside y (within y h)),
          )
        ]
      ]
