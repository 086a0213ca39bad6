-- ===== src/Detect/Cycles/Ends.antt =====
-- src/detect/deadlock.rs: the search for cycles ends and does not panic.
use rust_pta.Prelude.{ℕ, zero, suc, ◌<◌, ◌≤◌, ◌≡◌, ◌≢◌, refl, sym, ◌∙◌, ◌⊎◌, inl, inr}
use rust_pta.Prelude.{arith, subst, true, false, Bool-cases}
use rust_pta.Prelude.{some, Run, done, List, [], ◌∷◌, ◌++◌, ◌∈◌, mem-append, length}
use rust_pta.Prelude.{if◌then◌else◌, ◌==◌}
use rust_pta.Analysis.Reachability.{contains, insert}
use rust_pta.Analysis.Reachability.Map.{contains_iff, mem-insert}
use rust_pta.Detect.Cycles.{
  GraphView, Visit, remove, close_cycle, visit_edges, entered, find_deadlock_cycles,
}
use rust_pta.Detect.Cycles.Close.{Within, IsClosed, GroupsIn, close_cycle_lem}

-- How many of the listed nodes are not visited.
abbrev unseen : List ℕ → List ℕ → ℕ
unseen [] visited = 0
unseen (i ∷ is) visited = if contains i visited then unseen is visited else suc (unseen is visited)

unseen-le : (is visited : List ℕ) → unseen is visited ≤ length is
unseen-le [] visited = omega arith
unseen-le (i ∷ is) visited = ground (arith, unseen-le is visited)

contains_mono : (i : ℕ) (a b : List ℕ) → Within a b → contains i a ≡ true → contains i b ≡ true
contains_mono i a b h e = (contains_iff i b).1 (h i ((contains_iff i a).0 e))

unseen_mono : (is a b : List ℕ) → Within a b → unseen is b ≤ unseen is a
unseen_mono [] a b h = omega arith
unseen_mono (i ∷ is) a b h = ground (arith, unseen_mono is a b h, contains_mono i a b h)

Within-insert : (i : ℕ) (set : List ℕ) → Within set (insert i set)
Within-insert i set x m = (mem-insert i x set).1 (inr m)

contains-insert : (i : ℕ) (set : List ℕ) → contains i (insert i set) ≡ true
contains-insert i set = (contains_iff i (insert i set)).1 ((mem-insert i i set).1 (inl refl))

unseen-insert :
    (is : List ℕ) (i : ℕ) (visited : List ℕ)
    → i ∈ is
    → contains i visited ≡ false
    → unseen is (insert i visited) < unseen is visited
unseen-insert [] i visited m new = absurd m
unseen-insert (j ∷ is) i visited (inl e) new =
    let le = unseen_mono is visited (insert i visited) (Within-insert i visited) in
    let seen : contains j (insert i visited) ≡ true = rw (sym e) (contains-insert i visited) in
    let new' : contains j visited ≡ false = rw (sym e) new in rw (seen, new') (omega (arith, le))
unseen-insert (j ∷ is) i visited (inr m) new = ground (
  arith,
  unseen-insert is i visited m new,
  contains_mono j visited (insert i visited) (Within-insert i visited),
)

remove_mem : (x y : ℕ) (ys : List ℕ) → y ∈ remove x ys → (y ∈ ys) × (y ≢ x)
unfolding remove
remove_mem x y [] m = absurd m
remove_mem x y (z ∷ ys) m = elim (Bool-cases (x == z)) [
  | inl e ↦ let (m', ne) = remove_mem x y ys (rw e at m) in (inr m', ne)
  | inr e ↦ elim (rw e at m) [
    | inl here ↦ (inl here, ground arith)
    | inr later ↦ let (m', ne) = remove_mem x y ys later in (inr m', ne)
  ]
]

module _ (view : GraphView) (closed : IsClosed view) where
  -- The stack lies on the path, and visits are not forgotten.
  record Keeps (path : List ℕ) (s s' : Visit) : Type 0 where
    on_path : Within s'.stack path
    grows : Within s.visited s'.visited
    groups : GroupsIn view closed s.groups → GroupsIn view closed s'.groups

  -- The recursive call, at a node that is not visited, with fuel for those that are not.
  abbrev Ends : (ℕ → List ℕ → Visit → Run Visit) → ℕ → Type 0
  Ends rec fuel =
      (current : ℕ) (path : List ℕ) (s : Visit)
      → current ∈ view.node_indices
      → contains current s.visited ≡ false
      → Within path view.node_indices
      → Within s.stack path
      → unseen view.node_indices s.visited < fuel
      → (s' : Visit) × (rec current path s ≡ done s') × Keeps path s s'

  Keeps-trans : (path : List ℕ) (a b c : Visit) → Keeps path a b → Keeps path b c → Keeps path a c
  Keeps-trans path a b c h k = record {
    on_path = k.on_path;
    grows = λ x m. k.grows x (h.grows x m);
    groups = λ g. k.groups (h.groups g);
  }

  module _ (rec : ℕ → List ℕ → Visit → Run Visit) (path : List ℕ) (next : ℕ) (rest : List ℕ)
      (s s' : Visit) where
    visit_new :
        contains next s.visited ≡ false
        → rec next path s ≡ done s'
        → visit_edges view rec path (next ∷ rest) s ≡ visit_edges view rec path rest s'
    unfolding visit_edges
    visit_new e e' = rw (visit_edges, e, e') refl

    visit_left :
        contains next s.visited ≡ true
        → contains next s.stack ≡ false
        → visit_edges view rec path (next ∷ rest) s ≡ visit_edges view rec path rest s
    unfolding visit_edges
    visit_left e e' = rw (visit_edges, e, e') refl

    visit_back :
        contains next s.visited ≡ true
        → contains next s.stack ≡ true
        → close_cycle view next path s ≡ some s'
        → visit_edges view rec path (next ∷ rest) s ≡ visit_edges view rec path rest s'
    unfolding visit_edges
    visit_back e e' e'' = rw (visit_edges, e, e', e'') refl

  visit_edges_lem :
      (rec : ℕ → List ℕ → Visit → Run Visit) (fuel : ℕ)
      → Ends rec fuel
      → (path nexts : List ℕ) (s : Visit) → Within path view.node_indices
      → Within nexts view.node_indices
      → Within s.stack path
      → unseen view.node_indices s.visited < fuel
      → (s' : Visit) × (visit_edges view rec path nexts s ≡ done s') × Keeps path s s'
  unfolding visit_edges
  visit_edges_lem rec fuel ends path [] s inside nexts_in on_path enough =
      (s, refl, record { on_path = on_path; grows = λ x m. m; groups = λ g. g })
  visit_edges_lem rec fuel ends path (next ∷ rest) s inside nexts_in on_path enough =
      let rest_in = λ (x : ℕ) (m : x ∈ rest). nexts_in x (inr m) in
      elim (Bool-cases (contains next s.visited)) [
        | inr new ↦
            let (t, e, k) = ends next path s (nexts_in next (inl refl)) new inside on_path enough in
            let (u, e', k') =
              visit_edges_lem rec fuel ends path rest t inside rest_in k.on_path
                (omega (arith, unseen_mono view.node_indices s.visited t.visited k.grows)) in
            (u, visit_new rec path next rest s t new e ∙ e', Keeps-trans path s t u k k')
        | inl old ↦ elim (Bool-cases (contains next s.stack)) [
          | inr left ↦
              let (u, e', k') =
                visit_edges_lem rec fuel ends path rest s inside rest_in on_path enough in
              (u, visit_left rec path next rest s s old left ∙ e', k')
          | inl back ↦
              let m = on_path next ((contains_iff next s.stack).0 back) in
              let (t, e, ev, es, eg) = close_cycle_lem view closed next path s m inside in
              let (u, e', k') =
                visit_edges_lem rec fuel ends path rest t inside rest_in (rw es on_path)
                  (rw ev enough) in
              (
                u,
                visit_back rec path next rest s t old back e ∙ e',
                record {
                  on_path = k'.on_path;
                  grows = λ x h. k'.grows x (rw ev h);
                  groups = λ g. k'.groups (eg g);
                },
              )
        ]
      ]

  find_step :
      (fuel current : ℕ) (path : List ℕ) (s t : Visit)
      → visit_edges view
          (find_deadlock_cycles view fuel)
          (path ++ current ∷ [])
          (view.targets current)
          (entered view current s)
        ≡ done t
      → find_deadlock_cycles view (suc fuel) current path s
        ≡ done (record t { stack = remove current t.stack })
  unfolding find_deadlock_cycles
  find_step fuel current path s t e = rw (find_deadlock_cycles, e) refl

  -- With fuel for the nodes that are not visited yet the search from a new node ends.
  find_deadlock_cycles-Ends : (fuel : ℕ) → Ends (find_deadlock_cycles view fuel) fuel
  find_deadlock_cycles-Ends zero current path s at new inside on_path enough = absurd (omega arith)
  find_deadlock_cycles-Ends (suc fuel) current path s at new inside on_path enough =
      let path' = path ++ current ∷ [] in
      let (t, e, k) =
        visit_edges_lem (find_deadlock_cycles view fuel) fuel (find_deadlock_cycles-Ends fuel) path'
          (view.targets current) (entered view current s) (longer path current inside at)
          (closed.edges current at)
          (λ x m. on_longer path current s.stack on_path x ((mem-insert current x s.stack).0 m))
          (omega (arith, unseen-insert view.node_indices current s.visited at new)) in
      (
        record t { stack = remove current t.stack },
        find_step fuel current path s t e,
        record {
          on_path = λ x m.
              shorter path current x (k.on_path x (remove_mem current x t.stack m).0)
                (remove_mem current x t.stack m).1;
          grows = λ x m. k.grows x (Within-insert current s.visited x m);
          groups = k.groups;
        },
      )
    where
      longer :
          (path : List ℕ) (current : ℕ)
          → Within path view.node_indices
          → current ∈ view.node_indices
          → Within (path ++ current ∷ []) view.node_indices
      longer path current inside at x m = elim ((mem-append x path (current ∷ [])).0 m) [
        | inl before ↦ inside x before
        | inr (inl e) ↦ subst (λ i. i ∈ view.node_indices) (sym e) at
        | inr (inr no_mem) ↦ absurd no_mem
      ]

      on_longer :
          (path : List ℕ) (current : ℕ) (stack : List ℕ)
          → Within stack path
          → (x : ℕ) → (x ≡ current) ⊎ (x ∈ stack)
          → x ∈ path ++ current ∷ []
      on_longer path current stack on x (inl e) = (mem-append x path (current ∷ [])).1 (inr (inl e))
      on_longer path current stack on x (inr m) =
          (mem-append x path (current ∷ [])).1 (inl (on x m))

      shorter : (path : List ℕ) (current x : ℕ) → x ∈ path ++ current ∷ [] → x ≢ current → x ∈ path
      shorter path current x m ne = elim ((mem-append x path (current ∷ [])).0 m) [
        | inl before ↦ before
        | inr (inl e) ↦ absurd (ne e)
        | inr (inr no_mem) ↦ absurd no_mem
      ]

  pub search_from :
      (start : ℕ) (s : Visit)
      → start ∈ view.node_indices
      → contains start s.visited ≡ false
      → s.stack ≡ []
      → (s' : Visit) × (find_deadlock_cycles view (suc (length view.node_indices)) start [] s
          ≡ done s')
        × (s'.stack ≡ [])
        × (GroupsIn view closed s.groups → GroupsIn view closed s'.groups)
  search_from start s at new empty =
      let (s', e, k) =
        find_deadlock_cycles-Ends (suc (length view.node_indices)) start [] s at new
          (λ x m. absurd m) (rw empty (λ x m. m))
          (omega (arith, unseen-le view.node_indices s.visited)) in
      (s', e, nothing_on s'.stack k.on_path, k.groups)
    where
      nothing_on : (stack : List ℕ) → Within stack [] → stack ≡ []
      nothing_on [] h = refl
      nothing_on (x ∷ xs) h = absurd (h x (inl refl))
