-- ===== src/Analysis/Boundness/Path.antt =====
-- src/analysis/boundness.rs: `find_path_to_node` and `needs_omega` look only at ancestors.
use rust_pta.Prelude.{
  ℕ, zero, suc, ◌<◌, ◌≡◌, ◌⊎◌, refl, sym, ◌∙◌, ap, subst, inl, inr, true, false, Option, none, some,
}
use rust_pta.Prelude.{List, [], ◌∷◌, ◌++◌, ◌∈◌, get_elem?, arith, Bool-cases, mem-append, ◌==◌}
use mathlib.Core.List.{append_assoc, append-nil}
use rust_pta.Net.IndexVec.{TransitionId}
use rust_pta.Net.Structure.{Marking}
use rust_pta.Net.Core.{Net, ok, fire_transition}
use rust_pta.Analysis.Boundness.{CoverTreeNode, CoverTree, walk, find_path_to_node}
use rust_pta.Analysis.Boundness.Spec.{Fires, stays, goes_on, Rooted, Rooted-cases}

module _ (net : Net) where
  Fires-cons :
      {m m' m'' : Marking} {ts : List TransitionId} (t : TransitionId)
      → fire_transition net m t ≡ some (ok m')
      → Fires net m' ts m''
      → Fires net m (t ∷ ts) m''
  Fires-cons t e stays = goes_on t stays e
  Fires-cons t e (goes_on u f e') = goes_on u (Fires-cons t e f) e'

  module _ (tree : CoverTree) (m : Marking) (ts : List TransitionId) where
    -- Node `a` is on the way to the marking `m`, which is at the end of `ts`.
    pub record Ancestor (a : ℕ) : Type 0 where
      pub marking : Marking
      pub before : List TransitionId
      pub after : List TransitionId
      pub rooted : Rooted net tree a marking before
      pub split : ts ≡ before ++ after
      pub leads : Fires net marking after m

    abbrev pub AllAncestors : List ℕ → Type 0
    AllAncestors path = (a : ℕ) → a ∈ path → Ancestor a

    AllAncestors-push :
        (path : List ℕ) (a : ℕ) → AllAncestors path → Ancestor a → AllAncestors (path ++ a ∷ [])
    AllAncestors-push path a all one b mem = elim ((mem-append b path (a ∷ [])).0 mem) [
      | inl old ↦ all b old
      | inr (inl same) ↦ subst Ancestor (sym same) one
      | inr (inr no_mem) ↦ absurd no_mem
    ]

    AllAncestors-push_two :
        (path : List ℕ) (a b : ℕ)
        → AllAncestors path
        → Ancestor a
        → Ancestor b
        → AllAncestors (path ++ a ∷ b ∷ [])
    AllAncestors-push_two path a b all one two c mem =
        elim ((mem-append c path (a ∷ b ∷ [])).0 mem) [
          | inl old ↦ all c old
          | inr (inl same) ↦ subst Ancestor (sym same) one
          | inr (inr (inl same)) ↦ subst Ancestor (sym same) two
          | inr (inr (inr no_mem)) ↦ absurd no_mem
        ]

    -- The answer of the search for a path.
    abbrev pub Finds : Option (Option (List ℕ)) → Type 0
    Finds r = (r ≡ some none) ⊎ ((path : List ℕ) × (r ≡ some (some path)) × AllAncestors path)

    walk_there :
        (fuel to : ℕ) (path : List ℕ) (i : ℕ) (n : CoverTreeNode) (p : ℕ)
        → get_elem? tree i ≡ some n
        → n.parent ≡ some p
        → (p == to) ≡ true
        → walk (suc fuel) tree to path i ≡ some (some (path ++ i ∷ p ∷ []))
    unfolding walk
    walk_there fuel to path i n p at ep there = rw (at, ep, there) refl

    walk_further :
        (fuel to : ℕ) (path : List ℕ) (i : ℕ) (n : CoverTreeNode) (p : ℕ)
        → get_elem? tree i ≡ some n
        → n.parent ≡ some p
        → (p == to) ≡ false
        → walk (suc fuel) tree to path i ≡ walk fuel tree to (path ++ i ∷ []) p
    unfolding walk
    walk_further fuel to path i n p at ep further = rw (walk, at, ep, further) refl

    walk-Finds :
        (fuel to : ℕ) (path : List ℕ) (i : ℕ) (mi : Marking) (before after : List TransitionId)
        → i < fuel
        → AllAncestors path
        → Rooted net tree i mi before
        → ts ≡ before ++ after
        → Fires net mi after m
        → Finds (walk fuel tree to path i)
    unfolding walk
    walk-Finds zero to path i mi before after h all rooted split leads = absurd (omega arith)
    walk-Finds (suc fuel) to path i mi before after h all rooted split leads =
        elim (Rooted-cases net rooted) [
          | inl (n, at, ep, _) ↦ inl (rw (at, ep, walk) refl)
          | inr c ↦
              let here : Ancestor i = record {
                marking = mi;
                before = before;
                after = after;
                rooted = rooted;
                split = split;
                leads = leads;
              } in
              let up =
                split
                ∙ ap (λ xs. xs ++ after) c.path_eq
                ∙ append_assoc c.path (c.transition ∷ []) after in
              let leads' = Fires-cons c.transition c.fires leads in
              let above : Ancestor c.parent = record {
                marking = c.marking;
                before = c.path;
                after = c.transition ∷ after;
                rooted = c.rooted;
                split = up;
                leads = leads';
              } in
              elim (Bool-cases (c.parent == to)) [
                | inl there ↦ inr (
                  path ++ i ∷ c.parent ∷ [],
                  walk_there fuel to path i c.node c.parent c.at c.parent_eq there,
                  AllAncestors-push_two path i c.parent all here above,
                )
                | inr further ↦
                    subst Finds
                      (sym (walk_further fuel to path i c.node c.parent c.at c.parent_eq further))
                      (walk-Finds fuel to (path ++ i ∷ []) c.parent c.marking c.path
                        (c.transition ∷ after) (omega (arith, c.below))
                        (AllAncestors-push path i all here) c.rooted up leads')
              ]
        ]

    pub find_path_to_node-Finds :
        (from to : ℕ) → Rooted net tree from m ts → Finds (find_path_to_node tree from to)
    unfolding find_path_to_node
    find_path_to_node-Finds from to rooted =
        let here : Ancestor from = record {
          marking = m;
          before = ts;
          after = [];
          rooted = rooted;
          split = sym (append-nil ts);
          leads = stays;
        } in
        elim (Bool-cases (from == to)) [
          | inl there ↦ rw there (
              inr (
                from ∷ [],
                refl,
                λ a. elim [
                  | inl same ↦ subst Ancestor (sym same) here
                  | inr no_mem ↦ absurd no_mem
                ],
              ))
          | inr away ↦ rw away (
              walk-Finds (suc from) to [] from m ts [] (omega arith) (λ a no_mem. absurd no_mem)
                rooted (sym (append-nil ts)) stays)
        ]
