-- ===== src/Analysis/Boundness/Raise.antt =====
-- src/analysis/boundness.rs: `needs_omega` and `create_omega_marking` on a path of ancestors.
use rust_pta.Prelude.{
  ℕ, zero, suc, ◌<◌, ◌≡◌, refl, ◌∙◌, ap, inl, inr, Bool, true, false, none, some,
}
use rust_pta.Prelude.{
  List, [], ◌∷◌, ◌∈◌, map, length, get_elem?, get_or, arith, Bool-cases, for_each, length-map,
}
use rust_pta.Net.IndexVec.{TransitionId}
use rust_pta.Net.Structure.{Marking}
use rust_pta.Net.Core.{Net, places_len}
use rust_pta.Net.Core.Enabled.{Fits}
use rust_pta.Analysis.Boundness.{
  Tokens, CoverTree, CoverTreeNode, needs_omega, is_strictly_smaller, all_smaller, any_smaller,
  smaller_tokens, grown, mark_growth, mark_node, create_omega_marking, has_omega,
}
use rust_pta.Analysis.Boundness.Spec.{Grows, Rooted-at}
use rust_pta.Analysis.Boundness.Path.{Ancestor, AllAncestors}

all_smaller_lem :
    (m m' : Marking) (p : ℕ)
    → all_smaller (map some m) (map some m') ≡ true
    → length m ≡ length m'
    → p < length m
    → get_or m p 0 < get_or m' p 0
unfolding all_smaller smaller_tokens
all_smaller_lem [] m' p e same h = absurd (omega arith)
all_smaller_lem (x ∷ xs) [] p e same h = absurd (omega arith)
all_smaller_lem (x ∷ xs) (y ∷ ys) zero e same h = ground arith
all_smaller_lem (x ∷ xs) (y ∷ ys) (suc p) e same h =
    all_smaller_lem xs ys p (ground arith) (omega arith) (omega arith)

any_smaller_lem : (m m' : Marking) → any_smaller (map some m) (map some m') ≡ true → 0 < length m
unfolding any_smaller
any_smaller_lem [] m' e = absurd (ground arith)
any_smaller_lem (x ∷ xs) m' e = omega arith

pub length-mark_growth :
    (olds news kept : List Tokens) → length (mark_growth olds news kept) ≡ length kept
unfolding mark_growth
length-mark_growth [] news kept = refl
length-mark_growth (o ∷ olds) [] kept = refl
length-mark_growth (o ∷ olds) (n ∷ news) [] = refl
length-mark_growth (o ∷ olds) (n ∷ news) (k ∷ kept) = ap suc (length-mark_growth olds news kept)

grown-none : (o n k : Tokens) → some k ≡ some none → some (grown o n k) ≡ some none
unfolding grown
grown-none none n k e = e
grown-none (some old) none k e = e
grown-none (some old) (some new) k e = ground arith

-- An ω stays.
mark_growth-none :
    (olds news kept : List Tokens) (p : ℕ)
    → get_elem? kept p ≡ some none
    → get_elem? (mark_growth olds news kept) p ≡ some none
unfolding mark_growth
mark_growth-none [] news kept p e = e
mark_growth-none (o ∷ olds) [] kept p e = e
mark_growth-none (o ∷ olds) (n ∷ news) [] p e = e
mark_growth-none (o ∷ olds) (n ∷ news) (k ∷ kept) zero e = grown-none o n k e
mark_growth-none (o ∷ olds) (n ∷ news) (k ∷ kept) (suc p) e = mark_growth-none olds news kept p e

-- A place that grew gets an ω.
mark_growth-grows :
    (m m' : Marking) (kept : List Tokens) (p : ℕ)
    → p < length kept
    → length m ≡ length kept
    → length m' ≡ length kept
    → get_or m p 0 < get_or m' p 0
    → get_elem? (mark_growth (map some m) (map some m') kept) p ≡ some none
unfolding mark_growth grown
mark_growth-grows m m' [] p h e e' lt = absurd (omega arith)
mark_growth-grows [] m' (k ∷ kept) p h e e' lt = absurd (omega arith)
mark_growth-grows (x ∷ xs) [] (k ∷ kept) p h e e' lt = absurd (omega arith)
mark_growth-grows (x ∷ xs) (y ∷ ys) (k ∷ kept) zero h e e' lt = ground arith
mark_growth-grows (x ∷ xs) (y ∷ ys) (k ∷ kept) (suc p) h e e' lt =
    mark_growth-grows xs ys kept p (omega arith) (omega arith) (omega arith) lt

pub has_omega_of : (w : List Tokens) (p : ℕ) → get_elem? w p ≡ some none → has_omega w ≡ true
unfolding has_omega
has_omega_of [] p e = cc
has_omega_of (none ∷ w) p e = refl
has_omega_of (some x ∷ w) zero e = absurd (ground arith)
has_omega_of (some x ∷ w) (suc p) e = has_omega_of w p e

pub has_omega-map : (m : Marking) → has_omega (map some m) ≡ false
unfolding has_omega
has_omega-map [] = refl
has_omega-map (x ∷ xs) = has_omega-map xs

module _ (net : Net) (tree : CoverTree) (m : Marking) (ts : List TransitionId) (next : Marking)
    (fits : Fits net next) where
  -- An ancestor with fewer tokens everywhere.
  pub record Pumped (path : List ℕ) : Type 0 where
    pub index : ℕ
    pub on_path : index ∈ path
    pub ancestor : Ancestor net tree m ts index
    pub grows : Grows net ancestor.marking next
    pub some_place : 0 < places_len net

  abbrev FitsAll : Type 0
  FitsAll = (a : ℕ) (x : Ancestor net tree m ts a) → Fits net x.marking

  smaller-Grows :
      (low : Marking)
      → Fits net low
      → is_strictly_smaller (map some low) (map some next) ≡ true
      → Grows net low next × (0 < places_len net)
  unfolding is_strictly_smaller
  smaller-Grows low fits_low e =
      let all : all_smaller (map some low) (map some next) ≡ true = ground arith in
      let one : any_smaller (map some low) (map some next) ≡ true = ground arith in
      (
        λ p hp. all_smaller_lem low next p all (omega arith) (omega arith),
        omega (arith, any_smaller_lem low next one),
      )

  needs_stop :
      (a : ℕ) (path : List ℕ) (n : CoverTreeNode) (low : Marking)
      → get_elem? tree a ≡ some n
      → n.marking ≡ map some low
      → is_strictly_smaller (map some low) (map some next) ≡ true
      → needs_omega tree (map some next) (a ∷ path) ≡ some true
  unfolding needs_omega
  needs_stop a path n low at em small = rw (at, em, small) refl

  needs_on :
      (a : ℕ) (path : List ℕ) (n : CoverTreeNode) (low : Marking) (b : Bool)
      → get_elem? tree a ≡ some n
      → n.marking ≡ map some low
      → is_strictly_smaller (map some low) (map some next) ≡ false
      → needs_omega tree (map some next) path ≡ some b
      → needs_omega tree (map some next) (a ∷ path) ≡ some b
  unfolding needs_omega
  needs_on a path n low b at em large answers = rw (at, em, large) answers

  pub needs_omega-Pumped :
      (path : List ℕ)
      → FitsAll
      → AllAncestors net tree m ts path
      → (b : Bool) × (needs_omega tree (map some next) path ≡ some b) × (b ≡ true → Pumped path)
  unfolding needs_omega
  needs_omega-Pumped [] fit all = (false, refl, λ e. absurd (ground arith))
  needs_omega-Pumped (a ∷ path) fit all =
      let x = all a (inl refl) in
      let (n, at, em) = Rooted-at net x.rooted in
      elim (Bool-cases (is_strictly_smaller (map some x.marking) (map some next))) [
        | inl small ↦
            let (grows, one) = smaller-Grows x.marking (fit a x) small in
            (
              true,
              needs_stop a path n x.marking at em small,
              λ e. record {
                index = a;
                on_path = inl refl;
                ancestor = x;
                grows = grows;
                some_place = one;
              },
            )
        | inr large ↦
            let (b, answers, means) = needs_omega-Pumped path fit (λ c mem. all c (inr mem)) in
            (
              b,
              needs_on a path n x.marking b at em large answers,
              λ e.
                  let y = means e in
                  record {
                    index = y.index;
                    on_path = inr y.on_path;
                    ancestor = y.ancestor;
                    grows = y.grows;
                    some_place = y.some_place;
                  },
            )
      ]

  -- With a pumped ancestor on the path, every place gets an ω.
  raise_rest :
      (path : List ℕ) (w : List Tokens)
      → AllAncestors net tree m ts path
      → (w' : List Tokens) × (for_each (mark_node tree (map some next)) w path ≡ some w')
        × (length w' ≡ length w)
        × ((p : ℕ) → get_elem? w p ≡ some none → get_elem? w' p ≡ some none)
  unfolding for_each mark_node
  raise_rest [] w all = (w, refl, refl, λ p e. e)
  raise_rest (a ∷ path) w all =
      let x = all a (inl refl) in
      let (n, at, em) = Rooted-at net x.rooted in
      let w1 = mark_growth n.marking (map some next) w in
      let (w', runs, same, stays) = raise_rest path w1 (λ c mem. all c (inr mem)) in
      (
        w',
        rw at runs,
        same ∙ length-mark_growth n.marking (map some next) w,
        λ p e. stays p (mark_growth-none n.marking (map some next) w p e),
      )

  raise_all :
      (path : List ℕ) (w : List Tokens) (i : ℕ) (low : Marking) (n : CoverTreeNode)
      → AllAncestors net tree m ts path
      → i ∈ path
      → get_elem? tree i ≡ some n
      → n.marking ≡ map some low
      → Fits net low
      → Grows net low next
      → length w ≡ places_len net
      → (w' : List Tokens) × (for_each (mark_node tree (map some next)) w path ≡ some w')
        × (length w' ≡ places_len net)
        × ((p : ℕ) → p < places_len net → get_elem? w' p ≡ some none)
  unfolding for_each mark_node
  raise_all [] w i low n all no_mem at em fits_low grows width = absurd no_mem
  raise_all (a ∷ path) w i low n all (inl here) at em fits_low grows width =
      let w1 = mark_growth n.marking (map some next) w in
      let (w', runs, same, stays) = raise_rest path w1 (λ c mem. all c (inr mem)) in
      (
        w',
        rw (← here, at) runs,
        same ∙ length-mark_growth n.marking (map some next) w ∙ width,
        λ p hp. stays p (
            rw em (
              mark_growth-grows low next w p (omega arith) (omega arith) (omega arith)
                (grows p hp))),
      )
  raise_all (a ∷ path) w i low n all (inr mem) at em fits_low grows width =
      let (n', at', em') = Rooted-at net (all a (inl refl)).rooted in
      let w1 = mark_growth n'.marking (map some next) w in
      let (w', runs, same, full) =
        raise_all path w1 i low n (λ c mem'. all c (inr mem')) mem at em fits_low grows
          (length-mark_growth n'.marking (map some next) w ∙ width) in
      (w', rw at' runs, same, full)

  pub create_omega_marking-all :
      (path : List ℕ)
      → FitsAll
      → AllAncestors net tree m ts path
      → Pumped path
      → (w : List Tokens) × (create_omega_marking tree path (map some next) ≡ some w)
        × (length w ≡ places_len net)
        × ((p : ℕ) → p < places_len net → get_elem? w p ≡ some none)
        × (has_omega w ≡ true)
  unfolding create_omega_marking
  create_omega_marking-all path fit all y =
      let (n, at, em) = Rooted-at net y.ancestor.rooted in
      let (w, runs, width, full) =
        raise_all path (map some next) y.index y.ancestor.marking n all y.on_path at em
          (fit y.index y.ancestor) y.grows (length-map some next ∙ fits) in
      (w, runs, width, full, has_omega_of w 0 (full 0 y.some_place))
