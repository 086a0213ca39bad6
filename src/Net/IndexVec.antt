-- ===== src/Net/IndexVec.antt =====
-- src/net/ids.rs and src/net/index_vec.rs. An id is its raw `u32`, and an `IndexVec<I, T>` is the
-- list of its elements: `get_elem?` is its checked `get`, and also `vec[i]`, where `none` is the
-- panic of an index out of bounds.
use rust_pta.Prelude.{
  ◌≤◌, refl, Option, some, for_each, ℕ, ◌+◌, ◌%◌, ◌^◌, ◌<◌, ◌≡◌, List, [], ◌∷◌, ◌++◌, length, arith,
}
use rust_pta.Prelude.{suc, sym, subst, get_elem?}
use native.Mathlib.Nat.{zero-add}
use native.Mathlib.Numerals.{unary_clauses}

abbrev pub PlaceId : Type 0
PlaceId = ℕ

abbrev pub TransitionId : Type 0
TransitionId = ℕ

-- `Self(idx as u32)`
unfoldable pub from_usize : ℕ → ℕ
from_usize idx = idx % 2 ^ 32

abbrev pub id_limit : ℕ
id_limit = 2 ^ 32

pub from_usize-eq : (idx : ℕ) → idx < id_limit → from_usize idx ≡ idx
unfolding from_usize
from_usize-eq idx h = omega arith

module _ {ℓ} {A : Type ℓ} where
  -- The vector after the push, and the id of the new element.
  unfoldable pub push : List A → A → List A × ℕ
  push xs value = (xs ++ value ∷ [], from_usize (length xs))

  -- Pairs of an id and an element, the first of which has index `k`.
  unfoldable pub enumerate_from : ℕ → List A → List (ℕ × A)
  enumerate_from k [] = []
  enumerate_from k (x ∷ xs) = (from_usize k, x) ∷ enumerate_from (k + 1) xs

  unfoldable pub iter_enumerated : List A → List (ℕ × A)
  iter_enumerated xs = enumerate_from 0 xs

-- A loop over enumerated elements whose body does not panic at an index in range does not panic.
pub for_each-enumerate_from {ℓ κ} :
    {A : Type ℓ} {S : Type κ} (f : S → ℕ × A → Option S) (bound : ℕ)
    → bound ≤ id_limit
    → ((s : S) (k : ℕ) (x : A) → k < bound → (s' : S) × (f s (k, x) ≡ some s'))
    → (xs : List A) (k : ℕ) (s : S) → k + length xs ≤ bound
    → (s' : S) × (for_each f s (enumerate_from k xs) ≡ some s')
unfolding for_each enumerate_from
for_each-enumerate_from f bound fits step [] k s h = (s, refl)
for_each-enumerate_from f bound fits step (x ∷ xs) k s h =
    let (t, e) = step s k x (omega arith) in
    let (u, e') = for_each-enumerate_from f bound fits step xs (k + 1) t (omega arith) in
    let id = from_usize-eq k (omega arith) in (u, rw (id, e, for_each) e')

suc_eq : (k : ℕ) → suc k ≡ k + 1
suc_eq k = omega arith

shift_suc : (k j : ℕ) → k + 1 + j ≡ k + suc j
shift_suc k j = omega arith

module _ {ℓ κ μ} {A : Type ℓ} {S : Type κ} (f : S → ℕ × A → Option S) (all : List A)
    (P : ℕ → S → Type μ) (short : length all ≤ id_limit)
    (step : (s : S) (k : ℕ) (x : A)
      → get_elem? all k ≡ some x
      → P k s
      → (s' : S) × (f s (k, x) ≡ some s') × P (suc k) s') where
  for_each-enumerate_from_rule :
      (xs : List A) (k : ℕ) (s : S)
      → k + length xs ≡ length all
      → ((j : ℕ) → get_elem? xs j ≡ get_elem? all (k + j))
      → P k s
      → (s' : S) × (for_each f s (enumerate_from k xs) ≡ some s') × P (length all) s'
  unfolding for_each enumerate_from
  for_each-enumerate_from_rule [] k s h same p =
      let e : k ≡ length all = omega arith in (s, refl, subst (λ n. P n s) e p)
  for_each-enumerate_from_rule (x ∷ xs) k s h same p =
      let (t, e, q) = step s k x (sym (simp unary_clauses at (same 0))) p in
      let (u, e', last) =
        for_each-enumerate_from_rule xs (k + 1) t (omega arith)
          (λ j. rw (shift_suc k j) (same (suc j))) (subst (λ n. P n t) (suc_eq k) q) in
      let id = from_usize-eq k (omega arith) in (u, rw (id, e, for_each) e', last)

  -- The invariant rule of a loop over the enumerated elements of a vector.
  pub for_each-iter_enumerated :
      (s : S)
      → P 0 s
      → (s' : S) × (for_each f s (iter_enumerated all) ≡ some s') × P (length all) s'
  unfolding iter_enumerated
  for_each-iter_enumerated s p =
      for_each-enumerate_from_rule all 0 s (omega arith) (λ j. rw zero-add refl) p
