-- ===== src/Analysis/Por/Sets.antt =====
-- src/analysis/reachability.rs: the sets of transitions of `with_config_por` and their sizes.
use rust_pta.Prelude.{ℕ, ◌+◌, ◌≤◌, ◌<◌, ◌≡◌, inl, inr, refl, arith, true, false}
use rust_pta.Prelude.{[], ◌∷◌, ◌∈◌, length, lt-or-eq-or-gt, subst}
use rust_pta.Analysis.Reachability.Map.{contains_iff}
use rust_pta.Analysis.Por.{
  Set, SleepSets, intersection, difference, is_subset, set_eq, sleep_of, put_sleep,
}

pub mem-difference : (t : ℕ) (a b : Set) → t ∈ difference a b → t ∈ a
unfolding difference
mem-difference t [] b m = m
mem-difference t (x ∷ xs) b m = ground (arith, mem-difference t xs b)

pub length-difference : (a b : Set) → length (difference a b) ≤ length a
unfolding difference
length-difference [] b = omega arith
length-difference (x ∷ xs) b = ground (arith, length-difference xs b)

pub length-intersection : (a b : Set) → length (intersection a b) ≤ length a
unfolding intersection
length-intersection [] b = omega arith
length-intersection (x ∷ xs) b = ground (arith, length-intersection xs b)

-- Nothing is dropped from a set that is as long as before.
whole : (a b : Set) → length a ≤ length (intersection a b) → intersection a b ≡ a
unfolding intersection
whole [] b h = refl
whole (x ∷ xs) b h = ground (arith, length-intersection xs b, whole xs b)

is_subset_of : (a b : Set) → ((t : ℕ) → t ∈ a → t ∈ b) → is_subset a b ≡ true
unfolding is_subset
is_subset_of [] b h = refl
is_subset_of (x ∷ xs) b h =
    let first = (contains_iff x b).1 (h x (inl refl)) in
    let rest = is_subset_of xs b (λ t m. h t (inr m)) in cc

set_eq_self : (a : Set) → set_eq a a ≡ true
unfolding set_eq
set_eq_self a = let e = is_subset_of a a (λ t m. m) in cc

-- An intersection that differs from its first set is smaller.
pub shrinks :
    (a b : Set) → set_eq (intersection a b) a ≡ false → length (intersection a b) < length a
shrinks a b e = elim (lt-or-eq-or-gt (length (intersection a b)) (length a)) [
  | inl smaller ↦ smaller
  | inr other ↦
      let same = whole a b (ground arith) in
      absurd (ground (arith, set_eq_self a, subst (λ x. set_eq x a ≡ false) same e))
]

-- The sizes of the sleep sets together.
abbrev pub size : SleepSets → ℕ
size [] = 0
size ((i, set) ∷ rest) = length set + size rest

pub size-put_sleep :
    (sets : SleepSets) (i : ℕ) (set : Set)
    → size (put_sleep sets i set) + length (sleep_of sets i) ≤ size sets + length set
unfolding put_sleep sleep_of
size-put_sleep [] i set = omega arith
size-put_sleep ((j, old) ∷ rest) i set = ground (arith, size-put_sleep rest i set)
