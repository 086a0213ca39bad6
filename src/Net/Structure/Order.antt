-- ===== src/Net/Structure/Order.antt =====
-- src/net/structure.rs: `PartialOrd` and `Ord` of `Marking`.
use rust_pta.Prelude.{ℕ, suc, ◌≤◌, ◌<◌, ◌≡◌, ◌≢◌, ◌⊎◌, inl, inr, refl, sym, ap}
use rust_pta.Prelude.{Bool, true, false, Option, none, some, ◌>>=◌, length, get_elem?, get_or}
use rust_pta.Prelude.{◌↔◌}
use rust_pta.Prelude.{
  ltb, ◌==◌, if◌then◌else◌, for_each, arith, Bool-cases, ==→≡, ==→≢, eq_of_get_or,
}
use rust_pta.Prelude.{
  lt-length_of_get_elem?, lt-or-eq-or-gt, lt→ltb, le→ltb, ◌∙◌, get_elem?-eq-get_or, some_inj,
}
use rust_pta.Net.IndexVec.{PlaceId, iter_enumerated, id_limit, for_each-iter_enumerated}
use rust_pta.Net.Structure.{Weight, Marking}

pub data Ordering : Type 0 where
  less : Ordering
  equal : Ordering
  greater : Ordering

-- The body of the loop on the variables `less` and `greater`.
unfoldable pub compare_place : Marking → Bool × Bool → PlaceId × Weight → Option (Bool × Bool)
compare_place other (lower, higher) (idx, left) = do
  right ← get_elem? other idx
  some (
      if ltb left right
      then (true, higher)
      else (if ltb right left then (lower, true) else (lower, higher)))

unfoldable pub verdict : Bool × Bool → Option Ordering
verdict (true, true) = none
verdict (true, false) = some less
verdict (false, true) = some greater
verdict (false, false) = some equal

-- The outer `none` is a panic.
unfoldable pub partial_cmp : Marking → Marking → Option (Option Ordering)
partial_cmp m other =
    if length m == length other
    then (do
      flags ← for_each (compare_place other) (false, false) (iter_enumerated m)
      some (verdict flags))
    else some none

-- `unwrap_or(Ordering::Equal)`
unfoldable pub unwrap_or_equal : Option Ordering → Ordering
unwrap_or_equal none = equal
unwrap_or_equal (some o) = o

-- `Ord::cmp`
unfoldable pub cmp : Marking → Marking → Option Ordering
cmp m other = do o ← partial_cmp m other; some (unwrap_or_equal o)

-- One marking has fewer tokens than another at some place; it has nowhere fewer.
abbrev pub Below : Marking → Marking → Type 0
Below m other = (p : PlaceId) × (p < length m) × (get_or m p 0 < get_or other p 0)

abbrev pub Covers : Marking → Marking → Type 0
Covers m other = (p : PlaceId) → p < length m → get_or other p 0 ≤ get_or m p 0

-- What each answer of the comparison says of the two markings.
pub data Compared (m other : Marking) : Option Ordering → Type 0 where
  other_length : length m ≢ length other → Compared m other none
  incomparable : length m ≡ length other → Below m other → Below other m → Compared m other none
  is_less : length m ≡ length other → Below m other → Covers other m → Compared m other (some less)
  is_greater :
      length m ≡ length other → Below other m → Covers m other → Compared m other (some greater)
  is_equal : m ≡ other → Compared m other (some equal)

at_most :
    (a b : Marking) (k p : ℕ)
    → p < suc k
    → get_or a k 0 ≤ get_or b k 0
    → ((q : ℕ) → q < k → get_or a q 0 ≤ get_or b q 0)
    → get_or a p 0 ≤ get_or b p 0
at_most a b k p hp now before = elim (lt-or-eq-or-gt p k) [
  | inl below ↦ before p below
  | inr (inl level) ↦ rw level now
  | inr (inr above) ↦ absurd (omega arith)
]

module _ (m other : Marking) (same : length m ≡ length other) where
  record Seen (k : ℕ) (flags : Bool × Bool) : Type 0 where
    lower_true : flags.0 ≡ true → Below m other
    lower_false : flags.0 ≡ false → (p : PlaceId) → p < k → get_or other p 0 ≤ get_or m p 0
    higher_true : flags.1 ≡ true → Below other m
    higher_false : flags.1 ≡ false → (p : PlaceId) → p < k → get_or m p 0 ≤ get_or other p 0

  seen_lem :
      (flags : Bool × Bool) (k : ℕ) (x y : Weight)
      → k < length m
      → x ≡ get_or m k 0
      → y ≡ get_or other k 0
      → Seen k flags
      → Seen (suc k) (
          if ltb x y
          then (true, flags.1)
          else (if ltb y x then (flags.0, true) else (flags.0, flags.1)))
  seen_lem flags k x y hk left right seen = elim (lt-or-eq-or-gt x y) [
    | inl below ↦ rw (lt→ltb x y below) (record {
      lower_true = λ e. (k, hk, omega arith);
      lower_false = λ e. absurd (ground arith);
      higher_true = seen.higher_true;
      higher_false = λ e p hp. at_most m other k p hp (omega arith) (seen.higher_false e);
    })
    | inr (inl level) ↦
        rw (le→ltb x y (omega arith), le→ltb y x (omega arith))
          (record {
            lower_true = seen.lower_true;
            lower_false = λ e p hp. at_most other m k p hp (omega arith) (seen.lower_false e);
            higher_true = seen.higher_true;
            higher_false = λ e p hp. at_most m other k p hp (omega arith) (seen.higher_false e);
          })
    | inr (inr above) ↦
        rw (le→ltb x y (omega arith), lt→ltb y x above)
          (record {
            lower_true = seen.lower_true;
            lower_false = λ e p hp. at_most other m k p hp (omega arith) (seen.lower_false e);
            higher_true = λ e. (k, omega arith, omega arith);
            higher_false = λ e. absurd (ground arith);
          })
  ]

  compare_place-Seen :
      (flags : Bool × Bool) (k : ℕ) (x : Weight)
      → get_elem? m k ≡ some x
      → Seen k flags
      → (flags' : Bool × Bool) × (compare_place other flags (k, x) ≡ some flags')
        × Seen (suc k) flags'
  unfolding compare_place
  compare_place-Seen flags k x e seen =
      let hk = lt-length_of_get_elem? m k e in
      let left = some_inj (sym e ∙ get_elem?-eq-get_or m k 0 hk) in
      let right = get_elem?-eq-get_or other k 0 (omega arith) in
      (_, rw right refl, seen_lem flags k x (get_or other k 0) hk left refl seen)

  start-Seen : Seen 0 (false, false)
  start-Seen = record {
    lower_true = λ e. absurd (ground arith);
    lower_false = λ e p hp. omega arith;
    higher_true = λ e. absurd (ground arith);
    higher_false = λ e p hp. omega arith;
  }

  verdict-Compared :
      (flags : Bool × Bool) → Seen (length m) flags → Compared m other (verdict flags)
  unfolding verdict
  verdict-Compared (true, true) seen =
      incomparable same (seen.lower_true refl) (seen.higher_true refl)
  verdict-Compared (true, false) seen =
      is_less same (seen.lower_true refl) (λ p hp. seen.higher_false refl p (omega arith))
  verdict-Compared (false, true) seen =
      is_greater same (seen.higher_true refl) (seen.lower_false refl)
  verdict-Compared (false, false) seen = is_equal (
      eq_of_get_or m other 0 same
        (λ p hp. omega (arith, seen.lower_false refl p hp, seen.higher_false refl p hp)))

-- For a marking of at most 2 ^ 32 places, `partial_cmp` does not panic. It orders the markings of one
-- length place by place: `Less` and `Greater` say that one of them has nowhere more tokens than the
-- other and somewhere fewer, `Equal` that they are the same marking, and no answer that their
-- lengths differ or each has a place with fewer tokens than the other has there.
pub partial_cmp-Compared :
    (m other : Marking)
    → length m ≤ id_limit
    → (r : Option Ordering) × (partial_cmp m other ≡ some r) × Compared m other r
unfolding partial_cmp
partial_cmp-Compared m other short = elim (Bool-cases (length m == length other)) [
  | inl same ↦
      let alike = ==→≡ (length m) (length other) same in
      let (flags, ends, seen) =
        for_each-iter_enumerated (compare_place other) m (Seen m other alike) short
          (compare_place-Seen m other alike) (false, false) (start-Seen m other alike) in
      (verdict flags, rw (same, ends) refl, verdict-Compared m other alike flags seen)
  | inr differ ↦ (none, rw differ refl, other_length (==→≢ (length m) (length other) differ))
]

abbrev pub Tied : Marking → Marking → Type 0
Tied m other = (m ≡ other) ⊎ (length m ≢ length other) ⊎ (Below m other × Below other m)

Below-not_Covers : (m other : Marking) → Below m other → ¬ Covers m other
Below-not_Covers m other (p, hp, fewer) covers = omega (arith, covers p hp)

Below-ne : (m other : Marking) → m ≡ other → ¬ Below m other
Below-ne m other e (p, hp, fewer) = omega (arith, ap (λ x. get_or x p 0) e)

Compared-Tied :
    (m other : Marking) (r : Option Ordering)
    → Compared m other r
    → (unwrap_or_equal r ≡ equal) ↔ Tied m other
unfolding unwrap_or_equal
Compared-Tied m other none (other_length differ) = (λ e. inr (inl differ), λ tied. refl)
Compared-Tied m other none (incomparable same lower higher) =
    (λ e. inr (inr (lower, higher)), λ tied. refl)
Compared-Tied m other (some less) (is_less same below covers) = (
  λ e. absurd (ground arith),
  λ tied. elim tied [
    | inl e ↦ absurd (Below-ne m other e below)
    | inr (inl differ) ↦ absurd (differ same)
    | inr (inr (lower, higher)) ↦ absurd (Below-not_Covers other m higher covers)
  ],
)
Compared-Tied m other (some greater) (is_greater same below covers) = (
  λ e. absurd (ground arith),
  λ tied. elim tied [
    | inl e ↦ absurd (Below-ne other m (sym e) below)
    | inr (inl differ) ↦ absurd (differ same)
    | inr (inr (lower, higher)) ↦ absurd (Below-not_Covers m other lower covers)
  ],
)
Compared-Tied m other (some equal) (is_equal e) = (λ e'. inl e, λ tied. refl)

-- For a marking of at most 2 ^ 32 places, `Ord::cmp` answers `Equal` for the same marking, and also
-- for markings of different lengths and for two that each have a place with fewer tokens than the
-- other, and for no other pair.
pub cmp-Tied : (m other : Marking) → length m ≤ id_limit → (cmp m other ≡ some equal) ↔ Tied m other
unfolding cmp
cmp-Tied m other short =
    let (r, answers, compared) = partial_cmp-Compared m other short in
    let (there, back) = Compared-Tied m other r compared in
    rw answers (λ e. there (some_inj e), λ tied. ap some (back tied))
