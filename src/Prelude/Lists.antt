-- ===== src/Prelude/Lists.antt =====
-- `Vec<T>` as a list measured and indexed by native numbers.
use Prim.Native.Nat.{ℕ, zero, suc, ◌+◌, ◌≤◌, ◌<◌}
use mathlib.Core.Path.{◌≡◌, refl, ap}
use mathlib.Core.Logic.{◌≢◌, ◌⊎◌, inl, inr, ◌↔◌}
use mathlib.Core.Option.{Option, none, some}
use mathlib.Core.List.{List, [], ◌∷◌, ◌++◌, map}
use native.Mathlib.Omega.{arith}
use native.Mathlib.Nat.{zero-add, suc-add}

module _ {ℓ} {A : Type ℓ} where
  abbrev pub length : List A → ℕ
  length [] = 0
  length (x ∷ xs) = suc (length xs)

  abbrev pub replicate : ℕ → A → List A
  replicate zero v = []
  replicate (suc n) v = v ∷ replicate n v

  abbrev pub get_elem? : List A → ℕ → Option A
  get_elem? [] i = none
  get_elem? (x ∷ xs) zero = some x
  get_elem? (x ∷ xs) (suc i) = get_elem? xs i

  abbrev pub get_or : List A → ℕ → A → A
  get_or [] i d = d
  get_or (x ∷ xs) zero d = x
  get_or (x ∷ xs) (suc i) d = get_or xs i d

  abbrev pub set : List A → ℕ → A → List A
  set [] i v = []
  set (x ∷ xs) zero v = v ∷ xs
  set (x ∷ xs) (suc i) v = x ∷ set xs i v

  -- Every element satisfies `P`, as a tuple.
  abbrev pub All {κ} : (A → Type κ) → List A → Type κ
  All P [] = Unit
  All P (x ∷ xs) = P x × All P xs

module _ {ℓ} {A : Type ℓ} where
  pub List-cases : (xs : List A) → (xs ≡ []) ⊎ ((x : A) × (rest : List A) × (xs ≡ x ∷ rest))
  List-cases [] = inl refl
  List-cases (x ∷ xs) = inr (x, xs, refl)

  pub length-append : (xs ys : List A) → length (xs ++ ys) ≡ length xs + length ys
  length-append [] ys = omega arith
  length-append (x ∷ xs) ys = omega (arith, length-append xs ys)

  pub length-set : (xs : List A) (i : ℕ) (v : A) → length (set xs i v) ≡ length xs
  length-set [] i v = refl
  length-set (x ∷ xs) zero v = refl
  length-set (x ∷ xs) (suc i) v = ap suc (length-set xs i v)

  pub length-replicate : (n : ℕ) (v : A) → length (replicate n v) ≡ n
  length-replicate zero v = refl
  length-replicate (suc n) v = ap suc (length-replicate n v)

  pub get_or-replicate : (n i : ℕ) (d : A) → get_or (replicate n d) i d ≡ d
  get_or-replicate zero i d = refl
  get_or-replicate (suc n) zero d = refl
  get_or-replicate (suc n) (suc i) d = get_or-replicate n i d

  pub get_elem?-eq-get_or :
      (xs : List A) (i : ℕ) (d : A) → i < length xs → get_elem? xs i ≡ some (get_or xs i d)
  get_elem?-eq-get_or [] i d h = absurd (omega arith)
  get_elem?-eq-get_or (x ∷ xs) zero d h = refl
  get_elem?-eq-get_or (x ∷ xs) (suc i) d h = get_elem?-eq-get_or xs i d (omega arith)

  pub get_elem?-eq-none : (xs : List A) (i : ℕ) → length xs ≤ i → get_elem? xs i ≡ none
  get_elem?-eq-none [] i h = refl
  get_elem?-eq-none (x ∷ xs) zero h = absurd (omega arith)
  get_elem?-eq-none (x ∷ xs) (suc i) h = get_elem?-eq-none xs i (omega arith)

  pub lt-length_of_get_elem? :
      (xs : List A) (i : ℕ) {x : A} → get_elem? xs i ≡ some x → i < length xs
  lt-length_of_get_elem? [] i h = cc
  lt-length_of_get_elem? (x ∷ xs) zero h = omega arith
  lt-length_of_get_elem? (x ∷ xs) (suc i) h = omega (arith, lt-length_of_get_elem? xs i h)

  pub get_or-set_self :
      (xs : List A) (i : ℕ) (v d : A) → i < length xs → get_or (set xs i v) i d ≡ v
  get_or-set_self [] i v d h = absurd (omega arith)
  get_or-set_self (x ∷ xs) zero v d h = refl
  get_or-set_self (x ∷ xs) (suc i) v d h = get_or-set_self xs i v d (omega arith)

  pub get_or-set_ne :
      (xs : List A) (i j : ℕ) (v d : A) → i ≢ j → get_or (set xs i v) j d ≡ get_or xs j d
  get_or-set_ne [] i j v d h = refl
  get_or-set_ne (x ∷ xs) zero zero v d h = absurd (h refl)
  get_or-set_ne (x ∷ xs) zero (suc j) v d h = refl
  get_or-set_ne (x ∷ xs) (suc i) zero v d h = refl
  get_or-set_ne (x ∷ xs) (suc i) (suc j) v d h = get_or-set_ne xs i j v d (λ e. h (ap suc e))

  pub get_or-append_left :
      (xs ys : List A) (i : ℕ) (d : A) → i < length xs → get_or (xs ++ ys) i d ≡ get_or xs i d
  get_or-append_left [] ys i d h = absurd (omega arith)
  get_or-append_left (x ∷ xs) ys zero d h = refl
  get_or-append_left (x ∷ xs) ys (suc i) d h = get_or-append_left xs ys i d (omega arith)

  pub get_or-append_right :
      (xs ys : List A) (i : ℕ) (d : A) → get_or (xs ++ ys) (length xs + i) d ≡ get_or ys i d
  get_or-append_right [] ys i d = rw zero-add
  get_or-append_right (x ∷ xs) ys i d = rw suc-add (get_or-append_right xs ys i d)

  pub get_or-outside : (xs : List A) (i : ℕ) (d : A) → length xs ≤ i → get_or xs i d ≡ d
  get_or-outside [] i d h = refl
  get_or-outside (x ∷ xs) zero d h = absurd (omega arith)
  get_or-outside (x ∷ xs) (suc i) d h = get_or-outside xs i d (omega arith)

  -- Lists of one length that agree at every index are equal.
  pub eq_of_get_or :
      (xs ys : List A) (d : A)
      → length xs ≡ length ys
      → ((i : ℕ) → i < length xs → get_or xs i d ≡ get_or ys i d)
      → xs ≡ ys
  eq_of_get_or [] [] d e h = refl
  eq_of_get_or [] (y ∷ ys) d e h = absurd (omega arith)
  eq_of_get_or (x ∷ xs) [] d e h = absurd (omega arith)
  eq_of_get_or (x ∷ xs) (y ∷ ys) d e h =
      let tails = eq_of_get_or xs ys d (omega arith) (λ i p. h (suc i) (omega arith)) in
      cc (h 0 (omega arith), tails)

pub length-map {ℓ κ} :
    {A : Type ℓ} {B : Type κ} (f : A → B) (xs : List A) → length (map f xs) ≡ length xs
length-map f [] = refl
length-map f (x ∷ xs) = ap suc (length-map f xs)

-- An index in range has an element, and `map` acts on it.
pub get_elem?-map {ℓ κ} :
    {A : Type ℓ} {B : Type κ} (f : A → B) (xs : List A) (i : ℕ) (b : B)
    → i < length xs
    → (x : A) × (get_elem? xs i ≡ some x) × (get_or (map f xs) i b ≡ f x)
get_elem?-map f [] i b h = absurd (omega arith)
get_elem?-map f (x ∷ xs) zero b h = (x, refl, refl)
get_elem?-map f (x ∷ xs) (suc i) b h = get_elem?-map f xs i b (omega arith)

module _ {ℓ κ} {A : Type ℓ} (P : A → Type κ) where
  pub All-get_or : (xs : List A) (i : ℕ) (d : A) → All P xs → i < length xs → P (get_or xs i d)
  All-get_or [] i d h p = absurd (omega arith)
  All-get_or (x ∷ xs) zero d h p = h.0
  All-get_or (x ∷ xs) (suc i) d h p = All-get_or xs i d h.1 (omega arith)

  pub All-set : (xs : List A) (i : ℕ) (v : A) → All P xs → P v → All P (set xs i v)
  All-set [] i v h p = tt
  All-set (x ∷ xs) zero v h p = (p, h.1)
  All-set (x ∷ xs) (suc i) v h p = (h.0, All-set xs i v h.1 p)

  pub All-append : (xs ys : List A) → All P xs → All P ys → All P (xs ++ ys)
  All-append [] ys h k = k
  All-append (x ∷ xs) ys h k = (h.0, All-append xs ys h.1 k)

  pub All-replicate : (n : ℕ) (v : A) → P v → All P (replicate n v)
  All-replicate zero v p = tt
  All-replicate (suc n) v p = (p, All-replicate n v p)

module _ {ℓ} {A : Type ℓ} where
  -- Elements appended that equal the default are not seen by `get_or`.
  pub get_or-append_default :
      (xs : List A) (i : ℕ) (d : A) → get_or (xs ++ d ∷ []) i d ≡ get_or xs i d
  get_or-append_default [] zero d = refl
  get_or-append_default [] (suc i) d = refl
  get_or-append_default (x ∷ xs) zero d = refl
  get_or-append_default (x ∷ xs) (suc i) d = get_or-append_default xs i d

module _ {A : Type 0} where
  infix 40 ◌∈◌
  abbrev pub ◌∈◌ : A → List A → Type 0
  x ∈ [] = ⊥
  x ∈ y ∷ ys = (x ≡ y) ⊎ (x ∈ ys)

  pub mem-append : (x : A) (xs ys : List A) → (x ∈ xs ++ ys) ↔ ((x ∈ xs) ⊎ (x ∈ ys))
  mem-append x [] ys = (inr, λ m. elim m [ inl no_mem ↦ absurd no_mem | inr m' ↦ m' ])
  mem-append x (y ∷ xs) ys = ground (arith, mem-append x xs ys)

module _ {ℓ} {A : Type ℓ} where
  pub get_elem?-append_last : (xs : List A) (x : A) → get_elem? (xs ++ x ∷ []) (length xs) ≡ some x
  get_elem?-append_last [] x = refl
  get_elem?-append_last (y ∷ ys) x = get_elem?-append_last ys x

  pub get_elem?-append_other :
      (xs : List A) (x : A) (j : ℕ) → j ≢ length xs → get_elem? (xs ++ x ∷ []) j ≡ get_elem? xs j
  get_elem?-append_other [] x zero ne = absurd (ne refl)
  get_elem?-append_other [] x (suc j) ne = refl
  get_elem?-append_other (y ∷ ys) x zero ne = refl
  get_elem?-append_other (y ∷ ys) x (suc j) ne = get_elem?-append_other ys x j (λ e. ne (ap suc e))

  pub get_elem?-set_self :
      (xs : List A) (i : ℕ) (x y : A) → get_elem? xs i ≡ some x → get_elem? (set xs i y) i ≡ some y
  get_elem?-set_self [] i x y e = cc
  get_elem?-set_self (z ∷ zs) zero x y e = refl
  get_elem?-set_self (z ∷ zs) (suc i) x y e = get_elem?-set_self zs i x y e

  pub get_elem?-set_other :
      (xs : List A) (i j : ℕ) (y : A) → j ≢ i → get_elem? (set xs i y) j ≡ get_elem? xs j
  get_elem?-set_other [] i j y ne = refl
  get_elem?-set_other (z ∷ zs) zero zero y ne = absurd (ne refl)
  get_elem?-set_other (z ∷ zs) zero (suc j) y ne = refl
  get_elem?-set_other (z ∷ zs) (suc i) zero y ne = refl
  get_elem?-set_other (z ∷ zs) (suc i) (suc j) y ne =
      get_elem?-set_other zs i j y (λ e. ne (ap suc e))
