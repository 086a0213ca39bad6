-- ===== src/Net/Reduce/Pairwise.antt =====
-- src/net/reduce/graph.rs: lists edited in place, element by element.
use rust_pta.Prelude.{ℕ, zero, suc, ◌<◌, ◌≡◌, ◌∙◌, refl, sym, ap, some, Bool}
use rust_pta.Prelude.{List, [], ◌∷◌, map, length, get_elem?, set, All, some_inj}
use rust_pta.Prelude.{length-set, All-set, Bool-cases, inl, inr}
use rust_pta.Prelude.{get_elem?-Returns, subst, >>=-eq-some}
use rust_pta.Net.Structure.{Weight}
use rust_pta.Net.Reduce.Graph.{retain, modify, update_at, modify_each, arc_place}
use rust_pta.Net.Reduce.Intermediate.{relink}

module _ {A B : Type 0} where
  -- The elements of two lists of one length are related in pairs.
  abbrev pub All2 : (A → B → Type 0) → List A → List B → Type 0
  All2 R [] [] = Unit
  All2 R (x ∷ xs) (y ∷ ys) = R x y × All2 R xs ys
  All2 R _ _ = ⊥

  pub length-All2 :
      (R : A → B → Type 0) (xs : List A) (ys : List B) → All2 R xs ys → length ys ≡ length xs
  length-All2 R [] [] h = refl
  length-All2 R (x ∷ xs) (y ∷ ys) h = ap suc (length-All2 R xs ys h.1)
  length-All2 R [] (y ∷ ys) h = absurd h
  length-All2 R (x ∷ xs) [] h = absurd h

  pub get_elem?-All2 :
      (R : A → B → Type 0) (xs : List A) (ys : List B) (i : ℕ) (y : B)
      → All2 R xs ys
      → get_elem? ys i ≡ some y
      → (x : A) × (get_elem? xs i ≡ some x) × R x y
  get_elem?-All2 R [] [] i y h e = cc
  get_elem?-All2 R (x ∷ xs) (z ∷ ys) zero y h e = (x, refl, rw (sym (some_inj e)) h.0)
  get_elem?-All2 R (x ∷ xs) (z ∷ ys) (suc i) y h e = get_elem?-All2 R xs ys i y h.1 e
  get_elem?-All2 R [] (z ∷ ys) i y h e = absurd h
  get_elem?-All2 R (x ∷ xs) [] i y h e = absurd h

  pub All2-get_elem? :
      (R : A → B → Type 0) (xs : List A) (ys : List B) (i : ℕ) (x : A)
      → All2 R xs ys
      → get_elem? xs i ≡ some x
      → (y : B) × (get_elem? ys i ≡ some y) × R x y
  All2-get_elem? R [] [] i x h e = cc
  All2-get_elem? R (z ∷ xs) (y ∷ ys) zero x h e = (y, refl, rw (sym (some_inj e)) h.0)
  All2-get_elem? R (z ∷ xs) (y ∷ ys) (suc i) x h e = All2-get_elem? R xs ys i x h.1 e
  All2-get_elem? R [] (y ∷ ys) i x h e = absurd h
  All2-get_elem? R (z ∷ xs) [] i x h e = absurd h

module _ {A : Type 0} where
  pub All2-map :
      (R : A → A → Type 0) (f : A → A) (xs : List A) → ((x : A) → R x (f x)) → All2 R xs (map f xs)
  All2-map R f [] h = tt
  All2-map R f (x ∷ xs) h = (h x, All2-map R f xs h)

  pub All2-mono :
      (R S : A → A → Type 0) (xs ys : List A)
      → ((x y : A) → R x y → S x y)
      → All2 R xs ys
      → All2 S xs ys
  All2-mono R S [] [] f h = tt
  All2-mono R S (x ∷ xs) (y ∷ ys) f h = (f x y h.0, All2-mono R S xs ys f h.1)
  All2-mono R S [] (y ∷ ys) f h = absurd h
  All2-mono R S (x ∷ xs) [] f h = absurd h

  module _ (R : A → A → Type 0) (R-refl : (x : A) → R x x)
      (R-trans : (x y z : A) → R x y → R y z → R x z) where
    pub All2-refl : (xs : List A) → All2 R xs xs
    All2-refl [] = tt
    All2-refl (x ∷ xs) = (R-refl x, All2-refl xs)

    pub All2-trans : (xs ys zs : List A) → All2 R xs ys → All2 R ys zs → All2 R xs zs
    All2-trans [] [] zs h k = k
    All2-trans (x ∷ xs) (y ∷ ys) (z ∷ zs) h k = (R-trans x y z h.0 k.0, All2-trans xs ys zs h.1 k.1)
    All2-trans (x ∷ xs) (y ∷ ys) [] h k = absurd k
    All2-trans [] (y ∷ ys) zs h k = absurd h
    All2-trans (x ∷ xs) [] zs h k = absurd h

    pub All2-set :
        (xs : List A) (i : ℕ) (x v : A) → get_elem? xs i ≡ some x → R x v → All2 R xs (set xs i v)
    All2-set [] i x v e r = tt
    All2-set (y ∷ xs) zero x v e r = (rw (some_inj e) r, All2-refl xs)
    All2-set (y ∷ xs) (suc i) x v e r = (R-refl y, All2-set xs i x v e r)

    module _ (f : A → A) (R-step : (x : A) → R x (f x)) where
      pub All2-modify : (xs : List A) (i : ℕ) → All2 R xs (modify xs i f)
      unfolding modify
      All2-modify [] i = tt
      All2-modify (x ∷ xs) zero = (R-step x, All2-refl xs)
      All2-modify (x ∷ xs) (suc i) = (R-refl x, All2-modify xs i)

      pub All2-modify_each :
          {B : Type 0} (index : B → ℕ) (bs : List B) (xs : List A)
          → All2 R xs (modify_each index f xs bs)
      unfolding modify_each
      All2-modify_each index [] xs = All2-refl xs
      All2-modify_each index (b ∷ bs) xs =
          let first = modify xs (index b) f in
          All2-trans xs first (modify_each index f first bs) (All2-modify xs (index b))
            (All2-modify_each index bs first)

      pub All2-update_at : (xs ys : List A) (i : ℕ) → update_at xs i f ≡ some ys → All2 R xs ys
      unfolding update_at
      All2-update_at xs ys i e =
          let (x, ex, e') = >>=-eq-some (get_elem? xs i) (λ x. some (set xs i (f x))) e in
          subst (All2 R xs) (some_inj e') (All2-set xs i x (f x) ex (R-step x))

      pub All2-relink :
          (arcs : List (ℕ × Weight)) (xs ys : List A) → relink f xs arcs ≡ some ys → All2 R xs ys
      unfolding relink
      All2-relink [] xs ys e = subst (All2 R xs) (some_inj e) (All2-refl xs)
      All2-relink (arc ∷ arcs) xs ys e =
          let (zs, ez, e') =
            >>=-eq-some (update_at xs (arc_place arc) f) (λ zs. relink f zs arcs) e in
          All2-trans xs zs ys (All2-update_at xs zs (arc_place arc) ez) (All2-relink arcs zs ys e')

module _ {A : Type 0} (P : A → Type 0) where
  pub All-retain : (keep : A → Bool) (xs : List A) → All P xs → All P (retain keep xs)
  unfolding retain
  All-retain keep [] h = tt
  All-retain keep (x ∷ xs) h = elim (Bool-cases (keep x)) [
    | inl e ↦ rw e (h.0, All-retain keep xs h.1)
    | inr e ↦ rw e (All-retain keep xs h.1)
  ]

  pub All-get_elem? : (xs : List A) (i : ℕ) {x : A} → All P xs → get_elem? xs i ≡ some x → P x
  All-get_elem? [] i h e = cc
  All-get_elem? (y ∷ xs) zero {x} h e = rw (sym (some_inj e)) h.0
  All-get_elem? (y ∷ xs) (suc i) h e = All-get_elem? xs i h.1 e

  pub All-map : (f : A → A) (xs : List A) → ((x : A) → P x → P (f x)) → All P xs → All P (map f xs)
  All-map f [] k h = tt
  All-map f (x ∷ xs) k h = (k x h.0, All-map f xs k h.1)

  module _ (f : A → A) (keep : (x : A) → P x → P (f x)) where
    pub All-modify : (xs : List A) (i : ℕ) → All P xs → All P (modify xs i f)
    unfolding modify
    All-modify [] i h = tt
    All-modify (x ∷ xs) zero h = (keep x h.0, h.1)
    All-modify (x ∷ xs) (suc i) h = (h.0, All-modify xs i h.1)

    pub All-modify_each :
        {B : Type 0} (index : B → ℕ) (bs : List B) (xs : List A)
        → All P xs
        → All P (modify_each index f xs bs)
    unfolding modify_each
    All-modify_each index [] xs h = h
    All-modify_each index (b ∷ bs) xs h =
        All-modify_each index bs (modify xs (index b) f) (All-modify xs (index b) h)

    pub All-update_at :
        (xs : List A) (i : ℕ)
        → All P xs
        → i < length xs
        → (ys : List A) × (update_at xs i f ≡ some ys) × All P ys × (length ys ≡ length xs)
    unfolding update_at
    All-update_at xs i h lt =
        let (x, e) = get_elem?-Returns xs i lt in
        (
          set xs i (f x),
          rw e refl,
          All-set P xs i (f x) h (keep x (All-get_elem? xs i h e)),
          length-set xs i (f x),
        )

    pub All-relink :
        (arcs : List (ℕ × Weight)) (xs : List A)
        → All P xs
        → All (λ arc. arc_place arc < length xs) arcs
        → (ys : List A) × (relink f xs arcs ≡ some ys) × All P ys × (length ys ≡ length xs)
    unfolding relink
    All-relink [] xs h lt = (xs, refl, h, refl)
    All-relink (arc ∷ arcs) xs h lt =
        let (zs, e, hz, same) = All-update_at xs (arc_place arc) h lt.0 in
        let (ys, e', hy, same') =
          All-relink arcs zs hz
            (subst (λ n. All (λ (a : ℕ × Weight). arc_place a < n) arcs) (sym same) lt.1) in
        (ys, rw (e, relink) e', hy, same' ∙ same)

pub All-mono :
    {A : Type 0} (P Q : A → Type 0) → ((x : A) → P x → Q x) → (xs : List A) → All P xs → All Q xs
All-mono P Q f [] h = tt
All-mono P Q f (x ∷ xs) h = (f x h.0, All-mono P Q f xs h.1)

pub length-modify :
    {A : Type 0} (f : A → A) (xs : List A) (i : ℕ) → length (modify xs i f) ≡ length xs
unfolding modify
length-modify f [] i = refl
length-modify f (x ∷ xs) zero = refl
length-modify f (x ∷ xs) (suc i) = ap suc (length-modify f xs i)

pub length-modify_each :
    {A B : Type 0} (index : B → ℕ) (f : A → A) (bs : List B) (xs : List A)
    → length (modify_each index f xs bs) ≡ length xs
unfolding modify_each
length-modify_each index f [] xs = refl
length-modify_each index f (b ∷ bs) xs =
    length-modify_each index f bs (modify xs (index b) f) ∙ length-modify f xs (index b)
