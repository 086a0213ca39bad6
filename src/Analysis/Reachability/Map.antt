-- ===== src/Analysis/Reachability/Map.antt =====
-- src/analysis/reachability.rs: the map from markings to nodes, and the set of deadlocks.
use rust_pta.Prelude.{ℕ, true, ◌≡◌, ◌≢◌, refl, ◌⊎◌, inl, inr, ◌↔◌, none, some, List, [], ◌∷◌, ◌∈◌}
use rust_pta.Prelude.{arith, Bool-cases}
use rust_pta.Net.Structure.{Marking}
use rust_pta.Analysis.Reachability.{marking_eq, find, contains, insert, MarkingMap}

pub marking_eq_iff : (m n : Marking) → (marking_eq m n ≡ true) ↔ (m ≡ n)
unfolding marking_eq
marking_eq_iff [] [] = (λ _. refl, λ _. refl)
marking_eq_iff [] (y ∷ ys) = (λ e. cc, λ e. cc)
marking_eq_iff (x ∷ xs) [] = (λ e. cc, λ e. cc)
marking_eq_iff (x ∷ xs) (y ∷ ys) = ground (arith, marking_eq_iff xs ys)

pub find-cons_self : (rest : MarkingMap) (m : Marking) (i : ℕ) → find ((m, i) ∷ rest) m ≡ some i
unfolding find
find-cons_self rest m i = rw ((marking_eq_iff m m).1 refl)

pub find-cons_ne :
    (rest : MarkingMap) (m n : Marking) (i : ℕ) → m ≢ n → find ((m, i) ∷ rest) n ≡ find rest n
unfolding find
find-cons_ne rest m n i ne = ground (arith, marking_eq_iff m n)

pub marking-cases : (m n : Marking) → (m ≡ n) ⊎ (m ≢ n)
marking-cases m n = elim (Bool-cases (marking_eq m n)) [
  | inl e ↦ inl ((marking_eq_iff m n).0 e)
  | inr e ↦ inr (λ same. ground (arith, marking_eq_iff m n))
]

pub contains_iff : (i : ℕ) (js : List ℕ) → (contains i js ≡ true) ↔ (i ∈ js)
unfolding contains
contains_iff i [] = (λ e. cc, λ m. absurd m)
contains_iff i (j ∷ js) = ground (arith, contains_iff i js)

pub mem-insert : (i j : ℕ) (set : List ℕ) → (j ∈ insert i set) ↔ ((j ≡ i) ⊎ (j ∈ set))
unfolding insert
mem-insert i j set = ground (arith, contains_iff i set, contains_iff j set)

pub find-nil : (m : Marking) → find [] m ≡ none
unfolding find
find-nil m = refl
