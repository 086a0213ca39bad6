-- ===== src/Analysis/Por/Independent.antt =====
-- src/analysis/reachability.rs: `transitions_are_independent` against its meaning.
use rust_pta.Prelude.{
  ℕ, ◌+◌, ◌≤◌, ◌<◌, ◌≡◌, ◌≢◌, ◌↔◌, ◌⊎◌, inl, inr, refl, Bool, true, false, ◌&&◌, ◌||◌,
}
use rust_pta.Prelude.{some, List, [], ◌∷◌, length, ltb, ◌==◌, if◌then◌else◌, arith, subst}
use rust_pta.Prelude.{Bool-cases, ==→≡, ==→≢, lt-or-eq-or-gt}
use rust_pta.Net.IndexVec.{
  PlaceId, TransitionId, enumerate_from, iter_enumerated, from_usize-eq, from_usize, id_limit,
}
use rust_pta.Net.Structure.{Place}
use rust_pta.Net.Incidence.Shape.{get-eq-entry}
use rust_pta.Net.Core.{Net, places_len, transitions_len}
use rust_pta.Net.Core.Build.{IsWf, pre_weight, post_weight}
use rust_pta.Net.Core.Commute.{Apart, Independent}
use rust_pta.Analysis.Por.{independent_from, transitions_are_independent}

module _ (net : Net) (wf : IsWf net) (t1 t2 : TransitionId) (h1 : t1 < transitions_len net)
    (h2 : t2 < transitions_len net) where
  abbrev touch : ℕ → ℕ → Bool
  touch pre post = ltb 0 pre || ltb 0 post

  abbrev clash : PlaceId → Bool
  clash p =
      touch (pre_weight net p t1) (post_weight net p t1)
      && touch (pre_weight net p t2) (post_weight net p t2)

  clash-Apart : (p : PlaceId) → (clash p ≡ false) ↔ (Apart net p t1 ⊎ Apart net p t2)
  clash-Apart p = ground arith

  abbrev ApartFrom : ℕ → Type 0
  ApartFrom k = (p : PlaceId) → k ≤ p → p < places_len net → Apart net p t1 ⊎ Apart net p t2

  independent_from-cons :
      (k : ℕ) (x : Place) (rest : List (PlaceId × Place))
      → k < places_len net
      → independent_from net t1 t2 ((k, x) ∷ rest)
        ≡ (if clash k then some false else independent_from net t1 t2 rest)
  unfolding independent_from
  independent_from-cons k x rest hk =
      rw
        (
          get-eq-entry net.pre wf.pre_shape k t1 hk h1,
          get-eq-entry net.post wf.post_shape k t1 hk h1,
          get-eq-entry net.pre wf.pre_shape k t2 hk h2,
          get-eq-entry net.post wf.post_shape k t2 hk h2,
        )
        refl

  nothing_left : independent_from net t1 t2 [] ≡ some true
  unfolding independent_from
  nothing_left = refl

  independent_step :
      (k : ℕ) (x : Place) (rest : List (PlaceId × Place)) (b : Bool)
      → k < places_len net
      → k < id_limit
      → independent_from net t1 t2 rest ≡ some b
      → (b ≡ true) ↔ ApartFrom (k + 1)
      → (b' : Bool) × (independent_from net t1 t2 ((from_usize k, x) ∷ rest) ≡ some b')
        × ((b' ≡ true) ↔ ApartFrom k)
  independent_step k x rest b hk fits answers means = elim (Bool-cases (clash k)) [
    | inl on ↦ (
      false,
      rw (from_usize-eq k fits, independent_from-cons k x rest hk, on) refl,
      (
        λ e. absurd (ground arith),
        λ a. absurd (ground (arith, (clash-Apart k).1 (a k (omega arith) hk))),
      ),
    )
    | inr off ↦ (
      b,
      rw (from_usize-eq k fits, independent_from-cons k x rest hk, off) answers,
      (
        λ e p le lt. elim (lt-or-eq-or-gt k p) [
          | inl below ↦ means.0 e p (omega arith) lt
          | inr (inl same) ↦
              subst (λ q. Apart net q t1 ⊎ Apart net q t2) same ((clash-Apart k).0 off)
          | inr (inr above) ↦ absurd (omega arith)
        ],
        λ a. means.1 (λ p le lt. a p (omega arith) lt),
      ),
    )
  ]

  independent_from-Apart :
      (xs : List Place) (k : ℕ)
      → k + length xs ≡ places_len net
      → (b : Bool) × (independent_from net t1 t2 (enumerate_from k xs) ≡ some b)
        × ((b ≡ true) ↔ ApartFrom k)
  unfolding enumerate_from
  independent_from-Apart [] k h =
      (true, nothing_left, (λ e p le lt. absurd (omega arith), λ a. refl))
  independent_from-Apart (x ∷ xs) k h =
      let (b, answers, means) = independent_from-Apart xs (k + 1) (omega arith) in
      independent_step k x (enumerate_from (k + 1) xs) b (omega arith)
        (omega (arith, wf.places_fit)) answers means

-- For two transitions of a well-formed net, `transitions_are_independent` does not panic, and answers
-- `true` exactly when they differ and each place has an arc with at most one of them.
pub transitions_are_independent-Independent :
    (net : Net) (t1 t2 : TransitionId)
    → IsWf net
    → t1 < transitions_len net
    → t2 < transitions_len net
    → (b : Bool) × (transitions_are_independent net t1 t2 ≡ some b)
      × ((b ≡ true) ↔ ((t1 ≢ t2) × Independent net t1 t2))
unfolding transitions_are_independent iter_enumerated
transitions_are_independent-Independent net t1 t2 wf h1 h2 = elim (Bool-cases (t1 == t2)) [
  | inl same ↦
      (false, rw same refl, (λ e. absurd (ground arith), λ (ne, _). absurd (ne (==→≡ t1 t2 same))))
  | inr differ ↦
      let (b, answers, means) =
        independent_from-Apart net wf t1 t2 h1 h2 net.places 0 (omega arith) in
      (
        b,
        rw differ answers,
        (
          λ e. (==→≢ t1 t2 differ, λ p hp. means.0 e p (omega arith) hp),
          λ (ne, apart). means.1 (λ p le hp. apart p hp),
        ),
      )
]
