-- ===== src/Net/Core/Diagnose/Judge.antt =====
-- src/net/core.rs: what the loops of `diagnose_connectivity` have found after some rounds.
use rust_pta.Prelude.{ℕ, zero, suc, ◌<◌, ◌≡◌, inl, inr, refl, sym, ap, subst, true, false}
use rust_pta.Prelude.{String, List, [], ◌∷◌, ◌++◌, ◌∈◌, get_or, arith, mem-append, Bool-cases, ltb}
use rust_pta.Prelude.{lt-or-eq-or-gt}
use rust_pta.Net.IndexVec.{PlaceId, TransitionId}
use rust_pta.Net.Structure.{Marking}
use rust_pta.Net.Core.{Net}
use rust_pta.Net.Core.Build.{pre_weight, post_weight}
use rust_pta.Net.Core.Enabled.{Enabled}
use rust_pta.Net.Core.Diagnose.{
  Warning, never_activated, sink, never_fires, no_postset, Findings, any_positive, positive_at,
  any_row,
}

pub any_positive-true : (row : List ℕ) → any_positive row ≡ true → (t : ℕ) × (0 < get_or row t 0)
unfolding any_positive
any_positive-true [] e = absurd (ground arith)
any_positive-true (w ∷ row) e = elim (Bool-cases (ltb 0 w)) [
  | inl on ↦ (0, ground arith)
  | inr off ↦ let (t, h) = any_positive-true row (ground arith) in (suc t, h)
]

pub any_positive-false : (row : List ℕ) → any_positive row ≡ false → (t : ℕ) → get_or row t 0 ≡ 0
unfolding any_positive
any_positive-false [] e t = refl
any_positive-false (w ∷ row) e zero = ground arith
any_positive-false (w ∷ row) e (suc t) = any_positive-false row (ground arith) t

positive_at-eq : (t : ℕ) (row : List ℕ) → positive_at t row ≡ ltb 0 (get_or row t 0)
unfolding positive_at
positive_at-eq t [] = refl
positive_at-eq zero (w ∷ row) = refl
positive_at-eq (suc t) (w ∷ row) = positive_at-eq t row

pub any_row-false :
    (t : ℕ) (rows : List (List ℕ))
    → any_row t rows ≡ false
    → (p : ℕ) → get_or (get_or rows p []) t 0 ≡ 0
unfolding any_row
any_row-false t [] e p = refl
any_row-false t (row ∷ rows) e zero = ground (arith, positive_at-eq t row)
any_row-false t (row ∷ rows) e (suc p) = any_row-false t rows (ground arith) p

pub any_row-true :
    (t : ℕ) (rows : List (List ℕ))
    → any_row t rows ≡ true
    → (p : ℕ) × (0 < get_or (get_or rows p []) t 0)
unfolding any_row
any_row-true t [] e = absurd (ground arith)
any_row-true t (row ∷ rows) e = elim (Bool-cases (positive_at t row)) [
  | inl on ↦ (0, ground (arith, positive_at-eq t row))
  | inr off ↦ let (p, h) = any_row-true t rows (ground arith) in (suc p, h)
]

-- No arc at the place, and none at the transition.
abbrev pub BarePlace : Net → PlaceId → Type 0
BarePlace net p = (t : ℕ) → (pre_weight net p t ≡ 0) × (post_weight net p t ≡ 0)

abbrev pub BareTransition : Net → TransitionId → Type 0
BareTransition net t = (p : ℕ) → (pre_weight net p t ≡ 0) × (post_weight net p t ≡ 0)

-- What the net is like where a warning is given.
abbrev pub Meant : Net → Warning → Type 0
Meant net (never_activated name q) = (t : TransitionId) × (0 < post_weight net q t)
Meant net (sink name q) = (t : TransitionId) → post_weight net q t ≡ 0
Meant net (never_fires name t) = (m : Marking) → Enabled net m t
Meant net (no_postset name t) = (p : PlaceId) → post_weight net p t ≡ 0

module _ (net : Net) (Bare : ℕ → Type 0) where
  -- What holds after `k` rounds.
  pub record Judged (k : ℕ) (f : Findings) : Type 0 where
    pub sound : (x : ℕ × String) → x ∈ f.0 → (x.0 < k) × Bare x.0
    pub complete : (i : ℕ) → i < k → Bare i → (name : String) × ((i, name) ∈ f.0)
    pub meant : (w : Warning) → w ∈ f.1 → Meant net w

  pub bare_one :
      (k : ℕ) (name : String) (isolated : List (ℕ × String)) (warnings : List Warning)
      → Bare k
      → Judged k (isolated, warnings)
      → Judged (suc k) (isolated ++ (k, name) ∷ [], warnings)
  bare_one k name isolated warnings bare j = record {
    sound = λ x mem. elim ((mem-append x isolated ((k, name) ∷ [])).0 mem) [
      | inl old ↦ let (lt, b) = j.sound x old in (omega arith, b)
      | inr (inl same) ↦ rw same (omega arith, bare)
      | inr (inr no_mem) ↦ absurd no_mem
    ];
    complete = λ i h b. elim (lt-or-eq-or-gt i k) [
      | inl below ↦
          let (n, mem) = j.complete i below b in
          (n, (mem-append (i, n) isolated ((k, name) ∷ [])).1 (inl mem))
      | inr (inl same) ↦ (
        name,
        (mem-append (i, name) isolated ((k, name) ∷ [])).1 (inr (inl (ap (λ n. (n, name)) same))),
      )
      | inr (inr above) ↦ absurd (omega arith)
    ];
    meant = j.meant;
  }

  pub joined_one :
      (k : ℕ) (isolated : List (ℕ × String)) (warnings : List Warning)
      → ¬ Bare k
      → Judged k (isolated, warnings)
      → Judged (suc k) (isolated, warnings)
  joined_one k isolated warnings joined j = record {
    sound = λ x mem. let (lt, b) = j.sound x mem in (omega arith, b);
    complete = λ i h b. elim (lt-or-eq-or-gt i k) [
      | inl below ↦ j.complete i below b
      | inr (inl same) ↦ absurd (joined (subst Bare same b))
      | inr (inr above) ↦ absurd (omega arith)
    ];
    meant = j.meant;
  }

  pub warned_one :
      (k : ℕ) (isolated : List (ℕ × String)) (warnings : List Warning) (w : Warning)
      → Meant net w
      → Judged k (isolated, warnings)
      → Judged k (isolated, warnings ++ w ∷ [])
  warned_one k isolated warnings w means j = record {
    sound = j.sound;
    complete = j.complete;
    meant = λ v mem. elim ((mem-append v warnings (w ∷ [])).0 mem) [
      | inl old ↦ j.meant v old
      | inr (inl same) ↦ subst (Meant net) (sym same) means
      | inr (inr no_mem) ↦ absurd no_mem
    ];
  }
