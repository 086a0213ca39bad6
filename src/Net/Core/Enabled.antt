-- ===== src/Net/Core/Enabled.antt =====
-- src/net/core.rs: enabledness, against the definition over all places.
use rust_pta.Prelude.{ℕ, zero, suc, ◌+◌, ◌≤◌, ◌<◌, ◌≡◌, refl, ◌⊎◌, inl, inr, some}
use rust_pta.Prelude.{true, false, List, [], ◌∷◌, length, get_or, ltb, leb, arith, ltb→lt, ltb→le}
use rust_pta.Prelude.{
  >>=-eq-some, subst, sym, lt-or-eq-or-gt, ◌∈◌, All, get_elem?-eq-get_or, Bool-cases,
}
use native.Mathlib.Nat.{add-zero, zero-add}
use rust_pta.Net.IndexVec.{
  PlaceId, TransitionId, id_limit, from_usize, from_usize-eq, enumerate_from, iter_enumerated,
}
use rust_pta.Net.Structure.{Weight, Marking, Transition}
use rust_pta.Net.Incidence.Shape.{entry}
use rust_pta.Net.Core.{
  Net, enabled_rows, is_transition_enabled, enabled_from, enabled_transitions, places_len,
  transitions_len,
}
use rust_pta.Net.Core.Build.{IsWf, pre_weight}

abbrev pub tokens : Marking → PlaceId → Weight
tokens m p = get_or m p 0

-- Every input place of the transition holds the weight of its arc.
abbrev pub Enabled : Net → Marking → TransitionId → Type 0
Enabled net m t = (p : ℕ) → p < places_len net → pre_weight net p t ≤ tokens m p

-- Some input place holds too few tokens.
abbrev pub Lacks : Net → Marking → TransitionId → Type 0
Lacks net m t = (p : ℕ) × (p < places_len net) × (tokens m p < pre_weight net p t)

-- A marking of the net: one number for each place.
abbrev pub Fits : Net → Marking → Type 0
Fits net m = length m ≡ places_len net

abbrev row_weight : List (List Weight) → ℕ → ℕ → Weight
row_weight rows i t = get_or (get_or rows i []) t 0

abbrev Passes : Marking → ℕ → List (List Weight) → ℕ → Type 0
Passes m t rows k = (i : ℕ) → i < length rows → row_weight rows i t ≤ tokens m (k + i)

abbrev Fails : Marking → ℕ → List (List Weight) → ℕ → Type 0
Fails m t rows k = (i : ℕ) × (i < length rows) × (tokens m (k + i) < row_weight rows i t)

module _ (m : Marking) (t width : ℕ) (ht : t < width) where
  enabled_rows_lem :
      (rows : List (List Weight)) (k : ℕ)
      → All (λ (row : List Weight). length row ≡ width) rows
      → k + length rows ≤ id_limit
      → k + length rows ≤ length m
      → ((enabled_rows m t (enumerate_from k rows) ≡ some true) × Passes m t rows k)
        ⊎ ((enabled_rows m t (enumerate_from k rows) ≡ some false) × Fails m t rows k)
  unfolding enabled_rows enumerate_from
  enabled_rows_lem [] k w h hm = inl (refl, λ i hi. absurd (omega arith))
  enabled_rows_lem (row ∷ rows) k w h hm =
      let id = from_usize-eq k (omega arith) in
      let read = get_elem?-eq-get_or row t 0 (omega (arith, w.0)) in
      let held = get_elem?-eq-get_or m k 0 (omega arith) in
      elim (Bool-cases (ltb (tokens m k) (get_or row t 0))) [
        | inl few ↦
            inr (rw (id, read, held, few), (zero, omega arith, rw add-zero (ltb→lt _ _ few)))
        | inr full ↦ elim (enabled_rows_lem rows (k + 1) w.1 (omega arith) (omega arith)) [
          | inl (runs, passes) ↦ inl (
            rw (id, read, held, full) runs,
            passes_cons row rows k (rw add-zero (ltb→le _ _ full)) passes,
          )
          | inr (runs, (i, hi, few)) ↦
              inr (rw (id, read, held, full) runs, (suc i, omega arith, rw (shift k i) few))
        ]
      ]
    where
      shift : (k i : ℕ) → k + suc i ≡ k + 1 + i
      shift k i = omega arith

      passes_cons :
          (row : List Weight) (rows : List (List Weight)) (k : ℕ)
          → get_or row t 0 ≤ tokens m (k + zero)
          → Passes m t rows (k + 1)
          → Passes m t (row ∷ rows) k
      passes_cons row rows k first rest zero hi = first
      passes_cons row rows k first rest (suc i) hi = rw (shift k i) (rest i (omega arith))

abbrev pub Increasing : List ℕ → Type 0
Increasing [] = Unit
Increasing (t ∷ ts) = ((u : ℕ) → u ∈ ts → t < u) × Increasing ts

pub not-Enabled_of_Lacks :
    (net : Net) (m : Marking) (t : TransitionId) → Lacks net m t → ¬ Enabled net m t
not-Enabled_of_Lacks net m t (p, hp, few) on = absurd (omega (arith, on p hp))

-- `ts` lists, in increasing order, the numbers from `k` below `n` that satisfy `P`.
module _ (P : ℕ → Type 0) (n : ℕ) where
  pub record Selects (k : ℕ) (ts : List ℕ) : Type 0 where
    pub sound : (t : ℕ) → t ∈ ts → (k ≤ t) × (t < n) × P t
    pub complete : (t : ℕ) → k ≤ t → t < n → P t → t ∈ ts
    pub increasing : Increasing ts

  Selects-end : Selects n []
  Selects-end = record {
    sound = λ t no_mem. absurd no_mem;
    complete = λ t le lt on. absurd (omega arith);
    increasing = tt;
  }

  Selects-take : {k : ℕ} {ts : List ℕ} → k < n → P k → Selects (k + 1) ts → Selects k (k ∷ ts)
  Selects-take {k} hk on h = record {
    sound = λ t. elim [
      | inl e ↦ (omega arith, omega arith, subst P (sym e) on)
      | inr m ↦ let (le, lt, p) = h.sound t m in (omega arith, lt, p)
    ];
    complete = λ t le lt p. ground (arith, lt-or-eq-or-gt k t, h.complete t);
    increasing = (λ u m. omega (arith, (h.sound u m).0), h.increasing);
  }

  Selects-skip : {k : ℕ} {ts : List ℕ} → ¬ P k → Selects (k + 1) ts → Selects k ts
  Selects-skip {k} off h = record {
    sound = λ t m. let (le, lt, p) = h.sound t m in (omega arith, lt, p);
    complete = λ t le lt p. elim (lt-or-eq-or-gt k t) [
      | inl below ↦ h.complete t (omega arith) lt p
      | inr (inl e) ↦ absurd (off (subst P (sym e) p))
      | inr (inr above) ↦ absurd (omega arith)
    ];
    increasing = h.increasing;
  }

module _ (net : Net) (wf : IsWf net) (m : Marking) (fits : Fits net m) where
  -- The code's answer is the definition's.
  pub is_transition_enabled_lem :
      (t : ℕ)
      → t < transitions_len net
      → ((is_transition_enabled net t m ≡ some true) × Enabled net m t)
        ⊎ ((is_transition_enabled net t m ≡ some false) × Lacks net m t)
  unfolding is_transition_enabled iter_enumerated entry
  is_transition_enabled_lem t ht =
      let rows = net.pre.rows in
      let n = wf.pre_shape.rows_len in
      let off : leb (transitions_len net) t ≡ false = ground arith in
      elim (enabled_rows_lem m t (transitions_len net) ht rows 0 wf.pre_shape.widths
        (omega (arith, wf.places_fit)) (omega arith)) [
          | inl (runs, passes) ↦ inl (rw off runs, λ p hp. rw zero-add at (passes p (omega arith)))
          | inr (runs, (p, hp, few)) ↦ inr (rw off runs, (p, omega arith, rw zero-add at few))
        ]

  -- From index `k` on.
  enabled_from_lem :
      (k : ℕ) (rest : List Transition)
      → k + length rest ≡ transitions_len net
      → (ts : List TransitionId) × (enabled_from net m k rest ≡ some ts)
        × Selects (Enabled net m) (transitions_len net) k ts
  unfolding enabled_from
  enabled_from_lem k [] e = ([], refl, rw (← e, add-zero) (Selects-end (Enabled net m) k))
  enabled_from_lem k (x ∷ rest) e =
      let (ts, runs, sel) = enabled_from_lem (k + 1) rest (omega arith) in
      let hk : k < transitions_len net = omega arith in
      let id = from_usize-eq k (omega (arith, wf.transitions_fit)) in
      elim (is_transition_enabled_lem k hk) [
        | inl (test, on) ↦ (
          k ∷ ts,
          rw (id, test, runs),
          Selects-take (Enabled net m) (transitions_len net) hk on sel,
        )
        | inr (test, lacks) ↦ (
          ts,
          rw (id, test, runs),
          Selects-skip (Enabled net m) (transitions_len net) (not-Enabled_of_Lacks net m k lacks)
              sel,
        )
      ]

-- On a well-formed net and a marking of its size, `enabled_transitions` does not panic, and lists in
-- increasing order exactly the transitions each of whose input places holds the weight of its arc.
pub enabled_transitions-Selects :
    (net : Net) (m : Marking)
    → IsWf net
    → Fits net m
    → (ts : List TransitionId) × (enabled_transitions net m ≡ some ts)
      × Selects (Enabled net m) (transitions_len net) 0 ts
unfolding enabled_transitions
enabled_transitions-Selects net m wf fits =
    enabled_from_lem net wf m fits 0 net.transitions (omega arith)

length-enabled_from :
    (net : Net) (m : Marking) (k : ℕ) (rest : List Transition) (ts : List TransitionId)
    → enabled_from net m k rest ≡ some ts
    → length ts ≤ length rest
unfolding enabled_from
length-enabled_from net m k [] ts h = ground arith
length-enabled_from net m k (x ∷ rest) ts h =
    let (b, _, h1) = >>=-eq-some (is_transition_enabled net (from_usize k) m) _ h in
    let (others, e, h2) = >>=-eq-some (enabled_from net m (k + 1) rest) _ h1 in
    ground (arith, length-enabled_from net m (k + 1) rest others e)

pub length-enabled_transitions :
    (net : Net) (m : Marking) (ts : List TransitionId)
    → enabled_transitions net m ≡ some ts
    → length ts ≤ transitions_len net
unfolding enabled_transitions
length-enabled_transitions net m ts h = length-enabled_from net m 0 net.transitions ts h
