-- ===== src/Net/Core/Fire.antt =====
-- src/net/core.rs: what `fire_transition` does on every branch.
use rust_pta.Prelude.{◌+◌, ◌-◌, ◌^◌, ◌≤◌, ◌<◌, ◌≡◌, ◌⊎◌, inl, inr}
use rust_pta.Prelude.{Option, some}
use rust_pta.Prelude.{leb, arith, Bool-cases}
use rust_pta.Prelude.{leb→le, subst}
use native.Mathlib.Nat.{mod-eq_of_lt}
use rust_pta.Net.IndexVec.{PlaceId, TransitionId, iter_enumerated}
use rust_pta.Net.Structure.{Marking}
use rust_pta.Net.Core.{Net, Result, ok, err, fire_transition, places_len, transitions_len}
use rust_pta.Net.Core.Build.{IsWf, pre_weight, post_weight}
use rust_pta.Net.Core.Enabled.{tokens, Enabled, Fits, is_transition_enabled_lem}
use rust_pta.Net.Core.Outcome.{
  limit, filled, Exceeds, overfull, FireOutcome, no_transition, disabled, full, fired,
}
use rust_pta.Net.Core.Loops.{Progress, PutsAll, Overfills, take_all, put_all_lem}

-- The two ends of the second loop, after the first loop took the input weights of `m`.
module _ (net : Net) (m : Marking) (t : TransitionId) {wf : IsWf net} (ht : t < transitions_len net)
    (enabled : Enabled net m t) {taken : Marking}
    (first : Progress net t (λ p held. held - pre_weight net p t) 0 m taken) where
  all_put :
      {r r' : Option (Result Marking)}
      → (all : PutsAll net t wf ht taken 0 r') → r ≡ some (ok all.out)
      → FireOutcome net m t r
  all_put all returns =
      fired ht enabled all.out all.progress.fits
        (λ p hp.
          let e = first.from p (omega arith) hp in
          (rw (← e) (all.room p (omega arith) hp), rw (← e) (all.progress.from p (omega arith) hp)))
        returns

  one_over :
      {r r' : Option (Result Marking)}
      → (over : Overfills net t wf ht taken 0 r')
      → r ≡ some (err (overfull net t over.place (tokens taken over.place)))
      → FireOutcome net m t r
  one_over {r = r} over returns =
      let p = over.place in
      let e = first.from p (omega arith) over.in_range in
      full ht enabled p over.in_range (subst (Exceeds net t p) e over.exceeds)
        (λ q hq.
          rw (← first.from q (omega arith) (omega (arith, over.in_range)))
            (over.first q (omega arith) hq))
        (subst (λ x. r ≡ some (err (overfull net t p x))) e returns)

-- On a well-formed net and a marking of its size, `fire_transition` never panics. It refuses an id
-- past the end; else a transition that lacks tokens; else, if some output place would exceed its
-- capacity, it reports the first one; else it returns the marking with the input weights taken and
-- the output weights put, modulo 2^64, at every place.
pub fire_transition-FireOutcome :
    (net : Net) (m : Marking) (t : TransitionId)
    → IsWf net
    → Fits net m
    → FireOutcome net m t (fire_transition net m t)
unfolding fire_transition iter_enumerated
fire_transition-FireOutcome net m t wf fits = elim (Bool-cases (leb (transitions_len net) t)) [
  | inl off ↦ no_transition (leb→le _ _ off) (rw off)
  | inr on ↦
      let ht : t < transitions_len net = ground arith in
      elim (is_transition_enabled_lem net wf m fits t ht) [
        | inr (test, lacks) ↦ disabled ht lacks (rw (on, test))
        | inl (test, enabled) ↦
            let (taken, takes, first) =
              take_all net t wf ht net.places 0 m (omega arith) fits (λ p h hp. enabled p hp) in
            elim (put_all_lem net t wf ht net.places 0 taken (omega arith) first.fits) [
              | inl all ↦ all_put net m t ht enabled first all (rw (on, test, takes) all.returns)
              | inr over ↦
                  one_over net m t ht enabled first over (rw (on, test, takes) over.returns)
            ]
      ]
]

-- A successful firing, taken apart.
pub record Fired (net : Net) (m : Marking) (t : TransitionId) (next : Marking) : Type 0 where
  pub in_range : t < transitions_len net
  pub enabled : Enabled net m t
  pub fits : Fits net next
  pub room :
      (p : PlaceId) → p < places_len net → ¬ Exceeds net t p (tokens m p - pre_weight net p t)
  pub moved :
      (p : PlaceId)
      → p < places_len net
      → tokens next p ≡ filled net t p (tokens m p - pre_weight net p t)

outcome-Fired :
    (net : Net) (m : Marking) (t : TransitionId) (r : Option (Result Marking)) (next : Marking)
    → FireOutcome net m t r
    → r ≡ some (ok next)
    → Fired net m t next
outcome-Fired net m t r next (no_transition _ e) e' = cc
outcome-Fired net m t r next (disabled _ _ e) e' = cc
outcome-Fired net m t r next (full _ _ _ _ _ _ e) e' = cc
outcome-Fired net m t r next (fired ht on next' fits at e) e' =
    let same : next' ≡ next = cc in
    subst (Fired net m t) same (record {
      in_range = ht;
      enabled = on;
      fits = fits;
      room = λ p hp. (at p hp).0;
      moved = λ p hp. (at p hp).1;
    })

module _ (net : Net) (m : Marking) (t : TransitionId) (wf : IsWf net) (fits : Fits net m) where
  pub fire-Fired : (next : Marking) → fire_transition net m t ≡ some (ok next) → Fired net m t next
  fire-Fired next e =
      outcome-Fired net m t (fire_transition net m t) next
        (fire_transition-FireOutcome net m t wf fits) e

  -- It returns, and a marking that it returns has the size of the net.
  pub fire-total : (r : Result Marking) × (fire_transition net m t ≡ some r)
  fire-total = elim (fire_transition-FireOutcome net m t wf fits) [
    | no_transition _ e ↦ (_, e)
    | disabled _ _ e ↦ (_, e)
    | full _ _ _ _ _ _ e ↦ (_, e)
    | fired _ _ _ _ _ e ↦ (_, e)
  ]

-- For a well-formed net and a marking with an entry for each place: if no sum of the firing overflows
-- 64 bits, that is, if at each place what is left after the input and the weight that is put there
-- sum to less than 2^64, then a firing that succeeds moves the tokens by the state equation,
-- M' = M - Pre + Post, at every place; every input place held the weight of its arc, and a place that
-- receives tokens holds no more than its capacity afterwards.
pub fire-state_equation :
    (net : Net) (m : Marking) (t : TransitionId) (next : Marking)
    → IsWf net
    → Fits net m
    → ((p : PlaceId)
        → p < places_len net
        → tokens m p - pre_weight net p t + post_weight net p t < 2 ^ 64)
    → fire_transition net m t ≡ some (ok next)
    → (p : PlaceId) → p < places_len net
    → (pre_weight net p t ≤ tokens m p)
      × (tokens next p + pre_weight net p t ≡ tokens m p + post_weight net p t)
      × ((post_weight net p t ≡ 0) ⊎ (tokens next p ≤ limit net p))
fire-state_equation net m t next wf fits small e p hp =
    let f = fire-Fired net m t wf fits next e in
    let wrap =
      mod-eq_of_lt {n = tokens m p - pre_weight net p t + post_weight net p t} {m = 2 ^ 64}
        (omega (arith, small p hp)) in
    ground (arith, f.enabled p hp, f.room p hp, f.moved p hp, wrap)
