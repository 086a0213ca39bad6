-- ===== src/Net/Core/Commute.antt =====
-- src/net/core.rs: transitions that share no place fire in either order, to one marking.
use rust_pta.Prelude.{◌-◌, ◌<◌, ◌≡◌, ◌⊎◌, inl, inr, ap, sym, ◌∙◌, Option, some, arith, eq_of_get_or}
use rust_pta.Prelude.{subst}
use rust_pta.Net.IndexVec.{PlaceId, TransitionId}
use rust_pta.Net.Structure.{Marking}
use rust_pta.Net.Core.{Net, Result, ok, fire_transition, places_len}
use rust_pta.Net.Core.Build.{IsWf, pre_weight, post_weight}
use rust_pta.Net.Core.Enabled.{tokens, Fits}
use rust_pta.Net.Core.Outcome.{filled, FireOutcome, no_transition, disabled, full, fired}
use rust_pta.Net.Core.Fire.{Fired, fire-Fired, fire_transition-FireOutcome}

-- No arc joins the transition and the place.
abbrev pub Apart : Net → PlaceId → TransitionId → Type 0
Apart net p t = (pre_weight net p t ≡ 0) × (post_weight net p t ≡ 0)

-- The two transitions share no place.
abbrev pub Independent : Net → TransitionId → TransitionId → Type 0
Independent net a b = (p : PlaceId) → p < places_len net → Apart net p a ⊎ Apart net p b

-- A firing leaves alone the places that it is apart from.
pub quiet :
    (net : Net) (m next : Marking) (t : TransitionId)
    → Fired net m t next
    → (p : PlaceId) → p < places_len net
    → Apart net p t
    → tokens next p ≡ tokens m p
quiet net m next t f p hp apart = ground (arith, f.moved p hp)

-- After `a`, an independent `b` that could fire before still can.
module _ (net : Net) (m ma mb : Marking) (a b : TransitionId) (fa : Fired net m a ma)
    (fb : Fired net m b mb) (apart : Independent net a b) where
  after_first :
      (r : Option (Result Marking))
      → FireOutcome net ma b r
      → (out : Marking) × (r ≡ some (ok out)) × Fired net ma b out
  after_first r (no_transition off _) = absurd (omega (arith, fb.in_range))
  after_first r (disabled _ (p, hp, few) _) =
      absurd (ground (arith, apart p hp, quiet net m ma a fa p hp, fb.enabled p hp))
  after_first r (full _ _ p hp over _ _) =
      absurd (ground (arith, apart p hp, quiet net m ma a fa p hp, fb.room p hp))
  after_first r (fired ht on next fits at e) = (
    next,
    e,
    record {
      in_range = ht;
      enabled = on;
      fits = fits;
      room = λ p hp. (at p hp).0;
      moved = λ p hp. (at p hp).1;
    },
  )

-- At a place apart from `a`, the order `a` then `b` does what `b` alone does.
moved_alike :
    (net : Net) (m ma mb x : Marking) (a b : TransitionId)
    → Fired net m a ma
    → Fired net m b mb
    → Fired net ma b x
    → (p : PlaceId) → p < places_len net
    → Apart net p a
    → tokens x p ≡ tokens mb p
moved_alike net m ma mb x a b fa fb fx p hp apart =
    fx.moved p hp
    ∙ ap (λ held. filled net b p (held - pre_weight net p b)) (quiet net m ma a fa p hp apart)
    ∙ sym (fb.moved p hp)

same_end :
    (net : Net) (m ma mb x y : Marking) (a b : TransitionId)
    → Independent net a b
    → Fired net m a ma
    → Fired net m b mb
    → Fired net ma b x
    → Fired net mb a y
    → (p : PlaceId) → p < places_len net
    → tokens x p ≡ tokens y p
same_end net m ma mb x y a b apart fa fb fx fy p hp = elim (apart p hp) [
  | inl from_a ↦
      moved_alike net m ma mb x a b fa fb fx p hp from_a ∙ sym (quiet net mb y a fy p hp from_a)
  | inr from_b ↦
      quiet net ma x b fx p hp from_b ∙ sym (moved_alike net m mb ma y b a fb fa fy p hp from_b)
]

-- On a well-formed net, if two transitions share no place and each can fire at `m`, then after either
-- one the other can still fire, and both orders end in the same marking.
pub fire_commute :
    (net : Net) (m ma mb : Marking) (a b : TransitionId)
    → IsWf net
    → Fits net m
    → Independent net a b
    → fire_transition net m a ≡ some (ok ma)
    → fire_transition net m b ≡ some (ok mb)
    → (mab : Marking) × (fire_transition net ma b ≡ some (ok mab))
      × (fire_transition net mb a ≡ some (ok mab))
fire_commute net m ma mb a b wf fits apart ea eb =
    let fa = fire-Fired net m a wf fits ma ea in
    let fb = fire-Fired net m b wf fits mb eb in
    let swapped : Independent net b a = λ p hp. ground (arith, apart p hp) in
    let (x, ex, fx) =
      after_first net m ma mb a b fa fb apart _ (fire_transition-FireOutcome net ma b wf fa.fits) in
    let (y, ey, fy) =
      after_first net m mb ma b a fb fa swapped _
        (fire_transition-FireOutcome net mb a wf fb.fits) in
    let same : x ≡ y =
      eq_of_get_or x y 0 (omega (arith, fx.fits, fy.fits))
        (λ p hp. same_end net m ma mb x y a b apart fa fb fx fy p (omega (arith, fx.fits))) in
    (x, ex, subst (λ z. fire_transition net mb a ≡ some (ok z)) (sym same) ey)
