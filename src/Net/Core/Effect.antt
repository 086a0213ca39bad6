-- ===== src/Net/Core/Effect.antt =====
-- src/net/core.rs: `c_matrix` holds the effect of each transition.
use rust_pta.Prelude.{ℕ, zero, suc, ◌+◌, ◌-◌, ◌%◌, ◌^◌, ◌<◌, ◌≡◌, refl, some, List, [], ◌∷◌, arith}
use rust_pta.Prelude.{true, length, get_or, ◌==◌, All-get_or}
use rust_pta.Net.IndexVec.{PlaceId, TransitionId}
use rust_pta.Net.Structure.{Marking}
use rust_pta.Net.Incidence
use rust_pta.Net.Incidence.{Incidence, subtract_row, subtract_rows}
use rust_pta.Net.Incidence.Shape.{entry}
use rust_pta.Net.Core.{Net, ok, fire_transition, c_matrix, places_len, transitions_len}
use rust_pta.Net.Core.Build.{IsWf, pre_weight, post_weight}
use rust_pta.Net.Core.Enabled.{tokens, Fits}
use rust_pta.Net.Core.Fire.{fire-Fired, fire-state_equation}

abbrev minus : ℕ → ℕ → ℕ
minus l r = (l + 2 ^ 64 - r) % 2 ^ 64

get_or-subtract_row :
    (left right : List ℕ) (t : ℕ)
    → t < length left
    → length left ≡ length right
    → get_or (subtract_row left right) t 0 ≡ minus (get_or left t 0) (get_or right t 0)
unfolding subtract_row
get_or-subtract_row [] right t h e = absurd (omega arith)
get_or-subtract_row (l ∷ left) [] t h e = absurd (omega arith)
get_or-subtract_row (l ∷ left) (r ∷ right) zero h e = refl
get_or-subtract_row (l ∷ left) (r ∷ right) (suc t) h e =
    get_or-subtract_row left right t (omega arith) (omega arith)

get_or-subtract_rows :
    (lefts rights : List (List ℕ)) (p : ℕ)
    → p < length lefts
    → length lefts ≡ length rights
    → get_or (subtract_rows lefts rights) p []
      ≡ subtract_row (get_or lefts p []) (get_or rights p [])
unfolding subtract_rows
get_or-subtract_rows [] rights p h e = absurd (omega arith)
get_or-subtract_rows (l ∷ lefts) [] p h e = absurd (omega arith)
get_or-subtract_rows (l ∷ lefts) (r ∷ rights) zero h e = refl
get_or-subtract_rows (l ∷ lefts) (r ∷ rights) (suc p) h e =
    get_or-subtract_rows lefts rights p (omega arith) (omega arith)

≡→== : (a b : ℕ) → a ≡ b → (a == b) ≡ true
≡→== a b e = ground arith

module _ (net : Net) (wf : IsWf net) where
  abbrev effects : Incidence ℕ
  effects = record { rows = subtract_rows net.post.rows net.pre.rows; cols = net.post.cols }

  c_matrix-returns : c_matrix net ≡ some effects
  unfolding c_matrix Incidence.difference
  c_matrix-returns =
      rw
        (
          ≡→== (length net.post.rows) (length net.pre.rows)
              (omega (arith, wf.post_shape.rows_len, wf.pre_shape.rows_len)),
          ≡→== net.post.cols net.pre.cols
              (omega (arith, wf.post_shape.cols_eq, wf.pre_shape.cols_eq)),
        )
        refl

  effects-entry :
      (p t : ℕ)
      → p < places_len net
      → t < transitions_len net
      → entry effects p t ≡ minus (post_weight net p t) (pre_weight net p t)
  unfolding entry
  effects-entry p t hp ht =
      let post = wf.post_shape in
      let pre = wf.pre_shape in
      let width =
        All-get_or (λ (row : List ℕ). length row ≡ transitions_len net) net.post.rows p []
          post.widths (omega (arith, post.rows_len)) in
      let width' =
        All-get_or (λ (row : List ℕ). length row ≡ transitions_len net) net.pre.rows p [] pre.widths
          (omega (arith, pre.rows_len)) in
      rw
        (get_or-subtract_rows net.post.rows net.pre.rows p (omega (arith, post.rows_len))
          (omega (arith, post.rows_len, pre.rows_len)))
        (get_or-subtract_row (get_or net.post.rows p []) (get_or net.pre.rows p []) t
          (omega (arith, width)) (omega (arith, width, width')))

wraps :
    (held pre post after : ℕ)
    → pre < 2 ^ 64
    → after < 2 ^ 64
    → after + pre ≡ held + post
    → after ≡ (held + (post + 2 ^ 64 - pre) % 2 ^ 64) % 2 ^ 64
wraps held pre post after small small' balance = omega arith

-- For a well-formed net `c_matrix` does not panic, and if the marking has an entry for each place and
-- at each place the tokens and the weight that a firing puts there sum to less than 2^64, then the
-- firing, if it succeeds, adds to each place the
-- entry of its transition in that matrix, in 64-bit arithmetic.
pub fire-c_matrix :
    (net : Net) (m : Marking) (t : TransitionId) (next : Marking)
    → IsWf net
    → Fits net m
    → ((p : PlaceId) → p < places_len net → tokens m p + post_weight net p t < 2 ^ 64)
    → fire_transition net m t ≡ some (ok next)
    → (c : Incidence ℕ) × (c_matrix net ≡ some c)
      × ((p : PlaceId) → p < places_len net → tokens next p ≡ (tokens m p + entry c p t) % 2 ^ 64)
fire-c_matrix net m t next wf fits small e =
    let ht = (fire-Fired net m t wf fits next e).in_range in
    (
      effects net wf,
      c_matrix-returns net wf,
      λ p hp.
          let (enough, balance, _) =
            fire-state_equation net m t next wf fits (λ q hq. omega (arith, small q hq)) e p hp in
          rw (effects-entry net wf p t hp ht) (
            wraps (tokens m p) (pre_weight net p t) (post_weight net p t) (tokens next p)
              (omega (arith, small p hp)) (omega (arith, small p hp)) balance),
    )
