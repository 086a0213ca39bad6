-- ===== src/Net/Core/Conserve.antt =====
-- src/net/core.rs: a place invariant of the incidence matrices is conserved by firing.
use rust_pta.Prelude.{ℕ, zero, suc, ◌+◌, ◌-◌, ◌*◌, ◌^◌, ◌<◌, ◌≡◌, refl, ap, some, arith}
use rust_pta.Net.IndexVec.{PlaceId, TransitionId}
use rust_pta.Net.Structure.{Marking}
use rust_pta.Net.Core.{Net, ok, fire_transition, places_len}
use rust_pta.Net.Core.Build.{IsWf, pre_weight, post_weight}
use rust_pta.Net.Core.Enabled.{tokens, Fits}
use rust_pta.Net.Core.Fire.{fire-state_equation}

-- The sum of `y p * f p` over the places `p` below `n`.
abbrev pub weighted : (ℕ → ℕ) → ℕ → (ℕ → ℕ) → ℕ
weighted y zero f = 0
weighted y (suc n) f = weighted y n f + y n * f n

weighted-balance :
    (y : ℕ → ℕ) (n : ℕ) (next pre m post : ℕ → ℕ)
    → ((p : ℕ) → p < n → next p + pre p ≡ m p + post p)
    → weighted y n next + weighted y n pre ≡ weighted y n m + weighted y n post
weighted-balance y zero next pre m post h = refl
weighted-balance y (suc n) next pre m post h = omega (
  arith,
  weighted-balance y n next pre m post (λ p hp. h p (omega arith)),
  ap (λ (s : ℕ). y n * s) (h n (omega arith)),
)

-- For a well-formed net and a marking with an entry for each place:
-- if `y` gives as much weight to the inputs of a transition as to its outputs, that is, if it solves
-- the column of the transition in Post - Pre, then a firing of it that succeeds, none of whose sums
-- overflows 64 bits, leaves the `y`-weighted sum of the tokens as it was.
pub fire_conserves :
    (net : Net) (m : Marking) (t : TransitionId) (next : Marking) (y : PlaceId → ℕ)
    → IsWf net
    → Fits net m
    → ((p : PlaceId)
        → p < places_len net
        → tokens m p - pre_weight net p t + post_weight net p t < 2 ^ 64)
    → weighted y (places_len net) (λ p. pre_weight net p t)
      ≡ weighted y (places_len net) (λ p. post_weight net p t)
    → fire_transition net m t ≡ some (ok next)
    → weighted y (places_len net) (tokens next) ≡ weighted y (places_len net) (tokens m)
fire_conserves net m t next y wf fits small balanced e = omega (
  arith,
  weighted-balance y (places_len net) (tokens next) (λ p. pre_weight net p t) (tokens m)
      (λ p. post_weight net p t)
      (λ p hp. (fire-state_equation net m t next wf fits small e p hp).1),
)
