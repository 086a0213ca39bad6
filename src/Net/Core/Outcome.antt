-- ===== src/Net/Core/Outcome.antt =====
-- src/net/core.rs: what `fire_transition` should answer.
use rust_pta.Prelude.{◌+◌, ◌-◌, ◌%◌, ◌^◌, ◌≤◌, ◌<◌, ◌≡◌}
use rust_pta.Prelude.{Option, none, some, List, map, get_or}
use rust_pta.Prelude.{ltb, if◌then◌else◌}
use rust_pta.Net.IndexVec.{PlaceId, TransitionId}
use rust_pta.Net.Structure.{Weight, Marking, Place}
use rust_pta.Net.Core.{
  Net, Result, ok, err, FireError, out_of_bounds, not_enabled, capacity, places_len,
  transitions_len,
}
use rust_pta.Net.Core.Build.{pre_weight, post_weight}
use rust_pta.Net.Core.Enabled.{tokens, Enabled, Lacks, Fits}

-- The capacities that `fire_transition` uses: the vector of the net, or else those of the places.
abbrev pub limits_of : Option (List Weight) → List Place → List Weight
limits_of none places = map (λ (p : Place). p.capacity) places
limits_of (some caps) places = caps

abbrev pub limit : Net → PlaceId → Weight
limit net p = get_or (limits_of net.caps net.places) p 0

module _ (net : Net) (t : TransitionId) where
  -- The tokens of `p` after the second loop, from the `held` ones before it: sums wrap around.
  abbrev pub filled : PlaceId → Weight → Weight
  filled p held =
      if ltb 0 (post_weight net p t) then (held + post_weight net p t) % 2 ^ 64 else held

  -- The sum does not fit the capacity of `p`. A place that receives nothing is not checked.
  abbrev pub Exceeds : PlaceId → Weight → Type 0
  Exceeds p held = (0 < post_weight net p t) × (limit net p < (held + post_weight net p t) % 2 ^ 64)

  -- The error of a place that would hold too much.
  abbrev pub overfull : PlaceId → Weight → FireError
  overfull p held = capacity p ((held + post_weight net p t) % 2 ^ 64) (limit net p)

-- What `fire_transition` may answer, with what makes it so.
pub data FireOutcome (net : Net) (m : Marking) (t : TransitionId) (r : Option (Result Marking))
    : Type 0 where
  no_transition : transitions_len net ≤ t → r ≡ some (err (out_of_bounds t)) → FireOutcome net m t r
  disabled :
      t < transitions_len net
      → Lacks net m t
      → r ≡ some (err (not_enabled t))
      → FireOutcome net m t r
  -- the first place in order that would hold too much
  full :
      t < transitions_len net
      → Enabled net m t
      → (p : PlaceId) → p < places_len net
      → Exceeds net t p (tokens m p - pre_weight net p t)
      → ((q : PlaceId) → q < p → ¬ Exceeds net t q (tokens m q - pre_weight net q t))
      → r ≡ some (err (overfull net t p (tokens m p - pre_weight net p t)))
      → FireOutcome net m t r
  fired :
      t < transitions_len net
      → Enabled net m t
      → (next : Marking) → Fits net next
      → ((p : PlaceId)
          → p < places_len net
          → (¬ Exceeds net t p (tokens m p - pre_weight net p t))
            × (tokens next p ≡ filled net t p (tokens m p - pre_weight net p t)))
      → r ≡ some (ok next)
      → FireOutcome net m t r
