-- ===== src/Analysis/Boundness/Misses.antt =====
-- src/analysis/boundness.rs: `is_strictly_smaller` asks for more tokens at every place, so one place
-- that cannot gain tokens keeps the check from answering `Unbounded`.
use rust_pta.Prelude.{Option, ℕ, ◌+◌, ◌-◌, ◌^◌, ◌<◌, ◌≤◌, ◌≡◌, ◌≢◌, refl, some, List, arith}
use rust_pta.Net.IndexVec.{PlaceId, TransitionId}
use rust_pta.Net.Structure.{Marking}
use rust_pta.Net.Core.{Net, ok, fire_transition, places_len, transitions_len}
use rust_pta.Net.Core.Build.{IsWf, pre_weight, post_weight}
use rust_pta.Net.Core.Enabled.{tokens, Fits}
use rust_pta.Net.Core.Fire.{fire-Fired}
use rust_pta.Analysis.Reachability.{done}
use rust_pta.Analysis.Boundness.{BoundnessResult, unbounded}
use rust_pta.Analysis.Boundness.Search.{
  BoundnessAnalyzer, check_by_coverability_tree, check, settle, check_by_p_invariants,
  or_by_coverability_tree, map_run,
}
use rust_pta.Analysis.Boundness.Spec.{Fires, stays, goes_on, Pumps}
use rust_pta.Analysis.Boundness.Fire.{Fires-Fits, start-Fits}
use rust_pta.Analysis.Boundness.Visit.{pumping}
use rust_pta.Analysis.Boundness.Correct.{
  Justified, says_unbounded, says_bounded, says_unknown, check_by_coverability_tree-Justified,
}
use native.Mathlib.Nat.{mod-le}

-- No transition puts more tokens on the place than it takes.
abbrev pub NeverGains : Net → PlaceId → Type 0
NeverGains net q =
    (t : TransitionId) → t < transitions_len net → post_weight net q t ≤ pre_weight net q t

module _ (net : Net) (wf : IsWf net) (q : PlaceId) (hq : q < places_len net)
    (never : NeverGains net q) where
  fire-le :
      (m next : Marking) (t : TransitionId)
      → Fits net m
      → fire_transition net m t ≡ some (ok next)
      → tokens next q ≤ tokens m q
  fire-le m next t fits e =
      let f = fire-Fired net m t wf fits next e in
      ground (
        arith,
        f.moved q hq,
        f.enabled q hq,
        never t f.in_range,
        mod-le (tokens m q - pre_weight net q t + post_weight net q t) (2 ^ 64),
      )

  Fires-le :
      {m m' : Marking} {ts : List TransitionId}
      → Fits net m
      → Fires net m ts m'
      → tokens m' q ≤ tokens m q
  Fires-le fits stays = omega arith
  Fires-le fits (goes_on {m' = m'} {m'' = m''} t f e) =
      omega (arith, Fires-le fits f, fire-le m' m'' t (Fires-Fits net wf fits f) e)

  not-Pumps : (ts : List TransitionId) → ¬ Pumps net ts
  not-Pumps ts y =
      let fits = Fires-Fits net wf (start-Fits net) y.reaches in
      omega (arith, Fires-le fits y.repeats, y.grows q hq)

  -- An answer that rests on something is not `Unbounded`, nor is what `check` makes of it.
  settle-NotUnbounded :
      (limit : ℕ) (r : BoundnessResult)
      → Justified net limit r
      → (ps : List PlaceId) (ws : Option (List TransitionId)) → settle r ≢ unbounded ps ws
  unfolding settle
  settle-NotUnbounded limit r (says_bounded _ _ _ _ _) ps ws e = absurd (ground arith)
  settle-NotUnbounded limit r (says_unbounded _ (pumping _ ts _ pumps)) ps ws e =
      absurd (not-Pumps ts pumps)
  settle-NotUnbounded limit r (says_unknown _ _ _ _ _) ps ws e = absurd (ground arith)

check_lem :
    (net : Net) (self : BoundnessAnalyzer) (fuel : ℕ) (r : BoundnessResult)
    → check_by_coverability_tree self net fuel ≡ done r
    → check self net fuel ≡ done (settle r)
unfolding check check_by_p_invariants or_by_coverability_tree map_run
check_lem net self fuel r e = rw e refl

-- For a well-formed net that has a place to which no transition gives more tokens than it takes from
-- it, and a state limit, with fuel for two more rounds than the limit, `check` ends without a panic
-- and does not answer `Unbounded`, however many tokens the other places may gain.
pub check-never_unbounded :
    (net : Net) (self : BoundnessAnalyzer) (limit fuel : ℕ) (q : PlaceId)
    → IsWf net
    → self.state_limit ≡ some limit
    → limit + 1 < fuel
    → q < places_len net
    → NeverGains net q
    → (r : BoundnessResult) × (check self net fuel ≡ done r)
      × ((ps : List PlaceId) (ws : Option (List TransitionId)) → r ≢ unbounded ps ws)
check-never_unbounded net self limit fuel q wf limited enough hq never =
    let (r, ends, justified) =
      check_by_coverability_tree-Justified net self limit fuel wf limited enough in
    (
      settle r,
      check_lem net self fuel r ends,
      settle-NotUnbounded net wf q hq never limit r justified,
    )
