-- ===== src/Net/Core/Diagnose/Report.antt =====
-- src/net/core.rs: what the report of `diagnose_connectivity` says of the net.
use rust_pta.Prelude.{ℕ, suc, ◌<◌, ◌≡◌, inl, inr, refl, Bool, true, false, some}
use rust_pta.Prelude.{String, List, [], ◌∈◌, get_elem?, get_or, arith, Bool-cases, ◌==◌}
use rust_pta.Prelude.{get_elem?-eq-get_or, lt-length_of_get_elem?}
use rust_pta.Net.IndexVec.{PlaceId, TransitionId, for_each-iter_enumerated}
use rust_pta.Net.Structure.{Place, Transition}
use rust_pta.Net.Incidence.Shape.{entry}
use rust_pta.Net.Core.{Net, places_len, transitions_len}
use rust_pta.Net.Core.Build.{IsWf, pre_weight, post_weight}
use rust_pta.Net.Core.Diagnose.{
  Warning, never_activated, sink, never_fires, no_postset, Findings, any_positive, any_row,
  judge_place, check_place, judge_transition, check_transition, diagnose_connectivity,
  DiagnosticReport, is_end,
}
use rust_pta.Net.Core.Diagnose.Judge.{
  any_positive-true, any_positive-false, any_row-true, any_row-false, BarePlace, BareTransition,
  Meant, Judged, bare_one, joined_one, warned_one,
}

module _ (net : Net) (wf : IsWf net) where
  judge_place-Judged :
      (k : ℕ) (place : Place) (has_input has_output : Bool) (isolated : List (ℕ × String))
      (warnings : List Warning)
      → (has_input ≡ true → (t : ℕ) × (0 < pre_weight net k t))
      → (has_input ≡ false → (t : ℕ) → pre_weight net k t ≡ 0)
      → (has_output ≡ true → (t : ℕ) × (0 < post_weight net k t))
      → (has_output ≡ false → (t : ℕ) → post_weight net k t ≡ 0)
      → Judged net (BarePlace net) k (isolated, warnings)
      → Judged net
          (BarePlace net)
          (suc k)
          (judge_place k place has_input has_output (isolated, warnings))
  unfolding judge_place
  judge_place-Judged k place false false isolated warnings i1 i0 o1 o0 j =
      bare_one net (BarePlace net) k place.name isolated warnings (λ t. (i0 refl t, o0 refl t)) j
  judge_place-Judged k place true true isolated warnings i1 i0 o1 o0 j =
      let (t, h) = i1 refl in
      joined_one net (BarePlace net) k isolated warnings (λ b. omega (arith, (b t).0)) j
  judge_place-Judged k place true false isolated warnings i1 i0 o1 o0 j =
      let (t, h) = i1 refl in
      let joined =
        joined_one net (BarePlace net) k isolated warnings (λ b. omega (arith, (b t).0)) j in
      elim (Bool-cases (is_end place.name)) [
        | inl ends ↦ rw ends joined
        | inr other ↦ rw other (
            warned_one net (BarePlace net) (suc k) isolated warnings (sink place.name k) (o0 refl)
              joined)
      ]
  judge_place-Judged k place false true isolated warnings i1 i0 o1 o0 j =
      let (t, h) = o1 refl in
      let joined =
        joined_one net (BarePlace net) k isolated warnings (λ b. omega (arith, (b t).1)) j in
      elim (Bool-cases (place.tokens == 0)) [
        | inl none_held ↦ rw none_held (
            warned_one net (BarePlace net) (suc k) isolated warnings (never_activated place.name k)
              (t, h) joined)
        | inr held ↦ rw held joined
      ]

  check_place-Judged :
      (f : Findings) (k : ℕ) (place : Place)
      → get_elem? net.places k ≡ some place
      → Judged net (BarePlace net) k f
      → (f' : Findings) × (check_place net f (k, place) ≡ some f')
        × Judged net (BarePlace net) (suc k) f'
  unfolding check_place entry
  check_place-Judged (isolated, warnings) k place at j =
      let hk = lt-length_of_get_elem? net.places k at in
      let pre = get_or net.pre.rows k [] in
      let post = get_or net.post.rows k [] in
      let at_pre = get_elem?-eq-get_or net.pre.rows k [] (omega (arith, wf.pre_shape.rows_len)) in
      let at_post =
        get_elem?-eq-get_or net.post.rows k [] (omega (arith, wf.post_shape.rows_len)) in
      (
        judge_place k place (any_positive pre) (any_positive post) (isolated, warnings),
        rw (at_pre, at_post) refl,
        judge_place-Judged k place (any_positive pre) (any_positive post) isolated warnings
            (any_positive-true pre) (any_positive-false pre) (any_positive-true post)
            (any_positive-false post) j,
      )

  judge_transition-Judged :
      (k : ℕ) (trans : Transition) (has_preset has_postset : Bool) (isolated : List (ℕ × String))
      (warnings : List Warning)
      → (has_preset ≡ true → (p : ℕ) × (0 < pre_weight net p k))
      → (has_preset ≡ false → (p : ℕ) → pre_weight net p k ≡ 0)
      → (has_postset ≡ true → (p : ℕ) × (0 < post_weight net p k))
      → (has_postset ≡ false → (p : ℕ) → post_weight net p k ≡ 0)
      → Judged net (BareTransition net) k (isolated, warnings)
      → Judged net
          (BareTransition net)
          (suc k)
          (judge_transition k trans has_preset has_postset (isolated, warnings))
  unfolding judge_transition
  judge_transition-Judged k trans false false isolated warnings i1 i0 o1 o0 j =
      bare_one net (BareTransition net) k trans.name isolated warnings (λ p. (i0 refl p, o0 refl p))
        j
  judge_transition-Judged k trans true true isolated warnings i1 i0 o1 o0 j =
      let (p, h) = i1 refl in
      joined_one net (BareTransition net) k isolated warnings (λ b. omega (arith, (b p).0)) j
  judge_transition-Judged k trans false true isolated warnings i1 i0 o1 o0 j =
      let (p, h) = o1 refl in
      warned_one net (BareTransition net) (suc k) isolated warnings (never_fires trans.name k)
        (λ m q hq. omega (arith, i0 refl q))
        (joined_one net (BareTransition net) k isolated warnings (λ b. omega (arith, (b p).1)) j)
  judge_transition-Judged k trans true false isolated warnings i1 i0 o1 o0 j =
      let (p, h) = i1 refl in
      warned_one net (BareTransition net) (suc k) isolated warnings (no_postset trans.name k)
        (o0 refl)
        (joined_one net (BareTransition net) k isolated warnings (λ b. omega (arith, (b p).0)) j)

  check_transition-Judged :
      (f : Findings) (k : ℕ) (trans : Transition)
      → get_elem? net.transitions k ≡ some trans
      → Judged net (BareTransition net) k f
      → (f' : Findings) × (check_transition net f (k, trans) ≡ some f')
        × Judged net (BareTransition net) (suc k) f'
  unfolding check_transition entry
  check_transition-Judged (isolated, warnings) k trans at j = (
    judge_transition k trans (any_row k net.pre.rows) (any_row k net.post.rows)
        (isolated, warnings),
    refl,
    judge_transition-Judged k trans (any_row k net.pre.rows) (any_row k net.post.rows) isolated
        warnings (any_row-true k net.pre.rows) (any_row-false k net.pre.rows)
        (any_row-true k net.post.rows) (any_row-false k net.post.rows) j,
  )

  nothing_yet :
      (Bare : ℕ → Type 0) (warnings : List Warning)
      → ((w : Warning) → w ∈ warnings → Meant net w)
      → Judged net Bare 0 ([], warnings)
  nothing_yet Bare warnings means = record {
    sound = λ x no_mem. absurd no_mem;
    complete = λ i h b. absurd (omega arith);
    meant = means;
  }

-- What a report is right about.
pub record Reports (net : Net) (r : DiagnosticReport) : Type 0 where
  pub bare_places :
      (x : PlaceId × String) → x ∈ r.isolated_places → (x.0 < places_len net) × BarePlace net x.0
  pub all_bare_places :
      (p : PlaceId)
      → p < places_len net
      → BarePlace net p
      → (name : String) × ((p, name) ∈ r.isolated_places)
  pub bare_transitions :
      (x : TransitionId × String)
      → x ∈ r.isolated_transitions
      → (x.0 < transitions_len net) × BareTransition net x.0
  pub all_bare_transitions :
      (t : TransitionId)
      → t < transitions_len net
      → BareTransition net t
      → (name : String) × ((t, name) ∈ r.isolated_transitions)
  pub warned : (w : Warning) → w ∈ r.warnings → Meant net w

-- On a well-formed net `diagnose_connectivity` does not panic. The isolated places and transitions
-- that it reports are exactly those that have no arc. Where it warns of a place that is never
-- activated, some transition puts tokens on the place, and where it warns of a sink, none does. A
-- transition of which it warns that it never fires is enabled at every marking, and one of which it
-- warns that it has no postset has no output arc.
pub diagnose_connectivity-Reports :
    (net : Net)
    → IsWf net
    → (r : DiagnosticReport) × (diagnose_connectivity net ≡ some r) × Reports net r
unfolding diagnose_connectivity
diagnose_connectivity-Reports net wf =
    let (f, runs, places) =
      for_each-iter_enumerated (check_place net) net.places (Judged net (BarePlace net))
        wf.places_fit (check_place-Judged net wf) ([], [])
        (nothing_yet net wf (BarePlace net) [] (λ w no_mem. absurd no_mem)) in
    let (g, runs', transitions) =
      for_each-iter_enumerated (check_transition net) net.transitions
        (Judged net (BareTransition net)) wf.transitions_fit (check_transition-Judged net wf)
        ([], f.1) (nothing_yet net wf (BareTransition net) f.1 places.meant) in
    (
      record {
        isolated_places = f.0;
        isolated_transitions = g.0;
        warnings = g.1;
        total_places = places_len net;
        total_transitions = transitions_len net;
      },
      rw (runs, runs') refl,
      record {
        bare_places = places.sound;
        all_bare_places = places.complete;
        bare_transitions = transitions.sound;
        all_bare_transitions = transitions.complete;
        warned = transitions.meant;
      },
    )
