-- ===== src/Examples/Firing.antt =====
-- What the theorems about src/net/core.rs and src/net/structure.rs say of the example net.
use rust_pta.Prelude.{
  ℕ, suc, zero, ◌+◌, ◌-◌, ◌^◌, ◌≡◌, ◌<◌, ◌≤◌, ◌⊎◌, ◌↔◌, refl, some, List, arith, Option,
}
use rust_pta.Net.IndexVec.{PlaceId, TransitionId}
use rust_pta.Net.Structure.{Marking}
use rust_pta.Net.Structure.Order.{
  Ordering, equal, partial_cmp, cmp, Compared, Tied, partial_cmp-Compared, cmp-Tied,
}
use rust_pta.Net.Incidence.Shape.{entry}
use rust_pta.Net.Core.{
  ok, fire_transition, enabled_transitions, add_place, add_transition, places_len, transitions_len,
}
use rust_pta.Net.Core.{set_input_weight, set_output_weight, add_input_arc, add_output_arc}
use rust_pta.Net.Core.Build.{
  pre_weight, post_weight, AddsPlace, AddsTransition, SetsArc, pre_side, post_side,
}
use rust_pta.Net.Core.Build.{add_place-AddsPlace, add_transition-AddsTransition, arcs-SetsArc}
use rust_pta.Net.Core.Enabled.{tokens, Enabled, Selects, enabled_transitions-Selects}
use rust_pta.Net.Core.Outcome.{FireOutcome, limit}
use rust_pta.Net.Core.Fire.{fire_transition-FireOutcome, fire-state_equation}
use rust_pta.Net.Core.Commute.{fire_commute}
use rust_pta.Net.Core.Conserve.{weighted, fire_conserves}
use rust_pta.Prelude.{◌%◌}
use rust_pta.Net.Incidence.{Incidence}
use rust_pta.Net.Core.{c_matrix}
use rust_pta.Net.Core.Effect.{fire-c_matrix}
use rust_pta.Net.Core.Diagnose.{DiagnosticReport, diagnose_connectivity}
use rust_pta.Net.Core.Diagnose.Report.{Reports, diagnose_connectivity-Reports}
use rust_pta.Examples.Nets.{
  pair, slot, move, pair-IsWf, at_start, first_moved, second_moved, first_fires, second_fires,
  pair-Independent,
}

fire_transition-FireOutcome_example : FireOutcome pair at_start 0 (fire_transition pair at_start 0)
fire_transition-FireOutcome_example = fire_transition-FireOutcome pair at_start 0 pair-IsWf refl

small_sums : (p : PlaceId) → p < places_len pair → tokens at_start p + post_weight pair p 0 < 2 ^ 64
unfolding entry
small_sums zero h = omega arith
small_sums (suc zero) h = omega arith
small_sums (suc (suc zero)) h = omega arith
small_sums (suc (suc (suc zero))) h = omega arith
small_sums (suc (suc (suc (suc p)))) h = absurd (omega arith)

fitting_sums :
    (p : PlaceId)
    → p < places_len pair
    → tokens at_start p - pre_weight pair p 0 + post_weight pair p 0 < 2 ^ 64
fitting_sums p h = omega (arith, small_sums p h)

fire-state_equation_example :
    (pre_weight pair 1 0 ≤ tokens at_start 1)
    × (tokens first_moved 1 + pre_weight pair 1 0 ≡ tokens at_start 1 + post_weight pair 1 0)
    × ((post_weight pair 1 0 ≡ 0) ⊎ (tokens first_moved 1 ≤ limit pair 1))
fire-state_equation_example =
    fire-state_equation pair at_start 0 first_moved pair-IsWf refl fitting_sums first_fires 1
      (omega arith)

fire_commute_example :
    (both : Marking) × (fire_transition pair first_moved 1 ≡ some (ok both))
    × (fire_transition pair second_moved 0 ≡ some (ok both))
fire_commute_example =
    fire_commute pair at_start first_moved second_moved 0 1 pair-IsWf refl pair-Independent
      first_fires second_fires

one_each : PlaceId → ℕ
one_each p = 1

balanced :
    weighted one_each (places_len pair) (λ p. pre_weight pair p 0)
    ≡ weighted one_each (places_len pair) (λ p. post_weight pair p 0)
unfolding entry one_each
balanced = refl

fire_conserves_example :
    weighted one_each (places_len pair) (tokens first_moved)
    ≡ weighted one_each (places_len pair) (tokens at_start)
fire_conserves_example =
    fire_conserves pair at_start 0 first_moved one_each pair-IsWf refl fitting_sums balanced
      first_fires

enabled_transitions-Selects_example :
    (ts : List TransitionId) × (enabled_transitions pair first_moved ≡ some ts)
    × Selects (Enabled pair first_moved) (transitions_len pair) 0 ts
enabled_transitions-Selects_example = enabled_transitions-Selects pair first_moved pair-IsWf refl

add_place-AddsPlace_example : AddsPlace pair (slot 7) (add_place pair (slot 7))
add_place-AddsPlace_example = add_place-AddsPlace pair (slot 7) pair-IsWf (omega arith)

add_transition-AddsTransition_example : AddsTransition pair move (add_transition pair move)
add_transition-AddsTransition_example =
    add_transition-AddsTransition pair move pair-IsWf (omega arith)

arcs-SetsArc_example :
    SetsArc pre_side post_side pair 0 1 5 (set_input_weight pair 0 1 5)
    × SetsArc post_side pre_side pair 0 1 5 (set_output_weight pair 0 1 5)
    × SetsArc pre_side post_side pair 0 1 (pre_weight pair 0 1 + 5) (add_input_arc pair 0 1 5)
    × SetsArc post_side pre_side pair 0 1 (post_weight pair 0 1 + 5) (add_output_arc pair 0 1 5)
unfolding entry
arcs-SetsArc_example =
    arcs-SetsArc pair 0 1 5 pair-IsWf (omega arith) (omega arith) (omega arith) (omega arith)

partial_cmp-Compared_example :
    (r : Option Ordering) × (partial_cmp first_moved second_moved ≡ some r)
    × Compared first_moved second_moved r
partial_cmp-Compared_example = partial_cmp-Compared first_moved second_moved (omega arith)

cmp-Tied_example : (cmp first_moved second_moved ≡ some equal) ↔ Tied first_moved second_moved
cmp-Tied_example = cmp-Tied first_moved second_moved (omega arith)

fire-c_matrix_example :
    (c : Incidence ℕ) × (c_matrix pair ≡ some c)
    × ((p : PlaceId)
        → p < places_len pair
        → tokens first_moved p ≡ (tokens at_start p + entry c p 0) % 2 ^ 64)
fire-c_matrix_example =
    fire-c_matrix pair at_start 0 first_moved pair-IsWf refl small_sums first_fires

diagnose_connectivity-Reports_example :
    (r : DiagnosticReport) × (diagnose_connectivity pair ≡ some r) × Reports pair r
diagnose_connectivity-Reports_example = diagnose_connectivity-Reports pair pair-IsWf
