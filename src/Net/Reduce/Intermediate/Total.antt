-- ===== src/Net/Reduce/Intermediate/Total.antt =====
-- src/net/reduce/intermediate_place.rs: the elimination ends, and what it leaves.
use rust_pta.Prelude.{ℕ, zero, suc, ◌<◌, ◌≤◌, ◌+◌, ◌≡◌, ◌⊎◌, inl, inr, refl, ◌∙◌, arith}
use rust_pta.Prelude.{Option, none, some, Option-cases, done, List, [], ◌∷◌, ◌++◌}
use rust_pta.Prelude.{length, length-append, get_elem?-Returns, lt-or-eq-or-gt, subst}
use rust_pta.Net.Reduce.Graph.{ReductionGraph, ReductionStep}
use rust_pta.Net.Reduce.Intermediate.{
  eliminate_at, first_eliminated, eliminate_loop, eliminate_intermediate_places,
}
use rust_pta.Net.Reduce.Intermediate.Guards.{between-IsBetween, between-Returns}
use rust_pta.Net.Reduce.Intermediate.Step.{Eliminates, eliminate-Eliminates}
use rust_pta.Net.Reduce.InRange.{InRange, PlaceIn}
use rust_pta.Net.Reduce.Pairwise.{All-get_elem?}
use rust_pta.Net.Reduce.Keeps.{
  KeptPlaces, KeptPlaces-refl, KeptPlaces-trans, count_live, count_live-le,
}

-- Either nothing is found from `idx` on, or the graph is one elimination further.
pub data Found (graph : ReductionGraph) (idx : ℕ) (r : Option (ReductionGraph × ReductionStep))
    : Type 0 where
  nothing :
      r ≡ none
      → ((j : ℕ) → idx ≤ j → j < length graph.places → eliminate_at graph j ≡ some none)
      → Found graph idx r
  one :
      (other : ReductionGraph) (step : ReductionStep)
      → r ≡ some (other, step)
      → Eliminates graph other
      → Found graph idx r

-- No place passes the guards.
abbrev pub IsIrreducible : ReductionGraph → Type 0
IsIrreducible graph = (j : ℕ) → j < length graph.places → eliminate_at graph j ≡ some none

module _ (graph : ReductionGraph) (range : InRange graph) where
  -- A round of the `for` loop either goes on or eliminates the place.
  eliminate_at_lem :
      (idx : ℕ)
      → idx < length graph.places
      → (eliminate_at graph idx ≡ some none)
        ⊎ ((other : ReductionGraph) × (step : ReductionStep) × (eliminate_at graph idx
              ≡ some (some (other, step)))
            × Eliminates graph other)
  unfolding eliminate_at
  eliminate_at_lem idx lt =
      let (place, at) = get_elem?-Returns graph.places idx lt in
      let place_in =
        All-get_elem? (PlaceIn (length graph.transitions)) graph.places idx range.places_in at in
      let (candidate, e) = between-Returns graph place place_in in
      elim (Option-cases candidate) [
        | inl nothing_there ↦ inl (rw (eliminate_at, at, e, nothing_there) refl)
        | inr (b, found) ↦
            let is = between-IsBetween graph place b (rw found at e) in
            let (other, step, e', elims) = eliminate-Eliminates graph range idx place b at is in
            inr (other, step, rw (eliminate_at, at, e, found, e') refl, elims)
      ]

  first_eliminated_lem :
      (n idx : ℕ)
      → n + idx ≡ length graph.places
      → (r : Option (ReductionGraph × ReductionStep)) × (first_eliminated graph n idx ≡ some r)
        × Found graph idx r
  unfolding first_eliminated
  first_eliminated_lem zero idx len = (none, refl, nothing refl (λ j le lt. absurd (omega arith)))
  first_eliminated_lem (suc n) idx len = elim (eliminate_at_lem idx (omega arith)) [
    | inr (other, step, e, elims) ↦
        (some (other, step), rw (e, first_eliminated) refl, one other step refl elims)
    | inl e ↦
        let (r, e', found) = first_eliminated_lem n (idx + 1) (omega arith) in
        (r, rw (e, first_eliminated) e', later e found)
  ]
    where
      later :
          {r : Option (ReductionGraph × ReductionStep)}
          → eliminate_at graph idx ≡ some none
          → Found graph (idx + 1) r
          → Found graph idx r
      later e (one other step er elims) = one other step er elims
      later e (nothing er none_later) = nothing er λ j le lt. elim (lt-or-eq-or-gt idx j) [
        | inl more ↦ none_later j (omega arith) lt
        | inr (inl same) ↦ subst (λ k. eliminate_at graph k ≡ some none) same e
        | inr (inr less) ↦ absurd (omega arith)
      ]

-- The graph that the loop returns, and how many steps it reports.
pub record Eliminated (graph : ReductionGraph) (steps : List ReductionStep) (other : ReductionGraph)
    (reported : List ReductionStep) : Type 0 where
  pub range : InRange other
  pub kept : KeptPlaces graph other
  pub counted : length reported + count_live other.places ≡ length steps + count_live graph.places
  pub irreducible : IsIrreducible other

module _ (fuel : ℕ) (graph : ReductionGraph) (steps : List ReductionStep) where
  eliminate_loop_stop :
      first_eliminated graph (length graph.places) 0 ≡ some none
      → eliminate_loop (suc fuel) graph steps ≡ done (graph, steps)
  unfolding eliminate_loop
  eliminate_loop_stop e = rw (eliminate_loop, e) refl

  eliminate_loop_next :
      {next : ReductionGraph} {step : ReductionStep}
      → first_eliminated graph (length graph.places) 0 ≡ some (some (next, step))
      → eliminate_loop (suc fuel) graph steps ≡ eliminate_loop fuel next (steps ++ step ∷ [])
  unfolding eliminate_loop
  eliminate_loop_next e = rw (eliminate_loop, e) refl

after_elimination :
    {graph next other : ReductionGraph} {steps reported : List ReductionStep} (step : ReductionStep)
    → Eliminates graph next
    → Eliminated next (steps ++ step ∷ []) other reported
    → Eliminated graph steps other reported
after_elimination {graph} {next} {other} {steps} step first rest = record {
  range = rest.range;
  kept = KeptPlaces-trans graph next other first.kept rest.kept;
  counted = omega (arith, first.fewer, rest.counted, length-append steps (step ∷ []));
  irreducible = rest.irreducible;
}

eliminate_loop_lem :
    (fuel : ℕ) (graph : ReductionGraph) (steps : List ReductionStep)
    → InRange graph
    → count_live graph.places < fuel
    → (other : ReductionGraph) × (reported : List ReductionStep) × (eliminate_loop fuel graph steps
        ≡ done (other, reported))
      × Eliminated graph steps other reported
eliminate_loop_lem zero graph steps range enough = absurd (omega arith)
eliminate_loop_lem (suc fuel) graph steps range enough =
    let (r, e, found) = first_eliminated_lem graph range (length graph.places) 0 (omega arith) in
    elim found [
      | nothing er stuck ↦ (
        graph,
        steps,
        eliminate_loop_stop fuel graph steps (rw er at e),
        record {
          range = range;
          kept = KeptPlaces-refl graph;
          counted = refl;
          irreducible = λ j lt. stuck j (omega arith) lt;
        },
      )
      | one next step er elims ↦
          let (other, reported, e', rest) =
            eliminate_loop_lem fuel next (steps ++ step ∷ []) elims.range
              (omega (arith, elims.fewer)) in
          (
            other,
            reported,
            eliminate_loop_next fuel graph steps (rw er at e) ∙ e',
            after_elimination step elims rest,
          )
    ]

-- On a graph whose indices are in range the elimination of intermediate places ends within its fuel
-- and without a panic. The indices of the result are in range, every place keeps its data and stays
-- unless it holds no token and is no resource, each reported step stands for one removed place, and
-- no place of the result passes the guards any more.
pub eliminate_intermediate_places-Eliminated :
    (graph : ReductionGraph)
    → InRange graph
    → (other : ReductionGraph) × (reported : List ReductionStep) × (eliminate_intermediate_places
          graph
        ≡ done (other, reported))
      × Eliminated graph [] other reported
unfolding eliminate_intermediate_places
eliminate_intermediate_places-Eliminated graph range =
    eliminate_loop_lem (suc (length graph.places)) graph [] range
      (omega (arith, count_live-le graph.places))
