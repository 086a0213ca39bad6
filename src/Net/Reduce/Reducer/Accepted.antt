-- ===== src/Net/Reduce/Reducer/Accepted.antt =====
-- src/net/reduce/mod.rs: which nets the validators of a reduction have seen.
use rust_pta.Prelude.{
  ℕ, zero, suc, ◌≡◌, ◌≢◌, ap, refl, sym, ◌∙◌, arith, Option, none, some, Run, done,
}
use rust_pta.Prelude.{panicked, out_of_fuel, List, [], ◌∷◌, ◌++◌, ◌⊎◌, inl, inr, length}
use rust_pta.Prelude.{true, subst, some_inj, Bool-cases}
use rust_pta.Net.Core.{Net}
use rust_pta.Net.Reduce.Graph.{ReductionGraph, ReductionStep}
use rust_pta.Net.Reduce.Materialize.{MaterializedNet, materialize}
use rust_pta.Net.Reduce.Sequence.{merge_linear_sequences, merge_loop, first_merged}
use rust_pta.Net.Reduce.Intermediate.{
  eliminate_intermediate_places, eliminate_loop, first_eliminated,
}
use rust_pta.Net.Reduce.Reducer.{
  Reduced, ok, err, ReductionOptions, ReductionResult, ReductionValidator, reduce, validate_steps,
  validate, run_checker, run_checkers, no_checkers, validation_failed, error_text,
}
use rust_pta.Net.Reduce.Reducer.Outcome.{reduce-Succeeds}

abbrev Rewritten : Type 0
Rewritten = ReductionGraph × List ReductionStep

-- A rule reports a step, or it leaves the graph and the steps as they were.
abbrev pub Tells : ReductionGraph → List ReductionStep → Rewritten → Type 0
Tells graph steps out = ((out.0 ≡ graph) × (out.1 ≡ steps)) ⊎ (out.1 ≢ [])

pub not_nil {ℓ} : {A : Type ℓ} (xs : List A) (x : A) → xs ++ x ∷ [] ≢ []
not_nil [] x e = cc
not_nil (y ∷ ys) x e = cc

Tells-later :
    (graph graph' : ReductionGraph) (steps : List ReductionStep) (step : ReductionStep)
    (out : Rewritten)
    → Tells graph' (steps ++ step ∷ []) out
    → Tells graph steps out
Tells-later graph graph' steps step out (inl (_, same)) =
    inr (λ e. not_nil steps step (sym same ∙ e))
Tells-later graph graph' steps step out (inr more) = inr more

merge_cases :
    (r : Run (Option (ReductionGraph × ReductionStep))) (stop out : Rewritten)
    (rest : ReductionGraph × ReductionStep → Run Rewritten)
    → elim r [
      | done none ↦ done stop
      | done (some changed) ↦ rest changed
      | panicked ↦ panicked
      | out_of_fuel ↦ out_of_fuel
    ]
      ≡ done out
    → (stop ≡ out) ⊎ ((c : ReductionGraph × ReductionStep) × (rest c ≡ done out))
merge_cases (done none) stop out rest e = inl (ground arith)
merge_cases (done (some c)) stop out rest e = inr (c, e)
merge_cases panicked stop out rest e = cc
merge_cases out_of_fuel stop out rest e = cc

merge_loop-Tells :
    (inner fuel : ℕ) (graph : ReductionGraph) (steps : List ReductionStep) (out : Rewritten)
    → merge_loop inner fuel graph steps ≡ done out
    → Tells graph steps out
unfolding merge_loop
merge_loop-Tells inner zero graph steps out e = cc
merge_loop-Tells inner (suc fuel) graph steps out e =
    elim (merge_cases (first_merged inner graph (length graph.places) 0) (graph, steps) out
      (λ c. merge_loop inner fuel c.0 (steps ++ c.1 ∷ [])) e) [
        | inl same ↦
            inl (ap (λ (o : Rewritten). o.0) (sym same), ap (λ (o : Rewritten). o.1) (sym same))
        | inr (c, rest) ↦
            Tells-later graph c.0 steps c.1 out
              (merge_loop-Tells inner fuel c.0 (steps ++ c.1 ∷ []) out rest)
      ]

eliminate_cases :
    (r : Option (Option (ReductionGraph × ReductionStep))) (stop out : Rewritten)
    (rest : ReductionGraph × ReductionStep → Run Rewritten)
    → elim r [ none ↦ panicked | some none ↦ done stop | some (some changed) ↦ rest changed ]
      ≡ done out
    → (stop ≡ out) ⊎ ((c : ReductionGraph × ReductionStep) × (rest c ≡ done out))
eliminate_cases none stop out rest e = cc
eliminate_cases (some none) stop out rest e = inl (ground arith)
eliminate_cases (some (some c)) stop out rest e = inr (c, e)

eliminate_loop-Tells :
    (fuel : ℕ) (graph : ReductionGraph) (steps : List ReductionStep) (out : Rewritten)
    → eliminate_loop fuel graph steps ≡ done out
    → Tells graph steps out
unfolding eliminate_loop
eliminate_loop-Tells zero graph steps out e = cc
eliminate_loop-Tells (suc fuel) graph steps out e =
    elim (eliminate_cases (first_eliminated graph (length graph.places) 0) (graph, steps) out
      (λ c. eliminate_loop fuel c.0 (steps ++ c.1 ∷ [])) e) [
        | inl same ↦
            inl (ap (λ (o : Rewritten). o.0) (sym same), ap (λ (o : Rewritten). o.1) (sym same))
        | inr (c, rest) ↦
            Tells-later graph c.0 steps c.1 out
              (eliminate_loop-Tells fuel c.0 (steps ++ c.1 ∷ []) out rest)
      ]

pub merge-Tells :
    (fuel : ℕ) (graph : ReductionGraph) (out : Rewritten)
    → merge_linear_sequences fuel graph ≡ done out
    → Tells graph [] out
unfolding merge_linear_sequences
merge-Tells fuel graph out e = merge_loop-Tells fuel (suc (length graph.places)) graph [] out e

pub eliminate-Tells :
    (graph : ReductionGraph) (out : Rewritten)
    → eliminate_intermediate_places graph ≡ done out
    → Tells graph [] out
unfolding eliminate_intermediate_places
eliminate-Tells graph out e = eliminate_loop-Tells (suc (length graph.places)) graph [] out e

-- A validator that is given accepts the net.
abbrev pub Accepts : Option ReductionValidator → Net → Type 0
Accepts none net = Unit
Accepts (some checker) net = checker net ≡ ok tt

abbrev pub AllAccept : ReductionOptions → Net → Type 0
AllAccept options net = Accepts options.invariant_checker net × Accepts options.property_checker net

run_checker-Accepts :
    (checker : Option ReductionValidator) (net : Net)
    → run_checker checker net ≡ ok tt
    → Accepts checker net
unfolding run_checker
run_checker-Accepts none net e = tt
run_checker-Accepts (some checker) net e = accepted (checker net) e
  where
    accepted :
        (r : Reduced (Unit {0}))
        → ◌≡◌ {A = Reduced (Unit {0})}
            (elim r [ ok _ ↦ ok tt | err e ↦ err (validation_failed (error_text e)) ])
            (ok tt)
        → r ≡ ok tt
    accepted (ok _) e = refl
    accepted (err _) e = cc

run_checkers-AllAccept :
    (options : ReductionOptions) (net : Net)
    → run_checkers options net ≡ ok tt
    → AllAccept options net
unfolding run_checkers
run_checkers-AllAccept options net e =
    let (first, second) = both (run_checker options.invariant_checker net) _ e in
    (
      run_checker-Accepts options.invariant_checker net first,
      run_checker-Accepts options.property_checker net second,
    )
  where
    both :
        (r next : Reduced (Unit {0}))
        → elim r [ ok _ ↦ next | err e ↦ err e ] ≡ ok tt
        → (r ≡ ok tt) × (next ≡ ok tt)
    both (ok _) next e = (refl, e)
    both (err _) next e = cc

nobody-AllAccept :
    (first second : Option ReductionValidator) (net : Net)
    → no_checkers first second ≡ true
    → Accepts first net × Accepts second net
unfolding no_checkers
nobody-AllAccept none none net e = (tt, tt)
nobody-AllAccept none (some _) net e = cc
nobody-AllAccept (some _) second net e = cc

-- A graph whose validation passes has, as a net, passed every validator.
validate-AllAccept :
    (options : ReductionOptions) (graph : ReductionGraph) (m : MaterializedNet)
    → validate options graph ≡ some (ok tt)
    → materialize graph ≡ some m
    → AllAccept options m.net
unfolding validate
validate-AllAccept options graph m e em =
    elim (Bool-cases (no_checkers options.invariant_checker options.property_checker)) [
      | inl nobody ↦
          nobody-AllAccept options.invariant_checker options.property_checker m.net nobody
      | inr asked ↦ run_checkers-AllAccept options m.net (some_inj (rw (validate, asked, em) at e))
    ]

validate_steps-AllAccept :
    (options : ReductionOptions) (graph : ReductionGraph) (steps : List ReductionStep)
    (m : MaterializedNet)
    → steps ≢ []
    → validate_steps options graph steps ≡ some (ok tt)
    → materialize graph ≡ some m
    → AllAccept options m.net
unfolding validate_steps
validate_steps-AllAccept options graph [] m some_steps e em = absurd (some_steps refl)
validate_steps-AllAccept options graph (_ ∷ _) m some_steps e em =
    validate-AllAccept options graph m e em

-- When a reduction succeeds and reports a step, every validator that it was given has accepted the
-- net that it writes back, whichever of the rules reported the step: a later rule that reports none
-- leaves the graph that was validated as it is.
pub reduce-Accepted :
    (options : ReductionOptions) (fuel : ℕ) (net after : Net) (result : ReductionResult)
    → reduce options fuel net ≡ done (after, ok result)
    → result.steps ≢ []
    → AllAccept options after
reduce-Accepted options fuel net after result e some_steps =
    let s = reduce-Succeeds options fuel net after result e in
    let g = s.stages in
    let accepted : AllAccept options (s.last).net =
      elim (eliminate-Tells (g.sequences).0 g.intermediates g.intermediates_eq) [
        | inr told ↦
            validate_steps-AllAccept options (g.intermediates).0 (g.intermediates).1 s.last told
              s.accepted_intermediates s.last_eq
        | inl (same, no_steps) ↦
            let last_eq = rw same at s.last_eq in
            elim (merge-Tells fuel (g.loops).graph g.sequences g.sequences_eq) [
              | inr told ↦
                  validate_steps-AllAccept options (g.sequences).0 (g.sequences).1 s.last told
                    s.accepted_sequences last_eq
              | inl (same', no_steps') ↦
                  validate_steps-AllAccept options (g.loops).graph (g.loops).steps s.last
                    (λ none_told.
                      some_steps (s.steps_eq ∙ rw (none_told, no_steps, no_steps') refl))
                    s.accepted_loops (rw same' at last_eq)
            ]
      ] in
    subst (AllAccept options) (sym s.written) accepted
