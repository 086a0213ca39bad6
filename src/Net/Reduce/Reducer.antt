-- ===== src/Net/Reduce/Reducer.antt =====
-- src/net/reduce/mod.rs: the reducer. The two validators are the caller's, and are parameters of
-- the options. The net behind `&mut` is returned beside the result.
pub mod Accepted
pub mod Outcome
pub mod Unchanged
use Prim.Native.String.{◌++◌ as ◌<>◌}
use rust_pta.Prelude.{ℕ, Bool, true, false, Option, none, some, List, [], ◌∷◌, ◌++◌, String}
use rust_pta.Prelude.{Run, done, panicked, out_of_fuel}
use rust_pta.Net.Core.{Net}
use rust_pta.Net.Reduce.Graph.{ReductionGraph, ReductionStep, from_net}
use rust_pta.Net.Reduce.Materialize.{MaterializedNet, ReductionTrace, materialize}
use rust_pta.Net.Reduce.Loops.{LoopState, remove_simple_loops, or_panic}
use rust_pta.Net.Reduce.Sequence.{merge_linear_sequences}
use rust_pta.Net.Reduce.Intermediate.{eliminate_intermediate_places}

pub data ReductionError : Type 0 where
  validation_failed : String → ReductionError

pub data Reduced {ℓ} (A : Type ℓ) : Type ℓ where
  ok : A → Reduced A
  err : ReductionError → Reduced A

-- `Display` of the error
unfoldable pub error_text : ReductionError → String
error_text (validation_failed reason) = "validator rejected reduced net: " <> reason

abbrev pub ReductionValidator : Type 0
ReductionValidator = Net → Reduced (Unit {0})

pub record ReductionOptions : Type 0 where
  pub invariant_checker : Option ReductionValidator
  pub property_checker : Option ReductionValidator

pub record ReductionStageNets : Type 0 where
  pub after_loop : Net
  pub after_sequence : Net
  pub after_intermediate : Net

pub record ReductionResult : Type 0 where
  pub net : Net
  pub trace : ReductionTrace
  pub steps : List ReductionStep
  pub stage_nets : ReductionStageNets

-- `checker(&net).map_err(|err| ReductionError::ValidationFailed(err.error_text()))?`
unfoldable pub run_checker : Option ReductionValidator → Net → Reduced (Unit {0})
unfolding error_text
run_checker none net = ok tt
run_checker (some checker) net = elim (checker net) [
  | ok _ ↦ ok tt
  | err e ↦ err (validation_failed (error_text e))
]

unfoldable pub run_checkers : ReductionOptions → Net → Reduced (Unit {0})
unfolding run_checker
run_checkers options net = elim (run_checker options.invariant_checker net) [
  | ok _ ↦ run_checker options.property_checker net
  | err e ↦ err e
]

unfoldable pub no_checkers : Option ReductionValidator → Option ReductionValidator → Bool
no_checkers none none = true
no_checkers _ _ = false

-- `none` is a panic of `materialize`.
unfoldable pub validate : ReductionOptions → ReductionGraph → Option (Reduced (Unit {0}))
unfolding run_checkers no_checkers materialize
validate options graph = elim (no_checkers options.invariant_checker options.property_checker) [
  | true ↦ some (ok tt)
  | false ↦ elim (materialize graph) [ none ↦ none | some m ↦ some (run_checkers options m.net) ]
]

-- `if !steps.is_empty() { self.validate(&graph)?; }`
unfoldable pub validate_steps :
    ReductionOptions → ReductionGraph → List ReductionStep → Option (Reduced (Unit {0}))
unfolding validate
validate_steps options graph [] = some (ok tt)
validate_steps options graph (_ ∷ _) = validate options graph

infixl 5 ◌>>=◌
abbrev ◌>>=◌ {ℓ κ} : {A : Type ℓ} {B : Type κ} → Run A → (A → Run B) → Run B
done a >>= f = f a
panicked >>= f = panicked
out_of_fuel >>= f = out_of_fuel

-- A stage: the validation of a rule's steps, then the net that it leaves. An error ends `reduce`
-- before it writes to `net`.
abbrev stage {ℓ} :
    {A : Type ℓ}
    → ReductionOptions
    → ReductionGraph
    → List ReductionStep
    → (MaterializedNet → Run (Net × Reduced A))
    → Net
    → Run (Net × Reduced A)
stage options graph steps rest net = do
  checked ← or_panic (validate_steps options graph steps)
  elim checked [ ok _ ↦ do m ← or_panic (materialize graph); rest m | err e ↦ done (net, err e) ]

-- `fuel` bounds the inner loop of `merge_linear_sequences`. The net is materialized once more after
-- the last stage, from the same graph.
unfoldable pub reduce : ReductionOptions → ℕ → Net → Run (Net × Reduced ReductionResult)
unfolding from_net validate_steps or_panic
reduce options fuel net = do
  graph ← or_panic (from_net net)
  loops ← remove_simple_loops graph
  stage options loops.graph loops.steps
      (λ m₁. do
        (graph₂, steps₂) ← merge_linear_sequences fuel loops.graph
        stage options graph₂ steps₂
            (λ m₂. do
              (graph₃, steps₃) ← eliminate_intermediate_places graph₂
              stage options graph₃ steps₃
                  (λ m₃. done (
                    m₃.net,
                    ok record {
                      net = m₃.net;
                      trace = m₃.trace;
                      steps = loops.steps ++ (steps₂ ++ steps₃);
                      stage_nets = record {
                        after_loop = m₁.net;
                        after_sequence = m₂.net;
                        after_intermediate = m₃.net;
                      };
                    },
                  ))
                  net)
            net)
      net

unfoldable pub reduce_in_place : Net → ReductionOptions → ℕ → Run (Net × Reduced ReductionResult)
unfolding reduce
reduce_in_place net options fuel = reduce options fuel net
