-- ===== src/Net/Reduce/Reducer/Outcome.antt =====
-- src/net/reduce/mod.rs: how a reduction ends.
use rust_pta.Prelude.{ℕ, ◌≡◌, ap, refl, arith, Option, none, some, Run, done, panicked, out_of_fuel}
use rust_pta.Prelude.{List, ◌++◌}
use rust_pta.Net.Core.{Net}
use rust_pta.Net.Reduce.Graph.{ReductionGraph, ReductionStep, from_net}
use rust_pta.Net.Reduce.Materialize.{MaterializedNet, materialize}
use rust_pta.Net.Reduce.Loops.{LoopState, remove_simple_loops, or_panic}
use rust_pta.Net.Reduce.Sequence.{merge_linear_sequences}
use rust_pta.Net.Reduce.Intermediate.{eliminate_intermediate_places}
use rust_pta.Net.Reduce.Reducer.{
  Reduced, ok, err, ReductionOptions, ReductionResult, reduce, validate_steps, ◌>>=◌, stage,
}

-- The three rules, in sequence, with the graphs after each.
pub record Stages (net : Net) (fuel : ℕ) : Type 0 where
  pub start : ReductionGraph
  pub loops : LoopState
  pub sequences : ReductionGraph × List ReductionStep
  pub intermediates : ReductionGraph × List ReductionStep
  pub from_net_eq : from_net net ≡ some start
  pub loops_eq : remove_simple_loops start ≡ done loops
  pub sequences_eq : merge_linear_sequences fuel loops.graph ≡ done sequences
  pub intermediates_eq : eliminate_intermediate_places sequences.0 ≡ done intermediates

-- The last graph as a net, which is what `reduce` writes back and returns.
pub record Succeeds (options : ReductionOptions) (fuel : ℕ) (net after : Net)
    (result : ReductionResult) : Type 0 where
  pub stages : Stages net fuel
  pub last : MaterializedNet
  pub last_eq : materialize (stages.intermediates).0 ≡ some last
  pub written : after ≡ last.net
  pub net_eq : result.net ≡ last.net
  pub trace_eq : result.trace ≡ last.trace
  pub steps_eq :
      result.steps ≡ (stages.loops).steps ++ ((stages.sequences).1 ++ (stages.intermediates).1)
  pub accepted_loops :
      validate_steps options (stages.loops).graph (stages.loops).steps ≡ some (ok tt)
  pub accepted_sequences :
      validate_steps options (stages.sequences).0 (stages.sequences).1 ≡ some (ok tt)
  pub accepted_intermediates :
      validate_steps options (stages.intermediates).0 (stages.intermediates).1 ≡ some (ok tt)

run_inversion {ℓ κ} :
    {A : Type ℓ} {B : Type κ} (m : Run A) (f : A → Run B) {b : B}
    → (m >>= f) ≡ done b
    → (a : A) × (m ≡ done a) × (f a ≡ done b)
run_inversion (done a) f h = (a, refl, h)
run_inversion panicked f h = cc
run_inversion out_of_fuel f h = cc

pub or_panic_inversion {ℓ} : {A : Type ℓ} (o : Option A) {a : A} → or_panic o ≡ done a → o ≡ some a
unfolding or_panic
or_panic_inversion none h = cc
or_panic_inversion (some a) h = ground arith

-- Equal ends have equal nets and equal results.
ends_inversion :
    {A : Type 0} {net after : Net} {a r : A}
    → ◌≡◌ {A = Run (Net × Reduced A)} (done (net, ok a)) (done (after, ok r))
    → (after ≡ net) × (r ≡ a)
ends_inversion h = (cc, cc)

-- A stage that ends with a result was accepted, and went on from the graph as a net.
stage_ok :
    {A : Type 0} (options : ReductionOptions) (graph : ReductionGraph) (steps : List ReductionStep)
    (rest : MaterializedNet → Run (Net × Reduced A)) (net after : Net) (r : A)
    → stage options graph steps rest net ≡ done (after, ok r)
    → (validate_steps options graph steps ≡ some (ok tt))
      × ((m : MaterializedNet) × (materialize graph ≡ some m) × (rest m ≡ done (after, ok r)))
stage_ok options graph steps rest net after r h =
    let (checked, e, h') = run_inversion (or_panic (validate_steps options graph steps)) _ h in
    accepted checked (or_panic_inversion _ e) h'
  where
    accepted :
        (checked : Reduced (Unit {0}))
        → validate_steps options graph steps ≡ some checked
        → (elim checked [
          | ok _ ↦ or_panic (materialize graph) >>= rest
          | err e ↦ done (net, err e)
        ])
          ≡ done (after, ok r)
        → (validate_steps options graph steps ≡ some (ok tt))
          × ((m : MaterializedNet) × (materialize graph ≡ some m) × (rest m ≡ done (after, ok r)))
    accepted (err e) ev h = cc
    accepted (ok _) ev h =
        let (m, em, hm) = run_inversion (or_panic (materialize graph)) rest h in
        (ev, (m, or_panic_inversion _ em, hm))

-- A reduction that succeeds went through the three rules in sequence, each on the graph that the one
-- before left, and the validators accepted the graph after each rule that reported a step. The net
-- behind `&mut` and the net of the result are the last graph as a net, with its trace, and the steps
-- are those of the three rules in sequence.
pub reduce-Succeeds :
    (options : ReductionOptions) (fuel : ℕ) (net after : Net) (result : ReductionResult)
    → reduce options fuel net ≡ done (after, ok result)
    → Succeeds options fuel net after result
unfolding reduce
reduce-Succeeds options fuel net after result h =
    let (g, eg, h₁) = run_inversion (or_panic (from_net net)) _ h in
    let (l, el, h₂) = run_inversion (remove_simple_loops g) _ h₁ in
    let (vl, (m₁, em₁, h₃)) = stage_ok options l.graph l.steps _ net after result h₂ in
    let (s, es, h₄) = run_inversion (merge_linear_sequences fuel l.graph) _ h₃ in
    let (vs, (m₂, em₂, h₅)) = stage_ok options s.0 s.1 _ net after result h₄ in
    let (i, ei, h₆) = run_inversion (eliminate_intermediate_places s.0) _ h₅ in
    let (vi, (m₃, em₃, h₇)) = stage_ok options i.0 i.1 _ net after result h₆ in
    let (written, same) = ends_inversion h₇ in
    record {
      stages = record {
        start = g;
        loops = l;
        sequences = s;
        intermediates = i;
        from_net_eq = or_panic_inversion _ eg;
        loops_eq = el;
        sequences_eq = es;
        intermediates_eq = ei;
      };
      last = m₃;
      last_eq = em₃;
      written = written;
      net_eq = ap (λ (r : ReductionResult). r.net) same;
      trace_eq = ap (λ (r : ReductionResult). r.trace) same;
      steps_eq = ap (λ (r : ReductionResult). r.steps) same;
      accepted_loops = vl;
      accepted_sequences = vs;
      accepted_intermediates = vi;
    }
