-- ===== src/Net/Reduce/Reducer/Unchanged.antt =====
-- src/net/reduce/mod.rs: a reduction that reports no step.
use rust_pta.Prelude.{ℕ, zero, suc, ◌+◌, ◌≡◌, ◌≢◌, ap, refl, sym, ◌∙◌, Option, none, some, Run}
use rust_pta.Prelude.{done, panicked, out_of_fuel, List, [], ◌∷◌, ◌++◌, ◌⊎◌, inl, inr, length, All}
use rust_pta.Prelude.{Bool-cases, Bool, true, false, subst, some_inj, >>=-eq-some, map}
use rust_pta.Prelude.{get_elem?, ◌==◌}
use rust_pta.Net.IndexVec.{PlaceId, iter_enumerated}
use rust_pta.Net.Structure.{Place}
use rust_pta.Net.Core.{Net}
use rust_pta.Net.Core.Build.{IsWf}
use rust_pta.Net.Reduce.Graph.{
  ReductionGraph, ReductionStep, GraphPlace, without_arcs, fresh_place, place_originals,
  transition_originals,
}
use rust_pta.Net.Reduce.Graph.Reads.{IsRead, from_net-IsRead}
use rust_pta.Net.Reduce.Pairwise.{All2, All-get_elem?}
use rust_pta.Net.Reduce.Keeps.{SamePlace}
use rust_pta.Net.Reduce.Materialize.{MaterializedNet, ReductionTrace, materialize}
use rust_pta.Net.Reduce.Materialize.Live.{own_traces}
use rust_pta.Net.Reduce.Materialize.RoundTrip.{OwnCapacities, read_back}
use rust_pta.Net.Reduce.Loops.{
  LoopState, Cycle, cycle_step, walk_cycle, member, all_empty, remove_cycle, push_loop,
  starts_cycle, after_walk, loop_round, loop_rounds, remove_simple_loops,
}
use rust_pta.Net.Reduce.Reducer.{ok, ReductionOptions, ReductionResult, reduce}
use rust_pta.Net.Reduce.Reducer.Outcome.{reduce-Succeeds, or_panic_inversion}
use rust_pta.Net.Reduce.Reducer.Accepted.{Tells, merge-Tells, eliminate-Tells, not_nil}

-- Each place stands for some place of the first net.
abbrev Named : ReductionGraph → Type 0
Named graph = All (λ (p : GraphPlace). p.originals ≢ []) graph.places

not_nil_left {ℓ} : {A : Type ℓ} (xs ys : List A) → xs ≢ [] → xs ++ ys ≢ []
not_nil_left [] ys h e = h refl
not_nil_left (x ∷ xs) ys h e = cc

walk_cases :
    (seen : Bool) (step : Option (Option (ℕ × ℕ))) (start : ℕ) (close : ℕ → Cycle)
    (more : ℕ → ℕ → Run (Option Cycle)) (found : Cycle)
    → elim seen [
      | true ↦ done none
      | false ↦ elim step [
        | none ↦ panicked
        | some none ↦ done none
        | some (some (t, next)) ↦ elim (next == start) [
          | true ↦ done (some (close t))
          | false ↦ more t next
        ]
      ]
    ]
      ≡ done (some found)
    → ((t : ℕ) × (found ≡ close t)) ⊎ ((t : ℕ) × (next : ℕ) × (more t next ≡ done (some found)))
walk_cases true step start close more found e = cc
walk_cases false none start close more found e = cc
walk_cases false (some none) start close more found e = cc
walk_cases false (some (some (t, next))) start close more found e =
    elim (Bool-cases (next == start)) [
      | inl back ↦ inl (t, closed (close t) found (rw back at e))
      | inr on ↦ inr (t, next, rw on at e)
    ]
  where
    closed :
        (c found : Cycle)
        → ◌≡◌ {A = Run (Option Cycle)} (done (some c)) (done (some found))
        → found ≡ c
    closed c found e = cc

-- A cycle that a walk closes has a place.
walk_cycle-closed :
    (graph : ReductionGraph) (start fuel current : ℕ) (seen : List ℕ) (cycle found : Cycle)
    → walk_cycle graph start fuel current seen cycle ≡ done (some found)
    → found.0 ≢ []
unfolding walk_cycle
walk_cycle-closed graph start zero current seen cycle found e = cc
walk_cycle-closed graph start (suc fuel) current seen (places, transitions) found e =
    elim (walk_cases (member current seen) (cycle_step graph current) start
      (λ t. (places ++ current ∷ [], transitions ++ t ∷ []))
      (λ t next.
        walk_cycle graph start fuel next (current ∷ seen)
          (places ++ current ∷ [], transitions ++ t ∷ []))
      found e) [
        | inl (t, same) ↦
            subst (λ xs. xs ≢ []) (sym (ap (λ (c : Cycle). c.0) same)) (not_nil places current)
        | inr (t, next, rest) ↦
            walk_cycle-closed graph start fuel next (current ∷ seen)
              (places ++ current ∷ [], transitions ++ t ∷ []) found rest
      ]

-- A step that stands for a place is reported.
push_loop-tells :
    (steps : List ReductionStep) (places ts : List ℕ) → places ≢ [] → push_loop steps places ts ≢ []
unfolding push_loop
push_loop-tells steps [] ts some_place e = some_place refl
push_loop-tells steps (p ∷ ps) ts some_place e = not_nil steps _ e

push_loop-keeps :
    (steps : List ReductionStep) (places ts : List ℕ) → steps ≢ [] → push_loop steps places ts ≢ []
unfolding push_loop
push_loop-keeps steps [] [] told e = told e
push_loop-keeps steps [] (t ∷ ts) told e = not_nil steps _ e
push_loop-keeps steps (p ∷ ps) ts told e = not_nil steps _ e

originals_nonempty :
    (graph : ReductionGraph) (i : ℕ) (is : List ℕ) (os : List PlaceId)
    → Named graph
    → place_originals graph (i ∷ is) ≡ some os
    → os ≢ []
unfolding place_originals
originals_nonempty graph i is os named e =
    let (place, at, e') = >>=-eq-some (get_elem? graph.places i) _ e in
    let (others, _, e'') = >>=-eq-some (place_originals graph is) _ e' in
    subst (λ xs. xs ≢ []) (some_inj e'')
      (not_nil_left place.originals others
        (All-get_elem? (λ (p : GraphPlace). p.originals ≢ []) graph.places i named at))

-- What the removal of a cycle does to the state.
record Removes (s : LoopState) (cycle : Cycle) (s' : LoopState) : Type 0 where
  os : List PlaceId
  ts : List ℕ
  os_eq : place_originals s.graph cycle.0 ≡ some os
  steps_eq : s'.steps ≡ push_loop s.steps os ts

remove_cycle-cases :
    (s s' : LoopState) (cycle : Cycle)
    → remove_cycle s cycle ≡ some s'
    → (s ≡ s') ⊎ Removes s cycle s'
unfolding remove_cycle
remove_cycle-cases s s' (places, transitions) e =
    let (b, _, e') = >>=-eq-some (all_empty s.graph places) _ e in
    elim (Bool-cases b) [
      | inr full ↦ inl (some_inj (rw full at e'))
      | inl empty ↦
          let (os, eo, e₁) = >>=-eq-some (place_originals s.graph places) _ (rw empty at e') in
          let (ts, _, e₂) = >>=-eq-some (transition_originals s.graph transitions) _ e₁ in
          inr (record {
            os = os;
            ts = ts;
            os_eq = eo;
            steps_eq = ap (λ (u : LoopState). u.steps) (sym (some_inj e₂));
          })
    ]

-- A round leaves the state as it was or removes a cycle that has a place.
round_cases :
    (s s' : LoopState) (r : Option Bool) (walked : Run (Option Cycle))
    → ((c : Cycle) → walked ≡ done (some c) → c.0 ≢ [])
    → elim r [ none ↦ panicked | some false ↦ done s | some true ↦ after_walk s walked ] ≡ done s'
    → (s ≡ s') ⊎ ((c : Cycle) × (c.0 ≢ []) × (remove_cycle s c ≡ some s'))
unfolding after_walk
round_cases s s' none walked closed e = cc
round_cases s s' (some false) walked closed e = inl cc
round_cases s s' (some true) panicked closed e = cc
round_cases s s' (some true) out_of_fuel closed e = cc
round_cases s s' (some true) (done none) closed e = inl cc
round_cases s s' (some true) (done (some c)) closed e =
    inr (c, closed c refl, or_panic_inversion (remove_cycle s c) e)

-- A round reports a step, or leaves the graph and the steps as they were.
abbrev LoopTells : LoopState → LoopState → Type 0
LoopTells s s' = ((s'.graph ≡ s.graph) × (s'.steps ≡ s.steps)) ⊎ (s'.steps ≢ [])

Removes-LoopTells :
    (s s' : LoopState) (c : Cycle) → Named s.graph → c.0 ≢ [] → Removes s c s' → LoopTells s s'
Removes-LoopTells s s' ([], ts) named some_place r = absurd (some_place refl)
Removes-LoopTells s s' (i ∷ is, ts) named some_place r = inr (
    subst (λ xs. xs ≢ []) (sym r.steps_eq)
      (push_loop-tells s.steps r.os r.ts (originals_nonempty s.graph i is r.os named r.os_eq)))

same-LoopTells : (s s' : LoopState) → s ≡ s' → LoopTells s s'
same-LoopTells s s' e =
    inl (ap (λ (u : LoopState). u.graph) (sym e), ap (λ (u : LoopState). u.steps) (sym e))

loop_round-cases :
    (s s' : LoopState) (start : ℕ)
    → loop_round s start ≡ done s'
    → (s ≡ s') ⊎ ((c : Cycle) × (c.0 ≢ []) × (remove_cycle s c ≡ some s'))
unfolding loop_round
loop_round-cases s s' start e =
    let fuel = suc (length (s.graph).places) in
    round_cases s s' (starts_cycle s start) (walk_cycle s.graph start fuel start [] ([], []))
      (λ c h. walk_cycle-closed s.graph start fuel start [] ([], []) c h) e

loop_round-LoopTells :
    (s s' : LoopState) (start : ℕ) → Named s.graph → loop_round s start ≡ done s' → LoopTells s s'
loop_round-LoopTells s s' start named e = elim (loop_round-cases s s' start e) [
  | inl same ↦ same-LoopTells s s' same
  | inr (c, some_place, removes) ↦ elim (remove_cycle-cases s s' c removes) [
    | inl same ↦ same-LoopTells s s' same
    | inr r ↦ Removes-LoopTells s s' c named some_place r
  ]
]

loop_round-keeps :
    (s s' : LoopState) (start : ℕ) → loop_round s start ≡ done s' → s.steps ≢ [] → s'.steps ≢ []
loop_round-keeps s s' start e told = elim (loop_round-cases s s' start e) [
  | inl same ↦ subst (λ (u : LoopState). u.steps ≢ []) same told
  | inr (c, _, removes) ↦ elim (remove_cycle-cases s s' c removes) [
    | inl same ↦ subst (λ (u : LoopState). u.steps ≢ []) same told
    | inr r ↦ subst (λ xs. xs ≢ []) (sym r.steps_eq) (push_loop-keeps s.steps r.os r.ts told)
  ]
]

rounds_cases :
    (r : Run LoopState) (rest : LoopState → Run LoopState) (out : LoopState)
    → elim r [ done s' ↦ rest s' | panicked ↦ panicked | out_of_fuel ↦ out_of_fuel ] ≡ done out
    → (s : LoopState) × (r ≡ done s) × (rest s ≡ done out)
rounds_cases (done s) rest out e = (s, refl, e)
rounds_cases panicked rest out e = cc
rounds_cases out_of_fuel rest out e = cc

loop_rounds-keeps :
    (n start : ℕ) (s s' : LoopState)
    → loop_rounds n start s ≡ done s'
    → s.steps ≢ []
    → s'.steps ≢ []
unfolding loop_rounds
loop_rounds-keeps zero start s s' e told =
    let same : s ≡ s' = cc in subst (λ (u : LoopState). u.steps ≢ []) same told
loop_rounds-keeps (suc n) start s s' e told =
    let (t, e₁, e₂) = rounds_cases (loop_round s start) (loop_rounds n (start + 1)) s' e in
    loop_rounds-keeps n (start + 1) t s' e₂ (loop_round-keeps s t start e₁ told)

loop_rounds-LoopTells :
    (n start : ℕ) (s s' : LoopState)
    → Named s.graph
    → loop_rounds n start s ≡ done s'
    → LoopTells s s'
unfolding loop_rounds
loop_rounds-LoopTells zero start s s' named e = same-LoopTells s s' cc
loop_rounds-LoopTells (suc n) start s s' named e =
    let (t, e₁, e₂) = rounds_cases (loop_round s start) (loop_rounds n (start + 1)) s' e in
    elim (loop_round-LoopTells s t start named e₁) [
      | inr told ↦ inr (loop_rounds-keeps n (start + 1) t s' e₂ told)
      | inl (same, same_steps) ↦
          elim (loop_rounds-LoopTells n (start + 1) t s' (subst Named (sym same) named) e₂) [
            | inr told ↦ inr told
            | inl (same', same_steps') ↦ inl (same' ∙ same, same_steps' ∙ same_steps)
          ]
    ]

remove_simple_loops-Tells :
    (graph : ReductionGraph) (s : LoopState)
    → Named graph
    → remove_simple_loops graph ≡ done s
    → (s.graph ≡ graph) ⊎ (s.steps ≢ [])
unfolding remove_simple_loops
remove_simple_loops-Tells graph s named e =
    elim (loop_rounds-LoopTells (length graph.places) 0
      (record { graph = graph; visited = []; steps = [] }) s named e) [
        | inl (same, _) ↦ inl same
        | inr told ↦ inr told
      ]

named_fresh :
    (xs : List (PlaceId × Place)) (ys : List GraphPlace)
    → All2 SamePlace (map fresh_place xs) ys
    → All (λ (p : GraphPlace). p.originals ≢ []) ys
unfolding fresh_place
named_fresh [] [] h = tt
named_fresh ((id, place) ∷ xs) (y ∷ ys) h =
    let originals_eq : y.originals ≡ id ∷ [] = (h.0).1 in
    (λ e. absurd (cc (sym originals_eq ∙ e)), named_fresh xs ys h.1)
named_fresh [] (y ∷ ys) h = absurd h
named_fresh (x ∷ xs) [] h = absurd h

IsRead-Named : (net : Net) (g : ReductionGraph) → IsRead net g → Named g
unfolding without_arcs
IsRead-Named net g read = named_fresh (iter_enumerated net.places) g.places read.is.places_same

parts_nil {ℓ} :
    {A : Type ℓ} (xs ys zs : List A) → xs ++ (ys ++ zs) ≡ [] → (xs ≡ []) × (ys ≡ []) × (zs ≡ [])
parts_nil [] [] [] e = (refl, refl, refl)
parts_nil [] [] (z ∷ zs) e = cc
parts_nil [] (y ∷ ys) zs e = cc
parts_nil (x ∷ xs) ys zs e = cc

untold :
    (graph : ReductionGraph) (out : ReductionGraph × List ReductionStep)
    → Tells graph [] out
    → out.1 ≡ []
    → out.0 ≡ graph
untold graph out (inl (same, _)) none_told = same
untold graph out (inr told) none_told = absurd (told none_told)

-- A reduction of a well-formed net whose capacities are those of its places, if it succeeds and
-- reports no step, leaves the net as it was, and its trace says of each place and each transition
-- that it stands for itself.
pub reduce-Unchanged :
    (options : ReductionOptions) (fuel : ℕ) (net after : Net) (result : ReductionResult)
    → IsWf net
    → OwnCapacities net
    → reduce options fuel net ≡ done (after, ok result)
    → result.steps ≡ []
    → (after ≡ net)
      × (result.net ≡ net)
      × (result.trace.place_mapping ≡ own_traces net.places)
      × (result.trace.transition_mapping ≡ own_traces net.transitions)
reduce-Unchanged options fuel net after result wf own e no_steps =
    let s = reduce-Succeeds options fuel net after result e in
    let g = s.stages in
    let (g', e', read) = from_net-IsRead net wf in
    let start_same : g.start ≡ g' = some_inj (sym g.from_net_eq ∙ e') in
    let (no_loops, no_sequences, no_intermediates) =
      parts_nil (g.loops).steps (g.sequences).1 (g.intermediates).1 (sym s.steps_eq ∙ no_steps) in
    let named = subst Named (sym start_same) (IsRead-Named net g' read) in
    let loops_same : (g.loops).graph ≡ g.start =
      elim (remove_simple_loops-Tells g.start g.loops named g.loops_eq) [
        | inl same ↦ same
        | inr told ↦ absurd (told no_loops)
      ] in
    let sequences_same =
      untold (g.loops).graph g.sequences
        (merge-Tells fuel (g.loops).graph g.sequences g.sequences_eq) no_sequences in
    let intermediates_same =
      untold (g.sequences).0 g.intermediates
        (eliminate-Tells (g.sequences).0 g.intermediates g.intermediates_eq) no_intermediates in
    let all_same = intermediates_same ∙ sequences_same ∙ loops_same ∙ start_same in
    let last_same =
      some_inj (sym s.last_eq ∙ ap materialize all_same ∙ read_back net wf own g' read) in
    (
      s.written ∙ ap (λ (m : MaterializedNet). m.net) last_same,
      s.net_eq ∙ ap (λ (m : MaterializedNet). m.net) last_same,
      ap (λ (t : ReductionTrace). t.place_mapping) s.trace_eq
          ∙ ap (λ (m : MaterializedNet). m.trace.place_mapping) last_same,
      ap (λ (t : ReductionTrace). t.transition_mapping) s.trace_eq
          ∙ ap (λ (m : MaterializedNet). m.trace.transition_mapping) last_same,
    )
