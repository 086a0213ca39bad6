-- ===== src/Detect/Deadlock/Reports.antt =====
-- src/detect/deadlock.rs: the detector ends, and its report agrees with what it finds.
use Prim.Native.String.{◌++◌ as ◌<>◌}
use rust_pta.Prelude.{ℕ, suc, ◌≡◌, refl, ◌∙◌, ◌⊎◌, ◌↔◌, inl, inr, true, false, not, Bool-cases}
use rust_pta.Prelude.{none, some, done, List, [], ◌∷◌, ◌∈◌, length, List-cases, Returns, map}
use rust_pta.Prelude.Text.{decimal}
use rust_pta.Net.IndexVec.{iter_enumerated}
use rust_pta.Analysis.Reachability.{contains, insert}
use rust_pta.Analysis.Reachability.Map.{mem-insert}
use rust_pta.Detect.Cycles.{GraphView, Visit, Groups, find_deadlock_cycles, insert_all, is_empty}
use rust_pta.Detect.Cycles.Close.{IsClosed, Within, GroupsIn}
use rust_pta.Detect.Cycles.Ends.{search_from}
use rust_pta.Detect.Deadlock.{
  DeadlockState, DeadlockTrace, DeadlockReport, find_all, insert_first, one_of_each,
  detect_cycle_deadlocks, or_cycles, detect_reachability_deadlock, format_marking,
  collect_state_space_info, format_deadlock_state, create_deadlock_trace, report_states,
  report_each, report_deadlocks, detect,
}
use rust_pta.Detect.Deadlock.Detects.{terminal_deadlocks_lem}

abbrev trace_to : DeadlockState → DeadlockTrace
trace_to state = record {
  steps = "Path reconstruction not implemented yet" ∷ [];
  final_state = some state;
}

-- What the detector finds and what it reports.
abbrev pub Reports : GraphView → (List ℕ → List ℕ) → Type 0
Reports view order =
    (found : List ℕ) × (detect_reachability_deadlock view order ≡ done found)
    × (report : DeadlockReport) × (detect view order ≡ done report)
    × (nodes : List ℕ) × ((j : ℕ) → (j ∈ nodes) ↔ (j ∈ found))
    × (map some report.deadlock_states ≡ map (format_deadlock_state view order) nodes)
    × (map (λ (t : DeadlockTrace). t.final_state) report.traces ≡ map some report.deadlock_states)
    × ((report.has_deadlock ≡ true) ↔ ((j : ℕ) × (j ∈ found)))

module _ (view : GraphView) (order : List ℕ → List ℕ) (closed : IsClosed view)
    (fair : (set : List ℕ) (x : ℕ) → (x ∈ order set) ↔ (x ∈ set)) where
  find_all_next :
      (fuel start : ℕ) (rest : List ℕ) (s t : Visit)
      → contains start s.visited ≡ false
      → find_deadlock_cycles view fuel start [] s ≡ done t
      → find_all view order fuel (start ∷ rest) s ≡ find_all view order fuel rest t
  unfolding find_all
  find_all_next fuel start rest s t e e' = rw (find_all, e, e') refl

  find_all_skip :
      (fuel start : ℕ) (rest : List ℕ) (s : Visit)
      → contains start s.visited ≡ true
      → find_all view order fuel (start ∷ rest) s ≡ find_all view order fuel rest s
  unfolding find_all
  find_all_skip fuel start rest s e = rw (find_all, e) refl

  find_all_lem :
      (starts : List ℕ) (s : Visit)
      → Within starts view.node_indices
      → s.stack ≡ []
      → GroupsIn view closed s.groups
      → (s' : Visit) × (find_all view order (suc (length view.node_indices)) starts s ≡ done s')
        × GroupsIn view closed s'.groups
  unfolding find_all
  find_all_lem [] s inside empty groups = (s, refl, groups)
  find_all_lem (start ∷ rest) s inside empty groups = elim (Bool-cases (contains start s.visited)) [
    | inl old ↦
        let (u, e, g) = find_all_lem rest s (λ x m. inside x (inr m)) empty groups in
        (u, find_all_skip (suc (length view.node_indices)) start rest s old ∙ e, g)
    | inr new ↦
        let (t, e, empty', keeps) =
          search_from view closed start s (inside start (inl refl)) new empty in
        let (u, e', g) = find_all_lem rest t (λ x m. inside x (inr m)) empty' (keeps groups) in
        (u, find_all_next (suc (length view.node_indices)) start rest s t new e ∙ e', g)
  ]

  insert_first_within :
      (set ds : List ℕ)
      → Within set view.node_indices
      → Within ds view.node_indices
      → Within (insert_first set ds) view.node_indices
  unfolding insert_first
  insert_first_within [] ds hs hd = hd
  insert_first_within (x ∷ xs) ds hs hd =
      λ y m. elim ((mem-insert x y ds).0 m) [ inl e ↦ hs y (inl e) | inr m' ↦ hd y m' ]

  one_of_each_within :
      (groups : Groups) (ds : List ℕ)
      → GroupsIn view closed groups
      → Within ds view.node_indices
      → Within (one_of_each view order groups ds) view.node_indices
  unfolding one_of_each
  one_of_each_within [] ds hg hd = hd
  one_of_each_within ((key, states) ∷ groups) ds hg hd =
      one_of_each_within groups (insert_first (order states) ds) hg.1
        (insert_first_within (order states) ds (λ x m. hg.0 x ((fair states x).0 m)) hd)

  detect_cycle_deadlocks_lem :
      (found : List ℕ) × (detect_cycle_deadlocks view order ≡ done found)
      × Within found view.node_indices
  unfolding detect_cycle_deadlocks
  detect_cycle_deadlocks_lem =
      let (s, e, g) =
        find_all_lem view.node_indices (record { visited = []; stack = []; groups = [] }) (λ x m. m)
          refl tt in
      (
        one_of_each view order s.groups [],
        rw (detect_cycle_deadlocks, e) refl,
        one_of_each_within s.groups [] g (λ x m. absurd m),
      )

  detect_reachability_lem :
      (found : List ℕ) × (detect_reachability_deadlock view order ≡ done found)
      × Within found view.node_indices
  unfolding detect_reachability_deadlock or_cycles
  detect_reachability_lem =
      let (found, e, mem) = terminal_deadlocks_lem view order view.node_indices [] closed.nodes in
      let (cycles, e', within) = detect_cycle_deadlocks_lem in
      elim (List-cases found) [
        | inl none_found ↦ (cycles, rw (detect_reachability_deadlock, e, none_found) e', within)
        | inr (x, xs, some_found) ↦ (
          found,
          rw (detect_reachability_deadlock, e, some_found) refl,
          λ y m. elim ((mem y).0 m) [ inl no_mem ↦ absurd no_mem | inr d ↦ d.0 ],
        )
      ]

  insert_all_mem : (xs set : List ℕ) (y : ℕ) → (y ∈ insert_all xs set) ↔ ((y ∈ xs) ⊎ (y ∈ set))
  unfolding insert_all
  insert_all_mem [] set y = (inr, λ m. elim m [ inl no_mem ↦ absurd no_mem | inr m' ↦ m' ])
  insert_all_mem (x ∷ xs) set y =
      let ih = insert_all_mem xs (insert x set) y in
      let ins = mem-insert x y set in
      (
        λ m. elim (ih.0 m) [
          | inl later ↦ inl (inr later)
          | inr m' ↦ elim (ins.0 m') [ inl e ↦ inl (inl e) | inr old ↦ inr old ]
        ],
        λ m. ih.1 (elim m [
          | inl (inl e) ↦ inr (ins.1 (inl e))
          | inl (inr later) ↦ inl later
          | inr old ↦ inr (ins.1 (inr old))
        ]),
      )

  format_deadlock_state-Returns :
      (node : ℕ) → Returns (view.node node) → Returns (format_deadlock_state view order node)
  unfolding format_deadlock_state
  format_deadlock_state-Returns node (state, at) = (
    record {
      state_id = "s" <> decimal state.index;
      marking = format_marking state.places (iter_enumerated state.marking);
      description = "Deadlock state with blocked resources";
    },
    rw (format_deadlock_state, at) refl,
  )

  report_states_next :
      (node : ℕ) (rest : List ℕ) (state : DeadlockState) (states : List DeadlockState)
      (traces : List DeadlockTrace)
      → format_deadlock_state view order node ≡ some state
      → report_states view order rest ≡ some (states, traces)
      → report_states view order (node ∷ rest) ≡ some (state ∷ states, trace_to state ∷ traces)
  unfolding report_states create_deadlock_trace
  report_states_next node rest state states traces e e' = rw (report_states, e, e') refl

  report_states_lem :
      (found : List ℕ)
      → Within found view.node_indices
      → (states : List DeadlockState) × (traces : List DeadlockTrace) × (report_states view order
            found
          ≡ some (states, traces))
        × (map (λ (t : DeadlockTrace). t.final_state) traces ≡ map some states)
        × (map some states ≡ map (format_deadlock_state view order) found)
  unfolding report_states
  report_states_lem [] inside = ([], [], refl, refl, refl)
  report_states_lem (node ∷ rest) inside =
      let (state, e) =
        format_deadlock_state-Returns node (closed.nodes node (inside node (inl refl))) in
      let (states, traces, es, finals, formats) =
        report_states_lem rest (λ x m. inside x (inr m)) in
      (
        state ∷ states,
        trace_to state ∷ traces,
        report_states_next node rest state states traces e es,
        rw finals refl,
        rw (e, formats) refl,
      )

  report_each_lem :
      (set : List ℕ)
      → Within set view.node_indices
      → (nodes : List ℕ) × ((j : ℕ) → (j ∈ nodes) ↔ (j ∈ set))
        × (states : List DeadlockState) × (traces : List DeadlockTrace) × (report_each view order
              set
            ≡ some (states, traces))
        × (map (λ (t : DeadlockTrace). t.final_state) traces ≡ map some states)
        × (map some states ≡ map (format_deadlock_state view order) nodes)
  unfolding report_each
  report_each_lem [] inside = ([], λ j. (λ m. m, λ m. m), [], [], refl, refl, refl)
  report_each_lem (x ∷ xs) inside =
      let (states, traces, es, finals, formats) =
        report_states_lem (order (x ∷ xs)) (λ y m. inside y ((fair (x ∷ xs) y).0 m)) in
      (order (x ∷ xs), fair (x ∷ xs), states, traces, es, finals, formats)

  nonempty_iff : (xs : List ℕ) → (not (is_empty xs) ≡ true) ↔ ((x : ℕ) × (x ∈ xs))
  nonempty_iff [] = (λ e. absurd (cc e), λ (x, m). absurd m)
  nonempty_iff (x ∷ xs) = (λ e. (x, inl refl), λ m. refl)

  -- On a graph whose edges lead to nodes that exist, and where the order of a set forgets no member
  -- and adds none, the detector ends without a panic. Its report lists a state for each node that it
  -- finds and for no other, each as it is formatted, a trace that ends in each of them, in the same
  -- order, and says that there is a deadlock exactly when some node is found.
  pub detect-Reports : Reports view order
  unfolding detect report_deadlocks
  detect-Reports =
      let (found, e, within) = detect_reachability_lem in
      let set = insert_all found [] in
      let (nodes, mem, states, traces, es, finals, formats) =
        report_each_lem set (λ x m. within x (known found x m)) in
      (
        found,
        e,
        record {
          tool_name = "Petri Net Deadlock Detector";
          has_deadlock = not (is_empty set);
          deadlock_count = length set;
          deadlock_states = states;
          traces = traces;
          state_space_info = some (collect_state_space_info view order);
          error = none;
        },
        rw (detect, e, report_deadlocks, es) refl,
        nodes,
        λ j. (
          λ m. known found j ((mem j).0 m),
          λ m. (mem j).1 ((insert_all_mem found [] j).1 (inl m)),
        ),
        formats,
        finals,
        (
          λ h. let (j, m) = (nonempty_iff set).0 h in (j, known found j m),
          λ (j, m). (nonempty_iff set).1 (j, (insert_all_mem found [] j).1 (inl m)),
        ),
      )
    where
      known : (found : List ℕ) (x : ℕ) → x ∈ insert_all found [] → x ∈ found
      known found x m = elim ((insert_all_mem found [] x).0 m) [
        | inl m' ↦ m'
        | inr no_mem ↦ absurd no_mem
      ]
