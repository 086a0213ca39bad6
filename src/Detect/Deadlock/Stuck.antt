-- ===== src/Detect/Deadlock/Stuck.antt =====
-- src/detect/deadlock.rs on the result of src/analysis/reachability.rs: what the detector says of the
-- net.
use rust_pta.Prelude.{ℕ, ◌≡◌, refl, sym, ◌∙◌, ◌⊎◌, ◌↔◌, inl, inr, subst, String}
use rust_pta.Prelude.{false, Bool-cases, some, done, List, [], ◌∈◌, Returns}
use rust_pta.Net.IndexVec.{TransitionId}
use rust_pta.Net.Structure.{Marking}
use rust_pta.Net.Core.{Net, FireError, ok, fire_transition}
use rust_pta.Net.Core.Build.{IsWf}
use rust_pta.Analysis.Graph.{StableGraph}
use rust_pta.Analysis.Snapshot.{StateNode, StateEdge}
use rust_pta.Analysis.Reachability.{Search, StateGraphConfig, with_config_standard}
use rust_pta.Analysis.Reachability.Spec.{Reach, step, At, At-unique}
use rust_pta.Analysis.Reachability.Correct.{
  with_config_standard_sound, with_config_standard_complete, with_config_standard-edges, only_empty,
  run-Inv,
}
use rust_pta.Detect.Cycles.{GraphView}
use rust_pta.Detect.Deadlock.{is_normal_termination, detect_reachability_deadlock}
use rust_pta.Detect.Deadlock.Detects.{
  NormalEnd, normal_end, end_normal, IsDead, detect_reachability_deadlock-IsDead,
}

-- No transition fires.
abbrev pub Stuck : Net → Marking → Type 0
Stuck net m = (t : TransitionId) (next : Marking) → ¬ (fire_transition net m t ≡ some (ok next))

module _ (G : StableGraph StateNode StateEdge) (to_string : FireError → String)
    (s : Search G to_string) (view : GraphView) where
  -- petgraph's iterators and counts, on the graph of a search.
  pub record IsViewOf : Type 0 where
    pub indices : (i : ℕ) → (i ∈ view.node_indices) ↔ Returns (G.node s.graph i)
    pub same : (i : ℕ) → view.node i ≡ G.node s.graph i
    pub edges : (i j : ℕ) → (j ∈ view.targets i) ↔ ((e : StateEdge) × ((i, j, e) ∈ G.edges s.graph))

module _ (G : StableGraph StateNode StateEdge) (to_string : FireError → String) (net : Net)
    (s : Search G to_string) (view : GraphView) (order : List ℕ → List ℕ) where
  -- The detector finds a node, and all that it finds are reachable markings from which no transition
  -- fires.
  abbrev pub Judges : ℕ → Type 0
  Judges i =
      (found : List ℕ) × (detect_reachability_deadlock view order ≡ done found)
      × (i ∈ found)
      × ((j : ℕ)
          → j ∈ found
          → (dead : Marking) × At G to_string s j dead × Reach net dead × Stuck net dead)

  -- A marking is a normal end, or the detector finds its node.
  abbrev pub Judged : Marking → Type 0
  Judged m =
      (i : ℕ) × (n : StateNode) × (G.node s.graph i ≡ some n)
      × (n.marking ≡ m)
      × (NormalEnd n.places ⊎ Judges i)

  module _ (config : StateGraphConfig) (fuel : ℕ) (wf : IsWf net)
      (ends : with_config_standard G to_string net config fuel ≡ done s)
      (whole : s.truncated ≡ false) (is_view : IsViewOf G to_string s view) where
    -- A node without edges has a marking from which nothing fires.
    terminal-Stuck :
        (j : ℕ) (m : Marking)
        → At G to_string s j m
        → view.targets j ≡ []
        → Reach net m × Stuck net m
    terminal-Stuck j m at empty = (reached, stuck)
      where
        reached : Reach net m
        reached =
            let (known, _, reach) =
              with_config_standard_sound G to_string net config fuel s wf ends in
            reach m j ((known m j).1 at)

        stuck : Stuck net m
        stuck t next fires =
            let (k, found) =
              with_config_standard_complete G to_string net config fuel s wf ends whole
                (step t reached fires) in
            let (known, _, _) = with_config_standard_sound G to_string net config fuel s wf ends in
            let (e, mem, _) =
              (with_config_standard-edges G to_string net config fuel s wf ends whole j k m next at
                  ((known next k).0 found) t).0
                fires in
            absurd (subst (λ ts. k ∈ ts) empty ((is_view.edges j k).1 (e, mem)))

    Stuck-terminal :
        (i : ℕ) (m : Marking) → At G to_string s i m → Stuck net m → view.targets i ≡ []
    Stuck-terminal i m at stuck = only_empty (view.targets i) (λ j mem.
        let (e, linked) = (is_view.edges i j).0 mem in
        let (inv, _) = run-Inv G to_string net config fuel s wf ends in
        let (m1, m2, at1, at2, fires) = inv.sound.linked (i, j, e) linked in
        stuck (e.transition).id m2 (rw (At-unique G to_string s i m m1 at at1) fires))

    -- On the graph that the standard construction makes of a well-formed net without a cut at the
    -- state limit: each reachable marking from which no transition fires has a node, and if no place
    -- of that node which is named as the end of `main` holds a token, then the detector finds the
    -- node, and all that it finds are nodes of reachable markings from which no transition fires.
    pub detect_reachability_deadlock-Stuck : (m : Marking) → Reach net m → Stuck net m → Judged m
    detect_reachability_deadlock-Stuck m reach stuck =
        let (i, known_i) =
          with_config_standard_complete G to_string net config fuel s wf ends whole reach in
        let (known, _, _) = with_config_standard_sound G to_string net config fuel s wf ends in
        let (n, at, marking) = (known m i).0 known_i in
        (
          i,
          n,
          at,
          marking,
          elim (Bool-cases (is_normal_termination n.places)) [
            | inl normal ↦ inl (end_normal n.places normal)
            | inr open_end ↦ inr (
                found_at i n at (Stuck-terminal i m (n, at, marking) stuck)
                  (λ e. cc (sym open_end ∙ normal_end n.places e)))
          ],
        )
      where
        judge :
            (i : ℕ) (found : List ℕ)
            → detect_reachability_deadlock view order ≡ done found
            → ((j : ℕ) → (j ∈ found) ↔ ((j ∈ view.node_indices) × IsDead view j))
            → i ∈ found
            → Judges i
        judge i found e mem at_i = (
          found,
          e,
          at_i,
          λ j at_j.
              let dead = ((mem j).0 at_j).1 in
              let at : At G to_string s j (dead.state).marking =
                (dead.state, sym (is_view.same j) ∙ dead.at, refl) in
              let (reached, still) = terminal-Stuck j (dead.state).marking at dead.terminal in
              ((dead.state).marking, at, reached, still),
        )

        found_at :
            (i : ℕ) (n : StateNode)
            → G.node s.graph i ≡ some n
            → view.targets i ≡ []
            → ¬ NormalEnd n.places
            → Judges i
        found_at i n at terminal open_end =
            let dead : IsDead view i = record {
              state = n;
              at = is_view.same i ∙ at;
              terminal = terminal;
              unfinished = open_end;
            } in
            let listed = (is_view.indices i).1 (n, at) in
            let (found, e, mem) =
              detect_reachability_deadlock-IsDead view order
                (λ j m. let (n', at') = (is_view.indices j).0 m in (n', is_view.same j ∙ at')) i
                listed dead in
            judge i found e mem ((mem i).1 (listed, dead))
