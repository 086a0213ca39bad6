-- ===== src/Analysis/Reachability/Steps.antt =====
-- src/analysis/reachability.rs: no step of the search panics while there is room for nodes and
-- edges, and what each adds.
use rust_pta.Prelude.{
  ℕ, ◌+◌, ◌≤◌, ◌<◌, ◌≡◌, refl, inl, inr, Option, none, some, true, false, List, [], ◌∷◌, ◌++◌, ◌∈◌,
}
use rust_pta.Prelude.{arith, for_each, String, length, length-append, Bool-cases, Option-cases}
use rust_pta.Prelude.{get_elem?-Returns, leb}
use rust_pta.Net.IndexVec.{TransitionId}
use rust_pta.Net.Structure.{Marking}
use rust_pta.Net.Core.{Net, FireError, Result, ok, err, fire_transition, transitions_len}
use rust_pta.Net.Core.Build.{IsWf}
use rust_pta.Net.Core.Enabled.{Fits}
use rust_pta.Net.Core.Fire.{fire-total, fire-Fired}
use rust_pta.Analysis.Graph.{StableGraph}
use rust_pta.Analysis.Snapshot.{StateNode, StateEdge}
use rust_pta.Analysis.Snapshot.Total.{state_node-Returns, state_edge-Returns}
use rust_pta.Analysis.Reachability.{
  find, Search, StateGraphConfig, discover, connect, vacant, record_failure, handle, fire_one,
  at_limit,
}
use rust_pta.Analysis.Reachability.Spec.{At, IsSound, step}
use rust_pta.Analysis.Reachability.Discover.{discover-Discovered}
use rust_pta.Analysis.Reachability.Connect.{fire_one-Stepped}

module _ (G : StableGraph StateNode StateEdge) (to_string : FireError → String) (net : Net)
    (config : StateGraphConfig) (wf : IsWf net) (ceiling : ℕ)
    (capped : config.state_limit ≡ some ceiling) (indexed : ceiling ≤ G.index_limit) where
  abbrev S : Type 0
  S = Search G to_string

  pub limit_lem : (count : ℕ) → at_limit config.state_limit count ≡ leb ceiling count
  unfolding at_limit
  limit_lem count = rw capped

  -- Each new node entered the queue, the limit was kept, and there are at most `added` new edges.
  pub record Tally (added : ℕ) (s s' : S) : Type 0 where
    pub entered : G.node_count s'.graph + length s.queue ≡ G.node_count s.graph + length s'.queue
    pub within : (b : ℕ) → ceiling ≤ b → G.node_count s.graph ≤ b → G.node_count s'.graph ≤ b
    pub edges : G.edge_count s'.graph ≤ G.edge_count s.graph + added

  abbrev pub Ends : ℕ → S → Option S → Type 0
  Ends added s r = (s' : S) × (r ≡ some s') × Tally added s s'

  module _ (i : ℕ) (m : Marking) (t : TransitionId) (fits : Fits net m)
      (ht : t < transitions_len net) where
    pub connect-Ends :
        (s : S) (j : ℕ) (next : Marking)
        → At G to_string s i m
        → At G to_string s j next
        → Fits net next
        → G.edge_count s.graph < G.index_limit
        → Ends 1 s (connect G to_string net config i t m (s, j))
    unfolding connect
    connect-Ends s j next (n, at_i, _) (target, at_j, same) fits' room =
        let (e, makes) = state_edge-Returns net wf t m target.marking ht fits (rw same fits') in
        let (g, adds) = G.add_edge-total s.graph i j e n target at_i at_j room in
        let (nodes, edges) = G.add_edge-count s.graph i j e g adds in
        (
          record s { graph = g },
          rw (at_j, makes, adds),
          record { entered = omega arith; within = λ b h h'. omega arith; edges = omega arith },
        )

    pub discover-Tally :
        (s : S) (next : Marking)
        → Fits net next
        → G.node_count s.graph < ceiling
        → (r : S × ℕ) × (discover G to_string net config s next ≡ some r) × Tally 0 s r.0
    unfolding discover
    discover-Tally s next fits' below =
        let count = G.node_count s.graph in
        let (n, makes) = state_node-Returns net wf count next config.include_zero_tokens fits' in
        let (g, j, adds) = G.add_node-total s.graph n (omega arith) in
        let (nodes, edges, _) = G.add_node-count s.graph n g j adds in
        (
          (record s { graph = g; markings = (next, j) ∷ s.markings; queue = s.queue ++ j ∷ [] }, j),
          rw (makes, adds),
          record {
            entered = omega (arith, length-append s.queue (j ∷ []));
            within = λ b h h'. omega arith;
            edges = omega arith;
          },
        )

    vacant_lem :
        (s s' : S) (next : Marking) (r : S × ℕ)
        → at_limit config.state_limit (G.node_count s.graph) ≡ false
        → discover G to_string net config s next ≡ some r
        → connect G to_string net config i t m r ≡ some s'
        → vacant G to_string net config i t m next s ≡ some s'
    unfolding vacant
    vacant_lem s s' next r free finds links = rw (free, finds) links

    vacant-Ends :
        (s : S) (next : Marking)
        → IsSound G to_string net s
        → At G to_string s i m
        → fire_transition net m t ≡ some (ok next)
        → find s.markings next ≡ none
        → G.edge_count s.graph < G.index_limit
        → Ends 1 s (vacant G to_string net config i t m next s)
    unfolding vacant
    vacant-Ends s next sound at fires new room =
        let fits' = (fire-Fired net m t wf fits next fires).fits in
        elim (Bool-cases (at_limit config.state_limit (G.node_count s.graph))) [
          | inl full ↦ (
            record s { truncated = true },
            rw full,
            record { entered = refl; within = λ b h h'. h'; edges = omega arith },
          )
          | inr free ↦
              let (r, finds, first) =
                discover-Tally s next fits' (ground (arith, limit_lem (G.node_count s.graph))) in
              let d =
                discover-Discovered G to_string net config s next r sound
                  (step t (sound.reached i m at) fires) new finds in
              let (s', links, second) =
                connect-Ends r.0 r.1 next (d.grows.nodes i m at) d.at fits'
                  (omega (arith, first.edges)) in
              (
                s',
                vacant_lem s s' next r free finds links,
                record {
                  entered = omega (arith, first.entered, second.entered);
                  within = λ b h h'. second.within b h (first.within b h h');
                  edges = omega (arith, first.edges, second.edges);
                },
              )
        ]

    handle-Ends :
        (s : S) (r : Result Marking)
        → IsSound G to_string net s
        → At G to_string s i m
        → fire_transition net m t ≡ some r
        → G.edge_count s.graph < G.index_limit
        → Ends 1 s (handle G to_string net config i t m s r)
    unfolding handle record_failure
    handle-Ends s (err e) sound at fires room =
        let (transition, there) = get_elem?-Returns net.transitions t ht in
        rw there (_, refl, record { entered = refl; within = λ b h h'. h'; edges = omega arith })
    handle-Ends s (ok next) sound at fires room = elim (Option-cases (find s.markings next)) [
      | inl new ↦ rw (new, handle) (vacant-Ends s next sound at fires new room)
      | inr (j, old) ↦
          rw (old, handle)
            (connect-Ends s j next at (sound.found next j old)
              (fire-Fired net m t wf fits next fires).fits room)
    ]

    pub fire_one-Ends :
        (s : S)
        → IsSound G to_string net s
        → At G to_string s i m
        → G.edge_count s.graph < G.index_limit
        → Ends 1 s (fire_one G to_string net config i m s t)
    unfolding fire_one
    fire_one-Ends s sound at room =
        let (r, fires) = fire-total net m t wf fits in
        rw fires (handle-Ends s r sound at fires room)

  pub for_each-Ends :
      (i : ℕ) (m : Marking) (ts : List TransitionId) (s : S)
      → Fits net m
      → ((t : TransitionId) → t ∈ ts → t < transitions_len net)
      → IsSound G to_string net s
      → At G to_string s i m
      → G.edge_count s.graph + length ts ≤ G.index_limit
      → Ends (length ts) s (for_each (fire_one G to_string net config i m) s ts)
  unfolding for_each
  for_each-Ends i m [] s fits valid sound at room =
      (s, refl, record { entered = refl; within = λ b h h'. h'; edges = omega arith })
  for_each-Ends i m (t ∷ ts) s fits valid sound at room =
      let (s1, runs, first) =
        fire_one-Ends i m t fits (valid t (inl refl)) s sound at (omega arith) in
      let stepped = fire_one-Stepped G to_string net config i m t s sound at s1 runs in
      let (s2, rest, second) =
        for_each-Ends i m ts s1 fits (λ u mem. valid u (inr mem)) stepped.sound
          (stepped.grows.nodes i m at) (omega (arith, first.edges)) in
      (
        s2,
        rw (runs, for_each) rest,
        record {
          entered = omega (arith, first.entered, second.entered);
          within = λ b h h'. second.within b h (first.within b h h');
          edges = omega (arith, first.edges, second.edges);
        },
      )
