-- ===== src/Analysis/Por/Steps.antt =====
-- src/analysis/reachability.rs: no step of `with_config_por` panics while there is room for nodes and
-- edges, and what each uses up.
use rust_pta.Prelude.{
  ℕ, ◌+◌, ◌*◌, ◌≤◌, ◌<◌, ◌≡◌, refl, ap, inl, inr, Option, none, some, true, false,
}
use rust_pta.Prelude.{[], ◌∷◌, ◌++◌, ◌∈◌, length, length-append, String, arith, ◌==◌}
use rust_pta.Prelude.{Bool-cases, for_each, Returns, if◌then◌else◌}
use rust_pta.Net.IndexVec.{TransitionId}
use rust_pta.Net.Structure.{Marking}
use rust_pta.Net.Core.{Net, FireError, ok, fire_transition, transitions_len}
use rust_pta.Net.Core.Build.{IsWf}
use rust_pta.Net.Core.Enabled.{Fits, enabled_transitions-Selects, length-enabled_transitions}
use rust_pta.Net.Core.Fire.{fire-Fired}
use rust_pta.Analysis.Graph.{StableGraph}
use rust_pta.Analysis.Snapshot.{StateNode, StateEdge}
use rust_pta.Analysis.Reachability.{insert, Search, StateGraphConfig, find, discover, at_limit}
use rust_pta.Analysis.Reachability.Spec.{step, At, IsSound}
use rust_pta.Analysis.Reachability.Discover.{discover-Discovered}
use rust_pta.Analysis.Reachability.Steps.{Tally, connect-Ends, discover-Tally, limit_lem}
use rust_pta.Analysis.Por.{
  Set, SetOrder, PorSearch, intersection, set_eq, sleep_of, put_sleep, revisit, add_independent,
  next_sleep, por_connect, por_vacant,
}
use rust_pta.Analysis.Por.Sets.{size, size-put_sleep, shrinks, length-intersection}
use rust_pta.Analysis.Por.Independent.{transitions_are_independent-Independent}
use rust_pta.Analysis.Por.Sound.{discover-queue, connect-queue}

module _ (G : StableGraph StateNode StateEdge) (to_string : FireError → String) (order : SetOrder)
    (net : Net) (config : StateGraphConfig) (wf : IsWf net) (ceiling : ℕ)
    (capped : config.state_limit ≡ some ceiling) (indexed : ceiling ≤ G.index_limit) where
  abbrev S : Type 0
  S = PorSearch G to_string

  -- The work that the queue and the sleep sets may still cause.
  abbrev pub work : S → ℕ
  work s = length s.found.queue + size s.sleep_sets

  abbrev pub nodes : S → ℕ
  nodes s = G.node_count s.found.graph

  abbrev pub edges : S → ℕ
  edges s = G.edge_count s.found.graph

  -- A new node pays for its entry in the queue and its sleep set, and a smaller sleep set for
  -- another entry.
  pub record Spends (added : ℕ) (s s' : S) : Type 0 where
    pub spent :
        work s' + nodes s * (transitions_len net + 1)
        ≤ work s + nodes s' * (transitions_len net + 1)
    pub within : (b : ℕ) → ceiling ≤ b → nodes s ≤ b → nodes s' ≤ b
    pub more_edges : edges s' ≤ edges s + added

  abbrev pub Ends : ℕ → S → Option S → Type 0
  Ends added s r = (s' : S) × (r ≡ some s') × Spends added s s'

  pub Spends-trans : {a b : ℕ} {s t u : S} → Spends a s t → Spends b t u → Spends (a + b) s u
  Spends-trans x y = record {
    spent = omega (arith, x.spent, y.spent);
    within = λ b h h'. y.within b h (x.within b h h');
    more_edges = omega (arith, x.more_edges, y.more_edges);
  }

  pub revisit-Spends :
      (s : S) (j : ℕ) (z : Set) → Spends 0 s (revisit G to_string order net config s j z)
  unfolding revisit
  revisit-Spends s j z =
      let old = sleep_of s.sleep_sets j in
      elim (Bool-cases (set_eq (intersection old z) old)) [
        | inl same ↦
            rw same
              (record { spent = omega arith; within = λ b h h'. h'; more_edges = omega arith })
        | inr less ↦ rw less (record {
          spent = omega (
            arith,
            shrinks old z less,
            size-put_sleep s.sleep_sets j (intersection old z),
            length-append s.found.queue (j ∷ []),
          );
          within = λ b h h'. h';
          more_edges = omega arith;
        })
      ]

  -- The sleep set of a successor is no larger than the number of transitions.
  add_all-Returns :
      (t : TransitionId) (ts z : Set)
      → t < transitions_len net
      → ((u : TransitionId) → u ∈ ts → u < transitions_len net)
      → Returns (for_each (add_independent G to_string order net config t) z ts)
  unfolding for_each add_independent
  add_all-Returns t [] z ht valid = (z, refl)
  add_all-Returns t (u ∷ us) z ht valid = elim (Bool-cases (u == t)) [
    | inl same ↦ rw same (add_all-Returns t us z ht (λ v mem. valid v (inr mem)))
    | inr differ ↦
        let (b, answers, _) =
          transitions_are_independent-Independent net t u wf ht (valid u (inl refl)) in
        let z' = if b then insert u z else z in
        rw (differ, answers) (add_all-Returns t us z' ht (λ v mem. valid v (inr mem)))
  ]

  pub next_sleep-Ends :
      (enabled sleep : Set) (t : TransitionId) (next : Marking)
      → t < transitions_len net
      → ((u : TransitionId) → u ∈ enabled → u < transitions_len net)
      → Fits net next
      → (z : Set) × (next_sleep G to_string order net config enabled sleep t next ≡ some z)
        × (length z ≤ transitions_len net)
  unfolding next_sleep
  next_sleep-Ends enabled sleep t next ht valid fits =
      let (ts, lists, sel) = enabled_transitions-Selects net next wf fits in
      let (z, fills) =
        add_all-Returns t (order.iter enabled) sleep ht
          (λ u mem. valid u ((order.mem-iter u enabled).0 mem)) in
      (
        intersection ts z,
        rw (lists, fills) refl,
        omega (arith, length-intersection ts z, length-enabled_transitions net next ts lists),
      )

  module _ (i : ℕ) (m : Marking) (t : TransitionId) (fits : Fits net m)
      (ht : t < transitions_len net) where
    pub por_connect-Ends :
        (s : S) (j : ℕ) (next : Marking)
        → At G to_string s.found i m
        → At G to_string s.found j next
        → Fits net next
        → edges s < G.index_limit
        → Ends 1 s (por_connect G to_string order net config i t m j s)
    unfolding por_connect
    por_connect-Ends s j next at_i at_j fits' room =
        let (found, links, tally) =
          connect-Ends G to_string net config wf ceiling capped indexed i m t fits ht s.found j next
            at_i at_j fits' room in
        let same =
          ap length (connect-queue G to_string order net config i t m s.found found j links) in
        let count : G.node_count found.graph ≡ nodes s = omega (arith, tally.entered) in
        (
          record s { found = found },
          rw links refl,
          record {
            spent = rw (count, same) (omega arith);
            within = tally.within;
            more_edges = tally.edges;
          },
        )

    por_vacant_lem :
        (s s' : S) (next : Marking) (z : Set) (r : Search G to_string × ℕ)
        → at_limit config.state_limit (nodes s) ≡ false
        → discover G to_string net config s.found next ≡ some r
        → por_connect G to_string order net config i t m r.1 (record {
          found = r.0;
          sleeps = s.sleeps ++ z ∷ [];
          sleep_sets = put_sleep s.sleep_sets r.1 z;
        })
          ≡ some s'
        → por_vacant G to_string order net config i t m next z s ≡ some s'
    unfolding por_vacant
    por_vacant_lem s s' next z r free finds links = rw (free, finds) links

    -- The new node and its sleep set.
    entered-Spends :
        (s : S) (next : Marking) (z : Set) (r : Search G to_string × ℕ)
        → length z ≤ transitions_len net
        → discover G to_string net config s.found next ≡ some r
        → Tally G to_string net config wf ceiling capped indexed 0 s.found r.0
        → Spends 0 s (record {
          found = r.0;
          sleeps = s.sleeps ++ z ∷ [];
          sleep_sets = put_sleep s.sleep_sets r.1 z;
        })
    entered-Spends s next z r small finds tally =
        let queue = ap length (discover-queue G to_string order net config next s.found r finds) in
        let count : G.node_count (r.0).graph ≡ nodes s + 1 =
          omega (arith, tally.entered, length-append s.found.queue (r.1 ∷ [])) in
        record {
          spent =
              rw (count, queue)
                (omega (
                  arith,
                  small,
                  size-put_sleep s.sleep_sets r.1 z,
                  length-append s.found.queue (r.1 ∷ []),
                ));
          within = tally.within;
          more_edges = tally.edges;
        }

    pub por_vacant-Ends :
        (s : S) (next : Marking) (z : Set)
        → IsSound G to_string net s.found
        → At G to_string s.found i m
        → fire_transition net m t ≡ some (ok next)
        → find s.found.markings next ≡ none
        → length z ≤ transitions_len net
        → edges s < G.index_limit
        → Ends 1 s (por_vacant G to_string order net config i t m next z s)
    unfolding por_vacant
    por_vacant-Ends s next z sound at fires new small room =
        let fits' = (fire-Fired net m t wf fits next fires).fits in
        elim (Bool-cases (at_limit config.state_limit (nodes s))) [
          | inl full ↦ (
            record s { found = record s.found { truncated = true } },
            rw full refl,
            record { spent = omega arith; within = λ b h h'. h'; more_edges = omega arith },
          )
          | inr free ↦
              let (r, finds, tally) =
                discover-Tally G to_string net config wf ceiling capped indexed i m t fits ht
                  s.found next fits'
                  (ground (
                    arith,
                    limit_lem G to_string net config wf ceiling capped indexed (nodes s),
                  )) in
              let d =
                discover-Discovered G to_string net config s.found next r sound
                  (step t (sound.reached i m at) fires) new finds in
              let first = entered-Spends s next z r small finds tally in
              let (s', links, second) =
                por_connect-Ends
                  (record {
                    found = r.0;
                    sleeps = s.sleeps ++ z ∷ [];
                    sleep_sets = put_sleep s.sleep_sets r.1 z;
                  })
                  r.1 next (d.grows.nodes i m at) d.at fits' (omega (arith, first.more_edges)) in
              (s', por_vacant_lem s s' next z r free finds links, Spends-trans first second)
        ]
