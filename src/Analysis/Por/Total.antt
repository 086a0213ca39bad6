-- ===== src/Analysis/Por/Total.antt =====
-- src/analysis/reachability.rs: under a state limit `with_config_por` ends, and with a bound.
use rust_pta.Prelude.{
  ℕ, zero, suc, max, ◌+◌, ◌*◌, ◌≤◌, ◌<◌, ◌≡◌, refl, sym, ap, subst, inl, inr, Option, some,
}
use rust_pta.Prelude.{List, [], ◌∷◌, ◌∈◌, length, String, arith, List-cases}
use rust_pta.Net.IndexVec.{TransitionId}
use rust_pta.Net.Structure.{Marking}
use rust_pta.Net.Core.{Net, FireError, enabled_transitions, transitions_len}
use rust_pta.Net.Core.Build.{IsWf}
use rust_pta.Net.Core.Enabled.{Fits, enabled_transitions-Selects, length-enabled_transitions}
use rust_pta.Analysis.Graph.{StableGraph}
use rust_pta.Analysis.Snapshot.{StateNode, StateEdge, update_enabled, update_enabled-marking}
use rust_pta.Analysis.Snapshot.Total.{update_enabled-Returns}
use rust_pta.Analysis.Reachability.{Search, StateGraphConfig, done, insert, begin}
use rust_pta.Analysis.Reachability.Spec.{At, IsSound}
use rust_pta.Analysis.Reachability.Round.{Reach-Fits, marked, kept, marked-IsSound}
use rust_pta.Analysis.Reachability.Total.{begin-Ends}
use rust_pta.Analysis.Por.{
  Set, SetOrder, PorSearch, difference, por_fire_each, por_expand, por_round, por_explore,
  with_config_por,
}
use rust_pta.Analysis.Por.Sets.{mem-difference, length-difference}
use rust_pta.Analysis.Por.Steps.{Ends, work, nodes, edges}
use rust_pta.Analysis.Por.Round.{PorInv, popped, por_expand-PorInv}
use rust_pta.Analysis.Por.Correct.{por_begin-PorInv}
use native.Mathlib.Nat.{mul-le-mul_right}
use rust_pta.Analysis.Por.Fires.{for_each-Ends}

module _ (G : StableGraph StateNode StateEdge) (to_string : FireError → String) (order : SetOrder)
    (net : Net) (config : StateGraphConfig) (wf : IsWf net) (ceiling : ℕ)
    (capped : config.state_limit ≡ some ceiling) (indexed : ceiling ≤ G.index_limit) where
  abbrev S : Type 0
  S = PorSearch G to_string

  abbrev EndsIn : ℕ → S → Option S → Type 0
  EndsIn added s r = Ends G to_string order net config wf ceiling capped indexed added s r

  abbrev nodes_in : S → ℕ
  nodes_in s = nodes G to_string order net config wf ceiling capped indexed s

  abbrev edges_in : S → ℕ
  edges_in s = edges G to_string order net config wf ceiling capped indexed s

  abbrev work_in : S → ℕ
  work_in s = work G to_string order net config wf ceiling capped indexed s

  por_fire_each-Ends :
      (i : ℕ) (m : Marking) (sleep enabled : Set) (s : S)
      → Fits net m
      → ((u : TransitionId) → u ∈ enabled → u < transitions_len net)
      → length enabled ≤ transitions_len net
      → IsSound G to_string net s.found
      → At G to_string s.found i m
      → edges_in s + transitions_len net ≤ G.index_limit
      → EndsIn
          (transitions_len net)
          s
          (por_fire_each G to_string order net config i m sleep s enabled)
  unfolding por_fire_each
  por_fire_each-Ends i m sleep [] s fits valid few sound at room = (
    record s { found = record s.found { deadlocks = insert i s.found.deadlocks } },
    refl,
    record { spent = omega arith; within = λ b h h'. h'; more_edges = omega arith },
  )
  por_fire_each-Ends i m sleep (t ∷ ts) s fits valid few sound at room =
      let all = t ∷ ts in
      let to_fire = difference (order.iter all) sleep in
      let count = length-difference (order.iter all) sleep in
      let (s', runs, spends) =
        for_each-Ends G to_string order net config wf ceiling capped indexed i m all sleep to_fire s
          fits valid
          (λ u mem.
            valid u ((order.mem-iter u all).0 (mem-difference u (order.iter all) sleep mem)))
          sound at (omega (arith, count, order.length-iter all)) in
      (
        s',
        runs,
        record {
          spent = spends.spent;
          within = spends.within;
          more_edges = omega (arith, spends.more_edges, count, order.length-iter all);
        },
      )

  por_expand_lem :
      (i : ℕ) (sleep ts : Set) (n n' : StateNode) (s s' : S)
      → G.node s.found.graph i ≡ some n
      → enabled_transitions net n.marking ≡ some ts
      → update_enabled net (order.iter ts) n ≡ some n'
      → por_fire_each G to_string order net config i n.marking sleep
          (record s { found = record s.found { graph = G.set_node s.found.graph i n' } })
          ts
        ≡ some s'
      → por_expand G to_string order net config i sleep s ≡ some s'
  unfolding por_expand
  por_expand_lem i sleep ts n n' s s' at lists writes runs = rw (at, lists, writes) runs

  por_expand-Ends :
      (i : ℕ) (rest : List ℕ) (sleep : Set) (others : List Set) (s : S)
      → PorInv G to_string order net config s
      → s.found.queue ≡ i ∷ rest
      → edges_in s + transitions_len net ≤ G.index_limit
      → EndsIn (transitions_len net) (popped G to_string order net config s rest others) (
          por_expand G to_string order net config i sleep
            (popped G to_string order net config s rest others))
  por_expand-Ends i rest sleep others s inv pops room =
      let (m, (n, at_i, same)) = inv.sound.queued i (rw pops (inl refl)) in
      let reach = inv.sound.reached i n.marking (n, at_i, refl) in
      let fits = Reach-Fits net wf reach in
      let (ts, lists, sel) = enabled_transitions-Selects net n.marking wf fits in
      let valid : (t : ℕ) → t ∈ ts → t < transitions_len net = λ t mem. (sel.sound t mem).1 in
      let (n', writes) =
        update_enabled-Returns net wf (order.iter ts) n
          (λ t mem. valid t ((order.mem-iter t ts).0 mem)) in
      let alike = update_enabled-marking net (order.iter ts) n n' writes in
      let mid : S = record s {
        found = marked G to_string net config s.found i rest n n' pops inv.sound at_i alike;
        sleeps = others;
      } in
      let (count, links, _) = G.set_node-same s.found.graph i n' in
      let (s', runs, spends) =
        por_fire_each-Ends i n.marking sleep ts mid fits valid
          (length-enabled_transitions net n.marking ts lists)
          (marked-IsSound G to_string net config s.found i rest n n' pops inv.sound at_i alike)
          (kept G to_string net config s.found i rest n n' pops inv.sound at_i alike i n.marking
            (n, at_i, refl))
          (omega arith) in
      (
        s',
        por_expand_lem i sleep ts n n' (popped G to_string order net config s rest others) s' at_i
            lists writes runs,
        record {
          spent = rw count at spends.spent;
          within = λ b h h'. spends.within b h (omega arith);
          more_edges = omega (arith, spends.more_edges);
        },
      )

  por_round-cons :
      (i : ℕ) (rest : List ℕ) (sleep : Set) (others : List Set) (s s1 : S)
      → por_expand G to_string order net config i sleep
          (popped G to_string order net config s rest others)
        ≡ some s1
      → por_round G to_string order net config (i ∷ rest) (sleep ∷ others) s ≡ done (some s1)
  unfolding por_round
  por_round-cons i rest sleep others s s1 runs = rw (por_round, runs) refl

  por_explore-round :
      (fuel : ℕ) (s s1 s2 : S)
      → por_round G to_string order net config s.found.queue s.sleeps s ≡ done (some s1)
      → por_explore G to_string order net config fuel s1 ≡ done s2
      → por_explore G to_string order net config (suc fuel) s ≡ done s2
  unfolding por_explore
  por_explore-round fuel s s1 s2 round ends = rw (por_explore, round) ends

  por_explore-cons :
      (fuel i : ℕ) (rest : List ℕ) (sleep : Set) (others : List Set) (s s1 s2 : S)
      → s.found.queue ≡ i ∷ rest
      → s.sleeps ≡ sleep ∷ others
      → por_expand G to_string order net config i sleep
          (popped G to_string order net config s rest others)
        ≡ some s1
      → por_explore G to_string order net config fuel s1 ≡ done s2
      → por_explore G to_string order net config (suc fuel) s ≡ done s2
  por_explore-cons fuel i rest sleep others s s1 s2 pops pops' runs ends =
      let round = por_round-cons i rest sleep others s s1 runs in
      por_explore-round fuel s s1 s2
        (subst (λ q. por_round G to_string order net config q s.sleeps s ≡ done (some s1))
          (sym pops)
          (subst (λ z. por_round G to_string order net config (i ∷ rest) z s ≡ done (some s1))
            (sym pops') round))
        ends

  por_explore-nil :
      (fuel : ℕ) (s : S)
      → s.found.queue ≡ []
      → por_explore G to_string order net config (suc fuel) s ≡ done s
  unfolding por_explore por_round
  por_explore-nil fuel s empty = rw empty refl

  -- `rounds` bounds the rounds that are left when at most `b` nodes may be there.
  por_explore-Ends :
      (b rounds fuel : ℕ) (s : S)
      → ceiling ≤ b
      → PorInv G to_string order net config s
      → nodes_in s ≤ b
      → work_in s + b * (transitions_len net + 1) ≤ rounds + nodes_in s * (transitions_len net + 1)
      → edges_in s + rounds * transitions_len net ≤ G.index_limit
      → rounds < fuel
      → (s' : S) × (por_explore G to_string order net config fuel s ≡ done s')
        × (G.node_count s'.found.graph ≤ b)
  por_explore-Ends b rounds zero s ceiling_le inv count left room h = absurd (omega arith)
  por_explore-Ends b zero (suc fuel) s ceiling_le inv count left room h =
      elim (List-cases s.found.queue) [
        | inl empty ↦ (s, por_explore-nil fuel s empty, count)
        | inr (i, rest, pops) ↦
            absurd (omega (arith, ap length pops, mul-le-mul_right (transitions_len net + 1) count))
      ]
  por_explore-Ends b (suc rounds) (suc fuel) s ceiling_le inv count left room h =
      elim (List-cases s.found.queue) [
        | inl empty ↦ (s, por_explore-nil fuel s empty, count)
        | inr (i, rest, pops) ↦ elim (List-cases s.sleeps) [
          | inl none_left ↦ absurd (omega (arith, inv.paired, ap length pops, ap length none_left))
          | inr (sleep, others, pops') ↦
              let (s1, runs, spends) =
                por_expand-Ends i rest sleep others s inv pops (omega arith) in
              let (s2, ends, bound) =
                por_explore-Ends b rounds fuel s1 ceiling_le
                  (por_expand-PorInv G to_string order net config i rest sleep others s s1 wf inv
                    pops pops' runs)
                  (spends.within b ceiling_le count) (omega (arith, spends.spent, ap length pops))
                  (omega (arith, spends.more_edges)) (omega arith) in
              (s2, por_explore-cons fuel i rest sleep others s s1 s2 pops pops' runs ends, bound)
        ]
      ]

with_config_por_lem :
    (G : StableGraph StateNode StateEdge) (to_string : FireError → String) (order : SetOrder)
    (net : Net) (config : StateGraphConfig) (fuel : ℕ) (found : Search G to_string)
    (s : PorSearch G to_string)
    → begin G to_string net config ≡ some found
    → por_explore G to_string order net config fuel
        (record { found = found; sleeps = [] ∷ []; sleep_sets = [] })
      ≡ done s
    → with_config_por G to_string order net config fuel ≡ done s
unfolding with_config_por
with_config_por_lem G to_string order net config fuel found s begins ends =
    rw (with_config_por, begins) ends

-- For a well-formed net and a state limit, let `most` be the limit, or 1 if it is 0, and `rounds` be
-- `most` times one more than the number of transitions. If the index type of the graph has room for
-- `most` nodes and for `rounds` times as many edges as there are transitions, then with fuel for more
-- than `rounds` rounds the construction with sleep sets ends without a panic, in a graph of at most
-- `most` nodes, although it queues a node again whenever its sleep set shrinks.
pub with_config_por-returns :
    (G : StableGraph StateNode StateEdge) (to_string : FireError → String) (order : SetOrder)
    (net : Net) (config : StateGraphConfig) (ceiling most rounds fuel : ℕ)
    → IsWf net
    → config.state_limit ≡ some ceiling
    → most ≡ max ceiling 1
    → rounds ≡ most * (transitions_len net + 1)
    → most ≤ G.index_limit
    → rounds * transitions_len net ≤ G.index_limit
    → rounds < fuel
    → (s : PorSearch G to_string) × (with_config_por G to_string order net config fuel ≡ done s)
      × (G.node_count s.found.graph ≤ most)
with_config_por-returns G to_string order net config ceiling most rounds fuel wf capped e e' nodes
      edges enough =
    let indexed : ceiling ≤ G.index_limit = omega arith in
    let (found, begins, one, single, zero_edges) =
      begin-Ends G to_string net config wf ceiling capped indexed (omega arith) in
    let (s, ends, bound) =
      por_explore-Ends G to_string order net config wf ceiling capped indexed most rounds fuel
        (record { found = found; sleeps = [] ∷ []; sleep_sets = [] }) (omega arith)
        (por_begin-PorInv G to_string order net config found begins) (omega arith) (omega arith)
        (omega arith) enough in
    (s, with_config_por_lem G to_string order net config fuel found s begins ends, bound)
