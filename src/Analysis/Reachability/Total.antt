-- ===== src/Analysis/Reachability/Total.antt =====
-- src/analysis/reachability.rs: under a state limit the construction ends, and with a bound.
use rust_pta.Prelude.{
  ℕ, zero, suc, max, ◌+◌, ◌*◌, ◌≤◌, ◌<◌, ◌≡◌, refl, ap, inl, inr, Option, some, false, List, [],
  ◌∷◌, ◌∈◌,
}
use rust_pta.Prelude.{arith, length, String, List-cases}
use rust_pta.Net.IndexVec.{TransitionId}
use rust_pta.Net.Structure.{Marking}
use rust_pta.Net.Core.{Net, FireError, initial_marking, transitions_len}
use rust_pta.Net.Core.Build.{IsWf}
use rust_pta.Net.Core.Enabled.{Fits, enabled_transitions-Selects, length-enabled_transitions}
use rust_pta.Analysis.Graph.{StableGraph}
use rust_pta.Analysis.Snapshot.{StateNode, StateEdge, update_enabled-marking}
use rust_pta.Analysis.Snapshot.Total.{state_node-Returns, update_enabled-Returns}
use rust_pta.Analysis.Reachability.{
  Search, StateGraphConfig, done, fire_each, expand, explore, begin, with_config_standard, insert,
}
use rust_pta.Analysis.Reachability.Spec.{At, IsSound, here}
use rust_pta.Analysis.Reachability.Round.{Inv, Reach-Fits, expand-Inv, marked, kept, marked-IsSound}
use rust_pta.Analysis.Reachability.Correct.{begin-Inv}
use rust_pta.Analysis.Reachability.Steps.{Ends, for_each-Ends}

module _ (G : StableGraph StateNode StateEdge) (to_string : FireError → String) (net : Net)
    (config : StateGraphConfig) (wf : IsWf net) (ceiling : ℕ)
    (capped : config.state_limit ≡ some ceiling) (indexed : ceiling ≤ G.index_limit) where
  abbrev S : Type 0
  S = Search G to_string

  abbrev EndsIn : ℕ → S → Option S → Type 0
  EndsIn added s r = Ends G to_string net config wf ceiling capped indexed added s r

  fire_each-Ends :
      (i : ℕ) (m : Marking) (ts : List TransitionId) (s : S)
      → Fits net m
      → ((t : TransitionId) → t ∈ ts → t < transitions_len net)
      → IsSound G to_string net s
      → At G to_string s i m
      → G.edge_count s.graph + length ts ≤ G.index_limit
      → EndsIn (length ts) s (fire_each G to_string net config i m s ts)
  unfolding fire_each
  fire_each-Ends i m [] s fits valid sound at room = (
    record s { deadlocks = insert i s.deadlocks },
    refl,
    record { entered = refl; within = λ b h h'. h'; edges = omega arith },
  )
  fire_each-Ends i m (t ∷ ts) s fits valid sound at room =
      for_each-Ends G to_string net config wf ceiling capped indexed i m (t ∷ ts) s fits valid sound
        at room

  expand-Ends :
      (i : ℕ) (rest : List ℕ) (s : S)
      → Inv G to_string net config s
      → s.queue ≡ i ∷ rest
      → G.edge_count s.graph + transitions_len net ≤ G.index_limit
      → EndsIn
          (transitions_len net)
          (record s { queue = rest })
          (expand G to_string net config i (record s { queue = rest }))
  unfolding expand
  expand-Ends i rest s inv pops room =
      let (m, (n, at_i, same)) = inv.sound.queued i (rw pops (inl refl)) in
      let reach = inv.sound.reached i n.marking (n, at_i, refl) in
      let fits = Reach-Fits net wf reach in
      let (ts, lists, sel) = enabled_transitions-Selects net n.marking wf fits in
      let valid : (t : ℕ) → t ∈ ts → t < transitions_len net = λ t mem. (sel.sound t mem).1 in
      let (n', writes) = update_enabled-Returns net wf ts n valid in
      let alike = update_enabled-marking net ts n n' writes in
      let s1 = marked G to_string net config s i rest n n' pops inv.sound at_i alike in
      let (nodes, edges, _) = G.set_node-same s.graph i n' in
      let (s2, runs, tally) =
        fire_each-Ends i n.marking ts s1 fits valid
          (marked-IsSound G to_string net config s i rest n n' pops inv.sound at_i alike)
          (kept G to_string net config s i rest n n' pops inv.sound at_i alike i n.marking
            (n, at_i, refl))
          (omega (arith, length-enabled_transitions net n.marking ts lists)) in
      (
        s2,
        rw (at_i, lists, writes) runs,
        record {
          entered = omega (arith, tally.entered);
          within = λ b h h'. tally.within b h (omega arith);
          edges = omega (arith, tally.edges, length-enabled_transitions net n.marking ts lists);
        },
      )

  explore_lem :
      (fuel i : ℕ) (rest : List ℕ) (s s1 s2 : S)
      → s.queue ≡ i ∷ rest
      → expand G to_string net config i (record s { queue = rest }) ≡ some s1
      → explore G to_string net config fuel s1 ≡ done s2
      → explore G to_string net config (suc fuel) s ≡ done s2
  unfolding explore
  explore_lem fuel i rest s s1 s2 pops runs ends = rw (pops, explore, runs) ends

  -- `rounds` more nodes can be popped before the bound `b` on nodes is used up.
  explore-Ends :
      (b rounds fuel : ℕ) (s : S)
      → ceiling ≤ b
      → Inv G to_string net config s
      → G.node_count s.graph ≤ b
      → b + length s.queue ≡ G.node_count s.graph + rounds
      → G.edge_count s.graph + rounds * transitions_len net ≤ G.index_limit
      → rounds < fuel
      → (s' : S) × (explore G to_string net config fuel s ≡ done s') × (G.node_count s'.graph ≤ b)
  unfolding explore
  explore-Ends b rounds zero s ceiling_le inv count left room h = absurd (omega arith)
  explore-Ends b zero (suc fuel) s ceiling_le inv count left room h = elim (List-cases s.queue) [
    | inl empty ↦ (s, simp (empty, explore), count)
    | inr (i, rest, pops) ↦ absurd (omega (arith, ap length pops))
  ]
  explore-Ends b (suc rounds) (suc fuel) s ceiling_le inv count left room h =
      elim (List-cases s.queue) [
        | inl empty ↦ (s, simp (empty, explore), count)
        | inr (i, rest, pops) ↦
            let (s1, runs, tally) = expand-Ends i rest s inv pops (omega arith) in
            let (s2, ends, bound) =
              explore-Ends b rounds fuel s1 ceiling_le
                (expand-Inv G to_string net config i rest s s1 wf inv pops runs)
                (tally.within b ceiling_le count) (omega (arith, tally.entered, ap length pops))
                (omega (arith, tally.edges)) (omega arith) in
            (s2, explore_lem fuel i rest s s1 s2 pops runs ends, bound)
      ]

  pub begin-Ends :
      1 ≤ G.index_limit
      → (s : S) × (begin G to_string net config ≡ some s)
        × (G.node_count s.graph ≡ 1)
        × (length s.queue ≡ 1)
        × (G.edge_count s.graph ≡ 0)
  unfolding begin
  begin-Ends room =
      let m = initial_marking net in
      let (n, makes) =
        state_node-Returns net wf 0 m config.include_zero_tokens (Reach-Fits net wf here) in
      let (g, i, adds) = G.add_node-total G.empty n (omega (arith, G.node_count-empty)) in
      let (nodes, edges, _) = G.add_node-count G.empty n g i adds in
      (
        record {
          graph = g;
          initial = i;
          deadlocks = [];
          truncated = false;
          failures = [];
          markings = (m, i) ∷ [];
          queue = i ∷ [];
        },
        rw (makes, adds),
        omega (arith, G.node_count-empty),
        refl,
        omega (arith, G.edge_count-empty),
      )

with_config_standard_lem :
    (G : StableGraph StateNode StateEdge) (to_string : FireError → String) (net : Net)
    (config : StateGraphConfig) (fuel : ℕ) (s s' : Search G to_string)
    → begin G to_string net config ≡ some s
    → explore G to_string net config fuel s ≡ done s'
    → with_config_standard G to_string net config fuel ≡ done s'
unfolding with_config_standard
with_config_standard_lem G to_string net config fuel s s' begins ends =
    rw (with_config_standard, begins) ends

-- For a well-formed net and a state limit, let `most` be the limit, or 1 if it is 0. If the index
-- type of the graph has room for `most` nodes and for `most` times as many edges as the net has
-- transitions, then with fuel for more than `most` rounds the construction ends without a panic, in a
-- graph of at most `most` nodes.
pub with_config_standard-returns :
    (G : StableGraph StateNode StateEdge) (to_string : FireError → String) (net : Net)
    (config : StateGraphConfig) (ceiling most fuel : ℕ)
    → IsWf net
    → config.state_limit ≡ some ceiling
    → most ≡ max ceiling 1
    → most ≤ G.index_limit
    → most * transitions_len net ≤ G.index_limit
    → most < fuel
    → (s : Search G to_string) × (with_config_standard G to_string net config fuel ≡ done s)
      × (G.node_count s.graph ≤ most)
with_config_standard-returns G to_string net config ceiling most fuel wf capped e nodes edges
      enough =
    let indexed : ceiling ≤ G.index_limit = omega arith in
    let (s, begins, one, single, zero_edges) =
      begin-Ends G to_string net config wf ceiling capped indexed (omega arith) in
    let (s', ends, bound) =
      explore-Ends G to_string net config wf ceiling capped indexed most most fuel s (omega arith)
        (begin-Inv G to_string net config s begins) (omega arith) (omega arith) (omega arith)
        enough in
    (s', with_config_standard_lem G to_string net config fuel s s' begins ends, bound)
