-- ===== src/Analysis/Reachability/Correct.antt =====
-- src/analysis/reachability.rs: the finished state graph is the reachability graph of the net.
use rust_pta.Prelude.{
  ℕ, zero, suc, ◌<◌, ◌≡◌, refl, sym, ◌∙◌, subst, inl, inr, ◌↔◌, some, false, List, [], ◌∷◌, ◌∈◌,
}
use rust_pta.Prelude.{
  ap, ◌≢◌, String, lt-or-eq-or-gt, arith, >>=-eq-some, some_inj, Option-cases, List-cases,
}
use rust_pta.Net.IndexVec.{TransitionId}
use rust_pta.Net.Structure.{Marking}
use rust_pta.Net.Core.{
  Net, FireError, ok, initial_marking, enabled_transitions, fire_transition, transitions_len,
}
use rust_pta.Net.Core.Build.{IsWf}
use rust_pta.Net.Core.Enabled.{Enabled, enabled_transitions-Selects}
use rust_pta.Analysis.Graph.{StableGraph}
use rust_pta.Analysis.Snapshot.{StateNode, StateEdge, state_node, state_node-marking}
use rust_pta.Analysis.Reachability.{
  find, Search, StateGraphConfig, done, expand, explore, begin, with_config_standard,
}
use rust_pta.Analysis.Reachability.Map.{find-nil, find-cons_self, find-cons_ne, marking-cases}
use rust_pta.Analysis.Reachability.Spec.{Reach, here, step, At, At-unique, Expanded}
use rust_pta.Analysis.Reachability.Round.{Inv, Reach-Fits, expand-Inv}

pub only_empty : (ts : List ℕ) → ((t : ℕ) → ¬ (t ∈ ts)) → ts ≡ []
only_empty [] h = refl
only_empty (t ∷ ts) h = absurd (h t (inl refl))

module _ (G : StableGraph StateNode StateEdge) (to_string : FireError → String) (net : Net)
    (config : StateGraphConfig) where
  abbrev S : Type 0
  S = Search G to_string

  explore-Inv :
      (fuel : ℕ) (s s' : S)
      → IsWf net
      → Inv G to_string net config s
      → explore G to_string net config fuel s ≡ done s'
      → Inv G to_string net config s' × (s'.queue ≡ [])
  unfolding explore
  explore-Inv zero s s' wf inv h = cc
  explore-Inv (suc fuel) s s' wf inv h = elim (List-cases s.queue) [
    | inl empty ↦
        let same : s ≡ s' = ground arith in
        (subst (Inv G to_string net config) same inv, subst (λ (u : S). u.queue ≡ []) same empty)
    | inr (i, rest, pops) ↦
        elim (Option-cases (expand G to_string net config i (record s { queue = rest }))) [
          | inl fails ↦ absurd (ground arith)
          | inr (mid, runs) ↦
              explore-Inv fuel mid s' wf
                (expand-Inv G to_string net config i rest s mid wf inv pops runs)
                (rw (pops, explore, runs) at h)
        ]
  ]

  module _ (n : StateNode) (g : G.Graph) (i : ℕ) (marking : n.marking ≡ initial_marking net)
      (add : G.add_node G.empty n ≡ some (g, i)) where
    abbrev first : S
    first = record {
      graph = g;
      initial = i;
      deadlocks = [];
      truncated = false;
      failures = [];
      markings = (initial_marking net, i) ∷ [];
      queue = i ∷ [];
    }

    only : (k : ℕ) (m : Marking) → At G to_string first k m → (k ≡ i) × (m ≡ initial_marking net)
    only k m (x, e, em) =
        let (free, self, others) = G.add_node-node G.empty n g i add in
        let nothing : k ≢ i → ⊥ = λ ne. cc (sym (others k ne ∙ G.node-empty k) ∙ e) in
        elim (lt-or-eq-or-gt k i) [
          | inl below ↦ absurd (nothing (omega arith))
          | inr (inl same) ↦ (same, ground (arith, self))
          | inr (inr above) ↦ absurd (nothing (omega arith))
        ]

    At-first : At G to_string first i (initial_marking net)
    At-first = (n, (G.add_node-node G.empty n g i add).1, marking)

    found_first : (m : Marking) (k : ℕ) → find first.markings m ≡ some k → At G to_string first k m
    found_first m k e = elim (marking-cases (initial_marking net) m) [
      | inl same ↦
          let at_i : i ≡ k =
            some_inj (sym (rw (← same) (find-cons_self [] (initial_marking net) i)) ∙ e) in
          subst (λ j. At G to_string first j m) at_i (subst (At G to_string first i) same At-first)
      | inr ne ↦ absurd (cc (sym (find-cons_ne [] (initial_marking net) m i ne ∙ find-nil m) ∙ e))
    ]

    no_edges : (x : ℕ × ℕ × StateEdge) → ¬ (x ∈ G.edges g)
    no_edges x mem =
        let (_, _, same) = G.add_node-count G.empty n g i add in
        subst (λ es. x ∈ es) (same ∙ G.edges-empty) mem

    first-Inv : Inv G to_string net config first
    first-Inv = record {
      sound = record {
        start = At-first;
        found = found_first;
        known = λ k m at. let (a, b) = only k m at in rw (a, b) (find-cons_self [] _ i);
        reached = λ k m at. rw ((only k m at).1) here;
        linked = λ x mem. absurd (no_edges x mem);
        dead = λ k mem. absurd mem;
        queued = λ k mem. elim mem [
          | inl same ↦ (initial_marking net, rw same At-first)
          | inr no_mem ↦ absurd no_mem
        ];
      };
      frontier = λ k m at. inl (inl (only k m at).0);
    }

  pub begin-Inv : (s : S) → begin G to_string net config ≡ some s → Inv G to_string net config s
  unfolding begin
  begin-Inv s h =
      let m = initial_marking net in
      let zero_tokens = config.include_zero_tokens in
      let (n, e, h1) = >>=-eq-some (state_node 0 m net zero_tokens) _ h in
      let ((g, i), add, h2) = >>=-eq-some (G.add_node G.empty n) _ h1 in
      subst (Inv G to_string net config) (some_inj h2)
        (first-Inv n g i (state_node-marking 0 m net zero_tokens n e) add)

  -- A finished search satisfies the invariant, and nothing waits.
  pub run-Inv :
      (fuel : ℕ) (s : S)
      → IsWf net
      → with_config_standard G to_string net config fuel ≡ done s
      → Inv G to_string net config s × (s.queue ≡ [])
  unfolding with_config_standard
  run-Inv fuel s wf h = elim (Option-cases (begin G to_string net config)) [
    | inl fails ↦ absurd (ground arith)
    | inr (s0, begins) ↦
        explore-Inv fuel s0 s wf (begin-Inv s0 begins) (rw (begins, with_config_standard) at h)
  ]

  pub all-Expanded :
      (fuel : ℕ) (s : S)
      → IsWf net
      → with_config_standard G to_string net config fuel ≡ done s
      → (i : ℕ) (m : Marking) → At G to_string s i m
      → Expanded G to_string net s i m
  all-Expanded fuel s wf h i m at =
      let (inv, empty) = run-Inv fuel s wf h in
      elim (inv.frontier i m at) [ inl waits ↦ absurd (subst (λ q. i ∈ q) empty waits) | inr x ↦ x ]

-- Whatever the limit, when the construction for a well-formed net ends, each marking of its map is
-- reachable by firings from the initial marking and is the marking of the node that the map gives
-- it, and no two nodes have the same marking.
pub with_config_standard_sound :
    (G : StableGraph StateNode StateEdge) (to_string : FireError → String) (net : Net)
    (config : StateGraphConfig) (fuel : ℕ) (s : Search G to_string)
    → IsWf net
    → with_config_standard G to_string net config fuel ≡ done s
    → ((m : Marking) (i : ℕ) → (find s.markings m ≡ some i) ↔ At G to_string s i m)
      × ((m : Marking) (i j : ℕ) → At G to_string s i m × At G to_string s j m → i ≡ j)
      × ((m : Marking) (i : ℕ) → find s.markings m ≡ some i → Reach net m)
with_config_standard_sound G to_string net config fuel s wf h =
    let (inv, _) = run-Inv G to_string net config fuel s wf h in
    (
      λ m i. (inv.sound.found m i, inv.sound.known i m),
      λ m i j (a, b). some_inj (sym (inv.sound.known i m a) ∙ inv.sound.known j m b),
      λ m i e. inv.sound.reached i m (inv.sound.found m i e),
    )

-- When the construction for a well-formed net ends and was not cut off at the state limit, every
-- marking that firings reach from the initial one has a node.
pub with_config_standard_complete :
    (G : StableGraph StateNode StateEdge) (to_string : FireError → String) (net : Net)
    (config : StateGraphConfig) (fuel : ℕ) (s : Search G to_string)
    → IsWf net
    → with_config_standard G to_string net config fuel ≡ done s
    → s.truncated ≡ false
    → {m : Marking} → Reach net m
    → (i : ℕ) × (find s.markings m ≡ some i)
with_config_standard_complete G to_string net config fuel s wf h whole here =
    let (inv, _) = run-Inv G to_string net config fuel s wf h in
    (s.initial, inv.sound.known s.initial (initial_marking net) inv.sound.start)
with_config_standard_complete G to_string net config fuel s wf h whole (step {m} {next} t r fires) =
    let (inv, _) = run-Inv G to_string net config fuel s wf h in
    let (i, e) = with_config_standard_complete G to_string net config fuel s wf h whole r in
    let x = all-Expanded G to_string net config fuel s wf h i m (inv.sound.found m i e) in
    elim (x.covered t next fires) [
      | inl cut ↦ absurd (cc (sym whole ∙ cut))
      | inr (j, edge, at, _, _) ↦ (j, inv.sound.known j next at)
    ]

-- When the construction for a well-formed net ends and was not cut off, there is an edge labelled
-- with a transition between two nodes exactly when firing it leads from the one marking to the other.
pub with_config_standard-edges :
    (G : StableGraph StateNode StateEdge) (to_string : FireError → String) (net : Net)
    (config : StateGraphConfig) (fuel : ℕ) (s : Search G to_string)
    → IsWf net
    → with_config_standard G to_string net config fuel ≡ done s
    → s.truncated ≡ false
    → (i j : ℕ) (m next : Marking) → At G to_string s i m
    → At G to_string s j next
    → (t : TransitionId)
    → (fire_transition net m t ≡ some (ok next))
      ↔ ((e : StateEdge) × ((i, j, e) ∈ G.edges s.graph) × (e.transition.id ≡ t))
with_config_standard-edges G to_string net config fuel s wf h whole i j m next at_i at_j t =
    let (inv, _) = run-Inv G to_string net config fuel s wf h in
    (
      λ fires.
          elim ((all-Expanded G to_string net config fuel s wf h i m at_i).covered t next fires) [
            | inl cut ↦ absurd (cc (sym whole ∙ cut))
            | inr (k, e, at_k, mem, id) ↦
                let same : k ≡ j =
                  some_inj (sym (inv.sound.known k next at_k) ∙ inv.sound.known j next at_j) in
                (e, subst (λ l. (i, l, e) ∈ G.edges s.graph) same mem, id)
          ],
      λ (e, mem, id).
          let (m1, m2, a, b, fires) = inv.sound.linked (i, j, e) mem in
          let same1 = At-unique G to_string s i m1 m a at_i in
          let same2 = At-unique G to_string s j m2 next b at_j in rw (← id, ← same1, ← same2) fires,
    )

-- Whatever the limit, when the construction for a well-formed net ends, a node is among the
-- deadlocks exactly when no transition of the net has all its input tokens under its marking.
pub with_config_standard-deadlocks :
    (G : StableGraph StateNode StateEdge) (to_string : FireError → String) (net : Net)
    (config : StateGraphConfig) (fuel : ℕ) (s : Search G to_string)
    → IsWf net
    → with_config_standard G to_string net config fuel ≡ done s
    → (i : ℕ) (m : Marking) → At G to_string s i m
    → (i ∈ s.deadlocks) ↔ ((t : TransitionId) → t < transitions_len net → ¬ Enabled net m t)
with_config_standard-deadlocks G to_string net config fuel s wf h i m at =
    let (inv, _) = run-Inv G to_string net config fuel s wf h in
    let fits = Reach-Fits net wf (inv.sound.reached i m at) in
    let (ts, lists, sel) = enabled_transitions-Selects net m wf fits in
    let x = all-Expanded G to_string net config fuel s wf h i m at in
    (
      λ mem t ht on.
          let (m', at', none_enabled) = inv.sound.dead i mem in
          let same = At-unique G to_string s i m' m at' at in
          let empty : ts ≡ [] =
            some_inj
              (sym lists ∙ subst (λ k. enabled_transitions net k ≡ some []) same none_enabled) in
          subst (λ us. t ∈ us) empty (sel.complete t (omega arith) ht on),
      λ dead. x.dead (
          lists
          ∙ ap some (only_empty ts (λ t mem. let (_, ht, on) = sel.sound t mem in dead t ht on))),
    )
