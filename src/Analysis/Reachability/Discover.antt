-- ===== src/Analysis/Reachability/Discover.antt =====
-- src/analysis/reachability.rs: a new node keeps what the search knows right.
use rust_pta.Prelude.{ℕ, ◌≡◌, sym, ◌∙◌, subst, ◌⊎◌, inl, inr, none, some, [], ◌∷◌, ◌++◌, ◌∈◌}
use rust_pta.Prelude.{arith, >>=-eq-some, some_inj, mem-append, lt-or-eq-or-gt, String}
use rust_pta.Net.Structure.{Marking}
use rust_pta.Net.Core.{Net, FireError}
use rust_pta.Analysis.Graph.{StableGraph}
use rust_pta.Analysis.Snapshot.{StateNode, StateEdge, state_node, state_node-marking}
use rust_pta.Analysis.Reachability.{find, Search, StateGraphConfig, discover}
use rust_pta.Analysis.Reachability.Map.{find-cons_self, find-cons_ne, marking-cases}
use rust_pta.Analysis.Reachability.Spec.{Reach, At, IsSound, Grows}

module _ (G : StableGraph StateNode StateEdge) (to_string : FireError → String) (net : Net)
    (config : StateGraphConfig) where
  pub record Discovered (s : Search G to_string) (m : Marking) (r : Search G to_string × ℕ)
      : Type 0 where
    pub sound : IsSound G to_string net r.0
    pub grows : Grows G to_string s r.0
    pub at : At G to_string r.0 r.1 m

  module _ (s : Search G to_string) (m : Marking) (node : StateNode) (g : G.Graph) (i : ℕ)
      (same : node.marking ≡ m) (add : G.add_node s.graph node ≡ some (g, i))
      (is_sound : IsSound G to_string net s) (reach : Reach net m)
      (new : find s.markings m ≡ none) where
    abbrev s' : Search G to_string
    s' = record s { graph = g; markings = (m, i) ∷ s.markings; queue = s.queue ++ i ∷ [] }

    At-old : (j : ℕ) (m' : Marking) → At G to_string s j m' → At G to_string s' j m'
    At-old j m' (n, e, em) =
        let (free, self, others) = G.add_node-node s.graph node g i add in
        (n, others j (λ e'. cc) ∙ e, em)

    At-self : At G to_string s' i m
    At-self = (node, (G.add_node-node s.graph node g i add).1, same)

    At-new :
        (j : ℕ) (m' : Marking)
        → At G to_string s' j m'
        → At G to_string s j m' ⊎ ((j ≡ i) × (m' ≡ m))
    At-new j m' (n, e, em) =
        let (free, self, others) = G.add_node-node s.graph node g i add in
        elim (lt-or-eq-or-gt j i) [
          | inl below ↦ inl (n, sym (others j (omega arith)) ∙ e, em)
          | inr (inl at_i) ↦ inr (at_i, cc self)
          | inr (inr above) ↦ inl (n, sym (others j (omega arith)) ∙ e, em)
        ]

    found : (m' : Marking) (j : ℕ) → find s'.markings m' ≡ some j → At G to_string s' j m'
    found m' j e = elim (marking-cases m m') [
      | inl here ↦
          let at_i : i ≡ j = some_inj (sym (rw (← here) (find-cons_self s.markings m i)) ∙ e) in
          subst (λ k. At G to_string s' k m') at_i (subst (At G to_string s' i) here At-self)
      | inr ne ↦ At-old j m' (is_sound.found m' j (sym (find-cons_ne s.markings m m' i ne) ∙ e))
    ]

    known : (j : ℕ) (m' : Marking) → At G to_string s' j m' → find s'.markings m' ≡ some j
    known j m' at = elim (At-new j m' at) [
      | inr (at_i, here) ↦ rw (at_i, here) (find-cons_self s.markings m i)
      | inl old ↦
          let e = is_sound.known j m' old in
          find-cons_ne s.markings m m' i
            (λ here. cc (subst (λ k. find s.markings k ≡ none) here new))
          ∙ e
    ]

    pub added-Discovered : Discovered s m (s', i)
    added-Discovered =
        let edges = (G.add_node-count s.graph node g i add).2 in
        record {
          sound = record {
            start = At-old s.initial _ is_sound.start;
            found = found;
            known = known;
            reached = λ j m' at. elim (At-new j m' at) [
              | inl old ↦ is_sound.reached j m' old
              | inr (_, here) ↦ rw here reach
            ];
            linked = λ x mem.
                let (m1, m2, a, b, e) = is_sound.linked x (subst (λ es. x ∈ es) edges mem) in
                (m1, m2, At-old x.0 m1 a, At-old x.1 m2 b, e);
            dead = λ j mem. let (m', at, e) = is_sound.dead j mem in (m', At-old j m' at, e);
            queued = λ j mem. elim ((mem-append j s.queue (i ∷ [])).0 mem) [
              | inl old ↦ let (m', at) = is_sound.queued j old in (m', At-old j m' at)
              | inr (inl at_i) ↦ (m, rw at_i At-self)
              | inr (inr no_mem) ↦ absurd no_mem
            ];
          };
          grows = record {
            nodes = At-old;
            edges = λ x mem. subst (λ es. x ∈ es) (sym edges) mem;
            truncated = λ e. e;
            deadlocks = λ j mem. mem;
            queue = λ j mem. (mem-append j s.queue (i ∷ [])).1 (inl mem);
            fresh = λ j m' at. elim (At-new j m' at) [
              | inl old ↦ inl old
              | inr (at_i, _) ↦ inr ((mem-append j s.queue (i ∷ [])).1 (inr (inl at_i)))
            ];
          };
          at = At-self;
        }

  -- `discover` adds the one node that it should.
  pub discover-Discovered :
      (s : Search G to_string) (m : Marking) (r : Search G to_string × ℕ)
      → IsSound G to_string net s
      → Reach net m
      → find s.markings m ≡ none
      → discover G to_string net config s m ≡ some r
      → Discovered s m r
  unfolding discover
  discover-Discovered s m r is_sound reach new e =
      let count = G.node_count s.graph in
      let zero_tokens = config.include_zero_tokens in
      let (node, e1, e2) = >>=-eq-some (state_node count m net zero_tokens) _ e in
      let ((g, i), e3, e4) = >>=-eq-some (G.add_node s.graph node) _ e2 in
      subst (Discovered s m) (some_inj e4) (
        added-Discovered s m node g i (state_node-marking count m net zero_tokens node e1) e3
          is_sound reach new)
