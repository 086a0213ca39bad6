-- ===== src/Analysis/Reachability/Spec.antt =====
-- src/analysis/reachability.rs: what a state of the search says about the net, and how one state
-- grows into another.
use rust_pta.Prelude.{subst, String, ℕ, ◌≡◌, ◌⊎◌, inl, inr, some, true, List, [], ◌∷◌, ◌∈◌}
use rust_pta.Net.IndexVec.{TransitionId}
use rust_pta.Net.Structure.{Marking}
use rust_pta.Net.Core.{Net, ok, FireError, initial_marking, enabled_transitions, fire_transition}
use rust_pta.Analysis.Graph.{StableGraph}
use rust_pta.Analysis.Snapshot.{StateNode, StateEdge}
use rust_pta.Analysis.Reachability.{find, Search}

-- The markings that firings lead to from the initial one.
pub data Reach (net : Net) : Marking → Type 0 where
  here : Reach net (initial_marking net)
  step :
      {m next : Marking} (t : TransitionId)
      → Reach net m
      → fire_transition net m t ≡ some (ok next)
      → Reach net next

module _ (G : StableGraph StateNode StateEdge) (to_string : FireError → String) where
  abbrev S : Type 0
  S = Search G to_string

  -- Node `i` of the graph stands for marking `m`.
  abbrev pub At : S → ℕ → Marking → Type 0
  At s i m = (n : StateNode) × (G.node s.graph i ≡ some n) × (n.marking ≡ m)

  pub At-unique : (s : S) (i : ℕ) (m m' : Marking) → At s i m → At s i m' → m ≡ m'
  At-unique s i m m' (n, e, em) (n', e', em') = cc

  module _ (net : Net) where
    -- An edge goes from the marking of its source to the one that its transition makes of it.
    abbrev pub Linked : S → ℕ × ℕ × StateEdge → Type 0
    Linked s (a, b, e) =
        (m : Marking) × (next : Marking) × At s a m
        × At s b next
        × (fire_transition net m e.transition.id ≡ some (ok next))

    -- What the search knows is right: the map and the graph agree, every node is reachable, every
    -- edge is a firing, and every deadlock enables nothing.
    pub record IsSound (s : S) : Type 0 where
      pub start : At s s.initial (initial_marking net)
      pub found : (m : Marking) (i : ℕ) → find s.markings m ≡ some i → At s i m
      pub known : (i : ℕ) (m : Marking) → At s i m → find s.markings m ≡ some i
      pub reached : (i : ℕ) (m : Marking) → At s i m → Reach net m
      pub linked : (x : ℕ × ℕ × StateEdge) → x ∈ G.edges s.graph → Linked s x
      pub dead :
          (i : ℕ)
          → i ∈ s.deadlocks
          → (m : Marking) × At s i m × (enabled_transitions net m ≡ some [])
      pub queued : (i : ℕ) → i ∈ s.queue → (m : Marking) × At s i m

    -- A successor of `m` by `t` has its edge, unless the search was cut off at the limit.
    abbrev pub Covered : S → ℕ → Marking → TransitionId → Type 0
    Covered s i m t =
        (next : Marking)
        → fire_transition net m t ≡ some (ok next)
        → (s.truncated ≡ true)
          ⊎ ((j : ℕ) × (e : StateEdge) × At s j next
              × ((i, j, e) ∈ G.edges s.graph)
              × (e.transition.id ≡ t))

    -- Node `i` with marking `m` has been expanded.
    pub record Expanded (s : S) (i : ℕ) (m : Marking) : Type 0 where
      pub covered : (t : TransitionId) → Covered s i m t
      pub dead : enabled_transitions net m ≡ some [] → i ∈ s.deadlocks

    -- Every node waits in `waiting` or has been expanded.
    abbrev pub Frontier : S → List ℕ → Type 0
    Frontier s waiting = (j : ℕ) (m : Marking) → At s j m → (j ∈ waiting) ⊎ Expanded s j m

  -- Nothing is forgotten, and what is new waits in the queue.
  pub record Grows (s s' : S) : Type 0 where
    pub nodes : (i : ℕ) (m : Marking) → At s i m → At s' i m
    pub edges : (x : ℕ × ℕ × StateEdge) → x ∈ G.edges s.graph → x ∈ G.edges s'.graph
    pub truncated : s.truncated ≡ true → s'.truncated ≡ true
    pub deadlocks : (i : ℕ) → i ∈ s.deadlocks → i ∈ s'.deadlocks
    pub queue : (i : ℕ) → i ∈ s.queue → i ∈ s'.queue
    pub fresh : (i : ℕ) (m : Marking) → At s' i m → At s i m ⊎ (i ∈ s'.queue)

  pub Grows-refl : (s : S) → Grows s s
  Grows-refl s = record {
    nodes = λ i m h. h;
    edges = λ x h. h;
    truncated = λ h. h;
    deadlocks = λ i h. h;
    queue = λ i h. h;
    fresh = λ i m h. inl h;
  }

  pub Grows-trans : {s t u : S} → Grows s t → Grows t u → Grows s u
  Grows-trans g h = record {
    nodes = λ i m a. h.nodes i m (g.nodes i m a);
    edges = λ x m. h.edges x (g.edges x m);
    truncated = λ e. h.truncated (g.truncated e);
    deadlocks = λ i m. h.deadlocks i (g.deadlocks i m);
    queue = λ i m. h.queue i (g.queue i m);
    fresh = λ i m a. elim (h.fresh i m a) [
      | inl old ↦ elim (g.fresh i m old) [ inl older ↦ inl older | inr q ↦ inr (h.queue i q) ]
      | inr q ↦ inr q
    ];
  }

  module _ (net : Net) where
    pub Covered-Grows :
        {s s' : S} (i : ℕ) (m : Marking) (t : TransitionId)
        → Grows s s'
        → Covered net s i m t
        → Covered net s' i m t
    Covered-Grows i m t g c next e = elim (c next e) [
      | inl cut ↦ inl (g.truncated cut)
      | inr (j, edge, at, mem, id) ↦ inr (j, edge, g.nodes j next at, g.edges _ mem, id)
    ]

    pub Expanded-Grows :
        {s s' : S} (i : ℕ) (m : Marking) → Grows s s' → Expanded net s i m → Expanded net s' i m
    Expanded-Grows i m g x = record {
      covered = λ t. Covered-Grows i m t g (x.covered t);
      dead = λ e. g.deadlocks i (x.dead e);
    }

    -- After the expansion of `i`, what waits is what the queue holds.
    pub Frontier-Grows :
        {s s' : S} (i : ℕ) (m : Marking)
        → At s i m
        → Frontier net s (i ∷ s.queue)
        → Grows s s'
        → Expanded net s' i m
        → Frontier net s' s'.queue
    Frontier-Grows {s} {s'} i m at f g x j m' at' = elim (g.fresh j m' at') [
      | inr q ↦ inl q
      | inl old ↦ elim (f j m' old) [
        | inl (inl same) ↦ inr (again j m' same old)
        | inl (inr q) ↦ inl (g.queue j q)
        | inr done ↦ inr (Expanded-Grows j m' g done)
      ]
    ]
      where
        again : (j : ℕ) (m' : Marking) → j ≡ i → At s j m' → Expanded net s' j m'
        again j m' same old =
            let at_i : At s i m' = subst (λ k. At s k m') same old in
            rw (same, At-unique s i m' m at_i at) x
