-- ===== src/Analysis/Reachability/Round.antt =====
-- src/analysis/reachability.rs: one round of the search, and the search from its start.
use rust_pta.Prelude.{ℕ, ◌≡◌, refl, sym, ◌∙◌, subst, inl, inr, some, List, [], ◌∷◌, ◌∈◌}
use rust_pta.Prelude.{lt-or-eq-or-gt, arith, >>=-eq-some, some_inj, for_each, String, length-map}
use rust_pta.Net.IndexVec.{TransitionId}
use rust_pta.Net.Structure.{Marking}
use rust_pta.Net.Core.{Net, FireError, ok, initial_marking, enabled_transitions, fire_transition}
use rust_pta.Net.Core.Build.{IsWf}
use rust_pta.Net.Core.Enabled.{Fits, enabled_transitions-Selects}
use rust_pta.Net.Core.Fire.{fire-Fired}
use rust_pta.Analysis.Graph.{StableGraph}
use rust_pta.Analysis.Snapshot.{StateNode, StateEdge, update_enabled, update_enabled-marking}
use rust_pta.Analysis.Reachability.{Search, StateGraphConfig, insert, fire_one, fire_each, expand}
use rust_pta.Analysis.Reachability.Map.{mem-insert}
use rust_pta.Analysis.Reachability.Spec.{
  Reach, here, step, At, IsSound, Grows, Grows-refl, Grows-trans, Covered, Covered-Grows, Expanded,
  Frontier, Frontier-Grows,
}
use rust_pta.Analysis.Reachability.Connect.{fire_one-Stepped}

-- Every reachable marking has the size of the net.
pub Reach-Fits : (net : Net) → IsWf net → {m : Marking} → Reach net m → Fits net m
unfolding initial_marking
Reach-Fits net wf here = length-map _ net.places
Reach-Fits net wf (step {m} {next} t r e) =
    (fire-Fired net m t wf (Reach-Fits net wf r) next e).fits

module _ (G : StableGraph StateNode StateEdge) (to_string : FireError → String) (net : Net)
    (config : StateGraphConfig) where
  abbrev S : Type 0
  S = Search G to_string

  record SteppedAll (i : ℕ) (m : Marking) (ts : List TransitionId) (s s' : S) : Type 0 where
    sound : IsSound G to_string net s'
    grows : Grows G to_string s s'
    covered : (t : TransitionId) → t ∈ ts → Covered G to_string net s' i m t

  for_each-SteppedAll :
      (i : ℕ) (m : Marking) (ts : List TransitionId) (s s' : S)
      → IsSound G to_string net s
      → At G to_string s i m
      → for_each (fire_one G to_string net config i m) s ts ≡ some s'
      → SteppedAll i m ts s s'
  unfolding for_each
  for_each-SteppedAll i m [] s s' is_sound at h = subst (SteppedAll i m [] s) (some_inj h) (record {
    sound = is_sound;
    grows = Grows-refl G to_string s;
    covered = λ t no_mem. absurd no_mem;
  })
  for_each-SteppedAll i m (t ∷ ts) s s' is_sound at h =
      let (s1, first, rest) = >>=-eq-some (fire_one G to_string net config i m s t) _ h in
      let a = fire_one-Stepped G to_string net config i m t s is_sound at s1 first in
      let b = for_each-SteppedAll i m ts s1 s' a.sound (a.grows.nodes i m at) rest in
      record {
        sound = b.sound;
        grows = Grows-trans G to_string a.grows b.grows;
        covered = λ u. elim [
          | inl same ↦ rw same (Covered-Grows G to_string net i m t b.grows a.covered)
          | inr mem ↦ b.covered u mem
        ];
      }

  -- The state before the transitions of node `i` are fired: it left the queue, and its list of
  -- enabled transitions was written.
  module _ (s : S) (i : ℕ) (rest : List ℕ) (n n' : StateNode) (pops : s.queue ≡ i ∷ rest)
      (is_sound : IsSound G to_string net s) (at_i : G.node s.graph i ≡ some n)
      (same : n'.marking ≡ n.marking) where
    abbrev pub marked : S
    marked = record s { graph = G.set_node s.graph i n'; queue = rest }

    pub kept : (k : ℕ) (m : Marking) → At G to_string s k m → At G to_string marked k m
    kept k m (x, e, em) =
        let (self, others) = G.set_node-node s.graph i n n' at_i in
        elim (lt-or-eq-or-gt k i) [
          | inl below ↦ (x, others k (omega arith) ∙ e, em)
          | inr (inl here_i) ↦ (n', rw here_i self, ground arith)
          | inr (inr above) ↦ (x, others k (omega arith) ∙ e, em)
        ]

    pub back : (k : ℕ) (m : Marking) → At G to_string marked k m → At G to_string s k m
    back k m (x, e, em) =
        let (self, others) = G.set_node-node s.graph i n n' at_i in
        elim (lt-or-eq-or-gt k i) [
          | inl below ↦ (x, sym (others k (omega arith)) ∙ e, em)
          | inr (inl here_i) ↦ (n, rw here_i at_i, ground arith)
          | inr (inr above) ↦ (x, sym (others k (omega arith)) ∙ e, em)
        ]

    pub marked-IsSound : IsSound G to_string net marked
    marked-IsSound =
        let (_, _, edges) = G.set_node-same s.graph i n' in
        record {
          start = kept s.initial _ is_sound.start;
          found = λ m k f. kept k m (is_sound.found m k f);
          known = λ k m at. is_sound.known k m (back k m at);
          reached = λ k m at. is_sound.reached k m (back k m at);
          linked = λ x mem.
              let (m1, m2, a, b, f) = is_sound.linked x (subst (λ es. x ∈ es) edges mem) in
              (m1, m2, kept x.0 m1 a, kept x.1 m2 b, f);
          dead = λ k mem. let (m, at, f) = is_sound.dead k mem in (m, kept k m at, f);
          queued = λ k mem. let (m, at) = is_sound.queued k (rw pops (inr mem)) in (m, kept k m at);
        }

    marked-Frontier :
        Frontier G to_string net s s.queue → Frontier G to_string net marked (i ∷ marked.queue)
    marked-Frontier f k m at = elim (f k m (back k m at)) [
      | inl waits ↦ inl (rw pops at waits)
      | inr old ↦ inr (record {
        covered = λ t next fires. elim (old.covered t next fires) [
          | inl cut ↦ inl cut
          | inr (j, e, at_j, mem, id) ↦
              let (_, _, edges) = G.set_node-same s.graph i n' in
              inr (j, e, kept j next at_j, subst (λ es. (k, j, e) ∈ es) (sym edges) mem, id)
        ];
        dead = old.dead;
      })
    ]

  pub record Expands (i : ℕ) (m : Marking) (s s' : S) : Type 0 where
    pub sound : IsSound G to_string net s'
    pub grows : Grows G to_string s s'
    pub expanded : Expanded G to_string net s' i m

  -- A transition that fires is among the enabled ones.
  fires-enabled :
      (m next : Marking) (t : TransitionId) (ts : List TransitionId)
      → IsWf net
      → Fits net m
      → enabled_transitions net m ≡ some ts
      → fire_transition net m t ≡ some (ok next)
      → t ∈ ts
  fires-enabled m next t ts wf fits lists fires =
      let (ts', lists', sel) = enabled_transitions-Selects net m wf fits in
      let f = fire-Fired net m t wf fits next fires in
      subst (λ us. t ∈ us) (some_inj (sym lists' ∙ lists))
        (sel.complete t (omega arith) f.in_range f.enabled)

  -- No transition is enabled: the node is a deadlock.
  pub deadlock-Expands :
      (i : ℕ) (m : Marking) (s : S)
      → IsWf net
      → IsSound G to_string net s
      → At G to_string s i m
      → enabled_transitions net m ≡ some []
      → Expands i m s (record s { deadlocks = insert i s.deadlocks })
  deadlock-Expands i m s wf is_sound at none_enabled = record {
    sound = record {
      start = is_sound.start;
      found = is_sound.found;
      known = is_sound.known;
      reached = is_sound.reached;
      linked = is_sound.linked;
      dead = λ k mem. elim ((mem-insert i k s.deadlocks).0 mem) [
        | inl same ↦ (m, rw same at, none_enabled)
        | inr old ↦ is_sound.dead k old
      ];
      queued = is_sound.queued;
    };
    grows = record {
      nodes = λ k m' h. h;
      edges = λ x mem. mem;
      truncated = λ e. e;
      deadlocks = λ k mem. (mem-insert i k s.deadlocks).1 (inr mem);
      queue = λ k mem. mem;
      fresh = λ k m' h. inl h;
    };
    expanded = record {
      covered = λ t next fires. absurd (
          fires-enabled m next t [] wf (Reach-Fits net wf (is_sound.reached i m at)) none_enabled
            fires);
      dead = λ e. (mem-insert i i s.deadlocks).1 (inl refl);
    };
  }

  fire_each-Expands :
      (i : ℕ) (m : Marking) (ts : List TransitionId) (s s' : S)
      → IsWf net
      → IsSound G to_string net s
      → At G to_string s i m
      → enabled_transitions net m ≡ some ts
      → fire_each G to_string net config i m s ts ≡ some s'
      → Expands i m s s'
  unfolding fire_each
  fire_each-Expands i m [] s s' wf is_sound at lists h =
      subst (Expands i m s) (some_inj h) (deadlock-Expands i m s wf is_sound at lists)
  fire_each-Expands i m (t ∷ ts) s s' wf is_sound at lists h =
      let all = for_each-SteppedAll i m (t ∷ ts) s s' is_sound at h in
      record {
        sound = all.sound;
        grows = all.grows;
        expanded = record {
          covered = λ u next fires.
              all.covered u
                (fires-enabled m next u (t ∷ ts) wf (Reach-Fits net wf (is_sound.reached i m at))
                  lists fires)
                next fires;
          dead = λ e. absurd (cc);
        };
      }

  -- What holds between two rounds.
  pub record Inv (s : S) : Type 0 where
    pub sound : IsSound G to_string net s
    pub frontier : Frontier G to_string net s s.queue

  pub expand-Inv :
      (i : ℕ) (rest : List ℕ) (s s' : S)
      → IsWf net
      → Inv s
      → s.queue ≡ i ∷ rest
      → expand G to_string net config i (record s { queue = rest }) ≡ some s'
      → Inv s'
  unfolding expand
  expand-Inv i rest s s' wf inv pops h =
      let (n, at_i, h1) = >>=-eq-some (G.node s.graph i) _ h in
      let (ts, lists, h2) = >>=-eq-some (enabled_transitions net n.marking) _ h1 in
      let (n', writes, h3) = >>=-eq-some (update_enabled net ts n) _ h2 in
      let same = update_enabled-marking net ts n n' writes in
      let mid = marked s i rest n n' pops inv.sound at_i same in
      let at_mid = kept s i rest n n' pops inv.sound at_i same i n.marking (n, at_i, refl) in
      let x =
        fire_each-Expands i n.marking ts mid s' wf
          (marked-IsSound s i rest n n' pops inv.sound at_i same) at_mid lists h3 in
      record {
        sound = x.sound;
        frontier =
            Frontier-Grows G to_string net i n.marking at_mid
              (marked-Frontier s i rest n n' pops inv.sound at_i same inv.frontier) x.grows
              x.expanded;
      }
