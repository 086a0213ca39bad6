-- ===== src/Analysis/Reachability/Connect.antt =====
-- src/analysis/reachability.rs: one enabled transition of the node that is expanded.
use rust_pta.Prelude.{ℕ, ◌≡◌, refl, sym, ◌∙◌, subst, inl, inr, Option, none, some, true, ◌∈◌}
use rust_pta.Prelude.{arith, >>=-eq-some, some_inj, String, get_elem?, Bool-cases, Option-cases}
use rust_pta.Net.IndexVec.{TransitionId}
use rust_pta.Net.Structure.{Marking}
use rust_pta.Net.Core.{Net, FireError, Result, ok, err, fire_transition}
use rust_pta.Analysis.Graph.{StableGraph}
use rust_pta.Analysis.Snapshot.{StateNode, StateEdge, state_edge, state_edge-id}
use rust_pta.Analysis.Reachability.{
  find, Search, StateGraphConfig, discover, connect, vacant, record_failure, handle, fire_one,
  at_limit,
}
use rust_pta.Analysis.Reachability.Spec.{step, At, IsSound, Grows, Grows-trans, Covered, Linked}
use rust_pta.Analysis.Reachability.Discover.{discover-Discovered}

module _ (G : StableGraph StateNode StateEdge) (to_string : FireError → String) (net : Net)
    (config : StateGraphConfig) (i : ℕ) (m : Marking) (t : TransitionId) where
  pub record Stepped (s s' : Search G to_string) : Type 0 where
    pub sound : IsSound G to_string net s'
    pub grows : Grows G to_string s s'
    pub covered : Covered G to_string net s' i m t

  module _ (s : Search G to_string) (j : ℕ) (next : Marking) (e : StateEdge) (g : G.Graph)
      (same : e.transition.id ≡ t) (add : G.add_edge s.graph i j e ≡ some g)
      (is_sound : IsSound G to_string net s) (at_i : At G to_string s i m)
      (at_j : At G to_string s j next) (fires : fire_transition net m t ≡ some (ok next)) where
    abbrev after : Search G to_string
    after = record s { graph = g }

    kept : (k : ℕ) (m' : Marking) → At G to_string s k m' → At G to_string after k m'
    kept k m' (n, e', em) = (n, G.add_edge-node s.graph i j e g add k ∙ e', em)

    back : (k : ℕ) (m' : Marking) → At G to_string after k m' → At G to_string s k m'
    back k m' (n, e', em) = (n, sym (G.add_edge-node s.graph i j e g add k) ∙ e', em)

    moved : (x : ℕ × ℕ × StateEdge) → Linked G to_string net s x → Linked G to_string net after x
    moved x (m1, m2, a, b, f) = (m1, m2, kept x.0 m1 a, kept x.1 m2 b, f)

    new_edge : Linked G to_string net after (i, j, e)
    new_edge = (m, next, kept i m at_i, kept j next at_j, rw same fires)

    linked : (x : ℕ × ℕ × StateEdge) → x ∈ G.edges g → Linked G to_string net after x
    linked x mem = elim ((G.add_edge-edges s.graph i j e g add x).0 mem) [
      | inl old ↦ moved x (is_sound.linked x old)
      | inr here ↦ subst (Linked G to_string net after) (sym here) new_edge
    ]

    added-Stepped : Stepped s after
    added-Stepped = record {
      sound = record {
        start = kept s.initial _ is_sound.start;
        found = λ m' k f. kept k m' (is_sound.found m' k f);
        known = λ k m' at. is_sound.known k m' (back k m' at);
        reached = λ k m' at. is_sound.reached k m' (back k m' at);
        linked = linked;
        dead = λ k mem. let (m', at, f) = is_sound.dead k mem in (m', kept k m' at, f);
        queued = λ k mem. let (m', at) = is_sound.queued k mem in (m', kept k m' at);
      };
      grows = record {
        nodes = kept;
        edges = λ x mem. (G.add_edge-edges s.graph i j e g add x).1 (inl mem);
        truncated = λ h. h;
        deadlocks = λ k mem. mem;
        queue = λ k mem. mem;
        fresh = λ k m' at. inl (back k m' at);
      };
      covered = λ next' fireafter.
          let here : next ≡ next' = ground (arith) in
          inr (
            j,
            e,
            subst (At G to_string after j) here (kept j next at_j),
            (G.add_edge-edges s.graph i j e g add (i, j, e)).1 (inr refl),
            same,
          );
    }

  pub connect-Stepped :
      (s s' : Search G to_string) (j : ℕ) (next : Marking)
      → IsSound G to_string net s
      → At G to_string s i m
      → At G to_string s j next
      → fire_transition net m t ≡ some (ok next)
      → connect G to_string net config i t m (s, j) ≡ some s'
      → Stepped s s'
  unfolding connect
  connect-Stepped s s' j next is_sound at_i at_j fires h =
      let (target, e1, h1) = >>=-eq-some (G.node s.graph j) _ h in
      let (e, e2, h2) = >>=-eq-some (state_edge net t m target.marking) _ h1 in
      let (g, e3, h3) = >>=-eq-some (G.add_edge s.graph i j e) _ h2 in
      subst (Stepped s) (some_inj h3) (
        added-Stepped s j next e g (state_edge-id net t m target.marking e e2) e3 is_sound at_i at_j
          fires)

  -- `r` is a panic or a step.
  abbrev StepsTo : Search G to_string → Option (Search G to_string) → Type 0
  StepsTo s r = (s' : Search G to_string) → r ≡ some s' → Stepped s s'

  -- A step that leaves the graph, the map, the deadlocks and the queue alone.
  pub idle-Stepped :
      (s s' : Search G to_string)
      → IsSound G to_string net s
      → s'.initial ≡ s.initial
      → s'.graph ≡ s.graph
      → s'.markings ≡ s.markings
      → s'.deadlocks ≡ s.deadlocks
      → s'.queue ≡ s.queue
      → (s.truncated ≡ true → s'.truncated ≡ true)
      → Covered G to_string net s' i m t
      → Stepped s s'
  idle-Stepped s s' is_sound initial graph markings deadlocks queue cut covered =
      let kept : (k : ℕ) (m' : Marking) → At G to_string s k m' → At G to_string s' k m' =
        λ k m' (n, e, em). (n, rw graph e, em) in
      let back : (k : ℕ) (m' : Marking) → At G to_string s' k m' → At G to_string s k m' =
        λ k m' (n, e, em). (n, rw (← graph) e, em) in
      record {
        sound = record {
          start = rw initial (kept s.initial _ is_sound.start);
          found = λ m' k f. kept k m' (is_sound.found m' k (rw (← markings) f));
          known = λ k m' at. rw markings (is_sound.known k m' (back k m' at));
          reached = λ k m' at. is_sound.reached k m' (back k m' at);
          linked = λ x mem.
              let (m1, m2, a, b, f) = is_sound.linked x (rw (← graph) mem) in
              (m1, m2, kept x.0 m1 a, kept x.1 m2 b, f);
          dead = λ k mem.
              let (m', at, f) = is_sound.dead k (rw (← deadlocks) mem) in (m', kept k m' at, f);
          queued =
              λ k mem. let (m', at) = is_sound.queued k (rw (← queue) mem) in (m', kept k m' at);
        };
        grows = record {
          nodes = kept;
          edges = λ x mem. rw graph mem;
          truncated = cut;
          deadlocks = λ k mem. rw deadlocks mem;
          queue = λ k mem. rw queue mem;
          fresh = λ k m' at. inl (back k m' at);
        };
        covered = covered;
      }

  vacant-Stepped :
      (s : Search G to_string) (next : Marking)
      → IsSound G to_string net s
      → At G to_string s i m
      → fire_transition net m t ≡ some (ok next)
      → find s.markings next ≡ none
      → StepsTo s (vacant G to_string net config i t m next s)
  unfolding vacant
  vacant-Stepped s next is_sound at_i fires new s' h =
      elim (Bool-cases (at_limit config.state_limit (G.node_count s.graph))) [
        | inl cut ↦ subst (Stepped s) (some_inj (rw cut at h)) (
            idle-Stepped s (record s { truncated = true }) is_sound refl refl refl refl refl
              (λ _. refl) (λ next' fires'. inl refl))
        | inr room ↦
            let (r, found, linked) =
              >>=-eq-some (discover G to_string net config s next) _ (rw room at h) in
            let d =
              discover-Discovered G to_string net config s next r is_sound
                (step t (is_sound.reached i m at_i) fires) new found in
            let c =
              connect-Stepped r.0 s' r.1 next d.sound (d.grows.nodes i m at_i) d.at fires linked in
            record {
              sound = c.sound;
              grows = Grows-trans G to_string d.grows c.grows;
              covered = c.covered;
            }
      ]

  handle-Stepped :
      (s : Search G to_string) (r : Result Marking)
      → IsSound G to_string net s
      → At G to_string s i m
      → fire_transition net m t ≡ some r
      → StepsTo s (handle G to_string net config i t m s r)
  unfolding handle record_failure
  handle-Stepped s (err e) is_sound at_i fires s' h =
      let (transition, _, h') = >>=-eq-some (get_elem? net.transitions t) _ h in
      subst (Stepped s) (some_inj h')
        (idle-Stepped s _ is_sound refl refl refl refl refl (λ cut. cut) (λ next fires'. cc))
  handle-Stepped s (ok next) is_sound at_i fires s' h = elim (Option-cases (find s.markings next)) [
    | inl new ↦ vacant-Stepped s next is_sound at_i fires new s' (rw (new, handle) at h)
    | inr (j, old) ↦
        connect-Stepped s s' j next is_sound at_i (is_sound.found next j old) fires
          (rw (old, handle) at h)
  ]

  pub fire_one-Stepped :
      (s : Search G to_string)
      → IsSound G to_string net s
      → At G to_string s i m
      → StepsTo s (fire_one G to_string net config i m s t)
  unfolding fire_one
  fire_one-Stepped s is_sound at_i s' h =
      let (r, fires, h') = >>=-eq-some (fire_transition net m t) _ h in
      handle-Stepped s r is_sound at_i fires s' h'
