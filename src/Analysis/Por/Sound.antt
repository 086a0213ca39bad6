-- ===== src/Analysis/Por/Sound.antt =====
-- src/analysis/reachability.rs: each step of `with_config_por` keeps what the search knows right.
use rust_pta.Prelude.{ℕ, ◌≡◌, refl, sym, ◌∙◌, ap, subst, inl, inr, none, some, true}
use rust_pta.Prelude.{
  List, [], ◌∷◌, ◌++◌, length, length-append, mem-append, String, arith, get_elem?,
}
use rust_pta.Prelude.{>>=-eq-some, some_inj, Bool-cases, Option-cases, for_each}
use rust_pta.Net.IndexVec.{TransitionId}
use rust_pta.Net.Structure.{Marking}
use rust_pta.Net.Core.{Net, FireError, Result, ok, err, fire_transition}
use rust_pta.Analysis.Graph.{StableGraph}
use rust_pta.Analysis.Snapshot.{StateNode, StateEdge}
use rust_pta.Analysis.Reachability.{
  Search, StateGraphConfig, find, discover, connect, record_failure, at_limit,
}
use rust_pta.Analysis.Reachability.Spec.{step, At, IsSound, Grows, Grows-refl, Grows-trans}
use rust_pta.Analysis.Reachability.Discover.{discover-Discovered}
use rust_pta.Analysis.Reachability.Connect.{Stepped, connect-Stepped, idle-Stepped}
use rust_pta.Analysis.Por.{
  Set, SetOrder, PorSearch, intersection, set_eq, sleep_of, revisit, put_sleep, por_connect,
  por_vacant, por_enter, por_handle, por_fire_one, next_sleep,
}

module _ (G : StableGraph StateNode StateEdge) (to_string : FireError → String) (order : SetOrder)
    (net : Net) (config : StateGraphConfig) where
  abbrev S : Type 0
  S = PorSearch G to_string

  -- The two queues have one length.
  abbrev pub Paired : S → Type 0
  Paired s = length s.found.queue ≡ length s.sleeps

  -- A step keeps what is known right, forgets nothing and keeps the queues paired.
  pub record Advances (s s' : S) : Type 0 where
    pub sound : IsSound G to_string net s'.found
    pub grows : Grows G to_string s.found s'.found
    pub paired : Paired s → Paired s'

  pub Advances-trans : {s t u : S} → Advances s t → Advances t u → Advances s u
  Advances-trans a b = record {
    sound = b.sound;
    grows = Grows-trans G to_string a.grows b.grows;
    paired = λ p. b.paired (a.paired p);
  }

  pub Advances-refl : (s : S) → IsSound G to_string net s.found → Advances s s
  Advances-refl s sound = record {
    sound = sound;
    grows = Grows-refl G to_string s.found;
    paired = λ p. p;
  }

  pub connect-queue :
      (i : ℕ) (t : TransitionId) (m : Marking) (s s' : Search G to_string) (j : ℕ)
      → connect G to_string net config i t m (s, j) ≡ some s'
      → s'.queue ≡ s.queue
  unfolding connect
  connect-queue i t m s s' j e = ground arith

  pub discover-queue :
      (m : Marking) (s : Search G to_string) (r : Search G to_string × ℕ)
      → discover G to_string net config s m ≡ some r
      → (r.0).queue ≡ s.queue ++ r.1 ∷ []
  unfolding discover
  discover-queue m s r e = ground arith

  record_failure-queue :
      (i : ℕ) (t : TransitionId) (x : FireError) (s s' : Search G to_string)
      → record_failure G to_string net config i t x s ≡ some s'
      → s'.queue ≡ s.queue
  unfolding record_failure
  record_failure-queue i t x s s' e = ground arith

  -- A node that is queued again.
  requeued :
      (s : Search G to_string) (j : ℕ) (m : Marking)
      → IsSound G to_string net s
      → At G to_string s j m
      → IsSound G to_string net (record s { queue = s.queue ++ j ∷ [] })
  requeued s j m sound at = record {
    start = sound.start;
    found = sound.found;
    known = sound.known;
    reached = sound.reached;
    linked = sound.linked;
    dead = sound.dead;
    queued = λ k mem. elim ((mem-append k s.queue (j ∷ [])).0 mem) [
      | inl old ↦ sound.queued k old
      | inr (inl here) ↦ (m, subst (λ i. At G to_string s i m) (sym here) at)
      | inr (inr no_mem) ↦ absurd no_mem
    ];
  }

  requeued-Grows :
      (s : Search G to_string) (j : ℕ)
      → Grows G to_string s (record s { queue = s.queue ++ j ∷ [] })
  requeued-Grows s j = record {
    nodes = λ i m h. h;
    edges = λ x h. h;
    truncated = λ h. h;
    deadlocks = λ i h. h;
    queue = λ i h. (mem-append i s.queue (j ∷ [])).1 (inl h);
    fresh = λ i m h. inl h;
  }

  one_more :
      {A B : Type 0} (xs : List A) (ys : List B) (x : A) (y : B)
      → length xs ≡ length ys
      → length (xs ++ x ∷ []) ≡ length (ys ++ y ∷ [])
  one_more xs ys x y e = omega (arith, length-append xs (x ∷ []), length-append ys (y ∷ []))

  pub revisit-Advances :
      (s : S) (j : ℕ) (m : Marking) (z : Set)
      → IsSound G to_string net s.found
      → At G to_string s.found j m
      → Advances s (revisit G to_string order net config s j z)
  unfolding revisit
  revisit-Advances s j m z sound at =
      let old = sleep_of s.sleep_sets j in
      elim (Bool-cases (set_eq (intersection old z) old)) [
        | inl same ↦ rw same (Advances-refl s sound)
        | inr shrinks ↦ rw shrinks (record {
          sound = requeued s.found j m sound at;
          grows = requeued-Grows s.found j;
          paired = one_more s.found.queue s.sleeps j (intersection old z);
        })
      ]

  module _ (i : ℕ) (m : Marking) (t : TransitionId) where
    failure-Stepped :
        (s s' : Search G to_string) (e : FireError)
        → IsSound G to_string net s
        → record_failure G to_string net config i t e s ≡ some s'
        → fire_transition net m t ≡ some (err e)
        → Stepped G to_string net config i m t s s'
    unfolding record_failure
    failure-Stepped s s' e sound h fires =
        let (transition, _, h') = >>=-eq-some (get_elem? net.transitions t) _ h in
        subst (Stepped G to_string net config i m t s) (some_inj h') (
          idle-Stepped G to_string net config i m t s _ sound refl refl refl refl refl (λ cut. cut)
            (λ next fires'. cc))

    -- An edge is added between nodes that are there.
    por_connect-Advances :
        (s s' : S) (j : ℕ) (next : Marking)
        → IsSound G to_string net s.found
        → At G to_string s.found i m
        → At G to_string s.found j next
        → fire_transition net m t ≡ some (ok next)
        → por_connect G to_string order net config i t m j s ≡ some s'
        → Advances s s'
    unfolding por_connect
    por_connect-Advances s s' j next sound at_i at_j fires h =
        let (found, links, h') =
          >>=-eq-some (connect G to_string net config i t m (s.found, j)) _ h in
        let c =
          connect-Stepped G to_string net config i m t s.found found j next sound at_i at_j fires
            links in
        subst (Advances s) (some_inj h') (record {
          sound = c.sound;
          grows = c.grows;
          paired = λ p. ap length (connect-queue i t m s.found found j links) ∙ p;
        })

    por_vacant-Advances :
        (s s' : S) (next : Marking) (z : Set)
        → IsSound G to_string net s.found
        → At G to_string s.found i m
        → fire_transition net m t ≡ some (ok next)
        → find s.found.markings next ≡ none
        → por_vacant G to_string order net config i t m next z s ≡ some s'
        → Advances s s'
    unfolding por_vacant
    por_vacant-Advances s s' next z sound at_i fires new h =
        elim (Bool-cases (at_limit config.state_limit (G.node_count s.found.graph))) [
          | inl cut ↦
              let c =
                idle-Stepped G to_string net config i m t s.found
                  (record s.found { truncated = true }) sound refl refl refl refl refl (λ _. refl)
                  (λ next' fires'. inl refl) in
              subst (Advances s) (some_inj (rw cut at h))
                (record { sound = c.sound; grows = c.grows; paired = λ p. p })
          | inr room ↦
              let (r, finds, links) =
                >>=-eq-some (discover G to_string net config s.found next) _ (rw room at h) in
              let d =
                discover-Discovered G to_string net config s.found next r sound
                  (step t (sound.reached i m at_i) fires) new finds in
              let mid : S = record {
                found = r.0;
                sleeps = s.sleeps ++ z ∷ [];
                sleep_sets = put_sleep s.sleep_sets r.1 z;
              } in
              let entered : Advances s mid = record {
                sound = d.sound;
                grows = d.grows;
                paired = λ p.
                    ap length (discover-queue next s.found r finds)
                    ∙ one_more s.found.queue s.sleeps r.1 z p;
              } in
              Advances-trans entered (
                por_connect-Advances mid s' r.1 next d.sound (d.grows.nodes i m at_i) d.at fires
                  links)
        ]

    por_enter-Advances :
        (s s' : S) (next : Marking) (z : Set)
        → IsSound G to_string net s.found
        → At G to_string s.found i m
        → fire_transition net m t ≡ some (ok next)
        → por_enter G to_string order net config i t m next z s ≡ some s'
        → Advances s s'
    unfolding por_enter
    por_enter-Advances s s' next z sound at_i fires h =
        elim (Option-cases (find s.found.markings next)) [
          | inl new ↦
              por_vacant-Advances s s' next z sound at_i fires new (rw (new, por_enter) at h)
          | inr (j, old) ↦
              let at_j = sound.found next j old in
              let a = revisit-Advances s j next z sound at_j in
              Advances-trans a (
                por_connect-Advances (revisit G to_string order net config s j z) s' j next a.sound
                  (a.grows.nodes i m at_i) (a.grows.nodes j next at_j) fires
                  (rw (old, por_enter) at h))
        ]

    por_handle-Advances :
        (enabled sleep : Set) (s s' : S) (r : Result Marking)
        → IsSound G to_string net s.found
        → At G to_string s.found i m
        → fire_transition net m t ≡ some r
        → por_handle G to_string order net config i t m enabled sleep s r ≡ some s'
        → Advances s s'
    unfolding por_handle
    por_handle-Advances enabled sleep s s' (err e) sound at_i fires h =
        let (found, notes, h') =
          >>=-eq-some (record_failure G to_string net config i t e s.found) _ h in
        let c = failure-Stepped s.found found e sound notes fires in
        subst (Advances s) (some_inj h') (record {
          sound = c.sound;
          grows = c.grows;
          paired = λ p. ap length (record_failure-queue i t e s.found found notes) ∙ p;
        })
    por_handle-Advances enabled sleep s s' (ok next) sound at_i fires h =
        let (z, sleeps, h') =
          >>=-eq-some (next_sleep G to_string order net config enabled sleep t next) _ h in
        por_enter-Advances s s' next z sound at_i fires h'

    pub por_fire_one-Advances :
        (enabled sleep : Set) (s s' : S)
        → IsSound G to_string net s.found
        → At G to_string s.found i m
        → por_fire_one G to_string order net config i m enabled sleep s t ≡ some s'
        → Advances s s'
    unfolding por_fire_one
    por_fire_one-Advances enabled sleep s s' sound at_i h =
        let (r, fires, h') = >>=-eq-some (fire_transition net m t) _ h in
        por_handle-Advances enabled sleep s s' r sound at_i fires h'

  pub for_each-Advances :
      (i : ℕ) (m : Marking) (enabled sleep : Set) (ts : List TransitionId) (s s' : S)
      → IsSound G to_string net s.found
      → At G to_string s.found i m
      → for_each (por_fire_one G to_string order net config i m enabled sleep) s ts ≡ some s'
      → Advances s s'
  unfolding for_each
  for_each-Advances i m enabled sleep [] s s' sound at_i h =
      subst (Advances s) (some_inj h) (Advances-refl s sound)
  for_each-Advances i m enabled sleep (t ∷ ts) s s' sound at_i h =
      let (s1, first, rest) =
        >>=-eq-some (por_fire_one G to_string order net config i m enabled sleep s t) _ h in
      let a = por_fire_one-Advances i m t enabled sleep s s1 sound at_i first in
      Advances-trans a
        (for_each-Advances i m enabled sleep ts s1 s' a.sound (a.grows.nodes i m at_i) rest)
