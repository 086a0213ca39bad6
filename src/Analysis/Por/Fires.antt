-- ===== src/Analysis/Por/Fires.antt =====
-- src/analysis/reachability.rs: firing the transitions of a node in `with_config_por` does not panic.
use rust_pta.Prelude.{ℕ, ◌+◌, ◌≤◌, ◌<◌, ◌≡◌, refl, inl, inr, Option, some}
use rust_pta.Prelude.{
  List, [], ◌∷◌, ◌∈◌, length, String, arith, for_each, Option-cases, get_elem?-Returns,
}
use rust_pta.Net.IndexVec.{TransitionId}
use rust_pta.Net.Structure.{Marking}
use rust_pta.Net.Core.{Net, FireError, Result, ok, err, fire_transition, transitions_len}
use rust_pta.Net.Core.Build.{IsWf}
use rust_pta.Net.Core.Enabled.{Fits}
use rust_pta.Net.Core.Fire.{fire-total, fire-Fired}
use rust_pta.Analysis.Graph.{StableGraph}
use rust_pta.Analysis.Snapshot.{StateNode, StateEdge}
use rust_pta.Analysis.Reachability.{StateGraphConfig, find, record_failure}
use rust_pta.Analysis.Reachability.Spec.{At, IsSound}
use rust_pta.Analysis.Por.{Set, SetOrder, PorSearch, revisit, por_enter, por_handle, por_fire_one}
use rust_pta.Analysis.Por.Sound.{revisit-Advances, por_fire_one-Advances}
use rust_pta.Analysis.Por.Steps.{
  Spends, Ends, Spends-trans, edges, revisit-Spends, next_sleep-Ends, por_connect-Ends,
  por_vacant-Ends,
}

module _ (G : StableGraph StateNode StateEdge) (to_string : FireError → String) (order : SetOrder)
    (net : Net) (config : StateGraphConfig) (wf : IsWf net) (ceiling : ℕ)
    (capped : config.state_limit ≡ some ceiling) (indexed : ceiling ≤ G.index_limit) where
  abbrev S : Type 0
  S = PorSearch G to_string

  abbrev EndsIn : ℕ → S → Option S → Type 0
  EndsIn added s r = Ends G to_string order net config wf ceiling capped indexed added s r

  abbrev SpendsIn : ℕ → S → S → Type 0
  SpendsIn added s s' = Spends G to_string order net config wf ceiling capped indexed added s s'

  module _ (i : ℕ) (m : Marking) (t : TransitionId) (fits : Fits net m)
      (ht : t < transitions_len net) where
    por_enter-Ends :
        (s : S) (next : Marking) (z : Set)
        → IsSound G to_string net s.found
        → At G to_string s.found i m
        → fire_transition net m t ≡ some (ok next)
        → length z ≤ transitions_len net
        → edges G to_string order net config wf ceiling capped indexed s < G.index_limit
        → EndsIn 1 s (por_enter G to_string order net config i t m next z s)
    unfolding por_enter
    por_enter-Ends s next z sound at fires small room =
        elim (Option-cases (find s.found.markings next)) [
          | inl new ↦
              rw (new, por_enter)
                (por_vacant-Ends G to_string order net config wf ceiling capped indexed i m t fits
                  ht s next z sound at fires new small room)
          | inr (j, old) ↦
              let at_j = sound.found next j old in
              let a = revisit-Advances G to_string order net config s j next z sound at_j in
              let first =
                revisit-Spends G to_string order net config wf ceiling capped indexed s j z in
              let (s', links, second) =
                por_connect-Ends G to_string order net config wf ceiling capped indexed i m t fits
                  ht (revisit G to_string order net config s j z) j next (a.grows.nodes i m at)
                  (a.grows.nodes j next at_j) (fire-Fired net m t wf fits next fires).fits
                  (omega (arith, first.more_edges)) in
              (
                s',
                rw (old, por_enter) links,
                Spends-trans G to_string order net config wf ceiling capped indexed first second,
              )
        ]

    por_handle-Ends :
        (enabled sleep : Set) (s : S) (r : Result Marking)
        → ((u : TransitionId) → u ∈ enabled → u < transitions_len net)
        → IsSound G to_string net s.found
        → At G to_string s.found i m
        → fire_transition net m t ≡ some r
        → edges G to_string order net config wf ceiling capped indexed s < G.index_limit
        → EndsIn 1 s (por_handle G to_string order net config i t m enabled sleep s r)
    unfolding por_handle record_failure
    por_handle-Ends enabled sleep s (err e) valid sound at fires room =
        let (transition, there) = get_elem?-Returns net.transitions t ht in
        rw there
          (_, refl, record { spent = omega arith; within = λ b h h'. h'; more_edges = omega arith })
    por_handle-Ends enabled sleep s (ok next) valid sound at fires room =
        let (z, sleeps, small) =
          next_sleep-Ends G to_string order net config wf ceiling capped indexed enabled sleep t
            next ht valid (fire-Fired net m t wf fits next fires).fits in
        rw sleeps (por_enter-Ends s next z sound at fires small room)

    por_fire_one-Ends :
        (enabled sleep : Set) (s : S)
        → ((u : TransitionId) → u ∈ enabled → u < transitions_len net)
        → IsSound G to_string net s.found
        → At G to_string s.found i m
        → edges G to_string order net config wf ceiling capped indexed s < G.index_limit
        → EndsIn 1 s (por_fire_one G to_string order net config i m enabled sleep s t)
    unfolding por_fire_one
    por_fire_one-Ends enabled sleep s valid sound at room =
        let (r, fires) = fire-total net m t wf fits in
        rw fires (por_handle-Ends enabled sleep s r valid sound at fires room)

  pub for_each-Ends :
      (i : ℕ) (m : Marking) (enabled sleep : Set) (ts : List TransitionId) (s : S)
      → Fits net m
      → ((u : TransitionId) → u ∈ enabled → u < transitions_len net)
      → ((u : TransitionId) → u ∈ ts → u < transitions_len net)
      → IsSound G to_string net s.found
      → At G to_string s.found i m
      → edges G to_string order net config wf ceiling capped indexed s + length ts ≤ G.index_limit
      → EndsIn
          (length ts)
          s
          (for_each (por_fire_one G to_string order net config i m enabled sleep) s ts)
  unfolding for_each
  for_each-Ends i m enabled sleep [] s fits valid valid' sound at room =
      (s, refl, record { spent = omega arith; within = λ b h h'. h'; more_edges = omega arith })
  for_each-Ends i m enabled sleep (t ∷ ts) s fits valid valid' sound at room =
      let (s1, runs, first) =
        por_fire_one-Ends i m t fits (valid' t (inl refl)) enabled sleep s valid sound at
          (omega arith) in
      let a =
        por_fire_one-Advances G to_string order net config i m t enabled sleep s s1 sound at runs in
      let (s2, rest, second) =
        for_each-Ends i m enabled sleep ts s1 fits valid (λ u mem. valid' u (inr mem)) a.sound
          (a.grows.nodes i m at) (omega (arith, first.more_edges)) in
      (
        s2,
        rw (runs, for_each) rest,
        record {
          spent = omega (arith, first.spent, second.spent);
          within = λ b h h'. second.within b h (first.within b h h');
          more_edges = omega (arith, first.more_edges, second.more_edges);
        },
      )
