-- ===== src/Analysis/Por/Correct.antt =====
-- src/analysis/reachability.rs: what the state graph of `with_config_por` says of the net.
use rust_pta.Prelude.{
  ℕ, zero, suc, ◌≡◌, sym, ◌∙◌, ap, subst, inl, inr, ◌↔◌, some, [], ◌∷◌, ◌∈◌, ◌<◌,
}
use rust_pta.Prelude.{length, String, arith, some_inj, Option-cases}
use rust_pta.Net.IndexVec.{TransitionId}
use rust_pta.Net.Structure.{Marking}
use rust_pta.Net.Core.{Net, FireError, enabled_transitions, transitions_len}
use rust_pta.Net.Core.Build.{IsWf}
use rust_pta.Net.Core.Enabled.{Enabled, Fits, enabled_transitions-Selects}
use rust_pta.Analysis.Graph.{StableGraph}
use rust_pta.Analysis.Snapshot.{StateNode, StateEdge}
use rust_pta.Analysis.Reachability.{Search, StateGraphConfig, done, find, begin}
use rust_pta.Analysis.Reachability.Spec.{Reach, At, At-unique, Linked}
use rust_pta.Analysis.Reachability.Round.{Reach-Fits}
use rust_pta.Analysis.Reachability.Correct.{begin-Inv, only_empty}
use rust_pta.Analysis.Por.{SetOrder, PorSearch, por_round, por_explore, with_config_por}
use rust_pta.Analysis.Por.Round.{
  round-cases, Judged, PorInv, por_expand-PorInv, por_round-some, por_round-none,
}

-- Nothing is listed exactly when nothing is enabled.
nothing-Enabled :
    (net : Net) (m : Marking)
    → IsWf net
    → Fits net m
    → (enabled_transitions net m ≡ some [])
      ↔ ((t : TransitionId) → t < transitions_len net → ¬ Enabled net m t)
nothing-Enabled net m wf fits =
    let (ts, lists, sel) = enabled_transitions-Selects net m wf fits in
    (
      λ e t ht on.
          subst (λ us. t ∈ us) (some_inj (sym lists ∙ e)) (sel.complete t (omega arith) ht on),
      λ off.
          lists
          ∙ ap some (only_empty ts (λ t mem. let (_, ht, on) = sel.sound t mem in off t ht on)),
    )

module _ (G : StableGraph StateNode StateEdge) (to_string : FireError → String) (order : SetOrder)
    (net : Net) (config : StateGraphConfig) where
  abbrev S : Type 0
  S = PorSearch G to_string

  abbrev Inv : S → Type 0
  Inv s = PorInv G to_string order net config s

  por_explore-PorInv :
      (fuel : ℕ) (s s' : S)
      → IsWf net
      → Inv s
      → por_explore G to_string order net config fuel s ≡ done s'
      → Inv s' × (s'.found.queue ≡ [])
  unfolding por_explore
  por_explore-PorInv zero s s' wf inv h = absurd (ground arith)
  por_explore-PorInv (suc fuel) s s' wf inv h =
      elim (round-cases (por_round G to_string order net config s.found.queue s.sleeps s)) [
        | inl e ↦ absurd (ground arith)
        | inr (inl e) ↦ absurd (ground arith)
        | inr (inr (inl e)) ↦
            let same : s ≡ s' = ground arith in
            (
              subst Inv same inv,
              subst (λ (u : S). u.found.queue ≡ []) same
                  (por_round-none G to_string order net config s.found.queue s.sleeps s e),
            )
        | inr (inr (inr (s1, e))) ↦
            let (i, rest, sleep, others, pops, pops', runs) =
              por_round-some G to_string order net config s.found.queue s.sleeps s s1 e in
            por_explore-PorInv fuel s1 s' wf
              (por_expand-PorInv G to_string order net config i rest sleep others s s1 wf inv pops
                pops' runs)
              (rw (e, por_explore) at h)
      ]

  begin-queue :
      (found : Search G to_string)
      → begin G to_string net config ≡ some found
      → length found.queue ≡ 1
  unfolding begin
  begin-queue found e = ground arith

  pub por_begin-PorInv :
      (found : Search G to_string)
      → begin G to_string net config ≡ some found
      → Inv (record { found = found; sleeps = [] ∷ []; sleep_sets = [] })
  por_begin-PorInv found begins =
      let inv = begin-Inv G to_string net config found begins in
      record {
        sound = inv.sound;
        waits = λ j m at. elim (inv.frontier j m at) [ inl w ↦ inl w | inr x ↦ inr x.dead ];
        paired = begin-queue found begins;
      }

  pub por_run-PorInv :
      (fuel : ℕ) (s : S)
      → IsWf net
      → with_config_por G to_string order net config fuel ≡ done s
      → Inv s × (s.found.queue ≡ [])
  unfolding with_config_por
  por_run-PorInv fuel s wf h = elim (Option-cases (begin G to_string net config)) [
    | inl fails ↦ absurd (ground arith)
    | inr (found, begins) ↦
        por_explore-PorInv fuel (record { found = found; sleeps = [] ∷ []; sleep_sets = [] }) s wf
          (por_begin-PorInv found begins) (rw (begins, with_config_por) at h)
  ]

-- When the construction with sleep sets for a well-formed net ends, each marking of its map is
-- reachable by firings from the initial marking and is the marking of the node that the map gives it,
-- no two nodes have the same marking, and each edge leads from a marking to the one that firing its
-- transition makes of it.
pub with_config_por_sound :
    (G : StableGraph StateNode StateEdge) (to_string : FireError → String) (order : SetOrder)
    (net : Net) (config : StateGraphConfig) (fuel : ℕ) (s : PorSearch G to_string)
    → IsWf net
    → with_config_por G to_string order net config fuel ≡ done s
    → ((m : Marking) (i : ℕ) → (find s.found.markings m ≡ some i) ↔ At G to_string s.found i m)
      × ((m : Marking) (i j : ℕ) → At G to_string s.found i m × At G to_string s.found j m → i ≡ j)
      × ((m : Marking) (i : ℕ) → find s.found.markings m ≡ some i → Reach net m)
      × ((x : ℕ × ℕ × StateEdge) → x ∈ G.edges s.found.graph → Linked G to_string net s.found x)
with_config_por_sound G to_string order net config fuel s wf h =
    let (inv, _) = por_run-PorInv G to_string order net config fuel s wf h in
    (
      λ m i. (inv.sound.found m i, inv.sound.known i m),
      λ m i j (a, b). some_inj (sym (inv.sound.known i m a) ∙ inv.sound.known j m b),
      λ m i e. inv.sound.reached i m (inv.sound.found m i e),
      inv.sound.linked,
    )

-- When the construction with sleep sets for a well-formed net ends, a node of its graph is among the
-- deadlocks exactly when no transition of the net has all its input tokens under its marking.
pub with_config_por-deadlocks :
    (G : StableGraph StateNode StateEdge) (to_string : FireError → String) (order : SetOrder)
    (net : Net) (config : StateGraphConfig) (fuel : ℕ) (s : PorSearch G to_string)
    → IsWf net
    → with_config_por G to_string order net config fuel ≡ done s
    → (i : ℕ) (m : Marking) → At G to_string s.found i m
    → (i ∈ s.found.deadlocks) ↔ ((t : TransitionId) → t < transitions_len net → ¬ Enabled net m t)
with_config_por-deadlocks G to_string order net config fuel s wf h i m at =
    let (inv, empty) = por_run-PorInv G to_string order net config fuel s wf h in
    let fits = Reach-Fits net wf (inv.sound.reached i m at) in
    let judged : Judged G to_string order net config s i m = elim (inv.waits i m at) [
      | inl waiting ↦ absurd (subst (λ q. i ∈ q) empty waiting)
      | inr x ↦ x
    ] in
    let dead : (i ∈ s.found.deadlocks) → enabled_transitions net m ≡ some [] = λ mem.
      let (m', at', e) = inv.sound.dead i mem in
      subst (λ k. enabled_transitions net k ≡ some []) (At-unique G to_string s.found i m' m at' at)
        e in
    let (none_enabled, enabled_none) = nothing-Enabled net m wf fits in
    (λ mem. none_enabled (dead mem), λ off. judged (enabled_none off))
