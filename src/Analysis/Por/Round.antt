-- ===== src/Analysis/Por/Round.antt =====
-- src/analysis/reachability.rs: one round of `with_config_por`.
use rust_pta.Prelude.{ℕ, ◌≡◌, refl, ◌∙◌, ap, subst, ◌⊎◌, inl, inr, some, none, List, [], ◌∷◌, ◌∈◌}
use rust_pta.Prelude.{Option, length, String, arith, >>=-eq-some, some_inj, Option-cases}
use rust_pta.Net.Structure.{Marking}
use rust_pta.Net.Core.{Net, FireError, enabled_transitions}
use rust_pta.Net.Core.Build.{IsWf}
use rust_pta.Analysis.Graph.{StableGraph}
use rust_pta.Analysis.Snapshot.{StateNode, StateEdge, update_enabled, update_enabled-marking}
use rust_pta.Analysis.Reachability.{StateGraphConfig, Run, done, panicked, out_of_fuel}
use rust_pta.Analysis.Reachability.Spec.{At, At-unique, IsSound, Grows}
use rust_pta.Analysis.Reachability.Round.{marked, kept, back, marked-IsSound, deadlock-Expands}
use rust_pta.Analysis.Por.{
  Set, SetOrder, PorSearch, por_fire_each, por_expand, por_round, difference,
}
use rust_pta.Analysis.Por.Sound.{Paired, Advances, for_each-Advances}

pub round-cases {ℓ} :
    {A : Type ℓ} (r : Run (Option A))
    → (r ≡ panicked) ⊎ (r ≡ out_of_fuel) ⊎ (r ≡ done none) ⊎ ((a : A) × (r ≡ done (some a)))
round-cases panicked = inl refl
round-cases out_of_fuel = inr (inl refl)
round-cases (done none) = inr (inr (inl refl))
round-cases (done (some a)) = inr (inr (inr (a, refl)))

module _ (G : StableGraph StateNode StateEdge) (to_string : FireError → String) (order : SetOrder)
    (net : Net) (config : StateGraphConfig) where
  abbrev S : Type 0
  S = PorSearch G to_string

  -- Node `j` is recorded if nothing is enabled at its marking.
  abbrev pub Judged : S → ℕ → Marking → Type 0
  Judged s j m = enabled_transitions net m ≡ some [] → j ∈ s.found.deadlocks

  abbrev pub Waits : S → List ℕ → Type 0
  Waits s waiting =
      (j : ℕ) (m : Marking) → At G to_string s.found j m → (j ∈ waiting) ⊎ Judged s j m

  -- What holds between two rounds.
  pub record PorInv (s : S) : Type 0 where
    pub sound : IsSound G to_string net s.found
    pub waits : Waits s s.found.queue
    pub paired : Paired G to_string order net config s

  record Judges (i : ℕ) (m : Marking) (s s' : S) : Type 0 where
    advances : Advances G to_string order net config s s'
    judged : Judged s' i m

  por_fire_each-Judges :
      (i : ℕ) (m : Marking) (sleep enabled : Set) (s s' : S)
      → IsWf net
      → IsSound G to_string net s.found
      → At G to_string s.found i m
      → enabled_transitions net m ≡ some enabled
      → por_fire_each G to_string order net config i m sleep s enabled ≡ some s'
      → Judges i m s s'
  unfolding por_fire_each
  por_fire_each-Judges i m sleep [] s s' wf sound at lists h =
      let x = deadlock-Expands G to_string net config i m s.found wf sound at lists in
      subst (Judges i m s) (some_inj h) (record {
        advances = record { sound = x.sound; grows = x.grows; paired = λ p. p };
        judged = x.expanded.dead;
      })
  por_fire_each-Judges i m sleep (t ∷ ts) s s' wf sound at lists h = record {
    advances =
        for_each-Advances G to_string order net config i m (t ∷ ts) sleep
          (difference (order.iter (t ∷ ts)) sleep) s s' sound at h;
    judged = λ e. absurd (cc);
  }

  -- After the round of `i`, a node waits in the queue or has been judged.
  Waits-Grows :
      (i : ℕ) (m : Marking) (s s' : S)
      → At G to_string s.found i m
      → Waits s (i ∷ s.found.queue)
      → Grows G to_string s.found s'.found
      → Judged s' i m
      → Waits s' s'.found.queue
  Waits-Grows i m s s' at waits grows judged j m' at' = elim (grows.fresh j m' at') [
    | inr q ↦ inl q
    | inl old ↦ elim (waits j m' old) [
      | inl (inl same) ↦
          let at_i : At G to_string s.found i m' =
            subst (λ k. At G to_string s.found k m') same old in
          let here = At-unique G to_string s.found i m' m at_i at in
          inr (λ e. rw same (judged (subst (λ x. enabled_transitions net x ≡ some []) here e)))
      | inl (inr q) ↦ inl (grows.queue j q)
      | inr before ↦ inr (λ e. grows.deadlocks j (before e))
    ]
  ]

  -- The state after `i` and its sleep set left the queue.
  abbrev pub popped : S → List ℕ → List Set → S
  popped s rest others = record s { found = record s.found { queue = rest }; sleeps = others }

  pub por_expand-PorInv :
      (i : ℕ) (rest : List ℕ) (sleep : Set) (others : List Set) (s s' : S)
      → IsWf net
      → PorInv s
      → s.found.queue ≡ i ∷ rest
      → s.sleeps ≡ sleep ∷ others
      → por_expand G to_string order net config i sleep (popped s rest others) ≡ some s'
      → PorInv s'
  unfolding por_expand
  por_expand-PorInv i rest sleep others s s' wf inv pops pops' h =
      let (n, at_i, h1) = >>=-eq-some (G.node s.found.graph i) _ h in
      let (ts, lists, h2) = >>=-eq-some (enabled_transitions net n.marking) _ h1 in
      let (n', writes, h3) = >>=-eq-some (update_enabled net (order.iter ts) n) _ h2 in
      let same = update_enabled-marking net (order.iter ts) n n' writes in
      let mid : S = record s {
        found = marked G to_string net config s.found i rest n n' pops inv.sound at_i same;
        sleeps = others;
      } in
      let at_mid =
        kept G to_string net config s.found i rest n n' pops inv.sound at_i same i n.marking
          (n, at_i, refl) in
      let j =
        por_fire_each-Judges i n.marking sleep ts mid s' wf
          (marked-IsSound G to_string net config s.found i rest n n' pops inv.sound at_i same)
          at_mid lists h3 in
      let waits : Waits mid (i ∷ mid.found.queue) = λ k m at. rw pops at (
        inv.waits k m
          (back G to_string net config s.found i rest n n' pops inv.sound at_i same k m at)) in
      record {
        sound = j.advances.sound;
        waits = Waits-Grows i n.marking mid s' at_mid waits j.advances.grows j.judged;
        paired = j.advances.paired (omega (arith, inv.paired, ap length pops, ap length pops'));
      }

  -- A round that goes on popped a node and its sleep set.
  pub por_round-some :
      (queue : List ℕ) (sleeps : List Set) (s s' : S)
      → por_round G to_string order net config queue sleeps s ≡ done (some s')
      → (i : ℕ) × (rest : List ℕ) × (sleep : Set) × (others : List Set) × (queue ≡ i ∷ rest)
        × (sleeps ≡ sleep ∷ others)
        × (por_expand G to_string order net config i sleep (popped s rest others) ≡ some s')
  unfolding por_round
  por_round-some [] sleeps s s' h = absurd (ground arith)
  por_round-some (i ∷ rest) [] s s' h = absurd (ground arith)
  por_round-some (i ∷ rest) (sleep ∷ others) s s' h =
      elim (Option-cases (por_expand G to_string order net config i sleep (popped s rest others))) [
        | inl fails ↦ absurd (ground arith)
        | inr (s1, runs) ↦ (i, rest, sleep, others, refl, refl, runs ∙ ap some (ground arith))
      ]

  pub por_round-none :
      (queue : List ℕ) (sleeps : List Set) (s : S)
      → por_round G to_string order net config queue sleeps s ≡ done none
      → queue ≡ []
  unfolding por_round
  por_round-none [] sleeps s h = refl
  por_round-none (i ∷ rest) [] s h = absurd (ground arith)
  por_round-none (i ∷ rest) (sleep ∷ others) s h =
      elim (Option-cases (por_expand G to_string order net config i sleep (popped s rest others))) [
        | inl fails ↦ absurd (ground arith)
        | inr (s1, runs) ↦ absurd (ground arith)
      ]
