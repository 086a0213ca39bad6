-- ===== src/Analysis/Boundness/Correct.antt =====
-- src/analysis/boundness.rs: under a state limit the coverability check ends, with a justified answer.
use rust_pta.Prelude.{
  ℕ, zero, suc, ◌+◌, ◌<◌, ◌≤◌, ◌≡◌, refl, sym, ◌∙◌, ap, subst, inl, inr, ◌⊎◌, Option, none, some,
}
use rust_pta.Prelude.{
  ltb→le, lt-or-eq-or-gt, ltb, if◌then◌else◌, List, [], ◌∷◌, length, arith, Bool-cases, List-cases,
}
use rust_pta.Net.Core.{Net, initial_marking}
use rust_pta.Net.Core.Build.{IsWf}
use rust_pta.Analysis.Reachability.{done}
use rust_pta.Analysis.Boundness.{BoundnessResult, bounded, unknown, state_limit_exceeded, new_root}
use rust_pta.Analysis.Boundness.Search.{
  BoundnessAnalyzer, Cover, over_limit, Round, answer, next, cover_node, cover_visit, cover_round,
  cover_loop, cover_start, check_by_coverability_tree,
}
use rust_pta.Analysis.Boundness.Spec.{is_root}
use rust_pta.Analysis.Boundness.Attach.{CoverInv}
use rust_pta.Analysis.Boundness.Visit.{Grows, cover_node-Visits}

abbrev pub popped : Cover → List ℕ → Cover
popped s rest = record s { queue = rest; visited_count = s.visited_count + 1 }

-- So many nodes have been taken from the queue and expanded, whatever the limit.
pub data Expands (net : Net) : ℕ → Cover → Type 0 where
  none_yet : Expands net 0 (cover_start net)
  one_more :
      {n : ℕ} {s s' : Cover} (i : ℕ) (rest : List ℕ)
      → Expands net n s
      → s.queue ≡ i ∷ rest
      → cover_node net i (popped s rest) ≡ some (next s')
      → Expands net (n + 1) s'

-- What each answer rests on: for `Bounded` no node waits after at most as many expansions as the
-- limit; `Unbounded` is shown by a growing sequence; for `Unknown` another node waits when as many
-- nodes as the limit have been expanded.
pub data Justified (net : Net) (limit : ℕ) : BoundnessResult → Type 0 where
  says_bounded :
      (n : ℕ) (s : Cover) → Expands net n s → s.queue ≡ [] → n ≤ limit → Justified net limit bounded
  says_unbounded : (r : BoundnessResult) → Grows net r → Justified net limit r
  says_unknown :
      (s : Cover) (i : ℕ) (rest : List ℕ)
      → Expands net limit s
      → s.queue ≡ i ∷ rest
      → Justified net limit (unknown (state_limit_exceeded limit))

module _ (net : Net) (wf : IsWf net) (self : BoundnessAnalyzer) (limit : ℕ)
    (limited : self.state_limit ≡ some limit) where
  over_limit_lem :
      (count : ℕ)
      → over_limit self.state_limit count ≡ (if ltb limit count then some limit else none)
  unfolding over_limit
  over_limit_lem count = rw limited refl

  cover_visit-over :
      (i : ℕ) (s : Cover)
      → over_limit self.state_limit s.visited_count ≡ some limit
      → cover_visit self net i s ≡ some (answer (unknown (state_limit_exceeded limit)))
  unfolding cover_visit
  cover_visit-over i s over = rw (cover_visit, over) refl

  cover_visit-within :
      (i : ℕ) (s : Cover)
      → over_limit self.state_limit s.visited_count ≡ none
      → cover_visit self net i s ≡ cover_node net i s
  unfolding cover_visit
  cover_visit-within i s within = rw (cover_visit, within) refl

  -- A round that answers `Unknown` is beyond the limit, and one that goes on is within it.
  cover_visit-Visits :
      (i : ℕ) (s : Cover)
      → CoverInv net s
      → i < length s.tree
      → ((r : BoundnessResult) × (cover_visit self net i s ≡ some (answer r))
          × (Grows net r
              ⊎ ((r ≡ unknown (state_limit_exceeded limit)) × (limit < s.visited_count))))
        ⊎ ((s' : Cover) × (cover_visit self net i s ≡ some (next s'))
            × (cover_node net i s ≡ some (next s'))
            × CoverInv net s'
            × (s'.visited_count ≡ s.visited_count)
            × (s.visited_count ≤ limit))
  cover_visit-Visits i s inv hi = elim (Bool-cases (ltb limit s.visited_count)) [
    | inl over ↦ inl (
      unknown (state_limit_exceeded limit),
      cover_visit-over i s
          (over_limit_lem s.visited_count ∙ ap (λ b. if b then some limit else none) over),
      inr (refl, ground (arith, over)),
    )
    | inr within ↦
        let same =
          cover_visit-within i s
            (over_limit_lem s.visited_count ∙ ap (λ b. if b then some limit else none) within) in
        elim (cover_node-Visits net wf i s inv hi) [
          | inl (r, e, grows) ↦ inl (r, same ∙ e, inl grows)
          | inr (s', e, inv', count) ↦
              inr (s', same ∙ e, e, inv', count, ltb→le limit s.visited_count within)
        ]
  ]

  loop_answer :
      (fuel : ℕ) (s : Cover) (r : BoundnessResult)
      → cover_round self net s.queue s ≡ some (answer r)
      → cover_loop self net (suc fuel) s ≡ done r
  unfolding cover_loop
  loop_answer fuel s r e = rw (cover_loop, e) refl

  loop_next :
      (fuel : ℕ) (s s' : Cover)
      → cover_round self net s.queue s ≡ some (next s')
      → cover_loop self net (suc fuel) s ≡ cover_loop self net fuel s'
  unfolding cover_loop
  loop_next fuel s s' e = rw (cover_loop, e) refl

  round_nil : (s : Cover) → s.queue ≡ [] → cover_round self net s.queue s ≡ some (answer bounded)
  unfolding cover_round
  round_nil s empty = subst (λ q. cover_round self net q s ≡ some (answer bounded)) (sym empty) refl

  round_cons :
      (s : Cover) (i : ℕ) (rest : List ℕ) (v : Option Round)
      → s.queue ≡ i ∷ rest
      → cover_visit self net i (popped s rest) ≡ v
      → cover_round self net s.queue s ≡ v
  unfolding cover_round
  round_cons s i rest v pops e = subst (λ q. cover_round self net q s ≡ v) (sym pops) e

  cover_loop-Justified :
      (fuel n : ℕ) (s : Cover)
      → CoverInv net s
      → Expands net n s
      → s.visited_count ≡ n
      → limit + 1 < n + fuel
      → n ≤ limit
      → (r : BoundnessResult) × (cover_loop self net fuel s ≡ done r) × Justified net limit r
  cover_loop-Justified zero n s inv expands counts enough within = absurd (omega arith)
  cover_loop-Justified (suc fuel) n s inv expands counts enough within = elim (List-cases s.queue) [
    | inl empty ↦ (
      bounded,
      loop_answer fuel s bounded (round_nil s empty),
      says_bounded n s expands empty within,
    )
    | inr (i, rest, pops) ↦
        let inv' : CoverInv net (popped s rest) = record {
          cover = inv.cover;
          queued = λ j mem. inv.queued j (rw pops (inr mem));
        } in
        elim (cover_visit-Visits i (popped s rest) inv' (inv.queued i (rw pops (inl refl)))) [
          | inl (r, e, why) ↦ (
            r,
            loop_answer fuel s r (round_cons s i rest _ pops e),
            elim why [
              | inl grows ↦ says_unbounded r grows
              | inr (unknown_eq, over) ↦
                  let at_limit : n ≡ limit = omega arith in
                  subst (Justified net limit) (sym unknown_eq)
                    (says_unknown s i rest (subst (λ k. Expands net k s) at_limit expands) pops)
            ],
          )
          | inr (s', e, expanded, inv'', count, below) ↦
              let (r, ends, justified) =
                cover_loop-Justified fuel (n + 1) s' inv'' (one_more i rest expands pops expanded)
                  (omega arith) (omega arith) (omega arith) in
              (r, loop_next fuel s s' (round_cons s i rest _ pops e) ∙ ends, justified)
        ]
  ]

module _ (net : Net) where
  start_count : (cover_start net).visited_count ≡ 0
  unfolding cover_start
  start_count = refl

  start-CoverInv : CoverInv net (cover_start net)
  unfolding cover_start new_root
  start-CoverInv = record {
    cover = λ i h. elim (lt-or-eq-or-gt i 0) [
      | inl below ↦ absurd (omega arith)
      | inr (inl same) ↦ rw same (inl (initial_marking net, [], is_root 0 _ refl refl refl))
      | inr (inr above) ↦ absurd (omega arith)
    ];
    queued = λ i mem. elim mem [ inl same ↦ omega (arith, same) | inr no_mem ↦ absurd no_mem ];
  }

-- For a well-formed net and a state limit, with fuel for two more rounds than the limit, the check
-- with the coverability tree ends without a panic. If it answers `Bounded`, no node waits in the queue
-- after at most as many nodes as the limit were expanded. If it answers `Unbounded`, it names every place of
-- the net, and its sequence of transitions fires from the initial marking and ends in a part that
-- leads from some marking to one with more tokens at every place. If it answers `Unknown`, the reason
-- names the limit, and another node waits after as many nodes as the limit were expanded.
pub check_by_coverability_tree-Justified :
    (net : Net) (self : BoundnessAnalyzer) (limit fuel : ℕ)
    → IsWf net
    → self.state_limit ≡ some limit
    → limit + 1 < fuel
    → (r : BoundnessResult) × (check_by_coverability_tree self net fuel ≡ done r)
      × Justified net limit r
unfolding check_by_coverability_tree
check_by_coverability_tree-Justified net self limit fuel wf limited enough =
    cover_loop-Justified net wf self limit limited fuel 0 (cover_start net) (start-CoverInv net)
      none_yet (start_count net) (omega arith) (omega arith)
