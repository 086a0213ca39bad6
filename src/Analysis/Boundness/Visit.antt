-- ===== src/Analysis/Boundness/Visit.antt =====
-- src/analysis/boundness.rs: one round of the coverability check.
use rust_pta.Prelude.{
  ℕ, zero, suc, ◌+◌, ◌<◌, ◌≤◌, ◌≡◌, refl, sym, ◌∙◌, ap, inl, inr, ◌⊎◌, true, Option, none, some,
}
use rust_pta.Prelude.{
  lt-or-eq-or-gt, ◌↔◌, List, [], ◌∷◌, ◌++◌, ◌∈◌, map, length, get_elem?, arith, for_each,
  lt-length_of_get_elem?,
}
use mathlib.Core.List.{append_assoc}
use rust_pta.Net.IndexVec.{TransitionId, PlaceId, from_usize-eq, id_limit}
use rust_pta.Net.Structure.{Marking}
use rust_pta.Net.Core.{Net, places_len}
use rust_pta.Net.Core.Build.{IsWf}
use rust_pta.Net.Core.Enabled.{enabled_transitions-Selects}
use rust_pta.Analysis.Boundness.{
  BoundnessResult, unbounded, Tokens, CoverTree, CoverTreeNode, has_omega,
}
use rust_pta.Analysis.Boundness.Search.{
  Cover, omega_places, push_front, backtrack, unwrap_or_zero, cover_fire, cover_expand, report,
  Round, answer, next, cover_node,
}
use rust_pta.Analysis.Boundness.Spec.{Rooted, Rooted-at, Rooted-cases, Rooted-Extends, Omega, Pumps}
use rust_pta.Analysis.Boundness.Raise.{has_omega-map}
use rust_pta.Analysis.Boundness.Attach.{CoverInv, Keeps, Keeps-refl, Keeps-trans}
use rust_pta.Analysis.Boundness.Fire.{Rooted-Fits, cover_fire-Keeps}

-- The way back from a rooted node.
backtrack_step :
    (fuel : ℕ) (tree : CoverTree) (acc : List TransitionId) (i p : ℕ) (n : CoverTreeNode)
    (t : TransitionId)
    → get_elem? tree i ≡ some n
    → n.parent ≡ some p
    → n.transition_from_parent ≡ some t
    → backtrack (suc fuel) tree acc i ≡ backtrack fuel tree (t ∷ acc) p
unfolding backtrack push_front
backtrack_step fuel tree acc i p n t at ep et = rw (backtrack, at, ep, et) refl

backtrack-root :
    (fuel : ℕ) (tree : CoverTree) (acc : List TransitionId) (i : ℕ) (n : CoverTreeNode)
    → get_elem? tree i ≡ some n
    → n.parent ≡ none
    → backtrack (suc fuel) tree acc i ≡ some acc
unfolding backtrack
backtrack-root fuel tree acc i n at ep = rw (at, ep) refl

-- The places of a marking that is ω everywhere.
omega_places-all :
    (w : List Tokens) (k p : ℕ)
    → k + length w ≤ id_limit
    → ((q : ℕ) → q < length w → get_elem? w q ≡ some none)
    → (p ∈ omega_places k w) ↔ ((k ≤ p) × (p < k + length w))
unfolding omega_places
omega_places-all [] k p h all = (λ mem. absurd mem, λ (le, lt). absurd (omega arith))
omega_places-all (some x ∷ w) k p h all = absurd (ground (arith, all 0 (omega arith)))
omega_places-all (none ∷ w) k p h all =
    let (there, back) =
      omega_places-all w (suc k) p (omega arith) (λ q hq. all (suc q) (omega arith)) in
    let id = from_usize-eq k (omega arith) in
    (
      λ mem. elim mem [
        | inl same ↦ (omega (arith, same, id), omega (arith, same, id))
        | inr later ↦ let (le, lt) = there later in (omega arith, omega arith)
      ],
      λ (le, lt). elim (lt-or-eq-or-gt k p) [
        | inl below ↦ inr (back (omega arith, omega arith))
        | inr (inl same) ↦ inl (sym same ∙ sym id)
        | inr (inr above) ↦ absurd (omega arith)
      ],
    )

-- `Unbounded` names every place of the net, and gives a sequence of transitions that fires from the
-- initial marking and a part of which, at its end, makes every place grow.
pub data Grows (net : Net) : BoundnessResult → Type 0 where
  pumping :
      (ps : List PlaceId) (ts : List TransitionId)
      → ((p : PlaceId) → (p ∈ ps) ↔ (p < places_len net))
      → Pumps net ts
      → Grows net (unbounded ps (some ts))

module _ (net : Net) where
  backtrack-Rooted :
      (tree : CoverTree) (fuel : ℕ) (acc : List TransitionId) (i : ℕ) (m : Marking)
      (ts : List TransitionId)
      → i < fuel
      → Rooted net tree i m ts
      → backtrack fuel tree acc i ≡ some (ts ++ acc)
  backtrack-Rooted tree zero acc i m ts h rooted = absurd (omega arith)
  backtrack-Rooted tree (suc fuel) acc i m ts h rooted = elim (Rooted-cases net rooted) [
    | inl (n, at, ep, e) ↦
        backtrack-root fuel tree acc i n at ep ∙ ap (λ xs. some (xs ++ acc)) (sym e)
    | inr c ↦
        backtrack_step fuel tree acc i c.parent c.node c.transition c.at c.parent_eq c.transition_eq
        ∙ backtrack-Rooted tree fuel (c.transition ∷ acc) c.parent c.marking c.path
            (omega (arith, c.below)) c.rooted
        ∙ ap some (sym (append_assoc c.path (c.transition ∷ []) acc))
        ∙ ap (λ xs. some (xs ++ acc)) (sym c.path_eq)
  ]

  unwrap-map : (m : Marking) → map unwrap_or_zero (map some m) ≡ m
  unfolding unwrap_or_zero
  unwrap-map [] = refl
  unwrap-map (x ∷ xs) = ap (λ ys. x ∷ ys) (unwrap-map xs)

  module _ (wf : IsWf net) where
    fire_all-Keeps :
        (i : ℕ) (m : Marking) (ts us : List TransitionId) (s : Cover)
        → CoverInv net s
        → i < length s.tree
        → Rooted net s.tree i m ts
        → (s' : Cover) × (for_each (cover_fire net i m) s us ≡ some s') × Keeps net s s'
    unfolding for_each
    fire_all-Keeps i m ts [] s inv hi rooted = (s, refl, Keeps-refl net s inv)
    fire_all-Keeps i m ts (u ∷ us) s inv hi rooted =
        let (s1, runs, first) =
          cover_fire-Keeps net wf i m ts u (Rooted-Fits net wf rooted) s inv hi rooted in
        let rooted' = Rooted-Extends net (first.extends) rooted in
        let (n, at, _) = Rooted-at net rooted' in
        let (s2, rest, second) =
          fire_all-Keeps i m ts us s1 first.inv (lt-length_of_get_elem? s1.tree i at) rooted' in
        (s2, rw (runs, for_each) rest, Keeps-trans net first second)

    -- A node without ω is expanded.
    cover_expand-Keeps :
        (i : ℕ) (m : Marking) (ts : List TransitionId) (s : Cover)
        → CoverInv net s
        → i < length s.tree
        → Rooted net s.tree i m ts
        → (s' : Cover) × (cover_expand net i (map some m) s ≡ some s') × Keeps net s s'
    unfolding cover_expand
    cover_expand-Keeps i m ts s inv hi rooted =
        let (us, lists, _) = enabled_transitions-Selects net m wf (Rooted-Fits net wf rooted) in
        let (s', runs, keeps) = fire_all-Keeps i m ts us s inv hi rooted in
        (s', rw (unwrap-map m, lists) runs, keeps)

    report-Grows :
        (tree : CoverTree) (i : ℕ) (o : Omega net tree i)
        → (r : BoundnessResult) × (report tree i (o.node.marking) ≡ some r) × Grows net r
    unfolding report
    report-Grows tree i o =
        let goes =
          backtrack_step i tree [] i o.parent o.node o.transition o.at o.parent_eq o.transition_eq
          ∙ backtrack-Rooted tree i (o.transition ∷ []) o.parent o.marking o.path o.below
              o.rooted in
        (
          unbounded (omega_places 0 (o.node.marking)) (some (o.path ++ o.transition ∷ [])),
          rw goes refl,
          pumping _ _
              (λ p.
                let (there, back) =
                  omega_places-all (o.node.marking) 0 p (omega (arith, o.width, wf.places_fit))
                    (λ q hq. o.all_omega q (omega (arith, o.width))) in
                (
                  λ mem. omega (arith, (there mem).1, o.width),
                  λ hp. back (omega arith, omega (arith, o.width)),
                ))
              o.pumps,
        )

    -- A round answers, and rightly, or goes on.
    abbrev pub Visits : Cover → Option Round → Type 0
    Visits s v =
        ((r : BoundnessResult) × (v ≡ some (answer r)) × Grows net r)
        ⊎ ((s' : Cover) × (v ≡ some (next s'))
            × CoverInv net s'
            × (s'.visited_count ≡ s.visited_count))

    cover_node-report :
        (i : ℕ) (s : Cover) (n : CoverTreeNode) (r : BoundnessResult)
        → get_elem? s.tree i ≡ some n
        → has_omega n.marking ≡ true
        → report s.tree i n.marking ≡ some r
        → cover_node net i s ≡ some (answer r)
    unfolding cover_node
    cover_node-report i s n r at marked reports = rw (at, marked, reports) refl

    cover_node-expand :
        (i : ℕ) (s s' : Cover) (n : CoverTreeNode) (m : Marking)
        → get_elem? s.tree i ≡ some n
        → n.marking ≡ map some m
        → cover_expand net i (map some m) s ≡ some s'
        → cover_node net i s ≡ some (next s')
    unfolding cover_node
    cover_node-expand i s s' n m at em expands = rw (at, em, has_omega-map m, expands) refl

    pub cover_node-Visits :
        (i : ℕ) (s : Cover) → CoverInv net s → i < length s.tree → Visits s (cover_node net i s)
    cover_node-Visits i s inv hi = elim (inv.cover i hi) [
      | inr o ↦
          let (r, reports, grows) = report-Grows s.tree i o in
          inl (r, cover_node-report i s o.node r o.at o.marked reports, grows)
      | inl (m, ts, rooted) ↦
          let (n, at, em) = Rooted-at net rooted in
          let (s', expands, keeps) = cover_expand-Keeps i m ts s inv hi rooted in
          inr (s', cover_node-expand i s s' n m at em expands, keeps.inv, keeps.count)
    ]
