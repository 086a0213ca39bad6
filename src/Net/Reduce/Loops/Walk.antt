-- ===== src/Net/Reduce/Loops/Walk.antt =====
-- src/net/reduce/loop_removal.rs: the walk along a cycle ends, and what it collects.
use rust_pta.Prelude.{ℕ, zero, suc, ◌<◌, ◌≤◌, ◌≡◌, inl, inr, refl, sym, ◌∙◌, arith, subst}
use rust_pta.Prelude.{true, false, not, ◌||◌, Bool-cases, Option, none, some, Option-cases}
use rust_pta.Prelude.{done, List, [], ◌∷◌, ◌++◌, get_elem?, length, All, All-append}
use rust_pta.Prelude.{get_elem?-Returns, ◌==◌, ==→≡, if◌then◌else◌, some_inj}
use rust_pta.Net.Structure.{Weight}
use rust_pta.Net.Reduce.Graph.{ReductionGraph, GraphPlace, arc_place}
use rust_pta.Net.Reduce.Loops.{is_resources, member, cycle_step, walk_cycle, Cycle}
use rust_pta.Net.Reduce.InRange.{InRange, PlaceIn, TransitionIn, ArcsBelow}
use rust_pta.Net.Reduce.Pairwise.{All-get_elem?}

-- The index is one of a place that is no resource.
abbrev pub PlainAt : ReductionGraph → ℕ → Type 0
PlainAt graph idx =
    (idx < length graph.places)
    × ((x : GraphPlace)
        → get_elem? graph.places idx ≡ some x
        → is_resources x.place.place_type ≡ false)

-- The places of a cycle are plain and its transitions are in range.
abbrev pub PlainCycle : ReductionGraph → Cycle → Type 0
PlainCycle graph (places, transitions) =
    All (PlainAt graph) places × All (λ t. t < length graph.transitions) transitions

-- How many of the indices below a bound are not in the list.
abbrev missing : ℕ → List ℕ → ℕ
missing zero seen = 0
missing (suc n) seen = if member n seen then missing n seen else suc (missing n seen)

missing-le : (n : ℕ) (seen : List ℕ) → missing n seen ≤ n
missing-le zero seen = omega arith
missing-le (suc n) seen = ground (arith, missing-le n seen)

missing-insert_le : (n i : ℕ) (seen : List ℕ) → missing n (i ∷ seen) ≤ missing n seen
unfolding member
missing-insert_le zero i seen = omega arith
missing-insert_le (suc n) i seen = ground (arith, missing-insert_le n i seen)

missing-insert :
    (n i : ℕ) (seen : List ℕ)
    → i < n
    → member i seen ≡ false
    → missing n (i ∷ seen) < missing n seen
unfolding member
missing-insert zero i seen lt new = absurd (omega arith)
missing-insert (suc n) i seen lt new = elim (Bool-cases (n == i)) [
  | inl e ↦
      let same : n ≡ i = ==→≡ n i e in
      let new' : member n seen ≡ false = rw same new in
      rw (e, new') (omega (arith, missing-insert_le n i seen))
  | inr ne ↦ let rest = missing-insert n i seen (ground arith) new in ground arith
]

module _ (graph : ReductionGraph) (range : InRange graph) where
  first_output :
      (arcs : List (ℕ × Weight))
      → (length arcs == 1) ≡ true
      → ArcsBelow (length graph.places) arcs
      → (arc : ℕ × Weight) × (get_elem? arcs 0 ≡ some arc) × (arc_place arc < length graph.places)
  first_output [] e h = cc
  first_output (arc ∷ rest) e h = (arc, refl, h.0)

  -- What a round of the walk returns.
  abbrev StepResult : Option (ℕ × ℕ) → Type 0
  StepResult none = Unit
  StepResult (some (t, next)) = (t < length graph.transitions) × PlainAt graph next

  plain :
      (next : ℕ) (q : GraphPlace)
      → next < length graph.places
      → get_elem? graph.places next ≡ some q
      → is_resources q.place.place_type ≡ false
      → PlainAt graph next
  plain next q lt e h =
      (lt, λ x ex. subst (λ z. is_resources z.place.place_type ≡ false) (some_inj (sym e ∙ ex)) h)

  -- The part of a round that looks at the only transition of the place.
  cycle_step_lem :
      (current : ℕ)
      → current < length graph.places
      → (r : Option (ℕ × ℕ)) × (cycle_step graph current ≡ some r) × StepResult r
  unfolding cycle_step
  cycle_step_lem current lt =
      let (place, at) = get_elem?-Returns graph.places current lt in
      let place_in =
        All-get_elem? (PlaceIn (length graph.transitions)) graph.places current range.places_in
          at in
      elim (Option-cases (get_elem? place.outgoing 0)) [
        | inl e ↦ (none, ground arith, tt)
        | inr (t_idx, e) ↦
            let t_lt =
              All-get_elem? (λ t. t < length graph.transitions) place.outgoing 0 place_in.1 e in
            let (t, et) = get_elem?-Returns graph.transitions t_idx t_lt in
            let t_in =
              All-get_elem? (TransitionIn (length graph.places)) graph.transitions t_idx
                range.transitions_in et in
            elim (Bool-cases
              (t.removed || not (length t.inputs == 1) || not (length t.outputs == 1))) [
                | inl bad ↦ (none, ground arith, tt)
                | inr good ↦
                    let (arc, ea, lt') = first_output t.outputs (ground arith) t_in.1 in
                    let (q, eq) = get_elem?-Returns graph.places (arc_place arc) lt' in
                    elim (Bool-cases (
                      q.removed
                      || is_resources q.place.place_type
                      || not (length q.incoming == 1)
                      || not (length q.outgoing == 1))) [
                        | inl bad ↦ (none, ground arith, tt)
                        | inr fine ↦ (
                          some (t_idx, arc_place arc),
                          ground arith,
                          (t_lt, plain (arc_place arc) q lt' eq (ground arith)),
                        )
                      ]
              ]
      ]

  abbrev pub WalkResult : Option Cycle → Type 0
  WalkResult none = Unit
  WalkResult (some cycle) = PlainCycle graph cycle

  pushed :
      (cycle : Cycle) (current t : ℕ)
      → PlainCycle graph cycle
      → PlainAt graph current
      → t < length graph.transitions
      → PlainCycle graph (cycle.0 ++ current ∷ [], cycle.1 ++ t ∷ [])
  pushed (places, transitions) current t h at lt = (
    All-append (PlainAt graph) places (current ∷ []) h.0 (at, tt),
    All-append (λ t. t < length graph.transitions) transitions (t ∷ []) h.1 (lt, tt),
  )

  module _ (start fuel current : ℕ) (seen : List ℕ) (cycle : Cycle)
      (new : member current seen ≡ false) {t next : ℕ}
      (e : cycle_step graph current ≡ some (some (t, next))) where
    walk_cycle_close :
        (next == start) ≡ true
        → walk_cycle graph start (suc fuel) current seen cycle
          ≡ done (some (cycle.0 ++ current ∷ [], cycle.1 ++ t ∷ []))
    unfolding walk_cycle
    walk_cycle_close back = rw (walk_cycle, new, e, back) refl

    walk_cycle_advance :
        (next == start) ≡ false
        → walk_cycle graph start (suc fuel) current seen cycle
          ≡ walk_cycle graph start fuel next
              (current ∷ seen)
              (cycle.0 ++ current ∷ [], cycle.1 ++ t ∷ [])
    unfolding walk_cycle
    walk_cycle_advance on = rw (walk_cycle, new, e, on) refl

  -- From a plain place, with fuel for the places that are not visited yet, the walk ends.
  walk_cycle_lem :
      (start fuel current : ℕ) (seen : List ℕ) (cycle : Cycle)
      → PlainAt graph current
      → PlainCycle graph cycle
      → missing (length graph.places) seen < fuel
      → (r : Option Cycle) × (walk_cycle graph start fuel current seen cycle ≡ done r)
        × WalkResult r
  unfolding walk_cycle
  walk_cycle_lem start zero current seen cycle at h enough = absurd (omega arith)
  walk_cycle_lem start (suc fuel) current seen cycle at h enough =
      elim (Bool-cases (member current seen)) [
        | inl old ↦ (none, rw (walk_cycle, old) refl, tt)
        | inr new ↦
            let (r, e, res) = cycle_step_lem current at.0 in
            elim (Option-cases r) [
              | inl er ↦ (none, ground arith, tt)
              | inr ((t, next), er) ↦
                  let found : StepResult (some (t, next)) = subst StepResult er res in
                  let cycle' = pushed cycle current t h at found.0 in
                  elim (Bool-cases (next == start)) [
                    | inl back ↦ (
                      some (cycle.0 ++ current ∷ [], cycle.1 ++ t ∷ []),
                      walk_cycle_close start fuel current seen cycle new (rw er at e) back,
                      cycle',
                    )
                    | inr on ↦
                        let (w, ew, hw) =
                          walk_cycle_lem start fuel next (current ∷ seen)
                            (cycle.0 ++ current ∷ [], cycle.1 ++ t ∷ []) found.1 cycle'
                            (omega (
                              arith,
                              missing-insert (length graph.places) current seen at.0 new,
                            )) in
                        (
                          w,
                          walk_cycle_advance start fuel current seen cycle new (rw er at e) on ∙ ew,
                          hw,
                        )
                  ]
            ]
      ]

  -- The walk that the outer loop makes.
  pub walk_from :
      (start : ℕ)
      → PlainAt graph start
      → (r : Option Cycle) × (walk_cycle graph start (suc (length graph.places)) start [] ([], [])
          ≡ done r)
        × WalkResult r
  walk_from start at =
      walk_cycle_lem start (suc (length graph.places)) start [] ([], []) at (tt, tt)
        (omega (arith, missing-le (length graph.places) []))
