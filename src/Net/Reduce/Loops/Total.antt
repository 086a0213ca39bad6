-- ===== src/Net/Reduce/Loops/Total.antt =====
-- src/net/reduce/loop_removal.rs: the removal of loops ends, and what it leaves.
use rust_pta.Prelude.{ℕ, zero, suc, ◌<◌, ◌+◌, ◌≡◌, inl, inr, refl, sym, ◌∙◌, arith, subst}
use rust_pta.Prelude.{Bool, true, false, not, ◌||◌, Bool-cases, Option, none, some}
use rust_pta.Prelude.{done, List, [], ◌∷◌, ◌++◌, length, All, Returns}
use rust_pta.Prelude.{get_elem?-Returns, ◌==◌, ==→≡, some_inj}
use rust_pta.Net.Reduce.Graph.{
  ReductionGraph, remove_transition, remove_place, clean_adjacency, place_originals,
  transition_originals,
}
use rust_pta.Net.Reduce.Loops.{
  is_resources, member, walk_cycle, Cycle, all_empty, remove_transitions, remove_places, LoopState,
  push_loop, remove_cycle, starts_cycle, or_panic, after_walk, loop_round, loop_rounds,
  remove_simple_loops,
}
use rust_pta.Net.Reduce.Loops.Walk.{PlainAt, PlainCycle, WalkResult, walk_from}
use rust_pta.Net.Reduce.InRange.{
  InRange, remove_transition-InRange, remove_place-InRange, clean_adjacency-InRange,
}
use rust_pta.Net.Reduce.Pairwise.{length-All2, All-mono}
use rust_pta.Net.Reduce.Keeps.{
  KeptPlace, SamePlaces, KeptPlaces, SamePlaces-refl, SamePlaces-trans, KeptPlaces-refl,
  KeptPlaces-trans, SamePlaces-KeptPlaces, remove_transition-SamePlaces, clean_adjacency-SamePlaces,
  remove_place-KeptPlaces, DroppableAt, DroppableAt-kept,
}

pub remove_transitions-InRange :
    (ts : List ℕ) (graph : ReductionGraph) → InRange graph → InRange (remove_transitions graph ts)
unfolding remove_transitions
remove_transitions-InRange [] graph range = range
remove_transitions-InRange (t ∷ ts) graph range =
    remove_transitions-InRange ts (remove_transition graph t)
      (remove_transition-InRange graph t range)

pub remove_transitions-SamePlaces :
    (ts : List ℕ) (graph : ReductionGraph) → SamePlaces graph (remove_transitions graph ts)
unfolding remove_transitions
remove_transitions-SamePlaces [] graph = SamePlaces-refl graph
remove_transitions-SamePlaces (t ∷ ts) graph =
    SamePlaces-trans graph (remove_transition graph t)
      (remove_transitions (remove_transition graph t) ts) (remove_transition-SamePlaces graph t)
      (remove_transitions-SamePlaces ts (remove_transition graph t))

pub remove_places-InRange :
    (ps : List ℕ) (graph : ReductionGraph) → InRange graph → InRange (remove_places graph ps)
unfolding remove_places
remove_places-InRange [] graph range = range
remove_places-InRange (p ∷ ps) graph range =
    remove_places-InRange ps (remove_place graph p) (remove_place-InRange graph p range)

pub remove_places-KeptPlaces :
    (ps : List ℕ) (graph : ReductionGraph)
    → All (DroppableAt graph) ps
    → KeptPlaces graph (remove_places graph ps)
unfolding remove_places
remove_places-KeptPlaces [] graph h = KeptPlaces-refl graph
remove_places-KeptPlaces (p ∷ ps) graph h =
    let next = remove_place graph p in
    let kept = remove_place-KeptPlaces graph p h.0 in
    KeptPlaces-trans graph next (remove_places next ps) kept (
      remove_places-KeptPlaces ps next (
        All-mono (DroppableAt graph) (DroppableAt next)
          (λ i d. DroppableAt-kept graph next i kept d) ps h.1))

module _ (graph : ReductionGraph) where
  -- The test of the tokens does not panic, and a positive answer makes the places droppable.
  all_empty_lem :
      (ps : List ℕ)
      → All (PlainAt graph) ps
      → (b : Bool) × (all_empty graph ps ≡ some b) × (b ≡ true → All (DroppableAt graph) ps)
  unfolding all_empty
  all_empty_lem [] h = (true, refl, λ e. tt)
  all_empty_lem (p ∷ ps) h =
      let (x, at) = get_elem?-Returns graph.places p (h.0).0 in
      elim (Bool-cases (x.place.tokens == 0)) [
        | inr full ↦ (false, rw (all_empty, at, full) refl, λ e. cc)
        | inl empty ↦
            let (b, e, rest) = all_empty_lem ps h.1 in
            (
              b,
              rw (all_empty, at, empty) e,
              λ yes_all. (
                λ y ey. (
                  ==→≡ y.place.tokens 0
                      (subst (λ z. (z.place.tokens == 0) ≡ true) (some_inj (sym at ∙ ey)) empty),
                  (h.0).1 y ey,
                ),
                rest yes_all,
              ),
            )
      ]

  place_originals-Returns :
      (ps : List ℕ) → All (PlainAt graph) ps → Returns (place_originals graph ps)
  unfolding place_originals
  place_originals-Returns [] h = ([], refl)
  place_originals-Returns (p ∷ ps) h =
      let (x, at) = get_elem?-Returns graph.places p (h.0).0 in
      let (rest, e) = place_originals-Returns ps h.1 in
      (x.originals ++ rest, rw (place_originals, at, e) refl)

  transition_originals-Returns :
      (ts : List ℕ)
      → All (λ t. t < length graph.transitions) ts
      → Returns (transition_originals graph ts)
  unfolding transition_originals
  transition_originals-Returns [] h = ([], refl)
  transition_originals-Returns (t ∷ ts) h =
      let (x, at) = get_elem?-Returns graph.transitions t h.0 in
      let (rest, e) = transition_originals-Returns ts h.1 in
      (x.originals ++ rest, rw (transition_originals, at, e) refl)

-- What a part of the loop does to the graph.
pub record Loops (graph other : ReductionGraph) : Type 0 where
  pub range : InRange other
  pub kept : KeptPlaces graph other

unchanged : (graph : ReductionGraph) → InRange graph → Loops graph graph
unchanged graph range = record { range = range; kept = KeptPlaces-refl graph }

Loops-trans : {a b c : ReductionGraph} → Loops a b → Loops b c → Loops a c
Loops-trans {a} {b} {c} h k = record {
  range = k.range;
  kept = KeptPlaces-trans a b c h.kept k.kept;
}

removed_cycle :
    (graph : ReductionGraph) (places transitions : List ℕ)
    → InRange graph
    → All (DroppableAt graph) places
    → Loops graph (clean_adjacency (remove_places (remove_transitions graph transitions) places))
removed_cycle graph places transitions range droppable =
    let g₁ = remove_transitions graph transitions in
    let same = SamePlaces-KeptPlaces graph g₁ (remove_transitions-SamePlaces transitions graph) in
    let g₂ = remove_places g₁ places in
    let kept = remove_places-KeptPlaces places g₁ (
      All-mono (DroppableAt graph) (DroppableAt g₁) (λ i d. DroppableAt-kept graph g₁ i same d)
        places droppable) in
    let cleaned = SamePlaces-KeptPlaces g₂ (clean_adjacency g₂) (clean_adjacency-SamePlaces g₂) in
    record {
      range =
          clean_adjacency-InRange g₂
            (remove_places-InRange places g₁ (remove_transitions-InRange transitions graph range));
      kept =
          KeptPlaces-trans graph g₁ (clean_adjacency g₂) same
            (KeptPlaces-trans g₁ g₂ (clean_adjacency g₂) kept cleaned);
    }

remove_cycle_lem :
    (s : LoopState) (cycle : Cycle)
    → InRange s.graph
    → PlainCycle s.graph cycle
    → (s' : LoopState) × (remove_cycle s cycle ≡ some s') × Loops s.graph s'.graph
unfolding remove_cycle
remove_cycle_lem s (places, transitions) range h =
    let (b, e, droppable) = all_empty_lem s.graph places h.0 in
    elim (Bool-cases b) [
      | inr full ↦ (s, ground arith, unchanged s.graph range)
      | inl empty ↦
          let (ps, ep) = place_originals-Returns s.graph places h.0 in
          let (ts, et) = transition_originals-Returns s.graph transitions h.1 in
          (
            record {
              graph =
                  clean_adjacency (remove_places (remove_transitions s.graph transitions) places);
              visited = places ++ s.visited;
              steps = push_loop s.steps ps ts;
            },
            rw (remove_cycle, e, empty, ep, et) refl,
            removed_cycle s.graph places transitions range (droppable empty),
          )
    ]

starts_cycle_lem :
    (s : LoopState) (start : ℕ)
    → start < length s.graph.places
    → (b : Bool) × (starts_cycle s start ≡ some b) × (b ≡ true → PlainAt s.graph start)
unfolding starts_cycle
starts_cycle_lem s start lt =
    let (p, at) = get_elem?-Returns s.graph.places start lt in
    elim (Bool-cases (member start s.visited)) [
      | inl old ↦ (false, rw (starts_cycle, old) refl, λ e. cc)
      | inr new ↦ (
        not (
            p.removed
            || is_resources p.place.place_type
            || not (length p.outgoing == 1)
            || not (length p.incoming == 1)),
        rw (starts_cycle, new, at) refl,
        λ e. (
          lt,
          λ x ex.
              subst (λ z. is_resources z.place.place_type ≡ false) (some_inj (sym at ∙ ex))
                (ground arith),
        ),
      )
    ]

module _ (s : LoopState) (start : ℕ) where
  loop_round_skip : starts_cycle s start ≡ some false → loop_round s start ≡ done s
  unfolding loop_round
  loop_round_skip e = rw (loop_round, e) refl

  loop_round_walk :
      {r : Option Cycle}
      → starts_cycle s start ≡ some true
      → walk_cycle s.graph start (suc (length s.graph.places)) start [] ([], []) ≡ done r
      → loop_round s start ≡ after_walk s (done r)
  unfolding loop_round
  loop_round_walk e w = rw (loop_round, e, w) refl

  after_walk_lem :
      (r : Option Cycle) (range : InRange s.graph)
      → WalkResult s.graph range r
      → (s' : LoopState) × (after_walk s (done r) ≡ done s') × Loops s.graph s'.graph
  unfolding after_walk or_panic
  after_walk_lem none range h = (s, refl, unchanged s.graph range)
  after_walk_lem (some cycle) range h =
      let (s', e, loops) = remove_cycle_lem s cycle range h in (s', rw e refl, loops)

  loop_round_lem :
      InRange s.graph
      → start < length s.graph.places
      → (s' : LoopState) × (loop_round s start ≡ done s') × Loops s.graph s'.graph
  loop_round_lem range lt =
      let (b, e, plain) = starts_cycle_lem s start lt in
      elim (Bool-cases b) [
        | inr skip ↦ (s, loop_round_skip (rw skip at e), unchanged s.graph range)
        | inl go ↦
            let (r, w, h) = walk_from s.graph range start (plain go) in
            let (s', e', loops) = after_walk_lem r range h in
            (s', loop_round_walk (rw go at e) w ∙ e', loops)
      ]

loop_rounds_next :
    (n start : ℕ) (s s' : LoopState)
    → loop_round s start ≡ done s'
    → loop_rounds (suc n) start s ≡ loop_rounds n (start + 1) s'
unfolding loop_rounds
loop_rounds_next n start s s' e = rw (loop_rounds, e) refl

loop_rounds_lem :
    (n start : ℕ) (s : LoopState)
    → InRange s.graph
    → n + start ≡ length s.graph.places
    → (s' : LoopState) × (loop_rounds n start s ≡ done s') × Loops s.graph s'.graph
unfolding loop_rounds
loop_rounds_lem zero start s range len = (s, refl, unchanged s.graph range)
loop_rounds_lem (suc n) start s range len =
    let (t, e, first) = loop_round_lem s start range (omega arith) in
    let same = length-All2 KeptPlace s.graph.places t.graph.places first.kept in
    let (s', e', rest) = loop_rounds_lem n (start + 1) t first.range (omega (arith, same)) in
    (s', loop_rounds_next n start s t e ∙ e', Loops-trans first rest)

-- On a graph whose indices are in range the removal of simple loops ends without a panic, each walk
-- within its fuel. The indices of the result are in range, and every place keeps its data and stays
-- unless it holds no token and is no resource.
pub remove_simple_loops-Loops :
    (graph : ReductionGraph)
    → InRange graph
    → (s : LoopState) × (remove_simple_loops graph ≡ done s) × Loops graph s.graph
unfolding remove_simple_loops
remove_simple_loops-Loops graph range =
    loop_rounds_lem (length graph.places) 0 (record { graph = graph; visited = []; steps = [] })
      range (omega arith)
