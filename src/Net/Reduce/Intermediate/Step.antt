-- ===== src/Net/Reduce/Intermediate/Step.antt =====
-- src/net/reduce/intermediate_place.rs: the elimination of one place.
use rust_pta.Prelude.{ℕ, suc, ◌<◌, ◌≡◌, refl, sym, ◌∙◌, subst}
use rust_pta.Prelude.{some, List, [], ◌∷◌, ◌++◌, get_elem?, length, length-append, All}
use rust_pta.Prelude.{All-append, arith, ap, some_inj}
use rust_pta.Net.Structure.{Weight}
use rust_pta.Net.Reduce.Graph.{
  ReductionGraph, GraphPlace, ReductionStep, add_transition, remove_transition, remove_place,
  clean_adjacency, intermediate_place_eliminated,
}
use rust_pta.Net.Reduce.Intermediate.{
  Between, merged_transition, relink, swap_outgoing, swap_incoming, eliminate, next_counter,
}
use rust_pta.Net.Reduce.Intermediate.Guards.{IsBetween}
use rust_pta.Net.Reduce.Pairwise.{
  All2, All-retain, All-relink, All2-relink, All2-trans, All2-get_elem?, All-get_elem?,
}
use rust_pta.Net.Reduce.InRange.{
  InRange, PlaceIn, TransitionIn, ArcsBelow, Below, add_transition-InRange,
  remove_transition-InRange, remove_place-InRange, clean_adjacency-InRange,
}
use rust_pta.Net.Reduce.Keeps.{
  SamePlace, SamePlaces, KeptPlaces, SamePlaces-trans, KeptPlaces-trans, SamePlaces-KeptPlaces,
  remove_transition-SamePlaces, clean_adjacency-SamePlaces, remove_place-KeptPlaces, DroppableAt,
  DroppableAt-kept, count_live, count_live-SamePlaces, Droppable, remove_place-live,
}

push-Below :
    (n new : ℕ) (indices : List ℕ) → new < n → Below n indices → Below n (indices ++ new ∷ [])
push-Below n new indices lt h = All-append (λ t. t < n) indices (new ∷ []) h (lt, tt)

swap_outgoing-PlaceIn :
    (n old new : ℕ) (place : GraphPlace)
    → new < n
    → PlaceIn n place
    → PlaceIn n (swap_outgoing old new place)
swap_outgoing-PlaceIn n old new place lt h =
    (h.0, push-Below n new _ lt (All-retain (λ t. t < n) _ place.outgoing h.1))

swap_incoming-PlaceIn :
    (n old new : ℕ) (place : GraphPlace)
    → new < n
    → PlaceIn n place
    → PlaceIn n (swap_incoming old new place)
swap_incoming-PlaceIn n old new place lt h =
    (push-Below n new _ lt (All-retain (λ t. t < n) _ place.incoming h.0), h.1)

-- What an elimination does to a graph: the indices stay in range, each place keeps its data, and
-- exactly one more place is removed, which held no token and was no resource.
pub record Eliminates (graph : ReductionGraph) (other : ReductionGraph) : Type 0 where
  pub range : InRange other
  pub kept : KeptPlaces graph other
  pub fewer : suc (count_live other.places) ≡ count_live graph.places

module _ (graph : ReductionGraph) (range : InRange graph) (place_idx : ℕ) (place : GraphPlace)
    (b : Between) (at : get_elem? graph.places place_idx ≡ some place)
    (is : IsBetween graph place b) where
  in_transition-TransitionIn : TransitionIn (length graph.places) b.in_transition
  in_transition-TransitionIn =
      All-get_elem? (TransitionIn (length graph.places)) graph.transitions b.in_idx
        range.transitions_in is.in_eq

  out_transition-TransitionIn : TransitionIn (length graph.places) b.out_transition
  out_transition-TransitionIn =
      All-get_elem? (TransitionIn (length graph.places)) graph.transitions b.out_idx
        range.transitions_in is.out_eq

  abbrev added : ReductionGraph
  added = add_transition graph (merged_transition graph.merge_counter b)

  added-InRange : InRange added
  unfolding merged_transition
  added-InRange =
      add_transition-InRange graph (merged_transition graph.merge_counter b) range
        (in_transition-TransitionIn.0, out_transition-TransitionIn.1)

  new_below : length graph.transitions < length (added.transitions)
  unfolding add_transition
  new_below =
      omega (arith, length-append graph.transitions (merged_transition graph.merge_counter b ∷ []))

  abbrev linked : List GraphPlace → ReductionGraph
  linked places = record added { places = places; merge_counter = next_counter graph.merge_counter }

  same_refl : (x : GraphPlace) → SamePlace x x
  same_refl x = (refl, refl, refl)

  same_trans : (x y z : GraphPlace) → SamePlace x y → SamePlace y z → SamePlace x z
  same_trans x y z h k = (k.0 ∙ h.0, k.1 ∙ h.1, k.2 ∙ h.2)

  -- A loop that relinks the places does not panic, and keeps all else.
  relink_once :
      (change : GraphPlace → GraphPlace)
      → ((x : GraphPlace) → SamePlace x (change x))
      → ((x : GraphPlace)
          → PlaceIn (length added.transitions) x
          → PlaceIn (length added.transitions) (change x))
      → (arcs : List (ℕ × Weight)) (xs : List GraphPlace)
      → All (PlaceIn (length added.transitions)) xs
      → ArcsBelow (length xs) arcs
      → (ys : List GraphPlace) × (relink change xs arcs ≡ some ys)
        × All (PlaceIn (length added.transitions)) ys
        × (length ys ≡ length xs)
        × All2 SamePlace xs ys
  relink_once change same keep arcs xs h below =
      let (ys, e, hy, len) =
        All-relink (PlaceIn (length added.transitions)) change keep arcs xs h below in
      (ys, e, hy, len, All2-relink SamePlace same_refl same_trans change same arcs xs ys e)

  -- Both loops.
  relinked :
      (sources : List GraphPlace) × (targets : List GraphPlace) × (relink
          (swap_outgoing b.in_idx (length graph.transitions))
          added.places
          b.in_transition.inputs
        ≡ some sources)
      × (relink
            (swap_incoming b.out_idx (length graph.transitions))
            sources
            b.out_transition.outputs
          ≡ some targets)
      × InRange (linked targets)
      × SamePlaces graph (linked targets)
  unfolding add_transition
  relinked =
      let new = length graph.transitions in
      let (sources, e, h, len, same) =
        relink_once (swap_outgoing b.in_idx new) (λ x. same_refl x)
          (λ x. swap_outgoing-PlaceIn _ b.in_idx new x new_below) b.in_transition.inputs
          graph.places (added-InRange.places_in) in_transition-TransitionIn.0 in
      let (targets, e', h', len', same') =
        relink_once (swap_incoming b.out_idx new) (λ x. same_refl x)
          (λ x. swap_incoming-PlaceIn _ b.out_idx new x new_below) b.out_transition.outputs sources
          h
          (subst (λ n. ArcsBelow n b.out_transition.outputs) (sym len)
            out_transition-TransitionIn.1) in
      (
        sources,
        targets,
        e,
        e',
        record {
          places_in = h';
          transitions_in =
              subst (λ n. All (TransitionIn n) added.transitions) (sym (len' ∙ len))
                added-InRange.transitions_in;
        },
        All2-trans SamePlace same_refl same_trans graph.places sources targets same same',
      )

  abbrev unlinked : ReductionGraph → ReductionGraph
  unlinked h = remove_transition (remove_transition h b.in_idx) b.out_idx

  unlinked-SamePlaces : (h : ReductionGraph) → SamePlaces h (unlinked h)
  unlinked-SamePlaces h =
      SamePlaces-trans h (remove_transition h b.in_idx) (unlinked h)
        (remove_transition-SamePlaces h b.in_idx)
        (remove_transition-SamePlaces (remove_transition h b.in_idx) b.out_idx)

  dropped_after : (h : ReductionGraph) → SamePlaces graph h → DroppableAt h place_idx
  dropped_after h same =
      DroppableAt-kept graph h place_idx (SamePlaces-KeptPlaces graph h same)
        (λ x e. subst Droppable (some_inj (sym at ∙ e)) is.droppable)

  -- The removals and the cleaning after the relinking.
  finish :
      (h : ReductionGraph)
      → InRange h
      → SamePlaces graph h
      → Eliminates graph (clean_adjacency (remove_place (unlinked h) place_idx))
  finish h range_h same_h =
      let u = unlinked h in
      let same_u = SamePlaces-trans graph h u same_h (unlinked-SamePlaces h) in
      let range_u =
        remove_transition-InRange (remove_transition h b.in_idx) b.out_idx
          (remove_transition-InRange h b.in_idx range_h) in
      let r = remove_place u place_idx in
      let (x, ex, sx) =
        All2-get_elem? SamePlace graph.places (u.places) place_idx place same_u at in
      let cleaned = clean_adjacency-SamePlaces r in
      record {
        range = clean_adjacency-InRange r (remove_place-InRange u place_idx range_u);
        kept = KeptPlaces-trans graph u (clean_adjacency r) (SamePlaces-KeptPlaces graph u same_u) (
            KeptPlaces-trans u r (clean_adjacency r)
              (remove_place-KeptPlaces u place_idx (dropped_after u same_u))
              (SamePlaces-KeptPlaces r (clean_adjacency r) cleaned));
        fewer =
            ap suc (count_live-SamePlaces r (clean_adjacency r) cleaned)
            ∙ remove_place-live u place_idx x ex (sx.2 ∙ is.live)
            ∙ count_live-SamePlaces graph u same_u;
      }

  pub eliminate-Eliminates :
      (other : ReductionGraph) × (step : ReductionStep) × (eliminate graph place_idx place b
        ≡ some (other, step))
      × Eliminates graph other
  unfolding eliminate
  eliminate-Eliminates =
      let (sources, targets, e, e', range', same') = relinked in
      (
        clean_adjacency (remove_place (unlinked (linked targets)) place_idx),
        intermediate_place_eliminated place.originals
            (b.in_transition.originals ++ b.out_transition.originals),
        rw (eliminate, e, e') refl,
        finish (linked targets) range' same',
      )
