-- ===== src/Net/Reduce/InRange.antt =====
-- src/net/reduce/graph.rs: the indices of a working graph stay in range.
use rust_pta.Prelude.{ℕ, ◌<◌, ◌≡◌, refl, sym, subst, false, ◌⊎◌, Bool-cases, some}
use rust_pta.Prelude.{List, [], ◌∷◌, length, length-append, length-set, length-map, All}
use rust_pta.Prelude.{All-set, All-append, get_elem?, Option-cases, inl, inr, arith, ◌∙◌}
use rust_pta.Net.Structure.{Weight}
use rust_pta.Net.Reduce.Graph.{
  ReductionGraph, GraphPlace, GraphTransition, arc_place, remove_transition, remove_place,
  clean_adjacency, clean_place, clean_transition, add_transition, drop_outgoing, drop_incoming,
  drop_output, drop_input, gone_transition, gone_place, same_index, live_place, without_transition,
  without_place,
}
use rust_pta.Net.Reduce.Pairwise.{
  All-retain, All-map, All-modify_each, All-mono, length-modify_each,
}

abbrev pub Below : ℕ → List ℕ → Type 0
Below n indices = All (λ t. t < n) indices

abbrev pub ArcsBelow : ℕ → List (ℕ × Weight) → Type 0
ArcsBelow n arcs = All (λ arc. arc_place arc < n) arcs

abbrev pub PlaceIn : ℕ → GraphPlace → Type 0
PlaceIn n place = Below n place.incoming × Below n place.outgoing

abbrev pub TransitionIn : ℕ → GraphTransition → Type 0
TransitionIn n transition = ArcsBelow n transition.inputs × ArcsBelow n transition.outputs

-- Every index that a place or a transition holds is one of a transition or a place.
pub record InRange (graph : ReductionGraph) : Type 0 where
  pub places_in : All (PlaceIn (length graph.transitions)) graph.places
  pub transitions_in : All (TransitionIn (length graph.places)) graph.transitions

-- The numbers of places and transitions are those of another graph.
pub record SameSize (graph other : ReductionGraph) : Type 0 where
  pub same_places_len : length other.places ≡ length graph.places
  pub same_transitions_len : length other.transitions ≡ length graph.transitions

-- An edit keeps the indices in range when it keeps the sizes.
edited :
    (graph other : ReductionGraph)
    → SameSize graph other
    → All (PlaceIn (length graph.transitions)) other.places
    → All (TransitionIn (length graph.places)) other.transitions
    → InRange other
edited graph other size p t = record {
  places_in = subst (λ n. All (PlaceIn n) other.places) (sym size.same_transitions_len) p;
  transitions_in = subst (λ n. All (TransitionIn n) other.transitions) (sym size.same_places_len) t;
}

drop_outgoing-PlaceIn :
    (n idx : ℕ) (place : GraphPlace) → PlaceIn n place → PlaceIn n (drop_outgoing idx place)
drop_outgoing-PlaceIn n idx place h = (h.0, All-retain (λ t. t < n) _ place.outgoing h.1)

drop_incoming-PlaceIn :
    (n idx : ℕ) (place : GraphPlace) → PlaceIn n place → PlaceIn n (drop_incoming idx place)
drop_incoming-PlaceIn n idx place h = (All-retain (λ t. t < n) _ place.incoming h.0, h.1)

drop_output-TransitionIn :
    (n idx : ℕ) (t : GraphTransition) → TransitionIn n t → TransitionIn n (drop_output idx t)
drop_output-TransitionIn n idx t h = (h.0, All-retain (λ arc. arc_place arc < n) _ t.outputs h.1)

drop_input-TransitionIn :
    (n idx : ℕ) (t : GraphTransition) → TransitionIn n t → TransitionIn n (drop_input idx t)
drop_input-TransitionIn n idx t h = (All-retain (λ arc. arc_place arc < n) _ t.inputs h.0, h.1)

module _ (graph : ReductionGraph) (idx : ℕ) where
  pub remove_transition-cases :
      (remove_transition graph idx ≡ graph)
      ⊎ ((t : GraphTransition) × (get_elem? graph.transitions idx ≡ some t)
          × (remove_transition graph idx ≡ without_transition graph idx t))
  unfolding remove_transition
  remove_transition-cases = elim (Option-cases (get_elem? graph.transitions idx)) [
    | inl e ↦ inl (rw (remove_transition, e) refl)
    | inr (t, e) ↦ elim (Bool-cases t.removed) [
      | inl gone ↦ inl (rw (remove_transition, e, gone) refl)
      | inr live ↦ inr (t, e, rw (remove_transition, e, live) refl)
    ]
  ]

  pub remove_place-cases :
      (remove_place graph idx ≡ graph)
      ⊎ ((p : GraphPlace) × (get_elem? graph.places idx ≡ some p)
          × (p.removed ≡ false)
          × (remove_place graph idx ≡ without_place graph idx p))
  unfolding remove_place
  remove_place-cases = elim (Option-cases (get_elem? graph.places idx)) [
    | inl e ↦ inl (rw (remove_place, e) refl)
    | inr (p, e) ↦ elim (Bool-cases p.removed) [
      | inl gone ↦ inl (rw (remove_place, e, gone) refl)
      | inr live ↦ inr (p, e, live, rw (remove_place, e, live) refl)
    ]
  ]

  without_transition-SameSize :
      (t : GraphTransition) → SameSize graph (without_transition graph idx t)
  without_transition-SameSize t = record {
    same_places_len =
        length-modify_each arc_place (drop_incoming idx) t.outputs _
        ∙ length-modify_each arc_place (drop_outgoing idx) t.inputs graph.places;
    same_transitions_len = length-set graph.transitions idx (gone_transition t);
  }

  without_place-SameSize : (p : GraphPlace) → SameSize graph (without_place graph idx p)
  without_place-SameSize p = record {
    same_places_len = length-set graph.places idx (gone_place p);
    same_transitions_len =
        length-modify_each same_index (drop_input idx) p.outgoing _
        ∙ length-modify_each same_index (drop_output idx) p.incoming graph.transitions;
  }

  pub remove_transition-SameSize : SameSize graph (remove_transition graph idx)
  remove_transition-SameSize = elim remove_transition-cases [
    | inl e ↦ rw e (record { same_places_len = refl; same_transitions_len = refl })
    | inr (t, _, e) ↦ rw e (without_transition-SameSize t)
  ]

  pub remove_place-SameSize : SameSize graph (remove_place graph idx)
  remove_place-SameSize = elim remove_place-cases [
    | inl e ↦ rw e (record { same_places_len = refl; same_transitions_len = refl })
    | inr (p, _, _, e) ↦ rw e (without_place-SameSize p)
  ]

  module _ (range : InRange graph) where
    pub remove_transition-InRange : InRange (remove_transition graph idx)
    remove_transition-InRange =
        let n = length graph.transitions in
        elim remove_transition-cases [
          | inl e ↦ rw e range
          | inr (t, _, e) ↦ rw e (
              edited graph (without_transition graph idx t) (without_transition-SameSize t)
                (All-modify_each (PlaceIn n) (drop_incoming idx) (drop_incoming-PlaceIn n idx)
                  arc_place t.outputs _
                  (All-modify_each (PlaceIn n) (drop_outgoing idx) (drop_outgoing-PlaceIn n idx)
                    arc_place t.inputs graph.places range.places_in))
                (All-set (TransitionIn (length graph.places)) graph.transitions idx
                  (gone_transition t) range.transitions_in (tt, tt)))
        ]

    pub remove_place-InRange : InRange (remove_place graph idx)
    remove_place-InRange =
        let n = length graph.places in
        elim remove_place-cases [
          | inl e ↦ rw e range
          | inr (p, _, _, e) ↦ rw e (
              edited graph (without_place graph idx p) (without_place-SameSize p)
                (All-set (PlaceIn (length graph.transitions)) graph.places idx (gone_place p)
                  range.places_in (tt, tt))
                (All-modify_each (TransitionIn n) (drop_input idx) (drop_input-TransitionIn n idx)
                  same_index p.outgoing _
                  (All-modify_each (TransitionIn n) (drop_output idx)
                    (drop_output-TransitionIn n idx) same_index p.incoming graph.transitions
                    range.transitions_in)))
        ]

pub clean_adjacency-SameSize : (graph : ReductionGraph) → SameSize graph (clean_adjacency graph)
unfolding clean_adjacency
clean_adjacency-SameSize graph = record {
  same_places_len = length-map _ graph.places;
  same_transitions_len = length-map _ graph.transitions;
}

clean_place-PlaceIn :
    (n : ℕ) (ts : List GraphTransition) (p : GraphPlace)
    → PlaceIn n p
    → PlaceIn n (clean_place ts p)
unfolding clean_place
clean_place-PlaceIn n ts p h =
    (All-retain (λ t. t < n) _ p.incoming h.0, All-retain (λ t. t < n) _ p.outgoing h.1)

clean_transition-TransitionIn :
    (n : ℕ) (ps : List GraphPlace) (t : GraphTransition)
    → TransitionIn n t
    → TransitionIn n (clean_transition ps t)
unfolding clean_transition
clean_transition-TransitionIn n ps t h =
    let inputs =
      All-retain (λ arc. arc_place arc < n) (λ arc. live_place ps (arc_place arc)) t.inputs h.0 in
    let outputs =
      All-retain (λ arc. arc_place arc < n) (λ arc. live_place ps (arc_place arc)) t.outputs h.1 in
    elim (Bool-cases t.removed) [ inl e ↦ rw e h | inr e ↦ rw e (inputs, outputs) ]

pub clean_adjacency-InRange :
    (graph : ReductionGraph) → InRange graph → InRange (clean_adjacency graph)
unfolding clean_adjacency
clean_adjacency-InRange graph range =
    edited graph _ (clean_adjacency-SameSize graph)
      (All-map (PlaceIn (length graph.transitions)) _ graph.places
        (clean_place-PlaceIn (length graph.transitions) graph.transitions) range.places_in)
      (All-map (TransitionIn (length graph.places)) _ graph.transitions
        (clean_transition-TransitionIn (length graph.places) _) range.transitions_in)

pub add_transition-InRange :
    (graph : ReductionGraph) (t : GraphTransition)
    → InRange graph
    → TransitionIn (length graph.places) t
    → InRange (add_transition graph t)
unfolding add_transition
add_transition-InRange graph t range h = record {
  places_in =
      All-mono (PlaceIn (length graph.transitions)) (PlaceIn _)
        (λ p k. (
          All-mono _ _ (λ i lt. omega (arith, length-append graph.transitions (t ∷ []))) _ k.0,
          All-mono _ _ (λ i lt. omega (arith, length-append graph.transitions (t ∷ []))) _ k.1,
        ))
        graph.places range.places_in;
  transitions_in =
      All-append (TransitionIn (length graph.places)) graph.transitions (t ∷ [])
        range.transitions_in (h, tt);
}
