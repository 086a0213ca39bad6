-- ===== src/Net/Reduce/Intermediate/Guards.antt =====
-- src/net/reduce/intermediate_place.rs: the guards of the elimination do not panic on a graph whose
-- indices are in range, and what they establish.
use rust_pta.Prelude.{ℕ, ◌≡◌, refl, true, false, Bool-cases, not, ◌||◌}
use rust_pta.Prelude.{Option, none, some, List, [], ◌∷◌, get_elem?, length, arith, Returns}
use rust_pta.Prelude.{◌==◌, inl, inr, if◌then◌else◌, get_elem?-Returns}
use rust_pta.Net.Reduce.Graph.{ReductionGraph, GraphPlace}
use rust_pta.Net.Reduce.Loops.{is_resources}
use rust_pta.Net.Reduce.Intermediate.{Between, between, same_weight}
use rust_pta.Net.Reduce.InRange.{PlaceIn, Below}
use rust_pta.Net.Reduce.Keeps.{Droppable}

-- What the guards establish of a place and its two transitions.
pub record IsBetween (graph : ReductionGraph) (place : GraphPlace) (b : Between) : Type 0 where
  pub live : place.removed ≡ false
  pub droppable : Droppable place
  pub in_eq : get_elem? graph.transitions b.in_idx ≡ some b.in_transition
  pub out_eq : get_elem? graph.transitions b.out_idx ≡ some b.out_transition

pub between-IsBetween :
    (graph : ReductionGraph) (place : GraphPlace) (b : Between)
    → between graph place ≡ some (some b)
    → IsBetween graph place b
unfolding between
between-IsBetween graph place b e = ground arith

first-Returns {ℓ} : {A : Type ℓ} (xs : List A) → (length xs == 1) ≡ true → Returns (get_elem? xs 0)
first-Returns [] e = cc
first-Returns (x ∷ xs) e = (x, refl)

same_weight-Returns : (b : Between) → Returns (same_weight b)
unfolding same_weight
same_weight-Returns b = elim (Bool-cases (length b.in_transition.outputs == 1)) [
  | inr e ↦ (false, ground arith)
  | inl e ↦ elim (Bool-cases (length b.out_transition.inputs == 1)) [
    | inr e' ↦ (false, ground arith)
    | inl e' ↦
        let (arc_in, i) = first-Returns b.in_transition.outputs e in
        let (arc_out, o) = first-Returns b.out_transition.inputs e' in
        (arc_in.1 == arc_out.1, rw (same_weight, e, e', i, o) refl)
  ]
]

module _ (graph : ReductionGraph) (place : GraphPlace)
    (range : PlaceIn (length graph.transitions) place) where
  -- The transition at the only index of a list of indices in range.
  only_transition :
      (indices : List ℕ)
      → (length indices == 1) ≡ true
      → Below (length graph.transitions) indices
      → (i : ℕ) × (get_elem? indices 0 ≡ some i) × Returns (get_elem? graph.transitions i)
  only_transition [] e h = cc
  only_transition (i ∷ rest) e h = (i, refl, get_elem?-Returns graph.transitions i h.0)

  pub between-Returns : Returns (between graph place)
  unfolding between
  between-Returns = elim (Bool-cases (length place.incoming == 1)) [
    | inr e ↦ (none, ground arith)
    | inl e ↦ elim (Bool-cases (length place.outgoing == 1)) [
      | inr e' ↦ (none, ground arith)
      | inl e' ↦
          let (i, ei, (t, et)) = only_transition place.incoming e range.0 in
          let (o, eo, (u, eu)) = only_transition place.outgoing e' range.1 in
          let b : Between = record {
            in_idx = i;
            in_transition = t;
            out_idx = o;
            out_transition = u;
          } in
          let (same, es) = same_weight-Returns b in
          let r : Option Between =
            if place.removed || is_resources place.place.place_type || not (place.place.tokens == 0)
            then none
            else if t.removed || u.removed
            then none
            else if same
            then some b
            else none in
          (r, ground arith)
    ]
  ]
