-- ===== src/Net/Reduce/Graph/Reads.antt =====
-- src/net/reduce/graph.rs: `from_net` does not panic on a well-formed net, and the graph that it
-- returns has the places, the transitions and the arcs of the net.
use rust_pta.Prelude.{ℕ, zero, suc, ◌+◌, ◌≡◌, refl, ap}
use rust_pta.Prelude.{◌∙◌, some}
use rust_pta.Prelude.{for_each, get_or, ◌≤◌, arith, List, [], ◌∷◌, map, get_elem?, length, All}
use rust_pta.Prelude.{length-map}
use rust_pta.Net.IndexVec.{PlaceId, TransitionId, iter_enumerated, enumerate_from, id_limit}
use rust_pta.Net.Structure.{Weight, Place, Transition}
use rust_pta.Net.Core.{Net, transitions_len}
use rust_pta.Net.Core.Build.{IsWf, pre_weight, post_weight}
use native.Mathlib.Nat.{zero-add}
use rust_pta.Net.Reduce.Graph.Adjacent.{
  outgoing_at, incoming_at, outgoing_of, incoming_of, nonzero, rows_lem, read_input-Pushes,
  read_output-Pushes,
}
use rust_pta.Net.Reduce.Graph.{
  ReductionGraph, read_row, read_input, read_output, without_arcs, from_net, fresh_place,
  fresh_transition,
}
use rust_pta.Net.Reduce.Graph.Arcs.{
  in_weight, out_weight, IsOf, read_input-ReadsArc, read_output-ReadsArc, SameTransition, inputs_of,
  outputs_of,
}
use rust_pta.Net.Reduce.Pairwise.{All2-refl}
use rust_pta.Net.Reduce.InRange.{PlaceIn, TransitionIn}
use rust_pta.Net.Reduce.Keeps.{SamePlace}
use rust_pta.Net.Reduce.Graph.Rows.{read_matrix}

pub length-enumerate_from {ℓ} :
    {A : Type ℓ} (k : ℕ) (xs : List A) → length (enumerate_from k xs) ≡ length xs
unfolding enumerate_from
length-enumerate_from k [] = refl
length-enumerate_from k (x ∷ xs) = ap suc (length-enumerate_from (k + 1) xs)

length-fresh {ℓ κ} :
    {A : Type ℓ} {B : Type κ} (f : ℕ × A → B) (xs : List A)
    → length (map f (iter_enumerated xs)) ≡ length xs
unfolding iter_enumerated
length-fresh f xs = length-map f (enumerate_from 0 xs) ∙ length-enumerate_from 0 xs

All-fresh :
    {A B : Type 0} (P : B → Type 0) (f : A → B) (xs : List A)
    → ((x : A) → P (f x))
    → All P (map f xs)
All-fresh P f [] h = tt
All-fresh P f (x ∷ xs) h = (h x, All-fresh P f xs h)

no_inputs :
    (xs : List (TransitionId × Transition)) (u : ℕ)
    → inputs_of (get_elem? (map fresh_transition xs) u) ≡ []
unfolding fresh_transition
no_inputs [] u = refl
no_inputs (x ∷ xs) zero = refl
no_inputs (x ∷ xs) (suc u) = no_inputs xs u

no_outputs :
    (xs : List (TransitionId × Transition)) (u : ℕ)
    → outputs_of (get_elem? (map fresh_transition xs) u) ≡ []
unfolding fresh_transition
no_outputs [] u = refl
no_outputs (x ∷ xs) zero = refl
no_outputs (x ∷ xs) (suc u) = no_outputs xs u

place_fine : (n : ℕ) (x : PlaceId × Place) → PlaceIn n (fresh_place x)
unfolding fresh_place
place_fine n (id, place) = (tt, tt)

transition_fine : (n : ℕ) (x : TransitionId × Transition) → TransitionIn n (fresh_transition x)
unfolding fresh_transition
transition_fine n (id, transition) = (tt, tt)

no_in : (net : Net) (q u : ℕ) → in_weight (without_arcs net) q u ≡ 0
unfolding in_weight without_arcs
no_in net q u = rw (no_inputs (iter_enumerated net.transitions) u) refl

no_out : (net : Net) (q u : ℕ) → out_weight (without_arcs net) q u ≡ 0
unfolding out_weight without_arcs
no_out net q u = rw (no_outputs (iter_enumerated net.transitions) u) refl

without_arcs-IsOf : (net : Net) → IsOf net (without_arcs net)
unfolding without_arcs
without_arcs-IsOf net = record {
  range = record {
    places_in =
        All-fresh (PlaceIn _) fresh_place (iter_enumerated net.places)
          (place_fine (length ((without_arcs net).transitions)));
    transitions_in =
        All-fresh (TransitionIn _) fresh_transition (iter_enumerated net.transitions)
          (transition_fine (length ((without_arcs net).places)));
  };
  places_same =
      All2-refl SamePlace (λ x. (refl, refl, refl)) (λ x y z h k. (k.0 ∙ h.0, k.1 ∙ h.1, k.2 ∙ h.2))
        _;
  transitions_same =
      All2-refl SameTransition (λ x. (refl, refl, refl))
        (λ x y z h k. (k.0 ∙ h.0, k.1 ∙ h.1, k.2 ∙ h.2)) _;
  places_count = length-fresh fresh_place net.places;
  transitions_count = length-fresh fresh_transition net.transitions;
  capacity_eq = refl;
}

-- The graph has the places, the transitions and the arcs of the net. A place lists the transitions of
-- its arcs: as outgoing those that its row of `pre` has a weight for, as incoming those of `post`.
pub record IsRead (net : Net) (graph : ReductionGraph) : Type 0 where
  pub is : IsOf net graph
  pub inputs_eq : (p t : ℕ) → in_weight graph p t ≡ pre_weight net p t
  pub outputs_eq : (p t : ℕ) → out_weight graph p t ≡ post_weight net p t
  pub outgoing_eq : (p : ℕ) → outgoing_at graph p ≡ nonzero 0 (get_or net.pre.rows p [])
  pub incoming_eq : (p : ℕ) → incoming_at graph p ≡ nonzero 0 (get_or net.post.rows p [])

no_outgoing :
    (xs : List (PlaceId × Place)) (q : ℕ) → outgoing_of (get_elem? (map fresh_place xs) q) ≡ []
unfolding fresh_place
no_outgoing [] q = refl
no_outgoing (x ∷ xs) zero = refl
no_outgoing (x ∷ xs) (suc q) = no_outgoing xs q

no_incoming :
    (xs : List (PlaceId × Place)) (q : ℕ) → incoming_of (get_elem? (map fresh_place xs) q) ≡ []
unfolding fresh_place
no_incoming [] q = refl
no_incoming (x ∷ xs) zero = refl
no_incoming (x ∷ xs) (suc q) = no_incoming xs q

empty_lists :
    (net : Net) (q : ℕ)
    → (outgoing_at (without_arcs net) q ≡ []) × (incoming_at (without_arcs net) q ≡ [])
unfolding without_arcs
empty_lists net q =
    (no_outgoing (iter_enumerated net.places) q, no_incoming (iter_enumerated net.places) q)

narrow :
    (n : ℕ) (rows : List (List Weight))
    → n ≤ id_limit
    → All (λ (row : List Weight). length row ≡ n) rows
    → All (λ (row : List Weight). length row ≤ id_limit) rows
narrow n [] fits h = tt
narrow n (row ∷ rows) fits (e, h) = (omega arith, narrow n rows fits h)

-- The loops over the two matrices fill the lists of the places.
lists_lem :
    (net : Net) (a b : ReductionGraph)
    → IsWf net
    → for_each (read_row read_input) (without_arcs net) (iter_enumerated net.pre.rows) ≡ some a
    → for_each (read_row read_output) a (iter_enumerated net.post.rows) ≡ some b
    → (p : ℕ)
    → (outgoing_at b p ≡ nonzero 0 (get_or net.pre.rows p []))
      × (incoming_at b p ≡ nonzero 0 (get_or net.post.rows p []))
unfolding iter_enumerated
lists_lem net a b wf ea eb p =
    let (out_a, _, in_a) =
      rows_lem read_input outgoing_at incoming_at read_input-Pushes net.pre.rows 0
        (without_arcs net) a (omega (arith, wf.pre_shape.rows_len, wf.places_fit))
        (narrow (transitions_len net) net.pre.rows wf.transitions_fit wf.pre_shape.widths) ea in
    let (in_b, _, out_b) =
      rows_lem read_output incoming_at outgoing_at read_output-Pushes net.post.rows 0 a b
        (omega (arith, wf.post_shape.rows_len, wf.places_fit))
        (narrow (transitions_len net) net.post.rows wf.transitions_fit wf.post_shape.widths) eb in
    let (no_out_yet, no_in_yet) = empty_lists net p in
    (out_b p ∙ rw (zero-add, no_out_yet) at (out_a p), rw (zero-add, in_a p, no_in_yet) at (in_b p))

-- On a well-formed net `from_net` does not panic, and the graph has the places, the transitions and
-- the arcs of the net, each index in range; a place lists as outgoing, in order, the transitions for
-- which its row of `pre` has a weight that is not zero, and as incoming those of its row of `post`.
pub from_net-IsRead :
    (net : Net) → IsWf net → (g : ReductionGraph) × (from_net net ≡ some g) × IsRead net g
unfolding from_net
from_net-IsRead net wf =
    let (a, ea, is_a, in_a, out_a) =
      read_matrix net net.pre wf.pre_shape wf.places_fit wf.transitions_fit read_input in_weight
        out_weight (λ g is p t w. read_input-ReadsArc net g is p t w) (without_arcs net)
        (without_arcs-IsOf net) (no_in net) in
    let (b, eb, is_b, out_b, in_b) =
      read_matrix net net.post wf.post_shape wf.places_fit wf.transitions_fit read_output out_weight
        in_weight (λ g is p t w. read_output-ReadsArc net g is p t w) a is_a
        (λ q u. out_a q u ∙ no_out net q u) in
    (
      b,
      rw (from_net, ea) eb,
      record {
        is = is_b;
        inputs_eq = λ p t. in_b p t ∙ in_a p t;
        outputs_eq = out_b;
        outgoing_eq = λ p. (lists_lem net a b wf ea eb p).0;
        incoming_eq = λ p. (lists_lem net a b wf ea eb p).1;
      },
    )
