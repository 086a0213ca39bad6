-- ===== src/Net/Reduce/Graph/Arcs.antt =====
-- src/net/reduce/graph.rs: one arc that is read into the graph.
use rust_pta.Prelude.{ℕ, ◌<◌, ◌≡◌, ◌≢◌, ◌⊎◌, inl, inr, refl, sym, ap, subst}
use rust_pta.Prelude.{◌∙◌, arith, true, Bool-cases, Option, none, some}
use rust_pta.Prelude.{
  List, [], ◌∷◌, ◌++◌, get_elem?, set, length, length-set, All, All-set, All-append,
}
use rust_pta.Prelude.{get_elem?-Returns, get_elem?-set_self, get_elem?-set_other, ==→≡, ◌==◌}
use rust_pta.Prelude.{if◌then◌else◌, Returns}
use rust_pta.Net.Structure.{Weight}
use rust_pta.Net.Core.{Net, places_len, transitions_len}
use rust_pta.Net.Reduce.Graph.{
  ReductionGraph, GraphPlace, GraphTransition, push_outgoing, push_incoming, push_input,
  push_output, read_input, read_output, without_arcs, has_caps, update_at,
}
use rust_pta.Net.Reduce.Pairwise.{All2, All2-set, All2-trans, All-get_elem?}
use rust_pta.Net.Reduce.InRange.{InRange, PlaceIn, TransitionIn}
use rust_pta.Net.Reduce.Keeps.{SamePlace}

-- The weight that a list of arcs gives to a place: that of the last arc, or else `v`.
abbrev pub after : ℕ → Weight → List (ℕ × Weight) → Weight
after p v [] = v
after p v ((q, w) ∷ rest) = after p (if q == p then w else v) rest

pub after-push :
    (p : ℕ) (v : Weight) (arcs : List (ℕ × Weight)) (q : ℕ) (w : Weight)
    → after p v (arcs ++ (q, w) ∷ []) ≡ (if q == p then w else after p v arcs)
after-push p v [] q w = refl
after-push p v ((r, x) ∷ arcs) q w = after-push p (if r == p then x else v) arcs q w

abbrev pub inputs_of : Option GraphTransition → List (ℕ × Weight)
inputs_of none = []
inputs_of (some t) = t.inputs

abbrev pub outputs_of : Option GraphTransition → List (ℕ × Weight)
outputs_of none = []
outputs_of (some t) = t.outputs

-- The weight of the arc from a place to a transition, and of that from a transition to a place.
unfoldable pub in_weight : ReductionGraph → ℕ → ℕ → Weight
in_weight graph p t = after p 0 (inputs_of (get_elem? graph.transitions t))

unfoldable pub out_weight : ReductionGraph → ℕ → ℕ → Weight
out_weight graph p t = after p 0 (outputs_of (get_elem? graph.transitions t))

abbrev pub SameTransition : GraphTransition → GraphTransition → Type 0
SameTransition x y =
    (y.transition ≡ x.transition) × (y.originals ≡ x.originals) × (y.removed ≡ x.removed)

-- The graph has the places and the transitions of the net, and its indices are in range.
pub record IsOf (net : Net) (graph : ReductionGraph) : Type 0 where
  pub range : InRange graph
  pub places_same : All2 SamePlace ((without_arcs net).places) graph.places
  pub transitions_same : All2 SameTransition ((without_arcs net).transitions) graph.transitions
  pub places_count : length graph.places ≡ places_len net
  pub transitions_count : length graph.transitions ≡ transitions_len net
  pub capacity_eq : graph.has_capacity ≡ has_caps net.caps

-- An arc of the weight `w` is read: one side has it, unless it is zero, and all else is as before.
pub record ReadsArc (net : Net) (side other : ReductionGraph → ℕ → ℕ → Weight)
    (graph : ReductionGraph) (p t : ℕ) (w : Weight) (r : Option ReductionGraph) : Type 0 where
  pub out : ReductionGraph
  pub returns : r ≡ some out
  pub is : IsOf net out
  pub self : side out p t ≡ (if w == 0 then side graph p t else w)
  pub others : (q u : ℕ) → (q ≢ p) ⊎ (u ≢ t) → side out q u ≡ side graph q u
  pub same_other : (q u : ℕ) → other out q u ≡ other graph q u

if_self : (p w v : ℕ) → (if p == p then w else v) ≡ w
if_self p w v = ground arith

if_other : (p q w v : ℕ) → p ≢ q → (if p == q then w else v) ≡ v
if_other p q w v ne = ground arith

-- The arcs on one side of the transition at `t`, after one more is pushed there.
module _ (arcs_of : Option GraphTransition → List (ℕ × Weight)) (ts : List GraphTransition) (t : ℕ)
    (y y' : GraphTransition) (p w : ℕ) (at : get_elem? ts t ≡ some y)
    (pushed : arcs_of (some y') ≡ arcs_of (some y) ++ (p, w) ∷ []) where
  pushed_self : after p 0 (arcs_of (get_elem? (set ts t y') t)) ≡ w
  pushed_self = rw (get_elem?-set_self ts t y y' at, pushed, after-push) (if_self p w _)

  pushed_others :
      (q u : ℕ)
      → (q ≢ p) ⊎ (u ≢ t)
      → after q 0 (arcs_of (get_elem? (set ts t y') u)) ≡ after q 0 (arcs_of (get_elem? ts u))
  pushed_others q u ne = elim (Bool-cases (u == t)) [
    | inr e ↦ rw (get_elem?-set_other ts t u y' (ground arith)) refl
    | inl e ↦
        let same : u ≡ t = ==→≡ u t e in
        let apart : p ≢ q = ground arith in
        rw (same, get_elem?-set_self ts t y y' at, at, pushed, after-push) (if_other p q w _ apart)
  ]

-- The arcs on the other side.
kept_arcs :
    (arcs_of : Option GraphTransition → List (ℕ × Weight)) (ts : List GraphTransition) (t : ℕ)
    (y y' : GraphTransition)
    → get_elem? ts t ≡ some y
    → arcs_of (some y') ≡ arcs_of (some y)
    → (u : ℕ) → arcs_of (get_elem? (set ts t y') u) ≡ arcs_of (get_elem? ts u)
kept_arcs arcs_of ts t y y' at same u = elim (Bool-cases (u == t)) [
  | inr e ↦ rw (get_elem?-set_other ts t u y' (ground arith)) refl
  | inl e ↦ let eq : u ≡ t = ==→≡ u t e in rw (eq, get_elem?-set_self ts t y y' at, at) same
]

module _ (net : Net) (graph : ReductionGraph) (is : IsOf net graph) (p t : ℕ) (w : Weight)
    (hp : p < places_len net) (ht : t < transitions_len net) where
  -- One place and one transition are replaced by others that differ in their arcs.
  replaced :
      (x x' : GraphPlace) (y y' : GraphTransition)
      → get_elem? graph.places p ≡ some x
      → get_elem? graph.transitions t ≡ some y
      → SamePlace x x'
      → SameTransition y y'
      → PlaceIn (length graph.transitions) x'
      → TransitionIn (length graph.places) y'
      → IsOf net (record graph {
        places = set graph.places p x';
        transitions = set graph.transitions t y';
      })
  replaced x x' y y' ex ey sx sy inx iny =
      let np = length-set graph.places p x' in
      let nt = length-set graph.transitions t y' in
      record {
        range = record {
          places_in =
              subst (λ n. All (PlaceIn n) (set graph.places p x')) (sym nt)
                (All-set (PlaceIn (length graph.transitions)) graph.places p x' is.range.places_in
                  inx);
          transitions_in =
              subst (λ n. All (TransitionIn n) (set graph.transitions t y')) (sym np)
                (All-set (TransitionIn (length graph.places)) graph.transitions t y'
                  is.range.transitions_in iny);
        };
        places_same =
            All2-trans SamePlace (λ x. (refl, refl, refl))
              (λ a b c h k. (k.0 ∙ h.0, k.1 ∙ h.1, k.2 ∙ h.2)) _ graph.places _ is.places_same
              (All2-set SamePlace (λ x. (refl, refl, refl))
                (λ a b c h k. (k.0 ∙ h.0, k.1 ∙ h.1, k.2 ∙ h.2)) graph.places p x x' ex sx);
        transitions_same =
            All2-trans SameTransition (λ x. (refl, refl, refl))
              (λ a b c h k. (k.0 ∙ h.0, k.1 ∙ h.1, k.2 ∙ h.2)) _ graph.transitions _
              is.transitions_same
              (All2-set SameTransition (λ x. (refl, refl, refl))
                (λ a b c h k. (k.0 ∙ h.0, k.1 ∙ h.1, k.2 ∙ h.2)) graph.transitions t y y' ey sy);
        places_count = np ∙ is.places_count;
        transitions_count = nt ∙ is.transitions_count;
        capacity_eq = is.capacity_eq;
      }

  zero_arc :
      (side other : ReductionGraph → ℕ → ℕ → Weight)
      → (w == 0) ≡ true
      → ReadsArc net side other graph p t w (some graph)
  zero_arc side other e = record {
    out = graph;
    returns = refl;
    is = is;
    self = rw e refl;
    others = λ q u ne. refl;
    same_other = λ q u. refl;
  }

  place_at : Returns (get_elem? graph.places p)
  place_at = get_elem?-Returns graph.places p (omega (arith, is.places_count))

  transition_at : Returns (get_elem? graph.transitions t)
  transition_at = get_elem?-Returns graph.transitions t (omega (arith, is.transitions_count))

  place_in : PlaceIn (length graph.transitions) place_at.0
  place_in =
      All-get_elem? (PlaceIn (length graph.transitions)) graph.places p is.range.places_in
        place_at.1

  transition_in : TransitionIn (length graph.places) transition_at.0
  transition_in =
      All-get_elem? (TransitionIn (length graph.places)) graph.transitions t is.range.transitions_in
        transition_at.1

  p_below : p < length graph.places
  p_below = omega (arith, is.places_count)

  t_below : t < length graph.transitions
  t_below = omega (arith, is.transitions_count)

  -- Reading an entry of `pre` gives the graph that arc from the place to the transition.
  pub read_input-ReadsArc :
      ReadsArc net in_weight out_weight graph p t w (read_input p graph (t, w))
  unfolding read_input update_at in_weight out_weight
  read_input-ReadsArc =
      let (x, ex) = place_at in
      let (y, ey) = transition_at in
      let x' = push_outgoing t x in
      let y' = push_input p w y in
      elim (Bool-cases (w == 0)) [
        | inl e ↦ rw (read_input, e) (zero_arc in_weight out_weight e)
        | inr e ↦ record {
          out = record graph {
            places = set graph.places p x';
            transitions = set graph.transitions t y';
          };
          returns = rw (read_input, e, ex, ey) refl;
          is =
              replaced x x' y y' ex ey (refl, refl, refl) (refl, refl, refl)
                (place_in.0, All-append _ x.outgoing (t ∷ []) place_in.1 (t_below, tt))
                (
                  All-append _ y.inputs ((p, w) ∷ []) transition_in.0 (p_below, tt),
                  transition_in.1,
                );
          self = rw e (pushed_self inputs_of graph.transitions t y y' p w ey refl);
          others = pushed_others inputs_of graph.transitions t y y' p w ey refl;
          same_other =
              λ q u. ap (after q 0) (kept_arcs outputs_of graph.transitions t y y' ey refl u);
        }
      ]

  -- Reading an entry of `post` gives the graph that arc from the transition to the place.
  pub read_output-ReadsArc :
      ReadsArc net out_weight in_weight graph p t w (read_output p graph (t, w))
  unfolding read_output update_at in_weight out_weight
  read_output-ReadsArc =
      let (x, ex) = place_at in
      let (y, ey) = transition_at in
      let x' = push_incoming t x in
      let y' = push_output p w y in
      elim (Bool-cases (w == 0)) [
        | inl e ↦ rw (read_output, e) (zero_arc out_weight in_weight e)
        | inr e ↦ record {
          out = record graph {
            places = set graph.places p x';
            transitions = set graph.transitions t y';
          };
          returns = rw (read_output, e, ex, ey) refl;
          is =
              replaced x x' y y' ex ey (refl, refl, refl) (refl, refl, refl)
                (All-append _ x.incoming (t ∷ []) place_in.0 (t_below, tt), place_in.1)
                (
                  transition_in.0,
                  All-append _ y.outputs ((p, w) ∷ []) transition_in.1 (p_below, tt),
                );
          self = rw e (pushed_self outputs_of graph.transitions t y y' p w ey refl);
          others = pushed_others outputs_of graph.transitions t y y' p w ey refl;
          same_other =
              λ q u. ap (after q 0) (kept_arcs inputs_of graph.transitions t y y' ey refl u);
        }
      ]
