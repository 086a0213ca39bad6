-- ===== src/Net/Reduce/Sequence/Diverges.antt =====
-- src/net/reduce/sequence_merge.rs: the inner loop on a closed cycle.
use rust_pta.Prelude.{ℕ, zero, suc, ◌≡◌, ◌∙◌, refl, ap, arith, true, false}
use rust_pta.Prelude.{some, out_of_fuel, List, [], ◌∷◌}
use rust_pta.Prelude.{get_elem?, length, List-cases, inl, inr}
use rust_pta.Net.Structure.{Weight, TransitionType}
use rust_pta.Net.Reduce.Graph.{ReductionGraph, GraphPlace, GraphTransition, ReductionStep}
use rust_pta.Net.Reduce.Loops.{is_resources}
use rust_pta.Net.Reduce.Sequence.{
  Chain, chain_step, next_step, extend, walk_chain, starts_chain, after_chain, merge_at,
  first_merged, merge_loop, merge_linear_sequences, extended,
}

-- A place that is not removed, is no resource, and has one predecessor and one successor.
pub record IsLink (place : GraphPlace) : Type 0 where
  pub live : place.removed ≡ false
  pub plain : is_resources place.place.place_type ≡ false
  pub one_in : length place.incoming ≡ 1
  pub one_out : length place.outgoing ≡ 1

-- The place `i` is a link, and its only transition is not removed, takes from it alone, and gives as
-- many tokens to the place `next` alone.
pub record LeadsTo (graph : ReductionGraph) (i next : ℕ) : Type 0 where
  pub place : GraphPlace
  pub t_idx : ℕ
  pub transition : GraphTransition
  pub weight : Weight
  pub at : get_elem? graph.places i ≡ some place
  pub link : IsLink place
  pub first : get_elem? place.outgoing 0 ≡ some t_idx
  pub t_at : get_elem? graph.transitions t_idx ≡ some transition
  pub t_live : transition.removed ≡ false
  pub inputs_eq : transition.inputs ≡ (i, weight) ∷ []
  pub outputs_eq : transition.outputs ≡ (next, weight) ∷ []

module _ (graph : ReductionGraph) (On : ℕ → Type 0)
    (closed : (i : ℕ) → On i → (next : ℕ) × LeadsTo graph i next × On next) where
  chain_step_extends :
      (i next : ℕ)
      → LeadsTo graph i next
      → (q : GraphPlace) → get_elem? graph.places next ≡ some q
      → IsLink q
      → (t : ℕ) × (w : Weight) × (ty : TransitionType) × (chain_step graph i
          ≡ some (extend t next w ty false))
  unfolding chain_step next_step
  chain_step_extends i next l q eq lq =
      (l.t_idx, l.weight, l.transition.transition.transition_type, ground arith)

  walk_chain_next :
      (fuel i next t : ℕ) (w : Weight) (ty : TransitionType) (chain : Chain)
      → chain_step graph i ≡ some (extend t next w ty false)
      → walk_chain graph (suc fuel) i chain
        ≡ walk_chain graph fuel next (extended chain t next w ty)
  unfolding walk_chain
  walk_chain_next fuel i next t w ty chain e = rw (walk_chain, e) refl

  walk_chain-out_of_fuel :
      (fuel i : ℕ) (chain : Chain) → On i → walk_chain graph fuel i chain ≡ out_of_fuel
  unfolding walk_chain
  walk_chain-out_of_fuel zero i chain on = refl
  walk_chain-out_of_fuel (suc fuel) i chain on =
      let (next, l, on') = closed i on in
      let (after, l', _) = closed next on' in
      let (t, w, ty, e) = chain_step_extends i next l l'.place l'.at l'.link in
      walk_chain_next fuel i next t w ty chain e
      ∙ walk_chain-out_of_fuel fuel next (extended chain t next w ty) on'

  starts_on : (i : ℕ) → On i → starts_chain graph i ≡ some true
  unfolding starts_chain
  starts_on i on = let (next, l, _) = closed i on in let link = l.link in ground arith

  merge_at-out_of_fuel : (fuel i : ℕ) → On i → merge_at fuel graph i ≡ out_of_fuel
  unfolding merge_at after_chain
  merge_at-out_of_fuel fuel i on =
      rw
        (
          merge_at,
          starts_on i on,
          walk_chain-out_of_fuel fuel i
              (record { places = i ∷ []; transitions = []; weights = []; types = [] }) on,
        )
        refl

  first_merged-out_of_fuel : (fuel n : ℕ) → On 0 → first_merged fuel graph (suc n) 0 ≡ out_of_fuel
  unfolding first_merged
  first_merged-out_of_fuel fuel n on = rw (first_merged, merge_at-out_of_fuel fuel 0 on) refl

  merge_loop-out_of_fuel :
      (fuel rounds n : ℕ) (steps : List ReductionStep)
      → On 0
      → length graph.places ≡ suc n
      → merge_loop fuel (suc rounds) graph steps ≡ out_of_fuel
  unfolding merge_loop
  merge_loop-out_of_fuel fuel rounds n steps on len =
      rw (merge_loop, len, first_merged-out_of_fuel fuel n on) refl

-- The loop that follows a sequence keeps no set of visited places. Where the first place lies on a
-- closed set of places each of which is a link to the next, as the places of a cycle that holds a
-- token are, no number of rounds is enough: `merge_linear_sequences` does not return.
pub merge_linear_sequences-out_of_fuel :
    (graph : ReductionGraph) (On : ℕ → Type 0)
    → ((i : ℕ) → On i → (next : ℕ) × LeadsTo graph i next × On next)
    → On 0
    → (fuel : ℕ) → merge_linear_sequences fuel graph ≡ out_of_fuel
unfolding merge_linear_sequences
merge_linear_sequences-out_of_fuel graph On closed on fuel =
    let (next, l, _) = closed 0 on in
    elim (List-cases graph.places) [
      | inl none_there ↦ absurd (cc (l.at))
      | inr (x, xs, e) ↦
          merge_loop-out_of_fuel graph On closed fuel (length graph.places) (length xs) [] on
            (ap length e)
    ]
