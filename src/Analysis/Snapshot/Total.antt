-- ===== src/Analysis/Snapshot/Total.antt =====
-- src/analysis/reachability.rs: the constructors of nodes and edges do not panic on markings of the
-- net's size.
use rust_pta.Prelude.{
  Returns, >>=-Returns, get_elem?-Returns, ℕ, ◌<◌, refl, Bool, List, [], ◌∷◌, ◌∈◌, inl, inr,
}
use rust_pta.Prelude.{arith, get_elem?, get_elem?-eq-get_or, for_each, traverse}
use rust_pta.Net.IndexVec.{TransitionId, iter_enumerated, enumerate_from, for_each-enumerate_from}
use rust_pta.Net.Structure.{Marking, Place}
use rust_pta.Net.Incidence.Shape.{get-eq-entry}
use rust_pta.Net.Core.{Net, places_len, transitions_len}
use rust_pta.Net.Core.Build.{IsWf}
use rust_pta.Net.Core.Enabled.{Fits}
use rust_pta.Analysis.Snapshot.{
  StateNode, StatePlaceSnapshot, TokenChange, ArcSnapshot, transition_summary, snapshot_step,
  state_node, update_enabled, edge_step, state_edge,
}

module _ (net : Net) (wf : IsWf net) where
  snapshot_step-Returns :
      (m : Marking) (zero_tokens : Bool)
      → Fits net m
      → (ps : List StatePlaceSnapshot) (k : ℕ) (place : Place) → k < places_len net
      → Returns (snapshot_step m zero_tokens ps (k, place))
  unfolding snapshot_step
  snapshot_step-Returns m zero_tokens fits ps k place hk =
      >>=-Returns (get_elem? m k) _ (get_elem?-Returns m k (omega arith)) (λ tokens e. (_, refl))

  pub state_node-Returns :
      (index : ℕ) (m : Marking) (zero_tokens : Bool)
      → Fits net m
      → Returns (state_node index m net zero_tokens)
  unfolding state_node iter_enumerated
  state_node-Returns index m zero_tokens fits =
      >>=-Returns (for_each (snapshot_step m zero_tokens) [] (enumerate_from 0 net.places)) _
        (for_each-enumerate_from (snapshot_step m zero_tokens) (places_len net) wf.places_fit
          (snapshot_step-Returns m zero_tokens fits) net.places 0 [] (omega arith))
        (λ places e. (_, refl))

  pub transition_summary-Returns :
      (t : TransitionId) → t < transitions_len net → Returns (transition_summary net t)
  unfolding transition_summary
  transition_summary-Returns t ht =
      >>=-Returns (get_elem? net.transitions t) _ (get_elem?-Returns net.transitions t ht)
        (λ transition e. (_, refl))

  traverse-Returns :
      (ts : List TransitionId)
      → ((t : TransitionId) → t ∈ ts → t < transitions_len net)
      → Returns (traverse (transition_summary net) ts)
  unfolding traverse
  traverse-Returns [] h = (_, refl)
  traverse-Returns (t ∷ ts) h =
      >>=-Returns (transition_summary net t) _ (transition_summary-Returns t (h t (inl refl)))
        (λ y e.
          >>=-Returns (traverse (transition_summary net) ts) _
            (traverse-Returns ts (λ u mem. h u (inr mem))) (λ ys e'. (_, refl)))

  pub update_enabled-Returns :
      (ts : List TransitionId) (n : StateNode)
      → ((t : TransitionId) → t ∈ ts → t < transitions_len net)
      → Returns (update_enabled net ts n)
  unfolding update_enabled
  update_enabled-Returns ts n h =
      >>=-Returns (traverse (transition_summary net) ts) _ (traverse-Returns ts h)
        (λ enabled e. (_, refl))

  edge_step-Returns :
      (t : TransitionId) (m next : Marking)
      → t < transitions_len net
      → Fits net m
      → Fits net next
      → (parts : List TokenChange × List ArcSnapshot) (k : ℕ) (place : Place) → k < places_len net
      → Returns (edge_step net t m next parts (k, place))
  unfolding edge_step
  edge_step-Returns t m next ht fits fits' (changes, arcs) k place hk =
      let e1 = get_elem?-eq-get_or m k 0 (omega arith) in
      let e2 = get_elem?-eq-get_or next k 0 (omega arith) in
      let e3 = get-eq-entry net.pre wf.pre_shape k t hk ht in
      let e4 = get-eq-entry net.post wf.post_shape k t hk ht in rw (e1, e2, e3, e4) (_, refl)

  pub state_edge-Returns :
      (t : TransitionId) (m next : Marking)
      → t < transitions_len net
      → Fits net m
      → Fits net next
      → Returns (state_edge net t m next)
  unfolding state_edge iter_enumerated
  state_edge-Returns t m next ht fits fits' =
      >>=-Returns (transition_summary net t) _ (transition_summary-Returns t ht) (λ summary e.
        >>=-Returns (for_each (edge_step net t m next) ([], []) (enumerate_from 0 net.places)) _
          (for_each-enumerate_from (edge_step net t m next) (places_len net) wf.places_fit
            (edge_step-Returns t m next ht fits fits') net.places 0 ([], []) (omega arith))
          (λ parts e'. (_, refl)))
