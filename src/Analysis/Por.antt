-- ===== src/Analysis/Por.antt =====
-- src/analysis/reachability.rs: `transitions_are_independent` and `StateGraph::with_config_por`, the
-- construction of the state graph with sleep sets. A set of transitions is a list; the order in which
-- a hash set is iterated is a parameter. The queue of pairs is kept as two queues of one length, that
-- of the nodes, in the state that is shared with the standard construction, and that of their sleep
-- sets.
pub mod Independent
mod Sets
mod Steps
mod Sound
mod Fires
pub mod Total
pub mod Round
pub mod Correct
use rust_pta.Prelude.{ℕ, zero, suc, ◌≡◌, ◌↔◌, ◌∈◌, Bool, true, false, not, ◌&&◌, ◌||◌}
use rust_pta.Prelude.{Option, none, some, ◌>>=◌, String, List, [], ◌∷◌, ◌++◌, length}
use rust_pta.Prelude.{◌==◌, ltb, if◌then◌else◌, for_each}
use rust_pta.Net.IndexVec.{PlaceId, TransitionId, iter_enumerated}
use rust_pta.Net.Structure.{Marking, Place}
use rust_pta.Net.Incidence
use rust_pta.Net.Core.{
  Net, Result, ok, err, FireError, enabled_transitions, fire_transition, firing,
}
use rust_pta.Analysis.Graph.{StableGraph}
use rust_pta.Analysis.Snapshot.{StateNode, StateEdge, update_enabled}
use rust_pta.Analysis.Reachability.{
  StateGraphConfig, Run, done, panicked, out_of_fuel, Search, find, contains, insert, at_limit,
  discover, connect, record_failure, begin, exploring,
}

abbrev pub Set : Type 0
Set = List TransitionId

-- How a hash set of transitions is iterated: in some order, each element once.
pub record SetOrder : Type 0 where
  pub iter : Set → Set
  pub mem-iter : (t : TransitionId) (set : Set) → (t ∈ iter set) ↔ (t ∈ set)
  pub length-iter : (set : Set) → length (iter set) ≡ length set

-- The loop of `transitions_are_independent` over the places.
unfoldable pub independent_from :
    Net → TransitionId → TransitionId → List (PlaceId × Place) → Option Bool
independent_from net t1 t2 [] = some true
independent_from net t1 t2 ((place_id, _) ∷ rest) = do
  w1_pre ← Incidence.get net.pre place_id t1
  w1_post ← Incidence.get net.post place_id t1
  w2_pre ← Incidence.get net.pre place_id t2
  w2_post ← Incidence.get net.post place_id t2
  if (ltb 0 w1_pre || ltb 0 w1_post) && (ltb 0 w2_pre || ltb 0 w2_post)
      then some false
      else independent_from net t1 t2 rest

unfoldable pub transitions_are_independent : Net → TransitionId → TransitionId → Option Bool
transitions_are_independent net t1 t2 =
    if t1 == t2 then some false else independent_from net t1 t2 (iter_enumerated net.places)

-- `intersection` and `difference`: the elements of the first set that are, or are not, in the other.
unfoldable pub intersection : Set → Set → Set
intersection [] other = []
intersection (t ∷ ts) other =
    if contains t other then t ∷ intersection ts other else intersection ts other

unfoldable pub difference : Set → Set → Set
difference [] other = []
difference (t ∷ ts) other =
    if contains t other then difference ts other else t ∷ difference ts other

unfoldable pub is_subset : Set → Set → Bool
is_subset [] other = true
is_subset (t ∷ ts) other = contains t other && is_subset ts other

-- Equality of hash sets.
unfoldable pub set_eq : Set → Set → Bool
set_eq a b = is_subset a b && is_subset b a

-- `FxHashMap<NodeIndex, FxHashSet<TransitionId>>`
abbrev pub SleepSets : Type 0
SleepSets = List (ℕ × Set)

-- `sleep_sets.get(&index).cloned().unwrap_or_default()`
unfoldable pub sleep_of : SleepSets → ℕ → Set
sleep_of [] index = []
sleep_of ((i, set) ∷ rest) index = if i == index then set else sleep_of rest index

unfoldable pub put_sleep : SleepSets → ℕ → Set → SleepSets
put_sleep [] index set = (index, set) ∷ []
put_sleep ((i, old) ∷ rest) index set =
    if i == index then (index, set) ∷ rest else (i, old) ∷ put_sleep rest index set

module _ (G : StableGraph StateNode StateEdge) (to_string : FireError → String) where
  pub record PorSearch : Type 0 where
    pub found : Search G to_string
    pub sleeps : List Set
    pub sleep_sets : SleepSets

  module _ (order : SetOrder) (net : Net) (config : StateGraphConfig) where
    -- The body of the loop that fills `new_sleep`.
    unfoldable pub add_independent : TransitionId → Set → TransitionId → Option Set
    add_independent transition_id new_sleep t = if t == transition_id then some new_sleep else (do
      independent ← transitions_are_independent net transition_id t
      some (if independent then insert t new_sleep else new_sleep))

    -- `intersection` is symmetric.
    unfoldable pub next_sleep : Set → Set → TransitionId → Marking → Option Set
    next_sleep enabled sleep transition_id next_marking = do
      enabled_next ← enabled_transitions net next_marking
      new_sleep ← for_each (add_independent transition_id) sleep (order.iter enabled)
      some (intersection enabled_next new_sleep)

    -- The arm `Entry::Occupied`: a node whose sleep set shrinks is queued again.
    unfoldable pub revisit : PorSearch → ℕ → Set → PorSearch
    revisit s old_ni new_sleep =
        let old_sleep = sleep_of s.sleep_sets old_ni in
        let merged_sleep = intersection old_sleep new_sleep in
        if set_eq merged_sleep old_sleep then s else record {
          found = record s.found { queue = s.found.queue ++ old_ni ∷ [] };
          sleeps = s.sleeps ++ merged_sleep ∷ [];
          sleep_sets = put_sleep s.sleep_sets old_ni merged_sleep;
        }

    -- `StateEdge::new` and `graph.add_edge`.
    unfoldable pub por_connect : ℕ → TransitionId → Marking → ℕ → PorSearch → Option PorSearch
    por_connect state_index transition_id current_marking target_index s = do
      found ←
          connect G to_string net config state_index transition_id current_marking
            (s.found, target_index)
      some (record s { found = found })

    -- The arm `Entry::Vacant`: at the limit the successor is dropped.
    unfoldable pub por_vacant :
        ℕ → TransitionId → Marking → Marking → Set → PorSearch → Option PorSearch
    por_vacant state_index transition_id current_marking next_marking new_sleep s =
        if at_limit config.state_limit (G.node_count s.found.graph)
        then some (record s { found = record s.found { truncated = true } })
        else (do
          (found, index) ← discover G to_string net config s.found next_marking
          por_connect state_index transition_id current_marking index (record {
            found = found;
            sleeps = s.sleeps ++ new_sleep ∷ [];
            sleep_sets = put_sleep s.sleep_sets index new_sleep;
          }))

    unfoldable pub por_enter :
        ℕ → TransitionId → Marking → Marking → Set → PorSearch → Option PorSearch
    por_enter state_index transition_id current_marking next_marking new_sleep s =
        elim (find s.found.markings next_marking) [
          | some old_ni ↦
              por_connect state_index transition_id current_marking old_ni
                (revisit s old_ni new_sleep)
          | none ↦ por_vacant state_index transition_id current_marking next_marking new_sleep s
        ]

    unfoldable pub por_handle :
        ℕ → TransitionId → Marking → Set → Set → PorSearch → Result Marking → Option PorSearch
    por_handle state_index transition_id current_marking enabled sleep s (err e) = do
      found ← record_failure G to_string net config state_index transition_id e s.found
      some (record s { found = found })
    por_handle state_index transition_id current_marking enabled sleep s (ok next_marking) = do
      new_sleep ← next_sleep enabled sleep transition_id next_marking
      por_enter state_index transition_id current_marking next_marking new_sleep s

    -- The body of the loop over `to_fire`.
    unfoldable pub por_fire_one :
        ℕ → Marking → Set → Set → PorSearch → TransitionId → Option PorSearch
    por_fire_one state_index current_marking enabled sleep s transition_id =
        fire_transition net current_marking transition_id
        >>= por_handle state_index transition_id current_marking enabled sleep s

    unfoldable pub por_fire_each : ℕ → Marking → Set → PorSearch → Set → Option PorSearch
    por_fire_each state_index current_marking sleep s [] =
        some
          (record s { found = record s.found { deadlocks = insert state_index s.found.deadlocks } })
    por_fire_each state_index current_marking sleep s (t ∷ ts) =
        for_each (por_fire_one state_index current_marking (t ∷ ts) sleep) s
          (difference (order.iter (t ∷ ts)) sleep)

    -- The body of the outer loop, with `(state_index, sleep)` popped from the queue.
    unfoldable pub por_expand : ℕ → Set → PorSearch → Option PorSearch
    por_expand state_index sleep s = do
      node ← G.node s.found.graph state_index
      enabled ← enabled_transitions net node.marking
      node' ← update_enabled net (order.iter enabled) node
      por_fire_each state_index node.marking sleep
          (record s {
            found = record s.found { graph = G.set_node s.found.graph state_index node' };
          })
          enabled

    -- The two queues have one length, so the last case is never met.
    unfoldable pub por_round : List ℕ → List Set → PorSearch → Run (Option PorSearch)
    por_round [] sleeps s = done none
    por_round (state_index ∷ rest) (sleep ∷ others) s =
        elim (por_expand state_index sleep
          (record s { found = record s.found { queue = rest }; sleeps = others })) [
            | none ↦ panicked
            | some s' ↦ done (some s')
          ]
    por_round (state_index ∷ rest) [] s = panicked

    unfoldable pub por_explore : ℕ → PorSearch → Run PorSearch
    por_explore zero s = out_of_fuel
    por_explore (suc fuel) s = elim (por_round s.found.queue s.sleeps s) [
      | panicked ↦ panicked
      | out_of_fuel ↦ out_of_fuel
      | done none ↦ done s
      | done (some s') ↦ por_explore fuel s'
    ]

    unfoldable pub with_config_por : ℕ → Run PorSearch
    with_config_por fuel = elim (begin G to_string net config) [
      | none ↦ panicked
      | some found ↦ por_explore fuel (record { found = found; sleeps = [] ∷ []; sleep_sets = [] })
    ]

    -- Whoever unfolds this can run the construction.
    unfoldable pub por_exploring : Unit {0}
    unfolding with_config_por por_explore por_round por_expand por_fire_each por_fire_one por_handle
        por_enter por_vacant por_connect revisit next_sleep add_independent put_sleep sleep_of
        set_eq is_subset difference intersection transitions_are_independent independent_from
        exploring
    por_exploring = tt
