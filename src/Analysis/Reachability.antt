-- ===== src/Analysis/Reachability.antt =====
-- src/analysis/reachability.rs: `StateGraph::with_config_standard`, the breadth-first construction
-- of the state graph. The map from markings to nodes is an association list, the set of deadlocks a
-- list, and the queue a list popped at its head. The petgraph operations and the rendering of an
-- error as text are parameters. The `while let` loop runs on fuel.
pub mod Map
pub mod Spec
pub mod Discover
pub mod Connect
pub mod Round
pub mod Correct
pub mod Steps
pub mod Total
pub use rust_pta.Prelude.{Run, done, panicked, out_of_fuel}
use rust_pta.Prelude.{ℕ, zero, suc, Bool, true, false, ◌&&◌, Option, none, some, ◌>>=◌, String}
use rust_pta.Prelude.{List, [], ◌∷◌, ◌++◌, get_elem?, ◌==◌, leb, if◌then◌else◌, for_each, traverse}
use rust_pta.Net.IndexVec.{TransitionId}
use rust_pta.Net.Structure.{Marking}
use rust_pta.Net.Core.{Net, Result, ok, err, FireError, initial_marking, enabled_transitions}
use rust_pta.Net.Core.{fire_transition, firing}
use rust_pta.Analysis.Graph.{StableGraph}
use rust_pta.Analysis.Snapshot.{StateNode, StateEdge, state_node, update_enabled, state_edge}
use rust_pta.Analysis.Snapshot.{snapshot_step, edge_step, transition_summary}

pub record TransitionFailure : Type 0 where
  pub source : ℕ
  pub transition : TransitionId
  pub transition_name : String
  pub reason : String

pub record StateGraphConfig : Type 0 where
  pub state_limit : Option ℕ
  pub include_zero_tokens : Bool
  pub use_por : Bool

unfoldable pub marking_eq : Marking → Marking → Bool
marking_eq [] [] = true
marking_eq (x ∷ xs) (y ∷ ys) = (x == y) && marking_eq xs ys
marking_eq _ _ = false

-- `FxHashMap<Marking, NodeIndex>`
abbrev pub MarkingMap : Type 0
MarkingMap = List (Marking × ℕ)

unfoldable pub find : MarkingMap → Marking → Option ℕ
unfolding marking_eq
find [] marking = none
find ((m, i) ∷ rest) marking = if marking_eq m marking then some i else find rest marking

unfoldable pub contains : ℕ → List ℕ → Bool
contains i [] = false
contains i (j ∷ js) = if i == j then true else contains i js

-- `FxHashSet::insert`
unfoldable pub insert : ℕ → List ℕ → List ℕ
unfolding contains
insert i set = if contains i set then set else i ∷ set

-- `if let Some(limit) = config.state_limit { graph.node_count() >= limit }`
unfoldable pub at_limit : Option ℕ → ℕ → Bool
at_limit none count = false
at_limit (some limit) count = leb limit count

module _ (G : StableGraph StateNode StateEdge) (to_string : FireError → String) where
  open G use {Graph}

  -- The variables of the search; without the queue they are the fields of `StateGraph`.
  pub record Search : Type 0 where
    pub graph : Graph
    pub initial : ℕ
    pub deadlocks : List ℕ
    pub truncated : Bool
    pub failures : List TransitionFailure
    pub markings : MarkingMap
    pub queue : List ℕ

  module _ (net : Net) (config : StateGraphConfig) where
    -- `graph.add_node(StateNode::new(graph.node_count(), ..))`, `entry.insert`, `queue.push_back`.
    unfoldable pub discover : Search → Marking → Option (Search × ℕ)
    discover s marking = do
      node ← state_node (G.node_count s.graph) marking net config.include_zero_tokens
      (graph, index) ← G.add_node s.graph node
      some (
        record s {
          graph = graph;
          markings = (marking, index) ∷ s.markings;
          queue = s.queue ++ index ∷ [];
        },
        index,
      )

    unfoldable pub connect : ℕ → TransitionId → Marking → Search × ℕ → Option Search
    connect state_index transition_id current_marking (s, target_index) = do
      target ← G.node s.graph target_index
      edge ← state_edge net transition_id current_marking target.marking
      graph ← G.add_edge s.graph state_index target_index edge
      some (record s { graph = graph })

    -- The arm `Entry::Vacant`: at the limit the successor is dropped.
    unfoldable pub vacant : ℕ → TransitionId → Marking → Marking → Search → Option Search
    vacant state_index transition_id current_marking next_marking s =
        if at_limit config.state_limit (G.node_count s.graph)
        then some (record s { truncated = true })
        else (discover s next_marking >>= connect state_index transition_id current_marking)

    unfoldable pub record_failure : ℕ → TransitionId → FireError → Search → Option Search
    record_failure state_index transition_id e s = do
      transition ← get_elem? net.transitions transition_id
      some (record s {
        failures =
            s.failures
            ++ record {
              source = state_index;
              transition = transition_id;
              transition_name = transition.name;
              reason = to_string e;
            }
              ∷ [];
      })

    unfoldable pub handle : ℕ → TransitionId → Marking → Search → Result Marking → Option Search
    handle state_index transition_id current_marking s (err e) =
        record_failure state_index transition_id e s
    handle state_index transition_id current_marking s (ok next_marking) =
        elim (find s.markings next_marking) [
          | some index ↦ connect state_index transition_id current_marking (s, index)
          | none ↦ vacant state_index transition_id current_marking next_marking s
        ]

    -- The body of the loop over the enabled transitions.
    unfoldable pub fire_one : ℕ → Marking → Search → TransitionId → Option Search
    fire_one state_index current_marking s transition_id =
        fire_transition net current_marking transition_id
        >>= handle state_index transition_id current_marking s

    -- A state with no enabled transition is a deadlock.
    unfoldable pub fire_each : ℕ → Marking → Search → List TransitionId → Option Search
    fire_each state_index current_marking s [] =
        some (record s { deadlocks = insert state_index s.deadlocks })
    fire_each state_index current_marking s (t ∷ ts) =
        for_each (fire_one state_index current_marking) s (t ∷ ts)

    -- The body of the outer loop, with `state_index` popped from the queue.
    unfoldable pub expand : ℕ → Search → Option Search
    expand state_index s = do
      node ← G.node s.graph state_index
      enabled ← enabled_transitions net node.marking
      node' ← update_enabled net enabled node
      let s' = record s { graph = G.set_node s.graph state_index node' }
      fire_each state_index node.marking s' enabled

    unfoldable pub explore : ℕ → Search → Run Search
    explore zero s = out_of_fuel
    explore (suc fuel) s = elim s.queue [
      | [] ↦ done s
      | state_index ∷ rest ↦ elim (expand state_index (record s { queue = rest })) [
        | none ↦ panicked
        | some s' ↦ explore fuel s'
      ]
    ]

    -- The initial node is added whatever the limit.
    unfoldable pub begin : Option Search
    begin = do
      let initial_marking = initial_marking net
      node ← state_node 0 initial_marking net config.include_zero_tokens
      (graph, initial_index) ← G.add_node G.empty node
      some (record {
        graph = graph;
        initial = initial_index;
        deadlocks = [];
        truncated = false;
        failures = [];
        markings = (initial_marking, initial_index) ∷ [];
        queue = initial_index ∷ [];
      })

    unfoldable pub with_config_standard : ℕ → Run Search
    with_config_standard fuel = elim begin [ none ↦ panicked | some s ↦ explore fuel s ]

    -- Whoever unfolds this can run the construction.
    unfoldable pub exploring : Unit {0}
    unfolding with_config_standard begin explore expand fire_each fire_one handle record_failure
        vacant connect discover at_limit insert find state_node snapshot_step update_enabled
        state_edge edge_step transition_summary traverse initial_marking firing
    exploring = tt
