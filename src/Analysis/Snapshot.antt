-- ===== src/Analysis/Snapshot.antt =====
-- src/analysis/reachability.rs: what a node and an edge of the state graph record. Arcs of the
-- feature-gated kinds are left out; a signed 64-bit difference is its bit pattern.
pub mod Total
use rust_pta.Prelude.{
  ◌≡◌, arith, ℕ, ◌+◌, ◌-◌, ◌%◌, ◌^◌, Bool, ◌||◌, Option, none, some, ◌>>=◌, for_each, traverse,
}
use rust_pta.Prelude.{String, List, [], ◌∷◌, ◌++◌, get_elem?, ltb, ◌==◌, if◌then◌else◌}
use rust_pta.Net.IndexVec.{PlaceId, TransitionId, iter_enumerated}
use rust_pta.Net.Structure.{PlaceType, Place, Transition, TransitionType, Marking}
use rust_pta.Net.Incidence
use rust_pta.Net.Core.{Net}

pub record StatePlaceSnapshot : Type 0 where
  pub place : PlaceId
  pub name : String
  pub place_type : PlaceType
  pub span : String
  pub tokens : ℕ
  pub capacity : ℕ

place_snapshot : PlaceId → Place → ℕ → StatePlaceSnapshot
place_snapshot place_id place tokens = record {
  place = place_id;
  name = place.name;
  place_type = place.place_type;
  span = place.span;
  tokens = tokens;
  capacity = place.capacity;
}

pub record TokenChange : Type 0 where
  pub place : PlaceId
  pub name : String
  pub before : ℕ
  pub after : ℕ
  pub delta : ℕ

token_change : PlaceId → Place → ℕ → ℕ → Option TokenChange
token_change place_id place before after =
    if before == after
    then none
    else some (record {
      place = place_id;
      name = place.name;
      before = before;
      after = after;
      delta = (after + 2 ^ 64 - before) % 2 ^ 64;
    })

pub data ArcKind : Type 0 where
  input output : ArcKind

pub record ArcSnapshot : Type 0 where
  pub place : PlaceId
  pub name : String
  pub kind : ArcKind
  pub weight : ℕ

pub record TransitionSummary : Type 0 where
  pub id : TransitionId
  pub name : String
  pub transition_type : TransitionType

-- `TransitionSummary::new(id, &net.transitions[id])`
unfoldable pub transition_summary : Net → TransitionId → Option TransitionSummary
transition_summary net id = do
  transition ← get_elem? net.transitions id
  some (record { id = id; name = transition.name; transition_type = transition.transition_type })

pub record StateNode : Type 0 where
  pub index : ℕ
  pub marking : Marking
  pub places : List StatePlaceSnapshot
  pub enabled : List TransitionSummary

unfoldable pub snapshot_step :
    Marking → Bool → List StatePlaceSnapshot → PlaceId × Place → Option (List StatePlaceSnapshot)
unfolding place_snapshot
snapshot_step marking include_zero_tokens places (place_id, place) = do
  tokens ← get_elem? marking place_id
  some (
      if ltb 0 tokens || include_zero_tokens
      then places ++ place_snapshot place_id place tokens ∷ []
      else places)

-- `StateNode::new`
unfoldable pub state_node : ℕ → Marking → Net → Bool → Option StateNode
state_node index marking net include_zero_tokens = do
  places ← for_each (snapshot_step marking include_zero_tokens) [] (iter_enumerated net.places)
  some (record { index = index; marking = marking; places = places; enabled = [] })

unfoldable pub update_enabled : Net → List TransitionId → StateNode → Option StateNode
update_enabled net transitions node = do
  enabled ← traverse (transition_summary net) transitions
  some (record node { enabled = enabled })

pub record StateEdge : Type 0 where
  pub transition : TransitionSummary
  pub changes : List TokenChange
  pub arcs : List ArcSnapshot

abbrev Parts : Type 0
Parts = List TokenChange × List ArcSnapshot

push_change : Option TokenChange → List TokenChange → List TokenChange
push_change none changes = changes
push_change (some change) changes = changes ++ change ∷ []

push_arc : PlaceId → Place → ArcKind → ℕ → List ArcSnapshot → List ArcSnapshot
push_arc place_id place kind weight arcs =
    if ltb 0 weight
    then arcs ++ record { place = place_id; name = place.name; kind = kind; weight = weight } ∷ []
    else arcs

-- The body of the loop of `StateEdge::new`.
unfoldable pub edge_step :
    Net → TransitionId → Marking → Marking → Parts → PlaceId × Place → Option Parts
unfolding token_change push_change push_arc
edge_step net transition_id before after (changes, arcs) (place_id, place) = do
  before_tokens ← get_elem? before place_id
  after_tokens ← get_elem? after place_id
  input_weight ← Incidence.get net.pre place_id transition_id
  output_weight ← Incidence.get net.post place_id transition_id
  some (
    push_change (token_change place_id place before_tokens after_tokens) changes,
    push_arc place_id place output output_weight (push_arc place_id place input input_weight arcs),
  )

-- `StateEdge::new`
unfoldable pub state_edge : Net → TransitionId → Marking → Marking → Option StateEdge
state_edge net transition_id before after = do
  transition ← transition_summary net transition_id
  parts ← for_each (edge_step net transition_id before after) ([], []) (iter_enumerated net.places)
  some (record { transition = transition; changes = parts.0; arcs = parts.1 })

-- What the constructors copy.
pub state_node-marking :
    (index : ℕ) (m : Marking) (net : Net) (zero_tokens : Bool) (n : StateNode)
    → state_node index m net zero_tokens ≡ some n
    → n.marking ≡ m
unfolding state_node
state_node-marking index m net zero_tokens n e = ground arith

pub update_enabled-marking :
    (net : Net) (ts : List TransitionId) (n n' : StateNode)
    → update_enabled net ts n ≡ some n'
    → n'.marking ≡ n.marking
unfolding update_enabled
update_enabled-marking net ts n n' e = ground arith

pub state_edge-id :
    (net : Net) (t : TransitionId) (before after : Marking) (e : StateEdge)
    → state_edge net t before after ≡ some e
    → e.transition.id ≡ t
unfolding state_edge transition_summary
state_edge-id net t before after e h = ground arith
