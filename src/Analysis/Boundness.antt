-- ===== src/Analysis/Boundness.antt =====
-- src/analysis/boundness.rs, without the feature `invariants`: the coverability tree and the
-- boundedness check. An ω is `none`. A tree is the list of its nodes; `none` is a panic.
pub mod Search
pub mod Spec
mod Path
mod Raise
mod Attach
mod Fire
pub mod Visit
pub mod Misses
pub mod Correct
use rust_pta.Prelude.{ℕ, zero, suc, ◌+◌, Bool, true, false, ◌&&◌, ◌||◌, Option, none, some, ◌>>=◌}
use rust_pta.Prelude.{String, List, [], ◌∷◌, ◌++◌, map, length, get_elem?, set, ltb, leb, ◌==◌}
use rust_pta.Prelude.{if◌then◌else◌, for_each}
use rust_pta.Net.IndexVec.{PlaceId, TransitionId, from_usize}
use rust_pta.Net.Structure.{Marking}
use rust_pta.Net.Core.{Net, Result, ok, err, initial_marking, enabled_transitions, fire_transition}
use rust_pta.Net.Core.{firing}
use rust_pta.Analysis.Reachability.{Run, done, panicked, out_of_fuel, contains}

-- The reasons, whose texts are left out.
pub data Reason : Type 0 where
  state_limit_exceeded : ℕ → Reason
  feature_needed : Reason
  undetermined : Reason

pub data BoundnessResult : Type 0 where
  bounded : BoundnessResult
  -- the unbounded places, and a sequence of transitions that leads there
  unbounded : List PlaceId → Option (List TransitionId) → BoundnessResult
  unknown : Reason → BoundnessResult

abbrev pub Tokens : Type 0
Tokens = Option ℕ

pub record CoverTreeNode : Type 0 where
  pub marking : List Tokens
  pub parent : Option ℕ
  pub transition_from_parent : Option TransitionId
  pub children : List ℕ

abbrev pub CoverTree : Type 0
CoverTree = List CoverTreeNode

unfoldable pub new_root : Marking → CoverTreeNode
new_root initial_marking = record {
  marking = map some initial_marking;
  parent = none;
  transition_from_parent = none;
  children = [];
}

unfoldable pub has_omega : List Tokens → Bool
has_omega [] = false
has_omega (none ∷ rest) = true
has_omega (some _ ∷ rest) = has_omega rest

-- The new node is pushed, and then entered among the children of its parent.
unfoldable pub add_child : CoverTree → ℕ → List Tokens → TransitionId → Option (CoverTree × ℕ)
add_child tree parent marking transition =
    let child_index = length tree in
    let nodes =
      tree
      ++ record {
        marking = marking;
        parent = some parent;
        transition_from_parent = some transition;
        children = [];
      }
        ∷ [] in
    do
      node ← get_elem? nodes parent
      some (
        set nodes parent (record node { children = node.children ++ child_index ∷ [] }),
        child_index,
      )

unfoldable pub covers_tokens : Tokens → Tokens → Bool
covers_tokens none _ = true
covers_tokens (some v1) (some v2) = leb v2 v1
covers_tokens (some _) none = false

unfoldable pub covers : List Tokens → List Tokens → Bool
covers (m1 ∷ marking1) (m2 ∷ marking2) = covers_tokens m1 m2 && covers marking1 marking2
covers _ _ = true

-- The index of the first node, from index `i` on, that the marking covers.
unfoldable pub is_covered : ℕ → CoverTree → List Tokens → Option ℕ
is_covered i [] marking = none
is_covered i (node ∷ nodes) marking =
    if covers marking node.marking then some i else is_covered (suc i) nodes marking

-- The loop of `find_path_to_node`, entered with `current` different from `to`; it goes to the parent,
-- whose index is smaller.
unfoldable pub walk : ℕ → CoverTree → ℕ → List ℕ → ℕ → Option (Option (List ℕ))
walk zero tree to path current = none
walk (suc fuel) tree to path current = do
  node ← get_elem? tree current
  elim node.parent [
    | none ↦ some none
    | some parent ↦ elim (parent == to) [
      | true ↦ some (some (path ++ current ∷ parent ∷ []))
      | false ↦ walk fuel tree to (path ++ current ∷ []) parent
    ]
  ]

unfoldable pub find_path_to_node : CoverTree → ℕ → ℕ → Option (Option (List ℕ))
find_path_to_node tree from to =
    if from == to then some (some (from ∷ [])) else walk (suc from) tree to [] from

unfoldable pub smaller_tokens : Tokens → Tokens → Bool
smaller_tokens (some v1) (some v2) = ltb v1 v2
smaller_tokens _ _ = false

unfoldable pub all_smaller : List Tokens → List Tokens → Bool
all_smaller (m1 ∷ marking1) (m2 ∷ marking2) = smaller_tokens m1 m2 && all_smaller marking1 marking2
all_smaller _ _ = true

unfoldable pub any_smaller : List Tokens → List Tokens → Bool
any_smaller (m1 ∷ marking1) (m2 ∷ marking2) = smaller_tokens m1 m2 || any_smaller marking1 marking2
any_smaller _ _ = false

unfoldable pub is_strictly_smaller : List Tokens → List Tokens → Bool
is_strictly_smaller marking1 marking2 =
    all_smaller marking1 marking2 && any_smaller marking1 marking2

unfoldable pub grown : Tokens → Tokens → Tokens → Tokens
grown (some old) (some new) kept = if ltb old new then none else kept
grown _ _ kept = kept

-- The inner loop of `create_omega_marking`.
unfoldable pub mark_growth : List Tokens → List Tokens → List Tokens → List Tokens
mark_growth (old ∷ olds) (new ∷ news) (kept ∷ rest) =
    grown old new kept ∷ mark_growth olds news rest
mark_growth _ _ omega_marking = omega_marking

unfoldable pub mark_node : CoverTree → List Tokens → List Tokens → ℕ → Option (List Tokens)
mark_node tree new_marking omega_marking node_idx = do
  node ← get_elem? tree node_idx
  some (mark_growth node.marking new_marking omega_marking)

unfoldable pub create_omega_marking : CoverTree → List ℕ → List Tokens → Option (List Tokens)
create_omega_marking tree path_nodes new_marking =
    for_each (mark_node tree new_marking) new_marking path_nodes

-- The loop that sets `needs_omega`.
unfoldable pub needs_omega : CoverTree → List Tokens → List ℕ → Option Bool
needs_omega tree next_marking [] = some false
needs_omega tree next_marking (idx ∷ rest) = do
  node ← get_elem? tree idx
  if is_strictly_smaller node.marking next_marking
      then some true
      else needs_omega tree next_marking rest
