-- ===== src/Examples/Detecting.antt =====
-- src/detect/deadlock.rs: the detector on a graph with a dead end, and on one with a cycle on which
-- a lock stays blocked.
use rust_pta.Prelude.{
  ℕ, zero, suc, ◌≡◌, refl, inl, inr, Option, none, some, done, List, [], ◌∷◌, ◌∈◌, Returns,
}
use rust_pta.Net.Structure.{lock}
use rust_pta.Analysis.Snapshot.{StateNode, StateEdge, TransitionSummary}
use rust_pta.Analysis.Reachability.{contains, insert}
use rust_pta.Detect.Cycles.{GraphView}
use rust_pta.Detect.Cycles.Close.{IsClosed}
use rust_pta.Detect.Deadlock.{detect_reachability_deadlock}
use rust_pta.Detect.Deadlock.Detects.{FindsDead, detect_reachability_deadlock-IsDead}
use rust_pta.Detect.Deadlock.Reports.{Reports, detect-Reports}

abbrev take_lock : ℕ → TransitionSummary
take_lock id = record { id = id; name = "lock"; transition_type = lock id }

abbrev state : ℕ → List TransitionSummary → StateNode
state index enabled = record { index = index; marking = 1 ∷ []; places = []; enabled = enabled }

abbrev acquire : ℕ → StateEdge
acquire id = record { transition = take_lock id; changes = []; arcs = [] }

abbrev two_nodes : List TransitionSummary → ℕ → Option StateNode
two_nodes enabled zero = some (state 0 enabled)
two_nodes enabled (suc zero) = some (state 1 [])
two_nodes enabled (suc (suc _)) = none

abbrev one_edge : ℕ → List ℕ
one_edge zero = 1 ∷ []
one_edge (suc _) = []

abbrev around : ℕ → List ℕ
around zero = 1 ∷ []
around (suc zero) = 0 ∷ []
around (suc (suc _)) = []

-- Node 1 has no edge.
abbrev dead_end : GraphView
dead_end = record {
  node_indices = 0 ∷ 1 ∷ [];
  node = two_nodes [];
  targets = one_edge;
  edge_weights = acquire 5 ∷ [];
  node_count = 2;
  edge_count = 1;
}

-- Lock 5 is blocked at both nodes of the cycle, lock 6 is free at one of them.
abbrev busy : GraphView
busy = record {
  node_indices = 0 ∷ 1 ∷ [];
  node = two_nodes (take_lock 6 ∷ []);
  targets = around;
  edge_weights = acquire 5 ∷ acquire 6 ∷ [];
  node_count = 2;
  edge_count = 2;
}

abbrev as_listed : List ℕ → List ℕ
as_listed set = set

busy_test : detect_reachability_deadlock busy as_listed ≡ done (1 ∷ [])
unfolding detect_reachability_deadlock contains insert
busy_test = refl

nodes : (enabled : List TransitionSummary) (i : ℕ) → i ∈ 0 ∷ 1 ∷ [] → Returns (two_nodes enabled i)
nodes enabled i (inl e) = rw e (state 0 enabled, refl)
nodes enabled i (inr (inl e)) = rw e (state 1 [], refl)
nodes enabled i (inr (inr m)) = absurd m

busy-IsClosed : IsClosed busy
busy-IsClosed = record { nodes = nodes (take_lock 6 ∷ []); edges = inside }
  where
    inside : (i : ℕ) → i ∈ 0 ∷ 1 ∷ [] → (x : ℕ) → x ∈ busy.targets i → x ∈ 0 ∷ 1 ∷ []
    inside i (inl e) x m = elim (rw e at m) [ inl f ↦ inr (inl f) | inr no_mem ↦ absurd no_mem ]
    inside i (inr (inl e)) x m = elim (rw e at m) [ inl f ↦ inl f | inr no_mem ↦ absurd no_mem ]
    inside i (inr (inr no_mem)) x m = absurd no_mem

detect_reachability_deadlock-IsDead_example : FindsDead dead_end as_listed
detect_reachability_deadlock-IsDead_example =
    detect_reachability_deadlock-IsDead dead_end as_listed (nodes []) 1 (inr (inl refl))
      (record { state = state 1 []; at = refl; terminal = refl; unfinished = λ (p, m, _, _). m })

detect-Reports_example : Reports busy as_listed
detect-Reports_example = detect-Reports busy as_listed busy-IsClosed (λ set x. (λ m. m, λ m. m))
