-- ===== src/Analysis/Graph.antt =====
-- What src/analysis/reachability.rs uses of petgraph's `StableGraph`, from which it never removes
-- anything: a node is added under an index that was not in use, an edge is added to the others, and
-- both additions panic only at the limit of the index type (or, for an edge, at a missing end).
use rust_pta.Prelude.{ℕ, ◌+◌, ◌<◌, ◌≡◌, ◌≢◌, ◌⊎◌, ◌↔◌, Option, none, some, List, [], ◌∈◌}

pub record StableGraph (N E : Type 0) : Type 1 where
  pub Graph : Type 0
  pub empty : Graph
  pub node_count : Graph → ℕ
  pub edge_count : Graph → ℕ
  -- `none` is a panic
  pub add_node : Graph → N → Option (Graph × ℕ)
  pub add_edge : Graph → ℕ → ℕ → E → Option Graph
  -- `graph[index]`, and a write through it
  pub node : Graph → ℕ → Option N
  pub set_node : Graph → ℕ → N → Graph
  -- source, target and weight of each edge
  pub edges : Graph → List (ℕ × ℕ × E)
  -- the limit of the index type
  pub index_limit : ℕ
  pub node_count-empty : node_count empty ≡ 0
  pub edge_count-empty : edge_count empty ≡ 0
  pub node-empty : (i : ℕ) → node empty i ≡ none
  pub edges-empty : edges empty ≡ []
  pub add_node-total :
      (g : Graph) (n : N)
      → node_count g < index_limit
      → (g' : Graph) × (i : ℕ) × (add_node g n ≡ some (g', i))
  pub add_node-node :
      (g : Graph) (n : N) (g' : Graph) (i : ℕ)
      → add_node g n ≡ some (g', i)
      → (node g i ≡ none) × (node g' i ≡ some n) × ((j : ℕ) → j ≢ i → node g' j ≡ node g j)
  pub add_node-count :
      (g : Graph) (n : N) (g' : Graph) (i : ℕ)
      → add_node g n ≡ some (g', i)
      → (node_count g' ≡ node_count g + 1) × (edge_count g' ≡ edge_count g) × (edges g' ≡ edges g)
  pub add_edge-total :
      (g : Graph) (a b : ℕ) (e : E) (m n : N)
      → node g a ≡ some m
      → node g b ≡ some n
      → edge_count g < index_limit
      → (g' : Graph) × (add_edge g a b e ≡ some g')
  pub add_edge-node :
      (g : Graph) (a b : ℕ) (e : E) (g' : Graph)
      → add_edge g a b e ≡ some g'
      → (j : ℕ) → node g' j ≡ node g j
  pub add_edge-count :
      (g : Graph) (a b : ℕ) (e : E) (g' : Graph)
      → add_edge g a b e ≡ some g'
      → (node_count g' ≡ node_count g) × (edge_count g' ≡ edge_count g + 1)
  pub add_edge-edges :
      (g : Graph) (a b : ℕ) (e : E) (g' : Graph)
      → add_edge g a b e ≡ some g'
      → (x : ℕ × ℕ × E) → (x ∈ edges g') ↔ ((x ∈ edges g) ⊎ (x ≡ (a, b, e)))
  pub set_node-node :
      (g : Graph) (i : ℕ) (n m : N)
      → node g i ≡ some n
      → (node (set_node g i m) i ≡ some m) × ((j : ℕ) → j ≢ i → node (set_node g i m) j ≡ node g j)
  pub set_node-same :
      (g : Graph) (i : ℕ) (m : N)
      → (node_count (set_node g i m) ≡ node_count g)
        × (edge_count (set_node g i m) ≡ edge_count g)
        × (edges (set_node g i m) ≡ edges g)
