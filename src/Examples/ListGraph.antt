-- ===== src/Examples/ListGraph.antt =====
-- A graph that keeps its nodes and edges in lists satisfies what is asked of petgraph's `StableGraph`
-- in src/analysis/reachability.rs.
use rust_pta.Prelude.{ℕ, ◌^◌, ◌<◌, ◌≡◌, ◌⊎◌, ◌↔◌, refl, ap, arith}
use rust_pta.Prelude.{Option, none, some, ◌>>=◌, List, [], ◌∷◌, ◌++◌, ◌∈◌}
use rust_pta.Prelude.{
  ltb, if◌then◌else◌, length, get_elem?, set, length-append, length-set, mem-append,
}
use rust_pta.Prelude.{lt→ltb, get_elem?-eq-none}
use rust_pta.Prelude.{
  get_elem?-append_last, get_elem?-append_other, get_elem?-set_self, get_elem?-set_other,
}
use rust_pta.Analysis.Graph.{StableGraph}

abbrev pub capacity : ℕ
capacity = 2 ^ 32

module _ (N E : Type 0) where
  pub record Lists : Type 0 where
    pub nodes : List N
    pub links : List (ℕ × ℕ × E)

  unfoldable pub add_node : Lists → N → Option (Lists × ℕ)
  add_node g n =
      if ltb (length g.nodes) capacity
      then some (record g { nodes = g.nodes ++ n ∷ [] }, length g.nodes)
      else none

  unfoldable pub add_edge : Lists → ℕ → ℕ → E → Option Lists
  add_edge g a b e = do
    source ← get_elem? g.nodes a
    target ← get_elem? g.nodes b
    if ltb (length g.links) capacity
        then some (record g { links = g.links ++ (a, b, e) ∷ [] })
        else none

  pub add_node-total :
      (g : Lists) (n : N)
      → length g.nodes < capacity
      → (g' : Lists) × (i : ℕ) × (add_node g n ≡ some (g', i))
  unfolding add_node
  add_node-total g n h = (
    record g { nodes = g.nodes ++ n ∷ [] },
    length g.nodes,
    rw (lt→ltb (length g.nodes) capacity h) refl,
  )

  pub add_node-eq :
      (g : Lists) (n : N) (g' : Lists) (i : ℕ)
      → add_node g n ≡ some (g', i)
      → (g'.nodes ≡ g.nodes ++ n ∷ []) × (i ≡ length g.nodes) × (g'.links ≡ g.links)
  unfolding add_node
  add_node-eq g n g' i e = ground arith

  pub add_edge-total :
      (g : Lists) (a b : ℕ) (e : E) (m n : N)
      → get_elem? g.nodes a ≡ some m
      → get_elem? g.nodes b ≡ some n
      → length g.links < capacity
      → (g' : Lists) × (add_edge g a b e ≡ some g')
  unfolding add_edge
  add_edge-total g a b e m n ea eb h = (
    record g { links = g.links ++ (a, b, e) ∷ [] },
    rw (ea, eb, lt→ltb (length g.links) capacity h) refl,
  )

  pub add_edge-eq :
      (g : Lists) (a b : ℕ) (e : E) (g' : Lists)
      → add_edge g a b e ≡ some g'
      → (g'.nodes ≡ g.nodes) × (g'.links ≡ g.links ++ (a, b, e) ∷ [])
  unfolding add_edge
  add_edge-eq g a b e g' h = ground arith

  pub mem-append_last :
      (x y : ℕ × ℕ × E) (xs : List (ℕ × ℕ × E)) → (x ∈ xs ++ y ∷ []) ↔ ((x ∈ xs) ⊎ (x ≡ y))
  mem-append_last x y xs = ground (arith, mem-append x xs (y ∷ []))

  unfoldable pub list_graph : StableGraph N E
  unfolding add_node add_edge
  list_graph = record {
    Graph = Lists;
    empty = record { nodes = []; links = [] };
    node_count = λ g. length g.nodes;
    edge_count = λ g. length g.links;
    add_node = add_node;
    add_edge = add_edge;
    node = λ g i. get_elem? g.nodes i;
    set_node = λ g i n. record g { nodes = set g.nodes i n };
    edges = λ g. g.links;
    index_limit = capacity;
    node_count-empty = refl;
    edge_count-empty = refl;
    node-empty = λ i. refl;
    edges-empty = refl;
    add_node-total = add_node-total;
    add_node-node = λ g n g' i e.
        let (nodes, at, _) = add_node-eq g n g' i e in
        (
          rw at (get_elem?-eq-none g.nodes (length g.nodes) (omega arith)),
          rw (at, nodes) (get_elem?-append_last g.nodes n),
          λ j ne. rw nodes (get_elem?-append_other g.nodes n j (rw at at ne)),
        );
    add_node-count = λ g n g' i e.
        let (nodes, _, links) = add_node-eq g n g' i e in
        (rw nodes (length-append g.nodes (n ∷ [])), ap length links, links);
    add_edge-total = add_edge-total;
    add_edge-node = λ g a b e g' h j. ap (λ xs. get_elem? xs j) (add_edge-eq g a b e g' h).0;
    add_edge-count = λ g a b e g' h.
        let (nodes, links) = add_edge-eq g a b e g' h in
        (ap length nodes, rw links (length-append g.links ((a, b, e) ∷ [])));
    add_edge-edges =
        λ g a b e g' h x. rw (add_edge-eq g a b e g' h).1 (mem-append_last x (a, b, e) g.links);
    set_node-node = λ g i n m e.
        (get_elem?-set_self g.nodes i n m e, λ j ne. get_elem?-set_other g.nodes i j m ne);
    set_node-same = λ g i m. (length-set g.nodes i m, refl, refl);
  }
