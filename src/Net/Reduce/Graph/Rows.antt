-- ===== src/Net/Reduce/Graph/Rows.antt =====
-- src/net/reduce/graph.rs: the loops of `from_net` over the rows and the entries of a matrix.
use rust_pta.Prelude.{ℕ, zero, suc, ◌<◌, ◌≤◌, ◌≡◌, ◌≢◌, ◌⊎◌, inl, inr, refl}
use rust_pta.Prelude.{◌∙◌, arith, Bool-cases, Option, some, for_each}
use rust_pta.Prelude.{List, [], ◌∷◌, get_elem?, length, ltb, ◌==◌, if◌then◌else◌}
use rust_pta.Prelude.{get_or, get_or-outside, lt-length_of_get_elem?, some_inj, ==→≡}
use rust_pta.Prelude.{ltb→le}
use rust_pta.Net.IndexVec.{TransitionId, id_limit, iter_enumerated, for_each-iter_enumerated}
use rust_pta.Net.Structure.{Weight}
use rust_pta.Net.Incidence.{Incidence}
use rust_pta.Net.Incidence.Shape.{entry, HasShape}
use rust_pta.Net.Core.{Net, places_len, transitions_len}
use rust_pta.Net.Reduce.Graph.{ReductionGraph, read_row}
use rust_pta.Net.Reduce.Graph.Arcs.{IsOf, ReadsArc}
use rust_pta.Net.Reduce.Pairwise.{All-get_elem?}

get_or_of_get_elem? {ℓ} :
    {A : Type ℓ} (xs : List A) (i : ℕ) (d x : A) → get_elem? xs i ≡ some x → get_or xs i d ≡ x
get_or_of_get_elem? [] i d x e = cc
get_or_of_get_elem? (y ∷ xs) zero d x e = some_inj e
get_or_of_get_elem? (y ∷ xs) (suc i) d x e = get_or_of_get_elem? xs i d x e

module _ (net : Net) (m : Incidence ℕ) (shape : HasShape m (places_len net) (transitions_len net))
    (fit_p : places_len net ≤ id_limit) (fit_t : transitions_len net ≤ id_limit)
    (body : ℕ → ReductionGraph → TransitionId × Weight → Option ReductionGraph)
    (side other : ReductionGraph → ℕ → ℕ → Weight)
    (step : (g : ReductionGraph)
      → IsOf net g
      → (p t : ℕ) (w : Weight) → p < places_len net
      → t < transitions_len net
      → ReadsArc net side other g p t w (body p g (t, w))) where
  -- The entries that are read when `p` rows are, and `j` entries of the next.
  abbrev part : ℕ → ℕ → ℕ → ℕ → Weight
  part p j q u =
      if ltb q p then entry m q u else if q == p then (if ltb u j then entry m q u else 0) else 0

  record Partial (start : ReductionGraph) (p j : ℕ) (g : ReductionGraph) : Type 0 where
    is : IsOf net g
    read : (q u : ℕ) → side g q u ≡ part p j q u
    same : (q u : ℕ) → other g q u ≡ other start q u

  entry_of_row :
      (p t : ℕ) (row : List Weight) (x : Weight)
      → get_elem? m.rows p ≡ some row
      → get_elem? row t ≡ some x
      → entry m p t ≡ x
  unfolding entry
  entry_of_row p t row x er ex =
      rw (get_or_of_get_elem? m.rows p [] row er) (get_or_of_get_elem? row t 0 x ex)

  entry_right :
      (p t : ℕ) (row : List Weight)
      → get_elem? m.rows p ≡ some row
      → length row ≤ t
      → entry m p t ≡ 0
  unfolding entry
  entry_right p t row er le =
      rw (get_or_of_get_elem? m.rows p [] row er) (get_or-outside row t 0 le)

  entry_below : (p t : ℕ) → places_len net ≤ p → entry m p t ≡ 0
  unfolding entry
  entry_below p t le = rw (get_or-outside m.rows p [] (omega (arith, shape.rows_len))) refl

  row_length :
      (p : ℕ) (row : List Weight) → get_elem? m.rows p ≡ some row → length row ≡ transitions_len net
  row_length p row er =
      All-get_elem? (λ (r : List ℕ). length r ≡ transitions_len net) m.rows p shape.widths er

  part_same :
      (p k : ℕ) (x v w : Weight)
      → v ≡ (if x == 0 then w else x)
      → w ≡ part p k p k
      → entry m p k ≡ x
      → v ≡ part p (suc k) p k
  part_same p k x v w hv hw e = ground arith

  part_other : (p k q u : ℕ) → (q ≢ p) ⊎ (u ≢ k) → part p k q u ≡ part p (suc k) q u
  part_other p k q u ne = ground arith

  read_entry :
      (start : ReductionGraph) (p : ℕ) (row : List Weight)
      → get_elem? m.rows p ≡ some row
      → (g : ReductionGraph) (k : ℕ) (x : Weight) → get_elem? row k ≡ some x
      → Partial start p k g
      → (g' : ReductionGraph) × (body p g (k, x) ≡ some g') × Partial start p (suc k) g'
  read_entry start p row er g k x ex h =
      let hp = lt-length_of_get_elem? m.rows p er in
      let hk = lt-length_of_get_elem? row k ex in
      let len = row_length p row er in
      let r = step g h.is p k x (omega (arith, shape.rows_len)) (omega (arith, len)) in
      let e = entry_of_row p k row x er ex in
      (
        r.out,
        r.returns,
        record {
          is = r.is;
          read = λ q u. now q u r e;
          same = λ q u. r.same_other q u ∙ h.same q u;
        },
      )
    where
      elsewhere :
          (q u : ℕ)
          → (q ≢ p) ⊎ (u ≢ k)
          → (r : ReadsArc net side other g p k x (body p g (k, x)))
          → side r.out q u ≡ part p (suc k) q u
      elsewhere q u ne r = r.others q u ne ∙ h.read q u ∙ part_other p k q u ne

      now :
          (q u : ℕ) (r : ReadsArc net side other g p k x (body p g (k, x)))
          → entry m p k ≡ x
          → side r.out q u ≡ part p (suc k) q u
      now q u r e = elim (Bool-cases (q == p)) [
        | inr ne ↦ elsewhere q u (inl (ground arith)) r
        | inl eq ↦ elim (Bool-cases (u == k)) [
          | inr ne ↦ elsewhere q u (inr (ground arith)) r
          | inl eu ↦
              let sq : q ≡ p = ==→≡ q p eq in
              let su : u ≡ k = ==→≡ u k eu in
              rw (sq, su) (part_same p k x (side r.out p k) (side g p k) r.self (h.read p k) e)
        ]
      ]

  row_done :
      (p q u : ℕ) (row : List Weight)
      → get_elem? m.rows p ≡ some row
      → part p (length row) q u ≡ part (suc p) 0 q u
  row_done p q u row er = elim (Bool-cases (ltb u (length row))) [
    | inl lt ↦ elim (Bool-cases (q == p)) [ inl eq ↦ ground arith | inr ne ↦ ground arith ]
    | inr ge ↦
        let zero_there = entry_right p u row er (ltb→le u (length row) ge) in
        elim (Bool-cases (q == p)) [
          | inl eq ↦
              let same : q ≡ p = ==→≡ q p eq in rw same (done_self p u (length row) zero_there)
          | inr ne ↦ ground arith
        ]
  ]
    where
      done_self : (p u n : ℕ) → entry m p u ≡ 0 → part p n p u ≡ part (suc p) 0 p u
      done_self p u n e = ground arith

  read_row_lem :
      (start g : ReductionGraph) (p : ℕ) (row : List Weight)
      → get_elem? m.rows p ≡ some row
      → Partial start p 0 g
      → (g' : ReductionGraph) × (read_row body g (p, row) ≡ some g') × Partial start (suc p) 0 g'
  unfolding read_row
  read_row_lem start g p row er h =
      let (g', e, done_row) =
        for_each-iter_enumerated (body p) row (Partial start p) (omega (arith, row_length p row er))
          (read_entry start p row er) g h in
      (
        g',
        e,
        record {
          is = done_row.is;
          read = λ q u. done_row.read q u ∙ row_done p q u row er;
          same = done_row.same;
        },
      )

  all_done : (q u : ℕ) → part (length m.rows) 0 q u ≡ entry m q u
  all_done q u = elim (Bool-cases (ltb q (length m.rows))) [
    | inl lt ↦ ground arith
    | inr ge ↦
        let below = entry_below q u (omega (arith, shape.rows_len, ltb→le q (length m.rows) ge)) in
        ground arith
  ]

  -- The loops over a matrix give the graph the arcs of its entries on one side.
  pub read_matrix :
      (start : ReductionGraph)
      → IsOf net start
      → ((q u : ℕ) → side start q u ≡ 0)
      → (g : ReductionGraph) × (for_each (read_row body) start (iter_enumerated m.rows) ≡ some g)
        × IsOf net g
        × ((q u : ℕ) → side g q u ≡ entry m q u)
        × ((q u : ℕ) → other g q u ≡ other start q u)
  read_matrix start is none_yet =
      let (g, e, h) =
        for_each-iter_enumerated (read_row body) m.rows (λ p g. Partial start p 0 g)
          (omega (arith, shape.rows_len)) (λ g p row er h. read_row_lem start g p row er h) start
          (record { is = is; read = λ q u. none_yet q u ∙ nothing_yet q u; same = λ q u. refl }) in
      (g, e, h.is, λ q u. h.read q u ∙ all_done q u, h.same)
    where
      nothing_yet : (q u : ℕ) → ◌≡◌ {A = ℕ} 0 (part 0 0 q u)
      nothing_yet q u = ground arith
