-- ===== src/Net/Reduce/Graph/Adjacent.antt =====
-- src/net/reduce/graph.rs: the incoming and outgoing lists of the places that `from_net` fills.
use rust_pta.Prelude.{ℕ, zero, suc, ◌+◌, ◌<◌, ◌≤◌, ◌≡◌, ◌≢◌, refl, sym, ◌∙◌, ap, arith, subst}
use rust_pta.Prelude.{Bool-cases, Option, none, some, >>=-eq-some, for_each, some_inj}
use rust_pta.Prelude.{List, [], ◌∷◌, ◌++◌, get_elem?, get_or, set, length, All, ◌==◌, if◌then◌else◌}
use rust_pta.Prelude.{get_elem?-set_self, get_elem?-set_other, inl, inr, ==→≡, ==→≢, false, true}
use native.Mathlib.Nat.{add-zero}
use mathlib.Core.List.{append_assoc, append-nil}
use rust_pta.Net.IndexVec.{
  TransitionId, iter_enumerated, enumerate_from, id_limit, from_usize, from_usize-eq,
}
use rust_pta.Net.Structure.{Weight}
use rust_pta.Net.Reduce.Graph.{
  ReductionGraph, GraphPlace, read_input, read_output, read_row, update_at, push_outgoing,
  push_incoming, push_input, push_output,
}

abbrev pub outgoing_of : Option GraphPlace → List ℕ
outgoing_of none = []
outgoing_of (some place) = place.outgoing

abbrev pub incoming_of : Option GraphPlace → List ℕ
incoming_of none = []
incoming_of (some place) = place.incoming

abbrev pub outgoing_at : ReductionGraph → ℕ → List ℕ
outgoing_at graph p = outgoing_of (get_elem? graph.places p)

abbrev pub incoming_at : ReductionGraph → ℕ → List ℕ
incoming_at graph p = incoming_of (get_elem? graph.places p)

-- The indices of the weights that are not zero, the first of which has index `k`, in order.
abbrev pub nonzero : ℕ → List Weight → List ℕ
nonzero k [] = []
nonzero k (w ∷ ws) = let rest = nonzero (k + 1) ws in if w == 0 then rest else k ∷ rest

abbrev pub one_of : ℕ → Weight → List ℕ
one_of t w = if w == 0 then [] else t ∷ []

nonzero-cons :
    (k : ℕ) (w : Weight) (ws : List Weight) → nonzero k (w ∷ ws) ≡ one_of k w ++ nonzero (k + 1) ws
nonzero-cons k w ws = elim (Bool-cases (w == 0)) [ inl e ↦ rw e refl | inr e ↦ rw e refl ]

-- An entry of a matrix is read: it is pushed on one list of its place, unless it is zero.
abbrev pub Pushes :
    (ℕ → ReductionGraph → TransitionId × Weight → Option ReductionGraph)
    → (ReductionGraph → ℕ → List ℕ)
    → (ReductionGraph → ℕ → List ℕ)
    → Type 0
Pushes body this other =
    (p t : ℕ) (w : Weight) (g g' : ReductionGraph)
    → body p g (t, w) ≡ some g'
    → (this g' p ≡ this g p ++ one_of t w)
      × ((q : ℕ) → q ≢ p → this g' q ≡ this g q)
      × ((q : ℕ) → other g' q ≡ other g q)

update_at_inversion {ℓ} :
    {A : Type ℓ} (xs : List A) (i : ℕ) (f : A → A) (ys : List A)
    → update_at xs i f ≡ some ys
    → (x : A) × (get_elem? xs i ≡ some x) × (ys ≡ set xs i (f x))
unfolding update_at
update_at_inversion xs i f ys e =
    let (x, at, e') = >>=-eq-some (get_elem? xs i) (λ x. some (set xs i (f x))) e in
    (x, at, sym (some_inj e'))

module _ (xs : List GraphPlace) (p : ℕ) (x y : GraphPlace) (at : get_elem? xs p ≡ some x)
    (field : Option GraphPlace → List ℕ) where
  set_elsewhere : (q : ℕ) → q ≢ p → field (get_elem? (set xs p y) q) ≡ field (get_elem? xs q)
  set_elsewhere q ne = ap field (get_elem?-set_other xs p q y ne)

  set_there : field (get_elem? (set xs p y) p) ≡ field (some y)
  set_there = ap field (get_elem?-set_self xs p x y at)

  set_unseen :
      field (some y) ≡ field (some x)
      → (q : ℕ) → field (get_elem? (set xs p y) q) ≡ field (get_elem? xs q)
  set_unseen same q = elim (Bool-cases (q == p)) [
    | inl e ↦ rw (==→≡ q p e) (set_there ∙ same ∙ ap field (sym at))
    | inr ne ↦ set_elsewhere q (==→≢ q p ne)
  ]

-- What one place's list gains when the place is replaced by one that differs in that list.
module _ (this other : Option GraphPlace → List ℕ) (push : GraphPlace → GraphPlace) (t : ℕ)
    (gains : (x : GraphPlace) → this (some (push x)) ≡ this (some x) ++ t ∷ [])
    (keeps : (x : GraphPlace) → other (some (push x)) ≡ other (some x)) where
  pushed :
      (p : ℕ) (w : Weight) (xs ys : List GraphPlace)
      → (w == 0) ≡ false
      → update_at xs p push ≡ some ys
      → (this (get_elem? ys p) ≡ this (get_elem? xs p) ++ one_of t w)
        × ((q : ℕ) → q ≢ p → this (get_elem? ys q) ≡ this (get_elem? xs q))
        × ((q : ℕ) → other (get_elem? ys q) ≡ other (get_elem? xs q))
  pushed p w xs ys weighs e =
      let (x, at, set_eq) = update_at_inversion xs p push ys e in
      rw (set_eq, weighs)
        (
          set_there xs p x (push x) at this ∙ gains x ∙ ap (λ o. this o ++ t ∷ []) (sym at),
          set_elsewhere xs p x (push x) at this,
          set_unseen xs p x (push x) at other (keeps x),
        )

not_pushed :
    (this other : ReductionGraph → ℕ → List ℕ) (p t : ℕ) (w : Weight) (g g' : ReductionGraph)
    → (w == 0) ≡ true
    → g ≡ g'
    → (this g' p ≡ this g p ++ one_of t w)
      × ((q : ℕ) → q ≢ p → this g' q ≡ this g q)
      × ((q : ℕ) → other g' q ≡ other g q)
not_pushed this other p t w g g' zero_weight same =
    rw (sym same, zero_weight) (sym (append-nil (this g p)), λ q ne. refl, λ q. refl)

read_input_zero :
    (p t : ℕ) (w : Weight) (g : ReductionGraph) → (w == 0) ≡ true → read_input p g (t, w) ≡ some g
unfolding read_input
read_input_zero p t w g e = rw (read_input, e) refl

read_output_zero :
    (p t : ℕ) (w : Weight) (g : ReductionGraph) → (w == 0) ≡ true → read_output p g (t, w) ≡ some g
unfolding read_output
read_output_zero p t w g e = rw (read_output, e) refl

read_input_inversion :
    (p t : ℕ) (w : Weight) (g g' : ReductionGraph)
    → (w == 0) ≡ false
    → read_input p g (t, w) ≡ some g'
    → update_at g.places p (push_outgoing t) ≡ some g'.places
unfolding read_input
read_input_inversion p t w g g' weighs e =
    let (places, e1, e2) =
      >>=-eq-some (update_at g.places p (push_outgoing t)) _ (rw weighs at e) in
    let (transitions, _, e3) = >>=-eq-some (update_at g.transitions t (push_input p w)) _ e2 in
    e1 ∙ ap (λ (h : ReductionGraph). some h.places) (some_inj e3)

read_output_inversion :
    (p t : ℕ) (w : Weight) (g g' : ReductionGraph)
    → (w == 0) ≡ false
    → read_output p g (t, w) ≡ some g'
    → update_at g.places p (push_incoming t) ≡ some g'.places
unfolding read_output
read_output_inversion p t w g g' weighs e =
    let (places, e1, e2) =
      >>=-eq-some (update_at g.places p (push_incoming t)) _ (rw weighs at e) in
    let (transitions, _, e3) = >>=-eq-some (update_at g.transitions t (push_output p w)) _ e2 in
    e1 ∙ ap (λ (h : ReductionGraph). some h.places) (some_inj e3)

pub read_input-Pushes : Pushes read_input outgoing_at incoming_at
read_input-Pushes p t w g g' e = elim (Bool-cases (w == 0)) [
  | inl nothing ↦
      not_pushed outgoing_at incoming_at p t w g g' nothing
        (some_inj (sym (read_input_zero p t w g nothing) ∙ e))
  | inr weighs ↦
      pushed outgoing_of incoming_of (push_outgoing t) t (λ x. refl) (λ x. refl) p w g.places
        g'.places weighs (read_input_inversion p t w g g' weighs e)
]

pub read_output-Pushes : Pushes read_output incoming_at outgoing_at
read_output-Pushes p t w g g' e = elim (Bool-cases (w == 0)) [
  | inl nothing ↦
      not_pushed incoming_at outgoing_at p t w g g' nothing
        (some_inj (sym (read_output_zero p t w g nothing) ∙ e))
  | inr weighs ↦
      pushed incoming_of outgoing_of (push_incoming t) t (λ x. refl) (λ x. refl) p w g.places
        g'.places weighs (read_output_inversion p t w g g' weighs e)
]

module _ (body : ℕ → ReductionGraph → TransitionId × Weight → Option ReductionGraph)
    (this other : ReductionGraph → ℕ → List ℕ) (pushes : Pushes body this other) where
  row_lem :
      (p : ℕ) (row : List Weight) (k : ℕ) (g g' : ReductionGraph)
      → k + length row ≤ id_limit
      → for_each (body p) g (enumerate_from k row) ≡ some g'
      → (this g' p ≡ this g p ++ nonzero k row)
        × ((q : ℕ) → q ≢ p → this g' q ≡ this g q)
        × ((q : ℕ) → other g' q ≡ other g q)
  unfolding for_each enumerate_from
  row_lem p [] k g g' fits e =
      let same : g ≡ g' = some_inj e in
      rw (sym same) (sym (append-nil (this g p)), λ q ne. refl, λ q. refl)
  row_lem p (w ∷ row) k g g' fits e =
      let (h, e1, e2) =
        >>=-eq-some (body p g (from_usize k, w))
          (λ s. for_each (body p) s (enumerate_from (k + 1) row)) e in
      let (here, apart, others) = pushes p k w g h (rw (from_usize-eq k (omega arith)) at e1) in
      let (here', apart', others') = row_lem p row (k + 1) h g' (omega arith) e2 in
      (
        here'
            ∙ ap (λ xs. xs ++ nonzero (k + 1) row) here
            ∙ append_assoc (this g p) (one_of k w) (nonzero (k + 1) row)
            ∙ ap (λ xs. this g p ++ xs) (sym (nonzero-cons k w row)),
        λ q ne. apart' q ne ∙ apart q ne,
        λ q. others' q ∙ others q,
      )

  pub rows_lem :
      (rows : List (List Weight)) (k : ℕ) (g g' : ReductionGraph)
      → k + length rows ≤ id_limit
      → All (λ (row : List Weight). length row ≤ id_limit) rows
      → for_each (read_row body) g (enumerate_from k rows) ≡ some g'
      → ((j : ℕ) → this g' (k + j) ≡ this g (k + j) ++ nonzero 0 (get_or rows j []))
        × ((q : ℕ) → q < k → this g' q ≡ this g q)
        × ((q : ℕ) → other g' q ≡ other g q)
  unfolding for_each iter_enumerated enumerate_from read_row
  rows_lem [] k g g' fits widths e =
      let same : g ≡ g' = some_inj e in
      rw (sym same) (λ j. sym (append-nil (this g (k + j))), λ q lt. refl, λ q. refl)
  rows_lem (row ∷ rows) k g g' fits widths e =
      let (h, e1, e2) =
        >>=-eq-some (for_each (body (from_usize k)) g (enumerate_from 0 row))
          (λ s. for_each (read_row body) s (enumerate_from (k + 1) rows)) e in
      let (here, apart, others) =
        row_lem k row 0 g h (omega (arith, widths.0)) (rw (from_usize-eq k (omega arith)) at e1) in
      let (here', below', others') = rows_lem rows (k + 1) h g' (omega arith) widths.1 e2 in
      (
        λ j. each j k g h g' row rows here (λ q ne. apart q ne) (below' k (omega arith)) here',
        λ q lt. below' q (omega arith) ∙ apart q (omega arith),
        λ q. others' q ∙ others q,
      )
    where
      each :
          (j k : ℕ) (g h g' : ReductionGraph) (row : List Weight) (rows : List (List Weight))
          → this h k ≡ this g k ++ nonzero 0 row
          → ((q : ℕ) → q ≢ k → this h q ≡ this g q)
          → this g' k ≡ this h k
          → ((j : ℕ) → this g' (k + 1 + j) ≡ this h (k + 1 + j) ++ nonzero 0 (get_or rows j []))
          → this g' (k + j) ≡ this g (k + j) ++ nonzero 0 (get_or (row ∷ rows) j [])
      each zero k g h g' row rows here apart kept later = rw add-zero (kept ∙ here)
      each (suc j) k g h g' row rows here apart kept later =
          let index : k + 1 + j ≡ k + suc j = omega arith in
          subst (λ q. this g' q ≡ this g q ++ nonzero 0 (get_or rows j [])) index
            (later j
              ∙ ap (λ xs. xs ++ nonzero 0 (get_or rows j [])) (apart (k + 1 + j) (omega arith)))
