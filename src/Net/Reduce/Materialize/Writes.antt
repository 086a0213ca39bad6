-- ===== src/Net/Reduce/Materialize/Writes.antt =====
-- src/net/reduce/graph.rs: what the loops of `materialize` write, where nothing is removed.
use rust_pta.Prelude.{ℕ, zero, suc, ◌<◌, ◌+◌, ◌≤◌, ◌≡◌, ◌≢◌, inl, inr, refl, ap}
use rust_pta.Prelude.{◌∙◌, arith, false, Bool-cases, Option, some}
use rust_pta.Prelude.{List, [], ◌∷◌, get_elem?, length, replicate, All}
use rust_pta.Prelude.{◌==◌, ==→≡, if◌then◌else◌}
use native.Mathlib.Nat.{zero-add, add-zero}
use rust_pta.Net.IndexVec.{from_usize-eq, id_limit}
use rust_pta.Net.Structure.{Weight}
use rust_pta.Net.Incidence
use rust_pta.Net.Incidence.{Incidence}
use rust_pta.Net.Incidence.Shape.{entry, HasShape, Updates, update-Updates}
use rust_pta.Net.Reduce.Graph.{GraphTransition}
use rust_pta.Net.Reduce.Graph.Arcs.{after, inputs_of, outputs_of}
use rust_pta.Net.Reduce.InRange.{ArcsBelow, TransitionIn}
use rust_pta.Net.Reduce.Materialize.{renumber, set_arcs, set_all_arcs}

-- The new ids where nothing is removed.
abbrev pub all_live : ℕ → ℕ → List (Option ℕ)
all_live k n = renumber k (replicate n false)

pub all_live-cons : (k n : ℕ) → k < id_limit → all_live k (suc n) ≡ some k ∷ all_live (k + 1) n
unfolding renumber
all_live-cons k n lt = rw (from_usize-eq k lt) refl

pub get_elem?-all_live :
    (n k i : ℕ) → i < n → k + n ≤ id_limit → get_elem? (all_live k n) i ≡ some (some (k + i))
get_elem?-all_live zero k i lt fit = absurd (omega arith)
get_elem?-all_live (suc n) k zero lt fit = rw (all_live-cons k n (omega arith), add-zero) refl
get_elem?-all_live (suc n) k (suc i) lt fit = rw (all_live-cons k n (omega arith)) (
    get_elem?-all_live n (k + 1) i (omega arith) (omega arith)
    ∙ ap (λ j. some (some j)) (shifted k i))
  where
    shifted : (k i : ℕ) → k + 1 + i ≡ k + suc i
    shifted k i = omega arith

-- The matrix after the arcs of one transition are set in its column.
pub record SetsColumn (n k t : ℕ) (m : Incidence ℕ) (arcs : List (ℕ × Weight))
    (r : Option (Incidence ℕ)) : Type 0 where
  pub out : Incidence ℕ
  pub returns : r ≡ some out
  pub shape : HasShape out n k
  pub column : (p : ℕ) → entry out p t ≡ after p (entry m p t) arcs
  pub others : (p u : ℕ) → u ≢ t → entry out p u ≡ entry m p u

module _ (n k t : ℕ) (ht : t < k) (fit : n ≤ id_limit) where
  set_arcs-SetsColumn :
      (arcs : List (ℕ × Weight)) (m : Incidence ℕ)
      → HasShape m n k
      → ArcsBelow n arcs
      → SetsColumn n k t m arcs (set_arcs (all_live 0 n) t arcs m)
  unfolding set_arcs Incidence.set_entry
  set_arcs-SetsColumn [] m shape below = record {
    out = m;
    returns = refl;
    shape = shape;
    column = λ p. refl;
    others = λ p u ne. refl;
  }
  set_arcs-SetsColumn ((q, w) ∷ arcs) m shape below =
      let u = update-Updates m (λ _. w) shape q t below.0 ht in
      let rest = set_arcs-SetsColumn arcs u.out u.shape below.1 in
      let found = get_elem?-all_live n 0 q below.0 (omega arith) in
      record {
        out = rest.out;
        returns = next q w arcs m u.out (rw zero-add at found) u.returns ∙ rest.returns;
        shape = rest.shape;
        column = λ p. rest.column p ∙ ap (λ v. after p v arcs) (written q w m u p);
        others = λ p c ne. rest.others p c ne ∙ u.others p c (inr ne);
      }
    where
      next :
          (q w : ℕ) (arcs : List (ℕ × Weight)) (m m' : Incidence ℕ)
          → get_elem? (all_live 0 n) q ≡ some (some q)
          → Incidence.update m q t (λ _. w) ≡ some m'
          → set_arcs (all_live 0 n) t ((q, w) ∷ arcs) m ≡ set_arcs (all_live 0 n) t arcs m'
      next q w arcs m m' e e' = rw (set_arcs, e) (rw (Incidence.set_entry, e') refl)

      written :
          (q w : ℕ) (m : Incidence ℕ)
          (u : Updates m n k q t (λ _. w) (Incidence.update m q t (λ _. w))) (p : ℕ)
          → entry u.out p t ≡ (if q == p then w else entry m p t)
      written q w m u p = elim (Bool-cases (q == p)) [
        | inl e ↦ let same : q ≡ p = ==→≡ q p e in rw e (rw (← same) u.self)
        | inr ne ↦ rw ne (u.others p t (inl (ground arith)))
      ]

-- Both matrices after the loop over the transitions from index `c` on.
pub record SetsColumns (n k c : ℕ) (ts : List GraphTransition) (pre post : Incidence ℕ)
    (r : Option (Incidence ℕ × Incidence ℕ)) : Type 0 where
  pub pre' : Incidence ℕ
  pub post' : Incidence ℕ
  pub returns : r ≡ some (pre', post')
  pub pre_shape : HasShape pre' n k
  pub post_shape : HasShape post' n k
  pub pre_before : (p t : ℕ) → t < c → entry pre' p t ≡ entry pre p t
  pub post_before : (p t : ℕ) → t < c → entry post' p t ≡ entry post p t
  pub pre_from :
      (p j : ℕ) → entry pre' p (c + j) ≡ after p (entry pre p (c + j)) (inputs_of (get_elem? ts j))
  pub post_from :
      (p j : ℕ)
      → entry post' p (c + j) ≡ after p (entry post p (c + j)) (outputs_of (get_elem? ts j))

shift_index : (c j : ℕ) → c + suc j ≡ c + 1 + j
shift_index c j = omega arith

module _ (n k : ℕ) (fit : n ≤ id_limit) (fit_k : k ≤ id_limit) where
  set_all_arcs_next :
      (c : ℕ) (ids : List (Option ℕ)) (t : GraphTransition) (ts : List GraphTransition)
      (pre post pre₁ post₁ : Incidence ℕ)
      → set_arcs (all_live 0 n) c t.inputs pre ≡ some pre₁
      → set_arcs (all_live 0 n) c t.outputs post ≡ some post₁
      → set_all_arcs (all_live 0 n) (some c ∷ ids) (t ∷ ts) (pre, post)
        ≡ set_all_arcs (all_live 0 n) ids ts (pre₁, post₁)
  unfolding set_all_arcs
  set_all_arcs_next c ids t ts pre post pre₁ post₁ e e' = rw (set_all_arcs, e, e') refl

  set_all_arcs_end :
      (c : ℕ) (pre post : Incidence ℕ)
      → set_all_arcs (all_live 0 n) (all_live c 0) [] (pre, post) ≡ some (pre, post)
  unfolding set_all_arcs renumber
  set_all_arcs_end c pre post = refl

  -- The loop sets the column of each transition to its arcs.
  pub set_all_arcs-SetsColumns :
      (ts : List GraphTransition) (c : ℕ) (pre post : Incidence ℕ)
      → c + length ts ≡ k
      → All (TransitionIn n) ts
      → HasShape pre n k
      → HasShape post n k
      → SetsColumns n k c ts pre post
          (set_all_arcs (all_live 0 n) (all_live c (length ts)) ts (pre, post))
  set_all_arcs-SetsColumns [] c pre post len inside sp sq = record {
    pre' = pre;
    post' = post;
    returns = set_all_arcs_end c pre post;
    pre_shape = sp;
    post_shape = sq;
    pre_before = λ p t lt. refl;
    post_before = λ p t lt. refl;
    pre_from = λ p j. refl;
    post_from = λ p j. refl;
  }
  set_all_arcs-SetsColumns (t ∷ ts) c pre post len inside sp sq =
      let a = set_arcs-SetsColumn n k c (omega arith) fit t.inputs pre sp (inside.0).0 in
      let b = set_arcs-SetsColumn n k c (omega arith) fit t.outputs post sq (inside.0).1 in
      let rest =
        set_all_arcs-SetsColumns ts (c + 1) a.out b.out (omega arith) inside.1 a.shape b.shape in
      record {
        pre' = rest.pre';
        post' = rest.post';
        returns = rw (all_live-cons c (length ts) (omega arith)) (
            set_all_arcs_next c (all_live (c + 1) (length ts)) t ts pre post a.out b.out a.returns
              b.returns
            ∙ rest.returns);
        pre_shape = rest.pre_shape;
        post_shape = rest.post_shape;
        pre_before = λ p u lt. rest.pre_before p u (omega arith) ∙ a.others p u (omega arith);
        post_before = λ p u lt. rest.post_before p u (omega arith) ∙ b.others p u (omega arith);
        pre_from =
            column_from c pre a.out rest.pre' t ts inputs_of a.column a.others rest.pre_before
              rest.pre_from;
        post_from =
            column_from c post b.out rest.post' t ts outputs_of b.column b.others rest.post_before
              rest.post_from;
      }
    where
      column_from :
          (c : ℕ) (m m₁ m' : Incidence ℕ) (t : GraphTransition) (ts : List GraphTransition)
          (arcs_of : Option GraphTransition → List (ℕ × Weight))
          → ((p : ℕ) → entry m₁ p c ≡ after p (entry m p c) (arcs_of (some t)))
          → ((p u : ℕ) → u ≢ c → entry m₁ p u ≡ entry m p u)
          → ((p u : ℕ) → u < c + 1 → entry m' p u ≡ entry m₁ p u)
          → ((p j : ℕ)
              → entry m' p (c + 1 + j)
                ≡ after p (entry m₁ p (c + 1 + j)) (arcs_of (get_elem? ts j)))
          → (p j : ℕ)
          → entry m' p (c + j) ≡ after p (entry m p (c + j)) (arcs_of (get_elem? (t ∷ ts) j))
      column_from c m m₁ m' t ts arcs_of here others before from p zero =
          rw add-zero (before p c (omega arith) ∙ here p)
      column_from c m m₁ m' t ts arcs_of here others before from p (suc j) = rw shift_index (
          from p j
          ∙ ap (λ v. after p v (arcs_of (get_elem? ts j))) (others p (c + 1 + j) (omega arith)))
