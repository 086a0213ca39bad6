-- ===== src/Net/Incidence/Shape.antt =====
-- src/net/incidence.rs: the matrix stays rectangular, and what its operations do to each entry.
use rust_pta.Prelude.{ℕ, zero, suc, ◌+◌, ◌<◌, ◌≡◌, ◌≢◌, refl, sym, ◌∙◌, Option, some}
use rust_pta.Prelude.{List, [], ◌∷◌, ◌++◌, map, arith, inl, inr}
use rust_pta.Prelude.{length, replicate, get_or, set, All, All-get_or, All-set, All-append}
use rust_pta.Prelude.{All-replicate, length-append, length-set, length-replicate, length-map}
use rust_pta.Prelude.{get_or-replicate, get_elem?-eq-get_or, get_or-set_self, get_or-set_ne}
use rust_pta.Prelude.{get_or-append_default, ◌⊎◌}
use rust_pta.Net.Incidence.{Incidence}
use rust_pta.Net.Incidence
use rust_pta.Net.IndexVec.{PlaceId, TransitionId}

-- An entry by its indices, zero outside the matrix.
unfoldable pub entry : Incidence ℕ → PlaceId → TransitionId → ℕ
entry m place transition = get_or (get_or m.rows place []) transition 0

abbrev HasWidth : ℕ → List ℕ → Type 0
HasWidth k row = length row ≡ k

pub record HasShape (m : Incidence ℕ) (places transitions : ℕ) : Type 0 where
  pub rows_len : length m.rows ≡ places
  pub cols_eq : m.cols ≡ transitions
  pub widths : All (λ (row : List ℕ). length row ≡ transitions) m.rows

pub new-HasShape : (n k : ℕ) → HasShape (Incidence.new n k 0) n k
unfolding Incidence.new
new-HasShape n k = record {
  rows_len = length-replicate n _;
  cols_eq = refl;
  widths = All-replicate (HasWidth k) n _ (length-replicate k 0);
}

entry-rows :
    (rows : List (List ℕ)) (k p t : ℕ)
    → get_or (get_or (rows ++ replicate k 0 ∷ []) p []) t 0 ≡ get_or (get_or rows p []) t 0
entry-rows [] k zero t = get_or-replicate k t 0
entry-rows [] k (suc p) t = refl
entry-rows (row ∷ rows) k zero t = refl
entry-rows (row ∷ rows) k (suc p) t = entry-rows rows k p t

pub entry-new : (n k p t : ℕ) → entry (Incidence.new n k 0) p t ≡ 0
unfolding entry Incidence.new
entry-new zero k p t = refl
entry-new (suc n) k zero t = get_or-replicate k t 0
entry-new (suc n) k (suc p) t = entry-new n k p t

module _ (m : Incidence ℕ) {n k : ℕ} (shape : HasShape m n k) where
  pub push_place-HasShape : HasShape (Incidence.push_place_with_default m 0).0 (n + 1) k
  unfolding Incidence.push_place_with_default
  push_place-HasShape = record {
    rows_len = omega (arith, length-append m.rows (replicate m.cols 0 ∷ []), shape.rows_len);
    cols_eq = shape.cols_eq;
    widths =
        All-append (HasWidth k) m.rows _ shape.widths
          (length-replicate m.cols 0 ∙ shape.cols_eq, tt);
  }

  widen :
      (rows : List (List ℕ))
      → All (HasWidth k) rows
      → All (HasWidth (k + 1)) (map (λ row. row ++ 0 ∷ []) rows)
  widen [] h = tt
  widen (row ∷ rows) h = (omega (arith, length-append row (0 ∷ []), h.0), widen rows h.1)

  pub push_transition-HasShape : HasShape (Incidence.push_transition_with_default m 0).0 n (k + 1)
  unfolding Incidence.push_transition_with_default
  push_transition-HasShape = record {
    rows_len = length-map _ m.rows ∙ shape.rows_len;
    cols_eq = omega (arith, shape.cols_eq);
    widths = widen m.rows shape.widths;
  }

  pub get-eq-entry : (p t : ℕ) → p < n → t < k → Incidence.get m p t ≡ some (entry m p t)
  unfolding Incidence.get entry
  get-eq-entry p t hp ht =
      let width =
        All-get_or (HasWidth k) m.rows p [] shape.widths (omega (arith, shape.rows_len)) in
      rw (get_elem?-eq-get_or m.rows p [] (omega (arith, shape.rows_len)))
        (get_elem?-eq-get_or (get_or m.rows p []) t 0 (omega (arith, width)))

pub entry-push_place :
    (m : Incidence ℕ) (p t : ℕ) → entry (Incidence.push_place_with_default m 0).0 p t ≡ entry m p t
unfolding entry Incidence.push_place_with_default
entry-push_place m p t = entry-rows m.rows m.cols p t

widen-get :
    (rows : List (List ℕ)) (p t : ℕ)
    → get_or (get_or (map (λ row. row ++ 0 ∷ []) rows) p []) t 0 ≡ get_or (get_or rows p []) t 0
widen-get [] p t = refl
widen-get (row ∷ rows) zero t = get_or-append_default row t 0
widen-get (row ∷ rows) (suc p) t = widen-get rows p t

pub entry-push_transition :
    (m : Incidence ℕ) (p t : ℕ)
    → entry (Incidence.push_transition_with_default m 0).0 p t ≡ entry m p t
unfolding entry Incidence.push_transition_with_default
entry-push_transition m p t = widen-get m.rows p t

-- A write in column `t` leaves the other columns alone.
row-set :
    (rows : List (List ℕ)) (p q t u v : ℕ)
    → t ≢ u
    → get_or (get_or (set rows p (set (get_or rows p []) t v)) q []) u 0
      ≡ get_or (get_or rows q []) u 0
row-set [] p q t u v ne = refl
row-set (row ∷ rows) zero zero t u v ne = get_or-set_ne row t u v 0 ne
row-set (row ∷ rows) zero (suc q) t u v ne = refl
row-set (row ∷ rows) (suc p) zero t u v ne = refl
row-set (row ∷ rows) (suc p) (suc q) t u v ne = row-set rows p q t u v ne

-- One entry changed by `f`.
pub record Updates (m : Incidence ℕ) (n k p t : ℕ) (f : ℕ → ℕ) (r : Option (Incidence ℕ))
    : Type 0 where
  pub out : Incidence ℕ
  pub returns : r ≡ some out
  pub shape : HasShape out n k
  pub self : entry out p t ≡ f (entry m p t)
  pub others : (q u : ℕ) → (q ≢ p) ⊎ (u ≢ t) → entry out q u ≡ entry m q u

pub update-Updates :
    (m : Incidence ℕ) {n k : ℕ} (f : ℕ → ℕ)
    → HasShape m n k
    → (p t : ℕ) → p < n
    → t < k
    → Updates m n k p t f (Incidence.update m p t f)
unfolding Incidence.update entry
update-Updates m {n} {k} f shape p t hp ht =
    let row = get_or m.rows p [] in
    let in_rows : p < length m.rows = omega (arith, shape.rows_len) in
    let width = All-get_or (HasWidth k) m.rows p [] shape.widths in_rows in
    let in_row : t < length row = omega (arith, width) in
    let row' = set row t (f (get_or row t 0)) in
    record {
      out = record m { rows = set m.rows p row' };
      returns =
          rw (get_elem?-eq-get_or m.rows p [] in_rows) (rw (get_elem?-eq-get_or row t 0 in_row));
      shape = record {
        rows_len = length-set m.rows p _ ∙ shape.rows_len;
        cols_eq = shape.cols_eq;
        widths = All-set (HasWidth k) m.rows p row' shape.widths (length-set row t _ ∙ width);
      };
      self = rw (get_or-set_self m.rows p row' [] in_rows) (get_or-set_self row t _ 0 in_row);
      others = λ q u. elim [
        | inl ne ↦ rw (get_or-set_ne m.rows p q row' [] (λ e. ne (sym e)))
        | inr ne ↦ row-set m.rows p q t u _ (λ e. ne (sym e))
      ];
    }
