-- ===== src/Net/Incidence.antt =====
-- src/net/incidence.rs: an incidence matrix, a row for each place and a column for each transition.
-- `none` is the panic of an index out of bounds. The feature-gated `IncidenceBool` is left out.
pub mod Shape
use rust_pta.Prelude.{◌==◌, if◌then◌else◌, ◌-◌, ◌%◌, ◌^◌}
use rust_pta.Prelude.{ℕ, suc, ◌+◌, Option, none, some, ◌>>=◌, List, [], ◌∷◌, ◌++◌, map}
use rust_pta.Prelude.{length, replicate, get_elem?, set}
use rust_pta.Net.IndexVec.{PlaceId, TransitionId, from_usize, push}

pub record Incidence {ℓ} (T : Type ℓ) : Type ℓ where
  pub rows : List (List T)
  pub cols : ℕ

module _ {ℓ} {T : Type ℓ} where
  unfoldable pub new : ℕ → ℕ → T → Incidence T
  new places transitions default = record {
    rows = replicate places (replicate transitions default);
    cols = transitions;
  }

  unfoldable pub push_place_with_default : Incidence T → T → Incidence T × PlaceId
  unfolding push
  push_place_with_default m default =
      let (rows, id) = push m.rows (replicate m.cols default) in (record m { rows = rows }, id)

  unfoldable pub push_transition_with_default : Incidence T → T → Incidence T × TransitionId
  push_transition_with_default m default = (
    record { rows = map (λ row. row ++ default ∷ []) m.rows; cols = m.cols + 1 },
    from_usize m.cols,
  )

  unfoldable pub get : Incidence T → PlaceId → TransitionId → Option T
  get m place transition = do row ← get_elem? m.rows place; get_elem? row transition

  -- `rows[place][transition] = f(rows[place][transition])`: a write through `get_mut`.
  unfoldable pub update : Incidence T → PlaceId → TransitionId → (T → T) → Option (Incidence T)
  update m place transition f = do
    row ← get_elem? m.rows place
    value ← get_elem? row transition
    some (record m { rows = set m.rows place (set row transition (f value)) })

  unfoldable pub set_entry : Incidence T → PlaceId → TransitionId → T → Option (Incidence T)
  unfolding update
  set_entry m place transition value = update m place transition (λ _. value)

-- Differences as `i64`, by their bit patterns: `*l as i64 - *r as i64`.
unfoldable pub subtract_row : List ℕ → List ℕ → List ℕ
subtract_row (l ∷ left) (r ∷ right) = (l + 2 ^ 64 - r) % 2 ^ 64 ∷ subtract_row left right
subtract_row _ _ = []

unfoldable pub subtract_rows : List (List ℕ) → List (List ℕ) → List (List ℕ)
unfolding subtract_row
subtract_rows (left ∷ lefts) (right ∷ rights) = subtract_row left right ∷ subtract_rows lefts rights
subtract_rows _ _ = []

-- The two assertions fail with a panic.
unfoldable pub difference : Incidence ℕ → Incidence ℕ → Option (Incidence ℕ)
difference m other =
    if length m.rows == length other.rows
    then (if m.cols == other.cols
        then some (record { rows = subtract_rows m.rows other.rows; cols = m.cols })
        else none)
    else none
