-- ===== src/Examples/Nets.antt =====
-- A net of two independent transitions, each of which moves one token, as src/net/core.rs builds it.
use rust_pta.Prelude.{ℕ, ◌≡◌, refl, Option, none, some, [], ◌∷◌, ◌>>=◌, arith}
use rust_pta.Prelude.{inl, inr, zero, suc}
use rust_pta.Net.Structure.{Place, basic_block, Transition, new_transition, Marking}
use rust_pta.Net.Core.{Net, ok, empty, add_place, add_transition, add_input_arc, add_output_arc}
use rust_pta.Net.Core.{firing, fire_transition, initial_marking}
use rust_pta.Net.Core.Build.{IsWf}
use rust_pta.Net.Core.Commute.{Independent, Apart}
use rust_pta.Net.Incidence.Shape.{entry}

abbrev pub slot : ℕ → Place
slot held = record { name = "p"; tokens = held; capacity = 1; place_type = basic_block; span = "" }

abbrev pub move : Transition
move = new_transition "move"

-- Place 0 to place 1 by transition 0, and place 2 to place 3 by transition 1.
abbrev pub pair : Net
pair = record {
  places = slot 1 ∷ slot 0 ∷ slot 1 ∷ slot 0 ∷ [];
  transitions = move ∷ move ∷ [];
  pre = record { rows = (1 ∷ 0 ∷ []) ∷ (0 ∷ 0 ∷ []) ∷ (0 ∷ 1 ∷ []) ∷ (0 ∷ 0 ∷ []) ∷ []; cols = 2 };
  post = record { rows = (0 ∷ 0 ∷ []) ∷ (1 ∷ 0 ∷ []) ∷ (0 ∷ 0 ∷ []) ∷ (0 ∷ 1 ∷ []) ∷ []; cols = 2 };
  caps = none;
}

abbrev with_places : Net
with_places =
    (add_place (add_place (add_place (add_place empty (slot 1)).0 (slot 0)).0 (slot 1)).0
      (slot 0)).0

abbrev built : Option Net
built = do
  let net = (add_transition (add_transition with_places move).0 move).0
  a ← add_input_arc net 0 0 1
  b ← add_output_arc a 1 0 1
  c ← add_input_arc b 2 1 1
  add_output_arc c 3 1 1

-- The operations build the net.
pair-built : built ≡ some pair
unfolding add_place add_transition add_input_arc add_output_arc empty new_transition
pair-built = refl

pub pair-IsWf : IsWf pair
pair-IsWf = record {
  pre_shape = record {
    rows_len = refl;
    cols_eq = refl;
    widths = (refl, (refl, (refl, (refl, tt))));
  };
  post_shape = record {
    rows_len = refl;
    cols_eq = refl;
    widths = (refl, (refl, (refl, (refl, tt))));
  };
  caps_len = λ caps e. cc;
  places_fit = omega arith;
  transitions_fit = omega arith;
}

abbrev pub at_start : Marking
at_start = 1 ∷ 0 ∷ 1 ∷ 0 ∷ []

abbrev pub first_moved : Marking
first_moved = 0 ∷ 1 ∷ 1 ∷ 0 ∷ []

abbrev pub second_moved : Marking
second_moved = 1 ∷ 0 ∷ 0 ∷ 1 ∷ []

abbrev pub both_moved : Marking
both_moved = 0 ∷ 1 ∷ 0 ∷ 1 ∷ []

pub start_eq : initial_marking pair ≡ at_start
unfolding initial_marking
start_eq = refl

pub first_fires : fire_transition pair at_start 0 ≡ some (ok first_moved)
unfolding firing
first_fires = refl

pub second_fires : fire_transition pair at_start 1 ≡ some (ok second_moved)
unfolding firing
second_fires = refl

pub second_after_first : fire_transition pair first_moved 1 ≡ some (ok both_moved)
unfolding firing
second_after_first = refl

pub pair-Independent : Independent pair 0 1
unfolding entry
pair-Independent zero h = inr (refl, refl)
pair-Independent (suc zero) h = inr (refl, refl)
pair-Independent (suc (suc p)) h = inl (outside p)
  where
    outside : (p : ℕ) → Apart pair (suc (suc p)) 0
    outside zero = (refl, refl)
    outside (suc zero) = (refl, refl)
    outside (suc (suc p)) = (refl, refl)
