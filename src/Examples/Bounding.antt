-- ===== src/Examples/Bounding.antt =====
-- What the theorems about src/analysis/boundness.rs say of a net with an unbounded place.
use rust_pta.Prelude.{ℕ, zero, suc, ◌≡◌, ◌≢◌, refl, Option, none, some, List, [], ◌∷◌, arith}
use rust_pta.Net.IndexVec.{PlaceId, TransitionId}
use rust_pta.Net.Incidence.Shape.{entry}
use rust_pta.Net.Structure.{Place, basic_block, new_transition}
use rust_pta.Net.Core.{Net}
use rust_pta.Net.Core.Build.{IsWf}
use rust_pta.Analysis.Reachability.{done}
use rust_pta.Analysis.Boundness.{BoundnessResult, bounded, unbounded}
use rust_pta.Analysis.Boundness.Search.{
  BoundnessAnalyzer, check, check_by_coverability_tree, checking,
}
use rust_pta.Analysis.Boundness.Correct.{Justified, check_by_coverability_tree-Justified}
use rust_pta.Analysis.Boundness.Misses.{NeverGains, check-never_unbounded}
use rust_pta.Examples.Nets.{move}

abbrev roomy : ℕ → Place
roomy held = record {
  name = "p";
  tokens = held;
  capacity = 18446744073709551615;
  place_type = basic_block;
  span = "";
}

-- Place 0 keeps its token, and each firing gives one to place 1.
abbrev source : Net
source = record {
  places = roomy 1 ∷ roomy 0 ∷ [];
  transitions = move ∷ [];
  pre = record { rows = (1 ∷ []) ∷ (0 ∷ []) ∷ []; cols = 1 };
  post = record { rows = (1 ∷ []) ∷ (1 ∷ []) ∷ []; cols = 1 };
  caps = none;
}

-- Each firing takes one token and gives two.
abbrev doubling : Net
doubling = record {
  places = roomy 1 ∷ [];
  transitions = move ∷ [];
  pre = record { rows = (1 ∷ []) ∷ []; cols = 1 };
  post = record { rows = (2 ∷ []) ∷ []; cols = 1 };
  caps = none;
}

source-IsWf : IsWf source
source-IsWf = record {
  pre_shape = record { rows_len = refl; cols_eq = refl; widths = (refl, (refl, tt)) };
  post_shape = record { rows_len = refl; cols_eq = refl; widths = (refl, (refl, tt)) };
  caps_len = λ caps e. cc;
  places_fit = omega arith;
  transitions_fit = omega arith;
}

doubling-IsWf : IsWf doubling
doubling-IsWf = record {
  pre_shape = record { rows_len = refl; cols_eq = refl; widths = (refl, tt) };
  post_shape = record { rows_len = refl; cols_eq = refl; widths = (refl, tt) };
  caps_len = λ caps e. cc;
  places_fit = omega arith;
  transitions_fit = omega arith;
}

abbrev small : BoundnessAnalyzer
small = record { state_limit = some 10 }

-- The place that grows without end is missed,
source_missed : check small source 12 ≡ done bounded
unfolding checking new_transition
source_missed = refl

-- and found where every place grows.
doubling_found : check small doubling 12 ≡ done (unbounded (0 ∷ []) (some (0 ∷ [])))
unfolding checking new_transition
doubling_found = refl

first-NeverGains : NeverGains source 0
unfolding entry
first-NeverGains zero h = omega arith
first-NeverGains (suc t) h = absurd (omega arith)

check-never_unbounded_example :
    (r : BoundnessResult) × (check small source 12 ≡ done r)
    × ((ps : List PlaceId) (ws : Option (List TransitionId)) → r ≢ unbounded ps ws)
check-never_unbounded_example =
    check-never_unbounded source small 10 12 0 source-IsWf refl (omega arith) (omega arith)
      first-NeverGains

check_by_coverability_tree-Justified_example :
    (r : BoundnessResult) × (check_by_coverability_tree small doubling 12 ≡ done r)
    × Justified doubling 10 r
check_by_coverability_tree-Justified_example =
    check_by_coverability_tree-Justified doubling small 10 12 doubling-IsWf refl (omega arith)
