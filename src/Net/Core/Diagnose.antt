-- ===== src/Net/Core/Diagnose.antt =====
-- src/net/core.rs: `diagnose_connectivity`. The texts of the warnings are left out.
pub mod Judge
pub mod Report
use rust_pta.Prelude.{
  ℕ, Bool, true, false, not, ◌&&◌, ◌||◌, Option, none, some, ◌>>=◌, String, List, [], ◌∷◌, ◌++◌,
}
use rust_pta.Prelude.{ltb, leb, ◌==◌, if◌then◌else◌, get_elem?, for_each}
use rust_pta.Net.IndexVec.{PlaceId, TransitionId, iter_enumerated}
use rust_pta.Net.Structure.{Place, Transition}
use rust_pta.Net.Core.{Net, places_len, transitions_len}
use Prim.Native.String.{len, find}

-- The name and the id that a warning mentions.
pub data Warning : Type 0 where
  never_activated : String → PlaceId → Warning
  sink : String → PlaceId → Warning
  never_fires : String → TransitionId → Warning
  no_postset : String → TransitionId → Warning

pub record DiagnosticReport : Type 0 where
  pub isolated_places : List (PlaceId × String)
  pub isolated_transitions : List (TransitionId × String)
  pub warnings : List Warning
  pub total_places : ℕ
  pub total_transitions : ℕ

-- `name.contains("_end")`
unfoldable pub is_end : String → Bool
is_end name = leb (find name "_end") (len name)

-- `row.iter().any(|w| *w > 0)`
unfoldable pub any_positive : List ℕ → Bool
any_positive [] = false
any_positive (w ∷ row) = ltb 0 w || any_positive row

-- `row.get(index).map_or(false, |w| *w > 0)`
unfoldable pub positive_at : ℕ → List ℕ → Bool
positive_at index row = elim (get_elem? row index) [ none ↦ false | some w ↦ ltb 0 w ]

unfoldable pub any_row : ℕ → List (List ℕ) → Bool
any_row index [] = false
any_row index (row ∷ rows) = positive_at index row || any_row index rows

-- What a place or a transition adds to the isolated ones and to the warnings.
abbrev pub Findings : Type 0
Findings = List (ℕ × String) × List Warning

unfoldable pub judge_place : PlaceId → Place → Bool → Bool → Findings → Findings
judge_place place_id place has_input has_output (isolated, warnings) =
    if not has_input && not has_output
    then (isolated ++ (place_id, place.name) ∷ [], warnings)
    else (if not has_input && (place.tokens == 0)
        then (isolated, warnings ++ never_activated place.name place_id ∷ [])
        else (if not has_output && not (is_end place.name)
            then (isolated, warnings ++ sink place.name place_id ∷ [])
            else (isolated, warnings)))

unfoldable pub check_place : Net → Findings → PlaceId × Place → Option Findings
check_place net findings (place_id, place) = do
  pre ← get_elem? net.pre.rows place_id
  post ← get_elem? net.post.rows place_id
  some (judge_place place_id place (any_positive pre) (any_positive post) findings)

unfoldable pub judge_transition : TransitionId → Transition → Bool → Bool → Findings → Findings
judge_transition trans_id trans has_preset has_postset (isolated, warnings) =
    if not has_preset && not has_postset
    then (isolated ++ (trans_id, trans.name) ∷ [], warnings)
    else (if not has_preset
        then (isolated, warnings ++ never_fires trans.name trans_id ∷ [])
        else (if not has_postset
            then (isolated, warnings ++ no_postset trans.name trans_id ∷ [])
            else (isolated, warnings)))

unfoldable pub check_transition : Net → Findings → TransitionId × Transition → Option Findings
check_transition net findings (trans_id, trans) = some (
    judge_transition trans_id trans (any_row trans_id net.pre.rows) (any_row trans_id net.post.rows)
      findings)

unfoldable pub diagnose_connectivity : Net → Option DiagnosticReport
diagnose_connectivity net = do
  (isolated_places, warnings) ← for_each (check_place net) ([], []) (iter_enumerated net.places)
  (isolated_transitions, warnings') ←
      for_each (check_transition net) ([], warnings) (iter_enumerated net.transitions)
  some (record {
    isolated_places = isolated_places;
    isolated_transitions = isolated_transitions;
    warnings = warnings';
    total_places = places_len net;
    total_transitions = transitions_len net;
  })
