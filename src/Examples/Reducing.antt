-- ===== src/Examples/Reducing.antt =====
-- What the theorems about `with_config_por` of src/analysis/reachability.rs say of the example net,
-- and what the construction misses there.
use rust_pta.Prelude.{
  ℕ, zero, suc, ◌≡◌, ◌<◌, ◌≤◌, ◌↔◌, ◌∈◌, refl, Bool, none, some, true, false, [], arith, String,
}
use rust_pta.Net.IndexVec.{TransitionId}
use rust_pta.Net.Structure.{Marking, new_transition}
use rust_pta.Net.Core.{FireError, transitions_len}
use rust_pta.Net.Core.Commute.{Independent}
use rust_pta.Net.Core.Enabled.{Enabled}
use rust_pta.Analysis.Snapshot.{StateNode, StateEdge}
use rust_pta.Analysis.Graph.{StableGraph}
use rust_pta.Analysis.Reachability.{StateGraphConfig, Run, done, panicked, out_of_fuel, find}
use rust_pta.Analysis.Reachability.Spec.{Reach, At, Linked}
use rust_pta.Analysis.Por.{
  SetOrder, PorSearch, with_config_por, por_exploring, transitions_are_independent,
}
use rust_pta.Analysis.Por.Independent.{transitions_are_independent-Independent}
use rust_pta.Analysis.Por.Correct.{with_config_por_sound, with_config_por-deadlocks}
use rust_pta.Analysis.Por.Total.{with_config_por-returns}
use rust_pta.Examples.ListGraph.{list_graph}
use rust_pta.Examples.Nets.{pair, pair-IsWf, first_moved, both_moved}

transitions_are_independent-Independent_example :
    (b : Bool) × (transitions_are_independent pair 0 1 ≡ some b)
    × ((b ≡ true) ↔ (¬ (zero ≡ suc zero) × Independent pair 0 1))
transitions_are_independent-Independent_example =
    transitions_are_independent-Independent pair 0 1 pair-IsWf (omega arith) (omega arith)

abbrev G : StableGraph StateNode StateEdge
G = list_graph StateNode StateEdge

abbrev to_string : FireError → String
to_string e = "error"

abbrev in_order : SetOrder
in_order = record {
  iter = λ set. set;
  mem-iter = λ t set. (λ m. m, λ m. m);
  length-iter = λ set. refl;
}

abbrev config : StateGraphConfig
config = record { state_limit = some 10; include_zero_tokens = true; use_por = true }

abbrev reduced : Run (PorSearch G to_string)
reduced = with_config_por G to_string in_order pair config 31

abbrev nothing_found : PorSearch G to_string
nothing_found = record {
  found = record {
    graph = G.empty;
    initial = 0;
    deadlocks = [];
    truncated = true;
    failures = [];
    markings = [];
    queue = [];
  };
  sleeps = [];
  sleep_sets = [];
}

abbrev result_of : Run (PorSearch G to_string) → PorSearch G to_string
result_of (done s) = s
result_of panicked = nothing_found
result_of out_of_fuel = nothing_found

abbrev final : PorSearch G to_string
final = result_of reduced

reduced_ends : reduced ≡ done final
unfolding por_exploring list_graph new_transition
reduced_ends = refl

-- The search is not cut off.
reduced_whole : final.found.truncated ≡ false
unfolding por_exploring list_graph new_transition
reduced_whole = refl

-- The marking in which both transitions have fired is reachable, but has no node,
reduced_misses : find final.found.markings both_moved ≡ none
unfolding por_exploring list_graph new_transition
reduced_misses = refl

-- and its deadlock is missed.
reduced_deadlocks : final.found.deadlocks ≡ []
unfolding por_exploring list_graph new_transition
reduced_deadlocks = refl

At-moved : At G to_string final.found 1 first_moved
unfolding por_exploring list_graph new_transition
At-moved = (_, refl, refl)

with_config_por_sound_example :
    ((m : Marking) (i : ℕ)
      → (find final.found.markings m ≡ some i) ↔ At G to_string final.found i m)
    × ((m : Marking) (i j : ℕ)
        → At G to_string final.found i m × At G to_string final.found j m
        → i ≡ j)
    × ((m : Marking) (i : ℕ) → find final.found.markings m ≡ some i → Reach pair m)
    × ((x : ℕ × ℕ × StateEdge)
        → x ∈ G.edges final.found.graph
        → Linked G to_string pair final.found x)
with_config_por_sound_example =
    with_config_por_sound G to_string in_order pair config 31 final pair-IsWf reduced_ends

with_config_por-deadlocks_example :
    (1 ∈ final.found.deadlocks)
    ↔ ((t : TransitionId) → t < transitions_len pair → ¬ Enabled pair first_moved t)
with_config_por-deadlocks_example =
    with_config_por-deadlocks G to_string in_order pair config 31 final pair-IsWf reduced_ends 1
      first_moved At-moved

with_config_por-returns_example :
    (s : PorSearch G to_string) × (with_config_por G to_string in_order pair config 31 ≡ done s)
    × (G.node_count s.found.graph ≤ 10)
unfolding list_graph
with_config_por-returns_example =
    with_config_por-returns G to_string in_order pair config 10 10 30 31 pair-IsWf refl refl refl
      (omega arith) (omega arith) (omega arith)
