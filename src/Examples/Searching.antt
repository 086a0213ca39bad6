-- ===== src/Examples/Searching.antt =====
-- What the theorems about src/analysis/reachability.rs say of the example net.
use rust_pta.Prelude.{
  ℕ, ◌≡◌, ◌<◌, ◌≤◌, ◌↔◌, ◌∈◌, refl, some, true, false, [], ◌∷◌, arith, String, subst,
}
use rust_pta.Net.IndexVec.{TransitionId}
use rust_pta.Net.Structure.{Marking, new_transition}
use rust_pta.Net.Core.{FireError, ok, fire_transition, transitions_len}
use rust_pta.Net.Core.Enabled.{Enabled}
use rust_pta.Analysis.Snapshot.{StateNode, StateEdge}
use rust_pta.Analysis.Graph.{StableGraph}
use rust_pta.Analysis.Reachability.{
  Search, StateGraphConfig, Run, done, panicked, out_of_fuel, with_config_standard, exploring, find,
}
use rust_pta.Analysis.Reachability.Spec.{Reach, here, step, At}
use rust_pta.Analysis.Reachability.Correct.{
  with_config_standard_sound, with_config_standard_complete, with_config_standard-edges,
  with_config_standard-deadlocks,
}
use rust_pta.Analysis.Reachability.Total.{with_config_standard-returns}
use rust_pta.Examples.ListGraph.{list_graph}
use rust_pta.Examples.Nets.{
  pair, pair-IsWf, at_start, first_moved, both_moved, first_fires, second_after_first, start_eq,
}

abbrev pub G : StableGraph StateNode StateEdge
G = list_graph StateNode StateEdge

abbrev pub to_string : FireError → String
to_string e = "error"

abbrev pub config : StateGraphConfig
config = record { state_limit = some 10; include_zero_tokens = true; use_por = false }

abbrev pub searched : Run (Search G to_string)
searched = with_config_standard G to_string pair config 11

abbrev pub or_else : Run (Search G to_string) → Search G to_string → Search G to_string
or_else (done s) s' = s
or_else panicked s' = s'
or_else out_of_fuel s' = s'

abbrev pub final : Search G to_string
final = or_else searched (record {
  graph = G.empty;
  initial = 0;
  deadlocks = [];
  truncated = true;
  failures = [];
  markings = [];
  queue = [];
})

-- The search of four states runs within its fuel.
pub searched_ends : searched ≡ done final
unfolding exploring list_graph new_transition
searched_ends = refl

pub not_truncated : final.truncated ≡ false
unfolding exploring list_graph new_transition
not_truncated = refl

last_deadlocked : final.deadlocks ≡ 3 ∷ []
unfolding exploring list_graph new_transition
last_deadlocked = refl

At-last : At G to_string final 3 both_moved
unfolding exploring list_graph new_transition
At-last = (_, refl, refl)

At-first : At G to_string final 0 at_start
unfolding exploring list_graph new_transition
At-first = (_, refl, refl)

At-second : At G to_string final 1 first_moved
unfolding exploring list_graph new_transition
At-second = (_, refl, refl)

pub Reach-last : Reach pair both_moved
Reach-last =
    step 1 (step 0 (subst (λ m. Reach pair m) start_eq here) first_fires) second_after_first

with_config_standard_sound_example :
    ((m : Marking) (i : ℕ) → (find final.markings m ≡ some i) ↔ At G to_string final i m)
    × ((m : Marking) (i j : ℕ) → At G to_string final i m × At G to_string final j m → i ≡ j)
    × ((m : Marking) (i : ℕ) → find final.markings m ≡ some i → Reach pair m)
with_config_standard_sound_example =
    with_config_standard_sound G to_string pair config 11 final pair-IsWf searched_ends

with_config_standard_complete_example : (i : ℕ) × (find final.markings both_moved ≡ some i)
with_config_standard_complete_example =
    with_config_standard_complete G to_string pair config 11 final pair-IsWf searched_ends
      not_truncated Reach-last

with_config_standard-edges_example :
    (fire_transition pair at_start 0 ≡ some (ok first_moved))
    ↔ ((e : StateEdge) × ((0, 1, e) ∈ G.edges final.graph) × (e.transition.id ≡ 0))
with_config_standard-edges_example =
    with_config_standard-edges G to_string pair config 11 final pair-IsWf searched_ends
      not_truncated 0 1 at_start first_moved At-first At-second 0

with_config_standard-deadlocks_example :
    (3 ∈ final.deadlocks)
    ↔ ((t : TransitionId) → t < transitions_len pair → ¬ Enabled pair both_moved t)
with_config_standard-deadlocks_example =
    with_config_standard-deadlocks G to_string pair config 11 final pair-IsWf searched_ends 3
      both_moved At-last

with_config_standard-returns_example :
    (s : Search G to_string) × (with_config_standard G to_string pair config 11 ≡ done s)
    × (G.node_count s.graph ≤ 10)
unfolding list_graph
with_config_standard-returns_example =
    with_config_standard-returns G to_string pair config 10 10 11 pair-IsWf refl refl (omega arith)
      (omega arith) (omega arith)
