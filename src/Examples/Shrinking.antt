-- ===== src/Examples/Shrinking.antt =====
-- src/net/reduce: the reduction at small nets: a line of three places, and a cycle of two places
-- that holds a token.
use rust_pta.Prelude.{ℕ, ◌≡◌, refl, none, some, [], ◌∷◌, false, arith, done}
use rust_pta.Prelude.{
  Run, panicked, List, Bool, true, ltb, length, out_of_fuel, ◌⊎◌, inl, inr, for_each,
}
use rust_pta.Net.Structure.{Place, basic_block, Transition, new_transition, normal}
use rust_pta.Net.Structure.Eq.{type_eq}
use rust_pta.Net.Core.{Net}
use rust_pta.Net.IndexVec.{iter_enumerated, enumerate_from, from_usize}
use rust_pta.Net.Incidence
use rust_pta.Net.Reduce.Graph.{
  ReductionGraph, GraphPlace, GraphTransition, ReductionStep, sequence_merged, from_net,
  remove_place, remove_transition, clean_adjacency,
}
use rust_pta.Net.Core.Build.{IsWf}
use rust_pta.Net.Reduce.Graph.Reads.{IsRead, from_net-IsRead}
use rust_pta.Net.Reduce.Materialize.{materialize}
use rust_pta.Net.Reduce.Materialize.Live.{own_traces}
use rust_pta.Net.Reduce.Materialize.RoundTrip.{materialize-from_net}
use rust_pta.Net.Reduce.Loops.{remove_simple_loops, LoopState, is_resources, member}
use rust_pta.Net.Reduce.Loops.Total.{Loops, remove_simple_loops-Loops}
use rust_pta.Net.Reduce.Intermediate.{eliminate_intermediate_places}
use rust_pta.Net.Reduce.Intermediate.Total.{Eliminated, eliminate_intermediate_places-Eliminated}
use rust_pta.Net.Reduce.Sequence.{merge_linear_sequences}
use rust_pta.Net.Reduce.Sequence.Diverges.{LeadsTo, merge_linear_sequences-out_of_fuel}
use rust_pta.Net.Reduce.InRange.{InRange}
use rust_pta.Net.Reduce.Reducer.{
  reduce, ReductionOptions, ReductionResult, ok, err, validation_failed, Reduced,
}
use rust_pta.Net.Reduce.Reducer.Accepted.{AllAccept, reduce-Accepted}
use rust_pta.Net.Reduce.Reducer.Unchanged.{reduce-Unchanged}
use rust_pta.Examples.Nets.{pair, pair-IsWf}

abbrev pub spot : ℕ → Place
spot held = record { name = "p"; tokens = held; capacity = 1; place_type = basic_block; span = "" }

abbrev pub step : Transition
step = new_transition "move"

-- A line of three places and two transitions.
abbrev pub line : Net
line = record {
  places = spot 1 ∷ spot 0 ∷ spot 0 ∷ [];
  transitions = step ∷ step ∷ [];
  pre = record { rows = (1 ∷ 0 ∷ []) ∷ (0 ∷ 1 ∷ []) ∷ (0 ∷ 0 ∷ []) ∷ []; cols = 2 };
  post = record { rows = (0 ∷ 0 ∷ []) ∷ (1 ∷ 0 ∷ []) ∷ (0 ∷ 1 ∷ []) ∷ []; cols = 2 };
  caps = none;
}

abbrev graph_spot : ℕ → ℕ → List ℕ → List ℕ → GraphPlace
graph_spot held id incoming outgoing = record {
  place = spot held;
  originals = id ∷ [];
  incoming = incoming;
  outgoing = outgoing;
  removed = false;
}

abbrev graph_step : ℕ → ℕ → ℕ → GraphTransition
graph_step id from to = record {
  transition = step;
  originals = id ∷ [];
  inputs = (from, 1) ∷ [];
  outputs = (to, 1) ∷ [];
  removed = false;
}

abbrev line_graph : ReductionGraph
line_graph = record {
  places =
      graph_spot 1 0 [] (0 ∷ [])
      ∷ graph_spot 0 1 (0 ∷ []) (1 ∷ [])
      ∷ graph_spot 0 2 (1 ∷ []) []
      ∷ [];
  transitions = graph_step 0 0 1 ∷ graph_step 1 1 2 ∷ [];
  merge_counter = 0;
  has_capacity = false;
}

line-from_net : from_net line ≡ some line_graph
unfolding from_net iter_enumerated enumerate_from from_usize for_each
line-from_net = refl

line-IsWf : IsWf line
line-IsWf = record {
  pre_shape = record { rows_len = refl; cols_eq = refl; widths = (refl, (refl, (refl, tt))) };
  post_shape = record { rows_len = refl; cols_eq = refl; widths = (refl, (refl, (refl, tt))) };
  caps_len = λ caps e. cc;
  places_fit = omega arith;
  transitions_fit = omega arith;
}

from_net-IsRead_example : (g : ReductionGraph) × (from_net line ≡ some g) × IsRead line g
from_net-IsRead_example = from_net-IsRead line line-IsWf

materialize-from_net_example :
    (g : ReductionGraph) × (from_net line ≡ some g)
    × (materialize g
        ≡ some record {
          net = line;
          trace = record {
            place_mapping = own_traces (line.places);
            transition_mapping = own_traces (line.transitions);
          };
        })
materialize-from_net_example = materialize-from_net line line-IsWf (λ caps e. cc)

line_graph-InRange : InRange line_graph
line_graph-InRange = record { places_in = omega arith; transitions_in = omega arith }

eliminate_intermediate_places-Eliminated_example :
    (other : ReductionGraph) × (reported : List ReductionStep) × (eliminate_intermediate_places
        line_graph
      ≡ done (other, reported))
    × Eliminated line_graph [] other reported
eliminate_intermediate_places-Eliminated_example =
    eliminate_intermediate_places-Eliminated line_graph line_graph-InRange

-- Two places in a cycle, of which the first holds a token.
abbrev ring : ReductionGraph
ring = record {
  places = graph_spot 1 0 (1 ∷ []) (0 ∷ []) ∷ graph_spot 0 1 (0 ∷ []) (1 ∷ []) ∷ [];
  transitions = graph_step 0 0 1 ∷ graph_step 1 1 0 ∷ [];
  merge_counter = 0;
  has_capacity = false;
}

ring-InRange : InRange ring
ring-InRange = record { places_in = omega arith; transitions_in = omega arith }

remove_simple_loops-Loops_example :
    (s : LoopState) × (remove_simple_loops ring ≡ done s) × Loops ring s.graph
remove_simple_loops-Loops_example = remove_simple_loops-Loops ring ring-InRange

abbrev OnRing : ℕ → Type 0
OnRing i = (i ≡ 0) ⊎ (i ≡ 1)

ring-LeadsTo : (i : ℕ) → OnRing i → (next : ℕ) × LeadsTo ring i next × OnRing next
unfolding is_resources
ring-LeadsTo i (inl e) = (
  1,
  record {
    place = graph_spot 1 0 (1 ∷ []) (0 ∷ []);
    t_idx = 0;
    transition = graph_step 0 0 1;
    weight = 1;
    at = rw e refl;
    link = record { live = refl; plain = refl; one_in = refl; one_out = refl };
    first = refl;
    t_at = refl;
    t_live = refl;
    inputs_eq = rw e refl;
    outputs_eq = refl;
  },
  inr refl,
)
ring-LeadsTo i (inr e) = (
  0,
  record {
    place = graph_spot 0 1 (0 ∷ []) (1 ∷ []);
    t_idx = 1;
    transition = graph_step 1 1 0;
    weight = 1;
    at = rw e refl;
    link = record { live = refl; plain = refl; one_in = refl; one_out = refl };
    first = refl;
    t_at = refl;
    t_live = refl;
    inputs_eq = rw e refl;
    outputs_eq = refl;
  },
  inl refl,
)

merge_linear_sequences-out_of_fuel_example : merge_linear_sequences 1000 ring ≡ out_of_fuel
merge_linear_sequences-out_of_fuel_example =
    merge_linear_sequences-out_of_fuel ring OnRing ring-LeadsTo (inl refl) 1000

abbrev checked : Bool → Reduced (Unit {0})
checked true = ok tt
checked false = err (validation_failed "too large")

abbrev rejecting : ReductionOptions
rejecting = record {
  invariant_checker = some (λ net. err (validation_failed "no"));
  property_checker = none;
}

rejected :
    reduce rejecting 9 line
    ≡ done (line, err (validation_failed "validator rejected reduced net: no"))
unfolding reduce remove_simple_loops merge_linear_sequences iter_enumerated enumerate_from
    from_usize for_each Incidence.new Incidence.set_entry remove_place remove_transition
rejected = refl

abbrev short_line : Net
short_line = record {
  places = spot 1 ∷ spot 0 ∷ [];
  transitions = record { name = "seq_merge#0"; transition_type = normal } ∷ [];
  pre = record { rows = (1 ∷ []) ∷ (0 ∷ []) ∷ []; cols = 1 };
  post = record { rows = (0 ∷ []) ∷ (1 ∷ []) ∷ []; cols = 1 };
  caps = none;
}

abbrev line_result : ReductionResult
line_result = record {
  net = short_line;
  trace = record {
    place_mapping = (0 ∷ []) ∷ (2 ∷ []) ∷ [];
    transition_mapping = (0 ∷ 1 ∷ []) ∷ [];
  };
  steps = sequence_merged (0 ∷ []) (2 ∷ []) (0 ∷ 1 ∷ []) (1 ∷ []) ∷ [];
  stage_nets = record {
    after_loop = line;
    after_sequence = short_line;
    after_intermediate = short_line;
  };
}

-- A validator that takes the short line and refuses the long one.
abbrev strict : ReductionOptions
strict = record {
  invariant_checker = some (λ net. checked (ltb (length net.places) 3));
  property_checker = some (λ net. ok tt);
}

line-reduce : reduce strict 9 line ≡ done (short_line, ok line_result)
unfolding reduce remove_simple_loops merge_linear_sequences eliminate_intermediate_places
    iter_enumerated enumerate_from from_usize for_each Incidence.new Incidence.set_entry
    remove_place remove_transition clean_adjacency type_eq member new_transition
line-reduce = refl

reduce-Accepted_example : AllAccept strict short_line
reduce-Accepted_example =
    reduce-Accepted strict 9 line short_line line_result line-reduce (λ e. cc e)

-- No rule applies to two transitions side by side.
abbrev pair_result : ReductionResult
pair_result = record {
  net = pair;
  trace = record {
    place_mapping = (0 ∷ []) ∷ (1 ∷ []) ∷ (2 ∷ []) ∷ (3 ∷ []) ∷ [];
    transition_mapping = (0 ∷ []) ∷ (1 ∷ []) ∷ [];
  };
  steps = [];
  stage_nets = record { after_loop = pair; after_sequence = pair; after_intermediate = pair };
}

abbrev net_after : Run (Net × Reduced ReductionResult) → Net
net_after (done (net, _)) = net
net_after panicked = line
net_after out_of_fuel = line

-- What the reduction leaves behind `&mut`.
abbrev reduced_pair : Net
reduced_pair = net_after (reduce strict 9 pair)

pair-reduce : reduce strict 9 pair ≡ done (reduced_pair, ok pair_result)
unfolding reduce remove_simple_loops merge_linear_sequences eliminate_intermediate_places
    iter_enumerated enumerate_from from_usize for_each Incidence.new Incidence.set_entry
    remove_place remove_transition clean_adjacency type_eq member new_transition
pair-reduce = refl

reduce-Unchanged_example :
    (reduced_pair ≡ pair)
    × (pair_result.net ≡ pair)
    × (pair_result.trace.place_mapping ≡ own_traces pair.places)
    × (pair_result.trace.transition_mapping ≡ own_traces pair.transitions)
reduce-Unchanged_example =
    reduce-Unchanged strict 9 pair reduced_pair pair_result pair-IsWf (λ caps e. cc) pair-reduce
      refl
