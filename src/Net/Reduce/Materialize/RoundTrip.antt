-- ===== src/Net/Reduce/Materialize/RoundTrip.antt =====
-- src/net/reduce/graph.rs: a net that is read into the working graph and read back is the same.
use rust_pta.Prelude.{ℕ, ◌≤◌, ◌≡◌, refl, sym, ap, subst}
use rust_pta.Prelude.{◌∙◌, arith, Option, none, some, if◌then◌else◌}
use rust_pta.Prelude.{List, [], map, get_or, length, replicate, All}
use rust_pta.Prelude.{eq_of_get_or, All-get_or, length-map}
use native.Mathlib.Nat.{zero-add}
use rust_pta.Net.IndexVec.{id_limit, iter_enumerated, enumerate_from}
use rust_pta.Net.Structure.{Weight, Place, Transition}
use rust_pta.Net.Incidence
use rust_pta.Net.Incidence.{Incidence}
use rust_pta.Net.Incidence.Shape.{entry, HasShape, new-HasShape, entry-new}
use rust_pta.Net.Core.{Net, places_len, transitions_len}
use rust_pta.Net.Core.Build.{IsWf}
use rust_pta.Net.Reduce.Graph.{
  ReductionGraph, GraphPlace, GraphTransition, without_arcs, from_net, has_caps,
}
use rust_pta.Net.Reduce.Graph.Arcs.{in_weight, out_weight}
use rust_pta.Net.Reduce.Graph.Reads.{IsRead, from_net-IsRead, length-enumerate_from}
use rust_pta.Net.Reduce.InRange.{TransitionIn}
use rust_pta.Net.Reduce.Materialize.{
  MaterializedNet, ReductionTrace, materialize, renumber, new_places, new_transitions, set_traces,
  place_mapping, transition_mapping, set_all_arcs,
}
use rust_pta.Net.Reduce.Materialize.Writes.{all_live, SetsColumns, set_all_arcs-SetsColumns}
use rust_pta.Net.Reduce.Materialize.Live.{
  set_traces-all_live, LivePlaces, live_places, LiveTransitions, live_transitions,
  values-enumerate_from, own_traces,
}

-- Matrices of one shape whose entries agree are equal.
eq_of_entries :
    {n k : ℕ} (m o : Incidence ℕ)
    → HasShape m n k
    → HasShape o n k
    → ((p t : ℕ) → entry m p t ≡ entry o p t)
    → m ≡ o
unfolding entry
eq_of_entries {n} {k} m o sm so same =
    let rows_eq : m.rows ≡ o.rows =
      eq_of_get_or m.rows o.rows [] (sm.rows_len ∙ sym so.rows_len) (λ i lt.
        eq_of_get_or (get_or m.rows i []) (get_or o.rows i []) 0
          (All-get_or (λ (r : List ℕ). length r ≡ k) m.rows i [] sm.widths lt
            ∙ sym (
                All-get_or (λ (r : List ℕ). length r ≡ k) o.rows i [] so.widths
                  (omega (arith, sm.rows_len, so.rows_len))))
          (λ j lt'. same i j)) in
    ground (arith, sm.cols_eq, so.cols_eq, rows_eq)

-- The capacities that the net keeps apart, if it does, are those of its places.
abbrev pub OwnCapacities : Net → Type 0
OwnCapacities net =
    (caps : List Weight) → net.caps ≡ some caps → caps ≡ map (λ (p : Place). p.capacity) net.places

kept_caps :
    (own : Option (List Weight)) (caps : List Weight)
    → ((cs : List Weight) → own ≡ some cs → cs ≡ caps)
    → (if has_caps own then some caps else none) ≡ own
unfolding has_caps
kept_caps none caps h = refl
kept_caps (some cs) caps h = ap some (sym (h cs refl))

-- `materialize` from what its loops return.
materialize_lem :
    (graph : ReductionGraph) (places : List Place) (transitions : List Transition)
    (pids tids : List (Option ℕ)) (pre post : Incidence Weight) (ptrace ttrace : List (List ℕ))
    → new_places graph.places ≡ places
    → new_transitions graph.transitions ≡ transitions
    → place_mapping graph.places ≡ pids
    → transition_mapping graph.transitions ≡ tids
    → set_all_arcs pids tids graph.transitions (
      Incidence.new (length places) (length transitions) 0,
      Incidence.new (length places) (length transitions) 0,
    )
      ≡ some (pre, post)
    → set_traces pids
        (map (λ (p : GraphPlace). p.originals) graph.places)
        (replicate (length places) [])
      ≡ some ptrace
    → set_traces tids
        (map (λ (t : GraphTransition). t.originals) graph.transitions)
        (replicate (length transitions) [])
      ≡ some ttrace
    → materialize graph
      ≡ some record {
        net = record {
          places = places;
          transitions = transitions;
          pre = pre;
          post = post;
          caps = if graph.has_capacity then some (map (λ (p : Place). p.capacity) places) else none;
        };
        trace = record { place_mapping = ptrace; transition_mapping = ttrace };
      }
unfolding materialize
materialize_lem graph places transitions pids tids pre post ptrace ttrace e₁ e₂ e₃ e₄ e₅ e₆ e₇ =
    rw (materialize, e₁, e₂, e₃, e₄) (rw (e₅) (rw (e₆) (rw (e₇) refl)))

rebuilt :
    {net : Net} {trace : ReductionTrace} (pre post : Incidence Weight) (caps : Option (List Weight))
    → pre ≡ net.pre
    → post ≡ net.post
    → caps ≡ net.caps
    → ◌≡◌ {A = Option MaterializedNet}
        (some record {
          net = record {
            places = net.places;
            transitions = net.transitions;
            pre = pre;
            post = post;
            caps = caps;
          };
          trace = trace;
        })
        (some record { net = net; trace = trace })
rebuilt pre post caps e₁ e₂ e₃ = rw (e₁, e₂, e₃) refl

module _ (net : Net) (wf : IsWf net) (own : OwnCapacities net) (g : ReductionGraph)
    (read : IsRead net g) where
  length-own_traces {ℓ} : {A : Type ℓ} (xs : List A) → length (own_traces xs) ≡ length xs
  unfolding iter_enumerated enumerate_from
  length-own_traces xs = length-map _ (iter_enumerated xs) ∙ length-enumerate_from 0 xs

  places_live : LivePlaces (iter_enumerated net.places) g.places
  unfolding without_arcs
  places_live = live_places (iter_enumerated net.places) g.places read.is.places_same

  transitions_live : LiveTransitions (iter_enumerated net.transitions) g.transitions
  unfolding without_arcs
  transitions_live =
      live_transitions (iter_enumerated net.transitions) g.transitions read.is.transitions_same

  places_mapped : place_mapping g.places ≡ all_live 0 (places_len net)
  unfolding place_mapping
  places_mapped = ap (renumber 0) places_live.removed_eq ∙ ap (all_live 0) read.is.places_count

  transitions_mapped : transition_mapping g.transitions ≡ all_live 0 (length g.transitions)
  unfolding transition_mapping
  transitions_mapped = ap (renumber 0) transitions_live.removed_eq

  columns :
      SetsColumns
        (places_len net)
        (transitions_len net)
        0
        g.transitions
        (Incidence.new (places_len net) (transitions_len net) 0)
        (Incidence.new (places_len net) (transitions_len net) 0)
        (set_all_arcs
          (all_live 0 (places_len net))
          (all_live 0 (length g.transitions))
          g.transitions
          (
            Incidence.new (places_len net) (transitions_len net) 0,
            Incidence.new (places_len net) (transitions_len net) 0,
          ))
  columns =
      set_all_arcs-SetsColumns (places_len net) (transitions_len net) wf.places_fit
        wf.transitions_fit g.transitions 0 _ _ (omega (arith, read.is.transitions_count))
        (subst (λ n. All (TransitionIn n) g.transitions) read.is.places_count
          read.is.range.transitions_in)
        (new-HasShape (places_len net) (transitions_len net))
        (new-HasShape (places_len net) (transitions_len net))

  pre_same : columns.pre' ≡ net.pre
  unfolding in_weight
  pre_same =
      eq_of_entries columns.pre' net.pre columns.pre_shape wf.pre_shape
        (λ p t. rw (zero-add, entry-new) at (columns.pre_from p t) ∙ read.inputs_eq p t)

  post_same : columns.post' ≡ net.post
  unfolding out_weight
  post_same =
      eq_of_entries columns.post' net.post columns.post_shape wf.post_shape
        (λ p t. rw (zero-add, entry-new) at (columns.post_from p t) ∙ read.outputs_eq p t)

  traces {ℓ} :
      {A : Type ℓ} (xs : List A) (n : ℕ) (os : List (List ℕ))
      → length xs ≤ id_limit
      → n ≡ length xs
      → os ≡ own_traces xs
      → set_traces (all_live 0 n) os (replicate (length xs) []) ≡ some (own_traces xs)
  traces xs n os fit en eo =
      let len = length-own_traces xs in
      rw (en, eo)
        (subst
          (λ k. set_traces (all_live 0 k) (own_traces xs) (replicate k []) ≡ some (own_traces xs))
          len (set_traces-all_live (own_traces xs) [] (omega (arith, len))))

  caps_same :
      (if g.has_capacity then some (map (λ (p : Place). p.capacity) net.places) else none)
      ≡ net.caps
  caps_same = rw read.is.capacity_eq (kept_caps net.caps _ own)

  pub read_back :
      materialize g
      ≡ some record {
        net = net;
        trace = record {
          place_mapping = own_traces net.places;
          transition_mapping = own_traces net.transitions;
        };
      }
  unfolding iter_enumerated
  read_back =
      materialize_lem g net.places net.transitions (all_live 0 (places_len net))
        (all_live 0 (length g.transitions)) columns.pre' columns.post' (own_traces net.places)
        (own_traces net.transitions) (places_live.places_eq ∙ values-enumerate_from 0 net.places)
        (transitions_live.transitions_eq ∙ values-enumerate_from 0 net.transitions) places_mapped
        transitions_mapped columns.returns
        (traces net.places (places_len net) _ wf.places_fit refl places_live.originals_eq)
        (traces net.transitions (length g.transitions) _ wf.transitions_fit
          read.is.transitions_count transitions_live.originals_eq)
      ∙ rebuilt columns.pre' columns.post' _ pre_same post_same caps_same

-- The round trip: a well-formed net whose capacities are those of its places is read into the
-- working graph, and `materialize` gives the same net back, with a trace in which each place and
-- each transition stands for itself.
pub materialize-from_net :
    (net : Net)
    → IsWf net
    → OwnCapacities net
    → (g : ReductionGraph) × (from_net net ≡ some g)
      × (materialize g
          ≡ some record {
            net = net;
            trace = record {
              place_mapping = own_traces net.places;
              transition_mapping = own_traces net.transitions;
            };
          })
materialize-from_net net wf own =
    let (g, e, read) = from_net-IsRead net wf in (g, e, read_back net wf own g read)
