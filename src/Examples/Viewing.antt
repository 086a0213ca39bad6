-- ===== src/Examples/Viewing.antt =====
-- What src/detect/deadlock.rs reads of the list-based graph, and what the detector says of the net of
-- two transitions.
use rust_pta.Prelude.{ℕ, zero, suc, ◌<◌, ◌+◌, ◌≡◌, refl, sym, ◌↔◌, inl, inr, arith, ap}
use rust_pta.Prelude.{true, Bool-cases, done, some, List, [], ◌∷◌, ◌∈◌, Returns, get_elem?, length}
use rust_pta.Prelude.{
  get_elem?-Returns, lt-length_of_get_elem?, leb, ◌∙◌, map, ◌==◌, ==→≡, ==→≢, if◌then◌else◌,
}
use rust_pta.Net.Core.{Net, firing, fire_transition, transitions_len, err, out_of_bounds}
use rust_pta.Analysis.Snapshot.{StateNode, StateEdge}
use rust_pta.Net.Structure.{Marking, new_transition}
use rust_pta.Analysis.Reachability.{Search, with_config_standard, exploring, contains, insert}
use rust_pta.Analysis.Reachability.Spec.{At}
use rust_pta.Detect.Deadlock.{detect_reachability_deadlock}
use rust_pta.Prelude.Text.{contains_text}
use rust_pta.Detect.Cycles.{GraphView}
use rust_pta.Detect.Deadlock.Stuck.{Stuck, IsViewOf, Judged, detect_reachability_deadlock-Stuck}
use rust_pta.Examples.ListGraph.{list_graph, Lists}
use rust_pta.Examples.Nets.{pair, pair-IsWf, both_moved, first_moved, second_after_first}
use rust_pta.Examples.Searching.{
  G, to_string, config, final, or_else, searched_ends, not_truncated, Reach-last,
}

abbrev links_from : ℕ → List (ℕ × ℕ × StateEdge) → List ℕ
links_from i [] = []
links_from i ((a, b, _) ∷ rest) =
    let others = links_from i rest in if a == i then b ∷ others else others

abbrev from_on : ℕ → ℕ → List ℕ
from_on zero i = []
from_on (suc n) i = i ∷ from_on n (i + 1)

abbrev view_of : Lists StateNode StateEdge → GraphView
view_of g = record {
  node_indices = from_on (length g.nodes) 0;
  node = λ i. get_elem? g.nodes i;
  targets = λ i. links_from i g.links;
  edge_weights = map (λ (l : ℕ × ℕ × StateEdge). l.2) g.links;
  node_count = length g.nodes;
  edge_count = length g.links;
}

mem-from_on : (n i k : ℕ) → (k ∈ from_on n i) ↔ ((i < k + 1) × (k < i + n))
mem-from_on zero i k = (λ m. absurd m, λ (a, b). absurd (omega arith))
mem-from_on (suc n) i k = ground (arith, mem-from_on n (i + 1) k)

mem-links_from :
    (i j : ℕ) (links : List (ℕ × ℕ × StateEdge))
    → (j ∈ links_from i links) ↔ ((e : StateEdge) × ((i, j, e) ∈ links))
mem-links_from i j [] = (λ m. absurd m, λ (e, m). absurd m)
mem-links_from i j ((a, b, e) ∷ rest) = elim (Bool-cases (a == i)) [
  | inl same ↦ rw same (
    λ m. elim m [
      | inl here ↦ (e, inl (rw (here, sym (==→≡ a i same)) refl))
      | inr later ↦ let (f, m') = (mem-links_from i j rest).0 later in (f, inr m')
    ],
    λ (f, m). elim m [
      | inl here ↦ inl (ap (λ (l : ℕ × ℕ × StateEdge). l.1) here)
      | inr later ↦ inr ((mem-links_from i j rest).1 (f, later))
    ],
  )
  | inr apart ↦ rw apart (
    λ m. let (f, m') = (mem-links_from i j rest).0 m in (f, inr m'),
    λ (f, m). elim m [
      | inl here ↦ absurd (==→≢ a i apart (sym (ap (λ (l : ℕ × ℕ × StateEdge). l.0) here)))
      | inr later ↦ (mem-links_from i j rest).1 (f, later)
    ],
  )
]

unfoldable last_graph : Lists StateNode StateEdge
unfolding list_graph
last_graph = final.graph

unfoldable last_view : GraphView
unfolding last_graph
last_view = view_of last_graph

Returns_iff {ℓ} :
    {A : Type ℓ} (xs : List A) (i : ℕ) → (i ∈ from_on (length xs) 0) ↔ Returns (get_elem? xs i)
Returns_iff xs i = (
  λ m. get_elem?-Returns xs i (omega (arith, ((mem-from_on (length xs) 0 i).0 m).1)),
  λ (x, e).
      (mem-from_on (length xs) 0 i).1 (omega arith, omega (arith, lt-length_of_get_elem? xs i e)),
)

viewed : IsViewOf G to_string final last_view
unfolding list_graph last_view
viewed = record {
  indices = λ i. Returns_iff last_graph.nodes i;
  same = λ i. refl;
  edges = λ i j. mem-links_from i j last_graph.links;
}

fire_outside :
    (net : Net) (m : Marking) (t : ℕ)
    → leb (transitions_len net) t ≡ true
    → fire_transition net m t ≡ some (err (out_of_bounds t))
unfolding fire_transition
fire_outside net m t e = rw (fire_transition, e) refl

Stuck-last : Stuck pair both_moved
unfolding firing
Stuck-last zero next e = absurd (cc e)
Stuck-last (suc zero) next e = absurd (cc e)
Stuck-last (suc (suc t)) next e =
    absurd (cc (sym (fire_outside pair both_moved (suc (suc t)) (ground arith)) ∙ e))

detect_reachability_deadlock-Stuck_example :
    Judged G to_string pair final last_view (λ set. set) both_moved
detect_reachability_deadlock-Stuck_example =
    detect_reachability_deadlock-Stuck G to_string pair final last_view (λ set. set) config 11
      pair-IsWf searched_ends not_truncated viewed both_moved Reach-last Stuck-last

-- With a limit of two states the graph is cut off before the net has ended, and the detector takes
-- the second node for a deadlock although a transition fires there.
abbrev cut : Search G to_string
cut =
    or_else (with_config_standard G to_string pair (record config { state_limit = some 2 }) 11)
      final

unfoldable cut_graph : Lists StateNode StateEdge
unfolding list_graph
cut_graph = cut.graph

cut_test :
    (cut.truncated ≡ true)
    × (cut.deadlocks ≡ [])
    × (detect_reachability_deadlock (view_of cut_graph) (λ set. set) ≡ done (1 ∷ []))
    × At G to_string cut 1 first_moved
    × ¬ Stuck pair first_moved
unfolding exploring list_graph new_transition cut_graph detect_reachability_deadlock contains insert
    contains_text
cut_test = (refl, refl, refl, (_, refl, refl), λ stuck. stuck 1 both_moved second_after_first)
