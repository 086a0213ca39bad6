-- ===== src/Net/Reduce/Keeps.antt =====
-- src/net/reduce/graph.rs: what an edit of the working graph does to its places.
use rust_pta.Prelude.{ℕ, zero, suc, ◌≤◌, ◌+◌, ◌≡◌, refl, true, false}
use rust_pta.Prelude.{some, List, [], ◌∷◌, get_elem?, set, length, ◌⊎◌, inl, inr}
use rust_pta.Prelude.{arith, ◌∙◌, if◌then◌else◌, ap}
use rust_pta.Net.Reduce.Graph.{
  ReductionGraph, GraphPlace, arc_place, remove_transition, remove_place, clean_adjacency,
  clean_place, drop_outgoing, drop_incoming, gone_place, modify_each,
}
use rust_pta.Net.Reduce.Loops.{is_resources}
use rust_pta.Net.Reduce.Pairwise.{
  All2, All2-refl, All2-trans, All2-set, All2-map, All2-modify_each, All2-mono, get_elem?-All2,
}
use rust_pta.Net.Reduce.InRange.{remove_transition-cases, remove_place-cases}

-- Only the adjacency of the place differs.
abbrev pub SamePlace : GraphPlace → GraphPlace → Type 0
SamePlace x y = (y.place ≡ x.place) × (y.originals ≡ x.originals) × (y.removed ≡ x.removed)

-- A place that the reduction may drop: it holds no token and is not of the type `Resources`.
abbrev pub Droppable : GraphPlace → Type 0
Droppable x = (x.place.tokens ≡ 0) × (is_resources x.place.place_type ≡ false)

-- The place keeps its data, and stays, unless it is droppable and is removed.
abbrev pub KeptPlace : GraphPlace → GraphPlace → Type 0
KeptPlace x y =
    (y.place ≡ x.place)
    × (y.originals ≡ x.originals)
    × ((y.removed ≡ x.removed) ⊎ ((x.removed ≡ false) × (y.removed ≡ true) × Droppable x))

SamePlace-trans : (x y z : GraphPlace) → SamePlace x y → SamePlace y z → SamePlace x z
SamePlace-trans x y z h k = (k.0 ∙ h.0, k.1 ∙ h.1, k.2 ∙ h.2)

KeptPlace-trans : (x y z : GraphPlace) → KeptPlace x y → KeptPlace y z → KeptPlace x z
KeptPlace-trans x y z h k = ground arith

abbrev pub SamePlaces : ReductionGraph → ReductionGraph → Type 0
SamePlaces graph other = All2 SamePlace graph.places other.places

-- Every place keeps its data, and stays unless it holds no token and is no resource.
abbrev pub KeptPlaces : ReductionGraph → ReductionGraph → Type 0
KeptPlaces graph other = All2 KeptPlace graph.places other.places

pub SamePlaces-refl : (graph : ReductionGraph) → SamePlaces graph graph
SamePlaces-refl graph = All2-refl SamePlace (λ x. (refl, refl, refl)) SamePlace-trans graph.places

pub SamePlaces-trans : (a b c : ReductionGraph) → SamePlaces a b → SamePlaces b c → SamePlaces a c
SamePlaces-trans a b c =
    All2-trans SamePlace (λ x. (refl, refl, refl)) SamePlace-trans a.places b.places c.places

pub KeptPlaces-refl : (graph : ReductionGraph) → KeptPlaces graph graph
KeptPlaces-refl graph =
    All2-refl KeptPlace (λ x. (refl, refl, inl refl)) KeptPlace-trans graph.places

pub KeptPlaces-trans : (a b c : ReductionGraph) → KeptPlaces a b → KeptPlaces b c → KeptPlaces a c
KeptPlaces-trans a b c =
    All2-trans KeptPlace (λ x. (refl, refl, inl refl)) KeptPlace-trans a.places b.places c.places

pub SamePlaces-KeptPlaces : (a b : ReductionGraph) → SamePlaces a b → KeptPlaces a b
SamePlaces-KeptPlaces a b =
    All2-mono SamePlace KeptPlace a.places b.places (λ x y h. (h.0, h.1, inl h.2))

drop_each :
    {B : Type 0} (f : GraphPlace → GraphPlace) (index : B → ℕ) (bs : List B) (xs : List GraphPlace)
    → ((x : GraphPlace) → SamePlace x (f x))
    → All2 SamePlace xs (modify_each index f xs bs)
drop_each f index bs xs h =
    All2-modify_each SamePlace (λ x. (refl, refl, refl)) SamePlace-trans f h index bs xs

pub remove_transition-SamePlaces :
    (graph : ReductionGraph) (idx : ℕ) → SamePlaces graph (remove_transition graph idx)
remove_transition-SamePlaces graph idx = elim (remove_transition-cases graph idx) [
  | inl e ↦ rw e (SamePlaces-refl graph)
  | inr (t, _, e) ↦ rw e (
      All2-trans SamePlace (λ x. (refl, refl, refl)) SamePlace-trans graph.places _ _
        (drop_each (drop_outgoing idx) arc_place t.inputs graph.places (λ x. (refl, refl, refl)))
        (drop_each (drop_incoming idx) arc_place t.outputs _ (λ x. (refl, refl, refl))))
]

pub clean_adjacency-SamePlaces : (graph : ReductionGraph) → SamePlaces graph (clean_adjacency graph)
unfolding clean_adjacency
clean_adjacency-SamePlaces graph =
    All2-map SamePlace (clean_place graph.transitions) graph.places same
  where
    same : (x : GraphPlace) → SamePlace x (clean_place graph.transitions x)
    same x = (refl, refl, refl)

-- The place at the index, if there is one, may be dropped.
abbrev pub DroppableAt : ReductionGraph → ℕ → Type 0
DroppableAt graph idx = (x : GraphPlace) → get_elem? graph.places idx ≡ some x → Droppable x

pub DroppableAt-kept :
    (graph other : ReductionGraph) (idx : ℕ)
    → KeptPlaces graph other
    → DroppableAt graph idx
    → DroppableAt other idx
DroppableAt-kept graph other idx kept h y e =
    let (x, e', r) = get_elem?-All2 KeptPlace graph.places other.places idx y kept e in
    ground (arith, h x e')

pub remove_place-KeptPlaces :
    (graph : ReductionGraph) (idx : ℕ)
    → DroppableAt graph idx
    → KeptPlaces graph (remove_place graph idx)
remove_place-KeptPlaces graph idx h = elim (remove_place-cases graph idx) [
  | inl e ↦ rw e (KeptPlaces-refl graph)
  | inr (p, e, live, e') ↦ rw e' (
      All2-set KeptPlace (λ x. (refl, refl, inl refl)) KeptPlace-trans graph.places idx p
        (gone_place p) e (refl, refl, inr (live, refl, h p e)))
]

-- The number of places that are not removed.
abbrev pub count_live : List GraphPlace → ℕ
count_live [] = 0
count_live (x ∷ xs) = if x.removed then count_live xs else suc (count_live xs)

-- The tokens of the places that are not removed.
abbrev pub live_tokens : List GraphPlace → ℕ
live_tokens [] = 0
live_tokens (x ∷ xs) = if x.removed then live_tokens xs else x.place.tokens + live_tokens xs

count_live-same : (xs ys : List GraphPlace) → All2 SamePlace xs ys → count_live ys ≡ count_live xs
count_live-same [] [] h = refl
count_live-same (x ∷ xs) (y ∷ ys) h = rw ((h.0).2, count_live-same xs ys h.1) refl
count_live-same [] (y ∷ ys) h = absurd h
count_live-same (x ∷ xs) [] h = absurd h

pub count_live-SamePlaces :
    (a b : ReductionGraph) → SamePlaces a b → count_live b.places ≡ count_live a.places
count_live-SamePlaces a b = count_live-same a.places b.places

kept_tokens : (xs ys : List GraphPlace) → All2 KeptPlace xs ys → live_tokens ys ≡ live_tokens xs
kept_tokens [] [] h = refl
kept_tokens (x ∷ xs) (y ∷ ys) h =
    let e : y.place.tokens ≡ x.place.tokens = ap (λ p. p.tokens) (h.0).0 in
    ground (arith, kept_tokens xs ys h.1)
kept_tokens [] (y ∷ ys) h = absurd h
kept_tokens (x ∷ xs) [] h = absurd h

pub live_tokens-KeptPlaces :
    (a b : ReductionGraph) → KeptPlaces a b → live_tokens b.places ≡ live_tokens a.places
live_tokens-KeptPlaces a b = kept_tokens a.places b.places

pub count_live-set :
    (xs : List GraphPlace) (i : ℕ) (x : GraphPlace)
    → get_elem? xs i ≡ some x
    → x.removed ≡ false
    → suc (count_live (set xs i (gone_place x))) ≡ count_live xs
count_live-set [] i x e live = cc
count_live-set (y ∷ xs) zero x e live = ground arith
count_live-set (y ∷ xs) (suc i) x e live = ground (arith, count_live-set xs i x e live)

pub count_live-le : (xs : List GraphPlace) → count_live xs ≤ length xs
count_live-le [] = omega arith
count_live-le (x ∷ xs) = ground (arith, count_live-le xs)

-- A place that is not removed is removed, and is the only one.
pub remove_place-live :
    (graph : ReductionGraph) (idx : ℕ) (x : GraphPlace)
    → get_elem? graph.places idx ≡ some x
    → x.removed ≡ false
    → suc (count_live (remove_place graph idx).places) ≡ count_live graph.places
unfolding remove_place
remove_place-live graph idx x e live =
    rw (remove_place, e, live) (count_live-set graph.places idx x e live)
