-- ===== src/Net/Reduce/Materialize/Live.antt =====
-- src/net/reduce/graph.rs: the places, the transitions and the traces that `materialize` reads off a
-- graph where nothing is removed.
use rust_pta.Prelude.{ℕ, ◌+◌, ◌≤◌, ◌≡◌, refl, sym, ap}
use rust_pta.Prelude.{◌∙◌, arith, false, Option, some}
use rust_pta.Prelude.{List, [], ◌∷◌, ◌++◌, map, get_elem?, set, length, replicate}
use rust_pta.Prelude.{length-append}
use mathlib.Core.List.{append_assoc}
use rust_pta.Net.IndexVec.{PlaceId, TransitionId, id_limit, iter_enumerated, enumerate_from}
use rust_pta.Net.Structure.{Place, Transition}
use rust_pta.Net.Reduce.Graph.{GraphPlace, GraphTransition, fresh_place, fresh_transition}
use rust_pta.Net.Reduce.Graph.Arcs.{SameTransition}
use rust_pta.Net.Reduce.Pairwise.{All2}
use rust_pta.Net.Reduce.Keeps.{SamePlace}
use rust_pta.Net.Reduce.Materialize.{renumber, new_places, new_transitions, set_traces}
use rust_pta.Net.Reduce.Materialize.Writes.{all_live, all_live-cons}

get_elem?-at {ℓ} :
    {A : Type ℓ} (xs : List A) (x : A) (rest : List A)
    → get_elem? (xs ++ x ∷ rest) (length xs) ≡ some x
get_elem?-at [] x rest = refl
get_elem?-at (y ∷ xs) x rest = get_elem?-at xs x rest

set-at {ℓ} :
    {A : Type ℓ} (xs : List A) (x v : A) (rest : List A)
    → set (xs ++ x ∷ rest) (length xs) v ≡ (xs ++ v ∷ []) ++ rest
set-at [] x v rest = refl
set-at (y ∷ xs) x v rest = ap (◌∷◌ y) (set-at xs x v rest)

set_traces_next :
    (id : ℕ) (ids : List (Option ℕ)) (o x : List ℕ) (os trace : List (List ℕ))
    → get_elem? trace id ≡ some x
    → set_traces (some id ∷ ids) (o ∷ os) trace ≡ set_traces ids os (set trace id o)
unfolding set_traces
set_traces_next id ids o x os trace e = rw (set_traces, e) refl

set_traces_end : (k : ℕ) (trace : List (List ℕ)) → set_traces (all_live k 0) [] trace ≡ some trace
unfolding set_traces renumber
set_traces_end k trace = refl

-- Where nothing is removed the loop over the traces writes each in its place.
pub set_traces-all_live :
    (os xs : List (List ℕ))
    → length xs + length os ≤ id_limit
    → set_traces (all_live (length xs) (length os)) os (xs ++ replicate (length os) [])
      ≡ some (xs ++ os)
set_traces-all_live [] xs fit = set_traces_end (length xs) (xs ++ [])
set_traces-all_live (o ∷ os) xs fit =
    let n = length os in
    let blank : List (List ℕ) = replicate n [] in
    let len : length (xs ++ o ∷ []) ≡ length xs + 1 = length-append xs (o ∷ []) in
    rw (all_live-cons (length xs) n (omega arith)) (
      set_traces_next (length xs) (all_live (length xs + 1) n) o [] os (xs ++ [] ∷ blank)
        (get_elem?-at xs [] blank)
      ∙ ap (set_traces (all_live (length xs + 1) n) os) (set-at xs [] o blank)
      ∙ ap (λ k. set_traces (all_live k n) os ((xs ++ o ∷ []) ++ blank)) (sym len)
      ∙ set_traces-all_live os (xs ++ o ∷ []) (omega (arith, len))
      ∙ ap some (append_assoc xs (o ∷ []) os))

-- What the graph of a net says of its places, in the terms of `materialize`.
pub record LivePlaces (xs : List (PlaceId × Place)) (ys : List GraphPlace) : Type 0 where
  pub places_eq : new_places ys ≡ map (λ (x : PlaceId × Place). x.1) xs
  pub removed_eq : map (λ (y : GraphPlace). y.removed) ys ≡ replicate (length ys) false
  pub originals_eq :
      map (λ (y : GraphPlace). y.originals) ys ≡ map (λ (x : PlaceId × Place). x.0 ∷ []) xs

pub live_places :
    (xs : List (PlaceId × Place)) (ys : List GraphPlace)
    → All2 SamePlace (map fresh_place xs) ys
    → LivePlaces xs ys
unfolding new_places fresh_place
live_places [] [] h = record { places_eq = refl; removed_eq = refl; originals_eq = refl }
live_places ((id, place) ∷ xs) (y ∷ ys) h =
    let rest = live_places xs ys h.1 in
    let place_eq : y.place ≡ place = (h.0).0 in
    let originals_eq : y.originals ≡ id ∷ [] = (h.0).1 in
    let live : y.removed ≡ false = (h.0).2 in
    record {
      places_eq = rw (live, place_eq) (ap (◌∷◌ place) rest.places_eq);
      removed_eq = rw live (ap (◌∷◌ false) rest.removed_eq);
      originals_eq = rw originals_eq (ap (◌∷◌ (id ∷ [])) rest.originals_eq);
    }
live_places [] (y ∷ ys) h = absurd h
live_places (x ∷ xs) [] h = absurd h

pub record LiveTransitions (xs : List (TransitionId × Transition)) (ys : List GraphTransition)
    : Type 0 where
  pub transitions_eq : new_transitions ys ≡ map (λ (x : TransitionId × Transition). x.1) xs
  pub removed_eq : map (λ (y : GraphTransition). y.removed) ys ≡ replicate (length ys) false
  pub originals_eq :
      map (λ (y : GraphTransition). y.originals) ys
      ≡ map (λ (x : TransitionId × Transition). x.0 ∷ []) xs

pub live_transitions :
    (xs : List (TransitionId × Transition)) (ys : List GraphTransition)
    → All2 SameTransition (map fresh_transition xs) ys
    → LiveTransitions xs ys
unfolding new_transitions fresh_transition
live_transitions [] [] h = record { transitions_eq = refl; removed_eq = refl; originals_eq = refl }
live_transitions ((id, transition) ∷ xs) (y ∷ ys) h =
    let rest = live_transitions xs ys h.1 in
    let transition_eq : y.transition ≡ transition = (h.0).0 in
    let originals_eq : y.originals ≡ id ∷ [] = (h.0).1 in
    let live : y.removed ≡ false = (h.0).2 in
    record {
      transitions_eq = rw (live, transition_eq) (ap (◌∷◌ transition) rest.transitions_eq);
      removed_eq = rw live (ap (◌∷◌ false) rest.removed_eq);
      originals_eq = rw originals_eq (ap (◌∷◌ (id ∷ [])) rest.originals_eq);
    }
live_transitions [] (y ∷ ys) h = absurd h
live_transitions (x ∷ xs) [] h = absurd h

pub values-enumerate_from {ℓ} :
    {A : Type ℓ} (k : ℕ) (xs : List A) → map (λ (x : ℕ × A). x.1) (enumerate_from k xs) ≡ xs
unfolding enumerate_from
values-enumerate_from k [] = refl
values-enumerate_from k (x ∷ xs) = ap (◌∷◌ x) (values-enumerate_from (k + 1) xs)

-- Each id stands for itself.
abbrev pub own_traces {ℓ} : {A : Type ℓ} → List A → List (List ℕ)
own_traces {A = A} xs = map (λ (x : ℕ × A). x.0 ∷ []) (iter_enumerated xs)
