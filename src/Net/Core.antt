-- ===== src/Net/Core.antt =====
-- src/net/core.rs, as built by default (the features `inhibitor`, `reset` and `invariants` are off):
-- the net, its construction, and its firing rule. The outer `Option` of a method is Rust's panic.
-- Token sums wrap around at 2^64, as in a release build.
pub mod Build
pub mod Enabled
pub mod Outcome
mod Loops
pub mod Fire
pub mod Commute
pub mod Conserve
pub mod Effect
pub mod Diagnose
use rust_pta.Prelude.{ℕ, ◌+◌, ◌-◌, ◌%◌, ◌^◌, Bool, true, false, Option, none, some, ◌>>=◌, for_each}
use rust_pta.Prelude.{List, [], ◌∷◌, map, length, get_elem?, set, ltb, leb, ◌==◌, if◌then◌else◌}
use rust_pta.Net.IndexVec.{PlaceId, TransitionId, from_usize, push, iter_enumerated, enumerate_from}
use rust_pta.Net.Structure.{Weight, Place, Transition, Marking}
use rust_pta.Net.Incidence
use rust_pta.Net.Incidence.{Incidence}

pub data FireError : Type 0 where
  out_of_bounds : TransitionId → FireError
  not_enabled : TransitionId → FireError
  conflict : TransitionId → PlaceId → FireError
  -- the place, the tokens that it would hold, and its capacity
  capacity : PlaceId → Weight → Weight → FireError
  deadlock : FireError
  non_sequential_step : ℕ → FireError

pub data Result {ℓ} (A : Type ℓ) : Type ℓ where
  ok : A → Result A
  err : FireError → Result A

pub record Net : Type 0 where
  pub places : List Place
  pub transitions : List Transition
  pub pre : Incidence Weight
  pub post : Incidence Weight
  pub caps : Option (List Weight)

unfoldable pub empty : Net
unfolding Incidence.new
empty = record {
  places = [];
  transitions = [];
  pre = Incidence.new 0 0 0;
  post = Incidence.new 0 0 0;
  caps = none;
}

-- `capacity_vec.push(capacity_value)`, if there is such a vector.
push_capacity : Option (List Weight) → Weight → Option (List Weight)
push_capacity none c = none
push_capacity (some caps) c = some (push caps c).0

unfoldable pub add_place : Net → Place → Net × PlaceId
unfolding push push_capacity Incidence.push_place_with_default
add_place net place =
    let (places, place_id) = push net.places place in
    (
      record net {
        places = places;
        pre = (Incidence.push_place_with_default net.pre 0).0;
        post = (Incidence.push_place_with_default net.post 0).0;
        caps = push_capacity net.caps place.capacity;
      },
      place_id,
    )

unfoldable pub add_transition : Net → Transition → Net × TransitionId
unfolding push Incidence.push_transition_with_default
add_transition net transition =
    let (transitions, transition_id) = push net.transitions transition in
    (
      record net {
        transitions = transitions;
        pre = (Incidence.push_transition_with_default net.pre 0).0;
        post = (Incidence.push_transition_with_default net.post 0).0;
      },
      transition_id,
    )

unfoldable pub set_input_weight : Net → PlaceId → TransitionId → Weight → Option Net
unfolding Incidence.set_entry
set_input_weight net place transition weight = do
  pre ← Incidence.set_entry net.pre place transition weight
  some (record net { pre = pre })

unfoldable pub set_output_weight : Net → PlaceId → TransitionId → Weight → Option Net
unfolding Incidence.set_entry
set_output_weight net place transition weight = do
  post ← Incidence.set_entry net.post place transition weight
  some (record net { post = post })

unfoldable pub add_input_arc : Net → PlaceId → TransitionId → Weight → Option Net
unfolding Incidence.update
add_input_arc net place transition weight = if weight == 0 then some net else (do
  pre ← Incidence.update net.pre place transition (λ entry. (entry + weight) % 2 ^ 64)
  some (record net { pre = pre }))

unfoldable pub add_output_arc : Net → PlaceId → TransitionId → Weight → Option Net
unfolding Incidence.update
add_output_arc net place transition weight = if weight == 0 then some net else (do
  post ← Incidence.update net.post place transition (λ entry. (entry + weight) % 2 ^ 64)
  some (record net { post = post }))

abbrev pub places_len : Net → ℕ
places_len net = length net.places

abbrev pub transitions_len : Net → ℕ
transitions_len net = length net.transitions

unfoldable pub initial_marking : Net → Marking
initial_marking net = map (λ (p : Place). p.tokens) net.places

-- `self.post.difference(&self.pre)`
unfoldable pub c_matrix : Net → Option (Incidence ℕ)
c_matrix net = Incidence.difference net.post net.pre

-- The loop of `is_transition_enabled` over the enumerated rows of `pre`.
unfoldable pub enabled_rows : Marking → TransitionId → List (PlaceId × List Weight) → Option Bool
enabled_rows marking transition [] = some true
enabled_rows marking transition ((place, row) ∷ rest) = do
  weight ← get_elem? row transition
  tokens ← get_elem? marking place
  if ltb tokens weight then some false else enabled_rows marking transition rest

unfoldable pub is_transition_enabled : Net → TransitionId → Marking → Option Bool
unfolding enabled_rows
is_transition_enabled net transition marking =
    if leb (transitions_len net) transition
    then some false
    else enabled_rows marking transition (iter_enumerated net.pre.rows)

-- The `filter_map` of `enabled_transitions`, from index `idx` on.
unfoldable pub enabled_from : Net → Marking → ℕ → List Transition → Option (List TransitionId)
enabled_from net marking idx [] = some []
enabled_from net marking idx (_ ∷ rest) = do
  enabled ← is_transition_enabled net (from_usize idx) marking
  others ← enabled_from net marking (idx + 1) rest
  some (if enabled then from_usize idx ∷ others else others)

unfoldable pub enabled_transitions : Net → Marking → Option (List TransitionId)
enabled_transitions net marking = enabled_from net marking 0 net.transitions

-- The body of the first loop of `fire_transition`: `checked_sub(..).expect(..)`.
unfoldable pub take_tokens : Net → TransitionId → Marking → PlaceId × Place → Option Marking
unfolding Incidence.get
take_tokens net transition next (place, _) = do
  weight ← Incidence.get net.pre place transition
  if ltb 0 weight
      then (do
        tokens ← get_elem? next place
        if ltb tokens weight then none else some (set next place (tokens - weight)))
      else some next

-- `self.capacity.as_ref().map(|caps| caps[place]).unwrap_or(own)`.
unfoldable pub caps_or : Option (List Weight) → PlaceId → Weight → Option Weight
caps_or none place own = some own
caps_or (some caps) place own = get_elem? caps place

-- The argument `self.places[place].capacity` of `unwrap_or` is evaluated in any case.
unfoldable pub capacity_of : Net → PlaceId → Option Weight
unfolding caps_or
capacity_of net place = do p ← get_elem? net.places place; caps_or net.caps place p.capacity

-- The body of the second loop.
unfoldable pub put_tokens : Net → TransitionId → Marking → PlaceId → Option (Result Marking)
unfolding Incidence.get capacity_of
put_tokens net transition next place = do
  weight ← Incidence.get net.post place transition
  if ltb 0 weight
      then (do
        tokens ← get_elem? next place
        let after = (tokens + weight) % 2 ^ 64
        limit ← capacity_of net place
        some (
            if ltb limit after
            then err (capacity place after limit)
            else ok (set next place after)))
      else some (ok next)

-- The second loop, which returns at the first error.
unfoldable pub put_all :
    Net → TransitionId → Marking → List (PlaceId × Place) → Option (Result Marking)
unfolding put_tokens
put_all net transition next [] = some (ok next)
put_all net transition next ((place, _) ∷ rest) =
    put_tokens net transition next place
    >>= elim [ ok next' ↦ put_all net transition next' rest | err e ↦ some (err e) ]

unfoldable pub fire_transition : Net → Marking → TransitionId → Option (Result Marking)
fire_transition net marking transition =
    if leb (transitions_len net) transition then some (err (out_of_bounds transition)) else (do
      enabled ← is_transition_enabled net transition marking
      if enabled
          then (do
            taken ← for_each (take_tokens net transition) marking (iter_enumerated net.places)
            put_all net transition taken (iter_enumerated net.places))
          else some (err (not_enabled transition)))

-- Whoever unfolds this can run the firing rule.
unfoldable pub firing : Unit {0}
unfolding enabled_transitions enabled_from fire_transition is_transition_enabled enabled_rows
    take_tokens put_all put_tokens capacity_of for_each iter_enumerated enumerate_from from_usize
    Incidence.get
firing = tt
