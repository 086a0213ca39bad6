-- ===== src/Net/Core/Build.antt =====
-- src/net/core.rs: the construction of a net keeps it well formed, and says which arcs it has.
use rust_pta.Prelude.{
  ℕ, ◌+◌, ◌%◌, ◌^◌, ◌≤◌, ◌<◌, ◌≡◌, ◌≢◌, ◌⊎◌, refl, ◌∙◌, Option, none, some, List, [], ◌∷◌,
}
use rust_pta.Prelude.{◌++◌, length, length-append, arith, Bool-cases, inl, inr, ◌==◌}
use rust_pta.Prelude.{sym, ap, ==→≡, ◌>>=◌}
use mathlib.Core.Option
use native.Mathlib.Nat.{add-zero, mod-eq_of_lt}
use rust_pta.Net.IndexVec.{PlaceId, TransitionId, id_limit, from_usize-eq, push}
use rust_pta.Net.Structure.{Weight, Place, Transition}
use rust_pta.Net.Incidence.{Incidence}
use rust_pta.Net.Incidence.Shape.{
  entry, HasShape, new-HasShape, push_place-HasShape, push_transition-HasShape, entry-push_place,
  entry-push_transition, update-Updates, Updates,
}
use rust_pta.Net.Core.{
  Net, empty, add_place, add_transition, set_input_weight, set_output_weight, add_input_arc,
  add_output_arc, places_len, transitions_len, push_capacity,
}

abbrev pub pre_weight : Net → PlaceId → TransitionId → Weight
pre_weight net p t = entry net.pre p t

abbrev pub post_weight : Net → PlaceId → TransitionId → Weight
post_weight net p t = entry net.post p t

-- The matrices have a row for each place and a column for each transition, the capacities, if they
-- are kept apart, are one for each place, and the indices are ids of 32 bits.
pub record IsWf (net : Net) : Type 0 where
  pub pre_shape : HasShape net.pre (places_len net) (transitions_len net)
  pub post_shape : HasShape net.post (places_len net) (transitions_len net)
  pub caps_len : (caps : List Weight) → net.caps ≡ some caps → length caps ≡ places_len net
  pub places_fit : places_len net ≤ id_limit
  pub transitions_fit : transitions_len net ≤ id_limit

pub empty-IsWf : IsWf empty
unfolding empty
empty-IsWf = record {
  pre_shape = new-HasShape 0 0;
  post_shape = new-HasShape 0 0;
  caps_len = λ caps e. cc;
  places_fit = omega arith;
  transitions_fit = omega arith;
}

-- What adding a place does: the id is the next index, no arc changes and the new place has none.
pub record AddsPlace (net : Net) (place : Place) (r : Net × PlaceId) : Type 0 where
  pub id : r.1 ≡ places_len net
  pub wf : IsWf r.0
  pub places_eq : (r.0).places ≡ net.places ++ place ∷ []
  pub same_transitions : (r.0).transitions ≡ net.transitions
  pub caps_eq : (r.0).caps ≡ Option.map (λ caps. caps ++ place.capacity ∷ []) net.caps
  pub same_pre : (p t : ℕ) → pre_weight r.0 p t ≡ pre_weight net p t
  pub same_post : (p t : ℕ) → post_weight r.0 p t ≡ post_weight net p t

pub record AddsTransition (net : Net) (transition : Transition) (r : Net × TransitionId)
    : Type 0 where
  pub id : r.1 ≡ transitions_len net
  pub wf : IsWf r.0
  pub transitions_eq : (r.0).transitions ≡ net.transitions ++ transition ∷ []
  pub same_places : (r.0).places ≡ net.places
  pub same_caps : (r.0).caps ≡ net.caps
  pub same_pre : (p t : ℕ) → pre_weight r.0 p t ≡ pre_weight net p t
  pub same_post : (p t : ℕ) → post_weight r.0 p t ≡ post_weight net p t

length-push {ℓ} : {A : Type ℓ} (xs : List A) (x : A) → length (xs ++ x ∷ []) ≡ length xs + 1
length-push xs x = length-append xs (x ∷ [])

push_capacity_eq :
    (caps : Option (List Weight)) (c : Weight)
    → push_capacity caps c ≡ Option.map (λ old. old ++ c ∷ []) caps
unfolding push_capacity push
push_capacity_eq none c = refl
push_capacity_eq (some old) c = refl

length-push_capacity :
    (caps : Option (List Weight)) (c : Weight) (n : ℕ)
    → ((cs : List Weight) → caps ≡ some cs → length cs ≡ n)
    → (cs : List Weight) → push_capacity caps c ≡ some cs
    → length cs ≡ n + 1
unfolding push_capacity push
length-push_capacity none c n h cs e = cc
length-push_capacity (some old) c n h cs e =
    let same : old ++ c ∷ [] ≡ cs = cc in
    omega (arith, length-push old c, h old refl, ap length same)

-- Adding a place to a well-formed net with room for one more id gives a well-formed net: the place
-- is the last, its id is its index, a vector of capacities gets the place's capacity at its end, no
-- other place or transition changes, and no arc does.
pub add_place-AddsPlace :
    (net : Net) (place : Place)
    → IsWf net
    → places_len net < id_limit
    → AddsPlace net place (add_place net place)
unfolding add_place
add_place-AddsPlace net place wf room = record {
  id = from_usize-eq (places_len net) room;
  wf = record {
    pre_shape = rw (length-push net.places place) (push_place-HasShape net.pre wf.pre_shape);
    post_shape = rw (length-push net.places place) (push_place-HasShape net.post wf.post_shape);
    caps_len = λ caps e.
        length-push_capacity net.caps place.capacity (places_len net) wf.caps_len caps e
        ∙ sym (length-push net.places place);
    places_fit = omega (arith, length-push net.places place);
    transitions_fit = wf.transitions_fit;
  };
  places_eq = refl;
  same_transitions = refl;
  caps_eq = push_capacity_eq net.caps place.capacity;
  same_pre = entry-push_place net.pre;
  same_post = entry-push_place net.post;
}

-- Adding a transition to a well-formed net with room for one more id gives a well-formed net: the
-- transition is the last, its id is its index, nothing else changes, and no arc does.
pub add_transition-AddsTransition :
    (net : Net) (transition : Transition)
    → IsWf net
    → transitions_len net < id_limit
    → AddsTransition net transition (add_transition net transition)
unfolding add_transition
add_transition-AddsTransition net transition wf room =
    let len = length-push net.transitions transition in
    record {
      id = from_usize-eq (transitions_len net) room;
      wf = record {
        pre_shape = rw len (push_transition-HasShape net.pre wf.pre_shape);
        post_shape = rw len (push_transition-HasShape net.post wf.post_shape);
        caps_len = wf.caps_len;
        places_fit = wf.places_fit;
        transitions_fit = omega (arith, len);
      };
      transitions_eq = refl;
      same_places = refl;
      same_caps = refl;
      same_pre = entry-push_transition net.pre;
      same_post = entry-push_transition net.post;
    }

-- An arc operation returns a net that differs in one entry of one matrix, which becomes `weight`.
pub record SetsArc (side other : Net → Incidence Weight) (net : Net) (p t : ℕ) (weight : Weight)
    (r : Option Net) : Type 0 where
  pub out : Net
  pub returns : r ≡ some out
  pub wf : IsWf out
  pub same_places : out.places ≡ net.places
  pub same_transitions : out.transitions ≡ net.transitions
  pub same_caps : out.caps ≡ net.caps
  pub self : entry (side out) p t ≡ weight
  pub others : (q u : ℕ) → (q ≢ p) ⊎ (u ≢ t) → entry (side out) q u ≡ entry (side net) q u
  pub same_other : other out ≡ other net

abbrev pub pre_side : Net → Incidence Weight
pre_side net = net.pre

abbrev pub post_side : Net → Incidence Weight
post_side net = net.post

abbrev wrapping_add : Weight → Weight → Weight
wrapping_add weight entry = (entry + weight) % 2 ^ 64

module _ (net : Net) (wf : IsWf net) (p t : ℕ) (hp : p < places_len net)
    (ht : t < transitions_len net) where
  pre_updated :
      {f : Weight → Weight} {r : Option (Incidence Weight)}
      → Updates net.pre (places_len net) (transitions_len net) p t f r
      → SetsArc pre_side post_side net p t
          (f (pre_weight net p t))
          (r >>= λ pre. some (record net { pre = pre }))
  pre_updated u = record {
    out = record net { pre = u.out };
    returns = rw u.returns;
    wf = record {
      pre_shape = u.shape;
      post_shape = wf.post_shape;
      caps_len = wf.caps_len;
      places_fit = wf.places_fit;
      transitions_fit = wf.transitions_fit;
    };
    same_places = refl;
    same_transitions = refl;
    same_caps = refl;
    self = u.self;
    others = u.others;
    same_other = refl;
  }

  post_updated :
      {f : Weight → Weight} {r : Option (Incidence Weight)}
      → Updates net.post (places_len net) (transitions_len net) p t f r
      → SetsArc post_side pre_side net p t
          (f (post_weight net p t))
          (r >>= λ post. some (record net { post = post }))
  post_updated u = record {
    out = record net { post = u.out };
    returns = rw u.returns;
    wf = record {
      pre_shape = wf.pre_shape;
      post_shape = u.shape;
      caps_len = wf.caps_len;
      places_fit = wf.places_fit;
      transitions_fit = wf.transitions_fit;
    };
    same_places = refl;
    same_transitions = refl;
    same_caps = refl;
    self = u.self;
    others = u.others;
    same_other = refl;
  }

  unchanged :
      (side other : Net → Incidence Weight)
      → SetsArc side other net p t (entry (side net) p t) (some net)
  unchanged side other = record {
    out = net;
    returns = refl;
    wf = wf;
    same_places = refl;
    same_transitions = refl;
    same_caps = refl;
    self = refl;
    others = λ q u h. refl;
    same_other = refl;
  }

  set_input_weight-SetsArc :
      (weight : Weight)
      → SetsArc pre_side post_side net p t weight (set_input_weight net p t weight)
  unfolding set_input_weight
  set_input_weight-SetsArc weight =
      pre_updated (update-Updates net.pre (λ _. weight) wf.pre_shape p t hp ht)

  set_output_weight-SetsArc :
      (weight : Weight)
      → SetsArc post_side pre_side net p t weight (set_output_weight net p t weight)
  unfolding set_output_weight
  set_output_weight-SetsArc weight =
      post_updated (update-Updates net.post (λ _. weight) wf.post_shape p t hp ht)

  add_input_arc-SetsArc :
      (weight : Weight)
      → pre_weight net p t + weight < 2 ^ 64
      → SetsArc pre_side post_side net p t
          (pre_weight net p t + weight)
          (add_input_arc net p t weight)
  unfolding add_input_arc
  add_input_arc-SetsArc weight small = elim (Bool-cases (weight == 0)) [
    | inl e ↦ rw (e, ==→≡ weight 0 e, add-zero) (unchanged pre_side post_side)
    | inr e ↦ rw e (
        rw (mod-eq_of_lt small) at
          (pre_updated (update-Updates net.pre (wrapping_add weight) wf.pre_shape p t hp ht)))
  ]

  add_output_arc-SetsArc :
      (weight : Weight)
      → post_weight net p t + weight < 2 ^ 64
      → SetsArc post_side pre_side net p t
          (post_weight net p t + weight)
          (add_output_arc net p t weight)
  unfolding add_output_arc
  add_output_arc-SetsArc weight small = elim (Bool-cases (weight == 0)) [
    | inl e ↦ rw (e, ==→≡ weight 0 e, add-zero) (unchanged post_side pre_side)
    | inr e ↦ rw e (
        rw (mod-eq_of_lt small) at
          (post_updated (update-Updates net.post (wrapping_add weight) wf.post_shape p t hp ht)))
  ]

-- For a place and a transition of a well-formed net, with weights that do not overflow 64 bits, no
-- arc operation panics: setting a weight makes it the weight of that arc, adding an arc adds it to
-- the weight there, and in each case every other arc, the other matrix and all else stay.
pub arcs-SetsArc :
    (net : Net) (p t : ℕ) (weight : Weight)
    → IsWf net
    → p < places_len net
    → t < transitions_len net
    → pre_weight net p t + weight < 2 ^ 64
    → post_weight net p t + weight < 2 ^ 64
    → SetsArc pre_side post_side net p t weight (set_input_weight net p t weight)
      × SetsArc post_side pre_side net p t weight (set_output_weight net p t weight)
      × SetsArc pre_side post_side net p t
          (pre_weight net p t + weight)
          (add_input_arc net p t weight)
      × SetsArc post_side pre_side net p t
          (post_weight net p t + weight)
          (add_output_arc net p t weight)
arcs-SetsArc net p t weight wf hp ht small_in small_out = (
  set_input_weight-SetsArc net wf p t hp ht weight,
  set_output_weight-SetsArc net wf p t hp ht weight,
  add_input_arc-SetsArc net wf p t hp ht weight small_in,
  add_output_arc-SetsArc net wf p t hp ht weight small_out,
)
