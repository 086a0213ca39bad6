-- ===== src/Net/Core/Loops.antt =====
-- src/net/core.rs: the two loops of `fire_transition`.
use rust_pta.Prelude.{ℕ, ◌+◌, ◌-◌, ◌%◌, ◌^◌, ◌≤◌, ◌<◌, ◌≡◌, ◌≢◌, refl, sym, ap, ◌∙◌, ◌⊎◌, inl, inr}
use rust_pta.Prelude.{Option, none, some, List, [], ◌∷◌, length, get_elem?, get_or, set}
use rust_pta.Prelude.{ltb, arith, ltb→lt, ltb→le, Bool-cases, ◌>>=◌, for_each}
use rust_pta.Prelude.{
  get_elem?-map, lt-or-eq-or-gt, le→ltb, ◌==◌, ==→≡, ==→≢, subst, get_elem?-eq-get_or, length-set,
  get_or-set_self, get_or-set_ne,
}
use rust_pta.Net.IndexVec.{PlaceId, TransitionId, from_usize-eq, enumerate_from}
use rust_pta.Net.Structure.{Weight, Marking, Place}
use rust_pta.Net.Incidence.Shape.{get-eq-entry}
use rust_pta.Net.Core.{
  Net, Result, ok, err, take_tokens, put_tokens, put_all, capacity_of, caps_or, places_len,
  transitions_len,
}
use rust_pta.Net.Core.Build.{IsWf, pre_weight, post_weight}
use rust_pta.Net.Core.Enabled.{tokens, Fits}
use rust_pta.Net.Core.Outcome.{limits_of, limit, filled, Exceeds, overfull}

caps_or-limits :
    (caps : Option (List Weight)) (places : List Place) (p : PlaceId)
    → ((cs : List Weight) → caps ≡ some cs → length cs ≡ length places)
    → p < length places
    → (get_elem? places p >>= λ place. caps_or caps p place.capacity)
      ≡ some (get_or (limits_of caps places) p 0)
unfolding caps_or
caps_or-limits none places p len hp =
    let (x, e, e') = get_elem?-map (λ (q : Place). q.capacity) places p 0 hp in rw (e, e')
caps_or-limits (some caps) places p len hp =
    let (x, e, _) = get_elem?-map (λ (q : Place). q.capacity) places p 0 hp in
    rw e (get_elem?-eq-get_or caps p 0 (omega (arith, len caps refl)))

capacity_of-eq-limit :
    (net : Net)
    → IsWf net
    → (p : PlaceId) → p < places_len net
    → capacity_of net p ≡ some (limit net p)
unfolding capacity_of
capacity_of-eq-limit net wf p hp = caps_or-limits net.caps net.places p wf.caps_len hp

module _ (net : Net) (t : TransitionId) where
  -- One write: place `k` becomes `v`.
  record Writes (next : Marking) (k : PlaceId) (v : Weight) (out : Marking) : Type 0 where
    pub fits : Fits net out
    self : tokens out k ≡ v
    others : (p : ℕ) → k ≢ p → tokens out p ≡ tokens next p

  set-Writes :
      (next : Marking) (k : PlaceId) (v : Weight)
      → Fits net next
      → k < places_len net
      → Writes next k v (set next k v)
  set-Writes next k v fits hk = record {
    fits = length-set next k v ∙ fits;
    self = get_or-set_self next k v 0 (omega arith);
    others = λ p ne. get_or-set_ne next k p v 0 ne;
  }

  same-Writes :
      (next : Marking) (k : PlaceId) (v : Weight)
      → Fits net next
      → tokens next k ≡ v
      → Writes next k v next
  same-Writes next k v fits e = record { fits = fits; self = e; others = λ p ne. refl }

  -- A loop over the places from `k` on made `f p held` of the tokens `held` of each place `p`.
  pub record Progress (f : PlaceId → Weight → Weight) (k : ℕ) (next out : Marking) : Type 0 where
    pub fits : Fits net out
    pub below : (p : ℕ) → p < k → tokens out p ≡ tokens next p
    pub from : (p : ℕ) → k ≤ p → p < places_len net → tokens out p ≡ f p (tokens next p)

  module _ (f : PlaceId → Weight → Weight) where
    Progress-end :
        (k : ℕ) (next : Marking) → k ≡ places_len net → Fits net next → Progress f k next next
    Progress-end k next e fits = record {
      fits = fits;
      below = λ p h. refl;
      from = λ p h hp. absurd (omega arith);
    }

    Progress-step :
        {k : ℕ} {next mid out : Marking}
        → Writes next k (f k (tokens next k)) mid
        → Progress f (k + 1) mid out
        → Progress f k next out
    Progress-step {k} {next} {mid} {out} w g = record {
      fits = g.fits;
      below = λ p h. omega (arith, g.below p (omega arith), w.others p (omega arith));
      from = λ p h hp. elim (Bool-cases (p == k)) [
        | inl same ↦ rw (==→≡ p k same) (g.below k (omega arith) ∙ w.self)
        | inr other ↦
            let ne : k ≢ p = λ e. ==→≢ p k other (sym e) in
            g.from p (omega (arith, ==→≢ p k other)) hp ∙ ap (f p) (w.others p ne)
      ];
    }

  module _ (wf : IsWf net) (ht : t < transitions_len net) where
    take_step :
        (next : Marking) (k : PlaceId) (place : Place)
        → Fits net next
        → k < places_len net
        → pre_weight net k t ≤ tokens next k
        → (out : Marking) × (take_tokens net t next (k, place) ≡ some out)
          × Writes next k (tokens next k - pre_weight net k t) out
    unfolding take_tokens
    take_step next k place fits hk le =
        let weight = get-eq-entry net.pre wf.pre_shape k t hk ht in
        let held = get_elem?-eq-get_or next k 0 (omega arith) in
        elim (Bool-cases (ltb 0 (pre_weight net k t))) [
          | inl some_weight ↦ (
            set next k (tokens next k - pre_weight net k t),
            rw (weight, some_weight, held, le→ltb _ _ le),
            set-Writes next k _ fits hk,
          )
          | inr no_weight ↦ (
            next,
            rw (weight, no_weight),
            same-Writes next k _ fits (omega (arith, ltb→le _ _ no_weight)),
          )
        ]

    -- The first loop, from place `k` on.
    pub take_all :
        (rest : List Place) (k : ℕ) (next : Marking)
        → k + length rest ≡ places_len net
        → Fits net next
        → ((p : ℕ) → k ≤ p → p < places_len net → pre_weight net p t ≤ tokens next p)
        → (out : Marking) × (for_each (take_tokens net t) next (enumerate_from k rest) ≡ some out)
          × Progress (λ p held. held - pre_weight net p t) k next out
    unfolding for_each enumerate_from
    take_all [] k next e fits le = (next, refl, Progress-end _ k next (omega arith) fits)
    take_all (place ∷ rest) k next e fits le =
        let (mid, step, w) =
          take_step next k place fits (omega arith) (le k (omega arith) (omega arith)) in
        let (out, runs, progress) =
          take_all rest (k + 1) mid (omega arith) w.fits
            (λ p hk hp. omega (arith, le p (omega arith) hp, w.others p (omega arith))) in
        let id = from_usize-eq k (omega (arith, wf.places_fit)) in
        (out, rw (id, step, for_each) runs, Progress-step _ w progress)

    PutStep : Marking → PlaceId → Option (Result Marking) → Type 0
    PutStep next k r =
        ((out : Marking) × (r ≡ some (ok out))
          × (¬ Exceeds net t k (tokens next k))
          × Writes next k (filled net t k (tokens next k)) out)
        ⊎ (r ≡ some (err (overfull net t k (tokens next k)))) × Exceeds net t k (tokens next k)

    put_step :
        (next : Marking) (k : PlaceId)
        → Fits net next
        → k < places_len net
        → PutStep next k (put_tokens net t next k)
    unfolding put_tokens PutStep
    put_step next k fits hk =
        let weight = get-eq-entry net.post wf.post_shape k t hk ht in
        let held = get_elem?-eq-get_or next k 0 (omega arith) in
        let room = capacity_of-eq-limit net wf k hk in
        let sum = (tokens next k + post_weight net k t) % 2 ^ 64 in
        elim (Bool-cases (ltb 0 (post_weight net k t))) [
          | inl gets ↦ elim (Bool-cases (ltb (limit net k) sum)) [
            | inl over ↦
                inr (rw (weight, gets, held, room, over), (ltb→lt _ _ gets, ltb→lt _ _ over))
            | inr fine ↦ inl (
              set next k sum,
              rw (weight, gets, held, room, fine),
              λ exceeds. absurd (omega (arith, ltb→le _ _ fine, exceeds.1)),
              rw gets (set-Writes next k _ fits hk),
            )
          ]
          | inr gets_none ↦ inl (
            next,
            rw (weight, gets_none),
            λ exceeds. absurd (omega (arith, ltb→le _ _ gets_none, exceeds.0)),
            same-Writes next k _ fits (rw gets_none),
          )
        ]

    pub record PutsAll (next : Marking) (k : ℕ) (r : Option (Result Marking)) : Type 0 where
      pub out : Marking
      pub returns : r ≡ some (ok out)
      pub room : (p : ℕ) → k ≤ p → p < places_len net → ¬ Exceeds net t p (tokens next p)
      pub progress : Progress (filled net t) k next out

    pub record Overfills (next : Marking) (k : ℕ) (r : Option (Result Marking)) : Type 0 where
      pub place : ℕ
      pub from : k ≤ place
      pub in_range : place < places_len net
      pub returns : r ≡ some (err (overfull net t place (tokens next place)))
      pub exceeds : Exceeds net t place (tokens next place)
      pub first : (q : ℕ) → k ≤ q → q < place → ¬ Exceeds net t q (tokens next q)

    At-first :
        (P : ℕ → Type 0) {k : ℕ} {next mid : Marking} {v : Weight}
        → Writes next k v mid
        → ¬ Exceeds net t k (tokens next k)
        → ((q : ℕ) → k + 1 ≤ q → P q → ¬ Exceeds net t q (tokens mid q))
        → (q : ℕ) → k ≤ q
        → P q
        → ¬ Exceeds net t q (tokens next q)
    At-first P {k} {next} w here later q h pq = elim (lt-or-eq-or-gt k q) [
      | inl below ↦ rw (← w.others q (omega arith)) (later q (omega arith) pq)
      | inr (inl e) ↦ subst (λ z. ¬ Exceeds net t z (tokens next z)) e here
      | inr (inr above) ↦ absurd (omega arith)
    ]

    at_later :
        {k : ℕ} {next mid : Marking} {v : Weight} {r r' : Option (Result Marking)}
        → Writes next k v mid
        → ¬ Exceeds net t k (tokens next k)
        → r ≡ r'
        → Overfills mid (k + 1) r'
        → Overfills next k r
    at_later {r = r} w fine same over =
        let p = over.place in
        let e = w.others p (omega (arith, over.from)) in
        record {
          place = p;
          from = omega (arith, over.from);
          in_range = over.in_range;
          returns = subst (λ x. r ≡ some (err (overfull net t p x))) e (same ∙ over.returns);
          exceeds = subst (Exceeds net t p) e over.exceeds;
          first = At-first (λ q. q < p) w fine over.first;
        }

    -- The second loop, from place `k` on.
    pub put_all_lem :
        (rest : List Place) (k : ℕ) (next : Marking)
        → k + length rest ≡ places_len net
        → Fits net next
        → PutsAll next k (put_all net t next (enumerate_from k rest))
          ⊎ Overfills next k (put_all net t next (enumerate_from k rest))
    unfolding put_all enumerate_from PutStep
    put_all_lem [] k next e fits = inl (record {
      out = next;
      returns = refl;
      room = λ p h hp. absurd (omega arith);
      progress = Progress-end (filled net t) k next (omega arith) fits;
    })
    put_all_lem (place ∷ rest) k next e fits =
        let id = from_usize-eq k (omega (arith, wf.places_fit)) in
        elim (put_step next k fits (omega arith)) [
          | inr (over, exceeds) ↦ inr (record {
            place = k;
            from = omega arith;
            in_range = omega arith;
            returns = rw (id, over);
            exceeds = exceeds;
            first = λ q h h'. absurd (omega arith);
          })
          | inl (mid, put, fine, w) ↦ elim (put_all_lem rest (k + 1) mid (omega arith) w.fits) [
            | inl all ↦ inl (record {
              out = all.out;
              returns = rw (id, put) all.returns;
              room = At-first (λ q. q < places_len net) w fine all.room;
              progress = Progress-step (filled net t) w all.progress;
            })
            | inr over ↦ inr (at_later w fine (rw (id, put)) over)
          ]
        ]
