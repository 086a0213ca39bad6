-- ===== src/Detect/Deadlock/Detects.antt =====
-- src/detect/deadlock.rs: which terminal states the detector finds.
use rust_pta.Prelude.{ℕ, ◌<◌, ◌≡◌, refl, sym, ◌∙◌, ◌⊎◌, ◌↔◌, inl, inr, arith, subst, some_inj}
use rust_pta.Prelude.{lt→ltb, Bool, true, false, not, ◌&&◌, Bool-cases}
use rust_pta.Prelude.{some, done, List, [], ◌∷◌, ◌∈◌, List-cases, if◌then◌else◌, Returns}
use rust_pta.Prelude.Text.{contains_text}
use rust_pta.Analysis.Snapshot.{StateNode, StatePlaceSnapshot}
use rust_pta.Analysis.Reachability.{insert}
use rust_pta.Analysis.Reachability.Map.{mem-insert}
use rust_pta.Detect.Cycles.{GraphView, is_empty}
use rust_pta.Detect.Deadlock.{
  is_normal_termination, is_deadlock, terminal_deadlocks, or_cycles, detect_reachability_deadlock,
}

-- Some place whose name contains `main_end` holds a token.
abbrev pub NormalEnd : List StatePlaceSnapshot → Type 0
NormalEnd places =
    (p : StatePlaceSnapshot) × (p ∈ places)
    × (0 < p.tokens)
    × (contains_text p.name "main_end" ≡ true)

module _ (p : StatePlaceSnapshot) (places : List StatePlaceSnapshot) where
  normal_head :
      0 < p.tokens
      → contains_text p.name "main_end" ≡ true
      → is_normal_termination (p ∷ places) ≡ true
  unfolding is_normal_termination
  normal_head lt name = rw (lt→ltb 0 p.tokens lt, name) refl

  normal_later : is_normal_termination places ≡ true → is_normal_termination (p ∷ places) ≡ true
  unfolding is_normal_termination
  normal_later e = ground arith

  normal_inversion :
      is_normal_termination (p ∷ places) ≡ true
      → ((0 < p.tokens) × (contains_text p.name "main_end" ≡ true))
        ⊎ (is_normal_termination places ≡ true)
  unfolding is_normal_termination
  normal_inversion e = ground arith

pub normal_end :
    (places : List StatePlaceSnapshot) → NormalEnd places → is_normal_termination places ≡ true
normal_end [] (p, m, _, _) = absurd m
normal_end (q ∷ places) (p, inl e, lt, name) =
    normal_head q places (subst (λ (x : StatePlaceSnapshot). 0 < x.tokens) e lt)
      (subst (λ (x : StatePlaceSnapshot). contains_text x.name "main_end" ≡ true) e name)
normal_end (q ∷ places) (p, inr m, lt, name) =
    normal_later q places (normal_end places (p, m, lt, name))

pub end_normal :
    (places : List StatePlaceSnapshot) → is_normal_termination places ≡ true → NormalEnd places
unfolding is_normal_termination
end_normal [] e = cc
end_normal (q ∷ places) e = elim (normal_inversion q places e) [
  | inl (lt, name) ↦ (q, inl refl, lt, name)
  | inr later ↦ let (p, m, lt, name) = end_normal places later in (p, inr m, lt, name)
]

module _ (view : GraphView) where
  -- The node has no edge, and none of its places that is named as the end of `main` holds a token.
  pub record IsDead (i : ℕ) : Type 0 where
    pub state : StateNode
    pub at : view.node i ≡ some state
    pub terminal : view.targets i ≡ []
    pub unfinished : ¬ NormalEnd state.places

  -- The test of a node that exists.
  is_deadlock_lem :
      (order : List ℕ → List ℕ) (i : ℕ)
      → Returns (view.node i)
      → (b : Bool) × (is_deadlock view order i ≡ some b) × ((b ≡ true) ↔ IsDead i)
  unfolding is_deadlock
  is_deadlock_lem order i (state, at) = (
    is_empty (view.targets i) && not (is_normal_termination state.places),
    rw (is_deadlock, at) refl,
    (to, from),
  )
    where
      to : (is_empty (view.targets i) && not (is_normal_termination state.places)) ≡ true → IsDead i
      to e = elim (List-cases (view.targets i)) [
        | inr (x, xs, et) ↦ absurd (cc (rw et at e))
        | inl et ↦ record {
          state = state;
          at = at;
          terminal = et;
          unfinished = λ normal. let n = normal_end state.places normal in absurd (ground arith);
        }
      ]

      from :
          IsDead i → (is_empty (view.targets i) && not (is_normal_termination state.places)) ≡ true
      from d = elim (Bool-cases (is_normal_termination state.places)) [
        | inr e ↦ rw (d.terminal, e) refl
        | inl e ↦
            let same : state ≡ d.state = some_inj (sym at ∙ d.at) in
            absurd (d.unfinished (subst (λ z. NormalEnd z.places) same (end_normal state.places e)))
      ]

  terminal_deadlocks_next :
      (order : List ℕ → List ℕ) (i : ℕ) (rest ds : List ℕ) (b : Bool)
      → is_deadlock view order i ≡ some b
      → terminal_deadlocks view order (i ∷ rest) ds
        ≡ terminal_deadlocks view order rest (if b then insert i ds else ds)
  unfolding terminal_deadlocks
  terminal_deadlocks_next order i rest ds b e = rw (terminal_deadlocks, e) refl

  added :
      (i j : ℕ) (ds : List ℕ) (b : Bool)
      → ((b ≡ true) ↔ IsDead i)
      → (j ∈ (if b then insert i ds else ds)) ↔ ((j ∈ ds) ⊎ ((j ≡ i) × IsDead i))
  added i j ds true dead = (
    λ m. elim ((mem-insert i j ds).0 m) [ inl e ↦ inr (e, dead.0 refl) | inr m' ↦ inl m' ],
    λ m. (mem-insert i j ds).1 (elim m [ inl m' ↦ inr m' | inr (e, _) ↦ inl e ]),
  )
  added i j ds false dead = (inl, λ m. elim m [ inl m' ↦ m' | inr (_, d) ↦ absurd (cc (dead.1 d)) ])

  pub terminal_deadlocks_lem :
      (order : List ℕ → List ℕ) (is ds : List ℕ)
      → ((i : ℕ) → i ∈ is → Returns (view.node i))
      → (ds' : List ℕ) × (terminal_deadlocks view order is ds ≡ some ds')
        × ((j : ℕ) → (j ∈ ds') ↔ ((j ∈ ds) ⊎ ((j ∈ is) × IsDead j)))
  unfolding terminal_deadlocks
  terminal_deadlocks_lem order [] ds nodes =
      (ds, refl, λ j. (inl, λ m. elim m [ inl here ↦ here | inr (no_mem, _) ↦ absurd no_mem ]))
  terminal_deadlocks_lem order (i ∷ is) ds nodes =
      let (b, e, dead) = is_deadlock_lem order i (nodes i (inl refl)) in
      let (ds', e', mem) =
        terminal_deadlocks_lem order is (if b then insert i ds else ds) (λ j m. nodes j (inr m)) in
      (ds', terminal_deadlocks_next order i is ds b e ∙ e', λ j. both i j is ds ds' b dead (mem j))
    where
      both :
          (i j : ℕ) (is ds ds' : List ℕ) (b : Bool)
          → ((b ≡ true) ↔ IsDead i)
          → (j ∈ ds') ↔ ((j ∈ (if b then insert i ds else ds)) ⊎ ((j ∈ is) × IsDead j))
          → (j ∈ ds') ↔ ((j ∈ ds) ⊎ ((j ∈ i ∷ is) × IsDead j))
      both i j is ds ds' b dead mem = (
        λ m. elim (mem.0 m) [
          | inr (m', d) ↦ inr (inr m', d)
          | inl m' ↦ elim ((added i j ds b dead).0 m') [
            | inl old ↦ inl old
            | inr (e, d) ↦ inr (inl e, subst IsDead (sym e) d)
          ]
        ],
        λ m. mem.1 (elim m [
          | inl old ↦ inl ((added i j ds b dead).1 (inl old))
          | inr (inl e, d) ↦ inl ((added i j ds b dead).1 (inr (e, subst IsDead e d)))
          | inr (inr m', d) ↦ inr (m', d)
        ]),
      )

-- The detector ends, with the dead nodes and no others.
abbrev pub FindsDead : GraphView → (List ℕ → List ℕ) → Type 0
FindsDead view order =
    (found : List ℕ) × (detect_reachability_deadlock view order ≡ done found)
    × ((j : ℕ) → (j ∈ found) ↔ ((j ∈ view.node_indices) × IsDead view j))

-- If some node is dead, the detector finds the dead nodes and no others: those without an edge, no
-- place of which is named as the end of `main` and holds a token.
pub detect_reachability_deadlock-IsDead :
    (view : GraphView) (order : List ℕ → List ℕ)
    → ((i : ℕ) → i ∈ view.node_indices → Returns (view.node i))
    → (k : ℕ) → k ∈ view.node_indices
    → IsDead view k
    → FindsDead view order
unfolding detect_reachability_deadlock or_cycles
detect_reachability_deadlock-IsDead view order nodes k at dead =
    let (found, e, mem) = terminal_deadlocks_lem view order view.node_indices [] nodes in
    elim (List-cases found) [
      | inl none_found ↦ absurd (subst (λ ds. k ∈ ds) none_found ((mem k).1 (inr (at, dead))))
      | inr (x, xs, some_found) ↦ (
        found,
        rw (detect_reachability_deadlock, e, some_found) refl,
        λ j. (
          λ m. elim ((mem j).0 m) [ inl no_mem ↦ absurd no_mem | inr d ↦ d ],
          λ d. (mem j).1 (inr d),
        ),
      )
    ]
