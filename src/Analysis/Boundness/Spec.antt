-- ===== src/Analysis/Boundness/Spec.antt =====
-- src/analysis/boundness.rs: what a coverability tree says of the net.
use rust_pta.Prelude.{
  ℕ, ◌<◌, ◌≡◌, refl, ◌∙◌, ◌⊎◌, inl, inr, none, some, List, [], ◌∷◌, ◌++◌, map, length, get_elem?,
}
use rust_pta.Net.IndexVec.{TransitionId}
use rust_pta.Net.Structure.{Marking}
use rust_pta.Net.Core.{Net, ok, fire_transition, initial_marking, places_len}
use rust_pta.Net.Core.Enabled.{tokens}
use rust_pta.Prelude.{true}
use rust_pta.Analysis.Boundness.{has_omega, CoverTreeNode, CoverTree}

-- A sequence of firings.
pub data Fires (net : Net) (m : Marking) : List TransitionId → Marking → Type 0 where
  stays : Fires net m [] m
  goes_on :
      {ts : List TransitionId} {m' m'' : Marking} (t : TransitionId)
      → Fires net m ts m'
      → fire_transition net m' t ≡ some (ok m'')
      → Fires net m (ts ++ t ∷ []) m''

-- Fewer tokens at every place.
abbrev pub Grows : Net → Marking → Marking → Type 0
Grows net m m' = (p : ℕ) → p < places_len net → tokens m p < tokens m' p

module _ (net : Net) where
  -- Node `i` is the marking `m`, which `ts` leads to along the parents.
  pub data Rooted (tree : CoverTree) : ℕ → Marking → List TransitionId → Type 0 where
    is_root :
        (i : ℕ) (n : CoverTreeNode)
        → get_elem? tree i ≡ some n
        → n.marking ≡ map some (initial_marking net)
        → n.parent ≡ none
        → Rooted tree i (initial_marking net) []
    is_child :
        (i p : ℕ) (n : CoverTreeNode) (t : TransitionId) {m m' : Marking} {ts : List TransitionId}
        → get_elem? tree i ≡ some n
        → n.marking ≡ map some m'
        → n.parent ≡ some p
        → n.transition_from_parent ≡ some t
        → p < i
        → Rooted tree p m ts
        → fire_transition net m t ≡ some (ok m')
        → Rooted tree i m' (ts ++ t ∷ [])

  -- A sequence from the initial marking, a part at the end of which makes every place grow.
  pub record Pumps (ts : List TransitionId) : Type 0 where
    pub before : List TransitionId
    pub loop : List TransitionId
    pub split : ts ≡ before ++ loop
    pub low : Marking
    pub high : Marking
    pub reaches : Fires net (initial_marking net) before low
    pub repeats : Fires net low loop high
    pub grows : Grows net low high

  -- Node `i` has an ω at every place, and the way to it pumps.
  pub record Omega (tree : CoverTree) (i : ℕ) : Type 0 where
    pub node : CoverTreeNode
    pub at : get_elem? tree i ≡ some node
    pub all_omega : (p : ℕ) → p < places_len net → get_elem? node.marking p ≡ some none
    pub marked : has_omega node.marking ≡ true
    pub width : length node.marking ≡ places_len net
    pub parent : ℕ
    pub parent_eq : node.parent ≡ some parent
    pub transition : TransitionId
    pub transition_eq : node.transition_from_parent ≡ some transition
    pub below : parent < i
    pub marking : Marking
    pub path : List TransitionId
    pub rooted : Rooted tree parent marking path
    pub pumps : Pumps (path ++ transition ∷ [])

  abbrev pub IsCover : CoverTree → Type 0
  IsCover tree =
      (i : ℕ)
      → i < length tree
      → ((m : Marking) × (ts : List TransitionId) × Rooted tree i m ts) ⊎ Omega tree i

  -- Old nodes keep all but their children.
  abbrev pub Extends : CoverTree → CoverTree → Type 0
  Extends tree tree' =
      (i : ℕ) (n : CoverTreeNode)
      → get_elem? tree i ≡ some n
      → (n' : CoverTreeNode) × (get_elem? tree' i ≡ some n')
        × (n'.marking ≡ n.marking)
        × (n'.parent ≡ n.parent)
        × (n'.transition_from_parent ≡ n.transition_from_parent)

  pub Rooted-Extends :
      {tree tree' : CoverTree} {i : ℕ} {m : Marking} {ts : List TransitionId}
      → Extends tree tree'
      → Rooted tree i m ts
      → Rooted tree' i m ts
  Rooted-Extends ext (is_root i n at em ep) =
      let (n', at', em', ep', et') = ext i n at in is_root i n' at' (em' ∙ em) (ep' ∙ ep)
  Rooted-Extends ext (is_child i p n t at em ep et lt r fires) =
      let (n', at', em', ep', et') = ext i n at in
      is_child i p n' t at' (em' ∙ em) (ep' ∙ ep) (et' ∙ et) lt (Rooted-Extends ext r) fires

  pub Omega-Extends :
      {tree tree' : CoverTree} (i : ℕ) → Extends tree tree' → Omega tree i → Omega tree' i
  Omega-Extends i ext o =
      let (n', at', em, ep, et) = ext i o.node o.at in
      record {
        node = n';
        at = at';
        all_omega = λ p hp. rw em (o.all_omega p hp);
        marked = rw em o.marked;
        width = rw em o.width;
        parent = o.parent;
        parent_eq = ep ∙ o.parent_eq;
        transition = o.transition;
        transition_eq = et ∙ o.transition_eq;
        below = o.below;
        marking = o.marking;
        path = o.path;
        rooted = Rooted-Extends ext o.rooted;
        pumps = o.pumps;
      }

  pub Rooted-Fires :
      {tree : CoverTree} {i : ℕ} {m : Marking} {ts : List TransitionId}
      → Rooted tree i m ts
      → Fires net (initial_marking net) ts m
  Rooted-Fires (is_root i n at em ep) = stays
  Rooted-Fires (is_child i p n t at em ep et lt r fires) = goes_on t (Rooted-Fires r) fires

  -- The node of a rooted index.
  pub Rooted-at :
      {tree : CoverTree} {i : ℕ} {m : Marking} {ts : List TransitionId}
      → Rooted tree i m ts
      → (n : CoverTreeNode) × (get_elem? tree i ≡ some n) × (n.marking ≡ map some m)
  Rooted-at (is_root i n at em ep) = (n, at, em)
  Rooted-at (is_child i p n t at em ep et lt r fires) = (n, at, em)

  -- A rooted node that has a parent.
  pub record Child (tree : CoverTree) (i : ℕ) (m : Marking) (ts : List TransitionId) : Type 0 where
    pub node : CoverTreeNode
    pub at : get_elem? tree i ≡ some node
    pub parent : ℕ
    pub parent_eq : node.parent ≡ some parent
    pub below : parent < i
    pub transition : TransitionId
    pub transition_eq : node.transition_from_parent ≡ some transition
    pub marking : Marking
    pub path : List TransitionId
    pub path_eq : ts ≡ path ++ transition ∷ []
    pub rooted : Rooted tree parent marking path
    pub fires : fire_transition net marking transition ≡ some (ok m)

  pub Rooted-cases :
      {tree : CoverTree} {i : ℕ} {m : Marking} {ts : List TransitionId}
      → Rooted tree i m ts
      → ((n : CoverTreeNode) × (get_elem? tree i ≡ some n) × (n.parent ≡ none) × (ts ≡ []))
        ⊎ Child tree i m ts
  Rooted-cases (is_root i n at em ep) = inl (n, at, ep, refl)
  Rooted-cases (is_child i p n t {m = mp} {ts = tp} at em ep et lt r fires) = inr (record {
    node = n;
    at = at;
    parent = p;
    parent_eq = ep;
    below = lt;
    transition = t;
    transition_eq = et;
    marking = mp;
    path = tp;
    path_eq = refl;
    rooted = r;
    fires = fires;
  })
