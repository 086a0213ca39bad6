-- ===== src/Analysis/Boundness/Attach.antt =====
-- src/analysis/boundness.rs: `add_child` keeps the tree a coverability tree.
use rust_pta.Prelude.{ℕ, suc, ◌<◌, ◌≡◌, ◌≢◌, ◌⊎◌, refl, sym, ◌∙◌, ap, subst, inl, inr, none, some}
use rust_pta.Prelude.{
  List, [], ◌∷◌, ◌++◌, ◌∈◌, map, length, get_elem?, set, arith, mem-append, length-append,
  length-set, get_elem?-append_last, get_elem?-append_other,
}
use rust_pta.Prelude.{
  some_inj, get_elem?-set_self, get_elem?-set_other, get_elem?-Returns, lt-length_of_get_elem?,
  lt-or-eq-or-gt, true,
}
use rust_pta.Net.IndexVec.{TransitionId}
use rust_pta.Net.Structure.{Marking}
use rust_pta.Net.Core.{Net, ok, fire_transition, places_len}
use rust_pta.Analysis.Boundness.{Tokens, CoverTree, CoverTreeNode, add_child, has_omega}
use rust_pta.Analysis.Boundness.Search.{Cover, attach}
use rust_pta.Analysis.Boundness.Spec.{
  Rooted, is_child, Rooted-Extends, Omega, Omega-Extends, IsCover, Extends, Pumps,
}

-- What `add_child` does.
pub record AddsChild (tree : CoverTree) (parent : ℕ) (marking : List Tokens) (t : TransitionId)
    : Type 0 where
  pub out : CoverTree
  pub returns : add_child tree parent marking t ≡ some (out, length tree)
  pub len : length out ≡ suc (length tree)
  pub node : CoverTreeNode
  pub at : get_elem? out (length tree) ≡ some node
  pub marking_same : node.marking ≡ marking
  pub parent_eq : node.parent ≡ some parent
  pub transition_eq : node.transition_from_parent ≡ some t
  pub old :
      (i : ℕ) (n : CoverTreeNode)
      → get_elem? tree i ≡ some n
      → (n' : CoverTreeNode) × (get_elem? out i ≡ some n')
        × (n'.marking ≡ n.marking)
        × (n'.parent ≡ n.parent)
        × (n'.transition_from_parent ≡ n.transition_from_parent)

module _ (tree : CoverTree) (parent : ℕ) (marking : List Tokens) (t : TransitionId)
    (below : parent < length tree) where
  abbrev fresh : CoverTreeNode
  fresh = record {
    marking = marking;
    parent = some parent;
    transition_from_parent = some t;
    children = [];
  }

  abbrev longer : CoverTree
  longer = tree ++ fresh ∷ []

  pub add_child-AddsChild : AddsChild tree parent marking t
  unfolding add_child
  add_child-AddsChild =
      let (p, at_p) = get_elem?-Returns tree parent below in
      let at_longer : get_elem? longer parent ≡ some p =
        get_elem?-append_other tree fresh parent (λ e. omega arith) ∙ at_p in
      let p' : CoverTreeNode = record p { children = p.children ++ length tree ∷ [] } in
      let kept : (i : ℕ) (n : CoverTreeNode)
          → get_elem? tree i ≡ some n
          → i ≢ parent
          → get_elem? (set longer parent p') i ≡ some n =
        λ i n at ne.
          get_elem?-set_other longer parent i p' ne
          ∙ get_elem?-append_other tree fresh i
              (λ e. omega (arith, lt-length_of_get_elem? tree i at))
          ∙ at in
      record {
        out = set longer parent p';
        returns = rw at_longer refl;
        len = length-set longer parent p' ∙ omega (arith, length-append tree (fresh ∷ []));
        node = fresh;
        at =
            get_elem?-set_other longer parent (length tree) p' (λ e. omega arith)
            ∙ get_elem?-append_last tree fresh;
        marking_same = refl;
        parent_eq = refl;
        transition_eq = refl;
        old = λ i n at. elim (lt-or-eq-or-gt i parent) [
          | inl less ↦ (n, kept i n at (λ e. omega arith), refl, refl, refl)
          | inr (inl same) ↦ (
            p',
            rw same (get_elem?-set_self longer parent p p' at_longer),
            ap (λ (k : CoverTreeNode). k.marking)
                (some_inj (sym at_p ∙ subst (λ k. get_elem? tree k ≡ some n) same at)),
            ap (λ (k : CoverTreeNode). k.parent)
                (some_inj (sym at_p ∙ subst (λ k. get_elem? tree k ≡ some n) same at)),
            ap (λ (k : CoverTreeNode). k.transition_from_parent)
                (some_inj (sym at_p ∙ subst (λ k. get_elem? tree k ≡ some n) same at)),
          )
          | inr (inr more) ↦ (n, kept i n at (λ e. omega arith), refl, refl, refl)
        ];
      }

module _ (net : Net) where
  pub record CoverInv (s : Cover) : Type 0 where
    pub cover : IsCover net s.tree
    pub queued : (i : ℕ) → i ∈ s.queue → i < length s.tree

  -- A step keeps the tree right and only extends it.
  pub record Keeps (s s' : Cover) : Type 0 where
    pub inv : CoverInv s'
    pub extends : Extends net s.tree s'.tree
    pub count : s'.visited_count ≡ s.visited_count

  pub Keeps-refl : (s : Cover) → CoverInv s → Keeps s s
  Keeps-refl s inv = record {
    inv = inv;
    extends = λ i n at. (n, at, refl, refl, refl);
    count = refl;
  }

  pub Keeps-trans : {s t u : Cover} → Keeps s t → Keeps t u → Keeps s u
  Keeps-trans a b = record {
    inv = b.inv;
    extends = λ i n at.
        let (n1, at1, em1, ep1, et1) = a.extends i n at in
        let (n2, at2, em2, ep2, et2) = b.extends i n1 at1 in
        (n2, at2, em2 ∙ em1, ep2 ∙ ep1, et2 ∙ et1);
    count = b.count ∙ a.count;
  }

  module _ (s : Cover) (i : ℕ) (marking : List Tokens) (t : TransitionId) (inv : CoverInv s)
      (c : AddsChild s.tree i marking t) where
    abbrev after : Cover
    after = record s { tree = c.out; queue = s.queue ++ length s.tree ∷ [] }

    attached : attach i marking t s ≡ some after
    unfolding attach
    attached = rw (c.returns) refl

    -- The new node is as it should be.
    abbrev Fine : Type 0
    Fine =
        ((m : Marking) × (ts : List TransitionId) × Rooted net c.out (length s.tree) m ts)
        ⊎ Omega net c.out (length s.tree)

    attached-Keeps : Fine → Keeps s after
    attached-Keeps fine = record {
      inv = record {
        cover = λ j hj. elim (lt-or-eq-or-gt j (length s.tree)) [
          | inl old ↦ elim (inv.cover j old) [
            | inl (m, ts, r) ↦ inl (m, ts, Rooted-Extends net c.old r)
            | inr o ↦ inr (Omega-Extends net j c.old o)
          ]
          | inr (inl same) ↦ rw same fine
          | inr (inr beyond) ↦ absurd (omega (arith, c.len))
        ];
        queued = λ j mem. elim ((mem-append j s.queue (length s.tree ∷ [])).0 mem) [
          | inl old ↦ omega (arith, inv.queued j old, c.len)
          | inr (inl same) ↦ omega (arith, c.len)
          | inr (inr no_mem) ↦ absurd no_mem
        ];
      };
      extends = c.old;
      count = refl;
    }

  -- A plain node is attached below the node whose marking was fired.
  pub attach-plain :
      (s : Cover) (i : ℕ) (m next : Marking) (t : TransitionId) (ts : List TransitionId)
      → CoverInv s
      → i < length s.tree
      → Rooted net s.tree i m ts
      → fire_transition net m t ≡ some (ok next)
      → (s' : Cover) × (attach i (map some next) t s ≡ some s') × Keeps s s'
  attach-plain s i m next t ts inv hi rooted fires =
      let c = add_child-AddsChild s.tree i (map some next) t hi in
      (
        after s i (map some next) t inv c,
        attached s i (map some next) t inv c,
        attached-Keeps s i (map some next) t inv c (
            inl (
              next,
              ts ++ t ∷ [],
              is_child (length s.tree) i c.node t c.at c.marking_same c.parent_eq c.transition_eq hi
                  (Rooted-Extends net c.old rooted) fires,
            )),
      )

  -- A node with an ω at every place is attached.
  pub attach-omega :
      (s : Cover) (i : ℕ) (m : Marking) (w : List Tokens) (t : TransitionId)
      (ts : List TransitionId)
      → CoverInv s
      → i < length s.tree
      → Rooted net s.tree i m ts
      → Pumps net (ts ++ t ∷ [])
      → length w ≡ places_len net
      → ((p : ℕ) → p < places_len net → get_elem? w p ≡ some none)
      → has_omega w ≡ true
      → (s' : Cover) × (attach i w t s ≡ some s') × Keeps s s'
  attach-omega s i m w t ts inv hi rooted pumps width full marked =
      let c = add_child-AddsChild s.tree i w t hi in
      (
        after s i w t inv c,
        attached s i w t inv c,
        attached-Keeps s i w t inv c (
            inr (record {
              node = c.node;
              at = c.at;
              all_omega = λ p hp. rw (c.marking_same) (full p hp);
              marked = rw (c.marking_same) marked;
              width = rw (c.marking_same) width;
              parent = i;
              parent_eq = c.parent_eq;
              transition = t;
              transition_eq = c.transition_eq;
              below = hi;
              marking = m;
              path = ts;
              rooted = Rooted-Extends net c.old rooted;
              pumps = pumps;
            })),
      )
