-- ===== src/Analysis/Boundness/Fire.antt =====
-- src/analysis/boundness.rs: firing a transition of a node keeps the coverability tree right, and does
-- not panic.
use rust_pta.Prelude.{ℕ, ◌<◌, ◌≡◌, refl, ◌∙◌, ap, inl, inr, true, Option, some}
use rust_pta.Prelude.{List, [], ◌∷◌, ◌++◌, map, length, Option-cases, Bool-cases, length-map}
use mathlib.Core.List.{append_assoc}
use rust_pta.Net.IndexVec.{TransitionId}
use rust_pta.Net.Structure.{Marking}
use rust_pta.Net.Core.{Net, Result, ok, err, fire_transition, initial_marking}
use rust_pta.Net.Core.Build.{IsWf}
use rust_pta.Net.Core.Enabled.{Fits}
use rust_pta.Net.Core.Fire.{fire-total, fire-Fired}
use rust_pta.Analysis.Boundness.{CoverTree, is_covered, needs_omega, create_omega_marking}
use rust_pta.Analysis.Boundness.Search.{
  Cover, attach, cover_path, cover_next, cover_result, cover_fire,
}
use rust_pta.Analysis.Boundness.Spec.{Fires, stays, goes_on, Rooted, Rooted-Fires, Pumps}
use rust_pta.Analysis.Boundness.Path.{Ancestor, AllAncestors, find_path_to_node-Finds}
use rust_pta.Analysis.Boundness.Raise.{Pumped, needs_omega-Pumped, create_omega_marking-all}
use rust_pta.Analysis.Boundness.Attach.{CoverInv, Keeps, Keeps-refl, attach-plain, attach-omega}

pub start-Fits : (net : Net) → Fits net (initial_marking net)
unfolding initial_marking
start-Fits net = length-map _ net.places

module _ (net : Net) (wf : IsWf net) where
  pub Fires-Fits :
      {m m' : Marking} {ts : List TransitionId} → Fits net m → Fires net m ts m' → Fits net m'
  Fires-Fits fits stays = fits
  Fires-Fits fits (goes_on {ts = ts} {m' = m'} {m'' = m''} t f e) =
      (fire-Fired net m' t wf (Fires-Fits fits f) m'' e).fits

  pub Rooted-Fits :
      {tree : CoverTree} {i : ℕ} {m : Marking} {ts : List TransitionId}
      → Rooted net tree i m ts
      → Fits net m
  Rooted-Fits r = Fires-Fits (start-Fits net) (Rooted-Fires net r)

  module _ (i : ℕ) (m : Marking) (ts : List TransitionId) (t : TransitionId)
      (fits : Fits net m) where
    Pumped-Pumps :
        (tree : CoverTree) (next : Marking) (fits' : Fits net next) (path : List ℕ)
        → Pumped net tree m ts next fits' path
        → fire_transition net m t ≡ some (ok next)
        → Pumps net (ts ++ t ∷ [])
    Pumped-Pumps tree next fits' path y fires = record {
      before = y.ancestor.before;
      loop = y.ancestor.after ++ t ∷ [];
      split =
          ap (λ xs. xs ++ t ∷ []) y.ancestor.split
          ∙ append_assoc y.ancestor.before y.ancestor.after (t ∷ []);
      low = y.ancestor.marking;
      high = next;
      reaches = Rooted-Fires net y.ancestor.rooted;
      repeats = goes_on t y.ancestor.leads fires;
      grows = y.grows;
    }

    abbrev KeepsTo : Cover → Option Cover → Type 0
    KeepsTo s r = (s' : Cover) × (r ≡ some s') × Keeps net s s'

    module _ (s : Cover) (next : Marking) (inv : CoverInv net s) (hi : i < length s.tree)
        (rooted : Rooted net s.tree i m ts) (fires : fire_transition net m t ≡ some (ok next)) where
      cover_path_raise :
          (path w : List _) (s' : Cover)
          → needs_omega s.tree (map some next) path ≡ some true
          → create_omega_marking s.tree path (map some next) ≡ some w
          → attach i w t s ≡ some s'
          → cover_path i (map some next) t s (some path) ≡ some s'
      unfolding cover_path
      cover_path_raise path w s' grows makes joins = rw (grows, makes) joins

      cover_path-Keeps :
          (path : List ℕ)
          → AllAncestors net s.tree m ts path
          → KeepsTo s (cover_path i (map some next) t s (some path))
      unfolding cover_path
      cover_path-Keeps path all =
          let fits' = (fire-Fired net m t wf fits next fires).fits in
          let fit_all : (a : ℕ) (x : Ancestor net s.tree m ts a) → Fits net x.marking =
            λ a x. Rooted-Fits x.rooted in
          let (b, answers, means) =
            needs_omega-Pumped net s.tree m ts next fits' path fit_all all in
          elim (Bool-cases b) [
            | inl grows ↦
                let y = means grows in
                let (w, makes, width, full, marked) =
                  create_omega_marking-all net s.tree m ts next fits' path fit_all all y in
                let (s', joins, keeps) =
                  attach-omega net s i m w t ts inv hi rooted
                    (Pumped-Pumps s.tree next fits' path y fires) width full marked in
                (s', cover_path_raise path w s' (rw grows at answers) makes joins, keeps)
            | inr ends ↦ (s, rw (answers, ends) refl, Keeps-refl net s inv)
          ]

      cover_next-Keeps : KeepsTo s (cover_next i (map some next) t s)
      unfolding cover_next cover_path
      cover_next-Keeps =
          let plain = attach-plain net s i m next t ts inv hi rooted fires in
          elim (Option-cases (is_covered 0 s.tree (map some next))) [
            | inl new ↦ rw (cover_next, new) plain
            | inr (c, old) ↦
                rw (cover_next, old)
                  (elim (find_path_to_node-Finds net s.tree m ts i c rooted) [
                    | inl none_found ↦ rw none_found plain
                    | inr (path, finds, all) ↦ rw finds (cover_path-Keeps path all)
                  ])
          ]

    cover_result-Keeps :
        (s : Cover) (r : Result Marking)
        → CoverInv net s
        → i < length s.tree
        → Rooted net s.tree i m ts
        → fire_transition net m t ≡ some r
        → KeepsTo s (cover_result i t s r)
    unfolding cover_result
    cover_result-Keeps s (err e) inv hi rooted fires = (s, refl, Keeps-refl net s inv)
    cover_result-Keeps s (ok next) inv hi rooted fires = cover_next-Keeps s next inv hi rooted fires

    pub cover_fire-Keeps :
        (s : Cover)
        → CoverInv net s
        → i < length s.tree
        → Rooted net s.tree i m ts
        → KeepsTo s (cover_fire net i m s t)
    unfolding cover_fire
    cover_fire-Keeps s inv hi rooted =
        let (r, fires) = fire-total net m t wf fits in
        rw fires (cover_result-Keeps s r inv hi rooted fires)
