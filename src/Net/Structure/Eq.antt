-- ===== src/Net/Structure/Eq.antt =====
-- src/net/structure.rs: the derived `PartialEq` of `TransitionType`, as a decision.
use text.Mathlib.TextEquality.{eq_iff}
use text.Mathlib.Text.{◌==◌}
use native.Mathlib.Decide.{ℕ_discrete}
use rust_pta.Prelude.{String, Bool, true, false, ◌≡◌, refl}
use rust_pta.Net.Structure.{TransitionType, AliasId, AtomicOrdering}

decided : (s t : String) (b : Bool) → (s == t) ≡ b → Dec (s ≡ t)
decided s t true e = yes ((eq_iff s t).0 e)
decided s t false e = no (λ same. absurd (cc ((eq_iff s t).1 same)))

String-discrete : Discrete String
unfolding decided
String-discrete s t = decided s t (s == t) refl

AliasId-discrete : Discrete AliasId
unfolding ℕ_discrete
AliasId-discrete = hlevel ℕ_discrete

AtomicOrdering-discrete : Discrete AtomicOrdering
AtomicOrdering-discrete = hlevel

TransitionType-discrete : Discrete TransitionType
unfolding ℕ_discrete String-discrete AliasId-discrete AtomicOrdering-discrete
TransitionType-discrete =
    hlevel (ℕ_discrete, String-discrete, AliasId-discrete, AtomicOrdering-discrete)

holds : {A : Type 0} → Dec A → Bool
holds (yes _) = true
holds (no _) = false

-- `self == other`
unfoldable pub type_eq : TransitionType → TransitionType → Bool
unfolding TransitionType-discrete holds
type_eq left right = holds (TransitionType-discrete left right)
