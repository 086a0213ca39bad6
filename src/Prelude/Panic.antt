-- ===== src/Prelude/Panic.antt =====
-- A computation that may panic: `none` is the panic. `for_each` is a loop over a collection whose
-- body may panic, and `for_each_rule` its invariant rule.
use Prim.Native.Nat.{ℕ, zero, suc, ◌<◌}
use native.Mathlib.Omega.{arith}
use rust_pta.Prelude.Lists.{length, get_elem?}
use mathlib.Core.Path.{◌≡◌, refl}
use mathlib.Core.Option.{Option, none, some}
use mathlib.Core.List.{List, [], ◌∷◌}

infixl 5 ◌>>=◌
abbrev pub ◌>>=◌ {ℓ κ} : {A : Type ℓ} {B : Type κ} → Option A → (A → Option B) → Option B
some a >>= f = f a
none >>= f = none

pub >>=-eq-some {ℓ κ} :
    {A : Type ℓ} {B : Type κ} (m : Option A) (f : A → Option B) {b : B}
    → (m >>= f) ≡ some b
    → (a : A) × (m ≡ some a) × (f a ≡ some b)
>>=-eq-some (some a) f h = (a, refl, h)
>>=-eq-some none f h = cc

-- `for x in xs { s = f(s, x) }`.
unfoldable pub for_each {ℓ κ} :
    {A : Type ℓ} {S : Type κ} → (S → A → Option S) → S → List A → Option S
for_each f s [] = some s
for_each f s (x ∷ xs) = f s x >>= λ s'. for_each f s' xs

pub for_each_rule {ℓ κ μ} :
    {A : Type ℓ} {S : Type κ} (P : S → Type μ) (f : S → A → Option S)
    → ((s : S) (x : A) → P s → (s' : S) × (f s x ≡ some s') × P s')
    → (xs : List A) (s : S) → P s
    → (s' : S) × (for_each f s xs ≡ some s') × P s'
unfolding for_each
for_each_rule P f keep [] s h = (s, refl, h)
for_each_rule P f keep (x ∷ xs) s h =
    let (t, e, ht) = keep s x h in
    let (u, e', hu) = for_each_rule P f keep xs t ht in (u, rw (e, for_each) e', hu)

-- `xs.iter().map(f).collect()`, where `f` may panic.
unfoldable pub traverse {ℓ κ} :
    {A : Type ℓ} {B : Type κ} → (A → Option B) → List A → Option (List B)
traverse f [] = some []
traverse f (x ∷ xs) = do y ← f x; ys ← traverse f xs; some (y ∷ ys)

-- No panic.
abbrev pub Returns {ℓ} : {A : Type ℓ} → Option A → Type ℓ
Returns {A = A} o = (x : A) × (o ≡ some x)

pub >>=-Returns {ℓ κ} :
    {A : Type ℓ} {B : Type κ} (m : Option A) (f : A → Option B)
    → Returns m
    → ((x : A) → m ≡ some x → Returns (f x))
    → Returns (m >>= f)
>>=-Returns m f (x, e) h = let (y, e') = h x e in (y, rw e e')

pub get_elem?-Returns {ℓ} :
    {A : Type ℓ} (xs : List A) (i : ℕ) → i < length xs → Returns (get_elem? xs i)
get_elem?-Returns [] i h = absurd (omega arith)
get_elem?-Returns (x ∷ xs) zero h = (x, refl)
get_elem?-Returns (x ∷ xs) (suc i) h = get_elem?-Returns xs i (omega arith)

-- A loop on fuel: it ends, panics, or goes on.
pub data Run {ℓ} (A : Type ℓ) : Type ℓ where
  done : A → Run A
  panicked : Run A
  out_of_fuel : Run A
