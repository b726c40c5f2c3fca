-- ===== src/Base/Fallible.antt =====
-- A chain of steps that may fail, as `do` blocks over Option.
use mathlib.Core.Path.{◌≡◌, refl}
use mathlib.Core.Bool.{Bool, true, false}
use mathlib.Core.Option.{Option, none, some}
use greko.Base.Tests.{if◌then◌else◌}

infixl 5 ◌>>=◌ ◌>>◌
abbrev pub ◌>>=◌ {ℓ κ} : {A : Type ℓ} {B : Type κ} → Option A → (A → Option B) → Option B
none >>= f = none
some a >>= f = f a

abbrev pub ◌>>◌ {κ} : {B : Type κ} → Option (Unit {0}) → Option B → Option B
m >> k = m >>= λ _. k

-- The rest is reached only if the test holds.
abbrev pub require : Bool → Option (Unit {0})
require true = some tt
require false = none

-- A step that succeeded, and what follows it.
pub >>=-some {ℓ κ} :
    {A : Type ℓ} {B : Type κ} {m : Option A} {a : A} (f : A → Option B)
    → m ≡ some a
    → (m >>= f) ≡ f a
>>=-some f e = rw e refl

-- A chain that gives a result has a first step that gave one.
pub bind_gives {ℓ κ μ} :
    {A : Type ℓ} {B : Type κ} {P : Type μ} {y : B} (m : Option A) (f : A → Option B)
    → ((a : A) → m ≡ some a → f a ≡ some y → P)
    → (m >>= f) ≡ some y
    → P
bind_gives none f h e = absurd (cc e)
bind_gives (some a) f h e = h a refl e

-- Behind a test that was met.
pub require_step {κ} :
    {B : Type κ} {y : B} (b : Bool) (x : Option B) → (require b >> x) ≡ some y → x ≡ some y
require_step true x e = e
require_step false x e = absurd (cc e)

-- What holds of both branches of a test holds of the whole.
pub if_holds {ℓ κ} :
    {A : Type ℓ} (P : A → Type κ) (b : Bool) (x y : A)
    → (b ≡ true → P x)
    → (b ≡ false → P y)
    → P (if b then x else y)
if_holds P true x y h k = h refl
if_holds P false x y h k = k refl

-- What holds of both cases of an optional value holds of the whole.
pub option_holds {ℓ κ μ} :
    {A : Type ℓ} {E : Type μ} (P : A → Type κ) (o : Option E) (x : A) (f : E → A)
    → (o ≡ none → P x)
    → ((e : E) → o ≡ some e → P (f e))
    → P (elim o [ none ↦ x | some e ↦ f e ])
option_holds P none x f h k = h refl
option_holds P (some e) x f h k = k e refl
