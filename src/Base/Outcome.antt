-- ===== src/Base/Outcome.antt =====
-- The result of code that may panic (an `unwrap` of `None`, an index out of range), and of a loop
-- that is modelled with fuel.
use mathlib.Core.Path.{◌≡◌, refl}
use mathlib.Core.Option.{Option, none, some}

pub data Result {ℓ} (A : Type ℓ) : Type ℓ where
  ok : A → Result A
  panic : Result A
  out_of_fuel : Result A

infixl 5 ◌>>=◌
abbrev pub ◌>>=◌ {ℓ κ} : {A : Type ℓ} {B : Type κ} → Result A → (A → Result B) → Result B
ok a >>= f = f a
panic >>= f = panic
out_of_fuel >>= f = out_of_fuel

-- `o.unwrap()`
abbrev pub unwrap {ℓ} : {A : Type ℓ} → Option A → Result A
unwrap none = panic
unwrap (some a) = ok a

-- The value satisfies `P`, unless the code panics; the fuel does not run out.
abbrev pub Keeps {ℓ} : {A : Type ℓ} → (A → Type 0) → Result A → Type 0
Keeps P (ok a) = P a
Keeps P panic = Unit {0}
Keeps P out_of_fuel = ⊥

pub >>=-Keeps {ℓ κ} :
    {A : Type ℓ} {B : Type κ} (P : A → Type 0) (Q : B → Type 0) (m : Result A) (f : A → Result B)
    → Keeps P m
    → ((a : A) → m ≡ ok a → P a → Keeps Q (f a))
    → Keeps Q (m >>= f)
>>=-Keeps P Q (ok a) f h k = k a refl h
>>=-Keeps P Q panic f h k = h
>>=-Keeps P Q out_of_fuel f h k = h

pub unwrap-Keeps {ℓ} : {A : Type ℓ} (o : Option A) → Keeps (λ (a : A). Unit {0}) (unwrap o)
unwrap-Keeps none = tt
unwrap-Keeps (some a) = tt

pub Keeps-mono {ℓ} :
    {A : Type ℓ} (P Q : A → Type 0) (m : Result A) → ((a : A) → P a → Q a) → Keeps P m → Keeps Q m
Keeps-mono P Q (ok a) h k = h a k
Keeps-mono P Q panic h k = k
Keeps-mono P Q out_of_fuel h k = k

-- A chain that returns has returned at each step.
pub >>=-ok {ℓ κ} :
    {A : Type ℓ} {B : Type κ} (m : Result A) (f : A → Result B) (b : B)
    → (m >>= f) ≡ ok b
    → (a : A) × (m ≡ ok a) × (f a ≡ ok b)
>>=-ok (ok a) f b h = (a, refl, h)
>>=-ok panic f b h = absurd (cc)
>>=-ok out_of_fuel f b h = absurd (cc)

pub unwrap-ok {ℓ} : {A : Type ℓ} (o : Option A) (a : A) → unwrap o ≡ ok a → o ≡ some a
unwrap-ok none a h = absurd (cc)
unwrap-ok (some b) a h = cc

pub ok_injective {ℓ} : {A : Type ℓ} (a b : A) → ok a ≡ ok b → a ≡ b
ok_injective a b h = cc
