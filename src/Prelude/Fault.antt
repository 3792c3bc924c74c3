-- ===== src/Prelude/Fault.antt =====
-- Go code that may panic: `none` is the panic (an index out of range, a nil dereference, a
-- division by zero), `some` the value that the code goes on with.
use mathlib.Core.Bool.{Bool, true, false}
use mm_server.Prelude.Tests.{if◌then◌else◌}
use mathlib.Core.Option.{Option, none, some}

infixl 5 ◌>>=◌
abbrev pub ◌>>=◌ {ℓ κ} : {A : Type ℓ} {B : Type κ} → Option A → (A → Option B) → Option B
none >>= f = none
some a >>= f = f a

-- `Returns m P`: the code does not panic, and what it returns has the property.
abbrev pub Returns {ℓ} : {A : Type ℓ} → Option A → (A → Type 0) → Type 0
Returns none P = ⊥
Returns (some a) P = P a

pub Returns-map {ℓ} :
    {A : Type ℓ} {P Q : A → Type 0} (m : Option A)
    → ((a : A) → P a → Q a)
    → Returns m P
    → Returns m Q
Returns-map none f h = h
Returns-map (some a) f h = f a h

pub Returns->>= {ℓ κ} :
    {A : Type ℓ} {B : Type κ} {P : A → Type 0} (Q : B → Type 0) (m : Option A) (k : A → Option B)
    → Returns m P
    → ((a : A) → P a → Returns (k a) Q)
    → Returns (m >>= k) Q
Returns->>= Q none k h f = h
Returns->>= Q (some a) k h f = f a h

-- `IfReturns P m`: what the code returns has the property, unless it panics.
abbrev pub IfReturns {ℓ} : {A : Type ℓ} → (A → Type 0) → Option A → Type 0
IfReturns P none = Unit
IfReturns P (some a) = P a

pub IfReturns->>= {ℓ κ} :
    {A : Type ℓ} {B : Type κ} {P : A → Type 0} (Q : B → Type 0) (m : Option A) (k : A → Option B)
    → IfReturns P m
    → ((a : A) → P a → IfReturns Q (k a))
    → IfReturns Q (m >>= k)
IfReturns->>= Q none k h f = tt
IfReturns->>= Q (some a) k h f = f a h

pub IfReturns-map {ℓ} :
    {A : Type ℓ} {P Q : A → Type 0} (m : Option A)
    → ((a : A) → P a → Q a)
    → IfReturns P m
    → IfReturns Q m
IfReturns-map none f h = tt
IfReturns-map (some a) f h = f a h

-- What a call returns has both properties.
pub Returns-both {ℓ} :
    {A : Type ℓ} (P Q : A → Type 0) (m : Option A)
    → Returns m P
    → IfReturns Q m
    → Returns m (λ a. P a × Q a)
Returns-both P Q none h k = h
Returns-both P Q (some a) h k = (h, k)

-- The call does not panic.
abbrev pub IsTotal {ℓ} : {A : Type ℓ} → Option A → Type 0
IsTotal none = ⊥
IsTotal (some a) = Unit

pub IsTotal->>= {ℓ κ} :
    {A : Type ℓ} {B : Type κ} (m : Option A) (k : A → Option B)
    → IsTotal m
    → ((a : A) → IsTotal (k a))
    → IsTotal (m >>= k)
IsTotal->>= none k h f = absurd h
IsTotal->>= (some a) k h f = f a

pub if-IsTotal :
    {A : Type 0} (b : Bool) (x y : Option A) → IsTotal x → IsTotal y → IsTotal (if b then x else y)
if-IsTotal true x y h k = h
if-IsTotal false x y h k = k

-- A call that does not panic, and of which a property holds if it returns, returns with it.
pub IsTotal-Returns {ℓ} :
    {A : Type ℓ} (P : A → Type 0) (m : Option A) → IsTotal m → IfReturns P m → Returns m P
IsTotal-Returns P none h k = absurd h
IsTotal-Returns P (some a) h k = k
