-- ===== src/Base/Exec.antt =====
-- The result of running C++ code: a value, undefined behaviour, or no end within the fuel.
use mathlib.Core.Option.{Option, none, some}
use mathlib.Core.Path.{◌≡◌, refl, subst}

pub data Exec {ℓ} (A : Type ℓ) : Type ℓ where
  ok : A → Exec A
  undefined : Exec A
  out_of_fuel : Exec A

infixl 5 ◌>>=◌
abbrev pub ◌>>=◌ {ℓ κ} : {A : Type ℓ} {B : Type κ} → Exec A → (A → Exec B) → Exec B
ok a >>= f = f a
undefined >>= f = undefined
out_of_fuel >>= f = out_of_fuel

-- A read through a pointer, where `none` is a dangling one.
abbrev pub deref {ℓ} : {A : Type ℓ} → Option A → Exec A
deref none = undefined
deref (some a) = ok a

-- The code returns, and its value satisfies `Q`.
abbrev pub Returns {ℓ} : {A : Type ℓ} → (A → Type 0) → Exec A → Type 0
Returns Q (ok a) = Q a
Returns Q _ = ⊥

pub Returns->>= {ℓ κ} :
    {A : Type ℓ} {B : Type κ} (Q : A → Type 0) (R : B → Type 0) (m : Exec A) (f : A → Exec B)
    → Returns Q m
    → ((a : A) → Q a → Returns R (f a))
    → Returns R (m >>= f)
Returns->>= Q R (ok a) f h k = k a h
Returns->>= Q R undefined f h k = absurd h
Returns->>= Q R out_of_fuel f h k = absurd h

pub Returns-map {ℓ} :
    {A : Type ℓ} (Q R : A → Type 0) (m : Exec A) → Returns Q m → ((a : A) → Q a → R a) → Returns R m
Returns-map Q R (ok a) h k = k a h
Returns-map Q R undefined h k = absurd h
Returns-map Q R out_of_fuel h k = absurd h

-- The code ends, by itself or in undefined behaviour, and a value that it returns satisfies `Q`.
abbrev pub Ends {ℓ} : {A : Type ℓ} → (A → Type 0) → Exec A → Type 0
Ends Q (ok a) = Q a
Ends Q undefined = Unit
Ends Q out_of_fuel = ⊥

pub Ends->>= {ℓ κ} :
    {A : Type ℓ} {B : Type κ} (Q : A → Type 0) (R : B → Type 0) (m : Exec A) (f : A → Exec B)
    → Ends Q m
    → ((a : A) → Q a → Ends R (f a))
    → Ends R (m >>= f)
Ends->>= Q R (ok a) f h k = k a h
Ends->>= Q R undefined f h k = tt
Ends->>= Q R out_of_fuel f h k = absurd h

pub Returns-both {ℓ} :
    {A : Type ℓ} (Q R : A → Type 0) (m : Exec A)
    → Returns Q m
    → Returns R m
    → Returns (λ a. Q a × R a) m
Returns-both Q R (ok a) h k = (h, k)
Returns-both Q R undefined h k = absurd h
Returns-both Q R out_of_fuel h k = absurd h

pub Returns-ok {ℓ} :
    {A : Type ℓ} (Q : A → Type 0) {m : Exec A} (a : A) → Returns Q m → m ≡ ok a → Q a
Returns-ok Q a h e = subst (Returns Q) e h

pub bind_assoc {ℓ κ μ} :
    {A : Type ℓ} {B : Type κ} {C : Type μ} (m : Exec A) (f : A → Exec B) (g : B → Exec C)
    → ((m >>= f) >>= g) ≡ (m >>= λ a. f a >>= g)
bind_assoc (ok a) f g = refl
bind_assoc undefined f g = refl
bind_assoc out_of_fuel f g = refl

pub bind_cong {ℓ κ} :
    {A : Type ℓ} {B : Type κ} (m : Exec A) {f g : A → Exec B}
    → ((a : A) → f a ≡ g a)
    → (m >>= f) ≡ (m >>= g)
bind_cong (ok a) h = h a
bind_cong undefined h = refl
bind_cong out_of_fuel h = refl

pub bind_ok {ℓ} : {A : Type ℓ} (m : Exec A) → (m >>= λ a. ok a) ≡ m
bind_ok (ok a) = refl
bind_ok undefined = refl
bind_ok out_of_fuel = refl
