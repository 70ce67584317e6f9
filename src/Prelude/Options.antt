-- ===== src/Prelude/Options.antt =====
-- What holds of a result if there is one, and how it passes through a chain of steps that may throw.
use mathlib.Core.Path.{◌≡◌, subst}
use mathlib.Core.Option.{Option, none, some}

abbrev pub bind {ℓ κ} : {A : Type ℓ} {B : Type κ} → Option A → (A → Option B) → Option B
bind none f = none
bind (some a) f = f a

abbrev pub OnSome {ℓ κ} : {A : Type ℓ} → (A → Type κ) → Option A → Type κ
OnSome P none = Unit
OnSome P (some a) = P a

pub OnSome-bind {ℓ κ μ ν} :
    {A : Type ℓ} {B : Type κ} (P : A → Type μ) (Q : B → Type ν) (o : Option A) (f : A → Option B)
    → OnSome P o
    → ((a : A) → P a → OnSome Q (f a))
    → OnSome Q (bind o f)
OnSome-bind P Q none f h k = tt
OnSome-bind P Q (some a) f h k = k a h

pub OnSome_eq {ℓ κ} :
    {A : Type ℓ} (P : A → Type κ) (o : Option A) {a : A} → OnSome P o → o ≡ some a → P a
OnSome_eq P o h e = subst (OnSome P) e h

pub OnSome-any {ℓ} : {A : Type ℓ} (o : Option A) → OnSome (λ _. Unit {0}) o
OnSome-any none = tt
OnSome-any (some a) = tt

-- There is a result, and the predicate holds of it.
abbrev pub Yields {ℓ} : {A : Type ℓ} → (A → Type 0) → Option A → Type 0
Yields P none = ⊥
Yields P (some a) = P a

pub Yields-bind {ℓ κ} :
    {A : Type ℓ} {B : Type κ} (P : A → Type 0) (Q : B → Type 0) (o : Option A) (f : A → Option B)
    → Yields P o
    → ((a : A) → P a → Yields Q (f a))
    → Yields Q (bind o f)
Yields-bind P Q none f h k = absurd h
Yields-bind P Q (some a) f h k = k a h

pub Yields-map {ℓ} :
    {A : Type ℓ} (P Q : A → Type 0) (o : Option A) → Yields P o → ((a : A) → P a → Q a) → Yields Q o
Yields-map P Q none h k = absurd h
Yields-map P Q (some a) h k = k a h
