-- ===== src/Prelude/Maybe.antt =====
-- Sequencing of steps that may fault: `none` is undefined behaviour of the C code.
use mathlib.Core.Path.{◌≡◌, refl}
use mathlib.Core.Option.{Option, none, some}

-- `abbrev`, so that `some a >>= f` computes wherever it stands.
infixl 5 ◌>>=◌
abbrev pub ◌>>=◌ {ℓ κ} : {A : Type ℓ} {B : Type κ} → Option A → (A → Option B) → Option B
none >>= f = none
some a >>= f = f a

pub >>=_cong {ℓ κ} :
    {A : Type ℓ} {B : Type κ} (m : Option A) (f g : A → Option B)
    → ((a : A) → f a ≡ g a)
    → (m >>= f) ≡ (m >>= g)
>>=_cong none f g h = refl
>>=_cong (some a) f g h = h a

-- Nothing comes after a step that faults, or where every continuation does.
pub bind_none {ℓ κ} :
    {A : Type ℓ} {B : Type κ} (m : Option A) (f : A → Option B)
    → ((a : A) → f a ≡ none)
    → (m >>= f) ≡ none
bind_none none f h = refl
bind_none (some a) f h = h a

pub bind-bind_none {ℓ κ μ} :
    {A : Type ℓ} {B : Type κ} {C : Type μ} (m : Option A) (f : A → Option B) (g : B → Option C)
    → ((a : A) → (f a >>= g) ≡ none)
    → (m >>= f >>= g) ≡ none
bind-bind_none none f g h = refl
bind-bind_none (some a) f g h = h a
