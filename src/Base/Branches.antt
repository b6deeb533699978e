-- ===== src/Base/Branches.antt =====
-- What holds in every branch of a test.
use mathlib.Core.Path.{◌≡◌, refl}
use mathlib.Core.Bool.{Bool, true, false}
use mathlib.Core.Option.{Option, none, some}
use fxtun_dev.Base.Tests.{if◌then◌else◌}

-- What holds in both branches holds of the test.
pub if_P {ℓ κ} :
    {A : Type ℓ} (P : A → Type κ) (b : Bool) (x y : A) → P x → P y → P (if b then x else y)
if_P P true x y p q = p
if_P P false x y p q = q

pub option_P {ℓ κ μ} :
    {A : Type ℓ} {B : Type κ} (P : B → Type μ) (o : Option A) (x : B) (f : A → B)
    → P x
    → ((a : A) → o ≡ some a → P (f a))
    → P (elim o as (λ _. B) [ none ↦ x | some a ↦ f a ])
option_P P none x f p q = p
option_P P (some a) x f p q = q a refl

-- The same, with what the test has come to.
pub if_cases_P {ℓ κ} :
    {A : Type ℓ} (P : A → Type κ) (b : Bool) (x y : A)
    → (b ≡ true → P x)
    → (b ≡ false → P y)
    → P (if b then x else y)
if_cases_P P true x y p q = p refl
if_cases_P P false x y p q = q refl
