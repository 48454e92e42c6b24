-- ===== src/Prelude/Options.antt =====
-- Chains of computations that may have no result.
use mathlib.Core.Path.{◌≡◌, refl, ap, ◌∙◌}
use mathlib.Core.Logic.{◌≢◌}
use mathlib.Core.Option.{Option, none, some}

module _ {ℓ κ} {A : Type ℓ} {B : Type κ} where
  infixl 1 ◌>>=◌
  abbrev pub ◌>>=◌ : Option A → (A → Option B) → Option B
  none >>= f = none
  some a >>= f = f a

pub some-injective {ℓ} : {A : Type ℓ} {a b : A} → some a ≡ some b → a ≡ b
some-injective e = cc

-- A chain on a first result that is known.
pub some-chain {ℓ κ} :
    {A : Type ℓ} {B : Type κ} {o : Option A} {a : A} {y : Option B} (k : A → Option B)
    → o ≡ some a
    → k a ≡ y
    → (o >>= k) ≡ y
some-chain k e h = ap (λ o'. o' >>= k) e ∙ h

pub none-ne-some {ℓ} : {A : Type ℓ} {a : A} → none ≢ some a
none-ne-some e = cc

pub none-chain {ℓ κ} :
    {A : Type ℓ} {B : Type κ} {o : Option A} (k : A → Option B) → o ≡ none → (o >>= k) ≡ none
none-chain k e = ap (λ o'. o' >>= k) e

-- A chain that has a result has one at its first step.
pub some-of_chain {ℓ κ} :
    {A : Type ℓ} {B : Type κ} (o : Option A) (k : A → Option B) {b : B}
    → (o >>= k) ≡ some b
    → (a : A) × (o ≡ some a) × (k a ≡ some b)
some-of_chain none k e = absurd (cc e)
some-of_chain (some a) k e = (a, refl, e)
