-- ===== src/Prelude/Results.antt =====
-- What code that throws, or that returns `{ ok: true, ... } | { ok: false, ... }`, gives back.
use mathlib.Core.Path.{◌≡◌, refl}
use mathlib.Core.Bool.{Bool, true, false}

pub data Result {ℓ κ} (E : Type ℓ) (A : Type κ) : Type (ℓ ⊔ κ) where
  err : E → Result E A
  ok : A → Result E A

module _ {ℓ κ μ} {E : Type ℓ} {A : Type κ} {B : Type μ} where
  infixl 5 ◌>>=◌
  abbrev pub ◌>>=◌ : Result E A → (A → Result E B) → Result E B
  ◌>>=◌ (err thrown) next = err thrown
  ◌>>=◌ (ok value) next = next value

  pub bind-ok :
      (first : Result E A) (next : A → Result E B) {result : B}
      → ◌>>=◌ first next ≡ ok result
      → (value : A) × (first ≡ ok value) × (next value ≡ ok result)
  bind-ok (err thrown) next h = cc
  bind-ok (ok value) next h = (value, refl, h)

infixl 5 ◌>>◌
abbrev pub ◌>>◌ {ℓ κ} : {E : Type ℓ} {B : Type κ} → Result E (Unit {0}) → Result E B → Result E B
◌>>◌ check next = check >>= λ _. next

-- `if (bad) throw ...` and `if (bad) return { ok: false, ... }`
abbrev pub fail_if {ℓ} : {E : Type ℓ} → Bool → E → Result E (Unit {0})
fail_if false thrown = ok tt
fail_if true thrown = err thrown
