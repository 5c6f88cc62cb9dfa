-- ===== src/Base/Exec.antt =====
-- How a run of C++ code ends: with a value, with an access outside the memory that it owns (which
-- C++ leaves undefined), or not within the fuel of the model.
use mathlib.Core.Path.{◌≡◌, refl}
use mathlib.Core.Bool.{Bool, true, false}
use cpp_study.Base.Tests.{if◌then◌else◌}

pub data Exec {ℓ} (A : Type ℓ) : Type ℓ where
  done : A → Exec A
  fault : Exec A
  timeout : Exec A

infixl 5 ◌>>=◌
abbrev pub ◌>>=◌ {ℓ κ} : {A : Type ℓ} {B : Type κ} → Exec A → (A → Exec B) → Exec B
done a >>= f = f a
fault >>= f = fault
timeout >>= f = timeout

-- The run ends with a value, and the value satisfies `P`.
pub data Ends {ℓ κ} {A : Type ℓ} (P : A → Type κ) : Exec A → Type (ℓ ⊔ κ) where
  ends : {a : A} → P a → Ends P (done a)

module _ {ℓ κ} {A : Type ℓ} {P : A → Type κ} where
  pub Ends-bind {ℓ' κ'} :
      {B : Type ℓ'} {Q : B → Type κ'} {m : Exec A} {f : A → Exec B}
      → Ends P m
      → ((a : A) → P a → Ends Q (f a))
      → Ends Q (m >>= f)
  Ends-bind (ends p) next = next _ p

  pub Ends-weaken {κ'} :
      {Q : A → Type κ'} {m : Exec A} → ((a : A) → P a → Q a) → Ends P m → Ends Q m
  Ends-weaken f (ends p) = ends (f _ p)

  pub Ends-if :
      {x y : Exec A} (b : Bool)
      → (b ≡ true → Ends P x)
      → (b ≡ false → Ends P y)
      → Ends P (if b then x else y)
  Ends-if true t e = t refl
  Ends-if false t e = e refl

  pub Ends-value : {m : Exec A} → Ends P m → (a : A) × (m ≡ done a) × P a
  Ends-value (ends p) = (_, refl, p)
