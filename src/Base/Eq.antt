-- ===== src/Base/Eq.antt =====
-- Decidable equality as an interface: the keys of maps are its instances.
use Prim.Native.Nat.{ℕ}
use mathlib.Core.Path.{◌≡◌, refl}
use mathlib.Core.Logic.{◌↔◌}
use mathlib.Core.Bool.{Bool, true}
use in_memory_db.Base.Tests.{◌==◌, ==_iff}

pub record HasEq {ℓ} (A : Type ℓ) : Type ℓ where
  pub beq : A → A → Bool
  pub beq_iff : (a b : A) → (beq a b ≡ true) ↔ (a ≡ b)

pub beq_self {ℓ} : {A : Type ℓ} (e : HasEq A) (a : A) → e.beq a a ≡ true
beq_self e a = (e.beq_iff a a).1 refl

instance abbrev pub nat_eq : HasEq ℕ
nat_eq = record { beq = ◌==◌; beq_iff = ==_iff }
