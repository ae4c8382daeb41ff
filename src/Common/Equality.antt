-- ===== src/Common/Equality.antt =====
-- `PartialEq`: a Boolean test that decides equality.
use Prim.Native.Nat.{ℕ}
use mathlib.Core.Path.{◌≡◌}
use mathlib.Core.Logic.{◌↔◌}
use mathlib.Core.Bool.{Bool, true}
use mathlib.Core.List.{List}
use git_cdc.Common.Tests.{nat_eq, nat_eq_iff, list_eq, list_eq_iff}

pub record Eq {ℓ} (A : Type ℓ) : Type ℓ where
  pub same : A → A → Bool
  pub same_iff : (x y : A) → (same x y ≡ true) ↔ (x ≡ y)

infix 50 ◌==◌
abbrev pub ◌==◌ {ℓ} : {A : Type ℓ} → ⦃equality : Eq A⦄ → A → A → Bool
◌==◌ ⦃equality⦄ x y = equality.same x y

instance abbrev pub ℕ_eq : Eq ℕ
ℕ_eq = record { same = nat_eq; same_iff = nat_eq_iff }

instance abbrev pub bytes_eq : Eq (List ℕ)
bytes_eq = record { same = list_eq; same_iff = list_eq_iff }
