-- ===== src/Prelude/Equality.antt =====
-- Keys that Python compares with `==` and hashes.
use Prim.Native.Nat.{ℕ}
use Prim.Native.String.{String}
use mathlib.Core.Path.{◌≡◌, refl}
use mathlib.Core.Logic.{◌↔◌, ◌≢◌}
use mathlib.Core.Bool.{Bool, true, false}
use native.Mathlib.Omega.{arith}
use text.Mathlib.Text.{◌==◌ as str_eq}
use text.Mathlib.TextEquality.{eq_iff}
use cloudify_common.Prelude.Tests.{nat_beq, nat_beq_iff}

-- A type of keys: the test that a dict makes, which decides equality.
pub record Eq {ℓ} (K : Type ℓ) : Type ℓ where
  pub same : K → K → Bool
  pub same_iff : (x y : K) → (same x y ≡ true) ↔ (x ≡ y)

instance abbrev pub string_eq : Eq String
string_eq = record { same = str_eq; same_iff = eq_iff }

instance abbrev pub nat_eq : Eq ℕ
nat_eq = record { same = nat_beq; same_iff = nat_beq_iff }

module _ {ℓ} {K : Type ℓ} ⦃keys : Eq K⦄ where
  infix 50 ◌==◌
  abbrev pub ◌==◌ : K → K → Bool
  x == y = keys.same x y

  pub ==-refl : (x : K) → (x == x) ≡ true
  ==-refl x = (keys.same_iff x x).1 refl

  pub ==-false : (x y : K) → x ≢ y → (x == y) ≡ false
  ==-false x y h = ground (arith, keys.same_iff x y)

  pub ==-symm : (x y : K) → (x == y) ≡ (y == x)
  ==-symm x y = ground (arith, keys.same_iff x y, keys.same_iff y x)
