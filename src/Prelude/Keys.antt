-- ===== src/Prelude/Keys.antt =====
-- Equality tests of the key types of the program's maps.
use Prim.Native.Nat.{ℕ}
use Prim.Native.String.{String}
use mathlib.Core.Bool.{Bool, true, false}
use mathlib.Core.Logic.{◌↔◌}
use mathlib.Core.Path.{◌≡◌}
use native.Mathlib.Omega.{arith}
use text.Mathlib.Text.{◌==◌ as same_text}
use text.Mathlib.TextEquality.{eq_iff}
use v2b_x_patched_by_haman.Prelude.Int.{ℤ, pos, negsuc}
use v2b_x_patched_by_haman.Prelude.Tests.{nat_beq, nat_beq_iff}

abbrev int_beq : ℤ → ℤ → Bool
int_beq (pos a) (pos b) = nat_beq a b
int_beq (negsuc a) (negsuc b) = nat_beq a b
int_beq _ _ = false

pub int_beq_iff : (a b : ℤ) → (int_beq a b ≡ true) ↔ (a ≡ b)
int_beq_iff (pos a) (pos b) = ground arith
int_beq_iff (pos a) (negsuc b) = ground arith
int_beq_iff (negsuc a) (pos b) = ground arith
int_beq_iff (negsuc a) (negsuc b) = ground arith

-- A comparable type of Go, as a map's keys have it.
pub record MapKey {ℓ} (K : Type ℓ) : Type ℓ where
  pub is_key : (j k : K) → Bool
  pub is_key_iff : (j k : K) → (is_key j k ≡ true) ↔ (j ≡ k)

instance abbrev pub int_eq : MapKey ℤ
int_eq = record { is_key = int_beq; is_key_iff = int_beq_iff }

instance abbrev pub string_eq : MapKey String
string_eq = record { is_key_iff = eq_iff; is_key = same_text }

instance abbrev pub nat_eq : MapKey ℕ
nat_eq = record { is_key = nat_beq; is_key_iff = nat_beq_iff }

module _ {ℓ} {K : Type ℓ} ⦃e : MapKey K⦄ where
  infix 50 ◌==◌
  abbrev pub ◌==◌ : (j k : K) → Bool
  j == k = e.is_key j k
