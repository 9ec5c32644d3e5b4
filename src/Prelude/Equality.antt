-- ===== src/Prelude/Equality.antt =====
-- Decidable equality as an interface, with its instances for numbers, texts and options.
use Prim.Native.Nat.{ℕ}
use Prim.Native.String.{String}
use mathlib.Core.Bool.{Bool, true}
use mathlib.Core.Path.{◌≡◌, refl}
use text.Mathlib.Text.{◌==◌ as str_eq}
use text.Mathlib.TextEquality.{eq_iff}
use marcus.Prelude.Tests.{nat_beq, nat_beq_iff}

-- A test that tells equal values from others.
pub record Eq {ℓ} (A : Type ℓ) : Type ℓ where
  pub test : A → A → Bool
  pub passes : (a : A) → test a a ≡ true
  pub decides : (a b : A) → test a b ≡ true → a ≡ b

module _ {ℓ} {A : Type ℓ} ⦃cmp : Eq A⦄ where
  infix 50 ◌==◌
  abbrev pub ◌==◌ : A → A → Bool
  x == y = cmp.test x y

  pub ==_refl : (x : A) → (x == x) ≡ true
  ==_refl x = cmp.passes x

  pub ==-true : (x y : A) → (x == y) ≡ true → x ≡ y
  ==-true x y hit = cmp.decides x y hit

instance abbrev pub string_eq : Eq String
string_eq = record {
  test = str_eq;
  passes = λ s. (eq_iff s s).1 refl;
  decides = λ s t. (eq_iff s t).0;
}

instance abbrev pub nat_eq : Eq ℕ
nat_eq = record {
  test = nat_beq;
  passes = λ n. (nat_beq_iff n n).1 refl;
  decides = λ n m. (nat_beq_iff n m).0;
}
