-- ===== src/Base/Keys.antt =====
-- Equality of keys as an interface, with its instances.
use Prim.Native.Nat.{ℕ}
use Prim.Native.String.{String}
use mathlib.Core.Path.{◌≡◌, refl}
use mathlib.Core.Logic.{◌↔◌}
use mathlib.Core.Bool.{Bool, true, false, ◌&&◌}
use mathlib.Core.List.{List, [], ◌∷◌}
use native.Mathlib.Omega.{arith}
use text.Mathlib.Text.{◌==◌ as str_beq}
use text.Mathlib.TextEquality.{eq_iff}
use godwit.Base.Tests.{nat_beq, nat_beq_iff}

-- A Boolean test of equality, and that it is one.
pub record KeyEq {ℓ} (K : Type ℓ) : Type ℓ where
  pub same : K → K → Bool
  pub same_iff : (j k : K) → (same j k ≡ true) ↔ (j ≡ k)

instance abbrev pub string_key : KeyEq String
string_key = record { same = str_beq; same_iff = eq_iff }

instance abbrev pub nat_key : KeyEq ℕ
nat_key = record { same = nat_beq; same_iff = nat_beq_iff }

infix 50 ◌==◌
abbrev pub ◌==◌ {κ} : {K : Type κ} ⦃key : KeyEq K⦄ (j k : K) → Bool
◌==◌ ⦃key⦄ j k = key.same j k

abbrev pub pair_beq : {A B : Type 0} ⦃e : KeyEq A⦄ ⦃f : KeyEq B⦄ → A × B → A × B → Bool
pair_beq (a, b) (c, d) = a == c && b == d

pub pair_beq_iff :
    {A B : Type 0} ⦃e : KeyEq A⦄ ⦃f : KeyEq B⦄ (p q : A × B) → (pair_beq p q ≡ true) ↔ (p ≡ q)
pair_beq_iff ⦃e⦄ ⦃f⦄ (a, b) (c, d) = ground (arith, e.same_iff a c, f.same_iff b d)

instance abbrev pub pair_key : {A B : Type 0} ⦃e : KeyEq A⦄ ⦃f : KeyEq B⦄ → KeyEq (A × B)
pair_key = record { same = pair_beq; same_iff = pair_beq_iff }

module _ {A : Type 0} ⦃e : KeyEq A⦄ where
  pub ==-refl : (a : A) → (a == a) ≡ true
  ==-refl a = (e.same_iff a a).1 refl

abbrev pub list_beq : {A : Type 0} ⦃e : KeyEq A⦄ → List A → List A → Bool
list_beq [] [] = true
list_beq [] (y ∷ ys) = false
list_beq (x ∷ xs) [] = false
list_beq (x ∷ xs) (y ∷ ys) = x == y && list_beq xs ys

pub list_beq_iff : {A : Type 0} ⦃e : KeyEq A⦄ (xs ys : List A) → (list_beq xs ys ≡ true) ↔ (xs ≡ ys)
list_beq_iff [] [] = (λ h. refl, λ h. refl)
list_beq_iff [] (y ∷ ys) = (λ h. cc, λ h. cc)
list_beq_iff (x ∷ xs) [] = (λ h. cc, λ h. cc)
list_beq_iff ⦃e⦄ (x ∷ xs) (y ∷ ys) = ground (arith, e.same_iff x y, list_beq_iff xs ys)

instance abbrev pub list_key : {A : Type 0} ⦃e : KeyEq A⦄ → KeyEq (List A)
list_key = record { same = list_beq; same_iff = list_beq_iff }
