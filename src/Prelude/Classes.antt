-- ===== src/Prelude/Classes.antt =====
-- Decidable equality as an interface, with its instances at numbers and texts.
use Prim.Native.Nat.{ℕ}
use Prim.Native.String.{String}
use mathlib.Core.Path.{◌≡◌, refl}
use mathlib.Core.Logic.{◌↔◌}
use mathlib.Core.Bool.{Bool, true, false, ◌&&◌, ◌||◌}
use mathlib.Core.List.{List, [], ◌∷◌}
use native.Mathlib.Omega.{arith}
use text.Mathlib.Text.{◌==◌ as str_eq}
use text.Mathlib.TextEquality.{eq_iff}
use nzbre_x.Prelude.Tests.{◌==◌ as nat_beq, ==_iff}

pub record Eq {ℓ} (A : Type ℓ) : Type ℓ where
  pub beq : A → A → Bool
  pub beq_iff : (a b : A) → (beq a b ≡ true) ↔ (a ≡ b)

-- One operator for every type that has an instance.
infix 50 ◌=?◌
abbrev pub ◌=?◌ {ℓ} : {A : Type ℓ} ⦃e : Eq A⦄ → A → A → Bool
◌=?◌ ⦃e⦄ = e.beq

instance abbrev pub nat_eq : Eq ℕ
nat_eq = record { beq = nat_beq; beq_iff = ==_iff }

instance abbrev pub string_eq : Eq String
string_eq = record { beq = str_eq; beq_iff = eq_iff }

pub =?_refl {ℓ} : {A : Type ℓ} ⦃e : Eq A⦄ (a : A) → (a =? a) ≡ true
=?_refl ⦃e⦄ a = (e.beq_iff a a).1 refl

unfoldable pub same_list {ℓ} : {A : Type ℓ} ⦃e : Eq A⦄ → List A → List A → Bool
same_list [] [] = true
same_list [] (b ∷ bs) = false
same_list (a ∷ as') [] = false
same_list (a ∷ as') (b ∷ bs) = (a =? b) && same_list as' bs

pub same_list_iff {ℓ} :
    {A : Type ℓ} ⦃e : Eq A⦄ (xs ys : List A) → (same_list xs ys ≡ true) ↔ (xs ≡ ys)
unfolding same_list
same_list_iff [] [] = ground arith
same_list_iff [] (y ∷ ys) = ground arith
same_list_iff (x ∷ xs) [] = ground arith
same_list_iff ⦃e⦄ (x ∷ xs) (y ∷ ys) = ground (arith, e.beq_iff x y, same_list_iff xs ys)

-- Lines and other lists are equal entry by entry.
instance abbrev pub list_eq {ℓ} : {A : Type ℓ} ⦃e : Eq A⦄ → Eq (List A)
list_eq = record { beq = same_list; beq_iff = same_list_iff }

unfoldable pub contains {ℓ} : {A : Type ℓ} ⦃e : Eq A⦄ → A → List A → Bool
contains a [] = false
contains a (x ∷ xs) = (x =? a) || contains a xs
