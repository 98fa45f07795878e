-- ===== src/Yenc/Lists.antt =====
-- Reading and writing a list at an index: what `take` and `drop` see of it.
use nzbre_x.Prelude.{
  ℕ, zero, suc, ◌-◌, ◌≤◌, ◌<◌, ◌≡◌, refl, ap, List, [], ◌∷◌, ◌++◌, length, get_or, take, drop,
  arith,
}
use nzbre_x.Yenc.{set}

module _ {ℓ} {A : Type ℓ} where
  pub length-set : (xs : List A) (i : ℕ) (v : A) → length (set xs i v) ≡ length xs
  length-set [] i v = refl
  length-set (x ∷ xs) zero v = refl
  length-set (x ∷ xs) (suc i) v = ap suc (length-set xs i v)

  pub drop-set : (xs : List A) (i r : ℕ) (v : A) → i < r → drop r (set xs i v) ≡ drop r xs
  drop-set xs i zero v h = elim h [ ]
  drop-set [] i (suc r) v h = refl
  drop-set (x ∷ xs) zero (suc r) v h = refl
  drop-set (x ∷ xs) (suc i) (suc r) v h = drop-set xs i r v (omega arith)

  pub take-set :
      (xs : List A) (i : ℕ) (v : A)
      → i < length xs
      → take (suc i) (set xs i v) ≡ take i xs ++ v ∷ []
  take-set [] i v h = elim h [ ]
  take-set (x ∷ xs) zero v h = refl
  take-set (x ∷ xs) (suc i) v h = ap (◌∷◌ x) (take-set xs i v (omega arith))

  pub drop-get_or :
      (xs : List A) (r : ℕ) (d : A) → r < length xs → drop r xs ≡ get_or xs r d ∷ drop (suc r) xs
  drop-get_or [] r d h = elim h [ ]
  drop-get_or (x ∷ xs) zero d h = refl
  drop-get_or (x ∷ xs) (suc r) d h = drop-get_or xs r d (omega arith)

  pub drop_all : (xs : List A) (r : ℕ) → length xs ≤ r → drop r xs ≡ []
  drop_all [] zero h = refl
  drop_all [] (suc r) h = refl
  drop_all (x ∷ xs) zero h = elim h [ ]
  drop_all (x ∷ xs) (suc r) h = drop_all xs r (omega arith)

  pub length-drop : (xs : List A) (r : ℕ) → length (drop r xs) ≡ length xs - r
  length-drop xs zero = omega arith
  length-drop [] (suc r) = omega arith
  length-drop (x ∷ xs) (suc r) = omega (arith, length-drop xs r)

  pub length-take : (xs : List A) (n : ℕ) → n ≤ length xs → length (take n xs) ≡ n
  length-take xs zero h = refl
  length-take [] (suc n) h = elim h [ ]
  length-take (x ∷ xs) (suc n) h = ap suc (length-take xs n (omega arith))
