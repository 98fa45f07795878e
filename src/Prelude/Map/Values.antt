-- ===== src/Prelude/Map/Values.antt =====
-- Maps: what storing and deleting do to a predicate on all values and to the number of entries.
use Prim.Native.Nat.{suc, ◌+◌, ◌≤◌}
use mathlib.Core.Path.{◌≡◌, refl, ap, ◌∙◌}
use mathlib.Core.Logic.{inl, inr}
use mathlib.Core.Bool.{Bool, false}
use mathlib.Core.Option.{some}
use mathlib.Core.List.{List, [], ◌∷◌}
use native.Mathlib.Omega.{arith}
use nzbre_x.Prelude.Tests.{Bool-cases}
use nzbre_x.Prelude.Lists.{length, keep, All}
use nzbre_x.Prelude.Classes.{Eq, ◌=?◌}
use nzbre_x.Prelude.Map.{Map, get, put, delete}

pub get_further {ℓ κ} :
    {K : Type ℓ} {V : Type κ} ⦃e : Eq K⦄ (k j : K) (w : V) (m : Map K V)
    → (j =? k) ≡ false
    → get k m ≡ get k ((j, w) ∷ m)
unfolding get
get_further k j w m t = rw (t, get) refl

-- A predicate on values, over a map.
module _ {ℓ κ μ} {K : Type ℓ} {V : Type κ} ⦃e : Eq K⦄ (P : V → Type μ) where
  abbrev pub AllValues : Map K V → Type μ
  AllValues m = All (λ (k, v). P v) m

  pub AllValues-get : (k : K) (v : V) (m : Map K V) → AllValues m → get k m ≡ some v → P v
  unfolding get
  AllValues-get k v [] h g = absurd (cc g)
  AllValues-get k v ((j, w) ∷ m) h g = elim (Bool-cases (j =? k)) [
    | inl t ↦
        let found : get k ((j, w) ∷ m) ≡ some w = rw (t, get) refl in
        let same : v ≡ w = cc (found, g) in rw same h.0
    | inr t ↦ AllValues-get k v m h.1 (get_further k j w m t ∙ g)
  ]

  pub AllValues-put : (k : K) (v : V) (m : Map K V) → AllValues m → P v → AllValues (put k v m)
  unfolding put
  AllValues-put k v [] h p = (p, tt)
  AllValues-put k v ((j, w) ∷ m) h p = elim (Bool-cases (j =? k)) [
    | inl t ↦ rw t (p, h.1)
    | inr t ↦ rw t (h.0, AllValues-put k v m h.1 p)
  ]

  pub AllValues-delete : (k : K) (m : Map K V) → AllValues m → AllValues (delete k m)
  unfolding delete
  AllValues-delete k [] h = tt
  AllValues-delete k ((j, w) ∷ m) h = elim (Bool-cases (j =? k)) [
    | inl t ↦ rw t (AllValues-delete k m h.1)
    | inr t ↦ rw t (h.0, AllValues-delete k m h.1)
  ]

  pub AllValues-keep : (p : K × V → Bool) (m : Map K V) → AllValues m → AllValues (keep p m)
  AllValues-keep p [] h = tt
  AllValues-keep p (x ∷ m) h = elim (Bool-cases (p x)) [
    | inl t ↦ rw t (h.0, AllValues-keep p m h.1)
    | inr t ↦ rw t (AllValues-keep p m h.1)
  ]

module _ {ℓ κ} {K : Type ℓ} {V : Type κ} ⦃e : Eq K⦄ where
  pub length-put_new : (k : K) (v : V) (m : Map K V) → length (put k v m) ≤ length m + 1
  unfolding put
  length-put_new k v [] = omega arith
  length-put_new k v ((j, w) ∷ m) = ground (arith, length-put_new k v m)

  pub length-put_old :
      (k : K) (v w : V) (m : Map K V) → get k m ≡ some w → length (put k v m) ≡ length m
  unfolding put get
  length-put_old k v w [] g = absurd (cc g)
  length-put_old k v w ((j, u) ∷ m) g = elim (Bool-cases (j =? k)) [
    | inl t ↦ rw t refl
    | inr t ↦ rw t (ap suc (length-put_old k v w m (get_further k j u m t ∙ g)))
  ]

  pub length-delete : (k : K) (m : Map K V) → length (delete k m) ≤ length m
  unfolding delete
  length-delete k [] = omega arith
  length-delete k ((j, w) ∷ m) = ground (arith, length-delete k m)

pub length-keep {ℓ} : {A : Type ℓ} (p : A → Bool) (xs : List A) → length (keep p xs) ≤ length xs
length-keep p [] = omega arith
length-keep p (x ∷ xs) = ground (arith, length-keep p xs)
