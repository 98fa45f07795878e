-- ===== src/MemLimit/Slots.antt =====
-- MemLimit.go: counting the items that own a slot and the callers that wait for one.
use nzbre_x.Prelude.{
  ℕ, ◌+◌, true, false, ◌≡◌, refl, List, [], ◌∷◌, none, some, if◌then◌else◌, ◌==◌, nat_eq, length,
  arith,
}
use nzbre_x.Prelude.Map.{Map, get, put, delete, get-put, get-delete}
use nzbre_x.MemLimit.{mem, remove, Phase, got}

-- No item twice.
abbrev pub Distinct : List ℕ → Type 0
Distinct [] = Unit {0}
Distinct (i ∷ is) = (mem i is ≡ false) × Distinct is

-- No key twice.
abbrev pub HasDistinctKeys : Map ℕ Phase → Type 0
HasDistinctKeys [] = Unit {0}
HasDistinctKeys ((i, _) ∷ p) = (get i p ≡ none) × HasDistinctKeys p

abbrev pub slots_of : Phase → ℕ
slots_of got = 1
slots_of _ = 0

-- The slots that waiting callers took from the channel.
abbrev pub taken : Map ℕ Phase → ℕ
taken [] = 0
taken ((_, ph) ∷ p) = slots_of ph + taken p

pub length-remove : (i : ℕ) (xs : List ℕ) → mem i xs ≡ true → length xs ≡ length (remove i xs) + 1
length-remove i [] h = ground arith
length-remove i (x ∷ xs) h = ground (arith, length-remove i xs)

pub mem-remove :
    (i j : ℕ) (xs : List ℕ)
    → Distinct xs
    → mem j (remove i xs) ≡ (if i == j then false else mem j xs)
mem-remove i j [] d = ground arith
mem-remove i j (x ∷ xs) d = ground (arith, mem-remove i j xs d.1)

pub remove-Distinct : (i : ℕ) (xs : List ℕ) → Distinct xs → Distinct (remove i xs)
remove-Distinct i [] d = tt
remove-Distinct i (x ∷ xs) d = ground (arith, remove-Distinct i xs d.1, mem-remove i x xs d.1)

pub put-HasDistinctKeys :
    (i : ℕ) (ph : Phase) (p : Map ℕ Phase) → HasDistinctKeys p → HasDistinctKeys (put i ph p)
unfolding get put
put-HasDistinctKeys i ph [] d = (refl, tt)
put-HasDistinctKeys i ph ((j, x) ∷ p) d =
    ground (arith, put-HasDistinctKeys i ph p d.1, get-put i j ph p)

pub delete-HasDistinctKeys :
    (i : ℕ) (p : Map ℕ Phase) → HasDistinctKeys p → HasDistinctKeys (delete i p)
unfolding delete
delete-HasDistinctKeys i [] d = tt
delete-HasDistinctKeys i ((j, x) ∷ p) d =
    ground (arith, delete-HasDistinctKeys i p d.1, get-delete i j p)

delete_absent : (i : ℕ) (p : Map ℕ Phase) → get i p ≡ none → delete i p ≡ p
unfolding get delete
delete_absent i [] h = refl
delete_absent i ((j, x) ∷ p) h = ground (arith, delete_absent i p)

-- A key that is there changes its phase only; one that is not there is added.
pub put_present :
    (i : ℕ) (ph old : Phase) (p : Map ℕ Phase)
    → get i p ≡ some old
    → (length (put i ph p) ≡ length p) × (taken (put i ph p) + slots_of old ≡ taken p + slots_of ph)
unfolding get put
put_present i ph old [] h = ground arith
put_present i ph old ((j, x) ∷ p) h = ground (arith, put_present i ph old p)

pub put_absent :
    (i : ℕ) (ph : Phase) (p : Map ℕ Phase)
    → get i p ≡ none
    → (length (put i ph p) ≡ length p + 1) × (taken (put i ph p) ≡ taken p + slots_of ph)
unfolding get put
put_absent i ph [] h = ground arith
put_absent i ph ((j, x) ∷ p) h = ground (arith, put_absent i ph p)

pub delete_present :
    (i : ℕ) (old : Phase) (p : Map ℕ Phase)
    → HasDistinctKeys p
    → get i p ≡ some old
    → (length p ≡ length (delete i p) + 1) × (taken p ≡ taken (delete i p) + slots_of old)
unfolding get delete
delete_present i old [] d h = ground arith
delete_present i old ((j, x) ∷ p) d h =
    ground (arith, delete_present i old p d.1, delete_absent i p)
