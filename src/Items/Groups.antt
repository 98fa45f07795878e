-- ===== src/Items/Groups.antt =====
-- The loop over the providers of one group, which Routines.go and Workers.go repeat: what it adds to a
-- count, and which entries of a map it changes.
use nzbre_x.Prelude.{
  ℕ, ◌+◌, ◌<◌, ◌≡◌, refl, ap, ◌∙◌, inl, inr, arith, Bool, false, List, [], ◌∷◌, if◌then◌else◌, ◌==◌,
  nat_eq, string_eq, String, ◌=?◌, Bool-cases, tally,
}
use nzbre_x.Items.{Provider, Item, for_group}

-- The provider list holds a provider of the group at `k`, where it starts at the index `id`.
abbrev pub in_group : String → ℕ → List Provider → ℕ → Bool
in_group g id [] k = false
in_group g id (p ∷ ps) k = if id == k then p.group =? g else in_group g (id + 1) ps k

-- A loop that adds one at each of the group's providers adds their number.
pub for_group-count :
    (g : String) (f : ℕ → Item → Item) (id : ℕ) (ps : List Provider) (item : Item)
    → ((k : ℕ) (i : Item) → (f k i).checked_on ≡ i.checked_on + 1)
    → (for_group g f id ps item).checked_on ≡ item.checked_on + tally (λ p. p.group =? g) ps
unfolding for_group
for_group-count g f id [] item one = omega arith
for_group-count g f id (p ∷ ps) item one = ground (
  arith,
  one id item,
  for_group-count g f (id + 1) ps item one,
  for_group-count g f (id + 1) ps (f id item) one,
)

-- A count, flag or entry that no turn of the loop touches stays.
pub for_group-same :
    {A : Type 0}
    → (v : Item → A) (g : String) (f : ℕ → Item → Item) (id : ℕ) (ps : List Provider) (item : Item)
    → ((j : ℕ) (i : Item) → v (f j i) ≡ v i)
    → v (for_group g f id ps item) ≡ v item
unfolding for_group
for_group-same v g f id [] item same = refl
for_group-same v g f id (p ∷ ps) item same = elim (Bool-cases (p.group =? g)) [
  | inl e ↦ rw (e, for_group) (for_group-same v g f (id + 1) ps (f id item) same ∙ same id item)
  | inr e ↦ rw (e, for_group) (for_group-same v g f (id + 1) ps item same)
]

-- Behind `k`, no turn touches an entry of `k`.
for_group-past :
    (v : Item → Bool) (g : String) (f : ℕ → Item → Item) (k id : ℕ) (ps : List Provider)
    (item : Item)
    → ((j : ℕ) (i : Item) → (j == k) ≡ false → v (f j i) ≡ v i)
    → k < id
    → v (for_group g f id ps item) ≡ v item
unfolding for_group
for_group-past v g f k id [] item other past = refl
for_group-past v g f k id (p ∷ ps) item other past = elim (Bool-cases (p.group =? g)) [
  | inl e ↦
      rw (e, for_group)
        (for_group-past v g f k (id + 1) ps (f id item) other (omega arith)
          ∙ other id item (ground arith))
  | inr e ↦ rw (e, for_group) (for_group-past v g f k (id + 1) ps item other (omega arith))
]

-- An entry of `k` that the turn at `k`, and only it, sets: it is set if the group has a provider there.
pub for_group-on :
    (v : Item → Bool) (b : Bool) (g : String) (f : ℕ → Item → Item) (k id : ℕ) (ps : List Provider)
    (item : Item)
    → ((j : ℕ) (i : Item) → (j == k) ≡ false → v (f j i) ≡ v i)
    → ((i : Item) → v (f k i) ≡ b)
    → v (for_group g f id ps item) ≡ (if in_group g id ps k then b else v item)
unfolding for_group
for_group-on v b g f k id [] item other here = refl
for_group-on v b g f k id (p ∷ ps) item other here = elim (Bool-cases (id == k)) [
  | inl at ↦
      let same : id ≡ k = ground (arith, at) in
      let past = for_group-past v g f k (id + 1) ps in
      ground (
        arith,
        past item other (omega arith),
        past (f id item) other (omega arith),
        ap (λ j. v (f j item)) same,
        here item,
      )
  | inr off ↦ ground (
    arith,
    for_group-on v b g f k (id + 1) ps item other here,
    for_group-on v b g f k (id + 1) ps (f id item) other here,
    other id item off,
  )
]
