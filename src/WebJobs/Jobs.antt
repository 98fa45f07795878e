-- ===== src/WebJobs/Jobs.antt =====
-- webjobs.go: looking up, changing and removing one job of the list, and counting jobs.
use nzbre_x.Prelude.{
  ℕ, ◌+◌, ◌≤◌, ◌<◌, ◌≡◌, refl, Bool, true, List, [], ◌∷◌, ◌++◌, none, some, if◌then◌else◌, ◌==◌,
  tally, arith, Bool-cases, inl, inr,
}
use nzbre_x.WebJobs.State.{Job, find, update, remove, is_waiting, next_waiting}

-- The IDs grow along the list, from `lo` on and below `hi`.
abbrev pub Between : ℕ → ℕ → List Job → Type 0
Between lo hi [] = lo ≤ hi
Between lo hi (j ∷ js) = (lo ≤ j.id) × Between (j.id + 1) hi js

pub Between-le : (lo hi : ℕ) (js : List Job) → Between lo hi js → lo ≤ hi
Between-le lo hi [] h = h
Between-le lo hi (j ∷ js) h = omega (arith, h.0, Between-le (j.id + 1) hi js h.1)

pub Between-mono : (lo lo' hi : ℕ) (js : List Job) → lo' ≤ lo → Between lo hi js → Between lo' hi js
Between-mono lo lo' hi [] le h = omega arith
Between-mono lo lo' hi (j ∷ js) le h = (omega arith, h.1)

pub append-Between :
    (lo hi : ℕ) (js : List Job) (j : Job)
    → j.id ≡ hi
    → Between lo hi js
    → Between lo (hi + 1) (js ++ j ∷ [])
append-Between lo hi [] j e h = (omega arith, omega arith)
append-Between lo hi (x ∷ js) j e h = (h.0, append-Between (x.id + 1) hi js j e h.1)

pub update-Between :
    (lo hi id : ℕ) (f : Job → Job) (js : List Job)
    → ((j : Job) → (f j).id ≡ j.id)
    → Between lo hi js
    → Between lo hi (update id f js)
unfolding update
update-Between lo hi id f [] same h = h
update-Between lo hi id f (j ∷ js) same h = elim (Bool-cases (j.id == id)) [
  | inl e ↦ rw e (rw (same j) h)
  | inr e ↦ rw e (h.0, update-Between (j.id + 1) hi id f js same h.1)
]

pub remove-Between :
    (lo hi id : ℕ) (js : List Job) → Between lo hi js → Between lo hi (remove id js)
unfolding remove
remove-Between lo hi id [] h = h
remove-Between lo hi id (j ∷ js) h = elim (Bool-cases (j.id == id)) [
  | inl e ↦ rw e (Between-mono (j.id + 1) lo hi js (omega (arith, h.0)) h.1)
  | inr e ↦ rw e (h.0, remove-Between (j.id + 1) hi id js h.1)
]

abbrev pub one_if : Bool → ℕ
one_if b = if b then 1 else 0

-- A change of one job moves a count by what it does to that job.
pub tally-update :
    (p : Job → Bool) (id : ℕ) (f : Job → Job) (js : List Job) (j : Job)
    → find id js ≡ some j
    → tally p (update id f js) + one_if (p j) ≡ tally p js + one_if (p (f j))
unfolding find update
tally-update p id f [] j h = cc
tally-update p id f (x ∷ js) j h = ground (arith, tally-update p id f js j)

pub tally-remove :
    (p : Job → Bool) (id : ℕ) (js : List Job) (j : Job)
    → find id js ≡ some j
    → tally p (remove id js) + one_if (p j) ≡ tally p js
unfolding find remove
tally-remove p id [] j h = cc
tally-remove p id (x ∷ js) j h = ground (arith, tally-remove p id js j)

pub find-id : (id : ℕ) (js : List Job) (j : Job) → find id js ≡ some j → j.id ≡ id
unfolding find
find-id id [] j h = cc
find-id id (x ∷ js) j h = ground (arith, find-id id js j)

pub find-update :
    (id k : ℕ) (f : Job → Job) (js : List Job)
    → ((j : Job) → (f j).id ≡ j.id)
    → find k (update id f js)
      ≡ (if id == k then elim (find k js) [ none ↦ none | some j ↦ some (f j) ] else find k js)
unfolding find update
find-update id k f [] same = ground arith
find-update id k f (x ∷ js) same = ground (arith, find-update id k f js same, same x)

-- A job below the lowest ID is not in the list.
pub find_below : (lo hi k : ℕ) (js : List Job) → Between lo hi js → k < lo → find k js ≡ none
unfolding find
find_below lo hi k [] h lt = refl
find_below lo hi k (j ∷ js) h lt = ground (arith, find_below (j.id + 1) hi k js h.1, h.0)

-- Removing a job takes it, and no other, off the list.
pub find-remove :
    (lo hi id k : ℕ) (js : List Job)
    → Between lo hi js
    → find k (remove id js) ≡ (if id == k then none else find k js)
unfolding find remove
find-remove lo hi id k [] h = ground arith
find-remove lo hi id k (j ∷ js) h =
    ground (arith, find-remove (j.id + 1) hi id k js h.1, find_below (j.id + 1) hi k js h.1)

pub find_bounds :
    (lo hi k : ℕ) (js : List Job) (j : Job)
    → Between lo hi js
    → find k js ≡ some j
    → (lo ≤ k) × (k < hi)
unfolding find
find_bounds lo hi k [] j h e = cc
find_bounds lo hi k (x ∷ js) j h e =
    ground (arith, h, Between-le (x.id + 1) hi js h.1, find_bounds (x.id + 1) hi k js j h.1)

-- The runner finds a waiting job if there is one, and then the one that was added first.
pub next_waiting-none : (js : List Job) → next_waiting js ≡ none → tally is_waiting js ≡ 0
unfolding next_waiting
next_waiting-none [] h = refl
next_waiting-none (j ∷ js) h = ground (arith, next_waiting-none js)

pub next_waiting-find :
    (lo hi : ℕ) (js : List Job) (j : Job)
    → Between lo hi js
    → next_waiting js ≡ some j
    → (find j.id js ≡ some j) × (is_waiting j ≡ true)
unfolding next_waiting find
next_waiting-find lo hi [] j h e = cc
next_waiting-find lo hi (x ∷ js) j h e = elim (Bool-cases (is_waiting x)) [
  | inl w ↦ ground (arith, e, w)
  | inr w ↦
      let later : next_waiting js ≡ some j = ground (arith, e, w) in
      let (here, still) = next_waiting-find (x.id + 1) hi js j h.1 later in
      ground (arith, here, still, find_bounds (x.id + 1) hi j.id js j h.1 here)
]

pub next_waiting_oldest :
    (lo hi k : ℕ) (js : List Job) (i j : Job)
    → Between lo hi js
    → next_waiting js ≡ some j
    → find k js ≡ some i
    → is_waiting i ≡ true
    → j.id ≤ k
unfolding next_waiting find
next_waiting_oldest lo hi k [] i j h e f w = cc
next_waiting_oldest lo hi k (x ∷ js) i j h e f w = ground (
  arith,
  e,
  f,
  w,
  next_waiting_oldest (x.id + 1) hi k js i j h.1,
  find_bounds (x.id + 1) hi k js i h.1,
)
