-- ===== src/WebJobs/Drop.antt =====
-- webjobs.go: the finished jobs that finishLocked drops.
use nzbre_x.Prelude.{
  ℕ, zero, suc, ◌+◌, ◌-◌, ◌≤◌, ◌≡◌, refl, ap, Bool, true, false, not, ◌&&◌, List, [], ◌∷◌, some,
  ltb, tally, keep, drop, arith, Bool-cases, inl, inr,
}
use nzbre_x.WebJobs.State.{Job, find, is_finished}
use nzbre_x.WebJobs.Calls.{drop_finished}
use nzbre_x.WebJobs.Jobs.{Between, Between-mono, find_bounds}

pub drop_finished-Between :
    (d lo hi : ℕ) (js : List Job) → Between lo hi js → Between lo hi (drop_finished d js)
unfolding drop_finished
drop_finished-Between d lo hi [] h = h
drop_finished-Between d lo hi (j ∷ js) h = elim (Bool-cases (ltb 0 d && is_finished j)) [
  | inl e ↦
      rw (e, drop_finished)
        (Between-mono (j.id + 1) lo hi (drop_finished (d - 1) js) (omega (arith, h.0))
          (drop_finished-Between (d - 1) (j.id + 1) hi js h.1))
  | inr e ↦ rw (e, drop_finished) (h.0, drop_finished-Between d (j.id + 1) hi js h.1)
]

-- What is counted besides finished jobs keeps its count.
pub tally-drop_finished_other :
    (p : Job → Bool) (d : ℕ) (js : List Job)
    → ((j : Job) → p j && is_finished j ≡ false)
    → tally p (drop_finished d js) ≡ tally p js
unfolding drop_finished
tally-drop_finished_other p d [] apart = refl
tally-drop_finished_other p d (j ∷ js) apart = ground (
  arith,
  apart j,
  tally-drop_finished_other p (d - 1) js apart,
  tally-drop_finished_other p d js apart,
)

pub tally-drop_finished :
    (d : ℕ) (js : List Job)
    → d ≤ tally is_finished js
    → tally is_finished (drop_finished d js) + d ≡ tally is_finished js
unfolding drop_finished
tally-drop_finished d [] h = omega arith
tally-drop_finished d (j ∷ js) h =
    ground (arith, tally-drop_finished (d - 1) js, tally-drop_finished d js)

pub find-drop_finished :
    (d k : ℕ) (js : List Job) (j : Job)
    → find k js ≡ some j
    → is_finished j ≡ false
    → find k (drop_finished d js) ≡ some j
unfolding drop_finished find
find-drop_finished d k [] j e f = cc
find-drop_finished d k (x ∷ js) j e f =
    ground (arith, e, f, find-drop_finished (d - 1) k js j, find-drop_finished d k js j)

-- Nothing comes in.
pub kept_was_found :
    (d lo hi k : ℕ) (js : List Job) (j : Job)
    → Between lo hi js
    → find k (drop_finished d js) ≡ some j
    → find k js ≡ some j
unfolding drop_finished find
kept_was_found d lo hi k [] j h e = e
kept_was_found d lo hi k (x ∷ js) j h e = ground (
  arith,
  e,
  kept_was_found (d - 1) (x.id + 1) hi k js j h.1,
  kept_was_found d (x.id + 1) hi k js j h.1,
  find_bounds (x.id + 1) hi k js j h.1,
)

drop_finished-cons_finished :
    (d : ℕ) (j : Job) (js : List Job)
    → is_finished j ≡ true
    → drop_finished (suc d) (j ∷ js) ≡ drop_finished d js
unfolding drop_finished
drop_finished-cons_finished d j js e =
    let test : (ltb 0 (suc d) && is_finished j) ≡ true = ground (arith, e) in
    rw (test, drop_finished) (ap (λ k. drop_finished k js) (omega arith))

drop_finished-cons_unfinished :
    (d : ℕ) (j : Job) (js : List Job)
    → is_finished j ≡ false
    → drop_finished d (j ∷ js) ≡ j ∷ drop_finished d js
unfolding drop_finished
drop_finished-cons_unfinished d j js e =
    let test : (ltb 0 d && is_finished j) ≡ false = ground (arith, e) in
    rw (test, drop_finished) refl

drop_finished-zero : (js : List Job) → drop_finished 0 js ≡ js
unfolding drop_finished
drop_finished-zero [] = refl
drop_finished-zero (j ∷ js) = ap (◌∷◌ j) (drop_finished-zero js)

-- The jobs that go are the first `d` finished ones: the unfinished jobs stay, in their order, and
-- of the finished ones those behind the first `d`.
pub keep-drop_finished :
    (d : ℕ) (js : List Job)
    → (keep (λ j. not (is_finished j)) (drop_finished d js) ≡ keep (λ j. not (is_finished j)) js)
      × (keep is_finished (drop_finished d js) ≡ drop d (keep is_finished js))
keep-drop_finished zero js = rw (drop_finished-zero js) (refl, refl)
keep-drop_finished (suc d) [] = unfold drop_finished in (refl, refl)
keep-drop_finished (suc d) (j ∷ js) = elim (Bool-cases (is_finished j)) [
  | inl e ↦ rw (drop_finished-cons_finished d j js e, e) (keep-drop_finished d js)
  | inr e ↦
      let (stay, go) = keep-drop_finished (suc d) js in
      rw (drop_finished-cons_unfinished (suc d) j js e, e) (ap (◌∷◌ j) stay, go)
]
