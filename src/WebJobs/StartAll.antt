-- ===== src/WebJobs/StartAll.antt =====
-- webjobs.go: StartAllQueued, which starts the jobs that it found one by one.
use nzbre_x.Prelude.{
  ℕ, ◌+◌, ◌≤◌, ◌<◌, ◌≡◌, refl, ap, ◌∙◌, arith, true, false, List, [], ◌∷◌, some, ◌==◌, ==_iff,
  length, tally, Bool-cases, inl, inr,
}
use nzbre_x.WebJobs.State.{Job, JobQueue, Result, ok, err, waiting, find, update, is_queued}
use nzbre_x.WebJobs.Calls.{start_job, start_each, start_all_queued, after, ids_of}
use nzbre_x.WebJobs.Jobs.{Between, tally-update, find-update}
use nzbre_x.WebJobs.Invariant.{Inv}

-- The IDs grow from `lo` on, and each is the ID of a queued job.
abbrev Startable : ℕ → List ℕ → List Job → Type 0
Startable lo [] js = Unit {0}
Startable lo (id ∷ ids) js =
    (lo ≤ id)
    × ((j : Job) × (find id js ≡ some j) × (is_queued j ≡ true))
    × Startable (id + 1) ids js

abbrev start : Job → Job
start j = record j { status = waiting }

update-Startable :
    (id lo : ℕ) (ids : List ℕ) (js : List Job)
    → id < lo
    → Startable lo ids js
    → Startable lo ids (update id start js)
update-Startable id lo [] js lt h = tt
update-Startable id lo (k ∷ ids) js lt (le, (j, at, now), h) =
    let other : (id == k) ≡ false = ground arith in
    (
      le,
      (j, find-update id k start js (λ x. refl) ∙ rw other at, now),
      update-Startable id (k + 1) ids js (omega arith) h,
    )

cons-Startable :
    (lo hi : ℕ) (ids : List ℕ) (x : Job) (js : List Job)
    → x.id < lo
    → Startable lo ids js
    → Startable lo ids (x ∷ js)
unfolding find
cons-Startable lo hi [] x js lt h = tt
cons-Startable lo hi (k ∷ ids) x js lt (le, (j, at, now), h) =
    let other : (x.id == k) ≡ false = ground arith in
    (le, (j, rw other at, now), cons-Startable (k + 1) hi ids x js (omega arith) h)

weaken-Startable :
    (lo lo' : ℕ) (ids : List ℕ) (js : List Job)
    → lo' ≤ lo
    → Startable lo ids js
    → Startable lo' ids js
weaken-Startable lo lo' [] js le h = tt
weaken-Startable lo lo' (k ∷ ids) js le (from, at, rest) = (omega arith, at, rest)

ids_of-Startable :
    (lo hi : ℕ) (js : List Job) → Between lo hi js → Startable lo (ids_of is_queued js) js
ids_of-Startable lo hi [] b = tt
ids_of-Startable lo hi (j ∷ js) b =
    let rest =
      cons-Startable (j.id + 1) hi (ids_of is_queued js) j js (omega arith)
        (ids_of-Startable (j.id + 1) hi js b.1) in
    elim (Bool-cases (is_queued j)) [
      | inl e ↦ rw e (b.0, (j, find-here j js, e), rest)
      | inr e ↦
          rw e (
            weaken-Startable (j.id + 1) lo (ids_of is_queued js) (j ∷ js) (omega (arith, b.0)) rest)
    ]
  where
    find-here : (j : Job) (js : List Job) → find j.id (j ∷ js) ≡ some j
    find-here j js = unfold find in ground (arith, ==_iff j.id j.id)

length-ids_of : (js : List Job) → length (ids_of is_queued js) ≡ tally is_queued js
length-ids_of [] = refl
length-ids_of (j ∷ js) = ground (arith, length-ids_of js)

start_job-queued :
    (id : ℕ) (q : JobQueue) (j : Job)
    → find id q.jobs ≡ some j
    → is_queued j ≡ true
    → start_job id q ≡ ok (record q { jobs = update id start q.jobs; wake = true })
unfolding start_job
start_job-queued id q j at now = rw (at, start_job) (rw (now, start_job) refl)

start_each_step :
    (id : ℕ) (ids : List ℕ) (q : JobQueue) (r : Result JobQueue)
    → start_job id q ≡ r
    → start_each (id ∷ ids) q ≡ (
      (start_each ids (after q r)).0,
      elim r as (λ _. ℕ) [
        | ok _ ↦ (start_each ids (after q r)).1 + 1
        | err _ ↦ (start_each ids (after q r)).1
      ],
    )
unfolding start_each
start_each_step id ids q r e =
    ap
      (λ x. (
        (start_each ids (after q x)).0,
        elim x as (λ _. ℕ) [
          | ok _ ↦ (start_each ids (after q x)).1 + 1
          | err _ ↦ (start_each ids (after q x)).1
        ],
      ))
      e

start_each-count :
    (lo : ℕ) (ids : List ℕ) (q : JobQueue)
    → Startable lo ids q.jobs
    → ((start_each ids q).1 ≡ length ids)
      × (tally is_queued (start_each ids q).0.jobs + length ids ≡ tally is_queued q.jobs)
start_each-count lo [] q h = unfold start_each in (refl, omega arith)
start_each-count lo (id ∷ ids) q (le, (j, at, now), h) =
    let q' : JobQueue = record q { jobs = update id start q.jobs; wake = true } in
    let (n, left) =
      start_each-count (id + 1) ids q' (update-Startable id (id + 1) ids q.jobs (omega arith) h) in
    let one = tally-update is_queued id start q.jobs j at in
    let step = start_each_step id ids q (ok q') (start_job-queued id q j at now) in
    rw step (omega (arith, n), ground (arith, left, one, now))

-- In a queue that satisfies the invariant, StartAllQueued reports the number of queued jobs, and none is left.
start_all_queued_lem :
    (q : JobQueue)
    → Inv q
    → ((start_all_queued q).1 ≡ tally is_queued q.jobs)
      × (tally is_queued (start_all_queued q).0.jobs ≡ 0)
unfolding start_all_queued
start_all_queued_lem q v =
    let (n, left) =
      start_each-count 1 (ids_of is_queued q.jobs) q (ids_of-Startable 1 q.next_id q.jobs v.ids) in
    (n ∙ length-ids_of q.jobs, omega (arith, left, length-ids_of q.jobs))
