-- ===== src/WebJobs/Moves.antt =====
-- webjobs.go: StartJob, StopJob and the end of a job, under the invariant of the queue.
use nzbre_x.Prelude.{
  ℕ, ◌≡◌, refl, ap, ◌∙◌, Bool, true, false, List, [], ◌∷◌, ◌++◌, Option, none, some, ◌==◌, arith,
  Bool-cases, Option-cases, inl, inr, ◌⊎◌,
}
use nzbre_x.WebJobs.State.{
  Job, JobError, JobQueue, Progress, Status, queued, waiting, running, completed, failed, Runner,
  asleep, awake, picked, launched, find, update, remove, is_finished, is_pending, is_waiting,
  is_running, is_queued, canceled, ok, err, job_state, status_running,
}
use nzbre_x.WebJobs.Calls.{finish_locked, start_job, stop_job, after}
use nzbre_x.WebJobs.Jobs.{Between, update-Between, tally-update, find-update, find-remove}
use nzbre_x.WebJobs.Invariant.{
  Inv, Runs, tally-finish_locked, finish_locked_limit, finish_locked-Between, find-finish_locked,
  pending_apart, running_apart, waiting_apart,
}

pub same_job :
    (id k : ℕ) (js : List Job) (i j : Job)
    → (id == k) ≡ true
    → find id js ≡ some j
    → find k js ≡ some i
    → i ≡ j
same_job id k js i j e f g =
    let same : id ≡ k = ground (arith, e) in let g' : find id js ≡ some i = rw same g in cc

pub other_job :
    (id k : ℕ) (js : List Job) (i j : Job)
    → find id js ≡ some j
    → is_running j ≡ false
    → find k js ≡ some i
    → i.status ≡ running
    → (id == k) ≡ false
other_job id k js i j f idle g up = elim (Bool-cases (id == k)) [
  | inl e ↦ ground (arith, same_job id k js i j e f g, idle, up)
  | inr e ↦ e
]

pub find-append :
    (k : ℕ) (js : List Job) (i j : Job) → find k js ≡ some i → find k (js ++ j ∷ []) ≡ some i
unfolding find
find-append k [] i j h = cc
find-append k (x ∷ js) i j h = ground (arith, find-append k js i j)

-- The running job stays the running one when another job changes, or it changes and runs on.
pub Runs-update :
    (r : Runner) (id : ℕ) (f : Job → Job) (js : List Job) (j : Job)
    → ((i : Job) → (f i).id ≡ i.id)
    → find id js ≡ some j
    → (j.status ≡ running → (f j).status ≡ running)
    → Runs r js
    → Runs r (update id f js)
Runs-update (launched k) id f js j same e still (i, at, up) = elim (Bool-cases (id == k)) [
  | inl here ↦ (
    f i,
    find-update id k f js same ∙ rw (here, at) refl,
    ground (arith, same_job id k js i j here e at, still, up),
  )
  | inr other ↦ (i, find-update id k f js same ∙ rw other at, up)
]
Runs-update asleep id f js j same e still h = tt
Runs-update awake id f js j same e still h = tt
Runs-update (picked k) id f js j same e still h = tt

pub Runs-append : (r : Runner) (js : List Job) (j : Job) → Runs r js → Runs r (js ++ j ∷ [])
Runs-append (launched k) js j (i, at, up) = (i, find-append k js i j at, up)
Runs-append asleep js j h = tt
Runs-append awake js j h = tt
Runs-append (picked k) js j h = tt

pub Runs-remove :
    (r : Runner) (id lo hi : ℕ) (js : List Job) (j : Job)
    → Between lo hi js
    → find id js ≡ some j
    → is_running j ≡ false
    → Runs r js
    → Runs r (remove id js)
Runs-remove (launched k) id lo hi js j b e idle (i, at, up) =
    (i, find-remove lo hi id k js b ∙ rw (other_job id k js i j e idle at up) at, up)
Runs-remove asleep id lo hi js j b e idle h = tt
Runs-remove awake id lo hi js j b e idle h = tt
Runs-remove (picked k) id lo hi js j b e idle h = tt

pub Runs-finish_locked :
    (progress : ℕ → Progress) (r : Runner) (id : ℕ) (e : Option JobError) (q : JobQueue) (j : Job)
    → find id q.jobs ≡ some j
    → is_running j ≡ false
    → Runs r q.jobs
    → Runs r (finish_locked progress id e q).jobs
Runs-finish_locked progress (launched k) id e q j f idle (i, at, up) = (
  i,
  find-finish_locked progress id k e q i (other_job id k q.jobs i j f idle at up) at
      (ground (arith, up)),
  up,
)
Runs-finish_locked progress asleep id e q j f idle h = tt
Runs-finish_locked progress awake id e q j f idle h = tt
Runs-finish_locked progress (picked k) id e q j f idle h = tt

-- What a move on a job that is not running has to show of the counts.
pub change-Inv :
    (q : JobQueue) (id : ℕ) (f : Job → Job) (j : Job) (wake : Bool)
    → ((i : Job) → (f i).id ≡ i.id)
    → find id q.jobs ≡ some j
    → (j.status ≡ running → (f j).status ≡ running)
    → is_finished (f j) ≡ is_finished j
    → is_pending (f j) ≡ is_pending j
    → is_running (f j) ≡ is_running j
    → (wake ≡ true) ⊎ ((wake ≡ q.wake) × (is_waiting (f j) ≡ is_waiting j))
    → Inv q
    → Inv (record q { jobs = update id f q.jobs; wake = wake })
change-Inv q id f j wake same e still fin pend run woke v = record {
  ids = update-Between 1 q.next_id id f q.jobs same v.ids;
  finished = ground (arith, tally-update is_finished id f q.jobs j e, fin, v.finished);
  pending = ground (arith, tally-update is_pending id f q.jobs j e, pend, v.pending);
  one_running = ground (arith, tally-update is_running id f q.jobs j e, run, v.one_running);
  runs = Runs-update q.runner id f q.jobs j same e still v.runs;
  woken = λ h. ground (arith, h, tally-update is_waiting id f q.jobs j e, woke, v.woken);
}

pub start_job-Inv : (q : JobQueue) (id : ℕ) → Inv q → Inv (after q (start_job id q))
unfolding start_job
start_job-Inv q id v = elim (Option-cases (find id q.jobs)) [
  | inl e ↦ rw (e, start_job) v
  | inr (j, e) ↦ elim (Bool-cases (is_queued j)) [
    | inr no_queued ↦ rw (e, start_job) (rw (no_queued, start_job) v)
    | inl now ↦
        rw (e, start_job)
          (rw (now, start_job)
            (change-Inv q id (λ j. record j { status = waiting }) j true (λ i. refl) e
              (ground (arith, now)) (ground (arith, now)) (ground (arith, now))
              (ground (arith, now)) (inl refl) v))
  ]
]

-- Finishing a job that does not run.
pub finish_idle-Inv :
    (progress : ℕ → Progress) (q : JobQueue) (id : ℕ) (e : Option JobError) (j : Job)
    → find id q.jobs ≡ some j
    → is_running j ≡ false
    → Inv q
    → Inv (finish_locked progress id e q)
unfolding finish_locked
finish_idle-Inv progress q id e j f idle v = record {
  ids = finish_locked-Between progress id e q v.ids;
  finished = finish_locked_limit progress id e q;
  pending =
      omega (arith, tally-finish_locked progress is_pending id e q j pending_apart f, v.pending);
  one_running = ground (
    arith,
    tally-finish_locked progress is_running id e q j running_apart f,
    idle,
    v.one_running,
  );
  runs = Runs-finish_locked progress q.runner id e q j f idle v.runs;
  woken = λ h.
      ground (arith, v.woken h, tally-finish_locked progress is_waiting id e q j waiting_apart f);
}

stopping-Inv :
    (q : JobQueue) (id : ℕ) (j : Job) (stopped : List ℕ)
    → find id q.jobs ≡ some j
    → Inv q
    → Inv (record q {
      jobs = update id (λ j. record j { stop_requested = true }) q.jobs;
      stopped_sessions = stopped;
    })
stopping-Inv q id j stopped e v =
    let w =
      change-Inv q id (λ j. record j { stop_requested = true }) j q.wake (λ i. refl) e (λ h. h) refl
        refl refl (inr (refl, refl)) v in
    record {
      ids = w.ids;
      finished = w.finished;
      pending = w.pending;
      one_running = w.one_running;
      runs = w.runs;
      woken = w.woken;
    }

stop_found-Inv :
    (progress : ℕ → Progress) (q : JobQueue) (id : ℕ) (j : Job) (s : Status)
    → find id q.jobs ≡ some j
    → j.status ≡ s
    → Inv q
    → Inv (
        after q (elim s [
          | waiting ↦ ok (finish_locked progress id (some canceled) q)
          | running ↦ ok (record q {
            jobs = update id (λ j. record j { stop_requested = true }) q.jobs;
            stopped_sessions = elim j.session [
              | none ↦ q.stopped_sessions
              | some s ↦ s ∷ q.stopped_sessions
            ];
          })
          | _ ↦ err job_state
        ]))
stop_found-Inv progress q id j waiting f e v =
    finish_idle-Inv progress q id (some canceled) j f (ap status_running e) v
stop_found-Inv progress q id j running f e v = stopping-Inv q id j _ f v
stop_found-Inv progress q id j queued f e v = v
stop_found-Inv progress q id j completed f e v = v
stop_found-Inv progress q id j failed f e v = v

pub stop_job-Inv :
    (progress : ℕ → Progress) (q : JobQueue) (id : ℕ)
    → Inv q
    → Inv (after q (stop_job progress id q))
unfolding stop_job
stop_job-Inv progress q id v = elim (Option-cases (find id q.jobs)) [
  | inl e ↦ rw (e, stop_job) v
  | inr (j, e) ↦ rw (e, stop_job) (stop_found-Inv progress q id j j.status e refl v)
]
