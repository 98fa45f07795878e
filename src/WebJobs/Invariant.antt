-- ===== src/WebJobs/Invariant.antt =====
-- webjobs.go: what holds of the queue between any two moves of the pages and the runner.
use nzbre_x.Prelude.{
  ℕ, ◌+◌, ◌-◌, ◌≤◌, ◌≡◌, refl, ◌∙◌, Bool, true, false, not, ◌&&◌, List, Option, some, ◌==◌, tally,
  arith,
}
use nzbre_x.WebJobs.State.{
  Job, JobError, JobQueue, Progress, running, Runner, asleep, launched, find, update, is_finished,
  is_pending, is_waiting, is_running, max_finished_jobs, max_pending_jobs, new_job_queue,
}
use nzbre_x.WebJobs.Calls.{finished_job, finish_locked, set_progress}
use nzbre_x.WebJobs.Jobs.{Between, update-Between, one_if, tally-update, find-update}
use nzbre_x.WebJobs.Drop.{
  drop_finished-Between, tally-drop_finished_other, tally-drop_finished, find-drop_finished,
}

abbrev pub is_launched : Runner → Bool
is_launched (launched _) = true
is_launched _ = false

abbrev pub is_asleep : Runner → Bool
is_asleep asleep = true
is_asleep _ = false

-- The job whose session the runner waits for is the running one.
abbrev pub Runs : Runner → List Job → Type 0
Runs (launched id) js = (j : Job) × (find id js ≡ some j) × (j.status ≡ running)
Runs _ js = Unit {0}

pub record Inv (q : JobQueue) : Type 0 where
  pub ids : Between 1 q.next_id q.jobs
  pub finished : tally is_finished q.jobs ≤ max_finished_jobs
  pub pending : tally is_pending q.jobs ≤ max_pending_jobs
  pub one_running : tally is_running q.jobs ≡ one_if (is_launched q.runner)
  pub runs : Runs q.runner q.jobs
  pub woken : (is_asleep q.runner && not q.wake) ≡ true → tally is_waiting q.jobs ≡ 0

pub new_job_queue-Inv : Inv new_job_queue
unfolding new_job_queue
new_job_queue-Inv = record {
  ids = omega arith;
  finished = omega arith;
  pending = omega arith;
  one_running = refl;
  runs = tt;
  woken = λ h. refl;
}

module _ (progress : ℕ → Progress) where
  pub finished_job-id : (e : Option JobError) (j : Job) → (finished_job progress e j).id ≡ j.id
  unfolding finished_job set_progress
  finished_job-id e j = ground arith

  pub finished_job-finished :
      (e : Option JobError) (j : Job) → is_finished (finished_job progress e j) ≡ true
  unfolding finished_job set_progress
  finished_job-finished e j = ground arith

  -- Finishing an unfinished job takes it out of every count of unfinished jobs, and keeps the
  -- finished ones within their limit.
  pub tally-finish_locked :
      (p : Job → Bool) (id : ℕ) (e : Option JobError) (q : JobQueue) (j : Job)
      → ((i : Job) → (p i && is_finished i) ≡ false)
      → find id q.jobs ≡ some j
      → tally p (finish_locked progress id e q).jobs + one_if (p j) ≡ tally p q.jobs
  unfolding finish_locked
  tally-finish_locked p id e q j apart f = ground (
    arith,
    tally-drop_finished_other p
        (tally is_finished (update id (finished_job progress e) q.jobs) - 50)
        (update id (finished_job progress e) q.jobs) apart,
    tally-update p id (finished_job progress e) q.jobs j f,
    apart (finished_job progress e j),
    finished_job-finished e j,
  )

  pub finish_locked_limit :
      (id : ℕ) (e : Option JobError) (q : JobQueue)
      → tally is_finished (finish_locked progress id e q).jobs ≤ max_finished_jobs
  unfolding finish_locked
  finish_locked_limit id e q =
      let js = update id (finished_job progress e) q.jobs in
      omega (arith, tally-drop_finished (tally is_finished js - 50) js (omega arith))

  pub finish_locked-Between :
      (id : ℕ) (e : Option JobError) (q : JobQueue)
      → Between 1 q.next_id q.jobs
      → Between 1 q.next_id (finish_locked progress id e q).jobs
  unfolding finish_locked
  finish_locked-Between id e q h =
      drop_finished-Between _ 1 q.next_id _
        (update-Between 1 q.next_id id (finished_job progress e) q.jobs (finished_job-id e) h)

  -- Another unfinished job stays as it is.
  pub find-finish_locked :
      (id k : ℕ) (e : Option JobError) (q : JobQueue) (i : Job)
      → (id == k) ≡ false
      → find k q.jobs ≡ some i
      → is_finished i ≡ false
      → find k (finish_locked progress id e q).jobs ≡ some i
  unfolding finish_locked
  find-finish_locked id k e q i ne f u =
      find-drop_finished _ k (update id (finished_job progress e) q.jobs) i
        (find-update id k (finished_job progress e) q.jobs (finished_job-id e) ∙ rw ne f) u

-- What a status is not.
pub pending_apart : (j : Job) → (is_pending j && is_finished j) ≡ false
pending_apart j = ground arith

pub running_apart : (j : Job) → (is_running j && is_finished j) ≡ false
running_apart j = ground arith

pub waiting_apart : (j : Job) → (is_waiting j && is_finished j) ≡ false
waiting_apart j = ground arith
