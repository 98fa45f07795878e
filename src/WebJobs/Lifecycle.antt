-- ===== src/WebJobs/Lifecycle.antt =====
-- webjobs.go: how the status of a job can change in its life.
use nzbre_x.Prelude.{
  ℕ, ◌≡◌, refl, Bool, true, false, Option, none, some, if◌then◌else◌, arith, Bool-cases,
  Option-cases, inl, inr,
}
use nzbre_x.WebJobs.State.{
  Job, JobQueue, Progress, running, Runner, asleep, awake, picked, launched, find, update,
  is_waiting, no_processor, next_waiting,
}
use nzbre_x.WebJobs.Calls.{finish_locked}
use nzbre_x.WebJobs.Machine.{
  wake_up, pick, begin_run, end_run, RunnerStep, wakes_up, picks, begins, ends, runner_step, Move,
  adds, starts, stops, deletes, runs, move,
}
use nzbre_x.WebJobs.Invariant.{Inv, Runs}
use nzbre_x.WebJobs.Edges.{
  edge, update-edge, same_edge, finish_edge, failed_step, running_step, start_edge, add_edge,
  delete_edge, stop_edge,
}

module _ (progress : ℕ → Progress) where
  begin_edge :
      (q : JobQueue) (new_session : Option ℕ) (id k : ℕ) (j i i' : Job)
      → Inv q
      → find id q.jobs ≡ some j
      → is_waiting j ≡ true
      → find k q.jobs ≡ some i
      → find k
          (elim new_session as (λ _. JobQueue) [
            | none ↦ record (finish_locked progress id (some no_processor) q) { runner = awake }
            | some s ↦ record q {
              jobs =
                  update id
                    (λ j. record j { session = some s; session_id = s; status = running })
                    q.jobs;
              runner = launched id;
            }
          ]).jobs
        ≡ some i'
      → edge i.status i'.status ≡ true
  begin_edge q none id k j i i' v e now before later =
      finish_edge progress q id k (some no_processor) j i i' v e
        (ground (arith, now, failed_step progress no_processor j)) before later
  begin_edge q (some s) id k j i i' v e now before later =
      update-edge id k _ q.jobs j i i' (λ x. refl) e (ground (arith, now)) before later

  begin_run-edge :
      (q : JobQueue) (new_session : Option ℕ) (id k : ℕ) (i i' : Job)
      → Inv q
      → find k q.jobs ≡ some i
      → find k (begin_run progress new_session id q).jobs ≡ some i'
      → edge i.status i'.status ≡ true
  unfolding begin_run
  begin_run-edge q s id k i i' v before later = elim (Option-cases (find id q.jobs)) [
    | inl e ↦ same_edge k q.jobs i i' before (rw (e, begin_run) at later)
    | inr (j, e) ↦ elim (Bool-cases (is_waiting j)) [
      | inr gone ↦ same_edge k q.jobs i i' before (rw (e, gone, begin_run) at later)
      | inl now ↦ begin_edge q s id k j i i' v e now before (rw (e, now, begin_run) at later)
    ]
  ]

  pick_edge :
      (q : JobQueue) (n : Option Job) (k : ℕ) (i i' : Job)
      → find k q.jobs ≡ some i
      → find k
          (elim n as (λ _. JobQueue) [
            | none ↦ record q { runner = asleep }
            | some j ↦ record q { runner = picked j.id }
          ]).jobs
        ≡ some i'
      → edge i.status i'.status ≡ true
  pick_edge q none k i i' before later = same_edge k q.jobs i i' before later
  pick_edge q (some j) k i i' before later = same_edge k q.jobs i i' before later

  wake_edge :
      (q : JobQueue) (b : Bool) (k : ℕ) (i i' : Job)
      → find k q.jobs ≡ some i
      → find k (if b then record q { wake = false; runner = awake } else q).jobs ≡ some i'
      → edge i.status i'.status ≡ true
  wake_edge q false k i i' before later = same_edge k q.jobs i i' before later
  wake_edge q true k i i' before later = same_edge k q.jobs i i' before later

  runner_edge :
      (q : JobQueue) (r : Runner) (s : RunnerStep) (k : ℕ) (i i' : Job)
      → Inv q
      → Runs r q.jobs
      → find k q.jobs ≡ some i
      → find k (runner_step progress r s q).jobs ≡ some i'
      → edge i.status i'.status ≡ true
  unfolding runner_step end_run wake_up pick
  runner_edge q asleep wakes_up k i i' v up before later = wake_edge q q.wake k i i' before later
  runner_edge q awake picks k i i' v up before later =
      pick_edge q (next_waiting q.jobs) k i i' before later
  runner_edge q (picked id) (begins s) k i i' v up before later =
      begin_run-edge q s id k i i' v before later
  runner_edge q (launched id) (ends e) k i i' v (j, f, up) before later =
      finish_edge progress q id k e j i i' v f (running_step progress e j up) before later
  runner_edge q asleep picks k i i' v up before later = same_edge k q.jobs i i' before later
  runner_edge q asleep (begins s) k i i' v up before later = same_edge k q.jobs i i' before later
  runner_edge q asleep (ends e) k i i' v up before later = same_edge k q.jobs i i' before later
  runner_edge q awake wakes_up k i i' v up before later = same_edge k q.jobs i i' before later
  runner_edge q awake (begins s) k i i' v up before later = same_edge k q.jobs i i' before later
  runner_edge q awake (ends e) k i i' v up before later = same_edge k q.jobs i i' before later
  runner_edge q (picked id) wakes_up k i i' v up before later = same_edge k q.jobs i i' before later
  runner_edge q (picked id) picks k i i' v up before later = same_edge k q.jobs i i' before later
  runner_edge q (picked id) (ends e) k i i' v up before later = same_edge k q.jobs i i' before later
  runner_edge q (launched id) wakes_up k i i' v up before later =
      same_edge k q.jobs i i' before later
  runner_edge q (launched id) picks k i i' v up before later = same_edge k q.jobs i i' before later
  runner_edge q (launched id) (begins s) k i i' v up before later =
      same_edge k q.jobs i i' before later

-- In a queue that satisfies the invariant, a call of the pages or a step of the runner changes the
-- status of a job that is in the list before and after only along queued → waiting → running →
-- completed or failed and waiting → failed, or not at all: a finished job never changes its status again.
pub status_lifecycle :
    (progress : ℕ → Progress) (q : JobQueue) (m : Move) (k : ℕ) (i i' : Job)
    → Inv q
    → find k q.jobs ≡ some i
    → find k (move progress q m).jobs ≡ some i'
    → edge i.status i'.status ≡ true
unfolding move
status_lifecycle progress q (adds nzb) k i i' v before later =
    add_edge progress q nzb k i i' before later
status_lifecycle progress q (starts id) k i i' v before later =
    start_edge progress q id k i i' before later
status_lifecycle progress q (stops id) k i i' v before later =
    stop_edge progress q id k i i' v before later
status_lifecycle progress q (deletes id) k i i' v before later =
    delete_edge progress q id k i i' v before later
status_lifecycle progress q (runs s) k i i' v before later =
    runner_edge progress q q.runner s k i i' v v.runs before later
