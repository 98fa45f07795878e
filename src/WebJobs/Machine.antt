-- ===== src/WebJobs/Machine.antt =====
-- webjobs.go: the runner goroutine as a state machine, and the moves of the pages and the runner.
use nzbre_x.Prelude.{ℕ, false, List, [], ◌∷◌, Option, none, some, if◌then◌else◌}
use nzbre_x.WebJobs.State.{
  running, JobError, no_processor, Progress, Runner, asleep, awake, picked, launched, JobQueue, ok,
  err, is_waiting, find, update, next_waiting,
}
use nzbre_x.WebJobs.Calls.{Nzb, add_job, start_job, finish_locked, stop_job, delete_job, after}

-- `range jq.wake` takes the token; the inner loop takes the oldest waiting job or ends.
unfoldable pub wake_up : JobQueue → JobQueue
wake_up q = if q.wake then record q { wake = false; runner = awake } else q

unfoldable pub pick : JobQueue → JobQueue
unfolding next_waiting
pick q = elim (next_waiting q.jobs) [
  | none ↦ record q { runner = asleep }
  | some j ↦ record q { runner = picked j.id }
]

-- runJob up to `jq.launch`: `new_session` is the number that newSession gives out, `none` where
-- there is no web processor. A job that is gone from the list is not waiting any more.
unfoldable pub begin_run : (ℕ → Progress) → Option ℕ → ℕ → JobQueue → JobQueue
unfolding find update finish_locked
begin_run progress new_session id q = elim (find id q.jobs) [
  | none ↦ record q { runner = awake }
  | some j ↦
      if is_waiting j
      then elim new_session [
        | none ↦ record (finish_locked progress id (some no_processor) q) { runner = awake }
        | some s ↦ record q {
          jobs =
              update id (λ j. record j { session = some s; session_id = s; status = running })
                q.jobs;
          runner = launched id;
        }
      ]
      else record q { runner = awake }
]

-- runJob after the session ended, with its error.
unfoldable pub end_run : (ℕ → Progress) → Option JobError → ℕ → JobQueue → JobQueue
unfolding finish_locked
end_run progress e id q = record (finish_locked progress id e q) { runner = awake }

-- What the runner does next, by where it is; a step that it is not at changes nothing.
pub data RunnerStep : Type 0 where
  wakes_up picks : RunnerStep
  begins : Option ℕ → RunnerStep
  ends : Option JobError → RunnerStep

unfoldable pub runner_step : (ℕ → Progress) → Runner → RunnerStep → JobQueue → JobQueue
unfolding wake_up pick begin_run end_run
runner_step progress asleep wakes_up q = wake_up q
runner_step progress awake picks q = pick q
runner_step progress (picked id) (begins s) q = begin_run progress s id q
runner_step progress (launched id) (ends e) q = end_run progress e id q
runner_step progress _ _ q = q

-- What the pages and the runner do, one at a time.
pub data Move : Type 0 where
  adds : Option Nzb → Move
  starts stops deletes : ℕ → Move
  runs : RunnerStep → Move

unfoldable pub move : (ℕ → Progress) → JobQueue → Move → JobQueue
unfolding add_job start_job stop_job delete_job runner_step
move progress q (adds nzb) = elim (add_job nzb q) [ ok (q', _) ↦ q' | err _ ↦ q ]
move progress q (starts id) = after q (start_job id q)
move progress q (stops id) = after q (stop_job progress id q)
move progress q (deletes id) = after q (delete_job id q)
move progress q (runs s) = runner_step progress q.runner s q

unfoldable pub run_moves : (ℕ → Progress) → JobQueue → List Move → JobQueue
unfolding move
run_moves progress q [] = q
run_moves progress q (m ∷ ms) = run_moves progress (move progress q m) ms
