-- ===== src/WebJobs/Steps.antt =====
-- webjobs.go: AddJob, DeleteJob and the steps of the runner, under the invariant of the queue.
use nzbre_x.Prelude.{
  ℕ, ◌+◌, ◌<◌, ◌≡◌, refl, ap, ◌∙◌, Bool, true, false, ◌||◌, [], ◌∷◌, ◌++◌, Option, none, some,
  if◌then◌else◌, leb, ==_iff, tally, tally-append, arith, Bool-cases, Option-cases, inl, inr,
}
use nzbre_x.WebJobs.State.{
  Job, JobError, JobQueue, Progress, queued, running, Runner, asleep, awake, picked, launched, find,
  update, is_finished, is_pending, is_waiting, is_running, is_queued, no_processor,
  max_pending_jobs, next_waiting,
}
use nzbre_x.WebJobs.Calls.{finish_locked, Nzb, add_job, delete_job, after}
use nzbre_x.WebJobs.Machine.{
  wake_up, pick, begin_run, end_run, RunnerStep, wakes_up, picks, begins, ends, runner_step, adds,
  move,
}
use nzbre_x.WebJobs.Jobs.{
  append-Between, update-Between, remove-Between, one_if, tally-update, tally-remove, find-update,
  next_waiting-none,
}
use nzbre_x.WebJobs.Invariant.{
  Inv, Runs, is_launched, tally-finish_locked, finish_locked_limit, finish_locked-Between,
  pending_apart, running_apart,
}
use nzbre_x.WebJobs.Moves.{Runs-append, Runs-remove, finish_idle-Inv}

append-Inv :
    (q : JobQueue) (j : Job)
    → j.id ≡ q.next_id
    → j.status ≡ queued
    → tally is_pending q.jobs < max_pending_jobs
    → Inv q
    → Inv (record q { next_id = q.next_id + 1; jobs = q.jobs ++ j ∷ [] })
append-Inv q j id new room v = record {
  ids = append-Between 1 q.next_id q.jobs j id v.ids;
  finished = ground (arith, tally-append is_finished q.jobs (j ∷ []), new, v.finished);
  pending = ground (arith, tally-append is_pending q.jobs (j ∷ []), new, room);
  one_running = ground (arith, tally-append is_running q.jobs (j ∷ []), new, v.one_running);
  runs = Runs-append q.runner q.jobs j v.runs;
  woken = λ h. ground (arith, tally-append is_waiting q.jobs (j ∷ []), new, v.woken h);
}

pub add_job-Inv :
    (progress : ℕ → Progress) (q : JobQueue) (nzb : Option Nzb)
    → Inv q
    → Inv (move progress q (adds nzb))
unfolding add_job move
add_job-Inv progress q none v = v
add_job-Inv progress q (some nzb) v =
    elim (Bool-cases (leb max_pending_jobs (tally is_pending q.jobs))) [
      | inl full ↦ rw (full, move, add_job) v
      | inr room ↦ rw (room, move, add_job) (append-Inv q _ refl refl (ground (arith, room)) v)
    ]

pub delete_job-Inv : (q : JobQueue) (id : ℕ) → Inv q → Inv (after q (delete_job id q))
unfolding delete_job
delete_job-Inv q id v = elim (Option-cases (find id q.jobs)) [
  | inl e ↦ rw (e, delete_job) v
  | inr (j, e) ↦ elim (Bool-cases (is_queued j || is_finished j)) [
    | inr busy ↦ rw (e, delete_job) (rw (busy, delete_job) v)
    | inl idle ↦
        rw (e, delete_job)
          (rw (idle, delete_job)
            (record {
              ids = remove-Between 1 q.next_id id q.jobs v.ids;
              finished = omega (arith, tally-remove is_finished id q.jobs j e, v.finished);
              pending = omega (arith, tally-remove is_pending id q.jobs j e, v.pending);
              one_running =
                  ground (arith, tally-remove is_running id q.jobs j e, v.one_running, idle);
              runs =
                  Runs-remove q.runner id 1 q.next_id q.jobs j v.ids e (ground (arith, idle))
                    v.runs;
              woken = λ h. omega (arith, tally-remove is_waiting id q.jobs j e, v.woken h);
            }))
  ]
]

woken_runner-Inv :
    (q : JobQueue) (b : Bool)
    → Inv q
    → q.runner ≡ asleep
    → q.wake ≡ b
    → Inv (if b then record q { wake = false; runner = awake } else q)
woken_runner-Inv q false v at e = v
woken_runner-Inv q true v at e = record {
  ids = v.ids;
  finished = v.finished;
  pending = v.pending;
  one_running = v.one_running ∙ ap (λ r. one_if (is_launched r)) at;
  runs = tt;
  woken = λ h. ground (arith, h);
}

wake_up-Inv : (q : JobQueue) → Inv q → q.runner ≡ asleep → Inv (wake_up q)
unfolding wake_up
wake_up-Inv q v at = woken_runner-Inv q q.wake v at refl

picked_job-Inv :
    (q : JobQueue) (n : Option Job)
    → Inv q
    → q.runner ≡ awake
    → next_waiting q.jobs ≡ n
    → Inv (elim n [
      | none ↦ record q { runner = asleep }
      | some j ↦ record q { runner = picked j.id }
    ])
picked_job-Inv q none v at e = record {
  ids = v.ids;
  finished = v.finished;
  pending = v.pending;
  one_running = v.one_running ∙ ap (λ r. one_if (is_launched r)) at;
  runs = tt;
  woken = λ h. next_waiting-none q.jobs e;
}
picked_job-Inv q (some j) v at e = record {
  ids = v.ids;
  finished = v.finished;
  pending = v.pending;
  one_running = v.one_running ∙ ap (λ r. one_if (is_launched r)) at;
  runs = tt;
  woken = λ h. ground (arith, h);
}

pick-Inv : (q : JobQueue) → Inv q → q.runner ≡ awake → Inv (pick q)
unfolding pick
pick-Inv q v at = picked_job-Inv q (next_waiting q.jobs) v at refl

-- The runner goes back to its loop, once no job runs.
back-Inv : (q : JobQueue) → Inv q → is_launched q.runner ≡ false → Inv (record q { runner = awake })
back-Inv q v idle = record {
  ids = v.ids;
  finished = v.finished;
  pending = v.pending;
  one_running = v.one_running ∙ ap one_if idle;
  runs = tt;
  woken = λ h. ground (arith, h);
}

-- finishLocked leaves the runner alone.
finish_locked-runner :
    (progress : ℕ → Progress) (id : ℕ) (e : Option JobError) (q : JobQueue)
    → (finish_locked progress id e q).runner ≡ q.runner
unfolding finish_locked
finish_locked-runner progress id e q = refl

launch-Inv :
    (q : JobQueue) (id s : ℕ) (j : Job) (f : Job → Job)
    → ((i : Job) → (f i).id ≡ i.id)
    → ((i : Job) → (f i).status ≡ running)
    → find id q.jobs ≡ some j
    → is_waiting j ≡ true
    → is_launched q.runner ≡ false
    → Inv q
    → Inv (record q { jobs = update id f q.jobs; runner = launched id })
launch-Inv q id s j f same up e now idle v = record {
  ids = update-Between 1 q.next_id id f q.jobs same v.ids;
  finished = ground (arith, tally-update is_finished id f q.jobs j e, up j, now, v.finished);
  pending = ground (arith, tally-update is_pending id f q.jobs j e, up j, now, v.pending);
  one_running =
      ground (arith, tally-update is_running id f q.jobs j e, up j, now, idle, v.one_running);
  runs = (f j, find-update id id f q.jobs same ∙ ground (arith, e, ==_iff id id), up j);
  woken = λ h. ground (arith, h);
}

begin_run-Inv :
    (progress : ℕ → Progress) (new_session : Option ℕ) (id : ℕ) (q : JobQueue)
    → Inv q
    → is_launched q.runner ≡ false
    → Inv (begin_run progress new_session id q)
unfolding begin_run
begin_run-Inv progress new_session id q v idle = elim (Option-cases (find id q.jobs)) [
  | inl e ↦ rw (e, begin_run) (back-Inv q v idle)
  | inr (j, e) ↦ elim (Bool-cases (is_waiting j)) [
    | inr gone ↦ rw (e, begin_run) (rw (gone, begin_run) (back-Inv q v idle))
    | inl now ↦ rw (e, begin_run) (rw (now, begin_run) (launched_or_not new_session j e now))
  ]
]
  where
    launched_or_not :
        (n : Option ℕ) (j : Job)
        → find id q.jobs ≡ some j
        → is_waiting j ≡ true
        → Inv (elim n [
          | none ↦ record (finish_locked progress id (some no_processor) q) { runner = awake }
          | some s ↦ record q {
            jobs =
                update id
                  (λ j. record j { session = some s; session_id = s; status = running })
                  q.jobs;
            runner = launched id;
          }
        ])
    launched_or_not none j e now =
        back-Inv _ (finish_idle-Inv progress q id (some no_processor) j e (ground (arith, now)) v)
          (ap is_launched (finish_locked-runner progress id (some no_processor) q) ∙ idle)
    launched_or_not (some s) j e now = launch-Inv q id s j _ (λ i. refl) (λ i. refl) e now idle v

end_run-Inv :
    (progress : ℕ → Progress) (e : Option JobError) (id : ℕ) (q : JobQueue)
    → Inv q
    → q.runner ≡ launched id
    → Runs (launched id) q.jobs
    → Inv (end_run progress e id q)
unfolding end_run finish_locked
end_run-Inv progress e id q v at (j, f, up) = record {
  ids = finish_locked-Between progress id e q v.ids;
  finished = finish_locked_limit progress id e q;
  pending =
      omega (arith, tally-finish_locked progress is_pending id e q j pending_apart f, v.pending);
  one_running =
      let one : tally is_running q.jobs ≡ 1 = v.one_running ∙ ap (λ r. one_if (is_launched r)) at in
      ground (arith, tally-finish_locked progress is_running id e q j running_apart f, up, one);
  runs = tt;
  woken = λ h. ground (arith, h);
}

pub runner_step-Inv :
    (progress : ℕ → Progress) (r : Runner) (s : RunnerStep) (q : JobQueue)
    → q.runner ≡ r
    → Runs r q.jobs
    → Inv q
    → Inv (runner_step progress r s q)
unfolding runner_step
runner_step-Inv progress asleep wakes_up q at up v = wake_up-Inv q v at
runner_step-Inv progress awake picks q at up v = pick-Inv q v at
runner_step-Inv progress (picked id) (begins s) q at up v =
    begin_run-Inv progress s id q v (ap is_launched at)
runner_step-Inv progress (launched id) (ends e) q at up v = end_run-Inv progress e id q v at up
runner_step-Inv progress asleep picks q at up v = v
runner_step-Inv progress asleep (begins s) q at up v = v
runner_step-Inv progress asleep (ends e) q at up v = v
runner_step-Inv progress awake wakes_up q at up v = v
runner_step-Inv progress awake (begins s) q at up v = v
runner_step-Inv progress awake (ends e) q at up v = v
runner_step-Inv progress (picked id) wakes_up q at up v = v
runner_step-Inv progress (picked id) picks q at up v = v
runner_step-Inv progress (picked id) (ends e) q at up v = v
runner_step-Inv progress (launched id) wakes_up q at up v = v
runner_step-Inv progress (launched id) picks q at up v = v
runner_step-Inv progress (launched id) (begins s) q at up v = v
