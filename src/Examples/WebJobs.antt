-- ===== src/Examples/WebJobs.antt =====
-- webjobs.go at concrete inputs.
use nzbre_x.Prelude.{ℕ, ◌*◌, ◌≤◌, ◌≡◌, refl, true, false, List, [], ◌∷◌, none, some}
use nzbre_x.WebJobs.State.{
  Job, JobQueue, Progress, Status, queued, waiting, running, failed, picked, find, update, remove,
  stopped, is_waiting, next_waiting, new_job_queue,
}
use nzbre_x.WebJobs.Calls.{
  drop_finished, finished_job, finish_locked, Nzb, add_job, start_job, stop_job, delete_job, after,
}
use nzbre_x.WebJobs.Machine.{
  wake_up, pick, begin_run, wakes_up, picks, begins, runner_step, Move, adds, starts, stops, runs,
  move, run_moves,
}
use nzbre_x.WebJobs.Invariant.{Inv, new_job_queue-Inv}
use nzbre_x.WebJobs.Traces.{run_moves-Inv}
use nzbre_x.WebJobs.Edges.{edge}
use nzbre_x.WebJobs.Lifecycle.{status_lifecycle}
use nzbre_x.WebJobs.Views.{pick_oldest}

abbrev counts : ℕ → Progress
counts s = record { total = 4; done = 2; dead = 1; notarget = 0; cached = 2 }

abbrev nzb : ℕ → Nzb
nzb n = record { path = n; segments = 4; bytes = 3000 }

-- Three jobs are added, the second and then the first are started, and the runner wakes up.
abbrev started : List Move
started =
    adds (some (nzb 10))
    ∷ adds (some (nzb 20))
    ∷ adds (some (nzb 30))
    ∷ starts 2
    ∷ starts 1
    ∷ runs wakes_up
    ∷ []

two_waiting : JobQueue
unfolding run_moves move add_job start_job find update runner_step wake_up new_job_queue
two_waiting = run_moves counts new_job_queue started

two_waiting-Inv : Inv two_waiting
unfolding two_waiting
two_waiting-Inv = run_moves-Inv counts new_job_queue started new_job_queue-Inv

run_moves-Inv_example : Inv (run_moves counts new_job_queue started)
run_moves-Inv_example = run_moves-Inv counts new_job_queue started new_job_queue-Inv

abbrev job : ℕ → Status → Job
job n s = record {
  id = n;
  nzb_path = n * 10;
  status = s;
  error = none;
  total_articles = 4;
  articles_processed = 0;
  articles_done = 0;
  articles_cached = 0;
  articles_dead = 0;
  total_size = 3000;
  session_id = 0;
  session = none;
  stop_requested = false;
}

two_waiting_test : two_waiting.jobs ≡ job 1 waiting ∷ job 2 waiting ∷ job 3 queued ∷ []
unfolding two_waiting
two_waiting_test = refl

pick_oldest_example :
    (j : Job) × ((pick two_waiting).runner ≡ picked j.id)
    × (find j.id two_waiting.jobs ≡ some j)
    × (is_waiting j ≡ true)
    × (j.id ≤ 2)
unfolding two_waiting
pick_oldest_example = pick_oldest two_waiting 2 (job 2 waiting) two_waiting-Inv refl refl

status_lifecycle_example : edge waiting failed ≡ true
unfolding two_waiting move stop_job finish_locked finished_job drop_finished
status_lifecycle_example =
    status_lifecycle counts two_waiting (stops 2) 2 (job 2 waiting) _ two_waiting-Inv refl refl

-- The first job's session runs.
one_runs : JobQueue
unfolding two_waiting run_moves move runner_step pick next_waiting begin_run
one_runs = run_moves counts two_waiting (runs picks ∷ runs (begins (some 7)) ∷ [])

one_runs-Inv : Inv one_runs
unfolding one_runs
one_runs-Inv =
    run_moves-Inv counts two_waiting (runs picks ∷ runs (begins (some 7)) ∷ []) two_waiting-Inv

abbrev running_job : Job
running_job = record (job 1 running) { session = some 7; session_id = 7 }

abbrev stopped_job : Job
stopped_job = record (job 1 failed) {
  session_id = 7;
  stop_requested = true;
  error = some stopped;
  articles_done = 2;
  articles_processed = 3;
  articles_cached = 2;
  articles_dead = 1;
}

without_third : JobQueue
unfolding one_runs delete_job remove
without_third = after one_runs (delete_job 3 one_runs)
