-- ===== src/WebJobs/Traces.antt =====
-- webjobs.go: sequences of calls of the pages and steps of the runner.
use nzbre_x.Prelude.{ℕ, refl, List, [], ◌∷◌}
use nzbre_x.WebJobs.State.{JobQueue, Progress}
use nzbre_x.WebJobs.Machine.{Move, adds, starts, stops, deletes, runs, move, run_moves}
use nzbre_x.WebJobs.Invariant.{Inv}
use nzbre_x.WebJobs.Moves.{start_job-Inv, stop_job-Inv}
use nzbre_x.WebJobs.Steps.{add_job-Inv, delete_job-Inv, runner_step-Inv}

pub move-Inv : (progress : ℕ → Progress) (q : JobQueue) (m : Move) → Inv q → Inv (move progress q m)
unfolding move
move-Inv progress q (adds nzb) v = add_job-Inv progress q nzb v
move-Inv progress q (starts id) v = start_job-Inv q id v
move-Inv progress q (stops id) v = stop_job-Inv progress q id v
move-Inv progress q (deletes id) v = delete_job-Inv q id v
move-Inv progress q (runs s) v = runner_step-Inv progress q.runner s q refl v.runs v

-- From any queue that satisfies the invariant, any sequence of calls of the pages (add, start,
-- stop, delete) and steps of the runner ends in one that satisfies it: the IDs are distinct, growing and below the next one,
-- at most 50 finished and 1000 pending jobs are kept, a job is running exactly while the runner
-- waits for its session, and a runner that sleeps without a wakeup has no job to start.
pub run_moves-Inv :
    (progress : ℕ → Progress) (q : JobQueue) (ms : List Move)
    → Inv q
    → Inv (run_moves progress q ms)
unfolding run_moves
run_moves-Inv progress q [] v = v
run_moves-Inv progress q (m ∷ ms) v =
    run_moves-Inv progress (move progress q m) ms (move-Inv progress q m v)
