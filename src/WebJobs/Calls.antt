-- ===== src/WebJobs/Calls.antt =====
-- webjobs.go: the methods that the pages call, and finishLocked, each under the lock for its whole body.
use nzbre_x.Prelude.{
  ℕ, ◌+◌, ◌-◌, min, Bool, true, false, ◌&&◌, ◌||◌, List, [], ◌∷◌, ◌++◌, Option, none, some,
  if◌then◌else◌, ltb, leb, ◌==◌, tally, add64,
}
use nzbre_x.WebJobs.State.{
  queued, waiting, running, completed, failed, JobError, canceled, stopped, Job, Progress, JobQueue,
  invalid_nzb, job_not_found, job_state, queue_full, Result, ok, err, max_pending_jobs,
  max_finished_jobs, is_finished, is_pending, is_waiting, is_running, is_queued, find, update,
  remove,
}

-- The NZB that `loadNzbFile` read: its path, its segments and its bytes.
pub record Nzb : Type 0 where
  pub path : ℕ
  pub segments : ℕ
  pub bytes : ℕ

unfoldable pub add_job : Option Nzb → JobQueue → Result (JobQueue × ℕ)
add_job none q = err invalid_nzb
add_job (some nzb) q =
    if leb max_pending_jobs (tally is_pending q.jobs)
    then err queue_full
    else ok (record q { next_id = q.next_id + 1; jobs = q.jobs ++ job ∷ [] }, q.next_id)
  where
    job : Job
    job = record {
      id = q.next_id;
      nzb_path = nzb.path;
      status = queued;
      error = none;
      total_articles = nzb.segments;
      articles_processed = 0;
      articles_done = 0;
      articles_cached = 0;
      articles_dead = 0;
      total_size = nzb.bytes;
      session_id = 0;
      session = none;
      stop_requested = false;
    }

-- Job.Progress is the quotient of `articles_processed` and `total_articles`, a float, left out.
unfoldable pub set_progress : Progress → Job → Job
set_progress p j = if p.total == 0 then j else record j {
  total_articles = p.total;
  articles_done = min p.done p.total;
  articles_processed = min (add64 (add64 p.done p.dead) p.notarget) p.total;
  articles_cached = p.cached;
  articles_dead = p.dead;
}

unfoldable pub snapshot : (ℕ → Progress) → Job → Job
unfolding set_progress
snapshot progress j =
    let c = record j { session = none } in
    if is_running j then elim j.session [ none ↦ c | some s ↦ set_progress (progress s) c ] else c

unfoldable pub get_job : (ℕ → Progress) → ℕ → JobQueue → Option Job
unfolding find snapshot
get_job progress id q = elim (find id q.jobs) [ none ↦ none | some j ↦ some (snapshot progress j) ]

-- The snapshots of the jobs that pass a test, in the queue's order.
unfoldable pub listed : (ℕ → Progress) → (Job → Bool) → List Job → List Job
unfolding snapshot
listed progress p [] = []
listed progress p (j ∷ js) =
    let rest = listed progress p js in if p j then snapshot progress j ∷ rest else rest

unfoldable pub list_jobs : (ℕ → Progress) → JobQueue → List Job
unfolding listed
list_jobs progress q =
    listed progress is_running q.jobs
    ++ (listed progress is_waiting q.jobs
        ++ (listed progress is_queued q.jobs ++ listed progress is_finished q.jobs))

unfoldable pub running_jobs : (ℕ → Progress) → JobQueue → List Job
unfolding listed
running_jobs progress q = listed progress is_running q.jobs

unfoldable pub start_job : ℕ → JobQueue → Result JobQueue
unfolding find update
start_job id q = elim (find id q.jobs) [
  | none ↦ err job_not_found
  | some j ↦
      if is_queued j
      then ok
          (record q { jobs = update id (λ j. record j { status = waiting }) q.jobs; wake = true })
      else err job_state
]

-- Dropping the oldest finished jobs, as many as there are beyond the limit.
unfoldable pub drop_finished : ℕ → List Job → List Job
drop_finished d [] = []
drop_finished d (j ∷ js) = elim (ltb 0 d && is_finished j) [
  | true ↦ drop_finished (d - 1) js
  | false ↦ j ∷ drop_finished d js
]

abbrev pub outcome : Bool → Option JobError → Option JobError
outcome stop_requested (some e) = some e
outcome stop_requested none = if stop_requested then some stopped else none

-- The result that finishLocked records in the job.
unfoldable pub finished_job : (ℕ → Progress) → Option JobError → Job → Job
unfolding set_progress
finished_job progress e j =
    let j' : Job = elim j.session [
      | none ↦ j
      | some s ↦ record (set_progress (progress s) j) { session = none }
    ] in
    elim (outcome j.stop_requested e) [
      | none ↦ record j' { status = completed }
      | some e' ↦ record j' { status = failed; error = some e' }
    ]

unfoldable pub finish_locked : (ℕ → Progress) → ℕ → Option JobError → JobQueue → JobQueue
unfolding find update drop_finished finished_job
finish_locked progress id e q =
    let jobs' = update id (finished_job progress e) q.jobs in
    record q {
      jobs = drop_finished (tally is_finished jobs' - max_finished_jobs) jobs';
      removed = elim (find id q.jobs) [ none ↦ q.removed | some j ↦ j.nzb_path ∷ q.removed ];
    }

unfoldable pub stop_job : (ℕ → Progress) → ℕ → JobQueue → Result JobQueue
unfolding find update finish_locked
stop_job progress id q = elim (find id q.jobs) [
  | none ↦ err job_not_found
  | some j ↦ elim j.status [
    | waiting ↦ ok (finish_locked progress id (some canceled) q)
    | running ↦ ok (record q {
      jobs = update id (λ j. record j { stop_requested = true }) q.jobs;
      stopped_sessions = elim j.session [
        | none ↦ q.stopped_sessions
        | some s ↦ s ∷ q.stopped_sessions
      ];
    })
    | _ ↦ err job_state
  ]
]

unfoldable pub delete_job : ℕ → JobQueue → Result JobQueue
unfolding find remove
delete_job id q = elim (find id q.jobs) [
  | none ↦ err job_not_found
  | some j ↦
      if is_queued j || is_finished j
      then ok (record q { jobs = remove id q.jobs; removed = j.nzb_path ∷ q.removed })
      else err job_state
]

-- StartAllQueued and stopAll call StartJob and StopJob for the IDs that they found, one by one.
abbrev pub after : JobQueue → Result JobQueue → JobQueue
after q (ok q') = q'
after q (err _) = q

abbrev pub ids_of : (Job → Bool) → List Job → List ℕ
ids_of p [] = []
ids_of p (j ∷ js) = if p j then j.id ∷ ids_of p js else ids_of p js

unfoldable pub start_each : List ℕ → JobQueue → JobQueue × ℕ
unfolding start_job
start_each [] q = (q, 0)
start_each (id ∷ ids) q =
    let (q', n) = start_each ids (after q (start_job id q)) in
    (q', elim (start_job id q) [ ok _ ↦ n + 1 | err _ ↦ n ])

unfoldable pub start_all_queued : JobQueue → JobQueue × ℕ
unfolding start_each
start_all_queued q = start_each (ids_of is_queued q.jobs) q

unfoldable pub stop_each : (ℕ → Progress) → List ℕ → JobQueue → JobQueue
unfolding stop_job
stop_each progress [] q = q
stop_each progress (id ∷ ids) q = stop_each progress ids (after q (stop_job progress id q))

unfoldable pub stop_all : (ℕ → Progress) → JobQueue → JobQueue
unfolding stop_each
stop_all progress q = stop_each progress (ids_of (λ j. is_waiting j || is_running j) q.jobs) q
