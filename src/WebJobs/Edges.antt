-- ===== src/WebJobs/Edges.antt =====
-- webjobs.go: how the calls of the pages, and the end of a job, change the status of one job.
use nzbre_x.Prelude.{
  ℕ, ◌≡◌, refl, sym, ◌∙◌, Bool, true, false, ◌||◌, List, ◌∷◌, Option, none, some, leb, ◌==◌, tally,
  arith, Bool-cases, Option-cases, inl, inr,
}
use nzbre_x.WebJobs.State.{
  Job, JobError, JobQueue, Progress, Status, queued, waiting, running, completed, failed, find,
  update, remove, is_finished, is_pending, is_queued, canceled, max_pending_jobs, job_state, ok,
  err,
}
use nzbre_x.WebJobs.Calls.{
  finished_job, finish_locked, Nzb, add_job, start_job, stop_job, delete_job, after,
}
use nzbre_x.WebJobs.Machine.{adds, move}
use nzbre_x.WebJobs.Jobs.{update-Between, find-update, find-remove}
use nzbre_x.WebJobs.Invariant.{Inv}
use nzbre_x.WebJobs.Drop.{kept_was_found}
use nzbre_x.WebJobs.Invariant.{finished_job-id}
use nzbre_x.WebJobs.Moves.{same_job, find-append}

-- queued → waiting → running → finished, and waiting → failed; nothing leads back.
abbrev pub edge : Status → Status → Bool
edge queued queued = true
edge queued waiting = true
edge waiting waiting = true
edge waiting running = true
edge waiting failed = true
edge running running = true
edge running completed = true
edge running failed = true
edge completed completed = true
edge failed failed = true
edge _ _ = false

pub edge_refl : (s : Status) → edge s s ≡ true
edge_refl s = ground arith

-- One job changes along an edge, and every other job stays.
pub update-edge :
    (id k : ℕ) (f : Job → Job) (js : List Job) (j i i' : Job)
    → ((x : Job) → (f x).id ≡ x.id)
    → find id js ≡ some j
    → edge j.status (f j).status ≡ true
    → find k js ≡ some i
    → find k (update id f js) ≡ some i'
    → edge i.status i'.status ≡ true
update-edge id k f js j i i' same e step before later = elim (Bool-cases (id == k)) [
  | inl here ↦
      let one : i ≡ j = same_job id k js i j here e before in
      let now : some (f i) ≡ some i' =
        sym (find-update id k f js same ∙ rw (here, before) refl) ∙ later in
      ground (arith, one, now, step)
  | inr other ↦
      let now : some i ≡ some i' =
        sym (find-update id k f js same ∙ rw (other, before) refl) ∙ later in
      ground (arith, now, edge_refl i.status)
]

pub same_edge :
    (k : ℕ) (js : List Job) (i i' : Job)
    → find k js ≡ some i
    → find k js ≡ some i'
    → edge i.status i'.status ≡ true
same_edge k js i i' before later =
    let now : some i ≡ some i' = sym before ∙ later in ground (arith, now, edge_refl i.status)

module _ (progress : ℕ → Progress) where
  -- Who finishes was waiting and is failed, or was running.
  pub finish_edge :
      (q : JobQueue) (id k : ℕ) (e : Option JobError) (j i i' : Job)
      → Inv q
      → find id q.jobs ≡ some j
      → edge j.status (finished_job progress e j).status ≡ true
      → find k q.jobs ≡ some i
      → find k (finish_locked progress id e q).jobs ≡ some i'
      → edge i.status i'.status ≡ true
  unfolding finish_locked
  finish_edge q id k e j i i' v f step before later =
      let js = update id (finished_job progress e) q.jobs in
      update-edge id k (finished_job progress e) q.jobs j i i' (finished_job-id progress e) f step
        before
        (kept_was_found _ 1 q.next_id k js i'
          (update-Between 1 q.next_id id (finished_job progress e) q.jobs
            (finished_job-id progress e) v.ids)
          later)

  pub failed_step : (e : JobError) (j : Job) → (finished_job progress (some e) j).status ≡ failed
  unfolding finished_job
  failed_step e j = refl

  pub running_step :
      (e : Option JobError) (j : Job)
      → j.status ≡ running
      → edge j.status (finished_job progress e j).status ≡ true
  unfolding finished_job
  running_step e j h = ground arith

  -- A job that is found before and after a call changed along an edge.
  pub start_edge :
      (q : JobQueue) (id k : ℕ) (i i' : Job)
      → find k q.jobs ≡ some i
      → find k (after q (start_job id q)).jobs ≡ some i'
      → edge i.status i'.status ≡ true
  unfolding start_job
  start_edge q id k i i' before later = elim (Option-cases (find id q.jobs)) [
    | inl e ↦ same_edge k q.jobs i i' before (rw (e, start_job) at later)
    | inr (j, e) ↦ elim (Bool-cases (is_queued j)) [
      | inr busy ↦ same_edge k q.jobs i i' before (rw (e, busy, start_job) at later)
      | inl now ↦
          update-edge id k (λ x. record x { status = waiting }) q.jobs j i i' (λ x. refl) e
            (ground (arith, now)) before (rw (e, now, start_job) at later)
    ]
  ]

  pub add_edge :
      (q : JobQueue) (nzb : Option Nzb) (k : ℕ) (i i' : Job)
      → find k q.jobs ≡ some i
      → find k (move progress q (adds nzb)).jobs ≡ some i'
      → edge i.status i'.status ≡ true
  unfolding move add_job
  add_edge q none k i i' before later = same_edge k q.jobs i i' before later
  add_edge q (some nzb) k i i' before later =
      elim (Bool-cases (leb max_pending_jobs (tally is_pending q.jobs))) [
        | inl full ↦ same_edge k q.jobs i i' before (rw (full, move, add_job) at later)
        | inr room ↦
            let found = find-append k q.jobs i _ before in
            same_edge k _ i i' found (rw (room, move, add_job) at later)
      ]

  pub delete_edge :
      (q : JobQueue) (id k : ℕ) (i i' : Job)
      → Inv q
      → find k q.jobs ≡ some i
      → find k (after q (delete_job id q)).jobs ≡ some i'
      → edge i.status i'.status ≡ true
  unfolding delete_job
  delete_edge q id k i i' v before later = elim (Option-cases (find id q.jobs)) [
    | inl e ↦ same_edge k q.jobs i i' before (rw (e, delete_job) at later)
    | inr (j, e) ↦ elim (Bool-cases (is_queued j || is_finished j)) [
      | inr busy ↦ same_edge k q.jobs i i' before (rw (e, busy, delete_job) at later)
      | inl now ↦
          let left : find k (remove id q.jobs) ≡ some i' = rw (e, now, delete_job) at later in
          same_edge k q.jobs i i' before
            (ground (arith, left, find-remove 1 q.next_id id k q.jobs v.ids))
    ]
  ]

  pub stop_found_edge :
      (q : JobQueue) (id k : ℕ) (j i i' : Job) (s : Status)
      → Inv q
      → find id q.jobs ≡ some j
      → j.status ≡ s
      → find k q.jobs ≡ some i
      → find k
          (after q (elim s [
            | waiting ↦ ok (finish_locked progress id (some canceled) q)
            | running ↦ ok (record q {
              jobs = update id (λ j. record j { stop_requested = true }) q.jobs;
              stopped_sessions = elim j.session [
                | none ↦ q.stopped_sessions
                | some s ↦ s ∷ q.stopped_sessions
              ];
            })
            | _ ↦ err job_state
          ])).jobs
        ≡ some i'
      → edge i.status i'.status ≡ true
  stop_found_edge q id k j i i' waiting v f e before later =
      finish_edge q id k (some canceled) j i i' v f (ground (arith, e, failed_step canceled j))
        before later
  stop_found_edge q id k j i i' running v f e before later =
      update-edge id k _ q.jobs j i i' (λ x. refl) f (edge_refl j.status) before later
  stop_found_edge q id k j i i' queued v f e before later = same_edge k q.jobs i i' before later
  stop_found_edge q id k j i i' completed v f e before later = same_edge k q.jobs i i' before later
  stop_found_edge q id k j i i' failed v f e before later = same_edge k q.jobs i i' before later

  pub stop_edge :
      (q : JobQueue) (id k : ℕ) (i i' : Job)
      → Inv q
      → find k q.jobs ≡ some i
      → find k (after q (stop_job progress id q)).jobs ≡ some i'
      → edge i.status i'.status ≡ true
  unfolding stop_job
  stop_edge q id k i i' v before later = elim (Option-cases (find id q.jobs)) [
    | inl e ↦ same_edge k q.jobs i i' before (rw (e, stop_job) at later)
    | inr (j, e) ↦
        stop_found_edge q id k j i i' j.status v e refl before (rw (e, stop_job) at later)
  ]
