-- ===== src/WebJobs/Views.antt =====
-- webjobs.go: what the pages see of the queue, what the runner takes next, and what a stopped or a
-- finished job ends as.
use nzbre_x.Prelude.{
  ℕ, ◌+◌, ◌≤◌, ◌<◌, ◌≡◌, refl, ap, ◌∙◌, Bool, true, List, [], ◌∷◌, ◌++◌, none, some, if◌then◌else◌,
  ==_iff, tally, arith, Option-cases, inl, inr,
}
use nzbre_x.WebJobs.State.{
  Job, JobQueue, Progress, Status, queued, waiting, running, completed, failed, picked, find,
  update, is_finished, is_waiting, is_running, is_queued, canceled, next_waiting, ok, err,
}
use nzbre_x.WebJobs.Calls.{finished_job, finish_locked, set_progress, stop_job, after}
use nzbre_x.WebJobs.Machine.{pick, end_run}
use nzbre_x.WebJobs.Jobs.{update-Between, find-update, next_waiting-none, next_waiting-find}
use nzbre_x.WebJobs.Invariant.{Inv}
use nzbre_x.Prelude.{add64, u64_mod}
use mathlib.Core.List.{Perm, perm_middle}
use mathlib.Core.List.Perm
use nzbre_x.WebJobs.Moves.{stop_job-Inv}
use nzbre_x.WebJobs.State.{
  Result, job_state, is_finished, stopped, status_running, status_waiting, status_queued,
  status_finished,
}
use nzbre_x.WebJobs.Calls.{listed, list_jobs, snapshot, set_progress}
use nzbre_x.WebJobs.Drop.{kept_was_found}
use nzbre_x.WebJobs.Jobs.{next_waiting_oldest}
use nzbre_x.WebJobs.Invariant.{finished_job-id}

-- A job goes to the front of the group of its status.
cons_group-Perm :
    (s : Status) (x : Job) (rs ws qs fs all : List Job)
    → Perm (rs ++ (ws ++ (qs ++ fs))) all
    → Perm
        ((if status_running s then x ∷ rs else rs)
          ++ ((if status_waiting s then x ∷ ws else ws)
              ++ ((if status_queued s then x ∷ qs else qs)
                  ++ (if status_finished s then x ∷ fs else fs))))
        (x ∷ all)
cons_group-Perm running x rs ws qs fs all p = Perm.cons x p
cons_group-Perm waiting x rs ws qs fs all p =
    Perm.trans (perm_middle rs (ws ++ (qs ++ fs))) (Perm.cons x p)
cons_group-Perm queued x rs ws qs fs all p =
    Perm.trans (Perm.append_left rs (perm_middle ws (qs ++ fs)))
      (Perm.trans (perm_middle rs (ws ++ (qs ++ fs))) (Perm.cons x p))
cons_group-Perm completed x rs ws qs fs all p =
    Perm.trans (Perm.append_left rs (Perm.append_left ws (perm_middle qs fs))) (
      Perm.trans (Perm.append_left rs (perm_middle ws (qs ++ fs)))
        (Perm.trans (perm_middle rs (ws ++ (qs ++ fs))) (Perm.cons x p)))
cons_group-Perm failed x rs ws qs fs all p =
    Perm.trans (Perm.append_left rs (Perm.append_left ws (perm_middle qs fs))) (
      Perm.trans (Perm.append_left rs (perm_middle ws (qs ++ fs)))
        (Perm.trans (perm_middle rs (ws ++ (qs ++ fs))) (Perm.cons x p)))

groups-Perm :
    (progress : ℕ → Progress) (js : List Job)
    → Perm
        (listed progress is_running js
          ++ (listed progress is_waiting js
              ++ (listed progress is_queued js ++ listed progress is_finished js)))
        (listed progress (λ _. true) js)
unfolding listed
groups-Perm progress [] = Perm.nil
groups-Perm progress (j ∷ js) =
    cons_group-Perm j.status (snapshot progress j) (listed progress is_running js)
      (listed progress is_waiting js) (listed progress is_queued js)
      (listed progress is_finished js) (listed progress (λ _. true) js) (groups-Perm progress js)

-- ListJobs shows every job of the queue once: its answer is a permutation of the snapshots of all jobs.
list_jobs-Perm :
    (progress : ℕ → Progress) (q : JobQueue)
    → Perm (list_jobs progress q) (listed progress (λ _. true) q.jobs)
unfolding list_jobs
list_jobs-Perm progress q = groups-Perm progress q.jobs

tally-find :
    (p : Job → Bool) (k : ℕ) (js : List Job) (j : Job)
    → find k js ≡ some j
    → p j ≡ true
    → 1 ≤ tally p js
unfolding find
tally-find p k [] j e h = cc
tally-find p k (x ∷ js) j e h = ground (arith, tally-find p k js j)

-- Awake, with some job waiting, the runner takes a job that is in the list and waits, and no waiting
-- job has a lower ID: the job that was added first.
pub pick_oldest :
    (q : JobQueue) (k : ℕ) (i : Job)
    → Inv q
    → find k q.jobs ≡ some i
    → is_waiting i ≡ true
    → (j : Job) × ((pick q).runner ≡ picked j.id)
      × (find j.id q.jobs ≡ some j)
      × (is_waiting j ≡ true)
      × (j.id ≤ k)
unfolding pick
pick_oldest q k i v f w = elim (Option-cases (next_waiting q.jobs)) [
  | inl e ↦ absurd (omega (arith, tally-find is_waiting k q.jobs i f w, next_waiting-none q.jobs e))
  | inr (j, e) ↦
      let (here, still) = next_waiting-find 1 q.next_id q.jobs j v.ids e in
      (j, rw (e, pick) refl, here, still, next_waiting_oldest 1 q.next_id k q.jobs i j v.ids e f w)
]

-- The counts that a page shows of a session fit together when they are set from published counts that do not
-- overflow: done ≤ processed ≤ total, if that held before.
set_progress-counts :
    (p : Progress) (j : Job)
    → p.done + p.dead + p.notarget < u64_mod
    → j.articles_done ≤ j.articles_processed
    → j.articles_processed ≤ j.total_articles
    → ((set_progress p j).articles_done ≤ (set_progress p j).articles_processed)
      × ((set_progress p j).articles_processed ≤ (set_progress p j).total_articles)
unfolding set_progress u64_mod
set_progress-counts p j small a b =
    let one : add64 p.done p.dead ≡ p.done + p.dead = omega (arith) in
    let two : add64 (p.done + p.dead) p.notarget ≡ p.done + p.dead + p.notarget = omega (arith) in
    rw (one, two) (ground arith)

stop_running :
    (progress : ℕ → Progress) (q : JobQueue) (id : ℕ) (j : Job) (s : Status)
    → s ≡ running
    → (after q (elim s as (λ _. Result JobQueue) [
      | waiting ↦ ok (finish_locked progress id (some canceled) q)
      | running ↦ ok (record q {
        jobs = update id (λ j. record j { stop_requested = true }) q.jobs;
        stopped_sessions = elim j.session [
          | none ↦ q.stopped_sessions
          | some s ↦ s ∷ q.stopped_sessions
        ];
      })
      | _ ↦ err job_state
    ])).jobs
      ≡ update id (λ j. record j { stop_requested = true }) q.jobs
stop_running progress q id j running e = refl
stop_running progress q id j queued e = cc
stop_running progress q id j waiting e = cc
stop_running progress q id j completed e = cc
stop_running progress q id j failed e = cc

find-stop_job :
    (progress : ℕ → Progress) (q : JobQueue) (id : ℕ) (j : Job)
    → find id q.jobs ≡ some j
    → j.status ≡ running
    → find id (after q (stop_job progress id q)).jobs ≡ some (record j { stop_requested = true })
unfolding stop_job
find-stop_job progress q id j f up =
    let jobs' : (after q (stop_job progress id q)).jobs
        ≡ update id (λ j. record j { stop_requested = true }) q.jobs =
      rw (f, stop_job) (stop_running progress q id j j.status up) in
    ap (find id) jobs' ∙ (find-update id id _ q.jobs (λ x. refl) ∙ ground (arith, f, ==_iff id id))

finished_outcome :
    (progress : ℕ → Progress) (j : Job)
    → j.stop_requested ≡ true
    → ((finished_job progress none j).status ≡ failed)
      × ((finished_job progress none j).error ≡ some stopped)
unfolding finished_job
finished_outcome progress j h = rw (h, finished_job) (refl, refl)

-- In a queue that satisfies the invariant, StopJob is called for the running job and its session then ends
-- without an error: the job is failed with the error "stopped", if it is still in the list.
stopped_session :
    (progress : ℕ → Progress) (q : JobQueue) (id : ℕ) (j i : Job)
    → Inv q
    → find id q.jobs ≡ some j
    → j.status ≡ running
    → find id (end_run progress none id (after q (stop_job progress id q))).jobs ≡ some i
    → (i.status ≡ failed) × (i.error ≡ some stopped)
unfolding end_run finish_locked
stopped_session progress q id j i v f up later =
    let q' = after q (stop_job progress id q) in
    let j' : Job = record j { stop_requested = true } in
    let v' : Inv q' = stop_job-Inv progress q id v in
    let in_list =
      kept_was_found _ 1 q'.next_id id (update id (finished_job progress none) q'.jobs) i
        (update-Between 1 q'.next_id id (finished_job progress none) q'.jobs
          (finished_job-id progress none) v'.ids)
        later in
    let found =
      find-update id id (finished_job progress none) q'.jobs (finished_job-id progress none) in
    let one : i ≡ finished_job progress none j' =
      ground (arith, in_list, found, find-stop_job progress q id j f up, ==_iff id id) in
    rw one (finished_outcome progress j' refl)
