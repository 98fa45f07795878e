-- ===== src/WebJobs/Removal.antt =====
-- webjobs.go: which jobs leave the list, at DeleteJob and when a job finishes.
use nzbre_x.Prelude.{
  ℕ, ◌-◌, ◌≡◌, sym, ap, ◌∙◌, true, not, ◌||◌, ◌∷◌, Option, none, some, if◌then◌else◌, ◌==◌, tally,
  keep, drop, Bool-cases, Option-cases, inl, inr,
}
use nzbre_x.WebJobs.State.{
  Job, JobError, JobQueue, Progress, find, update, remove, is_finished, is_queued, Error,
  max_finished_jobs, ok, err,
}
use nzbre_x.WebJobs.Calls.{finished_job, finish_locked, delete_job}
use nzbre_x.WebJobs.Jobs.{find-remove}
use nzbre_x.WebJobs.Invariant.{Inv}
use nzbre_x.Prelude.{tally}
use nzbre_x.WebJobs.Drop.{keep-drop_finished}

-- Finishing a job leaves the unfinished jobs as they are and in their order, and of the finished jobs, the
-- one just finished included, it drops those that stand first in the list, as many as there are beyond 50.
keep-finish_locked :
    (progress : ℕ → Progress) (id : ℕ) (e : Option JobError) (q : JobQueue)
    → (keep (λ j. not (is_finished j)) (finish_locked progress id e q).jobs
        ≡ keep (λ j. not (is_finished j)) (update id (finished_job progress e) q.jobs))
      × (keep is_finished (finish_locked progress id e q).jobs
          ≡ drop
              (tally is_finished (update id (finished_job progress e) q.jobs) - max_finished_jobs)
              (keep is_finished (update id (finished_job progress e) q.jobs)))
unfolding finish_locked
keep-finish_locked progress id e q =
    keep-drop_finished _ (update id (finished_job progress e) q.jobs)

-- Where DeleteJob succeeds on a queue that satisfies the invariant, the job was in the list and queued or finished,
-- it is no longer found, every other job is found as before, and the path of its upload goes to removeUpload.
delete_job_effect :
    (q q' : JobQueue) (id k : ℕ)
    → Inv q
    → delete_job id q ≡ ok q'
    → (j : Job) × (find id q.jobs ≡ some j)
      × ((is_queued j || is_finished j) ≡ true)
      × (find k q'.jobs ≡ (if id == k then none else find k q.jobs))
      × (q'.removed ≡ j.nzb_path ∷ q.removed)
unfolding delete_job
delete_job_effect q q' id k v done = elim (Option-cases (find id q.jobs)) [
  | inl e ↦ absurd (clash (rw (e, delete_job) at done))
  | inr (j, e) ↦ elim (Bool-cases (is_queued j || is_finished j)) [
    | inr busy ↦ absurd (clash (rw (e, busy, delete_job) at done))
    | inl idle ↦
        let same : record q { jobs = remove id q.jobs; removed = j.nzb_path ∷ q.removed } ≡ q' =
          deleted (rw (e, idle, delete_job) at done) in
        (
          j,
          e,
          idle,
          ap (λ r. find k r.jobs) (sym same) ∙ find-remove 1 q.next_id id k q.jobs v.ids,
          ap (λ r. r.removed) (sym same),
        )
  ]
]
  where
    clash : {x : Error} → err x ≡ ok q' → ⊥
    clash h = cc

    deleted : {r : JobQueue} → ok r ≡ ok q' → r ≡ q'
    deleted h = cc
