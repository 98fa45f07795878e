-- ===== src/WebJobs/State.antt =====
-- webjobs.go: the job queue and its jobs, and the list of jobs by ID.
use nzbre_x.Prelude.{ℕ, Bool, true, false, List, [], ◌∷◌, Option, none, some, if◌then◌else◌, ◌==◌}

pub data Status : Type 0 where
  queued waiting running completed failed : Status

-- The errors that a job ends with; `launch_failed` is LaunchSession's error or panic.
pub data JobError : Type 0 where
  canceled stopped no_processor launch_failed : JobError

pub record Job : Type 0 where
  pub id : ℕ
  pub nzb_path : ℕ
  pub status : Status
  pub error : Option JobError
  pub total_articles : ℕ
  pub articles_processed : ℕ
  pub articles_done : ℕ
  pub articles_cached : ℕ
  pub articles_dead : ℕ
  pub total_size : ℕ
  pub session_id : ℕ
  pub session : Option ℕ
  pub stop_requested : Bool

-- The counts that a session publishes.
pub record Progress : Type 0 where
  pub total : ℕ
  pub done : ℕ
  pub dead : ℕ
  pub notarget : ℕ
  pub cached : ℕ

-- The runner goroutine: at `range jq.wake`, before `nextWaiting`, with a job in hand before it
-- takes the lock in `runJob`, and while the job's session runs.
pub data Runner : Type 0 where
  asleep awake : Runner
  picked launched : ℕ → Runner

pub record JobQueue : Type 0 where
  pub jobs : List Job
  pub next_id : ℕ
  pub wake : Bool  -- the channel of capacity 1 holds a token
  pub runner : Runner
  pub removed : List ℕ  -- the paths given to removeUpload
  pub stopped_sessions : List ℕ  -- the sessions whose stop() was called

unfoldable pub new_job_queue : JobQueue
new_job_queue = record {
  jobs = [];
  next_id = 1;
  wake = false;
  runner = asleep;
  removed = [];
  stopped_sessions = [];
}

pub data Error : Type 0 where
  invalid_nzb job_not_found job_state queue_full : Error

pub data Result {ℓ} (A : Type ℓ) : Type ℓ where
  ok : A → Result A
  err : Error → Result A

abbrev pub max_pending_jobs : ℕ
max_pending_jobs = 1000

abbrev pub max_finished_jobs : ℕ
max_finished_jobs = 50

abbrev pub status_finished : Status → Bool
status_finished completed = true
status_finished failed = true
status_finished _ = false

abbrev pub status_pending : Status → Bool
status_pending queued = true
status_pending waiting = true
status_pending _ = false

abbrev pub status_waiting : Status → Bool
status_waiting waiting = true
status_waiting _ = false

abbrev pub status_running : Status → Bool
status_running running = true
status_running _ = false

abbrev pub status_queued : Status → Bool
status_queued queued = true
status_queued _ = false

abbrev pub is_finished : Job → Bool
is_finished j = status_finished j.status

abbrev pub is_pending : Job → Bool
is_pending j = status_pending j.status

abbrev pub is_waiting : Job → Bool
is_waiting j = status_waiting j.status

abbrev pub is_running : Job → Bool
is_running j = status_running j.status

abbrev pub is_queued : Job → Bool
is_queued j = status_queued j.status

-- The first job with this ID; a change of it, as the pointer's fields are set; its removal.
unfoldable pub find : ℕ → List Job → Option Job
find id [] = none
find id (j ∷ js) = if j.id == id then some j else find id js

unfoldable pub update : ℕ → (Job → Job) → List Job → List Job
update id f [] = []
update id f (j ∷ js) = if j.id == id then f j ∷ js else j ∷ update id f js

unfoldable pub remove : ℕ → List Job → List Job
remove id [] = []
remove id (j ∷ js) = if j.id == id then js else j ∷ remove id js

unfoldable pub next_waiting : List Job → Option Job
next_waiting [] = none
next_waiting (j ∷ js) = if is_waiting j then some j else next_waiting js
