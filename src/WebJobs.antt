-- ===== src/WebJobs.antt =====
-- webjobs.go: the queue of web jobs and its runner. A job's ID "job-n" is its number n, a session
-- is its number, the NZB's name, the job's settings and the time stamps are left out. Each method
-- holds the lock for its whole body and is one step; runJob lets go of it while the session runs and is
-- two. What the session published (done, dead, ...) when it is read is an argument.
pub mod State
pub mod Calls
pub mod Machine
pub mod Jobs
pub mod Drop
pub mod Invariant
pub mod Moves
pub mod Steps
pub mod Traces
pub mod Edges
pub mod Lifecycle
pub mod Views
pub mod Removal
pub mod StartAll
