-- ===== src/TaskStore.antt =====
-- apps/job/internal/repository/job_task_repository.go: the conditional writes and the queries on the
-- table of Tasks, one child for each stage of an attempt. Each write is the WHERE test on a row, the
-- SET on a row, and the operation over the table with its checks and its answer.
pub mod Listings
pub mod Targets
pub mod Dispatch
pub mod Start
pub mod Outcome
pub mod Consistency
pub mod Races
pub mod Once
pub mod History
pub mod Effects
pub mod Evolution
pub mod Invariant
