-- ===== src/InstanceStore.antt =====
-- apps/job/internal/repository/job_instance_repository.go: the conditional writes on the table of
-- Instances, as tests and changes of a row and operations over the table.
pub mod Writes
pub mod Listings
