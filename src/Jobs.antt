-- ===== src/Jobs.antt =====
-- internal/jobs: the batch status machines and the job store.
pub mod Status
pub mod Store
mod Scenarios
