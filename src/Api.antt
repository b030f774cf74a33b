-- ===== src/Api.antt =====
-- internal/api: the validation and the handlers of POST /v1/chat/completions and POST /api/v1/batch-jobs.
pub mod Request
pub mod Gate
pub mod Chat
pub mod Completions
pub mod Batch
pub mod BatchJobs
pub mod Scenarios
