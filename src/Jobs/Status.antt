-- ===== src/Jobs/Status.antt =====
-- internal/jobs/status.go: which status changes are allowed, and the status of a job from the counts
-- of its items.
use aegis_route.Base.{ℕ, ◌+◌, Bool, true, false, nat_key, ◌==◌, ltb, if◌then◌else◌}
use aegis_route.Models.{JobStatus, ItemStatus}

unfoldable pub valid_job_transition : JobStatus → JobStatus → Bool
valid_job_transition JobStatus.queued JobStatus.running = true
valid_job_transition JobStatus.running JobStatus.succeeded = true
valid_job_transition JobStatus.running JobStatus.partially_failed = true
valid_job_transition JobStatus.running JobStatus.failed = true
valid_job_transition _ _ = false

unfoldable pub valid_item_transition : ItemStatus → ItemStatus → Bool
valid_item_transition ItemStatus.queued ItemStatus.running = true
valid_item_transition ItemStatus.queued ItemStatus.failed = true
valid_item_transition ItemStatus.running ItemStatus.succeeded = true
valid_item_transition ItemStatus.running ItemStatus.failed = true
valid_item_transition ItemStatus.running ItemStatus.queued = true
valid_item_transition _ _ = false

-- The counts are those of a list, so Go's ints are never negative here.
unfoldable pub aggregate_job_status : ℕ → ℕ → ℕ → JobStatus
aggregate_job_status total succeeded failed =
    if ltb (succeeded + failed) total
    then JobStatus.running
    else if failed == 0
    then JobStatus.succeeded
    else if succeeded == 0
    then JobStatus.failed
    else JobStatus.partially_failed
