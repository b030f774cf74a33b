-- ===== src/Models/Enums.antt =====
-- internal/models/enums.go: the texts of the enums, and their parsing from untrusted text.
use aegis_route.Base.{
  ◌≡◌, refl, string_key, ◌==◌, ==_iff, String, if◌then◌else◌, Option, none, some, arith,
}
use aegis_route.Models.{JobStatus, ItemStatus, BackendKind, openai_compatible, mock}

unfoldable pub job_status_string : JobStatus → String
job_status_string JobStatus.queued = "queued"
job_status_string JobStatus.running = "running"
job_status_string JobStatus.succeeded = "succeeded"
job_status_string JobStatus.partially_failed = "partially_failed"
job_status_string JobStatus.failed = "failed"

-- ParseJobStatus, with IsValid; `none` is the error.
unfoldable pub parse_job_status : String → Option JobStatus
parse_job_status s =
    if s == "queued"
    then some JobStatus.queued
    else if s == "running"
    then some JobStatus.running
    else if s == "succeeded"
    then some JobStatus.succeeded
    else if s == "partially_failed"
    then some JobStatus.partially_failed
    else if s == "failed"
    then some JobStatus.failed
    else none

unfoldable pub item_status_string : ItemStatus → String
item_status_string ItemStatus.queued = "queued"
item_status_string ItemStatus.running = "running"
item_status_string ItemStatus.succeeded = "succeeded"
item_status_string ItemStatus.failed = "failed"

-- ParseItemStatus, with IsValid.
unfoldable pub parse_item_status : String → Option ItemStatus
parse_item_status s =
    if s == "queued"
    then some ItemStatus.queued
    else if s == "running"
    then some ItemStatus.running
    else if s == "succeeded"
    then some ItemStatus.succeeded
    else if s == "failed"
    then some ItemStatus.failed
    else none

unfoldable pub backend_kind_string : BackendKind → String
backend_kind_string openai_compatible = "openai_compatible"
backend_kind_string mock = "mock"

-- ParseBackendKind, with IsValid.
unfoldable pub parse_backend_kind : String → Option BackendKind
parse_backend_kind s =
    if s == "openai_compatible"
    then some openai_compatible
    else if s == "mock"
    then some mock
    else none

parse_job_status-job_status_string :
    (st : JobStatus) → parse_job_status (job_status_string st) ≡ some st
unfolding parse_job_status job_status_string
parse_job_status-job_status_string JobStatus.queued = refl
parse_job_status-job_status_string JobStatus.running = refl
parse_job_status-job_status_string JobStatus.succeeded = refl
parse_job_status-job_status_string JobStatus.partially_failed = refl
parse_job_status-job_status_string JobStatus.failed = refl

job_status_string-parse_job_status :
    (s : String) (st : JobStatus) → parse_job_status s ≡ some st → job_status_string st ≡ s
unfolding parse_job_status job_status_string
job_status_string-parse_job_status s st parsed = ground (
  arith,
  ==_iff s "queued",
  ==_iff s "running",
  ==_iff s "succeeded",
  ==_iff s "partially_failed",
  ==_iff s "failed",
)

parse_item_status-item_status_string :
    (st : ItemStatus) → parse_item_status (item_status_string st) ≡ some st
unfolding parse_item_status item_status_string
parse_item_status-item_status_string ItemStatus.queued = refl
parse_item_status-item_status_string ItemStatus.running = refl
parse_item_status-item_status_string ItemStatus.succeeded = refl
parse_item_status-item_status_string ItemStatus.failed = refl

item_status_string-parse_item_status :
    (s : String) (st : ItemStatus) → parse_item_status s ≡ some st → item_status_string st ≡ s
unfolding parse_item_status item_status_string
item_status_string-parse_item_status s st parsed =
    ground (arith, ==_iff s "queued", ==_iff s "running", ==_iff s "succeeded", ==_iff s "failed")

-- A status of a job or an item that is printed parses back to itself, and a text that parses is the
-- one that its status prints, so parsing accepts exactly the printed texts.
pub parses-prints :
    ((st : JobStatus) → parse_job_status (job_status_string st) ≡ some st)
    × ((s : String) (st : JobStatus) → parse_job_status s ≡ some st → job_status_string st ≡ s)
    × ((st : ItemStatus) → parse_item_status (item_status_string st) ≡ some st)
    × ((s : String) (st : ItemStatus) → parse_item_status s ≡ some st → item_status_string st ≡ s)
parses-prints = (
  parse_job_status-job_status_string, job_status_string-parse_job_status,
  parse_item_status-item_status_string, item_status_string-parse_item_status,
)
