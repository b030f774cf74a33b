-- ===== src/Jobs/Store/Outcome.antt =====
-- The status of a job, read off its items, and what becomes of a terminal one.
use mathlib.Core.Path.{ap₂}
use aegis_route.Base.{
  ℕ, ◌+◌, ◌≤◌, ◌≡◌, ◌≢◌, refl, sym, ◌∙◌, inl, inr, Bool, true, false, ◌||◌, not, nat_key, ◌==◌,
  ==_iff, if◌then◌else◌, some, List, [], ◌∷◌, arith, All, Bool-cases, Option-cases, length,
}
use aegis_route.Base.Map.{lookup, lookup-insert}
use aegis_route.Models.{Uuid, BatchJob, BatchJobItem, JobStatus, ItemStatus}
use aegis_route.Jobs.Status.{valid_job_transition, aggregate_job_status}
use aegis_route.Jobs.Store.{
  MemStore, items_of, is_terminal, count_status, is_succeeded, is_failed, mark_job_running,
  recomputed, recompute_and_update_job_status, put_items, requeue_running_items,
  claim_next_queued_item, update_item_terminal, stored_items, create_with_items_and_outbox,
  mark_outbox_published, mark_outbox_failed_attempt,
}
use aegis_route.Jobs.Store.Items.{Evolves, Op, marks_running, recomputes, step, step-Evolves}
use aegis_route.Jobs.Store.History.{Call, creates, on_jobs, apply, run, Spares, terminal_step}

-- Some item has a status that passes the test.
abbrev pub some_item : (ItemStatus → Bool) → List BatchJobItem → Bool
some_item p [] = false
some_item p (it ∷ its) = p it.status || some_item p its

-- The status that the items of a job stand for.
unfoldable pub describe : List BatchJobItem → JobStatus
describe its =
    if some_item (λ s. not (is_terminal s)) its
    then JobStatus.running
    else if some_item is_failed its
    then if some_item is_succeeded its then JobStatus.partially_failed else JobStatus.failed
    else JobStatus.succeeded

count_le :
    (its : List BatchJobItem)
    → count_status is_succeeded its + count_status is_failed its ≤ length its
unfolding count_status
count_le [] = omega arith
count_le (it ∷ its) = ground (arith, count_le its)

some_item-count :
    (p : ItemStatus → Bool) (its : List BatchJobItem)
    → (if count_status p its == 0 then false else true) ≡ some_item p its
unfolding count_status
some_item-count p [] = refl
some_item-count p (it ∷ its) = ground (arith, some_item-count p its)

some_item-open :
    (its : List BatchJobItem)
    → (if length its == count_status is_succeeded its + count_status is_failed its
        then false
        else true)
      ≡ some_item (λ s. not (is_terminal s)) its
unfolding count_status
some_item-open [] = refl
some_item-open (it ∷ its) = ground (arith, some_item-open its, count_le its)

-- The status computed from the counts is the one that the items stand for.
pub aggregate-describe :
    (its : List BatchJobItem)
    → aggregate_job_status (length its) (count_status is_succeeded its) (count_status is_failed its)
      ≡ describe its
unfolding aggregate_job_status describe
aggregate-describe its = ground (
  arith,
  some_item-open its,
  some_item-count is_succeeded its,
  some_item-count is_failed its,
  count_le its,
)

-- The job of the id, its items counted, has a terminal status that fits them.
abbrev pub IsFinal : MemStore → Uuid → JobStatus → Type 0
IsFinal s id status =
    (job : BatchJob) × (lookup id s.jobs ≡ some job)
    × (job.status ≡ status)
    × (job.total_items ≡ length (items_of s id))
    × (describe (items_of s id) ≡ status)
    × (status ≢ JobStatus.running)

terminal-Evolves :
    (as_ bs : List BatchJobItem)
    → some_item (λ s. not (is_terminal s)) as_ ≡ false
    → Evolves as_ bs
    → bs ≡ as_
terminal-Evolves [] [] h e = refl
terminal-Evolves [] (b ∷ bs) h e = absurd e
terminal-Evolves (a ∷ as_) [] h e = absurd e
terminal-Evolves (a ∷ as_) (b ∷ bs) h e =
    ap₂ ◌∷◌ (terminal_step a b (ground arith) e.0) (terminal-Evolves as_ bs (ground arith) e.1)

items_of-step_final :
    (s : MemStore) (now : ℕ) (op : Op) (id : Uuid) (status : JobStatus)
    → IsFinal s id status
    → items_of (step s now op) id ≡ items_of s id
unfolding describe
items_of-step_final s now op id status f =
    terminal-Evolves (items_of s id) (items_of (step s now op) id) (ground arith)
      (step-Evolves s now op id)

describe-ne-queued : (its : List BatchJobItem) → describe its ≢ JobStatus.queued
unfolding describe
describe-ne-queued its = ground arith

pub recomputed_status :
    (s : MemStore) (now : ℕ) (id : Uuid) (job : BatchJob) (status : JobStatus)
    → job.total_items ≡ length (items_of s id)
    → describe (items_of s id) ≡ status
    → (recomputed now (items_of s id) job).status ≡ status
unfolding recomputed
recomputed_status s now id job status total d = ground (arith, aggregate-describe (items_of s id))

mark-keeps :
    (s : MemStore) (now : ℕ) (j id : Uuid) (job : BatchJob)
    → lookup id s.jobs ≡ some job
    → job.status ≢ JobStatus.queued
    → lookup id (mark_job_running s now j).0.jobs ≡ some job
unfolding mark_job_running valid_job_transition
mark-keeps s now j id job e st = elim (Option-cases (lookup j s.jobs)) [
  | inl none_ ↦ ground arith
  | inr (other, found) ↦ ground (
    arith,
    ==_iff {K = Uuid} j id,
    lookup-insert j id (record other { status = JobStatus.running; updated_at = now }) s.jobs,
  )
]

recompute-keeps :
    (s : MemStore) (now : ℕ) (j id : Uuid) (job : BatchJob)
    → lookup id s.jobs ≡ some job
    → lookup id (recompute_and_update_job_status s now j).0.jobs
      ≡ (if j == id then some (recomputed now (items_of s id) job) else some job)
unfolding recompute_and_update_job_status
recompute-keeps s now j id job e = elim (Option-cases (lookup j s.jobs)) [
  | inl none_ ↦ ground (arith, ==_iff {K = Uuid} j id)
  | inr (other, found) ↦ ground (
    arith,
    ==_iff {K = Uuid} j id,
    lookup-insert j id (recomputed now (items_of s j) other) s.jobs,
  )
]

-- The methods that touch no job.
unfoldable pub is_silent : Op → Bool
is_silent (marks_running j) = false
is_silent (recomputes j) = false
is_silent _ = true

pub jobs-silent :
    (s : MemStore) (now : ℕ) (op : Op) → is_silent op ≡ true → (step s now op).jobs ≡ s.jobs
unfolding step requeue_running_items claim_next_queued_item put_items update_item_terminal
    mark_outbox_published mark_outbox_failed_attempt is_silent
jobs-silent s now op h = ground arith

-- The job that a call leaves for one with a final status.
abbrev Kept : MemStore → Uuid → BatchJob → JobStatus → Type 0
Kept s id job status =
    (job' : BatchJob) × (lookup id s.jobs ≡ some job')
    × (job'.status ≡ status)
    × (job'.total_items ≡ job.total_items)

job-step :
    (s : MemStore) (now : ℕ) (op : Op) (id : Uuid) (job : BatchJob) (status : JobStatus)
    → lookup id s.jobs ≡ some job
    → job.status ≡ status
    → job.total_items ≡ length (items_of s id)
    → describe (items_of s id) ≡ status
    → Kept (step s now op) id job status
job-step s now (marks_running j) id job status e st total d = (
  job,
  unfold step in
      mark-keeps s now j id job e (λ q. describe-ne-queued (items_of s id) (d ∙ (sym st ∙ q))),
  st,
  refl,
)
job-step s now (recomputes j) id job status e st total d = elim (Bool-cases (j == id)) [
  | inl same ↦ (
    recomputed now (items_of s id) job,
    unfold step in rw (recompute-keeps s now j id job e, same),
    recomputed_status s now id job status total d,
    unfold recomputed in refl,
  )
  | inr apart ↦ (job, unfold step in rw (recompute-keeps s now j id job e, apart), st, refl)
]
job-step s now op id job status e st total d =
    (job, rw (jobs-silent s now op (unfold is_silent in refl)) e, st, refl)

step-IsFinal :
    (s : MemStore) (now : ℕ) (op : Op) (id : Uuid) (status : JobStatus)
    → IsFinal s id status
    → IsFinal (step s now op) id status
step-IsFinal s now op id status f =
    let same = items_of-step_final s now op id status f in
    let (job, e, st, total, d, fin) = f in
    let (job', e', st', total') = job-step s now op id job status e st total d in
    (job', e', st', rw same (total' ∙ total), rw same d, fin)

-- The creation of another job.
created-IsFinal :
    (s : MemStore) (now : ℕ) (job_id : Uuid) (item_id : ℕ → Uuid) (outbox_id : Uuid)
    (new : BatchJob) (its : List BatchJobItem) (id : Uuid) (status : JobStatus)
    → (job_id == id) ≡ false
    → IsFinal s id status
    → let s' = (create_with_items_and_outbox s now job_id item_id outbox_id new its).0 in
      IsFinal s' id status × (items_of s' id ≡ items_of s id)
unfolding create_with_items_and_outbox items_of
created-IsFinal s now job_id item_id outbox_id new its id status apart
      (job, found, is, total, fits, ended) =
    let made = create_with_items_and_outbox s now job_id item_id outbox_id new its in
    let same_job = lookup-insert job_id id made.1 s.jobs in
    let same_items = lookup-insert job_id id (stored_items now job_id item_id its) s.items in
    rw (same_items, same_job, apart) ((job, found, is, total, fits, ended), refl)

apply-IsFinal :
    (s : MemStore) (now : ℕ) (call : Call) (id : Uuid) (status : JobStatus)
    → Spares id (now, call)
    → IsFinal s id status
    → IsFinal (apply s now call) id status × (items_of (apply s now call) id ≡ items_of s id)
unfolding apply
apply-IsFinal s now (creates job_id item_id outbox_id new its) id status apart final =
    created-IsFinal s now job_id item_id outbox_id new its id status apart final
apply-IsFinal s now (on_jobs op) id status apart final =
    (step-IsFinal s now op id status final, items_of-step_final s now op id status final)

-- A terminal status is final: once the status of a job is the terminal one that its items stand for,
-- it stays that, and the items stay as they are, whatever is called, the creation of other jobs
-- included. It relies on new jobs having other uuids.
pub run-IsFinal :
    (s : MemStore) (calls : List (ℕ × Call)) (id : Uuid) (status : JobStatus)
    → All (Spares id) calls
    → IsFinal s id status
    → IsFinal (run s calls) id status × (items_of (run s calls) id ≡ items_of s id)
unfolding run
run-IsFinal s [] id status apart f = (f, refl)
run-IsFinal s ((now, call) ∷ calls) id status (here, apart) f =
    let (kept, same) = apply-IsFinal s now call id status here f in
    let (final, later) = run-IsFinal (apply s now call) calls id status apart kept in
    (final, later ∙ same)
