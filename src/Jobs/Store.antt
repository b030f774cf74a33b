-- ===== src/Jobs/Store.antt =====
-- internal/jobs/memstore.go: the in-memory job store. One method is one hold of the mutex. The clock's
-- reading and the new uuids are arguments; an item is the store's own copy, so no aliasing shows.
-- Go's order of iteration over a map is open; the model follows the order of insertion.
pub mod Queries
pub mod Changes
pub mod Ids
pub mod Items
pub mod History
pub mod Outcome
pub mod Final
pub mod Claims
pub mod Counts
pub mod Outbox
use Prim.Native.String.{◌++◌ as concat}
use aegis_route.Base.{
  ℕ, suc, ◌+◌, Bool, true, false, nat_key, ◌==◌, String, ltb, if◌then◌else◌, Option, none, some,
  List, [], ◌∷◌, length,
}
use aegis_route.Base.Map.{Map, lookup, insert}
use aegis_route.Base.Text.{decimal}
use aegis_route.Models.{
  Uuid, BatchJob, BatchJobItem, BatchJobOutbox, JobStatus, ItemStatus, OutboxStatus,
}
use aegis_route.Jobs.Status.{valid_job_transition, valid_item_transition, aggregate_job_status}

pub record MemStore : Type 0 where
  pub jobs : Map Uuid BatchJob
  pub items : Map Uuid (List BatchJobItem)
  pub outbox : Map Uuid BatchJobOutbox

pub data StoreError : Type 0 where
  not_found not_terminal : StoreError

unfoldable pub new_mem_store : MemStore
new_mem_store = record { jobs = []; items = []; outbox = [] }

abbrev pub or_empty {ℓ} : {A : Type ℓ} → Option (List A) → List A
or_empty none = []
or_empty (some xs) = xs

-- `s.items[jobID]`
unfoldable pub items_of : MemStore → Uuid → List BatchJobItem
items_of s job = or_empty (lookup job s.items)

-- The writes through the pointers of `s.items[jobID]`; a job without items has no entry to write.
write_items : MemStore → Uuid → List BatchJobItem → Option (List BatchJobItem) → MemStore
write_items s job its none = s
write_items s job its (some old) = record s { items = insert job its s.items }

unfoldable pub put_items : MemStore → Uuid → List BatchJobItem → MemStore
unfolding write_items
put_items s job its = write_items s job its (lookup job s.items)

-- The copies that creation stores; `item_id i` is the uuid made for the i-th of them.
unfoldable pub stored_items : ℕ → Uuid → (ℕ → Uuid) → List BatchJobItem → List BatchJobItem
stored_items now job item_id [] = []
stored_items now job item_id (it ∷ its) =
    record it {
      id = item_id 0;
      job_id = job;
      status = ItemStatus.queued;
      attempts = 0;
      created_at = now;
      updated_at = now;
    }
    ∷ stored_items now job (λ i. item_id (suc i)) its

unfoldable pub create_with_items_and_outbox :
    MemStore
    → ℕ
    → Uuid
    → (ℕ → Uuid)
    → Uuid
    → BatchJob
    → List BatchJobItem
    → MemStore × BatchJob × BatchJobOutbox
unfolding stored_items
create_with_items_and_outbox s now job_id item_id outbox_id job its =
    let job' : BatchJob = record job {
      id = job_id;
      status = JobStatus.queued;
      total_items = length its;
      completed_items = 0;
      failed_items = 0;
      created_at = now;
      updated_at = now;
    } in
    let ob : BatchJobOutbox = record {
      id = outbox_id;
      job_id = job_id;
      status = OutboxStatus.pending;
      attempts = 0;
      last_error = none;
      published_at = none;
      created_at = now;
      updated_at = now;
    } in
    (
      record {
        jobs = insert job_id job' s.jobs;
        items = insert job_id (stored_items now job_id item_id its) s.items;
        outbox = insert outbox_id ob s.outbox;
      },
      job',
      ob,
    )

mark_running : MemStore → ℕ → Uuid → Option BatchJob → MemStore × Option StoreError
mark_running s now id none = (s, some not_found)
mark_running s now id (some job) =
    if valid_job_transition job.status JobStatus.running
    then (
      record s {
        jobs = insert id (record job { status = JobStatus.running; updated_at = now }) s.jobs;
      },
      none,
    )
    else (s, none)

unfoldable pub mark_job_running : MemStore → ℕ → Uuid → MemStore × Option StoreError
unfolding mark_running
mark_job_running s now job = mark_running s now job (lookup job s.jobs)

abbrev pub is_running : ItemStatus → Bool
is_running ItemStatus.running = true
is_running _ = false

abbrev pub is_queued : ItemStatus → Bool
is_queued ItemStatus.queued = true
is_queued _ = false

abbrev pub is_succeeded : ItemStatus → Bool
is_succeeded ItemStatus.succeeded = true
is_succeeded _ = false

abbrev pub is_failed : ItemStatus → Bool
is_failed ItemStatus.failed = true
is_failed _ = false

unfoldable pub requeued : ℕ → List BatchJobItem → List BatchJobItem
requeued now [] = []
requeued now (it ∷ its) =
    (if is_running it.status
      then record it { status = ItemStatus.queued; updated_at = now }
      else it)
    ∷ requeued now its

-- How many items RequeueRunningItems moves.
unfoldable pub count_running : List BatchJobItem → ℕ
count_running [] = 0
count_running (it ∷ its) = (if is_running it.status then 1 else 0) + count_running its

unfoldable pub requeue_running_items : MemStore → ℕ → Uuid → MemStore × ℕ
unfolding requeued count_running
requeue_running_items s now job =
    let its = items_of s job in (put_items s job (requeued now its), count_running its)

-- internal/jobs/store.go, ExhaustedError.
unfoldable pub exhausted_error : ℕ → ℕ → String
exhausted_error attempts max_attempts =
    concat "exhausted after "
      (concat (decimal attempts) (concat " of " (concat (decimal max_attempts) " attempts")))

-- internal/jobs/store.go, ClaimResult.
pub data ClaimResult : Type 0 where
  claim_none : ClaimResult
  claim_claimed claim_exhausted : BatchJobItem → ClaimResult

-- An item whose attempts ran out, and an item handed out.
exhaust : ℕ → ℕ → BatchJobItem → BatchJobItem
unfolding exhausted_error
exhaust now max it = record it {
  status = ItemStatus.failed;
  error = some (exhausted_error it.attempts max);
  updated_at = now;
}

claim : ℕ → BatchJobItem → BatchJobItem
claim now it = record it {
  status = ItemStatus.running;
  attempts = it.attempts + 1;
  updated_at = now;
}

-- The items after the claim of the first queued one, and what was claimed.
unfoldable pub claim_next : ℕ → ℕ → List BatchJobItem → List BatchJobItem × ClaimResult
unfolding exhaust claim
claim_next now max [] = ([], claim_none)
claim_next now max (it ∷ its) =
    let (rest, r) = claim_next now max its in
    if is_queued it.status
    then if ltb max (it.attempts + 1)
      then (exhaust now max it ∷ its, claim_exhausted (exhaust now max it))
      else (claim now it ∷ its, claim_claimed (claim now it))
    else (it ∷ rest, r)

unfoldable pub claim_next_queued_item : MemStore → ℕ → Uuid → ℕ → MemStore × ClaimResult
unfolding claim_next
claim_next_queued_item s now job max =
    let (its, r) = claim_next now max (items_of s job) in (put_items s job its, r)

-- What the search for the item of an update comes to: no such item, a refusal, or the items after it.
pub data Update {ℓ} (A : Type ℓ) : Type ℓ where
  missing stopped : Update A
  written : A → Update A

abbrev pub map_update {ℓ κ} : {A : Type ℓ} {B : Type κ} → (A → B) → Update A → Update B
map_update f missing = missing
map_update f stopped = stopped
map_update f (written a) = written (f a)

unfoldable pub finished :
    ℕ → ItemStatus → Option String → Option String → BatchJobItem → BatchJobItem
finished now status response error it = record it {
  status = status;
  response = response;
  error = error;
  updated_at = now;
}

unfoldable pub update_item :
    (BatchJobItem → BatchJobItem)
    → Uuid
    → ItemStatus
    → List BatchJobItem
    → Update (List BatchJobItem)
update_item f id status [] = missing
update_item f id status (it ∷ its) =
    let rest = update_item f id status its in
    if it.id == id
    then if valid_item_transition it.status status then written (f it ∷ its) else stopped
    else map_update (λ l. it ∷ l) rest

abbrev or_later :
    Uuid × List BatchJobItem
    → Map Uuid (List BatchJobItem)
    → Update (List BatchJobItem)
    → Update (Map Uuid (List BatchJobItem))
    → Update (Map Uuid (List BatchJobItem))
or_later e m missing later = map_update (λ l. e ∷ l) later
or_later e m stopped later = stopped
or_later e m (written its) later = written ((e.0, its) ∷ m)

unfoldable pub update_items :
    (BatchJobItem → BatchJobItem)
    → Uuid
    → ItemStatus
    → Map Uuid (List BatchJobItem)
    → Update (Map Uuid (List BatchJobItem))
unfolding update_item
update_items f id status [] = missing
update_items f id status ((job, its) ∷ m) =
    or_later (job, its) m (update_item f id status its) (update_items f id status m)

abbrev pub is_terminal : ItemStatus → Bool
is_terminal ItemStatus.succeeded = true
is_terminal ItemStatus.failed = true
is_terminal _ = false

after_update : MemStore → Update (Map Uuid (List BatchJobItem)) → MemStore × Option StoreError
after_update s missing = (s, some not_found)
after_update s stopped = (s, some not_found)
after_update s (written items) = (record s { items = items }, none)

unfoldable pub update_item_terminal :
    MemStore → ℕ → Uuid → ItemStatus → Option String → Option String → MemStore × Option StoreError
unfolding finished update_items after_update
update_item_terminal s now id status response error =
    if is_terminal status
    then after_update s (update_items (finished now status response error) id status s.items)
    else (s, some not_terminal)

-- How many items have a status that passes a test.
unfoldable pub count_status : (ItemStatus → Bool) → List BatchJobItem → ℕ
count_status p [] = 0
count_status p (it ∷ its) = (if p it.status then 1 else 0) + count_status p its

unfoldable pub recomputed : ℕ → List BatchJobItem → BatchJob → BatchJob
unfolding count_status
recomputed now its job =
    let succeeded = count_status is_succeeded its in
    let failed = count_status is_failed its in
    record job {
      completed_items = succeeded;
      failed_items = failed;
      status = aggregate_job_status job.total_items succeeded failed;
      updated_at = now;
    }

recompute : MemStore → ℕ → Uuid → Option BatchJob → MemStore × Option JobStatus
unfolding recomputed
recompute s now id none = (s, none)
recompute s now id (some job) =
    let job' = recomputed now (items_of s id) job in
    (record s { jobs = insert id job' s.jobs }, some job'.status)

-- RecomputeAndUpdateJobStatus; `none` is ErrNotFound.
unfoldable pub recompute_and_update_job_status : MemStore → ℕ → Uuid → MemStore × Option JobStatus
unfolding recompute
recompute_and_update_job_status s now id = recompute s now id (lookup id s.jobs)

abbrev pub is_pending : OutboxStatus → Bool
is_pending OutboxStatus.pending = true
is_pending _ = false

change_outbox :
    (BatchJobOutbox → BatchJobOutbox)
    → MemStore
    → Uuid
    → Option BatchJobOutbox
    → MemStore × Option StoreError
change_outbox f s id none = (s, some not_found)
change_outbox f s id (some ob) =
    (if is_pending ob.status then record s { outbox = insert id (f ob) s.outbox } else s, none)

unfoldable pub mark_outbox_published : MemStore → ℕ → Uuid → MemStore × Option StoreError
unfolding change_outbox
mark_outbox_published s now id =
    change_outbox
      (λ ob. record ob {
        status = OutboxStatus.published;
        published_at = some now;
        updated_at = now;
      })
      s id (lookup id s.outbox)

unfoldable pub mark_outbox_failed_attempt :
    MemStore → ℕ → Uuid → String → MemStore × Option StoreError
unfolding change_outbox
mark_outbox_failed_attempt s now id last_err =
    change_outbox
      (λ ob. record ob { attempts = ob.attempts + 1; last_error = some last_err; updated_at = now })
      s id (lookup id s.outbox)
