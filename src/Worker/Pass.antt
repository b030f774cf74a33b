-- ===== src/Worker/Pass.antt =====
-- internal/worker/worker.go: one delivery of a job message, handleMessage, with its pool of goroutines,
-- and reclaimOnce. The pool is a sequence of events, one for each point where a goroutine calls the
-- store or the queue, so that every interleaving is a list of events. `uuid.Parse`, the printing of a
-- uuid and `%q` are parameters; the fate of every call on Postgres or Redis is given with it.
pub mod Steps
pub mod Events
pub mod Kept
pub mod Closed
pub mod First
pub mod Acked
pub mod Progress
pub mod Letters
mod Scenarios
use Prim.Native.String.{◌++◌ as concat}
use aegis_route.Base.{
  ℕ, zero, suc, ◌+◌, Bool, true, false, nat_key, string_key, String, if◌then◌else◌, Option, none,
  some, List, [], ◌∷◌, ◌++◌, replicate,
}
use aegis_route.Base.Map.{Map}
use aegis_route.Base.Text.{decimal}
pub use aegis_route.Base.Fate.{Fate, works, fails, lost, leaves, is_error}
use aegis_route.Models.{Uuid, BatchJobItem, ItemStatus, JobStatus}
use aegis_route.Jobs.Store.{
  MemStore, StoreError, not_found, mark_job_running, requeue_running_items, claim_next_queued_item,
  ClaimResult, claim_none, claim_claimed, claim_exhausted, exhausted_error, update_item_terminal,
  recompute_and_update_job_status,
}
use aegis_route.Jobs.Store.Items.{Op, step}
use aegis_route.Queue.{MemQueue, Message, ack, publish_dlq, claim}
use aegis_route.Worker.{
  Counters, Ending, shut_down, result, finish_item, mark_in_flight, clear_in_flight, is_in_flight,
}

-- A goroutine of the pool: at the test of its loop, past it, with an item claimed, returned because
-- no item was left, and returned for another reason.
pub data Member : Type 0 where
  looping ready drained stopped : Member
  holding : BatchJobItem → Member

-- A pass over a job: what it shares with the world, `broken`, whether its context has ended, and the
-- goroutines.
pub record Pool : Type 0 where
  pub store : MemStore
  pub queue : MemQueue
  pub counters : Counters
  pub broken : Bool
  pub ended : Bool
  pub members : List Member

-- `tests`: the condition of the loop. `claims`: ClaimNextQueuedItem, and the DLQ entry of an item whose
-- attempts ran out. `finishes`: the end of processItem. `panics`: a panic while an item is processed.
-- `ends`: the context ends. `elsewhere`: a call on the store by another process.
pub data Event : Type 0 where
  tests : ℕ → Event
  claims : ℕ → ℕ → Fate → Fate → Event
  finishes : ℕ → ℕ → Ending → Fate → Event
  panics : ℕ → Event
  ends : Event
  elsewhere : ℕ → Op → Event

abbrev pub get_elem? {ℓ} : {A : Type ℓ} → List A → ℕ → Option A
get_elem? [] i = none
get_elem? (x ∷ xs) zero = some x
get_elem? (x ∷ xs) (suc i) = get_elem? xs i

abbrev pub set {ℓ} : {A : Type ℓ} → List A → ℕ → A → List A
set [] i y = []
set (x ∷ xs) zero y = y ∷ xs
set (x ∷ xs) (suc i) y = x ∷ set xs i y

-- The i-th goroutine goes on as `m`.
abbrev pub goes : Pool → ℕ → Member → Pool
goes p i m = record p { members = set p.members i m }

-- The i-th goroutine sets `broken` and returns.
abbrev pub breaks : Pool → ℕ → Pool
breaks p i = record p { broken = true; members = set p.members i stopped }

abbrev pub failed_once : Counters → Counters
failed_once m = record m { failures = m.failures + 1 }

-- What processItem returns decides whether the goroutine goes on.
after_finish : Pool → ℕ → MemStore × Counters × Option StoreError → Pool
after_finish p i (s, m, none) = record p {
  store = s;
  counters = m;
  members = set p.members i looping;
}
after_finish p i (s, m, some e) = record p {
  store = s;
  counters = m;
  broken = true;
  members = set p.members i stopped;
}

finish_step : Pool → ℕ → ℕ → Uuid → Ending → Fate → Pool
unfolding after_finish
finish_step p i now id shut_down fate = breaks p i
finish_step p i now id (result status response error) fate =
    let failed : Pool = record p {
      store = leaves fate p.store (update_item_terminal p.store now id status response error).0;
      counters = failed_once p.counters;
      broken = true;
      members = set p.members i stopped;
    } in
    let done = after_finish p i (finish_item p.store p.counters now id status response error) in
    if is_error fate then failed else done

-- The texts that fmt prints of a uuid, and of a text under %q.
pub record Printers : Type 0 where
  pub shown : Uuid → String
  pub quoted : String → String

module _ (print : Printers) (max : ℕ) (msg : Message) (job : Uuid) where
  exhausted_reason : BatchJobItem → String
  unfolding exhausted_error
  exhausted_reason it = concat "item " (
      concat (print.shown it.id) (
        concat " (custom_id "
          (concat (print.quoted it.custom_id) (concat ") " (exhausted_error it.attempts max)))))

  -- The switch on a claim's outcome.
  after_claim : Pool → ℕ → Fate → ClaimResult → Pool
  unfolding exhausted_reason
  after_claim p i dlq claim_none = goes p i drained
  after_claim p i dlq (claim_exhausted it) =
      let m = record p.counters { processed = p.counters.processed ++ ItemStatus.failed ∷ [] } in
      record p {
        queue = leaves dlq p.queue (publish_dlq p.queue msg (exhausted_reason it));
        counters = if is_error dlq then failed_once m else m;
        members = set p.members i looping;
      }
  after_claim p i dlq (claim_claimed it) = goes p i (holding it)

  claim_step : Pool → ℕ → ℕ → Fate → Fate → Pool
  unfolding after_claim
  claim_step p i now fate dlq =
      let (s', r) = claim_next_queued_item p.store now job max in
      let failed : Pool = record p {
        store = leaves fate p.store s';
        counters = failed_once p.counters;
        broken = true;
        members = set p.members i stopped;
      } in
      let done = after_claim (record p { store = s' }) i dlq r in
      if is_error fate then failed else done

  -- The moves of the i-th goroutine; an event that does not fit its state changes nothing.
  member_step : Pool → ℕ → Member → Event → Pool
  unfolding claim_step finish_step
  member_step p i looping (tests j) = goes p i (if p.ended then stopped else ready)
  member_step p i ready (claims j now fate dlq) = claim_step p i now fate dlq
  member_step p i (holding it) (finishes j now ending fate) = finish_step p i now it.id ending fate
  member_step p i (holding it) (panics j) = record p {
    counters = failed_once p.counters;
    broken = true;
    members = set p.members i stopped;
  }
  member_step p i m e = p

  moved : Pool → ℕ → Option Member → Event → Pool
  unfolding member_step
  moved p i none e = p
  moved p i (some m) e = member_step p i m e

  unfoldable pub pool_step : Pool → Event → Pool
  unfolding moved
  pool_step p (tests i) = moved p i (get_elem? p.members i) (tests i)
  pool_step p (claims i now fate dlq) = moved p i (get_elem? p.members i) (claims i now fate dlq)
  pool_step p (finishes i now ending fate) =
      moved p i (get_elem? p.members i) (finishes i now ending fate)
  pool_step p (panics i) = moved p i (get_elem? p.members i) (panics i)
  pool_step p ends = record p { ended = true }
  pool_step p (elsewhere now op) = record p { store = step p.store now op }

  unfoldable pub pool_run : Pool → List Event → Pool
  pool_run p [] = p
  pool_run p (e ∷ es) = pool_run (pool_step p e) es

-- The goroutine has returned.
abbrev pub is_back : Member → Bool
is_back drained = true
is_back stopped = true
is_back _ = false

-- wg.Wait returns.
abbrev pub all_back : List Member → Bool
all_back [] = true
all_back (m ∷ ms) = if is_back m then all_back ms else false

-- The errors that handleMessage returns: failJobPass with its operation, the context's error, an
-- unfinished pass, and the queue's own error.
pub data PassError : Type 0 where
  failed_call : String → PassError
  context_ended incomplete dlq_failed ack_failed : PassError

-- What a pass shares with the world.
pub record Shared : Type 0 where
  pub store : MemStore
  pub queue : MemQueue
  pub counters : Counters
  pub inflight : Map String Bool

-- What the world answers to a delivery: the clock and the fate of each call outside the pool.
pub record Fates : Type 0 where
  pub now : ℕ
  pub marks : Fate
  pub requeues : Fate
  pub recomputes : Fate
  pub dlqs : Fate
  pub acks : Fate

abbrev pub counted_failure : Shared → Shared
counted_failure w = record w { counters = failed_once w.counters }

-- The text that %d prints after "mem-".
unfoldable pub mem_id : ℕ → String
mem_id n = concat "mem-" (decimal n)

-- failJobPass.
unfoldable pub fail_job_pass : Shared → String → Shared × Option PassError
fail_job_pass w op = (counted_failure w, some (failed_call op))

-- The pool at its start.
unfoldable pub new_pool : Shared → ℕ → Bool → Pool
new_pool w n ended = record {
  store = w.store;
  queue = w.queue;
  counters = w.counters;
  broken = false;
  ended = ended;
  members = replicate n looping;
}

module _ (print : Printers) (f : Fates) (msg : Message) where
  -- PublishDLQ and then Ack, whose errors are the result.
  unfoldable pub dead_letter : Shared → String → Shared × Option PassError
  dead_letter w reason =
      let lettered : Shared = record w {
        queue = leaves f.dlqs w.queue (publish_dlq w.queue msg reason);
      } in
      let acked : Shared = record lettered {
        queue = leaves f.acks lettered.queue (ack lettered.queue msg);
      } in
      if is_error f.dlqs
      then (lettered, some dlq_failed)
      else (acked, if is_error f.acks then some ack_failed else none)

  -- dropMissingJob.
  unfoldable pub drop_missing_job : Shared → Uuid → Shared × Option PassError
  unfolding dead_letter
  drop_missing_job w job =
      dead_letter w (concat "job " (concat (print.shown job) " no longer exists"))

  ack_pass : Shared → Shared × Option PassError
  unfolding fail_job_pass
  ack_pass w =
      let w' : Shared = record w { queue = leaves f.acks w.queue (ack w.queue msg) } in
      if is_error f.acks then fail_job_pass w' "ack" else (w', none)

  -- The pass after RecomputeAndUpdateJobStatus.
  after_recompute : Shared → Uuid → MemStore × Option JobStatus → Shared × Option PassError
  unfolding drop_missing_job ack_pass
  after_recompute w job (s, none) = drop_missing_job (record w { store = s }) job
  after_recompute w job (s, some status) = ack_pass (record w { store = s })

  -- The pass from wg.Wait.
  unfoldable pub after_pool : Shared → Uuid → Pool → Shared × Option PassError
  unfolding fail_job_pass after_recompute
  after_pool w job p =
      let w' : Shared = record w { store = p.store; queue = p.queue; counters = p.counters } in
      let r = recompute_and_update_job_status p.store f.now job in
      let settled =
        if is_error f.recomputes
        then fail_job_pass (record w' { store = leaves f.recomputes p.store r.0 })
            "recompute job status"
        else after_recompute w' job r in
      if p.ended
      then (w', some context_ended)
      else if p.broken
      then (w', some incomplete)
      else settled

  -- The pass once the job is marked running. The events are those of the pool; `none` while some
  -- goroutine has not returned.
  unfoldable pub run_pass :
      Shared → ℕ → ℕ → Uuid → Bool → List Event → Option (Shared × Option PassError)
  unfolding fail_job_pass new_pool pool_run after_pool
  run_pass w n max job ended events =
      let s = (requeue_running_items w.store f.now job).0 in
      let w' : Shared = record w { store = leaves f.requeues w.store s } in
      let p = pool_run print max msg job (new_pool w' n ended) events in
      let finished = if all_back p.members then some (after_pool w' job p) else none in
      if is_error f.requeues then some (fail_job_pass w' "requeue running items") else finished

  after_mark :
      Shared
      → ℕ
      → ℕ
      → Uuid
      → Bool
      → List Event
      → MemStore × Option StoreError
      → Option (Shared × Option PassError)
  unfolding fail_job_pass drop_missing_job run_pass
  after_mark w n max job ended events (s, none) =
      run_pass (record w { store = s }) n max job ended events
  after_mark w n max job ended events (s, some not_found) =
      some (drop_missing_job (record w { store = s }) job)
  after_mark w n max job ended events (s, some e) =
      some (fail_job_pass (record w { store = s }) "mark job running")

  -- handleMessage for a usable job id.
  unfoldable pub job_pass :
      Shared → ℕ → ℕ → Uuid → Bool → List Event → Option (Shared × Option PassError)
  unfolding fail_job_pass after_mark
  job_pass w n max job ended events =
      let r = mark_job_running w.store f.now job in
      let passed = after_mark w n max job ended events r in
      if is_error f.marks
      then some (fail_job_pass (record w { store = leaves f.marks w.store r.0 }) "mark job running")
      else passed

  handle_parsed :
      Shared → ℕ → ℕ → Bool → List Event → Option Uuid → Option (Shared × Option PassError)
  unfolding dead_letter job_pass
  handle_parsed w n max ended events none =
      some
        (dead_letter (counted_failure w) (concat "unparseable job_id " (print.quoted msg.job_id)))
  handle_parsed w n max ended events (some job) = job_pass w n max job ended events

  -- The deferred release.
  released : Option (Shared × Option PassError) → Option (Shared × Option PassError)
  unfolding mem_id
  released none = none
  released (some (w, e)) =
      some (record w { inflight = clear_in_flight w.inflight (mem_id msg.id) }, e)

  -- handleMessage, with concurrency n. `ended` is the context at the start of the pool.
  unfoldable pub handle_message :
      (String → Option Uuid)
      → Shared
      → ℕ
      → ℕ
      → Bool
      → List Event
      → Option (Shared × Option PassError)
  unfolding mem_id handle_parsed released
  handle_message parse w n max ended events =
      let (m, fresh) = mark_in_flight w.inflight (mem_id msg.id) in
      let handled =
        released
          (handle_parsed (record w { inflight = m }) n max ended events (parse msg.job_id)) in
      if fresh then handled else some (w, none)

-- The loop of reclaimOnce, over a handler that stands for handleMessage; `ended i` is the context before
-- the i-th message.
unfoldable pub reclaim_messages :
    (Message → Shared → Shared) → (ℕ → Bool) → List Message → Shared → Shared
unfolding mem_id
reclaim_messages handle ended [] w = w
reclaim_messages handle ended (msg ∷ msgs) w =
    let w' = if is_in_flight w.inflight (mem_id msg.id) then w else handle msg w in
    let rest = reclaim_messages handle (λ i. ended (suc i)) msgs w' in if ended 0 then w else rest

-- reclaimOnce, with min_idle from the configuration; a failed Claim is counted unless the context has
-- ended.
unfoldable pub reclaim_once :
    (Message → Shared → Shared) → ℕ → ℕ → Fate → Bool → (ℕ → Bool) → Shared → Shared
unfolding reclaim_messages
reclaim_once handle now min_idle fate gone ended w =
    let (q, msgs) = claim w.queue now min_idle in
    let w' : Shared = record w { queue = leaves fate w.queue q } in
    let handled = reclaim_messages handle ended msgs w' in
    if is_error fate then if gone then w' else counted_failure w' else handled
