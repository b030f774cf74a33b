-- ===== src/Worker.antt =====
-- internal/worker/worker.go: an item from claim to result, the outbox drain, and the set of deliveries
-- in hand. The selector, the inference client, the readings of `ctx.Err()` and the JSON decoder are
-- parameters; logs are left out.
pub mod Items
pub mod Outbox
pub mod Pass
mod Scenarios
use Prim.Native.String.{◌++◌ as concat}
use aegis_route.Base.{
  ℕ, zero, suc, ◌+◌, ◌*◌, Bool, true, false, ◌&&◌, not, nat_key, string_key, ◌==◌, String, ltb,
  if◌then◌else◌, Option, none, some, List, [], ◌∷◌, ◌++◌,
}
use aegis_route.Base.Fate.{Fate, leaves}
use aegis_route.Base.Int.{ℤ, pos, ltb_ℤ, leb_ℤ}
use aegis_route.Base.Map.{Map, lookup, insert, delete}
use aegis_route.Models.{Uuid, BatchJobItem, BatchJobOutbox, ItemStatus}
use aegis_route.Jobs.Store.{
  MemStore, StoreError, not_found, update_item_terminal, mark_outbox_published,
  mark_outbox_failed_attempt,
}
use aegis_route.Jobs.Store.Queries.{pending_outbox}
use aegis_route.Queue.{MemQueue, publish}

-- Durations are numbers of nanoseconds.
pub record Config : Type 0 where
  pub concurrency : ℤ
  pub max_item_attempts : ℤ
  pub reclaim_min_idle : ℤ
  pub reclaim_interval : ℤ
  pub outbox_interval : ℤ
  pub outbox_batch : ℤ

abbrev pub second : ℕ
second = 1000000000

-- The defaults that New fills in.
unfoldable pub with_defaults : Config → Config
with_defaults cfg = record {
  concurrency = if ltb_ℤ cfg.concurrency (pos 1) then pos 1 else cfg.concurrency;
  max_item_attempts = if ltb_ℤ cfg.max_item_attempts (pos 1) then pos 1 else cfg.max_item_attempts;
  reclaim_min_idle =
      if leb_ℤ cfg.reclaim_min_idle (pos 0) then pos (60 * second) else cfg.reclaim_min_idle;
  reclaim_interval =
      if leb_ℤ cfg.reclaim_interval (pos 0) then pos (30 * second) else cfg.reclaim_interval;
  outbox_interval =
      if leb_ℤ cfg.outbox_interval (pos 0) then pos (5 * second) else cfg.outbox_interval;
  outbox_batch = if ltb_ℤ cfg.outbox_batch (pos 1) then pos 100 else cfg.outbox_batch;
}

-- What a routing failure is.
pub data SelectFailure : Type 0 where
  no_backends no_capacity : SelectFailure
  other_failure : String → SelectFailure

-- `quoted` is the text that %q prints.
unfoldable pub select_failure_message : (String → String) → String → SelectFailure → Bool → String
select_failure_message quoted model no_backends false =
    concat "model " (concat (quoted model) " is not served by any backend")
select_failure_message quoted model no_backends true =
    "no backend is currently available for this model"
select_failure_message quoted model no_capacity failed_over =
    "no backend is currently available for this model"
select_failure_message quoted model (other_failure text) failed_over =
    concat "routing failed: " text

-- The answer of Select: a backend's id and name.
pub data SelectAnswer : Type 0 where
  selected : Uuid → String → SelectAnswer
  refused : SelectFailure → SelectAnswer

-- The answer of Do: a body, or an error's text and whether it is transient.
pub data DoAnswer : Type 0 where
  answered : String → DoAnswer
  do_failed : String → Bool → DoAnswer

pub data Verdict : Type 0 where
  success failure canceled : Verdict

-- What the world answers to the i-th turn of the loop of processItem, from 0: the context before it,
-- Select, Do, and the context when callBackend reads it and after.
pub record Turn : Type 0 where
  pub ended_before : Bool
  pub ended_call : Bool
  pub ended_after : Bool
  pub do_answer : DoAnswer

-- What a call leaves: the slots released and the verdicts reported, by backend name, oldest first.
pub record Trace : Type 0 where
  pub released : List String
  pub reports : List (String × Verdict)

report : Trace → String → Verdict → Trace
report t name v = record {
  released = t.released ++ name ∷ [];
  reports = t.reports ++ (name, v) ∷ [];
}

call_with : Trace → String → Bool → DoAnswer → Trace × Bool
unfolding report
call_with t name ended (answered body) = (report t name success, false)
call_with t name ended (do_failed text transient) =
    if ended
    then (report t name canceled, false)
    else if transient
    then (report t name failure, true)
    else (report t name success, false)

-- callBackend: the trace after it, and whether to fail over; the answer is Do's.
unfoldable pub call_backend : Trace → String → Turn → Trace × Bool
unfolding call_with
call_backend t name turn = call_with t name turn.ended_call turn.do_answer

-- How the loop of processItem ends: by the context's error, or with the item's result to write.
pub data Ending : Type 0 where
  shut_down : Ending
  result : ItemStatus → Option String → Option String → Ending

ended_with : Bool → DoAnswer → Ending
ended_with ended (answered body) = result ItemStatus.succeeded (some body) none
ended_with ended (do_failed text transient) =
    if ended then shut_down else result ItemStatus.failed none (some text)

abbrev pub is_empty {ℓ} : {A : Type ℓ} → List A → Bool
is_empty [] = true
is_empty (x ∷ xs) = false

is_answered : DoAnswer → Bool
is_answered (answered body) = true
is_answered (do_failed text transient) = false

module _ (quoted : String → String) (select : ℕ → List Uuid → SelectAnswer) (turns : ℕ → Turn) where
  -- The rest of a turn once Select has answered; `again` is the turns after it.
  after_select :
      String
      → List Uuid
      → Turn
      → Trace
      → SelectAnswer
      → (List Uuid → Trace → Option Ending × Trace)
      → Option Ending × Trace
  unfolding select_failure_message call_backend ended_with is_answered
  after_select model tried turn t (refused e) again = (
    some (
        result ItemStatus.failed none
          (some (select_failure_message quoted model e (not (is_empty tried))))),
    t,
  )
  after_select model tried turn t (selected id name) again =
      let (t', failover) = call_backend t name turn in
      let rest = again (tried ++ id ∷ []) t' in
      if not (is_answered turn.do_answer) && (failover && not turn.ended_after)
      then rest
      else (some (ended_with turn.ended_after turn.do_answer), t')

  -- The loop of processItem from its i-th turn; `none` when the fuel runs out.
  unfoldable pub turns_from : ℕ → ℕ → String → List Uuid → Trace → Option Ending × Trace
  unfolding after_select
  turns_from zero i model tried t = (none, t)
  turns_from (suc fuel) i model tried t =
      let turn = turns i in
      let rest = after_select model tried turn t (select i tried) (turns_from fuel (suc i) model) in
      if turn.ended_before then (some shut_down, t) else rest

  -- The loop of processItem, for an item with a model.
  unfoldable pub run_item : ℕ → String → Option Ending × Trace
  unfolding turns_from
  run_item fuel model =
      if model == ""
      then (
        some (result ItemStatus.failed none (some "stored request has no model")),
        record { released = []; reports = [] },
      )
      else turns_from fuel 0 model [] (record { released = []; reports = [] })

-- The counters of the worker.
pub record Counters : Type 0 where
  pub failures : ℕ
  pub processed : List ItemStatus

after_write : Counters → ItemStatus → Option StoreError → Counters × Option StoreError
after_write m status none = (record m { processed = m.processed ++ status ∷ [] }, none)
after_write m status (some not_found) = (m, none)
after_write m status (some e) = (record m { failures = m.failures + 1 }, some e)

-- finishItem.
unfoldable pub finish_item :
    MemStore
    → Counters
    → ℕ
    → Uuid
    → ItemStatus
    → Option String
    → Option String
    → MemStore × Counters × Option StoreError
unfolding after_write
finish_item s m now id status response error =
    let (s', e) = update_item_terminal s now id status response error in
    let (m', e') = after_write m status e in (s', m', e')

-- markInFlight: the deliveries in hand, and whether this one is new.
unfoldable pub mark_in_flight : Map String Bool → String → Map String Bool × Bool
mark_in_flight m msg = elim (lookup msg m) [
  | some held ↦ (m, false)
  | none ↦ (insert msg true m, true)
]

-- The release that markInFlight returns for a new delivery.
unfoldable pub clear_in_flight : Map String Bool → String → Map String Bool
clear_in_flight m msg = delete msg m

unfoldable pub is_in_flight : Map String Bool → String → Bool
is_in_flight m msg = elim (lookup msg m) [ some held ↦ true | none ↦ false ]

-- One row of the outbox: published, and then marked, or the failure recorded; `fate` is that of the mark.
-- `shown` prints a uuid.
drain_row :
    (Uuid → String)
    → ℕ
    → Fate
    → BatchJobOutbox
    → MemStore
    → Counters
    → MemQueue × Option String
    → MemStore × MemQueue × Counters
drain_row shown now fate ob s m (q, none) =
    (leaves fate s (mark_outbox_published s now ob.id).0, q, m)
drain_row shown now fate ob s m (q, some e) = (
  leaves fate s (mark_outbox_failed_attempt s now ob.id e).0,
  q,
  record m { failures = m.failures + 1 },
)

-- The loop of drainOutboxOnce, which the context ends before the row whose reading is true.
unfoldable pub drain_rows :
    (Uuid → String)
    → ℕ
    → (ℕ → Bool)
    → (ℕ → Fate)
    → List BatchJobOutbox
    → MemStore
    → MemQueue
    → Counters
    → MemStore × MemQueue × Counters
unfolding drain_row
drain_rows shown now ended fates [] s q m = (s, q, m)
drain_rows shown now ended fates (ob ∷ obs) s q m =
    let (s', q', m') = drain_row shown now (fates 0) ob s m (publish q (shown ob.job_id)) in
    let rest = drain_rows shown now (λ i. ended (suc i)) (λ i. fates (suc i)) obs s' q' m' in
    if ended 0 then (s, q, m) else rest

-- drainOutboxOnce, with the number of rows that it reads, whether PendingOutbox answers, and the context
-- after an answer that is an error.
unfoldable pub drain_outbox_once :
    (Uuid → String)
    → ℕ
    → ℕ
    → Bool
    → Bool
    → (ℕ → Bool)
    → (ℕ → Fate)
    → MemStore
    → MemQueue
    → Counters
    → MemStore × MemQueue × Counters
unfolding drain_rows
drain_outbox_once shown now batch reads over ended fates s q m =
    let drained = drain_rows shown now ended fates (pending_outbox s batch) s q m in
    let failed = if over then m else record m { failures = m.failures + 1 } in
    if reads then drained else (s, q, failed)
