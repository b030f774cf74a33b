-- ===== src/Worker/Pass/Scenarios.antt =====
-- A job of one item: a pass by one goroutine, a message for a job that is gone, and a pass beside another
-- process.
use aegis_route.Base.{
  ◌+◌, ◌≡◌, ◌≤◌, refl, true, false, nat_key, string_key, String, Option, none, some, List, [], ◌∷◌,
  arith, inr,
}
use aegis_route.Base.Map.{lookup, insert}
use aegis_route.Models.{BatchJob, BatchJobItem, ItemStatus, JobStatus}
use aegis_route.Jobs.Status.{valid_job_transition, valid_item_transition}
use aegis_route.Jobs.Store.{
  or_empty, items_of, mark_job_running, claim_next_queued_item, requeue_running_items, put_items,
  update_item_terminal, recompute_and_update_job_status,
}
use aegis_route.Jobs.Store.Items.{Op, step}
use aegis_route.Jobs.Store.Ids.{HasUniqueIds}
use aegis_route.Queue.{Message, ack, new_mem_queue}
use aegis_route.Worker.{result, finish_item}
use aegis_route.Worker.Pass.{
  works, Event, tests, finishes, elsewhere, Printers, PassError, Shared, Fates, all_back, pool_run,
  pool_step, job_pass, handle_message,
}
use aegis_route.Worker.Pass.First.{first_pool}
use aegis_route.Worker.Pass.Acked.{Ends, job_pass-Ends}
use aegis_route.Worker.Pass.Progress.{left_over, is_move, moves, pool-terminates}
use aegis_route.Worker.Pass.Letters.{IsPutAside, handle_message-IsPutAside}

abbrev print_none : Printers
print_none = record { shown = λ id. "id"; quoted = λ s. s }

abbrev all_work : Fates
all_work = record {
  now = 5;
  marks = works;
  requeues = works;
  recomputes = works;
  dlqs = works;
  acks = works;
}

abbrev one_item : BatchJobItem
one_item = record {
  id = 70;
  job_id = 7;
  custom_id = "a";
  request = "{}";
  status = ItemStatus.queued;
  attempts = 0;
  response = none;
  error = none;
  created_at = 1;
  updated_at = 1;
}

abbrev one_job : BatchJob
one_job = record {
  id = 7;
  tenant_id = 1;
  api_key_id = 2;
  model = "llama";
  status = JobStatus.queued;
  total_items = 1;
  completed_items = 0;
  failed_items = 0;
  created_at = 1;
  updated_at = 1;
}

abbrev the_message : Message
the_message = record { id = 1; job_id = "7" }

abbrev before : Shared
before = record {
  store = record { jobs = (7, one_job) ∷ []; items = (7, one_item ∷ []) ∷ []; outbox = [] };
  queue = new_mem_queue;
  counters = record { failures = 0; processed = [] };
  inflight = [];
}

-- The goroutine claims the item, finishes it, finds nothing more and returns.
abbrev one_by_one : List Event
one_by_one =
    tests 0
    ∷ Event.claims 0 6 works works
    ∷ finishes 0 7 (result ItemStatus.succeeded (some "{}") none) works
    ∷ tests 0
    ∷ Event.claims 0 8 works works
    ∷ []

before-HasUniqueIds : HasUniqueIds before.store
before-HasUniqueIds x = ground arith

-- What the pass leaves.
abbrev after_one : Shared × Option PassError
after_one =
    elim (job_pass print_none all_work the_message before 1 3 7 false one_by_one)
      as (λ o. Shared × Option PassError) [ none ↦ (before, none) | some r ↦ r ]

job_pass-Ends_example : Ends the_message 7 before after_one
unfolding lookup items_of job_pass mark_job_running valid_job_transition pool_step
    claim_next_queued_item requeue_running_items put_items insert finish_item update_item_terminal
    valid_item_transition
job_pass-Ends_example =
    job_pass-Ends print_none all_work the_message 7 before 1 3 false one_by_one (omega arith)
      before-HasUniqueIds (one_job, refl, refl) (tt, (tt, (tt, (tt, (tt, tt))))) after_one refl

pool-terminates_example :
    let p' =
      pool_run print_none 3 the_message 7 (first_pool all_work before 1 7 false) one_by_one in
    (moves print_none 3 the_message 7 (first_pool all_work before 1 7 false) one_by_one
        + left_over 7 p'
      ≤ left_over 7 (first_pool all_work before 1 7 false))
    × (all_back p'.members ≡ false → (e : Event) × (is_move p' e ≡ true))
pool-terminates_example =
    pool-terminates print_none 3 the_message 7 (first_pool all_work before 1 7 false) one_by_one
      (tt, (tt, (tt, (tt, (tt, tt)))))

abbrev lost_message : Message
lost_message = record { id = 2; job_id = "8" }

handle_message-IsPutAside_example :
    (r : Shared × Option PassError) × (handle_message print_none all_work lost_message
        (λ s. some 8)
        before
        1
        3
        false
        []
      ≡ some r)
    × IsPutAside all_work lost_message before r
    × ((other : String) → lookup other r.0.inflight ≡ lookup other before.inflight)
unfolding lookup
handle_message-IsPutAside_example =
    handle_message-IsPutAside print_none all_work lost_message (λ s. some 8) before 1 3 false []
      refl (inr (8, refl, refl, refl))

-- Another process, which reclaimed the same message, claims the only item; the goroutine of this pass
-- finds nothing and returns.
abbrev beside : List Event
beside = tests 0 ∷ elsewhere 6 (Op.claims 7 3) ∷ Event.claims 0 7 works works ∷ []

abbrev status_of : List BatchJobItem → Option ItemStatus
status_of [] = none
status_of (it ∷ its) = some it.status

abbrev seen :
    Option (Shared × Option PassError)
    → Option (List Message × Option PassError × Option ItemStatus)
seen none = none
seen (some (w, e)) = some (w.queue.acked, e, status_of (or_empty (lookup 7 w.store.items)))

-- The pass acknowledges the message while the item runs elsewhere.
beside_acks :
    seen (job_pass print_none all_work the_message before 1 3 7 false beside)
    ≡ some (the_message ∷ [], none, some ItemStatus.running)
unfolding lookup items_of job_pass mark_job_running valid_job_transition pool_step
    claim_next_queued_item requeue_running_items put_items insert finish_item update_item_terminal
    valid_item_transition step recompute_and_update_job_status ack new_mem_queue
beside_acks = refl
