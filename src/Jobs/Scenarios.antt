-- ===== src/Jobs/Scenarios.antt =====
-- A batch of two items, one of which fails.
use aegis_route.Base.{ℕ, ◌+◌, ◌≡◌, refl, none, some, List, [], ◌∷◌, arith, All, nat_key}
use aegis_route.Base.Map.{lookup, insert}
use aegis_route.Models.{BatchJob, BatchJobItem, JobStatus, ItemStatus}
use aegis_route.Jobs.Status.{valid_job_transition, valid_item_transition, aggregate_job_status}
use aegis_route.Jobs.Store.{
  MemStore, new_mem_store, items_of, put_items, create_with_items_and_outbox, claim_next,
  claim_next_queued_item, mark_job_running, update_item_terminal, recompute_and_update_job_status,
}
use aegis_route.Jobs.Store.Items.{
  step, claims, requeues, updates, recomputes, marks_running, Evolves, step-Evolves,
}
use aegis_route.Jobs.Store.History.{Call, creates, on_jobs, apply, run, item_at, terminal-run}
use aegis_route.Jobs.Store.Outcome.{IsFinal, run-IsFinal, describe}
use aegis_route.Jobs.Store.Claims.{Claims, claim_next-Claims}
use aegis_route.Jobs.Store.Queries.{get, list_jobs, items}
use aegis_route.Jobs.Store.Queries.Tenants.{Owned, reads-Owned}

abbrev draft : BatchJob
draft = record {
  id = 0;
  tenant_id = 7;
  api_key_id = 8;
  model = "llama-fast";
  status = JobStatus.queued;
  total_items = 0;
  completed_items = 0;
  failed_items = 0;
  created_at = 0;
  updated_at = 0;
}

abbrev ask : BatchJobItem
ask = record {
  id = 0;
  job_id = 0;
  custom_id = "a";
  request = "{}";
  status = ItemStatus.queued;
  attempts = 0;
  response = none;
  error = none;
  created_at = 0;
  updated_at = 0;
}

abbrev created : MemStore
created =
    (create_with_items_and_outbox new_mem_store 10 1 (λ i. 20 + i) 30 draft
      (ask ∷ record ask { custom_id = "b" } ∷ [])).0

abbrev worked : List (ℕ × Call)
worked =
    (11, on_jobs (marks_running 1))
    ∷ (12, on_jobs (claims 1 3))
    ∷ (13, on_jobs (updates 20 ItemStatus.succeeded (some "ok") none))
    ∷ (14, on_jobs (claims 1 3))
    ∷ (15, on_jobs (updates 21 ItemStatus.failed none (some "bad")))
    ∷ (16, on_jobs (recomputes 1))
    ∷ []

abbrev finished_store : MemStore
finished_store = run created worked

abbrev redelivery : List (ℕ × Call)
redelivery =
    (17, on_jobs (requeues 1))
    ∷ (17, creates 2 (λ i. 40 + i) 31 draft (ask ∷ []))
    ∷ (18, on_jobs (claims 1 3))
    ∷ (19, on_jobs (updates 20 ItemStatus.failed none none))
    ∷ (20, on_jobs (recomputes 1))
    ∷ []

abbrev finished_job : BatchJob
finished_job = record draft {
  id = 1;
  status = JobStatus.partially_failed;
  total_items = 2;
  completed_items = 1;
  failed_items = 1;
  created_at = 10;
  updated_at = 16;
}

finished-IsFinal : IsFinal finished_store 1 JobStatus.partially_failed
unfolding run apply step create_with_items_and_outbox lookup insert mark_job_running
    claim_next_queued_item update_item_terminal recompute_and_update_job_status put_items items_of
    describe new_mem_store valid_job_transition valid_item_transition aggregate_job_status
finished-IsFinal = (finished_job, refl, refl, refl, refl, λ q. ground arith)

run-IsFinal_example :
    IsFinal (run finished_store redelivery) 1 JobStatus.partially_failed
    × (items_of (run finished_store redelivery) 1 ≡ items_of finished_store 1)
run-IsFinal_example =
    run-IsFinal finished_store redelivery 1 JobStatus.partially_failed
      (tt, (refl, (tt, (tt, (tt, tt))))) finished-IsFinal

abbrev failed_item : BatchJobItem
failed_item = record ask {
  id = 21;
  job_id = 1;
  custom_id = "b";
  status = ItemStatus.failed;
  attempts = 1;
  error = some "bad";
  created_at = 10;
  updated_at = 15;
}

failed_item-item_at : item_at 1 (items_of finished_store 1) ≡ some failed_item
unfolding run apply step create_with_items_and_outbox lookup insert mark_job_running
    claim_next_queued_item update_item_terminal recompute_and_update_job_status put_items items_of
    new_mem_store valid_job_transition valid_item_transition
failed_item-item_at = refl

terminal-run_example : item_at 1 (items_of (run finished_store redelivery) 1) ≡ some failed_item
terminal-run_example =
    terminal-run finished_store redelivery 1 1 failed_item (tt, (refl, (tt, (tt, (tt, tt)))))
      failed_item-item_at refl

step-Evolves_example : Evolves (items_of created 1) (items_of (step created 11 (claims 1 3)) 1)
step-Evolves_example = step-Evolves created 11 (claims 1 3) 1

created-job :
    lookup 1 created.jobs
    ≡ some (record draft { id = 1; total_items = 2; created_at = 10; updated_at = 10 })
unfolding create_with_items_and_outbox lookup insert new_mem_store
created-job = refl

claim_next-Claims_example : Claims 3 (ask ∷ []) (claim_next 11 3 (ask ∷ []))
claim_next-Claims_example = claim_next-Claims 11 3 (ask ∷ [])

reads-Owned_example :
    Owned created 9 1 (get created 9 1)
    × All (λ j. j.tenant_id ≡ 9) (list_jobs created 9)
    × (get created 9 1 ≡ none)
    × (items created 9 1 ≡ none)
reads-Owned_example =
    reads-Owned created 9 1 1
      (record draft { id = 1; total_items = 2; created_at = 10; updated_at = 10 }) created-job
      (λ q. ground arith)
