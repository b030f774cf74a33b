-- ===== src/Worker/Scenarios.antt =====
-- One backend fails over to another, and an outbox with one row is drained.
use aegis_route.Base.{
  ℕ, zero, suc, ◌≡◌, ◌≢◌, refl, true, false, nat_key, string_key, String, none, List, [], ◌∷◌, All,
  arith, Bool,
}
use aegis_route.Base.Fate.{works}
use aegis_route.Base.Map.{lookup}
use aegis_route.Models.{Uuid, BatchJobOutbox, OutboxStatus}
use aegis_route.Jobs.Store.{MemStore}
use aegis_route.Jobs.Store.Queries.{pending_outbox}
use aegis_route.Queue.{new_mem_queue}
use aegis_route.Worker.{
  SelectAnswer, selected, refused, no_backends, Turn, answered, do_failed, run_item, Counters,
  drain_outbox_once,
}
use aegis_route.Worker.Items.{has, Excludes, Settled, run_item-ends}
use aegis_route.Worker.Outbox.{IsCovered, IsOf, drain_outbox_once-IsCovered}

abbrev pick_two : Bool → Bool → SelectAnswer
pick_two false b = selected 1 "fast"
pick_two true false = selected 2 "cheap"
pick_two true true = refused no_backends

abbrev select_two : ℕ → List Uuid → SelectAnswer
select_two i tried = pick_two (has 1 tried) (has 2 tried)

pick_two-Excludes :
    (a b : Bool) (tried : List Uuid) (id : Uuid) (name : String)
    → has 1 tried ≡ a
    → has 2 tried ≡ b
    → pick_two a b ≡ selected id name
    → (has id (1 ∷ 2 ∷ []) ≡ true) × (has id tried ≡ false)
pick_two-Excludes false b tried id name e f same = ground arith
pick_two-Excludes true false tried id name e f same = ground arith
pick_two-Excludes true true tried id name e f same = ground arith

select_two-Excludes : Excludes (1 ∷ 2 ∷ []) select_two
select_two-Excludes i tried id name same =
    pick_two-Excludes (has 1 tried) (has 2 tried) tried id name refl refl same

abbrev flaky : ℕ → Turn
flaky zero = record {
  ended_before = false;
  ended_call = false;
  ended_after = false;
  do_answer = do_failed "timeout" true;
}
flaky (suc i) = record {
  ended_before = false;
  ended_call = false;
  ended_after = false;
  do_answer = answered "{}";
}

run_item-ends_example :
    ((run_item (λ m. m) select_two flaky 3 "llama").0 ≢ none)
    × Settled (run_item (λ m. m) select_two flaky 3 "llama").1
run_item-ends_example =
    run_item-ends (λ m. m) select_two flaky (1 ∷ 2 ∷ []) "llama" select_two-Excludes

abbrev waiting_row : BatchJobOutbox
waiting_row = record {
  id = 30;
  job_id = 1;
  status = OutboxStatus.pending;
  attempts = 0;
  last_error = none;
  published_at = none;
  created_at = 0;
  updated_at = 0;
}

abbrev store : MemStore
store = record { jobs = []; items = []; outbox = (30, waiting_row) ∷ [] }

abbrev shown : Uuid → String
shown id = "job"

abbrev untouched_counters : Counters
untouched_counters = record { failures = 0; processed = [] }

rows-IsOf : All (IsOf shown store) (pending_outbox store 100)
unfolding pending_outbox lookup
rows-IsOf = ((λ row found. ground arith), tt)

store-IsCovered : IsCovered shown store new_mem_queue
unfolding lookup
store-IsCovered id ob found published = ground arith

drain_outbox_once-IsCovered_example :
    let (s', q', m') =
      drain_outbox_once shown 5 100 true false
        (λ i. false)
        (λ i. works)
        store
        new_mem_queue
        untouched_counters in
    IsCovered shown s' q'
drain_outbox_once-IsCovered_example =
    drain_outbox_once-IsCovered shown 5 100 true false (λ i. false) (λ i. works) store new_mem_queue
      untouched_counters rows-IsOf store-IsCovered
