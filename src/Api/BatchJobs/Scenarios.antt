-- ===== src/Api/BatchJobs/Scenarios.antt =====
-- A batch of one item, handed to an empty store, and a read by another tenant.
use aegis_route.Base.{
  ℕ, ◌≡◌, refl, false, nat_key, string_key, ◌==◌, if◌then◌else◌, some, [], ◌∷◌, arith,
}
use aegis_route.Base.Fate.{works}
use aegis_route.Base.Map.{lookup, insert}
use aegis_route.Models.{BatchJobOutbox}
use aegis_route.Jobs.Store.{MemStore, new_mem_store, create_with_items_and_outbox}
use aegis_route.Queue.{new_mem_queue}
use aegis_route.Idempotency.Repo.{Table}
use aegis_route.Idempotency.Replay.{over}
use aegis_route.Api.Request.{
  Json, object, and_then, bad_request, decode_chat_request, unmarshal_field, unknown_field,
  parse_messages, parse_entries, parse_stop, no_unknown, entry_string,
}
use aegis_route.Api.Chat.{Principal}
use aegis_route.Api.Gate.{allowed}
use aegis_route.Api.Batch.{Gathered, decode_batch_create, gather}
use aegis_route.Api.Batch.Valid.{IsBatch, decode_batch_create-IsBatch}
use aegis_route.Api.BatchJobs.{
  BatchEnv, BatchWorld, BatchAnswers, hand_off, get_batch_job, list_batch_job_items, new_job,
  job_items,
}
use aegis_route.Api.BatchJobs.Created.{IsAccepted, IsHanded, hand_off-Accepted, other_tenant-hidden}
use aegis_route.Api.Scenarios.{json, caller, libraries}

-- The decoder of the batch's body, of its array, and of the item's.
abbrev batch_json : Json ℕ
batch_json = record json {
  unmarshal = λ raw. object (("requests", "[r]") ∷ []);
  objects_of = λ raw.
      if raw == "[r]"
      then some ((("custom_id", "\"hi\"") ∷ ("body", "{}") ∷ []) ∷ [])
      else json.objects_of raw;
}

abbrev gathered : Gathered
gathered = record { model = "llama"; items = record { custom_id = "hi"; body = "forwarded" } ∷ [] }

decode_batch_create-IsBatch_example : IsBatch batch_json (λ req. some "forwarded") gathered
unfolding decode_batch_create decode_chat_request unmarshal_field unknown_field parse_messages
    parse_entries parse_stop and_then bad_request lookup gather no_unknown entry_string
decode_batch_create-IsBatch_example =
    decode_batch_create-IsBatch batch_json (λ req. some "forwarded") refl "batch" gathered refl

abbrev batch_env : BatchEnv ℕ
batch_env = record {
  libs = libraries;
  json = batch_json;
  forward_body = λ req. some "forwarded";
  sha256_hex = λ s. s;
  shown = λ id. "id";
  parse_id = λ s. some 7;
  byte_length = λ s. 3;
  scope = λ who. "scope";
  header = "";
  render = λ status code message. message;
  marshal_created = λ r. some "created";
  marshal_job = λ r. "job";
  marshal_jobs = λ rs. "jobs";
  marshal_items = λ rs. "items";
}

abbrev answers : BatchAnswers Table
answers = record {
  moment = record { checked = 1; began = 1; late = 1; id = 5; rate = allowed };
  created_at = 2;
  job_id = 7;
  item_id = λ i. 70;
  outbox_id = 9;
  creates = works;
  marked_at = 3;
  marks = works;
  meanwhile = λ t. t;
}

abbrev empty_world : BatchWorld Table
empty_world = record {
  front = record { idem = []; allow_calls = 0 };
  store = new_mem_store;
  queue = new_mem_queue;
}

hand_off-Accepted_example :
    let (w', r) =
      hand_off batch_env
        (over (record { is_blank = λ s. false; jsonb = λ s. some s }) 9 9)
        answers
        empty_world
        caller
        gathered in
    IsAccepted w'.store 7 caller gathered
    × ((ob : BatchJobOutbox) × (lookup 9 w'.store.outbox ≡ some ob)
        × (ob.job_id ≡ 7)
        × IsHanded works works ob "id" empty_world.queue w'.queue)
hand_off-Accepted_example =
    hand_off-Accepted batch_env (over (record { is_blank = λ s. false; jsonb = λ s. some s }) 9 9)
      answers empty_world caller gathered (λ e. ground arith)

abbrev filled : MemStore
filled =
    (create_with_items_and_outbox new_mem_store 2 7 (λ i. 70) 9 (new_job caller "llama")
      (job_items gathered.items)).0

other_tenant-hidden_example :
    let stranger : Principal = record { tenant_id = 8; api_key_id = 4 } in
    (get_batch_job batch_env filled (some stranger) "7"
      ≡ get_batch_job batch_env new_mem_store (some stranger) "7")
    × (list_batch_job_items batch_env filled (some stranger) "7"
        ≡ list_batch_job_items batch_env new_mem_store (some stranger) "7")
unfolding create_with_items_and_outbox lookup insert new_job new_mem_store
other_tenant-hidden_example =
    other_tenant-hidden batch_env filled (record { tenant_id = 8; api_key_id = 4 }) "7" 7
      (create_with_items_and_outbox new_mem_store 2 7 (λ i. 70) 9 (new_job caller "llama")
        (job_items gathered.items)).1
      refl refl (λ e. ground arith)
