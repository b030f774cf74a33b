-- ===== src/Api/BatchJobs.antt =====
-- internal/api/batch.go: POST /api/v1/batch-jobs over the in-memory job store and the in-memory queue, and
-- the three reads. The texts that encoding/json makes of responses are parameters.
pub mod Created
mod Scenarios
use Prim.Native.String.{◌++◌ as concat}
use aegis_route.Base.{
  ℕ, Bool, true, false, string_key, ◌==◌, String, ltb, if◌then◌else◌, Option, none, some, List, [],
  ◌∷◌, map,
}
use aegis_route.Base.Fate.{Fate, leaves, is_error}
use aegis_route.Base.Text.{decimal}
use aegis_route.Models.{Uuid, BatchJob, BatchJobItem, BatchJobOutbox, JobStatus, ItemStatus}
use aegis_route.Models.Enums.{job_status_string, item_status_string}
use aegis_route.Jobs.Store.{
  MemStore, create_with_items_and_outbox, mark_outbox_published, mark_outbox_failed_attempt,
}
use aegis_route.Jobs.Store.Queries.{get, list_jobs, items}
use aegis_route.Queue.{MemQueue, publish}
use aegis_route.Idempotency.{Libraries, Coordinator}
use aegis_route.Api.Request.{ChatRequest, ChatError, Checked, denied, granted, Json}
use aegis_route.Api.Gate.{
  Response, json_type, Front, Ticket, Moment, Passage, turned_away, admitted, error_response, enter,
  resolve,
}
use aegis_route.Api.Chat.{Principal}
use aegis_route.Api.Completions.{BodyRead, read, too_large, unreadable, max_idempotency_key_len}
use aegis_route.Api.Batch.{BatchItemInput, Gathered, decode_batch_create}

-- batchJobCreateResponse.
pub record BatchJobCreateResponse : Type 0 where
  pub id : Uuid
  pub object : String
  pub status : String
  pub total_items : ℕ
  pub completed_items : ℕ
  pub failed_items : ℕ

-- batchJobResponse.
pub record BatchJobResponse : Type 0 where
  pub id : Uuid
  pub object : String
  pub status : String
  pub model : String
  pub total_items : ℕ
  pub completed_items : ℕ
  pub failed_items : ℕ
  pub created_at : ℕ
  pub updated_at : ℕ

-- batchItemResponse.
pub record BatchItemResponse : Type 0 where
  pub id : Uuid
  pub custom_id : String
  pub request : String
  pub status : String
  pub attempts : ℕ
  pub response : Option String
  pub error : Option String
  pub created_at : ℕ
  pub updated_at : ℕ

-- The libraries, with the texts of json.Marshal, and what is fixed for a request, as in Api/Completions.
pub record BatchEnv (F : Type 0) : Type 0 where
  pub libs : Libraries
  pub json : Json F
  pub forward_body : ChatRequest F → Option String
  pub sha256_hex : String → String
  pub shown : Uuid → String
  pub parse_id : String → Option Uuid
  pub byte_length : String → ℕ
  pub scope : Principal → String
  pub header : String
  pub render : ℕ → String → String → String
  pub marshal_created : BatchJobCreateResponse → Option String
  pub marshal_job : BatchJobResponse → String
  pub marshal_jobs : List BatchJobResponse → String
  pub marshal_items : List BatchItemResponse → String

-- What the handlers of one process share.
pub record BatchWorld (S : Type 0) : Type 0 where
  pub front : Front S
  pub store : MemStore
  pub queue : MemQueue

-- The world's answers: those of the gate; the clock and the new uuids of the creation, and its fate; the
-- clock at the mark of the outbox row, and its fate; and others' work on the idempotency store meanwhile.
pub record BatchAnswers (S : Type 0) : Type 0 where
  pub moment : Moment
  pub created_at : ℕ
  pub job_id : Uuid
  pub item_id : ℕ → Uuid
  pub outbox_id : Uuid
  pub creates : Fate
  pub marked_at : ℕ
  pub marks : Fate
  pub meanwhile : S → S

-- The items as they are handed to the store, which fills the rest.
unfoldable pub job_items : List BatchItemInput → List BatchJobItem
job_items [] = []
job_items (it ∷ its) =
    record {
      id = 0;
      job_id = 0;
      custom_id = it.custom_id;
      request = it.body;
      status = ItemStatus.queued;
      attempts = 0;
      response = none;
      error = none;
      created_at = 0;
      updated_at = 0;
    }
    ∷ job_items its

unfoldable pub new_job : Principal → String → BatchJob
new_job who model = record {
  id = 0;
  tenant_id = who.tenant_id;
  api_key_id = who.api_key_id;
  model = model;
  status = JobStatus.queued;
  total_items = 0;
  completed_items = 0;
  failed_items = 0;
  created_at = 0;
  updated_at = 0;
}

unfoldable pub to_create_response : BatchJob → BatchJobCreateResponse
unfolding job_status_string
to_create_response j = record {
  id = j.id;
  object = "batch_job";
  status = job_status_string j.status;
  total_items = j.total_items;
  completed_items = j.completed_items;
  failed_items = j.failed_items;
}

unfoldable pub to_batch_job_response : BatchJob → BatchJobResponse
unfolding job_status_string
to_batch_job_response j = record {
  id = j.id;
  object = "batch_job";
  status = job_status_string j.status;
  model = j.model;
  total_items = j.total_items;
  completed_items = j.completed_items;
  failed_items = j.failed_items;
  created_at = j.created_at;
  updated_at = j.updated_at;
}

unfoldable pub to_batch_item_response : BatchJobItem → BatchItemResponse
unfolding item_status_string
to_batch_item_response it = record {
  id = it.id;
  custom_id = it.custom_id;
  request = it.request;
  status = item_status_string it.status;
  attempts = it.attempts;
  response = it.response;
  error = it.error;
  created_at = it.created_at;
  updated_at = it.updated_at;
}

-- The outbox row after the one publish; `fate` is that of the mark, whose error is only logged.
after_publish : Fate → MemStore → ℕ → Uuid → Option String → MemStore
after_publish fate s now outbox none = leaves fate s (mark_outbox_published s now outbox).0
after_publish fate s now outbox (some e) =
    leaves fate s (mark_outbox_failed_attempt s now outbox e).0

module _ {S F : Type 0} (env : BatchEnv F) (c : Coordinator S) (now : BatchAnswers S) where
  created_response : Option String → Response
  unfolding error_response
  created_response none = error_response env.render 500 "internal" "could not encode response"
  created_response (some body) = record {
    status = 201;
    headers = ("Content-Type", json_type) ∷ [];
    body = body;
  }

  -- The transactional-outbox handoff of createBatchJob: the job with its items and its outbox row, and one
  -- publish.
  unfoldable pub hand_off : BatchWorld S → Principal → Gathered → BatchWorld S × Response
  unfolding error_response job_items new_job to_create_response after_publish created_response
  hand_off w who g =
      let (s, job, ob) =
        create_with_items_and_outbox w.store now.created_at now.job_id now.item_id now.outbox_id
          (new_job who g.model) (job_items g.items) in
      let (q, e) = publish w.queue (env.shown job.id) in
      let failed = error_response env.render 500 "internal" "could not create batch job" in
      let done : BatchWorld S = record w {
        store = after_publish now.marks s now.marked_at ob.id e;
        queue = q;
      } in
      if is_error now.creates
      then (record w { store = leaves now.creates w.store s }, failed)
      else (done, created_response (env.marshal_created (to_create_response job)))

  -- The response is sent once the record is resolved.
  sent : Option Uuid → BatchWorld S × Response → BatchWorld S × Response
  unfolding resolve
  sent id (w, r) =
      let front : Front S = record w.front {
        idem = resolve env.libs c env.render (now.meanwhile w.front.idem) id r;
      } in
      (record w { front = front }, r)

  passed : BatchWorld S → Principal → Gathered → Front S × Passage → BatchWorld S × Response
  unfolding hand_off sent
  passed w who g (front, turned_away r) = (record w { front = front }, r)
  passed w who g (front, admitted id) = sent id (hand_off (record w { front = front }) who g)

  with_gathered : BatchWorld S → Principal → String → Gathered → BatchWorld S × Response
  unfolding error_response enter passed
  with_gathered w who raw g =
      let ticket : Ticket = record {
        scope = env.scope who;
        key = env.header;
        raw_hash = env.sha256_hex raw;
      } in
      let too_long = error_response env.render 400 "bad_request" (
        concat "Idempotency-Key must not exceed "
          (concat (decimal max_idempotency_key_len) " characters")) in
      let worked = passed w who g (enter env.libs c env.render w.front now.moment ticket) in
      if ltb max_idempotency_key_len (env.byte_length env.header) then (w, too_long) else worked

  with_batch : BatchWorld S → Principal → String → Checked Gathered → BatchWorld S × Response
  unfolding error_response with_gathered
  with_batch w who raw (denied e) = (w, error_response env.render e.status e.code e.message)
  with_batch w who raw (granted g) = with_gathered w who raw g

  with_batch_read : BatchWorld S → Principal → BodyRead → BatchWorld S × Response
  unfolding error_response decode_batch_create with_batch
  with_batch_read w who too_large =
      (w, error_response env.render 413 "bad_request" "request body must not exceed 10 MiB")
  with_batch_read w who unreadable =
      (w, error_response env.render 400 "bad_request" "could not read request body")
  with_batch_read w who (read raw) =
      with_batch w who raw (decode_batch_create env.json env.forward_body raw)

  -- createBatchJob.
  unfoldable pub create_batch_job :
      BatchWorld S → Option Principal → BodyRead → BatchWorld S × Response
  unfolding error_response with_batch_read
  create_batch_job w none body =
      (w, error_response env.render 500 "internal" "missing authenticated principal")
  create_batch_job w (some who) body = with_batch_read w who body

-- writeJSON with 200.
ok_json : String → Response
ok_json body = record { status = 200; headers = ("Content-Type", json_type) ∷ []; body = body }

-- The reads, with a store that answers.
module _ {F : Type 0} (env : BatchEnv F) (s : MemStore) where
  no_principal : Response
  unfolding error_response
  no_principal = error_response env.render 500 "internal" "missing authenticated principal"

  not_found_response : Response
  unfolding error_response
  not_found_response = error_response env.render 404 "not_found" "batch job not found"

  -- listBatchJobs.
  unfoldable pub list_batch_jobs : Option Principal → Response
  unfolding no_principal ok_json
  list_batch_jobs none = no_principal
  list_batch_jobs (some who) =
      ok_json (env.marshal_jobs (map to_batch_job_response (list_jobs s who.tenant_id)))

  job_response : Option BatchJob → Response
  unfolding not_found_response ok_json
  job_response none = not_found_response
  job_response (some job) = ok_json (env.marshal_job (to_batch_job_response job))

  items_response : Option (List BatchJobItem) → Response
  unfolding not_found_response ok_json
  items_response none = not_found_response
  items_response (some its) = ok_json (env.marshal_items (map to_batch_item_response its))

  -- parseID, and then the read of the job.
  for_job : Option Uuid → (Uuid → Response) → Response
  unfolding error_response
  for_job none answer = error_response env.render 400 "bad_request" "invalid id"
  for_job (some id) answer = answer id

  -- getBatchJob.
  unfoldable pub get_batch_job : Option Principal → String → Response
  unfolding no_principal job_response for_job
  get_batch_job none id = no_principal
  get_batch_job (some who) id =
      for_job (env.parse_id id) (λ job. job_response (get s who.tenant_id job))

  -- listBatchJobItems.
  unfoldable pub list_batch_job_items : Option Principal → String → Response
  unfolding no_principal items_response for_job
  list_batch_job_items none id = no_principal
  list_batch_job_items (some who) id =
      for_job (env.parse_id id) (λ job. items_response (items s who.tenant_id job))
