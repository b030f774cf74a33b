-- ===== src/Api/Scenarios.antt =====
-- A completion request that is served by a backend, cached and retried, and one that is refused.
use aegis_route.Base.{
  ℕ, ◌≡◌, refl, Bool, true, false, nat_key, string_key, pair_key, ◌==◌, String, ltb, if◌then◌else◌,
  Option, none, some, List, [], ◌∷◌, arith,
}
use aegis_route.Base.Int.{pos}
use aegis_route.Base.Map.{Map, lookup}
use aegis_route.Models.{Uuid}
use aegis_route.Worker.{no_backends, answered}
use aegis_route.Worker.Items.{has}
use aegis_route.Idempotency.{Libraries, check, begin, without_request_id}
use aegis_route.Idempotency.Repo.{
  Table, Jsonb, column, idempotency_repo, begin_record, pending_record, lookup_record,
}
use aegis_route.Idempotency.Repo.Records.{run}
use aegis_route.Idempotency.Replay.{over}
use aegis_route.Api.Request.{
  ChatRequest, Json, object, granted, decode_chat_request, unmarshal_field, unknown_field,
  parse_messages, parse_entries, parse_stop, and_then, bad_request,
}
use aegis_route.Api.Request.Valid.{IsPlain, IsCanonical, decode_chat_request-IsCanonical}
use aegis_route.Api.Gate.{
  Response, json_type, allowed, admitted, enter, apply_idempotency_decision, allow_rate,
}
use aegis_route.Api.Gate.Retry.{Replays}
use aegis_route.Api.Chat.{
  Principal, Stage, Selection, Pick, picked, unpicked, CallTurn, Plan, hit, serve, record_inference,
  route_from, call_backend, cache_result_upper,
}
use aegis_route.Api.Chat.Cached.{serve-cached}
use aegis_route.Api.Completions.{read, Env, World, Answers, chat_completions, ticket_of}
use aegis_route.Api.Completions.Retried.{chat_completions-retry}

-- A body with a model and one turn.
abbrev pub fields : Map String String
fields = ("model", "\"llama\"") ∷ ("messages", "[m]") ∷ []

abbrev pub turn : Map String String
turn = ("role", "\"user\"") ∷ ("content", "\"hi\"") ∷ []

abbrev pub unquoted : String → Option String
unquoted raw =
    if raw == "\"llama\""
    then some "llama"
    else if raw == "\"user\""
    then some "user"
    else if raw == "\"hi\""
    then some "hi"
    else none

abbrev pub json : Json ℕ
json = record {
  decode = λ raw. if raw == "odd" then object (("MODEL", "1") ∷ []) else object fields;
  more = λ raw. false;
  unmarshal = λ raw. object fields;
  bool_of = λ raw. none;
  string_of = unquoted;
  float_of = λ raw. none;
  int_of = λ raw. none;
  strings_of = λ raw. none;
  objects_of = λ raw. some (turn ∷ []);
  is_blank = λ s. s == "";
  quoted = λ s. s;
  below_zero = λ t. false;
  above_two = λ t. ltb 2 t;
}

abbrev pub parsed : ChatRequest ℕ
parsed = record {
  model = "llama";
  messages = record { role = "user"; content = "hi" } ∷ [];
  temperature = none;
  max_tokens = none;
  stop = [];
}

parses : decode_chat_request json "body" ≡ granted parsed
unfolding decode_chat_request unmarshal_field unknown_field parse_messages parse_entries parse_stop
    and_then bad_request lookup
parses = refl

decode_chat_request-IsCanonical_example :
    ((fs : Map String String) × (json.decode "body" ≡ object fs)
      × (json.more "body" ≡ false)
      × IsPlain json fs)
    × IsCanonical json parsed
decode_chat_request-IsCanonical_example = decode_chat_request-IsCanonical json "body" parsed parses

abbrev reply_headers : Map String String
reply_headers =
    ("Content-Type", json_type)
    ∷ ("X-AegisRoute-Backend", "fast")
    ∷ ("X-AegisRoute-Routing-Policy", "priority")
    ∷ ("X-AegisRoute-Cache", "BYPASS")
    ∷ []

abbrev pub libraries : Libraries
libraries = record {
  marshal = λ h. "headers";
  unmarshal = λ text. some reply_headers;
  equal_fold = λ a b. a == b;
}

abbrev column_text : Jsonb
column_text = record { is_blank = λ text. text == ""; jsonb = λ text. some text }

abbrev pub env : Env ℕ
env = record {
  libs = libraries;
  json = json;
  is_low = λ t. t == 0;
  forward_body = λ req. some "forwarded";
  canonical_body = λ req. some "canonical";
  sha256_hex = λ s. s;
  nul = " ";
  shown = λ id. "id";
  byte_length = λ s. 3;
  scope = λ who. "scope";
  header = "key";
  render = λ status code message. message;
}

abbrev pub caller : Principal
caller = record { tenant_id = 1; api_key_id = 2 }

abbrev idle_stage : Stage
idle_stage = record { cache = []; released = []; reports = []; ledger = [] }

abbrev start : World Table
start = record { front = record { idem = []; allow_calls = 0 }; stage = idle_stage }

abbrev fast : Selection
fast = record { id = 1; name = "fast"; policy = "priority" }

abbrev pick_one : Bool → Pick
pick_one false = picked fast
pick_one true = unpicked no_backends

abbrev select_one : ℕ → List Uuid → Pick
select_one i tried = pick_one (has 1 tried)

abbrev replies : ℕ → CallTurn
replies i = record {
  do_answer = answered "reply";
  ended_call = false;
  ended_after = false;
  elapsed = pos 4;
}

abbrev first_try : Answers Table
first_try = record {
  moment = record { checked = 10; began = 10; late = 10; id = 5; rate = allowed };
  fates = record { reads = true; writes = true };
  select = select_one;
  turns = replies;
  fuel = 2;
  meanwhile = λ t. run column_text t [];
}

abbrev second_try : Answers Table
second_try = record first_try {
  moment = record { checked = 90; began = 90; late = 90; id = 6; rate = allowed };
}

abbrev cached_plan : Plan
cached_plan = record {
  principal = caller;
  model = "llama";
  body = "forwarded";
  body_hash = "hash";
  eligible = true;
  canonical = some "canonical";
  key = "cache-key";
}

abbrev after_first : Stage × Option Response
after_first = serve env.render (λ s. s) first_try.fates select_one replies cached_plan 2 idle_stage

abbrev reply : Response
reply = record {
  status = 200;
  headers =
      ("Content-Type", json_type)
      ∷ ("X-AegisRoute-Backend", "fast")
      ∷ ("X-AegisRoute-Routing-Policy", "priority")
      ∷ ("X-AegisRoute-Cache", "MISS")
      ∷ [];
  body = "reply";
}

replied : after_first ≡ (after_first.0, some reply)
unfolding serve route_from lookup call_backend cache_result_upper
replied = refl

serve-cached_example :
    let again =
      serve env.render (λ s. s) first_try.fates select_one replies cached_plan 2 after_first.0 in
    (again.1
      ≡ some (record {
        status = 200;
        headers = ("Content-Type", json_type) ∷ ("X-AegisRoute-Cache", "HIT") ∷ [];
        body = "reply";
      }))
    × (again.0 ≡ record_inference after_first.0 cached_plan none hit true (pos 0))
serve-cached_example =
    serve-cached env.render (λ s. s) first_try.fates first_try.fates select_one select_one replies
      replies cached_plan 2 2 idle_stage after_first.0 "canonical" reply refl refl refl refl
      (unfold lookup in refl) replied refl

abbrev bypassed : Response
bypassed = record { status = 200; headers = reply_headers; body = "reply" }

-- What the first try comes to.
abbrev outcome : World Table × Response
outcome =
    elim (chat_completions env (over column_text 1000 60) first_try start (some caller)
        (read "body"))
      as (λ o. World Table × Response) [ none ↦ (start, bypassed) | some x ↦ x ]

entered :
    (enter libraries
      (over column_text 1000 60)
      env.render
      start.front
      first_try.moment
      (ticket_of env (over column_text 1000 60) first_try caller "body")).1
    ≡ admitted (some 5)
unfolding enter ticket_of apply_idempotency_decision allow_rate lookup begin idempotency_repo
    begin_record pending_record check lookup_record
entered = refl

served :
    chat_completions env (over column_text 1000 60) first_try start (some caller) (read "body")
    ≡ some (outcome.0, bypassed)
unfolding chat_completions enter ticket_of apply_idempotency_decision allow_rate lookup begin
    idempotency_repo begin_record pending_record check lookup_record and_then
served = refl

chat_completions-retry_example :
    (r' : Response) × Replays libraries column_text 1000 60 env.render bypassed (some "reply") r'
    × (chat_completions env
          (over column_text 1000 60)
          second_try
          (record {
            front = record { idem = run column_text outcome.0.front.idem []; allow_calls = 1 };
            stage = outcome.0.stage;
          })
          (some caller)
          (read "body")
        ≡ some (
          record {
            front = record { idem = run column_text outcome.0.front.idem []; allow_calls = 1 };
            stage = outcome.0.stage;
          },
          r',
        ))
chat_completions-retry_example =
    chat_completions-retry env column_text 1000 60 first_try second_try start outcome.0 caller
      "body" parsed "forwarded" 5 bypassed (some "reply") [] [] 1 outcome.0.stage parses refl refl
      refl entered served (omega arith) (λ t. refl)
      (unfold column without_request_id in ("headers", reply_headers, refl, refl, refl, λ k. refl))
      tt (unfold column in refl) tt (omega arith)
