-- ===== src/Api/Completions.antt =====
-- internal/api/chat.go, chatCompletions: the handler from the raw body to the response.
pub mod Retried
use Prim.Native.String.{◌++◌ as concat}
use aegis_route.Base.{
  ℕ, ◌≡◌, ◌≢◌, refl, Bool, string_key, ◌==◌, String, ltb, if◌then◌else◌, if-both, Option, none,
  some, List, [], ◌∷◌, arith,
}
use aegis_route.Base.Text.{decimal}
use aegis_route.Models.{Uuid}
use aegis_route.Idempotency.{Libraries, Coordinator}
use aegis_route.Api.Request.{
  ChatRequest, ChatError, Checked, denied, granted, Json, decode_chat_request,
}
use aegis_route.Api.Gate.{
  Response, Front, Ticket, Moment, Passage, turned_away, admitted, error_response, enter, resolve,
}
use aegis_route.Api.Chat.{
  Principal, Stage, Pick, CallTurn, CacheFates, Plan, eligible, cache_key, serve,
}

-- What readChatBody comes to.
pub data BodyRead : Type 0 where
  read : String → BodyRead
  too_large unreadable : BodyRead

-- The libraries, with json.Marshal on the forwarded and on the canonical request, and what is fixed for a
-- request: the rendering of errors with its id, and its route's scope. `header` is the trimmed
-- Idempotency-Key.
pub record Env (F : Type 0) : Type 0 where
  pub libs : Libraries
  pub json : Json F
  pub is_low : F → Bool
  pub forward_body : ChatRequest F → Option String
  pub canonical_body : ChatRequest F → Option String
  pub sha256_hex : String → String
  pub nul : String
  pub shown : Uuid → String
  pub byte_length : String → ℕ
  pub scope : Principal → String
  pub header : String
  pub render : ℕ → String → String → String

pub record World (S : Type 0) : Type 0 where
  pub front : Front S
  pub stage : Stage

-- The answers of the world during a request; `meanwhile` is what others do to the idempotency store
-- between Begin and the response, and `fuel` bounds the failover loop.
pub record Answers (S : Type 0) : Type 0 where
  pub moment : Moment
  pub fates : CacheFates
  pub select : ℕ → List Uuid → Pick
  pub turns : ℕ → CallTurn
  pub fuel : ℕ
  pub meanwhile : S → S

abbrev pub max_idempotency_key_len : ℕ
max_idempotency_key_len = 255

module _ {S F : Type 0} (env : Env F) (c : Coordinator S) (now : Answers S) where
  key_of : String → Option String → String
  unfolding cache_key
  key_of scope none = ""
  key_of scope (some canonical) = cache_key env.sha256_hex env.nul scope canonical

  unfoldable pub plan_of : Principal → ChatRequest F → String → Plan
  unfolding eligible key_of
  plan_of who req body =
      let scope = concat (env.shown who.tenant_id) (concat ":" (env.shown who.api_key_id)) in
      record {
        principal = who;
        model = req.model;
        body = body;
        body_hash = env.sha256_hex body;
        eligible = eligible env.is_low req;
        canonical = env.canonical_body req;
        key = key_of scope (env.canonical_body req);
      }

  unfoldable pub ticket_of : Principal → String → Ticket
  ticket_of who raw = record {
    scope = env.scope who;
    key = env.header;
    raw_hash = env.sha256_hex raw;
  }

  -- The response is sent once the record is resolved.
  respond : World S → Option Uuid → Stage × Option Response → Option (World S × Response)
  unfolding resolve
  respond w id (stage, none) = none
  respond w id (stage, some r) =
      let front : Front S = record w.front {
        idem = resolve env.libs c env.render (now.meanwhile w.front.idem) id r;
      } in
      some (record { front = front; stage = stage }, r)

  admit : World S → Plan → Front S × Passage → Option (World S × Response)
  unfolding respond serve
  admit w plan (front, turned_away r) = some (record w { front = front }, r)
  admit w plan (front, admitted id) =
      respond (record w { front = front }) id
        (serve env.render env.json.quoted now.fates now.select now.turns plan now.fuel w.stage)

  with_body :
      World S → Principal → String → ChatRequest F → Option String → Option (World S × Response)
  unfolding error_response enter plan_of ticket_of admit
  with_body w who raw req none =
      some (w, error_response env.render 500 "internal" "could not encode upstream request")
  with_body w who raw req (some body) =
      let too_long = error_response env.render 400 "bad_request" (
        concat "Idempotency-Key must not exceed "
          (concat (decimal max_idempotency_key_len) " characters")) in
      let worked =
        admit w (plan_of who req body)
          (enter env.libs c env.render w.front now.moment (ticket_of who raw)) in
      if ltb max_idempotency_key_len (env.byte_length env.header)
      then some (w, too_long)
      else worked

  with_request :
      World S → Principal → String → Checked (ChatRequest F) → Option (World S × Response)
  unfolding error_response with_body
  with_request w who raw (denied e) = some (w, error_response env.render e.status e.code e.message)
  with_request w who raw (granted req) = with_body w who raw req (env.forward_body req)

  with_read : World S → Principal → BodyRead → Option (World S × Response)
  unfolding error_response decode_chat_request with_request
  with_read w who too_large =
      some (w, error_response env.render 413 "bad_request" "request body must not exceed 1 MiB")
  with_read w who unreadable =
      some (w, error_response env.render 400 "bad_request" "could not read request body")
  with_read w who (read raw) = with_request w who raw (decode_chat_request env.json raw)

  -- chatCompletions; `none` when the failover loop has no fuel left.
  unfoldable pub chat_completions :
      World S → Option Principal → BodyRead → Option (World S × Response)
  unfolding error_response with_read
  chat_completions w none body =
      some (w, error_response env.render 500 "internal" "missing authenticated principal")
  chat_completions w (some who) body = with_read w who body
