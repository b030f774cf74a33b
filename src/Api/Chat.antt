-- ===== src/Api/Chat.antt =====
-- internal/api/chat.go: POST /v1/chat/completions, from the validated request to the response, with the
-- parts of internal/cache that it uses. The selector, the inference client, the readings of `ctx.Err()`,
-- Redis, SHA-256 and the JSON texts are parameters; logs and metrics are left out, and a panic of the
-- inference client is not modelled.
pub mod Calls
pub mod Cached
use Prim.Native.String.{◌++◌ as concat}
use aegis_route.Base.{
  ℕ, zero, suc, ◌+◌, Bool, true, false, ◌&&◌, not, string_key, ◌==◌, String, ltb, if◌then◌else◌,
  Option, none, some, List, [], ◌∷◌, ◌++◌,
}
use aegis_route.Base.Int.{ℤ, pos_part}
use aegis_route.Base.Map.{Map, lookup, insert}
use aegis_route.Models.{Uuid}
use aegis_route.Worker.{
  SelectFailure, no_backends, no_capacity, other_failure, DoAnswer, answered, do_failed, Verdict,
  success, failure, canceled,
}
use aegis_route.Api.Request.{ChatRequest}
use aegis_route.Api.Gate.{Response, json_type, error_response}

pub record Principal : Type 0 where
  pub tenant_id : Uuid
  pub api_key_id : Uuid

-- internal/cache/cache.go, Entry.
pub record Entry : Type 0 where
  pub status_code : ℕ
  pub content_type : String
  pub body : String

pub data CacheResult : Type 0 where
  hit miss bypass : CacheResult

unfoldable pub cache_result_string : CacheResult → String
cache_result_string hit = "hit"
cache_result_string miss = "miss"
cache_result_string bypass = "bypass"

-- strings.ToUpper of it.
unfoldable pub cache_result_upper : CacheResult → String
cache_result_upper hit = "HIT"
cache_result_upper miss = "MISS"
cache_result_upper bypass = "BYPASS"

-- internal/models, InferenceRequest: a row of the ledger.
pub record InferenceRow : Type 0 where
  pub tenant_id : Uuid
  pub api_key_id : Uuid
  pub model : String
  pub backend_id : Option Uuid
  pub cache_result : String
  pub succeeded : Bool
  pub latency_ms : ℕ
  pub request_hash : String

-- The cache; the slots released and the verdicts reported, by backend name, and the rows of the ledger,
-- oldest first.
pub record Stage : Type 0 where
  pub cache : Map String Entry
  pub released : List String
  pub reports : List (String × Verdict)
  pub ledger : List InferenceRow

-- A backend and the policy that chose it.
pub record Selection : Type 0 where
  pub id : Uuid
  pub name : String
  pub policy : String

pub data Pick : Type 0 where
  picked : Selection → Pick
  unpicked : SelectFailure → Pick

-- The answers to one turn of the loop: Do, the context when callBackend reads it and after the call,
-- and the milliseconds that the call took.
pub record CallTurn : Type 0 where
  pub do_answer : DoAnswer
  pub ended_call : Bool
  pub ended_after : Bool
  pub elapsed : ℤ

-- The cache in Redis: whether Get and Put get an answer.
pub record CacheFates : Type 0 where
  pub reads : Bool
  pub writes : Bool

-- What the handler knows of an admitted request.
pub record Plan : Type 0 where
  pub principal : Principal
  pub model : String
  pub body : String
  pub body_hash : String
  pub eligible : Bool
  pub canonical : Option String
  pub key : String

-- internal/cache/cache.go, Eligible, for a request that is no stream: an omitted temperature stands for
-- 1.0. `is_low` compares with 0.2.
unfoldable pub eligible : {F : Type 0} → (F → Bool) → ChatRequest F → Bool
eligible is_low req = elim req.temperature [ none ↦ false | some t ↦ is_low t ]

-- internal/cache/cache.go, Key, over SHA-256 and the text of one NUL.
unfoldable pub cache_key : (String → String) → String → String → String → String
cache_key sha256_hex nul scope canonical =
    concat "aegisroute:cache:" (sha256_hex (concat scope (concat nul canonical)))

-- entryContentType.
unfoldable pub entry_content_type : Entry → String
entry_content_type e = if e.content_type == "" then json_type else e.content_type

-- recordInference; a negative duration counts as 0.
unfoldable pub record_inference : Stage → Plan → Option Uuid → CacheResult → Bool → ℤ → Stage
unfolding cache_result_string
record_inference s plan backend result succeeded elapsed = record s {
  ledger =
      s.ledger
      ++ record {
        tenant_id = plan.principal.tenant_id;
        api_key_id = plan.principal.api_key_id;
        model = plan.model;
        backend_id = backend;
        cache_result = cache_result_string result;
        succeeded = succeeded;
        latency_ms = pos_part elapsed;
        request_hash = plan.body_hash;
      }
        ∷ [];
}

module _ (plan : Plan) (result : CacheResult) where
  -- One report, one row of the ledger, and the slot.
  called : Stage → Selection → Verdict → Bool → ℤ → Stage
  unfolding record_inference
  called s sel verdict succeeded elapsed =
      let s' : Stage = record s { reports = s.reports ++ (sel.name, verdict) ∷ [] } in
      let s'' = record_inference s' plan (some sel.id) result succeeded elapsed in
      record s'' { released = s''.released ++ sel.name ∷ [] }

  call_with : Stage → Selection → Bool → ℤ → DoAnswer → Stage × Bool
  unfolding called
  call_with s sel ended elapsed (answered body) = (called s sel success true elapsed, false)
  call_with s sel ended elapsed (do_failed text transient) =
      if ended
      then (called s sel canceled false elapsed, false)
      else if transient
      then (called s sel failure false elapsed, true)
      else (called s sel success false elapsed, false)

  -- callBackend: what it leaves, and whether to fail over; the answer is Do's.
  unfoldable pub call_backend : Stage → Selection → CallTurn → Stage × Bool
  unfolding call_with
  call_backend s sel turn = call_with s sel turn.ended_call turn.elapsed turn.do_answer

-- selectErrorParts; `quoted` is the text that %q prints.
unfoldable pub select_error_parts :
    (String → String) → String → SelectFailure → Bool → ℕ × String × String
select_error_parts quoted model no_backends false =
    (404, "not_found", concat "model " (concat (quoted model) " is not served by any backend"))
select_error_parts quoted model no_backends true =
    (503, "upstream_unavailable", "no backend is currently available for this model")
select_error_parts quoted model no_capacity failed_over =
    (503, "upstream_unavailable", "no backend is currently available for this model")
select_error_parts quoted model (other_failure text) failed_over =
    (500, "internal", "routing failed")

-- upstreamErrorParts, by whether the error is transient.
unfoldable pub upstream_error_parts : Bool → ℕ × String × String
upstream_error_parts transient =
    (if transient then 503 else 502, "upstream_unavailable", "upstream backend request failed")

abbrev pub is_empty {ℓ} : {A : Type ℓ} → List A → Bool
is_empty [] = true
is_empty (x ∷ xs) = false

module _ (render : ℕ → String → String → String) (quoted : String → String) (fates : CacheFates)
    (select : ℕ → List Uuid → Pick) (turns : ℕ → CallTurn) (plan : Plan)
    (result : CacheResult) where
  error_parts : ℕ × String × String → Response
  unfolding error_response
  error_parts (status, code, message) = error_response render status code message

  -- The 200 of a backend's answer, stored in the cache first.
  completed : Stage → Selection → String → Stage × Response
  unfolding cache_result_upper
  completed s sel body =
      let entry : Entry = record { status_code = 200; content_type = json_type; body = body } in
      let stored : Stage = record s { cache = insert plan.key entry s.cache } in
      (
        if plan.eligible && fates.writes then stored else s,
        record {
          status = 200;
          headers =
              ("Content-Type", json_type)
              ∷ ("X-AegisRoute-Backend", sel.name)
              ∷ ("X-AegisRoute-Routing-Policy", sel.policy)
              ∷ ("X-AegisRoute-Cache", cache_result_upper result)
              ∷ [];
          body = body;
        },
      )

  -- The turn once Do has answered; `again` is the turns after it.
  after_call :
      List Uuid
      → CallTurn
      → Selection
      → Stage × Bool
      → DoAnswer
      → Stage × Option Response
      → Stage × Option Response
  unfolding completed error_parts upstream_error_parts
  after_call tried turn sel (s, failover) (answered body) again =
      let (s', r) = completed s sel body in (s', some r)
  after_call tried turn sel (s, failover) (do_failed text transient) again =
      if failover && not turn.ended_after
      then again
      else (s, some (error_parts (upstream_error_parts transient)))

  after_select :
      List Uuid
      → CallTurn
      → Stage
      → Pick
      → (List Uuid → Stage → Stage × Option Response)
      → Stage × Option Response
  unfolding error_parts select_error_parts call_backend after_call
  after_select tried turn s (unpicked e) again =
      (s, some (error_parts (select_error_parts quoted plan.model e (not (is_empty tried)))))
  after_select tried turn s (picked sel) again =
      let r = call_backend plan result s sel turn in
      after_call tried turn sel r turn.do_answer (again (tried ++ sel.id ∷ []) r.0)

  -- The failover loop from its i-th turn; `none` when the fuel runs out.
  unfoldable pub route_from : ℕ → ℕ → List Uuid → Stage → Stage × Option Response
  unfolding after_select
  route_from zero i tried s = (s, none)
  route_from (suc fuel) i tried s =
      after_select tried (turns i) s (select i tried) (route_from fuel (suc i))

module _ (render : ℕ → String → String → String) (quoted : String → String) (fates : CacheFates)
    (select : ℕ → List Uuid → Pick) (turns : ℕ → CallTurn) (plan : Plan) (fuel : ℕ) where
  -- The response of a cached entry: no backend is called.
  unfoldable pub cache_hit : Stage → Entry → Stage × Response
  unfolding record_inference entry_content_type
  cache_hit s entry = (
    record_inference s plan none hit true (ℤ.pos 0),
    record {
      status = entry.status_code;
      headers = ("Content-Type", entry_content_type entry) ∷ ("X-AegisRoute-Cache", "HIT") ∷ [];
      body = entry.body;
    },
  )

  after_get : Stage → Option Entry → Stage × Option Response
  unfolding cache_hit route_from
  after_get s (some entry) = let (s', r) = cache_hit s entry in (s', some r)
  after_get s none = route_from render quoted fates select turns plan miss fuel 0 [] s

  with_canonical : Stage → Option String → Stage × Option Response
  unfolding error_response after_get
  with_canonical s none =
      (s, some (error_response render 500 "internal" "could not canonicalize request"))
  with_canonical s (some canonical) =
      after_get s (if fates.reads then lookup plan.key s.cache else none)

  -- The handler's work for an admitted request: the cache, and the failover loop.
  unfoldable pub serve : Stage → Stage × Option Response
  unfolding route_from with_canonical
  serve s =
      let routed = route_from render quoted fates select turns plan bypass fuel 0 [] s in
      if plan.eligible then with_canonical s plan.canonical else routed
