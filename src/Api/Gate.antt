-- ===== src/Api/Gate.antt =====
-- internal/api/chat.go and middleware.go: what the two POST handlers share. A new request passes the
-- idempotency check, the rate limiter and Begin, in this order; every response of an admitted request
-- resolves its record. The rate limiter's answer and the rendering of the error envelope are parameters.
pub mod Retry
use aegis_route.Base.{
  ℕ, ◌+◌, Bool, true, false, string_key, ◌==◌, String, leb, if◌then◌else◌, Option, none, some, List,
  [], ◌∷◌,
}
use aegis_route.Base.Map.{Map}
use aegis_route.Models.{Uuid}
use aegis_route.Idempotency.{
  Libraries, Coordinator, Decision, Action, StoredResponse, without_request_id, check, begin,
  complete, release,
}

-- A response as the handler writes it; the middleware's X-Request-ID is not part of it.
pub record Response : Type 0 where
  pub status : ℕ
  pub headers : Map String String
  pub body : String

-- The answer of the rate limiter's Allow.
pub data RateAnswer : Type 0 where
  allowed limited limiter_down : RateAnswer

-- The idempotency store, and how many times Allow was called.
pub record Front (S : Type 0) : Type 0 where
  pub idem : S
  pub allow_calls : ℕ

-- A request as the gate sees it: its scope, its Idempotency-Key without blanks around it, and the hash of
-- its raw body.
pub record Ticket : Type 0 where
  pub scope : String
  pub key : String
  pub raw_hash : String

-- The world's answers: the clock at Check and at Begin, and at Begin's second lookup; the new record's
-- uuid; and the limiter's answer.
pub record Moment : Type 0 where
  pub checked : ℕ
  pub began : ℕ
  pub late : ℕ
  pub id : Uuid
  pub rate : RateAnswer

-- What the gate comes to: a response, or the record that the request has opened, if it has a key.
pub data Passage : Type 0 where
  turned_away : Response → Passage
  admitted : Option Uuid → Passage

abbrev pub json_type : String
json_type = "application/json; charset=utf-8"

-- internal/httperror/httperror.go, Write; `render` gives the envelope's text, with the request's id.
unfoldable pub error_response : (ℕ → String → String → String) → ℕ → String → String → Response
error_response render status code message = record {
  status = status;
  headers = ("Content-Type", json_type) ∷ [];
  body = render status code message;
}

module _ {S : Type 0} (libs : Libraries) (c : Coordinator S)
    (render : ℕ → String → String → String) where
  stored_response : Option StoredResponse → Option Response
  unfolding without_request_id
  stored_response none = none
  stored_response (some stored) = some (record {
    status = stored.status;
    headers = without_request_id libs stored.headers;
    body = stored.body;
  })

  -- applyIdempotencyDecision: the response that it writes, if it does; a replay carries its response.
  unfoldable pub apply_idempotency_decision : Decision → Option Response
  unfolding stored_response error_response
  apply_idempotency_decision dec = elim dec.action [
    | Action.replay ↦ stored_response dec.stored
    | Action.conflict_body ↦ some (
        error_response render 409 "conflict"
          "Idempotency-Key was reused with a different request body")
    | Action.in_progress ↦
        some (error_response render 409 "conflict" "request is already in progress")
    | Action.proceed ↦ none
    | Action.started ↦ none
  ]

  -- allowRate: the response of a caller who is over the limit; an error of the limiter lets pass.
  unfoldable pub allow_rate : RateAnswer → Option Response
  unfolding error_response
  allow_rate allowed = none
  allow_rate limiter_down = none
  allow_rate limited =
      some (error_response render 429 "rate_limited" "rate limit exceeded for this API key")

  after_decision : Option Response → Option Uuid → Passage
  after_decision (some r) id = turned_away r
  after_decision none id = admitted id

  started_or : Decision → Passage
  unfolding apply_idempotency_decision after_decision
  started_or dec = elim dec.action [
    | Action.started ↦ admitted dec.record_id
    | _ ↦ after_decision (apply_idempotency_decision dec) none
  ]

  begun : Option Decision → Passage
  unfolding error_response started_or
  begun none = turned_away (error_response render 500 "internal" "idempotency begin failed")
  begun (some dec) = started_or dec

  -- The gate from Begin.
  open_record : Front S → Moment → Ticket → Front S × Passage
  unfolding begun
  open_record w now req =
      let (s, dec) = begin libs c w.idem now.began now.late now.id req.scope req.key req.raw_hash in
      if req.key == "" then (w, admitted none) else (record w { idem = s }, begun dec)

  rated : Front S → Moment → Ticket → Option Response → Front S × Passage
  unfolding open_record
  rated w now req (some r) = (w, turned_away r)
  rated w now req none = open_record w now req

  -- The gate from the rate limiter.
  limit : Front S → Moment → Ticket → Front S × Passage
  unfolding allow_rate rated
  limit w now req =
      rated (record w { allow_calls = w.allow_calls + 1 }) now req (allow_rate now.rate)

  after_check : Front S → Moment → Ticket → Option Response → Front S × Passage
  unfolding limit
  after_check w now req (some r) = (w, turned_away r)
  after_check w now req none = limit w now req

  checked : Front S → Moment → Ticket → Option Decision → Front S × Passage
  unfolding error_response apply_idempotency_decision after_check
  checked w now req none =
      (w, turned_away (error_response render 500 "internal" "idempotency lookup failed"))
  checked w now req (some dec) = after_check w now req (apply_idempotency_decision dec)

  -- The handlers' part from the idempotency lookup to the opened record.
  unfoldable pub enter : Front S → Moment → Ticket → Front S × Passage
  unfolding limit checked
  enter w now req =
      if req.key == ""
      then limit w now req
      else checked w now req (check libs c w.idem now.checked req.scope req.key req.raw_hash)

  -- respondChat's part that resolves an opened record.
  unfoldable pub resolve : S → Option Uuid → Response → S
  resolve s none r = s
  resolve s (some id) r =
      if leb 500 r.status
      then (release libs c s id).0
      else (complete libs c s id r.status r.headers r.body).0
