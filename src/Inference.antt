-- ===== src/Inference.antt =====
-- internal/inference/client.go: one outbound call with bounded retries.
-- A Round is what the world does around one attempt: the reply of `net/http`, whether the caller's
-- context has ended by then, and whether the wait before the attempt ran to its end. Request bodies,
-- urls and the times of the duration histogram are left out.
pub mod Backoff
pub mod Attempts
mod Scenarios
use aegis_route.Base.{
  ℕ, zero, suc, ◌+◌, Bool, true, false, ◌&&◌, ◌||◌, not, nat_key, ◌==◌, String, ltb, leb,
  if◌then◌else◌, Option, none, some, List, [], ◌∷◌, ◌++◌,
}
use aegis_route.Base.Int.{ℤ, pos, ltb_ℤ, leb_ℤ, pos_part}
use Prim.Native.Nat.{pred}
use Backoff.{backoff}

-- The metric labels.
pub data Outcome : Type 0 where
  success transient_error permanent_error canceled : Outcome

pub record Response : Type 0 where
  pub status_code : ℕ
  pub body : String

-- The error that an Error wraps.
pub data Cause : Type 0 where
  no_cause context_ended response_too_large transport_failed bad_request_url : Cause

pub record Error : Type 0 where
  pub backend : String
  pub status : ℕ
  pub transient : Bool
  pub cause : Cause

-- What `net/http` makes of one request. `size` counts the bytes of the body that `io.LimitReader` let
-- through.
pub data Transport : Type 0 where
  malformed send_failed : Transport
  read_failed close_failed : ℕ → Transport
  reply : (status size : ℕ) → String → Transport

pub record Round : Type 0 where
  pub transport : Transport
  pub ended : Bool
  pub ended_after : Bool
  pub waited : Bool

pub data Result : Type 0 where
  replied : Response → Result
  failed : Error → Result

-- The fields of Config that the control flow reads.
pub record Config : Type 0 where
  pub max_attempts : ℤ
  pub backoff_base : ℕ
  pub backoff_max : ℕ
  pub max_response_bytes : ℤ

pub record Client : Type 0 where
  pub max_attempts : ℕ
  pub backoff_base : ℕ
  pub backoff_max : ℕ
  pub max_response_bytes : ℕ

abbrev pub default_max_response_bytes : ℕ
default_max_response_bytes = 10485760

-- New, for the fields above.
unfoldable pub new : Config → Client
new cfg = record {
  max_attempts = if ltb_ℤ cfg.max_attempts (pos 1) then 1 else pos_part cfg.max_attempts;
  backoff_base = cfg.backoff_base;
  backoff_max = cfg.backoff_max;
  max_response_bytes =
      if leb_ℤ cfg.max_response_bytes (pos 0)
      then default_max_response_bytes
      else pos_part cfg.max_response_bytes;
}

unfoldable pub is_transient : Result → Bool
is_transient (replied r) = false
is_transient (failed e) = e.transient

abbrev pub failure : String → ℕ → Bool → Cause → Result
failure backend status transient cause =
    failed (record { backend = backend; status = status; transient = transient; cause = cause })

classify : Client → String → ℕ → ℕ → String → Result × List Outcome
classify c backend status size body =
    if ltb c.max_response_bytes size
    then (failure backend status false response_too_large, permanent_error ∷ [])
    else if leb 200 status && ltb status 300
    then (replied (record { status_code = status; body = body }), success ∷ [])
    else if status == 502 || (status == 503 || status == 504)
    then (failure backend status true no_cause, transient_error ∷ [])
    else (failure backend status false no_cause, permanent_error ∷ [])

attempt_at : Client → String → Bool → Transport → Result × List Outcome
unfolding classify
attempt_at c backend ended malformed = (failure backend 0 false bad_request_url, [])
attempt_at c backend ended send_failed =
    if ended
    then (failure backend 0 false context_ended, canceled ∷ [])
    else (failure backend 0 true transport_failed, transient_error ∷ [])
attempt_at c backend ended (read_failed status) =
    if ended
    then (failure backend status false context_ended, canceled ∷ [])
    else (failure backend status true transport_failed, transient_error ∷ [])
attempt_at c backend ended (close_failed status) =
    (failure backend status true transport_failed, transient_error ∷ [])
attempt_at c backend ended (reply status size body) = classify c backend status size body

-- attempt: the result and the outcomes observed (one, but none for a malformed url).
unfoldable pub attempt : Client → String → Round → Result × List Outcome
unfolding attempt_at
attempt c backend r = attempt_at c backend r.ended r.transport

-- What a call leaves in the metrics, and the waits that it asked for.
pub record Trace : Type 0 where
  pub attempts : ℕ
  pub outcomes : List Outcome
  pub retries : ℕ
  pub waits : List ℕ

abbrev pub start : Trace
start = record { attempts = 0; outcomes = []; retries = 0; waits = [] }

-- One attempt, recorded.
observe : Trace → List Outcome → Trace
observe t os = record t { attempts = t.attempts + 1; outcomes = t.outcomes ++ os }

abbrev is_replied : Result → Bool
is_replied (replied r) = true
is_replied (failed e) = false

-- The result of this attempt ends the call.
ends : Result → Round → Bool
unfolding is_transient
ends result r = is_replied result || (not (is_transient result) || r.ended_after)

-- `math/rand` draws the k-th jitter below a bound; `rounds i` is the round of the attempt after the
-- i-th.
module _ (int63n : ℕ → ℕ → ℕ) (c : Client) (backend : String) (rounds : ℕ → Round) where
  -- The wait before the retry that follows the i-th attempt, and the retry's count.
  wait : ℕ → Trace → Trace
  unfolding backoff
  wait i t = record t { waits = t.waits ++ backoff int63n i c.backoff_base c.backoff_max i ∷ [] }

  count_retry : Trace → Trace
  count_retry t = record t { retries = t.retries + 1 }

  -- The rounds after the i-th attempt, with `last` the error of that attempt.
  unfoldable pub retry : ℕ → ℕ → Result → Trace → Result × Trace
  unfolding wait count_retry observe ends
  retry zero i last t = (last, t)
  retry (suc left) i last t =
      let r = rounds i in
      let waiting = wait i t in
      let (result, os) = attempt c backend r in
      let t' = observe (count_retry waiting) os in
      let rest = retry left (suc i) result t' in
      if not r.waited
      then (failure backend 0 false context_ended, waiting)
      else if ends result r
      then (result, t')
      else rest

  -- Do, with the first attempt apart: it has no wait before it.
  unfoldable pub do_call : Result × Trace
  unfolding retry
  do_call =
      let r = rounds 0 in
      let (result, os) = attempt c backend r in
      let t = observe start os in
      let rest = retry (pred c.max_attempts) 1 result t in
      if ends result r then (result, t) else rest
