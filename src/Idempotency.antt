-- ===== src/Idempotency.antt =====
-- internal/idempotency/idempotency.go: the meaning of a stored record, and the coordinator over a store.
-- The store is an interface, which Idempotency/Repo fills with the table of internal/db; an error
-- answer of it is `none`. `encoding/json` and `strings.EqualFold` are parameters.
pub mod Repo
pub mod Replay
pub mod Started
mod Scenarios
use aegis_route.Base.{
  ℕ, Bool, true, false, ◌&&◌, not, nat_key, string_key, ◌==◌, String, ltb, leb, if◌then◌else◌,
  Option, none, some, List, [], ◌∷◌,
}
use aegis_route.Base.Map.{Map}
use aegis_route.Models.{Uuid, IdempotencyRecord, IdempotencyStatus}

pub data Outcome : Type 0 where
  absent replay conflict_body in_progress stale : Outcome

abbrev pub is_completed : IdempotencyStatus → Bool
is_completed IdempotencyStatus.completed = true
is_completed IdempotencyStatus.pending = false

-- The lock of a pending record holds.
abbrev pub is_locked : ℕ → Option ℕ → Bool
is_locked now none = false
is_locked now (some until) = ltb now until

unfoldable pub classify : Option IdempotencyRecord → String → ℕ → Outcome
classify none request_hash now = absent
classify (some rec) request_hash now =
    if not (ltb now rec.expires_at)
    then absent
    else if not (rec.request_hash == request_hash)
    then conflict_body
    else if is_completed rec.status
    then replay
    else if is_locked now rec.locked_until
    then in_progress
    else stale

pub record LookupResult : Type 0 where
  pub outcome : Outcome
  pub rec : Option IdempotencyRecord

-- The answer of Begin: the new record's id, ErrRecordActive, or another error.
pub data BeginAnswer : Type 0 where
  began : Uuid → BeginAnswer
  record_active begin_failed : BeginAnswer

-- IdempotencyStore over a state of type S. `now` is the clock's reading, and the uuid of `begin` is the
-- one that a new or reclaimed record gets.
pub record IdempotencyStore (S : Type 0) : Type 0 where
  pub lookup : S → ℕ → String → String → String → Option LookupResult
  pub begin : S → ℕ → Uuid → String → String → String → ℕ → ℕ → S × BeginAnswer
  pub complete : S → Uuid → ℕ → String → String → S × Bool
  pub release : S → Uuid → S × Bool

pub record StoredResponse : Type 0 where
  pub status : ℕ
  pub headers : Map String String
  pub body : String

pub data Action : Type 0 where
  proceed started replay conflict_body in_progress : Action

pub record Decision : Type 0 where
  pub action : Action
  pub record_id : Option Uuid
  pub stored : Option StoredResponse

abbrev pub decision : Action → Decision
decision a = record { action = a; record_id = none; stored = none }

-- The libraries that the coordinator calls.
pub record Libraries : Type 0 where
  pub marshal : Map String String → String
  pub unmarshal : String → Option (Map String String)
  pub equal_fold : String → String → Bool

-- The headers but X-Request-ID.
unfoldable pub without_request_id : Libraries → Map String String → Map String String
without_request_id libs [] = []
without_request_id libs ((k, v) ∷ m) =
    let rest = without_request_id libs m in
    if libs.equal_fold k "X-Request-ID" then rest else (k, v) ∷ rest

stored_headers : Libraries → Option String → Option (Map String String)
stored_headers libs none = some []
stored_headers libs (some text) = if text == "" then some [] else libs.unmarshal text

abbrev pub or_blank : Option String → String
or_blank none = ""
or_blank (some text) = text

replay_with : Libraries → ℕ → String → Option (Map String String) → Option StoredResponse
unfolding without_request_id
replay_with libs status body none = none
replay_with libs status body (some headers) =
    some (record { status = status; headers = without_request_id libs headers; body = body })

replay_status : Libraries → IdempotencyRecord → Option ℕ → Option StoredResponse
unfolding replay_with stored_headers
replay_status libs rec none = none
replay_status libs rec (some status) =
    replay_with libs status (or_blank rec.response_body) (stored_headers libs rec.response_headers)

-- replayFromRecord; `none` is an error.
unfoldable pub replay_from_record : Libraries → Option IdempotencyRecord → Option StoredResponse
unfolding replay_status
replay_from_record libs none = none
replay_from_record libs (some rec) = replay_status libs rec rec.response_status

replayed : Option StoredResponse → Option Decision
replayed none = none
replayed (some stored) =
    some (record { action = Action.replay; record_id = none; stored = some stored })

unfoldable pub decide_from_lookup : Libraries → LookupResult → Action → Option Decision
unfolding replayed replay_from_record
decide_from_lookup libs res when_new = elim res.outcome [
  | Outcome.replay ↦ replayed (replay_from_record libs res.rec)
  | Outcome.conflict_body ↦ some (decision Action.conflict_body)
  | Outcome.in_progress ↦ some (decision Action.in_progress)
  | Outcome.absent ↦ some (decision when_new)
  | Outcome.stale ↦ some (decision when_new)
]

-- The Coordinator: its store, and the times to live of a record and of its lock.
pub record Coordinator (S : Type 0) : Type 0 where
  pub store : IdempotencyStore S
  pub ttl : ℕ
  pub lock_ttl : ℕ

decide_found : Libraries → Option LookupResult → Action → Option Decision
unfolding decide_from_lookup
decide_found libs none when_new = none
decide_found libs (some res) when_new = decide_from_lookup libs res when_new

module _ {S : Type 0} (libs : Libraries) (c : Coordinator S) where
  -- Check; `none` is an error.
  unfoldable pub check : S → ℕ → String → String → String → Option Decision
  unfolding decide_found
  check s now scope key request_hash =
      if key == ""
      then some (decision Action.proceed)
      else decide_found libs (c.store.lookup s now scope key request_hash) Action.proceed

  -- `late` is the time of the second lookup, after a lost race.
  after_begin : ℕ → String → String → String → S × BeginAnswer → S × Option Decision
  unfolding decide_found
  after_begin late scope key request_hash (s, began id) =
      (s, some (record { action = Action.started; record_id = some id; stored = none }))
  after_begin late scope key request_hash (s, record_active) =
      (s, decide_found libs (c.store.lookup s late scope key request_hash) Action.in_progress)
  after_begin late scope key request_hash (s, begin_failed) = (s, none)

  -- Begin.
  unfoldable pub begin : S → ℕ → ℕ → Uuid → String → String → String → S × Option Decision
  unfolding after_begin
  begin s now late id scope key request_hash =
      if key == ""
      then (s, some (decision Action.proceed))
      else after_begin late scope key request_hash
          (c.store.begin s now id scope key request_hash c.ttl c.lock_ttl)

  -- Release; the flag tells whether the store succeeded.
  unfoldable pub release : S → Uuid → S × Bool
  release s id = c.store.release s id

  -- Complete.
  unfoldable pub complete : S → Uuid → ℕ → Map String String → String → S × Bool
  unfolding without_request_id
  complete s id status headers body =
      c.store.complete s id status (libs.marshal (without_request_id libs headers)) body
