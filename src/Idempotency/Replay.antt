-- ===== src/Idempotency/Replay.antt =====
-- A request, its completion, and a later request with the same key.
use aegis_route.Base.{
  ℕ, ◌+◌, ◌<◌, ◌≡◌, ◌≢◌, refl, inl, inr, false, nat_key, string_key, pair_key, ◌==◌, ==_iff,
  ==_refl, ==_ne, String, if◌then◌else◌, Option, none, some, List, [], ◌∷◌, arith, All, Bool-cases,
  lt→ltb,
}
use aegis_route.Base.Map.{Map, lookup}
use aegis_route.Models.{Uuid, IdempotencyRecord}
use aegis_route.Idempotency.{
  Libraries, Coordinator, Decision, decision, Action, StoredResponse, BeginAnswer, Outcome,
  classify, check, begin, complete, after_begin, decide_found, decide_from_lookup, replayed,
  replay_from_record, replay_status, replay_with, stored_headers, without_request_id, or_blank,
  began, record_active, begin_failed,
}
use aegis_route.Idempotency.Repo.{
  Table, Jsonb, pending_record, completed_record, lookup_record, begin_record, column,
  idempotency_repo, answering,
}
use aegis_route.Idempotency.Repo.Records.{
  Op, begins, completes, releases, run, Spares, run-keeps, complete_record-completed,
  begin_at-began,
}

pub lookup-without_request_id :
    (libs : Libraries) (k : String) (m : Map String String)
    → lookup k (without_request_id libs m)
      ≡ (if libs.equal_fold k "X-Request-ID" then none else lookup k m)
unfolding lookup without_request_id
lookup-without_request_id libs k [] = ground arith
lookup-without_request_id libs k ((j, v) ∷ m) = elim (Bool-cases (j == k)) [
  | inl same ↦
      let is = (==_iff j k).0 same in
      elim (Bool-cases (libs.equal_fold j "X-Request-ID")) [
        | inl dropped ↦ ground (arith, lookup-without_request_id libs k m)
        | inr kept ↦ ground (arith, lookup-without_request_id libs k m)
      ]
  | inr other ↦ ground (arith, lookup-without_request_id libs k m)
]

stored_header :
    (libs : Libraries) (k : String) (headers back : Map String String)
    → lookup k back ≡ lookup k (without_request_id libs headers)
    → lookup k (without_request_id libs back)
      ≡ (if libs.equal_fold k "X-Request-ID" then none else lookup k headers)
stored_header libs k headers back same =
    ground (arith, lookup-without_request_id libs k back, lookup-without_request_id libs k headers)

-- What the libraries and the column are relied on for: the map of headers comes back, as a map, from
-- its JSON text as the column holds it.
abbrev pub IsJson : Libraries → Jsonb → Map String String → Type 0
IsJson libs db h =
    (text : String) × (h' : Map String String) × (column db (libs.marshal h) ≡ some (some text))
    × ((text == "") ≡ false)
    × (libs.unmarshal text ≡ some h')
    × ((k : String) → lookup k h' ≡ lookup k h)

-- The stored response has the status and the headers that were sent, without X-Request-ID, and the body
-- as its column holds it.
abbrev pub Sent : Libraries → ℕ → Map String String → Option String → StoredResponse → Type 0
Sent libs status headers body stored =
    (stored.status ≡ status)
    × (stored.body ≡ or_blank body)
    × ((k : String)
        → lookup k stored.headers
          ≡ (if libs.equal_fold k "X-Request-ID" then none else lookup k headers))

-- The coordinator over the table, on a Postgres that answers.
abbrev pub over : Jsonb → ℕ → ℕ → Coordinator Table
over db ttl lock_ttl = record {
  store = idempotency_repo db answering;
  ttl = ttl;
  lock_ttl = lock_ttl;
}

abbrev pub opened : Uuid → Decision
opened id = record { action = Action.started; record_id = some id; stored = none }

replayed-opened : (o : Option StoredResponse) (id : Uuid) → replayed o ≢ some (opened id)
unfolding replayed
replayed-opened none id same = ground arith
replayed-opened (some stored) id same = ground arith

decide_from_lookup-opened :
    (libs : Libraries) (outcome : Outcome) (rec : Option IdempotencyRecord) (id : Uuid)
    → decide_from_lookup libs (record { outcome = outcome; rec = rec }) Action.in_progress
      ≢ some (opened id)
unfolding decide_from_lookup
decide_from_lookup-opened libs Outcome.replay rec id same =
    replayed-opened (replay_from_record libs rec) id same
decide_from_lookup-opened libs Outcome.absent rec id same = ground arith
decide_from_lookup-opened libs Outcome.conflict_body rec id same = ground arith
decide_from_lookup-opened libs Outcome.in_progress rec id same = ground arith
decide_from_lookup-opened libs Outcome.stale rec id same = ground arith

-- Only a Begin that won answers that the work has started.
after_begin-opened :
    (libs : Libraries) (db : Jsonb) (ttl lock_ttl late : ℕ) (scope key request_hash : String)
    (t : Table) (answer : BeginAnswer) (id : Uuid)
    → (after_begin libs (over db ttl lock_ttl) late scope key request_hash (t, answer)).1
      ≡ some (opened id)
    → (answer ≡ began id)
      × ((after_begin libs (over db ttl lock_ttl) late scope key request_hash (t, answer)).0 ≡ t)
unfolding after_begin decide_found idempotency_repo
after_begin-opened libs db ttl lock_ttl late scope key request_hash t (began id') id same =
    (ground arith, refl)
after_begin-opened libs db ttl lock_ttl late scope key request_hash t begin_failed id same =
    (ground arith, refl)
after_begin-opened libs db ttl lock_ttl late scope key request_hash t record_active id same =
    let res = lookup_record t late scope key request_hash in
    absurd (decide_from_lookup-opened libs res.outcome res.rec id same)

begin-started :
    (libs : Libraries) (db : Jsonb) (t : Table) (now late : ℕ) (id : Uuid)
    (scope key request_hash : String) (ttl lock_ttl : ℕ)
    → (key == "") ≡ false
    → (begin libs (over db ttl lock_ttl) t now late id scope key request_hash).1
      ≡ some (record { action = Action.started; record_id = some id; stored = none })
    → lookup (scope, key) (begin libs (over db ttl lock_ttl) t now late id scope key request_hash).0
      ≡ some (pending_record now id scope key request_hash ttl lock_ttl)
unfolding begin idempotency_repo
begin-started libs db t now late id scope key request_hash ttl lock_ttl keyed started =
    let (t', answer) = begin_record t now id scope key request_hash ttl lock_ttl in
    let (won, same) =
      after_begin-opened libs db ttl lock_ttl late scope key request_hash t' answer id
        (rw keyed at started) in
    rw keyed (rw same (begin_at-began t now id scope key request_hash ttl lock_ttl id won))

check-replay :
    (libs : Libraries) (db : Jsonb) (ttl lock_ttl : ℕ) (t : Table) (now : ℕ) (scope key : String)
    (rec : IdempotencyRecord) (status : ℕ) (headers : Map String String) (body : Option String)
    (text : String) (stored : Map String String)
    → (key == "") ≡ false
    → lookup (scope, key) t ≡ some (completed_record status text body rec)
    → now < rec.expires_at
    → (text == "") ≡ false
    → libs.unmarshal text ≡ some stored
    → check libs (over db ttl lock_ttl) t now scope key rec.request_hash
      ≡ some (record {
        action = Action.replay;
        record_id = none;
        stored = some (record {
          status = status;
          headers = without_request_id libs stored;
          body = or_blank body;
        });
      })
unfolding check idempotency_repo lookup_record decide_found decide_from_lookup classify replayed
    replay_from_record replay_status replay_with stored_headers completed_record
check-replay libs db ttl lock_ttl t now scope key rec status headers body text stored keyed found
      early some_text parsed =
    rw (keyed, found, lt→ltb now rec.expires_at early, ==_refl rec.request_hash, some_text, parsed)
      refl

check-conflict :
    (libs : Libraries) (db : Jsonb) (ttl lock_ttl : ℕ) (t : Table) (now : ℕ)
    (scope key other : String) (rec : IdempotencyRecord)
    → (key == "") ≡ false
    → lookup (scope, key) t ≡ some rec
    → now < rec.expires_at
    → rec.request_hash ≢ other
    → check libs (over db ttl lock_ttl) t now scope key other ≡ some (decision Action.conflict_body)
unfolding check idempotency_repo lookup_record decide_found decide_from_lookup classify
check-conflict libs db ttl lock_ttl t now scope key other rec keyed found early differs =
    rw (keyed, found, lt→ltb now rec.expires_at early, ==_ne rec.request_hash other differs) refl

-- A Begin before the time; anything else at any time.
abbrev pub Early : ℕ → Op → Type 0
Early limit (begins now id scope key request_hash ttl lock_ttl) = now < limit
Early limit _ = Unit {0}

Early-Spares :
    (rec : IdempotencyRecord) (status : ℕ) (headers : String) (body : Option String) (ops : List Op)
    → All (Early rec.expires_at) ops
    → All (Spares (completed_record status headers body rec)) ops
unfolding completed_record classify
Early-Spares rec status headers body [] early = tt
Early-Spares rec status headers body (op ∷ ops) early =
    (one op early.0, Early-Spares rec status headers body ops early.1)
  where
    one : (op : Op) → Early rec.expires_at op → Spares (completed_record status headers body rec) op
    one (begins now id scope key request_hash ttl lock_ttl) early' =
        rw (lt→ltb now rec.expires_at early', ==_refl rec.request_hash) refl
    one (completes id status' headers' body') early' = ground arith
    one (releases id) early' = ground arith

-- A retry gets the first answer. On a Postgres that answers, Begin opened a record; then came any
-- statements without power over it, Complete by its owner, and then any statements, each Begin among
-- them before the record expires. Until then a Check with the same body replays the response's status,
-- its headers without X-Request-ID, and its body as the jsonb column holds it, and a Check with another
-- body reports the conflict. It relies on headers coming back as a map from their JSON, and on the
-- body's column taking the body.
pub check-complete :
    (libs : Libraries) (db : Jsonb) (ttl lock_ttl : ℕ) (t : Table) (now late : ℕ) (id : Uuid)
    (scope key request_hash : String) (ops : List Op) (status : ℕ) (headers : Map String String)
    (body : String) (body_column : Option String) (later_ops : List Op) (later : ℕ)
    → IsJson libs db (without_request_id libs headers)
    → (key == "") ≡ false
    → (begin libs (over db ttl lock_ttl) t now late id scope key request_hash).1 ≡ some (opened id)
    → All (Spares (pending_record now id scope key request_hash ttl lock_ttl)) ops
    → column db body ≡ some body_column
    → All (Early (now + ttl)) later_ops
    → later < now + ttl
    → let c = over db ttl lock_ttl in
      let t1 = run db (begin libs c t now late id scope key request_hash).0 ops in
      let t2 = run db (complete libs c t1 id status headers body).0 later_ops in
      (stored : StoredResponse) × Sent libs status headers body_column stored
      × (check libs c t2 later scope key request_hash
          ≡ some (record { action = Action.replay; record_id = none; stored = some stored }))
      × ((other : String)
          → request_hash ≢ other
          → check libs c t2 later scope key other ≡ some (decision Action.conflict_body))
unfolding complete idempotency_repo pending_record completed_record
check-complete libs db ttl lock_ttl t now late id scope key request_hash ops status headers body
      body_column later_ops later json keyed started spared takes early in_time =
    let rec = pending_record now id scope key request_hash ttl lock_ttl in
    let (text, back, column_of, some_text, parsed, same) = json in
    let t1 =
      run db (begin libs (over db ttl lock_ttl) t now late id scope key request_hash).0 ops in
    let held =
      run-keeps db (scope, key) _ ops rec
        (begin-started libs db t now late id scope key request_hash ttl lock_ttl keyed started)
        spared in
    let done =
      complete_record-completed db (scope, key) t1 rec status
        (libs.marshal (without_request_id libs headers)) body (some text) body_column held
        (unfold pending_record in refl) column_of takes in
    let kept =
      run-keeps db (scope, key) _ later_ops (completed_record status text body_column rec) done.1
        (Early-Spares rec status text body_column later_ops early) in
    (
      record {
        status = status;
        headers = without_request_id libs back;
        body = or_blank body_column;
      },
      (refl, refl, λ k. stored_header libs k headers back (same k)),
      check-replay libs db ttl lock_ttl _ later scope key rec status headers body_column text back
          keyed kept in_time some_text parsed,
      λ other differs.
          check-conflict libs db ttl lock_ttl _ later scope key other
            (completed_record status text body_column rec) keyed kept in_time differs,
    )
