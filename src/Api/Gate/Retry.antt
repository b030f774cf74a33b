-- ===== src/Api/Gate/Retry.antt =====
-- A retry of a request with an Idempotency-Key, over the table of internal/db/idempotency_repo.go.
use aegis_route.Base.{
  ℕ, ◌+◌, ◌<◌, ◌≡◌, ◌≢◌, refl, sym, ap, ◌∙◌, false, nat_key, string_key, pair_key, ◌==◌, String,
  leb, if◌then◌else◌, if-both, Option, none, some, List, All, arith,
}
use aegis_route.Base.Map.{lookup}
use aegis_route.Models.{Uuid}
use aegis_route.Idempotency.{
  Libraries, Decision, decision, Action, StoredResponse, check, begin, without_request_id, or_blank,
}
use aegis_route.Idempotency.Repo.{Table, Jsonb, pending_record, column}
use aegis_route.Idempotency.Repo.Records.{Op, run, Spares}
use aegis_route.Idempotency.Started.{begin-own}
use aegis_route.Idempotency.Replay.{
  IsJson, lookup-without_request_id, over, opened, Early, check-complete,
}
use aegis_route.Api.Gate.{
  Response, error_response, Front, Ticket, Moment, Passage, turned_away, admitted, stored_response,
  apply_idempotency_decision, after_decision, started_or, begun, open_record, rated, limit,
  after_check, checked, enter, resolve,
}

module _ (libs : Libraries) (db : Jsonb) (ttl lock_ttl : ℕ)
    (render : ℕ → String → String → String) where
  started_or-admitted :
      (d : Decision) (id : Uuid)
      → started_or libs (over db ttl lock_ttl) render d ≡ admitted (some id)
      → (d.action ≡ Action.started) × (d.record_id ≡ some id)
  unfolding started_or apply_idempotency_decision after_decision stored_response
  started_or-admitted d id same = ground arith

  -- Only a Begin that won lets a request with a record in.
  begun-opened :
      (t : Table) (now : Moment) (req : Ticket) (id : Uuid) (o : Option Decision)
      → (begin libs
          (over db ttl lock_ttl)
          t
          now.began
          now.late
          now.id
          req.scope
          req.key
          req.raw_hash).1
        ≡ o
      → (req.key == "") ≡ false
      → begun libs (over db ttl lock_ttl) render o ≡ admitted (some id)
      → (o ≡ some (opened now.id)) × (id ≡ now.id)
  unfolding begun
  begun-opened t now req id none is keyed same = ground arith
  begun-opened t now req id (some d) is keyed same =
      let (started, rec) = started_or-admitted d id same in
      let own =
        begin-own libs db ttl lock_ttl t now.began now.late now.id req.scope req.key req.raw_hash d
          keyed is started in
      (ap some own, some-inj id now.id (sym rec ∙ ap (λ x. x.record_id) own))
    where
      some-inj : (a b : Uuid) → some a ≡ some b → a ≡ b
      some-inj a b same = ground arith

  module _ (w : Front Table) (now : Moment) (req : Ticket) (id : Uuid)
      (keyed : (req.key == "") ≡ false) where
    abbrev began_by : Table × Option Decision
    began_by =
        begin libs (over db ttl lock_ttl) w.idem now.began now.late now.id req.scope req.key
          req.raw_hash

    -- If the request was let in with a record, a Begin has won it.
    abbrev Won : Front Table × Passage → Type 0
    Won (w', passage) =
        passage ≡ admitted (some id)
        → (began_by.1 ≡ some (opened now.id)) × (id ≡ now.id) × (w'.idem ≡ began_by.0)

    open_record-Won :
        (calls : ℕ)
        → Won (
            open_record libs
              (over db ttl lock_ttl)
              render
              (record { idem = w.idem; allow_calls = calls })
              now
              req)
    unfolding open_record
    open_record-Won calls =
        if-both Won (req.key == "") _ _ (λ blank same. ground (arith, blank, keyed))
          (λ some_key same.
            let (won, is) = begun-opened w.idem now req id began_by.1 refl keyed same in
            (won, is, refl))

    rated-Won :
        (calls : ℕ) (o : Option Response)
        → Won (
            rated libs
              (over db ttl lock_ttl)
              render
              (record { idem = w.idem; allow_calls = calls })
              now
              req
              o)
    unfolding rated
    rated-Won calls none = open_record-Won calls
    rated-Won calls (some r) = λ same. ground arith

    after_check-Won :
        (o : Option Response) → Won (after_check libs (over db ttl lock_ttl) render w now req o)
    unfolding after_check limit
    after_check-Won none = rated-Won (w.allow_calls + 1) _
    after_check-Won (some r) = λ same. ground arith

    checked-Won :
        (o : Option Decision) → Won (checked libs (over db ttl lock_ttl) render w now req o)
    unfolding checked
    checked-Won none = λ same. ground arith
    checked-Won (some d) = after_check-Won _

    enter-Won : Won (enter libs (over db ttl lock_ttl) render w now req)
    unfolding enter
    enter-Won =
        if-both Won (req.key == "") _ _ (λ blank. ground (arith, blank)) (λ some_key. checked-Won _)

  -- The gate answers with the replay that the check finds, and does nothing else.
  enter-replay :
      (w : Front Table) (now : Moment) (req : Ticket) (stored : StoredResponse)
      → (req.key == "") ≡ false
      → check libs (over db ttl lock_ttl) w.idem now.checked req.scope req.key req.raw_hash
        ≡ some (record { action = Action.replay; record_id = none; stored = some stored })
      → enter libs (over db ttl lock_ttl) render w now req ≡ (
        w,
        turned_away (record {
          status = stored.status;
          headers = without_request_id libs stored.headers;
          body = stored.body;
        }),
      )
  unfolding enter checked apply_idempotency_decision stored_response after_check
  enter-replay w now req stored keyed found = rw (keyed, found) refl

  -- The response that a retry gets of r: its status, its body as the column holds it, and its headers
  -- without an X-Request-ID.
  abbrev pub Replays : Response → Option String → Response → Type 0
  Replays r body_column r' =
      (r'.status ≡ r.status)
      × (r'.body ≡ or_blank body_column)
      × ((k : String)
          → lookup k r'.headers
            ≡ (if libs.equal_fold k "X-Request-ID" then none else lookup k r.headers))

  enter-conflict :
      (w : Front Table) (now : Moment) (req : Ticket)
      → (req.key == "") ≡ false
      → check libs (over db ttl lock_ttl) w.idem now.checked req.scope req.key req.raw_hash
        ≡ some (decision Action.conflict_body)
      → enter libs (over db ttl lock_ttl) render w now req ≡ (
        w,
        turned_away (
            error_response render 409 "conflict"
              "Idempotency-Key was reused with a different request body"),
      )
  unfolding enter checked apply_idempotency_decision after_check
  enter-conflict w now req keyed found = rw (keyed, found) refl

  -- A retry is answered for free. A request was let in with a record; then came any statements without
  -- power over the record, the response with a status below 500, and any statements, each Begin among
  -- them before the record expires. Until then the gate turns a retry with the same body away with the
  -- first response, and one with another body with a conflict; neither asks the rate limiter nor changes
  -- the store. It relies on headers coming back from their JSON and on the column taking the body.
  pub enter-retry :
      (w : Front Table) (now : Moment) (req : Ticket) (id : Uuid) (ops : List Op) (r : Response)
      (body_column : Option String) (later_ops : List Op) (calls : ℕ) (later : Moment)
      → (req.key == "") ≡ false
      → (enter libs (over db ttl lock_ttl) render w now req).1 ≡ admitted (some id)
      → r.status < 500
      → IsJson libs db (without_request_id libs r.headers)
      → All
          (Spares (pending_record now.began now.id req.scope req.key req.raw_hash ttl lock_ttl))
          ops
      → column db r.body ≡ some body_column
      → All (Early (now.began + ttl)) later_ops
      → later.checked < now.began + ttl
      → let c = over db ttl lock_ttl in
        let t1 = run db (enter libs c render w now req).0.idem ops in
        let t2 = run db (resolve libs c render t1 (some id) r) later_ops in
        let w2 : Front Table = record { idem = t2; allow_calls = calls } in
        ((r' : Response) × Replays r body_column r'
          × (enter libs c render w2 later req ≡ (w2, turned_away r')))
        × ((other : String)
            → req.raw_hash ≢ other
            → enter libs c render w2 later (record req { raw_hash = other }) ≡ (
              w2,
              turned_away (
                  error_response render 409 "conflict"
                    "Idempotency-Key was reused with a different request body"),
            ))
  unfolding resolve
  enter-retry w now req id ops r body_column later_ops calls later keyed entered fine json spared
        takes early in_time =
      let (won, is, same) = enter-Won w now req id keyed entered in
      let below : leb 500 r.status ≡ false = ground (arith, fine) in
      let (stored, (status, body, headers), replay, conflict) =
        check-complete libs db ttl lock_ttl w.idem now.began now.late now.id req.scope req.key
          req.raw_hash ops r.status r.headers r.body body_column later_ops later.checked json keyed
          won spared takes early in_time in
      rw (same, is, below)
        (
          (
            record {
              status = stored.status;
              headers = without_request_id libs stored.headers;
              body = stored.body;
            },
            (
              status,
              body,
              λ k. ground (arith, lookup-without_request_id libs k stored.headers, headers k),
            ),
            enter-replay _ later req stored keyed replay,
          ),
          λ other differs.
              enter-conflict _ later (record req { raw_hash = other }) keyed
                (conflict other differs),
        )
