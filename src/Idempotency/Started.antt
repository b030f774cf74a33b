-- ===== src/Idempotency/Started.antt =====
-- A Begin that has started the work.
use aegis_route.Base.{
  ℕ, ◌≡◌, ◌≢◌, refl, sym, ap, ◌∙◌, false, string_key, ◌==◌, String, Option, none, some, arith,
}
use aegis_route.Models.{Uuid, IdempotencyRecord}
use aegis_route.Idempotency.{
  Libraries, Decision, Action, BeginAnswer, Outcome, begin, after_begin, decide_found,
  decide_from_lookup, replayed, replay_from_record, began, record_active, begin_failed,
}
use aegis_route.Idempotency.Repo.{Table, Jsonb, begin_record, lookup_record, idempotency_repo}
use aegis_route.Idempotency.Repo.Records.{begin_record-own}
use aegis_route.Idempotency.Replay.{over, opened}

-- A lookup never answers that work has started.
not_started :
    (libs : Libraries) (outcome : Outcome) (rec : Option IdempotencyRecord) (d : Decision)
    → decide_from_lookup libs (record { outcome = outcome; rec = rec }) Action.in_progress ≡ some d
    → d.action ≢ Action.started
unfolding decide_from_lookup replayed replay_from_record
not_started libs outcome rec d same started = ground arith

begun_decision :
    (libs : Libraries) (db : Jsonb) (ttl lock_ttl late : ℕ) (scope key hash : String) (t : Table)
    (id : Uuid) (answer : BeginAnswer) (d : Decision)
    → ((other : Uuid) → answer ≡ began other → other ≡ id)
    → (after_begin libs (over db ttl lock_ttl) late scope key hash (t, answer)).1 ≡ some d
    → d.action ≡ Action.started
    → d ≡ opened id
unfolding after_begin decide_found idempotency_repo
begun_decision libs db ttl lock_ttl late scope key hash t id (began other) d own same started =
    sym (ap (λ o. elim o [ none ↦ d | some x ↦ x ]) same) ∙ ap opened (own other refl)
begun_decision libs db ttl lock_ttl late scope key hash t id begin_failed d own same started =
    ground arith
begun_decision libs db ttl lock_ttl late scope key hash t id record_active d own same started =
    let res = lookup_record t late scope key hash in
    absurd (not_started libs res.outcome res.rec d same started)

-- The answer of a Begin that has started the work is that of the new record.
pub begin-own :
    (libs : Libraries) (db : Jsonb) (ttl lock_ttl : ℕ) (t : Table) (now late : ℕ) (id : Uuid)
    (scope key hash : String) (d : Decision)
    → (key == "") ≡ false
    → (begin libs (over db ttl lock_ttl) t now late id scope key hash).1 ≡ some d
    → d.action ≡ Action.started
    → d ≡ opened id
unfolding begin idempotency_repo
begin-own libs db ttl lock_ttl t now late id scope key hash d keyed same started =
    let (t', answer) = begin_record t now id scope key hash ttl lock_ttl in
    begun_decision libs db ttl lock_ttl late scope key hash t' id answer d
      (λ other won. begin_record-own t now id other scope key hash ttl lock_ttl won)
      (rw keyed at same) started
