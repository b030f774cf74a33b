-- ===== src/Api/Completions/Retried.antt =====
-- A completion request and its retry with the same Idempotency-Key.
use mathlib.Core.Path.{subst}
use aegis_route.Base.{
  ℕ, ◌+◌, ◌<◌, ◌≡◌, refl, sym, ap, ◌∙◌, false, nat_key, string_key, ◌==◌, String, ltb, Option, none,
  some, List, All, arith,
}
use aegis_route.Models.{Uuid}
use aegis_route.Idempotency.{Coordinator, without_request_id}
use aegis_route.Idempotency.Repo.{Table, Jsonb, pending_record, column}
use aegis_route.Idempotency.Repo.Records.{Op, run, Spares}
use aegis_route.Idempotency.Replay.{IsJson, over, Early}
use aegis_route.Api.Request.{ChatRequest, granted, decode_chat_request}
use aegis_route.Api.Gate.{Response, Front, Passage, turned_away, admitted, enter, resolve}
use aegis_route.Api.Gate.Retry.{Replays, enter-retry}
use aegis_route.Api.Chat.{Principal, Stage, Plan}
use aegis_route.Api.Completions.{
  read, Env, World, Answers, max_idempotency_key_len, plan_of, ticket_of, respond, admit, with_body,
  with_request, with_read, chat_completions,
}

module _ {F : Type 0} (env : Env F) (db : Jsonb) (ttl lock_ttl : ℕ) where
  abbrev coordinator : Coordinator Table
  coordinator = over db ttl lock_ttl

  -- The world that a sent response leaves.
  respond-sent :
      (now : Answers Table) (w w1 : World Table) (id : Option Uuid) (o : Stage × Option Response)
      (r : Response)
      → respond env coordinator now w id o ≡ some (w1, r)
      → w1.front.idem ≡ resolve env.libs coordinator env.render (now.meanwhile w.front.idem) id r
  unfolding respond
  respond-sent now w w1 id (stage, none) r same = ground arith
  respond-sent now w w1 id (stage, some x) r same =
      let is : x ≡ r = ap (λ o. elim o as (λ p. Response) [ none ↦ x | some p ↦ p.1 ]) same in
      let front =
        ap (λ o. elim o as (λ p. Table) [ none ↦ w1.front.idem | some p ↦ p.0.front.idem ]) same in
      sym front
      ∙ ap (λ y. resolve env.libs coordinator env.render (now.meanwhile w.front.idem) id y) is

  -- A request that passes the checks before the gate goes through it.
  through_gate :
      (now : Answers Table) (w : World Table) (who : Principal) (raw : String) (req : ChatRequest F)
      (body : String)
      → decode_chat_request env.json raw ≡ granted req
      → env.forward_body req ≡ some body
      → ltb max_idempotency_key_len (env.byte_length env.header) ≡ false
      → chat_completions env coordinator now w (some who) (read raw)
        ≡ admit env coordinator now w (plan_of env coordinator now who req body) (
            enter env.libs coordinator env.render w.front now.moment
              (ticket_of env coordinator now who raw))
  unfolding chat_completions with_read with_request with_body
  through_gate now w who raw req body valid forwards short = rw (valid, forwards, short) refl

  admitted-sent :
      (now : Answers Table) (w w1 : World Table) (plan : Plan) (e : Front Table × Passage)
      (id : Uuid) (r : Response)
      → e.1 ≡ admitted (some id)
      → admit env coordinator now w plan e ≡ some (w1, r)
      → w1.front.idem ≡ resolve env.libs coordinator env.render (now.meanwhile e.0.idem) (some id) r
  unfolding admit
  admitted-sent now w w1 plan (front, turned_away x) id r at same = ground arith
  admitted-sent now w w1 plan (front, admitted other) id r at same =
      let is : other ≡ some id = ground arith in
      subst
        (λ o.
          w1.front.idem ≡ resolve env.libs coordinator env.render (now.meanwhile front.idem) o r)
        is (respond-sent now (record w { front = front }) w1 other _ r same)

  -- A retried completion is served from the record. A request was valid, was let in with a record and
  -- got a response with a status below 500; others' statements without power over the record came before
  -- it, and any statements after it, each Begin among them before the record expires. Until then the same
  -- request gets the same status, headers without X-Request-ID, and body as the column holds it, and
  -- nothing else happens: no rate limit, no cache, no backend, no row of the ledger. This relies on
  -- headers coming back from their JSON and on the column taking the body.
  pub chat_completions-retry :
      (now later : Answers Table) (w w1 : World Table) (who : Principal) (raw : String)
      (req : ChatRequest F) (body : String) (id : Uuid) (r : Response) (body_column : Option String)
      (ops later_ops : List Op) (calls : ℕ) (stage : Stage)
      → decode_chat_request env.json raw ≡ granted req
      → env.forward_body req ≡ some body
      → ltb max_idempotency_key_len (env.byte_length env.header) ≡ false
      → (env.header == "") ≡ false
      → (enter env.libs coordinator env.render w.front now.moment
          (ticket_of env coordinator now who raw)).1
        ≡ admitted (some id)
      → chat_completions env coordinator now w (some who) (read raw) ≡ some (w1, r)
      → r.status < 500
      → ((t : Table) → now.meanwhile t ≡ run db t ops)
      → IsJson env.libs db (without_request_id env.libs r.headers)
      → All
          (Spares (
            pending_record now.moment.began now.moment.id
              (env.scope who)
              env.header
              (env.sha256_hex raw)
              ttl
              lock_ttl))
          ops
      → column db r.body ≡ some body_column
      → All (Early (now.moment.began + ttl)) later_ops
      → later.moment.checked < now.moment.began + ttl
      → let front : Front Table = record {
        idem = run db w1.front.idem later_ops;
        allow_calls = calls;
      } in
        let w2 : World Table = record { front = front; stage = stage } in
        (r' : Response) × Replays env.libs db ttl lock_ttl env.render r body_column r'
        × (chat_completions env coordinator later w2 (some who) (read raw) ≡ some (w2, r'))
  unfolding ticket_of admit
  chat_completions-retry now later w w1 who raw req body id r body_column ops later_ops calls stage
        valid forwards short keyed entered served fine others json spared takes early in_time =
      let c = coordinator in
      let ticket = ticket_of env c now who raw in
      let gate = enter env.libs c env.render w.front now.moment ticket in
      let sent =
        admitted-sent now w w1 (plan_of env c now who req body) gate id r entered
          (sym (through_gate now w who raw req body valid forwards short) ∙ served) in
      let stored =
        sent ∙ ap (λ t. resolve env.libs c env.render t (some id) r) (others gate.0.idem) in
      let (r', same, turned) =
        (enter-retry env.libs db ttl lock_ttl env.render w.front now.moment ticket id ops r
          body_column later_ops calls later.moment keyed entered fine json spared takes early
          in_time).0 in
      let front : Front Table = record {
        idem =
            run db (resolve env.libs c env.render (run db gate.0.idem ops) (some id) r) later_ops;
        allow_calls = calls;
      } in
      let w2 : World Table = record { front = front; stage = stage } in
      rw stored (
        r',
        same,
        through_gate later w2 who raw req body valid forwards short
            ∙ ap (admit env c later w2 (plan_of env c later who req body)) turned,
      )
