-- ===== src/Worker/Pass/Letters.antt =====
-- Messages that can never be processed, and the deliveries in hand.
use Prim.Native.String.{◌++◌ as concat}
use aegis_route.Base.{
  ℕ, ◌≡◌, ◌≢◌, ◌↔◌, refl, sym, ap, ◌∙◌, ◌⊎◌, inl, inr, Bool, true, false, nat_key, string_key, ◌==◌,
  ==_iff, Option, none, some, List, [], ◌∷◌, ◌++◌, arith, Bool-cases, String,
}
use aegis_route.Base.Map.{Map, lookup, insert, lookup-insert, lookup-delete}
use aegis_route.Models.{Uuid}
use aegis_route.Jobs.Store.{mark_job_running}
use aegis_route.Queue.{Message, ack, publish_dlq}
use aegis_route.Worker.{mark_in_flight, clear_in_flight}
use aegis_route.Worker.Pass.{
  Fate, works, fails, lost, Event, Printers, PassError, Shared, Fates, counted_failure, dead_letter,
  drop_missing_job, mem_id, after_mark, job_pass, handle_parsed, released, handle_message,
}

-- What putting a message aside comes to. When the DLQ entry is written, it is there once and the message
-- is acknowledged once, unless the Ack fails; when it is not, nothing is acknowledged. The pass returns no
-- error exactly when both calls worked.
abbrev pub IsPutAside : Fates → Message → Shared → Shared × Option PassError → Type 0
IsPutAside f msg w (w', e) =
    (w'.store ≡ w.store)
    × ((e ≡ none) ↔ ((f.dlqs ≡ works) × (f.acks ≡ works)))
    × (((f.dlqs ≡ works)
          × ((reason : String) × (w'.queue.dlq
                ≡ w.queue.dlq ++ record { msg = msg; reason = reason } ∷ []))
          × (((f.acks ≢ fails) × (w'.queue.acked ≡ w.queue.acked ++ msg ∷ []))
              ⊎ ((f.acks ≡ fails) × (w'.queue.acked ≡ w.queue.acked))))
        ⊎ ((f.dlqs ≢ works) × (w'.queue.acked ≡ w.queue.acked)))

dead_fates-IsPutAside :
    (print : Printers) (f : Fates) (msg : Message) (w : Shared) (reason : String) (dlq acks : Fate)
    → f.dlqs ≡ dlq
    → f.acks ≡ acks
    → IsPutAside f msg w (dead_letter print f msg w reason)
unfolding dead_letter ack publish_dlq
dead_fates-IsPutAside print f msg w reason works works d a =
    rw (d, a)
      (
        refl,
        ((λ e. (refl, refl)), (λ e. refl)),
        inl (refl, (reason, refl), inl ((λ e. ground arith), refl)),
      )
dead_fates-IsPutAside print f msg w reason works fails d a =
    rw (d, a)
      (
        refl,
        ((λ e. ground arith), (λ e. ground arith)),
        inl (refl, (reason, refl), inr (refl, refl)),
      )
dead_fates-IsPutAside print f msg w reason works lost d a =
    rw (d, a)
      (
        refl,
        ((λ e. ground arith), (λ e. ground arith)),
        inl (refl, (reason, refl), inl ((λ e. ground arith), refl)),
      )
dead_fates-IsPutAside print f msg w reason fails acks d a =
    rw d (refl, ((λ e. ground arith), (λ e. ground arith)), inr ((λ e. ground arith), refl))
dead_fates-IsPutAside print f msg w reason lost acks d a =
    rw d (refl, ((λ e. ground arith), (λ e. ground arith)), inr ((λ e. ground arith), refl))

mark_in_flight-fresh :
    (m : Map String Bool) (key : String)
    → lookup key m ≡ none
    → mark_in_flight m key ≡ (insert key true m, true)
unfolding mark_in_flight
mark_in_flight-fresh m key fresh = rw (mark_in_flight, fresh) refl

mark_in_flight-held :
    (m : Map String Bool) (key : String) (b : Bool)
    → lookup key m ≡ some b
    → mark_in_flight m key ≡ (m, false)
unfolding mark_in_flight
mark_in_flight-held m key b held = rw (mark_in_flight, held) refl

dead_letter-inflight :
    (print : Printers) (f : Fates) (msg : Message) (w : Shared) (reason : String)
    → (dead_letter print f msg w reason).0.inflight ≡ w.inflight
unfolding dead_letter
dead_letter-inflight print f msg w reason = ground arith

dead_letter-IsPutAside :
    (print : Printers) (f : Fates) (msg : Message) (w : Shared) (reason : String)
    → IsPutAside f msg w (dead_letter print f msg w reason)
dead_letter-IsPutAside print f msg w reason =
    dead_fates-IsPutAside print f msg w reason f.dlqs f.acks refl refl

-- Nothing is in hand that was not before, whatever the delivery's own mark.
released_inflight :
    (key other : String) (m : Map String Bool)
    → lookup key m ≡ none
    → lookup other (clear_in_flight (insert key true m) key) ≡ lookup other m
unfolding clear_in_flight
released_inflight key other m fresh =
    rw (lookup-delete key other (insert key true m), lookup-insert key other true m)
      (elim (Bool-cases (key == other)) [
        | inl same ↦ rw same (sym (ap (λ k. lookup k m) (sym ((==_iff key other).0 same)) ∙ fresh))
        | inr apart ↦ rw apart refl
      ])

module _ (print : Printers) (f : Fates) (msg : Message) (parse : String → Option Uuid) (w : Shared)
    (n max : ℕ) (ended : Bool) (es : List Event) where
  -- The delivery names no job, or one that the store does not have and says so.
  abbrev pub IsMoot : Type 0
  IsMoot =
      (parse msg.job_id ≡ none)
      ⊎ ((job : Uuid) × (parse msg.job_id ≡ some job)
          × (lookup job w.store.jobs ≡ none)
          × (f.marks ≡ works))

  abbrev pub marked : Shared
  marked = record w { inflight = insert (mem_id msg.id) true w.inflight }

  moot-IsPutAside :
      IsMoot
      → (r : Shared × Option PassError) × (handle_parsed print f msg marked n max ended es
            (parse msg.job_id)
          ≡ some r)
        × IsPutAside f msg w r
        × (r.0.inflight ≡ marked.inflight)
  unfolding handle_parsed job_pass after_mark mark_job_running drop_missing_job
  moot-IsPutAside (inl blank) = rw blank (
    _,
    refl,
    dead_letter-IsPutAside print f msg (counted_failure marked)
        (concat "unparseable job_id " (print.quoted msg.job_id)),
    dead_letter-inflight print f msg (counted_failure marked)
        (concat "unparseable job_id " (print.quoted msg.job_id)),
  )
  moot-IsPutAside (inr (job, named, gone, answered)) =
      let reason = concat "job " (concat (print.shown job) " no longer exists") in
      rw (named, answered, gone)
        (
          _,
          refl,
          dead_letter-IsPutAside print f msg marked reason,
          dead_letter-inflight print f msg marked reason,
        )

  -- A message that names no job, or a job that is gone, is put aside by the delivery that is the first
  -- in hand. The delivery ends and the store stays as it was. When the call for its DLQ entry works, the
  -- entry is there once, and the message is acknowledged once, unless the Ack fails; when that call does
  -- not work, nothing is acknowledged. The delivery returns no error exactly when both calls work. The
  -- deliveries in hand are afterwards those of before.
  pub handle_message-IsPutAside :
      lookup (mem_id msg.id) w.inflight ≡ none
      → IsMoot
      → (r : Shared × Option PassError) × (handle_message print f msg parse w n max ended es
          ≡ some r)
        × IsPutAside f msg w r
        × ((other : String) → lookup other r.0.inflight ≡ lookup other w.inflight)
  unfolding handle_message released
  handle_message-IsPutAside fresh moot =
      let ((w', e), handled, aside, same) = moot-IsPutAside moot in
      rw (mark_in_flight-fresh w.inflight (mem_id msg.id) fresh, handled)
        (
          _,
          refl,
          aside,
          λ other. rw same (released_inflight (mem_id msg.id) other w.inflight fresh),
        )

  -- A second delivery of a message that is in hand changes nothing and is no error.
  pub handle_message-in_hand :
      lookup (mem_id msg.id) w.inflight ≡ some true
      → handle_message print f msg parse w n max ended es ≡ some (w, none)
  unfolding handle_message
  handle_message-in_hand held = rw (mark_in_flight-held w.inflight (mem_id msg.id) true held) refl
