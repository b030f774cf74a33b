-- ===== src/Worker/Pass/Acked.antt =====
-- When a pass acknowledges its message.
use mathlib.Core.Path.{subst}
use aegis_route.Base.{
  ℕ, ◌<◌, ◌≡◌, ◌≢◌, refl, sym, ap, ◌∙◌, ◌⊎◌, inl, inr, Bool, true, false, String, if-both, nat_key,
  if◌then◌else◌, Option, none, some, List, [], ◌∷◌, ◌++◌, arith, length,
}
use aegis_route.Models.{Uuid, JobStatus}
use aegis_route.Jobs.Store.{
  MemStore, StoreError, recompute_and_update_job_status, requeue_running_items, mark_job_running,
}
use aegis_route.Jobs.Store.Ids.{HasUniqueIds}
use aegis_route.Jobs.Store.Outcome.{IsFinal}
use aegis_route.Jobs.Store.Final.{HasCount, recompute-IsFinal}
use aegis_route.Queue.{Message, ack}
use aegis_route.Worker.Pass.{
  Fate, works, fails, lost, is_error, leaves, Pool, Event, Printers, all_back, pool_run, PassError,
  Shared, Fates, fail_job_pass, ack_pass, after_recompute, after_pool, new_pool, run_pass,
  after_mark, job_pass,
}
use aegis_route.Worker.Pass.Steps.{Invariant}
use aegis_route.Worker.Pass.Events.{IsAlone, pool_run-Invariant}
use aegis_route.Worker.Pass.Kept.{pool_run-acked, pool_run-length}
use aegis_route.Worker.Pass.Closed.{pool-Closed}
use aegis_route.Worker.Pass.First.{first_pool, first_pool-length, first_pool-IsSound}

leaves-works :
    {A : Type 0} (fate : Fate) (old new : A) → is_error fate ≡ false → leaves fate old new ≡ new
leaves-works works old new good = refl
leaves-works fails old new good = ground arith
leaves-works lost old new good = refl

-- The two ways in which a pass ends: with an error and the message left pending, or with the message
-- acknowledged and the job final.
abbrev pub Ends : Message → Uuid → Shared → Shared × Option PassError → Type 0
Ends msg job w (w', e) =
    ((e ≢ none) × (w'.queue.acked ≡ w.queue.acked))
    ⊎ ((w'.queue.acked ≡ w.queue.acked ++ msg ∷ [])
        × ((status : JobStatus) × IsFinal w'.store job status))

fail-Ends :
    (msg : Message) (job : Uuid) (w w' : Shared) (op : String)
    → w'.queue.acked ≡ w.queue.acked
    → Ends msg job w (fail_job_pass w' op)
unfolding fail_job_pass
fail-Ends msg job w w' op same = inl ((λ e. ground arith), same)

module _ (print : Printers) (f : Fates) (msg : Message) (job : Uuid) (w : Shared) where
  ack_fate-Ends :
      (w' : Shared) (fate : Fate)
      → w'.queue.acked ≡ w.queue.acked
      → (status : JobStatus) × IsFinal w'.store job status
      → let acked : Shared = record w' { queue = leaves fate w'.queue (ack w'.queue msg) } in
        Ends msg job w (if is_error fate then fail_job_pass acked "ack" else (acked, none))
  unfolding fail_job_pass ack
  ack_fate-Ends w' works same final = inr (ap (λ l. l ++ msg ∷ []) same, final)
  ack_fate-Ends w' fails same final = inl ((λ e. ground arith), same)
  ack_fate-Ends w' lost same final = inr (ap (λ l. l ++ msg ∷ []) same, final)

  after_recompute-Ends :
      (w' : Shared) (s : MemStore) (r : Option JobStatus) (status : JobStatus)
      → w'.queue.acked ≡ w.queue.acked
      → r ≡ some status
      → IsFinal s job status
      → Ends msg job w (after_recompute print f msg w' job (s, r))
  unfolding after_recompute ack_pass
  after_recompute-Ends w' s none status same answer final = ground arith
  after_recompute-Ends w' s (some st) status same answer final =
      ack_fate-Ends (record w' { store = s }) f.acks same (status, final)

  after_pool-Ends :
      (p : Pool)
      → p.queue.acked ≡ w.queue.acked
      → Invariant job p
      → all_back p.members ≡ true
      → 0 < length p.members
      → Ends msg job w (after_pool print f msg w job p)
  unfolding after_pool
  after_pool-Ends p same inv back some_members =
      if-both (Ends msg job w) p.ended _ _ (λ over. inl ((λ e. ground arith), same))
        (λ on.
          if-both (Ends msg job w) p.broken _ _ (λ broken. inl ((λ e. ground arith), same))
            (λ whole.
              let (status, answer, final) =
                recompute-IsFinal p.store f.now job (inv whole).counted
                  (pool-Closed job p (inv whole) back on some_members) in
              if-both (Ends msg job w) (is_error f.recomputes) _ _
                (λ bad.
                  fail-Ends msg job w
                    (record w {
                      store =
                          leaves f.recomputes p.store
                            (recompute_and_update_job_status p.store f.now job).0;
                      queue = p.queue;
                      counters = p.counters;
                    })
                    "recompute job status" same)
                (λ good.
                  after_recompute-Ends
                    (record w { store = p.store; queue = p.queue; counters = p.counters })
                    (recompute_and_update_job_status p.store f.now job).0
                    (recompute_and_update_job_status p.store f.now job).1 status same answer
                    final)))

module _ (print : Printers) (f : Fates) (msg : Message) (job : Uuid) (w : Shared) (n max : ℕ)
    (ended : Bool) (es : List Event) (some_members : 0 < n) (unique : HasUniqueIds w.store)
    (count : HasCount w.store job)
    (alone : IsAlone print max msg job (first_pool f w n job ended) es) where
  -- The pass leaves what `Ends` says, if it has ended.
  abbrev EndsWell : Option (Shared × Option PassError) → Type 0
  EndsWell o = (r : Shared × Option PassError) → o ≡ some r → Ends msg job w r

  ends_well : (r : Shared × Option PassError) → Ends msg job w r → EndsWell (some r)
  ends_well r h r' same = subst (Ends msg job w) (ap (λ o. elim o [ none ↦ r | some x ↦ x ]) same) h

  -- The world of the pass once its store is s, and the pool with its end.
  abbrev with_store : MemStore → Shared
  with_store s = record w { store = s }

  abbrev pooled : MemStore → Option (Shared × Option PassError)
  pooled s =
      let p = pool_run print max msg job (new_pool (with_store s) n ended) es in
      if all_back p.members then some (after_pool print f msg (with_store s) job p) else none

  abbrev marked : MemStore
  marked = (mark_job_running w.store f.now job).0

  pooled-EndsWell : EndsWell (pooled (requeue_running_items marked f.now job).0)
  pooled-EndsWell =
      let first = first_pool f w n job ended in
      let p = pool_run print max msg job first es in
      let start = with_store (requeue_running_items marked f.now job).0 in
      if-both EndsWell (all_back p.members) (some (after_pool print f msg start job p)) none
        (λ back. ends_well (after_pool print f msg start job p) (
          after_pool-Ends print f msg job start p
            (pool_run-acked print max msg job first es ∙ (unfold new_pool in refl))
            (pool_run-Invariant print max msg job first es alone
              (λ whole. first_pool-IsSound f w n job ended unique count))
            back
            (omega (
              arith,
              some_members,
              pool_run-length print max msg job first es,
              first_pool-length f w n job ended,
            ))))
        (λ on r same. ground arith)

  run_pass-EndsWell : EndsWell (run_pass print f msg (with_store marked) n max job ended es)
  unfolding run_pass
  run_pass-EndsWell =
      let left = leaves f.requeues marked (requeue_running_items marked f.now job).0 in
      if-both EndsWell (is_error f.requeues) _ (pooled left)
        (λ bad.
          ends_well (fail_job_pass (with_store left) "requeue running items")
            (fail-Ends msg job w (with_store left) "requeue running items" refl))
        (λ good.
          subst (λ s. EndsWell (pooled s)) (sym (leaves-works f.requeues marked _ good))
            pooled-EndsWell)

  after_mark-EndsWell :
      (e : Option StoreError)
      → e ≡ none
      → EndsWell (after_mark print f msg w n max job ended es (marked, e))
  unfolding after_mark
  after_mark-EndsWell none known = run_pass-EndsWell
  after_mark-EndsWell (some e) known = λ r same. ground arith

  marks_known : (mark_job_running w.store f.now job).1 ≡ none
  unfolding mark_job_running
  marks_known = ground (arith, count.1)

  -- A pass over a known, counted job by at least one goroutine, with unique item ids and with no other
  -- process at work on the job, ends in one of two ways. It returns an error and leaves the message
  -- unacknowledged; or it acknowledges the message once, and then the job has the final status that its
  -- items, all terminal, stand for. This holds for every interleaving of the goroutines, for a panic or
  -- a shutdown at any point, and for calls that fail or whose answer is lost.
  pub job_pass-Ends :
      (r : Shared × Option PassError)
      → job_pass print f msg w n max job ended es ≡ some r
      → Ends msg job w r
  unfolding job_pass
  job_pass-Ends =
      if-both EndsWell (is_error f.marks) _ _
        (λ bad.
          ends_well (fail_job_pass (with_store (leaves f.marks w.store marked)) "mark job running")
            (fail-Ends msg job w (with_store (leaves f.marks w.store marked)) "mark job running"
              refl))
        (λ good. after_mark-EndsWell (mark_job_running w.store f.now job).1 marks_known)
