-- ===== src/Worker/Pass/First.antt =====
-- The pool that a pass starts.
use aegis_route.Base.{
  ℕ, zero, suc, ◌≡◌, refl, ap, Bool, false, nat_key, arith, tally, length, replicate,
}
use aegis_route.Models.{Uuid}
use aegis_route.Jobs.Store.{requeue_running_items, mark_job_running}
use aegis_route.Jobs.Store.Items.{requeues, marks_running, step}
use aegis_route.Jobs.Store.Ids.{HasUniqueIds, step-HasUniqueIds}
use aegis_route.Jobs.Store.Counts.{requeue-live}
use aegis_route.Jobs.Store.Outcome.{is_silent}
use aegis_route.Jobs.Store.Final.{HasCount, silent-HasCount, mark-HasCount}
use aegis_route.Worker.Pass.{Member, looping, Pool, Shared, Fates, new_pool}
use aegis_route.Worker.Pass.Steps.{is_drained, is_stopped, IsSound}

tally-replicate :
    (q : Member → Bool) (m : Member) (n : ℕ) → q m ≡ false → tally q (replicate n m) ≡ 0
tally-replicate q m zero h = refl
tally-replicate q m (suc n) h = rw (h, tally-replicate q m n h) refl

length-replicate : {A : Type 0} (n : ℕ) (a : A) → length (replicate n a) ≡ n
length-replicate zero a = refl
length-replicate (suc n) a = ap suc (length-replicate n a)

-- The pool that the pass starts, once the job is marked and its running items are requeued.
abbrev pub first_pool : Fates → Shared → ℕ → Uuid → Bool → Pool
first_pool f w n job ended =
    new_pool
      (record w {
        store = (requeue_running_items (mark_job_running w.store f.now job).0 f.now job).0;
      })
      n ended

pub first_pool-length :
    (f : Fates) (w : Shared) (n : ℕ) (job : Uuid) (ended : Bool)
    → length (first_pool f w n job ended).members ≡ n
unfolding new_pool
first_pool-length f w n job ended = length-replicate n looping

pub first_pool-IsSound :
    (f : Fates) (w : Shared) (n : ℕ) (job : Uuid) (ended : Bool)
    → HasUniqueIds w.store
    → HasCount w.store job
    → IsSound job (first_pool f w n job ended)
unfolding new_pool
first_pool-IsSound f w n job ended unique count =
    let s = (mark_job_running w.store f.now job).0 in
    record {
      unique =
          unfold step in
          step-HasUniqueIds s f.now (requeues job)
            (step-HasUniqueIds w.store f.now (marks_running job) unique);
      counted =
          unfold step in
          silent-HasCount s f.now (requeues job) job (unfold is_silent in refl)
            (mark-HasCount w.store f.now job count);
      held = λ x. omega (arith, requeue-live s f.now job x);
      empty =
          λ some_drained. ground (arith, some_drained, tally-replicate is_drained looping n refl);
      left =
          λ some_stopped. ground (arith, some_stopped, tally-replicate is_stopped looping n refl);
    }
