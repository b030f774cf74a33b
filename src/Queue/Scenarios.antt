-- ===== src/Queue/Scenarios.antt =====
-- Two messages, of which one is taken by a consumer that dies, and is claimed by another.
use aegis_route.Base.{◌≡◌, refl, ◌⊎◌, true, nat_key, List, [], ◌∷◌, arith, some}
use mathlib.Core.List.{Mem}
use aegis_route.Base.Map.{lookup, insert}
use aegis_route.Queue.{InflightMsg, MemQueue, new_mem_queue, publish, take_one, claim, is_idle}
use aegis_route.Queue.Claim.{refreshed, claim-Redelivers}
use aegis_route.Queue.Delivery.{
  Op, publishes, takes, claims, step, run, Inv, IsDelivered, run-Inv, step-Inv, new_mem_queue-Inv,
}
use aegis_route.Queue.Kept.{waits_id, run-Held}

abbrev crash : List Op
crash = publishes "job-a" ∷ publishes "job-b" ∷ takes 10 ∷ claims 100 60 ∷ []

abbrev crashed : MemQueue
crashed = run new_mem_queue crash

crashed-next_id : crashed.next_id ≡ 2
unfolding run step publish take_one claim new_mem_queue
crashed-next_id = refl

run-Held_example : (waits_id 1 crashed.pending ≡ true) ⊎ IsDelivered crashed 1
run-Held_example = run-Held crash 1 (omega arith) (omega (arith, crashed-next_id))

step-Inv_example : Inv (step crashed (takes 200))
step-Inv_example = step-Inv crashed (takes 200) (run-Inv new_mem_queue crash new_mem_queue-Inv)

claim-Redelivers_example :
    (lookup 1 (claim crashed 300 60).0.inflight ≡ refreshed 300 60 (lookup 1 crashed.inflight))
    × ((e : InflightMsg)
        → lookup 1 crashed.inflight ≡ some e
        → is_idle 300 60 e ≡ true
        → Mem e.msg (claim crashed 300 60).1)
claim-Redelivers_example = claim-Redelivers crashed 300 60 1

-- The claim made the delivery fresh again.
claimed_at :
    lookup 1 crashed.inflight
    ≡ some (record { msg = record { id = 1; job_id = "job-a" }; delivered_at = 100 })
unfolding run step publish take_one claim new_mem_queue lookup insert
claimed_at = refl
