-- ===== src/Queue/Kept.antt =====
-- Where a published message is.
use aegis_route.Base.{
  ℕ, suc, ◌≤◌, ◌<◌, ◌≡◌, refl, ◌⊎◌, inl, inr, Bool, true, false, ◌||◌, nat_key, ◌==◌, ==_iff, leb,
  String, List, [], ◌∷◌, arith, Bool-cases,
}
use aegis_route.Queue.{Message, MemQueue, new_mem_queue}
use aegis_route.Queue.Delivery.{Op, run, Waiting, IsDelivered, Inv, run-Inv, new_mem_queue-Inv}

abbrev pub waits_id : ℕ → List Message → Bool
waits_id n [] = false
waits_id n (msg ∷ ms) = (msg.id == n) || waits_id n ms

waits_id-Waiting :
    (published : List String) (first : ℕ) (ms : List Message) (last n : ℕ)
    → Waiting published first ms last
    → first < n
    → n ≤ last
    → waits_id n ms ≡ true
waits_id-Waiting published first [] last n w above below = ground arith
waits_id-Waiting published first (msg ∷ ms) last n w above below = elim (Bool-cases (msg.id == n)) [
  | inl same ↦ rw same refl
  | inr other ↦
      rw other (
        waits_id-Waiting published (suc first) ms last n w.2 (ground (arith, ==_iff msg.id n))
          below)
]

-- Whatever is called on a new queue, no published message is lost: it still waits, is in flight (where
-- a claim finds it again), or was acknowledged.
pub run-Held :
    (ops : List Op) (n : ℕ)
    → 0 < n
    → n ≤ (run new_mem_queue ops).next_id
    → (waits_id n (run new_mem_queue ops).pending ≡ true) ⊎ IsDelivered (run new_mem_queue ops) n
run-Held ops n some_ below =
    let q = run new_mem_queue ops in
    let inv = run-Inv new_mem_queue ops new_mem_queue-Inv in held q inv n some_ below
  where
    held :
        (q : MemQueue) (inv : Inv q) (n : ℕ)
        → 0 < n
        → n ≤ q.next_id
        → (waits_id n q.pending ≡ true) ⊎ IsDelivered q n
    held q inv n some_ below = elim (Bool-cases (leb n inv.first)) [
      | inl early ↦ inr (inv.delivered n some_ (ground arith))
      | inr late ↦ inl (
          waits_id-Waiting q.published inv.first q.pending q.next_id n inv.waiting (ground arith)
            below)
    ]
