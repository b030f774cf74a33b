-- ===== src/Queue/Delivery.antt =====
-- The invariant of the queue.
use aegis_route.Base.{
  ℕ, zero, suc, ◌+◌, ◌≤◌, ◌<◌, ◌≡◌, refl, sym, ap, ◌∙◌, ◌⊎◌, inl, inr, Bool, true, false, ◌||◌,
  nat_key, ◌==◌, ==_iff, if◌then◌else◌, String, Option, none, some, List, [], ◌∷◌, ◌++◌, length,
  length-append, arith, Bool-cases,
}
use aegis_route.Base.Map.{lookup, lookup-insert, lookup-delete}
use aegis_route.Queue.{
  Message, InflightMsg, MemQueue, set_publish_err, publish_with, publish, take_first, take_one, ack,
  is_idle, claim, publish_dlq, new_mem_queue,
}
use aegis_route.Queue.Claim.{refreshed, lookup-redelivered, refreshed-some}

-- A call on the queue, with the clock's reading where the method reads it.
pub data Op : Type 0 where
  sets_publish_err : Option String → Op
  publishes : String → Op
  takes : ℕ → Op
  acks : Message → Op
  claims : (now min_idle : ℕ) → Op
  dead_letters : Message → String → Op

unfoldable pub step : MemQueue → Op → MemQueue
step q (sets_publish_err e) = set_publish_err q e
step q (publishes job) = (publish q job).0
step q (takes now) = (take_one q now).0
step q (acks msg) = ack q msg
step q (claims now min_idle) = (claim q now min_idle).0
step q (dead_letters msg reason) = publish_dlq q msg reason

unfoldable pub run : MemQueue → List Op → MemQueue
unfolding step
run q [] = q
run q (op ∷ ops) = run (step q op) ops

-- The n-th element, from 1.
abbrev pub nth {ℓ} : {A : Type ℓ} → ℕ → List A → Option A
nth n [] = none
nth zero (x ∷ xs) = none
nth (suc zero) (x ∷ xs) = some x
nth (suc (suc n)) (x ∷ xs) = nth (suc n) xs

abbrev pub acked_id : ℕ → List Message → Bool
acked_id n [] = false
acked_id n (msg ∷ ms) = (msg.id == n) || acked_id n ms

-- The waiting messages have the ids after `first` up to `last`, in order, and the n-th published job is
-- the n-th message's.
abbrev pub Waiting : List String → ℕ → List Message → ℕ → Type 0
Waiting published first [] last = (first ≡ last)
Waiting published first (msg ∷ ms) last =
    (msg.id ≡ suc first)
    × (nth (suc first) published ≡ some msg.job_id)
    × Waiting published (suc first) ms last

abbrev pub IsDelivered : MemQueue → ℕ → Type 0
IsDelivered q n = ((e : InflightMsg) × (lookup n q.inflight ≡ some e)) ⊎ (acked_id n q.acked ≡ true)

-- The messages up to `first` were delivered: each is in flight or acknowledged; the others wait in
-- order.
pub record Inv (q : MemQueue) : Type 0 where
  pub first : ℕ
  pub counted : length q.published ≡ q.next_id
  pub waiting : Waiting q.published first q.pending q.next_id
  pub delivered : (n : ℕ) → 0 < n → n ≤ first → IsDelivered q n
  pub in_flight :
      (n : ℕ) (e : InflightMsg)
      → lookup n q.inflight ≡ some e
      → (e.msg.id ≡ n) × (n ≤ first) × (nth n q.published ≡ some e.msg.job_id)

nth-append :
    {A : Type 0} (n : ℕ) (xs ys : List A) (x : A) → nth n xs ≡ some x → nth n (xs ++ ys) ≡ some x
nth-append n [] ys x e = cc
nth-append zero (y ∷ xs) ys x e = cc
nth-append (suc zero) (y ∷ xs) ys x e = e
nth-append (suc (suc n)) (y ∷ xs) ys x e = nth-append (suc n) xs ys x e

nth-last : {A : Type 0} (xs : List A) (x : A) → nth (suc (length xs)) (xs ++ x ∷ []) ≡ some x
nth-last [] x = refl
nth-last (y ∷ xs) x = nth-last xs x

Waiting-publish :
    (published : List String) (first : ℕ) (ms : List Message) (last : ℕ) (job : String)
    → length published ≡ last
    → Waiting published first ms last
    → Waiting
        (published ++ job ∷ [])
        first
        (ms ++ record { id = last + 1; job_id = job } ∷ [])
        (last + 1)
Waiting-publish published first [] last job n w =
    (omega (arith, w), rw (w ∙ sym n) (nth-last published job), omega (arith, w))
Waiting-publish published first (msg ∷ ms) last job n w = (
  w.0,
  nth-append (suc first) published _ msg.job_id w.1,
  Waiting-publish published (suc first) ms last job n w.2,
)

acked_id-append :
    (n : ℕ) (ms : List Message) (msg : Message)
    → acked_id n (ms ++ msg ∷ []) ≡ (acked_id n ms || (msg.id == n))
acked_id-append n [] msg = ground arith
acked_id-append n (m ∷ ms) msg = ground (arith, acked_id-append n ms msg)

publish_with-Inv :
    (q : MemQueue) (job : String) (e : Option String) → Inv q → Inv (publish_with q job e).0
unfolding publish_with
publish_with-Inv q job (some e) inv = inv
publish_with-Inv q job none inv = record {
  first = inv.first;
  counted = omega (arith, length-append q.published (job ∷ []), inv.counted);
  waiting = Waiting-publish q.published inv.first q.pending q.next_id job inv.counted inv.waiting;
  delivered = inv.delivered;
  in_flight = λ n e found.
      let (same, below, job_of) = inv.in_flight n e found in
      (same, below, nth-append n q.published _ e.msg.job_id job_of);
}

take_first-Inv :
    (q : MemQueue) (now : ℕ) (ms : List Message)
    → q.pending ≡ ms
    → (inv : Inv q) → Waiting q.published inv.first ms q.next_id
    → Inv (take_first q now ms).0
unfolding take_first
take_first-Inv q now [] same inv w = inv
take_first-Inv q now (msg ∷ ms) same inv w = record {
  first = suc inv.first;
  counted = inv.counted;
  waiting = w.2;
  delivered = λ n some_ below. elim (Bool-cases (msg.id == n)) [
    | inl is ↦ inl (
      record { msg = msg; delivered_at = now },
      ground (arith, lookup-insert msg.id n (record { msg = msg; delivered_at = now }) q.inflight),
    )
    | inr other ↦ elim (inv.delivered n some_ (ground (arith, ==_iff msg.id n))) [
      | inl (e, found) ↦ inl (
        e,
        ground
            (arith, lookup-insert msg.id n (record { msg = msg; delivered_at = now }) q.inflight),
      )
      | inr acked ↦ inr acked
    ]
  ];
  in_flight = λ n e found. elim (Bool-cases (msg.id == n)) [
    | inl is ↦
        let taken : e ≡ record { msg = msg; delivered_at = now } =
          ground
            (arith, lookup-insert msg.id n (record { msg = msg; delivered_at = now }) q.inflight) in
        let at : n ≡ suc inv.first = ground (arith, ==_iff msg.id n) in
        rw taken (omega (arith, at, w.0), omega (arith, at), rw at w.1)
    | inr other ↦
        let (same', below, job_of) = inv.in_flight n e (
          ground (
            arith,
            lookup-insert msg.id n (record { msg = msg; delivered_at = now }) q.inflight,
          )) in
        (same', omega arith, job_of)
  ];
}

ack-Inv : (q : MemQueue) (msg : Message) → Inv q → Inv (ack q msg)
unfolding ack
ack-Inv q msg inv = record {
  first = inv.first;
  counted = inv.counted;
  waiting = inv.waiting;
  delivered = λ n some_ below. elim (Bool-cases (msg.id == n)) [
    | inl is ↦ inr (rw (acked_id-append n q.acked msg, is) (ground arith))
    | inr other ↦ elim (inv.delivered n some_ below) [
      | inl (e, found) ↦ inl (e, rw (lookup-delete msg.id n q.inflight, other) found)
      | inr acked ↦ inr (rw (acked_id-append n q.acked msg, acked) refl)
    ]
  ];
  in_flight = λ n e found. inv.in_flight n e (ground (arith, lookup-delete msg.id n q.inflight));
}

claim-Inv : (q : MemQueue) (now min_idle : ℕ) → Inv q → Inv (claim q now min_idle).0
unfolding claim
claim-Inv q now min_idle inv = record {
  first = inv.first;
  counted = inv.counted;
  waiting = inv.waiting;
  delivered = λ n some_ below. elim (inv.delivered n some_ below) [
    | inl (e, found) ↦ inl (
      (if is_idle now min_idle e then record e { delivered_at = now } else e),
      lookup-redelivered now min_idle n q.inflight ∙ ap (refreshed now min_idle) found,
    )
    | inr acked ↦ inr acked
  ];
  in_flight = λ n e found.
      let (old, was, same) =
        refreshed-some now min_idle (lookup n q.inflight) e
          (sym (lookup-redelivered now min_idle n q.inflight) ∙ found) in
      rw same (inv.in_flight n old was);
}

-- Each call keeps the invariant of the queue: the waiting messages are the last ones published, in
-- order; each earlier one is in flight or acknowledged; and a message carries the job it was published
-- for.
pub step-Inv : (q : MemQueue) (op : Op) → Inv q → Inv (step q op)
unfolding step set_publish_err publish take_one publish_dlq
step-Inv q (sets_publish_err e) inv = record {
  first = inv.first;
  counted = inv.counted;
  waiting = inv.waiting;
  delivered = inv.delivered;
  in_flight = inv.in_flight;
}
step-Inv q (publishes job) inv = publish_with-Inv q job q.publish_err inv
step-Inv q (takes now) inv = take_first-Inv q now q.pending refl inv inv.waiting
step-Inv q (acks msg) inv = ack-Inv q msg inv
step-Inv q (claims now min_idle) inv = claim-Inv q now min_idle inv
step-Inv q (dead_letters msg reason) inv = record {
  first = inv.first;
  counted = inv.counted;
  waiting = inv.waiting;
  delivered = inv.delivered;
  in_flight = inv.in_flight;
}

pub run-Inv : (q : MemQueue) (ops : List Op) → Inv q → Inv (run q ops)
unfolding run
run-Inv q [] inv = inv
run-Inv q (op ∷ ops) inv = run-Inv (step q op) ops (step-Inv q op inv)

pub new_mem_queue-Inv : Inv new_mem_queue
unfolding new_mem_queue lookup
new_mem_queue-Inv = record {
  first = 0;
  counted = refl;
  waiting = refl;
  delivered = λ n some_ below. absurd (none_below n some_ below);
  in_flight = λ n e found. absurd (none_found e found);
}
  where
    none_below : (n : ℕ) → 0 < n → n ≤ 0 → ⊥
    none_below n some_ below = omega arith

    none_found : (e : InflightMsg) → refreshed 0 0 none ≡ some e → ⊥
    none_found e found = ground arith
