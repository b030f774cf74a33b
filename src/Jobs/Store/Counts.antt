-- ===== src/Jobs/Store/Counts.antt =====
-- What a claim and a requeue leave among the items of a job.
use aegis_route.Base.{
  ℕ, ◌+◌, ◌≤◌, ◌≡◌, refl, ap, ◌∙◌, inl, inr, false, nat_key, ◌==◌, ltb, if◌then◌else◌, List, [],
  ◌∷◌, arith, Bool-cases, Option-cases,
}
use aegis_route.Base.Map.{lookup, lookup-insert_self}
use aegis_route.Models.{Uuid, BatchJobItem}
use aegis_route.Jobs.Store.{
  MemStore, items_of, or_empty, write_items, put_items, is_queued, count_status, requeued,
  requeue_running_items, claim_next, claim_next_queued_item, ClaimResult, claim_none, claim_claimed,
  claim_exhausted,
}
use aegis_route.Jobs.Store.Ids.{live}

-- How many of the items that a claim hands out have the id.
abbrev pub handed : Uuid → ClaimResult → ℕ
handed x (claim_claimed it) = if it.id == x then 1 else 0
handed x _ = 0

-- What the answer of a claim says of the queued items.
abbrev pub NoneQueued : List BatchJobItem → ClaimResult → Type 0
NoneQueued its claim_none = count_status is_queued its ≡ 0
NoneQueued its _ = Unit {0}

claim_next-live :
    (now max : ℕ) (x : Uuid) (its : List BatchJobItem)
    → live x (claim_next now max its).0 ≡ live x its + handed x (claim_next now max its).1
unfolding claim_next
claim_next-live now max x [] = omega arith
claim_next-live now max x (it ∷ its) = ground (arith, claim_next-live now max x its)

claim_next-queued :
    (now max : ℕ) (its : List BatchJobItem)
    → count_status is_queued (claim_next now max its).0 ≤ count_status is_queued its
unfolding claim_next count_status
claim_next-queued now max [] = omega arith
claim_next-queued now max (it ∷ its) = ground (arith, claim_next-queued now max its)

NoneQueued-cons :
    (it : BatchJobItem) (its : List BatchJobItem) (r : ClaimResult)
    → is_queued it.status ≡ false
    → NoneQueued its r
    → NoneQueued (it ∷ its) r
unfolding count_status
NoneQueued-cons it its claim_none busy h = rw (busy, h) refl
NoneQueued-cons it its (claim_claimed got) busy h = tt
NoneQueued-cons it its (claim_exhausted got) busy h = tt

claim_next-NoneQueued :
    (now max : ℕ) (its : List BatchJobItem) → NoneQueued its (claim_next now max its).1
unfolding claim_next
claim_next-NoneQueued now max [] = unfold count_status in refl
claim_next-NoneQueued now max (it ∷ its) = elim (Bool-cases (is_queued it.status)) [
  | inl waits ↦ elim (Bool-cases (ltb max (it.attempts + 1))) [
    | inl over ↦ rw waits (rw over tt)
    | inr under ↦ rw waits (rw under tt)
  ]
  | inr busy ↦ rw busy (NoneQueued-cons it its _ busy (claim_next-NoneQueued now max its))
]

-- The items of a job after a write of them that leaves no items where there were none.
items_of-put_items :
    (s : MemStore) (job : Uuid) (f : List BatchJobItem → List BatchJobItem)
    → f [] ≡ []
    → items_of (put_items s job (f (items_of s job))) job ≡ f (items_of s job)
unfolding put_items items_of
items_of-put_items s job f blank = elim (Option-cases (lookup job s.items)) [
  | inl gone ↦ rw (gone, write_items, gone, blank) refl
  | inr (old, found) ↦
      rw (found, write_items)
        (ap or_empty (lookup-insert_self job (f (items_of s job)) s.items) ∙ (rw found refl))
]

pub items_of-claim :
    (s : MemStore) (now : ℕ) (job : Uuid) (max : ℕ)
    → items_of (claim_next_queued_item s now job max).0 job
      ≡ (claim_next now max (items_of s job)).0
unfolding claim_next_queued_item
items_of-claim s now job max =
    items_of-put_items s job (λ its. (claim_next now max its).0) (unfold claim_next in refl)

-- A claim sets running what it hands out, queues nothing, and finds nothing only if nothing is queued.
pub claim-counts :
    (s : MemStore) (now : ℕ) (job : Uuid) (max : ℕ)
    → let (s', r) = claim_next_queued_item s now job max in
      ((x : Uuid) → live x (items_of s' job) ≡ live x (items_of s job) + handed x r)
      × (count_status is_queued (items_of s' job) ≤ count_status is_queued (items_of s job))
      × NoneQueued (items_of s job) r
claim-counts s now job max = rw (items_of-claim s now job max) (
    unfold claim_next_queued_item in
    (
      λ x. claim_next-live now max x (items_of s job),
      claim_next-queued now max (items_of s job),
      claim_next-NoneQueued now max (items_of s job),
    ))

requeued-live : (now : ℕ) (x : Uuid) (its : List BatchJobItem) → live x (requeued now its) ≡ 0
unfolding requeued
requeued-live now x [] = refl
requeued-live now x (it ∷ its) = ground (arith, requeued-live now x its)

-- A requeue leaves no item of the job running.
pub requeue-live :
    (s : MemStore) (now : ℕ) (job x : Uuid)
    → live x (items_of (requeue_running_items s now job).0 job) ≡ 0
unfolding requeue_running_items
requeue-live s now job x =
    rw (items_of-put_items s job (requeued now) (unfold requeued in refl))
      (requeued-live now x (items_of s job))
