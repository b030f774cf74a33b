-- ===== src/Routing/Selector/Slots/Release.antt =====
-- What a release function does to the slots.
use aegis_route.Base.{
  ℕ, ◌+◌, ◌≡◌, refl, nat_key, string_key, ◌==◌, true, false, Option, none, some, arith,
  if◌then◌else◌, inl, inr, Bool-cases,
}
use aegis_route.Base.Map.{lookup, lookup-insert, count-insert_old, count-ne-zero}
use aegis_route.Routing.Selector.{
  Lease, Selector, semaphore_at, release_slot, release, release_lease, observe_in_flight,
}
use aegis_route.Routing.Selector.Slots.{Inv, holds}

-- A release function that has not run gives back its slot, once.
release_lease-Inv :
    (s : Selector) (l : ℕ) (o : Option Lease)
    → lookup l s.leases ≡ o
    → Inv s
    → Inv (release_lease s l o)
unfolding release_lease semaphore_at observe_in_flight
release_lease-Inv s l none e v = v
release_lease-Inv s l (some lease) e v = elim (Bool-cases lease.done) [
  | inl again ↦ rw again v
  | inr first ↦
      let r = lease.sem in
      let sem = release_slot (semaphore_at s r) in
      let finished = record lease { done = true } in
      let taken = count-ne-zero (holds r) l lease s.leases e (live first) in
      rw first (record {
        counted = λ q. ground (
          arith,
          lookup-insert r q sem s.heap,
          v.counted q,
          count-insert_old (holds q) l finished lease s.leases e,
        );
        bounded = λ q. ground (arith, lookup-insert r q sem s.heap, v.bounded q);
        sem_fresh = λ q h. ground (arith, lookup-insert r q sem s.heap, v.sem_fresh q, v.counted r);
        sems_known = λ id q h. ground (arith, v.sems_known id q);
        lease_fresh = λ k h. ground (arith, lookup-insert l k finished s.leases, v.lease_fresh k);
      })
]
  where
    live : lease.done ≡ false → holds lease.sem lease ≡ true
    live first = ground arith

-- Calling a release function keeps the invariant.
pub release-Inv : (s : Selector) (l : ℕ) → Inv s → Inv (release s l)
unfolding release
release-Inv s l v = release_lease-Inv s l (lookup l s.leases) refl v

release_again :
    (s : Selector) (l : ℕ) (o : Option Lease)
    → lookup l s.leases ≡ o
    → release_lease (release_lease s l o) l (lookup l (release_lease s l o).leases)
      ≡ release_lease s l o
unfolding release_lease observe_in_flight
release_again s l none e = rw e
release_again s l (some lease) e =
    ground (arith, lookup-insert l l (record lease { done = true }) s.leases)

release_at :
    (s : Selector) (l : ℕ) (lease : Lease)
    → lookup l s.leases ≡ some lease
    → release s l ≡ release_lease s l (some lease)
unfolding release
release_at s l lease e = rw e

slots-release_lease :
    (s : Selector) (l : ℕ) (lease : Lease)
    → Inv s
    → lookup l s.leases ≡ some lease
    → lease.done ≡ false
    → (q : ℕ)
    → (semaphore_at (release_lease s l (some lease)) q).slots + (if lease.sem == q then 1 else 0)
      ≡ (semaphore_at s q).slots
unfolding release_lease semaphore_at observe_in_flight
slots-release_lease s l lease v e first q = ground (
  arith,
  lookup-insert lease.sem q (release_slot (semaphore_at s lease.sem)) s.heap,
  v.counted q,
  count-ne-zero (holds q) l lease s.leases e,
)

-- The first call of a release function gives one slot back to the semaphore that it captured, also
-- when the backend has a new one by now, and leaves every other semaphore alone; a second call
-- changes nothing.
pub release_once :
    (s : Selector) (l : ℕ) (lease : Lease) (q : ℕ)
    → Inv s
    → lookup l s.leases ≡ some lease
    → lease.done ≡ false
    → ((semaphore_at (release s l) q).slots + (if lease.sem == q then 1 else 0)
        ≡ (semaphore_at s q).slots)
      × (release (release s l) l ≡ release s l)
release_once s l lease q v e first = (
  rw (release_at s l lease e) (slots-release_lease s l lease v e first q),
  unfold release in release_again s l (lookup l s.leases) refl,
)
