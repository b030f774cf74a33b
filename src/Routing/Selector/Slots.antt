-- ===== src/Routing/Selector/Slots.antt =====
-- The in-flight semaphores and the selections that hold their slots.
pub mod Select
pub mod Release
use aegis_route.Base.{
  ℕ, suc, ◌+◌, ◌-◌, ◌≤◌, ◌<◌, ◌≡◌, refl, nat_key, String, string_key, ◌==◌, nat_eq_iff, Bool, true,
  false, ◌&&◌, not, Option, none, some, List, [], ◌∷◌, arith, if◌then◌else◌, inl, inr, Bool-cases,
  Option-cases, All, keep,
}
use aegis_route.Base.Int.{ℤ, pos, ltb_ℤ, leb_ℤ, eqb_ℤ}
use aegis_route.Base.Map.{
  Map, lookup, insert, lookup-insert, count, count-insert_fresh, count-insert_old, count-ne-zero,
}
use aegis_route.Models.{Uuid, ModelBackend}
use aegis_route.Routing.Circuit.{Breaker, allow}
use aegis_route.Routing.Selector.Order.{order}
use aegis_route.Routing.Selector.Order.Arrange.{tiers-All, sort_by_priority-All}
use aegis_route.Routing.Selector.{
  PolicyAnswer, found, not_found, failed, select, choose, try_all, Semaphore, Lease, Selector,
  semaphore_at, semaphore_for, current, create, attempt, try_acquire, release_slot, new_selector,
  keep_or_create, give_back, try_candidate, or_none, consult, grant, write_semaphore, release,
  release_lease, routable, contains, new_semaphore, observe_in_flight, observe_short_circuit,
}

-- A selection that holds a slot of the semaphore at the address.
abbrev pub holds : ℕ → Lease → Bool
holds r l = not l.done && l.sem == r

-- How many selections hold a slot of the semaphore at the address.
abbrev pub held : Selector → ℕ → ℕ
held s r = count (holds r) s.leases

pub record Inv (s : Selector) : Type 0 where
  pub counted : (r : ℕ) → (semaphore_at s r).slots ≡ held s r
  pub bounded : (r : ℕ) → ltb_ℤ (semaphore_at s r).capacity (pos (semaphore_at s r).slots) ≡ false
  pub sem_fresh : (r : ℕ) → s.next_sem ≤ r → lookup r s.heap ≡ none
  pub sems_known : (id : Uuid) (r : ℕ) → lookup id s.sems ≡ some r → r < s.next_sem
  pub lease_fresh : (l : ℕ) → s.next_lease ≤ l → lookup l s.leases ≡ none

create-Inv :
    (s : Selector) (b : ModelBackend)
    → ltb_ℤ (pos 0) b.max_in_flight ≡ true
    → Inv s
    → Inv (create s b).0
unfolding create semaphore_at new_semaphore
create-Inv s b room v =
    let sem = new_semaphore b.max_in_flight in
    record {
      counted =
          λ r. ground (arith, lookup-insert s.next_sem r sem s.heap, v.counted r, v.sem_fresh r);
      bounded = λ r. ground (arith, lookup-insert s.next_sem r sem s.heap, v.bounded r);
      sem_fresh = λ r h. ground (arith, lookup-insert s.next_sem r sem s.heap, v.sem_fresh r);
      sems_known =
          λ id r h. ground (arith, lookup-insert b.id id s.next_sem s.sems, v.sems_known id r);
      lease_fresh = v.lease_fresh;
    }

semaphore_for-Inv :
    (s : Selector) (b : ModelBackend) (o : Option ℕ)
    → ltb_ℤ (pos 0) b.max_in_flight ≡ true
    → Inv s
    → Inv (keep_or_create s b o).0
unfolding keep_or_create
semaphore_for-Inv s b none room v = create-Inv s b room v
semaphore_for-Inv s b (some r) room v = v

-- The state once the slot is taken and the breaker has been asked.
abbrev taking : Selector → ℕ → Semaphore → Breaker → Selector
unfolding write_semaphore
taking s r taken breaker = record (write_semaphore s r taken) { breaker = breaker }

module _ (s : Selector) (r : ℕ) (b : ModelBackend) (taken : Semaphore) (breaker : Breaker)
    (room : try_acquire (semaphore_at s r) ≡ some taken) (v : Inv s) where
  grant-Inv : Inv (grant (taking s r taken breaker) r b).0
  unfolding grant write_semaphore semaphore_at try_acquire observe_in_flight
  grant-Inv = record {
    counted = λ q. ground (
      arith,
      lookup-insert r q taken s.heap,
      v.counted q,
      v.lease_fresh s.next_lease,
      count-insert_fresh (holds q) s.next_lease (record { sem = r; backend = b.name; done = false })
          s.leases,
    );
    bounded = λ q. ground (arith, lookup-insert r q taken s.heap, v.bounded q);
    sem_fresh = λ q h. ground (arith, lookup-insert r q taken s.heap, v.sem_fresh q);
    sems_known = λ id q h. ground (arith, v.sems_known id q);
    lease_fresh = λ l h. ground (
      arith,
      lookup-insert s.next_lease l (record { sem = r; backend = b.name; done = false }) s.leases,
      v.lease_fresh l,
    );
  }

  give_back-Inv : Inv (give_back (taking s r taken breaker) r b taken).0
  unfolding give_back semaphore_at try_acquire
  give_back-Inv =
      let back = release_slot taken in
      record {
        counted = λ q. ground (
          arith,
          lookup-insert r q taken s.heap,
          lookup-insert r q back (insert r taken s.heap),
          v.counted q,
        );
        bounded = λ q. ground (
          arith,
          lookup-insert r q taken s.heap,
          lookup-insert r q back (insert r taken s.heap),
          v.bounded q,
        );
        sem_fresh = λ q h. ground (
          arith,
          lookup-insert r q taken s.heap,
          lookup-insert r q back (insert r taken s.heap),
          v.sem_fresh q,
        );
        sems_known = λ id q h. ground (arith, v.sems_known id q);
        lease_fresh = λ l h. ground (arith, v.lease_fresh l);
      }

consult-Inv :
    (s : Selector) (now r : ℕ) (b : ModelBackend) (o : Option Semaphore)
    → try_acquire (semaphore_at s r) ≡ o
    → Inv s
    → Inv (try_candidate s now r b o).0
unfolding try_candidate consult
consult-Inv s now r b none room v = v
consult-Inv s now r b (some taken) room v =
    let (breaker, allowed) = allow s.breaker now b.name in
    elim (Bool-cases allowed) [
      | inl granted ↦ rw granted (grant-Inv s r b taken breaker room v)
      | inr denied ↦ rw denied (give_back-Inv s r b taken breaker room v)
    ]

-- One round of Select's loop keeps the invariant.
pub attempt-Inv :
    (s : Selector) (now : ℕ) (exclude : List Uuid) (b : ModelBackend)
    → ltb_ℤ (pos 0) b.max_in_flight ≡ true
    → Inv s
    → Inv (attempt s now exclude b).0
unfolding attempt
attempt-Inv s now exclude b room v = elim (Bool-cases (contains b.id exclude)) [
  | inl skip ↦ rw skip v
  | inr fresh ↦
      let o = current s b (lookup b.id s.sems) in
      let (s', r) = keep_or_create s b o in
      rw fresh (consult-Inv s' now r b _ refl (semaphore_for-Inv s b o room v))
]

-- A new selector has no slot taken.
pub new_selector-Inv : (b : Breaker) (i : Bool) → Inv (new_selector b i)
unfolding new_selector semaphore_at lookup
new_selector-Inv b i = record {
  counted = λ r. refl;
  bounded = λ r. refl;
  sem_fresh = λ r h. refl;
  sems_known = λ id r h. cc;
  lease_fresh = λ l h. refl;
}
