-- ===== src/Routing/Selector.antt =====
-- internal/routing/selector.go: Select, the in-flight semaphores and the release function. The order
-- in which the candidates are tried is in the child Order.
-- Semaphores are shared by pointer (a replaced one lives on in its holders), so they stand in a heap;
-- a release function is a lease with its once flag. The stores' answers and the clock's readings are
-- arguments; `math/rand` is the parameter `intn` of Order. One call of Select or of a release
-- function runs alone here.
pub mod Order
pub mod Slots
pub mod Choice
mod Scenarios
use aegis_route.Base.{
  ℕ, suc, ◌+◌, ◌-◌, nat_key, String, string_key, ◌==◌, Bool, true, false, ◌||◌, not, Option, none,
  some, List, [], ◌∷◌, ◌++◌, keep, if◌then◌else◌,
}
use aegis_route.Base.Int.{ℤ, pos, ltb_ℤ, leb_ℤ, eqb_ℤ, ◌+ℤ◌, ◌-ℤ◌}
use aegis_route.Base.Map.{Map, lookup, insert}
use aegis_route.Models.{Uuid, ModelBackend, RoutingPolicy}
use aegis_route.Routing.Circuit.{Breaker, allow}
use Order.{order}

-- `slots` is the length of the channel.
pub record Semaphore : Type 0 where
  pub capacity : ℤ
  pub slots : ℕ

-- A release function: the semaphore and the backend that it captured, and whether it has run.
pub record Lease : Type 0 where
  pub sem : ℕ
  pub backend : String
  pub done : Bool

-- `heap` holds the semaphores by address; `in_flight` and `short_circuits` are the two metrics.
pub record Selector : Type 0 where
  pub breaker : Breaker
  pub instrumented : Bool
  pub rng : ℕ
  pub sems : Map Uuid ℕ
  pub heap : Map ℕ Semaphore
  pub next_sem : ℕ
  pub leases : Map ℕ Lease
  pub next_lease : ℕ
  pub in_flight : Map String ℤ
  pub short_circuits : List String

unfoldable pub new_selector : Breaker → Bool → Selector
new_selector breaker instrumented = record {
  breaker = breaker;
  instrumented = instrumented;
  rng = 0;
  sems = [];
  heap = [];
  next_sem = 0;
  leases = [];
  next_lease = 0;
  in_flight = [];
  short_circuits = [];
}

unfoldable pub new_semaphore : ℤ → Semaphore
new_semaphore capacity = record { capacity = capacity; slots = 0 }

-- A send on the channel that does not block; `none` when the channel is full.
unfoldable pub try_acquire : Semaphore → Option Semaphore
try_acquire s =
    if ltb_ℤ (pos s.slots) s.capacity then some (record s { slots = s.slots + 1 }) else none

-- A receive on the channel that does not block.
unfoldable pub release_slot : Semaphore → Semaphore
release_slot s = record s { slots = s.slots - 1 }

-- An address that was never given out reads as the empty semaphore.
abbrev pub or_none : Option Semaphore → Semaphore
or_none none = record { capacity = pos 0; slots = 0 }
or_none (some s) = s

unfoldable pub semaphore_at : Selector → ℕ → Semaphore
semaphore_at s r = or_none (lookup r s.heap)

-- The address that `s.sems` has for the backend, if its capacity is still the backend's.
current : Selector → ModelBackend → Option ℕ → Option ℕ
unfolding semaphore_at
current s b none = none
current s b (some r) = if eqb_ℤ (semaphore_at s r).capacity b.max_in_flight then some r else none

create : Selector → ModelBackend → Selector × ℕ
unfolding new_semaphore
create s b = (
  record s {
    sems = insert b.id s.next_sem s.sems;
    heap = insert s.next_sem (new_semaphore b.max_in_flight) s.heap;
    next_sem = suc s.next_sem;
  },
  s.next_sem,
)

-- `sem` when it is good for the backend, else a new one.
keep_or_create : Selector → ModelBackend → Option ℕ → Selector × ℕ
keep_or_create s b none = create s b
keep_or_create s b (some r) = (s, r)

-- semaphoreFor: the address of the backend's semaphore, made anew when its capacity changed.
unfoldable pub semaphore_for : Selector → ModelBackend → Selector × ℕ
unfolding current create keep_or_create
semaphore_for s b = keep_or_create s b (current s b (lookup b.id s.sems))

unfoldable pub or_zero : Option ℤ → ℤ
or_zero none = pos 0
or_zero (some n) = n

unfoldable pub observe_in_flight : Selector → String → ℤ → Selector
unfolding or_zero
observe_in_flight s backend delta =
    if s.instrumented
    then record s {
      in_flight = insert backend (or_zero (lookup backend s.in_flight) +ℤ delta) s.in_flight;
    }
    else s

unfoldable pub observe_short_circuit : Selector → String → Selector
observe_short_circuit s backend =
    if s.instrumented then record s { short_circuits = s.short_circuits ++ backend ∷ [] } else s

unfoldable pub contains : Uuid → List Uuid → Bool
contains id [] = false
contains id (x ∷ xs) = x == id || contains id xs

write_semaphore : Selector → ℕ → Semaphore → Selector
write_semaphore s r sem = record s { heap = insert r sem s.heap }

-- The selection itself: the gauge goes up and the release function is made.
grant : Selector → ℕ → ModelBackend → Selector × Option ℕ
unfolding observe_in_flight
grant s r b =
    let s' = observe_in_flight s b.name (pos 1) in
    (
      record s' {
        leases = insert s.next_lease (record { sem = r; backend = b.name; done = false }) s.leases;
        next_lease = suc s.next_lease;
      },
      some s.next_lease,
    )

-- A candidate that the breaker refused: counted, and its slot goes back.
give_back : Selector → ℕ → ModelBackend → Semaphore → Selector × Option ℕ
unfolding write_semaphore release_slot observe_short_circuit
give_back s r b held =
    (write_semaphore (observe_short_circuit s b.name) r (release_slot held), none)

-- The breaker is asked once the slot is held.
consult : Selector → ℕ → ℕ → ModelBackend → Semaphore → Selector × Option ℕ
unfolding write_semaphore
consult s now r b held =
    let (breaker, allowed) = allow s.breaker now b.name in
    let s' = record (write_semaphore s r held) { breaker = breaker } in
    if allowed then grant s' r b else give_back s' r b held

try_candidate : Selector → ℕ → ℕ → ModelBackend → Option Semaphore → Selector × Option ℕ
try_candidate s now r b none = (s, none)
try_candidate s now r b (some held) = consult s now r b held

-- One round of Select's loop over the ordered candidates: the lease, or `none` for `continue`.
unfoldable pub attempt : Selector → ℕ → List Uuid → ModelBackend → Selector × Option ℕ
unfolding contains semaphore_for semaphore_at try_acquire try_candidate consult grant give_back
attempt s now exclude b =
    if contains b.id exclude
    then (s, none)
    else let (s', r) = semaphore_for s b in
      try_candidate s' now r b (try_acquire (semaphore_at s' r))

-- The rows that can be routed to.
unfoldable pub routable : ModelBackend → Bool
routable b = not (
    not b.enabled
    || leb_ℤ b.weight (pos 0)
    || ltb_ℤ b.priority (pos 0)
    || leb_ℤ b.max_in_flight (pos 0))

pub data SelectError : Type 0 where
  no_backends no_capacity store_failed : SelectError

pub record Selection : Type 0 where
  pub backend : ModelBackend
  pub policy_name : String
  pub strategy : String

pub data Selected : Type 0 where
  selected : Selection → ℕ → Selected
  refused : SelectError → Selected

-- What the policy store answers.
pub data PolicyAnswer : Type 0 where
  found : RoutingPolicy → PolicyAnswer
  not_found failed : PolicyAnswer

abbrev pub fallback_policy_name : String
fallback_policy_name = "default"

abbrev pub fallback_strategy : String
fallback_strategy = "priority_weighted"

-- Select's loop over the ordered candidates; `now i` is the clock when the i-th of them is tried.
unfoldable pub try_all :
    Selector → (ℕ → ℕ) → List Uuid → String × String → List ModelBackend → Selector × Selected
try_all s now exclude policy [] = (s, refused no_capacity)
try_all s now exclude policy (b ∷ bs) =
    let (s', lease) = attempt s (now 0) exclude b in
    elim lease [
      | none ↦ try_all s' (λ i. now (suc i)) exclude policy bs
      | some l ↦
          (s', selected (record { backend = b; policy_name = policy.0; strategy = policy.1 }) l)
    ]

module _ (intn : ℕ → ℕ → ℕ) where
  -- Select's part after the policy is known.
  choose :
      Selector → (ℕ → ℕ) → List Uuid → String × String → List ModelBackend → Selector × Selected
  choose s now exclude policy [] = (s, refused no_backends)
  choose s now exclude policy (b ∷ bs) =
      let (ordered, rng) = order intn s.rng (b ∷ bs) in
      try_all (record s { rng = rng }) now exclude policy ordered

  -- Select; `none` for the list is a failure of the backend store.
  unfoldable pub select :
      Selector
      → (ℕ → ℕ)
      → PolicyAnswer
      → Option (List ModelBackend)
      → List Uuid
      → Selector × Selected
  unfolding choose
  select s now failed rows exclude = (s, refused store_failed)
  select s now not_found none exclude = (s, refused store_failed)
  select s now not_found (some rows) exclude =
      choose s now exclude (fallback_policy_name, fallback_strategy) (keep routable rows)
  select s now (found p) none exclude = (s, refused store_failed)
  select s now (found p) (some rows) exclude =
      choose s now exclude (p.name, p.strategy) (keep routable rows)

release_lease : Selector → ℕ → Option Lease → Selector
unfolding observe_in_flight release_slot write_semaphore semaphore_at
release_lease s l none = s
release_lease s l (some lease) =
    if lease.done
    then s
    else let s' = write_semaphore s lease.sem (release_slot (semaphore_at s lease.sem)) in
      let s'' = observe_in_flight s' lease.backend (pos 0 -ℤ pos 1) in
      record s'' { leases = insert l (record lease { done = true }) s.leases }

-- The release function that Select returned.
unfoldable pub release : Selector → ℕ → Selector
unfolding release_lease
release s l = release_lease s l (lookup l s.leases)

-- InFlight.
unfoldable pub in_flight_of : Selector → Uuid → ℕ
unfolding semaphore_at
in_flight_of s id = elim (lookup id s.sems) [ none ↦ 0 | some r ↦ (semaphore_at s r).slots ]
