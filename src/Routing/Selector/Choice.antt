-- ===== src/Routing/Selector/Choice.antt =====
-- Which of the ordered candidates Select returns.
pub mod First
use aegis_route.Base.{
  ℕ, zero, suc, ◌+◌, ◌≤◌, ◌<◌, ◌≡◌, ◌≢◌, refl, sym, ◌∙◌, nat_key, string_key, ◌==◌, ==_iff, ==_refl,
  Bool, true, false, ◌&&◌, not, Option, none, some, List, [], ◌∷◌, arith, if◌then◌else◌, inl, inr,
  Bool-cases, Option-cases, All, keep, String,
}
use aegis_route.Base.Int.{ℤ, pos, ltb_ℤ, leb_ℤ, eqb_ℤ}
use aegis_route.Base.Map.{lookup, insert, lookup-insert}
use aegis_route.Models.{Uuid, ModelBackend}
use aegis_route.Routing.Circuit.{Breaker, allow}
use aegis_route.Routing.Circuit.Phase.{
  phase, admits, next, step, allows, phase-step, allow-admits, step_config,
}
use aegis_route.Routing.Selector.{
  Semaphore, Selector, Selected, selected, refused, semaphore_at, semaphore_for, current, create,
  keep_or_create, attempt, try_acquire, try_candidate, consult, grant, give_back, try_all, contains,
  new_semaphore, or_none, write_semaphore, release_slot, observe_short_circuit, observe_in_flight,
}
use aegis_route.Routing.Selector.Slots.{Inv, attempt-Inv}

-- The slots taken of the semaphore that Select will use for the backend: none of a new one's.
abbrev taken_of : Option ℕ → Selector → ℕ
taken_of none s = 0
taken_of (some r) s = (semaphore_at s r).slots

taken : Selector → ModelBackend → ℕ
taken s b = taken_of (current s b (lookup b.id s.sems)) s

-- A backend that may be called now: not excluded, below its limit, and let through by its circuit.
pub available : Selector → ℕ → List Uuid → ModelBackend → Bool
available s now exclude b =
    not (contains b.id exclude)
    && (ltb_ℤ (pos (taken s b)) b.max_in_flight
        && admits s.breaker.cooldown now (phase s.breaker b.name))

-- The first available candidate, all judged in one state.
pub first_available : Selector → (ℕ → ℕ) → List Uuid → List ModelBackend → Option ModelBackend
first_available s now exclude [] = none
first_available s now exclude (b ∷ bs) =
    let rest = first_available s (λ i. now (suc i)) exclude bs in
    if available s (now 0) exclude b then some b else rest

abbrev pub is_some {ℓ} : {A : Type ℓ} → Option A → Bool
is_some none = false
is_some (some a) = true

-- A candidate is taken exactly when it is available.
pub attempt-available :
    (s : Selector) (now : ℕ) (exclude : List Uuid) (b : ModelBackend)
    → ltb_ℤ (pos 0) b.max_in_flight ≡ true
    → Inv s
    → is_some (attempt s now exclude b).1 ≡ available s now exclude b
unfolding attempt available taken keep_or_create create semaphore_at current
attempt-available s now exclude b room v = ground (
  arith,
  allow-admits s.breaker now b.name,
  lookup-insert s.next_sem s.next_sem (new_semaphore b.max_in_flight) s.heap,
)

-- A refused Allow leaves every backend's phase alone.
phase-allow_refused :
    (b : Breaker) (now : ℕ) (x y : String)
    → (allow b now x).1 ≡ false
    → phase (allow b now x).0 y ≡ phase b y
unfolding step next admits
phase-allow_refused b now x y refusal =
    ground (arith, ==_iff x y, phase-step b now x y allows, allow-admits b now x)

taken-create :
    (s : Selector) (b c : ModelBackend) (o : Option ℕ)
    → Inv s
    → c.id ≢ b.id
    → taken_of (current (create s b).0 c (lookup c.id (create s b).0.sems)) (create s b).0
      ≡ taken_of (current s c (lookup c.id s.sems)) s
unfolding create current semaphore_at
taken-create s b c o v apart = elim (Option-cases (lookup c.id s.sems)) [
  | inl e ↦ ground (arith, lookup-insert b.id c.id s.next_sem s.sems)
  | inr (q, e) ↦ ground (
    arith,
    v.sems_known c.id q e,
    lookup-insert b.id c.id s.next_sem s.sems,
    lookup-insert s.next_sem q (new_semaphore b.max_in_flight) s.heap,
  )
]

taken-semaphore_for :
    (s : Selector) (b c : ModelBackend) (o : Option ℕ)
    → Inv s
    → c.id ≢ b.id
    → taken (keep_or_create s b o).0 c ≡ taken s c
unfolding taken keep_or_create
taken-semaphore_for s b c none v apart = taken-create s b c none v apart
taken-semaphore_for s b c (some r) v apart = refl

taken-try :
    (s : Selector) (now r : ℕ) (b c : ModelBackend) (o : Option Semaphore)
    → try_acquire (semaphore_at s r) ≡ o
    → (try_candidate s now r b o).1 ≡ none
    → taken (try_candidate s now r b o).0 c ≡ taken s c
unfolding taken try_candidate current semaphore_at try_acquire consult grant give_back
taken-try s now r b c none room skipped = refl
taken-try s now r b c (some held) room skipped = elim (Option-cases (lookup c.id s.sems)) [
  | inl e ↦ ground arith
  | inr (q, e) ↦ ground (
    arith,
    lookup-insert r q held s.heap,
    lookup-insert r q (release_slot held) (insert r held s.heap),
  )
]

-- A skipped candidate leaves the others as available as they were.
taken-skip :
    (s : Selector) (now : ℕ) (exclude : List Uuid) (b c : ModelBackend)
    → Inv s
    → c.id ≢ b.id
    → (attempt s now exclude b).1 ≡ none
    → taken (attempt s now exclude b).0 c ≡ taken s c
unfolding attempt
taken-skip s now exclude b c v apart skipped = elim (Bool-cases (contains b.id exclude)) [
  | inl skip ↦ rw skip
  | inr fresh ↦
      let o = current s b (lookup b.id s.sems) in
      let (s', r) = keep_or_create s b o in
      rw fresh (
        taken-try s' now r b c (try_acquire (semaphore_at s' r)) refl
          (rw (fresh, attempt) at skipped)
        ∙ taken-semaphore_for s b c o v apart)
]

phase-skip :
    (s : Selector) (now : ℕ) (exclude : List Uuid) (b : ModelBackend) (y : String)
    → (attempt s now exclude b).1 ≡ none
    → phase (attempt s now exclude b).0.breaker y ≡ phase s.breaker y
unfolding attempt keep_or_create create
phase-skip s now exclude b y skipped = ground (arith, phase-allow_refused s.breaker now b.name y)

cooldown-attempt :
    (s : Selector) (now : ℕ) (exclude : List Uuid) (b : ModelBackend)
    → (attempt s now exclude b).0.breaker.cooldown ≡ s.breaker.cooldown
unfolding attempt keep_or_create create step
cooldown-attempt s now exclude b = ground (arith, (step_config s.breaker now b.name allows).1)

pub available-skip :
    (s : Selector) (now later : ℕ) (exclude : List Uuid) (b c : ModelBackend)
    → Inv s
    → c.id ≢ b.id
    → (attempt s now exclude b).1 ≡ none
    → available (attempt s now exclude b).0 later exclude c ≡ available s later exclude c
unfolding available
available-skip s now later exclude b c v apart skipped = ground (
  arith,
  taken-skip s now exclude b c v apart skipped,
  phase-skip s now exclude b c.name skipped,
  cooldown-attempt s now exclude b,
)
