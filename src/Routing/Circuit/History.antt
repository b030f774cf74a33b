-- ===== src/Routing/Circuit/History.antt =====
-- The breaker over whole histories of calls, in any order and on any backends.
use aegis_route.Base.{
  ℕ, ◌+◌, ◌<◌, ◌≡◌, refl, ◌∙◌, inl, inr, String, string_key, ◌==◌, Bool, true, false, ◌&&◌, ==_iff,
  List, [], ◌∷◌, if◌then◌else◌, arith, All, keep, Bool-cases,
}
use aegis_route.Routing.Circuit.{Breaker, allow}
use aegis_route.Routing.Circuit.Phase.{
  tripped, phase, Op, allows, next, admits, step, step_config, allow-admits, phase-step,
}

-- One call: when, on which backend, which method.
pub record Event : Type 0 where
  pub now : ℕ
  pub backend : String
  pub op : Op

unfoldable pub run : Breaker → List Event → Breaker
run b [] = b
run b (e ∷ es) = run (step b e.now e.backend e.op) es

abbrev is_allow : Op → Bool
is_allow allows = true
is_allow _ = false

abbrev pub on : String → Event → Bool
on y e = e.backend == y

-- The answers that the calls of Allow on one backend got, in order.
unfoldable pub answers : String → Breaker → List Event → List Bool
answers y b [] = []
answers y b (e ∷ es) =
    let rest = answers y (step b e.now e.backend e.op) es in
    let answer = (allow b e.now e.backend).1 in
    if on y e && is_allow e.op then answer ∷ rest else rest

pub run_config :
    (b : Breaker) (es : List Event)
    → ((run b es).threshold ≡ b.threshold) × ((run b es).cooldown ≡ b.cooldown)
unfolding run
run_config b [] = (refl, refl)
run_config b (e ∷ es) =
    let (t, c) = run_config (step b e.now e.backend e.op) es in
    let (t', c') = step_config b e.now e.backend e.op in (t ∙ t', c ∙ c')

-- Two breakers of one configuration that agree on a backend.
abbrev Agree : String → Breaker → Breaker → Type 0
Agree y a b = (a.threshold ≡ b.threshold) × (a.cooldown ≡ b.cooldown) × (phase a y ≡ phase b y)

step-Agree_on :
    (y : String) (a b : Breaker) (e : Event)
    → on y e ≡ true
    → Agree y a b
    → Agree y (step a e.now e.backend e.op) (step b e.now e.backend e.op)
step-Agree_on y a b e h g = ground (
  arith,
  ==_iff e.backend y,
  step_config a e.now e.backend e.op,
  step_config b e.now e.backend e.op,
  phase-step a e.now e.backend y e.op,
  phase-step b e.now e.backend y e.op,
)

step-Agree_off :
    (y : String) (a b : Breaker) (e : Event)
    → on y e ≡ false
    → Agree y a b
    → Agree y (step a e.now e.backend e.op) b
step-Agree_off y a b e h g =
    ground (arith, step_config a e.now e.backend e.op, phase-step a e.now e.backend y e.op)

run-Agree :
    (y : String) (es : List Event) (a b : Breaker)
    → Agree y a b
    → phase (run a es) y ≡ phase (run b (keep (on y) es)) y
unfolding run
run-Agree y [] a b g = g.2
run-Agree y (e ∷ es) a b g = elim (Bool-cases (on y e)) [
  | inl h ↦ rw h (
      run-Agree y es (step a e.now e.backend e.op) (step b e.now e.backend e.op)
        (step-Agree_on y a b e h g))
  | inr h ↦ rw h (run-Agree y es (step a e.now e.backend e.op) b (step-Agree_off y a b e h g))
]

-- A backend's phase after a history depends on the calls for that backend alone: with all other
-- calls left out of the history it is the same.
pub phase-run-keep :
    (y : String) (b : Breaker) (es : List Event)
    → phase (run b es) y ≡ phase (run b (keep (on y) es)) y
phase-run-keep y b es = run-Agree y es b b (refl, refl, refl)

tripped-step :
    (y : String) (t : ℕ) (b : Breaker) (now : ℕ) (x : String) (op : Op)
    → phase b y ≡ tripped t
    → now < t + b.cooldown
    → phase (step b now x op) y ≡ tripped t
unfolding next
tripped-step y t b now x allows h early = ground (arith, ==_iff x y, phase-step b now x y allows)
tripped-step y t b now x op h early = ground (arith, ==_iff x y, phase-step b now x y op)

tripped_refuses :
    (y : String) (t : ℕ) (b : Breaker) (now : ℕ) (x : String)
    → phase b y ≡ tripped t
    → now < t + b.cooldown
    → (x == y) ≡ true
    → (allow b now x).1 ≡ false
unfolding admits
tripped_refuses y t b now x h early e = ground (arith, ==_iff x y, allow-admits b now x)

-- While a circuit is open and the cooldown lasts, every call of Allow on the backend is refused, and
-- no report moves the time from which the cooldown counts.
pub answers_of_tripped :
    (y : String) (t : ℕ) (es : List Event) (b : Breaker)
    → phase b y ≡ tripped t
    → All (λ e. e.now < t + b.cooldown) es
    → (phase (run b es) y ≡ tripped t) × All (λ a. a ≡ false) (answers y b es)
unfolding run answers
answers_of_tripped y t [] b h early = (h, tt)
answers_of_tripped y t (e ∷ es) b h early =
    let (still, rest) =
      answers_of_tripped y t es (step b e.now e.backend e.op)
        (tripped-step y t b e.now e.backend e.op h early.0)
        (rw (step_config b e.now e.backend e.op).1 early.1) in
    elim (Bool-cases (on y e && is_allow e.op)) [
      | inl asks ↦
          (still, rw asks (tripped_refuses y t b e.now e.backend h early.0 (ground arith), rest))
      | inr other ↦ (still, rw other rest)
    ]
