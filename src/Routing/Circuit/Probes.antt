-- ===== src/Routing/Circuit/Probes.antt =====
-- Probes: how many are admitted, when a circuit opens, and when it lets a call through again.
use native.Mathlib.Nat.{add-zero, add-suc, suc-add}
use aegis_route.Base.{
  ℕ, suc, ◌+◌, ◌≤◌, ◌<◌, ◌≡◌, ◌≢◌, refl, String, string_key, ==_iff, Bool, true, List, [], ◌∷◌,
  ◌++◌, if◌then◌else◌, arith, All, length, ==_refl,
}
use aegis_route.Routing.Circuit.{Breaker, allow}
use aegis_route.Routing.Circuit.Phase.{
  Phase, healthy, tripped, probed, phase, Op, allows, succeeds, fails, cancels, next, admits, step,
  step_config, allow-admits, phase-step,
}
use aegis_route.Routing.Circuit.History.{Event, on, run, run_config}

abbrev is_probed : Phase → ℕ
is_probed probed = 1
is_probed _ = 0

-- A call of Allow that is granted and leaves the backend's circuit with a probe out.
abbrev probe_of : Op → Bool → Phase → ℕ
probe_of allows true probed = 1
probe_of _ _ _ = 0

-- A report that arrives while the probe slot is taken.
abbrev verdict_of : Op → Phase → ℕ
verdict_of allows _ = 0
verdict_of succeeds p = is_probed p
verdict_of fails p = is_probed p
verdict_of cancels p = is_probed p

-- How many probes of a backend a history admits.
unfoldable pub probes : String → Breaker → List Event → ℕ
probes y b [] = 0
probes y b (e ∷ es) =
    let b' = step b e.now e.backend e.op in
    let here = probe_of e.op (allow b e.now e.backend).1 (phase b' y) in
    (if on y e then here else 0) + probes y b' es

-- How many reports on a backend arrive while its probe slot is taken.
unfoldable pub verdicts : String → Breaker → List Event → ℕ
verdicts y b [] = 0
verdicts y b (e ∷ es) =
    (if on y e then verdict_of e.op (phase b y) else 0)
    + verdicts y (step b e.now e.backend e.op) es

abbrev FailsOn : String → Event → Type 0
FailsOn y e = (e.backend ≡ y) × (e.op ≡ fails)

run-append : (b : Breaker) (es fs : List Event) → run b (es ++ fs) ≡ run (run b es) fs
unfolding run
run-append b [] fs = refl
run-append b (e ∷ es) fs = run-append (step b e.now e.backend e.op) es fs

All-split {ℓ κ} :
    {A : Type ℓ} (P : A → Type κ) (xs : List A) (y : A) (zs : List A)
    → All P (xs ++ y ∷ zs)
    → All P xs × P y × All P zs
All-split P [] y zs h = (tt, h.0, h.1)
All-split P (x ∷ xs) y zs h = let (a, b, c) = All-split P xs y zs h.1 in ((h.0, a), b, c)

failure_counts :
    (y : String) (b : Breaker) (n : ℕ) (e : Event)
    → phase b y ≡ healthy n
    → FailsOn y e
    → n + 1 < b.threshold
    → phase (step b e.now e.backend e.op) y ≡ healthy (suc n)
unfolding next
failure_counts y b n e h f low =
    ground (arith, ==_iff e.backend y, phase-step b e.now e.backend y e.op)

failure_trips :
    (y : String) (b : Breaker) (n : ℕ) (e : Event)
    → phase b y ≡ healthy n
    → FailsOn y e
    → b.threshold ≡ n + 1
    → phase (step b e.now e.backend e.op) y ≡ tripped e.now
unfolding next
failure_trips y b n e h f at =
    ground (arith, ==_iff e.backend y, phase-step b e.now e.backend y e.op)

failure_keeps :
    (y : String) (t : ℕ) (b : Breaker) (e : Event)
    → phase b y ≡ tripped t
    → FailsOn y e
    → phase (step b e.now e.backend e.op) y ≡ tripped t
unfolding next
failure_keeps y t b e h f = ground (arith, ==_iff e.backend y, phase-step b e.now e.backend y e.op)

failures_below :
    (y : String) (es : List Event) (b : Breaker) (n : ℕ)
    → phase b y ≡ healthy n
    → All (FailsOn y) es
    → n + length es < b.threshold
    → phase (run b es) y ≡ healthy (n + length es)
unfolding run
failures_below y [] b n h f low = rw add-zero h
failures_below y (e ∷ es) b n h f low =
    rw (add-suc, ← suc-add)
      (failures_below y es (step b e.now e.backend e.op) (suc n)
        (failure_counts y b n e h f.0 (omega arith)) f.1
        (rw (step_config b e.now e.backend e.op).0 (omega arith)))

failures_after :
    (y : String) (t : ℕ) (es : List Event) (b : Breaker)
    → phase b y ≡ tripped t
    → All (FailsOn y) es
    → phase (run b es) y ≡ tripped t
unfolding run
failures_after y t [] b h f = h
failures_after y t (e ∷ es) b h f =
    failures_after y t es (step b e.now e.backend e.op) (failure_keeps y t b e h f.0) f.1

-- Failures in a row of a healthy backend are counted up to the threshold; the one that reaches it
-- opens the circuit and stamps its own time, which later failures do not move.
pub phase-run_failures :
    (y : String) (b : Breaker) (n : ℕ) (fs gs : List Event) (e : Event)
    → phase b y ≡ healthy n
    → All (FailsOn y) (fs ++ e ∷ gs)
    → n + length fs + 1 ≡ b.threshold
    → (phase (run b fs) y ≡ healthy (n + length fs))
      × (phase (run b (fs ++ e ∷ gs)) y ≡ tripped e.now)
phase-run_failures y b n fs gs e h f at =
    let (before, last, later) = All-split (FailsOn y) fs e gs f in
    let counted = failures_below y fs b n h before (omega arith) in
    (
      counted,
      rw (run-append b fs (e ∷ gs)) (
          unfold run in
          failures_after y e.now gs (step (run b fs) e.now e.backend e.op)
            (failure_trips y (run b fs) (n + length fs) e counted last
              (rw (run_config b fs).0 (omega arith)))
            later),
    )

-- The earliest time at which Allow admits a call on a backend in a phase other than `probed`.
abbrev ready_at : ℕ → Phase → ℕ
ready_at cooldown (tripped t) = t + cooldown
ready_at cooldown _ = 0

-- No backend is cut off for good: after any report on it, in any state of the breaker, Allow grants
-- a call made once the cooldown of an open circuit is over.
pub allow-report :
    (b : Breaker) (now later : ℕ) (y : String) (op : Op)
    → op ≢ allows
    → ready_at b.cooldown (phase (step b now y op) y) ≤ later
    → (allow (step b now y op) later y).1 ≡ true
unfolding next admits
allow-report b now later y op report ready = ground (
  arith,
  ==_refl y,
  step_config b now y op,
  phase-step b now y y op,
  allow-admits (step b now y op) later y,
)
