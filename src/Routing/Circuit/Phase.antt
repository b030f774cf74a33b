-- ===== src/Routing/Circuit/Phase.antt =====
-- The breaker's contract for one backend (the doc comment of internal/routing/circuit.go), and the
-- refinement of it by the methods.
use aegis_route.Base.{
  ℕ, ◌+◌, ◌≡◌, String, string_key, ◌==◌, Bool, true, false, ltb, leb, if◌then◌else◌, arith,
}
use aegis_route.Base.Map.{lookup-insert}
use aegis_route.Routing.Circuit.{
  Breaker, Circuit, CircuitState, closed, opened, half_open, circuit, store, transition, allow,
  report_success, report_canceled, report_failure,
}

-- What a backend's circuit can be: closed after that many failures in a row, open since that time,
-- half-open and waiting for a probe, or half-open with a probe out.
pub data Phase : Type 0 where
  healthy : ℕ → Phase
  tripped : ℕ → Phase
  waiting : Phase
  probed : Phase

abbrev half_phase : Bool → Phase
half_phase true = probed
half_phase false = waiting

abbrev phase_at : CircuitState → Circuit → Phase
phase_at closed c = healthy c.failures
phase_at opened c = tripped c.opened_at
phase_at half_open c = half_phase c.probing

-- The phase of a named backend.
unfoldable pub phase : Breaker → String → Phase
phase b backend = let c = circuit b backend in phase_at c.state c

pub data Op : Type 0 where
  allows succeeds fails cancels : Op

abbrev failure_phase : Bool → ℕ → ℕ → Phase
failure_phase true now failures = tripped now
failure_phase false now failures = healthy failures

-- The contract: the next phase, for a threshold, a cooldown and the time of the call.
unfoldable pub next : ℕ → ℕ → ℕ → Op → Phase → Phase
next threshold cooldown now allows (tripped t) =
    if ltb now (t + cooldown) then tripped t else probed
next threshold cooldown now allows waiting = probed
next threshold cooldown now succeeds (healthy n) = healthy 0
next threshold cooldown now succeeds waiting = healthy 0
next threshold cooldown now succeeds probed = healthy 0
next threshold cooldown now fails (healthy n) = failure_phase (leb threshold (n + 1)) now (n + 1)
next threshold cooldown now fails waiting = tripped now
next threshold cooldown now fails probed = tripped now
next threshold cooldown now cancels probed = waiting
next threshold cooldown now _ p = p

-- The contract: the answer of Allow.
unfoldable pub admits : ℕ → ℕ → Phase → Bool
admits cooldown now (healthy n) = true
admits cooldown now (tripped t) = if ltb now (t + cooldown) then false else true
admits cooldown now waiting = true
admits cooldown now probed = false

-- One call on the breaker.
unfoldable pub step : Breaker → ℕ → String → Op → Breaker
step b now backend allows = (allow b now backend).0
step b now backend succeeds = report_success b backend
step b now backend fails = report_failure b now backend
step b now backend cancels = report_canceled b backend

pub circuit-store :
    (b : Breaker) (x y : String) (c : Circuit)
    → circuit (store b x c) y ≡ (if x == y then c else circuit b y)
unfolding circuit store
circuit-store b x y c = ground (arith, lookup-insert x y c b.circuits)

circuit-transition :
    (b : Breaker) (x y : String) (c : Circuit) (s : CircuitState)
    → circuit (transition b x c s) y ≡ (if x == y then record c { state = s } else circuit b y)
unfolding circuit transition
circuit-transition b x y c s = ground (arith, lookup-insert x y (record c { state = s }) b.circuits)

-- `step` leaves the configuration alone.
pub step_config :
    (b : Breaker) (now : ℕ) (x : String) (op : Op)
    → ((step b now x op).threshold ≡ b.threshold) × ((step b now x op).cooldown ≡ b.cooldown)
unfolding step allow report_success report_failure report_canceled
step_config b now x allows = ground arith
step_config b now x succeeds = ground arith
step_config b now x fails = ground arith
step_config b now x cancels = ground arith

-- The answer of `allow` is the contract's.
pub allow-admits :
    (b : Breaker) (now : ℕ) (x : String) → (allow b now x).1 ≡ admits b.cooldown now (phase b x)
unfolding allow phase admits
allow-admits b now x = ground arith

-- Every call moves the phase of its own backend as the contract says, and no other backend's.
pub phase-step :
    (b : Breaker) (now : ℕ) (x y : String) (op : Op)
    → phase (step b now x op) y
      ≡ (if x == y then next b.threshold b.cooldown now op (phase b x) else phase b y)
unfolding step phase next allow report_success report_failure report_canceled
phase-step b now x y allows = grind (arith, lookup-insert)
phase-step b now x y succeeds = grind (arith, lookup-insert)
phase-step b now x y fails = grind (arith, lookup-insert)
phase-step b now x y cancels = grind (arith, lookup-insert)

-- The methods refine the contract: each call moves the phase of its own backend as `next` says and
-- leaves every other backend's phase alone, and Allow answers as `admits` says.
pub step-Refines :
    (b : Breaker) (now : ℕ) (x y : String) (op : Op)
    → (phase (step b now x op) y
        ≡ (if x == y then next b.threshold b.cooldown now op (phase b x) else phase b y))
      × ((allow b now x).1 ≡ admits b.cooldown now (phase b x))
step-Refines b now x y op = (phase-step b now x y op, allow-admits b now x)
