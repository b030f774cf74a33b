-- ===== src/Routing/Circuit.antt =====
-- internal/routing/circuit.go: the per-backend circuit breaker.
-- The clock is an argument of the two methods that read it; `opened_at` of a circuit that never
-- opened is 0. A method that takes `b.mu` is one step. The listener hook is a log of its calls.
pub mod Phase
pub mod History
pub mod Probes
mod Scenarios
use aegis_route.Base.{
  ℕ, ◌+◌, String, string_key, Bool, true, false, Option, none, some, List, [], ◌∷◌, ◌++◌, ltb, leb,
  if◌then◌else◌,
}
use aegis_route.Base.Map.{Map, lookup, insert}

pub data CircuitState : Type 0 where
  closed opened half_open : CircuitState

pub record Circuit : Type 0 where
  pub state : CircuitState
  pub failures : ℕ
  pub opened_at : ℕ
  pub probing : Bool

pub record Breaker : Type 0 where
  pub threshold : ℕ
  pub cooldown : ℕ
  pub on_change : Bool
  pub circuits : Map String Circuit
  pub changes : List (String × CircuitState)

-- NewBreaker; `on_change` tells whether a listener is registered.
unfoldable pub new_breaker : ℕ → ℕ → Bool → Breaker
new_breaker threshold cooldown on_change = record {
  threshold = threshold;
  cooldown = cooldown;
  on_change = on_change;
  circuits = [];
  changes = [];
}

-- `&circuit{state: models.CircuitStateClosed}`
abbrev pub fresh : Circuit
fresh = record { state = closed; failures = 0; opened_at = 0; probing = false }

abbrev pub or_fresh : Option Circuit → Circuit
or_fresh none = fresh
or_fresh (some c) = c

-- The circuit that `b.circuit(backend)` returns.
unfoldable pub circuit : Breaker → String → Circuit
circuit b backend = or_fresh (lookup backend b.circuits)

-- The write through the pointer that `b.circuit(backend)` returned.
unfoldable pub store : Breaker → String → Circuit → Breaker
store b backend c = record b { circuits = insert backend c b.circuits }

-- Sets the state and fires the listener.
unfoldable pub transition : Breaker → String → Circuit → CircuitState → Breaker
unfolding store
transition b backend c state =
    let b' = store b backend (record c { state = state }) in
    if b.on_change then record b' { changes = b.changes ++ (backend, state) ∷ [] } else b'

-- Moves the circuit to open and stamps the cooldown start.
unfoldable pub open_circuit : Breaker → ℕ → String → Circuit → Breaker
unfolding transition
open_circuit b now backend c = transition b backend (record c { opened_at = now }) opened

allow_at : CircuitState → Breaker → ℕ → String → Circuit → Breaker × Bool
unfolding store transition
allow_at closed b now backend c = (store b backend c, true)
allow_at opened b now backend c =
    if ltb now (c.opened_at + b.cooldown)
    then (store b backend c, false)
    else (transition b backend (record c { probing = true }) half_open, true)
allow_at half_open b now backend c =
    if c.probing
    then (store b backend c, false)
    else (store b backend (record c { probing = true }), true)

-- Allow. `now - opened_at < cooldown` is written without the subtraction.
unfoldable pub allow : Breaker → ℕ → String → Breaker × Bool
unfolding allow_at circuit
allow b now backend = let c = circuit b backend in allow_at c.state b now backend c

success_at : CircuitState → Breaker → String → Circuit → Breaker
unfolding store transition
success_at closed b backend c = store b backend (record c { failures = 0 })
success_at opened b backend c = store b backend c
success_at half_open b backend c =
    transition b backend (record c { failures = 0; probing = false }) closed

unfoldable pub report_success : Breaker → String → Breaker
unfolding success_at circuit
report_success b backend = let c = circuit b backend in success_at c.state b backend c

canceled_at : CircuitState → Breaker → String → Circuit → Breaker
unfolding store
canceled_at half_open b backend c = store b backend (record c { probing = false })
canceled_at _ b backend c = store b backend c

unfoldable pub report_canceled : Breaker → String → Breaker
unfolding canceled_at circuit
report_canceled b backend = let c = circuit b backend in canceled_at c.state b backend c

failure_at : CircuitState → Breaker → ℕ → String → Circuit → Breaker
unfolding store open_circuit
failure_at closed b now backend c =
    let c' = record c { failures = c.failures + 1 } in
    if leb b.threshold c'.failures then open_circuit b now backend c' else store b backend c'
failure_at opened b now backend c = store b backend c
failure_at half_open b now backend c = open_circuit b now backend (record c { probing = false })

unfoldable pub report_failure : Breaker → ℕ → String → Breaker
unfolding failure_at circuit
report_failure b now backend = let c = circuit b backend in failure_at c.state b now backend c

-- State. Reading an unseen backend creates its closed circuit.
unfoldable pub state : Breaker → String → Breaker × CircuitState
unfolding store circuit
state b backend = let c = circuit b backend in (store b backend c, c.state)

unfoldable pub circuit_state_gauge_value : CircuitState → ℕ
circuit_state_gauge_value half_open = 1
circuit_state_gauge_value opened = 2
circuit_state_gauge_value closed = 0
