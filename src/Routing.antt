-- ===== src/Routing.antt =====
-- internal/routing: the circuit breaker and the backend selector.
pub mod Circuit
pub mod Selector
