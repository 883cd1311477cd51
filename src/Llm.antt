-- ===== src/Llm.antt =====
-- The SDK of llm_service: its exceptions, the circuit breaker, the router and its strategies, the
-- response cache and the conversation memory.
pub mod Errors
pub mod Breaker
pub mod Cache
pub mod Memory
pub mod Strategies
pub mod Router
mod Tests
