-- ===== src/Tests.antt =====
-- Concrete inputs for the theorems: the children apply each theorem to them.
mod Fixtures
mod Messages
mod States
mod Stores
mod Serving
mod Pools
mod Exchanges
mod Systems
mod Recording
mod Asking
mod Agreeing
mod Publishing
mod Clocks
