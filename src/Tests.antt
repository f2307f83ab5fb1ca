-- ===== src/Tests.antt =====
-- Concrete orders, books and calls, on which each theorem is applied; prices are natural numbers.
pub mod Orders
pub mod Books
pub mod Market
pub mod Rings
pub mod Latencies
pub mod Lines
pub mod Relays
pub mod Clients
pub mod Shutdown
pub mod Startup
pub mod Program
