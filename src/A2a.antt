-- ===== src/A2a.antt =====
-- The package packages/a2a-router: tasks, their router, and agent cards.
pub mod Lifecycle
pub mod Cards
pub mod Router
mod Tests
