-- ===== src/Tests.antt =====
-- Concrete inputs, and the theorems of the library applied to them.
pub mod Fixtures
pub mod Write
pub mod Lanes
pub mod Guards
pub mod Read
pub mod Limits
pub mod Rag
pub mod Tools
pub mod Freshness
pub mod Answers
