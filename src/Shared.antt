-- ===== src/Shared.antt =====
-- What the packages share (packages/shared): the types of the protocols and the constants.
pub mod Card
pub mod Json
pub mod Task
pub mod Tool
pub mod Text
pub mod Validation
