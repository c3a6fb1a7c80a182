-- ===== src/Bms.antt =====
-- The L9961 battery management chip: its core, read, set-up and numerical commands.
pub mod Traffic
pub mod Core
pub mod Read
pub mod Setup
pub mod Numerical
pub mod SendConfig
pub mod Commands
pub mod Guard
pub mod Chip
pub mod Identity
pub mod Storing
pub mod Binary
pub mod Frames
pub mod ReadFrames
pub mod StartFrames
pub mod Registers
pub mod Codes
pub mod Thresholds
pub mod StartUp
pub mod Clock
pub mod Measurements
pub mod Table
pub mod Counters
mod Tests
mod Scenarios
pub mod SetUpBms
