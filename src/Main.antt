-- ===== src/Main.antt =====
-- Quadruped_Bot_Actuation_Code/src/main.cpp: start-up, and the commands of the serial line.
pub mod Typing
pub mod Lines
pub mod Dispatch
pub mod Actions
pub mod Moves
pub mod Printing
pub mod Plain
pub mod Port
pub mod InLine
pub mod Entries
pub mod Orders
pub mod Frames
pub mod Ready
pub mod Buses
pub mod Steps
pub mod Serving
pub mod Signal
pub mod Robot
pub mod PowerOn
pub mod Interrupts
pub mod Standing
pub mod Start
mod Tests
mod Scenarios
pub mod Scan
pub mod Console
pub mod Setup
