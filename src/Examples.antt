-- ===== src/Examples.antt =====
-- Concrete runs, and each theorem of the development at a concrete input.
pub mod Data
pub mod Runs
mod Witnesses
mod Outcomes
mod Held
mod Answers
mod Scripts
mod Requests
