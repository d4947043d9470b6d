-- ===== src/Tests.antt =====
-- Tests of the definitions and the theorems at concrete working copies and diffs.
mod World
mod Hunks
mod Policy
mod Applier
mod Creation
mod Usage
mod Session
mod Model
mod Runtime
mod Repository
mod Replies
mod Records
