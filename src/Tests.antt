-- ===== src/Tests.antt =====
-- Runs of the model at concrete inputs, and instances of the theorems.
mod Machine
mod Tables
mod Classes
mod Texts
mod Kinds
mod Jumps
mod Choices
mod Positions
mod Patterns
mod Sources
mod Parsing
