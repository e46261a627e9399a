-- ===== src/Tests.antt =====
-- Small inputs, what the program does on them, and the theorems at them.
mod Samples
mod Timing
mod Cutting
mod Patterns
mod Queueing
mod Remembering
mod Signing
mod Ruling
