-- ===== src/Tests.antt =====
-- The theorems applied at concrete inputs.
mod Toy
mod Codec
mod Node
mod Relay
mod Poll
