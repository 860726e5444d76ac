-- ===== src/Tests.antt =====
-- The theorems applied at concrete inputs.
mod Ccsds
mod Files
mod Generate
mod Sequencer
mod Vehicle
mod Codec
mod Sequences
mod Server
mod Client
