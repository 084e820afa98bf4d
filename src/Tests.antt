-- ===== src/Tests.antt =====
-- Tests of the definitions on concrete inputs, and the theorems at inputs where their hypotheses hold.
mod Words
mod Buffers
mod Queues
mod Readers
mod Streams
mod Sessions
mod Runs
mod Carried
mod Clients
mod Outbound
mod Example
mod Probe
mod Bytes
mod Abi
mod Frames
