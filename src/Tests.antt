-- ===== src/Tests.antt =====
-- Runs of the model at concrete inputs, and the theorems at inputs that meet their hypotheses.
mod Fixtures
mod Runs
mod Witnesses
mod Receiver
mod Counters
mod Packets
mod Channel
mod Clients
mod Cuts
mod Openings
mod Sockets
mod Restores
mod Typed
mod Stalls
