-- ===== src/Counter.antt =====
-- src/counter.py: the counter application that the sidecars carry the messages of.
pub mod Numerals
pub mod Words
pub mod Nodes
pub mod Transfers
pub mod Client
