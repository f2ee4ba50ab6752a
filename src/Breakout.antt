-- ===== src/Breakout.antt =====
-- proxy/breakout_receiver.py: the HTTP receiver on the host, which runs the container commands and
-- stores the artifacts of snapshots.
pub mod Fields
pub mod Commands
pub mod Requests
pub mod Http
pub mod Globs
pub mod Archive
pub mod Arguments
pub mod Safety
pub mod Quoting
