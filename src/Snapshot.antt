-- ===== src/Snapshot.antt =====
-- `SnapshotController` of proxy/snapshot_handler.py.
pub mod Host
pub mod Artifact
pub mod Flush
pub mod Marker
pub mod Restore
pub mod Recording
pub mod Replay
pub mod Ending
pub mod Cut
pub mod Wedge
pub mod Unopened
pub mod Agreement
pub mod Phases
pub mod Exact
pub mod OpenChannels
pub mod Opening
