-- ===== src/Mesh.antt =====
-- `MeshProxy` and `TunnelProtocol` of proxy/mesh_proxy.py.
pub mod Spoof
pub mod Send
pub mod Intercept
pub mod Deliver
pub mod Tunnel
pub mod Timer
pub mod Channel
pub mod Process
