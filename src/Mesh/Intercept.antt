-- ===== src/Mesh/Intercept.antt =====
-- `MeshProxy._forward_intercepted` and `drain_intercept`.
pub mod Routing
pub mod Contents
pub mod Forwarding
pub mod Draining
use dead_nodes_tell_no_tales.Prelude.{
  ℕ, Bytes, Text, Option, none, some, List, [], ◌∷◌, ◌==◌, if◌then◌else◌,
}
use dead_nodes_tell_no_tales.Config.{Settings}
use dead_nodes_tell_no_tales.Address.{inet_ntoa, inet_aton, in_mesh}
use dead_nodes_tell_no_tales.Node.{Node, Intercepted}
use dead_nodes_tell_no_tales.Node.Peers.{get_peer}
use dead_nodes_tell_no_tales.Exec.{Exec, pure, lift, gets, modify, ◌>>=◌, ◌>>◌}
use dead_nodes_tell_no_tales.Mesh.Spoof.{spoof_send}
use dead_nodes_tell_no_tales.Mesh.Send.{send_data, send_plain, use_rudp}

module _ (env : Settings) where
  -- The destination lies in the mesh.
  unfoldable pub forward_tunnelled : Intercepted → Text → ℕ → Exec Node (Unit {0})
  forward_tunnelled d target_ip target_port = do
    target_bytes ← lift (inet_aton target_ip)
    reliable ← gets (use_rudp env target_ip)
    if reliable
        then (do
          modify (get_peer target_ip)
          send_data target_ip d.src_port target_port target_bytes d.content)
        else send_plain target_ip d.src_port target_port target_bytes d.content

  unfoldable pub forward_to : Intercepted → Option (ℕ × Bytes) → Exec Node (Unit {0})
  unfolding forward_tunnelled
  forward_to d none = pure tt
  forward_to d (some (target_port, address)) = do
    target_ip ← lift (inet_ntoa address)
    if target_port == 0 then pure tt else do
      inside ← lift (in_mesh target_ip)
      if inside
          then forward_tunnelled d target_ip target_port
          else spoof_send env d.src_ip d.src_port d.content target_ip target_port

  unfoldable pub forward_intercepted : Intercepted → Exec Node (Unit {0})
  unfolding forward_to
  forward_intercepted d = forward_to d d.destination

  -- The loop of `recvmsg`, up to `BlockingIOError`: forwarding puts nothing on the socket.
  unfoldable pub drain_from : List Intercepted → Exec Node (Unit {0})
  drain_from [] = pure tt
  drain_from (d ∷ rest) = do
    modify (λ n. record n { pending = rest })
    forward_intercepted d
    drain_from rest

  unfoldable pub drain_intercept : Exec Node (Unit {0})
  unfolding drain_from
  drain_intercept = do waiting ← gets (λ n. n.pending); drain_from waiting
