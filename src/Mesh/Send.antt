-- ===== src/Mesh/Send.antt =====
-- `MeshProxy.send_data`, `send_plain` and `_use_rudp`.
pub mod Effects
use dead_nodes_tell_no_tales.Prelude.{
  ℕ, ◌+◌, Bytes, Text, Bool, ◌&&◌, List, [], ◌∷◌, ◌++◌, if◌then◌else◌, text_discrete, ℕ_discrete,
}
use dead_nodes_tell_no_tales.Outcome.{attribute_error}
use dead_nodes_tell_no_tales.Config.{Settings}
use dead_nodes_tell_no_tales.Dict.{mem, put}
use dead_nodes_tell_no_tales.Node.{Node, Peer, tunnelled}
use dead_nodes_tell_no_tales.Node.Peers.{peer_at, update_peer, emit}
use dead_nodes_tell_no_tales.Wire.{pack_data}
use dead_nodes_tell_no_tales.Exec.{Exec, lift, gets, modify, raise, ◌>>=◌, ◌>>◌}

-- self.tunnel_transport.sendto(packet, (ip, TUNNEL_PORT)); before `connection_made` the transport is
-- `None`.
unfoldable pub tunnel_send : Bytes → Text → Exec Node (Unit {0})
tunnel_send packet ip = do
  opened ← gets (λ n. n.tunnel_open)
  if opened then modify (emit (tunnelled packet ip)) else raise attribute_error

-- The two writes at the end of `send_data`.
unfoldable pub track : ℕ → Bytes → Peer → Peer
track now packet p = record p {
  unacked = put ℕ_discrete p.unacked p.send_seq (record { sent_at = now; packet = packet });
  send_seq = p.send_seq + 1;
}

unfoldable pub send_data : Text → ℕ → ℕ → Bytes → Bytes → Exec Node (Unit {0})
send_data peer_ip src_port dst_port target_ip payload = do
  seq ← gets (λ n. (peer_at n peer_ip).send_seq)
  header ← lift (
      pack_data (record {
        msg_type = 0;
        seq = seq;
        src_port = src_port;
        dst_port = dst_port;
        target_ip = target_ip;
      }))
  let packet = header ++ payload
  tunnel_send packet peer_ip
  now ← gets (λ n. n.clock)
  modify (update_peer peer_ip (track now packet))

unfoldable pub send_plain : Text → ℕ → ℕ → Bytes → Bytes → Exec Node (Unit {0})
send_plain peer_ip src_port dst_port target_ip payload = do
  header ← lift (
      pack_data (record {
        msg_type = 2;
        seq = 0;
        src_port = src_port;
        dst_port = dst_port;
        target_ip = target_ip;
      }))
  tunnel_send (header ++ payload) peer_ip

unfoldable pub use_rudp : Settings → Text → Node → Bool
use_rudp env peer_ip n = n.is_server && mem text_discrete env.mesh_members peer_ip
