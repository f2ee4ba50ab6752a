-- ===== src/Mesh/Send/Effects.antt =====
-- What `send_data` does when the header can be packed and the tunnel is open.
use dead_nodes_tell_no_tales.Prelude.{
  ℕ, ◌+◌, ◌^◌, ◌≤◌, Bytes, Text, true, some, ◌++◌, ◌≡◌, refl, arith, ℕ_discrete, if_pos,
}
use dead_nodes_tell_no_tales.Outcome.{ok}
use dead_nodes_tell_no_tales.Dict.{get?}
use dead_nodes_tell_no_tales.Dict.Laws.{get?-put}
use dead_nodes_tell_no_tales.Wire.{DataHeader, pack_data}
use dead_nodes_tell_no_tales.Node.{Node, Peer, tunnelled}
use dead_nodes_tell_no_tales.Node.Peers.{peer_at, update_peer, emit}
use dead_nodes_tell_no_tales.Exec.{◌>>=◌}
use dead_nodes_tell_no_tales.Mesh.Send.{track, tunnel_send, send_data}

abbrev pub data_header : ℕ → ℕ → ℕ → Bytes → DataHeader
data_header seq src_port dst_port target_ip = record {
  msg_type = 0;
  seq = seq;
  src_port = src_port;
  dst_port = dst_port;
  target_ip = target_ip;
}

pub send_data_run :
    (ip : Text) (src_port dst_port : ℕ) (target_ip payload header : Bytes) (n : Node)
    → n.tunnel_open ≡ true
    → pack_data (data_header (peer_at n ip).send_seq src_port dst_port target_ip) ≡ ok header
    → send_data ip src_port dst_port target_ip payload n ≡ (
      ok tt,
      update_peer ip
          (track n.clock (header ++ payload))
          (emit (tunnelled (header ++ payload) ip) n),
    )
unfolding send_data tunnel_send emit ◌>>=◌
send_data_run ip src_port dst_port target_ip payload header n opened packed =
    ground (arith, opened, packed)

module _ (now : ℕ) (packet : Bytes) (p : Peer) where
  pub send_seq-track : (track now packet p).send_seq ≡ p.send_seq + 1
  unfolding track
  send_seq-track = refl

  pub unacked-track :
      get? ℕ_discrete (track now packet p).unacked p.send_seq
      ≡ some (record { sent_at = now; packet = packet })
  unfolding track
  unacked-track =
      rw
        (get?-put ℕ_discrete p.unacked p.send_seq (record { sent_at = now; packet = packet })
          p.send_seq)
        (if_pos (ℕ_discrete p.send_seq p.send_seq) refl _ _)

-- The tunnel is open, and `k` more packets can be numbered for each peer.
pub record HasRoom (k : ℕ) (n : Node) : Type 0 where
  pub tunnel : n.tunnel_open ≡ true
  pub room : (ip : Text) → (peer_at n ip).send_seq + k ≤ 256 ^ 8
