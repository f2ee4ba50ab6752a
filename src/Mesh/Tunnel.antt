-- ===== src/Mesh/Tunnel.antt =====
-- `TunnelProtocol.datagram_received`: the receiving side of the tunnel.
pub mod Reassembly
pub mod InOrder
pub mod Stream
pub mod Logged
pub mod Packets
pub mod Acks
use dead_nodes_tell_no_tales.Prelude.{
  ℕ, zero, suc, ◌+◌, Bytes, Text, Bool, true, false, Option, none, some, List, [], ◌∷◌, length,
  take, drop, ltb, ◌==◌, if◌then◌else◌, ℕ_discrete,
}
use dead_nodes_tell_no_tales.Config.{Settings}
use dead_nodes_tell_no_tales.Address.{inet_ntoa}
use dead_nodes_tell_no_tales.Dict.{has, get?, put, remove}
use dead_nodes_tell_no_tales.Node.{Node, Peer, Buffered}
use dead_nodes_tell_no_tales.Node.Peers.{peer_at, get_peer, update_peer}
use dead_nodes_tell_no_tales.Wire.{
  data_header_size, ack_header_size, unpack_data, pack_ack, unpack_ack,
}
use dead_nodes_tell_no_tales.Exec.{Exec, pure, lift, gets, modify, ◌>>=◌, ◌>>◌}
use dead_nodes_tell_no_tales.Mesh.Spoof.{spoof_send}
use dead_nodes_tell_no_tales.Mesh.Send.{tunnel_send}
use dead_nodes_tell_no_tales.Mesh.Deliver.{process_and_deliver}
use dead_nodes_tell_no_tales.Snapshot.Flush.{Deliver}

-- peer.recv_seq += 1
unfoldable pub advance : Peer → Peer
advance p = record p { recv_seq = p.recv_seq + 1 }

-- peer.recv_buffer.pop(peer.recv_seq)
unfoldable pub pop_next : Peer → Peer
pop_next p = record p { recv_buffer = remove ℕ_discrete p.recv_buffer p.recv_seq }

-- peer.recv_buffer[seq] = (...)
unfoldable pub buffer : ℕ → Buffered → Peer → Peer
buffer seq b p = record p { recv_buffer = put ℕ_discrete p.recv_buffer seq b }

unfoldable pub next_buffered : Peer → Option Buffered
next_buffered p = get? ℕ_discrete p.recv_buffer p.recv_seq

unfoldable pub acknowledge : ℕ → Peer → Peer
acknowledge seq p =
    if has ℕ_discrete p.unacked seq
    then record p { unacked = remove ℕ_discrete p.unacked seq }
    else p

-- Over any `process_and_deliver`.
module _ (deliver : Deliver) (ip : Text) where
  -- The call of `process_and_deliver`, and the step of `recv_seq` behind it.
  unfoldable pub accept : ℕ → Buffered → Exec Node (Unit {0})
  accept seq b = do
    deliver seq b.payload ip b.src_port b.dst_port b.local_ip
    modify (update_peer ip advance)

  -- while peer.recv_seq in peer.recv_buffer: each round takes an entry out of the buffer, so as many
  -- rounds as it has entries are enough.
  unfoldable pub flush_buffer : ℕ → Exec Node (Unit {0})
  flush_buffer zero = pure tt
  flush_buffer (suc fuel) = do
    p ← gets (λ n. peer_at n ip)
    elim (next_buffered p) [
      | none ↦ pure tt
      | some b ↦ do modify (update_peer ip pop_next); accept p.recv_seq b; flush_buffer fuel
    ]

  -- The three cases of a data packet: in order, in the future, a duplicate.
  unfoldable pub receive : ℕ → Buffered → Exec Node (Unit {0})
  receive seq b = do
    p ← gets (λ n. peer_at n ip)
    if seq == p.recv_seq
        then (do
          accept seq b
          waiting ← gets (λ n. length (peer_at n ip).recv_buffer)
          flush_buffer waiting)
        else if ltb p.recv_seq seq
        then modify (update_peer ip (buffer seq b))
        else pure tt

module _ (env : Settings) where
  unfoldable pub receive_data : Text → Bytes → Exec Node (Unit {0})
  unfolding receive accept flush_buffer buffer pop_next next_buffered advance
  receive_data remote_ip datagram = if ltb (length datagram) data_header_size then pure tt else do
    h ← lift (unpack_data (take data_header_size datagram))
    local_ip ← lift (inet_ntoa h.target_ip)
    ack ← lift (pack_ack h.seq)
    tunnel_send ack remote_ip
    receive (process_and_deliver env) remote_ip h.seq (record {
      payload = drop data_header_size datagram;
      src_port = h.src_port;
      dst_port = h.dst_port;
      local_ip = local_ip;
    })

  unfoldable pub receive_plain : Text → Bytes → Exec Node (Unit {0})
  receive_plain remote_ip datagram = if ltb (length datagram) data_header_size then pure tt else do
    h ← lift (unpack_data (take data_header_size datagram))
    local_ip ← lift (inet_ntoa h.target_ip)
    spoof_send env remote_ip h.src_port (drop data_header_size datagram) local_ip h.dst_port

  unfoldable pub receive_ack : Text → Bytes → Exec Node (Unit {0})
  unfolding acknowledge
  receive_ack remote_ip datagram = if ltb (length datagram) ack_header_size then pure tt else do
    seq ← lift (unpack_ack (take ack_header_size datagram))
    modify (update_peer remote_ip (acknowledge seq))

  unfoldable pub dispatch : Text → Bytes → Exec Node (Unit {0})
  unfolding receive_data receive_plain receive_ack
  dispatch remote_ip [] = pure tt
  dispatch remote_ip (msg_type ∷ rest) =
      if msg_type == 0
      then receive_data remote_ip (msg_type ∷ rest)
      else if msg_type == 2
      then receive_plain remote_ip (msg_type ∷ rest)
      else if msg_type == 1
      then receive_ack remote_ip (msg_type ∷ rest)
      else pure tt

  unfoldable pub datagram_received : Bytes → Text → Exec Node (Unit {0})
  unfolding dispatch
  datagram_received datagram remote_ip = do
    modify (get_peer remote_ip)
    if ltb (length datagram) 5 then pure tt else dispatch remote_ip datagram
