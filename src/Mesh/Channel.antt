-- ===== src/Mesh/Channel.antt =====
-- Two sidecars and the tunnel from the one to the other. The network keeps every packet that was ever
-- put on the tunnel, and brings any of them at any time: packets are lost, repeated and reordered.
pub mod Sender
pub mod Resend
pub mod Receiver
pub mod Linked
pub mod Fifo
use dead_nodes_tell_no_tales.Prelude.{ℕ, Bytes, Text, true, [], ◌≡◌, ◌∈◌}
use dead_nodes_tell_no_tales.Config.{Settings}
use dead_nodes_tell_no_tales.Node.{Node}
use dead_nodes_tell_no_tales.Node.Peers.{peer_at}
use dead_nodes_tell_no_tales.Mesh.Send.{send_data}
use dead_nodes_tell_no_tales.Mesh.Spoof.Effects.{tunnels}
use dead_nodes_tell_no_tales.Mesh.Deliver.Live.{IsIdle}
use dead_nodes_tell_no_tales.Mesh.Timer.{retransmit_round}
use dead_nodes_tell_no_tales.Mesh.Tunnel.{datagram_received}

-- A datagram of the sender's application.
pub record Outgoing : Type 0 where
  pub src_port : ℕ
  pub dst_port : ℕ
  pub target_ip : Bytes
  pub payload : Bytes

-- Nothing has been sent or received, the tunnel is open, and no snapshot runs.
pub record IsFresh (n : Node) : Type 0 where
  pub peers : n.peers ≡ []
  pub events : n.events ≡ []
  pub tunnel : n.tunnel_open ≡ true
  pub idle : IsIdle n

-- The addresses of the sender and of the receiver, and the datagrams that the sender's application sends, by
-- their number.
module _ (from_env to_env : Settings) (from to : Text) (m : ℕ → Outgoing) where
  abbrev pub send_next : Node → Node
  send_next s =
      let k = (peer_at s to).send_seq in
      (send_data to (m k).src_port (m k).dst_port (m k).target_ip (m k).payload s).1

  -- The states of the sender and of the receiver that a run can come to.
  pub data Run : Node → Node → Type 0 where
    start : {s r : Node} → IsFresh s → IsFresh r → Run s r
    send : {s r : Node} → Run s r → Run (send_next s) r
    wait : {s r : Node} (now : ℕ) → Run s r → Run (record s { clock = now }) r
    resend : {s r : Node} → Run s r → Run (retransmit_round from_env s).1 r
    arrive :
        {s r : Node} (packet : Bytes)
        → Run s r
        → (packet, to) ∈ tunnels s.events
        → Run s (datagram_received to_env packet from r).1
    acked :
        {s r : Node} (packet : Bytes)
        → Run s r
        → (packet, from) ∈ tunnels r.events
        → Run (datagram_received from_env packet to s).1 r
