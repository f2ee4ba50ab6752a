-- ===== src/Snapshot/Unopened.antt =====
-- A data packet on a channel that is recorded but whose state was never opened:
-- `self.channel_states[remote_ip].append` raises.
use dead_nodes_tell_no_tales.Prelude.{
  ℕ, Bytes, Text, true, false, [], ◌∷◌, ◌++◌, ◌==◌, ◌≡◌, refl, sym, ap, ◌∙◌, arith, text_discrete,
}
use dead_nodes_tell_no_tales.Outcome.{ok, raised, key_error}
use dead_nodes_tell_no_tales.Config.{Settings}
use dead_nodes_tell_no_tales.Dict.{mem, has}
use dead_nodes_tell_no_tales.Dict.Laws.{none_of_has}
use dead_nodes_tell_no_tales.Wire.{DataHeader, pack_data, pack_ack}
use dead_nodes_tell_no_tales.Wire.RoundTrip.{InRange}
use dead_nodes_tell_no_tales.Node.{Node, Buffered, Controller, Peer, tunnelled}
use dead_nodes_tell_no_tales.Node.Peers.{
  peer_at, get_peer, emit, peer_at-get_peer, snapshot_ctrl-get_peer, events-get_peer,
}
use dead_nodes_tell_no_tales.Exec.{◌>>=◌}
use dead_nodes_tell_no_tales.Mesh.Deliver.{deliver_over, deliver_within, process_and_deliver}
use dead_nodes_tell_no_tales.Mesh.Tunnel.{accept, receive, datagram_received}
use dead_nodes_tell_no_tales.Mesh.Tunnel.Packets.{content, data_received}
use dead_nodes_tell_no_tales.Snapshot.Flush.{Deliver}
use dead_nodes_tell_no_tales.Snapshot.Marker.{is_marker, append_to, record_message, process_message}

-- The node takes a snapshot and records the channel from `ip`, whose state was never opened.
pub record IsUnopened (ip : Text) (n : Node) : Type 0 where
  pub busy : n.snapshot_ctrl.is_snapshotting ≡ true
  pub recorded : mem text_discrete n.snapshot_ctrl.recording_channels ip ≡ true
  pub unknown : has text_discrete n.snapshot_ctrl.channel_states ip ≡ false

module _ (env : Settings) (ip : Text) where
  deliver_over-unopened :
      (below : Deliver) (seq : ℕ) (b : Buffered) (n : Node)
      → is_marker b.payload ≡ false
      → IsUnopened ip n
      → deliver_over env below seq b.payload ip b.src_port b.dst_port b.local_ip n
        ≡ (raised key_error, n)
  unfolding deliver_over process_message record_message append_to ◌>>=◌
  deliver_over-unopened below seq b n plain u =
      ground
        (arith, plain, u, none_of_has text_discrete n.snapshot_ctrl.channel_states ip u.unknown)

  receive-unopened :
      (b : Buffered) (n : Node)
      → is_marker b.payload ≡ false
      → IsUnopened ip n
      → receive (process_and_deliver env) ip (peer_at n ip).recv_seq b n ≡ (raised key_error, n)
  unfolding receive accept process_and_deliver deliver_within ◌>>=◌
  receive-unopened b n plain u =
      let same : ((peer_at n ip).recv_seq == (peer_at n ip).recv_seq) ≡ true = ground arith in
      rw (same, deliver_over-unopened (deliver_within env 249) (peer_at n ip).recv_seq b n plain u)
        refl

  -- The packet of the next number on a channel that a snapshot records but has no state of, with a message that
  -- is no marker, to a node whose tunnel is open: it is acknowledged, and then KeyError is raised. Nothing else
  -- is sent or handed to the application, and what the node holds for the peer, `recv_seq` included, and the
  -- controller stay as they are.
  pub unopened_stalls :
      (h : DataHeader) (payload packed : Bytes) (n : Node)
      → InRange h
      → h.msg_type ≡ 0
      → pack_data h ≡ ok packed
      → n.tunnel_open ≡ true
      → h.seq ≡ (peer_at n ip).recv_seq
      → is_marker payload ≡ false
      → IsUnopened ip n
      → (ack : Bytes) × (pack_ack h.seq ≡ ok ack)
        × ((datagram_received env (packed ++ payload) ip n).0 ≡ raised key_error)
        × ((datagram_received env (packed ++ payload) ip n).1.events
            ≡ n.events ++ tunnelled ack ip ∷ [])
        × (peer_at (datagram_received env (packed ++ payload) ip n).1 ip ≡ peer_at n ip)
        × ((datagram_received env (packed ++ payload) ip n).1.snapshot_ctrl ≡ n.snapshot_ctrl)
  unfolding emit
  unopened_stalls h payload packed n r type packs opened next plain u =
      let (ack, local, made, address, run) =
        data_received env h payload packed ip n r type packs opened in
      let acked : Node = emit (tunnelled ack ip) (get_peer ip n) in
      let ctrl : acked.snapshot_ctrl ≡ n.snapshot_ctrl = snapshot_ctrl-get_peer n ip in
      let peer : peer_at acked ip ≡ peer_at n ip = peer_at-get_peer n ip ip in
      let e =
        run
        ∙ ap (λ k. receive (process_and_deliver env) ip k (content h payload local) acked)
            (next ∙ sym (ap (λ (p : Peer). p.recv_seq) peer))
        ∙ receive-unopened (content h payload local) acked plain (record {
          busy = ap (λ (c : Controller). c.is_snapshotting) ctrl ∙ u.busy;
          recorded =
              ap (λ (c : Controller). mem text_discrete c.recording_channels ip) ctrl ∙ u.recorded;
          unknown = ap (λ (c : Controller). has text_discrete c.channel_states ip) ctrl ∙ u.unknown;
        }) in
      (
        ack,
        made,
        rw e refl,
        rw e (ap (λ l. l ++ tunnelled ack ip ∷ []) (events-get_peer n ip)),
        rw e peer,
        rw e ctrl,
      )
