-- ===== src/Snapshot/Agreement.antt =====
-- The two sides of a channel of the cut: the coordinate that the sender of a marker records, and the
-- one that its receiver records.
use dead_nodes_tell_no_tales.Prelude.{
  ℕ, ◌+◌, Bytes, Text, true, false, some, List, [], ◌∷◌, ◌++◌, length, ◌==◌, text_discrete, if_pos,
  ◌≡◌, ◌≢◌, refl, sym, ap, ◌∙◌, arith,
}
use dead_nodes_tell_no_tales.Outcome.{Outcome, ok}
use dead_nodes_tell_no_tales.Config.{Settings}
use dead_nodes_tell_no_tales.Dict.{get?, mem, discard}
use dead_nodes_tell_no_tales.Dict.Laws.{get?-put}
use dead_nodes_tell_no_tales.Dict.Sets.{mem-discard}
use dead_nodes_tell_no_tales.Wire.{pack_data, pack_ack}
use dead_nodes_tell_no_tales.Address.{inet_ntoa}
use dead_nodes_tell_no_tales.Wire.RoundTrip.{InRange}
use dead_nodes_tell_no_tales.Node.{Node, Peer, Buffered, Controller, tunnelled}
use dead_nodes_tell_no_tales.Node.Peers.{
  peer_at, get_peer, update_peer, update_ctrl, emit, peer_at-get_peer, peer_at-update_peer_self,
  snapshot_ctrl-get_peer,
}
use dead_nodes_tell_no_tales.Exec.{◌>>=◌}
use dead_nodes_tell_no_tales.Mesh.Deliver.{deliver_over, deliver_within, process_and_deliver}
use dead_nodes_tell_no_tales.Mesh.Tunnel.{advance, accept, flush_buffer, receive, datagram_received}
use dead_nodes_tell_no_tales.Mesh.Tunnel.Packets.{content, data_received}
use dead_nodes_tell_no_tales.Snapshot.Flush.{Deliver}
use dead_nodes_tell_no_tales.Snapshot.Marker.{
  zero_ip, is_marker, after_colon, is_current, close_channel, finish_if_done, later_marker,
  on_marker, process_message,
}
use dead_nodes_tell_no_tales.Snapshot.Cut.{marker_header, IsMarked}

-- The node takes the snapshot that the payload names, and records the channel from `ip` and at least
-- one more, from `last`.
pub record Awaits (payload : Bytes) (ip last : Text) (n : Node) : Type 0 where
  pub busy : n.snapshot_ctrl.is_snapshotting ≡ true
  pub current : n.snapshot_ctrl.current_snapshot_id ≡ some (after_colon payload)
  pub recorded : mem text_discrete n.snapshot_ctrl.recording_channels ip ≡ true
  pub more : mem text_discrete n.snapshot_ctrl.recording_channels last ≡ true
  pub differ : ip ≢ last

-- Another channel stays open.
open_after :
    (channels : List Text) (ip last : Text)
    → mem text_discrete channels last ≡ true
    → ip ≢ last
    → (first : Text) × (rest : List Text) × (discard text_discrete channels ip ≡ first ∷ rest)
unfolding mem discard
open_after [] ip last m ne = absurd (ground arith)
open_after (c ∷ channels) ip last m ne = elim (text_discrete c ip) [
  | yes p ↦
      let (first, rest, e) = open_after channels ip last (ground (arith, m, ne, p)) ne in
      (first, rest, ground (arith, e, p))
  | no other ↦ (c, discard text_discrete channels ip, ground (arith, other))
]

module _ (env : Settings) where
  pub deliver-closing :
      (below : Deliver) (seq : ℕ) (payload : Bytes) (ip last : Text) (src_port dst_port : ℕ)
      (local : Text) (n : Node)
      → is_marker payload ≡ true
      → Awaits payload ip last n
      → deliver_over env below seq payload ip src_port dst_port local n
        ≡ (ok tt, update_ctrl (close_channel ip seq) n)
  unfolding deliver_over process_message on_marker later_marker is_current finish_if_done
      close_channel update_ctrl ◌>>=◌
  deliver-closing below seq payload ip last src_port dst_port local n marker a =
      let (first, rest, e) =
        open_after n.snapshot_ctrl.recording_channels ip last a.more a.differ in
      ground (arith, marker, a.busy, a.current, a.recorded, e)

  accept-closing :
      (seq : ℕ) (b : Buffered) (ip last : Text) (n : Node)
      → is_marker b.payload ≡ true
      → Awaits b.payload ip last n
      → accept (process_and_deliver env) ip seq b n
        ≡ (ok tt, update_peer ip advance (update_ctrl (close_channel ip seq) n))
  unfolding accept process_and_deliver deliver_within ◌>>=◌
  accept-closing seq b ip last n marker a =
      rw
        (deliver-closing (deliver_within env 249) seq b.payload ip last b.src_port b.dst_port
          b.local_ip n marker a)
        refl

  receive-closing :
      (seq : ℕ) (b : Buffered) (ip last : Text) (n : Node)
      → is_marker b.payload ≡ true
      → Awaits b.payload ip last n
      → (peer_at n ip).recv_seq ≡ seq
      → (peer_at n ip).recv_buffer ≡ []
      → receive (process_and_deliver env) ip seq b n
        ≡ (ok tt, update_peer ip advance (update_ctrl (close_channel ip seq) n))
  unfolding receive flush_buffer ◌>>=◌
  receive-closing seq b ip last n marker a next empty =
      rw (in_order, accept-closing seq b ip last n marker a, no_waiting) refl
    where
      in_order : (seq == (peer_at n ip).recv_seq) ≡ true
      in_order = ground (arith, next)

      closed : Node
      closed = update_ctrl (close_channel ip seq) n

      no_waiting : length (peer_at (update_peer ip advance closed) ip).recv_buffer ≡ 0
      no_waiting =
          ap (λ (p : Peer). length p.recv_buffer) (peer_at-update_peer_self closed ip advance)
          ∙ unfold advance update_ctrl in ap (λ (l : List _). length l) empty

InRange-marker_header :
    (seq : ℕ) (header : Bytes)
    → pack_data (marker_header seq) ≡ ok header
    → InRange (marker_header seq)
unfolding pack_data
InRange-marker_header seq header e = record {
  msg_type = omega arith;
  seq = ground (arith, e);
  src_port = omega arith;
  dst_port = omega arith;
  target_ip = refl;
}

-- The receiver has closed the channel at the point where the sender has marked it.
pub record Agree (to from : Text) (sender receiver : Node) (r : Outcome (Unit {0}) × Node)
    : Type 0 where
  pub returned : r.0 ≡ ok tt
  pub coordinates :
      get? text_discrete r.1.snapshot_ctrl.recorded_recv_seq from
      ≡ get? text_discrete sender.snapshot_ctrl.recorded_send_seq to
  pub numbers : (peer_at r.1 from).recv_seq ≡ (peer_at sender to).send_seq
  pub closed : mem text_discrete r.1.snapshot_ctrl.recording_channels from ≡ false
  pub states : r.1.snapshot_ctrl.channel_states ≡ receiver.snapshot_ctrl.channel_states

module _ (env : Settings) (payload : Bytes) (to from last : Text) (sender receiver : Node) where
  Agree-closed :
      (m : IsMarked payload to sender) (n : Node)
      → n.snapshot_ctrl ≡ receiver.snapshot_ctrl
      → (peer_at n from).recv_seq ≡ m.seq
      → Agree to from sender receiver
          (ok tt, update_peer from advance (update_ctrl (close_channel from m.seq) n))
  unfolding close_channel update_ctrl advance
  Agree-closed m n ctrl next = record {
    returned = refl;
    coordinates =
        unfold update_peer in
        get?-put text_discrete n.snapshot_ctrl.recorded_recv_seq from (m.seq + 1) from
        ∙ (if_pos (text_discrete from from) refl _ _ ∙ sym m.coordinate);
    numbers =
        ap (λ (p : Peer). p.recv_seq)
          (peer_at-update_peer_self (update_ctrl (close_channel from m.seq) n) from advance)
        ∙ omega (arith, next, m.next);
    closed =
        unfold update_peer in
        mem-discard text_discrete n.snapshot_ctrl.recording_channels from from
        ∙ if_pos (text_discrete from from) refl _ _;
    states = unfold update_peer in ap (λ (c : Controller). c.channel_states) ctrl;
  }

  Awaits-moved :
      (n : Node)
      → n.snapshot_ctrl ≡ receiver.snapshot_ctrl
      → Awaits payload from last receiver
      → Awaits payload from last n
  Awaits-moved n ctrl a = record {
    busy = rw ctrl a.busy;
    current = rw ctrl a.current;
    recorded = rw ctrl a.recorded;
    more = rw ctrl a.more;
    differ = a.differ;
  }

  -- Let a marker wait at its sender to be acknowledged, recorded as the send-side coordinate of its
  -- channel. When its packet reaches the receiver in order and with nothing buffered behind it, while
  -- the receiver records that channel and at least one more for the same snapshot, the receiver
  -- records the same coordinate and expects the number that the sender sends next; it records the
  -- channel no more, and the recorded messages stay as they are.
  pub marker-Agree :
      (m : IsMarked payload to sender)
      → is_marker payload ≡ true
      → Awaits payload from last receiver
      → receiver.tunnel_open ≡ true
      → (peer_at receiver from).recv_seq ≡ m.seq
      → (peer_at receiver from).recv_buffer ≡ []
      → Agree to from sender receiver (datagram_received env (m.header ++ payload) from receiver)
  marker-Agree m marker awaits opened next empty = rw received (
      rw
        (receive-closing env m.seq (content (marker_header m.seq) payload local) from last n marker
          (Awaits-moved n ctrl awaits) (ap (λ (p : Peer). p.recv_seq) peer ∙ next)
          (ap (λ (p : Peer). p.recv_buffer) peer ∙ empty))
        (Agree-closed m n ctrl (ap (λ (p : Peer). p.recv_seq) peer ∙ next)))
    where
      arrival :
          (ack : Bytes) × (local : Text) × (pack_ack m.seq ≡ ok ack)
          × (inet_ntoa zero_ip ≡ ok local)
          × (datagram_received env (m.header ++ payload) from receiver
              ≡ receive
                  (process_and_deliver env)
                  from
                  m.seq
                  (content (marker_header m.seq) payload local)
                  (emit (tunnelled ack from) (get_peer from receiver)))
      arrival =
          data_received env (marker_header m.seq) payload m.header from receiver
            (InRange-marker_header m.seq m.header m.packed) refl m.packed opened

      local : Text
      local = arrival.1

      n : Node
      n = emit (tunnelled arrival.0 from) (get_peer from receiver)

      received :
          datagram_received env (m.header ++ payload) from receiver
          ≡ receive
              (process_and_deliver env)
              from
              m.seq
              (content (marker_header m.seq) payload local)
              n
      received = arrival.4

      ctrl : n.snapshot_ctrl ≡ receiver.snapshot_ctrl
      ctrl = unfold emit in snapshot_ctrl-get_peer receiver from

      peer : peer_at n from ≡ peer_at receiver from
      peer = unfold emit in peer_at-get_peer receiver from from
