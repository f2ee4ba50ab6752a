-- ===== src/Snapshot/Cut.antt =====
-- The send-side coordinates of a cut: the broadcast of markers in `process_message`.
use dead_nodes_tell_no_tales.Prelude.{
  ℕ, suc, ◌+◌, ◌^◌, ◌<◌, ◌≤◌, Bytes, Text, true, false, some, List, [], ◌∷◌, ◌++◌, ◌≡◌, ◌≢◌, refl,
  ap, ◌∙◌, subst, arith, text_discrete, ℕ_discrete, if_pos, if_neg, length,
}
use dead_nodes_tell_no_tales.Outcome.{Outcome, ok}
use dead_nodes_tell_no_tales.Dict.{get?, put, mem}
use dead_nodes_tell_no_tales.Dict.Laws.{get?-put}
use dead_nodes_tell_no_tales.Wire.{DataHeader, pack_data}
use dead_nodes_tell_no_tales.Wire.RoundTrip.{InRange, data_round_trip}
use dead_nodes_tell_no_tales.Node.{Node, Peer, Controller, tunnelled}
use dead_nodes_tell_no_tales.Node.Peers.{
  peer_at, get_peer, update_peer, update_ctrl, emit, peer_at-get_peer, peer_at-update_peer,
  peer_at-update_peer_self, tunnel_open-get_peer, snapshot_ctrl-get_peer, pending-get_peer,
}
use dead_nodes_tell_no_tales.Exec.{for_each, ◌>>=◌}
use dead_nodes_tell_no_tales.Mesh.Send.{track}
use dead_nodes_tell_no_tales.Mesh.Send.Effects.{
  HasRoom, send_data_run, send_seq-track, unacked-track,
}
use dead_nodes_tell_no_tales.Snapshot.Marker.{zero_ip, send_marker}

-- The header of a marker.
abbrev pub marker_header : ℕ → DataHeader
marker_header seq = record {
  msg_type = 0;
  seq = seq;
  src_port = 0;
  dst_port = 0;
  target_ip = zero_ip;
}

-- The last packet to `ip` is a marker of this payload: the recorded coordinate is its sequence number
-- plus one, the next sequence number to send, and it waits to be acknowledged.
pub record IsMarked (payload : Bytes) (ip : Text) (n : Node) : Type 0 where
  pub seq : ℕ
  pub header : Bytes
  pub sent_at : ℕ
  pub packed : pack_data (marker_header seq) ≡ ok header
  pub next : (peer_at n ip).send_seq ≡ seq + 1
  pub coordinate : get? text_discrete n.snapshot_ctrl.recorded_send_seq ip ≡ some (seq + 1)
  pub waiting :
      get? ℕ_discrete (peer_at n ip).unacked seq
      ≡ some (record { sent_at = sent_at; packet = header ++ payload })

packed_marker :
    (seq : ℕ) → seq < 256 ^ 8 → (header : Bytes) × (pack_data (marker_header seq) ≡ ok header)
packed_marker seq h =
    let r : InRange (marker_header seq) = record {
      msg_type = omega arith;
      seq = h;
      src_port = omega arith;
      dst_port = omega arith;
      target_ip = refl;
    } in
    let (header, packed, _, _, _) = data_round_trip (marker_header seq) [] r in (header, packed)

-- The state after the marker is sent, and after its coordinate is recorded.
sent_marker : Bytes → Text → Bytes → Node → Node
sent_marker payload ip header n =
    let q = get_peer ip n in
    update_peer ip (track q.clock (header ++ payload)) (emit (tunnelled (header ++ payload) ip) q)

marked : Bytes → Text → Bytes → Node → Node
marked payload ip header n =
    update_ctrl
      (λ c. record c {
        recorded_send_seq =
            put text_discrete c.recorded_send_seq ip
              (peer_at (sent_marker payload ip header n) ip).send_seq;
      })
      (sent_marker payload ip header n)

send_marker_run :
    (payload : Bytes) (ip : Text) (header : Bytes) (n : Node)
    → n.tunnel_open ≡ true
    → pack_data (marker_header (peer_at n ip).send_seq) ≡ ok header
    → send_marker payload ip n ≡ (ok tt, marked payload ip header n)
unfolding send_marker marked sent_marker ◌>>=◌
send_marker_run payload ip header n opened packed = rw (
    send_data_run ip 0 0 zero_ip payload header (get_peer ip n) (tunnel_open-get_peer n ip ∙ opened)
      (rw (peer_at-get_peer n ip ip) packed))

-- The controller but for the send-side coordinates.
abbrev pub without_sent : Controller → Controller
without_sent c = record c { recorded_send_seq = [] }

module _ (payload : Bytes) (ip : Text) (header : Bytes) (n : Node) where
  peer-sent_marker :
      peer_at (sent_marker payload ip header n) ip
      ≡ track (get_peer ip n).clock (header ++ payload) (peer_at n ip)
  unfolding sent_marker emit
  peer-sent_marker =
      peer_at-update_peer_self (emit (tunnelled (header ++ payload) ip) (get_peer ip n)) ip
        (track (get_peer ip n).clock (header ++ payload))
      ∙ ap (track (get_peer ip n).clock (header ++ payload)) (peer_at-get_peer n ip ip)

  peer-marked_ne : (j : Text) → ip ≢ j → peer_at (marked payload ip header n) j ≡ peer_at n j
  unfolding marked sent_marker emit update_ctrl
  peer-marked_ne j ne =
      peer_at-update_peer (emit (tunnelled (header ++ payload) ip) (get_peer ip n)) ip
        (track (get_peer ip n).clock (header ++ payload)) j
      ∙ (if_neg (text_discrete ip j) ne _ _ ∙ peer_at-get_peer n ip j)

  send_seq-marked : (peer_at (marked payload ip header n) ip).send_seq ≡ (peer_at n ip).send_seq + 1
  unfolding marked update_ctrl
  send_seq-marked = rw peer-sent_marker (send_seq-track _ _ (peer_at n ip))

  IsMarked-marked :
      pack_data (marker_header (peer_at n ip).send_seq) ≡ ok header
      → IsMarked payload ip (marked payload ip header n)
  unfolding marked update_ctrl
  IsMarked-marked packed = record {
    seq = (peer_at n ip).send_seq;
    header = header;
    sent_at = (get_peer ip n).clock;
    packed = packed;
    next = rw peer-sent_marker (send_seq-track _ _ (peer_at n ip));
    coordinate =
        get?-put text_discrete _ ip (peer_at (sent_marker payload ip header n) ip).send_seq ip
        ∙ (if_pos (text_discrete ip ip) refl _ _
            ∙ ap some (rw peer-sent_marker (send_seq-track _ _ (peer_at n ip))));
    waiting = rw peer-sent_marker (unacked-track _ _ (peer_at n ip));
  }

  coordinate-marked_ne :
      (j : Text)
      → ip ≢ j
      → get? text_discrete (marked payload ip header n).snapshot_ctrl.recorded_send_seq j
        ≡ get? text_discrete n.snapshot_ctrl.recorded_send_seq j
  unfolding marked sent_marker update_ctrl update_peer emit
  coordinate-marked_ne j ne =
      get?-put text_discrete _ ip _ j
      ∙ (if_neg (text_discrete ip j) ne _ _
          ∙ ap (λ (c : Controller). get? text_discrete c.recorded_send_seq j)
              (snapshot_ctrl-get_peer n ip))

  tunnel-marked : (marked payload ip header n).tunnel_open ≡ n.tunnel_open
  unfolding marked sent_marker update_ctrl update_peer emit
  tunnel-marked = tunnel_open-get_peer n ip

  ctrl-marked :
      without_sent (marked payload ip header n).snapshot_ctrl ≡ without_sent n.snapshot_ctrl
  unfolding marked sent_marker update_ctrl update_peer emit
  ctrl-marked = ap without_sent (snapshot_ctrl-get_peer n ip)

  pending-marked : (marked payload ip header n).pending ≡ n.pending
  unfolding marked sent_marker update_ctrl update_peer emit
  pending-marked = pending-get_peer n ip

  -- Another channel keeps its marker.
  IsMarked-other :
      (j : Text) → ip ≢ j → IsMarked payload j n → IsMarked payload j (marked payload ip header n)
  IsMarked-other j ne h = record {
    seq = h.seq;
    header = h.header;
    sent_at = h.sent_at;
    packed = h.packed;
    next = rw (peer-marked_ne j ne) h.next;
    coordinate = coordinate-marked_ne j ne ∙ h.coordinate;
    waiting = rw (peer-marked_ne j ne) h.waiting;
  }

  HasRoom-marked : (k : ℕ) → HasRoom (suc k) n → HasRoom k (marked payload ip header n)
  HasRoom-marked k h = record {
    tunnel = tunnel-marked ∙ h.tunnel;
    room = λ j. elim (text_discrete ip j) [
      | yes p ↦
          subst (λ i. (peer_at (marked payload ip header n) i).send_seq + k ≤ 256 ^ 8) p
            (omega (arith, send_seq-marked, h.room ip))
      | no ne ↦ omega (arith, h.room j, ap (λ (q : Peer). q.send_seq) (peer-marked_ne j ne))
    ];
  }

-- One marker of a broadcast.
record Broadcast (payload : Bytes) (k : ℕ) (ip : Text) (n : Node) (r : Outcome (Unit {0}) × Node)
    : Type 0 where
  returned : r.0 ≡ ok tt
  here : IsMarked payload ip r.1
  others : (j : Text) → IsMarked payload j n → IsMarked payload j r.1
  room : HasRoom k r.1
  same : (j : Text) → ip ≢ j → peer_at r.1 j ≡ peer_at n j
  ctrl : without_sent r.1.snapshot_ctrl ≡ without_sent n.snapshot_ctrl
  pending : r.1.pending ≡ n.pending

send_marker-Broadcast :
    (payload : Bytes) (k : ℕ) (ip : Text) (n : Node)
    → HasRoom (suc k) n
    → Broadcast payload k ip n (send_marker payload ip n)
send_marker-Broadcast payload k ip n h =
    let (header, packed) = packed_marker (peer_at n ip).send_seq (omega (arith, h.room ip)) in
    rw (send_marker_run payload ip header n h.tunnel packed) (record {
      returned = refl;
      here = IsMarked-marked payload ip header n packed;
      others = λ j m. elim (text_discrete ip j) [
        | yes p ↦
            subst (λ i. IsMarked payload i (marked payload ip header n)) p
              (IsMarked-marked payload ip header n packed)
        | no ne ↦ IsMarked-other payload ip header n j ne m
      ];
      room = HasRoom-marked payload ip header n k h;
      same = λ j ne. peer-marked_ne payload ip header n j ne;
      ctrl = ctrl-marked payload ip header n;
      pending = pending-marked payload ip header n;
    })

-- The result of a whole broadcast.
pub record AllMarked (payload : Bytes) (members : List Text) (n : Node)
    (r : Outcome (Unit {0}) × Node) : Type 0 where
  pub returned : r.0 ≡ ok tt
  pub marked_each : (ip : Text) → mem text_discrete members ip ≡ true → IsMarked payload ip r.1
  pub kept : (ip : Text) → IsMarked payload ip n → IsMarked payload ip r.1
  pub same : (ip : Text) → mem text_discrete members ip ≡ false → peer_at r.1 ip ≡ peer_at n ip
  pub ctrl : without_sent r.1.snapshot_ctrl ≡ without_sent n.snapshot_ctrl
  pub pending : r.1.pending ≡ n.pending

-- With the tunnel open and room for the numbers, the broadcast returns, and on the channel to every
-- member, the one that the marker came from included, a marker waits whose number plus one is the
-- recorded send-side coordinate and the next number to send. No other channel is touched.
pub broadcast-AllMarked :
    (payload : Bytes) (members : List Text) (n : Node)
    → HasRoom (length members) n
    → AllMarked payload members n (for_each members (send_marker payload) n)
unfolding for_each mem ◌>>=◌
broadcast-AllMarked payload [] n h = record {
  returned = refl;
  marked_each = λ ip e. absurd (ground arith);
  kept = λ ip m. m;
  same = λ ip e. refl;
  ctrl = refl;
  pending = refl;
}
broadcast-AllMarked payload (first ∷ rest) n h =
    let b = send_marker-Broadcast payload (length rest) first n h in
    let q = broadcast-AllMarked payload rest (send_marker payload first n).1 b.room in
    let done = (for_each rest (send_marker payload) (send_marker payload first n).1).1 in
    rw b.returned (record {
      returned = q.returned;
      marked_each = λ ip e. elim (text_discrete first ip) [
        | yes p ↦ subst (λ i. IsMarked payload i done) p (q.kept first b.here)
        | no ne ↦ q.marked_each ip (ground arith)
      ];
      kept = λ ip m. q.kept ip (b.others ip m);
      same = λ ip e. elim (text_discrete first ip) [
        | yes p ↦ absurd (ground arith)
        | no ne ↦ q.same ip (ground arith) ∙ b.same ip ne
      ];
      ctrl = q.ctrl ∙ b.ctrl;
      pending = q.pending ∙ b.pending;
    })
