-- ===== src/Tests/Packets.antt =====
-- The theorems on whole packets, on the two sides of a channel of the cut, and on the spoofing sockets.
use dead_nodes_tell_no_tales.Prelude.{
  if◌then◌else◌, ℕ, zero, suc, Bytes, Text, true, some, [], ◌∷◌, ◌++◌, codes, ◌≡◌, refl, arith,
  text_discrete, ℕ_discrete, address_discrete,
}
use dead_nodes_tell_no_tales.Outcome.{ok}
use dead_nodes_tell_no_tales.Dict.{get?, mem}
use dead_nodes_tell_no_tales.Address.{inet_ntoa}
use dead_nodes_tell_no_tales.Wire.{DataHeader, pack_data, pack_ack, to_be, four_bytes}
use dead_nodes_tell_no_tales.Wire.RoundTrip.{InRange}
use dead_nodes_tell_no_tales.Node.{
  Intercepted, Node, Socket, bound, closed, tunnelled, fresh_peer, fresh_controller,
}
use dead_nodes_tell_no_tales.Node.Peers.{get_peer, emit}
use dead_nodes_tell_no_tales.Mesh.Spoof.{Sockets, get_spoof_sock, spoof_send}
use dead_nodes_tell_no_tales.Mesh.Send.{send_data, send_plain, use_rudp}
use dead_nodes_tell_no_tales.Mesh.Intercept.{forward_intercepted}
use dead_nodes_tell_no_tales.Mesh.Intercept.Routing.{is_mesh_address, forward-routed}
use dead_nodes_tell_no_tales.Mesh.Spoof.Cache.{Cached, Cached-get_spoof_sock, get_spoof_sock-oldest}
use dead_nodes_tell_no_tales.Mesh.Deliver.{process_and_deliver}
use dead_nodes_tell_no_tales.Mesh.Tunnel.{receive, datagram_received}
use dead_nodes_tell_no_tales.Mesh.Tunnel.Packets.{content, data_received}
use dead_nodes_tell_no_tales.Mesh.Tunnel.Acks.{Acknowledged, ack_received}
use dead_nodes_tell_no_tales.Exec.{◌>>=◌}
use dead_nodes_tell_no_tales.Mesh.Timer.{retransmit_round}
use dead_nodes_tell_no_tales.Mesh.Timer.Resent.{Resent, all_overdue, Resent-retransmit_round}
use dead_nodes_tell_no_tales.Snapshot.Flush.{check_timeout, is_overdue}
use dead_nodes_tell_no_tales.Snapshot.Marker.{is_marker, after_colon}
use dead_nodes_tell_no_tales.Snapshot.Cut.{IsMarked}
use dead_nodes_tell_no_tales.Snapshot.Agreement.{Agree, Awaits, marker-Agree}
use dead_nodes_tell_no_tales.Tests.Fixtures.{env_b, live, marker, node_a, node_b, node_c}

abbrev pub header : DataHeader
header = record {
  msg_type = 0;
  seq = 7;
  src_port = 0;
  dst_port = 0;
  target_ip = 0 ∷ 0 ∷ 0 ∷ 0 ∷ [];
}

abbrev pub packed_header : Bytes
packed_header = 0 ∷ 0 ∷ 0 ∷ 0 ∷ 0 ∷ 0 ∷ 0 ∷ 0 ∷ 7 ∷ 0 ∷ 0 ∷ 0 ∷ 0 ∷ 0 ∷ 0 ∷ 0 ∷ 0 ∷ []

pub header-InRange : InRange header
header-InRange = record {
  msg_type = omega arith;
  seq = omega arith;
  src_port = omega arith;
  dst_port = omega arith;
  target_ip = refl;
}

data_received_example :
    (ack : Bytes) × (local : Text) × (pack_ack 7 ≡ ok ack)
    × (inet_ntoa (0 ∷ 0 ∷ 0 ∷ 0 ∷ []) ≡ ok local)
    × (datagram_received env_b (packed_header ++ marker) node_c live
        ≡ receive
            (process_and_deliver env_b)
            node_c
            7
            (content header marker local)
            (emit (tunnelled ack node_c) (get_peer node_c live)))
unfolding pack_data to_be four_bytes
data_received_example =
    data_received env_b header marker packed_header node_c live header-InRange refl refl refl

-- A marker to the second node waits at the third.
abbrev pub sender : Node
sender = record live {
  peers =
      (
        node_b,
        record fresh_peer {
          send_seq = 8;
          unacked = (7, record { sent_at = 0; packet = packed_header ++ marker }) ∷ [];
        },
      )
      ∷ [];
  snapshot_ctrl = record fresh_controller { recorded_send_seq = (node_b, 8) ∷ [] };
}

ack_received_example :
    Acknowledged 7 node_b sender
      (datagram_received env_b ((1 ∷ 0 ∷ 0 ∷ 0 ∷ 0 ∷ 0 ∷ 0 ∷ 0 ∷ 7 ∷ []) ++ []) node_b sender)
unfolding pack_ack to_be
ack_received_example =
    ack_received env_b 7 (1 ∷ 0 ∷ 0 ∷ 0 ∷ 0 ∷ 0 ∷ 0 ∷ 0 ∷ 7 ∷ []) [] node_b sender (omega arith)
      refl

abbrev pub receiver : Node
receiver = record live {
  peers = (node_c, record fresh_peer { recv_seq = 7 }) ∷ [];
  snapshot_ctrl = record fresh_controller {
    is_snapshotting = true;
    current_snapshot_id = some (codes "s1");
    recording_channels = node_a ∷ node_c ∷ [];
    channel_states = (node_a, []) ∷ (node_c, []) ∷ [];
  };
}

sender-IsMarked : IsMarked marker node_b sender
unfolding pack_data to_be four_bytes get? text_discrete ℕ_discrete
sender-IsMarked = record {
  seq = 7;
  header = packed_header;
  sent_at = 0;
  packed = refl;
  next = refl;
  coordinate = refl;
  waiting = refl;
}

pub receiver-Awaits : Awaits marker node_c node_a receiver
unfolding after_colon mem text_discrete ℕ_discrete
receiver-Awaits = record {
  busy = refl;
  current = refl;
  recorded = refl;
  more = refl;
  differ = λ e. ground arith;
}

marker-Agree_example :
    Agree node_b node_c sender receiver
      (datagram_received env_b (sender-IsMarked.header ++ marker) node_c receiver)
unfolding is_marker get? text_discrete ℕ_discrete sender-IsMarked
marker-Agree_example =
    marker-Agree env_b marker node_b node_c node_a sender receiver sender-IsMarked refl
      receiver-Awaits refl refl refl

-- As many sockets as the cache holds, the last port first.
filled : ℕ → Sockets
filled zero = []
filled (suc port) = ((node_c, port), bound) ∷ filled port

abbrev full : Node
full = record live { spoof_sockets = filled 512 }

Cached-get_spoof_sock_example : Cached (node_a, 5000) full (get_spoof_sock env_b node_a 5000 full)
unfolding filled
Cached-get_spoof_sock_example = Cached-get_spoof_sock env_b (node_a, 5000) full (omega arith)

get_spoof_sock-oldest_example :
    (sock : Socket) × ((get_spoof_sock env_b node_a 5000 full).0 ≡ ok sock)
    × ((get_spoof_sock env_b node_a 5000 full).1.spoof_sockets
        ≡ filled 511 ++ ((node_a, 5000), sock) ∷ [])
    × ((get_spoof_sock env_b node_a 5000 full).1.events ≡ [] ++ closed (node_c, 511) ∷ [])
unfolding filled get? address_discrete text_discrete ℕ_discrete
get_spoof_sock-oldest_example =
    get_spoof_sock-oldest env_b (node_a, 5000) (node_c, 511) bound (filled 511) full refl refl refl

abbrev waiting_long : Node
waiting_long = record sender { clock = 600 }

Resent-retransmit_round_example :
    Resent (all_overdue 600 waiting_long.peers) waiting_long (retransmit_round env_b waiting_long)
unfolding check_timeout is_overdue ◌>>=◌
Resent-retransmit_round_example = Resent-retransmit_round env_b waiting_long refl refl

-- A datagram of the second node's application to the third.
abbrev pub from_app : Intercepted
from_app = record {
  content = codes "STATE";
  src_ip = node_b;
  src_port = 5000;
  destination = some (5000, 10 ∷ 24 ∷ 24 ∷ 12 ∷ []);
}

forward-routed_example :
    (ip : Text) × (inet_ntoa (10 ∷ 24 ∷ 24 ∷ 12 ∷ []) ≡ ok ip)
    × (forward_intercepted env_b from_app live ≡ (
        if is_mesh_address 10 24 24
        then (if use_rudp env_b ip live
            then send_data ip 5000 5000 (10 ∷ 24 ∷ 24 ∷ 12 ∷ []) (codes "STATE") (get_peer ip live)
            else send_plain ip 5000 5000 (10 ∷ 24 ∷ 24 ∷ 12 ∷ []) (codes "STATE") live)
        else spoof_send env_b node_b 5000 (codes "STATE") ip 5000 live))
forward-routed_example =
    forward-routed env_b from_app live 5000 10 24 24 12 refl (λ e. omega (arith, e)) (omega arith)
      (omega arith) (omega arith) (omega arith)
