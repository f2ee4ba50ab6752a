-- ===== src/Tests/Stalls.antt =====
-- A packet on a channel whose state was not opened, as a marker with a broken identifier leaves it.
use dead_nodes_tell_no_tales.Prelude.{
  Bytes, true, some, [], ◌∷◌, ◌++◌, codes, ◌≡◌, refl, text_discrete, ℕ_discrete,
}
use dead_nodes_tell_no_tales.Outcome.{raised, ok, key_error}
use dead_nodes_tell_no_tales.Dict.{get?, has, mem}
use dead_nodes_tell_no_tales.Wire.{pack_data, pack_ack, to_be, four_bytes}
use dead_nodes_tell_no_tales.Node.{Node, tunnelled, fresh_peer, fresh_controller}
use dead_nodes_tell_no_tales.Node.Peers.{peer_at}
use dead_nodes_tell_no_tales.Mesh.Tunnel.{datagram_received}
use dead_nodes_tell_no_tales.Snapshot.Marker.{is_marker}
use dead_nodes_tell_no_tales.Snapshot.Unopened.{IsUnopened, unopened_stalls}
use dead_nodes_tell_no_tales.Tests.Fixtures.{env_b, live, node_a, node_c}
use dead_nodes_tell_no_tales.Tests.Packets.{header, header-InRange, packed_header}

abbrev stuck : Node
stuck = record live {
  peers = (node_c, record fresh_peer { recv_seq = 7 }) ∷ [];
  snapshot_ctrl = record fresh_controller {
    is_snapshotting = true;
    current_snapshot_id = some (255 ∷ []);
    recording_channels = node_a ∷ node_c ∷ [];
  };
}

stuck-IsUnopened : IsUnopened node_c stuck
unfolding mem has text_discrete ℕ_discrete
stuck-IsUnopened = record { busy = refl; recorded = refl; unknown = refl }

unopened_stalls_example :
    (ack : Bytes) × (pack_ack 7 ≡ ok ack)
    × ((datagram_received env_b (packed_header ++ codes "hi") node_c stuck).0 ≡ raised key_error)
    × ((datagram_received env_b (packed_header ++ codes "hi") node_c stuck).1.events
        ≡ [] ++ tunnelled ack node_c ∷ [])
    × (peer_at (datagram_received env_b (packed_header ++ codes "hi") node_c stuck).1 node_c
        ≡ peer_at stuck node_c)
    × ((datagram_received env_b (packed_header ++ codes "hi") node_c stuck).1.snapshot_ctrl
        ≡ stuck.snapshot_ctrl)
unfolding pack_data to_be four_bytes get? text_discrete ℕ_discrete is_marker
unopened_stalls_example =
    unopened_stalls env_b node_c header (codes "hi") packed_header stuck header-InRange refl refl
      refl refl refl stuck-IsUnopened
