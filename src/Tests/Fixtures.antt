-- ===== src/Tests/Fixtures.antt =====
-- The second node of a mesh of three, and datagrams that reach it.
use dead_nodes_tell_no_tales.Prelude.{ℕ, Bytes, Text, true, none, some, [], ◌∷◌, codes}
use dead_nodes_tell_no_tales.Config.{Settings}
use dead_nodes_tell_no_tales.Node.{Node, Reply}
use dead_nodes_tell_no_tales.Mesh.Send.{track}
use dead_nodes_tell_no_tales.Mesh.Deliver.{deliver_over}
use dead_nodes_tell_no_tales.Snapshot.Artifact.{
  build_artifact, recorded_peers, decode_id, peer_artifact,
}
use dead_nodes_tell_no_tales.Snapshot.Marker.{
  process_message, on_marker, record_message, append_to, append_message, after_colon, is_marker,
  first_marker, later_marker, take_cut, start_recording, record_others, open_channels,
  finish_if_done, empty_channel, origin_channel, is_current, close_channel,
}
use dead_nodes_tell_no_tales.Mesh.Process.{new_node}

abbrev pub node_a : Text
node_a = codes "10.24.24.10"

abbrev pub node_b : Text
node_b = codes "10.24.24.11"

abbrev pub node_c : Text
node_c = codes "10.24.24.12"

abbrev pub env_b : Settings
env_b = record {
  mesh_members = node_a ∷ node_b ∷ node_c ∷ [];
  mesh_self = some node_b;
  checkpoint_target = some (codes "counter-b");
  restore_snapshot_id = none;
  hostname = codes "sidecar-b";
  route_source = λ _. some node_b;
  can_bind = λ _ _. true;
}

abbrev pub success : Reply
success = record { success = true; elapsed = 7 }

abbrev pub live : Node
live = record new_node {
  tunnel_open = true;
  is_server = true;
  replies = success ∷ success ∷ success ∷ success ∷ [];
}

-- Type 0, the sequence number, ports 5000, the target 10.24.24.11, and the payload.
abbrev pub data_packet : ℕ → Bytes → Bytes
data_packet seq payload =
    0 ∷ 0 ∷ 0 ∷ 0 ∷ 0 ∷ 0 ∷ 0 ∷ 0 ∷ seq ∷ 19 ∷ 136 ∷ 19 ∷ 136 ∷ 10 ∷ 24 ∷ 24 ∷ 11 ∷ payload

abbrev pub marker : Bytes
marker = codes "__MARKER__:s1"

-- What a run of a callback computes with.
unfoldable pub program : Unit {0}
unfolding deliver_over process_message on_marker record_message append_to append_message after_colon
    is_marker first_marker later_marker take_cut start_recording record_others open_channels
    finish_if_done empty_channel origin_channel is_current close_channel build_artifact
    recorded_peers decode_id peer_artifact track
program = tt
