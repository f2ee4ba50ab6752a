-- ===== src/Snapshot/Artifact.antt =====
-- `SnapshotController._build_artifact`.
use dead_nodes_tell_no_tales.Prelude.{
  Bytes, Text, Option, none, some, List, [], ◌∷◌, map, text_discrete,
}
use dead_nodes_tell_no_tales.Outcome.{Outcome, ok, ◌>>=◌}
use dead_nodes_tell_no_tales.Config.{Settings}
use dead_nodes_tell_no_tales.Dict.{keys, get?, or_else, union}
use dead_nodes_tell_no_tales.Sorting.{sort_by, text_le}
use dead_nodes_tell_no_tales.Codec.{decode, b64encode}
use dead_nodes_tell_no_tales.Node.{Controller, Message, Stored, PeerArtifact, Artifact, Status}
use dead_nodes_tell_no_tales.Snapshot.Host.{target_id}

unfoldable pub store_message : Message → Stored
store_message m = record {
  seq = m.seq;
  payload_b64 = b64encode m.payload;
  src_port = m.src_port;
  dst_port = m.dst_port;
  target_local_ip = m.target_local_ip;
}

unfoldable pub peer_artifact : Controller → Text → PeerArtifact
unfolding store_message
peer_artifact c peer = record {
  send_seq = get? text_discrete c.recorded_send_seq peer;
  recv_seq = get? text_discrete c.recorded_recv_seq peer;
  channel = map store_message (or_else [] (get? text_discrete c.channel_states peer));
}

-- The peers that anything is recorded of.
unfoldable pub recorded_peers : Controller → List Text
recorded_peers c =
    union text_discrete (union text_discrete (keys c.recorded_send_seq) (keys c.recorded_recv_seq))
      (keys c.channel_states)

-- current_snapshot_id.decode() if current_snapshot_id else None
unfoldable pub decode_id : Option Bytes → Outcome (Option Text)
decode_id none = ok none
decode_id (some []) = ok none
decode_id (some (b ∷ s)) = do text ← decode (b ∷ s); ok (some text)

unfoldable pub build_artifact : Settings → Status → Controller → Outcome Artifact
build_artifact env status c = do
  snapshot_id ← decode_id c.current_snapshot_id
  ok (record {
    snapshot_id = snapshot_id;
    node = target_id env;
    status = status;
    peers = map (λ peer. (peer, peer_artifact c peer)) (sort_by text_le (recorded_peers c));
  })
