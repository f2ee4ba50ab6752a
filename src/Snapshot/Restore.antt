-- ===== src/Snapshot/Restore.antt =====
-- `SnapshotController.restore_from_artifact`: a restore-mode sidecar loads its node's artifact.
pub mod Channels
pub mod Seeding
pub mod RoundTrip
pub mod Resumed
pub mod Aligned
use dead_nodes_tell_no_tales.Prelude.{
  ℕ, Bytes, Text, Option, none, some, List, [], ◌∷◌, leb, Bool, text_discrete, ite,
}
use dead_nodes_tell_no_tales.Outcome.{Outcome, ok, raised}
use dead_nodes_tell_no_tales.Config.{Settings, if_set}
use dead_nodes_tell_no_tales.Codec.{b64decode}
use dead_nodes_tell_no_tales.Sorting.{sort_by}
use dead_nodes_tell_no_tales.Dict.{or_else}
use dead_nodes_tell_no_tales.Node.{Node, Peer, Stored, PeerArtifact, Artifact, snapshot_requested}
use dead_nodes_tell_no_tales.Node.Peers.{get_peer, update_peer, emit}
use dead_nodes_tell_no_tales.Exec.{Exec, pure, lift, gets, modify, for_each, ◌>>=◌, ◌>>◌}
use dead_nodes_tell_no_tales.Snapshot.Flush.{Deliver}

-- `try` around a block, whose handler logs and goes on.
unfoldable pub swallow : Exec Node (Unit {0}) → Exec Node (Unit {0})
swallow m n = (ok tt, (m n).1)

-- The first entry of this node. An unset CHECKPOINT_TARGET is equal to no name.
unfoldable pub find_node : Option Text → List Artifact → Option Artifact
find_node none entries = none
find_node (some target) [] = none
find_node (some target) (entry ∷ entries) =
    ite (text_discrete entry.node target) (some entry) (find_node (some target) entries)

-- The coordinates that are no nulls.
unfoldable pub seed : PeerArtifact → Peer → Peer
seed a p = record p {
  send_seq = or_else p.send_seq a.send_seq;
  recv_seq = or_else p.recv_seq a.recv_seq;
}

abbrev pub stored_le : Stored → Stored → Bool
stored_le m k = leb m.seq k.seq

unfoldable pub seed_peer : Text × PeerArtifact → Exec Node (Unit {0})
unfolding seed
seed_peer (ip, a) = do modify (get_peer ip); modify (update_peer ip (seed a))

unfoldable pub replay_message : Deliver → Text → Stored → Exec Node (Unit {0})
replay_message deliver ip m = do
  payload ← lift (b64decode m.payload_b64)
  deliver m.seq payload ip m.src_port m.dst_port m.target_local_ip

unfoldable pub replay_channel : Deliver → Text × PeerArtifact → Exec Node (Unit {0})
unfolding replay_message
replay_channel deliver (ip, a) = for_each (sort_by stored_le a.channel) (replay_message deliver ip)

unfoldable pub load : Deliver → Option Artifact → Exec Node (Unit {0})
unfolding seed_peer replay_channel
load deliver none = pure tt
load deliver (some node) = do
  for_each node.peers seed_peer
  for_each node.peers (replay_channel deliver)

-- `fetched` is what the request for the snapshot gives: the entries of its nodes, or an exception.
unfoldable pub restore_if :
    Settings → Deliver → Outcome (List Artifact) → Option Text → Exec Node (Unit {0})
unfolding swallow find_node load
restore_if env deliver fetched none = pure tt
restore_if env deliver fetched (some snapshot_id) = swallow (do
  modify (emit (snapshot_requested snapshot_id))
  entries ← lift fetched
  load deliver (find_node env.checkpoint_target entries))

unfoldable pub restore_from_artifact :
    Settings → Deliver → Outcome (List Artifact) → Exec Node (Unit {0})
unfolding restore_if
restore_from_artifact env deliver fetched =
    restore_if env deliver fetched (if_set env.restore_snapshot_id)
