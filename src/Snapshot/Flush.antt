-- ===== src/Snapshot/Flush.antt =====
-- The end of a snapshot: `_finish_global_snapshot`, `_abort_snapshot`, `_flush_and_reset` and
-- `check_timeout`. They deliver the recorded messages by `process_and_deliver`, which is a parameter
-- here, since it calls this controller in turn.
use dead_nodes_tell_no_tales.Prelude.{
  ℕ, Bytes, Text, Bool, false, Option, none, some, List, [], ltb, leb, ◌&&◌, if◌then◌else◌,
  text_discrete,
}
use dead_nodes_tell_no_tales.Config.{Settings}
use dead_nodes_tell_no_tales.Dict.{put}
use dead_nodes_tell_no_tales.Sorting.{sort_by}
use dead_nodes_tell_no_tales.Node.{Node, Controller, Message, Status, complete, aborted}
use dead_nodes_tell_no_tales.Node.Peers.{update_ctrl}
use dead_nodes_tell_no_tales.Exec.{Exec, pure, lift, gets, modify, for_each, ◌>>=◌, ◌>>◌}
use dead_nodes_tell_no_tales.Snapshot.Host.{post_artifact}
use dead_nodes_tell_no_tales.Snapshot.Artifact.{build_artifact}

-- process_and_deliver: the sequence number, the payload, the sender, the two ports, the local address
abbrev pub Deliver : Type 0
Deliver = ℕ → Bytes → Text → ℕ → ℕ → Text → Exec Node (Unit {0})

abbrev pub seq_le : Message → Message → Bool
seq_le m k = leb m.seq k.seq

-- The assignments at the head of `_flush_and_reset`.
unfoldable pub reset : Controller → Controller
reset c = record c {
  is_snapshotting = false;
  current_snapshot_id = none;
  snapshot_deadline = none;
  recording_channels = [];
  recorded_send_seq = [];
  recorded_recv_seq = [];
}

abbrev pub deliver_message : Deliver → Text → Message → Exec Node (Unit {0})
deliver_message deliver remote_ip m =
    deliver m.seq m.payload remote_ip m.src_port m.dst_port m.target_local_ip

-- One channel: its list is sorted in place, and delivered.
unfoldable pub flush_channel : Deliver → Text × List Message → Exec Node (Unit {0})
flush_channel deliver (remote_ip, recorded) = do
  modify (
      update_ctrl (λ c. record c {
        channel_states = put text_discrete c.channel_states remote_ip (sort_by seq_le recorded);
      }))
  for_each (sort_by seq_le recorded) (deliver_message deliver remote_ip)

unfoldable pub flush_and_reset : Deliver → Exec Node (Unit {0})
unfolding reset flush_channel
flush_and_reset deliver = do
  modify (update_ctrl reset)
  states ← gets (λ n. n.snapshot_ctrl.channel_states)
  for_each states (flush_channel deliver)
  modify (update_ctrl (λ c. record c { channel_states = [] }))

module _ (env : Settings) (deliver : Deliver) where
  -- The artifact is built and posted before the flush, whether or not the post succeeds.
  unfoldable pub end_snapshot : Status → Exec Node (Unit {0})
  end_snapshot status = do
    c ← gets (λ n. n.snapshot_ctrl)
    artifact ← lift (build_artifact env status c)
    stored ← post_artifact artifact
    flush_and_reset deliver

  unfoldable pub finish_global_snapshot : Exec Node (Unit {0})
  unfolding end_snapshot
  finish_global_snapshot = end_snapshot complete

  unfoldable pub abort_snapshot : Exec Node (Unit {0})
  unfolding end_snapshot
  abort_snapshot = end_snapshot aborted

  unfoldable pub is_overdue : Option ℕ → ℕ → Bool
  is_overdue none now = false
  is_overdue (some deadline) now = ltb deadline now

  unfoldable pub check_timeout : Exec Node (Unit {0})
  unfolding is_overdue abort_snapshot
  check_timeout = do
    late ← gets (λ n.
        n.snapshot_ctrl.is_snapshotting && is_overdue n.snapshot_ctrl.snapshot_deadline n.clock)
    if late then abort_snapshot else pure tt
