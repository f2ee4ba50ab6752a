-- ===== src/Snapshot/Marker.antt =====
-- `SnapshotController.process_message`: what a node does with a marker, and with a message on a
-- channel that it records.
use mathlib.Core.List.{foldl}
use dead_nodes_tell_no_tales.Prelude.{
  ℕ, ◌+◌, Bytes, Text, Bool, true, false, not, ◌&&◌, Option, none, some, List, [], ◌∷◌, ◌++◌, codes,
  starts_with, ◌==◌, if◌then◌else◌, text_discrete, ite,
}
use dead_nodes_tell_no_tales.Outcome.{key_error}
use dead_nodes_tell_no_tales.Config.{Settings, snapshot_timeout}
use dead_nodes_tell_no_tales.Codec.{decode}
use dead_nodes_tell_no_tales.Dict.{get?, put, mem, discard, union}
use dead_nodes_tell_no_tales.Node.{Node, Controller, Message}
use dead_nodes_tell_no_tales.Node.Peers.{peer_at, get_peer, update_ctrl}
use dead_nodes_tell_no_tales.Exec.{Exec, pure, raise, lift, gets, modify, for_each, ◌>>=◌, ◌>>◌}
use dead_nodes_tell_no_tales.Mesh.Send.{send_data}
use dead_nodes_tell_no_tales.Mesh.Intercept.{drain_intercept}
use dead_nodes_tell_no_tales.Snapshot.Host.{self_mesh_ip, trigger_app_snapshot}
use dead_nodes_tell_no_tales.Snapshot.Flush.{Deliver, finish_global_snapshot}

abbrev pub marker_prefix : Bytes
marker_prefix = codes "__MARKER__:"

-- payload.split(b":", 1)[1], of a payload with a colon
unfoldable pub after_colon : Bytes → Bytes
after_colon [] = []
after_colon (c ∷ s) = let rest = after_colon s in if c == b':' then s else rest

unfoldable pub is_marker : Bytes → Bool
is_marker payload = starts_with marker_prefix payload

-- [ip for ip in MESH_MEMBERS if ip != self_ip]
unfoldable pub other_members : List Text → Option Text → List Text
other_members members none = members
other_members members (some self_ip) = discard text_discrete members self_ip

abbrev pub zero_ip : Bytes
zero_ip = 0 ∷ 0 ∷ 0 ∷ 0 ∷ []

unfoldable pub start_recording : Bytes → Controller → Controller
start_recording marker_id c = record c {
  is_snapshotting = true;
  current_snapshot_id = some marker_id;
  channel_states = [];
  recorded_send_seq = [];
  recorded_recv_seq = [];
}

-- The channels to record: all but the one that the marker came on.
unfoldable pub record_others : List Text → Text → Controller → Controller
record_others members remote_ip c = record c {
  recording_channels = discard text_discrete (union text_discrete [] members) remote_ip;
}

-- The marker on one outgoing channel, and the channel's send-side coordinate.
unfoldable pub send_marker : Bytes → Text → Exec Node (Unit {0})
send_marker payload peer_ip = do
  modify (get_peer peer_ip)
  send_data peer_ip 0 0 zero_ip payload
  sent ← gets (λ n. (peer_at n peer_ip).send_seq)
  modify (
      update_ctrl
        (λ c. record c { recorded_send_seq = put text_discrete c.recorded_send_seq peer_ip sent }))

unfoldable pub empty_channel : Controller → Text → Controller
empty_channel c ip = record c { channel_states = put text_discrete c.channel_states ip [] }

-- The channel that a first marker came on, if its origin is a member.
unfoldable pub origin_channel : List Text → Text → ℕ → Controller → Controller
origin_channel members remote_ip seq c =
    if mem text_discrete members remote_ip
    then record c {
      channel_states = put text_discrete c.channel_states remote_ip [];
      recorded_recv_seq = put text_discrete c.recorded_recv_seq remote_ip (seq + 1);
    }
    else c

unfoldable pub close_channel : Text → ℕ → Controller → Controller
close_channel remote_ip seq c = record c {
  recorded_recv_seq = put text_discrete c.recorded_recv_seq remote_ip (seq + 1);
  recording_channels = discard text_discrete c.recording_channels remote_ip;
}

unfoldable pub append_message : Text → Message → List Message → Controller → Controller
append_message remote_ip m recorded c = record c {
  channel_states = put text_discrete c.channel_states remote_ip (recorded ++ m ∷ []);
}

unfoldable pub append_to : Text → Message → Option (List Message) → Exec Node (Unit {0})
unfolding append_message
append_to remote_ip m none = raise key_error
append_to remote_ip m (some recorded) = modify (update_ctrl (append_message remote_ip m recorded))

-- self.channel_states[remote_ip].append(...)
unfoldable pub record_message : Text → Message → Exec Node (Unit {0})
unfolding append_to
record_message remote_ip m = do
  recorded ← gets (λ n. get? text_discrete n.snapshot_ctrl.channel_states remote_ip)
  append_to remote_ip m recorded

-- marker_id == self.current_snapshot_id
unfoldable pub is_current : Bytes → Option Bytes → Bool
is_current marker_id none = false
is_current marker_id (some current) = ite (text_discrete marker_id current) true false

module _ (env : Settings) (deliver : Deliver) where
  -- if not self.recording_channels: self._finish_global_snapshot()
  unfoldable pub finish_if_done : List Text → Exec Node (Unit {0})
  finish_if_done [] = finish_global_snapshot env deliver
  finish_if_done (_ ∷ _) = pure tt

  -- The statements behind the broadcast.
  unfoldable pub open_channels : List Text → Text → ℕ → Exec Node (Unit {0})
  open_channels members remote_ip seq = do
    modify (update_ctrl (λ c. foldl empty_channel c c.recording_channels))
    modify (update_ctrl (origin_channel members remote_ip seq))
    modify (λ n.
        update_ctrl (λ c. record c { snapshot_deadline = some (n.clock + snapshot_timeout) }) n)
    recording ← gets (λ n. n.snapshot_ctrl.recording_channels)
    finish_if_done recording

  -- The statements from the choice of the recorded channels on; `members` are the others.
  unfoldable pub take_cut : List Text → Text → ℕ → Bytes → Bytes → Exec Node (Unit {0})
  take_cut members remote_ip seq payload marker_id = do
    modify (update_ctrl (record_others members remote_ip))
    drain_intercept env
    name ← lift (decode marker_id)
    trigger_app_snapshot env name
    for_each members (send_marker payload)
    open_channels members remote_ip seq

  -- A marker, to a node that takes no snapshot.
  unfoldable pub first_marker : Text → ℕ → Bytes → Bytes → Exec Node (Unit {0})
  first_marker remote_ip seq payload marker_id = do
    modify (update_ctrl (start_recording marker_id))
    self_ip ← self_mesh_ip env
    take_cut (other_members env.mesh_members self_ip) remote_ip seq payload marker_id

  -- A marker, to a node that takes a snapshot. A stale one is ignored; its identifier is decoded for
  -- the log line.
  unfoldable pub later_marker : Text → ℕ → Bytes → Exec Node (Unit {0})
  unfolding is_current
  later_marker remote_ip seq marker_id = do
    c ← gets (λ n. n.snapshot_ctrl)
    if not (is_current marker_id c.current_snapshot_id)
        then (do name ← lift (decode marker_id); pure tt)
        else if mem text_discrete c.recording_channels remote_ip
        then (do
          modify (update_ctrl (close_channel remote_ip seq))
          recording ← gets (λ n. n.snapshot_ctrl.recording_channels)
          finish_if_done recording)
        else pure tt

  unfoldable pub on_marker : Text → ℕ → Bytes → Bytes → Exec Node (Unit {0})
  on_marker remote_ip seq payload marker_id = do
    busy ← gets (λ n. n.snapshot_ctrl.is_snapshotting)
    if busy
        then later_marker remote_ip seq marker_id
        else first_marker remote_ip seq payload marker_id

  -- The result tells whether the message is consumed.
  unfoldable pub process_message : Text → Message → Exec Node Bool
  process_message remote_ip m =
      if is_marker m.payload
      then (do on_marker remote_ip m.seq m.payload (after_colon m.payload); pure true)
      else do
        c ← gets (λ n. n.snapshot_ctrl)
        if c.is_snapshotting && mem text_discrete c.recording_channels remote_ip
            then (do record_message remote_ip m; pure true)
            else pure false
