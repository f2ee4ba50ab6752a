-- ===== src/Snapshot/Restore/Aligned.antt =====
-- The two ends of a channel after a snapshot and a restore of both of its nodes.
use dead_nodes_tell_no_tales.Prelude.{
  ℕ, ◌+◌, ◌≤◌, Bytes, Text, true, false, some, List, [], ◌≡◌, ◌≢◌, refl, ◌∙◌, arith, length,
  text_discrete, ℕ_discrete,
}
use dead_nodes_tell_no_tales.Outcome.{ok}
use dead_nodes_tell_no_tales.Config.{Settings}
use dead_nodes_tell_no_tales.Dict.{mem, has}
use dead_nodes_tell_no_tales.Node.{Node, Artifact, Status, Buffered}
use dead_nodes_tell_no_tales.Node.Peers.{peer_at}
use dead_nodes_tell_no_tales.Exec.{for_each}
use dead_nodes_tell_no_tales.Mesh.Spoof.Effects.{handed}
use dead_nodes_tell_no_tales.Mesh.Send.Effects.{HasRoom}
use dead_nodes_tell_no_tales.Mesh.Deliver.{process_and_deliver}
use dead_nodes_tell_no_tales.Mesh.Deliver.Live.{IsIdle}
use dead_nodes_tell_no_tales.Mesh.Tunnel.Stream.{receive_all}
use dead_nodes_tell_no_tales.Snapshot.Artifact.{build_artifact}
use dead_nodes_tell_no_tales.Snapshot.Marker.{is_marker, send_marker}
use dead_nodes_tell_no_tales.Snapshot.Recording.{channel_state}
use dead_nodes_tell_no_tales.Snapshot.Agreement.{Awaits}
use dead_nodes_tell_no_tales.Snapshot.Cut.{broadcast-AllMarked}
use dead_nodes_tell_no_tales.Snapshot.Exact.{cut_exact}
use dead_nodes_tell_no_tales.Snapshot.Replay.{ArePlain}
use dead_nodes_tell_no_tales.Snapshot.Restore.{load}
use dead_nodes_tell_no_tales.Snapshot.Restore.Channels.{HasBytes}
use dead_nodes_tell_no_tales.Snapshot.Restore.Resumed.{recorded_state, Resumed-load}

module _ (env env' : Settings) (payload : Bytes) (members : List Text) (to from last : Text)
    (stream : ℕ → Buffered) (arrivals : List ℕ) (sender receiver : Node) where
  -- The sender behind its broadcast, and the receiver behind the packets that came in.
  abbrev pub sent : Node
  sent = (for_each members (send_marker payload) sender).1

  abbrev pub received : Node
  received = (receive_all (process_and_deliver env') from stream arrivals receiver).1

  -- Let a sender with the tunnel open and room for the numbers broadcast its markers, the receiver
  -- among the members. Let the receiver record the channel and at least one more for the snapshot,
  -- its state opened and nothing buffered. Let the last packet that the sender sent on the channel
  -- be the only marker there, at a number not below the receiver's `recv_seq`, and let packets of
  -- the channel come in in any order, each any number of times, all from `recv_seq` up to the
  -- marker among them. When the artifacts that both build then, with recorded messages that are
  -- bytes and hold no marker, are loaded on two idle nodes, nothing is raised, and the number that
  -- the restored sender gives its next message on the channel is the one that the restored receiver
  -- expects: the number behind the marker.
  pub restored-aligned :
      (base mark : ℕ) (status status' : Status) (a a' : Artifact) (n n' : Node)
      → HasRoom (length members) sender
      → mem text_discrete members to ≡ true
      → (peer_at sent to).send_seq ≡ mark + 1
      → ((k : ℕ) → k ≢ mark → is_marker (stream k).payload ≡ false)
      → is_marker payload ≡ true
      → (stream mark).payload ≡ payload
      → Awaits payload from last receiver
      → has text_discrete receiver.snapshot_ctrl.channel_states from ≡ true
      → (peer_at receiver from).recv_seq ≡ base
      → (peer_at receiver from).recv_buffer ≡ []
      → base ≤ mark
      → ((k : ℕ) → base ≤ k → k ≤ mark → mem ℕ_discrete arrivals k ≡ true)
      → build_artifact env status sent.snapshot_ctrl ≡ ok a
      → build_artifact env' status' received.snapshot_ctrl ≡ ok a'
      → ((ip : Text) → HasBytes (recorded_state sent.snapshot_ctrl ip))
      → ((ip : Text) → HasBytes (recorded_state received.snapshot_ctrl ip))
      → ((ip : Text) → ArePlain (recorded_state sent.snapshot_ctrl ip))
      → ((ip : Text) → ArePlain (recorded_state received.snapshot_ctrl ip))
      → IsIdle n
      → IsIdle n'
      → ((load (process_and_deliver env) (some a) n).0 ≡ ok tt)
        × ((load (process_and_deliver env') (some a') n').0 ≡ ok tt)
        × ((peer_at (load (process_and_deliver env) (some a) n).1 to).send_seq ≡ mark + 1)
        × ((peer_at (load (process_and_deliver env') (some a') n').1 from).recv_seq ≡ mark + 1)
  restored-aligned base mark status status' a a' n n' room member last_sent plain marker at_mark
        awaits known fresh empty le come built built' bytes bytes' clean clean' idle idle' =
      let m = (broadcast-AllMarked payload members sender room).marked_each to member in
      let (next, returned, closed, reached, below, missing) =
        cut_exact payload from last stream base mark (channel_state from receiver)
          (handed receiver.events) env' plain marker at_mark arrivals receiver awaits known refl
          refl fresh empty le come in
      let s = Resumed-load env status sent.snapshot_ctrl a n built bytes clean idle in
      let r = Resumed-load env' status' received.snapshot_ctrl a' n' built' bytes' clean' idle' in
      (
        s.returned,
        r.returned,
        s.send_seq to (m.seq + 1) m.coordinate ∙ omega (arith, m.next, last_sent),
        r.recv_seq from (mark + 1) closed.coordinate,
      )
