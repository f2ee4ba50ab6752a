-- ===== src/Snapshot/Opening.antt =====
-- The first marker at a node that takes no snapshot.
use mathlib.Core.List.{foldl}
use dead_nodes_tell_no_tales.Prelude.{
  ℕ, ◌+◌, Bytes, Text, true, false, Option, some, List, [], ◌∷◌, length, ◌≡◌, refl, ap, ◌∙◌, arith,
  All, text_discrete,
}
use dead_nodes_tell_no_tales.Outcome.{Outcome, ok}
use dead_nodes_tell_no_tales.Config.{Settings, snapshot_timeout}
use dead_nodes_tell_no_tales.Codec.{decode}
use dead_nodes_tell_no_tales.Dict.{get?, mem, union, discard}
use dead_nodes_tell_no_tales.Node.{Node, Controller, Message}
use dead_nodes_tell_no_tales.Node.Peers.{update_ctrl, emit}
use dead_nodes_tell_no_tales.Exec.{pure, for_each, ◌>>=◌}
use dead_nodes_tell_no_tales.Mesh.Send.Effects.{HasRoom}
use dead_nodes_tell_no_tales.Mesh.Intercept.{drain_intercept}
use dead_nodes_tell_no_tales.Mesh.Intercept.Draining.{Drained-drain_intercept}
use dead_nodes_tell_no_tales.Mesh.Intercept.Forwarding.{IsRoutable}
use dead_nodes_tell_no_tales.Snapshot.Host.{self_mesh_ip, trigger_app_snapshot, request, answered}
use dead_nodes_tell_no_tales.Snapshot.Flush.{Deliver}
use dead_nodes_tell_no_tales.Snapshot.Marker.{
  after_colon, other_members, start_recording, record_others, send_marker, empty_channel, is_marker,
  on_marker, process_message, open_channels, take_cut, first_marker,
}
use dead_nodes_tell_no_tales.Snapshot.Cut.{IsMarked, without_sent, broadcast-AllMarked}
use dead_nodes_tell_no_tales.Snapshot.Wedge.{Found-self_mesh_ip}
use dead_nodes_tell_no_tales.Snapshot.OpenChannels.{
  opened, opened-foldl, origin-origin_channel, empty-origin_channel, kept-opened, open_channels_run,
}

-- A snapshot has been opened: the controller waits for the markers of the channels `recording`, which are
-- empty so far, and every member has been sent a marker.
pub record Opened (payload marker_id : Bytes) (ip : Text) (seq : ℕ) (members recording : List Text)
    (r : Outcome (Unit {0}) × Node) : Type 0 where
  pub returned : r.0 ≡ ok tt
  pub busy : r.1.snapshot_ctrl.is_snapshotting ≡ true
  pub current : r.1.snapshot_ctrl.current_snapshot_id ≡ some marker_id
  pub channels : r.1.snapshot_ctrl.recording_channels ≡ recording
  pub empty :
      (j : Text)
      → mem text_discrete recording j ≡ true
      → get? text_discrete r.1.snapshot_ctrl.channel_states j ≡ some []
  pub origin :
      mem text_discrete members ip ≡ true
      → (get? text_discrete r.1.snapshot_ctrl.channel_states ip ≡ some [])
        × (get? text_discrete r.1.snapshot_ctrl.recorded_recv_seq ip ≡ some (seq + 1))
  pub marked_each : (j : Text) → mem text_discrete members j ≡ true → IsMarked payload j r.1
  pub deadline : r.1.snapshot_ctrl.snapshot_deadline ≡ some (r.1.clock + snapshot_timeout)
  pub pending : r.1.pending ≡ []

Opened-ok :
    {payload marker_id : Bytes} {ip : Text} {seq : ℕ} {members recording : List Text}
    {r : Outcome (Unit {0}) × Node}
    → Opened payload marker_id ip seq members recording r
    → Opened payload marker_id ip seq members recording (ok tt, r.1)
Opened-ok o = record {
  returned = refl;
  busy = o.busy;
  current = o.current;
  channels = o.channels;
  empty = o.empty;
  origin = o.origin;
  marked_each = o.marked_each;
  deadline = o.deadline;
  pending = o.pending;
}

-- The channels to record.
abbrev pub channels_of : List Text → Text → List Text
channels_of members ip = discard text_discrete (union text_discrete [] members) ip

module _ (env : Settings) (deliver : Deliver) (payload marker_id : Bytes) (ip : Text) (seq : ℕ)
    (members : List Text) where
  Opened-open_channels :
      (first : Text) (rest : List Text) (n : Node)
      → n.snapshot_ctrl.is_snapshotting ≡ true
      → n.snapshot_ctrl.current_snapshot_id ≡ some marker_id
      → n.snapshot_ctrl.recording_channels ≡ first ∷ rest
      → ((j : Text) → mem text_discrete members j ≡ true → IsMarked payload j n)
      → n.pending ≡ []
      → Opened payload marker_id ip seq members
          (first ∷ rest)
          (open_channels env deliver members ip seq n)
  Opened-open_channels first rest n busy current recording marked_each drained =
      let kept = kept-opened members ip seq n.clock n.snapshot_ctrl in
      rw (open_channels_run members ip seq env deliver first rest n recording) (record {
        returned = refl;
        busy = unfold update_ctrl in ap (λ (c : Controller). c.is_snapshotting) kept ∙ busy;
        current =
            unfold update_ctrl in ap (λ (c : Controller). c.current_snapshot_id) kept ∙ current;
        channels =
            unfold update_ctrl in ap (λ (c : Controller). c.recording_channels) kept ∙ recording;
        empty = λ j h.
            unfold update_ctrl opened in
            empty-origin_channel members ip seq
              (foldl empty_channel n.snapshot_ctrl n.snapshot_ctrl.recording_channels) j
              (opened-foldl n.snapshot_ctrl.recording_channels n.snapshot_ctrl j (rw recording h));
        origin = λ h.
            unfold update_ctrl opened in
            origin-origin_channel members ip seq
              (foldl empty_channel n.snapshot_ctrl n.snapshot_ctrl.recording_channels) h;
        marked_each = λ j h.
            let m = marked_each j h in
            record {
              seq = m.seq;
              header = m.header;
              sent_at = m.sent_at;
              packed = m.packed;
              next = unfold update_ctrl in m.next;
              coordinate =
                  unfold update_ctrl in
                  ap (λ (c : Controller). get? text_discrete c.recorded_send_seq j) kept
                  ∙ m.coordinate;
              waiting = unfold update_ctrl in m.waiting;
            };
        deadline = unfold update_ctrl opened in refl;
        pending = unfold update_ctrl in drained;
      })

  trigger_run :
      (name : Text) (n : Node)
      → (n' : Node) × (trigger_app_snapshot env name n ≡ (ok tt, n'))
        × (n'.peers ≡ n.peers)
        × (n'.tunnel_open ≡ n.tunnel_open)
        × (n'.snapshot_ctrl ≡ n.snapshot_ctrl)
        × (n'.pending ≡ n.pending)
  unfolding trigger_app_snapshot request answered emit pure ◌>>=◌
  trigger_run name n = (_, refl, refl, refl, refl, refl)

  Opened-take_cut :
      (first : Text) (rest : List Text) (name : Text) (n : Node)
      → n.snapshot_ctrl.is_snapshotting ≡ true
      → n.snapshot_ctrl.current_snapshot_id ≡ some marker_id
      → channels_of members ip ≡ first ∷ rest
      → decode marker_id ≡ ok name
      → All IsRoutable n.pending
      → HasRoom (length n.pending + length members) n
      → Opened payload marker_id ip seq members
          (first ∷ rest)
          (take_cut env deliver members ip seq payload marker_id n)
  unfolding take_cut ◌>>=◌
  Opened-take_cut first rest name n busy current channels decodes routable room =
      let chosen = update_ctrl (record_others members ip) n in
      let d =
        Drained-drain_intercept env (length members) chosen (unfold update_ctrl in routable)
          (record {
            tunnel = unfold update_ctrl in room.tunnel;
            room = unfold update_ctrl in room.room;
          }) in
      let n2 : Node = (drain_intercept env chosen).1 in
      let (n3, ran, peers, tunnel, ctrl, pending) = trigger_run name n2 in
      let a =
        broadcast-AllMarked payload members n3
          (record { tunnel = tunnel ∙ d.room.tunnel; room = λ j. rw peers (d.room.room j) }) in
      let same = a.ctrl ∙ ap without_sent (ctrl ∙ d.ctrl) in
      rw (d.returned, decodes, ran, a.returned)
        (Opened-open_channels first rest (for_each members (send_marker payload) n3).1
          (ap (λ (c : Controller). c.is_snapshotting) same
            ∙ (unfold update_ctrl record_others in busy))
          (ap (λ (c : Controller). c.current_snapshot_id) same
            ∙ (unfold update_ctrl record_others in current))
          (ap (λ (c : Controller). c.recording_channels) same
            ∙ (unfold update_ctrl record_others in channels))
          a.marked_each (a.pending ∙ (pending ∙ d.pending)))

module _ (env : Settings) (deliver : Deliver) (self_ip : Option Text) (first : Text)
    (rest : List Text) (name : Text) (n : Node) where
  Opened-first_marker :
      (payload marker_id : Bytes) (ip : Text) (seq : ℕ)
      → (self_mesh_ip env (update_ctrl (start_recording marker_id) n)).0 ≡ ok self_ip
      → channels_of (other_members env.mesh_members self_ip) ip ≡ first ∷ rest
      → decode marker_id ≡ ok name
      → All IsRoutable n.pending
      → HasRoom (length n.pending + length (other_members env.mesh_members self_ip)) n
      → Opened payload marker_id ip seq
          (other_members env.mesh_members self_ip)
          (first ∷ rest)
          (first_marker env deliver ip seq payload marker_id n)
  unfolding first_marker ◌>>=◌
  Opened-first_marker payload marker_id ip seq self channels decodes routable room =
      let started = update_ctrl (start_recording marker_id) n in
      let f = Found-self_mesh_ip env started in
      let found : Node = (self_mesh_ip env started).1 in
      let pending : found.pending ≡ n.pending =
        ap (λ (k : Node). k.pending) f.rest ∙ (unfold update_ctrl in refl) in
      let peers : found.peers ≡ n.peers =
        ap (λ (k : Node). k.peers) f.rest ∙ (unfold update_ctrl in refl) in
      let tunnel : found.tunnel_open ≡ n.tunnel_open =
        ap (λ (k : Node). k.tunnel_open) f.rest ∙ (unfold update_ctrl in refl) in
      rw self (
        Opened-take_cut env deliver payload marker_id ip seq
          (other_members env.mesh_members self_ip) first rest name found
          (ap (λ (c : Controller). c.is_snapshotting) f.ctrl
            ∙ (unfold update_ctrl start_recording in refl))
          (ap (λ (c : Controller). c.current_snapshot_id) f.ctrl
            ∙ (unfold update_ctrl start_recording in refl))
          channels decodes (rw pending routable)
          (record { tunnel = tunnel ∙ room.tunnel; room = λ j. rw (peers, pending) (room.room j) }))

  -- A marker whose identifier decodes comes to a node that takes no snapshot and has another member than
  -- its origin; the tunnel is open, there is room for the numbers, and each datagram on the intercept socket
  -- has no destination or one of a port and four bytes. Then the marker is consumed, and the node takes the
  -- snapshot that it names, with a deadline. No datagram waits on the intercept socket. On the channel to every
  -- other member the marker waits to be acknowledged, and the number behind it is the recorded send-side
  -- coordinate. The node records the channels from all other members but the origin, each with no message
  -- so far; the origin's, if it is a member, is empty and has the number behind the marker as its receive-side
  -- coordinate.
  pub process_message-Opened :
      (x : Message) (ip : Text)
      → is_marker x.payload ≡ true
      → n.snapshot_ctrl.is_snapshotting ≡ false
      → (self_mesh_ip env (update_ctrl (start_recording (after_colon x.payload)) n)).0 ≡ ok self_ip
      → channels_of (other_members env.mesh_members self_ip) ip ≡ first ∷ rest
      → decode (after_colon x.payload) ≡ ok name
      → All IsRoutable n.pending
      → HasRoom (length n.pending + length (other_members env.mesh_members self_ip)) n
      → (n' : Node) × (process_message env deliver ip x n ≡ (ok true, n'))
        × Opened x.payload
            (after_colon x.payload)
            ip
            x.seq
            (other_members env.mesh_members self_ip)
            (first ∷ rest)
            (ok tt, n')
  unfolding process_message on_marker pure ◌>>=◌
  process_message-Opened x ip marker idle self channels decodes routable room =
      let o =
        Opened-first_marker x.payload (after_colon x.payload) ip x.seq self channels decodes
          routable room in
      (
        (first_marker env deliver ip x.seq x.payload (after_colon x.payload) n).1,
        ground (arith, marker, idle, o.returned),
        Opened-ok o,
      )
