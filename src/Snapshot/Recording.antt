-- ===== src/Snapshot/Recording.antt =====
-- `process_and_deliver` on a channel that a snapshot records.
use dead_nodes_tell_no_tales.Prelude.{
  ℕ, ◌+◌, ◌<◌, ◌≤◌, Text, true, false, List, [], ◌∷◌, ◌++◌, ◌≡◌, refl, ◌∙◌, arith, ℕ_discrete,
  text_discrete, if_pos,
}
use dead_nodes_tell_no_tales.Outcome.{ok}
use dead_nodes_tell_no_tales.Config.{Settings}
use dead_nodes_tell_no_tales.Dict.{mem, get?, has, or_else}
use dead_nodes_tell_no_tales.Dict.Laws.{get?-put, get?_of_has, has-put}
use dead_nodes_tell_no_tales.Node.{Node, Buffered, Message, Controller}
use dead_nodes_tell_no_tales.Node.Peers.{peer_at, update_peer, update_ctrl}
use dead_nodes_tell_no_tales.Exec.{◌>>=◌}
use dead_nodes_tell_no_tales.Snapshot.Flush.{Deliver}
use dead_nodes_tell_no_tales.Snapshot.Marker.{
  is_marker, append_message, append_to, record_message, process_message,
}
use dead_nodes_tell_no_tales.Mesh.Spoof.Effects.{Delivery, handed}
use dead_nodes_tell_no_tales.Mesh.Deliver.{deliver_over, deliver_within, process_and_deliver}
use dead_nodes_tell_no_tales.Mesh.Tunnel.Reassembly.{stretch, hand_on}
use dead_nodes_tell_no_tales.Mesh.Tunnel.Stream.{receive_all}
use dead_nodes_tell_no_tales.Mesh.Tunnel.Logged.{Logger, receive_all-logged}

-- The node takes a snapshot and records the channel from `ip`, whose state it has; so far the application was handed
-- `past`.
pub record IsRecording (ip : Text) (past : List Delivery) (n : Node) : Type 0 where
  pub busy : n.snapshot_ctrl.is_snapshotting ≡ true
  pub recorded : mem text_discrete n.snapshot_ctrl.recording_channels ip ≡ true
  pub known : has text_discrete n.snapshot_ctrl.channel_states ip ≡ true
  pub handed_so_far : handed n.events ≡ past

-- The recorded state of a channel.
abbrev pub channel_state : Text → Node → List Message
channel_state ip n = or_else [] (get? text_discrete n.snapshot_ctrl.channel_states ip)

abbrev pub message : ℕ → Buffered → Message
message seq b = record {
  seq = seq;
  payload = b.payload;
  src_port = b.src_port;
  dst_port = b.dst_port;
  target_local_ip = b.local_ip;
}

pub has-append_message :
    (ip : Text) (x : Message) (recorded : List Message) (c : Controller)
    → has text_discrete (append_message ip x recorded c).channel_states ip ≡ true
unfolding append_message
has-append_message ip x recorded c =
    has-put text_discrete c.channel_states ip (recorded ++ x ∷ []) ip
    ∙ if_pos (text_discrete ip ip) refl _ _

module _ (env : Settings) where
  -- A message that is no marker is consumed by the record.
  pub deliver_over-recording :
      (below : Deliver) (seq : ℕ) (b : Buffered) (ip : Text) (past : List Delivery) (n : Node)
      → is_marker b.payload ≡ false
      → IsRecording ip past n
      → deliver_over env below seq b.payload ip b.src_port b.dst_port b.local_ip n
        ≡ (ok tt, update_ctrl (append_message ip (message seq b) (channel_state ip n)) n)
  unfolding deliver_over process_message record_message append_to ◌>>=◌
  deliver_over-recording below seq b ip past n plain r =
      let (recorded, found) = get?_of_has text_discrete n.snapshot_ctrl.channel_states ip r.known in
      ground (arith, plain, r, found)

  module _ (ip : Text) (m : ℕ → Buffered) (plain : (k : ℕ) → is_marker (m k).payload ≡ false)
      (past : List Delivery) where
    hand_on-recording :
        (k : ℕ) (n : Node)
        → IsRecording ip past n
        → hand_on (process_and_deliver env) ip m k n
          ≡ (ok tt, update_ctrl (append_message ip (message k (m k)) (channel_state ip n)) n)
    unfolding process_and_deliver
    hand_on-recording k n r =
        deliver_over-recording (deliver_within env 249) k (m k) ip past n (plain k) r

    IsRecording-Logger :
        Logger
          (process_and_deliver env)
          ip
          m
          (IsRecording ip past)
          (channel_state ip)
          (λ k. message k (m k))
    unfolding update_peer update_ctrl append_message
    IsRecording-Logger = record {
      returns = λ k n r. rw (hand_on-recording k n r);
      ready = λ k n r. rw (hand_on-recording k n r) (record {
        busy = r.busy;
        recorded = r.recorded;
        known = has-append_message ip (message k (m k)) (channel_state ip n) n.snapshot_ctrl;
        handed_so_far = r.handed_so_far;
      });
      logs = λ k n r.
          rw (hand_on-recording k n r) (rw get?-put (rw (if_pos (text_discrete ip ip) refl _ _)));
      same_seq = λ k n r. rw (hand_on-recording k n r);
      same_buffer = λ k n r. rw (hand_on-recording k n r);
      ready_update = λ f n r. ground (arith, r);
      log_update = λ f n. refl;
    }

    -- While a node records a channel whose state it has opened, with an empty buffer, let packets of a stream without markers
    -- come in on it in any order, each any number of times. Nothing is raised, the node goes on
    -- recording the channel, the application is handed nothing, and the channel's recorded state
    -- grows, once each and in order, by exactly the messages from its `recv_seq` up to the first that
    -- has not come in; the new `recv_seq` is the number of that one.
    pub recorded_in_order :
        (base : ℕ) (arrivals : List ℕ) (n : Node)
        → IsRecording ip past n
        → (peer_at n ip).recv_seq ≡ base
        → (peer_at n ip).recv_buffer ≡ []
        → (count : ℕ) × ((receive_all (process_and_deliver env) ip m arrivals n).0 ≡ ok tt)
          × IsRecording ip past (receive_all (process_and_deliver env) ip m arrivals n).1
          × ((peer_at (receive_all (process_and_deliver env) ip m arrivals n).1 ip).recv_seq
              ≡ base + count)
          × (channel_state ip (receive_all (process_and_deliver env) ip m arrivals n).1
              ≡ channel_state ip n ++ stretch (λ k. message k (m k)) base count)
          × ((k : ℕ) → base ≤ k → k < base + count → mem ℕ_discrete arrivals k ≡ true)
          × (mem ℕ_discrete arrivals (base + count) ≡ false)
    recorded_in_order base =
        receive_all-logged (process_and_deliver env) ip m IsRecording-Logger base
