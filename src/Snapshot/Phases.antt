-- ===== src/Snapshot/Phases.antt =====
-- A channel with one marker during a snapshot: recorded up to the marker, closed behind it.
use mathlib.Core.List.{append-nil}
use dead_nodes_tell_no_tales.Prelude.{
  ℕ, suc, ◌+◌, ◌-◌, ◌<◌, ◌≤◌, Bytes, Text, true, false, some, List, [], ◌∷◌, ◌++◌, ◌≡◌, refl, sym,
  ◌∙◌, arith, text_discrete, if_pos,
}
use dead_nodes_tell_no_tales.Dict.{mem, get?, has}
use dead_nodes_tell_no_tales.Dict.Laws.{get?-put}
use dead_nodes_tell_no_tales.Dict.Sets.{mem-discard}
use dead_nodes_tell_no_tales.Node.{Node, Buffered, Message, Peer}
use dead_nodes_tell_no_tales.Node.Peers.{update_peer, update_ctrl}
use dead_nodes_tell_no_tales.Snapshot.Marker.{append_message, close_channel}
use dead_nodes_tell_no_tales.Snapshot.Recording.{channel_state, message}
use dead_nodes_tell_no_tales.Snapshot.Agreement.{Awaits}
use dead_nodes_tell_no_tales.Mesh.Spoof.Effects.{Delivery, handed}
use dead_nodes_tell_no_tales.Mesh.Deliver.Live.{delivery}
use dead_nodes_tell_no_tales.Mesh.Tunnel.Reassembly.{stretch}

pub channel_state-append_message :
    (ip : Text) (x : Message) (n : Node)
    → channel_state ip (update_ctrl (append_message ip x (channel_state ip n)) n)
      ≡ channel_state ip n ++ x ∷ []
unfolding update_ctrl append_message
channel_state-append_message ip x n = rw get?-put (rw (if_pos (text_discrete ip ip) refl _ _) refl)

module _ (payload : Bytes) (ip last : Text) (m : ℕ → Buffered) (base mark : ℕ)
    (states : List Message) (past : List Delivery) where
  -- The marker has not been handed on.
  pub record Before (k : ℕ) (n : Node) : Type 0 where
    pub awaits : Awaits payload ip last n
    pub above : base ≤ k
    pub not_yet : k ≤ mark
    pub known : has text_discrete n.snapshot_ctrl.channel_states ip ≡ true
    pub state : channel_state ip n ≡ states ++ stretch (λ j. message j (m j)) base (k - base)
    pub handed_so_far : handed n.events ≡ past

  -- The channel is closed: its state is of the messages before the marker, its coordinate the number behind
  -- the marker, and the application was handed the messages from there on.
  pub record Closed (k : ℕ) (n : Node) : Type 0 where
    pub busy : n.snapshot_ctrl.is_snapshotting ≡ true
    pub closed : mem text_discrete n.snapshot_ctrl.recording_channels ip ≡ false
    pub over : mark < k
    pub state : channel_state ip n ≡ states ++ stretch (λ j. message j (m j)) base (mark - base)
    pub coordinate : get? text_discrete n.snapshot_ctrl.recorded_recv_seq ip ≡ some (mark + 1)
    pub handed_so_far :
        handed n.events ≡ past ++ stretch (λ j. delivery ip (m j)) (suc mark) (k - suc mark)

  pub data Cut (k : ℕ) (n : Node) : Type 0 where
    recording : Before k n → Cut k n
    cut_off : Closed k n → Cut k n

  pub Awaits-append_message :
      (k : ℕ) (n : Node)
      → Awaits payload ip last n
      → Awaits payload ip last
          (update_ctrl (append_message ip (message k (m k)) (channel_state ip n)) n)
  unfolding update_ctrl append_message
  Awaits-append_message k n a = record {
    busy = a.busy;
    current = a.current;
    recorded = a.recorded;
    more = a.more;
    differ = a.differ;
  }

  pub Closed-close_channel :
      (n : Node) → Before mark n → Closed (suc mark) (update_ctrl (close_channel ip mark) n)
  unfolding update_ctrl close_channel
  Closed-close_channel n b = record {
    busy = b.awaits.busy;
    closed =
        mem-discard text_discrete n.snapshot_ctrl.recording_channels ip ip
        ∙ if_pos (text_discrete ip ip) refl _ _;
    over = omega arith;
    state = b.state;
    coordinate =
        get?-put text_discrete n.snapshot_ctrl.recorded_recv_seq ip (mark + 1) ip
        ∙ if_pos (text_discrete ip ip) refl _ _;
    handed_so_far =
        let none_yet : suc mark - suc mark ≡ 0 = omega arith in
        b.handed_so_far ∙ rw none_yet (sym (append-nil past));
  }

  pub Before-start :
      (n : Node)
      → Awaits payload ip last n
      → has text_discrete n.snapshot_ctrl.channel_states ip ≡ true
      → channel_state ip n ≡ states
      → handed n.events ≡ past
      → base ≤ mark
      → Before base n
  Before-start n awaits known state handed_so_far le = record {
    awaits = awaits;
    above = omega arith;
    not_yet = le;
    known = known;
    state =
        let none_yet : base - base ≡ 0 = omega arith in
        state ∙ rw none_yet (sym (append-nil states));
    handed_so_far = handed_so_far;
  }

  pub Cut-update : (k : ℕ) (f : Peer → Peer) (n : Node) → Cut k n → Cut k (update_peer ip f n)
  unfolding update_peer
  Cut-update k f n (recording b) = recording (record {
    awaits = record {
      busy = b.awaits.busy;
      current = b.awaits.current;
      recorded = b.awaits.recorded;
      more = b.awaits.more;
      differ = b.awaits.differ;
    };
    above = b.above;
    not_yet = b.not_yet;
    known = b.known;
    state = b.state;
    handed_so_far = b.handed_so_far;
  })
  Cut-update k f n (cut_off c) = cut_off (record {
    busy = c.busy;
    closed = c.closed;
    over = c.over;
    state = c.state;
    coordinate = c.coordinate;
    handed_so_far = c.handed_so_far;
  })

  pub Closed-over : (k : ℕ) (n : Node) → mark < k → Cut k n → Closed k n
  Closed-over k n over (recording b) = absurd (omega (arith, b.not_yet))
  Closed-over k n over (cut_off c) = c
