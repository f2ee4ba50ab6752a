-- ===== src/Snapshot/Replay.antt =====
-- The flush at the end of a snapshot, `_flush_and_reset`.
use mathlib.Core.List.{append-nil, append_assoc}
use dead_nodes_tell_no_tales.Prelude.{
  ℕ, suc, Text, false, List, [], ◌∷◌, ◌++◌, map, ◌≡◌, refl, sym, ap, ◌∙◌, arith, All, text_discrete,
}
use dead_nodes_tell_no_tales.Outcome.{Outcome, ok}
use dead_nodes_tell_no_tales.Config.{Settings}
use dead_nodes_tell_no_tales.Dict.{Dict, put}
use dead_nodes_tell_no_tales.Sorting.{sort_by}
use dead_nodes_tell_no_tales.Sorting.Laws.{All-sort_by}
use dead_nodes_tell_no_tales.Node.{Node, Message, Controller, fresh_controller}
use dead_nodes_tell_no_tales.Node.Peers.{update_ctrl}
use dead_nodes_tell_no_tales.Exec.{for_each, ◌>>=◌}
use dead_nodes_tell_no_tales.Snapshot.Flush.{
  Deliver, seq_le, reset, deliver_message, flush_channel, flush_and_reset,
}
use dead_nodes_tell_no_tales.Snapshot.Marker.{is_marker}
use dead_nodes_tell_no_tales.Mesh.Spoof.Effects.{Delivery, handed, posted, Sends-spoof_send}
use dead_nodes_tell_no_tales.Mesh.Deliver.{deliver_over, deliver_within}
use dead_nodes_tell_no_tales.Mesh.Deliver.Live.{IsIdle, deliver_over-idle}

-- The recorded messages hold no marker: a node records none.
abbrev pub ArePlain : List Message → Type 0
ArePlain = All (λ m. is_marker m.payload ≡ false)

abbrev pub IsClean : Dict Text (List Message) → Type 0
IsClean = All (λ channel. ArePlain channel.1)

-- What the application receives for a recorded message of the channel from `ip`.
abbrev pub message_delivery : Text → Message → Delivery
message_delivery ip m = record {
  payload = m.payload;
  src_ip = ip;
  src_port = m.src_port;
  dst_ip = m.target_local_ip;
  dst_port = m.dst_port;
}

-- The deliveries of the channels, each in the order of its sequence numbers.
abbrev pub channel_deliveries : Text × List Message → List Delivery
channel_deliveries (ip, msgs) = map (message_delivery ip) (sort_by seq_le msgs)

pub flushed_deliveries : Dict Text (List Message) → List Delivery
flushed_deliveries [] = []
flushed_deliveries (channel ∷ states) = channel_deliveries channel ++ flushed_deliveries states

-- The state but for the controller, the sockets and the events.
pub record SameNode (n n' : Node) : Type 0 where
  pub peers : n'.peers ≡ n.peers
  pub tunnel_open : n'.tunnel_open ≡ n.tunnel_open
  pub is_server : n'.is_server ≡ n.is_server
  pub pending : n'.pending ≡ n.pending
  pub clock : n'.clock ≡ n.clock

abbrev pub no_channels : Controller → Controller
no_channels c = record c { channel_states = [] }

-- From `n` the deliveries `ds` were made, and of the controller at most `channel_states` is new.
pub record Replayed (n : Node) (ds : List Delivery) (r : Outcome (Unit {0}) × Node) : Type 0 where
  pub returned : r.0 ≡ ok tt
  pub same : SameNode n r.1
  pub ctrl : no_channels r.1.snapshot_ctrl ≡ no_channels n.snapshot_ctrl
  pub handed_all : handed r.1.events ≡ handed n.events ++ ds
  pub posted_same : posted r.1.events ≡ posted n.events

pub Replayed-IsIdle :
    {n : Node} {ds : List Delivery} {r : Outcome (Unit {0}) × Node}
    → Replayed n ds r
    → IsIdle n
    → IsIdle r.1
Replayed-IsIdle p idle = ap (λ (c : Controller). c.is_snapshotting) p.ctrl ∙ idle

pub Replayed-pure : (n : Node) → Replayed n [] (ok tt, n)
Replayed-pure n = record {
  returned = refl;
  same = ground arith;
  ctrl = refl;
  handed_all = sym (append-nil (handed n.events));
  posted_same = refl;
}

pub Replayed-trans :
    (n : Node) (ds es : List Delivery) (r r' : Outcome (Unit {0}) × Node)
    → Replayed n ds r
    → Replayed r.1 es r'
    → Replayed n (ds ++ es) r'
Replayed-trans n ds es r r' p q = record {
  returned = q.returned;
  same = ground (arith, p.same, q.same);
  ctrl = q.ctrl ∙ p.ctrl;
  handed_all = q.handed_all ∙ rw p.handed_all (append_assoc (handed n.events) ds es);
  posted_same = q.posted_same ∙ p.posted_same;
}

-- The result of a flush from `n`.
pub record Flushed (n : Node) (r : Outcome (Unit {0}) × Node) : Type 0 where
  pub returned : r.0 ≡ ok tt
  pub same : SameNode n r.1
  pub ctrl :
      r.1.snapshot_ctrl ≡ record fresh_controller { self_ip_cache = n.snapshot_ctrl.self_ip_cache }
  pub handed_all :
      handed r.1.events ≡ handed n.events ++ flushed_deliveries n.snapshot_ctrl.channel_states
  pub posted_same : posted r.1.events ≡ posted n.events

module _ (env : Settings) (below : Deliver) where
  Replayed-message :
      (ip : Text) (m : Message) (n : Node)
      → is_marker m.payload ≡ false
      → IsIdle n
      → Replayed n (message_delivery ip m ∷ []) (deliver_message (deliver_over env below) ip m n)
  Replayed-message ip m n plain idle =
      let s = Sends-spoof_send env ip m.src_port m.payload m.target_local_ip m.dst_port n in
      rw
        (deliver_over-idle env below m.seq m.payload ip m.src_port m.dst_port m.target_local_ip n
          plain idle)
        (record {
          returned = s.returned;
          same = ground (arith, s.untouched);
          ctrl = ap no_channels s.untouched.snapshot_ctrl;
          handed_all = s.handed_one;
          posted_same = s.posted_same;
        })

  pub Replayed-messages :
      (ip : Text) (msgs : List Message) (n : Node)
      → ArePlain msgs
      → IsIdle n
      → Replayed n
          (map (message_delivery ip) msgs)
          (for_each msgs (deliver_message (deliver_over env below) ip) n)
  unfolding for_each ◌>>=◌
  Replayed-messages ip [] n plain idle = Replayed-pure n
  Replayed-messages ip (m ∷ msgs) n plain idle =
      let p = Replayed-message ip m n plain.0 idle in
      rw p.returned (
        Replayed-trans n (message_delivery ip m ∷ []) (map (message_delivery ip) msgs) _ _ p
          (Replayed-messages ip msgs _ plain.1 (Replayed-IsIdle p idle)))

  Replayed-channel :
      (channel : Text × List Message) (n : Node)
      → ArePlain channel.1
      → IsIdle n
      → Replayed n (channel_deliveries channel) (flush_channel (deliver_over env below) channel n)
  unfolding flush_channel update_ctrl ◌>>=◌
  Replayed-channel (ip, msgs) n plain idle =
      let sorted =
        update_ctrl
          (λ c. record c {
            channel_states = put text_discrete c.channel_states ip (sort_by seq_le msgs);
          })
          n in
      let p =
        Replayed-messages ip (sort_by seq_le msgs) sorted
          (All-sort_by (λ m. is_marker m.payload ≡ false) seq_le msgs plain) idle in
      record {
        returned = p.returned;
        same = ground (arith, p.same);
        ctrl = p.ctrl;
        handed_all = p.handed_all;
        posted_same = p.posted_same;
      }

  Replayed-channels :
      (states : Dict Text (List Message)) (n : Node)
      → IsClean states
      → IsIdle n
      → Replayed n
          (flushed_deliveries states)
          (for_each states (flush_channel (deliver_over env below)) n)
  unfolding for_each flushed_deliveries ◌>>=◌
  Replayed-channels [] n clean idle = Replayed-pure n
  Replayed-channels (channel ∷ states) n clean idle =
      let p = Replayed-channel channel n clean.0 idle in
      rw p.returned (
        Replayed-trans n (channel_deliveries channel) (flushed_deliveries states) _ _ p
          (Replayed-channels states _ clean.1 (Replayed-IsIdle p idle)))

  Flushed-flush :
      (n : Node)
      → IsClean n.snapshot_ctrl.channel_states
      → Flushed n (flush_and_reset (deliver_over env below) n)
  unfolding flush_and_reset update_ctrl reset ◌>>=◌
  Flushed-flush n clean =
      let p = Replayed-channels n.snapshot_ctrl.channel_states (update_ctrl reset n) clean refl in
      rw p.returned (record {
        returned = refl;
        same = ground (arith, p.same);
        ctrl = p.ctrl;
        handed_all = p.handed_all;
        posted_same = p.posted_same;
      })

-- If no recorded message is a marker, the flush returns without an exception at any depth of the
-- calls from 1 on, so it never meets the recursion limit: the controller is as new but for the cached
-- address, no artifact is posted, peers, clock and pending datagrams are as before, and the
-- application is handed each recorded message exactly once, channel by channel, each channel in the
-- order of its sequence numbers.
pub flush-exactly_once :
    (env : Settings) (depth : ℕ) (n : Node)
    → IsClean n.snapshot_ctrl.channel_states
    → Flushed n (flush_and_reset (deliver_within env (suc depth)) n)
unfolding deliver_within
flush-exactly_once env depth n clean = Flushed-flush env (deliver_within env depth) n clean
