-- ===== src/Tests/Witnesses.antt =====
-- The theorems on a mesh of three nodes, seen from the second.
use dead_nodes_tell_no_tales.Prelude.{
  ℕ, ◌+◌, ◌<◌, ◌≤◌, Bytes, Text, true, false, none, some, List, [], ◌∷◌, ◌++◌, codes, ◌≡◌, ◌≢◌,
  refl, ite, arith, text_discrete, ℕ_discrete, length, take, drop,
}
use dead_nodes_tell_no_tales.Outcome.{Outcome, ok, raised, unicode_error}
use dead_nodes_tell_no_tales.Dict.{mem, get?, has, or_else}
use dead_nodes_tell_no_tales.Codec.{b64encode, b64decode, decode}
use dead_nodes_tell_no_tales.Codec.Base64.{b64decode-b64encode}
use dead_nodes_tell_no_tales.Sorting.{sort_by}
use dead_nodes_tell_no_tales.Wire.{
  DataHeader, data_header_size, ack_header_size, pack_data, unpack_data, pack_ack, unpack_ack,
}
use dead_nodes_tell_no_tales.Wire.RoundTrip.{InRange, data_round_trip, ack_round_trip}
use dead_nodes_tell_no_tales.Exec.{for_each}
use dead_nodes_tell_no_tales.Node.{Node, Buffered, Message, Controller, Artifact, complete, aborted}
use dead_nodes_tell_no_tales.Node.Peers.{peer_at}
use dead_nodes_tell_no_tales.Mesh.Spoof.Effects.{handed}
use dead_nodes_tell_no_tales.Mesh.Deliver.{deliver_within, process_and_deliver}
use dead_nodes_tell_no_tales.Mesh.Deliver.Live.{IsIdle, app_in_order, delivery}
use dead_nodes_tell_no_tales.Mesh.Tunnel.Reassembly.{stretch}
use dead_nodes_tell_no_tales.Mesh.Tunnel.Stream.{receive_all}
use dead_nodes_tell_no_tales.Snapshot.Artifact.{build_artifact, decode_id}
use dead_nodes_tell_no_tales.Snapshot.Flush.{
  seq_le, deliver_message, flush_and_reset, end_snapshot, check_timeout,
}
use dead_nodes_tell_no_tales.Snapshot.Marker.{is_marker, process_message, send_marker}
use dead_nodes_tell_no_tales.Snapshot.Recording.{
  IsRecording, channel_state, message, recorded_in_order,
}
use dead_nodes_tell_no_tales.Snapshot.Replay.{Flushed, flush-exactly_once}
use dead_nodes_tell_no_tales.Snapshot.Ending.{Ended, Ended-end_snapshot, timeout-Ended}
use dead_nodes_tell_no_tales.Snapshot.Cut.{AllMarked, broadcast-AllMarked}
use dead_nodes_tell_no_tales.Mesh.Send.Effects.{HasRoom}
use dead_nodes_tell_no_tales.Snapshot.Wedge.{marker_message, IsWedged, undecodable_wedges}
use dead_nodes_tell_no_tales.Snapshot.Restore.{load}
use dead_nodes_tell_no_tales.Snapshot.Restore.Channels.{HasBytes}
use dead_nodes_tell_no_tales.Snapshot.Restore.Seeding.{Restored}
use dead_nodes_tell_no_tales.Snapshot.Restore.RoundTrip.{artifact_peers, load-build_artifact}
use dead_nodes_tell_no_tales.Tests.Fixtures.{env_b, live, marker, node_a, node_b, node_c}

-- The k-th message of a stream.
abbrev stream : ℕ → Buffered
stream k = record { payload = b'x' ∷ k ∷ []; src_port = 5000; dst_port = 5000; local_ip = node_b }

-- The second message comes first, and the first one twice.
abbrev arrivals : List ℕ
arrivals = 1 ∷ 0 ∷ 0 ∷ []

abbrev after_arrivals : Node → Outcome (Unit {0}) × Node
after_arrivals = receive_all (process_and_deliver env_b) node_c stream arrivals

stream-plain : (k : ℕ) → is_marker (stream k).payload ≡ false
unfolding is_marker
stream-plain k = refl

app_in_order_example :
    (count : ℕ) × ((after_arrivals live).0 ≡ ok tt)
    × IsIdle (after_arrivals live).1
    × ((peer_at (after_arrivals live).1 node_c).recv_seq ≡ 0 + count)
    × (handed (after_arrivals live).1.events
        ≡ [] ++ stretch (λ k. delivery node_c (stream k)) 0 count)
    × ((k : ℕ) → 0 ≤ k → k < 0 + count → mem ℕ_discrete arrivals k ≡ true)
    × (mem ℕ_discrete arrivals (0 + count) ≡ false)
unfolding get? handed
app_in_order_example = app_in_order env_b node_c stream stream-plain 0 arrivals live refl refl refl

-- Two messages of the third node that are recorded, the second one first.
abbrev recorded : List Message
recorded = message 1 (stream 1) ∷ message 0 (stream 0) ∷ []

abbrev controller : Controller
controller = record {
  is_snapshotting = true;
  current_snapshot_id = some (codes "s1");
  recording_channels = node_c ∷ [];
  channel_states = (node_c, recorded) ∷ [];
  recorded_send_seq = (node_a, 4) ∷ (node_c, 3) ∷ [];
  recorded_recv_seq = (node_a, 8) ∷ [];
  snapshot_deadline = some 30_000;
  self_ip_cache = none;
}

abbrev busy : Node
busy = record live { snapshot_ctrl = controller }

recorded_in_order_example :
    (count : ℕ) × ((after_arrivals busy).0 ≡ ok tt)
    × IsRecording node_c [] (after_arrivals busy).1
    × ((peer_at (after_arrivals busy).1 node_c).recv_seq ≡ 0 + count)
    × (channel_state node_c (after_arrivals busy).1
        ≡ channel_state node_c busy ++ stretch (λ k. message k (stream k)) 0 count)
    × ((k : ℕ) → 0 ≤ k → k < 0 + count → mem ℕ_discrete arrivals k ≡ true)
    × (mem ℕ_discrete arrivals (0 + count) ≡ false)
unfolding mem text_discrete ℕ_discrete handed get? has
recorded_in_order_example =
    recorded_in_order env_b node_c stream stream-plain [] 0 arrivals busy
      (record { busy = refl; recorded = refl; known = refl; handed_so_far = refl }) refl refl

flush-exactly_once_example : Flushed busy (flush_and_reset (deliver_within env_b 1) busy)
unfolding is_marker
flush-exactly_once_example = flush-exactly_once env_b 0 busy ((refl, (refl, tt)), tt)

live-HasRoom : HasRoom 2 live
unfolding get?
live-HasRoom = record { tunnel = refl; room = λ ip. omega arith }

broadcast-AllMarked_example :
    AllMarked marker
      (node_a ∷ node_c ∷ [])
      live
      (for_each (node_a ∷ node_c ∷ []) (send_marker marker) live)
broadcast-AllMarked_example = broadcast-AllMarked marker (node_a ∷ node_c ∷ []) live live-HasRoom

abbrev artifact : Artifact
artifact = elim (build_artifact env_b complete controller) [
  | ok a ↦ a
  | raised _ ↦ record { snapshot_id = none; node = []; status = aborted; peers = [] }
]

artifact-built : build_artifact env_b complete controller ≡ ok artifact
unfolding build_artifact decode_id decode
artifact-built = refl

recorded-HasBytes :
    (ip : Text) → HasBytes (or_else [] (get? text_discrete controller.channel_states ip))
unfolding get?
recorded-HasBytes ip =
    elim (text_discrete node_c ip) as (λ d. HasBytes (or_else [] (ite d (some recorded) none))) [
      | yes p ↦ ((omega arith, (omega arith, tt)), ((omega arith, (omega arith, tt)), tt))
      | no ne ↦ tt
    ]

load-build_artifact_example :
    (s : Node) × Restored controller (artifact_peers controller) live s
    × (load (process_and_deliver env_b) (some artifact) live
        ≡ for_each
            (artifact_peers controller)
            (λ ip.
              for_each
                (sort_by seq_le (or_else [] (get? text_discrete controller.channel_states ip)))
                (deliver_message (process_and_deliver env_b) ip))
            s)
load-build_artifact_example =
    load-build_artifact env_b complete controller artifact (process_and_deliver env_b) live
      artifact-built recorded-HasBytes

abbrev late : Node
late = record busy { clock = 30_001 }

timeout-Ended_example :
    (a : Artifact) × (build_artifact env_b aborted controller ≡ ok a)
    × (a.status ≡ aborted)
    × (a.snapshot_id ≡ some (codes "s1"))
    × Ended late a (check_timeout env_b (deliver_within env_b 1) late)
unfolding is_marker decode_id decode
timeout-Ended_example =
    timeout-Ended env_b 0 late ((refl, (refl, tt)), tt) 30_000 (some (codes "s1")) refl refl
      (omega arith) refl

Ended-end_snapshot_example :
    Ended busy artifact (end_snapshot env_b (deliver_within env_b 1) complete busy)
unfolding is_marker
Ended-end_snapshot_example =
    Ended-end_snapshot env_b 0 busy ((refl, (refl, tt)), tt) complete artifact artifact-built

abbrev bad_id : Bytes
bad_id = 255 ∷ []

undecodable_wedges_example :
    (n' : Node) × (process_message env_b
        (process_and_deliver env_b)
        node_a
        (marker_message 5 bad_id)
        live
      ≡ (raised unicode_error, n'))
    × IsWedged bad_id n'
    × ((now : ℕ)
        → check_timeout env_b (process_and_deliver env_b) (record n' { clock = now })
          ≡ (ok tt, record n' { clock = now }))
    × ((other : Bytes) (from : Text) (k : ℕ)
        → other ≢ bad_id
        → (process_message env_b (process_and_deliver env_b) from (marker_message k other) n').1
          ≡ n')
unfolding decode
undecodable_wedges_example =
    undecodable_wedges env_b (process_and_deliver env_b) bad_id unicode_error node_a 5 live refl
      refl refl refl

abbrev header : DataHeader
header = record {
  msg_type = 0;
  seq = 300;
  src_port = 5000;
  dst_port = 5001;
  target_ip = 10 ∷ 24 ∷ 24 ∷ 11 ∷ [];
}

header-InRange : InRange header
header-InRange = record {
  msg_type = omega arith;
  seq = omega arith;
  src_port = omega arith;
  dst_port = omega arith;
  target_ip = refl;
}

data_round_trip_example :
    (packed : Bytes) × (pack_data header ≡ ok packed)
    × (length packed ≡ data_header_size)
    × (unpack_data (take data_header_size (packed ++ marker)) ≡ ok header)
    × (drop data_header_size (packed ++ marker) ≡ marker)
data_round_trip_example = data_round_trip header marker header-InRange

ack_round_trip_example :
    (packed : Bytes) × (pack_ack 300 ≡ ok packed)
    × (length packed ≡ ack_header_size)
    × (unpack_ack (take ack_header_size (packed ++ marker)) ≡ ok 300)
ack_round_trip_example = ack_round_trip 300 marker (omega arith)

b64decode-b64encode_example :
    b64decode (b64encode (0 ∷ 255 ∷ 16 ∷ 3 ∷ [])) ≡ ok (0 ∷ 255 ∷ 16 ∷ 3 ∷ [])
b64decode-b64encode_example =
    b64decode-b64encode (0 ∷ 255 ∷ 16 ∷ 3 ∷ [])
      (omega arith, (omega arith, (omega arith, (omega arith, tt))))
