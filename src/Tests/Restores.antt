-- ===== src/Tests/Restores.antt =====
-- The artifacts of the two ends of a channel, loaded on two fresh nodes.
use dead_nodes_tell_no_tales.Prelude.{
  ℕ, List, ◌==◌, if◌then◌else◌, ◌+◌, Text, true, none, some, [], ◌∷◌, codes, ◌≡◌, ◌≢◌, ◌≤◌, ◌^◌,
  false, refl, sym, ap, ◌∙◌, subst, arith, text_discrete, ℕ_discrete, ite,
}
use dead_nodes_tell_no_tales.Outcome.{Outcome, ok, raised}
use dead_nodes_tell_no_tales.Dict.{get?, has, put, mem, discard, or_else}
use dead_nodes_tell_no_tales.Node.{
  Node, Buffered, Controller, Artifact, complete, aborted, fresh_peer, fresh_controller,
}
use dead_nodes_tell_no_tales.Node.Peers.{peer_at, get_peer, update_peer, update_ctrl, emit}
use dead_nodes_tell_no_tales.Wire.{pack_data}
use dead_nodes_tell_no_tales.Mesh.Send.{send_data, tunnel_send, track}
use dead_nodes_tell_no_tales.Mesh.Send.Effects.{HasRoom}
use dead_nodes_tell_no_tales.Mesh.Tunnel.{
  receive, buffer, accept, flush_buffer, advance, next_buffered,
}
use dead_nodes_tell_no_tales.Mesh.Deliver.{process_and_deliver}
use dead_nodes_tell_no_tales.Snapshot.Artifact.{build_artifact, decode_id}
use dead_nodes_tell_no_tales.Codec.{decode}
use dead_nodes_tell_no_tales.Snapshot.Marker.{is_marker}
use dead_nodes_tell_no_tales.Snapshot.Recording.{message}
use dead_nodes_tell_no_tales.Snapshot.Replay.{ArePlain}
use dead_nodes_tell_no_tales.Exec.{for_each}
use dead_nodes_tell_no_tales.Snapshot.Marker.{send_marker}
use dead_nodes_tell_no_tales.Snapshot.Restore.{load}
use dead_nodes_tell_no_tales.Snapshot.Restore.Channels.{HasBytes}
use dead_nodes_tell_no_tales.Snapshot.Restore.Resumed.{recorded_state, Resumed, Resumed-load}
use dead_nodes_tell_no_tales.Snapshot.Restore.Aligned.{sent, received, restored-aligned}
use dead_nodes_tell_no_tales.Tests.Fixtures.{env_b, live, marker, program, node_a, node_b, node_c}
use dead_nodes_tell_no_tales.Tests.Packets.{sender, receiver, receiver-Awaits}

abbrev greeting : Buffered
greeting = record { payload = codes "hi"; src_port = 5000; dst_port = 5000; local_ip = node_b }

abbrev or_empty : Outcome Artifact → Artifact
or_empty (ok a) = a
or_empty (raised _) = record { snapshot_id = none; node = []; status = aborted; peers = [] }

abbrev artifact_of : Controller → Artifact
artifact_of c = or_empty (build_artifact env_b complete c)

abbrev to_b : List Text
to_b = node_b ∷ []

-- A message, the marker and a message of the channel from the third node; the marker comes first.
abbrev in_channel : ℕ → Buffered
in_channel k = if k == 8 then record greeting { payload = marker } else greeting

abbrev comes : List ℕ
comes = 8 ∷ 7 ∷ []

abbrev ctrl_here : Controller
ctrl_here = record fresh_controller { recorded_send_seq = (node_b, 9) ∷ [] }

abbrev ctrl_there : Controller
ctrl_there = record fresh_controller {
  is_snapshotting = true;
  current_snapshot_id = some (codes "s1");
  recording_channels = node_a ∷ [];
  recorded_recv_seq = (node_c, 9) ∷ [];
  channel_states = (node_a, []) ∷ (node_c, message 7 greeting ∷ []) ∷ [];
}

abbrev here : Node
here = sent env_b env_b marker to_b node_b node_c node_a in_channel comes sender receiver

abbrev there : Node
there = received env_b env_b marker to_b node_b node_c node_a in_channel comes sender receiver

sent_ctrl : here.snapshot_ctrl ≡ ctrl_here
unfolding for_each send_marker send_data pack_data get? get_peer has text_discrete ℕ_discrete
    tunnel_send update_ctrl update_peer put emit track
sent_ctrl = refl

last_sent : (peer_at here node_b).send_seq ≡ 8 + 1
unfolding for_each send_marker send_data pack_data get? get_peer has text_discrete ℕ_discrete
    tunnel_send update_ctrl update_peer put emit track
last_sent = refl

received_ctrl : there.snapshot_ctrl ≡ ctrl_there
unfolding program for_each receive get? text_discrete ℕ_discrete update_peer put buffer accept
    process_and_deliver mem flush_buffer update_ctrl advance next_buffered discard
received_ctrl = refl

here-built : build_artifact env_b complete here.snapshot_ctrl ≡ ok (artifact_of ctrl_here)
here-built =
    ap (build_artifact env_b complete) sent_ctrl ∙ (unfold build_artifact decode_id in refl)

there-built : build_artifact env_b complete there.snapshot_ctrl ≡ ok (artifact_of ctrl_there)
there-built =
    ap (build_artifact env_b complete) received_ctrl
    ∙ (unfold build_artifact decode_id decode in refl)

there-HasBytes : (ip : Text) → HasBytes (recorded_state ctrl_there ip)
unfolding get?
there-HasBytes ip =
    elim (text_discrete node_a ip)
      as (λ d. HasBytes (
        or_else [] (
          ite d (some []) (ite (text_discrete node_c ip) (some (message 7 greeting ∷ [])) none)))) [
            | yes p ↦ tt
            | no np ↦
                elim (text_discrete node_c ip)
                  as (λ d. HasBytes (or_else [] (ite d (some (message 7 greeting ∷ [])) none))) [
                    | yes q ↦ ((omega arith, (omega arith, tt)), tt)
                    | no nq ↦ tt
                  ]
          ]

there-ArePlain : (ip : Text) → ArePlain (recorded_state ctrl_there ip)
unfolding get? is_marker
there-ArePlain ip =
    elim (text_discrete node_a ip)
      as (λ d. ArePlain (
        or_else [] (
          ite d (some []) (ite (text_discrete node_c ip) (some (message 7 greeting ∷ [])) none)))) [
            | yes p ↦ tt
            | no np ↦
                elim (text_discrete node_c ip)
                  as (λ d. ArePlain (or_else [] (ite d (some (message 7 greeting ∷ [])) none))) [
                    | yes q ↦ (refl, tt)
                    | no nq ↦ tt
                  ]
          ]

none-HasBytes : (ip : Text) → HasBytes (recorded_state ctrl_here ip)
unfolding get?
none-HasBytes ip = tt

none-ArePlain : (ip : Text) → ArePlain (recorded_state ctrl_here ip)
unfolding get?
none-ArePlain ip = tt

plain_else : (k : ℕ) → k ≢ 8 → is_marker (in_channel k).payload ≡ false
unfolding is_marker
plain_else k ne = ground arith

all_come : (k : ℕ) → 7 ≤ k → k ≤ 8 → mem ℕ_discrete comes k ≡ true
unfolding mem
all_come k ge le = ground arith

sender-room : (ip : Text) → (peer_at sender ip).send_seq + 1 ≤ 256 ^ 8
unfolding get? text_discrete ℕ_discrete
sender-room ip =
    elim (text_discrete node_b ip)
      as (λ d.
        (or_else fresh_peer (ite d (some (peer_at sender node_b)) none)).send_seq + 1 ≤ 256 ^ 8) [
          | yes p ↦ omega arith
          | no np ↦ omega arith
        ]

sender-HasRoom : HasRoom 1 sender
sender-HasRoom = record { tunnel = refl; room = sender-room }

Resumed-load_example :
    Resumed ctrl_there live (load (process_and_deliver env_b) (some (artifact_of ctrl_there)) live)
Resumed-load_example =
    Resumed-load env_b complete ctrl_there (artifact_of ctrl_there) live
      (unfold build_artifact decode_id decode in refl) there-HasBytes there-ArePlain refl

restored-aligned_example :
    ((load (process_and_deliver env_b) (some (artifact_of ctrl_here)) live).0 ≡ ok tt)
    × ((load (process_and_deliver env_b) (some (artifact_of ctrl_there)) live).0 ≡ ok tt)
    × ((peer_at
          (load (process_and_deliver env_b) (some (artifact_of ctrl_here)) live).1
          node_b).send_seq
        ≡ 8 + 1)
    × ((peer_at
          (load (process_and_deliver env_b) (some (artifact_of ctrl_there)) live).1
          node_c).recv_seq
        ≡ 8 + 1)
unfolding mem text_discrete ℕ_discrete is_marker has get?
restored-aligned_example =
    restored-aligned env_b env_b marker to_b node_b node_c node_a in_channel comes sender receiver 7
      8 complete complete (artifact_of ctrl_here) (artifact_of ctrl_there) live live sender-HasRoom
      refl last_sent plain_else refl refl receiver-Awaits refl refl refl (omega arith) all_come
      here-built there-built
      (subst (λ c. (ip : Text) → HasBytes (recorded_state c ip)) (sym sent_ctrl) none-HasBytes)
      (subst (λ c. (ip : Text) → HasBytes (recorded_state c ip)) (sym received_ctrl) there-HasBytes)
      (subst (λ c. (ip : Text) → ArePlain (recorded_state c ip)) (sym sent_ctrl) none-ArePlain)
      (subst (λ c. (ip : Text) → ArePlain (recorded_state c ip)) (sym received_ctrl) there-ArePlain)
      refl refl
