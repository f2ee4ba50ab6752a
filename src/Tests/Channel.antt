-- ===== src/Tests/Channel.antt =====
-- The theorems on the channel between two sidecars, on a run in which one datagram is sent, comes in twice and
-- is acknowledged.
use dead_nodes_tell_no_tales.Prelude.{
  ℕ, Bytes, true, false, [], ◌∷◌, ◌-◌, codes, some, length, ◌≡◌, ◌<◌, ◌⊎◌, inl, refl, ap, arith,
  text_discrete, ℕ_discrete,
}
use dead_nodes_tell_no_tales.Dict.{get?, has, put, remove}
use dead_nodes_tell_no_tales.Address.{inet_ntoa}
use dead_nodes_tell_no_tales.Mesh.Spoof.{spoof_send, get_spoof_sock}
use dead_nodes_tell_no_tales.Mesh.Deliver.{process_and_deliver}
use dead_nodes_tell_no_tales.Wire.{
  pack_data, pack_ack, unpack_data, unpack_ack, from_be, to_be, four_bytes,
}
use dead_nodes_tell_no_tales.Node.{Node, Peer, fresh_peer}
use dead_nodes_tell_no_tales.Node.Peers.{peer_at, update_peer, get_peer, emit}
use dead_nodes_tell_no_tales.Exec.{◌>>=◌}
use dead_nodes_tell_no_tales.Snapshot.Marker.{is_marker}
use dead_nodes_tell_no_tales.Mesh.Spoof.Effects.{handed, tunnels}
use dead_nodes_tell_no_tales.Mesh.Tunnel.{datagram_received}
use dead_nodes_tell_no_tales.Mesh.Tunnel.Reassembly.{stretch}
use dead_nodes_tell_no_tales.Mesh.Send.{send_data, tunnel_send}
use dead_nodes_tell_no_tales.Mesh.Channel.{
  Outgoing, IsFresh, Run, start, send, arrive, acked, send_next,
}
use dead_nodes_tell_no_tales.Mesh.Channel.Receiver.{arrived}
use dead_nodes_tell_no_tales.Mesh.Channel.Fifo.{
  Queue, deliveries, Run-Queue, Run-none_lost, Run-all_delivered,
}
use dead_nodes_tell_no_tales.Tests.Fixtures.{env_b, live, node_b, node_c, data_packet, program}

abbrev state_request : Outgoing
state_request = record {
  src_port = 5000;
  dst_port = 5000;
  target_ip = 10 ∷ 24 ∷ 24 ∷ 11 ∷ [];
  payload = codes "STATE";
}

abbrev requests : ℕ → Outgoing
requests k = state_request

is_plain : (k : ℕ) → is_marker (requests k).payload ≡ false
unfolding is_marker
is_plain k = refl

four_long : (k : ℕ) → length (requests k).target_ip ≡ 4
four_long k = refl

live-IsFresh : IsFresh live
live-IsFresh = record { peers = refl; events = refl; tunnel = refl; idle = refl }

abbrev sender : Node
sender = send_next env_b env_b node_c node_b requests live

abbrev packet : Bytes
packet = data_packet 0 (codes "STATE")

abbrev receiver : Node
receiver = (datagram_received env_b packet node_c live).1

sent : Run env_b env_b node_c node_b requests sender live
sent = send (start live-IsFresh live-IsFresh)

received : Run env_b env_b node_c node_b requests sender receiver
unfolding tunnels program pack_data to_be four_bytes send_data tunnel_send ◌>>=◌ get? update_peer
    emit
received = arrive packet sent (inl refl)

-- The acknowledgement is back.
abbrev done : Node
done = (datagram_received env_b (1 ∷ 0 ∷ 0 ∷ 0 ∷ 0 ∷ 0 ∷ 0 ∷ 0 ∷ 0 ∷ []) node_b sender).1

finished : Run env_b env_b node_c node_b requests done receiver
unfolding tunnels program pack_data to_be four_bytes send_data tunnel_send pack_ack
    datagram_received ◌>>=◌ unpack_data inet_ntoa from_be get_peer has get? emit put text_discrete
    ℕ_discrete process_and_deliver spoof_send get_spoof_sock update_peer
finished = acked (1 ∷ 0 ∷ 0 ∷ 0 ∷ 0 ∷ 0 ∷ 0 ∷ 0 ∷ 0 ∷ []) received (inl refl)

done_peer : peer_at done node_b ≡ record fresh_peer { send_seq = 1 }
unfolding unpack_ack remove program pack_data to_be four_bytes send_data tunnel_send pack_ack
    datagram_received ◌>>=◌ unpack_data inet_ntoa from_be get_peer has get? emit put text_discrete
    ℕ_discrete process_and_deliver spoof_send get_spoof_sock update_peer
done_peer = refl

Run-Queue_example :
    Queue
      (deliveries env_b env_b node_c node_b requests is_plain four_long)
      (peer_at sender node_b).send_seq
      (stretch
        (deliveries env_b env_b node_c node_b requests is_plain four_long)
        (peer_at receiver node_c).recv_seq
        ((peer_at sender node_b).send_seq - (peer_at receiver node_c).recv_seq))
      (handed receiver.events)
Run-Queue_example =
    Run-Queue env_b env_b node_c node_b requests is_plain four_long sender receiver received

Run-none_lost_example :
    (has ℕ_discrete (peer_at done node_b).unacked 0 ≡ true)
    ⊎ (0 < (peer_at receiver node_c).recv_seq)
    ⊎ (get? ℕ_discrete (peer_at receiver node_c).recv_buffer 0 ≡ some (arrived state_request))
Run-none_lost_example =
    Run-none_lost env_b env_b node_c node_b requests is_plain four_long done receiver finished 0
      (omega (arith, ap (λ (p : Peer). p.send_seq) done_peer))

Run-all_delivered_example :
    handed receiver.events
    ≡ stretch
        (deliveries env_b env_b node_c node_b requests is_plain four_long)
        0
        (peer_at done node_b).send_seq
Run-all_delivered_example =
    Run-all_delivered env_b env_b node_c node_b requests is_plain four_long done receiver finished
      (λ k. unfold has in ap (λ (p : Peer). has ℕ_discrete p.unacked k) done_peer)
