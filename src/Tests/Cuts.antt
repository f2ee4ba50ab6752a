-- ===== src/Tests/Cuts.antt =====
-- The theorem on a channel with a marker, when a message behind the marker, the marker and a message before it
-- come in, the last first.
use dead_nodes_tell_no_tales.Prelude.{
  ℕ, ◌≤◌, ◌<◌, true, false, List, [], ◌∷◌, codes, ◌==◌, if◌then◌else◌, ◌≡◌, ◌≢◌, refl, arith,
  text_discrete, ℕ_discrete,
}
use dead_nodes_tell_no_tales.Outcome.{ok}
use dead_nodes_tell_no_tales.Dict.{get?, has, mem}
use dead_nodes_tell_no_tales.Node.{Buffered}
use dead_nodes_tell_no_tales.Node.Peers.{peer_at}
use dead_nodes_tell_no_tales.Mesh.Spoof.Effects.{handed}
use dead_nodes_tell_no_tales.Mesh.Deliver.{process_and_deliver}
use dead_nodes_tell_no_tales.Mesh.Tunnel.Stream.{receive_all}
use dead_nodes_tell_no_tales.Snapshot.Marker.{is_marker}
use dead_nodes_tell_no_tales.Snapshot.Phases.{Closed}
use dead_nodes_tell_no_tales.Snapshot.Exact.{cut_exact}
use dead_nodes_tell_no_tales.Tests.Fixtures.{env_b, marker, node_a, node_b, node_c}
use dead_nodes_tell_no_tales.Tests.Packets.{receiver, receiver-Awaits}

abbrev stream : ℕ → Buffered
stream k = record {
  payload = if k == 8 then marker else codes "hi";
  src_port = 5000;
  dst_port = 5000;
  local_ip = node_b;
}

stream-plain : (k : ℕ) → k ≢ 8 → is_marker (stream k).payload ≡ false
unfolding is_marker
stream-plain k ne = ground arith

abbrev arrivals : List ℕ
arrivals = 9 ∷ 8 ∷ 7 ∷ []

all_come : (k : ℕ) → 7 ≤ k → k ≤ 8 → mem ℕ_discrete arrivals k ≡ true
unfolding mem
all_come k ge le = ground arith

cut_exact_example :
    (next : ℕ) × ((receive_all (process_and_deliver env_b) node_c stream arrivals receiver).0
      ≡ ok tt)
    × Closed marker node_c node_a stream 7 8 [] [] next
        (receive_all (process_and_deliver env_b) node_c stream arrivals receiver).1
    × ((peer_at
          (receive_all (process_and_deliver env_b) node_c stream arrivals receiver).1
          node_c).recv_seq
        ≡ next)
    × ((k : ℕ) → 7 ≤ k → k < next → mem ℕ_discrete arrivals k ≡ true)
    × (mem ℕ_discrete arrivals next ≡ false)
unfolding get? has handed is_marker text_discrete ℕ_discrete
cut_exact_example =
    cut_exact marker node_c node_a stream 7 8 [] [] env_b stream-plain refl refl arrivals receiver
      receiver-Awaits refl refl refl refl refl (omega arith) all_come
