-- ===== src/Tests/Openings.antt =====
-- The theorems on the opening of a snapshot, at the second node of a mesh of three with a datagram for the
-- third on its intercept socket.
use dead_nodes_tell_no_tales.Prelude.{
  some, [], ◌∷◌, true, inr, ◌≡◌, refl, arith, codes, text_discrete, ℕ_discrete,
}
use dead_nodes_tell_no_tales.Outcome.{ok}
use dead_nodes_tell_no_tales.Codec.{decode}
use dead_nodes_tell_no_tales.Dict.{get?, union, discard}
use dead_nodes_tell_no_tales.Exec.{pure}
use dead_nodes_tell_no_tales.Node.{Node, Message}
use dead_nodes_tell_no_tales.Mesh.Intercept.{drain_intercept}
use dead_nodes_tell_no_tales.Mesh.Intercept.Forwarding.{IsRoutable}
use dead_nodes_tell_no_tales.Mesh.Intercept.Draining.{Drained, Drained-drain_intercept}
use dead_nodes_tell_no_tales.Mesh.Deliver.{process_and_deliver}
use dead_nodes_tell_no_tales.Snapshot.Host.{self_mesh_ip}
use dead_nodes_tell_no_tales.Snapshot.Marker.{
  is_marker, after_colon, other_members, process_message,
}
use dead_nodes_tell_no_tales.Snapshot.Opening.{Opened, process_message-Opened}
use dead_nodes_tell_no_tales.Tests.Fixtures.{env_b, live, marker, node_a, node_b, node_c}
use dead_nodes_tell_no_tales.Tests.Packets.{from_app}

abbrev busy_app : Node
busy_app = record live { pending = from_app ∷ [] }

from_app-IsRoutable : IsRoutable from_app
from_app-IsRoutable = record {
  src_port = omega arith;
  target =
      inr (
        5000,
        10,
        24,
        24,
        12,
        refl,
        omega arith,
        omega arith,
        omega arith,
        omega arith,
        omega arith,
      );
}

Drained-drain_intercept_example :
    Drained env_b 2 busy_app.pending busy_app (drain_intercept env_b busy_app)
unfolding get?
Drained-drain_intercept_example =
    Drained-drain_intercept env_b 2 busy_app (from_app-IsRoutable, tt)
      (record { tunnel = refl; room = λ ip. omega arith })

abbrev marker_from_a : Message
marker_from_a = record {
  seq = 4;
  payload = marker;
  src_port = 0;
  dst_port = 0;
  target_local_ip = node_b;
}

process_message-Opened_example :
    (n' : Node) × (process_message env_b (process_and_deliver env_b) node_a marker_from_a busy_app
      ≡ (ok true, n'))
    × Opened marker
        (after_colon marker)
        node_a
        4
        (other_members (node_a ∷ node_b ∷ node_c ∷ []) (some node_b))
        (node_c ∷ [])
        (ok tt, n')
unfolding is_marker after_colon other_members self_mesh_ip pure discard union text_discrete
    ℕ_discrete decode get?
process_message-Opened_example =
    process_message-Opened env_b (process_and_deliver env_b) (some node_b) node_c [] (codes "s1")
      busy_app marker_from_a node_a refl refl refl refl refl (from_app-IsRoutable, tt)
      (record { tunnel = refl; room = λ ip. omega arith })
