-- ===== src/Tests/Runs.antt =====
-- A snapshot on one node: the first marker, a recorded message, the last marker.
use dead_nodes_tell_no_tales.Prelude.{codes}
use dead_nodes_tell_no_tales.Exec.{Exec, ◌>>◌}
use dead_nodes_tell_no_tales.Node.{Node}
use dead_nodes_tell_no_tales.Mesh.Tunnel.{datagram_received}
use dead_nodes_tell_no_tales.Tests.Fixtures.{env_b, live, data_packet, marker, node_a, node_c}

snapshot_run : Exec Node (Unit {0})
unfolding datagram_received
snapshot_run = do
  datagram_received env_b (data_packet 0 marker) node_a
  datagram_received env_b (data_packet 0 (codes "hi")) node_c
  datagram_received env_b (data_packet 1 marker) node_c

after_run : Node
unfolding snapshot_run
after_run = (snapshot_run live).1
