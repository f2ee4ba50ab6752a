-- ===== src/Mesh/Timer.antt =====
-- One round of `MeshProxy._retransmit_loop`.
pub mod Resent
use dead_nodes_tell_no_tales.Prelude.{ℕ, ◌-◌, Text, ltb, ◌&&◌, if◌then◌else◌, ℕ_discrete}
use dead_nodes_tell_no_tales.Config.{Settings, retry_timeout}
use dead_nodes_tell_no_tales.Dict.{put}
use dead_nodes_tell_no_tales.Node.{Node, Peer, Sent, tunnelled}
use dead_nodes_tell_no_tales.Node.Peers.{update_peer, emit}
use dead_nodes_tell_no_tales.Exec.{Exec, pure, gets, modify, for_each, ◌>>=◌, ◌>>◌}
use dead_nodes_tell_no_tales.Mesh.Deliver.{process_and_deliver}
use dead_nodes_tell_no_tales.Snapshot.Flush.{check_timeout}

-- peer.unacked[seq] = (now, packet)
unfoldable pub restamp : ℕ → ℕ × Sent → Peer → Peer
restamp now (seq, sent) p = record p {
  unacked = put ℕ_discrete p.unacked seq (record sent { sent_at = now });
}

-- A clock that went back gives a negative difference in the source, and 0 here: neither is overdue.
unfoldable pub retransmit : ℕ → Text → ℕ × Sent → Exec Node (Unit {0})
unfolding restamp
retransmit now ip (seq, sent) = do
  opened ← gets (λ n. n.tunnel_open)
  if ltb retry_timeout (now - sent.sent_at) && opened
      then (do
        modify (emit (tunnelled sent.packet ip))
        modify (update_peer ip (restamp now (seq, sent))))
      else pure tt

unfoldable pub retransmit_peer : ℕ → Text × Peer → Exec Node (Unit {0})
unfolding retransmit
retransmit_peer now (ip, p) = for_each p.unacked (retransmit now ip)

unfoldable pub retransmit_round : Settings → Exec Node (Unit {0})
unfolding retransmit_peer
retransmit_round env = do
  now ← gets (λ n. n.clock)
  check_timeout env (process_and_deliver env)
  peers ← gets (λ n. n.peers)
  for_each peers (retransmit_peer now)
