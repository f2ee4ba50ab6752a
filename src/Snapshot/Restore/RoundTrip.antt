-- ===== src/Snapshot/Restore/RoundTrip.antt =====
-- `_build_artifact` on one node, and the load of its result on another.
use dead_nodes_tell_no_tales.Prelude.{Text, some, List, [], ◌≡◌, arith, text_discrete}
use dead_nodes_tell_no_tales.Outcome.{ok}
use dead_nodes_tell_no_tales.Config.{Settings}
use dead_nodes_tell_no_tales.Dict.{get?, or_else}
use dead_nodes_tell_no_tales.Sorting.{sort_by, text_le}
use dead_nodes_tell_no_tales.Node.{Node, Controller, Artifact, Status}
use dead_nodes_tell_no_tales.Exec.{for_each, ◌>>=◌}
use dead_nodes_tell_no_tales.Snapshot.Artifact.{recorded_peers, build_artifact}
use dead_nodes_tell_no_tales.Snapshot.Flush.{Deliver, seq_le, deliver_message}
use dead_nodes_tell_no_tales.Snapshot.Restore.{seed_peer, load}
use dead_nodes_tell_no_tales.Snapshot.Restore.Channels.{HasBytes, replay_channels-map}
use dead_nodes_tell_no_tales.Snapshot.Restore.Seeding.{
  artifacts_of, Seeded, Seeded-peers, Restored, Restored-Seeded,
}

-- The peers of the artifact of a controller, in order.
abbrev pub artifact_peers : Controller → List Text
artifact_peers c = sort_by text_le (recorded_peers c)

peers-build_artifact :
    (env : Settings) (status : Status) (c : Controller) (a : Artifact)
    → build_artifact env status c ≡ ok a
    → a.peers ≡ artifacts_of c (artifact_peers c)
unfolding build_artifact
peers-build_artifact env status c a e = ground (arith, e)

-- A node that loads the artifact of a controller, of either status, whose recorded payloads are
-- bytes, first sets each recorded coordinate of each recorded peer and changes no other peer, nor
-- the controller or the events, and then delivers exactly the recorded messages: peer by peer, in
-- the order of the sequence numbers, with the payload, ports and address that they were recorded with.
pub load-build_artifact :
    (env : Settings) (status : Status) (c : Controller) (a : Artifact) (deliver : Deliver)
    (n : Node)
    → build_artifact env status c ≡ ok a
    → ((ip : Text) → HasBytes (or_else [] (get? text_discrete c.channel_states ip)))
    → (s : Node) × Restored c (artifact_peers c) n s
      × (load deliver (some a) n
          ≡ for_each
              (artifact_peers c)
              (λ ip.
                for_each
                  (sort_by seq_le (or_else [] (get? text_discrete c.channel_states ip)))
                  (deliver_message deliver ip))
              s)
unfolding load ◌>>=◌
load-build_artifact env status c a deliver n built bytes = (s, restored, run)
  where
    peers : List Text
    peers = artifact_peers c

    seeded : Seeded c peers n (for_each (artifacts_of c peers) seed_peer n)
    seeded = Seeded-peers c peers n

    s : Node
    s = (for_each (artifacts_of c peers) seed_peer n).1

    restored : Restored c peers n s
    restored = Restored-Seeded c peers n _ seeded

    run :
        load deliver (some a) n
        ≡ for_each peers
            (λ ip.
              for_each
                (sort_by seq_le (or_else [] (get? text_discrete c.channel_states ip)))
                (deliver_message deliver ip))
            s
    run = rw (
      peers-build_artifact env status c a built,
      seeded.returned,
      replay_channels-map deliver c bytes peers,
    )
