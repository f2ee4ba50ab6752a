-- ===== src/Snapshot/Ending.antt =====
-- The two ways in which a snapshot ends: all markers are back, or the deadline has passed.
use mathlib.Core.List.{append-nil}
use dead_nodes_tell_no_tales.Prelude.{
  ℕ, suc, ◌<◌, ◌≤◌, Text, true, Option, some, [], ◌∷◌, ◌++◌, ◌≡◌, refl, ap, ◌∙◌, arith, map,
}
use dead_nodes_tell_no_tales.Outcome.{Outcome, ok}
use dead_nodes_tell_no_tales.Config.{Settings}
use dead_nodes_tell_no_tales.Sorting.{sort_by, text_le}
use dead_nodes_tell_no_tales.Node.{
  Node, Controller, Artifact, Status, aborted, artifact_posted, fresh_controller,
}
use dead_nodes_tell_no_tales.Node.Peers.{emit}
use dead_nodes_tell_no_tales.Exec.{◌>>=◌}
use dead_nodes_tell_no_tales.Snapshot.Host.{answered, request, post_artifact, target_id}
use dead_nodes_tell_no_tales.Snapshot.Artifact.{
  build_artifact, decode_id, recorded_peers, peer_artifact,
}
use dead_nodes_tell_no_tales.Snapshot.Flush.{
  flush_and_reset, end_snapshot, abort_snapshot, is_overdue, check_timeout,
}
use dead_nodes_tell_no_tales.Snapshot.Replay.{IsClean, flush-exactly_once, flushed_deliveries}
use dead_nodes_tell_no_tales.Mesh.Spoof.Effects.{
  handed, delivery_of, posted, handed-append, posted-append,
}
use dead_nodes_tell_no_tales.Mesh.Deliver.{deliver_within}

-- From `n` one artifact is posted, the recorded messages are delivered, and the controller is idle.
pub record Ended (n : Node) (a : Artifact) (r : Outcome (Unit {0}) × Node) : Type 0 where
  pub returned : r.0 ≡ ok tt
  pub ctrl :
      r.1.snapshot_ctrl ≡ record fresh_controller { self_ip_cache = n.snapshot_ctrl.self_ip_cache }
  pub peers : r.1.peers ≡ n.peers
  pub posted_one : posted r.1.events ≡ posted n.events ++ a ∷ []
  pub handed_all :
      handed r.1.events ≡ handed n.events ++ flushed_deliveries n.snapshot_ctrl.channel_states

-- The state after the artifact was posted, whether or not the receiver stored it.
after_post : Artifact → Node → Node
after_post a n = answered (emit (artifact_posted a) n)

posted-after_post :
    (a : Artifact) (n : Node) → posted (after_post a n).events ≡ posted n.events ++ a ∷ []
unfolding after_post answered emit posted
posted-after_post a n = posted-append n.events (artifact_posted a ∷ [])

handed-after_post : (a : Artifact) (n : Node) → handed (after_post a n).events ≡ handed n.events
unfolding after_post answered emit handed delivery_of
handed-after_post a n =
    handed-append n.events (artifact_posted a ∷ []) ∙ append-nil (handed n.events)

ctrl-after_post : (a : Artifact) (n : Node) → (after_post a n).snapshot_ctrl ≡ n.snapshot_ctrl
unfolding after_post answered emit
ctrl-after_post a n = refl

peers-after_post : (a : Artifact) (n : Node) → (after_post a n).peers ≡ n.peers
unfolding after_post answered emit
peers-after_post a n = refl

module _ (env : Settings) (depth : ℕ) (n : Node)
    (clean : IsClean n.snapshot_ctrl.channel_states) where
  end_snapshot_run :
      (status : Status) (a : Artifact)
      → build_artifact env status n.snapshot_ctrl ≡ ok a
      → end_snapshot env (deliver_within env (suc depth)) status n
        ≡ flush_and_reset (deliver_within env (suc depth)) (after_post a n)
  unfolding end_snapshot post_artifact request after_post ◌>>=◌
  end_snapshot_run status a e = rw e

  -- A snapshot whose identifier decodes ends with one artifact, of the given status and the state
  -- recorded so far, and with every recorded message delivered.
  pub Ended-end_snapshot :
      (status : Status) (a : Artifact)
      → build_artifact env status n.snapshot_ctrl ≡ ok a
      → Ended n a (end_snapshot env (deliver_within env (suc depth)) status n)
  Ended-end_snapshot status a e = rw (end_snapshot_run status a e) (
      let f = flush-exactly_once env depth (after_post a n) (rw (ctrl-after_post a n) clean) in
      record {
        returned = f.returned;
        ctrl =
            f.ctrl
            ∙ ap (λ (c : Controller). record fresh_controller { self_ip_cache = c.self_ip_cache })
                (ctrl-after_post a n);
        peers = f.same.peers ∙ peers-after_post a n;
        posted_one = f.posted_same ∙ posted-after_post a n;
        handed_all = f.handed_all ∙ rw (handed-after_post a n, ctrl-after_post a n);
      })

  -- When the identifier of the running snapshot decodes, an overdue snapshot is aborted by the next
  -- check, however the other nodes behave: one artifact of status `aborted` is posted, with the
  -- decoded identifier, every recorded message is delivered, and the node is idle again.
  pub timeout-Ended :
      (deadline : ℕ) (id : Option Text)
      → n.snapshot_ctrl.is_snapshotting ≡ true
      → n.snapshot_ctrl.snapshot_deadline ≡ some deadline
      → deadline < n.clock
      → decode_id n.snapshot_ctrl.current_snapshot_id ≡ ok id
      → (a : Artifact) × (build_artifact env aborted n.snapshot_ctrl ≡ ok a)
        × (a.status ≡ aborted)
        × (a.snapshot_id ≡ id)
        × Ended n a (check_timeout env (deliver_within env (suc depth)) n)
  timeout-Ended deadline id busy due late decoded =
      (a, built, refl, refl, rw overdue (Ended-end_snapshot aborted a built))
    where
      a : Artifact
      a = record {
        snapshot_id = id;
        node = target_id env;
        status = aborted;
        peers =
            map (λ peer. (peer, peer_artifact n.snapshot_ctrl peer))
              (sort_by text_le (recorded_peers n.snapshot_ctrl));
      }

      built : build_artifact env aborted n.snapshot_ctrl ≡ ok a
      built = unfold build_artifact in rw decoded

      overdue :
          check_timeout env (deliver_within env (suc depth)) n
          ≡ end_snapshot env (deliver_within env (suc depth)) aborted n
      overdue = unfold check_timeout is_overdue abort_snapshot ◌>>=◌ in ground (arith, busy, due)

  -- Up to its deadline a snapshot goes on: the check changes nothing.
  pub check_timeout-early :
      (deadline : ℕ)
      → n.snapshot_ctrl.snapshot_deadline ≡ some deadline
      → n.clock ≤ deadline
      → check_timeout env (deliver_within env (suc depth)) n ≡ (ok tt, n)
  unfolding check_timeout is_overdue ◌>>=◌
  check_timeout-early deadline due early = ground (arith, due)
