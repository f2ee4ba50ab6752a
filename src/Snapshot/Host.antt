-- ===== src/Snapshot/Host.antt =====
-- What the controller asks the kernel and the breakout receiver: `_self_mesh_ip`,
-- `_trigger_app_snapshot_out_of_band` and `_post_artifact`.
use dead_nodes_tell_no_tales.Prelude.{
  ◌+◌, Text, Bool, false, Option, none, some, List, [], ◌∷◌, ◌++◌, codes,
}
use dead_nodes_tell_no_tales.Config.{Settings, if_set}
use dead_nodes_tell_no_tales.Dict.{or_else}
use dead_nodes_tell_no_tales.Node.{Node, Event, Reply, Artifact, checkpoint_posted, artifact_posted}
use dead_nodes_tell_no_tales.Node.Peers.{emit, update_ctrl}
use dead_nodes_tell_no_tales.Exec.{Exec, pure, gets, modify, ◌>>=◌, ◌>>◌}

module _ (env : Settings) where
  -- The detection: a failure of any kind, an empty membership too, gives no address.
  unfoldable pub detect_self_ip : List Text → Exec Node (Option Text)
  detect_self_ip [] = pure none
  detect_self_ip (first ∷ _) = do
    let found = env.route_source first
    modify (update_ctrl (λ c. record c { self_ip_cache = found }))
    pure found

  unfoldable pub cached_self_ip : Option Text → Exec Node (Option Text)
  unfolding detect_self_ip
  cached_self_ip none = detect_self_ip env.mesh_members
  cached_self_ip (some ip) = pure (some ip)

  unfoldable pub self_ip_unless : Option Text → Exec Node (Option Text)
  unfolding cached_self_ip
  self_ip_unless none = do cache ← gets (λ n. n.snapshot_ctrl.self_ip_cache); cached_self_ip cache
  self_ip_unless (some ip) = pure (some ip)

  unfoldable pub self_mesh_ip : Exec Node (Option Text)
  unfolding self_ip_unless
  self_mesh_ip = self_ip_unless (if_set env.mesh_self)

  -- CHECKPOINT_TARGET, or the sidecar's own host name
  abbrev pub target_id : Text
  target_id = or_else env.hostname (if_set env.checkpoint_target)

-- The request is made, and its answer taken: when there is none, it fails at once.
abbrev pub next_reply : List Reply → Reply
next_reply [] = record { success = false; elapsed = 0 }
next_reply (r ∷ _) = r

abbrev pub later_replies : List Reply → List Reply
later_replies [] = []
later_replies (_ ∷ rest) = rest

unfoldable pub answered : Node → Node
answered n = record n {
  replies = later_replies n.replies;
  clock = n.clock + (next_reply n.replies).elapsed;
}

-- urllib.request.urlopen, within `try`: whether the request succeeded
unfoldable pub request : Event → Exec Node Bool
unfolding answered
request e = do
  modify (emit e)
  reply ← gets (λ n. next_reply n.replies)
  modify answered
  pure reply.success

abbrev pub export_path : Text → Text → Text
export_path snapshot_id target =
    codes "/tmp/snapshot-" ++ (snapshot_id ++ (codes "-" ++ (target ++ codes ".tar.zst")))

-- A failure is logged and swallowed.
unfoldable pub trigger_app_snapshot : Settings → Text → Exec Node (Unit {0})
trigger_app_snapshot env snapshot_id = do
  ok_ ← request (checkpoint_posted (target_id env) (export_path snapshot_id (target_id env)))
  pure tt

unfoldable pub post_artifact : Artifact → Exec Node Bool
post_artifact artifact = request (artifact_posted artifact)
