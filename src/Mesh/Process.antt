-- ===== src/Mesh/Process.antt =====
-- The callbacks of the event loop and the start of the process: `MeshProxy._handle_local_intercept`
-- and `MeshProxy.start`.
use dead_nodes_tell_no_tales.Prelude.{
  ℕ, zero, suc, Bytes, Text, Bool, true, false, Option, none, some, List, [], ◌∷◌, ◌++◌, codes,
  length, drop, starts_with, if◌then◌else◌, text_discrete,
}
use dead_nodes_tell_no_tales.Outcome.{Outcome, os_error}
use dead_nodes_tell_no_tales.Config.{Settings}
use dead_nodes_tell_no_tales.Dict.{mem}
use dead_nodes_tell_no_tales.Node.{Node, Intercepted, Artifact, fresh_controller}
use dead_nodes_tell_no_tales.Exec.{Exec, pure, raise, gets, modify, ◌>>=◌, ◌>>◌}
use dead_nodes_tell_no_tales.Mesh.Intercept.{forward_intercepted}
use dead_nodes_tell_no_tales.Mesh.Deliver.{process_and_deliver}
use dead_nodes_tell_no_tales.Snapshot.Host.{self_mesh_ip}
use dead_nodes_tell_no_tales.Snapshot.Marker.{marker_prefix, process_message}
use dead_nodes_tell_no_tales.Snapshot.Restore.{restore_from_artifact}

abbrev pub start_word : Bytes
start_word = codes "__START_SNAPSHOT__"

abbrev pub start_prefix : Bytes
start_prefix = codes "__START_SNAPSHOT__:"

abbrev pub local_host : Text
local_host = codes "127.0.0.1"

-- str(uuid.uuid4()).encode(), from the identifiers that are to come
unfoldable pub take_uuid : List Text → Exec Node Bytes
take_uuid [] = raise os_error
take_uuid (id ∷ rest) = do modify (λ n. record n { uuids = rest }); pure id

unfoldable pub snapshot_id_of : Bytes → Exec Node Bytes
unfolding take_uuid
snapshot_id_of content =
    if starts_with start_prefix content
    then pure (drop (length start_prefix) content)
    else do ids ← gets (λ n. n.uuids); take_uuid ids

module _ (env : Settings) where
  unfoldable pub start_snapshot : Bytes → Exec Node (Unit {0})
  unfolding snapshot_id_of process_and_deliver
  start_snapshot content = do
    snapshot_id ← snapshot_id_of content
    consumed ← process_message env (process_and_deliver env) local_host (record {
      seq = 0;
      payload = marker_prefix ++ snapshot_id;
      src_port = 0;
      dst_port = 0;
      target_local_ip = local_host;
    })
    pure tt

  -- One datagram that `recvmsg` gave.
  unfoldable pub handle_datagram : Intercepted → Exec Node (Unit {0})
  unfolding start_snapshot
  handle_datagram d =
      if starts_with start_word d.content
      then start_snapshot d.content
      else forward_intercepted env d

  -- The loop, up to `BlockingIOError`. Each round takes a datagram off the socket and none puts one
  -- there, so as many rounds as there are datagrams are enough.
  unfoldable pub intercept_loop : ℕ → Exec Node (Unit {0})
  unfolding handle_datagram
  intercept_loop zero = pure tt
  intercept_loop (suc fuel) = do
    waiting ← gets (λ n. n.pending)
    elim waiting [
      | [] ↦ pure tt
      | d ∷ rest ↦ do
        modify (λ n. record n { pending = rest })
        handle_datagram d
        intercept_loop fuel
    ]

  unfoldable pub handle_local_intercept : Exec Node (Unit {0})
  unfolding intercept_loop
  handle_local_intercept = do waiting ← gets (λ n. length n.pending); intercept_loop waiting

  -- self_ip in MESH_MEMBERS
  unfoldable pub is_member : Option Text → Bool
  is_member none = false
  is_member (some ip) = mem text_discrete env.mesh_members ip

  unfoldable pub start : Outcome (List Artifact) → Exec Node (Unit {0})
  unfolding is_member
  start fetched = do
    self_ip ← self_mesh_ip env
    modify (λ n. record n { is_server = is_member self_ip; tunnel_open = true })
    restore_from_artifact env (process_and_deliver env) fetched

-- A sidecar before `start`, and what is outside: the datagrams that wait, the answers that will come.
abbrev pub new_node : Node
new_node = record {
  peers = [];
  spoof_sockets = [];
  tunnel_open = false;
  is_server = false;
  snapshot_ctrl = fresh_controller;
  pending = [];
  clock = 0;
  replies = [];
  uuids = [];
  events = [];
}
