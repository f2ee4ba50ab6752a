-- ===== src/Snapshot/Wedge.antt =====
-- A marker whose identifier is no UTF-8: `marker_id.decode()` raises between the start of the
-- recording and the deadline.
use dead_nodes_tell_no_tales.Prelude.{
  ℕ, Bytes, Text, true, false, Option, none, some, List, [], ◌∷◌, ◌++◌, ◌≡◌, ◌≢◌, refl, ap, ◌∙◌,
  arith,
}
use dead_nodes_tell_no_tales.Outcome.{Error, Outcome, ok, raised}
use dead_nodes_tell_no_tales.Config.{Settings, if_set}
use dead_nodes_tell_no_tales.Codec.{decode}
use dead_nodes_tell_no_tales.Node.{Node, Message, Controller}
use dead_nodes_tell_no_tales.Node.Peers.{update_ctrl}
use dead_nodes_tell_no_tales.Exec.{pure, ◌>>=◌}
use dead_nodes_tell_no_tales.Mesh.Intercept.{drain_from, drain_intercept}
use dead_nodes_tell_no_tales.Snapshot.Host.{
  detect_self_ip, cached_self_ip, self_ip_unless, self_mesh_ip,
}
use dead_nodes_tell_no_tales.Snapshot.Flush.{Deliver, is_overdue, check_timeout}
use dead_nodes_tell_no_tales.Snapshot.Marker.{
  marker_prefix, is_marker, after_colon, start_recording, first_marker, later_marker, take_cut,
  record_others, other_members, is_current, on_marker, process_message,
}

-- The controller but for the cached address.
abbrev pub without_cache : Controller → Controller
without_cache c = record c { self_ip_cache = none }

-- The own address is found or not, without an exception; at most the cache is new.
pub record Found (n : Node) (r : Outcome (Option Text) × Node) : Type 0 where
  pub ip : Option Text
  pub returned : r.0 ≡ ok ip
  pub ctrl : without_cache r.1.snapshot_ctrl ≡ without_cache n.snapshot_ctrl
  pub rest : record r.1 { snapshot_ctrl = n.snapshot_ctrl } ≡ n

module _ (env : Settings) where
  Found-detect : (members : List Text) (n : Node) → Found n (detect_self_ip env members n)
  unfolding detect_self_ip update_ctrl pure ◌>>=◌
  Found-detect [] n = record { ip = none; returned = refl; ctrl = refl; rest = refl }
  Found-detect (first ∷ _) n = record {
    ip = env.route_source first;
    returned = refl;
    ctrl = refl;
    rest = refl;
  }

  Found-cached : (cache : Option Text) (n : Node) → Found n (cached_self_ip env cache n)
  unfolding cached_self_ip pure
  Found-cached none n = Found-detect env.mesh_members n
  Found-cached (some ip) n = record { ip = some ip; returned = refl; ctrl = refl; rest = refl }

  Found-unless : (self : Option Text) (n : Node) → Found n (self_ip_unless env self n)
  unfolding self_ip_unless pure ◌>>=◌
  Found-unless none n = Found-cached n.snapshot_ctrl.self_ip_cache n
  Found-unless (some ip) n = record { ip = some ip; returned = refl; ctrl = refl; rest = refl }

  pub Found-self_mesh_ip : (n : Node) → Found n (self_mesh_ip env n)
  unfolding self_mesh_ip
  Found-self_mesh_ip n = Found-unless (if_set env.mesh_self) n

abbrev pub marker_message : ℕ → Bytes → Message
marker_message seq marker_id = record {
  seq = seq;
  payload = marker_prefix ++ marker_id;
  src_port = 0;
  dst_port = 0;
  target_local_ip = [];
}

-- The part of a snapshot's state that nothing but a marker of its own can end.
pub record IsWedged (marker_id : Bytes) (n : Node) : Type 0 where
  pub busy : n.snapshot_ctrl.is_snapshotting ≡ true
  pub identifier : n.snapshot_ctrl.current_snapshot_id ≡ some marker_id
  pub no_deadline : n.snapshot_ctrl.snapshot_deadline ≡ none

module _ (env : Settings) (below : Deliver) where
  -- The time check never ends such a snapshot, at whatever time it runs.
  check_timeout-wedged :
      (marker_id : Bytes) (n : Node) → IsWedged marker_id n → check_timeout env below n ≡ (ok tt, n)
  unfolding check_timeout is_overdue pure ◌>>=◌
  check_timeout-wedged marker_id n w = ground (arith, w)

  -- Nor does a marker of another snapshot, whether or not its identifier decodes.
  later_marker-wedged :
      (marker_id other : Bytes) (ip : Text) (seq : ℕ) (n : Node)
      → IsWedged marker_id n
      → other ≢ marker_id
      → (later_marker env below ip seq other n).1 ≡ n
  unfolding later_marker is_current pure ◌>>=◌
  later_marker-wedged marker_id other ip seq n w ne = ground (arith, w, ne)

  other_marker-wedged :
      (marker_id other : Bytes) (ip : Text) (seq : ℕ) (n : Node)
      → IsWedged marker_id n
      → other ≢ marker_id
      → (process_message env below ip (marker_message seq other) n).1 ≡ n
  unfolding process_message on_marker is_marker after_colon pure ◌>>=◌
  other_marker-wedged marker_id other ip seq n w ne =
      ground (arith, w, later_marker-wedged marker_id other ip seq n w ne)

  drain_intercept-quiet : (n : Node) → n.pending ≡ [] → drain_intercept env n ≡ (ok tt, n)
  unfolding drain_intercept drain_from pure ◌>>=◌
  drain_intercept-quiet n quiet = ground (arith, quiet)

  take_cut-undecodable :
      (marker_id payload : Bytes) (e : Error) (members : List Text) (ip : Text) (seq : ℕ) (n : Node)
      → decode marker_id ≡ raised e
      → n.pending ≡ []
      → take_cut env below members ip seq payload marker_id n
        ≡ (raised e, update_ctrl (record_others members ip) n)
  unfolding take_cut record_others pure update_ctrl ◌>>=◌
  take_cut-undecodable marker_id payload e members ip seq n bad quiet =
      rw (drain_intercept-quiet (update_ctrl (record_others members ip) n) quiet, bad)

  first_marker-undecodable :
      (marker_id payload : Bytes) (e : Error) (ip : Text) (seq : ℕ) (n : Node)
      → decode marker_id ≡ raised e
      → n.snapshot_ctrl.snapshot_deadline ≡ none
      → n.pending ≡ []
      → ((first_marker env below ip seq payload marker_id n).0 ≡ raised e)
        × IsWedged marker_id (first_marker env below ip seq payload marker_id n).1
  unfolding first_marker start_recording update_ctrl record_others pure ◌>>=◌
  first_marker-undecodable marker_id payload e ip seq n bad no_deadline quiet =
      let started = update_ctrl (start_recording marker_id) n in
      let f = Found-self_mesh_ip env started in
      rw f.returned (
        rw
          (take_cut-undecodable marker_id payload e (other_members env.mesh_members f.ip) ip seq
            (self_mesh_ip env started).1 bad (ap (λ (k : Node). k.pending) f.rest ∙ quiet))
          (
            refl,
            record {
              busy = ap (λ (c : Controller). c.is_snapshotting) f.ctrl;
              identifier = ap (λ (c : Controller). c.current_snapshot_id) f.ctrl;
              no_deadline = ap (λ (c : Controller). c.snapshot_deadline) f.ctrl ∙ no_deadline;
            },
          ))

-- A marker whose identifier does not decode, to a node that takes no snapshot and has no datagram of
-- its application waiting: the exception leaves `process_message`, and the node stays in a snapshot
-- without a deadline. The time check then changes nothing at whatever time it runs, and a marker of
-- any other snapshot changes nothing either.
pub undecodable_wedges :
    (env : Settings) (below : Deliver) (marker_id : Bytes) (e : Error) (ip : Text) (seq : ℕ)
    (n : Node)
    → decode marker_id ≡ raised e
    → n.snapshot_ctrl.is_snapshotting ≡ false
    → n.snapshot_ctrl.snapshot_deadline ≡ none
    → n.pending ≡ []
    → (n' : Node) × (process_message env below ip (marker_message seq marker_id) n ≡ (raised e, n'))
      × IsWedged marker_id n'
      × ((now : ℕ)
          → check_timeout env below (record n' { clock = now })
            ≡ (ok tt, record n' { clock = now }))
      × ((other : Bytes) (from : Text) (k : ℕ)
          → other ≢ marker_id
          → (process_message env below from (marker_message k other) n').1 ≡ n')
unfolding process_message on_marker is_marker after_colon pure ◌>>=◌
undecodable_wedges env below marker_id e ip seq n bad idle no_deadline quiet = (
  n',
  ground (arith, idle, stuck.0),
  stuck.1,
  (λ now.
      check_timeout-wedged env below marker_id (record n' { clock = now })
        (record {
          busy = stuck.1.busy;
          identifier = stuck.1.identifier;
          no_deadline = stuck.1.no_deadline;
        })),
  λ other from k ne. other_marker-wedged env below marker_id other from k n' stuck.1 ne,
)
  where
    n' : Node
    n' = (first_marker env below ip seq (marker_prefix ++ marker_id) marker_id n).1

    stuck :
        ((first_marker env below ip seq (marker_prefix ++ marker_id) marker_id n).0 ≡ raised e)
        × IsWedged marker_id n'
    stuck =
        first_marker-undecodable env below marker_id (marker_prefix ++ marker_id) e ip seq n bad
          no_deadline quiet
