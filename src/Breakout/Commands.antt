-- ===== src/Breakout/Commands.antt =====
-- The handlers of the routes, by the command line that each hands to `run`.
use dead_nodes_tell_no_tales.Prelude.{Text, List, [], ◌∷◌, ◌++◌, map, codes, take}
use dead_nodes_tell_no_tales.Outcome.{Outcome, ok, raised, type_error}
use dead_nodes_tell_no_tales.Config.{split}
use dead_nodes_tell_no_tales.Dict.{Dict}

pub data Handler : Type 0 where
  checkpoint restore stop snapshot_trigger run_sidecar : Handler

-- The globals that `main` fills in.
pub record Globals : Type 0 where
  pub mesh_subnet : Text
  pub mesh_base : Text
  pub breakout_url : Text

-- ".".join(parts)
unfoldable pub join_dots : List Text → Text
join_dots [] = []
join_dots (part ∷ []) = part
join_dots (part ∷ next ∷ parts) = part ++ b'.' ∷ join_dots (next ∷ parts)

-- s.split("/")[0]
unfoldable pub first_part : List Text → Text
first_part [] = []
first_part (part ∷ _) = part

-- ".".join(MESH_SUBNET.split("/")[0].split(".")[:3])
unfoldable pub mesh_base_of : Text → Text
unfolding join_dots first_part split
mesh_base_of subnet = join_dots (take 3 (split b'.' (first_part (split b'/' subnet))))

-- The globals for the host, the port in decimal and the subnet of the command line.
unfoldable pub globals_of : Text → Text → Text → Globals
unfolding mesh_base_of
globals_of host port subnet = record {
  mesh_subnet = subnet;
  mesh_base = mesh_base_of subnet;
  breakout_url = codes "http://" ++ (host ++ b':' ∷ port);
}

abbrev pub newline : Text
newline = 10 ∷ []

-- The program that `snapshot_trigger` runs in the container.
unfoldable pub snippet : Globals → Text → Text
snippet g snapshot_id =
    codes "import socket"
    ++ (newline
        ++ (codes "s = socket.socket(socket.AF_INET, socket.SOCK_DGRAM)"
            ++ (newline
                ++ (codes "s.sendto(b'__START_SNAPSHOT__:"
                    ++ (snapshot_id
                        ++ (codes "', ('"
                            ++ (g.mesh_base
                                ++ (codes ".250', 9999))"
                                    ++ (newline ++ (codes "s.close()" ++ newline))))))))))

-- The command line of a handler; it is called with as many arguments as it has fields.
unfoldable pub command : Globals → Handler → List Text → Outcome (List Text)
unfolding snippet
command g checkpoint (target_id ∷ export_path ∷ []) = ok (
    map codes ("sudo" ∷ "podman" ∷ "container" ∷ "checkpoint" ∷ [])
    ++ target_id
      ∷ codes "-e"
      ∷ export_path
      ∷ map codes ("--tcp-established" ∷ "--leave-running" ∷ []))
command g restore (target_path ∷ []) = ok (
    map codes ("sudo" ∷ "podman" ∷ "container" ∷ "restore" ∷ "-i" ∷ [])
    ++ target_path ∷ codes "--tcp-established" ∷ [])
command g stop (container_id ∷ []) =
    ok (map codes ("sudo" ∷ "podman" ∷ "rm" ∷ "-f" ∷ []) ++ container_id ∷ [])
command g snapshot_trigger (node ∷ snapshot_id ∷ []) = ok (
    map codes ("sudo" ∷ "podman" ∷ "exec" ∷ [])
    ++ (codes "counter-" ++ node) ∷ codes "python3" ∷ codes "-c" ∷ snippet g snapshot_id ∷ [])
command g run_sidecar (node ∷ snapshot_id ∷ []) = ok (
    map codes ("sudo" ∷ "podman" ∷ "run" ∷ "-d" ∷ "--replace" ∷ "--name" ∷ [])
    ++ (codes "sidecar-" ++ node)
      ∷ codes "--network"
      ∷ (codes "container:counter-" ++ node)
      ∷ (map codes ("--cap-add" ∷ "NET_ADMIN" ∷ "--sysctl" ∷ "net.ipv4.ip_nonlocal_bind=1" ∷ [])
          ++ codes "-e"
            ∷ (codes "MESH_SUBNET=" ++ g.mesh_subnet)
            ∷ codes "-e"
            ∷ (codes "BREAKOUT_URL=" ++ g.breakout_url)
            ∷ codes "-e"
            ∷ (codes "CHECKPOINT_TARGET=counter-" ++ node)
            ∷ codes "-e"
            ∷ (codes "RESTORE_SNAPSHOT_ID=" ++ snapshot_id)
            ∷ codes "sidecar"
            ∷ []))
command g _ _ = raised type_error

abbrev pub routes : Dict Text (Handler × List Text)
routes =
    (codes "/checkpoint", (checkpoint, codes "target_id" ∷ codes "export_path" ∷ []))
    ∷ (codes "/restore", (restore, codes "target_path" ∷ []))
    ∷ (codes "/stop", (stop, codes "container_id" ∷ []))
    ∷ (codes "/snapshot_trigger", (snapshot_trigger, codes "node" ∷ codes "snapshot_id" ∷ []))
    ∷ (codes "/run_sidecar", (run_sidecar, codes "node" ∷ codes "snapshot_id" ∷ []))
    ∷ []
