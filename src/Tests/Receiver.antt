-- ===== src/Tests/Receiver.antt =====
-- The theorems on the breakout receiver, at the artifacts of two snapshots.
use dead_nodes_tell_no_tales.Prelude.{
  Text, false, [], ◌∷◌, codes, starts_with, text_discrete, ℕ_discrete, ◌≡◌, refl,
}
use dead_nodes_tell_no_tales.Outcome.{ok}
use dead_nodes_tell_no_tales.Dict.{get?, put}
use dead_nodes_tell_no_tales.Breakout.Fields.{string, other, is_container_id}
use dead_nodes_tell_no_tales.Breakout.Commands.{Globals}
use dead_nodes_tell_no_tales.Breakout.Requests.{Object}
use dead_nodes_tell_no_tales.Breakout.Http.{Body, object, Host, success, do_get, do_post}
use dead_nodes_tell_no_tales.Breakout.Archive.{
  Served, posted-Served, longer_id-Served, post-replaces,
}
use dead_nodes_tell_no_tales.Breakout.Safety.{PostEffect, do_post-PostEffect}
use dead_nodes_tell_no_tales.Breakout.Quoting.{IsLiteral, IsLiteral-is_container_id}

abbrev globals : Globals
globals = record {
  mesh_subnet = codes "10.24.24.0/24";
  mesh_base = codes "10.24.24";
  breakout_url = codes "http://10.99.0.1:8989";
}

abbrev host : Host
host = record { files = []; commands = []; completions = [] }

abbrev posted_object : Text → Text → Object
posted_object id node =
    (codes "snapshot_id", string id) ∷ (codes "node", string node) ∷ (codes "peers", other 0) ∷ []

posted-Served_example : Served (codes "s1") (posted_object (codes "s1") (codes "counter-b")) (
    do_get
      (codes "/snapshot/s1")
      (do_post globals
        (codes "/snapshot_state")
        (object (posted_object (codes "s1") (codes "counter-b")))
        host).1)
unfolding get? text_discrete ℕ_discrete is_container_id
posted-Served_example =
    posted-Served globals (codes "s1") (codes "counter-b")
      (posted_object (codes "s1") (codes "counter-b")) host refl refl refl refl

longer_id-Served_example :
    Served (codes "s1") (posted_object (codes "s1-old") (codes "counter-b")) (
      do_get
        (codes "/snapshot/s1")
        (do_post globals
          (codes "/snapshot_state")
          (object (posted_object (codes "s1-old") (codes "counter-b")))
          host).1)
unfolding get? text_discrete ℕ_discrete is_container_id
longer_id-Served_example =
    longer_id-Served globals (codes "s1") (codes "old") (codes "counter-b")
      (posted_object (codes "s1-old") (codes "counter-b")) host refl refl refl refl refl refl

abbrev with_file : Object → Host
with_file o = record host {
  files = put text_discrete [] (codes "/tmp/snapshot-s1-old-counter-b.json") o;
}

post-replaces_example :
    (do_post globals
        (codes "/snapshot_state")
        (object (posted_object (codes "s1-old") (codes "counter-b")))
        host
      ≡ (
        ok (record { status = 200; content = success }),
        with_file (posted_object (codes "s1-old") (codes "counter-b")),
      ))
    × (do_post globals
          (codes "/snapshot_state")
          (object (posted_object (codes "s1") (codes "old-counter-b")))
          (do_post globals
            (codes "/snapshot_state")
            (object (posted_object (codes "s1-old") (codes "counter-b")))
            host).1
        ≡ (
          ok (record { status = 200; content = success }),
          with_file (posted_object (codes "s1") (codes "old-counter-b")),
        ))
unfolding get? text_discrete ℕ_discrete is_container_id
post-replaces_example =
    post-replaces globals (codes "s1") (codes "old") (codes "counter-b")
      (posted_object (codes "s1-old") (codes "counter-b"))
      (posted_object (codes "s1") (codes "old-counter-b")) host refl refl refl refl refl refl refl
      refl

abbrev stop_body : Body
stop_body = object ((codes "container_id", string (codes "counter-b")) ∷ [])

do_post-PostEffect_example :
    PostEffect globals
      (codes "/stop")
      stop_body
      host
      (do_post globals (codes "/stop") stop_body host)
do_post-PostEffect_example = do_post-PostEffect globals (codes "/stop") stop_body host

IsLiteral-is_container_id_example :
    IsLiteral (codes "s1") × (starts_with (codes "-") (codes "s1") ≡ false)
unfolding is_container_id
IsLiteral-is_container_id_example = IsLiteral-is_container_id (codes "s1") refl
