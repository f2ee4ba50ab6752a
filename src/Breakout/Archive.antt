-- ===== src/Breakout/Archive.antt =====
-- A post of an artifact, and the request for a snapshot that follows it.
use mathlib.Core.List.{append_assoc}
use dead_nodes_tell_no_tales.Prelude.{
  Text, true, ◌&&◌, some, List, [], ◌∷◌, ◌++◌, codes, text_discrete, ℕ_discrete, if_pos, ◌≡◌, refl,
  ap, ◌∙◌, arith,
}
use dead_nodes_tell_no_tales.Outcome.{Outcome, ok}
use dead_nodes_tell_no_tales.Dict.{get?, put}
use dead_nodes_tell_no_tales.Dict.Laws.{get?-put, put-put}
use dead_nodes_tell_no_tales.Exec.{Exec, ◌>>=◌}
use dead_nodes_tell_no_tales.Breakout.Fields.{string, is_id_char, all_id_chars, is_container_id}
use dead_nodes_tell_no_tales.Breakout.Commands.{Globals}
use dead_nodes_tell_no_tales.Breakout.Requests.{Object, artifact_path, glob_matches, valid_ids}
use dead_nodes_tell_no_tales.Breakout.Http.{
  object, Host, Reply, success, artifacts, snapshot_prefix, serve_snapshot, do_get, store,
  post_state, do_post,
}
use dead_nodes_tell_no_tales.Breakout.Globs.{
  glob_matches-artifact_path, all_id_chars-is_container_id, serve_snapshot-among,
}

do_get-snapshot : (id : Text) (h : Host) → do_get (snapshot_prefix ++ id) h ≡ serve_snapshot id h
unfolding do_get text_discrete ℕ_discrete
do_get-snapshot id h = refl

-- What a host answers to a request for a snapshot, where an artifact is among those that it serves.
pub record Served (id : Text) (o : Object) (r : Outcome Reply × Host) : Type 0 where
  pub before : List Object
  pub after : List Object
  pub answer : r.0 ≡ ok (record { status = 200; content = artifacts id (before ++ o ∷ after) })

-- The host after an artifact is stored.
abbrev stored : Text → Text → Object → Host → Host
stored id node o h = record h { files = put text_discrete h.files (artifact_path id node) o }

do_post_state_run :
    (g : Globals) (id node : Text) (o : Object) (h : Host)
    → get? text_discrete o (codes "snapshot_id") ≡ some (string id)
    → get? text_discrete o (codes "node") ≡ some (string node)
    → is_container_id id ≡ true
    → is_container_id node ≡ true
    → do_post g (codes "/snapshot_state") (object o) h
      ≡ (ok (record { status = 200; content = success }), stored id node o h)
unfolding do_post post_state valid_ids store ◌>>=◌
do_post_state_run g id node o h has_id has_node valid_id valid_node =
    ap (λ (f : Exec Host Reply). f h)
      (if_pos (text_discrete (codes "/snapshot_state") (codes "/snapshot_state")) refl _ _)
    ∙ rw (has_id, has_node, valid_id, valid_node) refl

posted-glob :
    (g : Globals) (id node wanted : Text) (o : Object) (h : Host)
    → get? text_discrete o (codes "snapshot_id") ≡ some (string id)
    → get? text_discrete o (codes "node") ≡ some (string node)
    → is_container_id id ≡ true
    → is_container_id node ≡ true
    → is_container_id wanted ≡ true
    → glob_matches wanted (artifact_path id node) ≡ true
    → Served wanted o
        (do_get (snapshot_prefix ++ wanted) (do_post g (codes "/snapshot_state") (object o) h).1)
posted-glob g id node wanted o h has_id has_node valid_id valid_node valid_wanted matches =
    rw
      (
        do_post_state_run g id node o h has_id has_node valid_id valid_node,
        do_get-snapshot wanted (stored id node o h),
      )
      (let (before, after, e) =
          serve_snapshot-among wanted (artifact_path id node) o (stored id node o h) valid_wanted
            matches
            (get?-put text_discrete h.files (artifact_path id node) o (artifact_path id node)
              ∙ if_pos (text_discrete (artifact_path id node) (artifact_path id node)) refl _ _) in
        record { before = before; after = after; answer = ap (λ r. r.0) e })

-- An artifact whose two identifiers are file names, once posted, stands in the list that answers the
-- request for its snapshot, whatever files the host had before.
pub posted-Served :
    (g : Globals) (id node : Text) (o : Object) (h : Host)
    → get? text_discrete o (codes "snapshot_id") ≡ some (string id)
    → get? text_discrete o (codes "node") ≡ some (string node)
    → is_container_id id ≡ true
    → is_container_id node ≡ true
    → Served id o
        (do_get (snapshot_prefix ++ id) (do_post g (codes "/snapshot_state") (object o) h).1)
posted-Served g id node o h has_id has_node valid_id valid_node =
    posted-glob g id node id o h has_id has_node valid_id valid_node valid_id
      (glob_matches-artifact_path id node (all_id_chars-is_container_id node valid_node))

-- The file name of an artifact does not tell where the identifier of the snapshot ends.
path_clash :
    (id more node : Text)
    → artifact_path (id ++ b'-' ∷ more) node ≡ artifact_path id (more ++ b'-' ∷ node)
path_clash id more node = simp append_assoc

all_id_chars-append : (s t : Text) → all_id_chars (s ++ t) ≡ (all_id_chars s && all_id_chars t)
unfolding all_id_chars
all_id_chars-append [] t = refl
all_id_chars-append (c ∷ s) t = ground (arith, all_id_chars-append s t)

all_id_chars-join :
    (more node : Text)
    → all_id_chars more ≡ true
    → is_container_id node ≡ true
    → all_id_chars (more ++ b'-' ∷ node) ≡ true
unfolding all_id_chars is_id_char
all_id_chars-join more node h valid =
    all_id_chars-append more (b'-' ∷ node) ∙ rw (h, all_id_chars-is_container_id node valid) refl

-- The request for a snapshot is also answered with the artifacts of every other snapshot whose
-- identifier goes on with a dash behind its own.
pub longer_id-Served :
    (g : Globals) (id more node : Text) (o : Object) (h : Host)
    → get? text_discrete o (codes "snapshot_id") ≡ some (string (id ++ b'-' ∷ more))
    → get? text_discrete o (codes "node") ≡ some (string node)
    → is_container_id id ≡ true
    → is_container_id (id ++ b'-' ∷ more) ≡ true
    → all_id_chars more ≡ true
    → is_container_id node ≡ true
    → Served id o
        (do_get (snapshot_prefix ++ id) (do_post g (codes "/snapshot_state") (object o) h).1)
longer_id-Served g id more node o h has_id has_node valid_id valid_longer chars valid_node =
    posted-glob g (id ++ b'-' ∷ more) node id o h has_id has_node valid_longer valid_node valid_id (
      ap (glob_matches id) (path_clash id more node)
      ∙ glob_matches-artifact_path id (more ++ b'-' ∷ node)
          (all_id_chars-join more node chars valid_node))

-- Two artifacts of different snapshots and nodes, with a dash that stands in one for the end of the
-- snapshot's identifier and in the other within the node's name, are written to one file: both posts
-- succeed, and after the second the files are as if it alone had been posted.
pub post-replaces :
    (g : Globals) (id more node : Text) (first second : Object) (h : Host)
    → get? text_discrete first (codes "snapshot_id") ≡ some (string (id ++ b'-' ∷ more))
    → get? text_discrete first (codes "node") ≡ some (string node)
    → get? text_discrete second (codes "snapshot_id") ≡ some (string id)
    → get? text_discrete second (codes "node") ≡ some (string (more ++ b'-' ∷ node))
    → is_container_id id ≡ true
    → is_container_id (id ++ b'-' ∷ more) ≡ true
    → is_container_id node ≡ true
    → is_container_id (more ++ b'-' ∷ node) ≡ true
    → (do_post g (codes "/snapshot_state") (object first) h ≡ (
      ok (record { status = 200; content = success }),
      record h { files = put text_discrete h.files (artifact_path id (more ++ b'-' ∷ node)) first },
    ))
      × (do_post g
            (codes "/snapshot_state")
            (object second)
            (do_post g (codes "/snapshot_state") (object first) h).1
          ≡ (
            ok (record { status = 200; content = success }),
            record h {
              files = put text_discrete h.files (artifact_path id (more ++ b'-' ∷ node)) second;
            },
          ))
post-replaces g id more node first second h id1 node1 id2 node2 valid_id valid_longer valid_node
      valid_name =
    let once =
      do_post_state_run g (id ++ b'-' ∷ more) node first h id1 node1 valid_longer valid_node in
    (
      once
          ∙ ap
              (λ path. (
                ok (record { status = 200; content = success }),
                record h { files = put text_discrete h.files path first },
              ))
              (path_clash id more node),
      rw
          (
            once,
            do_post_state_run g id (more ++ b'-' ∷ node) second
                (stored (id ++ b'-' ∷ more) node first h) id2 node2 valid_id valid_name,
            path_clash id more node,
          )
          (rw (put-put text_discrete h.files (artifact_path id (more ++ b'-' ∷ node)) first second)
            refl),
    )
