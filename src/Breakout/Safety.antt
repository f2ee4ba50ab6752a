-- ===== src/Breakout/Safety.antt =====
-- What a post can do to the host.
use dead_nodes_tell_no_tales.Prelude.{
  Text, true, Option, none, some, List, [], ◌++◌, codes, text_discrete, ite, ◌≡◌, refl, arith,
  Bool-cases, Option-cases, inl, inr, ◌⊎◌, All,
}
use dead_nodes_tell_no_tales.Outcome.{Outcome, ok, raised}
use dead_nodes_tell_no_tales.Dict.{keys, get?, put}
use dead_nodes_tell_no_tales.Dict.Sets.{All-get?}
use dead_nodes_tell_no_tales.Exec.{pure, ◌>>=◌}
use dead_nodes_tell_no_tales.Breakout.Fields.{Value, string, other, is_container_id}
use dead_nodes_tell_no_tales.Breakout.Commands.{Globals, Handler, command, routes}
use dead_nodes_tell_no_tales.Breakout.Requests.{
  Object, artifact_path, valid_ids, same_set, arguments,
}
use dead_nodes_tell_no_tales.Breakout.Http.{
  Body, malformed, scalar, object, Host, Reply, success, Process, completed, not_started,
  broken_off, started, next_completion, later_completions, run, completion_reply, run_handler,
  unless_bad, post_command, post_route, store, post_state, do_post,
}
use dead_nodes_tell_no_tales.Breakout.Arguments.{
  IsSafe, Arguments, checked, HasCommand, routes-HasCommand,
}

-- What the request for a command ends in.
abbrev pub answer_of : Process → Outcome Reply
answer_of (completed c) = ok (completion_reply c)
answer_of (not_started e) = raised e
answer_of (broken_off e) = raised e

-- The effect of a post on the host.
pub data PostEffect (g : Globals) (path : Text) (body : Body) (h : Host) (r : Outcome Reply × Host)
    : Type 0 where
  -- A refusal changes nothing.
  refused :
      (reply : Reply)
      → (reply.status ≡ 400) ⊎ (reply.status ≡ 404)
      → r ≡ (ok reply, h)
      → PostEffect g path body h r
  stored :
      (id node : Text) (o : Object)
      → path ≡ codes "/snapshot_state"
      → body ≡ object o
      → get? text_discrete o (codes "snapshot_id") ≡ some (string id)
      → get? text_discrete o (codes "node") ≡ some (string node)
      → is_container_id id ≡ true
      → is_container_id node ≡ true
      → r ≡ (
        ok (record { status = 200; content = success }),
        record h { files = put text_discrete h.files (artifact_path id node) o },
      )
      → PostEffect g path body h r
  ran :
      (handler : Handler) (fields args argv : List Text) (o : Object)
      → get? text_discrete routes path ≡ some (handler, fields)
      → body ≡ object o
      → arguments o fields ≡ ok args
      → All IsSafe args
      → command g handler args ≡ ok argv
      → r ≡ (
        answer_of (next_completion h.completions),
        record h {
          commands = h.commands ++ started argv (next_completion h.completions);
          completions = later_completions h.completions;
        },
      )
      → PostEffect g path body h r

-- The fields of an artifact that is stored.
record Identified (a b : Option Value) (id node : Text) : Type 0 where
  has_id : a ≡ some (string id)
  has_node : b ≡ some (string node)
  valid_id : is_container_id id ≡ true
  valid_node : is_container_id node ≡ true

Identified-valid_ids :
    (a b : Option Value) (id node : Text) → valid_ids a b ≡ some (id, node) → Identified a b id node
unfolding valid_ids
Identified-valid_ids none b id node e = absurd (ground arith)
Identified-valid_ids (some (other _)) b id node e = absurd (ground arith)
Identified-valid_ids (some (string s)) none id node e = absurd (ground arith)
Identified-valid_ids (some (string s)) (some (other _)) id node e = absurd (ground arith)
Identified-valid_ids (some (string s)) (some (string t)) id node e = record {
  has_id = ground (arith, e);
  has_node = ground (arith, e);
  valid_id = ground (arith, e);
  valid_node = ground (arith, e);
}

post_state-PostEffect :
    (g : Globals) (path : Text) (body : Body) (h : Host)
    → path ≡ codes "/snapshot_state"
    → PostEffect g path body h (post_state body h)
unfolding post_state store pure ◌>>=◌
post_state-PostEffect g path malformed h e = refused _ (inl refl) refl
post_state-PostEffect g path scalar h e = refused _ (inl refl) refl
post_state-PostEffect g path (object o) h e = elim (Option-cases (valid_ids a b)) [
  | inl none_valid ↦ rw none_valid (refused _ (inl refl) refl)
  | inr ((id, node), valid) ↦
      let i = Identified-valid_ids a b id node valid in
      stored id node o e refl i.has_id i.has_node i.valid_id i.valid_node (rw valid refl)
]
  where
    a : Option Value
    a = get? text_discrete o (codes "snapshot_id")

    b : Option Value
    b = get? text_discrete o (codes "node")

run_process :
    (argv : List Text) (h : Host) (p : Process)
    → next_completion h.completions ≡ p
    → (run argv >>= λ c. pure (completion_reply c)) h ≡ (
      answer_of p,
      record h {
        commands = h.commands ++ started argv p;
        completions = later_completions h.completions;
      },
    )
unfolding run pure ◌>>=◌
run_process argv h (completed c) e = rw e refl
run_process argv h (not_started error) e = rw e refl
run_process argv h (broken_off error) e = rw e refl

unless_bad-PostEffect :
    (g : Globals) (path : Text) (o : Object) (h : Host) (handler : Handler) (fields : List Text)
    → get? text_discrete routes path ≡ some (handler, fields)
    → Arguments o fields
    → PostEffect g path (object o) h (unless_bad g handler fields o [] h)
unfolding unless_bad run_handler ◌>>=◌
unless_bad-PostEffect g path o h handler fields e a =
    let (argv, made) =
      All-get? text_discrete (HasCommand g) routes path (handler, fields) (routes-HasCommand g) e
        a.args a.as_many in
    ran handler fields a.args argv o e refl a.taken a.safe made
      (rw (a.taken, made) (run_process argv h (next_completion h.completions) refl))

post_command-PostEffect :
    (g : Globals) (path : Text) (o : Object) (h : Host) (handler : Handler) (fields : List Text)
    → get? text_discrete routes path ≡ some (handler, fields)
    → PostEffect g path (object o) h (post_command g (handler, fields) (object o) h)
unfolding post_command same_set unless_bad pure ◌>>=◌
post_command-PostEffect g path o h handler fields e = elim (Bool-cases (same_set (keys o) fields)) [
  | inr wrong ↦ rw wrong (refused _ (inl refl) refl)
  | inl same ↦ elim (checked o fields (ground (arith, same))) [
    | inl (a, none_bad) ↦ rw (same, none_bad) (unless_bad-PostEffect g path o h handler fields e a)
    | inr (field, bad, some_bad) ↦ rw (same, some_bad) (refused _ (inl refl) refl)
  ]
]

post_route-PostEffect :
    (g : Globals) (path : Text) (body : Body) (h : Host) (route : Option (Handler × List Text))
    → get? text_discrete routes path ≡ route
    → PostEffect g path body h (post_route g route body h)
unfolding post_route post_command pure
post_route-PostEffect g path body h none e = refused _ (inr refl) refl
post_route-PostEffect g path malformed h (some route) e = refused _ (inl refl) refl
post_route-PostEffect g path scalar h (some (handler, fields)) e = refused _ (inl refl) refl
post_route-PostEffect g path (object o) h (some (handler, fields)) e =
    post_command-PostEffect g path o h handler fields e

-- On a host whose artifact files can be written, a post is refused with 400 or 404 and changes
-- nothing, or it stores the artifact under its two identifiers, which are file names, and is
-- answered with 200, or it asks for exactly one command line: that of the route, of the values of
-- the route's fields, each an absolute path or an identifier. If the command starts, this is the
-- one that is run, and the reply is that of its completion; an exception of its start or of the
-- reading of its output leaves the request without a reply, and of its start also without a command
-- run.
pub do_post-PostEffect :
    (g : Globals) (path : Text) (body : Body) (h : Host)
    → PostEffect g path body h (do_post g path body h)
unfolding do_post
do_post-PostEffect g path body h =
    elim (text_discrete path (codes "/snapshot_state"))
      as (λ d.
        PostEffect g path body h
          (ite d (post_state body) (post_route g (get? text_discrete routes path) body) h)) [
            | yes p ↦ post_state-PostEffect g path body h p
            | no ne ↦ post_route-PostEffect g path body h (get? text_discrete routes path) refl
          ]
