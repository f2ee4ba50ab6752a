-- ===== src/Breakout/Http.antt =====
-- `BreakoutHandler.do_GET` and `do_POST`. The server answers one request after the other, so a request
-- is a function of the state of the host.
use dead_nodes_tell_no_tales.Prelude.{
  ℕ, ◌-◌, Text, Option, none, some, List, [], ◌∷◌, ◌++◌, codes, length, drop, starts_with,
  text_discrete, ite, if◌then◌else◌,
}
use dead_nodes_tell_no_tales.Outcome.{Error, Outcome, ok, raised}
use dead_nodes_tell_no_tales.Config.{strip}
use dead_nodes_tell_no_tales.Dict.{Dict, keys, get?, put}
use dead_nodes_tell_no_tales.Sorting.{sort_by, text_le}
use dead_nodes_tell_no_tales.Exec.{Exec, pure, lift, gets, modify, ◌>>=◌, ◌>>◌}
use dead_nodes_tell_no_tales.Breakout.Fields.{is_container_id}
use dead_nodes_tell_no_tales.Breakout.Commands.{Globals, Handler, command, routes}
use dead_nodes_tell_no_tales.Breakout.Requests.{
  Object, artifact_path, glob, read_all, valid_ids, same_set, bad_fields, arguments,
}

-- What the request's body is: no JSON, or the JSON of a value that is no object, or an object.
pub data Body : Type 0 where
  malformed scalar : Body
  object : Object → Body

-- How a command ends that the handler knows of.
pub data Completion : Type 0 where
  succeeded timed_out : Completion
  failed : ℕ → Text → Completion

-- What becomes of a command: it ends so, or its start raises (a null character or a lone surrogate in an
-- argument, no such program), or the reading of its output does.
pub data Process : Type 0 where
  completed : Completion → Process
  not_started broken_off : Error → Process

pub data Content : Type 0 where
  success : Content
  problem : Text → Content
  wrong_fields bad_values : List Text → Content
  command_failed : ℕ → Text → Content
  artifacts : Text → List Object → Content

pub record Reply : Type 0 where
  pub status : ℕ
  pub content : Content

-- The files of snapshots by their paths, which can all be written and read, the command lines that were run, and what becomes of those to come.
pub record Host : Type 0 where
  pub files : Dict Text Object
  pub commands : List (List Text)
  pub completions : List Process

abbrev pub snapshot_prefix : Text
snapshot_prefix = codes "/snapshot/"

abbrev pub refuse : ℕ → Text → Exec Host Reply
refuse status error = pure (record { status = status; content = problem error })

unfoldable pub found : Text → List Object → Reply
found snapshot_id [] = record { status = 404; content = problem (codes "unknown snapshot") }
found snapshot_id (node ∷ nodes) = record {
  status = 200;
  content = artifacts snapshot_id (node ∷ nodes);
}

unfoldable pub serve_snapshot : Text → Exec Host Reply
unfolding glob read_all found
serve_snapshot snapshot_id =
    if is_container_id snapshot_id
    then (do
      files ← gets (λ h. h.files)
      nodes ← lift (read_all files (sort_by text_le (glob snapshot_id (keys files))))
      pure (found snapshot_id nodes))
    else refuse 400 (codes "invalid snapshot id")

unfoldable pub do_get : Text → Exec Host Reply
unfolding serve_snapshot
do_get path =
    ite (text_discrete path (codes "/health")) (pure (record { status = 200; content = success })) (
      if starts_with snapshot_prefix path
      then serve_snapshot (drop (length snapshot_prefix) path)
      else refuse 404 (codes "unknown endpoint"))

unfoldable pub store : Object → Option (Text × Text) → Exec Host Reply
store body none = refuse 400 (codes "snapshot_id and node must be filename-safe strings")
store body (some (snapshot_id, node)) = do
  modify (λ h. record h { files = put text_discrete h.files (artifact_path snapshot_id node) body })
  pure (record { status = 200; content = success })

unfoldable pub post_state : Body → Exec Host Reply
unfolding valid_ids store
post_state malformed = refuse 400 (codes "body must be valid JSON")
post_state scalar = refuse 400 (codes "snapshot_id and node must be filename-safe strings")
post_state (object body) = store body (
    valid_ids (get? text_discrete body (codes "snapshot_id"))
      (get? text_discrete body (codes "node")))

unfoldable pub next_completion : List Process → Process
next_completion [] = completed succeeded
next_completion (p ∷ _) = p

unfoldable pub later_completions : List Process → List Process
later_completions [] = []
later_completions (_ ∷ ps) = ps

-- The command lines that were run.
abbrev pub started : List Text → Process → List (List Text)
started argv (not_started e) = []
started argv (completed c) = argv ∷ []
started argv (broken_off e) = argv ∷ []

-- `CalledProcessError` and `TimeoutExpired` are completions; no other exception is caught.
abbrev pub ending : Process → Outcome Completion
ending (completed c) = ok c
ending (not_started e) = raised e
ending (broken_off e) = raised e

-- subprocess.run(argv, ...)
unfoldable pub run : List Text → Exec Host Completion
unfolding next_completion later_completions
run argv = do
  p ← gets (λ h. next_completion h.completions)
  modify (λ h. record h {
    commands = h.commands ++ started argv p;
    completions = later_completions h.completions;
  })
  lift (ending p)

-- s[-2000:]
unfoldable pub last_2000 : Text → Text
last_2000 s = drop (length s - 2000) s

unfoldable pub completion_reply : Completion → Reply
unfolding last_2000
completion_reply succeeded = record { status = 200; content = success }
completion_reply timed_out = record {
  status = 504;
  content = problem (codes "command timed out after 120s");
}
completion_reply (failed exit stderr) = record {
  status = 500;
  content = command_failed exit (last_2000 (strip stderr));
}

module _ (g : Globals) where
  unfoldable pub run_handler : Handler → List Text → Exec Host Reply
  unfolding run completion_reply
  run_handler handler args = do
    argv ← lift (command g handler args)
    c ← run argv
    pure (completion_reply c)

  unfoldable pub unless_bad : Handler → List Text → Object → List Text → Exec Host Reply
  unfolding run_handler arguments
  unless_bad handler fields body [] = do
    args ← lift (arguments body fields)
    run_handler handler args
  unless_bad handler fields body (field ∷ bad) =
      pure (record { status = 400; content = bad_values (field ∷ bad) })

  unfoldable pub post_command : Handler × List Text → Body → Exec Host Reply
  unfolding same_set bad_fields unless_bad
  post_command route malformed = refuse 400 (codes "body must be valid JSON")
  post_command (handler, fields) scalar =
      pure (record { status = 400; content = wrong_fields (sort_by text_le fields) })
  post_command (handler, fields) (object body) =
      if same_set (keys body) fields
      then (do bad ← lift (bad_fields body fields); unless_bad handler fields body bad)
      else pure (record { status = 400; content = wrong_fields (sort_by text_le fields) })

  unfoldable pub post_route : Option (Handler × List Text) → Body → Exec Host Reply
  unfolding post_command
  post_route none body =
      refuse 404 (
        codes
          "unknown endpoint; expected /checkpoint|/restore|/stop|/snapshot_trigger|/run_sidecar")
  post_route (some route) body = post_command route body

  unfoldable pub do_post : Text → Body → Exec Host Reply
  unfolding post_state post_route
  do_post path body =
      ite (text_discrete path (codes "/snapshot_state")) (post_state body)
        (post_route (get? text_discrete routes path) body)
