-- ===== src/Breakout/Requests.antt =====
-- What a request is judged by: the identifiers and the fields of its body, and the files that a pattern
-- finds.
use dead_nodes_tell_no_tales.Prelude.{
  Text, Bool, true, not, ◌&&◌, Option, none, some, List, [], ◌∷◌, ◌++◌, codes, length, drop,
  starts_with, text_discrete, ℕ_discrete, if◌then◌else◌,
}
use dead_nodes_tell_no_tales.Outcome.{Outcome, ok, raised, os_error, key_error, type_error, ◌>>=◌}
use dead_nodes_tell_no_tales.Dict.{Dict, get?, mem}
use dead_nodes_tell_no_tales.Breakout.Fields.{
  Value, string, other, is_container_id, ends_with, field_ok,
}

abbrev pub Object : Type 0
Object = Dict Text Value

-- f"/tmp/snapshot-{snapshot_id}-"
abbrev pub file_prefix : Text → Text
file_prefix snapshot_id = codes "/tmp/snapshot-" ++ (snapshot_id ++ codes "-")

abbrev pub json_suffix : Text
json_suffix = codes ".json"

-- f"/tmp/snapshot-{snapshot_id}-{node}.json"
abbrev pub artifact_path : Text → Text → Text
artifact_path snapshot_id node = file_prefix snapshot_id ++ (node ++ json_suffix)

unfoldable pub has_slash : Text → Bool
has_slash s = mem ℕ_discrete s b'/'

-- What stands for the star of the pattern and behind it.
unfoldable pub star_matches : Text → Bool
star_matches s = not (has_slash s) && ends_with json_suffix s

-- glob.glob(f"/tmp/snapshot-{snapshot_id}-*.json")
unfoldable pub glob_matches : Text → Text → Bool
unfolding star_matches
glob_matches snapshot_id path =
    starts_with (file_prefix snapshot_id) path
    && star_matches (drop (length (file_prefix snapshot_id)) path)

unfoldable pub glob : Text → List Text → List Text
unfolding glob_matches
glob snapshot_id [] = []
glob snapshot_id (path ∷ paths) =
    let rest = glob snapshot_id paths in if glob_matches snapshot_id path then path ∷ rest else rest

unfoldable pub open_file : Option Object → Outcome Object
open_file none = raised os_error
open_file (some content) = ok content

unfoldable pub read_all : Dict Text Object → List Text → Outcome (List Object)
unfolding open_file
read_all files [] = ok []
read_all files (path ∷ paths) = do
  node ← open_file (get? text_discrete files path)
  nodes ← read_all files paths
  ok (node ∷ nodes)

-- The identifiers of an artifact, if both are file names.
unfoldable pub valid_ids : Option Value → Option Value → Option (Text × Text)
valid_ids (some (string snapshot_id)) (some (string node)) =
    if is_container_id snapshot_id && is_container_id node then some (snapshot_id, node) else none
valid_ids _ _ = none

unfoldable pub subset : List Text → List Text → Bool
subset [] t = true
subset (k ∷ s) t = mem text_discrete t k && subset s t

-- set(s) == set(t)
unfoldable pub same_set : List Text → List Text → Bool
unfolding subset
same_set s t = subset s t && subset t s

unfoldable pub field_of : Object → Text → Outcome Value
field_of body field = elim (get? text_discrete body field) [
  | none ↦ raised key_error
  | some v ↦ ok v
]

-- [f for f in fields if not field_ok(f, body[f])]
unfoldable pub bad_fields : Object → List Text → Outcome (List Text)
unfolding field_of
bad_fields body [] = ok []
bad_fields body (field ∷ fields) = do
  value ← field_of body field
  bad ← bad_fields body fields
  ok (if field_ok field value then bad else field ∷ bad)

-- An argument that is no string is a type error of `subprocess.run`.
unfoldable pub as_argument : Value → Outcome Text
as_argument (string s) = ok s
as_argument (other _) = raised type_error

-- [body[f] for f in fields]
unfoldable pub arguments : Object → List Text → Outcome (List Text)
unfolding field_of as_argument
arguments body [] = ok []
arguments body (field ∷ fields) = do
  value ← field_of body field
  s ← as_argument value
  rest ← arguments body fields
  ok (s ∷ rest)
