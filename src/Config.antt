-- ===== src/Config.antt =====
-- proxy/config.py, and the environment that the sidecar reads: `MESH_MEMBERS`, `MESH_SELF`,
-- `CHECKPOINT_TARGET`, `RESTORE_SNAPSHOT_ID`. Times are in milliseconds.
use dead_nodes_tell_no_tales.Prelude.{
  ℕ, Text, Bool, Option, none, some, List, [], ◌∷◌, ◌++◌, codes, ◌==◌, ◌||◌, ◌&&◌, leb,
  if◌then◌else◌,
}

abbrev pub retry_timeout : ℕ
retry_timeout = 500

abbrev pub snapshot_timeout : ℕ
snapshot_timeout = 30_000

abbrev pub max_spoof_sockets : ℕ
max_spoof_sockets = 512

-- "10.24.24.0/24": the address as a number, and the size of a network of this prefix length.
abbrev pub mesh_network : ℕ
mesh_network = 0x0a181800

abbrev pub mesh_network_size : ℕ
mesh_network_size = 256

-- Python's white space within ASCII: what `str.strip` takes off.
unfoldable pub is_space : ℕ → Bool
is_space c = (leb 9 c && leb c 13) || ((leb 28 c && leb c 31) || c == b' ')

unfoldable pub lstrip : Text → Text
unfolding is_space
lstrip [] = []
lstrip (c ∷ s) = let rest = lstrip s in if is_space c then rest else c ∷ s

-- A character in front of a text that is stripped at the right.
unfoldable pub cons_rstrip : ℕ → Text → Text
unfolding is_space
cons_rstrip c [] = if is_space c then [] else c ∷ []
cons_rstrip c (d ∷ s) = c ∷ d ∷ s

unfoldable pub rstrip : Text → Text
unfolding cons_rstrip
rstrip [] = []
rstrip (c ∷ s) = cons_rstrip c (rstrip s)

unfoldable pub strip : Text → Text
unfolding lstrip rstrip
strip s = rstrip (lstrip s)

-- `s.split(sep)` at one character: the part in front, and the parts behind it.
unfoldable pub split_from : ℕ → Text → Text → List Text
split_from sep part [] = part ∷ []
split_from sep part (c ∷ s) =
    let next = split_from sep [] s in
    let more = split_from sep (part ++ c ∷ []) s in if c == sep then part ∷ next else more

unfoldable pub split : ℕ → Text → List Text
unfolding split_from
split sep s = split_from sep [] s

unfoldable pub nonempty_stripped : List Text → List Text
unfolding strip
nonempty_stripped [] = []
nonempty_stripped (part ∷ parts) = elim (strip part) [
  | [] ↦ nonempty_stripped parts
  | c ∷ s ↦ (c ∷ s) ∷ nonempty_stripped parts
]

-- The members of a comma-separated list.
unfoldable pub parse_members : Text → List Text
unfolding split nonempty_stripped
parse_members s = nonempty_stripped (split b',' s)

abbrev pub default_members : Text
default_members = codes "10.24.24.10,10.24.24.11,10.24.24.12"

-- An environment variable that is unset or empty is false.
abbrev pub if_set : Option Text → Option Text
if_set none = none
if_set (some []) = none
if_set (some (c ∷ s)) = some (c ∷ s)

-- What a sidecar is started with, and what the kernel answers it: the source address of a route to a
-- peer (`none` where `connect` fails), and whether a socket may be bound to a foreign address.
pub record Settings : Type 0 where
  pub mesh_members : List Text
  pub mesh_self : Option Text
  pub checkpoint_target : Option Text
  pub restore_snapshot_id : Option Text
  pub hostname : Text
  pub route_source : Text → Option Text
  pub can_bind : Text → ℕ → Bool
