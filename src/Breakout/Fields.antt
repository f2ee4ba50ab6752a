-- ===== src/Breakout/Fields.antt =====
-- `CONTAINER_ID_RE` and `field_ok`: which values of a request are taken.
use dead_nodes_tell_no_tales.Prelude.{
  ℕ, Text, Bool, true, false, ◌&&◌, ◌||◌, [], ◌∷◌, codes, leb, ◌==◌, starts_with, text_discrete,
  ite, if◌then◌else◌,
}

-- A value of a JSON object: a string, or another value, which the program only tells from a string and
-- hands through; it stands as a number.
pub data Value : Type 0 where
  string : Text → Value
  other : ℕ → Value

-- [a-zA-Z0-9]
unfoldable pub is_alphanumeric : ℕ → Bool
is_alphanumeric c =
    (leb b'a' c && leb c b'z') || ((leb b'A' c && leb c b'Z') || (leb b'0' c && leb c b'9'))

-- [a-zA-Z0-9_.-]
unfoldable pub is_id_char : ℕ → Bool
unfolding is_alphanumeric
is_id_char c = is_alphanumeric c || (c == b'_' || (c == b'.' || c == b'-'))

unfoldable pub all_id_chars : Text → Bool
unfolding is_id_char
all_id_chars [] = true
all_id_chars (c ∷ s) = is_id_char c && all_id_chars s

-- CONTAINER_ID_RE.fullmatch(value) is not None
unfoldable pub is_container_id : Text → Bool
unfolding is_alphanumeric all_id_chars
is_container_id [] = false
is_container_id (c ∷ s) = is_alphanumeric c && all_id_chars s

unfoldable pub ends_with : Text → Text → Bool
ends_with suffix [] = ite (text_discrete suffix []) true false
ends_with suffix (c ∷ s) =
    let rest = ends_with suffix s in ite (text_discrete suffix (c ∷ s)) true rest

abbrev pub path_suffix : Text
path_suffix = codes "_path"

unfoldable pub field_ok : Text → Value → Bool
unfolding is_container_id ends_with
field_ok field (other _) = false
field_ok field (string s) =
    if ends_with path_suffix field then starts_with (codes "/") s else is_container_id s
