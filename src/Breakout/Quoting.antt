-- ===== src/Breakout/Quoting.antt =====
-- Why the values of a request may stand in a command line and in the program text of
-- `snapshot_trigger`.
use dead_nodes_tell_no_tales.Prelude.{
  Text, true, false, [], ◌∷◌, codes, starts_with, ◌≡◌, ◌≢◌, arith, All,
}
use dead_nodes_tell_no_tales.Breakout.Fields.{
  is_alphanumeric, is_id_char, all_id_chars, is_container_id,
}

-- No single or double quote, no backslash, no newline and no carriage return.
abbrev pub IsLiteral : Text → Type 0
IsLiteral = All (λ c. (c ≢ 34) × (c ≢ 39) × (c ≢ 92) × (c ≢ 10) × (c ≢ 13))

IsLiteral-all_id_chars : (s : Text) → all_id_chars s ≡ true → IsLiteral s
unfolding all_id_chars is_id_char is_alphanumeric
IsLiteral-all_id_chars [] h = tt
IsLiteral-all_id_chars (c ∷ s) h = (ground (arith, h), IsLiteral-all_id_chars s (ground (arith, h)))

-- An identifier that `CONTAINER_ID_RE` matches holds no single or double quote, no backslash, no newline
-- and no carriage return, and does not start with a dash.
pub IsLiteral-is_container_id :
    (s : Text) → is_container_id s ≡ true → IsLiteral s × (starts_with (codes "-") s ≡ false)
unfolding is_container_id is_alphanumeric
IsLiteral-is_container_id [] h = absurd (ground arith)
IsLiteral-is_container_id (c ∷ s) h =
    ((ground (arith, h), IsLiteral-all_id_chars s (ground (arith, h))), ground (arith, h))
