-- ===== src/Codec.antt =====
-- The text codecs of Python's library that the snapshot code uses: UTF-8 decoding
-- (`marker_id.decode()`) and base64 (`base64.b64encode`, `base64.b64decode`). Of the texts that
-- `b64decode` accepts, those without foreign characters are modelled.
pub mod Base64
use dead_nodes_tell_no_tales.Prelude.{
  ℕ, zero, suc, ◌+◌, ◌-◌, ◌*◌, ◌/◌, ◌%◌, Bytes, Text, Bool, true, false, List, [], ◌∷◌, ◌++◌, ltb,
  leb, ◌==◌, ◌&&◌, if◌then◌else◌, Option, none, some,
}
use dead_nodes_tell_no_tales.Outcome.{Outcome, ok, raised, unicode_error, value_error, ◌>>=◌}

-- A decoder in the middle of a character: how many bytes are to come, the range of the next one, and
-- the bits so far.
pub record Decoder : Type 0 where
  pub needed : ℕ
  pub low : ℕ
  pub high : ℕ
  pub bits : ℕ

abbrev pub between : Decoder
between = record { needed = 0; low = 0; high = 0; bits = 0 }

-- The first byte of a character of more than one byte.
unfoldable pub lead_byte : ℕ → Outcome Decoder
lead_byte b =
    if leb 0xc2 b && leb b 0xdf
    then ok (record { needed = 1; low = 0x80; high = 0xbf; bits = b - 0xc0 })
    else if leb 0xe0 b && leb b 0xef
    then ok (record {
      needed = 2;
      low = if b == 0xe0 then 0xa0 else 0x80;
      high = if b == 0xed then 0x9f else 0xbf;
      bits = b - 0xe0;
    })
    else if leb 0xf0 b && leb b 0xf4
    then ok (record {
      needed = 3;
      low = if b == 0xf0 then 0x90 else 0x80;
      high = if b == 0xf4 then 0x8f else 0xbf;
      bits = b - 0xf0;
    })
    else raised unicode_error

unfoldable pub start_char : ℕ → Outcome (Decoder × Text)
unfolding lead_byte
start_char b = if ltb b 0x80 then ok (between, b ∷ []) else do d ← lead_byte b; ok (d, [])

unfoldable pub more_bits : ℕ → ℕ → Decoder × Text
more_bits zero bits = (between, bits ∷ [])
more_bits (suc k) bits = (record { needed = suc k; low = 0x80; high = 0xbf; bits = bits }, [])

-- One byte: the state behind it, and the character that it ends, if it ends one.
unfoldable pub decode_byte : ℕ → Decoder → ℕ → Outcome (Decoder × Text)
unfolding start_char more_bits
decode_byte zero d b = start_char b
decode_byte (suc k) d b =
    if leb d.low b && leb b d.high
    then ok (more_bits k (d.bits * 64 + (b - 0x80)))
    else raised unicode_error

unfoldable pub decode_from : Decoder → Bytes → Outcome Text
unfolding decode_byte
decode_from d [] = if d.needed == 0 then ok [] else raised unicode_error
decode_from d (b ∷ s) = do
  (d', out) ← decode_byte d.needed d b
  rest ← decode_from d' s
  ok (out ++ rest)

-- bytes.decode()
unfoldable pub decode : Bytes → Outcome Text
unfolding decode_from
decode s = decode_from between s

-- The base64 alphabet, and the value of a character of it.
unfoldable pub sextet_char : ℕ → ℕ
sextet_char n =
    if ltb n 26
    then n + 65
    else if ltb n 52
    then n + 71
    else if ltb n 62
    then n - 52 + 48
    else if n == 62
    then b'+'
    else b'/'

unfoldable pub sextet_value : ℕ → Outcome ℕ
sextet_value c =
    if leb 65 c && leb c 90
    then ok (c - 65)
    else if leb 97 c && leb c 122
    then ok (c - 71)
    else if leb 48 c && leb c 57
    then ok (c - 48 + 52)
    else if c == b'+'
    then ok 62
    else if c == b'/'
    then ok 63
    else raised value_error

-- base64.b64encode
unfoldable pub b64encode : Bytes → Text
unfolding sextet_char
b64encode [] = []
b64encode (a ∷ []) = sextet_char (a / 4) ∷ sextet_char (a % 4 * 16) ∷ b'=' ∷ b'=' ∷ []
b64encode (a ∷ b ∷ []) =
    sextet_char (a / 4) ∷ sextet_char (a % 4 * 16 + b / 16) ∷ sextet_char (b % 16 * 4) ∷ b'=' ∷ []
b64encode (a ∷ b ∷ c ∷ s) =
    sextet_char (a / 4)
    ∷ sextet_char (a % 4 * 16 + b / 16)
    ∷ sextet_char (b % 16 * 4 + c / 64)
    ∷ sextet_char (c % 64)
    ∷ b64encode s

-- The bytes of a group of four characters; padding stands in a last group alone.
unfoldable pub group_bytes : ℕ → ℕ → ℕ → ℕ → Outcome Bytes
group_bytes w x y z = do
  p ← sextet_value w
  q ← sextet_value x
  if y == b'=' then (if z == b'=' then ok ((p * 4 + q / 16) ∷ []) else raised value_error) else do
    r ← sextet_value y
    if z == b'=' then ok ((p * 4 + q / 16) ∷ (q % 16 * 16 + r / 4) ∷ []) else do
      t ← sextet_value z
      ok ((p * 4 + q / 16) ∷ (q % 16 * 16 + r / 4) ∷ (r % 4 * 64 + t) ∷ [])

-- base64.b64decode
unfoldable pub b64decode : Text → Outcome Bytes
unfolding group_bytes
b64decode [] = ok []
b64decode (w ∷ x ∷ y ∷ z ∷ []) = group_bytes w x y z
b64decode (w ∷ x ∷ y ∷ z ∷ v ∷ s) = do
  first ← (if z == b'=' then raised value_error else group_bytes w x y z)
  rest ← b64decode (v ∷ s)
  ok (first ++ rest)
b64decode _ = raised value_error
