-- ===== src/Codec/Base64.antt =====
-- Decoding behind encoding in base64.
use mathlib.Core.List.{append-nil}
use dead_nodes_tell_no_tales.Prelude.{
  ℕ, ◌+◌, ◌*◌, ◌/◌, ◌%◌, ◌<◌, Bytes, List, [], ◌∷◌, ◌++◌, ◌≡◌, ◌≢◌, refl, arith, All, ap, sym, ◌∙◌,
}
use dead_nodes_tell_no_tales.Outcome.{ok}
use dead_nodes_tell_no_tales.Codec.{sextet_char, sextet_value, b64encode, group_bytes, b64decode}

sextet_value-sextet_char : (n : ℕ) → n < 64 → sextet_value (sextet_char n) ≡ ok n
unfolding sextet_value sextet_char
sextet_value-sextet_char n h = ground arith

sextet_char-ne-pad : (n : ℕ) → sextet_char n ≢ b'='
unfolding sextet_char
sextet_char-ne-pad n = ground arith

abbrev pub AreBytes : Bytes → Type 0
AreBytes = All (λ b. b < 256)

group_one :
    (a : ℕ)
    → a < 256
    → group_bytes (sextet_char (a / 4)) (sextet_char (a % 4 * 16)) b'=' b'=' ≡ ok (a ∷ [])
unfolding group_bytes
group_one a h =
    ground (arith, sextet_value-sextet_char (a / 4), sextet_value-sextet_char (a % 4 * 16))

group_two :
    (a b : ℕ)
    → a < 256
    → b < 256
    → group_bytes
        (sextet_char (a / 4))
        (sextet_char (a % 4 * 16 + b / 16))
        (sextet_char (b % 16 * 4))
        b'='
      ≡ ok (a ∷ b ∷ [])
unfolding group_bytes
group_two a b h k = ground (
  arith,
  sextet_value-sextet_char (a / 4),
  sextet_value-sextet_char (a % 4 * 16 + b / 16),
  sextet_value-sextet_char (b % 16 * 4),
  sextet_char-ne-pad (b % 16 * 4),
)

full_group :
    (w x y z : ℕ) {p q r t : ℕ}
    → y ≢ b'='
    → z ≢ b'='
    → sextet_value w ≡ ok p
    → sextet_value x ≡ ok q
    → sextet_value y ≡ ok r
    → sextet_value z ≡ ok t
    → group_bytes w x y z ≡ ok ((p * 4 + q / 16) ∷ (q % 16 * 16 + r / 4) ∷ (r % 4 * 64 + t) ∷ [])
unfolding group_bytes
full_group w x y z ney nez hw hx hy hz = ground arith

three_bytes :
    (a b c a' b' c' : ℕ)
    → a ≡ a'
    → b ≡ b'
    → c ≡ c'
    → ◌≡◌ {A = Bytes} (a ∷ b ∷ c ∷ []) (a' ∷ b' ∷ c' ∷ [])
three_bytes a b c a' b' c' p q r = cc

group_three :
    (a b c : ℕ)
    → a < 256
    → b < 256
    → c < 256
    → group_bytes
        (sextet_char (a / 4))
        (sextet_char (a % 4 * 16 + b / 16))
        (sextet_char (b % 16 * 4 + c / 64))
        (sextet_char (c % 64))
      ≡ ok (a ∷ b ∷ c ∷ [])
group_three a b c h k l =
    full_group _ _ _ _ (sextet_char-ne-pad (b % 16 * 4 + c / 64)) (sextet_char-ne-pad (c % 64))
      (sextet_value-sextet_char (a / 4) (omega arith))
      (sextet_value-sextet_char (a % 4 * 16 + b / 16) (omega arith))
      (sextet_value-sextet_char (b % 16 * 4 + c / 64) (omega arith))
      (sextet_value-sextet_char (c % 64) (omega arith))
    ∙ ap ok (three_bytes _ _ _ _ _ _ (omega arith) (omega arith) (omega arith))

-- A group without padding is decoded in front of what follows it.
decode_group :
    (w x y z : ℕ) (s : List ℕ) (first rest : Bytes)
    → z ≢ b'='
    → group_bytes w x y z ≡ ok first
    → b64decode s ≡ ok rest
    → b64decode (w ∷ x ∷ y ∷ z ∷ s) ≡ ok (first ++ rest)
unfolding b64decode
decode_group w x y z [] first rest ne g e =
    g ∙ ap ok (sym (append-nil first) ∙ ap (λ r. first ++ r) (cc))
decode_group w x y z (v ∷ s) first rest ne g e = ground arith

-- Any bytes come back from their base64 text.
pub b64decode-b64encode : (s : Bytes) → AreBytes s → b64decode (b64encode s) ≡ ok s
unfolding b64encode
b64decode-b64encode [] h = unfold b64decode in refl
b64decode-b64encode (a ∷ []) h = unfold b64decode in group_one a h.0
b64decode-b64encode (a ∷ b ∷ []) h = unfold b64decode in group_two a b h.0 h.1.0
b64decode-b64encode (a ∷ b ∷ c ∷ s) h =
    decode_group _ _ _ _ (b64encode s) (a ∷ b ∷ c ∷ []) s (sextet_char-ne-pad (c % 64))
      (group_three a b c h.0 h.1.0 h.1.1.0) (b64decode-b64encode s h.1.1.1)
