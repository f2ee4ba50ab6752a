-- ===== src/Wire.antt =====
-- The tunnel's framing in proxy/mesh_proxy.py: `DATA_HEADER` ("!BQHH4s", 17 bytes) and `ACK_HEADER`
-- ("!BQ", 9 bytes), with what Python's `struct` does on a field out of range or on a wrong length.
pub mod BigEndian
pub mod RoundTrip
use dead_nodes_tell_no_tales.Prelude.{
  ℕ, zero, suc, ◌+◌, ◌*◌, ◌/◌, ◌%◌, ◌^◌, Bytes, Bool, List, [], ◌∷◌, ◌++◌, ltb, ◌==◌, ◌&&◌,
  if◌then◌else◌, length, take, drop, true, false, Option, none, some,
}
use dead_nodes_tell_no_tales.Outcome.{Outcome, ok, raised, struct_error}

-- `w` bytes of a number, the most significant first, and the number that bytes stand for.
unfoldable pub to_be : ℕ → ℕ → Bytes
to_be zero n = []
to_be (suc w) n = to_be w (n / 256) ++ (n % 256) ∷ []

unfoldable pub from_be : ℕ → Bytes → ℕ
from_be acc [] = acc
from_be acc (b ∷ bs) = from_be (acc * 256 + b) bs

-- The field "4s": four bytes, cut off or filled up with zeros.
unfoldable pub four_bytes : Bytes → Bytes
four_bytes s = take 4 (s ++ 0 ∷ 0 ∷ 0 ∷ 0 ∷ [])

pub record DataHeader : Type 0 where
  pub msg_type : ℕ
  pub seq : ℕ
  pub src_port : ℕ
  pub dst_port : ℕ
  pub target_ip : Bytes

abbrev pub data_header_size : ℕ
data_header_size = 17

abbrev pub ack_header_size : ℕ
ack_header_size = 9

-- A field fits its width.
abbrev pub fits : ℕ → ℕ → Bool
fits w n = ltb n (256 ^ w)

-- DATA_HEADER.pack(...)
unfoldable pub pack_data : DataHeader → Outcome Bytes
pack_data h =
    if fits 1 h.msg_type && fits 8 h.seq && fits 2 h.src_port && fits 2 h.dst_port
    then ok (
        to_be 1 h.msg_type
        ++ (to_be 8 h.seq
            ++ (to_be 2 h.src_port ++ (to_be 2 h.dst_port ++ four_bytes h.target_ip))))
    else raised struct_error

-- DATA_HEADER.unpack(...)
unfoldable pub unpack_data : Bytes → Outcome DataHeader
unpack_data s =
    if length s == data_header_size
    then ok (record {
      msg_type = from_be 0 (take 1 s);
      seq = from_be 0 (take 8 (drop 1 s));
      src_port = from_be 0 (take 2 (drop 9 s));
      dst_port = from_be 0 (take 2 (drop 11 s));
      target_ip = drop 13 s;
    })
    else raised struct_error

-- ACK_HEADER.pack(1, seq)
unfoldable pub pack_ack : ℕ → Outcome Bytes
pack_ack seq = if fits 8 seq then ok (to_be 1 1 ++ to_be 8 seq) else raised struct_error

-- ACK_HEADER.unpack(...)[1]
unfoldable pub unpack_ack : Bytes → Outcome ℕ
unpack_ack s =
    if length s == ack_header_size then ok (from_be 0 (drop 1 s)) else raised struct_error
