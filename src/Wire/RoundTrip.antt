-- ===== src/Wire/RoundTrip.antt =====
-- Unpacking behind packing of the two headers.
use dead_nodes_tell_no_tales.Prelude.{
  ℕ, ◌+◌, ◌^◌, ◌<◌, ◌≤◌, ◌⊎◌, Bytes, ◌++◌, ◌≡◌, ap, sym, ◌∙◌, arith, length, length-append, take,
  drop, take_left, drop_left, drop-drop,
}
use dead_nodes_tell_no_tales.Outcome.{ok, raised, struct_error}
use dead_nodes_tell_no_tales.Wire.{
  DataHeader, to_be, from_be, four_bytes, pack_data, unpack_data, pack_ack, unpack_ack,
  data_header_size, ack_header_size,
}
use dead_nodes_tell_no_tales.Wire.BigEndian.{length-to_be, from_be-to_be}

-- Every field fits its width, and the target is an address of four bytes.
pub record InRange (h : DataHeader) : Type 0 where
  pub msg_type : h.msg_type < 256
  pub seq : h.seq < 256 ^ 8
  pub src_port : h.src_port < 256 ^ 2
  pub dst_port : h.dst_port < 256 ^ 2
  pub target_ip : length h.target_ip ≡ 4

-- Five fields of known lengths, read back by their positions.
module _ (a b c d e : Bytes) (la : length a ≡ 1) (lb : length b ≡ 8) (lc : length c ≡ 2)
    (ld : length d ≡ 2) where
  abbrev fields : Bytes
  fields = a ++ (b ++ (c ++ (d ++ e)))

  drop_1 : drop 1 fields ≡ b ++ (c ++ (d ++ e))
  drop_1 = drop_left 1 a _ la

  drop_9 : drop 9 fields ≡ c ++ (d ++ e)
  drop_9 = sym (drop-drop 1 8 fields) ∙ ap (drop 8) drop_1 ∙ drop_left 8 b _ lb

  drop_11 : drop 11 fields ≡ d ++ e
  drop_11 = sym (drop-drop 9 2 fields) ∙ ap (drop 2) drop_9 ∙ drop_left 2 c _ lc

  drop_13 : drop 13 fields ≡ e
  drop_13 = sym (drop-drop 11 2 fields) ∙ ap (drop 2) drop_11 ∙ drop_left 2 d _ ld

  length-fields : length fields ≡ 13 + length e
  length-fields = omega (
    arith,
    length-append a (b ++ (c ++ (d ++ e))),
    length-append b (c ++ (d ++ e)),
    length-append c (d ++ e),
    length-append d e,
  )

four_bytes-eq : (s : Bytes) → length s ≡ 4 → four_bytes s ≡ s
unfolding four_bytes
four_bytes-eq s h = take_left 4 s _ h

module _ (a b c d e : Bytes) (la : length a ≡ 1) (lb : length b ≡ 8) (lc : length c ≡ 2)
    (ld : length d ≡ 2) (le : length e ≡ 4) where
  -- Five fields of the header's widths are read back as they stand.
  unpack_fields :
      unpack_data (fields a b c d e la lb lc ld)
      ≡ ok (record {
        msg_type = from_be 0 a;
        seq = from_be 0 b;
        src_port = from_be 0 c;
        dst_port = from_be 0 d;
        target_ip = e;
      })
  unfolding unpack_data
  unpack_fields =
      rw
        (
          drop_1 a b c d e la lb lc ld,
          drop_9 a b c d e la lb lc ld,
          drop_11 a b c d e la lb lc ld,
          drop_13 a b c d e la lb lc ld,
          take_left 1 a (b ++ (c ++ (d ++ e))) la,
          take_left 8 b (c ++ (d ++ e)) lb,
          take_left 2 c (d ++ e) lc,
          take_left 2 d e ld,
        )
        (ground (arith, length-fields a b c d e la lb lc ld))

-- A header whose fields are in range is packed into 17 bytes; behind them any payload may stand, and
-- the receiver's slices give back the header and that payload.
pub data_round_trip :
    (h : DataHeader) (payload : Bytes)
    → InRange h
    → (packed : Bytes) × (pack_data h ≡ ok packed)
      × (length packed ≡ data_header_size)
      × (unpack_data (take data_header_size (packed ++ payload)) ≡ ok h)
      × (drop data_header_size (packed ++ payload) ≡ payload)
unfolding pack_data
data_round_trip h payload r = (
  packed,
  ground (arith, four_bytes-eq h.target_ip),
  long,
  rw (take_left 17 packed payload long) read,
  drop_left 17 packed payload long,
)
  where
    a : Bytes
    a = to_be 1 h.msg_type

    b : Bytes
    b = to_be 8 h.seq

    c : Bytes
    c = to_be 2 h.src_port

    d : Bytes
    d = to_be 2 h.dst_port

    packed : Bytes
    packed = a ++ (b ++ (c ++ (d ++ h.target_ip)))

    long : length packed ≡ 17
    long = omega (
      arith,
      length-fields a b c d h.target_ip (length-to_be 1 _) (length-to_be 8 _) (length-to_be 2 _)
          (length-to_be 2 _),
      r.target_ip,
    )

    read : unpack_data packed ≡ ok h
    read =
        unpack_fields a b c d h.target_ip (length-to_be 1 _) (length-to_be 8 _) (length-to_be 2 _)
          (length-to_be 2 _) r.target_ip
        ∙ rw (
          from_be-to_be 1 h.msg_type r.msg_type,
          from_be-to_be 8 h.seq r.seq,
          from_be-to_be 2 h.src_port r.src_port,
          from_be-to_be 2 h.dst_port r.dst_port,
        )

-- A header with a field that does not fit its width is refused, whatever else it holds.
pub pack_data_refuses :
    (h : DataHeader)
    → (256 ≤ h.msg_type) ⊎ ((256 ^ 8 ≤ h.seq) ⊎ ((256 ^ 2 ≤ h.src_port) ⊎ (256 ^ 2 ≤ h.dst_port)))
    → pack_data h ≡ raised struct_error
unfolding pack_data
pack_data_refuses h w = ground arith

-- An acknowledgement of nine bytes carries its sequence number, whatever stands behind it.
pub ack_round_trip :
    (seq : ℕ) (rest : Bytes)
    → seq < 256 ^ 8
    → (packed : Bytes) × (pack_ack seq ≡ ok packed)
      × (length packed ≡ ack_header_size)
      × (unpack_ack (take ack_header_size (packed ++ rest)) ≡ ok seq)
unfolding pack_ack unpack_ack
ack_round_trip seq rest r = (
  packed,
  ground arith,
  long,
  rw (take_left 9 packed rest long, drop_left 1 (to_be 1 1) (to_be 8 seq) (length-to_be 1 1))
      (ground (arith, from_be-to_be 8 seq r, long)),
)
  where
    packed : Bytes
    packed = to_be 1 1 ++ to_be 8 seq

    long : length packed ≡ 9
    long =
        omega (arith, length-append (to_be 1 1) (to_be 8 seq), length-to_be 1 1, length-to_be 8 seq)
