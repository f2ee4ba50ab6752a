-- ===== src/Mesh/Tunnel/Packets.antt =====
-- Whole datagrams on the tunnel: what `datagram_received` does with a packet that the other side packed.
use dead_nodes_tell_no_tales.Prelude.{
  ◌≤◌, Bytes, Text, true, false, [], ◌∷◌, ◌++◌, length, take, drop, ltb, length-append, ◌≡◌, refl,
  sym, ap, ◌∙◌, subst, arith,
}
use dead_nodes_tell_no_tales.Outcome.{ok}
use dead_nodes_tell_no_tales.Config.{Settings}
use dead_nodes_tell_no_tales.Address.{inet_ntoa}
use dead_nodes_tell_no_tales.Wire.{
  DataHeader, data_header_size, to_be, four_bytes, pack_data, unpack_data, pack_ack,
}
use dead_nodes_tell_no_tales.Wire.RoundTrip.{InRange, data_round_trip, ack_round_trip}
use dead_nodes_tell_no_tales.Node.{Node, Buffered, tunnelled}
use dead_nodes_tell_no_tales.Node.Peers.{get_peer, emit, tunnel_open-get_peer}
use dead_nodes_tell_no_tales.Exec.{◌>>=◌}
use dead_nodes_tell_no_tales.Mesh.Send.{tunnel_send}
use dead_nodes_tell_no_tales.Mesh.Deliver.{process_and_deliver}
use dead_nodes_tell_no_tales.Mesh.Tunnel.{receive, receive_data, dispatch, datagram_received}

-- The first byte of a packet is its type.
data_type :
    (h : DataHeader) (packed : Bytes)
    → pack_data h ≡ ok packed
    → h.msg_type ≡ 0
    → (rest : Bytes) × (packed ≡ 0 ∷ rest)
unfolding pack_data to_be
data_type h packed e zero_type = (
  to_be 8 h.seq ++ (to_be 2 h.src_port ++ (to_be 2 h.dst_port ++ four_bytes h.target_ip)),
  ground (arith, e, zero_type),
)

-- What the receiver's slices give of a packed header with a payload behind it.
record Unpacked (h : DataHeader) (payload packed : Bytes) : Type 0 where
  long : length packed ≡ data_header_size
  read : unpack_data (take data_header_size (packed ++ payload)) ≡ ok h
  back : drop data_header_size (packed ++ payload) ≡ payload

Unpacked-packed :
    (h : DataHeader) (payload packed : Bytes)
    → InRange h
    → pack_data h ≡ ok packed
    → Unpacked h payload packed
Unpacked-packed h payload packed r packs =
    let (same, packs_same, long, read, back) = data_round_trip h payload r in
    subst (Unpacked h payload) (ground (arith, packs, packs_same))
      (record { long = long; read = read; back = back })

inet_ntoa-four : (b : Bytes) → length b ≡ 4 → (local : Text) × (inet_ntoa b ≡ ok local)
unfolding inet_ntoa
inet_ntoa-four [] h = absurd (omega arith)
inet_ntoa-four (a ∷ []) h = absurd (omega arith)
inet_ntoa-four (a ∷ b ∷ []) h = absurd (omega arith)
inet_ntoa-four (a ∷ b ∷ c ∷ []) h = absurd (omega arith)
inet_ntoa-four (a ∷ b ∷ c ∷ d ∷ []) h = (_, refl)
inet_ntoa-four (a ∷ b ∷ c ∷ d ∷ e ∷ rest) h = absurd (omega arith)

-- What stands in the receive buffer, or is delivered, for a data packet.
abbrev pub content : DataHeader → Bytes → Text → Buffered
content h payload local = record {
  payload = payload;
  src_port = h.src_port;
  dst_port = h.dst_port;
  local_ip = local;
}

module _ (env : Settings) where
  receive_data_run :
      (h : DataHeader) (payload packed ack : Bytes) (local ip : Text) (n : Node)
      → length packed ≡ data_header_size
      → unpack_data (take data_header_size (packed ++ payload)) ≡ ok h
      → drop data_header_size (packed ++ payload) ≡ payload
      → inet_ntoa h.target_ip ≡ ok local
      → pack_ack h.seq ≡ ok ack
      → n.tunnel_open ≡ true
      → receive_data env ip (packed ++ payload) n
        ≡ receive
            (process_and_deliver env)
            ip
            h.seq
            (content h payload local)
            (emit (tunnelled ack ip) n)
  unfolding receive_data tunnel_send ◌>>=◌
  receive_data_run h payload packed ack local ip n long read back address made opened =
      let enough : ltb (length (packed ++ payload)) data_header_size ≡ false =
        ground (arith, length-append packed payload, long) in
      rw (enough, read, address, made, opened, back) refl

  data_dispatched :
      (ip : Text) (rest : Bytes) (n : Node)
      → 4 ≤ length rest
      → datagram_received env (0 ∷ rest) ip n ≡ receive_data env ip (0 ∷ rest) (get_peer ip n)
  unfolding datagram_received dispatch ◌>>=◌
  data_dispatched ip rest n h =
      let enough : ltb (length (0 ∷ rest)) 5 ≡ false = ground arith in rw enough refl

  -- A packet of type 0 that was packed from a header in range, to a node whose tunnel is open, is
  -- acknowledged with its number, whatever that is, and then its payload is received under the number,
  -- the ports and the address of the header.
  pub data_received :
      (h : DataHeader) (payload packed : Bytes) (ip : Text) (n : Node)
      → InRange h
      → h.msg_type ≡ 0
      → pack_data h ≡ ok packed
      → n.tunnel_open ≡ true
      → (ack : Bytes) × (local : Text) × (pack_ack h.seq ≡ ok ack)
        × (inet_ntoa h.target_ip ≡ ok local)
        × (datagram_received env (packed ++ payload) ip n
            ≡ receive
                (process_and_deliver env)
                ip
                h.seq
                (content h payload local)
                (emit (tunnelled ack ip) (get_peer ip n)))
  data_received h payload packed ip n r type packs opened = (
    ack,
    local,
    made,
    address,
    dispatched
        ∙ receive_data_run h payload packed ack local ip (get_peer ip n) u.long u.read u.back
            address made (tunnel_open-get_peer n ip ∙ opened),
  )
    where
      u : Unpacked h payload packed
      u = Unpacked-packed h payload packed r packs

      rest : Bytes
      rest = (data_type h packed packs type).0

      zero_first : packed ≡ 0 ∷ rest
      zero_first = (data_type h packed packs type).1

      dispatched :
          datagram_received env (packed ++ payload) ip n
          ≡ receive_data env ip (packed ++ payload) (get_peer ip n)
      dispatched =
          subst
            (λ p.
              datagram_received env (p ++ payload) ip n
              ≡ receive_data env ip (p ++ payload) (get_peer ip n))
            (sym zero_first)
            (data_dispatched ip (rest ++ payload) n
              (omega (arith, length-append rest payload, ap length zero_first, u.long)))

      local : Text
      local = (inet_ntoa-four h.target_ip r.target_ip).0

      address : inet_ntoa h.target_ip ≡ ok local
      address = (inet_ntoa-four h.target_ip r.target_ip).1

      ack : Bytes
      ack = (ack_round_trip h.seq [] r.seq).0

      made : pack_ack h.seq ≡ ok ack
      made = (ack_round_trip h.seq [] r.seq).1
