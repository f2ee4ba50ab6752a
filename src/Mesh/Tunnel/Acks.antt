-- ===== src/Mesh/Tunnel/Acks.antt =====
-- An acknowledgement on its way back: what it changes at the sender of the packet.
use dead_nodes_tell_no_tales.Prelude.{
  ℕ, ◌^◌, ◌<◌, ◌≤◌, Bytes, Text, false, none, ◌∷◌, ◌++◌, length, take, ltb, length-append,
  text_discrete, ℕ_discrete, if_neg, ◌≡◌, ◌≢◌, refl, Bool-cases, inl, inr, sym, ap, ◌∙◌, subst,
  arith,
}
use dead_nodes_tell_no_tales.Outcome.{Outcome, ok}
use dead_nodes_tell_no_tales.Config.{Settings}
use dead_nodes_tell_no_tales.Dict.{get?, has}
use dead_nodes_tell_no_tales.Dict.Laws.{get?-remove, none_of_has}
use dead_nodes_tell_no_tales.Wire.{ack_header_size, to_be, pack_ack, unpack_ack}
use dead_nodes_tell_no_tales.Wire.RoundTrip.{ack_round_trip}
use dead_nodes_tell_no_tales.Node.{Node, Peer}
use dead_nodes_tell_no_tales.Node.Peers.{
  peer_at, get_peer, update_peer, peer_at-get_peer, peer_at-update_peer, peer_at-update_peer_self,
}
use dead_nodes_tell_no_tales.Exec.{◌>>=◌}
use dead_nodes_tell_no_tales.Mesh.Tunnel.{receive_ack, dispatch, acknowledge, datagram_received}

ack_type :
    (seq : ℕ) (packed : Bytes) → pack_ack seq ≡ ok packed → (rest : Bytes) × (packed ≡ 1 ∷ rest)
unfolding pack_ack to_be
ack_type seq packed e = (to_be 8 seq, ground (arith, e))

-- The packet `seq` to `ip` waits no more; no other packet, number or peer is touched.
pub record Acknowledged (seq : ℕ) (ip : Text) (n : Node) (r : Outcome (Unit {0}) × Node)
    : Type 0 where
  pub returned : r.0 ≡ ok tt
  pub gone : get? ℕ_discrete (peer_at r.1 ip).unacked seq ≡ none
  pub kept :
      (k : ℕ)
      → seq ≢ k
      → get? ℕ_discrete (peer_at r.1 ip).unacked k ≡ get? ℕ_discrete (peer_at n ip).unacked k
  pub send_seq : (peer_at r.1 ip).send_seq ≡ (peer_at n ip).send_seq
  pub recv_seq : (peer_at r.1 ip).recv_seq ≡ (peer_at n ip).recv_seq
  pub recv_buffer : (peer_at r.1 ip).recv_buffer ≡ (peer_at n ip).recv_buffer
  pub others : (j : Text) → ip ≢ j → peer_at r.1 j ≡ peer_at n j

module _ (seq : ℕ) (p : Peer) where
  gone-acknowledge : get? ℕ_discrete (acknowledge seq p).unacked seq ≡ none
  unfolding acknowledge
  gone-acknowledge =
      ground (arith, get?-remove ℕ_discrete p.unacked seq seq, none_of_has ℕ_discrete p.unacked seq)

  kept-acknowledge :
      (k : ℕ)
      → seq ≢ k
      → get? ℕ_discrete (acknowledge seq p).unacked k ≡ get? ℕ_discrete p.unacked k
  unfolding acknowledge
  kept-acknowledge k ne = ground (arith, get?-remove ℕ_discrete p.unacked seq k, ne)

  pub send_seq-acknowledge : (acknowledge seq p).send_seq ≡ p.send_seq
  unfolding acknowledge
  send_seq-acknowledge = ground arith

  recv_seq-acknowledge : (acknowledge seq p).recv_seq ≡ p.recv_seq
  unfolding acknowledge
  recv_seq-acknowledge = ground arith

  recv_buffer-acknowledge : (acknowledge seq p).recv_buffer ≡ p.recv_buffer
  unfolding acknowledge
  recv_buffer-acknowledge = elim (Bool-cases (has ℕ_discrete p.unacked seq)) [
    | inl e ↦ rw e refl
    | inr e ↦ rw e refl
  ]

module _ (env : Settings) where
  ack_dispatched :
      (ip : Text) (rest : Bytes) (n : Node)
      → 4 ≤ length rest
      → datagram_received env (1 ∷ rest) ip n ≡ receive_ack env ip (1 ∷ rest) (get_peer ip n)
  unfolding datagram_received dispatch ◌>>=◌
  ack_dispatched ip rest n h =
      let enough : ltb (length (1 ∷ rest)) 5 ≡ false = ground arith in rw enough refl

  receive_ack_run :
      (seq : ℕ) (ip : Text) (datagram : Bytes) (n : Node)
      → ack_header_size ≤ length datagram
      → unpack_ack (take ack_header_size datagram) ≡ ok seq
      → receive_ack env ip datagram n ≡ (ok tt, update_peer ip (acknowledge seq) n)
  unfolding receive_ack ◌>>=◌
  receive_ack_run seq ip datagram n long read =
      let enough : ltb (length datagram) ack_header_size ≡ false = ground arith in
      rw (enough, read) refl

  Acknowledged-update :
      (seq : ℕ) (ip : Text) (n : Node)
      → Acknowledged seq ip n (ok tt, update_peer ip (acknowledge seq) (get_peer ip n))
  Acknowledged-update seq ip n = record {
    returned = refl;
    gone = rw peer (gone-acknowledge seq (peer_at n ip));
    kept = λ k ne. rw peer (kept-acknowledge seq (peer_at n ip) k ne);
    send_seq = rw peer (send_seq-acknowledge seq (peer_at n ip));
    recv_seq = rw peer (recv_seq-acknowledge seq (peer_at n ip));
    recv_buffer = rw peer (recv_buffer-acknowledge seq (peer_at n ip));
    others = λ j ne.
        peer_at-update_peer (get_peer ip n) ip (acknowledge seq) j
        ∙ (if_neg (text_discrete ip j) ne _ _ ∙ peer_at-get_peer n ip j);
  }
    where
      peer :
          peer_at (update_peer ip (acknowledge seq) (get_peer ip n)) ip
          ≡ acknowledge seq (peer_at n ip)
      peer =
          peer_at-update_peer_self (get_peer ip n) ip (acknowledge seq)
          ∙ ap (acknowledge seq) (peer_at-get_peer n ip ip)

  unpacked_ack :
      (seq : ℕ) (ip : Text) (rest : Bytes) (n : Node)
      → 8 ≤ length rest
      → unpack_ack (take ack_header_size (1 ∷ rest)) ≡ ok seq
      → datagram_received env (1 ∷ rest) ip n
        ≡ (ok tt, update_peer ip (acknowledge seq) (get_peer ip n))
  unpacked_ack seq ip rest n long read =
      ack_dispatched ip rest n (omega arith)
      ∙ receive_ack_run seq ip (1 ∷ rest) (get_peer ip n) (omega arith) read

  pub ack_run :
      (seq : ℕ) (ack trailer : Bytes) (ip : Text) (n : Node)
      → seq < 256 ^ 8
      → pack_ack seq ≡ ok ack
      → datagram_received env (ack ++ trailer) ip n
        ≡ (ok tt, update_peer ip (acknowledge seq) (get_peer ip n))
  ack_run seq ack trailer ip n fits made =
      let (same, packs, long, read) = ack_round_trip seq trailer fits in
      let (rest, one_first) = ack_type seq same packs in
      subst
        (λ a.
          datagram_received env (a ++ trailer) ip n
          ≡ (ok tt, update_peer ip (acknowledge seq) (get_peer ip n)))
        (ground (arith, made, packs))
        (subst
          (λ a.
            datagram_received env (a ++ trailer) ip n
            ≡ (ok tt, update_peer ip (acknowledge seq) (get_peer ip n)))
          (sym one_first)
          (unpacked_ack seq ip (rest ++ trailer) n
            (omega (arith, length-append rest trailer, ap length one_first, long))
            (subst (λ a. unpack_ack (take ack_header_size (a ++ trailer)) ≡ ok seq) one_first
              read)))

  -- The acknowledgement of a number of 64 bits, whatever stands behind it, takes the packet of this number
  -- to its sender out of those that wait, and changes nothing else that a peer holds.
  pub ack_received :
      (seq : ℕ) (ack trailer : Bytes) (ip : Text) (n : Node)
      → seq < 256 ^ 8
      → pack_ack seq ≡ ok ack
      → Acknowledged seq ip n (datagram_received env (ack ++ trailer) ip n)
  ack_received seq ack trailer ip n fits made =
      rw (ack_run seq ack trailer ip n fits made) (Acknowledged-update seq ip n)
