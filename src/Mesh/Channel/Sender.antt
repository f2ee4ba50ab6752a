-- ===== src/Mesh/Channel/Sender.antt =====
-- The sending side of a channel.
use dead_nodes_tell_no_tales.Prelude.{
  ℕ, ◌+◌, ◌<◌, Bytes, Text, true, false, [], ◌∷◌, ◌++◌, ◌≡◌, refl, sym, ap, ◌∙◌, inl, inr, ite,
  text_discrete, ℕ_discrete, arith, Option-cases, Bool-cases, All, All-append, All-map, subst,
}
use dead_nodes_tell_no_tales.Outcome.{ok}
use dead_nodes_tell_no_tales.Dict.{has, get?}
use dead_nodes_tell_no_tales.Dict.Sets.{All-entry, All-put, All-remove}
use dead_nodes_tell_no_tales.Wire.{pack_data}
use dead_nodes_tell_no_tales.Node.{Node, Peer, Sent, Controller, fresh_peer, tunnelled}
use dead_nodes_tell_no_tales.Node.Peers.{
  peer_at, update_peer, get_peer, emit, peer_at-update_peer, peer_at-update_peer_self,
  tunnel_open-get_peer, snapshot_ctrl-get_peer, peer_at-get_peer,
}
use dead_nodes_tell_no_tales.Mesh.Send.{track}
use dead_nodes_tell_no_tales.Mesh.Tunnel.{acknowledge}
use dead_nodes_tell_no_tales.Mesh.Tunnel.Acks.{send_seq-acknowledge}
use dead_nodes_tell_no_tales.Mesh.Send.Effects.{data_header, send_seq-track}
use dead_nodes_tell_no_tales.Mesh.Spoof.Effects.{tunnels, tunnels-append}
use dead_nodes_tell_no_tales.Mesh.Channel.{Outgoing}

module _ (to : Text) (m : ℕ → Outgoing) where
  -- The packet of the datagram of a number.
  pub record IsPacket (k : ℕ) (packet : Bytes) : Type 0 where
    pub header : Bytes
    pub packed : pack_data (data_header k (m k).src_port (m k).dst_port (m k).target_ip) ≡ ok header
    pub whole : packet ≡ header ++ (m k).payload

  -- An entry of `unacked`, when so many have been sent.
  unfoldable pub Numbered : ℕ → ℕ × Sent → Type 0
  Numbered bound (k, sent) = (k < bound) × IsPacket k sent.packet

  unfoldable pub OnWire : ℕ → Bytes × Text → Type 0
  OnWire bound (packet, ip) = ip ≡ to → (k : ℕ) × (k < bound) × IsPacket k packet

  unfoldable pub Waiting : ℕ → Text × Peer → Type 0
  Waiting bound (ip, p) = ip ≡ to → All (Numbered bound) p.unacked

  -- All packets to the receiver, those on the tunnel and those that wait, are of datagrams sent so far.
  pub record Carries (bound : ℕ) (n : Node) : Type 0 where
    pub wire : All (OnWire bound) (tunnels n.events)
    pub waiting : All (Waiting bound) n.peers

  Numbered-suc : (bound : ℕ) (e : ℕ × Sent) → Numbered bound e → Numbered (bound + 1) e
  unfolding Numbered
  Numbered-suc bound (k, sent) h = (omega (arith, h.0), h.1)

  pub Carries-suc : (bound : ℕ) (n : Node) → Carries bound n → Carries (bound + 1) n
  unfolding OnWire Waiting
  Carries-suc bound n c = record {
    wire =
        All-map (OnWire bound) (OnWire (bound + 1)) (tunnels n.events)
          (λ e h here. let (k, lt, is) = h here in (k, omega (arith, lt), is)) c.wire;
    waiting =
        All-map (Waiting bound) (Waiting (bound + 1)) n.peers
          (λ e h here.
            All-map (Numbered bound) (Numbered (bound + 1)) e.1.unacked (Numbered-suc bound)
              (h here))
          c.waiting;
  }

  -- What waits for the receiver.
  pub All-peer_at :
      (bound : ℕ) (n : Node)
      → All (Waiting bound) n.peers
      → All (Numbered bound) (peer_at n to).unacked
  unfolding Waiting
  All-peer_at bound n c = elim (Option-cases (get? text_discrete n.peers to)) [
    | inl e ↦ rw e tt
    | inr (p, e) ↦ rw e (All-entry text_discrete (Waiting bound) n.peers to p c e refl)
  ]

  pub Carries-emit :
      (bound : ℕ) (packet : Bytes) (ip : Text) (n : Node)
      → Carries bound n
      → OnWire bound (packet, ip)
      → Carries bound (emit (tunnelled packet ip) n)
  unfolding emit tunnels
  Carries-emit bound packet ip n c h = record {
    wire =
        rw (tunnels-append n.events (tunnelled packet ip ∷ []))
          (All-append (OnWire bound) (tunnels n.events) ((packet, ip) ∷ []) c.wire (h, tt));
    waiting = c.waiting;
  }

  pub Carries-update :
      (bound : ℕ) (ip : Text) (f : Peer → Peer) (n : Node)
      → Carries bound n
      → Waiting bound (ip, f (peer_at n ip))
      → Carries bound (update_peer ip f n)
  unfolding update_peer
  Carries-update bound ip f n c h = record {
    wire = c.wire;
    waiting = All-put text_discrete (Waiting bound) n.peers ip (f (peer_at n ip)) c.waiting h;
  }

  -- The sender, when so many datagrams have been sent.
  pub record Sender (bound : ℕ) (n : Node) : Type 0 where
    pub tunnel : n.tunnel_open ≡ true
    pub quiet : n.snapshot_ctrl.is_snapshotting ≡ false
    pub carries : Carries bound n
    pub count : (peer_at n to).send_seq ≡ bound

  -- A write that keeps `send_seq`.
  send_seq-update :
      (n : Node) (ip : Text) (f : Peer → Peer)
      → ((p : Peer) → (f p).send_seq ≡ p.send_seq)
      → (peer_at (update_peer ip f n) to).send_seq ≡ (peer_at n to).send_seq
  send_seq-update n ip f same =
      ap (λ (p : Peer). p.send_seq) (peer_at-update_peer n ip f to)
      ∙ elim (text_discrete ip to)
          as (λ d. (ite d (f (peer_at n ip)) (peer_at n to)).send_seq ≡ (peer_at n to).send_seq) [
            | yes e ↦ same (peer_at n ip) ∙ ap (λ i. (peer_at n i).send_seq) e
            | no ne ↦ refl
          ]

  pub Sender-update :
      (bound : ℕ) (ip : Text) (f : Peer → Peer) (n : Node)
      → ((p : Peer) → (f p).send_seq ≡ p.send_seq)
      → Waiting bound (ip, f (peer_at n ip))
      → Sender bound n
      → Sender bound (update_peer ip f n)
  unfolding update_peer
  Sender-update bound ip f n same h c = record {
    tunnel = c.tunnel;
    quiet = c.quiet;
    carries = unfold update_peer in Carries-update bound ip f n c.carries h;
    count = send_seq-update n ip f same ∙ c.count;
  }

  pub Sender-emit :
      (bound : ℕ) (packet : Bytes) (ip : Text) (n : Node)
      → OnWire bound (packet, ip)
      → Sender bound n
      → Sender bound (emit (tunnelled packet ip) n)
  unfolding emit
  Sender-emit bound packet ip n h c = record {
    tunnel = c.tunnel;
    quiet = c.quiet;
    carries = unfold emit in Carries-emit bound packet ip n c.carries h;
    count = c.count;
  }

  Carries-get_peer :
      (bound : ℕ) (ip : Text) (n : Node) → Carries bound n → Carries bound (get_peer ip n)
  unfolding get_peer Waiting
  Carries-get_peer bound ip n c = elim (Bool-cases (has text_discrete n.peers ip)) [
    | inl e ↦ rw e c
    | inr e ↦ rw e (record {
      wire = c.wire;
      waiting = All-put text_discrete (Waiting bound) n.peers ip fresh_peer c.waiting (λ here. tt);
    })
  ]

  All-acknowledge :
      (bound seq : ℕ) (p : Peer)
      → All (Numbered bound) p.unacked
      → All (Numbered bound) (acknowledge seq p).unacked
  unfolding acknowledge
  All-acknowledge bound seq p h = elim (Bool-cases (has ℕ_discrete p.unacked seq)) [
    | inl e ↦ rw e (All-remove ℕ_discrete (Numbered bound) p.unacked seq h)
    | inr e ↦ rw e h
  ]

  -- The acknowledgement of a packet.
  pub Sender-acknowledge :
      (bound seq : ℕ) (n : Node)
      → Sender bound n
      → Sender bound (update_peer to (acknowledge seq) (get_peer to n))
  unfolding Waiting
  Sender-acknowledge bound seq n c =
      Sender-update bound to (acknowledge seq) (get_peer to n) (send_seq-acknowledge seq)
        (λ here.
          All-acknowledge bound seq (peer_at (get_peer to n) to)
            (rw (peer_at-get_peer n to to) (All-peer_at bound n c.carries.waiting)))
        (record {
          tunnel = tunnel_open-get_peer n to ∙ c.tunnel;
          quiet =
              ap (λ (k : Controller). k.is_snapshotting) (snapshot_ctrl-get_peer n to) ∙ c.quiet;
          carries = Carries-get_peer bound to n c.carries;
          count = ap (λ (p : Peer). p.send_seq) (peer_at-get_peer n to to) ∙ c.count;
        })

  All-track :
      (bound now : ℕ) (packet : Bytes) (p : Peer)
      → IsPacket bound packet
      → p.send_seq ≡ bound
      → All (Numbered (bound + 1)) p.unacked
      → All (Numbered (bound + 1)) (track now packet p).unacked
  unfolding track Numbered
  All-track bound now packet p is next h =
      All-put ℕ_discrete (Numbered (bound + 1)) p.unacked p.send_seq
        (record { sent_at = now; packet = packet }) (unfold Numbered in h)
        (omega (arith, next), subst (λ k. IsPacket k packet) (sym next) is)

  -- The datagram of the next number is sent.
  pub Sender-send :
      (bound : ℕ) (header : Bytes) (n : Node)
      → pack_data (data_header bound (m bound).src_port (m bound).dst_port (m bound).target_ip)
        ≡ ok header
      → Sender bound n
      → Sender (bound + 1) (
          update_peer to
            (track n.clock (header ++ (m bound).payload))
            (emit (tunnelled (header ++ (m bound).payload) to) n))
  unfolding update_peer emit OnWire Waiting
  Sender-send bound header n packed c =
      let more = Carries-suc bound n c.carries in
      record {
        tunnel = c.tunnel;
        quiet = c.quiet;
        carries =
            unfold update_peer emit in
            Carries-update (bound + 1) to (track n.clock (header ++ (m bound).payload)) _
              (Carries-emit (bound + 1) (header ++ (m bound).payload) to n more
                (λ here. (bound, omega arith, is)))
              (λ here.
                All-track bound n.clock (header ++ (m bound).payload) (peer_at n to) is c.count
                  (All-peer_at (bound + 1) n more.waiting));
        count =
            ap (λ (p : Peer). p.send_seq)
              (peer_at-update_peer_self n to (track n.clock (header ++ (m bound).payload)))
            ∙ (send_seq-track n.clock (header ++ (m bound).payload) (peer_at n to)
                ∙ ap (λ k. k + 1) c.count);
      }
    where
      is : IsPacket bound (header ++ (m bound).payload)
      is = record { header = header; packed = packed; whole = refl }
