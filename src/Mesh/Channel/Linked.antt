-- ===== src/Mesh/Channel/Linked.antt =====
-- The two sides of a channel together, along a run.
use mathlib.Core.List.{append-nil}
use dead_nodes_tell_no_tales.Prelude.{
  ℕ, ◌+◌, ◌<◌, Bytes, Text, true, false, List, [], ◌∷◌, ◌++◌, length, ◌≡◌, refl, sym, ap, ◌∙◌,
  subst, ◌⊎◌, inl, inr, ite, ℕ_discrete, arith, Bool-cases, All-∈, ◌∈◌,
}
use dead_nodes_tell_no_tales.Outcome.{Error, Outcome, ok, raised}
use dead_nodes_tell_no_tales.Config.{Settings}
use dead_nodes_tell_no_tales.Dict.{get?, has, mem}
use dead_nodes_tell_no_tales.Dict.Laws.{has-put, has-remove}
use dead_nodes_tell_no_tales.Wire.{pack_data}
use dead_nodes_tell_no_tales.Node.{Node, Peer, tunnelled}
use dead_nodes_tell_no_tales.Node.Peers.{
  peer_at, update_peer, get_peer, emit, peer_at-update_peer_self, peer_at-get_peer,
}
use dead_nodes_tell_no_tales.Exec.{◌>>=◌}
use dead_nodes_tell_no_tales.Snapshot.Marker.{is_marker}
use dead_nodes_tell_no_tales.Mesh.Spoof.Effects.{handed, tunnels}
use dead_nodes_tell_no_tales.Mesh.Send.{send_data, track}
use dead_nodes_tell_no_tales.Mesh.Send.Effects.{data_header, send_data_run}
use dead_nodes_tell_no_tales.Mesh.Timer.{retransmit_round}
use dead_nodes_tell_no_tales.Mesh.Timer.Resent.{Resent-retransmit_round}
use dead_nodes_tell_no_tales.Mesh.Tunnel.{acknowledge, datagram_received}
use dead_nodes_tell_no_tales.Mesh.Tunnel.Acks.{ack_run}
use dead_nodes_tell_no_tales.Mesh.Tunnel.Stream.{Holds-new, IsFlushed-new}
use dead_nodes_tell_no_tales.Mesh.Channel.{
  Outgoing, IsFresh, Run, start, send, wait, resend, arrive, acked, send_next,
}
use dead_nodes_tell_no_tales.Mesh.Channel.Sender.{OnWire, Sender, Sender-acknowledge, Sender-send}
use dead_nodes_tell_no_tales.Mesh.Channel.Resend.{check_timeout-idle, Sender-resend}
use dead_nodes_tell_no_tales.Mesh.Channel.Receiver.{
  OnReturn, Receiver, Receiver-suc, Receiver-arrive,
}

has-acknowledge :
    (seq k : ℕ) (p : Peer)
    → ¬ (seq ≡ k)
    → has ℕ_discrete (acknowledge seq p).unacked k ≡ has ℕ_discrete p.unacked k
unfolding acknowledge
has-acknowledge seq k p ne = ground (arith, has-remove ℕ_discrete p.unacked seq k, ne)

has-track :
    (now k : ℕ) (packet : Bytes) (p : Peer)
    → has ℕ_discrete (track now packet p).unacked k
      ≡ ite (ℕ_discrete p.send_seq k) true (has ℕ_discrete p.unacked k)
unfolding track
has-track now k packet p =
    has-put ℕ_discrete p.unacked p.send_seq (record { sent_at = now; packet = packet }) k

send_data_refused :
    (ip : Text) (src_port dst_port : ℕ) (target_ip payload : Bytes) (n : Node) (e : Error)
    → pack_data (data_header (peer_at n ip).send_seq src_port dst_port target_ip) ≡ raised e
    → send_data ip src_port dst_port target_ip payload n ≡ (raised e, n)
unfolding send_data ◌>>=◌
send_data_refused ip src_port dst_port target_ip payload n e refused = rw refused refl

module _ (from_env to_env : Settings) (from to : Text) (m : ℕ → Outgoing)
    (plain : (k : ℕ) → is_marker (m k).payload ≡ false)
    (four : (k : ℕ) → length (m k).target_ip ≡ 4) where
  -- The datagram `k` waits to be acknowledged, or has come in.
  abbrev pub InHand : List ℕ → Node → ℕ → Type 0
  InHand seen s k =
      (has ℕ_discrete (peer_at s to).unacked k ≡ true) ⊎ (mem ℕ_discrete seen k ≡ true)

  pub record Linked (s r : Node) : Type 0 where
    pub bound : ℕ
    pub seen : List ℕ
    pub sender : Sender to m bound s
    pub receiver : Receiver to_env from to m plain four bound seen r
    pub in_hand : (k : ℕ) → k < bound → InHand seen s k

  Linked-start : (s r : Node) → IsFresh s → IsFresh r → Linked s r
  unfolding tunnels handed mem get?
  Linked-start s r fs fr = record {
    bound = 0;
    seen = [];
    sender = record {
      tunnel = fs.tunnel;
      quiet = fs.idle;
      carries = record { wire = rw fs.events tt; waiting = rw fs.peers tt };
      count = rw fs.peers refl;
    };
    receiver = record {
      idle = fr.idle;
      tunnel = fr.tunnel;
      holds = Holds-new _ 0 (peer_at r from) (rw fr.peers refl) (rw fr.peers refl);
      flushed = IsFlushed-new (peer_at r from) (rw fr.peers refl);
      logged = rw (fr.events, fr.peers) refl;
      acks = rw fr.events tt;
      known = λ k h. absurd (ground arith);
    };
    in_hand = λ k lt. absurd (omega arith);
  }

  -- The sender after the datagram `k` has been sent with a header.
  abbrev sent : ℕ → Bytes → Node → Node
  sent k header s =
      update_peer to (track s.clock (header ++ (m k).payload))
        (emit (tunnelled (header ++ (m k).payload) to) s)

  has-sent :
      (k j : ℕ) (header : Bytes) (s : Node)
      → (peer_at s to).send_seq ≡ k
      → has ℕ_discrete (peer_at (sent k header s) to).unacked j
        ≡ ite (ℕ_discrete k j) true (has ℕ_discrete (peer_at s to).unacked j)
  unfolding emit
  has-sent k j header s next =
      ap (λ (p : Peer). has ℕ_discrete p.unacked j)
        (peer_at-update_peer_self (emit (tunnelled (header ++ (m k).payload) to) s) to
          (track s.clock (header ++ (m k).payload)))
      ∙ (has-track s.clock j (header ++ (m k).payload) (peer_at s to)
          ∙ ap (λ i. ite (ℕ_discrete i j) true (has ℕ_discrete (peer_at s to).unacked j)) next)

  Linked-sent :
      (header : Bytes) (s r : Node) (l : Linked s r)
      → pack_data
          (data_header l.bound (m l.bound).src_port (m l.bound).dst_port (m l.bound).target_ip)
        ≡ ok header
      → Linked (sent l.bound header s) r
  Linked-sent header s r l packed = record {
    bound = l.bound + 1;
    seen = l.seen;
    sender = Sender-send to m l.bound header s packed l.sender;
    receiver = Receiver-suc to_env from to m plain four l.bound l.seen r l.receiver;
    in_hand = λ k lt. elim (Bool-cases (mem ℕ_discrete l.seen k)) [
      | inl came ↦ inr came
      | inr missing ↦ inl (has-sent l.bound k header s l.sender.count ∙ ground (arith, l.in_hand k))
    ];
  }

  Linked-send : (s r : Node) → Linked s r → Linked (send_next from_env to_env from to m s) r
  Linked-send s r l =
      subst (λ n. Linked n r)
        (sym (
          ap (λ k. (send_data to (m k).src_port (m k).dst_port (m k).target_ip (m k).payload s).1)
            l.sender.count))
        (by_header _ refl)
    where
      k : ℕ
      k = l.bound

      by_header :
          (o : Outcome Bytes)
          → pack_data (data_header k (m k).src_port (m k).dst_port (m k).target_ip) ≡ o
          → Linked (send_data to (m k).src_port (m k).dst_port (m k).target_ip (m k).payload s).1 r
      by_header (ok header) e =
          rw
            (send_data_run to (m k).src_port (m k).dst_port (m k).target_ip (m k).payload header s
              l.sender.tunnel (rw l.sender.count e))
            (Linked-sent header s r l e)
      by_header (raised x) e =
          rw
            (send_data_refused to (m k).src_port (m k).dst_port (m k).target_ip (m k).payload s x
              (rw l.sender.count e))
            l

  Linked-wait : (s r : Node) (now : ℕ) → Linked s r → Linked (record s { clock = now }) r
  Linked-wait s r now l = record {
    bound = l.bound;
    seen = l.seen;
    sender = record {
      tunnel = l.sender.tunnel;
      quiet = l.sender.quiet;
      carries = record { wire = l.sender.carries.wire; waiting = l.sender.carries.waiting };
      count = l.sender.count;
    };
    receiver = l.receiver;
    in_hand = l.in_hand;
  }

  Linked-resend : (s r : Node) → Linked s r → Linked (retransmit_round from_env s).1 r
  Linked-resend s r l = record {
    bound = l.bound;
    seen = l.seen;
    sender = Sender-resend to m l.bound from_env s l.sender;
    receiver = l.receiver;
    in_hand = λ k lt. elim (l.in_hand k lt) [
      | inl w ↦ inl (
          (Resent-retransmit_round from_env s l.sender.tunnel
              (check_timeout-idle to m l.bound from_env s l.sender)).waiting
            to k w)
      | inr c ↦ inr c
    ];
  }

  Linked-arrive :
      (packet : Bytes) (s r : Node)
      → (packet, to) ∈ tunnels s.events
      → Linked s r
      → Linked s (datagram_received to_env packet from r).1
  unfolding OnWire mem
  Linked-arrive packet s r on l =
      let (k, lt, is) =
        All-∈ (OnWire to m l.bound) (tunnels s.events) (packet, to) l.sender.carries.wire on refl in
      record {
        bound = l.bound;
        seen = k ∷ l.seen;
        sender = l.sender;
        receiver =
            Receiver-arrive to_env from to m plain four l.bound l.seen k packet r lt is l.receiver;
        in_hand = λ j h. elim (l.in_hand j h) [ inl w ↦ inl w | inr c ↦ inr (ground (arith, c)) ];
      }

  has-acknowledged :
      (k j : ℕ) (s : Node)
      → ¬ (k ≡ j)
      → has ℕ_discrete (peer_at (update_peer to (acknowledge k) (get_peer to s)) to).unacked j
        ≡ has ℕ_discrete (peer_at s to).unacked j
  has-acknowledged k j s ne =
      ap (λ (p : Peer). has ℕ_discrete p.unacked j)
        (peer_at-update_peer_self (get_peer to s) to (acknowledge k))
      ∙ (has-acknowledge k j (peer_at (get_peer to s) to) ne
          ∙ ap (λ (p : Peer). has ℕ_discrete p.unacked j) (peer_at-get_peer s to to))

  Linked-acked :
      (packet : Bytes) (s r : Node)
      → (packet, from) ∈ tunnels r.events
      → Linked s r
      → Linked (datagram_received from_env packet to s).1 r
  unfolding OnReturn
  Linked-acked packet s r on l =
      let (k, fits, is, came) =
        All-∈ (OnReturn to_env from to m plain four l.seen) (tunnels r.events) (packet, from)
          l.receiver.acks on refl in
      rw
        (ap (λ p. datagram_received from_env p to s) (sym (append-nil packet))
          ∙ ack_run from_env k packet [] to s fits is)
        (record {
          bound = l.bound;
          seen = l.seen;
          sender = Sender-acknowledge to m l.bound k s l.sender;
          receiver = l.receiver;
          in_hand = λ j lt. elim (ℕ_discrete k j) [
            | yes e ↦ inr (subst (λ i. mem ℕ_discrete l.seen i ≡ true) e came)
            | no ne ↦ elim (l.in_hand j lt) [
              | inl w ↦ inl (has-acknowledged k j s ne ∙ w)
              | inr c ↦ inr c
            ]
          ];
        })

  pub Run-Linked : {s r : Node} → Run from_env to_env from to m s r → Linked s r
  Run-Linked {s} {r} (start fs fr) = Linked-start s r fs fr
  Run-Linked (send {s} {r} run) = Linked-send s r (Run-Linked run)
  Run-Linked (wait {s} {r} now run) = Linked-wait s r now (Run-Linked run)
  Run-Linked (resend {s} {r} run) = Linked-resend s r (Run-Linked run)
  Run-Linked (arrive {s} {r} packet run on) = Linked-arrive packet s r on (Run-Linked run)
  Run-Linked (acked {s} {r} packet run on) = Linked-acked packet s r on (Run-Linked run)
