-- ===== src/Mesh/Channel/Resend.antt =====
-- The sending side of a channel, when the retransmission loop runs.
use dead_nodes_tell_no_tales.Prelude.{
  ℕ, ◌-◌, Text, true, [], ◌∷◌, ltb, ◌≡◌, refl, sym, subst, inl, inr, ℕ_discrete, arith, Bool-cases,
  All,
}
use dead_nodes_tell_no_tales.Outcome.{Outcome, ok}
use dead_nodes_tell_no_tales.Config.{Settings, retry_timeout}
use dead_nodes_tell_no_tales.Dict.{Dict}
use dead_nodes_tell_no_tales.Dict.Sets.{All-put}
use dead_nodes_tell_no_tales.Node.{Node, Peer, Sent, tunnelled}
use dead_nodes_tell_no_tales.Node.Peers.{peer_at, update_peer, emit}
use dead_nodes_tell_no_tales.Exec.{for_each, ◌>>=◌}
use dead_nodes_tell_no_tales.Mesh.Deliver.{process_and_deliver}
use dead_nodes_tell_no_tales.Mesh.Timer.{restamp, retransmit, retransmit_peer, retransmit_round}
use dead_nodes_tell_no_tales.Snapshot.Flush.{check_timeout}
use dead_nodes_tell_no_tales.Mesh.Channel.{Outgoing}
use dead_nodes_tell_no_tales.Mesh.Channel.Sender.{
  Numbered, OnWire, Waiting, All-peer_at, Sender, Sender-update, Sender-emit,
}

module _ (to : Text) (m : ℕ → Outgoing) (bound : ℕ) where
  -- The step returns, and the sender stays one.
  record Kept (r : Outcome (Unit {0}) × Node) : Type 0 where
    returned : r.0 ≡ ok tt
    sender : Sender to m bound r.1

  module _ (now : ℕ) (ip : Text) where
    All-restamp :
        (seq : ℕ) (sent : Sent) (p : Peer)
        → Numbered to m bound (seq, sent)
        → All (Numbered to m bound) p.unacked
        → All (Numbered to m bound) (restamp now (seq, sent) p).unacked
    unfolding restamp Numbered
    All-restamp seq sent p is h =
        All-put ℕ_discrete (Numbered to m bound) p.unacked seq (record sent { sent_at = now })
          (unfold Numbered in h) is

    again :
        (seq : ℕ) (sent : Sent) (n : Node)
        → (ip ≡ to → Numbered to m bound (seq, sent))
        → Sender to m bound n
        → Sender to m bound
            (update_peer ip (restamp now (seq, sent)) (emit (tunnelled sent.packet ip) n))
    unfolding OnWire Waiting Numbered
    again seq sent n is s =
        let e =
          Sender-emit to m bound sent.packet ip n (λ here. (seq, (is here).0, (is here).1)) s in
        Sender-update to m bound ip (restamp now (seq, sent)) (emit (tunnelled sent.packet ip) n)
          (λ p. unfold restamp in refl)
          (λ here. All-restamp seq sent (peer_at (emit (tunnelled sent.packet ip) n) ip) (is here) (
            subst
              (λ i.
                All (Numbered to m bound) (peer_at (emit (tunnelled sent.packet ip) n) i).unacked)
              (sym here)
              (All-peer_at to m bound (emit (tunnelled sent.packet ip) n) e.carries.waiting)))
          e

    retransmit_overdue :
        (seq : ℕ) (sent : Sent) (n : Node)
        → ltb retry_timeout (now - sent.sent_at) ≡ true
        → n.tunnel_open ≡ true
        → retransmit now ip (seq, sent) n
          ≡ (ok tt, update_peer ip (restamp now (seq, sent)) (emit (tunnelled sent.packet ip) n))
    unfolding retransmit ◌>>=◌
    retransmit_overdue seq sent n late opened = ground (arith, late, opened)

    Kept-retransmit :
        (seq : ℕ) (sent : Sent) (n : Node)
        → (ip ≡ to → Numbered to m bound (seq, sent))
        → Sender to m bound n
        → Kept (retransmit now ip (seq, sent) n)
    Kept-retransmit seq sent n is s = elim (Bool-cases (ltb retry_timeout (now - sent.sent_at))) [
      | inl e ↦
          rw (retransmit_overdue seq sent n e s.tunnel)
            (record { returned = refl; sender = again seq sent n is s })
      | inr e ↦ unfold retransmit ◌>>=◌ in rw e (record { returned = refl; sender = s })
    ]

    Kept-packets :
        (d : Dict ℕ Sent) (n : Node)
        → (ip ≡ to → All (Numbered to m bound) d)
        → Sender to m bound n
        → Kept (for_each d (retransmit now ip) n)
    unfolding for_each ◌>>=◌
    Kept-packets [] n h s = record { returned = refl; sender = s }
    Kept-packets ((seq, sent) ∷ d) n h s =
        let k = Kept-retransmit seq sent n (λ here. (h here).0) s in
        rw k.returned
          (Kept-packets d (retransmit now ip (seq, sent) n).1 (λ here. (h here).1) k.sender)

  Kept-peers :
      (now : ℕ) (peers : Dict Text Peer) (n : Node)
      → All (Waiting to m bound) peers
      → Sender to m bound n
      → Kept (for_each peers (retransmit_peer now) n)
  unfolding for_each retransmit_peer Waiting ◌>>=◌
  Kept-peers now [] n h s = record { returned = refl; sender = s }
  Kept-peers now ((ip, p) ∷ peers) n h s =
      let k = Kept-packets now ip p.unacked n h.0 s in
      rw k.returned (Kept-peers now peers (for_each p.unacked (retransmit now ip) n).1 h.1 k.sender)

  -- The check of the time does nothing while no snapshot runs.
  pub check_timeout-idle :
      (env : Settings) (n : Node)
      → Sender to m bound n
      → check_timeout env (process_and_deliver env) n ≡ (ok tt, n)
  unfolding check_timeout ◌>>=◌
  check_timeout-idle env n s = rw s.quiet refl

  pub Sender-resend :
      (env : Settings) (n : Node)
      → Sender to m bound n
      → Sender to m bound (retransmit_round env n).1
  unfolding retransmit_round ◌>>=◌
  Sender-resend env n s =
      rw (check_timeout-idle env n s) (Kept-peers n.clock n.peers n s.carries.waiting s).sender
