-- ===== src/Mesh/Timer/Resent.antt =====
-- One round of the retransmission loop, while no snapshot is overdue.
use mathlib.Core.List.{append-nil, append_assoc}
use dead_nodes_tell_no_tales.Prelude.{
  ℕ, ◌-◌, Text, true, List, [], ◌∷◌, ◌++◌, ltb, text_discrete, ℕ_discrete, if_neg, if◌then◌else◌,
  ◌≡◌, refl, sym, ap, ◌∙◌, subst, arith, Bool-cases, inl, inr,
}
use dead_nodes_tell_no_tales.Outcome.{Outcome, ok}
use dead_nodes_tell_no_tales.Config.{Settings, retry_timeout}
use dead_nodes_tell_no_tales.Dict.{Dict, has}
use dead_nodes_tell_no_tales.Dict.Laws.{has-put}
use dead_nodes_tell_no_tales.Node.{Node, Peer, Sent, Event, tunnelled}
use dead_nodes_tell_no_tales.Node.Peers.{
  peer_at, update_peer, emit, peer_at-update_peer, peer_at-update_peer_self,
}
use dead_nodes_tell_no_tales.Exec.{for_each, ◌>>=◌}
use dead_nodes_tell_no_tales.Mesh.Deliver.{process_and_deliver}
use dead_nodes_tell_no_tales.Mesh.Timer.{restamp, retransmit, retransmit_peer, retransmit_round}
use dead_nodes_tell_no_tales.Snapshot.Flush.{check_timeout}

-- The packets of a peer that were sent too long ago, as they are sent again.
pub overdue_packets : ℕ → Text → Dict ℕ Sent → List Event
overdue_packets now ip [] = []
overdue_packets now ip ((seq, sent) ∷ d) =
    let rest = overdue_packets now ip d in
    if ltb retry_timeout (now - sent.sent_at) then tunnelled sent.packet ip ∷ rest else rest

pub all_overdue : ℕ → Dict Text Peer → List Event
all_overdue now [] = []
all_overdue now ((ip, p) ∷ peers) = overdue_packets now ip p.unacked ++ all_overdue now peers

-- The events `es` are added, and every packet that waited still waits.
pub record Resent (es : List Event) (n : Node) (r : Outcome (Unit {0}) × Node) : Type 0 where
  pub returned : r.0 ≡ ok tt
  pub events : r.1.events ≡ n.events ++ es
  pub tunnel : r.1.tunnel_open ≡ n.tunnel_open
  pub waiting :
      (ip : Text) (seq : ℕ)
      → has ℕ_discrete (peer_at n ip).unacked seq ≡ true
      → has ℕ_discrete (peer_at r.1 ip).unacked seq ≡ true

Resent-none : (n : Node) → Resent [] n (ok tt, n)
Resent-none n = record {
  returned = refl;
  events = sym (append-nil n.events);
  tunnel = refl;
  waiting = λ ip seq h. h;
}

Resent-trans :
    (es fs : List Event) (n : Node) (r r' : Outcome (Unit {0}) × Node)
    → Resent es n r
    → Resent fs r.1 r'
    → Resent (es ++ fs) n r'
Resent-trans es fs n r r' p q = record {
  returned = q.returned;
  events = q.events ∙ rw p.events (append_assoc n.events es fs);
  tunnel = q.tunnel ∙ p.tunnel;
  waiting = λ ip seq h. q.waiting ip seq (p.waiting ip seq h);
}

module _ (now : ℕ) (ip : Text) where
  waiting-restamp :
      (seq : ℕ) (sent : Sent) (n : Node) (j : Text) (k : ℕ)
      → has ℕ_discrete (peer_at n j).unacked k ≡ true
      → has ℕ_discrete (peer_at (update_peer ip (restamp now (seq, sent)) n) j).unacked k ≡ true
  unfolding restamp
  waiting-restamp seq sent n j k h = elim (text_discrete ip j) [
    | yes p ↦
        subst
          (λ i.
            has ℕ_discrete (peer_at n i).unacked k ≡ true
            → has ℕ_discrete (peer_at (update_peer ip (restamp now (seq, sent)) n) i).unacked k
              ≡ true)
          p here h
    | no ne ↦
        ap (λ (q : Peer). has ℕ_discrete q.unacked k)
          (peer_at-update_peer n ip (restamp now (seq, sent)) j
            ∙ if_neg (text_discrete ip j) ne _ _)
        ∙ h
  ]
    where
      here :
          has ℕ_discrete (peer_at n ip).unacked k ≡ true
          → has ℕ_discrete (peer_at (update_peer ip (restamp now (seq, sent)) n) ip).unacked k
            ≡ true
      here w =
          ap (λ (q : Peer). has ℕ_discrete q.unacked k)
            (peer_at-update_peer_self n ip (restamp now (seq, sent)))
          ∙ (has-put ℕ_discrete (peer_at n ip).unacked seq (record sent { sent_at = now }) k
              ∙ ground (arith, w))

  Resent-retransmit :
      (seq : ℕ) (sent : Sent) (n : Node)
      → n.tunnel_open ≡ true
      → Resent (overdue_packets now ip ((seq, sent) ∷ [])) n (retransmit now ip (seq, sent) n)
  unfolding retransmit overdue_packets emit ◌>>=◌ update_peer
  Resent-retransmit seq sent n opened = elim (Bool-cases (ltb retry_timeout (now - sent.sent_at))) [
    | inl e ↦
        rw (e, opened)
          (record {
            returned = refl;
            events = unfold update_peer in refl;
            tunnel = unfold update_peer in refl;
            waiting = λ j k h. waiting-restamp seq sent (emit (tunnelled sent.packet ip) n) j k h;
          })
    | inr e ↦ rw e (Resent-none n)
  ]

  one_more :
      (seq : ℕ) (sent : Sent) (d : Dict ℕ Sent)
      → overdue_packets now ip ((seq, sent) ∷ []) ++ overdue_packets now ip d
        ≡ overdue_packets now ip ((seq, sent) ∷ d)
  unfolding overdue_packets
  one_more seq sent d = ground arith

  Resent-packets :
      (d : Dict ℕ Sent) (n : Node)
      → n.tunnel_open ≡ true
      → Resent (overdue_packets now ip d) n (for_each d (retransmit now ip) n)
  unfolding for_each overdue_packets ◌>>=◌
  Resent-packets [] n opened = Resent-none n
  Resent-packets ((seq, sent) ∷ d) n opened =
      let p = Resent-retransmit seq sent n opened in
      let q = Resent-packets d (retransmit now ip (seq, sent) n).1 (p.tunnel ∙ opened) in
      rw p.returned (
        subst
          (λ es. Resent es n (for_each d (retransmit now ip) (retransmit now ip (seq, sent) n).1))
          (one_more seq sent d)
          (Resent-trans (overdue_packets now ip ((seq, sent) ∷ [])) (overdue_packets now ip d) n _ _
            p q))

Resent-peers :
    (now : ℕ) (peers : Dict Text Peer) (n : Node)
    → n.tunnel_open ≡ true
    → Resent (all_overdue now peers) n (for_each peers (retransmit_peer now) n)
unfolding for_each all_overdue retransmit_peer ◌>>=◌
Resent-peers now [] n opened = Resent-none n
Resent-peers now ((ip, p) ∷ peers) n opened =
    let r = Resent-packets now ip p.unacked n opened in
    let q =
      Resent-peers now peers (for_each p.unacked (retransmit now ip) n).1 (r.tunnel ∙ opened) in
    rw r.returned
      (Resent-trans (overdue_packets now ip p.unacked) (all_overdue now peers) n _ _ r q)

-- With the tunnel open, a round in which the snapshot check changes nothing sends again exactly the
-- packets that were sent longer ago than the retry timeout, peer by peer in the order in which they
-- wait, to their peers; it raises nothing, and every packet that waited still waits.
pub Resent-retransmit_round :
    (env : Settings) (n : Node)
    → n.tunnel_open ≡ true
    → check_timeout env (process_and_deliver env) n ≡ (ok tt, n)
    → Resent (all_overdue n.clock n.peers) n (retransmit_round env n)
unfolding retransmit_round ◌>>=◌
Resent-retransmit_round env n opened quiet = rw quiet (Resent-peers n.clock n.peers n opened)
