-- ===== src/Mesh/Tunnel/InOrder.antt =====
-- The loop that empties the buffer, and a packet of any sequence number.
use dead_nodes_tell_no_tales.Prelude.{
  ℕ, zero, suc, ◌+◌, ◌≤◌, ◌<◌, Text, none, some, List, [], ◌∷◌, ◌≡◌, refl, ap, ◌∙◌, inl, inr,
  length, ℕ_discrete, arith, Option-cases,
}
use dead_nodes_tell_no_tales.Outcome.{Outcome, ok}
use dead_nodes_tell_no_tales.Dict.{Dict, get?, mem}
use dead_nodes_tell_no_tales.Dict.Laws.{get?-put}
use dead_nodes_tell_no_tales.Node.{Node, Peer, Buffered}
use dead_nodes_tell_no_tales.Node.Peers.{peer_at, update_peer, peer_at-update_peer_self}
use dead_nodes_tell_no_tales.Exec.{pure, ◌>>=◌}
use dead_nodes_tell_no_tales.Snapshot.Flush.{Deliver}
use dead_nodes_tell_no_tales.Mesh.Tunnel.{advance, pop_next, buffer, next_buffered, flush_buffer}
use dead_nodes_tell_no_tales.Mesh.Tunnel.Reassembly.{
  Sink, Holds, IsFlushed, step_peer, seq-step_peer, Holds-step, Holds-same, accept_lem, accepted,
  Ready-accepted, seq-accepted, buffer-accepted,
}

get?_of_empty : {V : Type 0} (d : Dict ℕ V) (k : ℕ) → length d ≤ 0 → get? ℕ_discrete d k ≡ none
unfolding get?
get?_of_empty [] k h = refl
get?_of_empty (e ∷ d) k h = absurd (omega arith)

-- From `n` to the result `r` the messages from the old `recv_seq` up to the new one were handed on,
-- in order, and nothing was raised.
pub record Progress (ip : Text) (m : ℕ → Buffered) (Ready : ℕ → Node → Type 0) (base : ℕ)
    (seen : List ℕ) (n : Node) (r : Outcome (Unit {0}) × Node) : Type 0 where
  pub count : ℕ
  pub returned : r.0 ≡ ok tt
  pub ready : Ready (peer_at r.1 ip).recv_seq r.1
  pub holds : Holds m base seen (peer_at r.1 ip)
  pub flushed : IsFlushed (peer_at r.1 ip)
  pub seq : (peer_at r.1 ip).recv_seq ≡ (peer_at n ip).recv_seq + count

module _ (deliver : Deliver) (ip : Text) (m : ℕ → Buffered) {Ready : ℕ → Node → Type 0} (base : ℕ)
    (sink : Sink deliver ip m Ready) where
  flush_stop :
      (fuel : ℕ) (n : Node)
      → next_buffered (peer_at n ip) ≡ none
      → flush_buffer deliver ip (suc fuel) n ≡ (ok tt, n)
  unfolding flush_buffer ◌>>=◌
  flush_stop fuel n e = ground arith

  -- One round: the state behind it.
  after_round : Node → Node
  after_round n = accepted deliver ip m sink (peer_at n ip).recv_seq (update_peer ip pop_next n)

  module _ (n : Node) (r : Ready (peer_at n ip).recv_seq n) where
    flush_step :
        (fuel : ℕ)
        → next_buffered (peer_at n ip) ≡ some (m (peer_at n ip).recv_seq)
        → flush_buffer deliver ip (suc fuel) n ≡ flush_buffer deliver ip fuel (after_round n)
    unfolding flush_buffer ◌>>=◌ accepted after_round
    flush_step fuel e = ground (
      arith,
      accept_lem deliver ip m sink (peer_at n ip).recv_seq (update_peer ip pop_next n)
          (sink.ready_update (peer_at n ip).recv_seq pop_next n r),
    )

    Ready-pop : Ready (peer_at n ip).recv_seq (update_peer ip pop_next n)
    Ready-pop = sink.ready_update (peer_at n ip).recv_seq pop_next n r

    seq-after_round : (peer_at (after_round n) ip).recv_seq ≡ (step_peer (peer_at n ip)).recv_seq
    unfolding after_round step_peer advance pop_next
    seq-after_round =
        seq-accepted deliver ip m sink (peer_at n ip).recv_seq (update_peer ip pop_next n) Ready-pop
        ∙ ap (λ (p : Peer). p.recv_seq + 1) (peer_at-update_peer_self n ip pop_next)

    buffer-after_round :
        (peer_at (after_round n) ip).recv_buffer ≡ (step_peer (peer_at n ip)).recv_buffer
    unfolding after_round step_peer advance pop_next
    buffer-after_round =
        buffer-accepted deliver ip m sink (peer_at n ip).recv_seq (update_peer ip pop_next n)
          Ready-pop
        ∙ ap (λ (p : Peer). p.recv_buffer) (peer_at-update_peer_self n ip pop_next)

    next-after_round : (peer_at (after_round n) ip).recv_seq ≡ suc (peer_at n ip).recv_seq
    next-after_round = seq-after_round ∙ seq-step_peer (peer_at n ip)

    Ready-after_round : Ready (peer_at (after_round n) ip).recv_seq (after_round n)
    Ready-after_round = rw next-after_round (
        unfold after_round in
        Ready-accepted deliver ip m sink (peer_at n ip).recv_seq (update_peer ip pop_next n)
          Ready-pop)

  -- No round is left to do.
  pub Progress-stop :
      (seen : List ℕ) (n : Node)
      → Ready (peer_at n ip).recv_seq n
      → Holds m base seen (peer_at n ip)
      → IsFlushed (peer_at n ip)
      → Progress ip m Ready base seen n (ok tt, n)
  Progress-stop seen n r h f = record {
    count = 0;
    returned = refl;
    ready = r;
    holds = h;
    flushed = f;
    seq = omega arith;
  }

  -- One message is handed on, and then others.
  pub Progress-step :
      (seen : List ℕ) (n n' : Node) {r : Outcome (Unit {0}) × Node}
      → (peer_at n' ip).recv_seq ≡ suc (peer_at n ip).recv_seq
      → Progress ip m Ready base seen n' r
      → Progress ip m Ready base seen n r
  Progress-step seen n n' es p = record {
    count = suc p.count;
    returned = p.returned;
    ready = p.ready;
    holds = p.holds;
    flushed = p.flushed;
    seq = omega (arith, p.seq);
  }

  -- As many rounds as the buffer has entries are enough to hand on all that can be handed on.
  pub flush_buffer-Progress :
      (fuel : ℕ) (seen : List ℕ) (n : Node)
      → Ready (peer_at n ip).recv_seq n
      → Holds m base seen (peer_at n ip)
      → length (peer_at n ip).recv_buffer ≤ fuel
      → Progress ip m Ready base seen n (flush_buffer deliver ip fuel n)
  flush_buffer-Progress zero seen n r h le =
      unfold flush_buffer pure in
      Progress-stop seen n r h (get?_of_empty (peer_at n ip).recv_buffer (peer_at n ip).recv_seq le)
  flush_buffer-Progress (suc fuel) seen n r h le =
      elim (Option-cases (next_buffered (peer_at n ip))) [
        | inl e ↦ rw (flush_stop fuel n e) (Progress-stop seen n r h (unfold next_buffered in e))
        | inr (b, e) ↦
            let (is_next, holds, shorter) = Holds-step m base seen (peer_at n ip) h e in
            rw (flush_step n r fuel (e ∙ ap some is_next)) (
              Progress-step seen n (after_round n) (next-after_round n r) (
                flush_buffer-Progress fuel seen (after_round n) (Ready-after_round n r)
                  (Holds-same m base seen (step_peer (peer_at n ip)) (peer_at (after_round n) ip)
                    (seq-after_round n r) (buffer-after_round n r) holds)
                  (omega (arith, ap length (buffer-after_round n r), shorter))))
      ]

-- What a packet of the stream does to the receiving half.
module _ (m : ℕ → Buffered) (base : ℕ) (seen : List ℕ) (p : Peer) (h : Holds m base seen p)
    (k : ℕ) where
  pub Holds-advance : IsFlushed p → k ≡ p.recv_seq → Holds m base (k ∷ seen) (advance p)
  unfolding advance mem
  Holds-advance f e = record {
    below = λ j ge lt. ground (arith, h.below j);
    buffered = λ j b g. ground (arith, h.buffered j b);
    waits = λ j s le. ground (arith, h.waits j);
  }

  pub Holds-buffer : p.recv_seq < k → Holds m base (k ∷ seen) (buffer k (m k) p)
  unfolding buffer mem
  Holds-buffer lt = record {
    below = λ j ge l. ground (arith, h.below j);
    buffered = λ j b g. ground (arith, get?-put ℕ_discrete p.recv_buffer k (m k) j, h.buffered j b);
    waits = λ j s le. ground (arith, get?-put ℕ_discrete p.recv_buffer k (m k) j, h.waits j);
  }

  pub Holds-duplicate : k < p.recv_seq → Holds m base (k ∷ seen) p
  unfolding mem
  Holds-duplicate lt = record {
    below = λ j ge l. ground (arith, h.below j);
    buffered = λ j b g. ground (arith, h.buffered j b);
    waits = λ j s le. ground (arith, h.waits j);
  }
