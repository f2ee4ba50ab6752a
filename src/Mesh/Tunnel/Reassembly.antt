-- ===== src/Mesh/Tunnel/Reassembly.antt =====
-- The receiving side of one channel, over any `process_and_deliver` that takes each message of a
-- stream without an exception.
use dead_nodes_tell_no_tales.Prelude.{
  ℕ, zero, suc, ◌+◌, ◌≤◌, ◌<◌, Text, true, none, some, List, [], ◌∷◌, ◌++◌, ◌≡◌, ap, ◌∙◌, length,
  ℕ_discrete, arith,
}
use dead_nodes_tell_no_tales.Outcome.{ok}
use dead_nodes_tell_no_tales.Dict.{get?, mem}
use dead_nodes_tell_no_tales.Dict.Laws.{get?-remove, has_of_get?, length-remove}
use dead_nodes_tell_no_tales.Node.{Node, Peer, Buffered}
use dead_nodes_tell_no_tales.Node.Peers.{peer_at, update_peer, peer_at-update_peer_self}
use dead_nodes_tell_no_tales.Exec.{Exec, ◌>>=◌}
use dead_nodes_tell_no_tales.Snapshot.Flush.{Deliver}
use dead_nodes_tell_no_tales.Mesh.Tunnel.{advance, pop_next, next_buffered, accept}

-- The messages of a stream from one sequence number on.
abbrev pub stretch {ℓ} : {L : Type ℓ} → (ℕ → L) → ℕ → ℕ → List L
stretch f from zero = []
stretch f from (suc n) = f from ∷ stretch f (suc from) n

module _ (deliver : Deliver) (ip : Text) (m : ℕ → Buffered) where
  abbrev pub hand_on : ℕ → Exec Node (Unit {0})
  hand_on k = deliver k (m k).payload ip (m k).src_port (m k).dst_port (m k).local_ip

  -- On a node that is ready for the message `k` of the stream, handing it on returns, makes the node
  -- ready for the next one, and leaves the receiving half of the channel alone, which does not count
  -- for being ready.
  pub record Sink (Ready : ℕ → Node → Type 0) : Type 0 where
    pub returns : (k : ℕ) (n : Node) → Ready k n → (hand_on k n).0 ≡ ok tt
    pub ready : (k : ℕ) (n : Node) → Ready k n → Ready (suc k) (hand_on k n).1
    pub same_seq :
        (k : ℕ) (n : Node)
        → Ready k n
        → (peer_at (hand_on k n).1 ip).recv_seq ≡ (peer_at n ip).recv_seq
    pub same_buffer :
        (k : ℕ) (n : Node)
        → Ready k n
        → (peer_at (hand_on k n).1 ip).recv_buffer ≡ (peer_at n ip).recv_buffer
    pub ready_update :
        (k : ℕ) (f : Peer → Peer) (n : Node) → Ready k n → Ready k (update_peer ip f n)

-- The receiving half of the channel after the messages `seen` have come in, when `p` is the peer:
-- from `base` up to the first that is missing all are handed on, and those behind it wait in the buffer.
pub record Holds (m : ℕ → Buffered) (base : ℕ) (seen : List ℕ) (p : Peer) : Type 0 where
  pub below : (k : ℕ) → base ≤ k → k < p.recv_seq → mem ℕ_discrete seen k ≡ true
  pub buffered :
      (k : ℕ) (b : Buffered)
      → get? ℕ_discrete p.recv_buffer k ≡ some b
      → (b ≡ m k) × (p.recv_seq ≤ k) × (mem ℕ_discrete seen k ≡ true)
  pub waits :
      (k : ℕ)
      → mem ℕ_discrete seen k ≡ true
      → p.recv_seq ≤ k
      → get? ℕ_discrete p.recv_buffer k ≡ some (m k)

-- The next message is not in the buffer.
abbrev pub IsFlushed : Peer → Type 0
IsFlushed p = get? ℕ_discrete p.recv_buffer p.recv_seq ≡ none

-- The next message is taken out of the buffer and `recv_seq` stepped.
unfoldable pub step_peer : Peer → Peer
unfolding advance pop_next
step_peer p = advance (pop_next p)

pub seq-step_peer : (p : Peer) → (step_peer p).recv_seq ≡ suc p.recv_seq
unfolding step_peer
seq-step_peer p = omega arith

pub Holds-step :
    (m : ℕ → Buffered) (base : ℕ) (seen : List ℕ) (p : Peer) {b : Buffered}
    → Holds m base seen p
    → next_buffered p ≡ some b
    → (b ≡ m p.recv_seq)
      × Holds m base seen (step_peer p)
      × (suc (length (step_peer p).recv_buffer) ≤ length p.recv_buffer)
unfolding step_peer advance pop_next next_buffered
Holds-step m base seen p {b} h e = (
  (h.buffered p.recv_seq b e).0,
  record {
    below = λ k ge lt. ground (arith, h.below k, h.buffered p.recv_seq b e);
    buffered =
        λ k c f. ground (arith, get?-remove ℕ_discrete p.recv_buffer p.recv_seq k, h.buffered k c);
    waits = λ k s le. ground (arith, get?-remove ℕ_discrete p.recv_buffer p.recv_seq k, h.waits k);
  },
  length-remove ℕ_discrete p.recv_buffer p.recv_seq
      (has_of_get? ℕ_discrete p.recv_buffer p.recv_seq b e),
)

-- Only the receiving half counts.
pub Holds-same :
    (m : ℕ → Buffered) (base : ℕ) (seen : List ℕ) (p q : Peer)
    → q.recv_seq ≡ p.recv_seq
    → q.recv_buffer ≡ p.recv_buffer
    → Holds m base seen p
    → Holds m base seen q
Holds-same m base seen p q es eb h = record {
  below = λ k. rw es (h.below k);
  buffered = λ k b. rw (es, eb) (h.buffered k b);
  waits = λ k. rw (es, eb) (h.waits k);
}

pub stretch-append {ℓ} :
    {L : Type ℓ} (f : ℕ → L) (from i j : ℕ)
    → stretch f from (i + j) ≡ stretch f from i ++ stretch f (from + i) j
stretch-append f from zero j =
    let e : zero + j ≡ j = omega arith in let e' : from + zero ≡ from = omega arith in rw (e, e')
stretch-append f from (suc i) j =
    let e : suc i + j ≡ suc (i + j) = omega arith in
    let e' : from + suc i ≡ suc from + i = omega arith in
    rw (e, e') (ap (λ l. f from ∷ l) (stretch-append f (suc from) i j))

module _ (deliver : Deliver) (ip : Text) (m : ℕ → Buffered) {Ready : ℕ → Node → Type 0}
    (sink : Sink deliver ip m Ready) where
  pub accept_lem :
      (k : ℕ) (n : Node)
      → Ready k n
      → accept deliver ip k (m k) n ≡ (ok tt, update_peer ip advance (hand_on deliver ip m k n).1)
  unfolding accept ◌>>=◌
  accept_lem k n r = rw (sink.returns k n r)

  -- The state after the call of `accept` on a message of the stream.
  unfoldable pub accepted : ℕ → Node → Node
  accepted k n = update_peer ip advance (hand_on deliver ip m k n).1

  module _ (k : ℕ) (n : Node) (r : Ready k n) where
    pub Ready-accepted : Ready (suc k) (accepted k n)
    unfolding accepted
    Ready-accepted = sink.ready_update (suc k) advance _ (sink.ready k n r)

    pub seq-accepted : (peer_at (accepted k n) ip).recv_seq ≡ (peer_at n ip).recv_seq + 1
    unfolding accepted advance
    seq-accepted =
        ap (λ (p : Peer). p.recv_seq)
          (peer_at-update_peer_self (hand_on deliver ip m k n).1 ip advance)
        ∙ ap (λ s. s + 1) (sink.same_seq k n r)

    pub buffer-accepted : (peer_at (accepted k n) ip).recv_buffer ≡ (peer_at n ip).recv_buffer
    unfolding accepted advance
    buffer-accepted =
        ap (λ (p : Peer). p.recv_buffer)
          (peer_at-update_peer_self (hand_on deliver ip m k n).1 ip advance)
        ∙ sink.same_buffer k n r
