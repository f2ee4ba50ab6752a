-- ===== src/Mesh/Tunnel/Stream.antt =====
-- Packets of a stream, in any order and any number of times.
use dead_nodes_tell_no_tales.Prelude.{
  ℕ, suc, ◌+◌, ◌≤◌, ◌<◌, Text, true, false, List, [], ◌∷◌, ◌≡◌, refl, sym, ◌∙◌, subst, inl, inr,
  length, ℕ_discrete, arith, Bool-cases, dec_lt, ◌||◌,
}
use dead_nodes_tell_no_tales.Outcome.{Outcome, ok}
use dead_nodes_tell_no_tales.Dict.{get?, mem}
use dead_nodes_tell_no_tales.Dict.Laws.{get?-put}
use dead_nodes_tell_no_tales.Node.{Node, Peer, Buffered}
use dead_nodes_tell_no_tales.Node.Peers.{peer_at, update_peer, peer_at-update_peer_self}
use dead_nodes_tell_no_tales.Exec.{Exec, for_each, ◌>>=◌}
use dead_nodes_tell_no_tales.Snapshot.Flush.{Deliver}
use dead_nodes_tell_no_tales.Mesh.Tunnel.{advance, buffer, flush_buffer, receive}
use dead_nodes_tell_no_tales.Mesh.Tunnel.Reassembly.{
  Sink, Holds, IsFlushed, Holds-same, accept_lem, accepted, Ready-accepted, seq-accepted,
  buffer-accepted,
}
use dead_nodes_tell_no_tales.Mesh.Tunnel.InOrder.{
  Progress, flush_buffer-Progress, Progress-stop, Progress-step, Holds-advance, Holds-buffer,
  Holds-duplicate,
}

-- A channel on which nothing has come in.
pub Holds-new :
    (m : ℕ → Buffered) (base : ℕ) (p : Peer)
    → p.recv_seq ≡ base
    → p.recv_buffer ≡ []
    → Holds m base [] p
unfolding get? mem
Holds-new m base p fresh empty = record {
  below = λ k ge lt. absurd (omega arith);
  buffered = λ k b g. absurd (ground (arith, empty));
  waits = λ k s le. absurd (ground arith);
}

pub IsFlushed-new : (p : Peer) → p.recv_buffer ≡ [] → IsFlushed p
unfolding get?
IsFlushed-new p empty = ground (arith, empty)

-- A flushed channel waits for a message that has not come in.
pub missing_of_flushed :
    (m : ℕ → Buffered) (base : ℕ) (seen : List ℕ) (p : Peer)
    → Holds m base seen p
    → IsFlushed p
    → mem ℕ_discrete seen p.recv_seq ≡ false
missing_of_flushed m base seen p h f = elim (Bool-cases (mem ℕ_discrete seen p.recv_seq)) [
  | inl e ↦ absurd (ground (arith, h.waits p.recv_seq e))
  | inr e ↦ e
]

module _ (deliver : Deliver) (ip : Text) (k : ℕ) (b : Buffered) (n : Node) where
  receive_future :
      (peer_at n ip).recv_seq < k
      → receive deliver ip k b n ≡ (ok tt, update_peer ip (buffer k b) n)
  unfolding receive ◌>>=◌
  receive_future h = ground arith

  receive_duplicate : k < (peer_at n ip).recv_seq → receive deliver ip k b n ≡ (ok tt, n)
  unfolding receive ◌>>=◌
  receive_duplicate h = ground arith

-- The packets of a stream that come in on a channel, one after the other.
abbrev pub receive_all : Deliver → Text → (ℕ → Buffered) → List ℕ → Exec Node (Unit {0})
receive_all deliver ip m arrivals = for_each arrivals (λ k. receive deliver ip k (m k))

module _ (deliver : Deliver) (ip : Text) (m : ℕ → Buffered) {Ready : ℕ → Node → Type 0} (base : ℕ)
    (sink : Sink deliver ip m Ready) where
  receive_next :
      (k : ℕ) (n : Node)
      → Ready k n
      → k ≡ (peer_at n ip).recv_seq
      → receive deliver ip k (m k) n
        ≡ flush_buffer deliver ip
            (length (peer_at (accepted deliver ip m sink k n) ip).recv_buffer)
            (accepted deliver ip m sink k n)
  unfolding receive accepted ◌>>=◌
  receive_next k n r e = ground (arith, accept_lem deliver ip m sink k n r)

  peer-accepted_seq :
      (k : ℕ) (n : Node)
      → Ready k n
      → (peer_at (accepted deliver ip m sink k n) ip).recv_seq ≡ (advance (peer_at n ip)).recv_seq
  unfolding advance
  peer-accepted_seq k n r = seq-accepted deliver ip m sink k n r

  peer-accepted_buffer :
      (k : ℕ) (n : Node)
      → Ready k n
      → (peer_at (accepted deliver ip m sink k n) ip).recv_buffer
        ≡ (advance (peer_at n ip)).recv_buffer
  unfolding advance
  peer-accepted_buffer k n r = buffer-accepted deliver ip m sink k n r

  next-Progress :
      (k : ℕ) (seen : List ℕ) (n : Node)
      → Ready (peer_at n ip).recv_seq n
      → Holds m base seen (peer_at n ip)
      → IsFlushed (peer_at n ip)
      → k ≡ (peer_at n ip).recv_seq
      → Progress ip m Ready base (k ∷ seen) n (receive deliver ip k (m k) n)
  next-Progress k seen n r h f e =
      let at_k : Ready k n = subst (λ i. Ready i n) (sym e) r in
      let next : (peer_at (accepted deliver ip m sink k n) ip).recv_seq ≡ suc k =
        omega (arith, seq-accepted deliver ip m sink k n at_k, e) in
      rw (receive_next k n at_k e) (
        Progress-step deliver ip m base sink (k ∷ seen) n (accepted deliver ip m sink k n)
          (omega (arith, next, e))
          (flush_buffer-Progress deliver ip m base sink _ (k ∷ seen)
            (accepted deliver ip m sink k n) (rw next (Ready-accepted deliver ip m sink k n at_k))
            (Holds-same m base (k ∷ seen) (advance (peer_at n ip)) _ (peer-accepted_seq k n at_k)
              (peer-accepted_buffer k n at_k) (Holds-advance m base seen (peer_at n ip) h k f e))
            (omega arith)))

  future-Progress :
      (k : ℕ) (seen : List ℕ) (n : Node)
      → Ready (peer_at n ip).recv_seq n
      → Holds m base seen (peer_at n ip)
      → IsFlushed (peer_at n ip)
      → (peer_at n ip).recv_seq < k
      → Progress ip m Ready base (k ∷ seen) n (receive deliver ip k (m k) n)
  future-Progress k seen n r h f lt = rw (receive_future deliver ip k (m k) n lt) (record {
    count = 0;
    returned = refl;
    ready =
        rw (peer_at-update_peer_self n ip (buffer k (m k)))
          (unfold buffer in sink.ready_update (peer_at n ip).recv_seq (buffer k (m k)) n r);
    holds =
        rw (peer_at-update_peer_self n ip (buffer k (m k)))
          (Holds-buffer m base seen (peer_at n ip) h k lt);
    flushed = rw (peer_at-update_peer_self n ip (buffer k (m k))) still_flushed;
    seq = rw (peer_at-update_peer_self n ip (buffer k (m k))) (unfold buffer in omega arith);
  })
    where
      still_flushed : IsFlushed (buffer k (m k) (peer_at n ip))
      still_flushed =
          unfold buffer in
          ground (
            arith,
            f,
            get?-put ℕ_discrete (peer_at n ip).recv_buffer k (m k) (peer_at n ip).recv_seq,
          )

  duplicate-Progress :
      (k : ℕ) (seen : List ℕ) (n : Node)
      → Ready (peer_at n ip).recv_seq n
      → Holds m base seen (peer_at n ip)
      → IsFlushed (peer_at n ip)
      → k < (peer_at n ip).recv_seq
      → Progress ip m Ready base (k ∷ seen) n (receive deliver ip k (m k) n)
  duplicate-Progress k seen n r h f lt = rw (receive_duplicate deliver ip k (m k) n lt) (
      Progress-stop deliver ip m base sink (k ∷ seen) n r
        (Holds-duplicate m base seen (peer_at n ip) h k lt) f)

  -- A packet of the stream, whatever its number.
  pub receive-Progress :
      (k : ℕ) (seen : List ℕ) (n : Node)
      → Ready (peer_at n ip).recv_seq n
      → Holds m base seen (peer_at n ip)
      → IsFlushed (peer_at n ip)
      → Progress ip m Ready base (k ∷ seen) n (receive deliver ip k (m k) n)
  receive-Progress k seen n r h f = elim (dec_lt k (peer_at n ip).recv_seq) [
    | yes lt ↦ duplicate-Progress k seen n r h f lt
    | no ge ↦ elim (dec_lt (peer_at n ip).recv_seq k) [
      | yes gt ↦ future-Progress k seen n r h f gt
      | no le ↦ next-Progress k seen n r h f (omega arith)
    ]
  ]

  abbrev seen_after : List ℕ → List ℕ → List ℕ
  seen_after seen [] = seen
  seen_after seen (k ∷ ks) = seen_after (k ∷ seen) ks

  mem-seen_after :
      (seen ks : List ℕ) (j : ℕ)
      → mem ℕ_discrete (seen_after seen ks) j ≡ (mem ℕ_discrete seen j || mem ℕ_discrete ks j)
  unfolding mem
  mem-seen_after seen [] j = ground arith
  mem-seen_after seen (k ∷ ks) j = ground (arith, mem-seen_after (k ∷ seen) ks j)

  for_each-ok :
      (k : ℕ) (ks : List ℕ) (n : Node)
      → (receive deliver ip k (m k) n).0 ≡ ok tt
      → receive_all deliver ip m (k ∷ ks) n
        ≡ receive_all deliver ip m ks (receive deliver ip k (m k) n).1
  unfolding for_each ◌>>=◌
  for_each-ok k ks n e = rw e

  Progress-trans :
      (seen seen' : List ℕ) (n : Node) {r r' : Outcome (Unit {0}) × Node}
      → Progress ip m Ready base seen n r
      → Progress ip m Ready base seen' r.1 r'
      → Progress ip m Ready base seen' n r'
  Progress-trans seen seen' n p q = record {
    count = p.count + q.count;
    returned = q.returned;
    ready = q.ready;
    holds = q.holds;
    flushed = q.flushed;
    seq = omega (arith, p.seq, q.seq);
  }

  receive_all-Progress :
      (arrivals seen : List ℕ) (n : Node)
      → Ready (peer_at n ip).recv_seq n
      → Holds m base seen (peer_at n ip)
      → IsFlushed (peer_at n ip)
      → Progress ip m Ready base (seen_after seen arrivals) n (receive_all deliver ip m arrivals n)
  receive_all-Progress [] seen n r h f =
      unfold for_each ◌>>=◌ in Progress-stop deliver ip m base sink seen n r h f
  receive_all-Progress (k ∷ ks) seen n r h f =
      let p = receive-Progress k seen n r h f in
      rw (for_each-ok k ks n p.returned) (
        Progress-trans (k ∷ seen) (seen_after (k ∷ seen) ks) n p (
          receive_all-Progress ks (k ∷ seen) (receive deliver ip k (m k) n).1 p.ready p.holds
            p.flushed))

  -- Whatever packets of the stream come in, in any order and with any repetitions, a channel with
  -- an empty buffer hands on, once each and in order, exactly the messages from its `recv_seq` up to
  -- the first that is missing.
  pub receive_all-in_order :
      (arrivals : List ℕ) (n : Node)
      → Ready base n
      → (peer_at n ip).recv_seq ≡ base
      → (peer_at n ip).recv_buffer ≡ []
      → (count : ℕ) × ((receive_all deliver ip m arrivals n).0 ≡ ok tt)
        × Ready (base + count) (receive_all deliver ip m arrivals n).1
        × ((peer_at (receive_all deliver ip m arrivals n).1 ip).recv_seq ≡ base + count)
        × ((k : ℕ) → base ≤ k → k < base + count → mem ℕ_discrete arrivals k ≡ true)
        × (mem ℕ_discrete arrivals (base + count) ≡ false)
  receive_all-in_order arrivals n ready fresh empty =
      (p.count, p.returned, rw reached at p.ready, reached, below, missing)
    where
      p : Progress ip m Ready base (seen_after [] arrivals) n (receive_all deliver ip m arrivals n)
      p =
          receive_all-Progress arrivals [] n (rw fresh ready)
            (Holds-new m base (peer_at n ip) fresh empty) (IsFlushed-new (peer_at n ip) empty)

      reached : (peer_at (receive_all deliver ip m arrivals n).1 ip).recv_seq ≡ base + p.count
      reached = omega (arith, p.seq, fresh)

      seen : (k : ℕ) → mem ℕ_discrete (seen_after [] arrivals) k ≡ mem ℕ_discrete arrivals k
      seen k = unfold mem in mem-seen_after [] arrivals k

      below : (k : ℕ) → base ≤ k → k < base + p.count → mem ℕ_discrete arrivals k ≡ true
      below k ge lt = sym (seen k) ∙ p.holds.below k ge (omega (arith, reached))

      missing : mem ℕ_discrete arrivals (base + p.count) ≡ false
      missing =
          sym (seen (base + p.count))
          ∙ (rw reached at (missing_of_flushed m base (seen_after [] arrivals) _ p.holds p.flushed))
