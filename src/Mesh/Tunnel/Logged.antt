-- ===== src/Mesh/Tunnel/Logged.antt =====
-- The receiving side of one channel, over a `process_and_deliver` that adds one entry to a log for
-- each message of a stream.
use mathlib.Core.List.{append-nil, append_assoc}
use dead_nodes_tell_no_tales.Prelude.{
  ℕ, suc, ◌+◌, ◌-◌, ◌≤◌, ◌<◌, Text, true, false, List, [], ◌∷◌, ◌++◌, ◌≡◌, sym, ap, ◌∙◌, ℕ_discrete,
  arith,
}
use dead_nodes_tell_no_tales.Outcome.{ok}
use dead_nodes_tell_no_tales.Dict.{mem}
use dead_nodes_tell_no_tales.Node.{Node, Peer, Buffered}
use dead_nodes_tell_no_tales.Node.Peers.{peer_at, update_peer}
use dead_nodes_tell_no_tales.Snapshot.Flush.{Deliver}
use dead_nodes_tell_no_tales.Mesh.Tunnel.Reassembly.{stretch, stretch-append, hand_on, Sink}
use dead_nodes_tell_no_tales.Mesh.Tunnel.Stream.{receive_all, receive_all-in_order}

pub stretch-snoc :
    {L : Type 0} (f : ℕ → L) (i k : ℕ) → stretch f i (suc k) ≡ stretch f i k ++ f (i + k) ∷ []
stretch-snoc f i k =
    let e : suc k ≡ k + 1 = omega arith in ap (stretch f i) e ∙ stretch-append f i k 1

-- One more message than those from `base` up to `k`.
pub stretch-more :
    {L : Type 0} (f : ℕ → L) (base k : ℕ)
    → base ≤ k
    → stretch f base (suc k - base) ≡ stretch f base (k - base) ++ f k ∷ []
stretch-more f base k le =
    let e : suc k - base ≡ suc (k - base) = omega (arith, le) in
    let e' : base + (k - base) ≡ k = omega (arith, le) in
    ap (stretch f base) e
    ∙ (stretch-snoc f base (k - base) ∙ ap (λ i. stretch f base (k - base) ++ f i ∷ []) e')

module _ (deliver : Deliver) (ip : Text) (m : ℕ → Buffered) where
  -- Handing on a message of the stream returns, adds one entry to a log, and leaves the receiving
  -- half of the channel alone; the log does not depend on that half.
  pub record Logger {L : Type 0} (Ready : Node → Type 0) (log : Node → List L) (entry : ℕ → L)
      : Type 0 where
    pub returns : (k : ℕ) (n : Node) → Ready n → (hand_on deliver ip m k n).0 ≡ ok tt
    pub ready : (k : ℕ) (n : Node) → Ready n → Ready (hand_on deliver ip m k n).1
    pub logs :
        (k : ℕ) (n : Node) → Ready n → log (hand_on deliver ip m k n).1 ≡ log n ++ entry k ∷ []
    pub same_seq :
        (k : ℕ) (n : Node)
        → Ready n
        → (peer_at (hand_on deliver ip m k n).1 ip).recv_seq ≡ (peer_at n ip).recv_seq
    pub same_buffer :
        (k : ℕ) (n : Node)
        → Ready n
        → (peer_at (hand_on deliver ip m k n).1 ip).recv_buffer ≡ (peer_at n ip).recv_buffer
    pub ready_update : (f : Peer → Peer) (n : Node) → Ready n → Ready (update_peer ip f n)
    pub log_update : (f : Peer → Peer) (n : Node) → log (update_peer ip f n) ≡ log n

-- The entries of the messages from `base` up to `k` stand behind `past`.
pub record Logged {L : Type 0} (Ready : Node → Type 0) (log : Node → List L) (entry : ℕ → L)
    (base : ℕ) (past : List L) (k : ℕ) (n : Node) : Type 0 where
  pub ready : Ready n
  pub above : base ≤ k
  pub logged : log n ≡ past ++ stretch entry base (k - base)

module _ (deliver : Deliver) (ip : Text) (m : ℕ → Buffered) {L : Type 0} {Ready : Node → Type 0}
    {log : Node → List L} {entry : ℕ → L} (logger : Logger deliver ip m Ready log entry)
    (base : ℕ) where
  pub Sink-Logger : (past : List L) → Sink deliver ip m (Logged Ready log entry base past)
  Sink-Logger past = record {
    returns = λ k n r. logger.returns k n r.ready;
    ready = λ k n r. record {
      ready = logger.ready k n r.ready;
      above = omega (arith, r.above);
      logged =
          logger.logs k n r.ready
          ∙ (ap (λ l. l ++ entry k ∷ []) r.logged
              ∙ (append_assoc past (stretch entry base (k - base)) (entry k ∷ [])
                  ∙ ap (λ l. past ++ l) (sym (stretch-more entry base k r.above))));
    };
    same_seq = λ k n r. logger.same_seq k n r.ready;
    same_buffer = λ k n r. logger.same_buffer k n r.ready;
    ready_update = λ k f n r. record {
      ready = logger.ready_update f n r.ready;
      above = r.above;
      logged = logger.log_update f n ∙ r.logged;
    };
  }

  pub Logged-start : (n : Node) → Ready n → Logged Ready log entry base (log n) base n
  Logged-start n r = record {
    ready = r;
    above = omega arith;
    logged = let none_yet : base - base ≡ 0 = omega arith in rw none_yet (sym (append-nil (log n)));
  }

  pub receive_all-logged :
      (arrivals : List ℕ) (n : Node)
      → Ready n
      → (peer_at n ip).recv_seq ≡ base
      → (peer_at n ip).recv_buffer ≡ []
      → (count : ℕ) × ((receive_all deliver ip m arrivals n).0 ≡ ok tt)
        × Ready (receive_all deliver ip m arrivals n).1
        × ((peer_at (receive_all deliver ip m arrivals n).1 ip).recv_seq ≡ base + count)
        × (log (receive_all deliver ip m arrivals n).1 ≡ log n ++ stretch entry base count)
        × ((k : ℕ) → base ≤ k → k < base + count → mem ℕ_discrete arrivals k ≡ true)
        × (mem ℕ_discrete arrivals (base + count) ≡ false)
  receive_all-logged arrivals n r fresh empty =
      let (count, returned, logged, reached, below, missing) =
        receive_all-in_order deliver ip m base (Sink-Logger (log n)) arrivals n (Logged-start n r)
          fresh empty in
      let e : base + count - base ≡ count = omega arith in
      (
        count,
        returned,
        logged.ready,
        reached,
        logged.logged ∙ ap (λ c. log n ++ stretch entry base c) e,
        below,
        missing,
      )
