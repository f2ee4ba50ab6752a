-- ===== src/Mesh/Channel/Fifo.antt =====
-- The channel between two sidecars as its users see it, and a queue as its specification.
use dead_nodes_tell_no_tales.Prelude.{
  ℕ, zero, suc, ◌+◌, ◌-◌, ◌≤◌, ◌<◌, Text, true, false, some, List, [], ◌∷◌, ◌++◌, length, ◌≡◌, sym,
  ap, ◌∙◌, subst, ◌⊎◌, inl, inr, ℕ_discrete, arith, dec_lt,
}
use dead_nodes_tell_no_tales.Config.{Settings}
use dead_nodes_tell_no_tales.Dict.{get?, has}
use dead_nodes_tell_no_tales.Node.{Node}
use dead_nodes_tell_no_tales.Node.Peers.{peer_at}
use dead_nodes_tell_no_tales.Snapshot.Marker.{is_marker}
use dead_nodes_tell_no_tales.Mesh.Spoof.Effects.{handed, Delivery}
use dead_nodes_tell_no_tales.Mesh.Deliver.Live.{delivery}
use dead_nodes_tell_no_tales.Mesh.Tunnel.Reassembly.{stretch}
use dead_nodes_tell_no_tales.Mesh.Tunnel.Logged.{stretch-snoc}
use dead_nodes_tell_no_tales.Mesh.Tunnel.Stream.{missing_of_flushed}
use dead_nodes_tell_no_tales.Mesh.Channel.{Outgoing, Run}
use dead_nodes_tell_no_tales.Mesh.Channel.Receiver.{arrived}
use dead_nodes_tell_no_tales.Mesh.Channel.Linked.{Linked, Run-Linked}

-- The specification: a first-in first-out queue of the items of `f`, pushed in the order of their numbers.
-- The indices are how many have been pushed, those in the queue, and those popped.
pub data Queue {L : Type 0} (f : ℕ → L) : ℕ → List L → List L → Type 0 where
  empty : Queue f 0 [] []
  push :
      {k : ℕ} {queue popped : List L}
      → Queue f k queue popped
      → Queue f (suc k) (queue ++ f k ∷ []) popped
  pop :
      {k : ℕ} {d : L} {queue popped : List L}
      → Queue f k (d ∷ queue) popped
      → Queue f k queue (popped ++ d ∷ [])

-- All are pushed, and then some popped.
Queue-stretch :
    {L : Type 0} (f : ℕ → L) (popped left : ℕ)
    → Queue f (popped + left) (stretch f popped left) (stretch f 0 popped)
Queue-stretch f zero zero = let e : 0 + 0 ≡ 0 = omega arith in rw e empty
Queue-stretch f zero (suc left) =
    let e : 0 + suc left ≡ suc (0 + left) = omega arith in
    rw (e, stretch-snoc f 0 left) (push (Queue-stretch f zero left))
Queue-stretch f (suc popped) left =
    let e : suc popped + left ≡ popped + suc left = omega arith in
    let e' : 0 + popped ≡ popped = omega arith in
    rw e (
      subst (Queue f (popped + suc left) (stretch f (suc popped) left))
        (sym (stretch-snoc f 0 popped ∙ ap (λ i. stretch f 0 popped ++ f i ∷ []) e'))
        (pop (Queue-stretch f popped (suc left))))

module _ (from_env to_env : Settings) (from to : Text) (m : ℕ → Outgoing)
    (plain : (k : ℕ) → is_marker (m k).payload ≡ false)
    (four : (k : ℕ) → length (m k).target_ip ≡ 4) where
  -- The datagrams as the receiver's application gets them.
  abbrev pub deliveries : ℕ → Delivery
  deliveries k = delivery from (arrived (m k))

  received_le_sent :
      (s r : Node)
      → Linked from_env to_env from to m plain four s r
      → (peer_at r from).recv_seq ≤ (peer_at s to).send_seq
  received_le_sent s r l = elim (dec_lt (peer_at s to).send_seq (peer_at r from).recv_seq) [
    | yes lt ↦
        let came = l.receiver.holds.below (peer_at s to).send_seq (omega arith) lt in
        absurd (omega (arith, l.receiver.known (peer_at s to).send_seq came, l.sender.count))
    | no ge ↦ omega arith
  ]

  -- Along every run from two fresh sidecars, for datagrams without markers to addresses of four bytes, with
  -- any loss, repetition and reordering of the packets and the acknowledgements, any passing of time and any
  -- rounds of retransmission, the channel is a first-in first-out queue: the datagrams that were sent are
  -- pushed in their order, and what the receiver's application was handed is what was popped.
  pub Run-Queue :
      (s r : Node)
      → Run from_env to_env from to m s r
      → Queue deliveries
          (peer_at s to).send_seq
          (stretch deliveries
            (peer_at r from).recv_seq
            ((peer_at s to).send_seq - (peer_at r from).recv_seq))
          (handed r.events)
  Run-Queue s r run =
      let l = Run-Linked from_env to_env from to m plain four run in
      let le = received_le_sent s r l in
      let e : (peer_at s to).send_seq
          ≡ (peer_at r from).recv_seq + ((peer_at s to).send_seq - (peer_at r from).recv_seq) =
        omega (arith, le) in
      rw l.receiver.logged (
        subst
          (λ k.
            Queue deliveries k
              (stretch deliveries (peer_at r from).recv_seq
                ((peer_at s to).send_seq - (peer_at r from).recv_seq))
              (stretch deliveries 0 (peer_at r from).recv_seq))
          (sym e)
          (Queue-stretch deliveries (peer_at r from).recv_seq
            ((peer_at s to).send_seq - (peer_at r from).recv_seq)))

  -- Along every such run, each datagram that was sent still waits at the sender to be acknowledged, or was
  -- handed to the receiver's application, or stands in the receive buffer under its number.
  pub Run-none_lost :
      (s r : Node)
      → Run from_env to_env from to m s r
      → (k : ℕ) → k < (peer_at s to).send_seq
      → (has ℕ_discrete (peer_at s to).unacked k ≡ true)
        ⊎ (k < (peer_at r from).recv_seq)
        ⊎ (get? ℕ_discrete (peer_at r from).recv_buffer k ≡ some (arrived (m k)))
  Run-none_lost s r run k lt =
      let l = Run-Linked from_env to_env from to m plain four run in
      elim (l.in_hand k (omega (arith, l.sender.count, lt))) [
        | inl w ↦ inl w
        | inr came ↦ elim (dec_lt k (peer_at r from).recv_seq) [
          | yes below ↦ inr (inl below)
          | no ge ↦ inr (inr (l.receiver.holds.waits k came (omega arith)))
        ]
      ]

  -- Along every such run, when no datagram waits to be acknowledged, the receiver's application was handed
  -- exactly the datagrams that were sent, once each and in order.
  pub Run-all_delivered :
      (s r : Node)
      → Run from_env to_env from to m s r
      → ((k : ℕ) → has ℕ_discrete (peer_at s to).unacked k ≡ false)
      → handed r.events ≡ stretch deliveries 0 (peer_at s to).send_seq
  Run-all_delivered s r run none_waits =
      let l = Run-Linked from_env to_env from to m plain four run in
      let le = received_le_sent s r l in
      let missing =
        missing_of_flushed _ 0 l.seen (peer_at r from) l.receiver.holds l.receiver.flushed in
      elim (dec_lt (peer_at r from).recv_seq (peer_at s to).send_seq) [
        | yes lt ↦
            absurd (elim (l.in_hand (peer_at r from).recv_seq (omega (arith, l.sender.count))) [
              | inl w ↦ ground (arith, w, none_waits (peer_at r from).recv_seq)
              | inr came ↦ ground (arith, came, missing)
            ])
        | no ge ↦
            let e : (peer_at r from).recv_seq ≡ (peer_at s to).send_seq = omega (arith, le) in
            l.receiver.logged ∙ ap (stretch deliveries 0) e
      ]
