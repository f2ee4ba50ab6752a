-- ===== src/Mesh/Channel/Receiver.antt =====
-- The receiving side of a channel.
use mathlib.Core.List.{append-nil}
use dead_nodes_tell_no_tales.Prelude.{
  ℕ, ◌+◌, ◌-◌, ◌^◌, ◌<◌, Bytes, Text, true, false, List, [], ◌∷◌, ◌++◌, length, ◌≡◌, refl, sym, ap,
  ◌∙◌, ℕ_discrete, arith, All, All-append, All-map,
}
use dead_nodes_tell_no_tales.Outcome.{Outcome, ok, raised}
use dead_nodes_tell_no_tales.Config.{Settings}
use dead_nodes_tell_no_tales.Dict.{mem}
use dead_nodes_tell_no_tales.Address.{inet_ntoa}
use dead_nodes_tell_no_tales.Wire.{DataHeader, pack_data, pack_ack}
use dead_nodes_tell_no_tales.Wire.RoundTrip.{InRange}
use dead_nodes_tell_no_tales.Node.{Node, Controller, Buffered, Peer, tunnelled}
use dead_nodes_tell_no_tales.Node.Peers.{
  peer_at, get_peer, update_peer, emit, peer_at-get_peer, events-get_peer, tunnel_open-get_peer,
  snapshot_ctrl-get_peer,
}
use dead_nodes_tell_no_tales.Mesh.Spoof.Effects.{
  Sends, delivery_of, handed, handed-append, tunnels, tunnels-append,
}
use dead_nodes_tell_no_tales.Snapshot.Marker.{is_marker}
use dead_nodes_tell_no_tales.Mesh.Send.Effects.{data_header}
use dead_nodes_tell_no_tales.Mesh.Deliver.{process_and_deliver}
use dead_nodes_tell_no_tales.Mesh.Deliver.Live.{IsIdle, delivery, hand_on-idle}
use dead_nodes_tell_no_tales.Mesh.Tunnel.{receive, datagram_received}
use dead_nodes_tell_no_tales.Mesh.Tunnel.Reassembly.{stretch, hand_on, Holds, IsFlushed}
use dead_nodes_tell_no_tales.Mesh.Tunnel.Logged.{Logger, Logged, Sink-Logger}
use dead_nodes_tell_no_tales.Mesh.Tunnel.InOrder.{Progress}
use dead_nodes_tell_no_tales.Mesh.Tunnel.Stream.{receive-Progress}
use dead_nodes_tell_no_tales.Mesh.Tunnel.Packets.{content, data_received}
use dead_nodes_tell_no_tales.Mesh.Channel.{Outgoing}
use dead_nodes_tell_no_tales.Mesh.Channel.Sender.{IsPacket}

abbrev text_of_ok : Outcome Text → Text
text_of_ok (ok t) = t
text_of_ok (raised e) = []

-- The text of an address of four bytes.
unfoldable local_of : Bytes → Text
local_of b = text_of_ok (inet_ntoa b)

-- A datagram as the receiver holds it.
unfoldable pub arrived : Outgoing → Buffered
unfolding local_of
arrived o = record {
  payload = o.payload;
  src_port = o.src_port;
  dst_port = o.dst_port;
  local_ip = local_of o.target_ip;
}

InRange-packed :
    (h : DataHeader) (packed : Bytes) → pack_data h ≡ ok packed → length h.target_ip ≡ 4 → InRange h
unfolding pack_data
InRange-packed h packed e four = record {
  msg_type = ground (arith, e);
  seq = ground (arith, e);
  src_port = ground (arith, e);
  dst_port = ground (arith, e);
  target_ip = four;
}

content-arrived :
    (k : ℕ) (o : Outgoing) (local : Text)
    → inet_ntoa o.target_ip ≡ ok local
    → content (data_header k o.src_port o.dst_port o.target_ip) o.payload local ≡ arrived o
unfolding arrived local_of
content-arrived k o local e =
    ap (content (data_header k o.src_port o.dst_port o.target_ip) o.payload) (sym (ap text_of_ok e))

module _ (env : Settings) (from to : Text) (m : ℕ → Outgoing)
    (plain : (k : ℕ) → is_marker (m k).payload ≡ false)
    (four : (k : ℕ) → length (m k).target_ip ≡ 4) where
  abbrev pub messages : ℕ → Buffered
  messages k = arrived (m k)

  -- No snapshot runs, and the packets on the tunnel are `sent`.
  record Quiet (sent : List (Bytes × Text)) (n : Node) : Type 0 where
    idle : IsIdle n
    tunnel : n.tunnel_open ≡ true
    packets : tunnels n.events ≡ sent

  unfoldable pub OnReturn : List ℕ → Bytes × Text → Type 0
  OnReturn seen (packet, ip) =
      ip ≡ from
      → (k : ℕ) × (k < 256 ^ 8) × (pack_ack k ≡ ok packet) × (mem ℕ_discrete seen k ≡ true)

  step :
      (k : ℕ) (n : Node)
      → IsIdle n
      → Sends env n
          (delivery from (messages k))
          (hand_on (process_and_deliver env) from messages k n)
  step = hand_on-idle env from messages (λ k. unfold arrived in plain k)

  Quiet-Logger :
      (sent : List (Bytes × Text))
      → Logger
          (process_and_deliver env)
          from
          messages
          (Quiet sent)
          (λ n. handed n.events)
          (λ k. delivery from (messages k))
  unfolding update_peer
  Quiet-Logger sent = record {
    returns = λ k n q. (step k n q.idle).returned;
    ready = λ k n q. record {
      idle = ground (arith, (step k n q.idle).untouched.snapshot_ctrl, q.idle);
      tunnel = (step k n q.idle).untouched.tunnel_open ∙ q.tunnel;
      packets = (step k n q.idle).tunnels_same ∙ q.packets;
    };
    logs = λ k n q. (step k n q.idle).handed_one;
    same_seq = λ k n q. rw (step k n q.idle).untouched.peers;
    same_buffer = λ k n q. rw (step k n q.idle).untouched.peers;
    ready_update = λ f n q. record { idle = q.idle; tunnel = q.tunnel; packets = q.packets };
    log_update = λ f n. refl;
  }

  -- And the application was handed the messages before the number.
  abbrev Handing : List (Bytes × Text) → ℕ → Node → Type 0
  Handing sent = Logged (Quiet sent) (λ n. handed n.events) (λ j. delivery from (messages j)) 0 []

  from_zero :
      (k : ℕ)
      → stretch (λ j. delivery from (messages j)) 0 (k - 0)
        ≡ stretch (λ j. delivery from (messages j)) 0 k
  from_zero k = ap (stretch (λ j. delivery from (messages j)) 0) (omega arith)

  -- The numbers `seen` have come in, of `bound` that have been sent.
  pub record Receiver (bound : ℕ) (seen : List ℕ) (n : Node) : Type 0 where
    pub idle : IsIdle n
    pub tunnel : n.tunnel_open ≡ true
    pub holds : Holds messages 0 seen (peer_at n from)
    pub flushed : IsFlushed (peer_at n from)
    pub logged :
        handed n.events ≡ stretch (λ k. delivery from (messages k)) 0 (peer_at n from).recv_seq
    pub acks : All (OnReturn seen) (tunnels n.events)
    pub known : (k : ℕ) → mem ℕ_discrete seen k ≡ true → k < bound

  pub Receiver-suc :
      (bound : ℕ) (seen : List ℕ) (n : Node) → Receiver bound seen n → Receiver (bound + 1) seen n
  Receiver-suc bound seen n r = record {
    idle = r.idle;
    tunnel = r.tunnel;
    holds = r.holds;
    flushed = r.flushed;
    logged = r.logged;
    acks = r.acks;
    known = λ k h. omega (arith, r.known k h);
  }

  -- A packet has been acknowledged, and is received next.
  abbrev answered : Bytes → Node → Node
  answered ack n = emit (tunnelled ack from) (get_peer from n)

  module _ (bound : ℕ) (seen : List ℕ) (n : Node) (r : Receiver bound seen n) (ack : Bytes) where
    peer-answered : peer_at (answered ack n) from ≡ peer_at n from
    unfolding emit
    peer-answered = peer_at-get_peer n from from

    handed-answered : handed (answered ack n).events ≡ handed n.events
    unfolding emit handed delivery_of
    handed-answered =
        handed-append (get_peer from n).events (tunnelled ack from ∷ [])
        ∙ (append-nil (handed (get_peer from n).events) ∙ ap handed (events-get_peer n from))

    tunnels-answered : tunnels (answered ack n).events ≡ tunnels n.events ++ (ack, from) ∷ []
    unfolding emit tunnels
    tunnels-answered =
        tunnels-append (get_peer from n).events (tunnelled ack from ∷ [])
        ∙ ap (λ es. tunnels es ++ (ack, from) ∷ []) (events-get_peer n from)

    Quiet-answered : Quiet (tunnels n.events ++ (ack, from) ∷ []) (answered ack n)
    unfolding emit
    Quiet-answered = record {
      idle = ap (λ (c : Controller). c.is_snapshotting) (snapshot_ctrl-get_peer n from) ∙ r.idle;
      tunnel = tunnel_open-get_peer n from ∙ r.tunnel;
      packets = tunnels-answered;
    }

    Handing-answered :
        Handing
          (tunnels n.events ++ (ack, from) ∷ [])
          (peer_at (answered ack n) from).recv_seq
          (answered ack n)
    Handing-answered = record {
      ready = Quiet-answered;
      above = omega arith;
      logged =
          handed-answered
          ∙ (r.logged
              ∙ ap (λ (p : Peer). stretch (λ j. delivery from (messages j)) 0 p.recv_seq)
                  (sym peer-answered)
              ∙ sym (from_zero (peer_at (answered ack n) from).recv_seq));
    }

    Receiver-answered :
        (k : ℕ) (after : Outcome (Unit {0}) × Node)
        → k < 256 ^ 8
        → k < bound
        → pack_ack k ≡ ok ack
        → Progress from messages
            (Handing (tunnels n.events ++ (ack, from) ∷ []))
            0
            (k ∷ seen)
            (answered ack n)
            after
        → Receiver bound (k ∷ seen) after.1
    unfolding mem OnReturn
    Receiver-answered k after fits lt made p = record {
      idle = p.ready.ready.idle;
      tunnel = p.ready.ready.tunnel;
      holds = p.holds;
      flushed = p.flushed;
      logged = p.ready.logged ∙ from_zero (peer_at after.1 from).recv_seq;
      acks = rw p.ready.ready.packets (
          All-append (OnReturn (k ∷ seen)) (tunnels n.events) ((ack, from) ∷ [])
            (All-map (OnReturn seen) (OnReturn (k ∷ seen)) (tunnels n.events)
              (λ e h here.
                let (j, small, is, came) = h here in (j, small, is, ground (arith, came)))
              (unfold OnReturn in r.acks))
            ((λ here. (k, fits, made, ground arith)), tt));
      known = λ j h. ground (arith, r.known j, lt);
    }

  arrive_run :
      (k : ℕ) (packet : Bytes) (n : Node)
      → IsPacket to m k packet
      → n.tunnel_open ≡ true
      → (ack : Bytes) × (k < 256 ^ 8)
        × (pack_ack k ≡ ok ack)
        × (datagram_received env packet from n
            ≡ receive (process_and_deliver env) from k (messages k) (answered ack n))
  arrive_run k packet n is opened =
      let h : DataHeader = data_header k (m k).src_port (m k).dst_port (m k).target_ip in
      let in_range = InRange-packed h is.header is.packed (four k) in
      let (ack, local, made, address, run) =
        data_received env h (m k).payload is.header from n in_range refl is.packed opened in
      (
        ack,
        in_range.seq,
        made,
        ap (λ p. datagram_received env p from n) is.whole
            ∙ (run
                ∙ ap (λ b. receive (process_and_deliver env) from k b (answered ack n))
                    (content-arrived k (m k) local address)),
      )

  -- A packet of the stream comes in.
  pub Receiver-arrive :
      (bound : ℕ) (seen : List ℕ) (k : ℕ) (packet : Bytes) (n : Node)
      → k < bound
      → IsPacket to m k packet
      → Receiver bound seen n
      → Receiver bound (k ∷ seen) (datagram_received env packet from n).1
  Receiver-arrive bound seen k packet n lt is r =
      let (ack, fits, made, run) = arrive_run k packet n is r.tunnel in
      let q = Handing-answered bound seen n r ack in
      rw run (
        Receiver-answered bound seen n r ack k
          (receive (process_and_deliver env) from k (messages k) (answered ack n)) fits lt made
          (receive-Progress (process_and_deliver env) from messages 0
            (Sink-Logger (process_and_deliver env) from messages
              (Quiet-Logger (tunnels n.events ++ (ack, from) ∷ [])) 0 [])
            k seen (answered ack n) q (rw (peer-answered bound seen n r ack) r.holds)
            (rw (peer-answered bound seen n r ack) r.flushed)))
