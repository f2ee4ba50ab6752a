-- ===== src/Mesh/Intercept/Forwarding.antt =====
-- What forwarding one datagram of the application leaves alone.
use mathlib.Core.List.{append-nil}
use dead_nodes_tell_no_tales.Prelude.{
  ℕ, suc, ◌+◌, ◌^◌, ◌<◌, ◌≤◌, ◌⊎◌, Bytes, Text, true, false, none, some, List, map, drop, ◌==◌,
  if◌then◌else◌, sym, [], ◌∷◌, ◌++◌, length, Bool-cases, inl, inr, ◌≡◌, refl, ite, ap, ◌∙◌, subst,
  ◌≢◌, arith, text_discrete, ℕ_discrete,
}
use dead_nodes_tell_no_tales.Outcome.{Outcome, ok}
use dead_nodes_tell_no_tales.Config.{Settings}
use dead_nodes_tell_no_tales.Wire.{DataHeader, data_header_size, pack_data}
use dead_nodes_tell_no_tales.Wire.RoundTrip.{data_round_trip}
use dead_nodes_tell_no_tales.Address.{inet_ntoa}
use dead_nodes_tell_no_tales.Node.{Node, Intercepted, Peer, tunnelled}
use dead_nodes_tell_no_tales.Node.Peers.{
  peer_at, get_peer, update_peer, emit, peer_at-get_peer, peer_at-update_peer, tunnel_open-get_peer,
  snapshot_ctrl-get_peer, pending-get_peer, events-get_peer,
}
use dead_nodes_tell_no_tales.Exec.{pure, ◌>>=◌}
use dead_nodes_tell_no_tales.Mesh.Spoof.{spoof_send}
use dead_nodes_tell_no_tales.Mesh.Spoof.Effects.{Delivery, handed, Sends-spoof_send}
use dead_nodes_tell_no_tales.Mesh.Send.{track, tunnel_send, send_data, send_plain, use_rudp}
use dead_nodes_tell_no_tales.Mesh.Send.Effects.{HasRoom, data_header, send_data_run, send_seq-track}
use dead_nodes_tell_no_tales.Mesh.Intercept.{forward_to, forward_intercepted}
use dead_nodes_tell_no_tales.Mesh.Intercept.Routing.{is_mesh_address, forward-routed}
use dead_nodes_tell_no_tales.Mesh.Intercept.Contents.{
  carried, contents, inside_of, outside_of, contents-tunnelled, handed-tunnelled,
}

-- The kernel gave no destination, or a port and an address of four bytes.
pub record IsRoutable (d : Intercepted) : Type 0 where
  pub src_port : d.src_port < 256 ^ 2
  pub target :
      (d.destination ≡ none)
      ⊎ ((port : ℕ) × (a : ℕ) × (b : ℕ) × (c : ℕ) × (e : ℕ) × (d.destination
            ≡ some (port, a ∷ b ∷ c ∷ e ∷ []))
          × (port < 256 ^ 2)
          × (a < 256)
          × (b < 256)
          × (c < 256)
          × (e < 256))

-- The step returns, leaves the controller and the waiting datagrams alone, and sends so much into the mesh
-- and out of it.
pub record Forwarded (k : ℕ) (n : Node) (ins : List (Text × Bytes)) (outs : List Delivery)
    (r : Outcome (Unit {0}) × Node) : Type 0 where
  pub returned : r.0 ≡ ok tt
  pub ctrl : r.1.snapshot_ctrl ≡ n.snapshot_ctrl
  pub pending : r.1.pending ≡ n.pending
  pub room : HasRoom k r.1
  pub inside : contents r.1.events ≡ contents n.events ++ ins
  pub outside : handed r.1.events ≡ handed n.events ++ outs

HasRoom-less : (k : ℕ) (n : Node) → HasRoom (suc k) n → HasRoom k n
HasRoom-less k n h = record { tunnel = h.tunnel; room = λ ip. omega (arith, h.room ip) }

Forwarded-none : (k : ℕ) (n : Node) → HasRoom (suc k) n → Forwarded k n [] [] (ok tt, n)
Forwarded-none k n h = record {
  returned = refl;
  ctrl = refl;
  pending = refl;
  room = HasRoom-less k n h;
  inside = sym (append-nil (contents n.events));
  outside = sym (append-nil (handed n.events));
}

packed_header :
    (seq src_port dst_port : ℕ) (target payload : Bytes)
    → seq < 256 ^ 8
    → src_port < 256 ^ 2
    → dst_port < 256 ^ 2
    → length target ≡ 4
    → (header : Bytes) × (pack_data (data_header seq src_port dst_port target) ≡ ok header)
      × (drop data_header_size (header ++ payload) ≡ payload)
packed_header seq src_port dst_port target payload hs hp hd ht =
    let (header, packed, _, _, behind) =
      data_round_trip (data_header seq src_port dst_port target) payload (record {
        msg_type = omega arith;
        seq = hs;
        src_port = hp;
        dst_port = hd;
        target_ip = ht;
      }) in
    (header, packed, behind)

-- A data packet to `ip`, of the node `n`.
abbrev pub sent_data : Bytes → Text → Node → Node
sent_data packet ip n = update_peer ip (track n.clock packet) (emit (tunnelled packet ip) n)

send_seq-sent_data :
    (packet : Bytes) (ip j : Text) (n : Node)
    → (peer_at (sent_data packet ip n) j).send_seq ≤ (peer_at n j).send_seq + 1
unfolding emit
send_seq-sent_data packet ip j n =
    rw (peer_at-update_peer (emit (tunnelled packet ip) n) ip (track n.clock packet) j)
      (elim (text_discrete ip j)
        as (λ d.
          (ite d (track n.clock packet (peer_at n ip)) (peer_at n j)).send_seq
          ≤ (peer_at n j).send_seq + 1) [
            | yes e ↦ omega (
              arith,
              send_seq-track n.clock packet (peer_at n ip),
              ap (λ i. (peer_at n i).send_seq) e,
            )
            | no ne ↦ omega arith
          ])

HasRoom-sent_data :
    (k : ℕ) (packet : Bytes) (ip : Text) (n : Node)
    → HasRoom (suc k) n
    → HasRoom k (sent_data packet ip n)
HasRoom-sent_data k packet ip n h = record {
  tunnel = unfold update_peer emit in h.tunnel;
  room = λ j. omega (arith, h.room j, send_seq-sent_data packet ip j n);
}

HasRoom-get_peer : (k : ℕ) (ip : Text) (n : Node) → HasRoom k n → HasRoom k (get_peer ip n)
HasRoom-get_peer k ip n h = record {
  tunnel = tunnel_open-get_peer n ip ∙ h.tunnel;
  room = λ j. omega (arith, h.room j, ap (λ (p : Peer). p.send_seq) (peer_at-get_peer n ip j));
}

Forwarded-send_data :
    (k : ℕ) (ip : Text) (src_port dst_port : ℕ) (target payload : Bytes) (n : Node)
    → HasRoom (suc k) n
    → src_port < 256 ^ 2
    → dst_port < 256 ^ 2
    → length target ≡ 4
    → Forwarded k n
        ((ip, payload) ∷ [])
        []
        (send_data ip src_port dst_port target payload (get_peer ip n))
Forwarded-send_data k ip src_port dst_port target payload n h hp hd ht =
    let q = get_peer ip n in
    let r = HasRoom-get_peer (suc k) ip n h in
    let (header, packed, behind) =
      packed_header (peer_at q ip).send_seq src_port dst_port target payload
        (omega (arith, r.room ip)) hp hd ht in
    rw (send_data_run ip src_port dst_port target payload header q r.tunnel packed) (record {
      returned = refl;
      ctrl = unfold update_peer emit in snapshot_ctrl-get_peer n ip;
      pending = unfold update_peer emit in pending-get_peer n ip;
      room = HasRoom-sent_data k (header ++ payload) ip q r;
      inside =
          unfold update_peer emit in
          contents-tunnelled q.events header payload ip behind
          ∙ ap (λ l. contents l ++ (ip, payload) ∷ []) (events-get_peer n ip);
      outside =
          unfold update_peer emit in
          handed-tunnelled q.events (header ++ payload) ip
          ∙ ap (λ l. handed l ++ []) (events-get_peer n ip);
    })

send_plain_run :
    (ip : Text) (src_port dst_port : ℕ) (target payload packed : Bytes) (n : Node)
    → n.tunnel_open ≡ true
    → pack_data (record (data_header 0 src_port dst_port target) { msg_type = 2 }) ≡ ok packed
    → send_plain ip src_port dst_port target payload n
      ≡ (ok tt, emit (tunnelled (packed ++ payload) ip) n)
unfolding send_plain tunnel_send ◌>>=◌
send_plain_run ip src_port dst_port target payload packed n opened packs =
    ground (arith, opened, packs)

Forwarded-send_plain :
    (k : ℕ) (ip : Text) (src_port dst_port : ℕ) (target payload : Bytes) (n : Node)
    → HasRoom (suc k) n
    → src_port < 256 ^ 2
    → dst_port < 256 ^ 2
    → length target ≡ 4
    → Forwarded k n ((ip, payload) ∷ []) [] (send_plain ip src_port dst_port target payload n)
Forwarded-send_plain k ip src_port dst_port target payload n h hp hd ht =
    let header : DataHeader = record (data_header 0 src_port dst_port target) { msg_type = 2 } in
    let (packed, packs, _, _, behind) = data_round_trip header payload (record {
      msg_type = omega arith;
      seq = omega arith;
      src_port = hp;
      dst_port = hd;
      target_ip = ht;
    }) in
    rw (send_plain_run ip src_port dst_port target payload packed n h.tunnel packs) (record {
      returned = refl;
      ctrl = unfold emit in refl;
      pending = unfold emit in refl;
      room = record {
        tunnel = unfold emit in h.tunnel;
        room = λ j. unfold emit in omega (arith, h.room j);
      };
      inside = unfold emit in contents-tunnelled n.events packed payload ip behind;
      outside = unfold emit in handed-tunnelled n.events (packed ++ payload) ip;
    })

Forwarded-spoof_send :
    (env : Settings) (k : ℕ) (ip : Text) (port : ℕ) (payload : Bytes) (dst_ip : Text) (dst_port : ℕ)
    (n : Node)
    → HasRoom (suc k) n
    → Forwarded k n []
        (record {
          payload = payload;
          src_ip = ip;
          src_port = port;
          dst_ip = dst_ip;
          dst_port = dst_port;
        }
          ∷ [])
        (spoof_send env ip port payload dst_ip dst_port n)
Forwarded-spoof_send env k ip port payload dst_ip dst_port n h =
    let s = Sends-spoof_send env ip port payload dst_ip dst_port n in
    record {
      returned = s.returned;
      ctrl = s.untouched.snapshot_ctrl;
      pending = s.untouched.pending;
      room = record {
        tunnel = s.untouched.tunnel_open ∙ h.tunnel;
        room = λ j. rw s.untouched.peers (omega (arith, h.room j));
      };
      inside = ap (map carried) s.tunnels_same ∙ sym (append-nil (contents n.events));
      outside = s.handed_one;
    }

module _ (env : Settings) where
  forward-none :
      (d : Intercepted) (n : Node) → d.destination ≡ none → forward_intercepted env d n ≡ (ok tt, n)
  unfolding forward_intercepted forward_to pure ◌>>=◌
  forward-none d n e = rw e refl

  forward-port_zero :
      (d : Intercepted) (a b c e : ℕ) (n : Node)
      → d.destination ≡ some (0, a ∷ b ∷ c ∷ e ∷ [])
      → forward_intercepted env d n ≡ (ok tt, n)
  unfolding forward_intercepted forward_to inet_ntoa pure ◌>>=◌
  forward-port_zero d a b c e n h = rw h refl

  Forwarded-routed :
      (k : ℕ) (d : Intercepted) (n : Node) (port a b c e : ℕ) (ip : Text)
      → HasRoom (suc k) n
      → d.src_port < 256 ^ 2
      → port < 256 ^ 2
      → port ≢ 0
      → inet_ntoa (a ∷ b ∷ c ∷ e ∷ []) ≡ ok ip
      → Forwarded k n
          (inside_of d.content (some (port, a ∷ b ∷ c ∷ e ∷ [])))
          (outside_of d (some (port, a ∷ b ∷ c ∷ e ∷ [])))
          (if is_mesh_address a b c
            then (if use_rudp env ip n
                then send_data ip d.src_port port (a ∷ b ∷ c ∷ e ∷ []) d.content (get_peer ip n)
                else send_plain ip d.src_port port (a ∷ b ∷ c ∷ e ∷ []) d.content n)
            else spoof_send env d.src_ip d.src_port d.content ip port n)
  Forwarded-routed k d n port a b c e ip h hs hp nz printed =
      let some_port : (port == 0) ≡ false = ground (arith, nz) in
      rw (some_port, printed)
        (elim (Bool-cases (is_mesh_address a b c)) [
          | inl m ↦ elim (Bool-cases (use_rudp env ip n)) [
            | inl u ↦
                rw (m, u)
                  (Forwarded-send_data k ip d.src_port port (a ∷ b ∷ c ∷ e ∷ []) d.content n h hs hp
                    refl)
            | inr u ↦
                rw (m, u)
                  (Forwarded-send_plain k ip d.src_port port (a ∷ b ∷ c ∷ e ∷ []) d.content n h hs
                    hp refl)
          ]
          | inr m ↦ rw m (Forwarded-spoof_send env k d.src_ip d.src_port d.content ip port n h)
        ])

  pub Forwarded-intercepted :
      (k : ℕ) (d : Intercepted) (n : Node)
      → IsRoutable d
      → HasRoom (suc k) n
      → Forwarded k n
          (inside_of d.content d.destination)
          (outside_of d d.destination)
          (forward_intercepted env d n)
  Forwarded-intercepted k d n r h = elim r.target [
    | inl e ↦ rw (forward-none d n e, e) (Forwarded-none k n h)
    | inr (port, a, b, c, e, target, hp, ha, hb, hc, he) ↦ elim (ℕ_discrete port 0) [
      | yes z ↦
          let zero_port = target ∙ ap (λ q. some (q, a ∷ b ∷ c ∷ e ∷ [])) z in
          rw (forward-port_zero d a b c e n zero_port, zero_port) (Forwarded-none k n h)
      | no nz ↦
          let (ip, printed, routed) = forward-routed env d n port a b c e target nz ha hb hc he in
          subst
            (λ q.
              Forwarded k n (inside_of d.content q) (outside_of d q) (forward_intercepted env d n))
            (sym target)
            (rw routed (Forwarded-routed k d n port a b c e ip h r.src_port hp nz printed))
    ]
  ]
