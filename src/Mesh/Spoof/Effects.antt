-- ===== src/Mesh/Spoof/Effects.antt =====
-- What a send from a spoofing socket does, and what it leaves alone.
use mathlib.Core.List.{append_assoc, append-nil}
use dead_nodes_tell_no_tales.Prelude.{
  ℕ, Bytes, Text, Option, none, some, List, [], ◌∷◌, ◌++◌, ◌≡◌, refl, ap, ◌∙◌, arith, Bool-cases,
  inl, inr, address_discrete, leb, length, if◌then◌else◌,
}
use dead_nodes_tell_no_tales.Outcome.{Outcome, ok}
use dead_nodes_tell_no_tales.Config.{Settings, max_spoof_sockets}
use dead_nodes_tell_no_tales.Dict.{Dict, get?}
use dead_nodes_tell_no_tales.Node.{
  Node, Artifact, Socket, bound, generic, Event, tunnelled, spoofed, closed, artifact_posted,
}
use dead_nodes_tell_no_tales.Node.Peers.{emit}
use dead_nodes_tell_no_tales.Exec.{◌>>=◌}
use dead_nodes_tell_no_tales.Mesh.Spoof.{
  evict, make_room, create, reuse_or_create, get_spoof_sock, spoof_send,
}

-- A datagram that the application receives: the payload, the address it seems to come from, the
-- address it is sent to.
pub record Delivery : Type 0 where
  pub payload : Bytes
  pub src_ip : Text
  pub src_port : ℕ
  pub dst_ip : Text
  pub dst_port : ℕ

unfoldable pub delivery_of : Event → List Delivery
delivery_of (spoofed sock (ip, port) payload dst_ip dst_port) =
    record { payload = payload; src_ip = ip; src_port = port; dst_ip = dst_ip; dst_port = dst_port }
    ∷ []
delivery_of _ = []

-- The datagrams among the events, in order.
unfoldable pub handed : List Event → List Delivery
handed [] = []
handed (e ∷ es) = delivery_of e ++ handed es

pub handed-append : (es fs : List Event) → handed (es ++ fs) ≡ handed es ++ handed fs
unfolding handed
handed-append [] fs = refl
handed-append (e ∷ es) fs = rw (handed-append es fs, append_assoc)

-- The artifacts among the events, in order.
unfoldable pub artifact_of : Event → List Artifact
artifact_of (artifact_posted a) = a ∷ []
artifact_of _ = []

unfoldable pub posted : List Event → List Artifact
unfolding artifact_of
posted [] = []
posted (e ∷ es) = artifact_of e ++ posted es

pub posted-append : (es fs : List Event) → posted (es ++ fs) ≡ posted es ++ posted fs
unfolding posted
posted-append [] fs = refl
posted-append (e ∷ es) fs = rw (posted-append es fs, append_assoc)

-- The packets on the tunnel among the events, with where they go, in order.
unfoldable pub packet_of : Event → List (Bytes × Text)
packet_of (tunnelled packet ip) = (packet, ip) ∷ []
packet_of _ = []

unfoldable pub tunnels : List Event → List (Bytes × Text)
unfolding packet_of
tunnels [] = []
tunnels (e ∷ es) = packet_of e ++ tunnels es

pub tunnels-append : (es fs : List Event) → tunnels (es ++ fs) ≡ tunnels es ++ tunnels fs
unfolding tunnels
tunnels-append [] fs = refl
tunnels-append (e ∷ es) fs = rw (tunnels-append es fs, append_assoc)

-- The parts of the state that a send from a spoofing socket does not write.
pub record Untouched (n n' : Node) : Type 0 where
  pub peers : n'.peers ≡ n.peers
  pub snapshot_ctrl : n'.snapshot_ctrl ≡ n.snapshot_ctrl
  pub tunnel_open : n'.tunnel_open ≡ n.tunnel_open
  pub is_server : n'.is_server ≡ n.is_server
  pub pending : n'.pending ≡ n.pending
  pub clock : n'.clock ≡ n.clock
  pub replies : n'.replies ≡ n.replies

-- Nothing is handed to the application either.
pub record Silent (n n' : Node) : Type 0 where
  pub untouched : Untouched n n'
  pub handed_same : handed n'.events ≡ handed n.events
  pub posted_same : posted n'.events ≡ posted n.events
  pub tunnels_same : tunnels n'.events ≡ tunnels n.events

emit-closed : (es : List Event) (key : Text × ℕ) → handed (es ++ closed key ∷ []) ≡ handed es
unfolding handed delivery_of
emit-closed es key = handed-append es (closed key ∷ []) ∙ append-nil (handed es)

post-closed : (es : List Event) (key : Text × ℕ) → posted (es ++ closed key ∷ []) ≡ posted es
unfolding posted
post-closed es key = posted-append es (closed key ∷ []) ∙ append-nil (posted es)

tunnel-closed : (es : List Event) (key : Text × ℕ) → tunnels (es ++ closed key ∷ []) ≡ tunnels es
unfolding tunnels
tunnel-closed es key = tunnels-append es (closed key ∷ []) ∙ append-nil (tunnels es)

Silent-evict : (sockets : Dict (Text × ℕ) Socket) (n : Node) → Silent n (evict sockets n)
unfolding evict emit
Silent-evict [] n = record {
  untouched = ground arith;
  handed_same = refl;
  posted_same = refl;
  tunnels_same = refl;
}
Silent-evict ((key, sock) ∷ rest) n = record {
  untouched = ground arith;
  handed_same = emit-closed n.events key;
  posted_same = post-closed n.events key;
  tunnels_same = tunnel-closed n.events key;
}

Silent-make_room : (n : Node) → Silent n (make_room n)
unfolding make_room
Silent-make_room n = elim (Bool-cases (leb max_spoof_sockets (length n.spoof_sockets))) [
  | inl e ↦ rw (e, make_room) (Silent-evict n.spoof_sockets n)
  | inr e ↦
      rw (e, make_room)
        (record {
          untouched = ground arith;
          handed_same = refl;
          posted_same = refl;
          tunnels_same = refl;
        })
]

-- A socket is always there: no step of the cache raises.
pub record Served (n : Node) (r : Outcome Socket × Node) : Type 0 where
  pub sock : Socket
  pub returned : r.0 ≡ ok sock
  pub silent : Silent n r.1

module _ (env : Settings) where
  Served-create : (key : Text × ℕ) (n : Node) → Served n (create env key n)
  unfolding create ◌>>=◌
  Served-create key n = record {
    sock = if env.can_bind key.0 key.1 then bound else generic;
    returned = refl;
    silent = record {
      untouched = ground (arith, (Silent-make_room n).untouched);
      handed_same = (Silent-make_room n).handed_same;
      posted_same = (Silent-make_room n).posted_same;
      tunnels_same = (Silent-make_room n).tunnels_same;
    };
  }

  Served-reuse_or_create :
      (key : Text × ℕ) (known : Option Socket) (n : Node)
      → Served n (reuse_or_create env key known n)
  unfolding reuse_or_create ◌>>=◌
  Served-reuse_or_create key (some sock) n = record {
    sock = sock;
    returned = refl;
    silent = record {
      untouched = ground arith;
      handed_same = refl;
      posted_same = refl;
      tunnels_same = refl;
    };
  }
  Served-reuse_or_create key none n = Served-create key n

  pub Served-get_spoof_sock :
      (ip : Text) (port : ℕ) (n : Node) → Served n (get_spoof_sock env ip port n)
  unfolding get_spoof_sock ◌>>=◌
  Served-get_spoof_sock ip port n =
      Served-reuse_or_create (ip, port) (get? address_discrete n.spoof_sockets (ip, port)) n

  -- Exactly one datagram is handed to the application, with the payload, source and destination of
  -- the call.
  pub record Sends (n : Node) (d : Delivery) (r : Outcome (Unit {0}) × Node) : Type 0 where
    pub returned : r.0 ≡ ok tt
    pub untouched : Untouched n r.1
    pub handed_one : handed r.1.events ≡ handed n.events ++ d ∷ []
    pub posted_same : posted r.1.events ≡ posted n.events
    pub tunnels_same : tunnels r.1.events ≡ tunnels n.events

  pub Sends-spoof_send :
      (ip : Text) (port : ℕ) (payload : Bytes) (dst_ip : Text) (dst_port : ℕ) (n : Node)
      → Sends n
          (record {
            payload = payload;
            src_ip = ip;
            src_port = port;
            dst_ip = dst_ip;
            dst_port = dst_port;
          })
          (spoof_send env ip port payload dst_ip dst_port n)
  unfolding spoof_send ◌>>=◌ emit handed delivery_of posted tunnels
  Sends-spoof_send ip port payload dst_ip dst_port n =
      let s = Served-get_spoof_sock ip port n in
      rw (s.returned, spoof_send)
        (record {
          returned = refl;
          untouched = ground (arith, s.silent.untouched);
          handed_one =
              handed-append (get_spoof_sock env ip port n).1.events
                (spoofed s.sock (ip, port) payload dst_ip dst_port ∷ [])
              ∙ ap (λ l. l ++ delivery_of (spoofed s.sock (ip, port) payload dst_ip dst_port))
                  s.silent.handed_same;
          posted_same =
              posted-append (get_spoof_sock env ip port n).1.events
                (spoofed s.sock (ip, port) payload dst_ip dst_port ∷ [])
              ∙ (append-nil (posted (get_spoof_sock env ip port n).1.events)
                  ∙ s.silent.posted_same);
          tunnels_same =
              tunnels-append (get_spoof_sock env ip port n).1.events
                (spoofed s.sock (ip, port) payload dst_ip dst_port ∷ [])
              ∙ (append-nil (tunnels (get_spoof_sock env ip port n).1.events)
                  ∙ s.silent.tunnels_same);
        })
