-- ===== src/Mesh/Intercept/Contents.antt =====
-- What the datagrams of the application, once forwarded, make the tunnel carry and the spoofing sockets send.
use dead_nodes_tell_no_tales.Prelude.{
  ℕ, Bytes, Text, Option, some, List, map, drop, ◌==◌, if◌then◌else◌, [], ◌∷◌, ◌++◌, ◌≡◌, refl, ap,
  ◌∙◌,
}
use dead_nodes_tell_no_tales.Outcome.{Outcome, ok, raised}
use dead_nodes_tell_no_tales.Wire.{data_header_size}
use dead_nodes_tell_no_tales.Address.{inet_ntoa}
use dead_nodes_tell_no_tales.Node.{Intercepted, Event, tunnelled}
use dead_nodes_tell_no_tales.Mesh.Spoof.Effects.{
  Delivery, delivery_of, handed, handed-append, packet_of, tunnels, tunnels-append,
}
use dead_nodes_tell_no_tales.Mesh.Intercept.Routing.{is_mesh_address}

-- A packet of the tunnel as its address and what it carries behind its header.
abbrev pub carried : Bytes × Text → Text × Bytes
carried (packet, ip) = (ip, drop data_header_size packet)

abbrev pub contents : List Event → List (Text × Bytes)
contents events = map carried (tunnels events)

abbrev pub printed_ip : Outcome Text → Text
printed_ip (ok ip) = ip
printed_ip (raised e) = []

-- What a datagram makes the tunnel carry.
abbrev pub inside_of : Bytes → Option (ℕ × Bytes) → List (Text × Bytes)
inside_of content (some (port, a ∷ b ∷ c ∷ e ∷ [])) =
    if port == 0
    then []
    else if is_mesh_address a b c
    then (printed_ip (inet_ntoa (a ∷ b ∷ c ∷ e ∷ [])), content) ∷ []
    else []
inside_of content _ = []

-- What a datagram makes a spoofing socket send.
abbrev pub outside_of : Intercepted → Option (ℕ × Bytes) → List Delivery
outside_of d (some (port, a ∷ b ∷ c ∷ e ∷ [])) =
    if port == 0
    then []
    else if is_mesh_address a b c
    then []
    else record {
      payload = d.content;
      src_ip = d.src_ip;
      src_port = d.src_port;
      dst_ip = printed_ip (inet_ntoa (a ∷ b ∷ c ∷ e ∷ []));
      dst_port = port;
    }
      ∷ []
outside_of d _ = []

pub carried-append :
    (l t : List (Bytes × Text)) → map carried (l ++ t) ≡ map carried l ++ map carried t
carried-append [] t = refl
carried-append (x ∷ l) t = ap (λ s. carried x ∷ s) (carried-append l t)

-- One more packet.
pub contents-tunnelled :
    (events : List Event) (header payload : Bytes) (ip : Text)
    → drop data_header_size (header ++ payload) ≡ payload
    → contents (events ++ tunnelled (header ++ payload) ip ∷ [])
      ≡ contents events ++ (ip, payload) ∷ []
unfolding tunnels packet_of
contents-tunnelled events header payload ip e =
    ap (map carried) (tunnels-append events (tunnelled (header ++ payload) ip ∷ []))
    ∙ (carried-append (tunnels events) ((header ++ payload, ip) ∷ [])
        ∙ ap (λ b. contents events ++ (ip, b) ∷ []) e)

pub handed-tunnelled :
    (events : List Event) (packet : Bytes) (ip : Text)
    → handed (events ++ tunnelled packet ip ∷ []) ≡ handed events ++ []
unfolding handed delivery_of
handed-tunnelled events packet ip = handed-append events (tunnelled packet ip ∷ [])
