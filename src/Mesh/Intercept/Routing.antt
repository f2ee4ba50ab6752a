-- ===== src/Mesh/Intercept/Routing.antt =====
-- Where `_forward_intercepted` sends a datagram of the application.
use dead_nodes_tell_no_tales.Prelude.{
  ℕ, ◌<◌, Bytes, Text, Bool, false, some, [], ◌∷◌, ◌==◌, if◌then◌else◌, Bool-cases, inl, inr, ◌≡◌,
  ◌≢◌, refl, arith,
}
use dead_nodes_tell_no_tales.Outcome.{ok}
use dead_nodes_tell_no_tales.Config.{Settings}
use dead_nodes_tell_no_tales.Wire.{from_be}
use dead_nodes_tell_no_tales.Address.{inet_ntoa, inet_aton, in_mesh}
use dead_nodes_tell_no_tales.Address.RoundTrip.{inet_aton-inet_ntoa}
use dead_nodes_tell_no_tales.Node.{Node, Intercepted}
use dead_nodes_tell_no_tales.Node.Peers.{get_peer}
use dead_nodes_tell_no_tales.Exec.{◌>>=◌}
use dead_nodes_tell_no_tales.Mesh.Spoof.{spoof_send}
use dead_nodes_tell_no_tales.Mesh.Send.{send_data, send_plain, use_rudp}
use dead_nodes_tell_no_tales.Mesh.Intercept.{forward_tunnelled, forward_to, forward_intercepted}

abbrev address : ℕ → ℕ → ℕ → ℕ → Bytes
address a b c d = a ∷ b ∷ c ∷ d ∷ []

-- The network 10.24.24.0/24, by the first three bytes.
abbrev pub is_mesh_address : ℕ → ℕ → ℕ → Bool
is_mesh_address a b c = if a == 10 then (if b == 24 then c == 24 else false) else false

in_mesh-bytes :
    (a b c d : ℕ) (ip : Text)
    → a < 256
    → b < 256
    → c < 256
    → d < 256
    → inet_aton ip ≡ ok (a ∷ b ∷ c ∷ d ∷ [])
    → in_mesh ip ≡ ok (is_mesh_address a b c)
unfolding in_mesh from_be
in_mesh-bytes a b c d ip ha hb hc hd e = rw e (ground arith)

module _ (env : Settings) where
  -- A datagram to a port other than 0 goes, with its own bytes, ports and destination: to an address of
  -- the mesh reliably between two servers, where the destination becomes a known peer, and plainly
  -- otherwise; to any other address from a spoofing socket of its source.
  pub forward-routed :
      (datagram : Intercepted) (n : Node) (port a b c d : ℕ)
      → datagram.destination ≡ some (port, a ∷ b ∷ c ∷ d ∷ [])
      → port ≢ 0
      → a < 256
      → b < 256
      → c < 256
      → d < 256
      → (ip : Text) × (inet_ntoa (a ∷ b ∷ c ∷ d ∷ []) ≡ ok ip)
        × (forward_intercepted env datagram n ≡ (
            if is_mesh_address a b c
            then (if use_rudp env ip n
                then send_data ip datagram.src_port port
                    (a ∷ b ∷ c ∷ d ∷ [])
                    datagram.content
                    (get_peer ip n)
                else send_plain ip datagram.src_port port (a ∷ b ∷ c ∷ d ∷ []) datagram.content n)
            else spoof_send env datagram.src_ip datagram.src_port datagram.content ip port n))
  unfolding forward_intercepted forward_to forward_tunnelled ◌>>=◌
  forward-routed datagram n port a b c d destination open_port ha hb hc hd =
      let (ip, printed, back) = inet_aton-inet_ntoa a b c d ha hb hc hd in
      let some_port : (port == 0) ≡ false = ground (arith, open_port) in
      let inside = in_mesh-bytes a b c d ip ha hb hc hd back in
      (
        ip,
        printed,
        elim (Bool-cases (is_mesh_address a b c)) [
          | inl e ↦ elim (Bool-cases (use_rudp env ip n)) [
            | inl f ↦ rw (destination, printed, some_port, inside, e, back, f) refl
            | inr f ↦ rw (destination, printed, some_port, inside, e, back, f) refl
          ]
          | inr e ↦ rw (destination, printed, some_port, inside, e) refl
        ],
      )
