-- ===== src/Mesh/Intercept/Draining.antt =====
-- What `drain_intercept` leaves behind.
use dead_nodes_tell_no_tales.Prelude.{
  ℕ, ◌+◌, Bytes, Text, List, [], ◌∷◌, ◌++◌, length, ◌≡◌, refl, sym, ap, ◌∙◌, arith, All,
}
use dead_nodes_tell_no_tales.Outcome.{Outcome, ok}
use dead_nodes_tell_no_tales.Config.{Settings}
use dead_nodes_tell_no_tales.Node.{Node, Intercepted}
use dead_nodes_tell_no_tales.Exec.{pure, ◌>>=◌}
use dead_nodes_tell_no_tales.Mesh.Send.Effects.{HasRoom}
use dead_nodes_tell_no_tales.Mesh.Intercept.{forward_intercepted, drain_from, drain_intercept}
use dead_nodes_tell_no_tales.Mesh.Intercept.Contents.{contents, inside_of, outside_of}
use dead_nodes_tell_no_tales.Mesh.Intercept.Forwarding.{IsRoutable, Forwarded-intercepted}
use dead_nodes_tell_no_tales.Mesh.Spoof.Effects.{Delivery, handed}
use mathlib.Core.List.{append-nil, append_assoc}

module _ (env : Settings) where
  -- What so many datagrams make the tunnel carry, and the spoofing sockets send.
  abbrev pub all_inside : List Intercepted → List (Text × Bytes)
  all_inside [] = []
  all_inside (d ∷ rest) = inside_of d.content d.destination ++ all_inside rest

  abbrev pub all_outside : List Intercepted → List Delivery
  all_outside [] = []
  all_outside (d ∷ rest) = outside_of d d.destination ++ all_outside rest

  -- Nothing waits on the intercept socket; the controller is as before; the datagrams were sent on.
  pub record Drained (k : ℕ) (waiting : List Intercepted) (n : Node) (r : Outcome (Unit {0}) × Node)
      : Type 0 where
    pub returned : r.0 ≡ ok tt
    pub pending : r.1.pending ≡ []
    pub ctrl : r.1.snapshot_ctrl ≡ n.snapshot_ctrl
    pub room : HasRoom k r.1
    pub inside : contents r.1.events ≡ contents n.events ++ all_inside waiting
    pub outside : handed r.1.events ≡ handed n.events ++ all_outside waiting

  Drained-drain_from :
      (k : ℕ) (waiting : List Intercepted) (n : Node)
      → All IsRoutable waiting
      → n.pending ≡ waiting
      → HasRoom (length waiting + k) n
      → Drained k waiting n (drain_from env waiting n)
  unfolding drain_from ◌>>=◌
  Drained-drain_from k [] n h e room = record {
    returned = unfold pure in refl;
    pending = unfold pure in e;
    ctrl = unfold pure in refl;
    room = unfold pure in record { tunnel = room.tunnel; room = λ ip. omega (arith, room.room ip) };
    inside = unfold pure in sym (append-nil (contents n.events));
    outside = unfold pure in sym (append-nil (handed n.events));
  }
  Drained-drain_from k (d ∷ rest) n h e room =
      let taken : Node = record n { pending = rest } in
      let f =
        Forwarded-intercepted env (length rest + k) d taken h.0
          (record { tunnel = room.tunnel; room = λ ip. omega (arith, room.room ip) }) in
      let q = Drained-drain_from k rest (forward_intercepted env d taken).1 h.1 f.pending f.room in
      rw f.returned (record {
        returned = q.returned;
        pending = q.pending;
        ctrl = q.ctrl ∙ f.ctrl;
        room = q.room;
        inside =
            q.inside
            ∙ (ap (λ l. l ++ all_inside rest) f.inside
                ∙ append_assoc (contents n.events) (inside_of d.content d.destination)
                    (all_inside rest));
        outside =
            q.outside
            ∙ (ap (λ l. l ++ all_outside rest) f.outside
                ∙ append_assoc (handed n.events) (outside_of d d.destination) (all_outside rest));
      })

  -- With the tunnel open and room for the numbers of the datagrams that wait, each without a
  -- destination or to a port and an address of four bytes, to drain the intercept socket returns,
  -- and leaves no datagram waiting and the controller as before; room that was there beside one
  -- number per datagram is left. Each datagram to a port other than 0 was sent on once with its
  -- content: those to an address of the mesh on the tunnel to it, the others from a spoofing socket
  -- of their source to their destination, on each of the two ways in the order of their waiting.
  -- Nothing else was sent.
  pub Drained-drain_intercept :
      (k : ℕ) (n : Node)
      → All IsRoutable n.pending
      → HasRoom (length n.pending + k) n
      → Drained k n.pending n (drain_intercept env n)
  unfolding drain_intercept ◌>>=◌
  Drained-drain_intercept k n h room = Drained-drain_from k n.pending n h refl room
