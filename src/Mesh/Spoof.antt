-- ===== src/Mesh/Spoof.antt =====
-- `MeshProxy.get_spoof_sock`: the cache of spoofing sockets, least recently used first.
pub mod Effects
pub mod Cache
pub mod LastUses
pub mod Recency
use dead_nodes_tell_no_tales.Prelude.{
  ℕ, Text, Bytes, Option, none, some, List, [], ◌∷◌, ◌++◌, length, leb, if◌then◌else◌,
  address_discrete,
}
use dead_nodes_tell_no_tales.Config.{Settings, max_spoof_sockets}
use dead_nodes_tell_no_tales.Dict.{Dict, get?, put, remove}
use dead_nodes_tell_no_tales.Node.{Node, Socket, bound, generic, Event, spoofed, closed}
use dead_nodes_tell_no_tales.Node.Peers.{emit}
use dead_nodes_tell_no_tales.Exec.{Exec, pure, gets, modify, ◌>>=◌, ◌>>◌}

abbrev pub Sockets : Type 0
Sockets = Dict (Text × ℕ) Socket

-- self.spoof_sockets.move_to_end(key), of a key that is there
unfoldable pub move_to_end : Text × ℕ → Socket → Node → Node
move_to_end key sock n = record n {
  spoof_sockets = remove address_discrete n.spoof_sockets key ++ (key, sock) ∷ [];
}

-- popitem(last=False), and close()
unfoldable pub evict : Sockets → Node → Node
evict [] n = n
evict ((key, _) ∷ rest) n = emit (closed key) (record n { spoof_sockets = rest })

unfoldable pub make_room : Node → Node
unfolding evict
make_room n = if leb max_spoof_sockets (length n.spoof_sockets) then evict n.spoof_sockets n else n

module _ (env : Settings) where
  -- The branch of a key that is not in the cache.
  unfoldable pub create : Text × ℕ → Exec Node Socket
  unfolding make_room
  create key = do
    modify make_room
    let sock = if env.can_bind key.0 key.1 then bound else generic
    modify (λ n. record n { spoof_sockets = put address_discrete n.spoof_sockets key sock })
    pure sock

  unfoldable pub reuse_or_create : Text × ℕ → Option Socket → Exec Node Socket
  unfolding create move_to_end
  reuse_or_create key (some sock) = do modify (move_to_end key sock); pure sock
  reuse_or_create key none = create key

  unfoldable pub get_spoof_sock : Text → ℕ → Exec Node Socket
  unfolding reuse_or_create
  get_spoof_sock src_ip src_port = do
    known ← gets (λ n. get? address_discrete n.spoof_sockets (src_ip, src_port))
    reuse_or_create (src_ip, src_port) known

  -- get_spoof_sock(src_ip, src_port).sendto(payload, (ip, port))
  unfoldable pub spoof_send : Text → ℕ → Bytes → Text → ℕ → Exec Node (Unit {0})
  spoof_send src_ip src_port payload ip port = do
    sock ← get_spoof_sock src_ip src_port
    modify (emit (spoofed sock (src_ip, src_port) payload ip port))
