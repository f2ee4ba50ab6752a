-- ===== src/Node/Peers.antt =====
-- `MeshProxy.get_peer`, and reads and writes of a peer's fields.
use dead_nodes_tell_no_tales.Prelude.{
  Text, if◌then◌else◌, text_discrete, ◌≡◌, ite, if_pos, ◌∙◌, arith, refl, ◌++◌, ◌∷◌, [],
}
use dead_nodes_tell_no_tales.Dict.{get?, has, put, or_else}
use dead_nodes_tell_no_tales.Dict.Laws.{get?-put, none_of_has}
use dead_nodes_tell_no_tales.Node.{Node, Peer, Controller, Event, fresh_peer}

-- self.proxy.peers[ip], of an address that is known
abbrev pub peer_at : Node → Text → Peer
peer_at n ip = or_else fresh_peer (get? text_discrete n.peers ip)

unfoldable pub get_peer : Text → Node → Node
get_peer ip n =
    if has text_discrete n.peers ip
    then n
    else record n { peers = put text_discrete n.peers ip fresh_peer }

-- A write to the fields of the peer object of an address.
unfoldable pub update_peer : Text → (Peer → Peer) → Node → Node
update_peer ip f n = record n { peers = put text_discrete n.peers ip (f (peer_at n ip)) }

unfoldable pub update_ctrl : (Controller → Controller) → Node → Node
update_ctrl f n = record n { snapshot_ctrl = f n.snapshot_ctrl }

unfoldable pub emit : Event → Node → Node
emit e n = record n { events = n.events ++ e ∷ [] }

-- To look a peer up makes no difference to what any peer holds.
pub peer_at-get_peer : (n : Node) (ip j : Text) → peer_at (get_peer ip n) j ≡ peer_at n j
unfolding get_peer
peer_at-get_peer n ip j =
    ground
      (arith, get?-put text_discrete n.peers ip fresh_peer j, none_of_has text_discrete n.peers ip)

pub peer_at-update_peer :
    (n : Node) (ip : Text) (f : Peer → Peer) (j : Text)
    → peer_at (update_peer ip f n) j ≡ ite (text_discrete ip j) (f (peer_at n ip)) (peer_at n j)
unfolding update_peer
peer_at-update_peer n ip f j =
    ground (arith, get?-put text_discrete n.peers ip (f (peer_at n ip)) j)

pub peer_at-update_peer_self :
    (n : Node) (ip : Text) (f : Peer → Peer) → peer_at (update_peer ip f n) ip ≡ f (peer_at n ip)
peer_at-update_peer_self n ip f =
    peer_at-update_peer n ip f ip ∙ if_pos (text_discrete ip ip) refl _ _

pub tunnel_open-get_peer : (n : Node) (ip : Text) → (get_peer ip n).tunnel_open ≡ n.tunnel_open
unfolding get_peer
tunnel_open-get_peer n ip = ground arith

pub snapshot_ctrl-get_peer :
    (n : Node) (ip : Text) → (get_peer ip n).snapshot_ctrl ≡ n.snapshot_ctrl
unfolding get_peer
snapshot_ctrl-get_peer n ip = ground arith

pub events-get_peer : (n : Node) (ip : Text) → (get_peer ip n).events ≡ n.events
unfolding get_peer
events-get_peer n ip = ground arith

pub pending-get_peer : (n : Node) (ip : Text) → (get_peer ip n).pending ≡ n.pending
unfolding get_peer
pending-get_peer n ip = ground arith
