-- ===== src/Node.antt =====
-- The state of one sidecar: `PeerState` and `MeshProxy` of proxy/mesh_proxy.py, `SnapshotController`
-- of proxy/snapshot_handler.py, and what the process has received from outside and sent there.
-- Every peer object lives in the dictionary `peers` and is never taken out, so an alias of it is the
-- entry of its address.
pub mod Peers
use dead_nodes_tell_no_tales.Prelude.{
  ℕ, Bytes, Text, Bool, true, false, Option, none, some, List, [],
}
use dead_nodes_tell_no_tales.Dict.{Dict}

-- A payload with the ports of the datagram that it came in and the local address that it is for.
pub record Buffered : Type 0 where
  pub payload : Bytes
  pub src_port : ℕ
  pub dst_port : ℕ
  pub local_ip : Text

-- An entry of `unacked`: when the packet was sent last, and the packet.
pub record Sent : Type 0 where
  pub sent_at : ℕ
  pub packet : Bytes

pub record Peer : Type 0 where
  pub send_seq : ℕ
  pub unacked : Dict ℕ Sent
  pub recv_seq : ℕ
  pub recv_buffer : Dict ℕ Buffered

-- An entry of a channel's recorded state.
pub record Message : Type 0 where
  pub seq : ℕ
  pub payload : Bytes
  pub src_port : ℕ
  pub dst_port : ℕ
  pub target_local_ip : Text

pub record Controller : Type 0 where
  pub is_snapshotting : Bool
  pub current_snapshot_id : Option Bytes
  pub recording_channels : List Text
  pub channel_states : Dict Text (List Message)
  pub recorded_send_seq : Dict Text ℕ
  pub recorded_recv_seq : Dict Text ℕ
  pub snapshot_deadline : Option ℕ
  pub self_ip_cache : Option Text

pub data Status : Type 0 where
  complete aborted : Status

-- A message of an artifact: as recorded, its payload in base64.
pub record Stored : Type 0 where
  pub seq : ℕ
  pub payload_b64 : Text
  pub src_port : ℕ
  pub dst_port : ℕ
  pub target_local_ip : Text

pub record PeerArtifact : Type 0 where
  pub send_seq : Option ℕ
  pub recv_seq : Option ℕ
  pub channel : List Stored

pub record Artifact : Type 0 where
  pub snapshot_id : Option Text
  pub node : Text
  pub status : Status
  pub peers : Dict Text PeerArtifact

-- A spoofing socket, bound to its key or, after the fallback, to an address of the kernel's choice.
pub data Socket : Type 0 where
  bound generic : Socket

-- What the process does that can be seen outside.
pub data Event : Type 0 where
  -- `tunnel_transport.sendto(packet, (ip, TUNNEL_PORT))`
  tunnelled : Bytes → Text → Event
  -- `spoof_sock.sendto(payload, (ip, port))`, with the socket and the key it is kept under
  spoofed : Socket → Text × ℕ → Bytes → Text → ℕ → Event
  closed : Text × ℕ → Event
  checkpoint_posted : Text → Text → Event
  artifact_posted : Artifact → Event
  snapshot_requested : Text → Event

-- A datagram of the application on the intercept socket: its bytes, where it comes from, and the
-- original destination, where the kernel gave one: a port and the four bytes of an address.
pub record Intercepted : Type 0 where
  pub content : Bytes
  pub src_ip : Text
  pub src_port : ℕ
  pub destination : Option (ℕ × Bytes)

-- How a request to the breakout receiver ends: whether it succeeded, and the time that it took.
pub record Reply : Type 0 where
  pub success : Bool
  pub elapsed : ℕ

pub record Node : Type 0 where
  pub peers : Dict Text Peer
  pub spoof_sockets : Dict (Text × ℕ) Socket
  pub tunnel_open : Bool
  pub is_server : Bool
  pub snapshot_ctrl : Controller
  -- the datagrams that wait on the intercept socket
  pub pending : List Intercepted
  pub clock : ℕ
  -- the answers of the breakout receiver, and the results of `uuid.uuid4`, that are to come
  pub replies : List Reply
  pub uuids : List Text
  pub events : List Event

abbrev pub fresh_peer : Peer
fresh_peer = record { send_seq = 0; unacked = []; recv_seq = 0; recv_buffer = [] }

abbrev pub fresh_controller : Controller
fresh_controller = record {
  is_snapshotting = false;
  current_snapshot_id = none;
  recording_channels = [];
  channel_states = [];
  recorded_send_seq = [];
  recorded_recv_seq = [];
  snapshot_deadline = none;
  self_ip_cache = none;
}
