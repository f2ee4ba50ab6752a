-- ===== src/Lib.antt =====
-- Verification of the transparent mesh proxy with Chandy-Lamport snapshots.
--
-- The program. Each node of the mesh runs a sidecar, `MeshProxy` (proxy/mesh_proxy.py), beside its
-- application. It takes the datagrams of the application off the intercept socket and sends those to
-- other members through a tunnel with sequence numbers, acknowledgements and retransmission; it
-- receives the tunnel's packets (`TunnelProtocol`) and delivers their payloads in order, from a socket
-- that is bound to the sender's address. Before a payload is delivered, `SnapshotController`
-- (proxy/snapshot_handler.py) may consume it: a marker starts or advances a snapshot, and a message on
-- a channel that is being recorded is kept. At the end of a snapshot, by the last marker or by the
-- deadline, the controller posts an artifact to the breakout receiver and delivers the recorded
-- messages. A sidecar that is started in restore mode loads such an artifact. The breakout receiver
-- (proxy/breakout_receiver.py) on the host stores the artifacts and runs the container commands.
--
-- The state. Node models `PeerState`, `MeshProxy` and the fields of `SnapshotController` as one record
-- of the process. What it sends and requests is the list `events`. What comes from outside is data of
-- the state: the datagrams that wait on the intercept socket, the answers of the breakout receiver
-- with the time that they take, the results of `uuid4`, the clock in milliseconds. Settings (Config)
-- has the environment variables, the route lookup of the kernel, and whether a spoofing socket can be
-- bound. A callback is a function of `Exec Node`: it gives a value or an exception of Outcome, and the
-- state that it leaves behind, also when it raises.
--
-- The files, with the code that they model.
--   Config           proxy/config.py
--   Wire             DATA_HEADER and ACK_HEADER of proxy/mesh_proxy.py; Wire/RoundTrip on both
--   Codec, Address   the UTF-8, base64 and IPv4 functions of Python that the program calls
--   Dict, Sorting    dictionaries and sets in the order of insertion, and the stable sort
--   Node             the state; Node/Peers `get_peer` and the access to one peer
--   Mesh/Spoof       `get_spoof_sock`
--   Mesh/Send        `send_data`, `send_plain`, `_use_rudp`
--   Mesh/Intercept   `_forward_intercepted`, `drain_intercept`
--   Mesh/Deliver     `process_and_deliver`
--   Mesh/Tunnel      `datagram_received`
--   Mesh/Timer       one round of `_retransmit_loop`
--   Mesh/Channel     two sidecars with the network between them, as a relation of the states that a run
--                    comes to; Mesh/Channel/Fifo has the queue that specifies the channel
--   Mesh/Process     `_handle_local_intercept`, `start`
--   Snapshot/Host    `_self_mesh_ip` and the requests to the breakout receiver
--   Snapshot/Marker  `process_message`
--   Snapshot/Artifact  `_build_artifact`
--   Snapshot/Flush   `_finish_global_snapshot`, `_abort_snapshot`, `_flush_and_reset`, `check_timeout`
--   Snapshot/Restore   `restore_from_artifact`
--   Breakout/Fields, Requests  `CONTAINER_ID_RE`, `field_ok`, and what `do_GET` and `do_POST` read
--   Breakout/Commands  `ROUTES` and its handlers, by the command lines that they run
--   Breakout/Http    `do_GET`, `do_POST`
--   Counter/Numerals, Words  Python's integers and words as text
--   Counter/Nodes    `node` of src/counter.py, the application whose messages the mesh carries
--   Counter/Client   `request_udp`, `state`, `transfer`, `reset_counter`, `get_counter` of src/counter.py;
--                    Counter/Client/Sum `sum_counters`, Counter/Client/Main `main`
--   Scripts          proxy/chat.py and proxy/udp_script.py
-- The modules below and beside these hold their theorems; Tests has runs and examples.
--
-- Bounds and fuel. The loop that empties `recv_buffer` runs on as many rounds as the buffer has
-- entries: each round takes one out, and Mesh/Tunnel/InOrder shows that the loop is finished then. The
-- loop of the intercept socket runs on the number of the waiting datagrams, of which no round adds
-- one. The loop of `sum_counters` runs on the rounds that fit its timeout, of 100 milliseconds each.
-- `process_and_deliver` and the controller call each other; `deliver_within` bounds the depth by
-- the interpreter's recursion limit and raises below it. The theorems on the flush and the end of a
-- snapshot hold at every depth from 1 on, so the limit is not met there. Sequence numbers are not
-- bounded in the program's state, and 64 bits wide on the wire: packing a number that does not fit
-- raises, as it does in the source.
--
-- Not modelled. The printing of the sidecar; the creation and the options of sockets; exceptions of
-- the operating system on sending; the JSON text of artifacts and requests. Sets are iterated in the order of insertion.
-- The clock stands still within a callback but for the requests. `inet_aton` is modelled on four
-- decimal parts, `b64decode` on texts that its encoder can make and on malformed ones as an error.
-- Of a JSON body the receiver's model has the object with its strings; a value of another kind is a
-- number that stands for it. What becomes of a command of the receiver is data of its state: it ends,
-- or an exception of its start or of the reading of its output is raised. A command writes no file
-- that the receiver serves, and the receiver can write and read its own. Integers are read from ASCII digits, and a counter node
-- sends texts; what it reads of a datagram is the text of its first 512 bytes. What becomes of a client's
-- request is data of its state. The usage texts of src/counter.py are not modelled. The scripts are
-- interrupted behind a whole number of rounds, and the listener of proxy/chat.py, a thread there, is
-- a program of its own.
pub mod Prelude
pub mod Dict
pub mod Outcome
pub mod Exec
pub mod Wire
pub mod Config
pub mod Codec
pub mod Sorting
pub mod Address
pub mod Node
pub mod Mesh
pub mod Snapshot
pub mod Breakout
pub mod Counter
pub mod Scripts
mod Tests
