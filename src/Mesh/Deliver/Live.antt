-- ===== src/Mesh/Deliver/Live.antt =====
-- `process_and_deliver` on a node that takes no snapshot: the tunnel as the application sees it.
use dead_nodes_tell_no_tales.Prelude.{
  ℕ, ◌+◌, ◌<◌, ◌≤◌, Bytes, Text, true, false, List, [], ◌++◌, ◌≡◌, refl, arith, ℕ_discrete,
}
use dead_nodes_tell_no_tales.Outcome.{ok}
use dead_nodes_tell_no_tales.Config.{Settings}
use dead_nodes_tell_no_tales.Dict.{mem}
use dead_nodes_tell_no_tales.Node.{Node, Buffered, Message}
use dead_nodes_tell_no_tales.Node.Peers.{peer_at, update_peer}
use dead_nodes_tell_no_tales.Exec.{◌>>=◌}
use dead_nodes_tell_no_tales.Snapshot.Flush.{Deliver}
use dead_nodes_tell_no_tales.Snapshot.Marker.{is_marker, process_message}
use dead_nodes_tell_no_tales.Mesh.Spoof.{spoof_send}
use dead_nodes_tell_no_tales.Mesh.Spoof.Effects.{Delivery, handed, Sends, Sends-spoof_send}
use dead_nodes_tell_no_tales.Mesh.Deliver.{deliver_over, deliver_within, process_and_deliver}
use dead_nodes_tell_no_tales.Mesh.Tunnel.Reassembly.{stretch, hand_on}
use dead_nodes_tell_no_tales.Mesh.Tunnel.Stream.{receive_all}
use dead_nodes_tell_no_tales.Mesh.Tunnel.Logged.{Logger, receive_all-logged}

abbrev pub IsIdle : Node → Type 0
IsIdle n = n.snapshot_ctrl.is_snapshotting ≡ false

module _ (env : Settings) (below : Deliver) where
  -- A message that is no marker passes a node that takes no snapshot.
  process_message-idle :
      (ip : Text) (x : Message) (n : Node)
      → is_marker x.payload ≡ false
      → IsIdle n
      → process_message env below ip x n ≡ (ok false, n)
  unfolding process_message ◌>>=◌
  process_message-idle ip x n plain idle = ground (arith, plain, idle)

  pub deliver_over-idle :
      (seq : ℕ) (payload : Bytes) (ip : Text) (src_port dst_port : ℕ) (target : Text) (n : Node)
      → is_marker payload ≡ false
      → IsIdle n
      → deliver_over env below seq payload ip src_port dst_port target n
        ≡ spoof_send env ip src_port payload target dst_port n
  unfolding deliver_over ◌>>=◌
  deliver_over-idle seq payload ip src_port dst_port target n plain idle = rw (
      process_message-idle ip
        (record {
          seq = seq;
          payload = payload;
          src_port = src_port;
          dst_port = dst_port;
          target_local_ip = target;
        })
        n plain idle)

-- What the application receives for a message of the channel from `ip`.
abbrev pub delivery : Text → Buffered → Delivery
delivery ip b = record {
  payload = b.payload;
  src_ip = ip;
  src_port = b.src_port;
  dst_ip = b.local_ip;
  dst_port = b.dst_port;
}

module _ (env : Settings) where
  process_and_deliver-idle :
      (seq : ℕ) (payload : Bytes) (ip : Text) (src_port dst_port : ℕ) (target : Text) (n : Node)
      → is_marker payload ≡ false
      → IsIdle n
      → process_and_deliver env seq payload ip src_port dst_port target n
        ≡ spoof_send env ip src_port payload target dst_port n
  unfolding process_and_deliver
  process_and_deliver-idle seq payload ip src_port dst_port target n plain idle =
      deliver_over-idle env (deliver_within env 249) seq payload ip src_port dst_port target n plain
        idle

  module _ (ip : Text) (m : ℕ → Buffered) (plain : (k : ℕ) → is_marker (m k).payload ≡ false) where
    pub hand_on-idle :
        (k : ℕ) (n : Node)
        → IsIdle n
        → Sends env n (delivery ip (m k)) (hand_on (process_and_deliver env) ip m k n)
    hand_on-idle k n idle =
        rw
          (process_and_deliver-idle k (m k).payload ip (m k).src_port (m k).dst_port (m k).local_ip
            n (plain k) idle)
          (Sends-spoof_send env ip (m k).src_port (m k).payload (m k).local_ip (m k).dst_port n)

    IsIdle-Logger :
        Logger (process_and_deliver env) ip m IsIdle (λ n. handed n.events) (λ k. delivery ip (m k))
    unfolding update_peer
    IsIdle-Logger = record {
      returns = λ k n r. (hand_on-idle k n r).returned;
      ready = λ k n r. ground (arith, (hand_on-idle k n r).untouched.snapshot_ctrl);
      logs = λ k n r. (hand_on-idle k n r).handed_one;
      same_seq = λ k n r. rw (hand_on-idle k n r).untouched.peers;
      same_buffer = λ k n r. rw (hand_on-idle k n r).untouched.peers;
      ready_update = λ f n r. r;
      log_update = λ f n. refl;
    }

    -- On a node that takes no snapshot, let packets of a stream without markers come in on a channel
    -- with an empty buffer, in any order, each any number of times. Nothing is raised, no snapshot
    -- starts, and the application is handed, once each and in order, exactly the messages from the
    -- channel's `recv_seq` up to the first that has not come in; the new `recv_seq` is the number of
    -- that one.
    pub app_in_order :
        (base : ℕ) (arrivals : List ℕ) (n : Node)
        → IsIdle n
        → (peer_at n ip).recv_seq ≡ base
        → (peer_at n ip).recv_buffer ≡ []
        → (count : ℕ) × ((receive_all (process_and_deliver env) ip m arrivals n).0 ≡ ok tt)
          × IsIdle (receive_all (process_and_deliver env) ip m arrivals n).1
          × ((peer_at (receive_all (process_and_deliver env) ip m arrivals n).1 ip).recv_seq
              ≡ base + count)
          × (handed (receive_all (process_and_deliver env) ip m arrivals n).1.events
              ≡ handed n.events ++ stretch (λ k. delivery ip (m k)) base count)
          × ((k : ℕ) → base ≤ k → k < base + count → mem ℕ_discrete arrivals k ≡ true)
          × (mem ℕ_discrete arrivals (base + count) ≡ false)
    app_in_order base = receive_all-logged (process_and_deliver env) ip m IsIdle-Logger base
