-- ===== src/Snapshot/Restore/Resumed.antt =====
-- `restore_from_artifact`: the node after it has loaded an artifact.
use dead_nodes_tell_no_tales.Prelude.{
  ℕ, Text, true, false, some, List, [], ◌∷◌, ◌++◌, ◌≡◌, refl, ap, ◌∙◌, arith, text_discrete,
  Bool-cases, inl, inr,
}
use dead_nodes_tell_no_tales.Outcome.{Outcome, ok}
use dead_nodes_tell_no_tales.Config.{Settings}
use dead_nodes_tell_no_tales.Dict.{get?, or_else, mem, keys, union}
use dead_nodes_tell_no_tales.Dict.Laws.{has_of_get?}
use dead_nodes_tell_no_tales.Dict.Sets.{mem-keys, mem-union}
use dead_nodes_tell_no_tales.Sorting.{insert_before, sort_by, text_le}
use dead_nodes_tell_no_tales.Sorting.Laws.{All-sort_by}
use dead_nodes_tell_no_tales.Node.{Node, Controller, Artifact, Status, Message, Peer}
use dead_nodes_tell_no_tales.Node.Peers.{peer_at}
use dead_nodes_tell_no_tales.Exec.{for_each, ◌>>=◌}
use dead_nodes_tell_no_tales.Mesh.Spoof.Effects.{Delivery, handed}
use dead_nodes_tell_no_tales.Mesh.Deliver.{deliver_over, deliver_within, process_and_deliver}
use dead_nodes_tell_no_tales.Mesh.Deliver.Live.{IsIdle}
use dead_nodes_tell_no_tales.Snapshot.Artifact.{recorded_peers, build_artifact}
use dead_nodes_tell_no_tales.Snapshot.Flush.{Deliver, seq_le, deliver_message}
use dead_nodes_tell_no_tales.Snapshot.Marker.{is_marker}
use dead_nodes_tell_no_tales.Snapshot.Replay.{
  ArePlain, Replayed, channel_deliveries, Replayed-pure, Replayed-trans, Replayed-IsIdle,
  Replayed-messages,
}
use dead_nodes_tell_no_tales.Snapshot.Restore.{load}
use dead_nodes_tell_no_tales.Snapshot.Restore.Channels.{HasBytes}
use dead_nodes_tell_no_tales.Snapshot.Restore.Seeding.{Restored}
use dead_nodes_tell_no_tales.Snapshot.Restore.RoundTrip.{artifact_peers, load-build_artifact}

mem-insert_before :
    (x : Text) (ys : List Text) (j : Text)
    → mem text_discrete (insert_before text_le x ys) j ≡ mem text_discrete (x ∷ ys) j
unfolding insert_before mem
mem-insert_before x [] j = refl
mem-insert_before x (y ∷ ys) j = elim (Bool-cases (text_le x y)) [
  | inl e ↦ rw e refl
  | inr e ↦ rw e (ground (arith, mem-insert_before x ys j))
]

mem-sort_by :
    (xs : List Text) (j : Text) → mem text_discrete (sort_by text_le xs) j ≡ mem text_discrete xs j
unfolding sort_by mem
mem-sort_by [] j = refl
mem-sort_by (x ∷ xs) j =
    ground (arith, mem-insert_before x (sort_by text_le xs) j, mem-sort_by xs j)

-- The recorded state of the channel of a peer.
abbrev pub recorded_state : Controller → Text → List Message
recorded_state c ip = or_else [] (get? text_discrete c.channel_states ip)

-- The recorded messages as the application gets them: peer by peer, in the order of the sequence numbers.
pub restored_deliveries : Controller → List Text → List Delivery
restored_deliveries c [] = []
restored_deliveries c (ip ∷ peers) =
    channel_deliveries (ip, recorded_state c ip) ++ restored_deliveries c peers

module _ (c : Controller) (ip : Text) (k : ℕ) where
  sender-recorded :
      get? text_discrete c.recorded_send_seq ip ≡ some k
      → mem text_discrete (artifact_peers c) ip ≡ true
  unfolding recorded_peers
  sender-recorded e = ground (
    arith,
    mem-sort_by (recorded_peers c) ip,
    mem-union text_discrete
        (union text_discrete (keys c.recorded_send_seq) (keys c.recorded_recv_seq))
        (keys c.channel_states) ip,
    mem-union text_discrete (keys c.recorded_send_seq) (keys c.recorded_recv_seq) ip,
    mem-keys text_discrete c.recorded_send_seq ip,
    has_of_get? text_discrete c.recorded_send_seq ip k e,
  )

  receiver-recorded :
      get? text_discrete c.recorded_recv_seq ip ≡ some k
      → mem text_discrete (artifact_peers c) ip ≡ true
  unfolding recorded_peers
  receiver-recorded e = ground (
    arith,
    mem-sort_by (recorded_peers c) ip,
    mem-union text_discrete
        (union text_discrete (keys c.recorded_send_seq) (keys c.recorded_recv_seq))
        (keys c.channel_states) ip,
    mem-union text_discrete (keys c.recorded_send_seq) (keys c.recorded_recv_seq) ip,
    mem-keys text_discrete c.recorded_recv_seq ip,
    has_of_get? text_discrete c.recorded_recv_seq ip k e,
  )

module _ (env : Settings) (below : Deliver) (c : Controller)
    (plain : (ip : Text) → ArePlain (recorded_state c ip)) where
  Replayed-recorded :
      (peers : List Text) (n : Node)
      → IsIdle n
      → Replayed n (restored_deliveries c peers) (
          for_each peers
            (λ ip.
              for_each
                (sort_by seq_le (recorded_state c ip))
                (deliver_message (deliver_over env below) ip))
            n)
  unfolding for_each restored_deliveries ◌>>=◌
  Replayed-recorded [] n idle = Replayed-pure n
  Replayed-recorded (ip ∷ peers) n idle =
      let p =
        Replayed-messages env below ip (sort_by seq_le (recorded_state c ip)) n
          (All-sort_by (λ m. is_marker m.payload ≡ false) seq_le (recorded_state c ip) (plain ip))
          idle in
      rw p.returned (
        Replayed-trans n (channel_deliveries (ip, recorded_state c ip))
          (restored_deliveries c peers) _ _ p (Replayed-recorded peers _ (Replayed-IsIdle p idle)))

-- From `n`, a node with the coordinates of `c` whose application was handed the recorded messages.
pub record Resumed (c : Controller) (n : Node) (r : Outcome (Unit {0}) × Node) : Type 0 where
  pub returned : r.0 ≡ ok tt
  pub idle : IsIdle r.1
  pub send_seq :
      (ip : Text) (k : ℕ)
      → get? text_discrete c.recorded_send_seq ip ≡ some k
      → (peer_at r.1 ip).send_seq ≡ k
  pub recv_seq :
      (ip : Text) (k : ℕ)
      → get? text_discrete c.recorded_recv_seq ip ≡ some k
      → (peer_at r.1 ip).recv_seq ≡ k
  pub handed_all : handed r.1.events ≡ handed n.events ++ restored_deliveries c (artifact_peers c)

peer_at_same : (n n' : Node) (ip : Text) → n'.peers ≡ n.peers → peer_at n' ip ≡ peer_at n ip
peer_at_same n n' ip same = rw same refl

Resumed-Replayed :
    (c : Controller) (n s : Node) (r : Outcome (Unit {0}) × Node)
    → Restored c (artifact_peers c) n s
    → Replayed s (restored_deliveries c (artifact_peers c)) r
    → IsIdle n
    → Resumed c n r
Resumed-Replayed c n s r restored p idle = record {
  returned = p.returned;
  idle =
      Replayed-IsIdle p (ap (λ (d : Controller). d.is_snapshotting) restored.snapshot_ctrl ∙ idle);
  send_seq = λ ip k e.
      ap (λ (q : Peer). q.send_seq) (peer_at_same s r.1 ip p.same.peers)
      ∙ (restored.send_seq ip (sender-recorded c ip k e) ∙ rw e refl);
  recv_seq = λ ip k e.
      ap (λ (q : Peer). q.recv_seq) (peer_at_same s r.1 ip p.same.peers)
      ∙ (restored.recv_seq ip (receiver-recorded c ip k e) ∙ rw e refl);
  handed_all =
      p.handed_all ∙ ap (λ l. handed l ++ restored_deliveries c (artifact_peers c)) restored.events;
}

-- An idle node that loads the artifact of a controller, of either status, whose recorded messages are
-- bytes and hold no marker, raises nothing and stays idle. Each of its counters whose coordinate was
-- recorded has that value afterwards, and its application was handed exactly the recorded messages, peer
-- by peer as the artifact lists them, each channel in the order of the sequence numbers.
pub Resumed-load :
    (env : Settings) (status : Status) (c : Controller) (a : Artifact) (n : Node)
    → build_artifact env status c ≡ ok a
    → ((ip : Text) → HasBytes (recorded_state c ip))
    → ((ip : Text) → ArePlain (recorded_state c ip))
    → IsIdle n
    → Resumed c n (load (process_and_deliver env) (some a) n)
unfolding process_and_deliver deliver_within
Resumed-load env status c a n built bytes plain idle =
    let (s, restored, run) =
      load-build_artifact env status c a (process_and_deliver env) n built bytes in
    rw run (
      Resumed-Replayed c n s _ restored
        (Replayed-recorded env (deliver_within env 249) c plain (artifact_peers c) s
          (ap (λ (d : Controller). d.is_snapshotting) restored.snapshot_ctrl ∙ idle))
        idle)
