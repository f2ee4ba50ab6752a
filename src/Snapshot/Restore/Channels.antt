-- ===== src/Snapshot/Restore/Channels.antt =====
-- The recorded state of a channel, stored and replayed.
use dead_nodes_tell_no_tales.Prelude.{
  Text, List, [], ◌∷◌, map, ◌≡◌, refl, ap, ◌∙◌, arith, All, text_discrete, Bool-cases, inl, inr,
  leb,
}
use mathlib.Core.Path.{fun_ext}
use dead_nodes_tell_no_tales.Dict.{get?, or_else}
use dead_nodes_tell_no_tales.Sorting.{insert_before, sort_by}
use dead_nodes_tell_no_tales.Sorting.Laws.{All-sort_by}
use dead_nodes_tell_no_tales.Codec.Base64.{AreBytes, b64decode-b64encode}
use dead_nodes_tell_no_tales.Node.{Message, Controller}
use dead_nodes_tell_no_tales.Exec.{for_each, ◌>>=◌}
use dead_nodes_tell_no_tales.Snapshot.Artifact.{store_message, peer_artifact}
use dead_nodes_tell_no_tales.Snapshot.Flush.{Deliver, seq_le, deliver_message}
use dead_nodes_tell_no_tales.Snapshot.Restore.{stored_le, replay_message, replay_channel}

insert_before-map :
    (m : Message) (msgs : List Message)
    → insert_before stored_le (store_message m) (map store_message msgs)
      ≡ map store_message (insert_before seq_le m msgs)
unfolding insert_before store_message
insert_before-map m [] = refl
insert_before-map m (k ∷ msgs) = elim (Bool-cases (leb m.seq k.seq)) [
  | inl e ↦ ground (arith, e)
  | inr e ↦ ground (arith, e, insert_before-map m msgs)
]

-- Storing a channel and sorting it commute.
sort_by-map :
    (msgs : List Message)
    → sort_by stored_le (map store_message msgs) ≡ map store_message (sort_by seq_le msgs)
unfolding sort_by
sort_by-map [] = refl
sort_by-map (m ∷ msgs) =
    ap (insert_before stored_le (store_message m)) (sort_by-map msgs)
    ∙ insert_before-map m (sort_by seq_le msgs)

-- The payloads of a channel are bytes.
abbrev pub HasBytes : List Message → Type 0
HasBytes = All (λ m. AreBytes m.payload)

module _ (deliver : Deliver) (ip : Text) where
  replay-store :
      (m : Message)
      → AreBytes m.payload
      → replay_message deliver ip (store_message m) ≡ deliver_message deliver ip m
  unfolding replay_message store_message ◌>>=◌
  replay-store m h = fun_ext λ n. rw (b64decode-b64encode m.payload h)

  replay-map :
      (msgs : List Message)
      → HasBytes msgs
      → for_each (map store_message msgs) (replay_message deliver ip)
        ≡ for_each msgs (deliver_message deliver ip)
  unfolding for_each
  replay-map [] h = refl
  replay-map (m ∷ msgs) h = rw (replay-store m h.0, replay-map msgs h.1)

  -- The recorded state of a channel, once stored, is replayed message by message as it was recorded,
  -- in the order of the sequence numbers.
  pub replay_channel-peer_artifact :
      (c : Controller)
      → HasBytes (or_else [] (get? text_discrete c.channel_states ip))
      → replay_channel deliver (ip, peer_artifact c ip)
        ≡ for_each
            (sort_by seq_le (or_else [] (get? text_discrete c.channel_states ip)))
            (deliver_message deliver ip)
  unfolding replay_channel peer_artifact
  replay_channel-peer_artifact c h =
      let msgs = or_else [] (get? text_discrete c.channel_states ip) in
      ap (λ l. for_each l (replay_message deliver ip)) (sort_by-map msgs)
      ∙ replay-map (sort_by seq_le msgs) (All-sort_by (λ m. AreBytes m.payload) seq_le msgs h)

module _ (deliver : Deliver) (c : Controller)
    (bytes : (ip : Text) → HasBytes (or_else [] (get? text_discrete c.channel_states ip))) where
  pub replay_channels-map :
      (peers : List Text)
      → for_each (map (λ peer. (peer, peer_artifact c peer)) peers) (replay_channel deliver)
        ≡ for_each peers (λ ip.
          for_each
            (sort_by seq_le (or_else [] (get? text_discrete c.channel_states ip)))
            (deliver_message deliver ip))
  unfolding for_each
  replay_channels-map [] = refl
  replay_channels-map (ip ∷ peers) =
      rw (replay_channel-peer_artifact deliver ip c (bytes ip), replay_channels-map peers)
