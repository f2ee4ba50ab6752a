-- ===== src/Snapshot/OpenChannels.antt =====
-- The statements of `process_message` behind the broadcast of a first marker.
use mathlib.Core.List.{foldl}
use dead_nodes_tell_no_tales.Prelude.{
  ℕ, ◌+◌, Text, true, none, some, List, [], ◌∷◌, ◌≡◌, refl, ap, ◌∙◌, arith, text_discrete, if_pos,
}
use dead_nodes_tell_no_tales.Outcome.{ok}
use dead_nodes_tell_no_tales.Config.{Settings, snapshot_timeout}
use dead_nodes_tell_no_tales.Dict.{get?, mem}
use dead_nodes_tell_no_tales.Dict.Laws.{get?-put}
use dead_nodes_tell_no_tales.Node.{Node, Controller}
use dead_nodes_tell_no_tales.Node.Peers.{update_ctrl}
use dead_nodes_tell_no_tales.Exec.{pure, ◌>>=◌}
use dead_nodes_tell_no_tales.Snapshot.Flush.{Deliver}
use dead_nodes_tell_no_tales.Snapshot.Marker.{
  empty_channel, origin_channel, finish_if_done, open_channels,
}

-- The controller but for the channels' states.
abbrev without_states : Controller → Controller
without_states c = record c { channel_states = [] }

without_states-foldl :
    (l : List Text) (c : Controller) → without_states (foldl empty_channel c l) ≡ without_states c
unfolding empty_channel
without_states-foldl [] c = refl
without_states-foldl (ip ∷ l) c = without_states-foldl l (empty_channel c ip)

-- A channel that is empty stays so, and every channel of the list is empty.
empty-foldl :
    (l : List Text) (c : Controller) (j : Text)
    → get? text_discrete c.channel_states j ≡ some []
    → get? text_discrete (foldl empty_channel c l).channel_states j ≡ some []
unfolding empty_channel
empty-foldl [] c j h = h
empty-foldl (ip ∷ l) c j h =
    empty-foldl l (empty_channel c ip) j
      (unfold empty_channel in ground (arith, get?-put text_discrete c.channel_states ip [] j, h))

pub opened-foldl :
    (l : List Text) (c : Controller) (j : Text)
    → mem text_discrete l j ≡ true
    → get? text_discrete (foldl empty_channel c l).channel_states j ≡ some []
unfolding empty_channel mem
opened-foldl [] c j h = absurd (ground arith)
opened-foldl (ip ∷ l) c j h = elim (text_discrete ip j) [
  | yes e ↦
      empty-foldl l (empty_channel c ip) j
        (unfold empty_channel in ground (arith, get?-put text_discrete c.channel_states ip [] j, e))
  | no ne ↦ opened-foldl l (empty_channel c ip) j (ground (arith, h, ne))
]

module _ (members : List Text) (ip : Text) (seq : ℕ) where
  -- The controller behind `open_channels`.
  unfoldable pub opened : ℕ → Controller → Controller
  opened now c =
      record (origin_channel members ip seq (foldl empty_channel c c.recording_channels)) {
        snapshot_deadline = some (now + snapshot_timeout);
      }

  -- What the origin's channel does not touch.
  same-origin_channel :
      (c : Controller)
      → (record (origin_channel members ip seq c) { channel_states = []; recorded_recv_seq = [] })
        ≡ record c { channel_states = []; recorded_recv_seq = [] }
  unfolding origin_channel
  same-origin_channel c = ground arith

  pub empty-origin_channel :
      (c : Controller) (j : Text)
      → get? text_discrete c.channel_states j ≡ some []
      → get? text_discrete (origin_channel members ip seq c).channel_states j ≡ some []
  unfolding origin_channel
  empty-origin_channel c j h = ground (arith, get?-put text_discrete c.channel_states ip [] j, h)

  pub origin-origin_channel :
      (c : Controller)
      → mem text_discrete members ip ≡ true
      → (get? text_discrete (origin_channel members ip seq c).channel_states ip ≡ some [])
        × (get? text_discrete (origin_channel members ip seq c).recorded_recv_seq ip
            ≡ some (seq + 1))
  unfolding origin_channel
  origin-origin_channel c h = rw h (
    get?-put text_discrete c.channel_states ip [] ip ∙ if_pos (text_discrete ip ip) refl _ _,
    get?-put text_discrete c.recorded_recv_seq ip (seq + 1) ip
        ∙ if_pos (text_discrete ip ip) refl _ _,
  )

  recording-opened :
      (now : ℕ) (c : Controller) → (opened now c).recording_channels ≡ c.recording_channels
  unfolding opened
  recording-opened now c =
      ap (λ (d : Controller). d.recording_channels)
        (same-origin_channel (foldl empty_channel c c.recording_channels))
      ∙ ap (λ (d : Controller). d.recording_channels) (without_states-foldl c.recording_channels c)

  -- What only the snapshot's start and the broadcast have written.
  pub kept-opened :
      (now : ℕ) (c : Controller)
      → (record (opened now c) {
        channel_states = [];
        recorded_recv_seq = [];
        snapshot_deadline = none;
      })
        ≡ record c { channel_states = []; recorded_recv_seq = []; snapshot_deadline = none }
  unfolding opened
  kept-opened now c =
      ap (λ (d : Controller). record d { snapshot_deadline = none })
        (same-origin_channel (foldl empty_channel c c.recording_channels))
      ∙ ap (λ (d : Controller). record d { recorded_recv_seq = []; snapshot_deadline = none })
          (without_states-foldl c.recording_channels c)

  module _ (env : Settings) (deliver : Deliver) where
    pub open_channels_run :
        (first : Text) (rest : List Text) (n : Node)
        → n.snapshot_ctrl.recording_channels ≡ first ∷ rest
        → open_channels env deliver members ip seq n ≡ (ok tt, update_ctrl (opened n.clock) n)
    unfolding open_channels update_ctrl opened ◌>>=◌
    open_channels_run first rest n e =
        rw (recording-opened n.clock n.snapshot_ctrl ∙ e) (unfold finish_if_done pure in refl)
