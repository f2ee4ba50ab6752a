-- ===== src/Snapshot/Exact.antt =====
-- `process_and_deliver` on a channel with one marker: the messages before it are recorded, it closes the
-- channel, and those behind it are delivered.
use mathlib.Core.List.{append_assoc}
use dead_nodes_tell_no_tales.Prelude.{
  ℕ, suc, ◌+◌, ◌-◌, ◌<◌, ◌≤◌, Bytes, Text, true, false, List, [], ◌∷◌, ◌++◌, ◌≡◌, ◌≢◌, refl, sym,
  ap, ◌∙◌, subst, arith, ℕ_discrete, text_discrete, dec_lt,
}
use dead_nodes_tell_no_tales.Outcome.{Outcome, ok}
use dead_nodes_tell_no_tales.Config.{Settings}
use dead_nodes_tell_no_tales.Dict.{mem, has}
use dead_nodes_tell_no_tales.Node.{Node, Buffered, Message}
use dead_nodes_tell_no_tales.Node.Peers.{peer_at, update_ctrl}
use dead_nodes_tell_no_tales.Exec.{◌>>=◌}
use dead_nodes_tell_no_tales.Snapshot.Flush.{Deliver}
use dead_nodes_tell_no_tales.Snapshot.Marker.{
  is_marker, append_message, close_channel, process_message,
}
use dead_nodes_tell_no_tales.Snapshot.Recording.{
  channel_state, message, deliver_over-recording, has-append_message,
}
use dead_nodes_tell_no_tales.Snapshot.Agreement.{Awaits, deliver-closing}
use dead_nodes_tell_no_tales.Mesh.Spoof.{spoof_send}
use dead_nodes_tell_no_tales.Mesh.Spoof.Effects.{Delivery, handed, Sends, Sends-spoof_send}
use dead_nodes_tell_no_tales.Mesh.Deliver.{deliver_over, deliver_within, process_and_deliver}
use dead_nodes_tell_no_tales.Mesh.Deliver.Live.{delivery}
use dead_nodes_tell_no_tales.Mesh.Tunnel.Reassembly.{stretch, Sink, hand_on}
use dead_nodes_tell_no_tales.Mesh.Tunnel.Stream.{receive_all, receive_all-in_order}
use dead_nodes_tell_no_tales.Mesh.Tunnel.Logged.{stretch-more}
use dead_nodes_tell_no_tales.Snapshot.Phases.{
  Before, Closed, Cut, recording, cut_off, channel_state-append_message, Awaits-append_message,
  Closed-close_channel, Before-start, Cut-update, Closed-over,
}

-- A message on a channel that is not recorded, during a snapshot.
deliver_over-closed :
    (env : Settings) (below : Deliver) (seq : ℕ) (b : Buffered) (ip : Text) (n : Node)
    → is_marker b.payload ≡ false
    → mem text_discrete n.snapshot_ctrl.recording_channels ip ≡ false
    → n.snapshot_ctrl.is_snapshotting ≡ true
    → deliver_over env below seq b.payload ip b.src_port b.dst_port b.local_ip n
      ≡ spoof_send env ip b.src_port b.payload b.local_ip b.dst_port n
unfolding deliver_over process_message ◌>>=◌
deliver_over-closed env below seq b ip n plain closed busy = ground (arith, plain, closed, busy)

module _ (payload : Bytes) (ip last : Text) (m : ℕ → Buffered) (base mark : ℕ)
    (states : List Message) (past : List Delivery) where
  abbrev BeforeMark : ℕ → Node → Type 0
  BeforeMark = Before payload ip last m base mark states past

  abbrev ClosedAt : ℕ → Node → Type 0
  ClosedAt = Closed payload ip last m base mark states past

  abbrev CutAt : ℕ → Node → Type 0
  CutAt = Cut payload ip last m base mark states past

  record Stepped (k : ℕ) (n : Node) (r : Outcome (Unit {0}) × Node) : Type 0 where
    returned : r.0 ≡ ok tt
    next : CutAt (suc k) r.1
    peers : r.1.peers ≡ n.peers

  module _ (env : Settings) (plain : (k : ℕ) → k ≢ mark → is_marker (m k).payload ≡ false)
      (marker : is_marker payload ≡ true) (at_mark : (m mark).payload ≡ payload) where
    hand_on-before :
        (k : ℕ) (n : Node)
        → BeforeMark k n
        → k < mark
        → hand_on (process_and_deliver env) ip m k n
          ≡ (ok tt, update_ctrl (append_message ip (message k (m k)) (channel_state ip n)) n)
    unfolding process_and_deliver
    hand_on-before k n b lt =
        deliver_over-recording env (deliver_within env 249) k (m k) ip past n
          (plain k (λ e. omega (arith, e, lt)))
          (record {
            busy = b.awaits.busy;
            recorded = b.awaits.recorded;
            known = b.known;
            handed_so_far = b.handed_so_far;
          })

    hand_on-marker :
        (n : Node)
        → BeforeMark mark n
        → hand_on (process_and_deliver env) ip m mark n
          ≡ (ok tt, update_ctrl (close_channel ip mark) n)
    unfolding process_and_deliver
    hand_on-marker n b =
        deliver-closing env (deliver_within env 249) mark (m mark).payload ip last (m mark).src_port
          (m mark).dst_port (m mark).local_ip n (ap is_marker at_mark ∙ marker)
          (subst (λ p. Awaits p ip last n) (sym at_mark) b.awaits)

    hand_on-closed :
        (k : ℕ) (n : Node)
        → ClosedAt k n
        → Sends env n (delivery ip (m k)) (hand_on (process_and_deliver env) ip m k n)
    unfolding process_and_deliver
    hand_on-closed k n c =
        rw
          (deliver_over-closed env (deliver_within env 249) k (m k) ip n
            (plain k (λ e. omega (arith, e, c.over))) c.closed c.busy)
          (Sends-spoof_send env ip (m k).src_port (m k).payload (m k).local_ip (m k).dst_port n)

    Stepped-before :
        (k : ℕ) (n : Node)
        → BeforeMark k n
        → k < mark
        → Stepped k n (hand_on (process_and_deliver env) ip m k n)
    unfolding update_ctrl append_message
    Stepped-before k n b lt = rw (hand_on-before k n b lt) (record {
      returned = refl;
      next = recording (record {
        awaits = Awaits-append_message payload ip last m base mark states past k n b.awaits;
        above = omega (arith, b.above);
        not_yet = omega (arith, lt);
        known = has-append_message ip (message k (m k)) (channel_state ip n) n.snapshot_ctrl;
        state =
            channel_state-append_message ip (message k (m k)) n
            ∙ (ap (λ l. l ++ message k (m k) ∷ []) b.state
                ∙ (append_assoc states (stretch (λ j. message j (m j)) base (k - base))
                      (message k (m k) ∷ [])
                    ∙ ap (λ l. states ++ l)
                        (sym (stretch-more (λ j. message j (m j)) base k b.above))));
        handed_so_far = b.handed_so_far;
      });
      peers = refl;
    })

    Stepped-marker :
        (n : Node)
        → BeforeMark mark n
        → Stepped mark n (hand_on (process_and_deliver env) ip m mark n)
    Stepped-marker n b = rw (hand_on-marker n b) (record {
      returned = refl;
      next = cut_off (Closed-close_channel payload ip last m base mark states past n b);
      peers = unfold update_ctrl in refl;
    })

    Stepped-closed :
        (k : ℕ) (n : Node) → ClosedAt k n → Stepped k n (hand_on (process_and_deliver env) ip m k n)
    Stepped-closed k n c =
        let s = hand_on-closed k n c in
        record {
          returned = s.returned;
          next = cut_off (record {
            busy = rw s.untouched.snapshot_ctrl c.busy;
            closed = rw s.untouched.snapshot_ctrl c.closed;
            over = omega (arith, c.over);
            state = rw s.untouched.snapshot_ctrl c.state;
            coordinate = rw s.untouched.snapshot_ctrl c.coordinate;
            handed_so_far =
                s.handed_one
                ∙ (ap (λ l. l ++ delivery ip (m k) ∷ []) c.handed_so_far
                    ∙ (append_assoc past
                          (stretch (λ j. delivery ip (m j)) (suc mark) (k - suc mark))
                          (delivery ip (m k) ∷ [])
                        ∙ ap (λ l. past ++ l)
                            (sym (
                              stretch-more (λ j. delivery ip (m j)) (suc mark) k
                                (omega (arith, c.over))))));
          });
          peers = s.untouched.peers;
        }

    Stepped-cut :
        (k : ℕ) (n : Node) → CutAt k n → Stepped k n (hand_on (process_and_deliver env) ip m k n)
    Stepped-cut k n (recording b) = elim (dec_lt k mark) [
      | yes lt ↦ Stepped-before k n b lt
      | no ge ↦
          let e : mark ≡ k = omega (arith, b.not_yet) in
          subst (λ j. BeforeMark j n → Stepped j n (hand_on (process_and_deliver env) ip m j n)) e
            (Stepped-marker n) b
    ]
    Stepped-cut k n (cut_off c) = Stepped-closed k n c

    Cut-Sink : Sink (process_and_deliver env) ip m CutAt
    Cut-Sink = record {
      returns = λ k n c. (Stepped-cut k n c).returned;
      ready = λ k n c. (Stepped-cut k n c).next;
      same_seq = λ k n c. rw (Stepped-cut k n c).peers;
      same_buffer = λ k n c. rw (Stepped-cut k n c).peers;
      ready_update = λ k f n c. Cut-update payload ip last m base mark states past k f n c;
    }

    -- Let a node record the channel from `ip` and at least one more for the snapshot that a marker
    -- names, its state opened and nothing buffered, and let the stream of the channel have this one marker, at a number
    -- not below `recv_seq`. Let packets of the stream come in in any order, each any number of times,
    -- all up to the marker among them. Nothing is raised and the snapshot goes on. The recorded state
    -- grows, once each and in order, by exactly the messages before the marker; the channel is recorded
    -- no more, and its receive-side coordinate is the number behind the marker. The application is
    -- handed, once each and in order, exactly the messages behind the marker up to the first that has
    -- not come in; the new `recv_seq` is the number of that one.
    pub cut_exact :
        (arrivals : List ℕ) (n : Node)
        → Awaits payload ip last n
        → has text_discrete n.snapshot_ctrl.channel_states ip ≡ true
        → channel_state ip n ≡ states
        → handed n.events ≡ past
        → (peer_at n ip).recv_seq ≡ base
        → (peer_at n ip).recv_buffer ≡ []
        → base ≤ mark
        → ((k : ℕ) → base ≤ k → k ≤ mark → mem ℕ_discrete arrivals k ≡ true)
        → (next : ℕ) × ((receive_all (process_and_deliver env) ip m arrivals n).0 ≡ ok tt)
          × ClosedAt next (receive_all (process_and_deliver env) ip m arrivals n).1
          × ((peer_at (receive_all (process_and_deliver env) ip m arrivals n).1 ip).recv_seq ≡ next)
          × ((k : ℕ) → base ≤ k → k < next → mem ℕ_discrete arrivals k ≡ true)
          × (mem ℕ_discrete arrivals next ≡ false)
    cut_exact arrivals n awaits known state handed_so_far fresh empty le come =
        let (count, returned, cut, reached, below, missing) =
          receive_all-in_order (process_and_deliver env) ip m base Cut-Sink arrivals n
            (recording (
              Before-start payload ip last m base mark states past n awaits known state
                handed_so_far le))
            fresh empty in
        let over : mark < base + count = elim (dec_lt mark (base + count)) [
          | yes lt ↦ lt
          | no ge ↦
              absurd (ground (arith, missing, come (base + count) (omega arith) (omega arith)))
        ] in
        (
          base + count,
          returned,
          Closed-over payload ip last m base mark states past (base + count) _ over cut,
          reached,
          below,
          missing,
        )
