-- ===== src/Counter/Transfers.antt =====
-- Transfers between nodes: the sum of the counters.
use dead_nodes_tell_no_tales.Prelude.{
  Bytes, Text, Bool, true, false, take, List, [], ◌∷◌, ◌++◌, codes, starts_with, ℤ, ◌-ℤ◌, ◌⊎◌, inl,
  inr, ◌≡◌, refl, ap, arith,
}
use dead_nodes_tell_no_tales.Outcome.{Error, ok, raised}
use dead_nodes_tell_no_tales.Codec.{decode}
use dead_nodes_tell_no_tales.Exec.{◌>>=◌}
use dead_nodes_tell_no_tales.Counter.Numerals.{int_of}
use dead_nodes_tell_no_tales.Counter.Words.{split_words}
use dead_nodes_tell_no_tales.Counter.Nodes.{
  Account, replied, passed, credit_message, answer, send_udp, transfer, handle, buffer_size,
  handle_text, receive_message,
}

not_state :
    (s : Text) → starts_with (codes "TRANSFER ") s ≡ true → starts_with (codes "STATE") s ≡ false
not_state [] h = refl
not_state (c ∷ s) h = ground (arith, h)

not_credit :
    (s : Text) → starts_with (codes "TRANSFER ") s ≡ true → starts_with (codes "CREDIT ") s ≡ false
not_credit [] h = refl
not_credit (c ∷ s) h = ground (arith, h)

-- A datagram whose first 512 bytes read as a text.
pub receive_message_run :
    (name : Text) (can_send : Text → ℤ → Bool) (datagram : Bytes) (buf : Text) (a : Account)
    → decode (take buffer_size datagram) ≡ ok buf
    → receive_message name can_send datagram a ≡ (handle name can_send buf a).1
unfolding receive_message handle_text
receive_message_run name can_send datagram buf a e = ap (λ r. handle_text name can_send r a) e

module _ (name : Text) (can_send : Text → ℤ → Bool) where
  -- What a transfer message does at the node that it is sent to.
  pub transfer_run :
      (buf cmd txid host peer_port amount : Text) (rest : List Text) (port x : ℤ) (a : Account)
      → starts_with (codes "TRANSFER ") buf ≡ true
      → split_words buf ≡ cmd ∷ txid ∷ host ∷ peer_port ∷ amount ∷ rest
      → int_of peer_port ≡ ok port
      → int_of amount ≡ ok x
      → can_send host port ≡ true
      → handle name can_send buf a ≡ (
        ok tt,
        record a {
          counter = a.counter -ℤ x;
          sent =
              a.sent
              ++ passed host port (credit_message txid name x) ∷ []
              ++ replied (codes "OK TRANSFER " ++ txid) ∷ [];
        },
      )
  unfolding handle transfer send_udp answer ◌>>=◌
  transfer_run buf cmd txid host peer_port amount rest port x a starts parts to_port to_amount
        sendable =
      rw (not_state buf starts, not_credit buf starts, starts, parts, to_amount, to_port, sendable)
        refl

  -- A transfer whose peer port is no number, or whose message cannot be sent, still takes the amount
  -- off the counter and is answered as done; no message carries the amount to another node.
  pub transfer_lost :
      (buf cmd txid host peer_port amount : Text) (rest : List Text) (x : ℤ) (a : Account)
      → starts_with (codes "TRANSFER ") buf ≡ true
      → split_words buf ≡ cmd ∷ txid ∷ host ∷ peer_port ∷ amount ∷ rest
      → int_of amount ≡ ok x
      → ((e : Error) × (int_of peer_port ≡ raised e))
        ⊎ ((port : ℤ) × (int_of peer_port ≡ ok port) × (can_send host port ≡ false))
      → handle name can_send buf a ≡ (
        ok tt,
        record a {
          counter = a.counter -ℤ x;
          sent = a.sent ++ replied (codes "OK TRANSFER " ++ txid) ∷ [];
        },
      )
  unfolding handle transfer send_udp answer ◌>>=◌
  transfer_lost buf cmd txid host peer_port amount rest x a starts parts to_amount lost =
      elim lost [
        | inl (e, no_port) ↦
            rw (not_state buf starts, not_credit buf starts, starts, parts, to_amount, no_port) refl
        | inr (port, to_port, unsent) ↦
            rw
              (
                not_state buf starts,
                not_credit buf starts,
                starts,
                parts,
                to_amount,
                to_port,
                unsent,
              )
              refl
      ]
