-- ===== src/Counter/Nodes.antt =====
-- `node` of src/counter.py: one round of its loop. A node is its counter and what it has sent; the
-- messages it sends are texts, which `encode` turns into the bytes that `receive_message` decodes.
use dead_nodes_tell_no_tales.Prelude.{
  ℕ, Bytes, Text, Bool, List, [], ◌∷◌, ◌++◌, codes, take, starts_with, if◌then◌else◌, ℤ, ◌+ℤ◌, ◌-ℤ◌,
}
use dead_nodes_tell_no_tales.Outcome.{Outcome, ok, raised}
use dead_nodes_tell_no_tales.Codec.{decode}
use dead_nodes_tell_no_tales.Exec.{Exec, pure, lift, gets, modify, ◌>>=◌, ◌>>◌}
use dead_nodes_tell_no_tales.Counter.Numerals.{int_of, text_of}
use dead_nodes_tell_no_tales.Counter.Words.{split_words}

-- A reply to the sender of the message, or a message to a host and a port.
pub data Sending : Type 0 where
  replied : Text → Sending
  passed : Text → ℤ → Text → Sending

pub record Account : Type 0 where
  pub counter : ℤ
  pub sent : List Sending

abbrev pub buffer_size : ℕ
buffer_size = 512

unfoldable pub answer : Text → Exec Account (Unit {0})
answer msg = modify (λ a. record a { sent = a.sent ++ replied msg ∷ [] })

abbrev pub credit_message : Text → Text → ℤ → Text
credit_message txid name amount =
    codes "CREDIT" ++ b' ' ∷ (txid ++ b' ' ∷ (name ++ b' ' ∷ text_of amount))

unfoldable pub credit : List Text → Exec Account (Unit {0})
unfolding answer
credit (_ ∷ txid ∷ _ ∷ amount ∷ _) = do
  x ← lift (int_of amount)
  modify (λ a. record a { counter = a.counter +ℤ x })
  answer (codes "OK CREDIT " ++ txid)
credit _ = pure tt

unfoldable pub reset_to : List Text → Exec Account (Unit {0})
unfolding answer
reset_to (_ ∷ amount ∷ _) = do
  x ← lift (int_of amount)
  modify (λ a. record a { counter = x })
  answer (codes "OK RESET")
reset_to _ = pure tt

-- `name` is the node's own; `can_send` tells whether `sendto` a host and a port succeeds.
module _ (name : Text) (can_send : Text → ℤ → Bool) where
  -- A failure is a result that the caller does not look at.
  unfoldable pub send_udp : Text → Outcome ℤ → Text → Exec Account (Unit {0})
  send_udp host (raised e) msg = pure tt
  send_udp host (ok port) msg =
      if can_send host port
      then modify (λ a. record a { sent = a.sent ++ passed host port msg ∷ [] })
      else pure tt

  unfoldable pub transfer : List Text → Exec Account (Unit {0})
  unfolding send_udp answer
  transfer (_ ∷ txid ∷ host ∷ peer_port ∷ amount ∷ _) = do
    x ← lift (int_of amount)
    modify (λ a. record a { counter = a.counter -ℤ x })
    send_udp host (int_of peer_port) (credit_message txid name x)
    answer (codes "OK TRANSFER " ++ txid)
  transfer _ = pure tt

  unfoldable pub report : Exec Account (Unit {0})
  unfolding answer
  report = do
    counter ← gets (λ a. a.counter)
    answer (codes "STATE " ++ (name ++ (codes " counter=" ++ text_of counter)))

  unfoldable pub handle : Text → Exec Account (Unit {0})
  unfolding credit transfer reset_to report
  handle buf =
      if starts_with (codes "STATE") buf
      then report
      else if starts_with (codes "CREDIT ") buf
      then credit (split_words buf)
      else if starts_with (codes "TRANSFER ") buf
      then transfer (split_words buf)
      else if starts_with (codes "RESET ") buf
      then reset_to (split_words buf)
      else answer (codes "ERR")

  -- An exception ends the round; what it left behind stays.
  unfoldable pub handle_text : Outcome Text → Account → Account
  unfolding handle
  handle_text (ok buf) a = (handle buf a).1
  handle_text (raised e) a = a

  unfoldable pub receive_message : Bytes → Account → Account
  unfolding handle_text
  receive_message datagram a = handle_text (decode (take buffer_size datagram)) a
