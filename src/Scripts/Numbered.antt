-- ===== src/Scripts/Numbered.antt =====
-- The numbered messages of the scripts.
use mathlib.Core.List.{append-nil, append_assoc}
use dead_nodes_tell_no_tales.Prelude.{
  ℕ, zero, suc, ◌+◌, ◌*◌, Text, Bool, true, [], ◌∷◌, ◌++◌, codes, length, drop, drop-append, ℤ, ◌≡◌,
  refl, sym, ap, ◌∙◌, arith,
}
use dead_nodes_tell_no_tales.Outcome.{ok}
use dead_nodes_tell_no_tales.Dict.{or_else}
use dead_nodes_tell_no_tales.Exec.{◌>>=◌}
use dead_nodes_tell_no_tales.Counter.Numerals.{int_of, digits, read_digits, read_digits-digits}
use dead_nodes_tell_no_tales.Mesh.Tunnel.Reassembly.{stretch}
use dead_nodes_tell_no_tales.Scripts.{
  Terminal, chat_message, opening_line, sendto, print_line, sleep, chat_rounds, chat,
}

digits-cancel : (front : Text) (j k : ℕ) → front ++ digits j ≡ front ++ digits k → j ≡ k
digits-cancel front j k e = ap (or_else 0) (
    sym (read_digits-digits j)
    ∙ (ap (read_digits true 0) (
          sym (drop-append front (digits j))
          ∙ (ap (drop (length front)) e ∙ drop-append front (digits k)))
        ∙ read_digits-digits k))

module _ (can_send : Text → ℤ → Bool) (name ip : Text) (port : ℤ) where
  abbrev chat_sending : ℕ → Text × ℤ × Text
  chat_sending k = (ip, port, chat_message name k)

  chat_rounds-sent :
      (rounds seq : ℕ) (t : Terminal)
      → can_send ip port ≡ true
      → ((chat_rounds can_send name ip port seq rounds t).0 ≡ ok tt)
        × ((chat_rounds can_send name ip port seq rounds t).1.sent
            ≡ t.sent ++ stretch chat_sending seq rounds)
        × ((chat_rounds can_send name ip port seq rounds t).1.slept ≡ t.slept + 1000 * rounds)
  unfolding chat_rounds sendto print_line sleep ◌>>=◌
  chat_rounds-sent zero seq t can = (refl, sym (append-nil t.sent), omega arith)
  chat_rounds-sent (suc rounds) seq t can =
      let (returned, sent, slept) = chat_rounds-sent rounds (suc seq) _ can in
      rw can (
        returned,
        sent ∙ append_assoc t.sent (chat_sending seq ∷ []) (stretch chat_sending (suc seq) rounds),
        slept ∙ omega arith,
      )

  -- chat.py, started with a name, two ports that are integers and the address of a peer that it can send to,
  -- and interrupted after some rounds, ends with code 0. It has sent one message per round to the peer,
  -- numbered from 1 on, and has slept a second per round; no two numbers give the same message.
  pub chat-numbered :
      (local peer : Text) (local_port : ℤ) (rounds : ℕ) (t : Terminal)
      → int_of local ≡ ok local_port
      → int_of peer ≡ ok port
      → can_send ip port ≡ true
      → ((chat can_send (name ∷ local ∷ ip ∷ peer ∷ []) rounds t).0 ≡ ok 0)
        × ((chat can_send (name ∷ local ∷ ip ∷ peer ∷ []) rounds t).1.sent
            ≡ t.sent ++ stretch chat_sending 1 rounds)
        × ((chat can_send (name ∷ local ∷ ip ∷ peer ∷ []) rounds t).1.slept
            ≡ t.slept + 1000 * rounds)
        × ((j k : ℕ) → chat_message name j ≡ chat_message name k → j ≡ k)
  unfolding chat print_line ◌>>=◌
  chat-numbered local peer local_port rounds t is_local is_peer can =
      let (returned, sent, slept) = chat_rounds-sent rounds 1 opened can in
      rw (is_local, is_peer, returned)
        (refl, sent, slept, digits-cancel (name ++ codes " Automated Sequence "))
    where
      opened : Terminal
      opened = record t { printed = t.printed ++ opening_line name local_port ip port ∷ [] }
