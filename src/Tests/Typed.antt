-- ===== src/Tests/Typed.antt =====
-- The scripts that are started by hand.
use dead_nodes_tell_no_tales.Prelude.{
  ℕ, ◌+◌, ◌*◌, Text, Bool, true, [], ◌∷◌, ◌++◌, List, length, codes, ℤ, pos, ◌≡◌, refl,
}
use dead_nodes_tell_no_tales.Outcome.{ok}
use dead_nodes_tell_no_tales.Counter.Numerals.{int_of, digits}
use dead_nodes_tell_no_tales.Exec.{◌>>=◌}
use dead_nodes_tell_no_tales.Mesh.Tunnel.Reassembly.{stretch}
use dead_nodes_tell_no_tales.Scripts.{
  Terminal, Datagram, chat_message, chat_line, script_line, chat, receive_messages, recv_script,
}
use dead_nodes_tell_no_tales.Scripts.Numbered.{chat-numbered}
use dead_nodes_tell_no_tales.Scripts.Printed.{readable, lines, IsEnd, receive_messages-recv_script}

abbrev blank : Terminal
blank = record { sent = []; printed = []; slept = 0 }

abbrev always : Text → ℤ → Bool
always ip port = true

abbrev started : List Text
started = codes "A" ∷ codes "5000" ∷ codes "10.0.0.2" ∷ codes "5001" ∷ []

chat_run :
    (chat always started 2 blank).1.sent
    ≡ (codes "10.0.0.2", pos 5001, codes "A Automated Sequence 1")
      ∷ (codes "10.0.0.2", pos 5001, codes "A Automated Sequence 2")
      ∷ []
unfolding chat int_of digits ◌>>=◌
chat_run = refl

chat-numbered_example :
    ((chat always started 2 blank).0 ≡ ok 0)
    × ((chat always started 2 blank).1.sent
        ≡ [] ++ stretch (λ k. (codes "10.0.0.2", pos 5001, chat_message (codes "A") k)) 1 2)
    × ((chat always started 2 blank).1.slept ≡ 0 + 1000 * 2)
    × ((j k : ℕ) → chat_message (codes "A") j ≡ chat_message (codes "A") k → j ≡ k)
unfolding int_of
chat-numbered_example =
    chat-numbered always (codes "A") (codes "10.0.0.2") (pos 5001) (codes "5000") (codes "5001")
      (pos 5000) 2 blank refl refl refl

-- The second one is no UTF-8.
abbrev came_in : List Datagram
came_in =
    (codes "hi", codes "10.0.0.2", 5001)
    ∷ (255 ∷ [], codes "10.0.0.2", 5001)
    ∷ (codes "ho", codes "10.0.0.2", 5001)
    ∷ []

receive_messages-recv_script_example :
    (receive_messages came_in blank ≡ (ok tt, lines chat_line (readable came_in) blank))
    × ((recv_script came_in blank).1 ≡ lines script_line (readable came_in) blank)
    × IsEnd (length came_in) (length (readable came_in)) (recv_script came_in blank).0
receive_messages-recv_script_example = receive_messages-recv_script came_in blank
