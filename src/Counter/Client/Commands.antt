-- ===== src/Counter/Client/Commands.antt =====
-- The client's `transfer` at a node: the message that it sends, and the exit code.
use dead_nodes_tell_no_tales.Prelude.{
  ℕ, Bytes, Text, Bool, true, List, [], ◌∷◌, ◌++◌, codes, take, ◌≡◌, refl, ap, ◌∙◌, arith, ℤ, ◌-ℤ◌,
  text_discrete, ℕ_discrete,
}
use dead_nodes_tell_no_tales.Outcome.{ok}
use dead_nodes_tell_no_tales.Codec.{decode}
use dead_nodes_tell_no_tales.Exec.{Exec, pure, ◌>>=◌}
use dead_nodes_tell_no_tales.Counter.Numerals.{int_of}
use dead_nodes_tell_no_tales.Counter.Words.{
  is_white, IsWord, split_words, split_words-word, split_words-last,
}
use dead_nodes_tell_no_tales.Counter.Nodes.{
  Account, buffer_size, credit_message, passed, replied, receive_message,
}
use dead_nodes_tell_no_tales.Counter.Transfers.{receive_message_run, transfer_run}
use dead_nodes_tell_no_tales.Counter.Client.Main.{exited, exit_with, transfer_command, main}
use dead_nodes_tell_no_tales.Counter.Client.{
  Client, Attempt, answered, transfer_message, transfer, request_udp, ask, read_answer, show_reply,
}

IsWord-transfer : IsWord (codes "TRANSFER")
unfolding is_white
IsWord-transfer = record { filled = λ e. ground (arith, e); solid = ground arith }

IsWord-txid : IsWord (codes "tx123")
unfolding is_white
IsWord-txid = record { filled = λ e. ground (arith, e); solid = ground arith }

split_words-transfer_message :
    (host port amount : Text)
    → IsWord host
    → IsWord port
    → IsWord amount
    → split_words (transfer_message host port amount)
      ≡ codes "TRANSFER" ∷ codes "tx123" ∷ host ∷ port ∷ amount ∷ []
split_words-transfer_message host port amount h p a =
    split_words-word (codes "TRANSFER") _ IsWord-transfer
    ∙ ap (λ ws. codes "TRANSFER" ∷ ws)
        (split_words-word (codes "tx123") _ IsWord-txid
          ∙ ap (λ ws. codes "tx123" ∷ ws)
              (split_words-word host _ h
                ∙ ap (λ ws. host ∷ ws)
                    (split_words-word port amount p
                      ∙ ap (λ ws. port ∷ ws) (split_words-last amount a))))

exit_with-ok :
    (command : Exec Client ℕ) (code : ℕ) (c : Client) {c' : Client}
    → command c ≡ (ok code, c')
    → exit_with command c ≡ (ok (exited code), c')
unfolding exit_with pure ◌>>=◌
exit_with-ok command code c e = rw e refl

-- The command line of a transfer.
main-transfer :
    (from_host from_port host port amount : Text) (c : Client)
    → main (codes "transfer" ∷ from_host ∷ from_port ∷ host ∷ port ∷ amount ∷ []) c
      ≡ exit_with (transfer from_host from_port host port amount) c
unfolding main transfer_command text_discrete ℕ_discrete
main-transfer from_host from_port host port amount c = refl

-- A node that reads the message of the command `transfer` on words from a datagram, within the 512
-- bytes that it receives, and can send to the peer takes the amount off its counter, passes the
-- credit on to the host and port that the command names, and answers. A client that runs the
-- command and receives this answer has sent the node exactly this message, and exits with 0.
pub transfer-served :
    (name : Text) (can_send : Text → ℤ → Bool) (from_host from_port host port amount : Text)
    (at peer x : ℤ) (a : Account) (request answer : Bytes) (rest : List Attempt) (c : Client)
    → IsWord host
    → IsWord port
    → IsWord amount
    → int_of from_port ≡ ok at
    → int_of port ≡ ok peer
    → int_of amount ≡ ok x
    → can_send host peer ≡ true
    → decode (take buffer_size request) ≡ ok (transfer_message host port amount)
    → c.attempts ≡ answered answer ∷ rest
    → decode (take buffer_size answer) ≡ ok (codes "OK TRANSFER tx123")
    → (receive_message name can_send request a ≡ record {
      counter = a.counter -ℤ x;
      sent =
          a.sent
          ++ passed host peer (credit_message (codes "tx123") name x) ∷ []
          ++ replied (codes "OK TRANSFER tx123") ∷ [];
    })
      × (main (codes "transfer" ∷ from_host ∷ from_port ∷ host ∷ port ∷ amount ∷ []) c ≡ (
        ok (exited 0),
        record c {
          attempts = rest;
          requests = c.requests ++ (from_host, at, transfer_message host port amount) ∷ [];
          printed = c.printed ++ codes "OK TRANSFER tx123" ∷ [];
        },
      ))
transfer-served name can_send from_host from_port host port amount at peer x a request answer rest c
      h p w to_at to_peer to_x can within next read =
    (
      receive_message_run name can_send request (transfer_message host port amount) a within
          ∙ ap (λ r. r.1)
              (transfer_run name can_send (transfer_message host port amount) (codes "TRANSFER")
                (codes "tx123") host port amount [] peer x a refl
                (split_words-transfer_message host port amount h p w) to_peer to_x can),
      main-transfer from_host from_port host port amount c
          ∙ exit_with-ok (transfer from_host from_port host port amount) 0 c transfer_run_client,
    )
  where
    transfer_run_client : transfer from_host from_port host port amount c ≡ (
      ok 0,
      record c {
        attempts = rest;
        requests = c.requests ++ (from_host, at, transfer_message host port amount) ∷ [];
        printed = c.printed ++ codes "OK TRANSFER tx123" ∷ [];
      },
    )
    transfer_run_client =
        unfold transfer request_udp ask read_answer show_reply pure ◌>>=◌ in
        rw (next, to_at, read) refl
