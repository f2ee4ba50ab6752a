-- ===== src/Tests/Clients.antt =====
-- The theorems on the client commands: two polls of three nodes, and a transfer.
use dead_nodes_tell_no_tales.Prelude.{
  Text, none, some, List, [], ◌∷◌, ◌++◌, ◌+◌, codes, map, pos, ◌-ℤ◌, ◌≡◌, refl, arith,
}
use dead_nodes_tell_no_tales.Outcome.{ok}
use dead_nodes_tell_no_tales.Codec.{decode}
use dead_nodes_tell_no_tales.Counter.Numerals.{int_of, text_of}
use dead_nodes_tell_no_tales.Counter.Words.{is_white, IsWord}
use dead_nodes_tell_no_tales.Counter.Nodes.{replied, passed, credit_message, receive_message}
use dead_nodes_tell_no_tales.Counter.Client.{Client, answered, get_counter, transfer_message}
use dead_nodes_tell_no_tales.Counter.Client.Main.{exited, main}
use dead_nodes_tell_no_tales.Counter.Client.Reading.{state_reply, get_counter-receive_message}
use dead_nodes_tell_no_tales.Counter.Client.Commands.{transfer-served}
use dead_nodes_tell_no_tales.Counter.Client.Sum.{SumArgs, sum_loop, rounds, sum_counters}
use dead_nodes_tell_no_tales.Counter.Client.Rounds.{sum_loop-rounds}
use dead_nodes_tell_no_tales.Counter.Client.Polls.{
  Answers, Summed, attempts_of, is_good, sum_counters-HasStreak,
}
use dead_nodes_tell_no_tales.Tests.Counters.{giver, any_port}

abbrev answers : Answers
answers = record {
  a = some (codes "STATE A counter=10");
  b = some (codes "STATE B counter=3");
  c = some (codes "STATE C counter=0");
}

abbrev no_answers : Answers
no_answers = record { a = none; b = none; c = none }

abbrev client : Client
client = record {
  attempts = attempts_of (answers ∷ no_answers ∷ []);
  requests = [];
  printed = [];
  slept = 0;
}

abbrev sum_args : List Text
sum_args =
    codes "10.24.24.10"
    ∷ codes "5000"
    ∷ codes "10.24.24.11"
    ∷ codes "5000"
    ∷ codes "10.24.24.12"
    ∷ codes "5000"
    ∷ codes "13"
    ∷ codes "100"
    ∷ codes "1"
    ∷ []

abbrev asking : Client
asking = record {
  attempts = answered (codes "STATE A counter=10") ∷ [];
  requests = [];
  printed = [];
  slept = 0;
}

get_counter-receive_message_example :
    (receive_message (codes "A") any_port (codes "STATE") giver
      ≡ record { counter = pos 10; sent = [] ++ replied (state_reply (codes "A") (pos 10)) ∷ [] })
    × (get_counter (codes "10.24.24.10") (codes "5000") asking ≡ (
      ok (some (pos 10)),
      record {
        attempts = [];
        requests = [] ++ (codes "10.24.24.10", pos 5000, codes "STATE") ∷ [];
        printed = [];
        slept = 0;
      },
    ))
unfolding int_of decode text_of
get_counter-receive_message_example =
    get_counter-receive_message (codes "A") any_port giver (codes "STATE")
      (codes "STATE A counter=10") (codes "10.24.24.10") (codes "5000") (pos 5000) [] asking
      ((λ e. omega (arith, e)), tt) refl refl refl refl

sum_counters-HasStreak_example :
    Summed 1
      (map (is_good (pos 13)) (answers ∷ no_answers ∷ []))
      (answers ∷ no_answers ∷ [])
      []
      (sum_counters sum_args client)
unfolding int_of decode
sum_counters-HasStreak_example =
    sum_counters-HasStreak (codes "10.24.24.10") (codes "5000") (codes "10.24.24.11") (codes "5000")
      (codes "10.24.24.12") (codes "5000") (codes "13") (codes "100") (codes "1") (pos 5000)
      (pos 5000) (pos 5000) (pos 13) 100 1 (answers ∷ no_answers ∷ []) [] client refl refl refl refl
      refl refl (omega arith) refl refl

abbrev loop_args : SumArgs
loop_args = record {
  a_host = codes "10.24.24.10";
  a_port = codes "5000";
  b_host = codes "10.24.24.11";
  b_port = codes "5000";
  c_host = codes "10.24.24.12";
  c_port = codes "5000";
  expected = pos 13;
  timeout_ms = pos 100;
  stable_needed = pos 1;
}

sum_loop-rounds_example :
    sum_loop loop_args (rounds (pos 100) + 5) 0 0 client
    ≡ sum_loop loop_args (rounds (pos 100)) 0 0 client
sum_loop-rounds_example = sum_loop-rounds loop_args 5 0 client

host-IsWord : IsWord (codes "10.24.24.11")
unfolding is_white
host-IsWord = record { filled = λ e. ground (arith, e); solid = ground arith }

port-IsWord : IsWord (codes "5000")
unfolding is_white
port-IsWord = record { filled = λ e. ground (arith, e); solid = ground arith }

amount-IsWord : IsWord (codes "5")
unfolding is_white
amount-IsWord = record { filled = λ e. ground (arith, e); solid = ground arith }

abbrev waiting : Client
waiting = record {
  attempts = answered (codes "OK TRANSFER tx123") ∷ [];
  requests = [];
  printed = [];
  slept = 0;
}

transfer-served_example :
    (receive_message (codes "A") any_port (codes "TRANSFER tx123 10.24.24.11 5000 5") giver
      ≡ record {
        counter = pos 10 -ℤ pos 5;
        sent =
            []
            ++ passed
                (codes "10.24.24.11")
                (pos 5000)
                (credit_message (codes "tx123") (codes "A") (pos 5))
              ∷ []
            ++ replied (codes "OK TRANSFER tx123") ∷ [];
      })
    × (main
          (codes "transfer"
            ∷ codes "10.24.24.10"
            ∷ codes "5000"
            ∷ codes "10.24.24.11"
            ∷ codes "5000"
            ∷ codes "5"
            ∷ [])
          waiting
        ≡ (
          ok (exited 0),
          record {
            attempts = [];
            requests =
                []
                ++ (
                  codes "10.24.24.10",
                  pos 5000,
                  transfer_message (codes "10.24.24.11") (codes "5000") (codes "5"),
                )
                  ∷ [];
            printed = [] ++ codes "OK TRANSFER tx123" ∷ [];
            slept = 0;
          },
        ))
unfolding int_of decode
transfer-served_example =
    transfer-served (codes "A") any_port (codes "10.24.24.10") (codes "5000") (codes "10.24.24.11")
      (codes "5000") (codes "5") (pos 5000) (pos 5000) (pos 5) giver
      (codes "TRANSFER tx123 10.24.24.11 5000 5") (codes "OK TRANSFER tx123") [] waiting host-IsWord
      port-IsWord amount-IsWord refl refl refl refl refl refl refl
