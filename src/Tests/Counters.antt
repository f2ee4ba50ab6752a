-- ===== src/Tests/Counters.antt =====
-- A transfer of five from node A, whose counter is ten, to node B, whose counter is three.
use dead_nodes_tell_no_tales.Prelude.{
  Text, Bool, true, [], ◌∷◌, ◌++◌, codes, ℤ, pos, ◌-ℤ◌, ◌≡◌, refl, inl,
}
use dead_nodes_tell_no_tales.Outcome.{ok, value_error}
use dead_nodes_tell_no_tales.Counter.Numerals.{int_of}
use dead_nodes_tell_no_tales.Counter.Words.{split_words}
use dead_nodes_tell_no_tales.Counter.Nodes.{Account, replied, handle}
use dead_nodes_tell_no_tales.Counter.Transfers.{transfer_lost}

abbrev pub giver : Account
giver = record { counter = pos 10; sent = [] }

abbrev taker : Account
taker = record { counter = pos 3; sent = [] }

abbrev pub any_port : Text → ℤ → Bool
any_port host port = true

transfer_lost_example :
    handle (codes "A") any_port (codes "TRANSFER tx1 10.24.24.11 http 5") giver ≡ (
      ok tt,
      record {
        counter = pos 10 -ℤ pos 5;
        sent = [] ++ replied (codes "OK TRANSFER " ++ codes "tx1") ∷ [];
      },
    )
unfolding split_words int_of
transfer_lost_example =
    transfer_lost (codes "A") any_port (codes "TRANSFER tx1 10.24.24.11 http 5") (codes "TRANSFER")
      (codes "tx1") (codes "10.24.24.11") (codes "http") (codes "5") [] (pos 5) giver refl refl refl
      (inl (value_error, refl))
