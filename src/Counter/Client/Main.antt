-- ===== src/Counter/Client/Main.antt =====
-- `main` of src/counter.py, and the start of `node`. The message of `die`, on the other stream, is left out.
use dead_nodes_tell_no_tales.Prelude.{
  Bool, Text, List, [], ◌∷◌, codes, ℤ, ℕ, if◌then◌else◌, ite, true, false, text_discrete,
}
use dead_nodes_tell_no_tales.Exec.{Exec, pure, lift, ◌>>=◌}
use dead_nodes_tell_no_tales.Counter.Numerals.{int_of}
use dead_nodes_tell_no_tales.Counter.Client.{Client, state, transfer, reset_counter}
use dead_nodes_tell_no_tales.Counter.Client.Sum.{sum_counters}

-- How the program goes on: it exits with a code, or enters the loop of a node with this name, port and counter.
pub data Ending : Type 0 where
  exited : ℕ → Ending
  serving : Text → ℤ → ℤ → Ending

unfoldable pub die : Exec Client Ending
die = pure (exited 1)

-- sys.exit(command)
unfoldable pub exit_with : Exec Client ℕ → Exec Client Ending
exit_with command = do code ← command; pure (exited code)

-- The socket of the node can be bound.
unfoldable pub node : Text → Text → Text → Exec Client Ending
node name port init_counter = do
  counter ← lift (int_of init_counter)
  bound_port ← lift (int_of port)
  pure (serving name bound_port counter)

unfoldable pub node_command : List Text → Exec Client Ending
unfolding node die
node_command (name ∷ port ∷ initial ∷ []) = node name port initial
node_command _ = die

unfoldable pub state_command : List Text → Exec Client Ending
unfolding exit_with die
state_command (host ∷ port ∷ []) = exit_with (state host port)
state_command _ = die

unfoldable pub transfer_command : List Text → Exec Client Ending
unfolding exit_with die
transfer_command (from_host ∷ from_port ∷ to_host ∷ to_port ∷ amount ∷ []) =
    exit_with (transfer from_host from_port to_host to_port amount)
transfer_command _ = die

unfoldable pub reset_command : List Text → Exec Client Ending
unfolding exit_with die
reset_command (host ∷ port ∷ amount ∷ []) = exit_with (reset_counter host port amount)
reset_command _ = die

unfoldable pub sum_command : List Text → Exec Client Ending
unfolding exit_with die
sum_command (a ∷ ap ∷ b ∷ bp ∷ c ∷ cp ∷ expected ∷ timeout ∷ stable ∷ []) =
    exit_with (sum_counters (a ∷ ap ∷ b ∷ bp ∷ c ∷ cp ∷ expected ∷ timeout ∷ stable ∷ []))
sum_command _ = die

abbrev is_command : Text → Text → Bool
is_command cmd name = ite (text_discrete cmd name) true false

-- `argv` without the program's own name.
unfoldable pub main : List Text → Exec Client Ending
unfolding node_command state_command transfer_command reset_command sum_command
main [] = die
main (cmd ∷ args) =
    if is_command cmd (codes "node")
    then node_command args
    else if is_command cmd (codes "state")
    then state_command args
    else if is_command cmd (codes "transfer")
    then transfer_command args
    else if is_command cmd (codes "reset")
    then reset_command args
    else if is_command cmd (codes "sum")
    then sum_command args
    else die
