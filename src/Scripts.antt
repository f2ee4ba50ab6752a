-- ===== src/Scripts.antt =====
-- proxy/chat.py and proxy/udp_script.py, which try the proxy by hand: the numbered messages that they send, and
-- the lines that they print for what comes in. The interrupt from the keyboard comes behind a whole number
-- of rounds; the sockets can be bound.
pub mod Numbered
pub mod Printed
use dead_nodes_tell_no_tales.Prelude.{
  ℕ, zero, suc, ◌+◌, Bytes, Text, Bool, List, [], ◌∷◌, ◌++◌, codes, take, if◌then◌else◌, ℤ,
}
use dead_nodes_tell_no_tales.Outcome.{Outcome, ok, raised, os_error}
use dead_nodes_tell_no_tales.Codec.{decode}
use dead_nodes_tell_no_tales.Exec.{Exec, pure, raise, lift, modify, ◌>>=◌, ◌>>◌}
use dead_nodes_tell_no_tales.Counter.Numerals.{int_of, text_of, digits}

pub record Terminal : Type 0 where
  -- the messages that were sent: address, port and text
  pub sent : List (Text × ℤ × Text)
  pub printed : List Text
  -- the time slept, in milliseconds
  pub slept : ℕ

unfoldable pub print_line : Text → Exec Terminal (Unit {0})
print_line line = modify (λ t. record t { printed = t.printed ++ line ∷ [] })

unfoldable pub sleep : ℕ → Exec Terminal (Unit {0})
sleep time = modify (λ t. record t { slept = t.slept + time })

-- A datagram, and the address and the port that it came from.
abbrev pub Datagram : Type 0
Datagram = Bytes × Text × ℕ

abbrev pub Received : Type 0
Received = Text × Text × ℕ

abbrev pub chat_message : Text → ℕ → Text
chat_message node_name seq = (node_name ++ codes " Automated Sequence ") ++ digits seq

abbrev pub script_message : ℕ → Text
script_message counter = codes "Message sequence number: " ++ digits counter

abbrev pub chat_line : Received → Text
chat_line (text, ip, port) =
    codes "[<- RECV] from " ++ (ip ++ b':' ∷ (digits port ++ (codes " | " ++ text)))

abbrev pub script_line : Received → Text
script_line (text, ip, port) =
    codes "Received from " ++ (ip ++ b':' ∷ (digits port ++ (codes " -> " ++ text)))

abbrev pub opening_line : Text → ℤ → Text → ℤ → Text
opening_line node_name local_port peer_ip peer_port =
    codes "[*] "
    ++ (node_name
        ++ (codes " Active. Listening on "
            ++ (text_of local_port
                ++ (codes ", blasting " ++ (peer_ip ++ b':' ∷ text_of peer_port)))))

-- A datagram that is no UTF-8 ends the loop, as every exception does.
unfoldable pub show : Exec Terminal (Unit {0}) → Datagram → Outcome Text → Exec Terminal (Unit {0})
unfolding print_line
show rest (_, ip, port) (ok text) = do print_line (chat_line (text, ip, port)); rest
show rest _ (raised e) = pure tt

unfoldable pub receive_messages : List Datagram → Exec Terminal (Unit {0})
unfolding show
receive_messages [] = pure tt
receive_messages (d ∷ rest) = show (receive_messages rest) d (decode (take 1024 d.0))

-- The branch `--recv`, where the exception ends the program.
unfoldable pub show_or_raise :
    Exec Terminal (Unit {0}) → Datagram → Outcome Text → Exec Terminal (Unit {0})
unfolding print_line
show_or_raise rest (_, ip, port) (ok text) = do print_line (script_line (text, ip, port)); rest
show_or_raise rest _ (raised e) = raise e

unfoldable pub recv_script : List Datagram → Exec Terminal (Unit {0})
unfolding show_or_raise
recv_script [] = pure tt
recv_script (d ∷ rest) = show_or_raise (recv_script rest) d (decode (take 1024 d.0))

-- `can_send` tells whether `sendto` an address and a port succeeds.
module _ (can_send : Text → ℤ → Bool) where
  unfoldable pub sendto : Text → ℤ → Text → Exec Terminal (Unit {0})
  sendto ip port msg =
      if can_send ip port
      then modify (λ t. record t { sent = t.sent ++ (ip, port, msg) ∷ [] })
      else raise os_error

  -- The rounds of the loop from `seq` on.
  unfoldable pub chat_rounds : Text → Text → ℤ → ℕ → ℕ → Exec Terminal (Unit {0})
  unfolding sendto print_line sleep
  chat_rounds node_name ip port seq zero = pure tt
  chat_rounds node_name ip port seq (suc rounds) = do
    sendto ip port (chat_message node_name seq)
    print_line (
        codes "[-> SEND] to "
        ++ (ip ++ b':' ∷ (text_of port ++ (codes " | " ++ chat_message node_name seq))))
    sleep 1000
    chat_rounds node_name ip port (suc seq) rounds

  -- `main` of chat.py, whose result is the exit code; `argv` is without the program's own name.
  unfoldable pub chat : List Text → ℕ → Exec Terminal ℕ
  unfolding chat_rounds print_line
  chat (node_name ∷ local ∷ peer_ip ∷ peer ∷ []) rounds = do
    local_port ← lift (int_of local)
    peer_port ← lift (int_of peer)
    print_line (opening_line node_name local_port peer_ip peer_port)
    chat_rounds node_name peer_ip peer_port 1 rounds
    print_line (codes "\n[*] " ++ (node_name ++ codes " shutting down."))
    pure 0
  chat _ rounds = do
    print_line (codes "Usage: python chat.py <NODE_NAME> <LOCAL_PORT> <PEER_IP> <PEER_PORT>")
    pure 1

  unfoldable pub script_rounds : Text → ℤ → ℕ → ℕ → Exec Terminal (Unit {0})
  unfolding sendto print_line sleep
  script_rounds ip port counter zero = pure tt
  script_rounds ip port counter (suc rounds) = do
    sendto ip port (script_message counter)
    print_line (codes "Sent: " ++ script_message counter)
    sleep 500
    script_rounds ip port (suc counter) rounds

  -- The branch `--send`.
  unfoldable pub send_script : Text → ℤ → ℕ → Exec Terminal (Unit {0})
  unfolding script_rounds print_line
  send_script ip port rounds = do
    print_line (codes "Sending packets to " ++ (ip ++ b':' ∷ (text_of port ++ codes "...")))
    script_rounds ip port 1 rounds
    print_line (codes "\nStopping...")

  -- udp_script.py with its parsed arguments, for so many rounds or for what comes in.
  unfoldable pub script : Bool → Bool → Text → ℤ → ℕ → List Datagram → Exec Terminal (Unit {0})
  unfolding send_script recv_script print_line
  script sends receives ip port rounds datagrams =
      if sends
      then send_script ip port rounds
      else if receives
      then (do
        print_line (codes "Listening for UDP on port " ++ (text_of port ++ codes "..."))
        recv_script datagrams
        print_line (codes "\nStopped listening..."))
      else print_line (codes "Wrong commands or some shi")
