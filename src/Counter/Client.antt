-- ===== src/Counter/Client.antt =====
-- The client commands of src/counter.py: `request_udp`, `state`, `transfer`, `reset_counter`, `get_counter`,
-- `sum_counters` and `main`. What becomes of a request is data of the client's state.
pub mod Reading
pub mod Commands
pub mod Sum
pub mod Main
pub mod Streak
pub mod Rounds
pub mod Polls
use dead_nodes_tell_no_tales.Prelude.{
  ℕ, zero, suc, ◌+◌, ◌/◌, Bytes, Text, Bool, true, false, ◌&&◌, Option, none, some, List, [], ◌∷◌,
  ◌++◌, codes, take, drop, length, leb, ◌==◌, starts_with, if◌then◌else◌, ite, ℤ, pos, negsuc, ◌+ℤ◌,
  text_discrete,
}
use dead_nodes_tell_no_tales.Outcome.{Outcome, ok, raised, os_error}
use dead_nodes_tell_no_tales.Codec.{decode}
use dead_nodes_tell_no_tales.Exec.{Exec, pure, raise, lift, gets, modify, ◌>>=◌, ◌>>◌}
use dead_nodes_tell_no_tales.Counter.Numerals.{int_of, text_of}
use dead_nodes_tell_no_tales.Counter.Words.{split_words}
use dead_nodes_tell_no_tales.Counter.Nodes.{buffer_size}

-- What becomes of a request: the port cannot be bound, sending or receiving fails or times out, or an
-- answer comes in.
pub data Attempt : Type 0 where
  unbound silent : Attempt
  answered : Bytes → Attempt

pub record Client : Type 0 where
  -- what becomes of the requests to come
  pub attempts : List Attempt
  -- the requests that were sent: host, port and message
  pub requests : List (Text × ℤ × Text)
  pub printed : List Text
  -- the time slept, in milliseconds
  pub slept : ℕ

unfoldable pub next_attempt : List Attempt → Attempt
next_attempt [] = silent
next_attempt (a ∷ _) = a

unfoldable pub print : Text → Exec Client (Unit {0})
print line = modify (λ c. record c { printed = c.printed ++ line ∷ [] })

-- try: return ... except: return None
abbrev pub or_none {ℓ} : {A : Type ℓ} → Outcome A → Option A
or_none (ok a) = some a
or_none (raised e) = none

unfoldable pub read_answer : Attempt → Option Text
read_answer unbound = none
read_answer silent = none
read_answer (answered datagram) = or_none (decode (take buffer_size datagram))

-- Only the `bind`, in front of the `try`, lets its exception through.
unfoldable pub ask : Text → Outcome ℤ → Text → Attempt → Exec Client (Option Text)
unfolding read_answer
ask host port msg unbound = raise os_error
ask host (raised e) msg attempt = pure none
ask host (ok port) msg attempt = do
  modify (λ c. record c { requests = c.requests ++ (host, port, msg) ∷ [] })
  pure (read_answer attempt)

-- The time to wait for an answer, one second or half a second, decides what becomes of a request.
unfoldable pub request_udp : Text → Text → Text → Exec Client (Option Text)
unfolding ask next_attempt
request_udp host port msg = do
  attempt ← gets (λ c. next_attempt c.attempts)
  modify (λ c. record c { attempts = drop 1 c.attempts })
  ask host (int_of port) msg attempt

unfoldable pub state : Text → Text → Exec Client ℕ
unfolding print
state host port = do
  reply ← request_udp host port (codes "STATE")
  elim reply [ none ↦ pure 1 | some text ↦ do print text; pure 0 ]

-- The end of `transfer` and of `reset_counter`.
unfoldable pub show_reply : Option Text → Exec Client ℕ
unfolding print
show_reply none = pure 1
show_reply (some text) = do print text; pure (if starts_with (codes "OK") text then 0 else 1)

abbrev pub transfer_message : Text → Text → Text → Text
transfer_message to_host to_port amount =
    codes "TRANSFER"
    ++ b' ' ∷ (codes "tx123" ++ b' ' ∷ (to_host ++ b' ' ∷ (to_port ++ b' ' ∷ amount)))

unfoldable pub transfer : Text → Text → Text → Text → Text → Exec Client ℕ
unfolding show_reply
transfer from_host from_port to_host to_port amount = do
  reply ← request_udp from_host from_port (transfer_message to_host to_port amount)
  show_reply reply

unfoldable pub reset_counter : Text → Text → Text → Exec Client ℕ
unfolding show_reply
reset_counter host port amount = do
  reply ← request_udp host port (codes "RESET " ++ amount)
  show_reply reply

-- text[text.find(pattern) + len(pattern):], where the pattern is found
unfoldable pub behind : Text → Text → Option Text
behind pattern [] = if starts_with pattern [] then some (drop (length pattern) []) else none
behind pattern (c ∷ s) =
    let later = behind pattern s in
    if starts_with pattern (c ∷ s) then some (drop (length pattern) (c ∷ s)) else later

unfoldable pub first_int : List Text → Option ℤ
first_int [] = none
first_int (w ∷ _) = or_none (int_of w)

unfoldable pub int_behind : Option Text → Option ℤ
unfolding first_int
int_behind none = none
int_behind (some rest) = first_int (split_words rest)

unfoldable pub counter_in : Text → Option ℤ
unfolding behind int_behind
counter_in reply = int_behind (behind (codes "counter=") reply)

unfoldable pub counter_of : Option Text → Option ℤ
unfolding counter_in
counter_of none = none
counter_of (some reply) = counter_in reply

-- An empty reply holds no counter either.
unfoldable pub get_counter : Text → Text → Exec Client (Option ℤ)
unfolding counter_of
get_counter host port = do reply ← request_udp host port (codes "STATE"); pure (counter_of reply)
