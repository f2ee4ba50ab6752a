-- ===== src/Counter/Client/Reading.antt =====
-- What the client reads out of a node's reply.
use dead_nodes_tell_no_tales.Prelude.{
  Bytes, Text, Bool, List, take, false, some, [], ◌∷◌, ◌++◌, codes, starts_with, ◌≡◌, ◌≢◌, refl,
  sym, ap, ◌∙◌, arith, All, All-append, ℤ,
}
use mathlib.Core.List.{append_assoc}
use dead_nodes_tell_no_tales.Outcome.{ok}
use dead_nodes_tell_no_tales.Codec.{decode}
use dead_nodes_tell_no_tales.Exec.{pure, ◌>>=◌}
use dead_nodes_tell_no_tales.Counter.Numerals.{int_of, text_of, int_of-text_of}
use dead_nodes_tell_no_tales.Counter.Words.{split_words, split_words-last, IsWord-text_of}
use dead_nodes_tell_no_tales.Counter.Nodes.{Account, buffer_size, replied, handle, receive_message}
use dead_nodes_tell_no_tales.Counter.Transfers.{receive_message_run}
use dead_nodes_tell_no_tales.Counter.Client.{
  Client, Attempt, answered, request_udp, ask, read_answer, counter_of, get_counter, or_none,
  behind, first_int, int_behind, counter_in,
}

-- A text without the last character of the pattern.
abbrev pub NoEquals : Text → Type 0
NoEquals = All (λ c. c ≢ b'=')

-- In front of the pattern there is no earlier occurrence of it.
no_earlier :
    (p rest : Text)
    → NoEquals p
    → p ≢ []
    → starts_with (codes "counter=") (p ++ (codes "counter=" ++ rest)) ≡ false
no_earlier [] rest h ne = absurd (ne refl)
no_earlier (a ∷ []) rest h ne = ground (arith, h.0)
no_earlier (a ∷ b ∷ []) rest h ne = ground (arith, h.0)
no_earlier (a ∷ b ∷ c ∷ []) rest h ne = ground (arith, h.0)
no_earlier (a ∷ b ∷ c ∷ d ∷ []) rest h ne = ground (arith, h.0)
no_earlier (a ∷ b ∷ c ∷ d ∷ e ∷ []) rest h ne = ground (arith, h.0)
no_earlier (a ∷ b ∷ c ∷ d ∷ e ∷ f ∷ []) rest h ne = ground (arith, h.0)
no_earlier (a ∷ b ∷ c ∷ d ∷ e ∷ f ∷ g ∷ []) rest h ne = ground (arith, h.0)
no_earlier (a ∷ b ∷ c ∷ d ∷ e ∷ f ∷ g ∷ i ∷ p) rest h ne = ground (arith, h.1.1.1.1.1.1.1.0)

behind-first :
    (p rest : Text)
    → NoEquals p
    → behind (codes "counter=") (p ++ (codes "counter=" ++ rest)) ≡ some rest
unfolding behind
behind-first [] rest h = refl
behind-first (c ∷ p) rest h =
    rw (no_earlier (c ∷ p) rest h (λ e. ground (arith, e))) (behind-first p rest h.1)

first_int-text_of : (n : ℤ) → first_int (split_words (text_of n)) ≡ some n
unfolding first_int
first_int-text_of n =
    ap first_int (split_words-last (text_of n) (IsWord-text_of n)) ∙ ap or_none (int_of-text_of n)

NoEquals-head : (name : Text) → NoEquals name → NoEquals (codes "STATE " ++ (name ++ codes " "))
NoEquals-head name h =
    All-append (λ c. c ≢ b'=') (codes "STATE ") (name ++ codes " ")
      (
        (λ e. omega (arith, e)),
        (
          (λ e. omega (arith, e)),
          (
            (λ e. omega (arith, e)),
            ((λ e. omega (arith, e)), ((λ e. omega (arith, e)), ((λ e. omega (arith, e)), tt))),
          ),
        ),
      )
      (All-append (λ c. c ≢ b'=') name (codes " ") h ((λ e. omega (arith, e)), tt))

abbrev pub state_reply : Text → ℤ → Text
state_reply name counter = codes "STATE " ++ (name ++ (codes " counter=" ++ text_of counter))

counter_in-state_reply :
    (name : Text) (n : ℤ) → NoEquals name → counter_in (state_reply name n) ≡ some n
unfolding counter_in
counter_in-state_reply name n h =
    ap int_behind (
      ap (λ l. behind (codes "counter=") (codes "STATE " ++ l))
        (sym (append_assoc name (codes " ") (codes "counter=" ++ text_of n)))
      ∙ behind-first (codes "STATE " ++ (name ++ codes " ")) (text_of n) (NoEquals-head name h))
    ∙ (unfold int_behind in first_int-text_of n)

-- A node whose name holds no equals sign, and that reads a datagram as the message that asks for its state,
-- answers once and keeps its counter. The client that asks for the counter, and reads that answer within the
-- 512 bytes that it receives, gets exactly the node's counter, after one request.
pub get_counter-receive_message :
    (name : Text) (can_send : Text → ℤ → Bool) (a : Account) (request answer : Bytes)
    (host port : Text) (at : ℤ) (rest : List Attempt) (c : Client)
    → NoEquals name
    → decode (take buffer_size request) ≡ ok (codes "STATE")
    → int_of port ≡ ok at
    → c.attempts ≡ answered answer ∷ rest
    → decode (take buffer_size answer) ≡ ok (state_reply name a.counter)
    → (receive_message name can_send request a
        ≡ record a { sent = a.sent ++ replied (state_reply name a.counter) ∷ [] })
      × (get_counter host port c ≡ (
        ok (some a.counter),
        record c { attempts = rest; requests = c.requests ++ (host, at, codes "STATE") ∷ [] },
      ))
unfolding handle get_counter request_udp ask read_answer counter_of pure ◌>>=◌
get_counter-receive_message name can_send a request answer host port at rest c h asked to_at next
      read =
    (
      receive_message_run name can_send request (codes "STATE") a asked,
      rw (next, to_at, read)
          (ap
            (λ v. (
              ok v,
              record c { attempts = rest; requests = c.requests ++ (host, at, codes "STATE") ∷ [] },
            ))
            (counter_in-state_reply name a.counter h)),
    )
