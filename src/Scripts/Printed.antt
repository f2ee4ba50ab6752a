-- ===== src/Scripts/Printed.antt =====
-- The lines that the scripts print for what comes in.
use mathlib.Core.List.{append-nil, append_assoc}
use dead_nodes_tell_no_tales.Prelude.{
  ℕ, suc, ◌<◌, Text, List, [], ◌∷◌, ◌++◌, map, take, length, ◌≡◌, refl, sym, ap, ◌∙◌, ◌⊎◌, inl, inr,
  arith,
}
use dead_nodes_tell_no_tales.Outcome.{Outcome, Error, ok, raised}
use dead_nodes_tell_no_tales.Codec.{decode}
use dead_nodes_tell_no_tales.Exec.{Exec, pure, raise, ◌>>=◌}
use dead_nodes_tell_no_tales.Scripts.{
  Terminal, Datagram, Received, print_line, chat_line, script_line, show, show_or_raise,
  receive_messages, recv_script,
}

-- The datagrams before the first that is no UTF-8, as texts.
abbrev behind : Datagram → List Received → Outcome Text → List Received
behind (_, ip, port) rest (ok text) = (text, ip, port) ∷ rest
behind _ rest (raised e) = []

abbrev pub readable : List Datagram → List Received
readable [] = []
readable (d ∷ rest) = behind d (readable rest) (decode (take 1024 d.0))

abbrev pub lines : (Received → Text) → List Received → Terminal → Terminal
lines line texts t = record t { printed = t.printed ++ map line texts }

-- All of so many datagrams were read, or an exception was raised at one that was not.
pub IsEnd : ℕ → ℕ → Outcome (Unit {0}) → Type 0
IsEnd count read r =
    ((r ≡ ok tt) × (read ≡ count)) ⊎ ((e : Error) × (r ≡ raised e) × (read < count))

lines-nil : (line : Received → Text) (t : Terminal) → t ≡ lines line [] t
lines-nil line t = ap (λ l. record t { printed = l }) (sym (append-nil t.printed))

lines-cons :
    (line : Received → Text) (x : Received) (xs : List Received) (t : Terminal)
    → lines line xs (record t { printed = t.printed ++ line x ∷ [] }) ≡ lines line (x ∷ xs) t
lines-cons line x xs t =
    ap (λ l. record t { printed = l }) (append_assoc t.printed (line x ∷ []) (map line xs))

module _ (d : Datagram) (rest : List Received) (more : Exec Terminal (Unit {0})) where
  show-lines :
      (r : Outcome Text) (t : Terminal)
      → ((t' : Terminal) → more t' ≡ (ok tt, lines chat_line rest t'))
      → show more d r t ≡ (ok tt, lines chat_line (behind d rest r) t)
  unfolding show print_line ◌>>=◌ pure
  show-lines (ok text) t h =
      h _ ∙ ap (λ s. (ok tt, s)) (lines-cons chat_line (text, d.1, d.2) rest t)
  show-lines (raised e) t h = ap (λ s. (ok tt, s)) (lines-nil chat_line t)

  show_or_raise-lines :
      (count : ℕ) (r : Outcome Text) (t : Terminal)
      → ((t' : Terminal)
          → ((more t').1 ≡ lines script_line rest t') × IsEnd count (length rest) (more t').0)
      → ((show_or_raise more d r t).1 ≡ lines script_line (behind d rest r) t)
        × IsEnd (suc count) (length (behind d rest r)) (show_or_raise more d r t).0
  unfolding show_or_raise print_line ◌>>=◌ pure raise IsEnd
  show_or_raise-lines count (ok text) t h =
      let (printed, end) = h _ in
      (
        printed ∙ lines-cons script_line (text, d.1, d.2) rest t,
        elim end [
          | inl (r, all) ↦ inl (r, ap suc all)
          | inr (e, r, fewer) ↦ inr (e, r, omega (arith, fewer))
        ],
      )
  show_or_raise-lines count (raised e) t h = (lines-nil script_line t, inr (e, refl, omega arith))

chat-lines :
    (datagrams : List Datagram) (t : Terminal)
    → receive_messages datagrams t ≡ (ok tt, lines chat_line (readable datagrams) t)
unfolding receive_messages pure
chat-lines [] t = ap (λ s. (ok tt, s)) (lines-nil chat_line t)
chat-lines (d ∷ rest) t =
    show-lines d (readable rest) (receive_messages rest) (decode (take 1024 d.0)) t
      (chat-lines rest)

recv_script-lines :
    (datagrams : List Datagram) (t : Terminal)
    → ((recv_script datagrams t).1 ≡ lines script_line (readable datagrams) t)
      × IsEnd (length datagrams) (length (readable datagrams)) (recv_script datagrams t).0
unfolding recv_script pure IsEnd
recv_script-lines [] t = (lines-nil script_line t, inl (refl, refl))
recv_script-lines (d ∷ rest) t =
    show_or_raise-lines d (readable rest) (recv_script rest) (length rest) (decode (take 1024 d.0))
      t (recv_script-lines rest)

-- The listeners of both scripts, on the same datagrams, print a line for each one before the first that is no
-- UTF-8, in their order, and for no other. That of chat.py returns in any case; that of udp_script.py returns
-- if there is no such datagram, and else raises an exception.
pub receive_messages-recv_script :
    (datagrams : List Datagram) (t : Terminal)
    → (receive_messages datagrams t ≡ (ok tt, lines chat_line (readable datagrams) t))
      × ((recv_script datagrams t).1 ≡ lines script_line (readable datagrams) t)
      × IsEnd (length datagrams) (length (readable datagrams)) (recv_script datagrams t).0
receive_messages-recv_script datagrams t =
    let (printed, end) = recv_script-lines datagrams t in (chat-lines datagrams t, printed, end)
