-- ===== src/Mesh/Spoof/Recency.antt =====
-- The cache of spoofing sockets over a history of requests, and the order of the keys' last uses.
use mathlib.Core.List.{append_assoc}
use dead_nodes_tell_no_tales.Prelude.{
  suc, ◌+◌, ◌≤◌, ◌<◌, ◌-◌, leb→le, drop, drop-append, ◌⊎◌, true, none, List, [], ◌∷◌, ◌++◌, length,
  length-append, leb, ◌≡◌, refl, sym, ap, ◌∙◌, subst, inl, inr, arith, address_discrete, Bool-cases,
  Option-cases, if◌then◌else◌,
}
use dead_nodes_tell_no_tales.Outcome.{ok}
use dead_nodes_tell_no_tales.Config.{Settings, max_spoof_sockets}
use dead_nodes_tell_no_tales.Dict.{keys, get?, has, remove, discard}
use dead_nodes_tell_no_tales.Dict.Laws.{has_of_get?}
use dead_nodes_tell_no_tales.Node.{Node, Socket, bound, generic}
use dead_nodes_tell_no_tales.Node.Peers.{emit}
use dead_nodes_tell_no_tales.Mesh.Spoof.Cache.{put_new, missing_behind}
use dead_nodes_tell_no_tales.Exec.{Exec, pure, for_each, ◌>>=◌}
use dead_nodes_tell_no_tales.Mesh.Spoof.{
  Sockets, move_to_end, evict, make_room, create, reuse_or_create, get_spoof_sock,
}
use dead_nodes_tell_no_tales.Mesh.Spoof.LastUses.{
  Key, use_key, last_uses, Distinct, Distinct-use_key, use_key-known, use_key-new, length-known,
  length-keys,
}

-- What room is made of: nothing below the bound, the front entry at the bound.
data MadeRoom (n : Node) : Type 0 where
  spare : make_room n ≡ n → length n.spoof_sockets < max_spoof_sockets → MadeRoom n
  taken :
      (oldest : Key)
      → (old : Socket) → (rest : Sockets) → n.spoof_sockets ≡ (oldest, old) ∷ rest
      → (make_room n).spoof_sockets ≡ rest
      → suc (length rest) ≡ max_spoof_sockets
      → MadeRoom n

evict_cases :
    (d : Sockets) (n : Node)
    → n.spoof_sockets ≡ d
    → leb max_spoof_sockets (length d) ≡ true
    → length d ≤ max_spoof_sockets
    → MadeRoom n
unfolding make_room evict emit
evict_cases [] n e full within = absurd (ground (arith, full))
evict_cases ((k, s) ∷ rest) n e full within =
    taken k s rest e (rw (e, full) refl) (omega (arith, leb→le _ _ full, within))

room_cases : (n : Node) → length n.spoof_sockets ≤ max_spoof_sockets → MadeRoom n
unfolding make_room
room_cases n within = elim (Bool-cases (leb max_spoof_sockets (length n.spoof_sockets))) [
  | inl full ↦ evict_cases n.spoof_sockets n refl full within
  | inr room ↦ spare (rw room refl) (ground (arith, room))
]

-- The keys of the cache are the last of those that were used; others were used only if it is full.
pub record Recent (used : List Key) (n : Node) : Type 0 where
  pub front : List Key
  pub split : used ≡ front ++ keys n.spoof_sockets
  pub full : (front ≡ []) ⊎ (max_spoof_sockets ≤ length n.spoof_sockets)
  pub within : length n.spoof_sockets ≤ max_spoof_sockets
  pub distinct : Distinct used

module _ (used : List Key) (key : Key) (n : Node) (r : Recent used n) where
  split-Distinct : Distinct (r.front ++ keys n.spoof_sockets)
  split-Distinct = subst Distinct r.split r.distinct

  Recent-move_to_end :
      (sock : Socket)
      → has address_discrete n.spoof_sockets key ≡ true
      → Recent (use_key used key) (move_to_end key sock n)
  unfolding move_to_end
  Recent-move_to_end sock there = record {
    front = r.front;
    split =
        ap (λ l. use_key l key) r.split
        ∙ use_key-known r.front n.spoof_sockets key sock split-Distinct there;
    full = elim r.full [ inl e ↦ inl e | inr f ↦ inr (omega (arith, f, same_length)) ];
    within = omega (arith, r.within, same_length);
    distinct = Distinct-use_key used key r.distinct;
  }
    where
      kept : Sockets
      kept = remove address_discrete n.spoof_sockets key

      same_length : length (kept ++ (key, sock) ∷ []) ≡ length n.spoof_sockets
      same_length = length-known r.front n.spoof_sockets key sock split-Distinct there

  Recent-create :
      (env : Settings)
      → get? address_discrete n.spoof_sockets key ≡ none
      → Recent (use_key used key) (create env key n).1
  unfolding create ◌>>=◌ discard
  Recent-create env missing = elim (room_cases n r.within) [
    | spare same room ↦ record {
      front = discard address_discrete r.front key;
      split = used_again ∙ rw (same, put_new n.spoof_sockets key sock missing) refl;
      full = elim r.full [ inl e ↦ inl (rw e refl) | inr f ↦ absurd (omega (arith, f, room)) ];
      within =
          rw (same, put_new n.spoof_sockets key sock missing)
            (omega (arith, room, length-append n.spoof_sockets ((key, sock) ∷ [])));
      distinct = Distinct-use_key used key r.distinct;
    }
    | taken oldest old rest shape new size ↦ record {
      front = discard address_discrete r.front key ++ oldest ∷ [];
      split =
          rw (new, put_new rest key sock (still oldest old rest shape))
            (used_again
              ∙ ap (λ d. discard address_discrete r.front key ++ keys (d ++ (key, sock) ∷ [])) shape
              ∙ sym (
                  append_assoc (discard address_discrete r.front key) (oldest ∷ [])
                    (keys (rest ++ (key, sock) ∷ []))));
      full = inr (
          rw (new, put_new rest key sock (still oldest old rest shape))
            (omega (arith, size, length-append rest ((key, sock) ∷ []))));
      within =
          rw (new, put_new rest key sock (still oldest old rest shape))
            (omega (arith, size, length-append rest ((key, sock) ∷ [])));
      distinct = Distinct-use_key used key r.distinct;
    }
  ]
    where
      sock : Socket
      sock = if env.can_bind key.0 key.1 then bound else generic

      used_again :
          use_key used key
          ≡ discard address_discrete r.front key ++ keys (n.spoof_sockets ++ (key, sock) ∷ [])
      used_again =
          ap (λ l. use_key l key) r.split
          ∙ use_key-new r.front n.spoof_sockets key sock split-Distinct missing

      still :
          (oldest : Key) (old : Socket) (rest : Sockets)
          → n.spoof_sockets ≡ (oldest, old) ∷ rest
          → get? address_discrete rest key ≡ none
      still oldest old rest shape = missing_behind oldest old rest key (rw shape at missing)

module _ (env : Settings) where
  Recent-get_spoof_sock :
      (used : List Key) (key : Key) (n : Node)
      → Recent used n
      → (sock : Socket) × ((get_spoof_sock env key.0 key.1 n).0 ≡ ok sock)
        × Recent (use_key used key) (get_spoof_sock env key.0 key.1 n).1
  unfolding get_spoof_sock reuse_or_create create ◌>>=◌
  Recent-get_spoof_sock used key n r =
      elim (Option-cases (get? address_discrete n.spoof_sockets key)) [
        | inl missing ↦ rw missing (_, refl, Recent-create used key n r env missing)
        | inr (sock, there) ↦ rw there (
          sock,
          refl,
          Recent-move_to_end used key n r sock
              (has_of_get? address_discrete n.spoof_sockets key sock there),
        )
      ]

  -- one request after the other
  abbrev pub ask_all : List Key → Exec Node (Unit {0})
  ask_all wanted = for_each wanted (λ key. get_spoof_sock env key.0 key.1 >>= λ sock. pure tt)

  Recent-ask_all :
      (wanted used : List Key) (n : Node)
      → Recent used n
      → ((ask_all wanted n).0 ≡ ok tt) × Recent (last_uses used wanted) (ask_all wanted n).1
  unfolding for_each ◌>>=◌ pure
  Recent-ask_all [] used n r = (refl, r)
  Recent-ask_all (key ∷ wanted) used n r =
      let (sock, returned, next) = Recent-get_spoof_sock used key n r in
      rw returned (Recent-ask_all wanted (use_key used key) _ next)

Recent-keys :
    (used : List Key) (n : Node)
    → Recent used n
    → keys n.spoof_sockets ≡ drop (length used - max_spoof_sockets) used
Recent-keys used n r = sym (
    rw front_length
      (ap (drop (length r.front)) r.split ∙ drop-append r.front (keys n.spoof_sockets)))
  where
    total : length used ≡ length r.front + length (keys n.spoof_sockets)
    total = ap length r.split ∙ length-append r.front (keys n.spoof_sockets)

    front_length : length used - max_spoof_sockets ≡ length r.front
    front_length = elim r.full [
      | inl e ↦ omega (arith, total, ap length e, r.within, length-keys n.spoof_sockets)
      | inr full ↦ omega (arith, total, full, r.within, length-keys n.spoof_sockets)
    ]

-- Requests for any keys, in any order and with any repetitions, to an empty cache all succeed, and leave
-- in it exactly the last 512 of the keys that were asked for, fewer if fewer were, in the order of their
-- last uses, the latest at the end.
pub ask_all-last_uses :
    (env : Settings) (wanted : List Key) (n : Node)
    → n.spoof_sockets ≡ []
    → ((ask_all env wanted n).0 ≡ ok tt)
      × (keys (ask_all env wanted n).1.spoof_sockets
          ≡ drop (length (last_uses [] wanted) - max_spoof_sockets) (last_uses [] wanted))
ask_all-last_uses env wanted n empty = (all.0, Recent-keys (last_uses [] wanted) _ all.1)
  where
    all : ((ask_all env wanted n).0 ≡ ok tt) × Recent (last_uses [] wanted) (ask_all env wanted n).1
    all = Recent-ask_all env wanted [] n (record {
      front = [];
      split = rw empty refl;
      full = inl refl;
      within = rw empty (omega arith);
      distinct = tt;
    })
