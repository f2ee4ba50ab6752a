-- ===== src/Mesh/Spoof/Cache.antt =====
-- The cache of spoofing sockets: its bound, and what a request for a socket leaves in it.
use dead_nodes_tell_no_tales.Prelude.{
  ℕ, suc, ◌<◌, ◌≤◌, Text, true, none, some, [], ◌∷◌, ◌++◌, length, length-append, leb, leb→le,
  if◌then◌else◌, address_discrete, if_pos, if_neg, ◌≡◌, ◌≢◌, refl, ◌∙◌, arith, Bool-cases,
  Option-cases, inl, inr,
}
use dead_nodes_tell_no_tales.Outcome.{Outcome, ok}
use dead_nodes_tell_no_tales.Config.{Settings, max_spoof_sockets}
use dead_nodes_tell_no_tales.Dict.{get?, has, put, remove}
use dead_nodes_tell_no_tales.Dict.Laws.{get?-put, get?-remove, has_of_get?, length-remove}
use dead_nodes_tell_no_tales.Node.{Node, Socket, bound, generic, closed}
use dead_nodes_tell_no_tales.Node.Peers.{emit}
use dead_nodes_tell_no_tales.Exec.{◌>>=◌}
use dead_nodes_tell_no_tales.Mesh.Spoof.{
  Sockets, move_to_end, evict, make_room, create, reuse_or_create, get_spoof_sock,
}

abbrev sockets : Node → Sockets
sockets n = n.spoof_sockets

length-put-le :
    (d : Sockets) (key : Text × ℕ) (sock : Socket)
    → length (put address_discrete d key sock) ≤ suc (length d)
unfolding put
length-put-le [] key sock = omega arith
length-put-le ((k, s) ∷ d) key sock = ground (arith, length-put-le d key sock)

get?-append :
    (d e : Sockets) (key : Text × ℕ)
    → get? address_discrete d key ≡ none
    → get? address_discrete (d ++ e) key ≡ get? address_discrete e key
unfolding get?
get?-append [] e key h = refl
get?-append ((k, s) ∷ d) e key h = ground (arith, h, get?-append d e key)

get?-append_last :
    (d : Sockets) (last : Text × ℕ) (sock : Socket) (key : Text × ℕ)
    → last ≢ key
    → get? address_discrete (d ++ (last, sock) ∷ []) key ≡ get? address_discrete d key
unfolding get?
get?-append_last [] last sock key ne = ground (arith, ne)
get?-append_last ((k, s) ∷ d) last sock key ne =
    ground (arith, ne, get?-append_last d last sock key ne)

-- After the request for a key: the cache is within its bound, the socket that was returned is the one
-- that is kept under the key, and if no room had to be made, all others are kept.
pub record Cached (key : Text × ℕ) (n : Node) (r : Outcome Socket × Node) : Type 0 where
  pub sock : Socket
  pub returned : r.0 ≡ ok sock
  pub within : length (sockets r.1) ≤ max_spoof_sockets
  pub kept : get? address_discrete (sockets r.1) key ≡ some sock

module _ (key : Text × ℕ) (sock : Socket) (n : Node) where
  get?-move_to_end : get? address_discrete (sockets (move_to_end key sock n)) key ≡ some sock
  unfolding move_to_end
  get?-move_to_end =
      get?-append (remove address_discrete n.spoof_sockets key) ((key, sock) ∷ []) key (
        get?-remove address_discrete n.spoof_sockets key key
        ∙ if_pos (address_discrete key key) refl _ _)
      ∙ unfold get? in if_pos (address_discrete key key) refl _ _

  others-move_to_end :
      (other : Text × ℕ)
      → key ≢ other
      → get? address_discrete (sockets (move_to_end key sock n)) other
        ≡ get? address_discrete (sockets n) other
  unfolding move_to_end
  others-move_to_end other ne =
      get?-append_last (remove address_discrete n.spoof_sockets key) key sock other ne
      ∙ (get?-remove address_discrete n.spoof_sockets key other
          ∙ if_neg (address_discrete key other) ne _ _)

  length-move_to_end :
      has address_discrete n.spoof_sockets key ≡ true
      → length (sockets (move_to_end key sock n)) ≤ length (sockets n)
  unfolding move_to_end
  length-move_to_end there = omega (
    arith,
    length-remove address_discrete n.spoof_sockets key there,
    length-append (remove address_discrete n.spoof_sockets key) ((key, sock) ∷ []),
  )

evict-lt :
    (d : Sockets) (n : Node)
    → max_spoof_sockets ≤ length d
    → length d ≤ max_spoof_sockets
    → length (sockets (evict d n)) < max_spoof_sockets
unfolding evict emit
evict-lt [] n full within = absurd (omega arith)
evict-lt ((k, s) ∷ rest) n full within = omega arith

-- There is room for one more socket.
make_room-lt :
    (n : Node)
    → length (sockets n) ≤ max_spoof_sockets
    → length (sockets (make_room n)) < max_spoof_sockets
unfolding make_room
make_room-lt n within = elim (Bool-cases (leb max_spoof_sockets (length n.spoof_sockets))) [
  | inl full ↦ rw full (evict-lt n.spoof_sockets n (leb→le _ _ full) within)
  | inr room ↦ rw room (ground (arith, room))
]

module _ (env : Settings) (key : Text × ℕ) (n : Node) where
  Cached-create : length (sockets n) ≤ max_spoof_sockets → Cached key n (create env key n)
  unfolding create ◌>>=◌
  Cached-create within = record {
    sock = if env.can_bind key.0 key.1 then bound else generic;
    returned = refl;
    within = omega (
      arith,
      make_room-lt n within,
      length-put-le (sockets (make_room n)) key
          (if env.can_bind key.0 key.1 then bound else generic),
    );
    kept =
        get?-put address_discrete (sockets (make_room n)) key
          (if env.can_bind key.0 key.1 then bound else generic) key
        ∙ if_pos (address_discrete key key) refl _ _;
  }

  -- A cache within its bound stays within it, whichever key is asked for, whether it is in the cache,
  -- and whether its address can be bound; the socket that is returned is the one kept under the key.
  pub Cached-get_spoof_sock :
      length (sockets n) ≤ max_spoof_sockets → Cached key n (get_spoof_sock env key.0 key.1 n)
  unfolding get_spoof_sock reuse_or_create ◌>>=◌
  Cached-get_spoof_sock within = elim (Option-cases (get? address_discrete n.spoof_sockets key)) [
    | inl missing ↦ rw missing (Cached-create within)
    | inr (sock, there) ↦ rw there (record {
      sock = sock;
      returned = refl;
      within = omega (
        arith,
        within,
        length-move_to_end key sock n (has_of_get? address_discrete n.spoof_sockets key sock there),
      );
      kept = get?-move_to_end key sock n;
    })
  ]

pub put_new :
    (d : Sockets) (key : Text × ℕ) (sock : Socket)
    → get? address_discrete d key ≡ none
    → put address_discrete d key sock ≡ d ++ (key, sock) ∷ []
unfolding get? put
put_new [] key sock h = refl
put_new ((k, s) ∷ d) key sock h = ground (arith, h, put_new d key sock)

pub missing_behind :
    (k : Text × ℕ) (s : Socket) (d : Sockets) (key : Text × ℕ)
    → get? address_discrete ((k, s) ∷ d) key ≡ none
    → get? address_discrete d key ≡ none
unfolding get?
missing_behind k s d key h = ground (arith, h)

-- A full cache that is asked for a new key closes exactly the socket at its front, takes it out, and
-- keeps the new one at the end.
pub get_spoof_sock-oldest :
    (env : Settings) (key oldest : Text × ℕ) (old : Socket) (rest : Sockets) (n : Node)
    → n.spoof_sockets ≡ (oldest, old) ∷ rest
    → length n.spoof_sockets ≡ max_spoof_sockets
    → get? address_discrete n.spoof_sockets key ≡ none
    → (sock : Socket) × ((get_spoof_sock env key.0 key.1 n).0 ≡ ok sock)
      × ((get_spoof_sock env key.0 key.1 n).1.spoof_sockets ≡ rest ++ (key, sock) ∷ [])
      × ((get_spoof_sock env key.0 key.1 n).1.events ≡ n.events ++ closed oldest ∷ [])
unfolding get_spoof_sock reuse_or_create create make_room evict emit ◌>>=◌
get_spoof_sock-oldest env key oldest old rest n shape full missing =
    (sock, rw missing refl, rw (missing, at_bound, shape) new, rw (missing, at_bound, shape) refl)
  where
    sock : Socket
    sock = if env.can_bind key.0 key.1 then bound else generic

    at_bound : leb max_spoof_sockets (length n.spoof_sockets) ≡ true
    at_bound = ground (arith, full)

    new : put address_discrete rest key sock ≡ rest ++ (key, sock) ∷ []
    new = put_new rest key sock (missing_behind oldest old rest key (rw shape at missing))
