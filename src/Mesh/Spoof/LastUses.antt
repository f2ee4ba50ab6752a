-- ===== src/Mesh/Spoof/LastUses.antt =====
-- Keys by their last use, without repetition, and the keys of a cache that changes at its end.
use mathlib.Core.List.{append_assoc}
use dead_nodes_tell_no_tales.Prelude.{
  ℕ, suc, Text, true, false, none, List, [], ◌∷◌, ◌++◌, length, length-append, ◌≡◌, refl, ap, ◌∙◌,
  if_pos, if_neg, arith, address_discrete,
}
use dead_nodes_tell_no_tales.Dict.{keys, get?, has, remove, mem, discard}
use dead_nodes_tell_no_tales.Dict.Laws.{has_of_none}
use dead_nodes_tell_no_tales.Dict.Sets.{mem-discard, mem-append, mem-keys}
use dead_nodes_tell_no_tales.Node.{Socket}
use dead_nodes_tell_no_tales.Mesh.Spoof.{Sockets}

abbrev pub Key : Type 0
Key = Text × ℕ

-- The keys by their last use, the latest at the end.
abbrev pub use_key : List Key → Key → List Key
use_key used key = discard address_discrete used key ++ key ∷ []

abbrev pub last_uses : List Key → List Key → List Key
last_uses used [] = used
last_uses used (key ∷ rest) = last_uses (use_key used key) rest

abbrev pub Distinct : List Key → Type 0
Distinct [] = Unit
Distinct (k ∷ l) = (mem address_discrete l k ≡ false) × Distinct l

discard-append :
    (l t : List Key) (k : Key)
    → discard address_discrete (l ++ t) k
      ≡ discard address_discrete l k ++ discard address_discrete t k
unfolding discard
discard-append [] t k = refl
discard-append (i ∷ l) t k = ground (arith, discard-append l t k)

discard-missing :
    (l : List Key) (k : Key) → mem address_discrete l k ≡ false → discard address_discrete l k ≡ l
unfolding discard mem
discard-missing [] k h = refl
discard-missing (i ∷ l) k h = ground (arith, discard-missing l k, h)

Distinct-discard : (l : List Key) (k : Key) → Distinct l → Distinct (discard address_discrete l k)
unfolding discard
Distinct-discard [] k h = tt
Distinct-discard (i ∷ l) k h = elim (address_discrete i k) [
  | yes e ↦
      rw
        (if_pos (address_discrete i k) e (discard address_discrete l k)
          (i ∷ discard address_discrete l k))
        (Distinct-discard l k h.1)
  | no ne ↦
      rw
        (if_neg (address_discrete i k) ne (discard address_discrete l k)
          (i ∷ discard address_discrete l k))
        (ground (arith, mem-discard address_discrete l k i, h.0), Distinct-discard l k h.1)
]

Distinct-snoc :
    (l : List Key) (k : Key)
    → mem address_discrete l k ≡ false
    → Distinct l
    → Distinct (l ++ k ∷ [])
unfolding mem
Distinct-snoc [] k m h = ground arith
Distinct-snoc (i ∷ l) k m h = (
  ground (arith, mem-append address_discrete l (k ∷ []) i, h.0, m),
  Distinct-snoc l k (ground (arith, m)) h.1,
)

pub Distinct-use_key : (used : List Key) (k : Key) → Distinct used → Distinct (use_key used k)
Distinct-use_key used k h =
    Distinct-snoc (discard address_discrete used k) k
      (ground (arith, mem-discard address_discrete used k k)) (Distinct-discard used k h)

-- A key of the second part is not in the first.
apart :
    (l t : List Key) (k : Key)
    → Distinct (l ++ t)
    → mem address_discrete t k ≡ true
    → mem address_discrete l k ≡ false
unfolding mem
apart [] t k h m = refl
apart (i ∷ l) t k h m = ground (arith, apart l t k h.1 m, mem-append address_discrete l t i, h.0, m)

keys-remove :
    (d : Sockets) (k : Key)
    → keys (remove address_discrete d k) ≡ discard address_discrete (keys d) k
unfolding remove discard
keys-remove [] k = refl
keys-remove ((i, s) ∷ d) k = ground (arith, keys-remove d k)

keys-append : (d e : Sockets) → keys (d ++ e) ≡ keys d ++ keys e
keys-append [] e = refl
keys-append (x ∷ d) e = ap (λ l. x.0 ∷ l) (keys-append d e)

pub length-keys : (d : Sockets) → length (keys d) ≡ length d
length-keys [] = refl
length-keys (x ∷ d) = omega (arith, length-keys d)

length-discard :
    (l : List Key) (k : Key)
    → Distinct l
    → mem address_discrete l k ≡ true
    → suc (length (discard address_discrete l k)) ≡ length l
unfolding discard mem
length-discard [] k h m = absurd (ground arith)
length-discard (i ∷ l) k h m = elim (address_discrete i k) [
  | yes e ↦
      rw
        (
          if_pos (address_discrete i k) e (discard address_discrete l k)
              (i ∷ discard address_discrete l k),
          discard-missing l k (rw e at h.0),
        )
        refl
  | no ne ↦ ground (arith, length-discard l k h.1, m, ne)
]

pub Distinct-behind : (l t : List Key) → Distinct (l ++ t) → Distinct t
Distinct-behind [] t h = h
Distinct-behind (i ∷ l) t h = Distinct-behind l t h.1

module _ (front : List Key) (d : Sockets) (key : Key) (sock : Socket)
    (h : Distinct (front ++ keys d)) where
  -- A key of the cache that is used again goes to its end.
  pub use_key-known :
      has address_discrete d key ≡ true
      → use_key (front ++ keys d) key
        ≡ front ++ keys (remove address_discrete d key ++ (key, sock) ∷ [])
  use_key-known there =
      rw
        (
          discard-append front (keys d) key,
          discard-missing front key
              (apart front (keys d) key h (mem-keys address_discrete d key ∙ there)),
          keys-append (remove address_discrete d key) ((key, sock) ∷ []),
          keys-remove d key,
        )
        (append_assoc front (discard address_discrete (keys d) key) (key ∷ []))

  -- A key that is not in the cache may have been used before.
  pub use_key-new :
      get? address_discrete d key ≡ none
      → use_key (front ++ keys d) key
        ≡ discard address_discrete front key ++ keys (d ++ (key, sock) ∷ [])
  use_key-new missing =
      rw
        (
          discard-append front (keys d) key,
          discard-missing (keys d) key
              (mem-keys address_discrete d key ∙ has_of_none address_discrete d key missing),
          keys-append d ((key, sock) ∷ []),
        )
        (append_assoc (discard address_discrete front key) (keys d) (key ∷ []))

  pub length-known :
      has address_discrete d key ≡ true
      → length (remove address_discrete d key ++ (key, sock) ∷ []) ≡ length d
  length-known there = omega (
    arith,
    length-append (remove address_discrete d key) ((key, sock) ∷ []),
    length-keys (remove address_discrete d key),
    ap length (keys-remove d key),
    length-keys d,
    length-discard (keys d) key (Distinct-behind front (keys d) h)
        (mem-keys address_discrete d key ∙ there),
  )
