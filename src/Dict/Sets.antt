-- ===== src/Dict/Sets.antt =====
-- Membership in a set after its operations.
use dead_nodes_tell_no_tales.Prelude.{
  List, [], ◌∷◌, ◌++◌, true, false, ◌||◌, ◌≡◌, refl, ite, if_pos, if_neg, arith, some, All, subst,
  sym,
}
use dead_nodes_tell_no_tales.Dict.{Dict, keys, get?, has, put, remove, mem, discard, add, union}

module _ {K : Type 0} (same : Discrete K) where
  pub mem-discard :
      (s : List K) (k j : K) → mem same (discard same s k) j ≡ ite (same k j) false (mem same s j)
  unfolding mem discard
  mem-discard [] k j = ground arith
  mem-discard (i ∷ s) k j = ground (arith, mem-discard s k j)

  pub mem-append : (s t : List K) (j : K) → mem same (s ++ t) j ≡ (mem same s j || mem same t j)
  unfolding mem
  mem-append [] t j = refl
  mem-append (i ∷ s) t j = ground (arith, mem-append s t j)

  pub mem-add :
      (s : List K) (k j : K) → mem same (add same s k) j ≡ ite (same k j) true (mem same s j)
  unfolding mem add
  mem-add s k j = ground (arith, mem-append s (k ∷ []) j)

  pub mem-union :
      (s t : List K) (j : K) → mem same (union same s t) j ≡ (mem same s j || mem same t j)
  unfolding mem union
  mem-union s [] j = ground arith
  mem-union s (k ∷ t) j = ground (arith, mem-union (add same s k) t j, mem-add s k j)

module _ {K V : Type 0} (same : Discrete K) where
  pub mem-keys : (d : Dict K V) (k : K) → mem same (keys d) k ≡ has same d k
  unfolding mem has
  mem-keys [] k = refl
  mem-keys ((j, v) ∷ d) k = ground (arith, mem-keys d k)

  -- What holds of each value holds of one that is looked up.
  pub All-get? :
      (P : V → Type 0) (d : Dict K V) (k : K) (v : V)
      → All (λ e. P e.1) d
      → get? same d k ≡ some v
      → P v
  unfolding get?
  All-get? P [] k v h e = absurd (ground arith)
  All-get? P ((j, w) ∷ d) k v h e = elim (same j k) [
    | yes p ↦ subst P (ground arith) h.0
    | no ne ↦ All-get? P d k v h.1 (ground arith)
  ]

  -- What holds of each entry holds of one that is looked up, written or left.
  pub All-entry :
      (P : K × V → Type 0) (d : Dict K V) (k : K) (v : V)
      → All P d
      → get? same d k ≡ some v
      → P (k, v)
  unfolding get?
  All-entry P [] k v h e = absurd (ground arith)
  All-entry P ((j, w) ∷ d) k v h e = elim (same j k) [
    | yes p ↦ subst P (ground arith) h.0
    | no ne ↦ All-entry P d k v h.1 (ground arith)
  ]

  pub All-put :
      (P : K × V → Type 0) (d : Dict K V) (k : K) (v : V)
      → All P d
      → P (k, v)
      → All P (put same d k v)
  unfolding put
  All-put P [] k v h p = (p, tt)
  All-put P ((j, w) ∷ d) k v h p = elim (same j k) [
    | yes e ↦
        rw (if_pos (same j k) e ((j, v) ∷ d) ((j, w) ∷ put same d k v))
          (subst (λ i. P (i, v)) (sym e) p, h.1)
    | no ne ↦
        rw (if_neg (same j k) ne ((j, v) ∷ d) ((j, w) ∷ put same d k v))
          (h.0, All-put P d k v h.1 p)
  ]

  pub All-remove : (P : K × V → Type 0) (d : Dict K V) (k : K) → All P d → All P (remove same d k)
  unfolding remove
  All-remove P [] k h = tt
  All-remove P ((j, w) ∷ d) k h = elim (same j k) [
    | yes e ↦
        rw (if_pos (same j k) e (remove same d k) ((j, w) ∷ remove same d k)) (All-remove P d k h.1)
    | no ne ↦
        rw (if_neg (same j k) ne (remove same d k) ((j, w) ∷ remove same d k))
          (h.0, All-remove P d k h.1)
  ]
