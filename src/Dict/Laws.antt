-- ===== src/Dict/Laws.antt =====
-- What can be read of a dictionary after a write.
use dead_nodes_tell_no_tales.Prelude.{
  suc, ◌≤◌, none, some, true, false, [], ◌∷◌, ◌≡◌, refl, ite, arith, length, Option-cases, inl, inr,
}
use dead_nodes_tell_no_tales.Dict.{Dict, get?, has, put, remove}

module _ {K V : Type 0} (same : Discrete K) where
  pub get?-put :
      (d : Dict K V) (k : K) (v : V) (j : K)
      → get? same (put same d k v) j ≡ ite (same k j) (some v) (get? same d j)
  unfolding get? put
  get?-put [] k v j = refl
  get?-put ((i, w) ∷ d) k v j = ground (arith, get?-put d k v j)

  pub get?-remove :
      (d : Dict K V) (k j : K) → get? same (remove same d k) j ≡ ite (same k j) none (get? same d j)
  unfolding get? remove
  get?-remove [] k j = ground arith
  get?-remove ((i, w) ∷ d) k j = ground (arith, get?-remove d k j)

  pub has_of_get? : (d : Dict K V) (k : K) (v : V) → get? same d k ≡ some v → has same d k ≡ true
  unfolding get? has
  has_of_get? [] k v h = ground arith
  has_of_get? ((i, w) ∷ d) k v h = ground (arith, has_of_get? d k v)

  pub has_of_none : (d : Dict K V) (k : K) → get? same d k ≡ none → has same d k ≡ false
  unfolding get? has
  has_of_none [] k h = refl
  has_of_none ((i, w) ∷ d) k h = ground (arith, has_of_none d k)

  pub get?_of_has :
      (d : Dict K V) (k : K) → has same d k ≡ true → (v : V) × (get? same d k ≡ some v)
  get?_of_has d k h = elim (Option-cases (get? same d k)) [
    | inl e ↦ absurd (ground (arith, has_of_none d k e))
    | inr found ↦ found
  ]

  pub none_of_has : (d : Dict K V) (k : K) → has same d k ≡ false → get? same d k ≡ none
  unfolding get? has
  none_of_has [] k h = refl
  none_of_has ((i, w) ∷ d) k h = ground (arith, none_of_has d k)

  pub has-put :
      (d : Dict K V) (k : K) (v : V) (j : K)
      → has same (put same d k v) j ≡ ite (same k j) true (has same d j)
  unfolding has put
  has-put [] k v j = refl
  has-put ((i, w) ∷ d) k v j = ground (arith, has-put d k v j)

  pub has-remove :
      (d : Dict K V) (k j : K) → has same (remove same d k) j ≡ ite (same k j) false (has same d j)
  unfolding has remove
  has-remove [] k j = ground arith
  has-remove ((i, w) ∷ d) k j = ground (arith, has-remove d k j)

  pub put-put : (d : Dict K V) (k : K) (v w : V) → put same (put same d k v) k w ≡ put same d k w
  unfolding put
  put-put [] k v w = ground arith
  put-put ((i, x) ∷ d) k v w = ground (arith, put-put d k v w)

  length-remove-le : (d : Dict K V) (k : K) → length (remove same d k) ≤ length d
  unfolding remove
  length-remove-le [] k = omega arith
  length-remove-le ((i, w) ∷ d) k = ground (arith, length-remove-le d k)

  -- an entry taken out makes the dictionary shorter
  pub length-remove :
      (d : Dict K V) (k : K) → has same d k ≡ true → suc (length (remove same d k)) ≤ length d
  unfolding has remove
  length-remove [] k h = absurd (ground arith)
  length-remove ((i, w) ∷ d) k h = ground (arith, length-remove d k, length-remove-le d k)
