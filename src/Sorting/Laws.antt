-- ===== src/Sorting/Laws.antt =====
-- The result of a sort.
use mathlib.Core.List.{Perm}
use mathlib.Core.List.Perm
use dead_nodes_tell_no_tales.Prelude.{
  Bool, true, false, List, [], ◌∷◌, ◌≡◌, refl, Bool-cases, inl, inr, All,
}
use dead_nodes_tell_no_tales.Sorting.{insert_before, sort_by}

module _ {ℓ} {A : Type ℓ} (le : A → A → Bool) where
  insert_before-perm : (x : A) (ys : List A) → Perm (insert_before le x ys) (x ∷ ys)
  unfolding insert_before
  insert_before-perm x [] = Perm.refl (x ∷ [])
  insert_before-perm x (y ∷ ys) = elim (Bool-cases (le x y)) [
    | inl e ↦ rw e (Perm.refl (x ∷ y ∷ ys))
    | inr e ↦ rw e (Perm.trans (Perm.cons y (insert_before-perm x ys)) (Perm.swap x y ys))
  ]

  -- The sorted list holds the same items, each as often.
  pub sort_by-perm : (xs : List A) → Perm (sort_by le xs) xs
  unfolding sort_by
  sort_by-perm [] = Perm.refl []
  sort_by-perm (x ∷ xs) =
      Perm.trans (insert_before-perm x (sort_by le xs)) (Perm.cons x (sort_by-perm xs))

module _ {A : Type 0} (le : A → A → Bool) where
  -- Each item is below all that come after it.
  abbrev pub IsSorted : List A → Type 0
  IsSorted [] = Unit
  IsSorted (x ∷ xs) = All (λ y. le x y ≡ true) xs × IsSorted xs

  module _ (total : (x y : A) → le x y ≡ false → le y x ≡ true)
      (transitive : (x y z : A) → le x y ≡ true → le y z ≡ true → le x z ≡ true) where
    All-mono :
        (x y : A) (ys : List A)
        → le x y ≡ true
        → All (λ z. le y z ≡ true) ys
        → All (λ z. le x z ≡ true) ys
    All-mono x y [] h k = tt
    All-mono x y (z ∷ ys) h k = (transitive x y z h k.0, All-mono x y ys h k.1)

    All-insert_before :
        (w x : A) (ys : List A)
        → le w x ≡ true
        → All (λ z. le w z ≡ true) ys
        → All (λ z. le w z ≡ true) (insert_before le x ys)
    unfolding insert_before
    All-insert_before w x [] h k = (h, tt)
    All-insert_before w x (y ∷ ys) h k = elim (Bool-cases (le x y)) [
      | inl e ↦ rw e (h, k)
      | inr e ↦ rw e (k.0, All-insert_before w x ys h k.1)
    ]

    insert_before-IsSorted : (x : A) (ys : List A) → IsSorted ys → IsSorted (insert_before le x ys)
    unfolding insert_before
    insert_before-IsSorted x [] h = (tt, tt)
    insert_before-IsSorted x (y ∷ ys) h = elim (Bool-cases (le x y)) [
      | inl e ↦ rw e ((e, All-mono x y ys e h.0), h)
      | inr e ↦ rw e (All-insert_before y x ys (total x y e) h.0, insert_before-IsSorted x ys h.1)
    ]

    pub sort_by-IsSorted : (xs : List A) → IsSorted (sort_by le xs)
    unfolding sort_by
    sort_by-IsSorted [] = tt
    sort_by-IsSorted (x ∷ xs) = insert_before-IsSorted x (sort_by le xs) (sort_by-IsSorted xs)

  -- A list in order is not changed.
  insert_before-head :
      (x : A) (ys : List A) → All (λ y. le x y ≡ true) ys → insert_before le x ys ≡ x ∷ ys
  unfolding insert_before
  insert_before-head x [] h = refl
  insert_before-head x (y ∷ ys) h = rw h.0

  pub sort_by_of_IsSorted : (xs : List A) → IsSorted xs → sort_by le xs ≡ xs
  unfolding sort_by
  sort_by_of_IsSorted [] h = refl
  sort_by_of_IsSorted (x ∷ xs) h = rw (sort_by_of_IsSorted xs h.1) (insert_before-head x xs h.0)

module _ {ℓ κ} {A : Type ℓ} (P : A → Type κ) (le : A → A → Bool) where
  All-insert : (x : A) (ys : List A) → P x → All P ys → All P (insert_before le x ys)
  unfolding insert_before
  All-insert x [] h k = (h, tt)
  All-insert x (y ∷ ys) h k = elim (Bool-cases (le x y)) [
    | inl e ↦ rw e (h, k)
    | inr e ↦ rw e (k.0, All-insert x ys h k.1)
  ]

  -- What holds of all items holds of all sorted items.
  pub All-sort_by : (xs : List A) → All P xs → All P (sort_by le xs)
  unfolding sort_by
  All-sort_by [] h = tt
  All-sort_by (x ∷ xs) h = All-insert x (sort_by le xs) h.0 (All-sort_by xs h.1)
