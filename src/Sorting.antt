-- ===== src/Sorting.antt =====
-- `list.sort(key=...)` and `sorted(...)`: a stable sort, as an insertion sort.
pub mod Laws
use dead_nodes_tell_no_tales.Prelude.{
  ℕ, Text, Bool, true, false, List, [], ◌∷◌, if◌then◌else◌, ltb, ◌==◌,
}

module _ {ℓ} {A : Type ℓ} (le : A → A → Bool) where
  unfoldable pub insert_before : A → List A → List A
  insert_before x [] = x ∷ []
  insert_before x (y ∷ ys) =
      let rest = insert_before x ys in if le x y then x ∷ y ∷ ys else y ∷ rest

  unfoldable pub sort_by : List A → List A
  unfolding insert_before
  sort_by [] = []
  sort_by (x ∷ xs) = insert_before x (sort_by xs)

-- The order of Python's strings, by code points.
unfoldable pub text_le : Text → Text → Bool
text_le [] t = true
text_le (c ∷ s) [] = false
text_le (c ∷ s) (d ∷ t) =
    let rest = text_le s t in if ltb c d then true else if c == d then rest else false
