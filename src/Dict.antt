-- ===== src/Dict.antt =====
-- Python's `dict`, with its insertion order: a new key goes to the end, and a write to a key that
-- is there keeps its place. A set of keys is a list without duplicates.
pub mod Laws
pub mod Sets
use dead_nodes_tell_no_tales.Prelude.{
  Option, none, some, Bool, true, false, List, [], ◌∷◌, ◌++◌, map, ite, if◌then◌else◌,
}

abbrev pub Dict {ℓ κ} : Type ℓ → Type κ → Type (ℓ ⊔ κ)
Dict K V = List (K × V)

module _ {ℓ κ} {K : Type ℓ} {V : Type κ} where
  abbrev pub keys : Dict K V → List K
  keys = map (λ e. e.0)

module _ {ℓ κ} {K : Type ℓ} {V : Type κ} (same : Discrete K) where
  -- d.get(k)
  unfoldable pub get? : Dict K V → K → Option V
  get? [] k = none
  get? ((j, v) ∷ d) k = ite (same j k) (some v) (get? d k)

  -- k in d
  unfoldable pub has : Dict K V → K → Bool
  has [] k = false
  has ((j, v) ∷ d) k = ite (same j k) true (has d k)

  -- d[k] = v
  unfoldable pub put : Dict K V → K → V → Dict K V
  put [] k v = (k, v) ∷ []
  put ((j, w) ∷ d) k v = ite (same j k) ((j, v) ∷ d) ((j, w) ∷ put d k v)

  -- d.pop(k), del d[k]
  unfoldable pub remove : Dict K V → K → Dict K V
  remove [] k = []
  remove ((j, w) ∷ d) k = let rest = remove d k in ite (same j k) rest ((j, w) ∷ rest)

-- d.get(k, default)
abbrev pub or_else {ℓ} : {V : Type ℓ} → V → Option V → V
or_else v none = v
or_else v (some w) = w

module _ {ℓ} {K : Type ℓ} (same : Discrete K) where
  -- k in s
  unfoldable pub mem : List K → K → Bool
  mem [] k = false
  mem (j ∷ s) k = ite (same j k) true (mem s k)

  -- s.discard(k), and [j for j in s if j != k]
  unfoldable pub discard : List K → K → List K
  discard [] k = []
  discard (j ∷ s) k = let rest = discard s k in ite (same j k) rest (j ∷ rest)

  -- s.add(k)
  unfoldable pub add : List K → K → List K
  unfolding mem
  add s k = if mem s k then s else s ++ k ∷ []

  -- s | set(t), and set(t) for an empty s
  unfoldable pub union : List K → List K → List K
  unfolding add
  union s [] = s
  union s (k ∷ t) = union (add s k) t
