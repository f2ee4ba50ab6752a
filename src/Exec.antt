-- ===== src/Exec.antt =====
-- The sidecar's callbacks: each changes its process, and ends with a value or with a Python exception,
-- which undoes nothing.
use dead_nodes_tell_no_tales.Prelude.{List, [], ◌∷◌}
use dead_nodes_tell_no_tales.Outcome.{Error, Outcome, ok, raised}

abbrev pub Exec {ℓ κ} : Type ℓ → Type κ → Type (ℓ ⊔ κ)
Exec S A = S → Outcome A × S

module _ {ℓ κ} {S : Type ℓ} {A : Type κ} where
  unfoldable pub pure : A → Exec S A
  pure a s = (ok a, s)

  unfoldable pub raise : Error → Exec S A
  raise e s = (raised e, s)

  unfoldable pub lift : Outcome A → Exec S A
  lift r s = (r, s)

  unfoldable pub gets : (S → A) → Exec S A
  gets f s = (ok (f s), s)

module _ {ℓ} {S : Type ℓ} where
  unfoldable pub modify : (S → S) → Exec S (Unit {0})
  modify f s = (ok tt, f s)

module _ {ℓ κ μ} {S : Type ℓ} {A : Type κ} {B : Type μ} where
  -- What follows a statement runs only when that one has not raised.
  unfoldable pub continue : Outcome A → (A → Exec S B) → Exec S B
  continue (ok a) f s = f a s
  continue (raised e) f s = (raised e, s)

  infixl 10 ◌>>=◌ ◌>>◌
  unfoldable pub ◌>>=◌ : Exec S A → (A → Exec S B) → Exec S B
  unfolding continue pure raise lift gets modify
  ◌>>=◌ m f s = continue (m s).0 f (m s).1

  abbrev pub ◌>>◌ : Exec S A → Exec S B → Exec S B
  m >> k = m >>= λ _. k

-- for a in items: body(a)
unfoldable pub for_each {ℓ κ} :
    {S : Type ℓ} {A : Type κ} → List A → (A → Exec S (Unit {0})) → Exec S (Unit {0})
unfolding ◌>>=◌
for_each [] body = pure tt
for_each (a ∷ rest) body = body a >> for_each rest body
