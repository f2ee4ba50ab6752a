-- ===== src/Prelude.antt =====
-- The names that the other modules share: the libraries', passed on, and those of two children.
mod Tests
mod Lists
mod Int
pub use Tests.*
pub use Lists.*
pub use Int.*
pub use Prim.Native.Nat.{ℕ, zero, suc, ◌+◌, ◌-◌, ◌*◌, ◌/◌, ◌%◌, ◌^◌, ◌≤◌, ◌<◌}
pub use Prim.Native.Char.{code}
pub use Prim.Native.String.{String}
pub use mathlib.Core.Path.{◌≡◌, refl, sym, ap, subst, ◌∙◌}
pub use mathlib.Core.Logic.{◌≢◌, ◌↔◌, ◌⊎◌, inl, inr, ite, if_pos, if_neg}
pub use mathlib.Core.Bool.{Bool, true, false, not, ◌&&◌, ◌||◌}
pub use mathlib.Core.Option.{Option, none, some}
pub use mathlib.Core.List.{List, [], ◌∷◌, ◌++◌, map}
pub use native.Mathlib.Omega.{arith}
unfoldable pub use native.Mathlib.Decide.{dec_lt, ℕ_discrete}

-- Byte strings and texts, by their bytes and code points.
abbrev pub Bytes : Type 0
Bytes = List ℕ

abbrev pub Text : Type 0
Text = List ℕ

-- A literal, by its code points.
abbrev pub codes : String → List ℕ
codes String.[] = []
codes (String.◌∷◌ c s) = code c ∷ codes s

-- Each item of a list satisfies a predicate.
abbrev pub All {ℓ κ} : {A : Type ℓ} → (A → Type κ) → List A → Type κ
All P [] = Unit
All P (x ∷ xs) = P x × All P xs

infix 40 ◌∈◌
abbrev pub ◌∈◌ : {A : Type 0} → A → List A → Type 0
a ∈ [] = ⊥
a ∈ (b ∷ l) = (a ≡ b) ⊎ a ∈ l

pub All-∈ {κ} : {A : Type 0} (P : A → Type κ) (l : List A) (a : A) → All P l → a ∈ l → P a
All-∈ P [] a h i = absurd i
All-∈ P (b ∷ l) a (p, ps) (inl e) = subst P (sym e) p
All-∈ P (b ∷ l) a (p, ps) (inr i) = All-∈ P l a ps i

pub All-append {ℓ κ} :
    {A : Type ℓ} (P : A → Type κ) (l t : List A) → All P l → All P t → All P (l ++ t)
All-append P [] t h i = i
All-append P (a ∷ l) t h i = (h.0, All-append P l t h.1 i)

pub All-map {ℓ κ μ} :
    {A : Type ℓ} (P : A → Type κ) (Q : A → Type μ) (l : List A)
    → ((a : A) → P a → Q a)
    → All P l
    → All Q l
All-map P Q [] f h = tt
All-map P Q (a ∷ l) f h = (f a h.0, All-map P Q l f h.1)

unfoldable pub text_discrete : Discrete Text
text_discrete = hlevel ℕ_discrete

unfoldable pub address_discrete : Discrete (Text × ℕ)
unfolding text_discrete
address_discrete = hlevel (text_discrete, ℕ_discrete)

test_prefix : starts_with (codes "ab") (codes "abc") ≡ true
test_prefix = refl

test_eq : ite (text_discrete (codes "10.24.24.10") (codes "10.24.24.10")) true false ≡ true
unfolding text_discrete ℕ_discrete
test_eq = refl
