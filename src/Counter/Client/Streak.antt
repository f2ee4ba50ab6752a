-- ===== src/Counter/Client/Streak.antt =====
-- As many good polls in a row as are needed.
use dead_nodes_tell_no_tales.Prelude.{
  ℕ, zero, suc, ◌+◌, ◌<◌, Bool, true, false, List, [], ◌∷◌, ◌++◌, drop, length, leb, if◌then◌else◌,
  ◌≡◌, refl, sym, ap, ◌∙◌, arith, ◌↔◌, Bool-cases, inl, inr, length-append,
}
use mathlib.Core.List.{append_assoc}

abbrev pub trues : ℕ → List Bool
trues zero = []
trues (suc n) = true ∷ trues n

-- A stretch of so many good polls, with any polls in front of it and behind it.
pub record HasStreak (needed : ℕ) (polls : List Bool) : Type 0 where
  pub before : List Bool
  pub after : List Bool
  pub split : polls ≡ before ++ (trues needed ++ after)

-- What the loop computes, with the number of good polls up to here.
abbrev pub verdict : ℕ → ℕ → List Bool → Bool
verdict needed stable [] = false
verdict needed stable (good ∷ polls) =
    let now = if good then stable + 1 else 0 in
    let later = verdict needed now polls in if leb needed now then true else later

trues-snoc : (k : ℕ) (polls : List Bool) → trues k ++ true ∷ polls ≡ trues (k + 1) ++ polls
trues-snoc zero polls = refl
trues-snoc (suc k) polls =
    let e : suc k + 1 ≡ suc (k + 1) = omega arith in rw e (ap (λ l. true ∷ l) (trues-snoc k polls))

length-trues : (k : ℕ) → length (trues k) ≡ k
length-trues zero = refl
length-trues (suc k) = omega (arith, length-trues k)

HasStreak-behind :
    (needed : ℕ) (front polls : List Bool)
    → HasStreak needed polls
    → HasStreak needed (front ++ polls)
HasStreak-behind needed front polls h = record {
  before = front ++ h.before;
  after = h.after;
  split =
      ap (λ l. front ++ l) h.split ∙ sym (append_assoc front h.before (trues needed ++ h.after));
}

HasStreak-verdict :
    (needed stable : ℕ) (polls : List Bool)
    → stable < needed
    → verdict needed stable polls ≡ true
    → HasStreak needed (trues stable ++ polls)
HasStreak-verdict needed stable [] lt h = absurd (ground arith)
HasStreak-verdict needed stable (false ∷ polls) lt h =
    HasStreak-behind needed (trues stable) (false ∷ polls) (
      HasStreak-behind needed (false ∷ []) polls
        (HasStreak-verdict needed 0 polls (omega arith) (ground (arith, h))))
HasStreak-verdict needed stable (true ∷ polls) lt h =
    rw (trues-snoc stable polls) (elim (Bool-cases (leb needed (stable + 1))) [
      | inl e ↦ record {
        before = [];
        after = polls;
        split = ap (λ k. trues k ++ polls) (ground (arith, e));
      }
      | inr e ↦
          HasStreak-verdict needed (stable + 1) polls (ground (arith, e)) (ground (arith, e, h))
    ])

-- A streak does not begin among fewer good polls with a bad one behind them.
no_front :
    (needed stable : ℕ) (after polls : List Bool)
    → stable < needed
    → trues needed ++ after ≡ trues stable ++ false ∷ polls
    → ⊥
no_front zero stable after polls lt e = omega arith
no_front (suc n) zero after polls lt e = ground (arith, e)
no_front (suc n) (suc k) after polls lt e = no_front n k after polls (omega arith) (ap (drop 1) e)

behind_bad :
    (needed stable : ℕ) (before after polls : List Bool)
    → stable < needed
    → trues stable ++ false ∷ polls ≡ before ++ (trues needed ++ after)
    → HasStreak needed polls
behind_bad needed stable [] after polls lt e =
    absurd (no_front needed stable after polls lt (sym e))
behind_bad needed zero (b ∷ before) after polls lt e = record {
  before = before;
  after = after;
  split = ap (drop 1) e;
}
behind_bad needed (suc k) (b ∷ before) after polls lt e =
    behind_bad needed k before after polls (omega arith) (ap (drop 1) e)

verdict-HasStreak :
    (needed stable : ℕ) (polls : List Bool)
    → stable < needed
    → HasStreak needed (trues stable ++ polls)
    → verdict needed stable polls ≡ true
verdict-HasStreak needed stable [] lt h = absurd (
    omega (
      arith,
      ap length h.split,
      length-append (trues stable) [],
      length-append h.before (trues needed ++ h.after),
      length-append (trues needed) h.after,
      length-trues stable,
      length-trues needed,
    ))
verdict-HasStreak needed stable (false ∷ polls) lt h = ground (
  arith,
  verdict-HasStreak needed 0 polls (omega arith)
      (behind_bad needed stable h.before h.after polls lt h.split),
)
verdict-HasStreak needed stable (true ∷ polls) lt h = elim (Bool-cases (leb needed (stable + 1))) [
  | inl e ↦ rw e refl
  | inr e ↦ rw e (
      verdict-HasStreak needed (stable + 1) polls (ground (arith, e))
        (rw (trues-snoc stable polls) at h))
]

pub verdict_iff :
    (needed : ℕ) (polls : List Bool)
    → 0 < needed
    → (verdict needed 0 polls ≡ true) ↔ HasStreak needed polls
verdict_iff needed polls lt =
    (HasStreak-verdict needed 0 polls lt, verdict-HasStreak needed 0 polls lt)
