-- ===== src/Counter/Numerals.antt =====
-- Python's `int(text)`, on ASCII digits, and `f"{n}"`.
use dead_nodes_tell_no_tales.Prelude.{
  ℕ, zero, suc, ◌+◌, ◌-◌, ◌*◌, ◌/◌, ◌%◌, ◌<◌, Text, Bool, true, false, not, ◌&&◌, Option, none,
  some, [], ◌∷◌, ltb, leb, ◌==◌, if◌then◌else◌, ◌≡◌, refl, ap, ◌∙◌, arith, Bool-cases, inl, inr, ℤ,
  pos, negsuc,
}
use dead_nodes_tell_no_tales.Outcome.{Outcome, ok, raised, value_error}

unfoldable pub is_digit : ℕ → Bool
is_digit c = leb b'0' c && leb c b'9'

-- The value of digits behind the number `n`; a single underscore may stand between two digits, so a
-- digit is awaited at the start and behind one.
unfoldable pub read_digits : Bool → ℕ → Text → Option ℕ
unfolding is_digit
read_digits awaited n [] = if awaited then none else some n
read_digits awaited n (c ∷ s) =
    let next = read_digits false (n * 10 + (c - b'0')) s in
    let behind = read_digits true n s in
    if is_digit c then next else if c == b'_' && not awaited then behind else none

unfoldable pub negated : ℕ → ℤ
negated zero = pos 0
negated (suc n) = negsuc n

unfoldable pub signed : (ℕ → ℤ) → Option ℕ → Outcome ℤ
signed sign none = raised value_error
signed sign (some n) = ok (sign n)

-- int(text), of a text without white space
unfoldable pub int_of : Text → Outcome ℤ
unfolding read_digits signed negated
int_of [] = raised value_error
int_of (c ∷ s) =
    if c == b'-'
    then signed negated (read_digits true 0 s)
    else if c == b'+'
    then signed pos (read_digits true 0 s)
    else signed pos (read_digits true 0 (c ∷ s))

-- The decimal digits of a number in front of a text. A number has fewer digits than its value plus
-- one.
unfoldable pub digits_within : ℕ → ℕ → Text → Text
digits_within zero n rest = rest
digits_within (suc fuel) n rest =
    let more = digits_within fuel (n / 10) ((b'0' + n % 10) ∷ rest) in
    if ltb n 10 then (b'0' + n) ∷ rest else more

unfoldable pub digits : ℕ → Text
unfolding digits_within
digits n = digits_within (suc n) n []

unfoldable pub text_of : ℤ → Text
unfolding digits
text_of (pos n) = digits n
text_of (negsuc n) = b'-' ∷ digits (suc n)

read_digit :
    (awaited : Bool) (n d : ℕ) (s : Text)
    → d < 10
    → read_digits awaited n ((b'0' + d) ∷ s) ≡ read_digits false (n * 10 + d) s
unfolding read_digits is_digit
read_digit awaited n d s h =
    let e : 48 + d - 48 ≡ d = omega arith in
    let yes_digit : (leb 48 (48 + d) && leb (48 + d) 57) ≡ true = ground arith in
    rw (yes_digit, e) refl

read_digits-digits_within :
    (fuel n : ℕ) (rest : Text)
    → n < fuel
    → read_digits true 0 (digits_within fuel n rest) ≡ read_digits false n rest
unfolding digits_within
read_digits-digits_within zero n rest h = absurd (omega arith)
read_digits-digits_within (suc fuel) n rest h = elim (Bool-cases (ltb n 10)) [
  | inl e ↦ rw e (
      read_digit true 0 n rest (ground (arith, e))
      ∙ ap (λ k. read_digits false k rest) (omega arith))
  | inr e ↦ rw e (
      read_digits-digits_within fuel (n / 10) ((b'0' + n % 10) ∷ rest) (ground (arith, e))
      ∙ (read_digit false (n / 10) (n % 10) rest (omega arith)
          ∙ ap (λ k. read_digits false k rest) (omega arith)))
]

pub read_digits-digits : (n : ℕ) → read_digits true 0 (digits n) ≡ some n
unfolding digits read_digits
read_digits-digits n = read_digits-digits_within (suc n) n [] (omega arith)

int_of-read_digits : (s : Text) (n : ℕ) → read_digits true 0 s ≡ some n → int_of s ≡ ok (pos n)
unfolding int_of read_digits is_digit signed
int_of-read_digits [] n h = absurd (ground arith)
int_of-read_digits (c ∷ s) n h = ground (arith, h)

-- Printing an integer and reading it gives it back.
pub int_of-text_of : (x : ℤ) → int_of (text_of x) ≡ ok x
unfolding text_of
int_of-text_of (pos n) = int_of-read_digits (digits n) n (read_digits-digits n)
int_of-text_of (negsuc n) = unfold int_of signed negated in rw (read_digits-digits (suc n)) refl
