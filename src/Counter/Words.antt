-- ===== src/Counter/Words.antt =====
-- Python's `text.split()`.
use dead_nodes_tell_no_tales.Prelude.{
  ℕ, zero, suc, ◌+◌, ◌/◌, ◌%◌, ◌<◌, ltb, some, ℤ, pos, negsuc, Text, Bool, true, false, ◌&&◌, ◌||◌,
  List, [], ◌∷◌, ◌++◌, leb, ◌==◌, if◌then◌else◌, ◌≡◌, ◌≢◌, refl, sym, ap, ◌∙◌, arith, All,
  Bool-cases, inl, inr,
}
use dead_nodes_tell_no_tales.Counter.Numerals.{
  read_digits, digits_within, digits, text_of, read_digits-digits,
}
use mathlib.Core.List.{append_assoc, append-nil}

-- The white space of Python's strings.
unfoldable pub is_white : ℕ → Bool
is_white c =
    (leb 9 c && leb c 13)
    || ((leb 28 c && leb c 32)
        || (c == 0x85
            || (c == 0xa0
                || (c == 0x1680
                    || ((leb 0x2000 c && leb c 0x200a)
                        || (c == 0x2028
                            || (c == 0x2029 || (c == 0x202f || (c == 0x205f || c == 0x3000)))))))))

-- A word that has ended goes in front of the others.
unfoldable pub end_word : Text → List Text → List Text
end_word [] words = words
end_word (c ∷ s) words = (c ∷ s) ∷ words

unfoldable pub words_from : Text → Text → List Text
unfolding is_white end_word
words_from word [] = end_word word []
words_from word (c ∷ s) =
    let next = words_from [] s in
    let more = words_from (word ++ c ∷ []) s in if is_white c then end_word word next else more

unfoldable pub split_words : Text → List Text
unfolding words_from
split_words s = words_from [] s

abbrev pub NoWhite : Text → Type 0
NoWhite = All (λ c. is_white c ≡ false)

-- A word: not empty, and without white space.
pub record IsWord (w : Text) : Type 0 where
  pub filled : w ≢ []
  pub solid : NoWhite w

words_from-word :
    (w word s : Text) → NoWhite w → words_from word (w ++ s) ≡ words_from (word ++ w) s
unfolding words_from
words_from-word [] word s h = ap (λ v. words_from v s) (sym (append-nil word))
words_from-word (c ∷ w) word s h = rw h.0 (
    words_from-word w (word ++ c ∷ []) s h.1
    ∙ ap (λ v. words_from v s) (append_assoc word (c ∷ []) w))

end_word-IsWord : (w : Text) (words : List Text) → IsWord w → end_word w words ≡ w ∷ words
unfolding end_word
end_word-IsWord [] words h = absurd (h.filled refl)
end_word-IsWord (c ∷ s) words h = refl

-- A word and a space in front of a text are one more word of it.
pub split_words-word : (w s : Text) → IsWord w → split_words (w ++ b' ' ∷ s) ≡ w ∷ split_words s
unfolding split_words
split_words-word w s h =
    words_from-word w [] (b' ' ∷ s) h.solid
    ∙ unfold words_from in end_word-IsWord w (words_from [] s) h

pub split_words-last : (w : Text) → IsWord w → split_words w ≡ w ∷ []
unfolding split_words
split_words-last w h =
    ap (words_from []) (sym (append-nil w))
    ∙ (words_from-word w [] [] h.solid ∙ unfold words_from in end_word-IsWord w [] h)

NoWhite-append : (s t : Text) → NoWhite s → NoWhite t → NoWhite (s ++ t)
NoWhite-append [] t h k = k
NoWhite-append (c ∷ s) t h k = (h.0, NoWhite-append s t h.1 k)

IsWord-end_word :
    (word : Text) (words : List Text)
    → NoWhite word
    → All IsWord words
    → All IsWord (end_word word words)
unfolding end_word
IsWord-end_word [] words h ws = ws
IsWord-end_word (c ∷ s) words h ws = (record { filled = λ e. ground (arith, e); solid = h }, ws)

IsWord-words_from : (s word : Text) → NoWhite word → All IsWord (words_from word s)
unfolding words_from
IsWord-words_from [] word h = IsWord-end_word word [] h tt
IsWord-words_from (c ∷ s) word h = elim (Bool-cases (is_white c)) [
  | inl e ↦ rw e (IsWord-end_word word (words_from [] s) h (IsWord-words_from s [] tt))
  | inr e ↦ rw e (IsWord-words_from s (word ++ c ∷ []) (NoWhite-append word (c ∷ []) h (e, tt)))
]

-- What `split` gives are words.
pub IsWord-split_words : (s : Text) → All IsWord (split_words s)
unfolding split_words
IsWord-split_words s = IsWord-words_from s [] tt

solid_digit : (d : ℕ) → d < 10 → is_white (b'0' + d) ≡ false
unfolding is_white
solid_digit d h = ground arith

NoWhite-digits_within :
    (fuel n : ℕ) (rest : Text) → NoWhite rest → NoWhite (digits_within fuel n rest)
unfolding digits_within
NoWhite-digits_within zero n rest h = h
NoWhite-digits_within (suc fuel) n rest h = elim (Bool-cases (ltb n 10)) [
  | inl e ↦ rw e (solid_digit n (ground (arith, e)), h)
  | inr e ↦ rw e (
      NoWhite-digits_within fuel (n / 10) ((b'0' + n % 10) ∷ rest)
        (solid_digit (n % 10) (omega arith), h))
]

digits-filled : (n : ℕ) → digits n ≢ []
unfolding read_digits
digits-filled n e =
    let none_read : read_digits true 0 [] ≡ some n =
      ap (read_digits true 0) (sym e) ∙ read_digits-digits n in
    ground (arith, none_read)

-- A printed integer is a word.
pub IsWord-text_of : (x : ℤ) → IsWord (text_of x)
unfolding text_of digits
IsWord-text_of (pos n) = record {
  filled = digits-filled n;
  solid = NoWhite-digits_within (suc n) n [] tt;
}
IsWord-text_of (negsuc n) = record {
  filled = λ e. ground (arith, e);
  solid = (unfold is_white in refl, NoWhite-digits_within (suc (suc n)) (suc n) [] tt);
}
