-- ===== src/Address/RoundTrip.antt =====
-- `inet_aton` behind `inet_ntoa`, as `_forward_intercepted` calls them.
use mathlib.Core.List.{append-nil, append_assoc}
use dead_nodes_tell_no_tales.Prelude.{
  ℕ, ◌+◌, ◌-◌, ◌*◌, ◌/◌, ◌%◌, ◌<◌, Text, true, false, some, [], ◌∷◌, ◌++◌, ltb, leb, ◌==◌, ◌&&◌,
  All, ◌≡◌, refl, sym, ap, ◌∙◌, arith, Bool-cases, inl, inr,
}
use dead_nodes_tell_no_tales.Outcome.{ok}
use dead_nodes_tell_no_tales.Config.{split, split_from}
use dead_nodes_tell_no_tales.Address.{
  byte_text, inet_ntoa, digits_value, part_value, four_values, parts_value, inet_aton,
}

abbrev NoDot : Text → Type 0
NoDot = All (λ c. (c == b'.') ≡ false)

split_from-part :
    (w part s : Text)
    → NoDot w
    → split_from b'.' part (w ++ b'.' ∷ s) ≡ (part ++ w) ∷ split_from b'.' [] s
unfolding split_from
split_from-part [] part s h = ap (λ p. p ∷ split_from b'.' [] s) (sym (append-nil part))
split_from-part (c ∷ w) part s h = rw h.0 (
    split_from-part w (part ++ c ∷ []) s h.1
    ∙ ap (λ p. p ∷ split_from b'.' [] s) (append_assoc part (c ∷ []) w))

split_from-last : (w part : Text) → NoDot w → split_from b'.' part w ≡ (part ++ w) ∷ []
unfolding split_from
split_from-last [] part h = ap (λ p. p ∷ []) (sym (append-nil part))
split_from-last (c ∷ w) part h =
    rw h.0
      (split_from-last w (part ++ c ∷ []) h.1 ∙ ap (λ p. p ∷ []) (append_assoc part (c ∷ []) w))

NoDot-byte_text : (n : ℕ) → NoDot (byte_text n)
unfolding byte_text
NoDot-byte_text n = elim (Bool-cases (ltb n 10)) [
  | inl e ↦ rw e (ground arith, tt)
  | inr e ↦ elim (Bool-cases (ltb n 100)) [
    | inl f ↦ rw (e, f) (ground arith, (ground arith, tt))
    | inr f ↦ rw (e, f) (ground arith, (ground arith, (ground arith, tt)))
  ]
]

digit-step :
    (n d : ℕ) (s : Text) → d < 10 → digits_value n ((48 + d) ∷ s) ≡ digits_value (n * 10 + d) s
unfolding digits_value
digit-step n d s h =
    let e : 48 + d - 48 ≡ d = omega arith in
    let is_digit : (leb 48 (48 + d) && leb (48 + d) 57) ≡ true = ground arith in
    rw (is_digit, e) refl

digits_end : (n k : ℕ) → n ≡ k → k < 256 → digits_value n [] ≡ some k
unfolding digits_value
digits_end n k e h = ground (arith, e, h)

part_value-byte_text : (n : ℕ) → n < 256 → part_value (byte_text n) ≡ some n
unfolding part_value byte_text
part_value-byte_text n h = elim (Bool-cases (ltb n 10)) [
  | inl e ↦ rw e (digit-step 0 n [] (ground (arith, e)) ∙ digits_end (0 * 10 + n) n (omega arith) h)
  | inr e ↦ elim (Bool-cases (ltb n 100)) [
    | inl f ↦
        rw (e, f)
          (digit-step 0 (n / 10) ((b'0' + n % 10) ∷ []) (ground (arith, f))
            ∙ (digit-step (0 * 10 + n / 10) (n % 10) [] (omega arith)
                ∙ digits_end ((0 * 10 + n / 10) * 10 + n % 10) n (omega arith) h))
    | inr f ↦
        rw (e, f)
          (digit-step 0 (n / 100) ((b'0' + n / 10 % 10) ∷ (b'0' + n % 10) ∷ []) (omega arith)
            ∙ (digit-step (0 * 10 + n / 100) (n / 10 % 10) ((b'0' + n % 10) ∷ []) (omega arith)
                ∙ (digit-step ((0 * 10 + n / 100) * 10 + n / 10 % 10) (n % 10) [] (omega arith)
                    ∙ digits_end (((0 * 10 + n / 100) * 10 + n / 10 % 10) * 10 + n % 10) n
                        (omega arith) h)))
  ]
]

abbrev dotted : Text → Text → Text → Text → Text
dotted v w x y = v ++ b'.' ∷ (w ++ b'.' ∷ (x ++ b'.' ∷ y))

split-dotted :
    (v w x y : Text)
    → NoDot v
    → NoDot w
    → NoDot x
    → NoDot y
    → split b'.' (dotted v w x y) ≡ v ∷ w ∷ x ∷ y ∷ []
unfolding split
split-dotted v w x y hv hw hx hy =
    split_from-part v [] (w ++ b'.' ∷ (x ++ b'.' ∷ y)) hv
    ∙ ap (◌∷◌ v) (
        split_from-part w [] (x ++ b'.' ∷ y) hw
        ∙ ap (◌∷◌ w) (split_from-part x [] y hx ∙ ap (◌∷◌ x) (split_from-last y [] hy)))

inet_aton-dotted :
    (v w x y : Text) (a b c d : ℕ)
    → split b'.' (dotted v w x y) ≡ v ∷ w ∷ x ∷ y ∷ []
    → part_value v ≡ some a
    → part_value w ≡ some b
    → part_value x ≡ some c
    → part_value y ≡ some d
    → inet_aton (dotted v w x y) ≡ ok (a ∷ b ∷ c ∷ d ∷ [])
unfolding inet_aton parts_value four_values
inet_aton-dotted v w x y a b c d parts pa pb pc pd = rw (parts, pa, pb, pc, pd) refl

-- Any four bytes come back from the text that they are printed as.
pub inet_aton-inet_ntoa :
    (a b c d : ℕ)
    → a < 256
    → b < 256
    → c < 256
    → d < 256
    → (ip : Text) × (inet_ntoa (a ∷ b ∷ c ∷ d ∷ []) ≡ ok ip)
      × (inet_aton ip ≡ ok (a ∷ b ∷ c ∷ d ∷ []))
unfolding inet_ntoa
inet_aton-inet_ntoa a b c d ha hb hc hd = (
  dotted (byte_text a) (byte_text b) (byte_text c) (byte_text d),
  refl,
  inet_aton-dotted (byte_text a) (byte_text b) (byte_text c) (byte_text d) a b c d
      (split-dotted (byte_text a) (byte_text b) (byte_text c) (byte_text d) (NoDot-byte_text a)
        (NoDot-byte_text b) (NoDot-byte_text c) (NoDot-byte_text d))
      (part_value-byte_text a ha) (part_value-byte_text b hb) (part_value-byte_text c hc)
      (part_value-byte_text d hd),
)
