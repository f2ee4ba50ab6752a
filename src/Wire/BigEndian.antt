-- ===== src/Wire/BigEndian.antt =====
-- The numbers of fixed width in a header.
use native.Mathlib.Nat.{pow-suc}
use dead_nodes_tell_no_tales.Prelude.{
  ℕ, zero, suc, ◌+◌, ◌*◌, ◌/◌, ◌%◌, ◌^◌, ◌<◌, Bytes, [], ◌∷◌, ◌++◌, ◌≡◌, refl, ◌∙◌, arith, length,
  length-append,
}
use dead_nodes_tell_no_tales.Wire.{to_be, from_be}

pub length-to_be : (w n : ℕ) → length (to_be w n) ≡ w
unfolding to_be
length-to_be zero n = refl
length-to_be (suc w) n =
    omega (arith, length-append (to_be w (n / 256)) ((n % 256) ∷ []), length-to_be w (n / 256))

from_be-append : (acc b : ℕ) (s : Bytes) → from_be acc (s ++ b ∷ []) ≡ from_be acc s * 256 + b
unfolding from_be
from_be-append acc b [] = refl
from_be-append acc b (c ∷ s) = from_be-append (acc * 256 + c) b s

below_div : (w n : ℕ) → n < 256 ^ suc w → n / 256 < 256 ^ w
below_div w n h = let e : 256 ^ suc w ≡ 256 ^ w * 256 = pow-suc 256 w in omega arith

-- A number that fits comes back.
pub from_be-to_be : (w n : ℕ) → n < 256 ^ w → from_be 0 (to_be w n) ≡ n
unfolding from_be to_be
from_be-to_be zero n h = omega arith
from_be-to_be (suc w) n h =
    from_be-append 0 (n % 256) (to_be w (n / 256))
    ∙ omega (arith, from_be-to_be w (n / 256) (below_div w n h))
