-- ===== src/Address.antt =====
-- IPv4 addresses as `socket.inet_ntoa`, `socket.inet_aton` and `ipaddress` treat them. Of the texts
-- that `inet_aton` accepts only those of four decimal parts are modelled: it is called on nothing but
-- the results of `inet_ntoa`.
pub mod RoundTrip
use dead_nodes_tell_no_tales.Prelude.{
  ℕ, ◌+◌, ◌-◌, ◌*◌, ◌/◌, ◌%◌, Bytes, Text, Bool, List, [], ◌∷◌, ◌++◌, ltb, leb, ◌==◌, ◌&&◌,
  if◌then◌else◌, Option, none, some,
}
use dead_nodes_tell_no_tales.Outcome.{Outcome, ok, raised, os_error, ◌>>=◌}
use dead_nodes_tell_no_tales.Config.{split, mesh_network, mesh_network_size}
use dead_nodes_tell_no_tales.Wire.{from_be}

-- A byte in decimal.
unfoldable pub byte_text : ℕ → Text
byte_text n =
    if ltb n 10
    then (48 + n) ∷ []
    else if ltb n 100
    then (48 + n / 10) ∷ (48 + n % 10) ∷ []
    else (48 + n / 100) ∷ (48 + n / 10 % 10) ∷ (48 + n % 10) ∷ []

unfoldable pub inet_ntoa : Bytes → Outcome Text
unfolding byte_text
inet_ntoa (a ∷ b ∷ c ∷ d ∷ []) =
    ok (byte_text a ++ (b'.' ∷ (byte_text b ++ (b'.' ∷ (byte_text c ++ (b'.' ∷ byte_text d))))))
inet_ntoa _ = raised os_error

-- The value of decimal digits that follow the number `n`; a part over 255 is refused.
unfoldable pub digits_value : ℕ → Text → Option ℕ
digits_value n [] = if ltb n 256 then some n else none
digits_value n (c ∷ s) =
    let rest = digits_value (n * 10 + (c - 48)) s in if leb 48 c && leb c 57 then rest else none

unfoldable pub part_value : Text → Option ℕ
unfolding digits_value
part_value [] = none
part_value (c ∷ s) = digits_value 0 (c ∷ s)

unfoldable pub four_values : Option ℕ → Option ℕ → Option ℕ → Option ℕ → Outcome Bytes
four_values (some a) (some b) (some c) (some d) = ok (a ∷ b ∷ c ∷ d ∷ [])
four_values _ _ _ _ = raised os_error

unfoldable pub parts_value : List Text → Outcome Bytes
unfolding part_value four_values
parts_value (a ∷ b ∷ c ∷ d ∷ []) =
    four_values (part_value a) (part_value b) (part_value c) (part_value d)
parts_value _ = raised os_error

unfoldable pub inet_aton : Text → Outcome Bytes
unfolding parts_value split
inet_aton s = parts_value (split b'.' s)

-- ipaddress.ip_address(...) in self.mesh_network
unfoldable pub in_mesh : Text → Outcome Bool
in_mesh ip = do
  address ← inet_aton ip
  let n = from_be 0 address
  ok (n - n % mesh_network_size == mesh_network)
