-- ===== src/Network/Names.antt =====
-- The names that become parts of paths: units and lease tokens.
use sower.Prelude.{◌≡◌, refl, true, false, [], ◌∷◌, Text, all, has_byte, length, arith, ltb}
use sower.Policy.{valid_unit, is_unit_byte}
use sower.Network.Lease.{valid_token, is_lower_hex}

unit_bytes-no_slash : (unit : Text) → all is_unit_byte unit ≡ true → has_byte b'/' unit ≡ false
unfolding is_unit_byte
unit_bytes-no_slash [] h = refl
unit_bytes-no_slash (c ∷ unit) h = ground (arith, unit_bytes-no_slash unit)

hex-no_slash : (token : Text) → all is_lower_hex token ≡ true → has_byte b'/' token ≡ false
unfolding is_lower_hex
hex-no_slash [] h = refl
hex-no_slash (c ∷ token) h = ground (arith, hex-no_slash token)

-- A valid unit name has no slash and more than 8 bytes: as a part of a path it is one component, and not `..`.
valid_unit_lem :
    (unit : Text)
    → valid_unit unit ≡ true
    → (has_byte b'/' unit ≡ false) × (ltb 8 (length unit) ≡ true)
unfolding valid_unit
valid_unit_lem unit h = ground (arith, unit_bytes-no_slash unit)

-- A valid lease token has no slash and exactly 32 bytes: as a part of a path it is one component.
valid_token_lem :
    (token : Text) → valid_token token ≡ true → (has_byte b'/' token ≡ false) × (length token ≡ 32)
unfolding valid_token
valid_token_lem token h = ground (arith, hex-no_slash token)
