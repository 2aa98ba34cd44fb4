-- ===== src/Prelude/Numbers.antt =====
-- Reading and printing of machine integers as `str::parse`, `Display` and `{:02x}` do it.
use Prim.Native.Nat.{ℕ, zero, suc, ◌+◌, ◌-◌, ◌*◌, ◌/◌, ◌%◌, ◌≤◌, ◌<◌}
use mathlib.Core.Path.{◌≡◌}
use mathlib.Core.Bool.{Bool, true, ◌&&◌}
use mathlib.Core.List.{[], ◌∷◌, ◌++◌}
use mathlib.Core.Option.{Option, none, some}
use native.Mathlib.Omega.{arith}
use sower.Prelude.Tests.{◌==◌, leb, ltb, if◌then◌else◌}
use sower.Prelude.Integers.{ℤ, pos, negate}
use sower.Prelude.Bytes.{Text, is_digit}

abbrev pub u8_max : ℕ
u8_max = 255

abbrev pub u16_max : ℕ
u16_max = 65535

abbrev pub u32_max : ℕ
u32_max = 4294967295

abbrev pub u64_max : ℕ
u64_max = 18446744073709551615

-- The digits of `from_str_radix(_, 10)`: a digit that is none, or a value past `max`, is an error.
unfoldable pub parse_digits : ℕ → ℕ → Text → Option ℕ
unfolding is_digit
parse_digits max acc [] = some acc
parse_digits max acc (c ∷ s) =
    let n = acc * 10 + (c - 48) in
    let rest = parse_digits max n s in if is_digit c && leb n max then rest else none

abbrev parse_some_digits : ℕ → Text → Option ℕ
parse_some_digits max [] = none
parse_some_digits max (c ∷ s) = parse_digits max 0 (c ∷ s)

-- `parse` at an unsigned type with the largest value `max`; one leading `+` is accepted.
unfoldable pub parse_uint : ℕ → Text → Option ℕ
unfolding parse_digits
parse_uint max [] = none
parse_uint max (c ∷ s) =
    if c == b'+' then parse_some_digits max s else parse_some_digits max (c ∷ s)

-- `parse` at `i32`; a leading `-` is accepted as well.
abbrev signed : Option ℕ → Option ℤ
signed none = none
signed (some n) = some (negate (pos n))

abbrev unsigned : Option ℕ → Option ℤ
unsigned none = none
unsigned (some n) = some (pos n)

unfoldable pub parse_int : Text → Option ℤ
unfolding parse_uint
parse_int [] = none
parse_int (c ∷ s) =
    if c == b'-'
    then signed (parse_some_digits 2147483648 s)
    else unsigned (parse_uint 2147483647 (c ∷ s))

-- A parsed number is at most the largest value of its type.
pub parse_digits-le :
    (max acc : ℕ) (s : Text) {n : ℕ} → acc ≤ max → parse_digits max acc s ≡ some n → n ≤ max
unfolding parse_digits
parse_digits-le max acc [] {n} a h = ground arith
parse_digits-le max acc (c ∷ s) {n} a h =
    ground (arith, parse_digits-le max (acc * 10 + (c - 48)) s {n = n})

pub parse_uint-le : (max : ℕ) (s : Text) {n : ℕ} → parse_uint max s ≡ some n → n ≤ max
unfolding parse_uint
parse_uint-le max [] {n} h = ground arith
parse_uint-le max (c ∷ []) {n} h = ground (arith, parse_digits-le max 0 (c ∷ []) {n = n})
parse_uint-le max (c ∷ d ∷ s) {n} h =
    ground (arith, parse_digits-le max 0 (d ∷ s) {n = n}, parse_digits-le max 0 (c ∷ d ∷ s) {n = n})

-- One digit in decimal or in lower-case hexadecimal.
unfoldable pub digit : ℕ → ℕ
digit n = if ltb n 10 then 48 + n else 87 + n

-- `{:02x}` of a byte and `{:04x}` of a number below 65536.
unfoldable pub hex2 : ℕ → Text
unfolding digit
hex2 n = digit (n / 16) ∷ digit (n % 16) ∷ []

unfoldable pub hex4 : ℕ → Text
unfolding hex2
hex4 n = hex2 (n / 256) ++ hex2 (n % 256)

-- `Display` of a byte.
unfoldable pub octet : ℕ → Text
unfolding digit
octet n =
    if ltb n 10
    then digit n ∷ []
    else if ltb n 100
    then digit (n / 10) ∷ digit (n % 10) ∷ []
    else digit (n / 100) ∷ digit (n / 10 % 10) ∷ digit (n % 10) ∷ []

-- `Display` of an unsigned number; its digits are fewer than the fuel.
unfoldable pub decimal_loop : ℕ → ℕ → Text → Text
unfolding digit
decimal_loop zero n out = out
decimal_loop (suc fuel) n out =
    let next = digit (n % 10) ∷ out in
    let rest = decimal_loop fuel (n / 10) next in if ltb n 10 then next else rest

unfoldable pub decimal : ℕ → Text
unfolding decimal_loop
decimal n = decimal_loop (suc n) n []

-- A predicate that holds at every number below a bound, by evaluation.
abbrev pub holds_below : ℕ → (ℕ → Bool) → Bool
holds_below zero p = true
holds_below (suc n) p = p n && holds_below n p

pub holds_below_sound : (n : ℕ) (p : ℕ → Bool) (x : ℕ) → holds_below n p ≡ true → x < n → p x ≡ true
holds_below_sound zero p x h lt = absurd (omega arith)
holds_below_sound (suc n) p x h lt = ground (arith, holds_below_sound n p x)
