-- ===== src/Prelude/Results.antt =====
-- `anyhow::Result`. An error is its chain of messages, the outermost context first.
use mathlib.Core.Path.{◌≡◌, refl}
use mathlib.Core.Logic.{◌⊎◌, inl, inr}
use mathlib.Core.Bool.{Bool, true, false}
use mathlib.Core.Option.{Option, none, some}
use mathlib.Core.List.{List, [], ◌∷◌, ◌++◌}
use sower.Prelude.Bytes.{Text, bytes}

abbrev pub Error : Type 0
Error = List Text

pub data Result {ℓ} (A : Type ℓ) : Type ℓ where
  ok : A → Result A
  err : Error → Result A

-- A pure failure, `anyhow!` and `bail!`.
abbrev pub bail {ℓ} : {A : Type ℓ} → Text → Result A
bail message = err (message ∷ [])

-- `ensure!`.
abbrev pub ensure : Bool → Text → Result (Unit {0})
ensure true message = ok tt
ensure false message = bail message

-- `Option::context` and `ok_or_else`.
abbrev pub or_fail {ℓ} : {A : Type ℓ} → Option A → Text → Result A
or_fail (some a) message = ok a
or_fail none message = bail message

-- `Result::context`: one more message in front of the chain.
abbrev pub context {ℓ} : {A : Type ℓ} → Result A → Text → Result A
context (ok a) message = ok a
context (err e) message = err (message ∷ e)

abbrev pub is_ok {ℓ} : {A : Type ℓ} → Result A → Bool
is_ok (ok a) = true
is_ok (err e) = false

-- The `?` operator, in `do` blocks.
infixl 5 ◌>>=◌ ◌>>◌
abbrev pub ◌>>=◌ {ℓ ℓ'} : {A : Type ℓ} {B : Type ℓ'} → Result A → (A → Result B) → Result B
err messages >>= next = err messages
ok value >>= next = next value

abbrev pub ◌>>◌ {ℓ} : {B : Type ℓ} → Result (Unit {0}) → Result B → Result B
first >> next = first >>= λ done. next

-- `Result::ok`.
abbrev pub ok_value {ℓ} : {A : Type ℓ} → Result A → Option A
ok_value (ok a) = some a
ok_value (err e) = none

-- `Display` of an error: its outermost message.
pub display : Error → Text
display [] = []
display (m ∷ e) = m

-- The alternate `Display`, `{:#}`: the whole chain.
pub display_chain : Error → Text
display_chain [] = []
display_chain (m ∷ []) = m
display_chain (m ∷ n ∷ e) = m ++ bytes ": " ++ display_chain (n ∷ e)

pub Result-cases {ℓ} :
    {A : Type ℓ} (r : Result A) → ((a : A) × (r ≡ ok a)) ⊎ ((e : Error) × (r ≡ err e))
Result-cases (ok a) = inl (a, refl)
Result-cases (err e) = inr (e, refl)
