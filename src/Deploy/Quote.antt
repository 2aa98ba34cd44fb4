-- ===== src/Deploy/Quote.antt =====
-- `shell_quote` of src/commands/deploy/sudo.rs, against a reader of shell words.
use sower.Prelude.{
  ℕ, ◌≡◌, refl, [], ◌∷◌, ◌++◌, Option, none, some, if◌then◌else◌, ◌==◌, Text, arith, append_assoc,
  inl, inr, Bool-cases,
}

-- `value.replace('\'', "'\\''")`.
unfoldable pub replace_quotes : Text → Text
replace_quotes [] = []
replace_quotes (c ∷ value) =
    let rest = replace_quotes value in if c == 39 then 39 ∷ 92 ∷ 39 ∷ 39 ∷ rest else c ∷ rest

unfoldable pub shell_quote : Text → Text
shell_quote value = 39 ∷ (replace_quotes value ++ (39 ∷ []))

-- How a POSIX shell reads a word that is made of quoted parts and escaped bytes: outside of quotes
-- a blank ends the word; inside, all but the closing quote stands for itself.
pub data Mode : Type 0 where
  outside quoted escaped : Mode

abbrev more : ℕ → Option (Text × Text) → Option (Text × Text)
more c none = none
more c (some (word, rest)) = some (c ∷ word, rest)

-- The word, and what follows the blank; nothing for a word that is not closed or not quoted.
unfoldable pub read_word : Mode → Text → Option (Text × Text)
read_word Mode.outside [] = some ([], [])
read_word Mode.quoted [] = none
read_word Mode.escaped [] = none
read_word Mode.outside (c ∷ s) =
    let quote = read_word Mode.quoted s in
    let escape = read_word Mode.escaped s in
    if c == 39 then quote else if c == 92 then escape else if c == 32 then some ([], s) else none
read_word Mode.quoted (c ∷ s) =
    let out = read_word Mode.outside s in
    let stay = read_word Mode.quoted s in if c == 39 then out else more c stay
read_word Mode.escaped (c ∷ s) = more c (read_word Mode.outside s)

read_quoted :
    (value rest : Text)
    → read_word Mode.quoted (replace_quotes value ++ (39 ∷ 32 ∷ rest)) ≡ some (value, rest)
unfolding read_word replace_quotes
read_quoted [] rest = refl
read_quoted (c ∷ value) rest = elim (Bool-cases (c == 39)) [
  | inl e ↦ let c_eq : c ≡ 39 = ground arith in rw (c_eq, read_quoted value rest) refl
  | inr e ↦ rw (e, e, read_quoted value rest) refl
]

-- A quoted argument is read back by the shell as the value itself, whatever bytes it has, and the word ends at the blank that follows.
pub shell_quote_lem :
    (value rest : Text)
    → read_word Mode.outside (shell_quote value ++ (32 ∷ rest)) ≡ some (value, rest)
unfolding shell_quote read_word
shell_quote_lem value rest =
    rw (append_assoc (replace_quotes value) (39 ∷ []) (32 ∷ rest)) (read_quoted value rest)

read_quoted_end :
    (value : Text) → read_word Mode.quoted (replace_quotes value ++ (39 ∷ [])) ≡ some (value, [])
unfolding read_word replace_quotes
read_quoted_end [] = refl
read_quoted_end (c ∷ value) = elim (Bool-cases (c == 39)) [
  | inl e ↦ let c_eq : c ≡ 39 = ground arith in rw (c_eq, read_quoted_end value) refl
  | inr e ↦ rw (e, e, read_quoted_end value) refl
]

-- So is the last argument of a line.
pub shell_quote_end : (value : Text) → read_word Mode.outside (shell_quote value) ≡ some (value, [])
unfolding shell_quote read_word
shell_quote_end value = read_quoted_end value
