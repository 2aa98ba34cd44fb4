-- ===== src/Prelude/Bytes.antt =====
-- Texts as their UTF-8 bytes, with the `str` and slice operations that the program calls.
-- Every separator and literal of the program is ASCII, where a byte is a character.
use Prim.Native.Nat.{ℕ, zero, suc}
use Prim.Native.Char.{code}
use Prim.Native.String.{String}
use mathlib.Core.Path.{◌≡◌, refl}
use mathlib.Core.Logic.{◌↔◌, inl, inr}
use mathlib.Core.Bool.{Bool, true, false, ◌&&◌, ◌||◌}
use mathlib.Core.List.{List, [], ◌∷◌, ◌++◌, map}
use mathlib.Core.Option.{Option, none, some}
use native.Mathlib.Omega.{arith}
use sower.Prelude.Tests.{◌==◌, leb, if◌then◌else◌, Option-cases}
use sower.Prelude.Lists.{any}

abbrev pub Text : Type 0
Text = List ℕ

-- A literal of the source.
unfoldable pub bytes : String → Text
bytes String.[] = []
bytes (String.◌∷◌ c s) = code c ∷ bytes s

unfoldable pub text_eq : Text → Text → Bool
text_eq [] [] = true
text_eq (x ∷ xs) (y ∷ ys) = x == y && text_eq xs ys
text_eq _ _ = false

text_eq_sound : (s t : Text) → text_eq s t ≡ true → s ≡ t
unfolding text_eq
text_eq_sound [] [] h = refl
text_eq_sound [] (y ∷ ys) h = ground arith
text_eq_sound (x ∷ xs) [] h = ground arith
text_eq_sound (x ∷ xs) (y ∷ ys) h = ground (arith, text_eq_sound xs ys)

pub text_eq_refl : (s : Text) → text_eq s s ≡ true
unfolding text_eq
text_eq_refl [] = refl
text_eq_refl (x ∷ xs) = ground (arith, text_eq_refl xs)

pub text_eq_iff : (s t : Text) → (text_eq s t ≡ true) ↔ (s ≡ t)
text_eq_iff s t = (text_eq_sound s t, λ e. rw e (text_eq_refl t))

-- `a.contains(&b)` on a list of texts.
abbrev pub contains_text : List Text → Text → Bool
contains_text xs t = any (λ x. text_eq x t) xs

-- `strip_prefix`, the prefix first.
unfoldable pub strip_prefix : Text → Text → Option Text
strip_prefix [] s = some s
strip_prefix (p ∷ ps) [] = none
strip_prefix (p ∷ ps) (c ∷ s) = if p == c then strip_prefix ps s else none

pub strip_prefix-append : (p s : Text) → strip_prefix p (p ++ s) ≡ some s
unfolding strip_prefix
strip_prefix-append [] s = refl
strip_prefix-append (p ∷ ps) s = ground (arith, strip_prefix-append ps s)

pub strip_prefix_sound : (p t : Text) {s : Text} → strip_prefix p t ≡ some s → t ≡ p ++ s
unfolding strip_prefix
strip_prefix_sound [] t h = ground arith
strip_prefix_sound (p ∷ ps) [] h = ground arith
strip_prefix_sound (p ∷ ps) (c ∷ t) {s} h = ground (arith, strip_prefix_sound ps t {s = s})

unfoldable pub starts_with : Text → Text → Bool
unfolding strip_prefix
starts_with t p = elim (strip_prefix p t) [ some s ↦ true | none ↦ false ]

-- `strip_suffix`, the suffix first.
abbrev pub push_front : ℕ → Option Text → Option Text
push_front c (some s) = some (c ∷ s)
push_front c none = none

unfoldable pub strip_suffix : Text → Text → Option Text
unfolding text_eq
strip_suffix p [] = if text_eq p [] then some [] else none
strip_suffix p (c ∷ s) =
    let rest = strip_suffix p s in if text_eq p (c ∷ s) then some [] else push_front c rest

pub strip_suffix_sound : (p t : Text) {s : Text} → strip_suffix p t ≡ some s → t ≡ s ++ p
unfolding strip_suffix
strip_suffix_sound p [] h = ground (arith, text_eq_sound p [])
strip_suffix_sound p (c ∷ t) {s} h = elim (Option-cases (strip_suffix p t)) [
  | inl e ↦ ground (arith, text_eq_sound p (c ∷ t))
  | inr (r, e) ↦ ground (arith, text_eq_sound p (c ∷ t), strip_suffix_sound p t {s = r} e)
]

unfoldable pub ends_with : Text → Text → Bool
unfolding strip_suffix
ends_with t p = elim (strip_suffix p t) [ some s ↦ true | none ↦ false ]

-- `split_once` at a byte, the byte first.
abbrev pub push_first : ℕ → Option (Text × Text) → Option (Text × Text)
push_first c (some (a, b)) = some (c ∷ a, b)
push_first c none = none

unfoldable pub split_once : ℕ → Text → Option (Text × Text)
split_once c [] = none
split_once c (x ∷ s) =
    let rest = split_once c s in if x == c then some ([], s) else push_first x rest

-- Whether a byte occurs.
abbrev pub has_byte : ℕ → Text → Bool
has_byte c = any (λ x. x == c)

pub split_once_sound :
    (c : ℕ) (t : Text) {a b : Text}
    → split_once c t ≡ some (a, b)
    → (t ≡ a ++ (c ∷ b)) × (has_byte c a ≡ false)
unfolding split_once
split_once_sound c [] h = ground arith
split_once_sound c (x ∷ t) {a} {b} h = elim (Option-cases (split_once c t)) [
  | inl e ↦ ground arith
  | inr ((a', b'), e) ↦ ground (arith, split_once_sound c t {a = a'} {b = b'} e)
]

pub split_once-append :
    (c : ℕ) (a b : Text) → has_byte c a ≡ false → split_once c (a ++ (c ∷ b)) ≡ some (a, b)
unfolding split_once
split_once-append c [] b h = ground arith
split_once-append c (x ∷ a) b h = ground (arith, split_once-append c a b)

pub split_once-none : (c : ℕ) (t : Text) → has_byte c t ≡ false → split_once c t ≡ none
unfolding split_once
split_once-none c [] h = refl
split_once-none c (x ∷ t) h = ground (arith, split_once-none c t)

-- `split` at a byte: one part more than there are separators.
abbrev pub onto_head : ℕ → List Text → List Text
onto_head c [] = (c ∷ []) ∷ []
onto_head c (p ∷ ps) = (c ∷ p) ∷ ps

unfoldable pub split : ℕ → Text → List Text
split c [] = [] ∷ []
split c (x ∷ s) = let rest = split c s in if x == c then [] ∷ rest else onto_head x rest

pub split-append :
    (c : ℕ) (a b : Text) → has_byte c a ≡ false → split c (a ++ (c ∷ b)) ≡ a ∷ split c b
unfolding split
split-append c [] b h = ground arith
split-append c (x ∷ a) b h = ground (arith, split-append c a b)

pub split_alone : (c : ℕ) (a : Text) → has_byte c a ≡ false → split c a ≡ a ∷ []
unfolding split
split_alone c [] h = refl
split_alone c (x ∷ a) h = ground (arith, split_alone c a)

-- The byte classes of `u8`.
unfoldable pub is_digit : ℕ → Bool
is_digit c = leb 48 c && leb c 57

unfoldable pub is_lower : ℕ → Bool
is_lower c = leb 97 c && leb c 122

unfoldable pub is_upper : ℕ → Bool
is_upper c = leb 65 c && leb c 90

unfoldable pub is_alphanumeric : ℕ → Bool
unfolding is_digit is_lower is_upper
is_alphanumeric c = is_digit c || (is_lower c || is_upper c)

unfoldable pub is_hexdigit : ℕ → Bool
unfolding is_digit
is_hexdigit c = is_digit c || ((leb 97 c && leb c 102) || (leb 65 c && leb c 70))

-- `is_ascii_whitespace`: space, tab, line feed, form feed and carriage return.
unfoldable pub is_whitespace : ℕ → Bool
is_whitespace c = c == 32 || (c == 9 || (c == 10 || (c == 12 || c == 13)))

unfoldable pub is_control : ℕ → Bool
is_control c = leb c 31 || c == 127

-- `split_whitespace`, over the ASCII white space (vertical tab included).
unfoldable pub is_space : ℕ → Bool
is_space c = c == 32 || (leb 9 c && leb c 13)

abbrev flush : Text → List Text → List Text
flush [] ws = ws
flush (c ∷ w) ws = (c ∷ w) ∷ ws

-- The word that begins at the front of the text, and the words after it.
unfoldable pub words_from : Text → Text × List Text
unfolding is_space
words_from [] = ([], [])
words_from (c ∷ s) =
    let (w, ws) = words_from s in if is_space c then ([], flush w ws) else (c ∷ w, ws)

unfoldable pub words : Text → List Text
unfolding words_from
words s = let (w, ws) = words_from s in flush w ws

-- `nth` of an iterator.
abbrev pub get_elem? {ℓ} : {A : Type ℓ} → List A → ℕ → Option A
get_elem? [] i = none
get_elem? (x ∷ xs) zero = some x
get_elem? (x ∷ xs) (suc i) = get_elem? xs i

-- `rsplit_once` at a byte: the last one.
unfoldable pub rsplit_once : ℕ → Text → Option (Text × Text)
rsplit_once c [] = none
rsplit_once c (x ∷ s) = elim (rsplit_once c s) [
  | some (a, b) ↦ some (x ∷ a, b)
  | none ↦ if x == c then some ([], s) else none
]

-- `str::lines`: the parts between line feeds, the last one only if it is not empty, each without a
-- final carriage return.
abbrev strip_cr : Text → Text
strip_cr [] = []
strip_cr (c ∷ []) = if c == 13 then [] else c ∷ []
strip_cr (c ∷ d ∷ s) = c ∷ strip_cr (d ∷ s)

abbrev drop_last_empty : List Text → List Text
drop_last_empty [] = []
drop_last_empty ([] ∷ []) = []
drop_last_empty ((c ∷ s) ∷ []) = (c ∷ s) ∷ []
drop_last_empty (p ∷ q ∷ ps) = p ∷ drop_last_empty (q ∷ ps)

unfoldable pub lines : Text → List Text
unfolding split
lines s = map strip_cr (drop_last_empty (split 10 s))

-- The pieces of a `format!`, joined.
abbrev pub concat : List Text → Text
concat [] = []
concat (p ∷ ps) = p ++ concat ps
