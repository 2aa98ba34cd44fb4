-- ===== src/Garden/Line.antt =====
-- `read_line_capped` of src/commands/garden/client.rs against the first line of all that arrives.
use sower.Prelude.{
  ℕ, ◌+◌, ◌≤◌, ◌<◌, ◌≡◌, ◌∙◌, refl, ap, sym, arith, Bool-cases, List, [], ◌∷◌, ◌++◌, Option, none,
  some, Option-cases, Text, Result, length, length-append, append_assoc, split_once, ltb, inl, inr,
  ◌⊎◌,
}
use sower.Garden.Protocol.{Reply}
use sower.Garden.Client.{
  Fill, chunk, stalled, broken, put_back, too_long, whole_line, end_line, read_line_from,
  read_line_capped,
}

-- What arrives before the garden stalls, breaks off or closes.
unfoldable pub content : List Fill → Text
content [] = []
content (chunk b bs ∷ reader) = (b ∷ bs) ++ content reader
content (stalled ∷ reader) = []
content (broken e ∷ reader) = []

content-put_back :
    (t : Text) (reader : List Fill) → content (put_back t reader) ≡ t ++ content reader
unfolding content
content-put_back [] reader = refl
content-put_back (b ∷ bs) reader = refl

split_once-found :
    (c : ℕ) (a t l r : Text)
    → split_once c a ≡ some (l, r)
    → split_once c (a ++ t) ≡ some (l, r ++ t)
unfolding split_once
split_once-found c [] t l r h = absurd (ground arith)
split_once-found c (x ∷ a) t l r h = elim (Option-cases (split_once c a)) [
  | inl e ↦ ground arith
  | inr ((l', r'), e) ↦ ground (arith, split_once-found c a t l' r' e)
]

split_once-skip :
    (c : ℕ) (a t l r : Text)
    → split_once c a ≡ none
    → split_once c t ≡ some (l, r)
    → split_once c (a ++ t) ≡ some (a ++ l, r)
unfolding split_once
split_once-skip c [] t l r h e = e
split_once-skip c (x ∷ a) t l r h e = elim (Option-cases (split_once c a)) [
  | inl n ↦ ground (arith, split_once-skip c a t l r n e)
  | inr ((l', r'), n) ↦ absurd (ground arith)
]

split_once-neither :
    (c : ℕ) (a t : Text)
    → split_once c a ≡ none
    → split_once c t ≡ none
    → split_once c (a ++ t) ≡ none
unfolding split_once
split_once-neither c [] t h e = e
split_once-neither c (x ∷ a) t h e = elim (Option-cases (split_once c a)) [
  | inl n ↦ ground (arith, split_once-neither c a t n e)
  | inr ((l', r'), n) ↦ absurd (ground arith)
]

split_once-rest :
    (c : ℕ) (a t l r : Text)
    → split_once c a ≡ none
    → split_once c (a ++ t) ≡ some (l, r)
    → (l' : Text) × ((split_once c t ≡ some (l', r)) × (l ≡ a ++ l'))
split_once-rest c a t l r n h = elim (Option-cases (split_once c t)) [
  | inl e ↦ absurd (ground (arith, split_once-neither c a t n e))
  | inr ((l', r'), e) ↦
      let whole = split_once-skip c a t l' r' n e in (l', (ground arith, ground arith))
]

split_once-nothing : (c : ℕ) → split_once c [] ≡ none
unfolding split_once
split_once-nothing c = refl

module _ (from_utf8 : Text → Result Text) (parse_reply : Text → Result Reply) where
  -- What the reader makes of the first line, with `buf` before it.
  abbrev Bounded : ℕ → Text → Text → Text → Result (Option Text) × List Fill → Type 0
  Bounded max buf line rest o =
      ((length buf + length line ≤ max)
        × ((o.0 ≡ whole_line from_utf8 parse_reply (from_utf8 (buf ++ line)))
            × (content o.1 ≡ rest)))
      ⊎ ((max < length buf + length line) × (o.0 ≡ too_long from_utf8 parse_reply max))

  end_line-Bounded :
      (max : ℕ) (buf line rest : Text) (reader : List Fill)
      → Bounded max buf line
          (rest ++ content reader)
          (end_line from_utf8 parse_reply max buf line rest reader)
  end_line-Bounded max buf line rest reader =
      elim (Bool-cases (ltb max (length buf + length line))) [
        | inl y ↦ inr (ground arith, rw y refl)
        | inr n ↦ inl (ground arith, rw n (refl, content-put_back rest reader))
      ]

  shift-Bounded :
      (max : ℕ) (buf a line rest : Text) (o : Result (Option Text) × List Fill)
      → Bounded max (buf ++ a) line rest o
      → Bounded max buf (a ++ line) rest o
  shift-Bounded max buf a line rest o =
      let longer : length (buf ++ a) + length line ≡ length buf + length (a ++ line) =
        omega (arith, length-append buf a, length-append a line) in
      rw (sym longer, sym (append_assoc buf a line)) (λ h. h)

  read_line_from-Bounded :
      (max : ℕ) (buf : Text) (reader : List Fill) (line rest : Text)
      → split_once 10 (content reader) ≡ some (line, rest)
      → Bounded max buf line rest (read_line_from from_utf8 parse_reply max buf reader)
  unfolding content read_line_from
  read_line_from-Bounded max buf [] line rest h = absurd (ground (arith, split_once-nothing 10))
  read_line_from-Bounded max buf (stalled ∷ reader) line rest h =
      absurd (ground (arith, split_once-nothing 10))
  read_line_from-Bounded max buf (broken e ∷ reader) line rest h =
      absurd (ground (arith, split_once-nothing 10))
  read_line_from-Bounded max buf (chunk b bs ∷ reader) line rest h =
      elim (Option-cases (split_once 10 (b ∷ bs))) [
        | inr ((l, r), e) ↦
            let found = split_once-found 10 (b ∷ bs) (content reader) l r e in
            let same : (l ≡ line) × (r ++ content reader ≡ rest) = ground arith in
            rw⁻¹ (same.0, same.1) (rw (e, read_line_from) (end_line-Bounded max buf l r reader))
        | inl n ↦
            let (l', (f, whole)) = split_once-rest 10 (b ∷ bs) (content reader) line rest n h in
            let size : length line ≡ length (b ∷ bs) + length l' =
              ap length whole ∙ length-append (b ∷ bs) l' in
            elim (Bool-cases (ltb max (length buf + length (b ∷ bs)))) [
              | inl y ↦ rw (n, y, read_line_from) (inr (ground (arith, size), refl))
              | inr k ↦
                  rw (n, k, read_line_from, whole)
                    (shift-Bounded max buf (b ∷ bs) l' rest _
                      (read_line_from-Bounded max (buf ++ (b ∷ bs)) reader l' rest f))
            ]
      ]

  -- However the first line that arrives is cut into pieces, `read_line_capped` returns it, decoded, and leaves what follows it, if it has at most `max` bytes, and fails for its length if it has more.
  pub read_line_capped_lem :
      (max : ℕ) (reader : List Fill) (line rest : Text)
      → split_once 10 (content reader) ≡ some (line, rest)
      → let o = read_line_capped from_utf8 parse_reply max reader in
        ((length line ≤ max)
          × ((o.0 ≡ whole_line from_utf8 parse_reply (from_utf8 line)) × (content o.1 ≡ rest)))
        ⊎ ((max < length line) × (o.0 ≡ too_long from_utf8 parse_reply max))
  unfolding read_line_capped
  read_line_capped_lem max reader line rest h =
      let none_yet : 0 + length line ≡ length line = omega arith in
      rw (sym none_yet) (read_line_from-Bounded max [] reader line rest h)
