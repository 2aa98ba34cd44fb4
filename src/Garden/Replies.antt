-- ===== src/Garden/Replies.antt =====
-- The loop of `stream_replies` in src/commands/garden/client.rs ends.
use sower.Prelude.{
  ℕ, zero, suc, ◌+◌, ◌≤◌, ◌<◌, ◌≡◌, refl, ap, arith, Bool-cases, List, [], ◌∷◌, ◌++◌, Option, none,
  some, Option-cases, ℤ, Text, Result, ok, err, length, length-append, split_once, split_once_sound,
  ltb, inl, inr,
}
use sower.Garden.Protocol.{max_line_bytes, Reply}
use sower.Garden.Client.{
  Fill, chunk, stalled, broken, put_back, Printed, whole_line, at_end, end_line, read_line_from,
  read_line_capped, Step, finished, going, step_line, unless_finished, replies_loop, arriving,
}

module _ (from_utf8 : Text → Result Text) (parse_reply : Text → Result Reply) where
  arriving-put_back :
      (t : Text) (reader : List Fill)
      → arriving from_utf8 parse_reply (put_back t reader)
        ≡ length t + arriving from_utf8 parse_reply reader
  unfolding arriving
  arriving-put_back [] reader = omega arith
  arriving-put_back (b ∷ bs) reader = omega arith

  abbrev Shorter : Result (Option Text) × List Fill → ℕ → Type 0
  Shorter (ok (some line), reader) n = arriving from_utf8 parse_reply reader < n
  Shorter (ok none, reader) n = Unit
  Shorter (err e, reader) n = Unit

  whole-Shorter :
      (r : Result Text) (reader : List Fill) (n : ℕ)
      → arriving from_utf8 parse_reply reader < n
      → Shorter (whole_line from_utf8 parse_reply r, reader) n
  whole-Shorter (ok line) reader n h = h
  whole-Shorter (err e) reader n h = tt

  end_line-Shorter :
      (max : ℕ) (buf line rest : Text) (reader : List Fill) (n : ℕ)
      → length rest + arriving from_utf8 parse_reply reader < n
      → Shorter (end_line from_utf8 parse_reply max buf line rest reader) n
  end_line-Shorter max buf line rest reader n h =
      elim (Bool-cases (ltb max (length buf + length line))) [
        | inl y ↦ rw y tt
        | inr k ↦ rw k (whole-Shorter _ _ n (omega (arith, h, arriving-put_back rest reader)))
      ]

  at_end-Shorter : (buf : Text) (n : ℕ) → Shorter (at_end from_utf8 parse_reply buf, []) n
  at_end-Shorter [] n = tt
  at_end-Shorter (b ∷ buf) n = tt

  read_line_from-Shorter :
      (max : ℕ) (buf : Text) (reader : List Fill) (n : ℕ)
      → arriving from_utf8 parse_reply reader ≤ n
      → Shorter (read_line_from from_utf8 parse_reply max buf reader) n
  unfolding arriving read_line_from
  read_line_from-Shorter max buf [] n h = at_end-Shorter buf n
  read_line_from-Shorter max buf (stalled ∷ reader) n h = tt
  read_line_from-Shorter max buf (broken e ∷ reader) n h = tt
  read_line_from-Shorter max buf (chunk b bs ∷ reader) n h =
      elim (Option-cases (split_once 10 (b ∷ bs))) [
        | inr ((line, rest), e) ↦
            let whole = ap length (split_once_sound 10 (b ∷ bs) e).0 in
            rw (e, read_line_from)
              (end_line-Shorter max buf line rest reader n
                (omega (arith, h, whole, length-append line (10 ∷ rest))))
        | inl m ↦ elim (Bool-cases (ltb max (length buf + length (b ∷ bs)))) [
          | inl y ↦ rw (m, y, read_line_from) tt
          | inr k ↦
              rw (m, k, read_line_from)
                (read_line_from-Shorter max (buf ++ (b ∷ bs)) reader n (omega (arith, h)))
        ]
      ]

  unless_finished-same :
      (line : Result (Option Text)) (reader : List Fill) (p : Printed) (n : ℕ)
      (next next' : Printed → Result ℤ × Printed)
      → Shorter (line, reader) n
      → (arriving from_utf8 parse_reply reader < n → (p' : Printed) → next p' ≡ next' p')
      → unless_finished from_utf8 parse_reply (step_line from_utf8 parse_reply line p) p next
        ≡ unless_finished from_utf8 parse_reply (step_line from_utf8 parse_reply line p) p next'
  unfolding step_line
  unless_finished-same (err e) reader p n next next' s k = refl
  unless_finished-same (ok none) reader p n next next' s k = refl
  unless_finished-same (ok (some line)) reader p n next next' s k =
      either (step_line from_utf8 parse_reply (ok (some line)) p) (k s)
    where
      either :
          (step : Step from_utf8 parse_reply)
          → ((p' : Printed) → next p' ≡ next' p')
          → unless_finished from_utf8 parse_reply step p next
            ≡ unless_finished from_utf8 parse_reply step p next'
      either (finished r) same = refl
      either (going p') same = same p'

  -- One turn more than there are bytes and failures to come is enough for the loop over the replies: with any larger number of turns it returns the same and prints the same.
  pub replies_end :
      (a b : ℕ) (reader : List Fill) (p : Printed)
      → arriving from_utf8 parse_reply reader < a
      → arriving from_utf8 parse_reply reader < b
      → replies_loop from_utf8 parse_reply a reader p
        ≡ replies_loop from_utf8 parse_reply b reader p
  unfolding replies_loop read_line_capped
  replies_end zero b reader p la lb = absurd (omega (arith, la))
  replies_end (suc a) zero reader p la lb = absurd (omega (arith, lb))
  replies_end (suc a) (suc b) reader p la lb =
      let (line, reader') = read_line_from from_utf8 parse_reply max_line_bytes [] reader in
      unless_finished-same line reader' p (arriving from_utf8 parse_reply reader) _ _
        (read_line_from-Shorter max_line_bytes [] reader _ (omega arith))
        (λ l p'. replies_end a b reader' p' (omega (arith, la, l)) (omega (arith, lb, l)))
