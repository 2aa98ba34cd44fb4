-- ===== src/Guest/Control/Chunks.antt =====
-- How the bytes of a cancel request arrive makes no difference to `Control::read` of
-- guest/src/lib.rs.
use sower.Prelude.{
  ℕ, zero, suc, ◌+◌, ◌-◌, ◌<◌, ◌≡◌, refl, ap, sym, ◌∙◌, arith, true, false, Bool-cases, List, [],
  ◌∷◌, ◌++◌, take, drop, length, append_assoc, append-nil, take-append-drop, length-append, Text,
  ltb, ◌==◌, inl, inr,
}
use sower.Guest.Io.{Io, done, fails, IoError, raw, Arrival, put_back, read}
use sower.Guest.Frame.{Json}
use sower.Guest.Control.{
  Control, ControlEvent, pending, disconnected, Turn, space, turn, ended_or, read_loop, turns,
  read_control,
}
use sower.Guest.Control.Buffer.{take_all, length-take-le, length-drop}
use sower.Guest.Control.Refines.{
  Parsed, waiting, message, parse_control, buffered, available, ending, later, IsWellFormed,
  in_header, in_body, IsFresh, parse-header, Stepped, more, received, rejected, take_header-Stepped,
  take_body-Stepped,
}

available-put_back : (t : Text) (s : List Arrival) → available (put_back t s) ≡ t ++ available s
unfolding available
available-put_back [] s = refl
available-put_back (b ∷ bs) s = refl

ending-put_back : (t : Text) (s : List Arrival) → ending (put_back t s) ≡ ending s
unfolding ending
ending-put_back [] s = refl
ending-put_back (b ∷ bs) s = refl

later-put_back : (t : Text) (s : List Arrival) → later (put_back t s) ≡ later s
unfolding later
later-put_back [] s = refl
later-put_back (b ∷ bs) s = refl

turns-put_back :
    {Value : Type 0} (json : Json Value) (t : Text) (s : List Arrival)
    → turns json (put_back t s) ≡ length t + turns json s
unfolding turns
turns-put_back json [] s = omega arith
turns-put_back json (b ∷ bs) s = omega arith

-- What the reader gives for what the parser says of all that is available: `end` is how the
-- available bytes end, and `after` what comes then.
pub data Agrees (all : Text) (end : Io ControlEvent) (after : List Arrival)
    : Parsed → (Io ControlEvent × Control) × List Arrival → Type 0 where
  unfinished :
      (c : Control)
      → IsWellFormed c
      → buffered c ≡ all
      → Agrees all end after waiting ((end, c), after)
  one_event :
      (event : ControlEvent) (rest : Text) (c : Control) (s : List Arrival)
      → IsFresh c
      → available s ≡ rest
      → ending s ≡ end
      → later s ≡ after
      → Agrees all end after (message (done event) rest) ((done event, c), s)
  refusal :
      (e : IoError) (rest : Text) (c : Control) (s : List Arrival)
      → Agrees all end after (message (fails e) rest) ((fails e, c), s)

module _ {Value : Type 0} (json : Json Value) (version : ℕ) where
  parse-buffered :
      (c : Control) → IsWellFormed c → parse_control json version (buffered c) ≡ waiting
  unfolding parse_control
  parse-buffered c (in_header _ l h z) =
      let short : ltb (length (buffered c)) 5 ≡ true = ground (
        arith,
        length-append (take c.header_length c.header) (take c.body_length c.body),
        length-take-le c.header_length c.header,
        length-take-le c.body_length c.body,
      ) in
      rw short refl
  parse-buffered c (in_body _ l h good n less) =
      let part = take c.body_length c.body in
      let whole : buffered c ≡ c.header ++ part =
        ap (λ x. x ++ part) (take_all c.header_length c.header (ground arith)) in
      let short : ltb (length part) (length c.body) ≡ true =
        ground (arith, length-take-le c.body_length c.body) in
      ap (parse_control json version) whole
      ∙ (parse-header json version c.header part l ∙ rw (n, good, short) refl)

  turn-Stepped :
      (c : Control) (b m : ℕ) (bs : Text)
      → IsWellFormed c
      → space c ≡ suc m
      → Stepped json version c (b ∷ take m bs) (turn json version c (done (b ∷ take m bs)))
  unfolding turn space
  turn-Stepped c b m bs (in_header _ l h z) e =
      let first : ltb c.header_length 5 ≡ true = ground arith in
      rw first (
        take_header-Stepped json version c (b ∷ take m bs) l z
          (ground (arith, length-take-le m bs)))
  turn-Stepped c b m bs (in_body _ l h good n less) e =
      let second : ltb c.header_length 5 ≡ false = ground arith in
      rw second (
        take_body-Stepped json version c (b ∷ take m bs) l h good n
          (ground (arith, length-take-le m bs)))

  space-pos : (c : Control) → IsWellFormed c → space c ≡ suc (space c - 1)
  unfolding space
  space-pos c (in_header _ l h z) = ground arith
  space-pos c (in_body _ l h good n less) = ground arith

  -- Of the reader at `c`, the outcome for all that is available.
  abbrev Reads : Control → List Arrival → (Io ControlEvent × Control) × List Arrival → Type 0
  Reads c s o =
      Agrees (buffered c ++ available s) (ending s) (later s)
        (parse_control json version (buffered c ++ available s)) o

  -- A turn that took some of the bytes, and the rest of the loop.
  step-Agrees :
      (c : Control) (bs : Text) (s : List Arrival)
      (rest : Control → (Io ControlEvent × Control) × List Arrival) (o : Turn × Control)
      → Stepped json version c bs o
      → ((c' : Control) → IsWellFormed c' → Reads c' s (rest c'))
      → Agrees
          (buffered c ++ (bs ++ available s))
          (ending s)
          (later s)
          (parse_control json version (buffered c ++ (bs ++ available s)))
          (ended_or json o s rest)
  step-Agrees c bs s rest _ (more c' w e) k =
      rw (sym (append_assoc (buffered c) bs (available s)), sym e) (k c' w)
  step-Agrees c bs s rest _ (received c' event fresh h) k =
      rw (sym (append_assoc (buffered c) bs (available s)), h (available s))
        (one_event event (available s) c' s fresh refl refl refl)
  step-Agrees c bs s rest _ (rejected c' e h) k =
      rw (sym (append_assoc (buffered c) bs (available s)), h (available s))
        (refusal e (available s) c' s)

  -- With nothing more available, the reader waits for the rest of a message.
  wait-Agrees :
      (c : Control) (end : Io ControlEvent) (after : List Arrival)
      → IsWellFormed c
      → Agrees
          (buffered c ++ [])
          end
          after
          (parse_control json version (buffered c ++ []))
          ((end, c), after)
  wait-Agrees c end after w = rw (append-nil (buffered c), parse-buffered c w) (unfinished c w refl)

  -- Bytes that arrive are taken as far as there is space, and the others are put back.
  arrived-Agrees :
      (c : Control) (b m : ℕ) (bs : Text) (s : List Arrival)
      (rest : Control → (Io ControlEvent × Control) × List Arrival)
      → IsWellFormed c
      → space c ≡ suc m
      → let s' = put_back (drop m bs) s in
        ((c' : Control) → IsWellFormed c' → Reads c' s' (rest c'))
        → Reads c
            (Arrival.arrived b bs ∷ s)
            (ended_or json (turn json version c (done (b ∷ take m bs))) s' rest)
  unfolding available ending later
  arrived-Agrees c b m bs s rest w e k =
      let s' = put_back (drop m bs) s in
      let all : (b ∷ take m bs) ++ available s' ≡ (b ∷ bs) ++ available s =
        ap (λ x. (b ∷ take m bs) ++ x) (available-put_back (drop m bs) s)
        ∙ (sym (append_assoc (b ∷ take m bs) (drop m bs) (available s))
            ∙ ap (λ x. (b ∷ x) ++ available s) (take-append-drop m bs)) in
      rw⁻¹ (all, ending-put_back (drop m bs) s, later-put_back (drop m bs) s)
        (step-Agrees c (b ∷ take m bs) s' rest (turn json version c (done (b ∷ take m bs)))
          (turn-Stepped c b m bs w e) k)

  refused-Agrees :
      (c : Control) (e : ℕ) (s : List Arrival)
      (rest : Control → (Io ControlEvent × Control) × List Arrival)
      → IsWellFormed c
      → Reads c s (rest c)
      → Reads c (Arrival.refused e ∷ s) (ended_or json (turn json version c (fails (raw e))) s rest)
  unfolding turn available ending later
  refused-Agrees c e s rest w k = elim (Bool-cases (e == 4)) [
    | inl y ↦ rw (y, available, ending, later) k
    | inr n ↦ elim (Bool-cases (e == 11)) [
      | inl y ↦ rw (n, y, available, ending, later) (wait-Agrees c (done pending) s w)
      | inr n' ↦ rw (n, n', available, ending, later) (wait-Agrees c (fails (raw e)) s w)
    ]
  ]

  loop-Agrees :
      (fuel : ℕ) (c : Control) (s : List Arrival)
      → IsWellFormed c
      → turns json s < fuel
      → Reads c s (read_loop json fuel version c s)
  unfolding read_loop read turn turns available ending later
  loop-Agrees zero c s w f = absurd (omega (arith, f))
  loop-Agrees (suc fuel) c [] w f = wait-Agrees c (done pending) [] w
  loop-Agrees (suc fuel) c (Arrival.arrived b bs ∷ s) w f =
      let e = space-pos c w in
      rw e (
        arrived-Agrees c b (space c - 1) bs s _ w e (λ c' w'.
          loop-Agrees fuel c' (put_back (drop (space c - 1) bs) s) w' (
            omega (
              arith,
              f,
              turns-put_back json (drop (space c - 1) bs) s,
              length-drop (space c - 1) bs,
            ))))
  loop-Agrees (suc fuel) c (Arrival.closed ∷ s) w f =
      wait-Agrees c (done disconnected) (Arrival.closed ∷ s) w
  loop-Agrees (suc fuel) c (Arrival.refused e ∷ s) w f =
      refused-Agrees c e s (λ c'. read_loop json fuel version c' s) w
        (loop-Agrees fuel c s w (omega (arith, f)))

  -- Whatever pieces its bytes arrive in, and however often the reader is interrupted or would block in between, `Control::read` gives what a parser of whole messages says of all the bytes together: of a whole cancel request the event, leaving the bytes that follow, of a bad one its error, and of less than a request that there is nothing yet, keeping all of it.
  pub read_control_lem :
      (c : Control) (s : List Arrival)
      → IsWellFormed c
      → Agrees
          (buffered c ++ available s)
          (ending s)
          (later s)
          (parse_control json version (buffered c ++ available s))
          (read_control json version c s)
  unfolding read_control
  read_control_lem c s w = loop-Agrees (suc (turns json s)) c s w (omega arith)
