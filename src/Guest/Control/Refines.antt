-- ===== src/Guest/Control/Refines.antt =====
-- `Control::read` of guest/src/lib.rs against a parser of whole messages: how the bytes arrive
-- makes no difference.
use sower.Prelude.{
  ℕ, ◌+◌, ◌≤◌, ◌<◌, ◌≡◌, refl, ap, sym, ◌∙◌, arith, Bool, true, false, List, [], ◌∷◌, ◌++◌, take,
  drop, length, length-append, append_assoc, append-nil, Text, bytes, ltb, ◌==◌, if◌then◌else◌,
}
use sower.Guest.Io.{Io, done, fails, IoError, invalid, raw, Arrival}
use sower.Guest.Frame.{Json, from_be_bytes}
use sower.Guest.Control.{
  bad_header, filled_header, filled_body, Control, ControlEvent, pending, disconnected, Turn, stop,
  again, overwrite, resize, first_byte, take_header, judge, judged, take_body,
}
use sower.Guest.Control.Buffer.{
  take_all, take-append, drop-append, take-overwrite, length-overwrite, length-resize,
}

-- What a whole text holds: less than a message, or one message and what follows it.
pub data Parsed : Type 0 where
  waiting : Parsed
  message : Io ControlEvent → Text → Parsed

module _ {Value : Type 0} (json : Json Value) (version : ℕ) where
  abbrev pub parse_rest : ℕ → ℕ → Text → Parsed
  parse_rest kind size rest =
      if bad_header kind size
      then message (fails (invalid (bytes "expected bounded cancel metadata frame"))) rest
      else if ltb (length rest) size
      then waiting
      else message (judge json version (take size rest)) (drop size rest)

  -- The parser that the reader implements.
  unfoldable pub parse_control : Text → Parsed
  parse_control t =
      if ltb (length t) 5
      then waiting
      else parse_rest (first_byte t) (from_be_bytes (drop 1 t)) (drop 5 t)

-- What has arrived of the message under way.
abbrev pub buffered : Control → Text
buffered c = take c.header_length c.header ++ take c.body_length c.body

-- What can be read before the reader would block, the peer's end or an error, and which of these it is.
unfoldable pub available : List Arrival → Text
available [] = []
available (Arrival.arrived b bs ∷ s) = (b ∷ bs) ++ available s
available (Arrival.closed ∷ s) = []
available (Arrival.refused e ∷ s) = elim (e == 4) [ true ↦ available s | false ↦ [] ]

unfoldable pub ending : List Arrival → Io ControlEvent
ending [] = done pending
ending (Arrival.arrived b bs ∷ s) = ending s
ending (Arrival.closed ∷ s) = done disconnected
ending (Arrival.refused e ∷ s) = elim (e == 4) [
  | true ↦ ending s
  | false ↦ if e == 11 then done pending else fails (raw e)
]

-- What is left when all of that has been read.
unfoldable pub later : List Arrival → List Arrival
later [] = []
later (Arrival.arrived b bs ∷ s) = later s
later (Arrival.closed ∷ s) = Arrival.closed ∷ s
later (Arrival.refused e ∷ s) = elim (e == 4) [ true ↦ later s | false ↦ s ]

pub data IsWellFormed : Control → Type 0 where
  in_header :
      (c : Control) → length c.header ≡ 5 → c.header_length < 5 → c.body_length ≡ 0 → IsWellFormed c
  in_body :
      (c : Control)
      → length c.header ≡ 5
      → c.header_length ≡ 5
      → bad_header (first_byte c.header) (length c.body) ≡ false
      → from_be_bytes (drop 1 c.header) ≡ length c.body
      → c.body_length < length c.body
      → IsWellFormed c

-- The header of a text is its first five bytes.
first_byte-append : (h t : Text) → length h ≡ 5 → first_byte (h ++ t) ≡ first_byte h
first_byte-append [] t l = absurd (omega (arith, l))
first_byte-append (b ∷ h) t l = refl

from_be-append :
    (h t : Text) → length h ≡ 5 → from_be_bytes (drop 1 (h ++ t)) ≡ from_be_bytes (drop 1 h)
unfolding from_be_bytes
from_be-append (a ∷ b ∷ c ∷ d ∷ e ∷ h) t l = refl
from_be-append _ t l = absurd (omega (arith, l))

-- A reader between two messages.
pub record IsFresh (c : Control) : Type 0 where
  pub whole_header : length c.header ≡ 5
  pub no_header : c.header_length ≡ 0
  pub no_body : c.body_length ≡ 0

pub header_only : (h b : Text) (n m : ℕ) → length h ≤ n → m ≡ 0 → take n h ++ take m b ≡ h
header_only h b n m l z = rw (take_all n h l, z) (append-nil h)

header_and_body :
    (h b : Text) (n m : ℕ) → length h ≤ n → length b ≤ m → take n h ++ take m b ≡ h ++ b
header_and_body h b n m l k = rw (take_all n h l, take_all m b k) refl

header_grows :
    (c : Control) (bs : Text)
    → c.header_length + length bs ≤ length c.header
    → c.body_length ≡ 0
    → take (c.header_length + length bs) (overwrite c.header_length bs c.header)
        ++ take c.body_length c.body
      ≡ buffered c ++ bs
header_grows c bs fits z =
    rw (take-overwrite c.header_length bs c.header fits, z)
      (append-nil _ ∙ ap (λ x. x ++ bs) (sym (append-nil _)))

body_grows :
    (c : Control) (bs : Text)
    → c.body_length + length bs ≤ length c.body
    → take c.header_length c.header
        ++ take (c.body_length + length bs) (overwrite c.body_length bs c.body)
      ≡ buffered c ++ bs
body_grows c bs fits =
    rw (take-overwrite c.body_length bs c.body fits)
      (sym (append_assoc (take c.header_length c.header) (take c.body_length c.body) bs))

module _ {Value : Type 0} (json : Json Value) (version : ℕ) where
  pub parse-header :
      (h t : Text)
      → length h ≡ 5
      → parse_control json version (h ++ t)
        ≡ parse_rest json version (first_byte h) (from_be_bytes (drop 1 h)) t
  unfolding parse_control
  parse-header h t l =
      let short : ltb (length (h ++ t)) 5 ≡ false = ground (arith, length-append h t) in
      rw (short, first_byte-append h t l, from_be-append h t l, drop-append h t 5 l) refl

  -- What a turn of the loop makes of some bytes: it needs more of them, or they end a message.
  pub data Stepped (c : Control) (bs : Text) : Turn × Control → Type 0 where
    more :
        (c' : Control) → IsWellFormed c' → buffered c' ≡ buffered c ++ bs → Stepped c bs (again, c')
    received :
        (c' : Control) (event : ControlEvent)
        → IsFresh c'
        → ((t : Text)
            → parse_control json version ((buffered c ++ bs) ++ t) ≡ message (done event) t)
        → Stepped c bs (stop (done event), c')
    rejected :
        (c' : Control) (e : IoError)
        → ((t : Text) → parse_control json version ((buffered c ++ bs) ++ t) ≡ message (fails e) t)
        → Stepped c bs (stop (fails e), c')

  -- A header and a whole body are one message.
  pub parse-message :
      (h b t : Text)
      → length h ≡ 5
      → bad_header (first_byte h) (length b) ≡ false
      → from_be_bytes (drop 1 h) ≡ length b
      → parse_control json version ((h ++ b) ++ t) ≡ message (judge json version b) t
  parse-message h b t l good n =
      let short : ltb (length (b ++ t)) (length b) ≡ false = ground (arith, length-append b t) in
      rw
        (
          append_assoc h b t,
          parse-header h (b ++ t) l,
          n,
          good,
          short,
          take-append b t (length b) refl,
          drop-append b t (length b) refl,
        )
        refl

  judged-Stepped :
      (c : Control) (bs : Text) (c' : Control) (r : Io ControlEvent)
      → length c'.header ≡ 5
      → ((t : Text) → parse_control json version ((buffered c ++ bs) ++ t) ≡ message r t)
      → Stepped c bs (judged json r c')
  judged-Stepped c bs c' (done event) l h =
      received _ event (record { whole_header = l; no_header = refl; no_body = refl }) h
  judged-Stepped c bs c' (fails e) l h = rejected c' e h

  module _ (c : Control) (bs : Text) (c' : Control) (l : length c'.header ≡ 5)
      (same : buffered c' ≡ buffered c ++ bs) where
    filled_header-Stepped :
        (full bad : Bool)
        → c'.body_length ≡ 0
        → c'.header_length ≤ 5
        → (c'.header_length == 5) ≡ full
        → bad_header (first_byte c'.header) (from_be_bytes (drop 1 c'.header)) ≡ bad
        → Stepped c bs (filled_header full bad c')
    filled_header-Stepped false bad z le f b = more c' (in_header c' l (ground arith) z) same
    filled_header-Stepped true true z le f b =
        let whole : buffered c ++ bs ≡ c'.header =
          sym same ∙ header_only c'.header c'.body _ _ (ground arith) z in
        rejected c' _ (λ t. rw whole (parse-header c'.header t l ∙ rw b refl))
    filled_header-Stepped true false z le f b =
        let n = from_be_bytes (drop 1 c'.header) in
        let size : length (resize n c'.body) ≡ n = length-resize n c'.body in
        let whole : buffered c ++ bs ≡ c'.header =
          sym same ∙ header_only c'.header c'.body _ _ (ground arith) z in
        more _ (in_body _ l (ground arith) (rw size b) (sym size) (ground (arith, size)))
          (header_only c'.header (resize n c'.body) _ _ (ground arith) z ∙ sym whole)

    filled_body-Stepped :
        (full : Bool)
        → c'.header_length ≡ 5
        → bad_header (first_byte c'.header) (length c'.body) ≡ false
        → from_be_bytes (drop 1 c'.header) ≡ length c'.body
        → c'.body_length ≤ length c'.body
        → (c'.body_length == length c'.body) ≡ full
        → Stepped c bs (filled_body json version full c')
    filled_body-Stepped false h b n le f = more c' (in_body c' l h b n (ground arith)) same
    filled_body-Stepped true h b n le f =
        let whole : buffered c ++ bs ≡ c'.header ++ c'.body =
          sym same ∙ header_and_body c'.header c'.body _ _ (ground arith) (ground arith) in
        judged-Stepped c bs c' (judge json version c'.body) l
          (λ t. rw whole (parse-message c'.header c'.body t l b n))

  pub take_header-Stepped :
      (c : Control) (bs : Text)
      → length c.header ≡ 5
      → c.body_length ≡ 0
      → c.header_length + length bs ≤ 5
      → Stepped c bs (take_header c bs)
  unfolding take_header
  take_header-Stepped c bs l z fits =
      let fits' : c.header_length + length bs ≤ length c.header = ground arith in
      filled_header-Stepped c bs _ (length-overwrite c.header_length bs c.header fits' ∙ l)
        (header_grows c bs fits' z) _ _ z fits refl refl

  pub take_body-Stepped :
      (c : Control) (bs : Text)
      → length c.header ≡ 5
      → c.header_length ≡ 5
      → bad_header (first_byte c.header) (length c.body) ≡ false
      → from_be_bytes (drop 1 c.header) ≡ length c.body
      → c.body_length + length bs ≤ length c.body
      → Stepped c bs (take_body json version c bs)
  unfolding take_body
  take_body-Stepped c bs l h b n fits =
      let size = length-overwrite c.body_length bs c.body fits in
      filled_body-Stepped c bs _ l (body_grows c bs fits) _ h (rw size b) (n ∙ sym size)
        (rw size fits) refl
