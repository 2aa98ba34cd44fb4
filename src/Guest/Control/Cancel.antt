-- ===== src/Guest/Control/Cancel.antt =====
-- A frame that a client of guest/src/lib.rs encodes is read back as its body.
use sower.Prelude.{
  ℕ, ◌≤◌, ◌<◌, ◌≡◌, refl, ap, ◌∙◌, arith, false, List, [], ◌∷◌, ◌++◌, take, length, Text,
}
use sower.Guest.Io.{Io, done, Arrival}
use sower.Guest.Frame.{Json, max_frame, to_be_bytes, from_be_bytes}
use sower.Guest.Control.{Control, ControlEvent, bad_header, judge, read_control}
use sower.Guest.Control.Refines.{
  Parsed, message, parse_control, buffered, available, in_header, IsFresh, parse-message,
}
use sower.Guest.Control.Chunks.{Agrees, unfinished, one_event, refusal, read_control_lem}
use sower.Guest.Output.Buffered.{encode}

from_be-to_be : (n : ℕ) → n < 4294967296 → from_be_bytes (to_be_bytes n) ≡ n
unfolding from_be_bytes to_be_bytes
from_be-to_be n h = omega (arith, h)

no_bytes : (n m : ℕ) (h b : Text) → n ≡ 0 → m ≡ 0 → take n h ++ take m b ≡ []
no_bytes n m h b z z' = rw (z, z') refl

length_bytes : (n : ℕ) → length (1 ∷ to_be_bytes n) ≡ 5
unfolding to_be_bytes
length_bytes n = refl

-- What the reader gives where the parser finds an event.
Agrees-event :
    {all rest : Text} {end : Io ControlEvent} {after : List Arrival} {p : Parsed}
    {event : ControlEvent} (o : (Io ControlEvent × Control) × List Arrival)
    → Agrees all end after p o
    → p ≡ message (done event) rest
    → ((o.0).0 ≡ done event) × (available o.1 ≡ rest)
Agrees-event _ (unfinished c w e) h = absurd (ground arith)
Agrees-event _ (one_event event rest c s f e e' e'') h = (ground arith, e ∙ ground arith)
Agrees-event _ (refusal x rest c s) h = absurd (ground arith)

module _ {Value : Type 0} (json : Json Value) (version : ℕ) where
  -- A request that fits a frame, encoded as a frame and followed by any bytes, is read back as the event that its body asks for, and the bytes that follow are left, whatever pieces all these bytes arrive in.
  pub read_control-encode :
      (c : Control) (s : List Arrival) (body rest : Text) (event : ControlEvent)
      → IsFresh c
      → available s ≡ encode 1 body ++ rest
      → 0 < length body
      → length body ≤ max_frame
      → judge json version body ≡ done event
      → (((read_control json version c s).0).0 ≡ done event)
        × (available (read_control json version c s).1 ≡ rest)
  unfolding encode
  read_control-encode c s body rest event f e some_byte fits j =
      let n = length body in
      let h = 1 ∷ to_be_bytes n in
      let back : from_be_bytes (to_be_bytes n) ≡ n = from_be-to_be n (omega (arith, fits)) in
      let good : bad_header 1 n ≡ false = ground arith in
      let all : buffered c ++ available s ≡ (h ++ body) ++ rest =
        ap (λ x. x ++ available s)
          (no_bytes c.header_length c.body_length c.header c.body f.no_header f.no_body)
        ∙ e in
      let found : parse_control json version (buffered c ++ available s)
          ≡ message (done event) rest =
        ap (parse_control json version) all
        ∙ (parse-message json version h body rest (length_bytes n) good back
            ∙ ap (λ r. message r rest) j) in
      Agrees-event _
        (read_control_lem json version c s
          (in_header c f.whole_header (ground (arith, f.no_header)) f.no_body))
        found
