-- ===== src/Guest/Control.antt =====
-- `Control` of guest/src/lib.rs: cancel requests, read from the connection as they arrive.
pub mod Buffer
pub mod Refines
pub mod Chunks
pub mod Cancel
use sower.Prelude.{
  ℕ, zero, suc, ◌+◌, ◌-◌, Bool, true, false, not, ◌&&◌, ◌||◌, List, [], ◌∷◌, ◌++◌, take, drop,
  length, Text, bytes, ◌==◌, ltb, if◌then◌else◌,
}
use sower.Guest.Io.{
  Io, done, fails, IoError, invalid, Arrival, read, is_interrupted, is_would_block,
}
use sower.Guest.Frame.{Json, max_frame, from_be_bytes}

pub record Control : Type 0 where
  pub header : Text
  pub header_length : ℕ
  pub body : Text
  pub body_length : ℕ

-- `Control::default`.
abbrev pub default : Control
default = record { header = 0 ∷ 0 ∷ 0 ∷ 0 ∷ 0 ∷ []; header_length = 0; body = []; body_length = 0 }

pub data ControlEvent : Type 0 where
  pending cancel disconnected : ControlEvent

-- What is read into `buffer[start..]`, and `Vec::resize` with zeros.
unfoldable pub overwrite : ℕ → Text → Text → Text
overwrite start bs buffer = take start buffer ++ (bs ++ drop (start + length bs) buffer)

abbrev pub resize : ℕ → Text → Text
resize zero s = []
resize (suc n) [] = 0 ∷ resize n []
resize (suc n) (b ∷ s) = b ∷ resize n s

abbrev pub first_byte : Text → ℕ
first_byte [] = 0
first_byte (b ∷ s) = b

-- One turn of the loop either ends it or goes on.
pub data Turn : Type 0 where
  stop : Io ControlEvent → Turn
  again : Turn

-- The length of the slice that is read into.
unfoldable pub space : Control → ℕ
space self =
    if ltb self.header_length 5 then 5 - self.header_length else length self.body - self.body_length

abbrev pub bad_header : ℕ → ℕ → Bool
bad_header kind size = not (kind == 1) || (size == 0 || ltb max_frame size)

-- With bytes added to the header: whether it is full, and if so whether it is bad.
abbrev pub filled_header : Bool → Bool → Control → Turn × Control
filled_header false bad self = (again, self)
filled_header true true self =
    (stop (fails (invalid (bytes "expected bounded cancel metadata frame"))), self)
filled_header true false self =
    (again, record self { body = resize (from_be_bytes (drop 1 self.header)) self.body })

unfoldable pub take_header : Control → Text → Turn × Control
take_header self bs =
    let header = overwrite self.header_length bs self.header in
    let filled = self.header_length + length bs in
    filled_header (filled == 5) (bad_header (first_byte header) (from_be_bytes (drop 1 header)))
      (record self { header = header; header_length = filled })

module _ {Value : Type 0} (json : Json Value) where
  -- Whether a whole body asks for cancellation.
  unfoldable pub judge : ℕ → Text → Io ControlEvent
  judge version body = elim (json.from_slice body) [
    | fails e ↦ fails e
    | done value ↦
        if not (version == 2)
          || (not (json.is_text (json.index value (bytes "type")) (bytes "cancel"))
              || not (json.is_number (json.index value (bytes "version")) 2))
        then fails (invalid (bytes "expected cancel request version 2"))
        else done cancel
  ]

  abbrev pub judged : Io ControlEvent → Control → Turn × Control
  judged (fails e) self = (stop (fails e), self)
  judged (done event) self = (stop (done event), record self { header_length = 0; body_length = 0 })

  -- With bytes added to the body: whether it is full.
  abbrev pub filled_body : ℕ → Bool → Control → Turn × Control
  filled_body version false self = (again, self)
  filled_body version true self = judged (judge version self.body) self

  unfoldable pub take_body : ℕ → Control → Text → Turn × Control
  take_body version self bs =
      let body = overwrite self.body_length bs self.body in
      let filled = self.body_length + length bs in
      filled_body version (filled == length body)
        (record self { body = body; body_length = filled })

  unfoldable pub turn : ℕ → Control → Io Text → Turn × Control
  turn version self (done []) = (stop (done disconnected), self)
  turn version self (done (b ∷ bs)) =
      if ltb self.header_length 5
      then take_header self (b ∷ bs)
      else take_body version self (b ∷ bs)
  turn version self (fails e) =
      if is_interrupted e
      then (again, self)
      else if is_would_block e
      then (stop (done pending), self)
      else (stop (fails e), self)

  abbrev pub ended_or :
      Turn × Control
      → List Arrival
      → (Control → (Io ControlEvent × Control) × List Arrival)
      → (Io ControlEvent × Control) × List Arrival
  ended_or (stop result, self) inbound rest = ((result, self), inbound)
  ended_or (again, self) inbound rest = rest self

  -- The loop of `Control::read`, on fuel.
  unfoldable pub read_loop :
      ℕ → ℕ → Control → List Arrival → (Io ControlEvent × Control) × List Arrival
  read_loop zero version self inbound = ((done pending, self), inbound)
  read_loop (suc fuel) version self inbound =
      let (got, inbound') = read (space self) inbound in
      ended_or (turn version self got) inbound' (λ self'. read_loop fuel version self' inbound')

  -- Each turn takes a byte or an errno, so the turns are at most this many and one.
  unfoldable pub turns : List Arrival → ℕ
  turns [] = 0
  turns (Arrival.arrived b bs ∷ s) = suc (length bs) + turns s
  turns (_ ∷ s) = suc (turns s)

  unfoldable pub read_control :
      ℕ → Control → List Arrival → (Io ControlEvent × Control) × List Arrival
  read_control version self inbound = read_loop (suc (turns inbound)) version self inbound
