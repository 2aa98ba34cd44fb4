-- ===== src/Guest/Output.antt =====
-- `Output` of guest/src/lib.rs: the one frame that is buffered for the connection.
pub mod Buffered
pub mod Filled
use sower.Prelude.{
  ℕ, zero, suc, ◌+◌, Bool, true, false, not, List, [], ◌∷◌, ◌++◌, Option, none, some, take, drop,
  length, Text, bytes, ◌==◌, leb, ltb, if◌then◌else◌,
}
use sower.Guest.Io.{
  Io, done, fails, IoError, raw, write_zero, Arrival, read, Room, is_interrupted, is_would_block,
}
use sower.Guest.Frame.{Json, chunk, to_be_bytes}
use sower.Guest.Control.{overwrite}

pub record Output : Type 0 where
  pub buffer : Text
  pub size : ℕ
  pub sent : ℕ

abbrev pub zeros : ℕ → Text
zeros zero = []
zeros (suc n) = 0 ∷ zeros n

-- `Output::new`.
abbrev pub new : Output
new = record { buffer = zeros (chunk + 5); size = 0; sent = 0 }

abbrev pub is_drained : Output → Bool
is_drained self = self.size == 0

unfoldable pub header : Output → ℕ → ℕ → Output
header self kind size = record self {
  buffer = overwrite 0 (kind ∷ to_be_bytes size) self.buffer;
  size = size + 5;
}

-- What `pipe` does with what it read.
unfoldable pub piped :
    Output → ℕ → Io Text → List Arrival → (Io (Unit {0}) × Output) × Option (List Arrival)
piped self kind (done []) rest = ((done tt, self), none)
piped self kind (done (b ∷ bs)) rest = (
  (
    done tt,
    header (record self { buffer = overwrite 5 (b ∷ bs) self.buffer }) kind (length (b ∷ bs)),
  ),
  some rest,
)
piped self kind (fails e) rest =
    if is_would_block e
    then ((done tt, self), some rest)
    else if is_interrupted e
    then ((done tt, self), some rest)
    else ((fails e, self), some rest)

unfoldable pub pipe :
    Output → Option (List Arrival) → ℕ → (Io (Unit {0}) × Output) × Option (List Arrival)
pipe self none kind = ((done tt, self), none)
pipe self (some reader) kind =
    if not (is_drained self)
    then ((done tt, self), some reader)
    else (let (got, rest) = read chunk reader in piped self kind got rest)

-- The bytes that `flush` has still to send.
unfoldable pub unsent : Output → Text
unsent self = drop self.sent (take self.size self.buffer)

-- The output, what the connection will take, and what it has taken.
pub record Wire : Type 0 where
  pub output : Output
  pub outbound : List Room
  pub taken : Text

abbrev pub flushed : Output → Output
flushed self = record self { sent = 0; size = 0 }

-- One `write` that took `n` bytes at most.
unfoldable pub send_some : ℕ → Output → Text → Output × Text
send_some n self taken =
    let bs = take n (unsent self) in (record self { sent = self.sent + length bs }, taken ++ bs)

-- `flush`, one clause for each answer of `write`.
unfoldable pub flush : Output → List Room → Text → Io (Unit {0}) × Wire
flush self [] taken = (
  done tt,
  record {
    output = if ltb self.sent self.size then self else flushed self;
    outbound = [];
    taken = taken;
  },
)
flush self (Room.room n ∷ r) taken = elim (ltb self.sent self.size) [
  | false ↦ (done tt, record { output = flushed self; outbound = Room.room n ∷ r; taken = taken })
  | true ↦ elim n [
    | zero ↦ (fails write_zero, record { output = self; outbound = r; taken = taken })
    | suc m ↦ flush (send_some (suc m) self taken).0 r (send_some (suc m) self taken).1
  ]
]
flush self (Room.full e ∷ r) taken = elim (ltb self.sent self.size) [
  | false ↦ (done tt, record { output = flushed self; outbound = Room.full e ∷ r; taken = taken })
  | true ↦ elim (e == 4) [
    | true ↦ flush self r taken
    | false ↦ (
      if e == 11 then done tt else fails (raw e),
      record { output = self; outbound = r; taken = taken },
    )
  ]
]

module _ {Value : Type 0} (json : Json Value) where
  unfoldable pub exited_value : ℕ → ℕ → Value
  exited_value version status = json.object (
      (bytes "type", json.text (bytes "exited"))
      ∷ (bytes "version", json.number version)
      ∷ (bytes "code", json.code status)
      ∷ (bytes "signal", json.signal status)
      ∷ [])

  -- A report that is longer than the buffer is an error.
  unfoldable pub report : Output → Io Text → Io (Unit {0}) × Output
  report self (fails e) = (fails e, self)
  report self (done body) =
      if leb (length body) chunk
      then (done tt, header (record self { buffer = overwrite 5 body self.buffer }) 1 (length body))
      else (fails write_zero, record self { buffer = overwrite 5 (take chunk body) self.buffer })

  unfoldable pub exited : Output → ℕ → ℕ → Io (Unit {0}) × Output
  exited self version status = report self (json.to_vec (exited_value version status))
