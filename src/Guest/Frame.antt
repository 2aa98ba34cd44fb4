-- ===== src/Guest/Frame.antt =====
-- The frames of guest/src/lib.rs, and the request that the first of them carries.
use sower.Prelude.{
  ℕ, ◌+◌, ◌*◌, ◌/◌, ◌%◌, Bool, not, ◌&&◌, ◌||◌, List, [], ◌∷◌, ◌++◌, Option, length, Text, bytes,
  starts_with, ◌==◌, ltb, if◌then◌else◌,
}
use sower.Guest.Io.{
  Io, done, fails, IoError, invalid, Arrival, read_exact, Room, write_all, ◌>>=◌, ◌>>◌,
  ok_or_invalid, check,
}

abbrev pub max_frame : ℕ
max_frame = 65536

abbrev pub chunk : ℕ
chunk = 8192

-- What the agent uses of serde_json and of std's `ExitStatus`.
pub record Json (Value : Type 0) : Type 0 where
  pub from_slice : Text → Io Value
  pub to_vec : Value → Io Text
  pub index : Value → Text → Value
  pub get : Value → Text → Option Value
  pub is_text : Value → Text → Bool
  pub is_number : Value → ℕ → Bool
  pub as_str : Value → Option Text
  pub as_array : Value → Option (List Value)
  pub as_object : Value → Option (List (Text × Value))
  pub object : List (Text × Value) → Value
  pub text : Text → Value
  pub number : ℕ → Value
  pub code : ℕ → Value
  pub signal : ℕ → Value
  pub message : IoError → Text

-- `to_be_bytes` and `from_be_bytes` at `u32`.
unfoldable pub to_be_bytes : ℕ → Text
to_be_bytes n = n / 16777216 % 256 ∷ n / 65536 % 256 ∷ n / 256 % 256 ∷ n % 256 ∷ []

unfoldable pub from_be_bytes : Text → ℕ
from_be_bytes (a ∷ b ∷ c ∷ d ∷ s) = a * 16777216 + b * 65536 + c * 256 + d
from_be_bytes s = 0

-- The connection: what will arrive, what room there will be, and what was sent.
pub record Socket : Type 0 where
  pub inbound : List Arrival
  pub outbound : List Room
  pub sent : Text

abbrev send_all : Text → Socket → Io (Unit {0}) × Socket
send_all bs socket =
    let ((result, taken), outbound) = write_all bs socket.outbound in
    (result, record socket { outbound = outbound; sent = socket.sent ++ taken })

abbrev pub then_send :
    Io (Unit {0}) × Socket → (Socket → Io (Unit {0}) × Socket) → Io (Unit {0}) × Socket
then_send (done u, socket) next = next socket
then_send (fails e, socket) next = (fails e, socket)

unfoldable pub frame : Socket → ℕ → Text → Io (Unit {0}) × Socket
unfolding to_be_bytes
frame stream kind body =
    if ltb max_frame (length body)
    then (fails (invalid (bytes "frame exceeds 65536 bytes")), stream)
    else then_send (send_all (kind ∷ []) stream)
        (λ s. then_send (send_all (to_be_bytes (length body)) s) (λ s'. send_all body s'))

-- A command that may be spawned, always with a process group of its own and three pipes.
pub record Command : Type 0 where
  pub path : Text
  pub args : List Text
  pub env : List (Text × Text)

module _ {Value : Type 0} (json : Json Value) where
  unfoldable pub metadata : Socket → Value → Io (Unit {0}) × Socket
  metadata stream value = elim (json.to_vec value) [
    | done body ↦ frame stream 1 body
    | fails e ↦ (fails e, stream)
  ]

  unfoldable pub arguments : List Value → Io (List Text)
  arguments [] = done []
  arguments (arg ∷ args) = do
    first ← ok_or_invalid (json.as_str arg) (bytes "args must contain strings")
    rest ← arguments args
    done (first ∷ rest)

  unfoldable pub environment : List (Text × Value) → Io (List (Text × Text))
  environment [] = done []
  environment ((key, value) ∷ env) = do
    first ← ok_or_invalid (json.as_str value) (bytes "env values must be strings")
    rest ← environment env
    done ((key, first) ∷ rest)

  -- The version that the error reports of this connection carry.
  unfoldable pub reported_version : Value → ℕ → ℕ
  reported_version request version =
      if json.is_number (json.index request (bytes "version")) 1 then 1 else version

  -- The checks of `request` on the parsed metadata.
  unfoldable pub command_of : Value → Io (Command × Text)
  command_of request =
      let version = json.index request (bytes "version") in
      do
        check
            (json.is_text (json.index request (bytes "type")) (bytes "execute")
              && (json.is_number version 1 || json.is_number version 2))
            (bytes "expected execute request version 1 or 2")
        path ←
            ok_or_invalid (json.as_str (json.index request (bytes "path")))
              (bytes "path must be a string")
        check (starts_with path (b'/' ∷ [])) (bytes "path must be absolute")
        args ←
            ok_or_invalid (json.as_array (json.index request (bytes "args")))
              (bytes "args must be an array")
        env ←
            ok_or_invalid (json.as_object (json.index request (bytes "env")))
              (bytes "env must be an object")
        payload ←
            ok_or_invalid (json.get request (bytes "stdin")) (bytes "stdin payload is required")
        args ← arguments args
        env ← environment env
        input ← json.to_vec payload
        done (record { path = path; args = args; env = env }, input)

  -- `request` on a body that was read.
  unfoldable pub request_body : Text → ℕ → Io (Command × Text) × ℕ
  request_body body version = elim (json.from_slice body) [
    | done value ↦ (command_of value, reported_version value version)
    | fails e ↦ (fails e, version)
  ]

  abbrev header_kind : Text → ℕ
  header_kind [] = 0
  header_kind (kind ∷ s) = kind

  abbrev tail : Text → Text
  tail [] = []
  tail (kind ∷ s) = s

  abbrev request_rest : ℕ → Io Text × List Arrival → (Io (Command × Text) × ℕ) × List Arrival
  request_rest version (done body, inbound) = (request_body body version, inbound)
  request_rest version (fails e, inbound) = ((fails e, version), inbound)

  -- The request, the version for later reports, and what is left to arrive.
  unfoldable pub request : List Arrival → ℕ → (Io (Command × Text) × ℕ) × List Arrival
  request inbound version =
      let (got, inbound') = read_exact 5 inbound in
      elim got [
        | fails e ↦ ((fails e, version), inbound')
        | done header ↦
            if not (header_kind header == 1) || ltb max_frame (from_be_bytes (tail header))
            then (
              (fails (invalid (bytes "expected bounded execute metadata frame")), version),
              inbound',
            )
            else request_rest version (read_exact (from_be_bytes (tail header)) inbound')
      ]
