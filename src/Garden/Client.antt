-- ===== src/Garden/Client.antt =====
-- The reply stream of src/commands/garden/client.rs.
use sower.Prelude.{
  ℕ, zero, suc, ◌+◌, true, false, List, [], ◌∷◌, ◌++◌, Option, none, some, ℤ, Text, bytes, concat,
  decimal, Result, ok, err, Error, bail, or_fail, split_once, length, ltb, if◌then◌else◌,
}
use sower.Garden.Protocol.{
  max_line_bytes, PendingDeployment, StatusReport, Reply, ReplyKind, reply_ok, reply_error,
  reply_complete,
}

-- What `fill_buf` will answer: bytes, a timeout, or another error. Where the list ends, the garden has closed.
pub data Fill : Type 0 where
  chunk : ℕ → Text → Fill
  stalled : Fill
  broken : Error → Fill

-- `consume`: what was not taken stays in the buffer.
abbrev pub put_back : Text → List Fill → List Fill
put_back [] s = s
put_back (b ∷ bs) s = chunk b bs ∷ s

-- The two streams that the client writes to, which take all that is written.
pub record Printed : Type 0 where
  pub out : Text
  pub error : Text

abbrev writeln : Text → Text
writeln t = t ++ (10 ∷ [])

abbrev separated : List Text → Text
separated [] = []
separated (t ∷ []) = t
separated (t ∷ u ∷ ts) = t ++ (bytes ", " ++ separated (u ∷ ts))

-- A link of the terminal with the seed's page.
abbrev pending_link : PendingDeployment → Text
pending_link d = concat (
    (27 ∷ bytes "]8;;")
    ∷ d.seed_url
    ∷ (27 ∷ bytes "\\")
    ∷ d.seed_sid
    ∷ (27 ∷ bytes "]8;;")
    ∷ (27 ∷ bytes "\\")
    ∷ [])

abbrev pub links : List PendingDeployment → List Text
links [] = []
links (d ∷ ds) = pending_link d ∷ links ds

abbrev pub active_line : List Text → Text
active_line [] = writeln (bytes "active deployments: none")
active_line (d ∷ ds) = writeln (bytes "active deployments: " ++ separated (d ∷ ds))

abbrev pub pending_line : Option (List PendingDeployment) → Text
pending_line none = writeln (bytes "pending deployments: unknown")
pending_line (some []) = writeln (bytes "pending deployments: none")
pending_line (some (d ∷ ds)) = writeln (bytes "pending deployments: " ++ separated (links (d ∷ ds)))

abbrev pub credentials_line : Option Text → Text
credentials_line none = writeln (bytes "credentials: ok")
credentials_line (some at) = writeln (
    concat (
      bytes "credentials: rejected at "
      ∷ at
      ∷ bytes ", awaiting operator re-registration (sower garden reregister)"
      ∷ []))

unfoldable pub write_status : StatusReport → Text
write_status status =
    writeln (bytes "version: " ++ status.version)
    ++ (active_line status.active_deployments
        ++ (pending_line status.pending_deployments
            ++ credentials_line status.credentials_rejected_at))

abbrev pub data_line : Option Text → Text
data_line none = []
data_line (some []) = []
data_line (some (c ∷ t)) = writeln (c ∷ t)

abbrev pub status_text : Option StatusReport → Text
status_text none = []
status_text (some status) = write_status status

unfoldable pub emit_ok : Reply → Printed → Printed
emit_ok reply p = record p { out = p.out ++ (status_text reply.status ++ data_line reply.content) }

unfoldable pub emit_error : Reply → Printed → Printed
emit_error reply p = record p { error = p.error ++ data_line reply.content }

-- `parse_reply` is serde's and `from_utf8` std's.
module _ (from_utf8 : Text → Result Text) (parse_reply : Text → Result Reply) where
  abbrev pub too_long : {A : Type 0} → ℕ → Result A
  too_long max = bail (bytes "reply frame exceeds " ++ (decimal max ++ bytes " byte limit"))

  abbrev pub whole_line : Result Text → Result (Option Text)
  whole_line (ok line) = ok (some line)
  whole_line (err e) = err (bytes "reply frame not valid UTF-8" ∷ e)

  abbrev pub at_end : Text → Result (Option Text)
  at_end [] = ok none
  at_end (b ∷ buf) = bail (bytes "reply frame truncated (no trailing newline)")

  -- The end of a line in the chunk: the line, and what stays in the buffer.
  abbrev pub end_line : ℕ → Text → Text → Text → List Fill → Result (Option Text) × List Fill
  end_line max buf line rest reader =
      if ltb max (length buf + length line)
      then (too_long max, put_back (line ++ (10 ∷ rest)) reader)
      else (whole_line (from_utf8 (buf ++ line)), put_back rest reader)

  -- `read_line_capped`, with what is buffered already.
  unfoldable pub read_line_from : ℕ → Text → List Fill → Result (Option Text) × List Fill
  read_line_from max buf [] = (at_end buf, [])
  read_line_from max buf (stalled ∷ reader) =
      (bail (bytes "timed out waiting for a reply from the garden"), reader)
  read_line_from max buf (broken e ∷ reader) = (err (bytes "read reply frame" ∷ e), reader)
  read_line_from max buf (chunk b bs ∷ reader) = elim (split_once 10 (b ∷ bs)) [
    | some found ↦ (let (line, rest) = found in end_line max buf line rest reader)
    | none ↦ elim (ltb max (length buf + length (b ∷ bs))) [
      | true ↦ (too_long max, chunk b bs ∷ reader)
      | false ↦ read_line_from max (buf ++ (b ∷ bs)) reader
    ]
  ]

  unfoldable pub read_line_capped : ℕ → List Fill → Result (Option Text) × List Fill
  read_line_capped max reader = read_line_from max [] reader

  -- What one line makes of the stream: its end, or more output.
  pub data Step : Type 0 where
    finished : Result ℤ → Step
    going : Printed → Step

  abbrev pub step_reply : ReplyKind → Reply → Printed → Step
  step_reply reply_ok reply p = going (emit_ok reply p)
  step_reply reply_error reply p = going (emit_error reply p)
  step_reply reply_complete reply p =
      finished (or_fail reply.exit_code (bytes "complete frame missing exit_code"))

  abbrev pub step_parsed : Result Reply → Printed → Step
  step_parsed (err e) p = finished (err (bytes "decode reply frame" ∷ e))
  step_parsed (ok reply) p = step_reply reply.kind reply p

  unfoldable pub step_line : Result (Option Text) → Printed → Step
  step_line (err e) p = finished (err e)
  step_line (ok none) p =
      finished (bail (bytes "garden closed the connection without a complete frame"))
  step_line (ok (some line)) p = step_parsed (parse_reply line) p

  abbrev pub unless_finished : Step → Printed → (Printed → Result ℤ × Printed) → Result ℤ × Printed
  unless_finished (finished r) p next = (r, p)
  unless_finished (going p') p next = next p'

  -- The loop over the lines, on fuel: each line takes a byte at least.
  unfoldable pub replies_loop : ℕ → List Fill → Printed → Result ℤ × Printed
  replies_loop zero reader p =
      (bail (bytes "garden closed the connection without a complete frame"), p)
  replies_loop (suc fuel) reader p =
      let (line, reader') = read_line_capped max_line_bytes reader in
      unless_finished (step_line line p) p (replies_loop fuel reader')

  unfoldable pub arriving : List Fill → ℕ
  arriving [] = 0
  arriving (chunk b bs ∷ reader) = suc (length bs) + arriving reader
  arriving (stalled ∷ reader) = suc (arriving reader)
  arriving (broken e ∷ reader) = suc (arriving reader)

  unfoldable pub stream_replies : List Fill → Printed → Result ℤ × Printed
  stream_replies reader p = replies_loop (suc (arriving reader)) reader p
