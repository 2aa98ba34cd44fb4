-- ===== src/Deploy/Decoder.antt =====
-- `Decoder` and `stream` of src/commands/deploy/sudo.rs: what arrives over ssh is the remote
-- terminal's output with the activator's responses in marked frames between it.
use sower.Prelude.{
  ℕ, zero, suc, Bool, true, false, not, ◌&&◌, ◌||◌, List, [], ◌∷◌, ◌++◌, Option, none, some, ℤ,
  Result, ok, err, Error, bail, or_fail, Text, bytes, text_eq, strip_prefix, split_once, length,
  is_some, if◌then◌else◌, ◌==◌,
}
use sower.Protocol.{Response, ResponseType}

-- FRAME_PREFIX: a record separator, the name and a unit separator.
unfoldable pub frame_prefix : Text
unfolding bytes
frame_prefix = 30 ∷ (bytes "sower-activator" ++ (31 ∷ []))

pub record Decoder : Type 0 where
  pub id : Text
  pub pending : Text
  pub in_frame : Bool
  pub completion : Option ℤ

abbrev pub new : Text → Decoder
new id = record { id = id; pending = []; in_frame = false; completion = none }

-- The terminal: what was written, and for each write to come whether it fails.
pub record Terminal : Type 0 where
  pub written : Text
  pub failures : List (Option Error)

abbrev next_failure : List (Option Error) → Option Error × List (Option Error)
next_failure [] = (none, [])
next_failure (f ∷ fs) = (f, fs)

abbrev after_write : Option Error → Text → Terminal → Result (Unit {0}) × Terminal
after_write none bs t = (ok tt, record t { written = t.written ++ bs })
after_write (some e) bs t = (err e, t)

unfoldable pub write_all : Text → Terminal → Result (Unit {0}) × Terminal
write_all bs t =
    let (f, rest) = next_failure t.failures in after_write f bs (record t { failures = rest })

-- The first place of the marker: what is before it and what is behind.
abbrev pub onto_before : ℕ → Option (Text × Text) → Option (Text × Text)
onto_before c none = none
onto_before c (some (before, behind)) = some (c ∷ before, behind)

abbrev pub found_here : ℕ → Option Text → Option (Text × Text) → Option (Text × Text)
found_here c none rest = onto_before c rest
found_here c (some behind) rest = some ([], behind)

unfoldable pub find_prefix : Text → Option (Text × Text)
find_prefix [] = none
find_prefix (c ∷ s) = found_here c (strip_prefix frame_prefix (c ∷ s)) (find_prefix s)

-- A proper prefix of the marker, and what is kept for it: the longest end of the text that is one.
unfoldable pub is_partial : Text → Bool
is_partial s = is_some (strip_prefix s frame_prefix) && not (text_eq s frame_prefix)

unfoldable pub retained : Text → Text × Text
retained [] = ([], [])
retained (c ∷ s) =
    let (emitted, kept) = retained s in
    if is_partial (c ∷ s) then ([], c ∷ s) else (c ∷ emitted, kept)

-- `trim_end_matches(['\r', '\n'])`, and `split_inclusive('\n')`, each piece with its line feed.
abbrev only_ends : Text → Bool
only_ends [] = true
only_ends (c ∷ s) = (c == 13 || c == 10) && only_ends s

unfoldable pub trim_ends : Text → Text
trim_ends [] = []
trim_ends (c ∷ s) = let rest = trim_ends s in if only_ends (c ∷ s) then [] else c ∷ rest

abbrev onto_piece : ℕ → List Text → List Text
onto_piece c [] = (c ∷ []) ∷ []
onto_piece c (p ∷ ps) = (c ∷ p) ∷ ps

unfoldable pub split_inclusive : Text → List Text
split_inclusive [] = []
split_inclusive (c ∷ s) =
    let rest = split_inclusive s in if c == 10 then (c ∷ []) ∷ rest else onto_piece c rest

abbrev pub then_write :
    Result (Unit {0}) × Terminal
    → (Terminal → Result (Unit {0}) × Terminal)
    → Result (Unit {0}) × Terminal
then_write (ok u, t) next = next t
then_write (err e, t) next = (err e, t)

unfoldable pub write_lines : List Text → Terminal → Result (Unit {0}) × Terminal
write_lines [] t = (ok tt, t)
write_lines (line ∷ lines) t =
    then_write (write_all (trim_ends line) t)
      (λ t'. then_write (write_all (13 ∷ 10 ∷ []) t') (write_lines lines))

-- What a decoder comes to, or the error that ends it.
abbrev pub Decoded : Type 0
Decoded = Result Decoder × Terminal

abbrev pub shown : Decoder → Result (Unit {0}) × Terminal → Decoded
shown self (ok u, t) = (ok self, t)
shown self (err e, t) = (err e, t)

abbrev pub completed : Decoder → Option ℤ → Terminal → Decoded
completed self none t = (bail (bytes "activator completion is missing its exit code"), t)
completed self (some code) t = (ok (record self { completion = some code }), t)

abbrev pub obey : Decoder → ResponseType → Response → Terminal → Decoded
obey self ResponseType.complete response t = completed self response.exit_code t
obey self ResponseType.output response t =
    shown self (write_lines (split_inclusive response.content) t)
obey self ResponseType.error response t =
    shown self (write_lines (split_inclusive response.content) t)

-- One response: those of other requests are passed over, and none may follow the completion.
abbrev pub accept_own : Bool → Option ℤ → Decoder → Response → Terminal → Decoded
accept_own false completion self response t = (ok self, t)
accept_own true (some code) self response t =
    (bail (bytes "activator sent another response after completion"), t)
accept_own true none self response t = obey self response.kind response t

unfoldable pub accept : Decoder → Response → Terminal → Decoded
accept self response t = accept_own (text_eq response.id self.id) self.completion self response t

abbrev pub then_scan : Decoded → (Decoder → Terminal → Decoded) → Decoded
then_scan (ok self, t) next = next self t
then_scan (err e, t) next = (err e, t)

-- What a `read` from ssh answers.
pub data Read : Type 0 where
  got : Text → Read
  interrupted : Read
  failed : Error → Read

module _ (parse_response : Text → Result Response) where
  abbrev pub accept_parsed : Result Response → Decoder → Terminal → Decoded
  accept_parsed (err e) self t = (err (bytes "invalid framed activator response" ∷ e), t)
  accept_parsed (ok response) self t = accept self response t

  -- A turn of the loop in a frame: up to its line feed, if that has arrived.
  abbrev pub in_frame_turn :
      Option (Text × Text) → (Decoder → Terminal → Decoded) → Decoder → Terminal → Decoded
  in_frame_turn none next self t = (ok self, t)
  in_frame_turn (some (line, behind)) next self t =
      then_scan (accept_parsed (parse_response line) self t)
        (λ self' t'. next (record self' { pending = behind; in_frame = false }) t')

  -- Between frames: up to the next marker, or all but what may begin one.
  abbrev pub outside_turn :
      Option (Text × Text) → (Decoder → Terminal → Decoded) → Decoder → Terminal → Decoded
  outside_turn (some (before, behind)) next self t =
      then_scan (shown self (write_all before t))
        (λ self' t'. next (record self' { pending = behind; in_frame = true }) t')
  outside_turn none next self t =
      let (emitted, kept) = retained self.pending in
      shown (record self { pending = kept }) (write_all emitted t)

  unfoldable pub scan_turn : Bool → (Decoder → Terminal → Decoded) → Decoder → Terminal → Decoded
  scan_turn true next self t = in_frame_turn (split_once 10 self.pending) next self t
  scan_turn false next self t = outside_turn (find_prefix self.pending) next self t

  abbrev pub unless_empty : Text → (Decoder → Terminal → Decoded) → Decoder → Terminal → Decoded
  unless_empty [] next self t = (ok self, t)
  unless_empty (c ∷ s) next self t = next self t

  -- The loop of `push`, with the bytes from the cursor on as `pending`. Each turn that goes on takes
  -- a byte at least, so one more turn than there are bytes is enough.
  unfoldable pub scan : ℕ → Decoder → Terminal → Decoded
  scan zero self t = (ok self, t)
  scan (suc fuel) self t = unless_empty self.pending (scan_turn self.in_frame (scan fuel)) self t

  unfoldable pub push : Decoder → Text → Terminal → Decoded
  push self bs t =
      let self' = record self { pending = self.pending ++ bs } in
      then_scan (scan (suc (length self'.pending)) self' t) (λ d t'. shown d (write_all [] t'))

  abbrev pub exit_code : Option ℤ → Result (Unit {0}) × Terminal → Result ℤ × Terminal
  exit_code completion (err e, t) = (err e, t)
  exit_code completion (ok u, t) =
      (or_fail completion (bytes "SSH closed without a matching activator completion"), t)

  -- `finish`, with whether a frame is open.
  abbrev pub finish_if : Bool → Decoder → Terminal → Result ℤ × Terminal
  finish_if true self t = (bail (bytes "SSH closed during an activator response frame"), t)
  finish_if false self t =
      exit_code self.completion (then_write (write_all self.pending t) (write_all []))

  unfoldable pub finish : Decoder → Terminal → Result ℤ × Terminal
  finish self t = finish_if self.in_frame self t

  abbrev pub then_read : Decoded → (Decoder → Terminal → Result ℤ × Terminal) → Result ℤ × Terminal
  then_read (ok self, t) next = next self t
  then_read (err e, t) next = (err e, t)

  -- The loop of `stream`, one clause for each answer of `read`. The list ends where ssh closes.
  unfoldable pub stream_from : List Read → Decoder → Terminal → Result ℤ × Terminal
  stream_from [] self t = finish self t
  stream_from (interrupted ∷ reads) self t = stream_from reads self t
  stream_from (failed e ∷ reads) self t = (err (bytes "read SSH activation output" ∷ e), t)
  stream_from (got [] ∷ reads) self t = finish self t
  stream_from (got (b ∷ bs) ∷ reads) self t = then_read (push self (b ∷ bs) t) (stream_from reads)

  unfoldable pub stream : List Read → Text → Terminal → Result ℤ × Terminal
  stream reads id t = stream_from reads (new id) t
