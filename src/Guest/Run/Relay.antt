-- ===== src/Guest/Run/Relay.antt =====
-- What `run` of guest/src/lib.rs has relayed of a command's output, at any moment.
use sower.Prelude.{
  ℕ, ◌≡◌, refl, ap, sym, ◌∙◌, Bool, true, false, ◌||◌, List, [], ◌∷◌, ◌++◌, Option, append_assoc,
  append-nil, all, inl, inr, Bool-cases, Text, ◌==◌, if◌then◌else◌,
}
use sower.Guest.Io.{done, Arrival}
use sower.Guest.Frame.{Json}
use sower.Guest.Output.{Output, unsent, exited_value}
use sower.Guest.Output.Buffered.{encode, IsBuffer}
use sower.Guest.Output.Filled.{left}
use sower.Guest.Run.{Session}

-- Frames, each with its kind, in the order in which they are sent.
abbrev pub Frames : Type 0
Frames = List (ℕ × Text)

unfoldable pub encode_all : Frames → Text
encode_all [] = []
encode_all ((kind, body) ∷ frames) = encode kind body ++ encode_all frames

-- The bodies of the frames of one kind, joined: kind 2 carries stdout, kind 3 stderr.
unfoldable pub bodies : ℕ → Frames → Text
bodies kind [] = []
bodies kind ((k, body) ∷ frames) =
    let rest = bodies kind frames in if k == kind then body ++ rest else rest

abbrev pub is_data : ℕ × Text → Bool
is_data (kind, body) = kind == 2 || kind == 3

pub encode_all-append :
    (frames : Frames) (kind : ℕ) (body : Text)
    → encode_all (frames ++ ((kind, body) ∷ [])) ≡ encode_all frames ++ encode kind body
unfolding encode_all
encode_all-append [] kind body = append-nil (encode kind body)
encode_all-append ((k, b) ∷ frames) kind body =
    ap (λ x. encode k b ++ x) (encode_all-append frames kind body)
    ∙ sym (append_assoc (encode k b) (encode_all frames) (encode kind body))

pub bodies-append :
    (kind : ℕ) (frames : Frames) (k : ℕ) (body : Text)
    → bodies kind (frames ++ ((k, body) ∷ []))
      ≡ bodies kind frames ++ (if k == kind then body else [])
unfolding bodies
bodies-append kind [] k body = elim (Bool-cases (k == kind)) [
  | inl y ↦ rw y (append-nil body)
  | inr n ↦ rw n refl
]
bodies-append kind ((j, b) ∷ frames) k body = elim (Bool-cases (j == kind)) [
  | inl y ↦
      rw (y, bodies)
        (ap (λ x. b ++ x) (bodies-append kind frames k body)
          ∙ sym (append_assoc b (bodies kind frames) _))
  | inr n ↦ rw (n, bodies) (bodies-append kind frames k body)
]

-- What shows of a session: the bytes on the connection, the output buffer and the two pipes.
pub record View : Type 0 where
  pub sent : Text
  pub output : Output
  pub stdout : Option (List Arrival)
  pub stderr : Option (List Arrival)
  pub terminal : Bool

abbrev pub view : Session → View
view s = record {
  sent = s.socket.sent;
  output = s.output;
  stdout = s.stdout;
  stderr = s.stderr;
  terminal = s.terminal;
}

-- Before the exit is reported: after what the connection carried before, the bytes sent and the
-- buffer hold whole data frames, whose bodies are what was read of the two pipes.
pub record IsOpen (base outs errors : Text) (v : View) : Type 0 where
  pub frames : Frames
  pub buffer : IsBuffer v.output
  pub on_wire : v.sent ++ unsent v.output ≡ base ++ encode_all frames
  pub from_stdout : bodies 2 frames ++ left v.stdout ≡ outs
  pub from_stderr : bodies 3 frames ++ left v.stderr ≡ errors
  pub plain : all is_data frames ≡ true
  pub not_terminal : v.terminal ≡ false

module _ {Value : Type 0} (json : Json Value) (version : ℕ) where
  -- Once it is reported: all of both pipes, and after it one report of an exit status and no more.
  pub record IsComplete (base outs errors : Text) (v : View) : Type 0 where
    pub frames : Frames
    pub status : ℕ
    pub report : Text
    pub buffer : IsBuffer v.output
    pub on_wire : v.sent ++ unsent v.output ≡ base ++ (encode_all frames ++ encode 1 report)
    pub from_stdout : bodies 2 frames ≡ outs
    pub from_stderr : bodies 3 frames ≡ errors
    pub plain : all is_data frames ≡ true
    pub reported : json.to_vec (exited_value json version status) ≡ done report
    pub is_terminal : v.terminal ≡ true

  pub data IsRelayed (base outs errors : Text) (v : View) : Type 0 where
    going : IsOpen base outs errors v → IsRelayed base outs errors v
    complete : IsComplete base outs errors v → IsRelayed base outs errors v
