-- ===== src/Guest/Output/Filled.antt =====
-- How a frame comes into the output buffer of guest/src/lib.rs.
use sower.Prelude.{
  ℕ, zero, suc, ◌+◌, ◌≤◌, ◌≡◌, refl, ap, sym, ◌∙◌, arith, true, Bool-cases, List, [], ◌∷◌, ◌++◌,
  Option, none, some, take, drop, length, length-append, append_assoc, take-append-drop, Text, leb,
  ◌==◌, inl, inr,
}
use sower.Guest.Io.{Io, done, fails, IoError, raw, write_zero, Arrival, put_back, read}
use sower.Guest.Frame.{Json, chunk, to_be_bytes}
use sower.Guest.Control.{overwrite}
use sower.Guest.Control.Buffer.{
  length-take, length-take-le, take-append, drop-append, length-overwrite,
}
use sower.Guest.Output.{
  Output, is_drained, header, piped, pipe, unsent, report, exited, exited_value,
}
use sower.Guest.Output.Buffered.{encode, IsBuffer}

-- A body that `read` put behind the place of the header.
abbrev pub placed : Output → Text → Output
placed self body = record self { buffer = overwrite 5 body self.buffer }

front :
    (n : ℕ) (hdr body rest X : Text)
    → n ≡ 0
    → length hdr ≡ 5
    → drop 5 X ≡ body ++ rest
    → drop n (take (length body + 5) (overwrite 0 hdr X)) ≡ hdr ++ body
unfolding overwrite
front n hdr body rest X z l e =
    let five : 0 + length hdr ≡ 5 = omega (arith, l) in
    rw (z, five, e, sym (append_assoc hdr body rest))
      (take-append (hdr ++ body) rest (length body + 5) (length-append hdr body ∙ omega (arith, l)))

module _ (self : Output) (kind : ℕ) (body : Text) (b : IsBuffer self)
    (empty : is_drained self ≡ true) (fits : length body ≤ chunk) where
  length_header : (n : ℕ) → length (kind ∷ to_be_bytes n) ≡ 5
  unfolding to_be_bytes
  length_header n = refl

  after_header : drop 5 (overwrite 5 body self.buffer) ≡ body ++ drop (5 + length body) self.buffer
  unfolding overwrite
  after_header =
      drop-append (take 5 self.buffer) _ 5 (length-take 5 self.buffer (omega (arith, b.capacity)))

  pub header-encode : unsent (header (placed self body) kind (length body)) ≡ encode kind body
  unfolding unsent header encode
  header-encode =
      front self.sent (kind ∷ to_be_bytes (length body)) body _ _ (ground (arith, b.in_front))
        (length_header (length body)) after_header

  pub header-IsBuffer : IsBuffer (header (placed self body) kind (length body))
  unfolding header to_be_bytes
  header-IsBuffer = record {
    capacity =
        length-overwrite 0 (kind ∷ to_be_bytes (length body)) (overwrite 5 body self.buffer) (
          rw (length-overwrite 5 body self.buffer (omega (arith, b.capacity, fits)))
            (omega (arith, b.capacity, length_header (length body))))
        ∙ (length-overwrite 5 body self.buffer (omega (arith, b.capacity, fits)) ∙ b.capacity);
    fits = omega (arith, fits);
    in_front = ground (arith, b.in_front);
  }

pub nothing_taken : (n m : ℕ) (t : Text) → m ≡ 0 → drop n (take m t) ≡ []
nothing_taken zero m t z = rw z refl
nothing_taken (suc n) m t z = rw z refl

-- Bytes behind the header of an empty buffer do not show.
module _ (self : Output) (bs : Text) (b : IsBuffer self) (empty : is_drained self ≡ true)
    (fits : length bs ≤ chunk) where
  placed-IsBuffer : IsBuffer (placed self bs)
  placed-IsBuffer = record {
    capacity = length-overwrite 5 bs self.buffer (omega (arith, b.capacity, fits)) ∙ b.capacity;
    fits = b.fits;
    in_front = b.in_front;
  }

  placed-unsent : unsent (placed self bs) ≡ unsent self
  unfolding unsent
  placed-unsent =
      nothing_taken self.sent self.size _ (ground arith)
      ∙ sym (nothing_taken self.sent self.size _ (ground arith))

-- What a pipe has still to give before its end.
unfoldable pub content : List Arrival → Text
content [] = []
content (Arrival.arrived b bs ∷ s) = (b ∷ bs) ++ content s
content (Arrival.closed ∷ s) = []
content (Arrival.refused e ∷ s) = content s

unfoldable pub left : Option (List Arrival) → Text
left none = []
left (some s) = content s

content-put_back : (t : Text) (s : List Arrival) → content (put_back t s) ≡ t ++ content s
unfolding content
content-put_back [] s = refl
content-put_back (b ∷ bs) s = refl

-- What `pipe` did: nothing that shows, or a frame that it buffered for what it read.
pub data Piped (self : Output) (s : Option (List Arrival)) (kind : ℕ)
    : (Io (Unit {0}) × Output) × Option (List Arrival) → Type 0 where
  nothing :
      (r : Io (Unit {0})) (s' : Option (List Arrival))
      → left s' ≡ left s
      → Piped self s kind ((r, self), s')
  framed :
      (body : Text) (self' : Output) (s' : Option (List Arrival))
      → IsBuffer self'
      → is_drained self ≡ true
      → unsent self' ≡ encode kind body
      → left s ≡ body ++ left s'
      → Piped self s kind ((done tt, self'), s')

piped-Piped :
    (self : Output) (kind : ℕ) (s : List Arrival)
    → IsBuffer self
    → is_drained self ≡ true
    → Piped self (some s) kind (piped self kind (read chunk s).0 (read chunk s).1)
unfolding piped read left content
piped-Piped self kind [] b e = nothing (done tt) (some []) refl
piped-Piped self kind (Arrival.arrived c cs ∷ s) b e =
    let body = c ∷ take 8191 cs in
    let fits : length body ≤ chunk = omega (arith, length-take-le 8191 cs) in
    framed body _ (some (put_back (drop 8191 cs) s)) (header-IsBuffer self kind body b e fits) e
      (header-encode self kind body b e fits)
      (sym (
        ap (λ x. body ++ x) (content-put_back (drop 8191 cs) s)
        ∙ (sym (append_assoc body (drop 8191 cs) (content s))
            ∙ ap (λ x. (c ∷ x) ++ content s) (take-append-drop 8191 cs))))
piped-Piped self kind (Arrival.closed ∷ s) b e = nothing (done tt) none refl
piped-Piped self kind (Arrival.refused x ∷ s) b e = elim (Bool-cases (x == 11)) [
  | inl y ↦ rw (y, piped) (nothing (done tt) (some s) refl)
  | inr n ↦ elim (Bool-cases (x == 4)) [
    | inl y ↦ rw (n, y, piped) (nothing (done tt) (some s) refl)
    | inr n' ↦ rw (n, n', piped) (nothing (fails (raw x)) (some s) refl)
  ]
]

pub pipe-Piped :
    (self : Output) (s : Option (List Arrival)) (kind : ℕ)
    → IsBuffer self
    → Piped self s kind (pipe self s kind)
unfolding pipe
pipe-Piped self none kind b = nothing (done tt) none refl
pipe-Piped self (some s) kind b = elim (Bool-cases (is_drained self)) [
  | inl y ↦ rw (y, pipe) (piped-Piped self kind s b y)
  | inr n ↦ rw (n, pipe) (nothing (done tt) (some s) refl)
]

module _ {Value : Type 0} (json : Json Value) where
  -- What `exited` did: an error that leaves nothing to send, or the report in a frame.
  pub data Exited (self : Output) (version status : ℕ) : Io (Unit {0}) × Output → Type 0 where
    not_reported :
        (e : IoError) (self' : Output)
        → IsBuffer self'
        → unsent self' ≡ unsent self
        → Exited self version status (fails e, self')
    reported :
        (body : Text) (self' : Output)
        → IsBuffer self'
        → json.to_vec (exited_value json version status) ≡ done body
        → unsent self' ≡ encode 1 body
        → Exited self version status (done tt, self')

  report-Exited :
      (self : Output) (version status : ℕ) (r : Io Text)
      → IsBuffer self
      → is_drained self ≡ true
      → json.to_vec (exited_value json version status) ≡ r
      → Exited self version status (report json self r)
  unfolding report
  report-Exited self version status (fails e) b d h = not_reported e self b refl
  report-Exited self version status (done body) b d h =
      elim (Bool-cases (leb (length body) chunk)) [
        | inl y ↦
            let fits : length body ≤ chunk = ground (arith, y) in
            rw (y, report)
              (reported body _ (header-IsBuffer self 1 body b d fits) h
                (header-encode self 1 body b d fits))
        | inr n ↦
            rw (n, report)
              (not_reported write_zero _
                (placed-IsBuffer self (take chunk body) b d (length-take-le chunk body))
                (placed-unsent self (take chunk body) b d (length-take-le chunk body)))
      ]

  pub exited-Exited :
      (self : Output) (version status : ℕ)
      → IsBuffer self
      → is_drained self ≡ true
      → Exited self version status (exited json self version status)
  unfolding exited
  exited-Exited self version status b d = report-Exited self version status _ b d refl
