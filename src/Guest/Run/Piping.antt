-- ===== src/Guest/Run/Piping.antt =====
-- The pipes of `run` in guest/src/lib.rs: what is read of them comes into frames.
use sower.Prelude.{
  ℕ, ◌≡◌, refl, ap, sym, ◌∙◌, arith, true, false, List, [], ◌∷◌, ◌++◌, Option, append_assoc,
  append-nil, all-append, Text, ◌==◌,
}
use sower.Guest.Io.{Io, Arrival}
use sower.Guest.Action.{Keeps, Keeps-gets, Keeps-if, Keeps-bind, Keeps-then, Keeps-modify}
use sower.Guest.Frame.{Json}
use sower.Guest.Output.{Output, is_drained, unsent, Wire}
use sower.Guest.Output.Buffered.{encode, Carries}
use sower.Guest.Output.Filled.{nothing_taken, Piped, nothing, framed, pipe-Piped}
use sower.Guest.Run.{pipe_stdout, pipe_stderr, pipe_both}
use sower.Guest.Run.Relay.{
  Frames, encode_all, bodies, is_data, encode_all-append, bodies-append, View, view, IsOpen,
  IsRelayed, going, complete,
}

drained-unsent : (self : Output) → is_drained self ≡ true → unsent self ≡ []
unfolding unsent
drained-unsent self e = nothing_taken self.sent self.size self.buffer (ground arith)

moved :
    (kind : ℕ) (frames : Frames) (body l l' total : Text)
    → l ≡ body ++ l'
    → bodies kind frames ++ l ≡ total
    → bodies kind (frames ++ ((kind, body) ∷ [])) ++ l' ≡ total
moved kind frames body l l' total e h =
    let same : (kind == kind) ≡ true = ground arith in
    ap (λ x. x ++ l') (bodies-append kind frames kind body)
    ∙ rw same (
        append_assoc (bodies kind frames) body l' ∙ (ap (λ x. bodies kind frames ++ x) (sym e) ∙ h))

other_kind :
    (kind k : ℕ) (frames : Frames) (body l total : Text)
    → (k == kind) ≡ false
    → bodies kind frames ++ l ≡ total
    → bodies kind (frames ++ ((k, body) ∷ [])) ++ l ≡ total
other_kind kind k frames body l total n h =
    ap (λ x. x ++ l) (bodies-append kind frames k body)
    ∙ rw n (ap (λ x. x ++ l) (append-nil (bodies kind frames)) ∙ h)

module _ (base outs errors : Text) where
  sent_whole :
      (v : View) (o : IsOpen base outs errors v)
      → is_drained v.output ≡ true
      → v.sent ≡ base ++ encode_all o.frames
  sent_whole v o d =
      sym (append-nil v.sent)
      ∙ (ap (λ x. v.sent ++ x) (sym (drained-unsent v.output d)) ∙ o.on_wire)

  -- One frame more.
  pub sent_on :
      (v : View) (o : IsOpen base outs errors v) (kind : ℕ) (body : Text)
      → is_drained v.output ≡ true
      → v.sent ++ encode kind body ≡ base ++ (encode_all o.frames ++ encode kind body)
  sent_on v o kind body d =
      ap (λ x. x ++ encode kind body) (sent_whole v o d)
      ∙ append_assoc base (encode_all o.frames) (encode kind body)

  sent_on_all :
      (v : View) (o : IsOpen base outs errors v) (kind : ℕ) (body : Text)
      → is_drained v.output ≡ true
      → v.sent ++ encode kind body ≡ base ++ encode_all (o.frames ++ ((kind, body) ∷ []))
  sent_on_all v o kind body d =
      sent_on v o kind body d ∙ ap (λ x. base ++ x) (sym (encode_all-append o.frames kind body))

  stdout-IsOpen :
      (v : View) (p : (Io (Unit {0}) × Output) × Option (List Arrival))
      → IsOpen base outs errors v
      → Piped v.output v.stdout 2 p
      → IsOpen base outs errors (record v { output = (p.0).1; stdout = p.1 })
  stdout-IsOpen v _ o (nothing r s' e) = record {
    frames = o.frames;
    buffer = o.buffer;
    on_wire = o.on_wire;
    from_stdout = ap (λ x. bodies 2 o.frames ++ x) e ∙ o.from_stdout;
    from_stderr = o.from_stderr;
    plain = o.plain;
    not_terminal = o.not_terminal;
  }
  stdout-IsOpen v _ o (framed body self' s' b d e f) = record {
    frames = o.frames ++ ((2, body) ∷ []);
    buffer = b;
    on_wire = ap (λ x. v.sent ++ x) e ∙ sent_on_all v o 2 body d;
    from_stdout = moved 2 o.frames body _ _ _ f o.from_stdout;
    from_stderr = other_kind 3 2 o.frames body _ _ refl o.from_stderr;
    plain = all-append is_data o.frames ((2, body) ∷ []) ∙ ground (arith, o.plain);
    not_terminal = o.not_terminal;
  }

  stderr-IsOpen :
      (v : View) (p : (Io (Unit {0}) × Output) × Option (List Arrival))
      → IsOpen base outs errors v
      → Piped v.output v.stderr 3 p
      → IsOpen base outs errors (record v { output = (p.0).1; stderr = p.1 })
  stderr-IsOpen v _ o (nothing r s' e) = record {
    frames = o.frames;
    buffer = o.buffer;
    on_wire = o.on_wire;
    from_stdout = o.from_stdout;
    from_stderr = ap (λ x. bodies 3 o.frames ++ x) e ∙ o.from_stderr;
    plain = o.plain;
    not_terminal = o.not_terminal;
  }
  stderr-IsOpen v _ o (framed body self' s' b d e f) = record {
    frames = o.frames ++ ((3, body) ∷ []);
    buffer = b;
    on_wire = ap (λ x. v.sent ++ x) e ∙ sent_on_all v o 3 body d;
    from_stdout = other_kind 2 3 o.frames body _ _ refl o.from_stdout;
    from_stderr = moved 3 o.frames body _ _ _ f o.from_stderr;
    plain = all-append is_data o.frames ((3, body) ∷ []) ∙ ground (arith, o.plain);
    not_terminal = o.not_terminal;
  }

  -- What is on the wire and in the buffer stays the same bytes.
  pub flushed-IsRelayed :
      {Value : Type 0} (json : Json Value) (version : ℕ) (v : View) (w : Wire)
      → IsRelayed json version base outs errors v
      → Carries (v.sent ++ unsent v.output) w
      → IsRelayed json version base outs errors (record v { output = w.output; sent = w.taken })
  flushed-IsRelayed json version v w (going o) c = going (record {
    frames = o.frames;
    buffer = c.buffer;
    on_wire = c.bytes_kept ∙ o.on_wire;
    from_stdout = o.from_stdout;
    from_stderr = o.from_stderr;
    plain = o.plain;
    not_terminal = o.not_terminal;
  })
  flushed-IsRelayed json version v w (complete o) c = complete (record {
    frames = o.frames;
    status = o.status;
    report = o.report;
    buffer = c.buffer;
    on_wire = c.bytes_kept ∙ o.on_wire;
    from_stdout = o.from_stdout;
    from_stderr = o.from_stderr;
    plain = o.plain;
    reported = o.reported;
    is_terminal = o.is_terminal;
  })

  pipe_stdout-Keeps : Keeps (λ s. IsOpen base outs errors (view s)) pipe_stdout
  unfolding pipe_stdout
  pipe_stdout-Keeps = record {
    at = λ s o. stdout-IsOpen (view s) _ o (pipe-Piped s.output s.stdout 2 o.buffer);
  }

  pipe_stderr-Keeps : Keeps (λ s. IsOpen base outs errors (view s)) pipe_stderr
  unfolding pipe_stderr
  pipe_stderr-Keeps = record {
    at = λ s o. stderr-IsOpen (view s) _ o (pipe-Piped s.output s.stderr 3 o.buffer);
  }

  pub pipe_both-Keeps : Keeps (λ s. IsOpen base outs errors (view s)) pipe_both
  unfolding pipe_both
  pipe_both-Keeps = Keeps-bind _ _ (Keeps-gets _) (λ first.
      Keeps-then _ _
        (Keeps-if first _ _ (Keeps-then _ _ pipe_stderr-Keeps pipe_stdout-Keeps)
          (Keeps-then _ _ pipe_stdout-Keeps pipe_stderr-Keeps))
        (Keeps-modify _ (λ s o. o)))
