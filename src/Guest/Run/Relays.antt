-- ===== src/Guest/Run/Relays.antt =====
-- `run` of guest/src/lib.rs relays all output in order, and the exit once and last.
use sower.Prelude.{
  ℕ, zero, suc, ◌≡◌, refl, ap, sym, subst, ◌∙◌, arith, Bool, true, false, List, [], ◌++◌, Option,
  none, some, append-nil, Text,
}
use sower.Guest.Io.{Io, Arrival}
use sower.Guest.Action.{
  Action, pure, gets, ◌>>=◌, Keeps, Keeps-pure, Keeps-gets, Keeps-if, Keeps-bind, Keeps-then,
  Keeps-weaken,
}
use sower.Guest.Frame.{Json}
use sower.Guest.Control.{ControlEvent, pending, cancel, disconnected}
use sower.Guest.Output.{Output, is_drained, unsent}
use sower.Guest.Output.Buffered.{IsBuffer, flush-Carries}
use sower.Guest.Output.Filled.{left, Exited, not_reported, reported, exited-Exited}
use sower.Guest.Run.{
  Session, in_family, nonblocking, poll, close_stdin, flush_output, pipe_both, may_report,
  fed_input, feed, read_event, noted, report_status, report_if, pipe_and_report, report_exit,
  relay_if, may_relay, relay, stop_command, reap_root, serve, handle, turn, then_loop, run_loop,
  run,
}
use sower.Guest.Tree.{Family, cleanup, root_exited}
use sower.Guest.Run.Relay.{Frames, encode_all, bodies, view, IsOpen, IsRelayed, going, complete}
use sower.Guest.Run.Piping.{sent_on, flushed-IsRelayed, pipe_both-Keeps}

-- Actions that nothing of shows.
record Aside {A : Type 0} (m : Action Session A) : Type 0 where
  at : (s : Session) → view (m s).1 ≡ view s

module _ {Value : Type 0} (json : Json Value) (version : ℕ) (base outs errors : Text) where
  abbrev Relayed : Session → Type 0
  Relayed s = IsRelayed json version base outs errors (view s)

  Aside-Keeps : {A : Type 0} (m : Action Session A) → Aside m → Keeps Relayed m
  Aside-Keeps m k = record {
    at = λ s h. subst (IsRelayed json version base outs errors) (sym (k.at s)) h;
  }

  flush_output-Keeps : Keeps Relayed flush_output
  unfolding flush_output
  flush_output-Keeps = record {
    at = λ s h.
        flushed-IsRelayed base outs errors json version (view s) _ h
          (flush-Carries s.output s.socket.outbound s.socket.sent (buffer_of s h));
  }
    where
      buffer_of : (s : Session) → Relayed s → IsBuffer s.output
      buffer_of s (going o) = o.buffer
      buffer_of s (complete o) = o.buffer

  none-left :
      (kind : ℕ) (frames : Frames) (p : Option (List Arrival)) {total : Text}
      → p ≡ none
      → bodies kind frames ++ left p ≡ total
      → bodies kind frames ≡ total
  unfolding left
  none-left kind frames p e h =
      sym (append-nil (bodies kind frames)) ∙ (ap (λ x. bodies kind frames ++ left x) (sym e) ∙ h)

  -- The report goes behind all that both pipes gave.
  Exited-IsRelayed :
      (s : Session) (status : ℕ) (o : IsOpen base outs errors (view s))
      → is_drained s.output ≡ true
      → s.stdout ≡ none
      → s.stderr ≡ none
      → (r : Io (Unit {0}) × Output) → Exited json s.output version status r
      → Relayed (noted json version r s).1
  Exited-IsRelayed s status o d e e' _ (not_reported x self' b same) = going (record {
    frames = o.frames;
    buffer = b;
    on_wire = ap (λ x. s.socket.sent ++ x) same ∙ o.on_wire;
    from_stdout = o.from_stdout;
    from_stderr = o.from_stderr;
    plain = o.plain;
    not_terminal = o.not_terminal;
  })
  Exited-IsRelayed s status o d e e' _ (reported body self' b h same) = complete (record {
    frames = o.frames;
    status = status;
    report = body;
    buffer = b;
    on_wire = ap (λ x. s.socket.sent ++ x) same ∙ sent_on base outs errors (view s) o 1 body d;
    from_stdout = none-left 2 o.frames s.stdout e o.from_stdout;
    from_stderr = none-left 3 o.frames s.stderr e' o.from_stderr;
    plain = o.plain;
    reported = h;
    is_terminal = refl;
  })

  report_status-IsRelayed :
      (s : Session) (status : Option ℕ)
      → IsOpen base outs errors (view s)
      → is_drained s.output ≡ true
      → s.stdout ≡ none
      → s.stderr ≡ none
      → Relayed (report_status json version status s).1
  report_status-IsRelayed s none o d e e' = going o
  report_status-IsRelayed s (some status) o d e e' =
      Exited-IsRelayed s status o d e e' _ (exited-Exited json s.output version status o.buffer d)

  report_if-IsRelayed :
      (s : Session)
      → IsOpen base outs errors (view s)
      → Relayed (report_if json version (may_report s) s).1
  unfolding report_if report_exit pure
  report_if-IsRelayed s o = go (may_report s) refl
    where
      go : (b : Bool) → may_report s ≡ b → Relayed (report_if json version b s).1
      go false e = going o
      go true e =
          report_status-IsRelayed s s.family.tree.status o (ground arith) (ground arith)
            (ground arith)

  pipe_and_report-IsRelayed :
      (s : Session) → IsOpen base outs errors (view s) → Relayed (pipe_and_report json version s).1
  unfolding pipe_and_report ◌>>=◌ gets
  pipe_and_report-IsRelayed =
      Keeps-weaken {B = Unit {0}} {Q = Relayed} pipe_both
        (λ _. gets may_report >>= report_if json version) (pipe_both-Keeps base outs errors)
        (λ s o. going o) (λ _ s o. report_if-IsRelayed s o)

  relay_if-IsRelayed : (s : Session) → Relayed s → Relayed (relay_if json version (may_relay s) s).1
  unfolding relay_if pure
  relay_if-IsRelayed s h = go (may_relay s) refl h
    where
      go : (b : Bool) → may_relay s ≡ b → Relayed s → Relayed (relay_if json version b s).1
      go false e h' = h'
      go true e (going o) = pipe_and_report-IsRelayed s o
      go true e (complete o) = absurd (ground (arith, o.is_terminal))

  relay-Keeps : Keeps Relayed (relay json version)
  unfolding relay ◌>>=◌
  relay-Keeps = record { at = λ s h. relay_if-IsRelayed s h }

  module _ (input : Text) (fuel : ℕ) where
    in_family-Keeps : {A : Type 0} (m : Action Family A) → Keeps Relayed (in_family m)
    unfolding in_family
    in_family-Keeps m = record { at = λ s h. h }

    close_stdin-Keeps : Keeps Relayed close_stdin
    unfolding close_stdin
    close_stdin-Keeps = record { at = λ s h. h }

    stop_command-Keeps : Keeps Relayed (stop_command json version input fuel)
    unfolding stop_command
    stop_command-Keeps = Keeps-then _ _ close_stdin-Keeps (in_family-Keeps (cleanup fuel))

    reap_root-Keeps : Keeps Relayed (reap_root json version input fuel)
    unfolding reap_root
    reap_root-Keeps = Keeps-bind _ _ (Keeps-gets _) (λ clean.
        Keeps-bind _ _ (Keeps-if clean _ _ (Keeps-pure false) (in_family-Keeps root_exited))
          (λ gone. Keeps-if gone _ _ stop_command-Keeps (Keeps-pure tt)))

    feed-Aside : Aside (feed input)
    unfolding feed fed_input
    feed-Aside = record { at = λ s. ground arith }

    poll-Keeps : Keeps Relayed poll
    unfolding poll
    poll-Keeps = record { at = λ s h. h }

    nonblocking-Keeps : Keeps Relayed nonblocking
    unfolding nonblocking
    nonblocking-Keeps = record { at = λ s h. h }

    read_event-Keeps : Keeps Relayed (read_event json version)
    unfolding read_event
    read_event-Keeps = record { at = λ s h. h }

    serve-Keeps : Keeps Relayed (serve json version input fuel)
    unfolding serve
    serve-Keeps = Keeps-then _ _ reap_root-Keeps (
        Keeps-then _ _ flush_output-Keeps (
          Keeps-bind _ _ (Keeps-gets _) (λ finished. Keeps-if finished _ _ (Keeps-pure true) (
            Keeps-then _ _ (Aside-Keeps _ feed-Aside)
              (Keeps-then _ _ relay-Keeps (Keeps-then _ _ poll-Keeps (Keeps-pure false)))))))

    handle-Keeps : (event : ControlEvent) → Keeps Relayed (handle json version input fuel event)
    unfolding handle
    handle-Keeps disconnected = Keeps-pure true
    handle-Keeps cancel = Keeps-then _ _ stop_command-Keeps serve-Keeps
    handle-Keeps pending = serve-Keeps

    then_loop-Keeps :
        (rest : Action Session Bool)
        → Keeps Relayed rest
        → (b : Bool) → Keeps Relayed (then_loop json version input fuel rest b)
    then_loop-Keeps rest k true = Keeps-pure true
    then_loop-Keeps rest k false = k

    run_loop-Keeps : (turns : ℕ) → Keeps Relayed (run_loop json version input fuel turns)
    unfolding run_loop turn
    run_loop-Keeps zero = Keeps-pure false
    run_loop-Keeps (suc turns) =
        Keeps-bind _ _ (Keeps-bind _ _ read_event-Keeps handle-Keeps)
          (then_loop-Keeps _ (run_loop-Keeps turns))

    run-Keeps : (turns : ℕ) → Keeps Relayed (run json version input fuel turns)
    unfolding run
    run-Keeps turns = Keeps-then _ _ nonblocking-Keeps (
        Keeps-then _ _ nonblocking-Keeps (
          Keeps-then _ _ nonblocking-Keeps
            (Keeps-then _ _ nonblocking-Keeps (run_loop-Keeps turns))))

-- After any number of turns, however the command, the client and the kernel behave and whether or not `run` fails, what was sent on the connection and what is buffered for it are whole frames: data frames whose bodies, joined, are what was read of stdout and of stderr so far and, once an exit is reported, all of both, with that one report behind them.
pub run_relays :
    {Value : Type 0} (json : Json Value) (version : ℕ) (input : Text) (fuel turns : ℕ) (s : Session)
    → IsBuffer s.output
    → unsent s.output ≡ []
    → s.terminal ≡ false
    → IsRelayed json version s.socket.sent
        (left s.stdout)
        (left s.stderr)
        (view (run json version input fuel turns s).1)
unfolding encode_all left bodies
run_relays json version input fuel turns s b e t =
    (run-Keeps json version s.socket.sent (left s.stdout) (left s.stderr) input fuel turns).at s (
      going (record {
        frames = [];
        buffer = b;
        on_wire = ap (λ x. s.socket.sent ++ x) e;
        from_stdout = refl;
        from_stderr = refl;
        plain = refl;
        not_terminal = t;
      }))
