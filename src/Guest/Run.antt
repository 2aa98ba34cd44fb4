-- ===== src/Guest/Run.antt =====
-- `run` of guest/src/lib.rs: the loop that relays one command's output.
pub mod Relay
pub mod Piping
pub mod Relays
use sower.Prelude.{
  ℕ, zero, suc, ◌+◌, Bool, true, false, not, ◌&&◌, List, [], ◌∷◌, ◌++◌, Option, none, some, take,
  drop, length, Text, bytes, ◌==◌, if◌then◌else◌, is_some,
}
use sower.Guest.Io.{
  Io, done, fails, IoError, raw, other, Arrival, Room, write, is_interrupted, is_would_block,
  is_broken_pipe,
}
use sower.Guest.Action.{Action, pure, lift, gets, modify, ◌>>=◌, ◌>>◌}
use sower.Guest.Frame.{Json, Socket}
use sower.Guest.Control.{Control, ControlEvent, read_control}
use sower.Guest.Output.{Output, is_drained, pipe, flush, exited}
use sower.Guest.Tree.{Family, cleanup, root_exited}

-- The local variables of `run`, the descriptors that they name, and what `fcntl` and `poll` will
-- answer. `fed` is what the command's standard input has taken.
pub record Session : Type 0 where
  pub family : Family
  pub socket : Socket
  pub control : Control
  pub output : Output
  pub stdin : Option (List Room)
  pub fed : Text
  pub input_sent : ℕ
  pub stdout : Option (List Arrival)
  pub stderr : Option (List Arrival)
  pub stderr_first : Bool
  pub terminal : Bool
  pub answers : List (Option ℕ)

unfoldable pub in_family : {A : Type 0} → Action Family A → Action Session A
in_family m s = let (r, f) = m s.family in (r, record s { family = f })

-- The next answer of a call that only succeeds or fails.
abbrev pub next_answer : List (Option ℕ) → Io (Unit {0}) × List (Option ℕ)
next_answer [] = (done tt, [])
next_answer (none ∷ r) = (done tt, r)
next_answer (some e ∷ r) = (fails (raw e), r)

unfoldable pub nonblocking : Action Session (Unit {0})
nonblocking s = let (r, rest) = next_answer s.answers in (r, record s { answers = rest })

abbrev pub poll_result : Io (Unit {0}) → Io (Unit {0})
poll_result (done u) = done tt
poll_result (fails e) = if is_interrupted e then done tt else fails e

unfoldable pub poll : Action Session (Unit {0})
poll s = let (r, rest) = next_answer s.answers in (poll_result r, record s { answers = rest })

unfoldable pub close_stdin : Action Session (Unit {0})
close_stdin s = (done tt, record s { stdin = none })

unfoldable pub flush_output : Action Session (Unit {0})
flush_output s =
    let (r, wire) = flush s.output s.socket.outbound s.socket.sent in
    (
      r,
      record s {
        output = wire.output;
        socket = record s.socket { outbound = wire.outbound; sent = wire.taken };
      },
    )

unfoldable pub pipe_stdout : Action Session (Unit {0})
pipe_stdout s =
    let ((r, output), rest) = pipe s.output s.stdout 2 in
    (r, record s { output = output; stdout = rest })

unfoldable pub pipe_stderr : Action Session (Unit {0})
pipe_stderr s =
    let ((r, output), rest) = pipe s.output s.stderr 3 in
    (r, record s { output = output; stderr = rest })

unfoldable pub pipe_both : Action Session (Unit {0})
pipe_both = do
  first ← gets (λ s. s.stderr_first)
  if first then (pipe_stderr >> pipe_stdout) else (pipe_stdout >> pipe_stderr)
  modify (λ s. record s { stderr_first = not s.stderr_first })

-- The command's exit can be reported once all its processes are gone and all it wrote is sent.
abbrev pub may_report : Session → Bool
may_report s =
    s.family.tree.clean
    && (not (is_some s.stdout) && (not (is_some s.stderr) && is_drained s.output))

abbrev pub may_relay : Session → Bool
may_relay s = not s.terminal && is_drained s.output

module _ (input : Text) where
  -- What a write to the command's standard input comes to.
  unfoldable pub fed_input : Io ℕ → List Room → Action Session (Unit {0})
  fed_input (done n) rest s = (
    done tt,
    record s {
      stdin = if s.input_sent + n == length input then none else some rest;
      fed = s.fed ++ take n (drop s.input_sent input);
      input_sent = s.input_sent + n;
    },
  )
  fed_input (fails e) rest s =
      if is_broken_pipe e
      then (done tt, record s { stdin = none })
      else if is_would_block e
      then (done tt, record s { stdin = some rest })
      else if is_interrupted e
      then (done tt, record s { stdin = some rest })
      else (fails e, record s { stdin = some rest })

  unfoldable pub feed : Action Session (Unit {0})
  feed s = elim s.stdin [
    | none ↦ (done tt, s)
    | some writer ↦ (let (r, rest) = write (drop s.input_sent input) writer in fed_input r rest s)
  ]

module _ {Value : Type 0} (json : Json Value) (version : ℕ) where
  unfoldable pub read_event : Action Session ControlEvent
  read_event s =
      let ((r, control), inbound) = read_control json version s.control s.socket.inbound in
      (r, record s { control = control; socket = record s.socket { inbound = inbound } })

  abbrev pub noted : Io (Unit {0}) × Output → Action Session (Unit {0})
  noted (fails e, output) s = (fails e, record s { output = output })
  noted (done u, output) s = (done tt, record s { output = output; terminal = true })

  abbrev pub report_status : Option ℕ → Action Session (Unit {0})
  report_status none s = (fails (other (bytes "called `Option::unwrap()` on a `None` value")), s)
  report_status (some status) s = noted (exited json s.output version status) s

  -- `output.exited(version, tree.status.unwrap())?; terminal = true`.
  unfoldable pub report_exit : Action Session (Unit {0})
  report_exit s = report_status s.family.tree.status s

  unfoldable pub report_if : Bool → Action Session (Unit {0})
  report_if true = report_exit
  report_if false = pure tt

  -- Both pipes, and the report if that was all.
  unfoldable pub pipe_and_report : Action Session (Unit {0})
  pipe_and_report = pipe_both >>= λ _. (gets may_report >>= report_if)

  unfoldable pub relay_if : Bool → Action Session (Unit {0})
  relay_if true = pipe_and_report
  relay_if false = pure tt

  unfoldable pub relay : Action Session (Unit {0})
  relay = gets may_relay >>= relay_if

  module _ (input : Text) (fuel : ℕ) where
    unfoldable pub stop_command : Action Session (Unit {0})
    stop_command = close_stdin >> in_family (cleanup fuel)

    unfoldable pub reap_root : Action Session (Unit {0})
    reap_root = do
      clean ← gets (λ s. s.family.tree.clean)
      gone ← if clean then pure false else in_family root_exited
      if gone then stop_command else pure tt

    -- A turn of the loop after the control message; whether `run` returns.
    unfoldable pub serve : Action Session Bool
    serve = do
      reap_root
      flush_output
      finished ← gets (λ s. s.terminal && is_drained s.output)
      if finished then pure true else (do feed input; relay; poll; pure false)

    unfoldable pub handle : ControlEvent → Action Session Bool
    handle ControlEvent.disconnected = pure true
    handle ControlEvent.cancel = stop_command >> serve
    handle ControlEvent.pending = serve

    unfoldable pub turn : Action Session Bool
    turn = read_event >>= handle

    abbrev pub then_loop : Action Session Bool → Bool → Action Session Bool
    then_loop rest true = pure true
    then_loop rest false = rest

    -- The loop, for at most so many turns: `done true` when `run` returned, `done false` when it
    -- is running still.
    unfoldable pub run_loop : ℕ → Action Session Bool
    run_loop zero = pure false
    run_loop (suc turns) = turn >>= then_loop (run_loop turns)

    unfoldable pub run : ℕ → Action Session Bool
    run turns = do nonblocking; nonblocking; nonblocking; nonblocking; run_loop turns
