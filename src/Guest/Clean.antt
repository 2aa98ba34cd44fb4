-- ===== src/Guest/Clean.antt =====
-- The loop of `run` in guest/src/lib.rs and the command's processes: what a failure leaves of them.
use sower.Prelude.{ℕ, zero, suc, ◌≡◌, refl, arith, Bool, true, false, Option, none, some, Text}
use sower.Guest.Io.{Io, done, fails}
use sower.Guest.Action.{
  Action, pure, gets, After, Leads, Leads-keeps, Leads-if, Leads-bind, Leads-then, Keeps-pure,
  Keeps-gets, Keeps-modify,
}
use sower.Guest.Frame.{Json}
use sower.Guest.Control.{ControlEvent, pending, cancel, disconnected}
use sower.Guest.Output.{Output}
use sower.Guest.Tree.{Family, cleanup, root_exited}
use sower.Guest.Reported.{IsSane}
use sower.Guest.Ending.{Reported, cleanup-Leads, root_exited-Keeps}
use sower.Guest.Run.{
  Session, in_family, nonblocking, poll, close_stdin, flush_output, pipe_stdout, pipe_stderr,
  pipe_both, fed_input, feed, read_event, noted, report_status, report_exit, report_if,
  pipe_and_report, relay_if, relay, stop_command, reap_root, serve, handle, turn, then_loop,
  run_loop, run,
}

-- The two predicates on the command of a session.
abbrev pub Sane : Session → Type 0
Sane s = IsSane false s.family

abbrev pub Known : Session → Type 0
Known s = Reported s.family

-- An action that does nothing to the command's processes.
record Apart {A : Type 0} (m : Action Session A) : Type 0 where
  at : (s : Session) → (m s).1.family ≡ s.family

Apart-Leads : {A : Type 0} (m : Action Session A) → Apart m → Leads Sane Known m
Apart-Leads m k = Leads-keeps m (λ s h. h.reported) (record { at = λ s h. rw (k.at s) h })

in_family-Leads :
    {A : Type 0} (m : Action Family A)
    → Leads (IsSane false) Reported m
    → Leads Sane Known (in_family m)
unfolding in_family
in_family-Leads {A} m k = record { at = λ s h. go (m s.family) s (k.at s.family h) }
  where
    go :
        (o : Io A × Family) (s : Session)
        → After (IsSane false) Reported o.0 o.1
        → After Sane Known o.0 (record s { family = o.1 })
    go (done a, f) s h = h
    go (fails e, f) s h = h

nonblocking-Apart : Apart nonblocking
unfolding nonblocking
nonblocking-Apart = record { at = λ s. refl }

poll-Apart : Apart poll
unfolding poll
poll-Apart = record { at = λ s. refl }

close_stdin-Apart : Apart close_stdin
unfolding close_stdin
close_stdin-Apart = record { at = λ s. refl }

flush_output-Apart : Apart flush_output
unfolding flush_output
flush_output-Apart = record { at = λ s. refl }

pipe_stdout-Apart : Apart pipe_stdout
unfolding pipe_stdout
pipe_stdout-Apart = record { at = λ s. refl }

pipe_stderr-Apart : Apart pipe_stderr
unfolding pipe_stderr
pipe_stderr-Apart = record { at = λ s. refl }

gets-Leads : {A : Type 0} (f : Session → A) → Leads Sane Known (gets f)
gets-Leads f = Leads-keeps _ (λ s h. h.reported) (Keeps-gets f)

pure-Leads : {A : Type 0} (a : A) → Leads Sane Known (pure a)
pure-Leads a = Leads-keeps _ (λ s h. h.reported) (Keeps-pure a)

pipe_both-Leads : Leads Sane Known pipe_both
unfolding pipe_both
pipe_both-Leads =
    let out = Apart-Leads pipe_stdout pipe_stdout-Apart in
    let error = Apart-Leads pipe_stderr pipe_stderr-Apart in
    Leads-bind _ _ (gets-Leads _) (λ first.
      Leads-then _ _ (Leads-if first _ _ (Leads-then _ _ error out) (Leads-then _ _ out error))
        (Leads-keeps _ (λ s h. h.reported) (Keeps-modify _ (λ s h. h))))

module _ (input : Text) where
  feed-Apart : Apart (feed input)
  unfolding feed fed_input
  feed-Apart = record { at = λ s. ground arith }

module _ {Value : Type 0} (json : Json Value) (version : ℕ) where
  read_event-Apart : Apart (read_event json version)
  unfolding read_event
  read_event-Apart = record { at = λ s. refl }

  noted-family :
      (r : Io (Unit {0}) × Output) (s : Session) → (noted json version r s).1.family ≡ s.family
  noted-family (done u, output) s = refl
  noted-family (fails e, output) s = refl

  report_status-Apart : (status : Option ℕ) → Apart (report_status json version status)
  report_status-Apart none = record { at = λ s. refl }
  report_status-Apart (some status) = record { at = λ s. noted-family _ s }

  report_if-Leads : (ready : Bool) → Leads Sane Known (report_if json version ready)
  unfolding report_if report_exit
  report_if-Leads true =
      Apart-Leads _ (record { at = λ s. (report_status-Apart s.family.tree.status).at s })
  report_if-Leads false = pure-Leads tt

  relay_if-Leads : (idle : Bool) → Leads Sane Known (relay_if json version idle)
  unfolding relay_if pipe_and_report
  relay_if-Leads true =
      Leads-then _ _ pipe_both-Leads (Leads-bind _ _ (gets-Leads _) report_if-Leads)
  relay_if-Leads false = pure-Leads tt

  relay-Leads : Leads Sane Known (relay json version)
  unfolding relay
  relay-Leads = Leads-bind _ _ (gets-Leads _) relay_if-Leads

  module _ (input : Text) (fuel : ℕ) where
    stop_command-Leads : Leads Sane Known (stop_command json version input fuel)
    unfolding stop_command
    stop_command-Leads =
        Leads-then _ _ (Apart-Leads _ close_stdin-Apart)
          (in_family-Leads (cleanup fuel) (cleanup-Leads fuel))

    reap_root-Leads : Leads Sane Known (reap_root json version input fuel)
    unfolding reap_root
    reap_root-Leads = Leads-bind _ _ (gets-Leads _) (λ clean.
        Leads-bind _ _
          (Leads-if clean _ _ (pure-Leads false) (
            in_family-Leads root_exited
              (Leads-keeps root_exited (λ f h. h.reported) root_exited-Keeps)))
          (λ gone. Leads-if gone _ _ stop_command-Leads (pure-Leads tt)))

    serve-Leads : Leads Sane Known (serve json version input fuel)
    unfolding serve
    serve-Leads = Leads-then _ _ reap_root-Leads (
        Leads-then _ _ (Apart-Leads _ flush_output-Apart) (
          Leads-bind _ _ (gets-Leads _) (λ finished. Leads-if finished _ _ (pure-Leads true) (
            Leads-then _ _ (Apart-Leads _ (feed-Apart input)) (
              Leads-then _ _ relay-Leads
                (Leads-then _ _ (Apart-Leads _ poll-Apart) (pure-Leads false)))))))

    handle-Leads : (event : ControlEvent) → Leads Sane Known (handle json version input fuel event)
    unfolding handle
    handle-Leads disconnected = pure-Leads true
    handle-Leads cancel = Leads-then _ _ stop_command-Leads serve-Leads
    handle-Leads pending = serve-Leads

    turn-Leads : Leads Sane Known (turn json version input fuel)
    unfolding turn
    turn-Leads = Leads-bind _ _ (Apart-Leads _ read_event-Apart) handle-Leads

    then_loop-Leads :
        (rest : Action Session Bool)
        → Leads Sane Known rest
        → (b : Bool) → Leads Sane Known (then_loop json version input fuel rest b)
    then_loop-Leads rest k true = pure-Leads true
    then_loop-Leads rest k false = k

    run_loop-Leads : (turns : ℕ) → Leads Sane Known (run_loop json version input fuel turns)
    unfolding run_loop
    run_loop-Leads zero = pure-Leads false
    run_loop-Leads (suc turns) =
        Leads-bind _ _ turn-Leads (then_loop-Leads _ (run_loop-Leads turns))

    pub run-Leads : (turns : ℕ) → Leads Sane Known (run json version input fuel turns)
    unfolding run
    run-Leads turns =
        let step = Apart-Leads nonblocking nonblocking-Apart in
        Leads-then _ _ step
          (Leads-then _ _ step (Leads-then _ _ step (Leads-then _ _ step (run_loop-Leads turns))))
