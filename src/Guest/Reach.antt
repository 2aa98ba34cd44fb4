-- ===== src/Guest/Reach.antt =====
-- The runtime of guest/src/lib.rs over any number of connections.
use sower.Prelude.{ℕ, ◌≡◌, ◌∙◌, refl, arith, Bool, true, false, [], Text, All}
use sower.Guest.Io.{Io, done, fails, IoError}
use sower.Guest.Action.{After}
use sower.Guest.Frame.{Json, Socket, Command, request}
use sower.Guest.Tree.{Family, cleanup}
use sower.Guest.Cleanup.{IsReported, IsGone, IsOver, childless}
use sower.Guest.Ending.{Cleaned, succeeded, gave_up, cleanup_lem}
use sower.Guest.Clean.{Sane, Known, run-Leads}
use sower.Guest.Run.{Session, run}
use sower.Guest.Serve.{
  Child, Runtime, Ending, ended, running, start, unless_failed, finish, conclude, with_session,
  run_child, start_child, obey, execute, report, answer, announced, fail_runtime, serve_ready,
  admit, serve_connection,
}

-- No process of any command can be left, and the exit status of every command is known.
abbrev pub IsQuiet : Runtime → Type 0
IsQuiet runtime = (childless runtime.kernel.calls ≡ true) × All IsOver runtime.trees

-- How a connection leaves the runtime: quiet, or with FAILED set and an error, or serving still.
pub data Left : Ending → Runtime → Type 0 where
  quiet :
      (runtime : Runtime)
      → runtime.kernel.failed ≡ false
      → IsQuiet runtime
      → (r : Io (Unit {0})) → Left (ended r) runtime
  broken :
      (e : IoError) (runtime : Runtime)
      → runtime.kernel.failed ≡ true
      → Left (ended (fails e)) runtime
  busy : (runtime : Runtime) → Left running runtime

-- How `serve_connection` ends: with `Ok` and quiet, with `Err` and FAILED set or the lock
-- poisoned, or not yet.
pub data Closed : Ending → Runtime → Type 0 where
  all_gone :
      (runtime : Runtime)
      → runtime.kernel.failed ≡ false
      → IsQuiet runtime
      → Closed (ended (done tt)) runtime
  marked :
      (e : IoError) (runtime : Runtime)
      → runtime.kernel.failed ≡ true
      → Closed (ended (fails e)) runtime
  locked :
      (e : IoError) (runtime : Runtime)
      → runtime.poisoned ≡ true
      → (runtime.kernel.failed ≡ false → IsQuiet runtime)
      → Closed (ended (fails e)) runtime
  still_serving : (runtime : Runtime) → Closed running runtime

-- The same of a session after `conclude`.
data Concluded : Ending → Session → Type 0 where
  gone :
      (s : Session) (r : Io (Unit {0}))
      → IsGone s.family
      → s.family.kernel.failed ≡ false
      → Concluded (ended r) s
  uncertain :
      (s : Session) (e : IoError) → s.family.kernel.failed ≡ true → Concluded (ended (fails e)) s
  serving : (s : Session) → Concluded running s

module _ {Value : Type 0} (json : Json Value) (spawn : Command → Io Child) (fuel turns : ℕ) where
  cleaned :
      (b : Bool) (s : Session) (o : Io (Unit {0}) × Family)
      → b ≡ false
      → Cleaned b o
      → Concluded (ended o.0) (record s { family = o.1 })
  cleaned b s o e (succeeded f g m) = gone _ (done tt) g (m ∙ e)
  cleaned b s o e (gave_up x f r m) = uncertain _ x m

  cleanup-Concluded :
      (s : Session)
      → IsReported s.family.tree s.family.kernel.calls
      → s.family.kernel.failed ≡ false
      → Concluded
          (ended (cleanup fuel s.family).0)
          (record s { family = (cleanup fuel s.family).1 })
  cleanup-Concluded s r e =
      cleaned s.family.kernel.failed s (cleanup fuel s.family) e (cleanup_lem fuel s.family r)

  unless_failed-Concluded :
      (b : Bool) (result : Io Bool) (s : Session)
      → s.family.kernel.failed ≡ b
      → After Sane Known result s
      → let o = unless_failed json spawn fuel turns b result s in Concluded o.0 o.1
  unless_failed-Concluded true (done a) s e h = absurd (ground (arith, h.marked))
  unless_failed-Concluded true (fails x) s e h = uncertain s x e
  unless_failed-Concluded false (done a) s e h = cleanup-Concluded s h.reported e
  unless_failed-Concluded false (fails x) s e h = cleanup-Concluded s h e

  conclude-Concluded :
      (result : Io Bool) (s : Session)
      → After Sane Known result s
      → let o = conclude json spawn fuel turns result s in Concluded o.0 o.1
  unfolding conclude finish
  conclude-Concluded (done true) s h =
      unless_failed-Concluded s.family.kernel.failed (done true) s refl h
  conclude-Concluded (done false) s h = serving s
  conclude-Concluded (fails e) s h =
      unless_failed-Concluded s.family.kernel.failed (fails e) s refl h

  -- What a connection of a quiet runtime leaves, as the parts of `serve_connection` pass it on.
  abbrev Leaves : Ending × (Socket × Runtime) → Type 0
  Leaves (ending, (socket, runtime)) = Left ending runtime

  with_session-Leaves :
      (o : Ending × Session) (runtime : Runtime)
      → IsQuiet runtime
      → Concluded o.0 o.1
      → Leaves (with_session json spawn fuel turns o runtime)
  with_session-Leaves o runtime all (gone s r g m) = quiet _ m (g.gone, (g.over, all.1)) r
  with_session-Leaves o runtime all (uncertain s e m) = broken e _ m
  with_session-Leaves o runtime all (serving s) = busy _

  start-Sane :
      (child : Child) (runtime : Runtime) (socket : Socket)
      → runtime.kernel.failed ≡ false
      → Sane (start json spawn fuel turns child runtime socket)
  unfolding start
  start-Sane child runtime socket m = record {
    reported = record {
      known = λ c. absurd (ground arith);
      certified = λ c. absurd (ground arith);
    };
    marked = m;
  }

  run_child-Leaves :
      (child : Child) (input : Text) (version : ℕ) (socket : Socket) (runtime : Runtime)
      → runtime.kernel.failed ≡ false
      → IsQuiet runtime
      → Leaves (run_child json spawn fuel turns child input version socket runtime)
  unfolding run_child
  run_child-Leaves child input version socket runtime m all =
      let s = start json spawn fuel turns child runtime socket in
      let o = run json version input fuel turns s in
      with_session-Leaves (conclude json spawn fuel turns o.0 o.1) runtime all (
        conclude-Concluded o.0 o.1
          ((run-Leads json version input fuel turns).at s (start-Sane child runtime socket m)))

  abbrev Closes : Ending × (Socket × Runtime) → Type 0
  Closes (ending, (socket, runtime)) = Closed ending runtime

  report-Closes :
      (b : Bool) (r : Io (Unit {0})) (version : ℕ) (socket : Socket) (runtime : Runtime)
      → runtime.kernel.failed ≡ b
      → Left (ended r) runtime
      → Closes (report json spawn fuel turns b r version socket runtime)
  report-Closes true r version socket runtime e (quiet _ m all _) = absurd (ground arith)
  report-Closes true r version socket runtime e (broken x _ m) = marked x runtime m
  report-Closes false (done u) version socket runtime e (quiet _ m all _) = all_gone runtime m all
  report-Closes false (fails x) version socket runtime e (quiet _ m all _) = all_gone runtime m all
  report-Closes false (fails x) version socket runtime e (broken _ _ m) = absurd (ground arith)

  answer-Closes :
      (ending : Ending) (version : ℕ) (socket : Socket) (runtime : Runtime)
      → Left ending runtime
      → Closes (answer json spawn fuel turns ((ending, version), (socket, runtime)))
  unfolding answer
  answer-Closes running version socket runtime l = still_serving runtime
  answer-Closes (ended r) version socket runtime l =
      report-Closes runtime.kernel.failed r version socket runtime refl l

  start_child-Closes :
      (c : Io Child) (input : Text) (version : ℕ) (socket : Socket) (runtime : Runtime)
      → runtime.kernel.failed ≡ false
      → IsQuiet runtime
      → Closes (
          answer json spawn fuel turns
            (start_child json spawn fuel turns c input version socket runtime))
  start_child-Closes (fails e) input version socket runtime m all =
      answer-Closes _ version socket runtime (quiet runtime m all (fails e))
  start_child-Closes (done child) input version socket runtime m all =
      answer-Closes _ version _ _ (run_child-Leaves child input version socket runtime m all)

  obey-Closes :
      (asked : Io (Command × Text)) (version : ℕ) (socket : Socket) (runtime : Runtime)
      → runtime.kernel.failed ≡ false
      → IsQuiet runtime
      → Closes
          (answer json spawn fuel turns (obey json spawn fuel turns asked version socket runtime))
  obey-Closes (fails e) version socket runtime m all =
      answer-Closes _ version socket runtime (quiet runtime m all (fails e))
  obey-Closes (done (command, input)) version socket runtime m all =
      start_child-Closes (spawn command) input version socket _ m all

  announced-Closes :
      (o : Io (Unit {0}) × Socket) (runtime : Runtime)
      → runtime.kernel.failed ≡ false
      → IsQuiet runtime
      → Closes (announced json spawn fuel turns o runtime)
  unfolding execute
  announced-Closes (fails e, socket) runtime m all = all_gone runtime m all
  announced-Closes (done u, socket) runtime m all =
      obey-Closes (request json socket.inbound 2).0.0 _ _ runtime m all

  serve_ready-Closes :
      (set : Io (Unit {0})) (socket : Socket) (runtime : Runtime)
      → runtime.kernel.failed ≡ false
      → IsQuiet runtime
      → Closes (serve_ready json spawn fuel turns set socket runtime)
  unfolding serve_ready fail_runtime
  serve_ready-Closes (fails e) socket runtime m all = marked e _ refl
  serve_ready-Closes (done u) socket runtime m all = announced-Closes _ runtime m all

  admit-Closes :
      (poisoned has_failed : Bool) (socket : Socket) (runtime : Runtime)
      → runtime.poisoned ≡ poisoned
      → runtime.kernel.failed ≡ has_failed
      → (runtime.kernel.failed ≡ false → IsQuiet runtime)
      → Closes (admit json spawn fuel turns poisoned has_failed socket runtime)
  admit-Closes true has_failed socket runtime p m all = locked _ runtime p all
  admit-Closes false true socket runtime p m all = marked _ runtime m
  admit-Closes false false socket runtime p m all = serve_ready-Closes _ socket _ m (all m)

  -- Let a runtime be quiet unless FAILED is set: `waitpid` for any child has answered ECHILD since the last process was started (or none was), and the exit status of every command is known. If it serves a connection and returns `Ok`, FAILED is not set and the runtime is quiet again, with the command just served; if it returns an error, FAILED is set, or the lock is poisoned and the runtime is as quiet as before; or it is serving still.
  pub serve_connection_lem :
      (socket : Socket) (runtime : Runtime)
      → (runtime.kernel.failed ≡ false → IsQuiet runtime)
      → let o = serve_connection json spawn fuel turns socket runtime in Closed o.0 (o.1).1
  unfolding serve_connection
  serve_connection_lem socket runtime all =
      admit-Closes runtime.poisoned runtime.kernel.failed socket runtime refl refl all

  -- The runtimes that connections lead to, one after another, from one that has run no command. A
  -- connection is accepted once the one before has ended.
  pub data Reached : Runtime → Type 0 where
    fresh : (runtime : Runtime) → runtime.trees ≡ [] → runtime.kernel.calls ≡ [] → Reached runtime
    next :
        (socket after : Socket) (runtime runtime' : Runtime) (r : Io (Unit {0}))
        → Reached runtime
        → serve_connection json spawn fuel turns socket runtime ≡ (ended r, (after, runtime'))
        → Reached runtime'
