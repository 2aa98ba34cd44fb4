-- ===== src/Guest/Serve.antt =====
-- `serve_connection` of guest/src/lib.rs: one connection from readiness to its end.
use sower.Prelude.{
  ℕ, zero, suc, Bool, true, false, List, [], ◌∷◌, Option, none, some, ℤ, Text, bytes, leb, ltb,
  ◌&&◌,
}
use sower.Guest.Io.{Io, done, fails, IoError, other, Arrival, Room}
use sower.Guest.Frame.{Json, Socket, Command, metadata, request}
use sower.Guest.Control.{default}
use sower.Guest.Output.{new}
use sower.Guest.Tree.{Call, Kernel, CommandTree, cleanup}
use sower.Guest.Run.{Session, run, next_answer}

-- A child that was spawned: its process and the far ends of its pipes.
pub record Child : Type 0 where
  pub id : ℤ
  pub stdin : List Room
  pub stdout : List Arrival
  pub stderr : List Arrival

-- What outlives a connection: the kernel with FAILED in it, whether the lock is poisoned, what
-- `prctl`, `fcntl` and `poll` will answer, every command that was to be spawned, and the
-- `CommandTree` of every child as it was left.
pub record Runtime : Type 0 where
  pub kernel : Kernel
  pub poisoned : Bool
  pub answers : List (Option ℕ)
  pub spawned : List Command
  pub trees : List CommandTree

-- How the inner function of `serve_connection` ended: with a result, or with a run that has not
-- returned within the turns that were given.
pub data Ending : Type 0 where
  ended : Io (Unit {0}) → Ending
  running : Ending

-- `chars().take(n)`: a byte from 128 to 191 belongs to the character before it.
abbrev is_continuation : ℕ → Bool
is_continuation b = leb 128 b && ltb b 192

unfoldable pub take_chars : ℕ → Text → Text
take_chars n [] = []
take_chars zero (b ∷ bs) = elim (is_continuation b) [ true ↦ b ∷ take_chars zero bs | false ↦ [] ]
take_chars (suc n) (b ∷ bs) = elim (is_continuation b) [
  | true ↦ b ∷ take_chars (suc n) bs
  | false ↦ b ∷ take_chars n bs
]

module _ {Value : Type 0} (json : Json Value) (spawn : Command → Io Child) (fuel turns : ℕ) where
  unfoldable pub ready_value : Value
  ready_value = json.object (
      (bytes "type", json.text (bytes "ready"))
      ∷ (bytes "version", json.number 1)
      ∷ (bytes "contract", json.number 2)
      ∷ [])

  unfoldable pub error_value : ℕ → IoError → Value
  error_value version e = json.object (
      (bytes "type", json.text (bytes "error"))
      ∷ (bytes "version", json.number version)
      ∷ (bytes "message", json.text (take_chars 4096 (json.message e)))
      ∷ [])

  -- The state in which `run` starts.
  unfoldable pub start : Child → Runtime → Socket → Session
  start child runtime socket = record {
    family = record {
      tree = record { root = child.id; status = none; clean = false };
      kernel = record runtime.kernel { calls = Call.spawned child.id ∷ runtime.kernel.calls };
    };
    socket = socket;
    control = default;
    output = new;
    stdin = some child.stdin;
    fed = [];
    input_sent = 0;
    stdout = some child.stdout;
    stderr = some child.stderr;
    stderr_first = false;
    terminal = false;
    answers = runtime.answers;
  }

  abbrev pub discard : {A : Type 0} → Io A → Io (Unit {0})
  discard (done a) = done tt
  discard (fails e) = fails e

  -- With FAILED as the first argument.
  abbrev pub unless_failed : Bool → Io Bool → Session → Ending × Session
  unless_failed true result s = (ended (discard result), s)
  unless_failed false result s =
      let (r, f) = cleanup fuel s.family in (ended r, record s { family = f })

  unfoldable pub finish : Io Bool → Session → Ending × Session
  finish result s = unless_failed s.family.kernel.failed result s

  -- After `run`: the command's processes are cleaned up, unless that has failed already.
  unfoldable pub conclude : Io Bool → Session → Ending × Session
  conclude (done false) s = (running, s)
  conclude (done true) s = finish (done true) s
  conclude (fails e) s = finish (fails e) s

  abbrev pub with_session : Ending × Session → Runtime → Ending × (Socket × Runtime)
  with_session (ending, s) runtime = (
    ending,
    (
      s.socket,
      record runtime {
        kernel = s.family.kernel;
        answers = s.answers;
        trees = s.family.tree ∷ runtime.trees;
      },
    ),
  )

  unfoldable pub run_child : Child → Text → ℕ → Socket → Runtime → Ending × (Socket × Runtime)
  run_child child input version socket runtime =
      let (result, s) = run json version input fuel turns (start child runtime socket) in
      with_session (conclude result s) runtime

  abbrev pub start_child :
      Io Child → Text → ℕ → Socket → Runtime → (Ending × ℕ) × (Socket × Runtime)
  start_child (fails e) input version socket runtime =
      ((ended (fails e), version), (socket, runtime))
  start_child (done child) input version socket runtime =
      let (ending, after) = run_child child input version socket runtime in
      ((ending, version), after)

  abbrev pub obey : Io (Command × Text) → ℕ → Socket → Runtime → (Ending × ℕ) × (Socket × Runtime)
  obey (fails e) version socket runtime = ((ended (fails e), version), (socket, runtime))
  obey (done (command, input)) version socket runtime =
      start_child (spawn command) input version socket
        (record runtime { spawned = command ∷ runtime.spawned })

  -- The inner function, with the version for later reports.
  unfoldable pub execute : Socket → Runtime → (Ending × ℕ) × (Socket × Runtime)
  execute socket runtime =
      let ((asked, version), inbound) = request json socket.inbound 2 in
      obey asked version (record socket { inbound = inbound }) runtime

  abbrev pub report : Bool → Io (Unit {0}) → ℕ → Socket → Runtime → Ending × (Socket × Runtime)
  report true result version socket runtime = (ended result, (socket, runtime))
  report false (done u) version socket runtime = (ended (done tt), (socket, runtime))
  report false (fails e) version socket runtime =
      (ended (done tt), ((metadata json socket (error_value version e)).1, runtime))

  -- After the inner function: an error is reported to the client, unless cleanup has failed.
  unfoldable pub answer : (Ending × ℕ) × (Socket × Runtime) → Ending × (Socket × Runtime)
  answer ((running, version), after) = (running, after)
  answer ((ended result, version), (socket, runtime)) =
      report runtime.kernel.failed result version socket runtime

  unfoldable pub fail_runtime : Runtime → Runtime
  fail_runtime runtime = record runtime { kernel = record runtime.kernel { failed = true } }

  -- After `prctl`: readiness is announced, and the command served.
  abbrev pub announced : Io (Unit {0}) × Socket → Runtime → Ending × (Socket × Runtime)
  announced (fails e, socket) runtime = (ended (done tt), (socket, runtime))
  announced (done u, socket) runtime = answer (execute socket runtime)

  -- After `prctl`: readiness is announced, and the command served.
  unfoldable pub serve_ready : Io (Unit {0}) → Socket → Runtime → Ending × (Socket × Runtime)
  serve_ready (fails e) socket runtime = (ended (fails e), (socket, fail_runtime runtime))
  serve_ready (done u) socket runtime = announced (metadata json socket ready_value) runtime

  abbrev pub admit : Bool → Bool → Socket → Runtime → Ending × (Socket × Runtime)
  admit true failed socket runtime =
      (ended (fails (other (bytes "guest runtime lock poisoned"))), (socket, runtime))
  admit false true socket runtime =
      (ended (fails (other (bytes "guest runtime cleanup previously failed"))), (socket, runtime))
  admit false false socket runtime =
      let (set, answers) = next_answer runtime.answers in
      serve_ready set socket (record runtime { answers = answers })

  unfoldable pub serve_connection : Socket → Runtime → Ending × (Socket × Runtime)
  serve_connection socket runtime = admit runtime.poisoned runtime.kernel.failed socket runtime
