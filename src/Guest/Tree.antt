-- ===== src/Guest/Tree.antt =====
-- `CommandTree` of guest/src/lib.rs: the processes of one command, killed and reaped.
use sower.Prelude.{
  ℕ, zero, suc, ◌+◌, Bool, true, false, List, [], ◌∷◌, Option, none, some, ℤ, negsuc, int_eq,
  negate, is_some, Text, bytes, words, ◌==◌, leb, if◌then◌else◌, parse_int,
}
use sower.Guest.Io.{
  Io, done, fails, IoError, raw, timed_out, other, ok_or_invalid, is_raw, is_not_found,
}
use sower.Guest.Action.{Action, pure, lift, ◌>>=◌, ◌>>◌}

-- What `waitpid` will answer, what `kill` will, and what the lists of children of the runtime's
-- threads hold.
pub data Waited : Type 0 where
  child : ℤ → ℕ → Waited
  not_yet : Waited
  wait_error : ℕ → Waited

pub data Task : Type 0 where
  entry_error : IoError → Task
  children : Text → Task
  unreadable : IoError → Task

-- What happened to processes: a listing and what it held, a signal, the exit of a child that
-- `waitpid` handed out, a `waitpid` that answered ECHILD and its argument, and a new process.
pub data Call : Type 0 where
  listed : Io (List Task) → Call
  killed : ℤ → Call
  reaped : ℤ → Call
  no_child : ℤ → Call
  spawned : ℤ → Call

-- The kernel as the agent sees it. A kill that no answer is left for succeeds, a `waitpid` finds
-- nothing, a listing is empty. The clock is read in milliseconds, and `failed` is the static FAILED.
pub record Kernel : Type 0 where
  pub waits : List Waited
  pub kills : List (Option ℕ)
  pub listings : List (Io (List Task))
  pub clock : ℕ → ℕ
  pub readings : ℕ
  pub calls : List Call
  pub failed : Bool

pub record CommandTree : Type 0 where
  pub root : ℤ
  pub status : Option ℕ
  pub clean : Bool

pub record Family : Type 0 where
  pub tree : CommandTree
  pub kernel : Kernel

-- The answers of `waitpid`: interruptions are passed over.
abbrev pub wait_answer : List Waited → Io (Option (ℤ × ℕ)) × List Waited
wait_answer [] = (done none, [])
wait_answer (Waited.child pid status ∷ r) = (done (some (pid, status)), r)
wait_answer (Waited.not_yet ∷ r) = (done none, r)
wait_answer (Waited.wait_error e ∷ r) = elim (e == 4) [
  | true ↦ wait_answer r
  | false ↦ (fails (raw e), r)
]

abbrev pub note_waited : ℤ → Io (Option (ℤ × ℕ)) → List Call → List Call
note_waited pid (done (some (found, status))) calls = Call.reaped found ∷ calls
note_waited pid (done none) calls = calls
note_waited pid (fails e) calls = if is_raw 10 e then Call.no_child pid ∷ calls else calls

unfoldable pub wait_child : ℤ → Action Kernel (Option (ℤ × ℕ))
wait_child pid k =
    let (answer, waits) = wait_answer k.waits in
    (answer, record k { waits = waits; calls = note_waited pid answer k.calls })

abbrev pub kill_answer : List (Option ℕ) → Option ℕ × List (Option ℕ)
kill_answer [] = (none, [])
kill_answer (a ∷ r) = (a, r)

-- A process that is gone already (ESRCH) is no error.
abbrev kill_result : Option ℕ → Io (Unit {0})
kill_result none = done tt
kill_result (some e) = if e == 3 then done tt else fails (raw e)

unfoldable pub kill_child : ℤ → Action Kernel (Unit {0})
kill_child pid k =
    let (answer, kills) = kill_answer k.kills in
    (kill_result answer, record k { kills = kills; calls = Call.killed pid ∷ k.calls })

unfoldable pub now : Action Kernel ℕ
now k = (done (k.clock k.readings), record k { readings = suc k.readings })

unfoldable pub kill_pids : List Text → Action Kernel (Unit {0})
kill_pids [] = pure tt
kill_pids (t ∷ ts) = do
  pid ← lift (ok_or_invalid (parse_int t) (bytes "invalid child PID"))
  kill_child pid
  kill_pids ts

unfoldable pub kill_tasks : List Task → Action Kernel (Unit {0})
kill_tasks [] = pure tt
kill_tasks (Task.entry_error e ∷ ts) = lift (fails e)
kill_tasks (Task.children t ∷ ts) = kill_pids (words t) >> kill_tasks ts
kill_tasks (Task.unreadable e ∷ ts) = elim (is_not_found e) [
  | true ↦ kill_tasks ts
  | false ↦ lift (fails e)
]

abbrev pub listing : List (Io (List Task)) → Io (List Task) × List (Io (List Task))
listing [] = (done [], [])
listing (l ∷ r) = (l, r)

unfoldable pub read_tasks : Action Kernel (List Task)
read_tasks k =
    let (tasks, rest) = listing k.listings in
    (tasks, record k { listings = rest; calls = Call.listed tasks ∷ k.calls })

unfoldable pub kill_children : Action Kernel (Unit {0})
kill_children = do tasks ← read_tasks; kill_tasks tasks

unfoldable pub on_kernel : {A : Type 0} → Action Kernel A → Action Family A
on_kernel m f = let (r, k) = m f.kernel in (r, record f { kernel = k })

abbrev pub set_status : ℤ × ℕ → CommandTree → CommandTree
set_status (pid, status) tree =
    if int_eq pid tree.root then record tree { status = some status } else tree

abbrev pub timeout_error : IoError
timeout_error = timed_out (bytes "command descendants could not be killed and reaped")

-- What one turn of the reaping loop finds: the end, a child that was reaped, or nothing to reap.
pub data Reaping : Type 0 where
  finished : Io (Unit {0}) → Reaping
  reaped_one nothing_ready : Reaping

abbrev pub lost : CommandTree → Io (Unit {0}) × CommandTree
lost tree = elim tree.status [
  | none ↦ (fails (other (bytes "command exit status was lost")), tree)
  | some status ↦ (done tt, record tree { clean = true })
]

-- The arms of the match on `wait_child(-1)`.
abbrev pub waited : Io (Option (ℤ × ℕ)) → CommandTree → Reaping × CommandTree
waited (done (some found)) tree = (reaped_one, set_status found tree)
waited (done none) tree = (nothing_ready, tree)
waited (fails e) tree =
    if is_raw 10 e
    then (let (result, tree') = lost tree in (finished result, tree'))
    else (finished (fails e), tree)

unfoldable pub wait_any : Action Family Reaping
unfolding wait_child
wait_any f =
    let (answer, k) = wait_child (negsuc 0) f.kernel in
    let (next, tree) = waited answer f.tree in (done next, record f { tree = tree; kernel = k })

unfoldable pub past : ℕ → Action Family Bool
past deadline = do time ← on_kernel now; pure (leb deadline time)

-- One turn of the inner loop.
unfoldable pub reap_one : ℕ → Action Family Reaping
reap_one deadline = do
  late ← past deadline
  if late then pure (finished (fails timeout_error)) else wait_any

-- After the last child that is ready: the deadline, the pause and the next round of kills.
abbrev pub unless_late : Action Family (Unit {0}) → Bool → Action Family (Unit {0})
unless_late rest true = lift (fails timeout_error)
unless_late rest false = on_kernel kill_children >> rest

abbrev pub after_turn : Action Family (Unit {0}) → ℕ → Reaping → Action Family (Unit {0})
after_turn rest deadline (finished result) = lift result
after_turn rest deadline reaped_one = rest
after_turn rest deadline nothing_ready = past deadline >>= unless_late rest

-- The two loops from the first turn of the inner one on, for at most so many turns of it.
unfoldable pub reap : ℕ → ℕ → Action Family (Unit {0})
reap zero deadline = lift (fails timeout_error)
reap (suc fuel) deadline = reap_one deadline >>= after_turn (reap fuel deadline) deadline

abbrev pub kill_group : CommandTree → Action Kernel (Unit {0})
kill_group tree = elim tree.status [ none ↦ kill_child (negate tree.root) | some status ↦ pure tt ]

abbrev pub kill_and_reap : ℕ → CommandTree → Action Family (Unit {0})
kill_and_reap fuel tree = do
  start ← on_kernel now
  on_kernel (kill_group tree)
  on_kernel kill_children
  reap fuel (start + 3000)

-- `cleanup_inner` and `cleanup`, with the fuel of the loop.
unfoldable pub cleanup_inner : ℕ → Action Family (Unit {0})
cleanup_inner fuel f = if f.tree.clean then (done tt, f) else kill_and_reap fuel f.tree f

abbrev pub mark_failed : Io (Unit {0}) → Kernel → Kernel
mark_failed (done u) k = k
mark_failed (fails e) k = record k { failed = true }

unfoldable pub cleanup : ℕ → Action Family (Unit {0})
cleanup fuel f =
    let (result, f') = cleanup_inner fuel f in
    (result, record f' { kernel = mark_failed result f'.kernel })

abbrev pub exit_status : Option (ℤ × ℕ) → Option ℕ
exit_status none = none
exit_status (some (pid, status)) = some status

abbrev pub note_exit : Io (Option (ℤ × ℕ)) → Family → Io Bool × Family
note_exit (fails e) f = (fails e, f)
note_exit (done found) f = (
  done (is_some (exit_status found)),
  record f { tree = record f.tree { status = exit_status found } },
)

unfoldable pub ask_exit : Option ℕ → Action Family Bool
ask_exit (some status) f = (done true, f)
ask_exit none f =
    let (answer, k) = wait_child f.tree.root f.kernel in note_exit answer (record f { kernel = k })

unfoldable pub root_exited : Action Family Bool
root_exited f = ask_exit f.tree.status f
