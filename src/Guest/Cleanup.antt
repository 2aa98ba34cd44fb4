-- ===== src/Guest/Cleanup.antt =====
-- What the reaping loop of `CommandTree::cleanup` in guest/src/lib.rs knows of the command's
-- processes when it succeeds.
use sower.Prelude.{
  ℕ, zero, suc, ◌≡◌, refl, arith, Bool, true, false, Bool-cases, none, some, Option-cases, leb, inl,
  inr, is_some, Option, ℤ, negsuc, int_eq, List, [], ◌∷◌, ◌||◌,
}
use sower.Guest.Io.{Io, done, fails, Io-cases}
use sower.Guest.Action.{Ensures, Ensures-bind, Ensures-then, Action, ◌>>=◌}
use sower.Guest.Tree.{
  Call, note_waited, CommandTree, Family, wait_answer, wait_child, kill_children, on_kernel, now,
  past, Reaping, finished, reaped_one, nothing_ready, wait_any, reap_one, reap, after_turn,
  unless_late,
}

-- Whether no child can be left: since the last process was started, `waitpid` for any child (-1)
-- has answered ECHILD, or none was started at all (the latest call first).
abbrev pub childless : List Call → Bool
childless [] = true
childless (Call.spawned pid ∷ calls) = false
childless (Call.no_child pid ∷ calls) = int_eq pid (negsuc 0) || childless calls
childless (Call.listed tasks ∷ calls) = childless calls
childless (Call.killed pid ∷ calls) = childless calls
childless (Call.reaped pid ∷ calls) = childless calls

pub note_waited-childless :
    (pid : ℤ) (r : Io (Option (ℤ × ℕ))) (calls : List Call)
    → childless calls ≡ true
    → childless (note_waited pid r calls) ≡ true
note_waited-childless pid (done none) calls h = h
note_waited-childless pid (done (some (found, status))) calls h = h
note_waited-childless pid (fails e) calls h = ground arith

-- A command that is marked clean has no process left and its exit status is known.
pub record IsReported (tree : CommandTree) (calls : List Call) : Type 0 where
  pub known : tree.clean ≡ true → is_some tree.status ≡ true
  pub certified : tree.clean ≡ true → childless calls ≡ true

unfoldable pub tick : Family → Family
tick f = record f { kernel = record f.kernel { readings = suc f.kernel.readings } }

pub past_value :
    (deadline : ℕ) (f : Family)
    → past deadline f ≡ (done (leb deadline (f.kernel.clock f.kernel.readings)), tick f)
unfolding past on_kernel now ◌>>=◌ tick
past_value deadline f = refl

-- The command is marked clean and its exit status is known.
pub record IsOver (tree : CommandTree) : Type 0 where
  pub is_clean : tree.clean ≡ true
  pub has_status : is_some tree.status ≡ true

-- Besides, no process can be left.
pub record IsGone (f : Family) : Type 0 where
  pub over : IsOver f.tree
  pub gone : childless f.kernel.calls ≡ true

wait_any-IsGone : (f : Family) → (wait_any f).0 ≡ done (finished (done tt)) → IsGone (wait_any f).1
unfolding wait_any wait_child
wait_any-IsGone f h = elim (Io-cases (wait_answer f.kernel.waits).0) [
  | inl (none, e) ↦ absurd (ground arith)
  | inl (some (pid, status), e) ↦ absurd (ground arith)
  | inr (x, e) ↦ elim (Option-cases f.tree.status) [
    | inl n ↦ absurd (ground arith)
    | inr (status, n) ↦ record {
      over = record { is_clean = ground arith; has_status = ground arith };
      gone = ground arith;
    }
  ]
]

reap_one-IsGone :
    (deadline : ℕ) (f : Family)
    → (reap_one deadline f).0 ≡ done (finished (done tt))
    → IsGone (reap_one deadline f).1
unfolding reap_one ◌>>=◌
reap_one-IsGone deadline f =
    rw past_value (elim (Bool-cases (leb deadline (f.kernel.clock f.kernel.readings))) [
      | inl late ↦ λ h. absurd (ground arith)
      | inr early ↦ rw early (λ h. wait_any-IsGone (tick f) h)
    ])

abbrev Found : Reaping → Family → Type 0
Found (finished (done u)) f = IsGone f
Found _ f = Unit

abbrev pub Gone : Unit {0} → Family → Type 0
Gone u f = IsGone f

reap_one-Found : (deadline : ℕ) → Ensures Found (reap_one deadline)
reap_one-Found deadline = record { at = λ f next h. found next f h }
  where
    found :
        (next : Reaping) (f : Family)
        → (reap_one deadline f).0 ≡ done next
        → Found next (reap_one deadline f).1
    found (finished (done u)) f h = reap_one-IsGone deadline f h
    found (finished (fails e)) f h = tt
    found reaped_one f h = tt
    found nothing_ready f h = tt

after_turn-IsGone :
    (rest : Action Family (Unit {0})) (deadline : ℕ)
    → Ensures Gone rest
    → (next : Reaping) (f : Family) (u : Unit {0}) → Found next f
    → (after_turn rest deadline next f).0 ≡ done u
    → Gone u (after_turn rest deadline next f).1
unfolding ◌>>=◌
after_turn-IsGone rest deadline k (finished (done u')) f u r h = r
after_turn-IsGone rest deadline k (finished (fails e)) f u r h = absurd (ground arith)
after_turn-IsGone rest deadline k reaped_one f u r h = k.at f u h
after_turn-IsGone rest deadline k nothing_ready f u r h =
    (Ensures-then (past deadline) (unless_late rest) punctual).at f u h
  where
    punctual : (late : Bool) → Ensures Gone (unless_late rest late)
    punctual true = record { at = λ f' u' h'. absurd (ground arith) }
    punctual false = Ensures-then (on_kernel kill_children) (λ _. rest) (λ _. k)

pub reap-IsGone : (fuel deadline : ℕ) → Ensures Gone (reap fuel deadline)
unfolding reap ◌>>=◌
reap-IsGone zero deadline = record { at = λ f u h. absurd (ground arith) }
reap-IsGone (suc fuel) deadline =
    Ensures-bind (reap_one deadline) (after_turn (reap fuel deadline) deadline)
      (reap_one-Found deadline)
      (after_turn-IsGone (reap fuel deadline) deadline (reap-IsGone fuel deadline))
