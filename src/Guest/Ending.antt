-- ===== src/Guest/Ending.antt =====
-- How `cleanup` ends, and what the loop of `run` in guest/src/lib.rs keeps of it.
use sower.Prelude.{
  ℕ, ◌+◌, ◌≡◌, ◌∙◌, refl, arith, Bool, true, false, Option, none, some, ℤ, if◌then◌else◌,
}
use sower.Guest.Io.{Io, done, fails, IoError}
use sower.Guest.Action.{Keeps, Ensures, Ensures-then, After, Leads}
use sower.Guest.Tree.{
  CommandTree, Family, on_kernel, now, kill_group, kill_children, kill_and_reap, cleanup_inner,
  cleanup, mark_failed, wait_child, wait_answer, note_exit, ask_exit, root_exited,
}
use sower.Guest.Cleanup.{IsReported, IsGone, note_waited-childless, Gone, reap-IsGone}
use sower.Guest.Reported.{IsSane, cleanup_inner-Keeps}

kill_and_reap-IsGone : (fuel : ℕ) (tree : CommandTree) → Ensures Gone (kill_and_reap fuel tree)
kill_and_reap-IsGone fuel tree = Ensures-then (on_kernel now) _ (λ start.
    Ensures-then (on_kernel (kill_group tree)) _
      (λ _. Ensures-then (on_kernel kill_children) _ (λ _. reap-IsGone fuel (start + 3000))))

cleanup_inner-IsGone :
    (fuel : ℕ) (f : Family)
    → IsReported f.tree f.kernel.calls
    → (cleanup_inner fuel f).0 ≡ done tt
    → IsGone (cleanup_inner fuel f).1
unfolding cleanup_inner
cleanup_inner-IsGone fuel f r = go f.tree.clean refl
  where
    go :
        (clean : Bool)
        → f.tree.clean ≡ clean
        → (if clean then (done tt, f) else kill_and_reap fuel f.tree f).0 ≡ done tt
        → IsGone (if clean then (done tt, f) else kill_and_reap fuel f.tree f).1
    go true e h = record {
      over = record { is_clean = e; has_status = r.known e };
      gone = r.certified e;
    }
    go false e h = (kill_and_reap-IsGone fuel f.tree).at f tt h

-- How a cleanup ended: the processes are gone and FAILED is what it was, or FAILED is set.
pub data Cleaned (b : Bool) : Io (Unit {0}) × Family → Type 0 where
  succeeded : (f : Family) → IsGone f → f.kernel.failed ≡ b → Cleaned b (done tt, f)
  gave_up :
      (e : IoError) (f : Family)
      → IsReported f.tree f.kernel.calls
      → f.kernel.failed ≡ true
      → Cleaned b (fails e, f)

cleaned :
    (b : Bool) (r : Io (Unit {0})) (f : Family)
    → IsSane b f
    → (r ≡ done tt → IsGone f)
    → Cleaned b (r, record f { kernel = mark_failed r f.kernel })
cleaned b (done u) f s g = succeeded f (g refl) s.marked
cleaned b (fails e) f s g = gave_up e _ s.reported refl

-- When a command is cleaned up, which if it is marked clean already has no process left and a known exit status, then either the cleanup succeeds, and `waitpid` for any child has answered ECHILD since the last process was started (or none ever was), the command is marked clean, its exit status is known and FAILED is what it was, or the cleanup fails, FAILED is set and the mark `clean` still means what it meant before.
pub cleanup_lem :
    (fuel : ℕ) (f : Family)
    → IsReported f.tree f.kernel.calls
    → Cleaned f.kernel.failed (cleanup fuel f)
unfolding cleanup
cleanup_lem fuel f r =
    let (result, f') = cleanup_inner fuel f in
    cleaned f.kernel.failed result f'
      ((cleanup_inner-Keeps fuel).at f (record { reported = r; marked = refl }))
      (cleanup_inner-IsGone fuel f r)

-- The run's command: its exit status is known once it is clean, and FAILED is not set; after a
-- failure FAILED may be set.
abbrev pub Reported : Family → Type 0
Reported f = IsReported f.tree f.kernel.calls

pub cleanup-Leads : (fuel : ℕ) → Leads (IsSane false) Reported (cleanup fuel)
cleanup-Leads fuel = record {
  at = λ f s. go f.kernel.failed s.marked (cleanup fuel f) (cleanup_lem fuel f s.reported);
}
  where
    go :
        (b : Bool)
        → b ≡ false
        → (o : Io (Unit {0}) × Family) → Cleaned b o
        → After (IsSane false) Reported o.0 o.1
    go b e o (succeeded f g m) = record {
      reported = record { known = λ c. g.over.has_status; certified = λ c. g.gone };
      marked = m ∙ e;
    }
    go b e o (gave_up x f r m) = r

note_exit-IsSane :
    {b : Bool} (r : Io (Option (ℤ × ℕ))) (f : Family)
    → f.tree.status ≡ none
    → IsSane b f
    → IsSane b (note_exit r f).1
note_exit-IsSane (fails e) f n s = s
note_exit-IsSane (done found) f n s = record {
  reported = record {
    known = λ c. ground (arith, s.reported.known);
    certified = s.reported.certified;
  };
  marked = s.marked;
}

pub root_exited-Keeps : {b : Bool} → Keeps (IsSane b) root_exited
unfolding root_exited ask_exit wait_child
root_exited-Keeps {b} = record { at = λ f s. go f s f.tree.status refl }
  where
    go :
        (f : Family)
        → IsSane b f
        → (status : Option ℕ) → f.tree.status ≡ status
        → IsSane b (ask_exit status f).1
    go f s (some status) n = s
    go f s none n =
        let r = (wait_answer f.kernel.waits).0 in
        note_exit-IsSane r _ n (record {
          reported = record {
            known = s.reported.known;
            certified =
                λ c. note_waited-childless f.tree.root r f.kernel.calls (s.reported.certified c);
          };
          marked = s.marked;
        })
