-- ===== src/Guest/Reported.antt =====
-- `IsReported` through the operations on a command's processes in guest/src/lib.rs.
use sower.Prelude.{
  ℕ, ◌≡◌, refl, arith, Bool, true, false, Bool-cases, List, [], ◌∷◌, Option, none, some,
  Option-cases, ℤ, inl, inr, ◌⊎◌, is_some, negate, if◌then◌else◌, Text, words, int_eq, negsuc,
}
use sower.Guest.Io.{Io, done, fails, is_raw}
use sower.Guest.Action.{Action, Keeps, Keeps-pure, Keeps-lift, Keeps-bind, Keeps-then}
use sower.Guest.Tree.{
  lost, Task, Call, note_waited, Kernel, CommandTree, Family, wait_answer, wait_child, kill_child,
  kill_pids, kill_tasks, read_tasks, kill_children, on_kernel, now, waited, wait_any, kill_group,
  kill_and_reap, cleanup_inner,
}
use sower.Guest.Sweep.{kill_and_reap-Keeps}
use sower.Guest.Cleanup.{IsReported, childless, note_waited-childless}

-- The clock was read so often, FAILED is as given, and no child is left if that is asked for.
pub record Settled (b : Bool) (c : ℕ → ℕ) (n : ℕ) (p : Bool) (k : Kernel) : Type 0 where
  pub quiet : p ≡ true → childless k.calls ≡ true
  pub marked : k.failed ≡ b
  pub same_clock : k.clock ≡ c
  pub same_readings : k.readings ≡ n

module _ {b : Bool} {c : ℕ → ℕ} {n : ℕ} {p : Bool} where
  kill_child-Keeps : (pid : ℤ) → Keeps (Settled b c n p) (kill_child pid)
  unfolding kill_child
  kill_child-Keeps pid = record {
    at = λ k h. record {
      quiet = h.quiet;
      marked = h.marked;
      same_clock = h.same_clock;
      same_readings = h.same_readings;
    };
  }

  kill_pids-Keeps : (ts : List Text) → Keeps (Settled b c n p) (kill_pids ts)
  unfolding kill_pids
  kill_pids-Keeps [] = Keeps-pure tt
  kill_pids-Keeps (t ∷ ts) =
      Keeps-bind _ _ (Keeps-lift _)
        (λ pid. Keeps-then _ _ (kill_child-Keeps pid) (kill_pids-Keeps ts))

  kill_tasks-Keeps : (ts : List Task) → Keeps (Settled b c n p) (kill_tasks ts)
  unfolding kill_tasks
  kill_tasks-Keeps [] = Keeps-pure tt
  kill_tasks-Keeps (Task.entry_error e ∷ ts) = Keeps-lift _
  kill_tasks-Keeps (Task.children t ∷ ts) =
      Keeps-then _ _ (kill_pids-Keeps (words t)) (kill_tasks-Keeps ts)
  kill_tasks-Keeps (Task.unreadable e ∷ ts) = elim (Bool-cases (is_raw 2 e)) [
    | inl found ↦ rw (found, kill_tasks) (kill_tasks-Keeps ts)
    | inr other ↦ rw (other, kill_tasks) (Keeps-lift _)
  ]

  pub kill_children-Keeps : Keeps (Settled b c n p) kill_children
  unfolding kill_children read_tasks
  kill_children-Keeps =
      Keeps-bind read_tasks kill_tasks
        (record {
          at = λ k h. record {
            quiet = h.quiet;
            marked = h.marked;
            same_clock = h.same_clock;
            same_readings = h.same_readings;
          };
        })
        kill_tasks-Keeps

  pub wait_child-Keeps : (pid : ℤ) → Keeps (Settled b c n p) (wait_child pid)
  unfolding wait_child
  wait_child-Keeps pid = record {
    at = λ k h. record {
      quiet = λ e. note_waited-childless pid (wait_answer k.waits).0 k.calls (h.quiet e);
      marked = h.marked;
      same_clock = h.same_clock;
      same_readings = h.same_readings;
    };
  }

  pub kill_group-Keeps : (tree : CommandTree) → Keeps (Settled b c n p) (kill_group tree)
  kill_group-Keeps tree = elim (Option-cases tree.status) [
    | inl e ↦ rw e (kill_child-Keeps (negate tree.root))
    | inr (status, e) ↦ rw e (Keeps-pure tt)
  ]

-- A family whose exit status is known when it is clean, with FAILED as given.
pub record IsSane (b : Bool) (f : Family) : Type 0 where
  pub reported : IsReported f.tree f.kernel.calls
  pub marked : f.kernel.failed ≡ b

lost-IsReported :
    (tree : CommandTree) (calls : List Call)
    → IsReported tree calls
    → childless calls ≡ true
    → IsReported (lost tree).1 calls
lost-IsReported tree calls h g = record {
  known = λ c. has (Option-cases tree.status) c;
  certified = λ c. g;
}
  where
    has :
        (tree.status ≡ none) ⊎ ((status : ℕ) × (tree.status ≡ some status))
        → (lost tree).1.clean ≡ true
        → is_some (lost tree).1.status ≡ true
    has (inl n) c = ground (arith, h.known)
    has (inr (status, n)) c = ground arith

waited-IsReported :
    (r : Io (Option (ℤ × ℕ))) (tree : CommandTree) (calls : List Call)
    → IsReported tree calls
    → IsReported (waited r tree).1 (note_waited (negsuc 0) r calls)
waited-IsReported (done (some (pid, status))) tree calls h =
    elim (Bool-cases (int_eq pid tree.root)) [
      | inl e ↦ rw e (record { known = λ c. refl; certified = h.certified })
      | inr e ↦ rw e (record { known = h.known; certified = h.certified })
    ]
waited-IsReported (done none) tree calls h = h
waited-IsReported (fails e) tree calls h = elim (Bool-cases (is_raw 10 e)) [
  | inr n ↦ rw n h
  | inl y ↦ rw y (
      lost-IsReported tree (Call.no_child (negsuc 0) ∷ calls)
        (record { known = h.known; certified = λ c. refl }) refl)
]

module _ {b : Bool} where
  on_kernel-Keeps :
      {A : Type 0} (m : Action Kernel A)
      → ((c : ℕ → ℕ) (n : ℕ) (p : Bool) → Keeps (Settled b c n p) m)
      → Keeps (IsSane b) (on_kernel m)
  unfolding on_kernel
  on_kernel-Keeps m k = record {
    at = λ f h.
        let settled : Settled b f.kernel.clock f.kernel.readings f.tree.clean (m f.kernel).1 =
          (k f.kernel.clock f.kernel.readings f.tree.clean).at f.kernel (record {
            quiet = h.reported.certified;
            marked = h.marked;
            same_clock = refl;
            same_readings = refl;
          }) in
        record {
          reported = record { known = h.reported.known; certified = settled.quiet };
          marked = settled.marked;
        };
  }

  now-Keeps : Keeps (IsSane b) (on_kernel now)
  unfolding on_kernel now
  now-Keeps = record { at = λ f h. record { reported = h.reported; marked = h.marked } }

  wait_any-Keeps : Keeps (IsSane b) wait_any
  unfolding wait_any wait_child
  wait_any-Keeps = record {
    at = λ f h. record {
      reported = waited-IsReported (wait_answer f.kernel.waits).0 f.tree f.kernel.calls h.reported;
      marked = h.marked;
    };
  }

  kill_and_reap-IsSane :
      (fuel : ℕ) (tree : CommandTree) → Keeps (IsSane b) (kill_and_reap fuel tree)
  kill_and_reap-IsSane fuel tree =
      kill_and_reap-Keeps now-Keeps wait_any-Keeps
        (on_kernel-Keeps kill_children (λ c n p. kill_children-Keeps)) fuel tree
        (on_kernel-Keeps (kill_group tree) (λ c n p. kill_group-Keeps tree))

  pub cleanup_inner-Keeps : (fuel : ℕ) → Keeps (IsSane b) (cleanup_inner fuel)
  unfolding cleanup_inner
  cleanup_inner-Keeps fuel = record { at = λ f h. go f h f.tree.clean }
    where
      go :
          (f : Family)
          → IsSane b f
          → (clean : Bool)
          → IsSane b (if clean then (done tt, f) else kill_and_reap fuel f.tree f).1
      go f h true = h
      go f h false = (kill_and_reap-IsSane fuel f.tree).at f h
