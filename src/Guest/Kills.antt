-- ===== src/Guest/Kills.antt =====
-- Which processes `cleanup` of guest/src/lib.rs kills. A process that has not been reaped keeps
-- its number, so a number is sure to name a child only until the next child is reaped.
use sower.Prelude.{
  ℕ, ◌≡◌, refl, ◌∙◌, arith, Bool, true, false, ◌&&◌, ◌||◌, Bool-cases, List, [], ◌∷◌, Option, none,
  some, Option-cases, ℤ, int_eq, int_eq_iff, inl, inr, Text, words, negate, parse_int, negsuc,
  if◌then◌else◌,
}
use sower.Guest.Io.{Io, done, fails, is_raw}
use sower.Guest.Action.{pure, continue, ◌>>=◌, Keeps, Keeps-pure, Keeps-lift, Keeps-then}
use sower.Guest.Tree.{
  Task, Call, Kernel, CommandTree, Family, wait_answer, note_waited, wait_child, kill_child,
  kill_pids, kill_tasks, read_tasks, listing, kill_children, on_kernel, now, wait_any, kill_group,
  kill_and_reap, cleanup_inner, cleanup, mark_failed,
}
use sower.Guest.Sweep.{kill_and_reap-Keeps}

-- The processes that a listing names.
abbrev is_pid : ℤ → Option ℤ → Bool
is_pid pid none = false
is_pid pid (some n) = int_eq n pid

abbrev names : ℤ → List Text → Bool
names pid [] = false
names pid (t ∷ ts) = is_pid pid (parse_int t) || names pid ts

abbrev task_names : ℤ → List Task → Bool
task_names pid [] = false
task_names pid (Task.entry_error e ∷ ts) = task_names pid ts
task_names pid (Task.children t ∷ ts) = names pid (words t) || task_names pid ts
task_names pid (Task.unreadable e ∷ ts) = task_names pid ts

abbrev listing_names : ℤ → Io (List Task) → Bool
listing_names pid (done tasks) = task_names pid tasks
listing_names pid (fails e) = false

-- Whether the last listing names the process and no child was reaped since (the latest call first).
abbrev pub listed_since : ℤ → List Call → Bool
listed_since pid [] = false
listed_since pid (Call.listed tasks ∷ calls) = listing_names pid tasks
listed_since pid (Call.killed other ∷ calls) = listed_since pid calls
listed_since pid (Call.reaped other ∷ calls) = false
listed_since pid (Call.no_child other ∷ calls) = listed_since pid calls
listed_since pid (Call.spawned other ∷ calls) = listed_since pid calls

-- Whether every process that was killed was listed so, or is the group given.
abbrev pub kills_listed : ℤ → List Call → Bool
kills_listed group [] = true
kills_listed group (Call.listed tasks ∷ calls) = kills_listed group calls
kills_listed group (Call.killed pid ∷ calls) =
    (int_eq pid group || listed_since pid calls) && kills_listed group calls
kills_listed group (Call.reaped pid ∷ calls) = kills_listed group calls
kills_listed group (Call.no_child pid ∷ calls) = kills_listed group calls
kills_listed group (Call.spawned pid ∷ calls) = kills_listed group calls

module _ (group : ℤ) where
  abbrev Safe : Kernel → Type 0
  Safe k = kills_listed group k.calls ≡ true

  -- The last listing names the processes that are given, and no child was reaped since.
  record Listed (given : ℤ → Bool) (k : Kernel) : Type 0 where
    since : (pid : ℤ) → given pid ≡ true → listed_since pid k.calls ≡ true
    safe : Safe k

  module _ (given : ℤ → Bool) where
    kill_child-Listed : (pid : ℤ) → given pid ≡ true → Keeps (Listed given) (kill_child pid)
    unfolding kill_child
    kill_child-Listed pid g = record {
      at = λ k h. record {
        since = h.since;
        safe =
            let known : listed_since pid k.calls ≡ true = h.since pid g in ground (arith, h.safe);
      };
    }

    kill_pids-Listed :
        (ts : List Text)
        → ((pid : ℤ) → names pid ts ≡ true → given pid ≡ true)
        → Keeps (Listed given) (kill_pids ts)
    unfolding kill_pids ◌>>=◌
    kill_pids-Listed [] g = Keeps-pure tt
    kill_pids-Listed (t ∷ ts) g = elim (Option-cases (parse_int t)) [
      | inl n ↦ rw n (record { at = λ k h. h })
      | inr (pid, n) ↦
          let own : is_pid pid (parse_int t) ≡ true = rw n ((int_eq_iff pid pid).1 refl) in
          let rest = kill_pids-Listed ts (λ p m. g p (ground arith)) in
          let chain = Keeps-then _ _ (kill_child-Listed pid (g pid (ground arith))) rest in
          rw n (record { at = λ k h. chain.at k h })
    ]

    kill_tasks-Listed :
        (ts : List Task)
        → ((pid : ℤ) → task_names pid ts ≡ true → given pid ≡ true)
        → Keeps (Listed given) (kill_tasks ts)
    unfolding kill_tasks
    kill_tasks-Listed [] g = Keeps-pure tt
    kill_tasks-Listed (Task.entry_error e ∷ ts) g = Keeps-lift _
    kill_tasks-Listed (Task.children t ∷ ts) g =
        Keeps-then _ _ (kill_pids-Listed (words t) (λ pid m. g pid (ground arith)))
          (kill_tasks-Listed ts (λ pid m. g pid (ground arith)))
    kill_tasks-Listed (Task.unreadable e ∷ ts) g = elim (Bool-cases (is_raw 2 e)) [
      | inl found ↦ rw (found, kill_tasks) (kill_tasks-Listed ts g)
      | inr other ↦ rw (other, kill_tasks) (Keeps-lift _)
    ]

  listing-Safe :
      (r : Io (List Task)) (k : Kernel)
      → Listed (λ pid. listing_names pid r) k
      → Safe (continue r kill_tasks k).1
  listing-Safe (done ts) k h =
      ((kill_tasks-Listed (λ pid. task_names pid ts) ts (λ pid m. m)).at k h).safe
  listing-Safe (fails e) k h = h.safe

  kill_children-Safe : Keeps (λ f. Safe f.kernel) (on_kernel kill_children)
  unfolding on_kernel kill_children read_tasks ◌>>=◌
  kill_children-Safe = record {
    at = λ f h.
        listing-Safe (listing f.kernel.listings).0 _ (record { since = λ pid m. m; safe = h });
  }

  now-Safe : Keeps (λ f. Safe f.kernel) (on_kernel now)
  unfolding on_kernel now
  now-Safe = record { at = λ f h. h }

  note_waited-safe :
      (pid : ℤ) (r : Io (Option (ℤ × ℕ))) (calls : List Call)
      → kills_listed group (note_waited pid r calls) ≡ kills_listed group calls
  note_waited-safe pid (done none) calls = refl
  note_waited-safe pid (done (some (found, status))) calls = refl
  note_waited-safe pid (fails e) calls = elim (Bool-cases (is_raw 10 e)) [
    | inl y ↦ rw y refl
    | inr n ↦ rw n refl
  ]

  wait_any-Safe : Keeps (λ f. Safe f.kernel) wait_any
  unfolding wait_any wait_child
  wait_any-Safe = record {
    at = λ f h. note_waited-safe (negsuc 0) (wait_answer f.kernel.waits).0 f.kernel.calls ∙ h;
  }

  kill_group-Safe :
      (tree : CommandTree)
      → negate tree.root ≡ group
      → Keeps (λ f. Safe f.kernel) (on_kernel (kill_group tree))
  unfolding on_kernel kill_child pure
  kill_group-Safe tree e = elim (Option-cases tree.status) [
    | inl n ↦
        rw n (record { at = λ f h. ground (arith, h, e, int_eq_iff (negate tree.root) group) })
    | inr (status, n) ↦ rw n (record { at = λ f h. h })
  ]

mark_failed-Safe :
    (group : ℤ) (r : Io (Unit {0})) (k : Kernel) → Safe group k → Safe group (mark_failed r k)
mark_failed-Safe group (done u) k h = h
mark_failed-Safe group (fails e) k h = h

cleanup_inner-Safe :
    (fuel : ℕ) (f : Family)
    → Safe (negate f.tree.root) f.kernel
    → Safe (negate f.tree.root) (cleanup_inner fuel f).1.kernel
unfolding cleanup_inner
cleanup_inner-Safe fuel f h = go f.tree.clean
  where
    go :
        (clean : Bool)
        → Safe
            (negate f.tree.root)
            (if clean then (done tt, f) else kill_and_reap fuel f.tree f).1.kernel
    go true = h
    go false =
        let group = negate f.tree.root in
        (kill_and_reap-Keeps (now-Safe group) (wait_any-Safe group) (kill_children-Safe group) fuel
            f.tree (kill_group-Safe group f.tree refl)).at
          f h

-- A cleanup signals the command's own process group and besides it only processes whose number stands in the last listing of the runtime's children, with no child reaped since that listing, provided that this held of the kills before.
pub cleanup-kills_listed :
    (fuel : ℕ) (f : Family)
    → kills_listed (negate f.tree.root) f.kernel.calls ≡ true
    → kills_listed (negate f.tree.root) (cleanup fuel f).1.kernel.calls ≡ true
unfolding cleanup
cleanup-kills_listed fuel f h =
    mark_failed-Safe (negate f.tree.root) (cleanup_inner fuel f).0 _ (cleanup_inner-Safe fuel f h)
