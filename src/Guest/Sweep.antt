-- ===== src/Guest/Sweep.antt =====
-- The loops of `cleanup_inner` in guest/src/lib.rs keep what their calls of the kernel keep.
use sower.Prelude.{ℕ, zero, suc, ◌+◌, Bool, true, false}
use sower.Guest.Action.{Action, Keeps, Keeps-pure, Keeps-lift, Keeps-if, Keeps-bind, Keeps-then}
use sower.Guest.Tree.{
  CommandTree, Family, kill_children, on_kernel, now, past, Reaping, finished, reaped_one,
  nothing_ready, wait_any, reap_one, unless_late, after_turn, reap, kill_group, kill_and_reap,
}

module _ {P : Family → Type 0} (now-P : Keeps P (on_kernel now)) (wait_any-P : Keeps P wait_any)
    (kill_children-P : Keeps P (on_kernel kill_children)) where
  past-Keeps : (deadline : ℕ) → Keeps P (past deadline)
  unfolding past
  past-Keeps deadline = Keeps-bind _ _ now-P (λ time. Keeps-pure _)

  reap_one-Keeps : (deadline : ℕ) → Keeps P (reap_one deadline)
  unfolding reap_one
  reap_one-Keeps deadline =
      Keeps-bind _ _ (past-Keeps deadline) (λ late. Keeps-if late _ _ (Keeps-pure _) wait_any-P)

  unless_late-Keeps :
      (rest : Action Family (Unit {0}))
      → Keeps P rest
      → (late : Bool) → Keeps P (unless_late rest late)
  unless_late-Keeps rest k true = Keeps-lift _
  unless_late-Keeps rest k false = Keeps-then _ _ kill_children-P k

  after_turn-Keeps :
      (rest : Action Family (Unit {0})) (deadline : ℕ)
      → Keeps P rest
      → (next : Reaping) → Keeps P (after_turn rest deadline next)
  after_turn-Keeps rest deadline k (finished result) = Keeps-lift _
  after_turn-Keeps rest deadline k reaped_one = k
  after_turn-Keeps rest deadline k nothing_ready =
      Keeps-bind _ _ (past-Keeps deadline) (unless_late-Keeps rest k)

  reap-Keeps : (fuel deadline : ℕ) → Keeps P (reap fuel deadline)
  unfolding reap
  reap-Keeps zero deadline = Keeps-lift _
  reap-Keeps (suc fuel) deadline =
      Keeps-bind _ _ (reap_one-Keeps deadline)
        (after_turn-Keeps _ deadline (reap-Keeps fuel deadline))

  pub kill_and_reap-Keeps :
      (fuel : ℕ) (tree : CommandTree)
      → Keeps P (on_kernel (kill_group tree))
      → Keeps P (kill_and_reap fuel tree)
  kill_and_reap-Keeps fuel tree k =
      Keeps-bind _ _ now-P (λ start.
        Keeps-then _ _ k (Keeps-then _ _ kill_children-P (reap-Keeps fuel (start + 3000))))
