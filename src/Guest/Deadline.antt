-- ===== src/Guest/Deadline.antt =====
-- The loops of `cleanup_inner` in guest/src/lib.rs end at the deadline.
use sower.Prelude.{
  ℕ, zero, suc, ◌+◌, ◌≤◌, ◌<◌, ◌∙◌, ◌≡◌, refl, arith, Bool, true, false, leb, if◌then◌else◌, le→leb,
}
use sower.Guest.Io.{Io, done, fails}
use sower.Guest.Action.{Action, pure, continue, ◌>>=◌, ◌>>◌, Keeps}
use sower.Guest.Tree.{
  Kernel, Family, wait_child, kill_children, on_kernel, now, Reaping, finished, reaped_one,
  nothing_ready, wait_any, reap_one, unless_late, after_turn, reap, timeout_error, kill_group,
  kill_and_reap, cleanup_inner, cleanup,
}
use sower.Guest.Cleanup.{tick, past_value}
use sower.Guest.Reported.{Settled, kill_children-Keeps, kill_group-Keeps}

-- The clock is `c`, and `n` more readings are enough to come to reading `last`.
record Nears (c : ℕ → ℕ) (last n : ℕ) (f : Family) : Type 0 where
  same_clock : f.kernel.clock ≡ c
  near : last ≤ f.kernel.readings + n

module _ {c : ℕ → ℕ} {last n : ℕ} where
  first_tick : (f : Family) → Nears c last (suc n) f → Nears c last n (tick f)
  unfolding tick
  first_tick f h = record { same_clock = h.same_clock; near = omega (arith, h.near) }

  later_tick : (f : Family) → Nears c last n f → Nears c last n (tick f)
  unfolding tick
  later_tick f h = record { same_clock = h.same_clock; near = omega (arith, h.near) }

  wait_any-Nears : (f : Family) → Nears c last n f → Nears c last n (wait_any f).1
  unfolding wait_any wait_child
  wait_any-Nears f h = record { same_clock = h.same_clock; near = h.near }

  on_kernel-Nears :
      (m : Action Kernel (Unit {0}))
      → ((b : Bool) (d : ℕ → ℕ) (k : ℕ) (p : Bool) → Keeps (Settled b d k p) m)
      → (f : Family) → Nears c last n f
      → Nears c last n (on_kernel m f).1
  unfolding on_kernel
  on_kernel-Nears m keeps f h =
      let k = (keeps f.kernel.failed f.kernel.clock f.kernel.readings false).at f.kernel (record {
        quiet = λ e. absurd (ground arith);
        marked = refl;
        same_clock = refl;
        same_readings = refl;
      }) in
      record {
        same_clock = k.same_clock ∙ h.same_clock;
        near = omega (arith, h.near, k.same_readings);
      }

module _ (c : ℕ → ℕ) (last : ℕ) where
  -- Two ways to go on that do the same.
  abbrev Same : ℕ → Action Family (Unit {0}) → Action Family (Unit {0}) → Type 0
  Same n m m' = (f : Family) → Nears c last n f → m f ≡ m' f

  continue-Same :
      (n : ℕ) (rest rest' : Action Family (Unit {0}))
      → Same n rest rest'
      → (r : Io (Unit {0})) (f : Family) → Nears c last n f
      → continue r (λ _. rest) f ≡ continue r (λ _. rest') f
  continue-Same n rest rest' same (done u) f h = same f h
  continue-Same n rest rest' same (fails x) f h = refl

  -- A call of the kernel that does not read the clock may come first.
  kernel_then-Same :
      (n : ℕ) (m : Action Kernel (Unit {0}))
      → ((b : Bool) (d : ℕ → ℕ) (k : ℕ) (p : Bool) → Keeps (Settled b d k p) m)
      → (rest rest' : Action Family (Unit {0})) → Same n rest rest'
      → Same n (on_kernel m >> rest) (on_kernel m >> rest')
  unfolding ◌>>=◌
  kernel_then-Same n m keeps rest rest' same f h =
      continue-Same n rest rest' same (on_kernel m f).0 _ (on_kernel-Nears m keeps f h)

  unless_late-Same :
      (n : ℕ) (rest rest' : Action Family (Unit {0}))
      → Same n rest rest'
      → (late : Bool) → Same n (unless_late rest late) (unless_late rest' late)
  unless_late-Same n rest rest' same true f h = refl
  unless_late-Same n rest rest' same false f h =
      kernel_then-Same n kill_children (λ b d k p. kill_children-Keeps) rest rest' same f h

  after_turn-Same :
      (n : ℕ) (rest rest' : Action Family (Unit {0})) (deadline : ℕ)
      → Same n rest rest'
      → (next : Reaping) → Same n (after_turn rest deadline next) (after_turn rest' deadline next)
  unfolding ◌>>=◌
  after_turn-Same n rest rest' deadline same (finished r) f h = refl
  after_turn-Same n rest rest' deadline same reaped_one f h = same f h
  after_turn-Same n rest rest' deadline same nothing_ready f h =
      rw (past_value deadline f) (unless_late-Same n rest rest' same _ (tick f) (later_tick f h))

  module _ (deadline : ℕ) (grows : (m n : ℕ) → m ≤ n → c m ≤ c n)
      (reached : deadline ≤ c last) where
    waited-Same :
        (n : ℕ) (rest rest' : Action Family (Unit {0}))
        → Same n rest rest'
        → (r : Io Reaping) (f : Family) → Nears c last n f
        → continue r (after_turn rest deadline) f ≡ continue r (after_turn rest' deadline) f
    waited-Same n rest rest' same (done next) f h =
        after_turn-Same n rest rest' deadline same next f h
    waited-Same n rest rest' same (fails x) f h = refl

    -- One turn: the deadline has passed, or a process may be reaped before the rest goes on.
    turn-Same :
        (n : ℕ) (rest rest' : Action Family (Unit {0})) (f : Family)
        → Same n rest rest'
        → Nears c last (suc n) f
        → (reap_one deadline >>= after_turn rest deadline) f
          ≡ (reap_one deadline >>= after_turn rest' deadline) f
    unfolding ◌>>=◌ reap_one
    turn-Same n rest rest' f same h =
        rw (past_value deadline f) (go (leb deadline (f.kernel.clock f.kernel.readings)))
      where
        go :
            (late : Bool)
            → let o = (if late then pure (finished (fails timeout_error)) else wait_any) (tick f) in
              continue o.0 (after_turn rest deadline) o.1
              ≡ continue o.0 (after_turn rest' deadline) o.1
        go true = refl
        go false =
            waited-Same n rest rest' same (wait_any (tick f)).0 _
              (wait_any-Nears (tick f) (first_tick f h))

    -- At the deadline the first turn ends the loop.
    turn_last :
        (rest rest' : Action Family (Unit {0})) (f : Family)
        → Nears c last 0 f
        → (reap_one deadline >>= after_turn rest deadline) f
          ≡ (reap_one deadline >>= after_turn rest' deadline) f
    unfolding ◌>>=◌ reap_one
    turn_last rest rest' f h =
        let late : leb deadline (f.kernel.clock f.kernel.readings) ≡ true = le→leb _ _ (
          rw h.same_clock
            (omega (arith, reached, grows last f.kernel.readings (omega (arith, h.near))))) in
        rw (past_value deadline f, late) refl

    reap_ends : (n a b : ℕ) → n < a → n < b → Same n (reap a deadline) (reap b deadline)
    unfolding reap
    reap_ends n zero b la lb f h = absurd (omega (arith, la))
    reap_ends n (suc a) zero la lb f h = absurd (omega (arith, lb))
    reap_ends zero (suc a) (suc b) la lb f h = turn_last _ _ f h
    reap_ends (suc n) (suc a) (suc b) la lb f h =
        turn-Same n _ _ f (reap_ends n a b (omega (arith, la)) (omega (arith, lb))) h

-- The clock never goes back, and three seconds after the start of a cleanup it is read `n` times at the most.
pub record IsSlow (n : ℕ) (k : Kernel) : Type 0 where
  pub grows : (m m' : ℕ) → m ≤ m' → k.clock m ≤ k.clock m'
  pub reached : k.clock k.readings + 3000 ≤ k.clock (suc k.readings + n)

kill_and_reap_ends :
    (n a b : ℕ) (f : Family)
    → n < a
    → n < b
    → IsSlow n f.kernel
    → kill_and_reap a f.tree f ≡ kill_and_reap b f.tree f
unfolding ◌>>=◌ tick on_kernel now
kill_and_reap_ends n a b f la lb slow =
    let c = f.kernel.clock in
    let last = suc f.kernel.readings + n in
    let same = reap_ends c last (c f.kernel.readings + 3000) slow.grows slow.reached n a b la lb in
    kernel_then-Same c last n (kill_group f.tree) (λ b' d k p. kill_group-Keeps f.tree) _ _
      (kernel_then-Same c last n kill_children (λ b' d k p. kill_children-Keeps) _ _ same) (tick f)
      (record { same_clock = refl; near = omega arith })

-- While the clock never goes back and reaches the deadline of three seconds within `n` more readings, the loops of a cleanup end by then: every number of turns greater than `n` gives the same result and leaves the same state.
pub cleanup_ends :
    (n a b : ℕ) (f : Family) → n < a → n < b → IsSlow n f.kernel → cleanup a f ≡ cleanup b f
unfolding cleanup cleanup_inner
cleanup_ends n a b f la lb slow =
    let same : cleanup_inner a f ≡ cleanup_inner b f = go f.tree.clean in rw same refl
  where
    go :
        (clean : Bool)
        → (if clean then (done tt, f) else kill_and_reap a f.tree f)
          ≡ (if clean then (done tt, f) else kill_and_reap b f.tree f)
    go true = refl
    go false = kill_and_reap_ends n a b f la lb slow
