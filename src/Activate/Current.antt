-- ===== src/Activate/Current.antt =====
-- The link `current` of src/commands/activator/services.rs: when `run` moves it.
use sower.Prelude.{
  ◌≡◌, refl, ◌∙◌, Bool, true, false, not, List, [], ◌∷◌, Option, none, some, ℤ, pos, int_eq, Text,
  bytes, starts_with, ends_with, if◌then◌else◌, Result, ◌⊎◌, is_ok, ok, err, inl, inr, Result-cases,
  Bool-cases, arith, text_eq_refl,
}
use mathlib.Core.List.{Permᴰ}
use sower.Protocol.{SeedRef}
use sower.Network.Store.{path_eq}
use sower.Activate.Platform.{
  try_step, Platform, State, Step, FilePath, Action, pure, lift, gets, modify, stream, step,
  call_back, ◌>>=◌, ◌>>◌,
}
use sower.Activate.Hash.{content_hash, content_hash-Perm}
use sower.Activate.Services.{
  state_dir, join, resolved, resolved_link, is_profile, profile_of, run, activate_seeds,
  resolve_current, copy_seeds, old_units_path, update_current, warn_collisions,
}

path_eq_refl : (p : List Text) → path_eq p p ≡ true
path_eq_refl [] = refl
path_eq_refl (c ∷ p) = ground (arith, text_eq_refl c, path_eq_refl p)

-- A profile's path is absolute, and so its link resolves to itself.
profile_resolved : (hash : Text) → resolved (join state_dir hash) ≡ join state_dir hash
unfolding join bytes ends_with starts_with
profile_resolved hash = refl

profile_is_profile :
    (hash : Text)
    → is_profile (join state_dir hash) (resolved_link (some (join state_dir hash))) ≡ true
profile_is_profile hash = rw (profile_resolved hash) (path_eq_refl _)

-- The actions before the last one leave the link alone.
record Stays {A : Type 0} (m : Action A) : Type 0 where
  at : (s : State) → (m s).1.current ≡ s.current

module _ {A : Type 0} where
  Stays-pure : (a : A) → Stays (pure a)
  unfolding pure
  Stays-pure a = record { at = λ s. refl }

  Stays-lift : (r : Result A) → Stays (lift r)
  unfolding lift
  Stays-lift r = record { at = λ s. refl }

  Stays-gets : (f : State → A) → Stays (gets f)
  unfolding gets
  Stays-gets f = record { at = λ s. refl }

  Stays-if : (b : Bool) (m n : Action A) → Stays m → Stays n → Stays (if b then m else n)
  Stays-if true m n hm hn = hm
  Stays-if false m n hm hn = hn

module _ {A B : Type 0} where
  onwards : (r : Result A) (f : A → Action B) → ((a : A) → Stays (f a)) → Stays (lift r >>= f)
  unfolding ◌>>=◌
  onwards (ok a) f h = record { at = (h a).at }
  onwards (err e) f h = record { at = λ s. refl }

  Stays-bind :
      (m : Action A) (f : A → Action B) → Stays m → ((a : A) → Stays (f a)) → Stays (m >>= f)
  unfolding ◌>>=◌
  Stays-bind m f hm hf = record { at = λ s. let (r, s') = m s in (onwards r f hf).at s' ∙ hm.at s }

  Stays-then : (m : Action A) (k : Action B) → Stays m → Stays k → Stays (m >> k)
  Stays-then m k hm hk = Stays-bind m (λ _. k) hm (λ _. hk)

call_back-Stays : (line : Text) (is_error : Bool) → Stays (call_back line is_error)
unfolding call_back modify
call_back-Stays line is_error = record { at = λ s. refl }

module _ (p : Platform) where
  stream-Stays : (argv : List Text) → Stays (stream p argv)
  unfolding stream
  stream-Stays argv = record { at = λ s. refl }

  step-Stays : (message : Text) (x : Step) → Stays (step p message x)
  unfolding step
  step-Stays message x = record { at = λ s. refl }

  ruleset stays_rules = (
    Stays-pure, Stays-lift, Stays-gets, Stays-if, Stays-bind, Stays-then, call_back-Stays,
    stream-Stays, step-Stays,
  )

  collisions-Stays :
      (name : Text) (files seen : List Text) → Stays (warn_collisions p name files seen)
  unfolding warn_collisions
  collisions-Stays name [] seen = search stays_rules
  collisions-Stays name (file ∷ files) seen =
      let ih = collisions-Stays name files in
      Stays-if _ _ _
        (Stays-bind _ _ (search stays_rules) (λ now. Stays-then _ _ (search stays_rules) (ih _)))
        (ih _)

  copy-Stays :
      (seeds : List SeedRef) (dir : FilePath) (seen : List Text)
      → Stays (copy_seeds p seeds dir seen)
  unfolding copy_seeds
  copy-Stays [] dir seen = search stays_rules
  copy-Stays (seed ∷ seeds) dir seen =
      let ih = copy-Stays seeds dir in
      Stays-bind _ _ (search stays_rules) (λ files.
        Stays-bind _ _ (collisions-Stays seed.name files seen) (λ seen'.
          Stays-bind _ _ (search stays_rules)
            (λ exit. Stays-then _ _ (search stays_rules) (ih seen'))))

  old-Stays : (old : Option FilePath) → Stays (old_units_path p old)
  unfolding old_units_path
  old-Stays none = search stays_rules depth 12
  old-Stays (some o) = search stays_rules

  -- `update_current` moves the link exactly when it succeeds.
  update_value :
      (target : FilePath) (s : State)
      → (((update_current p target s).0 ≡ ok tt)
          × ((update_current p target s).1.current ≡ some target))
        ⊎ ((is_ok (update_current p target s).0 ≡ false)
            × ((update_current p target s).1.current ≡ s.current))
  unfolding update_current step try_step ◌>>=◌
  update_value target s = ground arith

-- Exit code 0.
abbrev pub succeeded : Result ℤ → Bool
succeeded (ok code) = int_eq code (pos 0)
succeeded (err e) = false

-- The action succeeds and points the link at the target, or fails and leaves the link alone.
abbrev pub HasMoved : FilePath → Result ℤ × State → State → Type 0
HasMoved target after before =
    ((succeeded after.0 ≡ true) × (after.1.current ≡ some target))
    ⊎ ((succeeded after.0 ≡ false) × (after.1.current ≡ before.current))

record Moves (target : FilePath) (m : Action ℤ) : Type 0 where
  at : (s : State) → HasMoved target (m s) s

module _ {A : Type 0} {target : FilePath} where
  Moves-on :
      (r : Result A) (f : A → Action ℤ)
      → ((a : A) → Moves target (f a))
      → Moves target (lift r >>= f)
  unfolding ◌>>=◌
  Moves-on (ok a) f h = record { at = (h a).at }
  Moves-on (err e) f h = record { at = λ s. inr (refl, refl) }

  Moves-bind :
      (m : Action A) (f : A → Action ℤ)
      → Stays m
      → ((a : A) → Moves target (f a))
      → Moves target (m >>= f)
  unfolding ◌>>=◌
  Moves-bind m f hm hf = record {
    at = λ s. elim ((Moves-on ((m s).0) f hf).at ((m s).1)) [
      | inl (a, b) ↦ inl (a, b)
      | inr (a, b) ↦ inr (a, b ∙ hm.at s)
    ];
  }

module _ (p : Platform) where
  last-Moves :
      (target : FilePath) (exit : ℤ)
      → Moves target
          (if not (int_eq exit (pos 0)) then pure exit else update_current p target >> pure (pos 0))
  unfolding ◌>>=◌
  last-Moves target exit = record {
    at = λ s. elim (Bool-cases (int_eq exit (pos 0))) [
      | inr e ↦ rw e (inr (e, refl))
      | inl e ↦ elim (update_value p target s) [
        | inl (a, b) ↦ ground arith
        | inr (a, b) ↦ ground arith
      ]
    ];
  }

  activate-Moves :
      (seeds : List SeedRef) (target : FilePath) (old : Option FilePath)
      → Moves target (activate_seeds p seeds target old)
  unfolding activate_seeds
  activate-Moves seeds target old = Moves-bind _ _ (step-Stays p _ _) (λ _.
      Moves-bind _ _ (copy-Stays p seeds target []) (λ _.
        Moves-bind _ _ (old-Stays p old)
          (λ units. Moves-bind _ _ (stream-Stays p _) (λ exit. last-Moves target exit))))

  -- The services activated before are those of the seeds.
  abbrev pub is_current : List SeedRef → State → Bool
  is_current seeds s = is_profile (profile_of p seeds) (resolved_link s.current)

  moved_current :
      (seeds : List SeedRef) (s : State)
      → s.current ≡ some (profile_of p seeds)
      → is_current seeds s ≡ true
  moved_current seeds s h = rw h (profile_is_profile (content_hash p.sha256 seeds))

  reached :
      (seeds : List SeedRef) (s : State) (after : Result ℤ × State)
      → HasMoved (profile_of p seeds) after s
      → ((succeeded after.0 ≡ true) × (is_current seeds after.1 ≡ true))
        ⊎ ((succeeded after.0 ≡ false) × (after.1.current ≡ s.current))
  reached seeds s after (inl (a, b)) = inl (a, moved_current seeds after.1 b)
  reached seeds s after (inr (a, b)) = inr (a, b)

  -- `services::run` ends in one of two ways: with exit code 0, and the link `current` leads to the profile of the seeds; or with another exit code or an error, and the link is what it was.
  pub run_moves :
      (seeds : List SeedRef) (s : State)
      → ((succeeded (run p seeds s).0 ≡ true) × (is_current seeds (run p seeds s).1 ≡ true))
        ⊎ ((succeeded (run p seeds s).0 ≡ false) × ((run p seeds s).1.current ≡ s.current))
  unfolding run resolve_current step call_back ◌>>=◌
  run_moves seeds s = elim (Result-cases (p.step_result s.steps Step.read_current)) [
    | inr (e, h) ↦ inr (rw h refl, rw h refl)
    | inl (u, h) ↦ elim (Bool-cases (is_current seeds s)) [
      | inl c ↦ inl (rw (h, c) refl, rw (h, c) c)
      | inr c ↦
          let s1 : State = record s { steps = Step.read_current ∷ s.steps } in
          let same : run p seeds s
              ≡ activate_seeds p seeds (profile_of p seeds) (resolved_link s.current) s1 =
            rw (h, c) refl in
          rw (same, run)
            (reached seeds s
              (activate_seeds p seeds (profile_of p seeds) (resolved_link s.current) s1)
              ((activate-Moves seeds (profile_of p seeds) (resolved_link s.current)).at s1))
    ]
  ]

  -- Seeds that are the current ones are not activated again: the run reads the link, and does nothing else.
  run_idle :
      (seeds : List SeedRef) (s : State)
      → is_current seeds s ≡ true
      → p.step_result s.steps Step.read_current ≡ ok tt
      → ((run p seeds s).0 ≡ ok (pos 0)) × ((run p seeds s).1.steps ≡ Step.read_current ∷ s.steps)
  unfolding run resolve_current step call_back ◌>>=◌
  run_idle seeds s c h = rw (h, c) (refl, refl)

  -- Activation is idempotent: after a run that succeeded, a run of the same seeds in any order, if the link can be read, succeeds and takes no step but that reading.
  pub run_again :
      {seeds seeds' : List SeedRef} (s : State)
      → Permᴰ seeds seeds'
      → succeeded (run p seeds s).0 ≡ true
      → p.step_result (run p seeds s).1.steps Step.read_current ≡ ok tt
      → ((run p seeds' (run p seeds s).1).0 ≡ ok (pos 0))
        × ((run p seeds' (run p seeds s).1).1.steps ≡ Step.read_current ∷ (run p seeds s).1.steps)
  run_again {seeds} {seeds'} s d ok0 r =
      let s1 = (run p seeds s).1 in
      elim (run_moves seeds s) [
        | inr (f, g) ↦ absurd (ground arith)
        | inl (a, c) ↦ run_idle seeds' s1 (rw (← content_hash-Perm p.sha256 d) c) r
      ]
