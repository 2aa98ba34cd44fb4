-- ===== src/Activate/Platform.antt =====
-- What activation asks of the platform: the commands that `stream` of
-- src/commands/activator/activate.rs runs, and the file operations of services.rs beside it.
use sower.Prelude.{ℕ, Bool, List, [], ◌∷◌, ◌++◌, Option, ℤ, Text, Result, ok, err}

abbrev pub FilePath : Type 0
FilePath = Text

pub data Step : Type 0 where
  command : List Text → Step
  create_directory : FilePath → Step
  read_current : Step
  remove_new : Step
  link_new : FilePath → Step
  rename_new : Step

-- Every answer may depend on the steps that were taken before, so failures at any point are included. A command answers
-- with the lines that it printed, already stamped, in the order in which they arrive, and with its
-- exit code.
pub record Platform : Type 0 where
  pub run_command : List Step → List Text → (List (Text × Bool)) × Result ℤ
  pub step_result : List Step → Step → Result (Unit {0})
  pub now : List Step → Text
  pub empty_directory : List Step → FilePath
  pub files_below : List Step → FilePath → List Text
  pub sha256 : Text → List ℕ

-- The lines given to the callback in order, the steps taken (the latest first), and the target of
-- the link `current`.
pub record State : Type 0 where
  pub lines : List (Text × Bool)
  pub steps : List Step
  pub current : Option FilePath

abbrev pub Action : Type 0 → Type 0
Action A = State → Result A × State

module _ {A : Type 0} where
  unfoldable pub pure : A → Action A
  pure a s = (ok a, s)

  unfoldable pub lift : Result A → Action A
  lift r s = (r, s)

  unfoldable pub gets : (State → A) → Action A
  gets f s = (ok (f s), s)

unfoldable pub modify : (State → State) → Action (Unit {0})
modify f s = (ok tt, f s)

module _ {A B : Type 0} where
  abbrev continue : Result A → (A → Action B) → Action B
  continue (ok a) f s = f a s
  continue (err e) f s = (err e, s)

  infixl 5 ◌>>=◌ ◌>>◌
  -- Opening this opens the other ways to build an action too.
  unfoldable pub ◌>>=◌ : Action A → (A → Action B) → Action B
  unfolding pure lift gets modify
  ◌>>=◌ m f s = let (r, s') = m s in continue r f s'

  abbrev pub ◌>>◌ : Action A → Action B → Action B
  m >> k = m >>= λ _. k

-- The callback.
unfoldable pub call_back : Text → Bool → Action (Unit {0})
call_back line is_error = modify (λ s. record s { lines = s.lines ++ ((line, is_error) ∷ []) })

module _ (p : Platform) where
  unfoldable pub stream : List Text → Action ℤ
  stream argv s =
      let (lines, result) = p.run_command s.steps argv in
      (result, record s { lines = s.lines ++ lines; steps = Step.command argv ∷ s.steps })

  abbrev contextual : Text → Result (Unit {0}) → Result (Unit {0})
  contextual message (ok u) = ok u
  contextual message (err e) = err (message ∷ e)

  unfoldable pub step : Text → Step → Action (Unit {0})
  step message x s =
      (contextual message (p.step_result s.steps x), record s { steps = x ∷ s.steps })

-- A step whose result is dropped.
unfoldable pub try_step : Step → Action (Unit {0})
try_step x s = (ok tt, record s { steps = x ∷ s.steps })
