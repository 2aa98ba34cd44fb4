-- ===== src/Activate/Services.antt =====
-- `services::run` and its helpers: src/commands/activator/services.rs.
use sower.Prelude.{
  Bool, false, not, List, [], ◌∷◌, ◌++◌, Option, none, some, ℤ, pos, int_eq, Text, bytes, concat,
  text_eq, starts_with, ends_with, any, is_empty, ◌||◌, ◌+◌, decimal, negsuc, ok, bail,
  if◌then◌else◌,
}
use sower.Protocol.{SeedRef}
use sower.Network.Files.{components}
use sower.Network.Store.{path_eq}
use sower.Activate.Platform.{
  try_step, Platform, Step, FilePath, Action, pure, lift, gets, modify, call_back, stream, step,
  ◌>>=◌, ◌>>◌,
}
use sower.Activate.Hash.{content_hash}

abbrev pub state_dir : FilePath
state_dir = bytes "/var/lib/sower-activator/services"

-- `Path::join` with a relative path.
unfoldable pub join : FilePath → FilePath → FilePath
join base path =
    if is_empty base || ends_with base (bytes "/") then base ++ path else base ++ (b'/' ∷ path)

abbrev display_int : ℤ → Text
display_int (pos n) = decimal n
display_int (negsuc n) = b'-' ∷ decimal (n + 1)

abbrev pub systemd_units : FilePath → FilePath
systemd_units profile = join (join profile (bytes "systemd")) (bytes "system")

abbrev pub resolved : FilePath → FilePath
resolved target = if starts_with target (bytes "/") then target else join state_dir target

abbrev pub resolved_link : Option FilePath → Option FilePath
resolved_link none = none
resolved_link (some target) = some (resolved target)

-- Paths are equal when their components are.
abbrev pub is_profile : FilePath → Option FilePath → Bool
is_profile profile none = false
is_profile profile (some old) = path_eq (components old) (components profile)

unfoldable pub sd_switch_cmd : FilePath → FilePath → List Text
sd_switch_cmd old_units new_units =
    bytes "sd-switch"
    ∷ bytes "--verbose"
    ∷ bytes "--system"
    ∷ bytes "--old-units"
    ∷ old_units
    ∷ bytes "--new-units"
    ∷ new_units
    ∷ []

unfoldable pub copy_cmd : FilePath → FilePath → List Text
copy_cmd source profile_dir =
    bytes "cp"
    ∷ bytes "--recursive"
    ∷ bytes "--no-clobber"
    ∷ (source ++ bytes "/")
    ∷ profile_dir
    ∷ []

module _ (p : Platform) where
  unfoldable pub resolve_current : Action (Option FilePath)
  resolve_current = do
    step p (bytes "read current symlink /var/lib/sower-activator/services/current")
        Step.read_current
    target ← gets (λ s. s.current)
    pure (resolved_link target)

  -- The inner loop of `warn_collisions`, over the files below a seed's directory; `seen` grows.
  unfoldable pub warn_collisions : Text → List Text → List Text → Action (List Text)
  warn_collisions seed_name [] seen = pure seen
  warn_collisions seed_name (file ∷ files) seen =
      let again = any (text_eq file) seen in
      let next = if again then seen else file ∷ seen in
      let rest = warn_collisions seed_name files next in
      if again
      then (do
        now ← gets (λ s. p.now s.steps)
        call_back
            (concat (
              now
              ∷ bytes " [activator] WARN unit collision: seed="
              ∷ seed_name
              ∷ bytes " file="
              ∷ file
              ∷ []))
            false
        rest)
      else rest

  unfoldable pub copy_seeds : List SeedRef → FilePath → List Text → Action (Unit {0})
  copy_seeds [] profile_dir seen = pure tt
  copy_seeds (seed ∷ seeds) profile_dir seen = do
    let source = join (join seed.path (bytes ".sower")) (bytes "systemd")
    files ← gets (λ s. p.files_below s.steps source)
    seen' ← warn_collisions seed.name files seen
    exit ← stream p (copy_cmd source profile_dir)
    lift (
        if int_eq exit (pos 0)
        then ok tt
        else bail (
            concat (
              bytes "cp failed for seed "
              ∷ seed.name
              ∷ bytes " with exit "
              ∷ display_int exit
              ∷ [])))
    copy_seeds seeds profile_dir seen'

  unfoldable pub old_units_path : Option FilePath → Action FilePath
  old_units_path (some profile) = pure (systemd_units profile)
  old_units_path none = do
    dir ← gets (λ s. p.empty_directory s.steps)
    step p (bytes "create temp dir " ++ dir) (Step.create_directory dir)
    step p (bytes "create empty old units " ++ systemd_units dir)
        (Step.create_directory (systemd_units dir))
    pure (systemd_units dir)

  -- The new link is made beside the old one and renamed over it.
  unfoldable pub update_current : FilePath → Action (Unit {0})
  update_current target = do
    step p (bytes "create state dir /var/lib/sower-activator/services")
        (Step.create_directory state_dir)
    try_step Step.remove_new
    step p (bytes "symlink /var/lib/sower-activator/services/current.new -> " ++ target)
        (Step.link_new target)
    step p
        (bytes
          "rename /var/lib/sower-activator/services/current.new -> /var/lib/sower-activator/services/current")
        Step.rename_new
    modify (λ s. record s { current = some target })

  -- `run` after it was seen that the seeds are not the current ones.
  unfoldable pub activate_seeds : List SeedRef → FilePath → Option FilePath → Action ℤ
  activate_seeds seeds profile_dir old_profile = do
    step p (bytes "create profile dir " ++ systemd_units profile_dir)
        (Step.create_directory (systemd_units profile_dir))
    copy_seeds seeds profile_dir []
    old_units ← old_units_path old_profile
    exit ← stream p (sd_switch_cmd old_units (systemd_units profile_dir))
    (if not (int_eq exit (pos 0)) then pure exit else (do update_current profile_dir; pure (pos 0)))

  abbrev pub profile_of : List SeedRef → FilePath
  profile_of seeds = join state_dir (content_hash p.sha256 seeds)

  unfoldable pub run : List SeedRef → Action ℤ
  run seeds = do
    old_profile ← resolve_current
    (if is_profile (profile_of seeds) old_profile
        then (do
          now ← gets (λ s. p.now s.steps)
          call_back
              (concat (
                now
                ∷ bytes " services already activated (hash="
                ∷ content_hash p.sha256 seeds
                ∷ bytes ")"
                ∷ []))
              false
          pure (pos 0))
        else activate_seeds seeds (profile_of seeds) old_profile)
