-- ===== src/Activate/Run.antt =====
-- `activate::run`: src/commands/activator/activate.rs.
use sower.Prelude.{
  not, List, [], ◌∷◌, ◌++◌, ℤ, pos, int_eq, Text, bytes, text_eq, bail, if◌then◌else◌,
}
use sower.Protocol.{Request}
use sower.Activate.Platform.{Platform, Action, pure, lift, stream, ◌>>=◌}
use sower.Activate.Services as Services

abbrev pub seed_nixos : Text
seed_nixos = bytes "nixos"

abbrev pub seed_home_manager : Text
seed_home_manager = bytes "home-manager"

abbrev pub req_reboot : Text
req_reboot = bytes "reboot"

abbrev pub req_services : Text
req_services = bytes "services"

unfoldable pub reboot_cmd : List Text
reboot_cmd = bytes "systemctl" ∷ bytes "reboot" ∷ []

unfoldable pub home_manager_cmd : Text → List Text
home_manager_cmd store_path = (store_path ++ bytes "/activate") ∷ []

unfoldable pub nixos_profile_cmd : Text → List Text
nixos_profile_cmd store_path =
    bytes "nix-env"
    ∷ bytes "--set"
    ∷ bytes "--profile"
    ∷ bytes "/nix/var/nix/profiles/system"
    ∷ store_path
    ∷ []

unfoldable pub nixos_switch_cmd : Text → Text → List Text
nixos_switch_cmd store_path mode = (store_path ++ bytes "/bin/switch-to-configuration") ∷ mode ∷ []

module _ (p : Platform) where
  unfoldable pub run_nixos : Request → Action ℤ
  run_nixos req = do
    exit ← stream p (nixos_profile_cmd req.path)
    (if not (int_eq exit (pos 0)) then pure exit else stream p (nixos_switch_cmd req.path req.mode))

  unfoldable pub run : Request → Action ℤ
  run req =
      if text_eq req.kind req_reboot
      then stream p reboot_cmd
      else if text_eq req.kind seed_home_manager
      then stream p (home_manager_cmd req.path)
      else if text_eq req.kind seed_nixos
      then run_nixos req
      else if text_eq req.kind req_services
      then Services.run p req.seeds
      else lift (bail (bytes "unsupported seed type: " ++ req.kind))
