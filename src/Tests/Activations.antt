-- ===== src/Tests/Activations.antt =====
-- Requests of the activator at concrete inputs.
use sower.Prelude.{
  ◌≡◌, refl, true, false, List, [], ◌∷◌, none, some, pos, bytes, Text, Result, ok, ◌⊎◌, All,
  text_eq, starts_with, split,
}
use mathlib.Core.List.{Permᴰ}
use sower.Protocol.{Request, SeedRef}
use sower.Network.Operations.{Output}
use sower.Activate.Platform.{try_step, Platform, State, Step, stream, step, call_back, ◌>>=◌}
use sower.Activate.Hash.{content_hash, content_hash-Perm}
use sower.Activate.Services.{
  run, activate_seeds, resolve_current, copy_seeds, old_units_path, update_current, warn_collisions,
}
use sower.Activate.Current.{run_moves, run_again, succeeded, is_current}
use sower.Activate.Run.{req_reboot, req_services}
use sower.Activate.Handler.{
  Machine, NetworkContext, validate, validate_store_path, has_parent_part, read_request,
  run_with_network,
}
use sower.Activate.Answers.{
  IsStorePath, IsRefused, IsAnswered, validate-IsStorePath, answers_once, unauthorized-activation,
}
use sower.Tests.Fixtures.{env, world, policy_file, owner}

-- Every command prints nothing and exits with 0.
abbrev platform : Platform
platform = record {
  run_command = λ steps argv. ([], ok (pos 0));
  step_result = λ steps x. ok tt;
  now = λ steps. bytes "now";
  empty_directory = λ steps. bytes "/tmp/empty";
  files_below = λ steps path. bytes "a.service" ∷ [];
  sha256 = λ text. 1 ∷ 2 ∷ [];
}

abbrev one : SeedRef
one = record { name = bytes "one"; path = bytes "/nix/store/a" }

abbrev two : SeedRef
two = record { name = bytes "two"; path = bytes "/nix/store/b" }

abbrev seeds : List SeedRef
seeds = one ∷ two ∷ []

abbrev seeds_swapped : List SeedRef
seeds_swapped = two ∷ one ∷ []

swapped : Permᴰ seeds seeds_swapped
swapped = Permᴰ.swap refl refl

content_hash-Perm_example :
    content_hash platform.sha256 seeds ≡ content_hash platform.sha256 seeds_swapped
content_hash-Perm_example = content_hash-Perm platform.sha256 swapped

abbrev fresh : State
fresh = record { lines = []; steps = []; current = none }

first_run : succeeded (run platform seeds fresh).0 ≡ true
unfolding run activate_seeds resolve_current copy_seeds old_units_path update_current
    warn_collisions stream step try_step call_back ◌>>=◌ text_eq bytes
first_run = refl

run_moves_example :
    ((succeeded (run platform seeds fresh).0 ≡ true)
      × (is_current platform seeds (run platform seeds fresh).1 ≡ true))
    ⊎ ((succeeded (run platform seeds fresh).0 ≡ false)
        × ((run platform seeds fresh).1.current ≡ none))
run_moves_example = run_moves platform seeds fresh

run_again_example :
    ((run platform seeds_swapped (run platform seeds fresh).1).0 ≡ ok (pos 0))
    × ((run platform seeds_swapped (run platform seeds fresh).1).1.steps
        ≡ Step.read_current ∷ (run platform seeds fresh).1.steps)
run_again_example = run_again platform fresh swapped first_run refl

abbrev nixos : Request
nixos = record {
  id = bytes "1";
  kind = bytes "nixos";
  path = bytes "/nix/store/a-system";
  mode = bytes "switch";
  reason = [];
  seeds = [];
  network_action = none;
  execution_id = none;
  lease = none;
}

nixos_valid : validate nixos ≡ ok tt
unfolding validate validate_store_path has_parent_part text_eq bytes starts_with split
nixos_valid = refl

nixos_no_reboot : text_eq nixos.kind req_reboot ≡ false
unfolding text_eq bytes
nixos_no_reboot = refl

validate-IsStorePath_example :
    ((text_eq nixos.kind req_services ≡ true) × All (λ seed. IsStorePath seed.path) nixos.seeds)
    ⊎ ((text_eq nixos.kind req_services ≡ false) × IsStorePath nixos.path)
validate-IsStorePath_example = validate-IsStorePath nixos nixos_valid nixos_no_reboot

abbrev machine : Machine
machine = record { world = world; activation = fresh; responses = [] }

abbrev print : Output → Text
print output = output.lease

abbrev parse : Text → Result Request
parse text = ok nixos

answers_once_example :
    IsRefused machine (
      run_with_network env platform print true
        (ok policy_file)
        parse
        (ok (bytes "{}"))
        none
        machine)
    ⊎ ((req : Request) × (read_request parse (ok (bytes "{}")) ≡ ok req)
        × IsAnswered req.id []
            (run_with_network env platform print true
              (ok policy_file)
              parse
              (ok (bytes "{}"))
              none
              machine).responses)
answers_once_example =
    answers_once env platform print true (ok policy_file) parse (ok (bytes "{}")) none machine

abbrev visitor : NetworkContext
visitor = record {
  policy = bytes "/etc/policy.json";
  peer = owner.peer;
  activation_authorized = false;
}

unauthorized-activation_example :
    let after =
      run_with_network env platform print true
        (ok policy_file)
        parse
        (ok (bytes "{}"))
        (some visitor)
        machine in
    IsRefused machine after
    ⊎ ((req : Request) × (read_request parse (ok (bytes "{}")) ≡ ok req)
        × (text_eq req.kind (bytes "network") ≡ true)
        × (after.activation ≡ machine.activation))
unauthorized-activation_example =
    unauthorized-activation env platform print true (ok policy_file) parse (ok (bytes "{}")) visitor
      machine refl
