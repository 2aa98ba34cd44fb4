-- ===== src/Activate/Handler.antt =====
-- One connection of the activator: src/commands/activator/handler.rs, and the authorization of
-- src/commands/activator/mod.rs and peercred.rs that stands before it.
use sower.Prelude.{
  ℕ, Bool, false, not, ◌&&◌, ◌||◌, List, [], ◌∷◌, ◌++◌, Option, none, some, map, any, is_empty, ℤ,
  pos, Text, bytes, text_eq, starts_with, split, Result, ok, err, bail, context, display,
  display_chain, if◌then◌else◌, ◌==◌,
}
use sower.Policy.{PolicyFile}
use sower.Protocol.{Request, SeedRef, Response, output_response, error_response, complete_response}
use sower.Network.Lease.{PeerCredentials}
use sower.Network.Os.{Env, World}
use sower.Network.Files.{components}
use sower.Network.Operations.{Output}
use sower.Network.Requests.{request_network}
use sower.Activate.Platform.{Platform, State}
use sower.Activate.Run.{seed_nixos, seed_home_manager, req_reboot, req_services, run}

abbrev pub valid_modes : List Text
valid_modes = bytes "switch" ∷ bytes "boot" ∷ bytes "test" ∷ bytes "dry-activate" ∷ []

-- The caller's group, or root.
unfoldable pub is_authorized : PeerCredentials → List ℕ → Bool
is_authorized creds allowed_gids = creds.uid == 0 || any (λ gid. gid == creds.gid) allowed_gids

pub record NetworkContext : Type 0 where
  pub policy : Text
  pub peer : PeerCredentials
  pub activation_authorized : Bool

unfoldable pub has_parent_part : Text → Bool
has_parent_part path = any (λ part. text_eq part (bytes "..")) (split b'/' path)

unfoldable pub validate_store_path : Text → Result (Unit {0})
validate_store_path path =
    if not (starts_with path (bytes "/nix/store/"))
    then bail (bytes "path must be in /nix/store")
    else if has_parent_part path
    then bail (bytes "invalid path")
    else ok tt

unfoldable pub validate_seeds : List SeedRef → Result (Unit {0})
validate_seeds [] = ok tt
validate_seeds (seed ∷ seeds) =
    let rest = validate_seeds seeds in
    if is_empty seed.name
    then bail (bytes "seed name must not be empty")
    else elim (validate_store_path seed.path) [ ok u ↦ rest | err e ↦ err e ]

abbrev validate_mode : Request → Result (Unit {0})
validate_mode req =
    if text_eq req.kind seed_nixos && not (any (text_eq req.mode) valid_modes)
    then bail (bytes "invalid mode: " ++ req.mode)
    else ok tt

unfoldable pub validate : Request → Result (Unit {0})
validate req =
    if is_empty req.id
    then bail (bytes "missing request ID")
    else if text_eq req.kind req_reboot
    then ok tt
    else if text_eq req.kind req_services
    then (if is_empty req.seeds
        then bail (bytes "services request requires at least one seed")
        else validate_seeds req.seeds)
    else if not (text_eq req.kind seed_nixos) && not (text_eq req.kind seed_home_manager)
    then bail (bytes "invalid type: " ++ req.kind)
    else elim (validate_store_path req.path) [ ok u ↦ validate_mode req | err e ↦ err e ]

-- The state of the network component and of activation, and the responses sent so far.
pub record Machine : Type 0 where
  pub world : World
  pub activation : State
  pub responses : List Response

unfoldable pub send : Response → Machine → Machine
send response m = record m { responses = m.responses ++ (response ∷ []) }

-- The callback of a request: each line is sent as a response with the request's id.
abbrev pub line_response : Text → Text × Bool → Response
line_response id (line, is_error) =
    if is_error then error_response id line else output_response id line

-- The first line of the connection, parsed by `parse`; an empty line is the end of the input.
unfoldable pub read_request : (Text → Result Request) → Result Text → Result Request
read_request parse line = elim (context line (bytes "read request")) [
  | err e ↦ err e
  | ok text ↦
      if is_empty text
      then bail (bytes "empty request")
      else context (parse text) (bytes "invalid JSON")
]

module _ (env : Env) (platform : Platform) (print : Output → Text) (root : Bool)
    (content : Result PolicyFile) where
  -- The closure that handles a network request.
  unfoldable pub network_result :
      Request → Option NetworkContext → Machine → (Result (Option Output)) × Machine
  network_result req network m =
      if is_empty req.id then (bail (bytes "missing request ID"), m) else elim network [
        | none ↦
            (bail (bytes "network requests require an authorized socket and network policy"), m)
        | some ctx ↦
            let (r, w) =
              request_network env root (components ctx.policy) content ctx.peer req m.world in
            (r, record m { world = w })
      ]

  abbrev pub answer : Text → Result (Option Output) → Machine → Machine
  answer id (ok none) m = send (complete_response id (pos 0)) m
  answer id (ok (some output)) m =
      send (complete_response id (pos 0)) (send (output_response id (print output)) m)
  answer id (err e) m =
      send (complete_response id (pos 1)) (send (error_response id (display_chain e)) m)

  unfoldable pub handle_network : Request → Option NetworkContext → Machine → Machine
  handle_network req network m = let (r, m') = network_result req network m in answer req.id r m'

  abbrev pub finish : Text → Result ℤ → Machine → Machine
  finish id (ok code) m = send (complete_response id code) m
  finish id (err e) m = send (complete_response id (pos 1)) (send (error_response id (display e)) m)

  -- What the callback sent while `run` worked stands between the earlier and the later responses.
  unfoldable pub handle_activation : Request → Machine → Machine
  handle_activation req m =
      let (r, s) = run platform req (record m.activation { lines = [] }) in
      finish req.id r
        (record m { activation = s; responses = m.responses ++ map (line_response req.id) s.lines })

  abbrev pub is_unauthorized : Option NetworkContext → Bool
  is_unauthorized none = false
  is_unauthorized (some ctx) = not ctx.activation_authorized

  unfoldable pub handle_request : Request → Option NetworkContext → Machine → Machine
  handle_request req network m =
      if text_eq req.kind (bytes "network")
      then handle_network req network m
      else if is_unauthorized network
      then send (error_response [] (bytes "unauthorized")) m
      else elim (validate req) [
        | err e ↦ send (error_response req.id (display e)) m
        | ok u ↦ handle_activation req m
      ]

  unfoldable pub run_with_network :
      (Text → Result Request) → Result Text → Option NetworkContext → Machine → Machine
  run_with_network parse line network m = elim (read_request parse line) [
    | err e ↦ send (error_response [] (display e)) m
    | ok req ↦ handle_request req network m
  ]
