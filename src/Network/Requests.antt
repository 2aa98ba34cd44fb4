-- ===== src/Network/Requests.antt =====
-- The entry points `request` and `cleanup` of src/commands/activator/network.rs.
use sower.Prelude.{
  Bool, true, false, ◌&&◌, [], ◌∷◌, ◌++◌, Option, none, some, if◌then◌else◌, Text, bytes, text_eq,
  or_fail, Result,
}
use sower.Policy.{Policy, PolicyFile}
use sower.Policy
use sower.Protocol.{Request}
use sower.Network.Lease.{Owner, PeerCredentials}
use sower.Network.Os.{Env, FilePath, Io, pure, lift, raise, check, ◌>>=◌, ◌>>◌}
use sower.Network.Files.{open_secure}
use sower.Network.Peer.{authenticate}
use sower.Network.Store.{Store, open_store}
use sower.Network.Operations.{Output, provision, operate, cleanup}

module _ (env : Env) where
  -- `Store::policy` after the root check: the file's content is what serde_json read of it.
  unfoldable pub load_policy : FilePath → Result PolicyFile → Io Policy
  load_policy path content = do
    open_secure env path
    policy_file ← lift content
    lift (Policy.validate policy_file)

  abbrev option_is_none : Option Text → Bool
  option_is_none none = true
  option_is_none (some t) = false

  unfoldable pub request_provision : Store → Owner → Request → Io (Option Output)
  request_provision store owner request = do
    check (option_is_none request.lease) (bytes "provision does not accept lease")
    execution ← lift (or_fail request.execution_id (bytes "missing execution_id"))
    out ← provision env store owner execution
    pure (some out)

  unfoldable pub request_operate : Store → Owner → Request → Bool → Io (Option Output)
  request_operate store owner request is_release = do
    check (option_is_none request.execution_id)
        (bytes "lease operation does not accept execution_id")
    token ← lift (or_fail request.lease (bytes "missing lease"))
    operate env store owner token is_release
    pure none

  unfoldable pub request_cleanup : Store → Request → Io (Option Output)
  request_cleanup store request = do
    check (option_is_none request.execution_id && option_is_none request.lease)
        (bytes "cleanup does not accept execution_id or lease")
    cleanup env store false
    pure none

  -- The `match` of `request` on the action.
  unfoldable pub dispatch : Store → Owner → Request → Text → Io (Option Output)
  dispatch store owner request action =
      if text_eq action (bytes "provision")
      then request_provision store owner request
      else if text_eq action (bytes "revoke")
      then request_operate store owner request false
      else if text_eq action (bytes "release")
      then request_operate store owner request true
      else if text_eq action (bytes "cleanup")
      then request_cleanup store request
      else raise ((bytes "invalid network_action: " ++ action) ∷ [])

  -- `effective_root` is `geteuid().is_root()`.
  unfoldable pub request_network :
      Bool → FilePath → Result PolicyFile → PeerCredentials → Request → Io (Option Output)
  request_network effective_root path content peer request = do
    check effective_root (bytes "network operations require root")
    policy ← load_policy path content
    owner ← authenticate env policy peer
    store ← open_store env policy owner.instance_name
    action ← lift (or_fail request.network_action (bytes "missing network_action"))
    dispatch store owner request action

  -- The root hook, `sower activator --network-cleanup`.
  unfoldable pub cleanup_hook : Bool → Bool → FilePath → Result PolicyFile → Text → Io (Unit {0})
  cleanup_hook real_root effective_root path content name = do
    check (real_root && effective_root) (bytes "network cleanup requires direct root invocation")
    check effective_root (bytes "network operations require root")
    policy ← load_policy path content
    store ← open_store env policy name
    cleanup env store true
