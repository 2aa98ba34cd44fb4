-- ===== src/Garden/Protocol.antt =====
-- Requests and replies of the garden's admin socket: src/commands/garden/protocol.rs.
use sower.Prelude.{
  ℕ, Bool, List, Option, none, some, ℤ, Text, bytes, Result, bail, ok, ◌>>=◌, length, ltb,
  if◌then◌else◌,
}

abbrev pub protocol_version : ℕ
protocol_version = 1

abbrev pub max_line_bytes : ℕ
max_line_bytes = 65536

pub record DeployPayload : Type 0 where
  pub seed_type : Option Text
  pub sid : Option Text
  pub force : Bool

pub record Envelope : Type 0 where
  pub v : ℕ
  pub id : Text
  pub kind : Text
  pub payload : Option DeployPayload

pub record PendingDeployment : Type 0 where
  pub seed_sid : Text
  pub seed_url : Text

pub record StatusReport : Type 0 where
  pub version : Text
  pub active_deployments : List Text
  pub pending_deployments : Option (List PendingDeployment)
  pub credentials_rejected_at : Option Text

pub data ReplyKind : Type 0 where
  reply_ok reply_error reply_complete : ReplyKind

pub record Reply : Type 0 where
  pub kind : ReplyKind
  pub content : Option Text
  pub exit_code : Option ℤ
  pub status : Option StatusReport

-- `serde_json::to_string` is a parameter.
module _ (to_string : Envelope → Result Text) where
  abbrev pub bounded : Text → Result Text
  bounded line =
      if ltb max_line_bytes (length line)
      then bail (bytes "request exceeds 65536 byte limit")
      else ok line

  unfoldable pub encode_envelope : Envelope → Result Text
  encode_envelope envelope = to_string envelope >>= bounded

  unfoldable pub deploy_request : Text → Option Text → Option Text → Bool → Result Text
  deploy_request id seed_type sid force = encode_envelope (record {
    v = protocol_version;
    id = id;
    kind = bytes "deploy";
    payload = some (record { seed_type = seed_type; sid = sid; force = force });
  })

  unfoldable pub plain_request : Text → Text → Result Text
  plain_request kind id =
      encode_envelope (record { v = protocol_version; id = id; kind = kind; payload = none })

  unfoldable pub reload_request : Text → Result Text
  reload_request = plain_request (bytes "reload")

  unfoldable pub reregister_request : Text → Result Text
  reregister_request = plain_request (bytes "reregister")

  unfoldable pub status_request : Text → Result Text
  status_request = plain_request (bytes "status")
