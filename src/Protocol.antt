-- ===== src/Protocol.antt =====
-- The activator's wire types: src/commands/activator/protocol.rs.
use sower.Prelude.{List, [], Option, none, some, ℤ, Text}

pub record SeedRef : Type 0 where
  pub name : Text
  pub path : Text

pub record Request : Type 0 where
  pub id : Text
  pub kind : Text
  pub path : Text
  pub mode : Text
  pub reason : Text
  pub seeds : List SeedRef
  pub network_action : Option Text
  pub execution_id : Option Text
  pub lease : Option Text

pub data ResponseType : Type 0 where
  output error complete : ResponseType

pub record Response : Type 0 where
  pub id : Text
  pub kind : ResponseType
  pub content : Text
  pub exit_code : Option ℤ

abbrev pub output_response : Text → Text → Response
output_response id text = record {
  id = id;
  kind = ResponseType.output;
  content = text;
  exit_code = none;
}

abbrev pub error_response : Text → Text → Response
error_response id text = record {
  id = id;
  kind = ResponseType.error;
  content = text;
  exit_code = none;
}

abbrev pub complete_response : Text → ℤ → Response
complete_response id code = record {
  id = id;
  kind = ResponseType.complete;
  content = [];
  exit_code = some code;
}
