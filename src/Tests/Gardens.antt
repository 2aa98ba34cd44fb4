-- ===== src/Tests/Gardens.antt =====
-- The admin socket's replies at concrete inputs.
use sower.Prelude.{
  ◌≡◌, ◌≤◌, ◌<◌, ◌⊎◌, refl, arith, List, [], ◌∷◌, none, some, pos, Result, ok, Text, bytes, text_eq,
  split_once, length, if◌then◌else◌, Bool, not, Option, ends_with, starts_with,
}
use sower.Garden.Protocol.{Reply, reply_ok, reply_complete, max_line_bytes}
use sower.Garden.Client.{
  Fill, chunk, Printed, whole_line, too_long, read_line_from, read_line_capped, step_line, emit_ok,
  write_status, replies_loop, arriving, stream_replies,
}
use sower.Garden.Config.{
  FileConfig, resolve_socket, default_path_for, default_admin_socket_for, load_config, load_from,
  read_one,
}
use sower.Activate.Services.{join}
use sower.Garden.Line.{content, read_line_capped_lem}
use sower.Garden.Replies.{replies_end}

abbrev utf8 : Text → Result Text
utf8 t = ok t

abbrev parse : Text → Result Reply
parse line =
    if text_eq line (bytes "end")
    then ok
        (record { kind = reply_complete; content = none; exit_code = some (pos 2); status = none })
    else ok (record { kind = reply_ok; content = some line; exit_code = none; status = none })

-- Two lines in three pieces.
abbrev fills : List Fill
fills = chunk 111 (107 ∷ []) ∷ chunk 33 (10 ∷ bytes "en") ∷ chunk 100 (10 ∷ []) ∷ []

abbrev nothing_printed : Printed
nothing_printed = record { out = []; error = [] }

replied :
    stream_replies utf8 parse fills nothing_printed
    ≡ (ok (pos 2), record { out = bytes "ok!\n"; error = [] })
unfolding stream_replies replies_loop arriving read_line_capped read_line_from step_line emit_ok
    write_status split_once text_eq bytes
replied = refl

first_line : split_once 10 (content fills) ≡ some (bytes "ok!", bytes "end\n")
unfolding split_once content bytes
first_line = refl

read_line_capped_lem_example :
    let o = read_line_capped utf8 parse max_line_bytes fills in
    ((length (bytes "ok!") ≤ max_line_bytes)
      × ((o.0 ≡ whole_line utf8 parse (utf8 (bytes "ok!"))) × (content o.1 ≡ bytes "end\n")))
    ⊎ ((max_line_bytes < length (bytes "ok!")) × (o.0 ≡ too_long utf8 parse max_line_bytes))
read_line_capped_lem_example =
    read_line_capped_lem utf8 parse max_line_bytes fills (bytes "ok!") (bytes "end\n") first_line

replies_end_example :
    replies_loop utf8 parse 9 fills nothing_printed
    ≡ replies_loop utf8 parse 50 fills nothing_printed
unfolding arriving bytes
replies_end_example = replies_end utf8 parse 9 50 fills nothing_printed (omega arith) (omega arith)

-- The socket that the configuration files name: the last one that names any.
abbrev no_env : Text → Option Text
no_env name = none

abbrev file_exists : Text → Bool
file_exists path = not (text_eq path (bytes "c"))

abbrev config_of : Text → Result FileConfig
config_of raw =
    if text_eq raw (bytes "x")
    then ok (record { admin_socket = none })
    else ok (record { admin_socket = some raw })

resolve_socket_last :
    resolve_socket no_env file_exists ok config_of none
      (bytes "a" ∷ bytes "b" ∷ bytes "x" ∷ bytes "c" ∷ [])
    ≡ ok (bytes "b")
unfolding resolve_socket load_config load_from read_one bytes text_eq
resolve_socket_last = refl

default_path_for_xdg :
    default_path_for (some (bytes "alice")) (λ name.
      if text_eq name (bytes "XDG_CONFIG_HOME") then some (bytes "/home/alice/.config") else none)
    ≡ some (bytes "/home/alice/.config/sower/client.json")
unfolding default_path_for join bytes text_eq ends_with starts_with
default_path_for_xdg = refl

default_admin_socket_for_root :
    default_admin_socket_for (some (bytes "root")) (some (bytes "/run/user/0"))
    ≡ bytes "/run/sower-garden/admin.sock"
unfolding default_admin_socket_for bytes text_eq
default_admin_socket_for_root = refl
