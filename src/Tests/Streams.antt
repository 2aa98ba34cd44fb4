-- ===== src/Tests/Streams.antt =====
-- Root activation over ssh at concrete inputs.
use sower.Prelude.{
  false, ◌≡◌, refl, ap, arith, List, [], ◌∷◌, ◌++◌, Option, none, some, pos, Result, ok, bail, Text,
  bytes, text_eq, split_once, strip_prefix, if◌then◌else◌,
}
use sower.Protocol.{Response, complete_response}
use sower.Deploy.Decoder.{
  frame_prefix, Decoder, Terminal, find_prefix, retained, is_partial, write_all, accept, scan_turn,
  scan, push, finish, Read, got, interrupted, stream_from, stream,
}
use sower.Deploy.Accept.{IsCompletion}
use sower.Deploy.Completion.{received, stream_lem}
use sower.Deploy.Scan.{scan_ends}
use sower.Deploy.Remote.{
  Url, fallback, prefix, download_base, remote_command, remote_script, IsReadAs, remote_command_lem,
}

abbrev parse_toy : Text → Result Response
parse_toy line =
    if text_eq line (bytes "done")
    then ok (complete_response (bytes "r1") (pos 3))
    else if text_eq line (bytes "other")
    then ok (complete_response (bytes "r2") (pos 0))
    else bail (bytes "bad")

abbrev terminal : Terminal
terminal = record { written = []; failures = [] }

-- A prompt, another request's completion, and ours with its marker in two pieces.
abbrev reads : List Read
reads =
    got (bytes "Password: " ++ (frame_prefix ++ (bytes "other\n" ++ (30 ∷ bytes "sower"))))
    ∷ interrupted
    ∷ got (bytes "-activator" ++ (31 ∷ bytes "done\n"))
    ∷ []

streamed :
    stream parse_toy reads (bytes "r1") terminal
    ≡ (ok (pos 3), record { written = bytes "Password: "; failures = [] })
unfolding stream stream_from push scan scan_turn accept finish write_all retained is_partial
    find_prefix frame_prefix bytes text_eq strip_prefix split_once
streamed = refl

stream_lem_example :
    (line : Text) × ((response : Response) × IsCompletion parse_toy
        (bytes "r1")
        (received reads)
        (pos 3)
        line
        response)
stream_lem_example =
    stream_lem parse_toy (bytes "r1") reads terminal (pos 3) (ap (λ r. r.0) streamed)

abbrev waiting : Decoder
waiting = record { id = bytes "r1"; pending = bytes "do"; in_frame = false; completion = none }

scan_ends_example : scan parse_toy 3 waiting terminal ≡ scan parse_toy 9 waiting terminal
unfolding bytes
scan_ends_example = scan_ends parse_toy 3 9 waiting terminal (omega arith) (omega arith)

abbrev no_url : Text → Option Url
no_url text = none

remote_command_lem_example :
    let (base, error) = fallback no_url (download_base no_url (some (bytes "it's"))) in
    (line : Text) × (remote_command no_url (bytes "{}") (some (bytes "it's"))
      ≡ prefix no_url ++ line)
    × IsReadAs remote_script (bytes "{}") base error line
remote_command_lem_example = remote_command_lem no_url (bytes "{}") (some (bytes "it's"))
