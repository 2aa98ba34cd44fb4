-- ===== src/Tests/Guests.antt =====
-- The guest agent at concrete inputs, with a toy form of JSON: `key=value;` pairs.
use sower.Prelude.{
  ◌+◌, ◌≡◌, refl, arith, true, false, List, [], ◌∷◌, ◌++◌, none, some, pos, Text, bytes, split,
  strip_prefix, text_eq, decimal, map, concat, words, parse_int, starts_with, length, negate,
}
use sower.Guest.Io.{read_exact, write_all, Io, done, Arrival, Room}
use sower.Guest.Frame.{
  metadata, frame, request, request_body, command_of, reported_version, arguments, environment,
  from_be_bytes, Json, Socket, Command, to_be_bytes,
}
use sower.Guest.Control.{cancel, default, judge, read_control}
use sower.Guest.Control.Refines.{
  available, ending, later, parse_control, buffered, IsFresh, in_header,
}
use sower.Guest.Control.Chunks.{Agrees, read_control_lem}
use sower.Guest.Control.Cancel.{read_control-encode}
use sower.Guest.Output.Buffered.{encode, new-IsBuffer, unsent-new}
use sower.Guest.Output.Filled.{left}
use sower.Guest.Run.Relay.{view, IsRelayed}
use sower.Guest.Run.Relays.{run_relays}
use sower.Guest.Tree.{
  Call, wait_child, kill_child, now, kill_pids, kill_tasks, read_tasks, kill_children, on_kernel,
  wait_any, past, reap_one, reap, cleanup_inner, Waited, Task, Kernel, Family, cleanup,
}
use sower.Guest.Cleanup.{IsReported}
use sower.Guest.Ending.{Cleaned, cleanup_lem}
use sower.Guest.Deadline.{IsSlow, cleanup_ends}
use sower.Guest.Kills.{kills_listed, cleanup-kills_listed}
use sower.Guest.Output.{new}
use sower.Guest.Run.{Session, run, nonblocking, run_loop}
use sower.Guest.Action.{◌>>=◌}
use sower.Guest.Serve.{
  serve_ready, ready_value, execute, answer, run_child, start, conclude, finish, fail_runtime,
  Child, Runtime, Ending, serve_connection,
}
use sower.Guest.Reach.{Closed, serve_connection_lem}

abbrev value_of : Text → List Text → Text
value_of key [] = []
value_of key (p ∷ ps) = elim (strip_prefix (key ++ bytes "=") p) [
  | none ↦ value_of key ps
  | some v ↦ v
]

abbrev pair_text : Text × Text → Text
pair_text (key, value) = concat (key ∷ bytes "=" ∷ value ∷ bytes ";" ∷ [])

abbrev toy : Json Text
toy = record {
  from_slice = λ t. done t;
  to_vec = λ v. done v;
  index = λ v key. value_of key (split b';' v);
  get = λ v key. some (value_of key (split b';' v));
  is_text = text_eq;
  is_number = λ v n. text_eq v (decimal n);
  as_str = λ v. some v;
  as_array = λ v. some [];
  as_object = λ v. some [];
  object = λ fields. concat (map pair_text fields);
  text = λ t. t;
  number = decimal;
  code = decimal;
  signal = λ n. bytes "none";
  message = λ e. bytes "failed";
}

-- A command with one process besides: process 7 is reaped, then 9, and then there is no child.
abbrev kernel : Kernel
kernel = record {
  waits =
      Waited.child (pos 7) 256
      ∷ Waited.wait_error 4
      ∷ Waited.child (pos 9) 9
      ∷ Waited.not_yet
      ∷ Waited.wait_error 10
      ∷ [];
  kills = none ∷ some 3 ∷ [];
  listings = done (Task.children (bytes "7 9\n") ∷ []) ∷ [];
  clock = λ n. 1000 + n;
  readings = 0;
  calls = [];
  failed = false;
}

abbrev family : Family
family = record {
  tree = record { root = pos 7; status = none; clean = false };
  kernel = record kernel { calls = Call.spawned (pos 7) ∷ [] };
}

reported : IsReported family.tree family.kernel.calls
reported = record { known = λ c. absurd (ground arith); certified = λ c. absurd (ground arith) }

cleanup_lem_example : Cleaned false (cleanup 10 family)
cleanup_lem_example = cleanup_lem 10 family reported

cleanup-kills_listed_example :
    kills_listed (negate (pos 7)) (cleanup 10 family).1.kernel.calls ≡ true
cleanup-kills_listed_example = cleanup-kills_listed 10 family refl

slow : IsSlow 3000 family.kernel
slow = record { grows = λ m n l. omega (arith, l); reached = omega arith }

cleanup_ends_example : cleanup 3001 family ≡ cleanup 4000 family
cleanup_ends_example = cleanup_ends 3000 3001 4000 family (omega arith) (omega arith) slow

-- A request, as a client frames it, and more room than it takes.
abbrev framed : Text → Text
framed body = (1 ∷ to_be_bytes (length body)) ++ body

abbrev request_text : Text
request_text = bytes "type=execute;version=2;path=/bin/true;stdin=;"

abbrev arrival : Text → List Arrival
arrival [] = []
arrival (b ∷ bs) = Arrival.arrived b bs ∷ []

abbrev socket : Socket
socket = record {
  inbound = arrival (framed request_text);
  outbound = Room.room 1 ∷ Room.room 4 ∷ Room.room 20 ∷ Room.room 4096 ∷ [];
  sent = [];
}

-- The second answer is that of `fcntl`, which fails, so `run` ends at once.
abbrev runtime : Runtime
runtime = record {
  kernel = kernel;
  poisoned = false;
  answers = none ∷ some 9 ∷ [];
  spawned = [];
  trees = [];
}

abbrev child : Command → Io Child
child command = done (record { id = pos 7; stdin = []; stdout = []; stderr = [] })

abbrev served : Ending × (Socket × Runtime)
served = serve_connection toy child 10 10 socket runtime

serve_connection_lem_example : Closed served.0 (served.1).1
serve_connection_lem_example = serve_connection_lem toy child 10 10 socket runtime (λ e. (refl, tt))

served_tree : ((served.1).1).trees ≡ record { root = pos 7; status = some 256; clean = true } ∷ []
unfolding serve_connection cleanup to_be_bytes bytes split text_eq strip_prefix decimal words
    starts_with parse_int ◌>>=◌ serve_ready ready_value execute answer run_child start conclude
    finish fail_runtime run nonblocking run_loop wait_child kill_child now kill_pids kill_tasks
    read_tasks kill_children on_kernel wait_any past reap_one reap cleanup_inner metadata frame
    request request_body command_of reported_version arguments environment from_be_bytes read_exact
    write_all
served_tree = refl

-- A cancel request in three pieces, with the beginning of another one behind it.
abbrev cancel_text : Text
cancel_text = bytes "type=cancel;version=2;"

abbrev pieces : List Arrival
pieces =
    Arrival.arrived 1 (0 ∷ 0 ∷ []) ∷ Arrival.refused 4 ∷ arrival (0 ∷ 22 ∷ bytes "type=can")
    ++ arrival (bytes "cel;version=2;" ++ (1 ∷ 0 ∷ []))

available-pieces : available pieces ≡ encode 1 cancel_text ++ (1 ∷ 0 ∷ [])
unfolding available encode to_be_bytes bytes
available-pieces = refl

judge_cancel : judge toy 2 cancel_text ≡ done cancel
unfolding judge bytes split strip_prefix text_eq decimal
judge_cancel = refl

default-IsFresh : IsFresh default
default-IsFresh = record { whole_header = refl; no_header = refl; no_body = refl }

read_control-encode_example :
    (((read_control toy 2 default pieces).0).0 ≡ done cancel)
    × (available (read_control toy 2 default pieces).1 ≡ 1 ∷ 0 ∷ [])
unfolding bytes
read_control-encode_example =
    read_control-encode toy 2 default pieces cancel_text (1 ∷ 0 ∷ []) cancel default-IsFresh
      available-pieces (omega arith) (omega arith) judge_cancel

read_control_lem_example :
    Agrees
      (buffered default ++ available pieces)
      (ending pieces)
      (later pieces)
      (parse_control toy 2 (buffered default ++ available pieces))
      (read_control toy 2 default pieces)
read_control_lem_example =
    read_control_lem toy 2 default pieces (in_header default refl (omega arith) refl)

-- A session whose command writes to both pipes.
abbrev session : Session
session = record {
  family = family;
  socket = record socket { inbound = [] };
  control = default;
  output = new;
  stdin = none;
  fed = [];
  input_sent = 0;
  stderr_first = false;
  terminal = false;
  answers = [];
  stdout = some (arrival (bytes "out") ++ (Arrival.closed ∷ []));
  stderr = some (arrival (bytes "error") ++ (Arrival.closed ∷ []));
}

run_relays_example :
    IsRelayed toy 2 socket.sent
      (left session.stdout)
      (left session.stderr)
      (view (run toy 2 [] 10 10 session).1)
run_relays_example = run_relays toy 2 [] 10 10 session new-IsBuffer unsent-new refl
