-- ===== src/Network/Peer.antt =====
-- Who asks: `process_starttime`, `cgroup_instance` and `Owner::authenticate` of
-- src/commands/activator/network.rs.
use sower.Prelude.{
  ℕ, ◌&&◌, List, [], ◌∷◌, ◌++◌, Option, none, some, if◌then◌else◌, ◌==◌, ℤ, Text, bytes, text_eq,
  contains_text, split, split_once, rsplit_once, words, lines, get_elem?, strip_prefix, parse_uint,
  u32_max, u64_max, Result, ok, err, bail, or_fail,
}
use sower.Policy.{Policy}
use sower.Network.Lease.{PeerCredentials, Owner}
use sower.Network.Os.{Env, Op, ProcFile, Io, pure, lift, ask, check, ◌>>=◌, ◌>>◌}

-- The fields after the last `)` of /proc/<pid>/stat; number 19 of them is the start time.
unfoldable pub parse_starttime : Text → Result ℕ
parse_starttime stat = elim (rsplit_once b')' stat) [
  | none ↦ bail (bytes "invalid process stat")
  | some (before, fields) ↦ elim (get_elem? (words fields) 19) [
    | none ↦ bail (bytes "missing process starttime")
    | some field ↦ or_fail (parse_uint u64_max field) (bytes "invalid process starttime")
  ]
]

-- The first line of /proc/<pid>/status that begins with `Uid:` and a tab.
abbrev strip_uid : Text → Option Text
strip_uid = strip_prefix (bytes "Uid:" ++ (9 ∷ []))

unfoldable pub find_uid_line : List Text → Option Text
find_uid_line [] = none
find_uid_line (line ∷ rest) = elim (strip_uid line) [
  | some fields ↦ some fields
  | none ↦ find_uid_line rest
]

unfoldable pub parse_uid : Text → Result ℕ
parse_uid status = elim (find_uid_line (lines status)) [
  | none ↦ bail (bytes "missing process UID")
  | some fields ↦ elim (get_elem? (words fields) 0) [
    | none ↦ bail (bytes "missing process UID")
    | some field ↦ or_fail (parse_uint u32_max field) (bytes "invalid digit found in string")
  ]
]

-- The third component of a path below /system.slice, if it is a configured unit.
unfoldable pub slice_unit : List Text → List Text → Option Text
slice_unit units (root ∷ slice ∷ unit ∷ _) =
    if text_eq root [] && (text_eq slice (bytes "system.slice") && contains_text units unit)
    then some unit
    else none
slice_unit units _ = none

-- One line `hierarchy:controllers:path`; only the unified hierarchy `0::` counts.
unfoldable pub line_unit : List Text → Text → Result (Option Text)
line_unit units line = elim (split_once b':' line) [
  | none ↦ bail (bytes "invalid process cgroup")
  | some (hierarchy, fields) ↦ elim (split_once b':' fields) [
    | none ↦ bail (bytes "invalid process cgroup")
    | some (controllers, path) ↦ ok (
        if text_eq hierarchy (bytes "0") && text_eq controllers []
        then slice_unit units (split b'/' path)
        else none)
  ]
]

abbrev add_unit : Option Text → Option Text → Result (Option Text)
add_unit found none = ok found
add_unit none (some unit) = ok (some unit)
add_unit (some other) (some unit) = bail (bytes "ambiguous garden cgroup")

unfoldable pub scan_cgroup : List Text → Option Text → List Text → Result (Option Text)
scan_cgroup units found [] = ok found
scan_cgroup units found (line ∷ rest) = elim (line_unit units line) [
  | err e ↦ err e
  | ok unit ↦ elim (add_unit found unit) [ err e ↦ err e | ok next ↦ scan_cgroup units next rest ]
]

unfoldable pub cgroup_instance : Text → List Text → Result Text
cgroup_instance cgroup units = elim (scan_cgroup units none (lines cgroup)) [
  | err e ↦ err e
  | ok found ↦ or_fail found (bytes "peer does not belong to a configured garden system service")
]

module _ (env : Env) where
  unfoldable pub read_proc : ℤ → ProcFile → Io Text
  read_proc pid file = ask (λ trace. env.proc_text trace pid file) (Op.read_proc pid file)

  unfoldable pub process_starttime : ℤ → Io ℕ
  process_starttime pid = do stat ← read_proc pid ProcFile.stat; lift (parse_starttime stat)

  -- The peer's identity is read between two reads of its start time.
  unfoldable pub authenticate : Policy → PeerCredentials → Io Owner
  authenticate policy peer = do
    starttime ← process_starttime peer.pid
    status ← read_proc peer.pid ProcFile.status
    uid ← lift (parse_uid status)
    check (uid == peer.uid) (bytes "peer process identity changed")
    cgroup ← read_proc peer.pid ProcFile.cgroup
    name ← lift (cgroup_instance cgroup policy.garden_units)
    again ← process_starttime peer.pid
    check (again == starttime) (bytes "peer process identity changed")
    pure (record { instance_name = name; peer = peer; starttime = starttime })
