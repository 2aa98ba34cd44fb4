-- ===== src/Network/Store.antt =====
-- The allocation journal: `Store` of src/commands/activator/network.rs, its files and `reserve`.
use sower.Prelude.{
  ℕ, zero, suc, ◌+◌, ◌*◌, ◌%◌, Bool, true, false, not, ◌&&◌, ◌||◌, List, [], ◌∷◌, ◌++◌, map, Option,
  none, some, if◌then◌else◌, ◌==◌, Text, bytes, concat, text_eq, contains_text, any, find, or_fail,
  ok, err, hex2, hex4,
}
use sower.Policy.{Policy, slots, addresses}
use sower.Network.Lease.{Lease, Phase, Owner, valid_token, validate, tap_name}
use sower.Network.Os.{
  Env, Op, FileOp, FilePath, Record, Io, World, pure, lift, gets, attempt, modify, ask, check,
  ◌>>=◌, ◌>>◌,
}
use sower.Network.Files.{
  components, file, secure_path, open_secure, create_private_directory, lock_file,
}
use sower.Network.Peer.{process_starttime}

pub record Store : Type 0 where
  pub policy : Policy
  pub instance_name : Text
  pub directory : FilePath

abbrev pub path_eq : FilePath → FilePath → Bool
path_eq [] [] = true
path_eq (c ∷ p) (d ∷ q) = text_eq c d && path_eq p q
path_eq _ _ = false

-- Whether a record is the file `<directory>/<stem>.json`.
unfoldable pub is_file : FilePath → Text → Record → Bool
is_file directory stem r = path_eq r.directory directory && text_eq r.stem stem

abbrev pub json_path : FilePath → Text → FilePath
json_path directory stem = directory ++ ((stem ++ bytes ".json") ∷ [])

abbrev pub tmp_path : FilePath → Text → FilePath
tmp_path directory stem = directory ++ ((stem ++ bytes ".tmp") ∷ [])

-- A rename over the record replaces it.
unfoldable pub put_record : FilePath → Text → Lease → List Record → List Record
put_record directory stem lease [] =
    record { directory = directory; stem = stem; content = lease } ∷ []
put_record directory stem lease (r ∷ rs) =
    let rest = put_record directory stem lease rs in
    if is_file directory stem r then record r { content = lease } ∷ rs else r ∷ rest

unfoldable pub remove_record : FilePath → Text → List Record → List Record
remove_record directory stem [] = []
remove_record directory stem (r ∷ rs) =
    let rest = remove_record directory stem rs in
    if is_file directory stem r then rest else r ∷ rest

unfoldable pub in_directory : FilePath → List Record → List Record
in_directory directory [] = []
in_directory directory (r ∷ rs) =
    let rest = in_directory directory rs in if path_eq r.directory directory then r ∷ rest else rest

abbrev pub is_temporary : FilePath → Text → FilePath × Text → Bool
is_temporary directory stem (d, s) = path_eq d directory && text_eq s stem

abbrev pub remove_temporary : FilePath → Text → List (FilePath × Text) → List (FilePath × Text)
remove_temporary directory stem [] = []
remove_temporary directory stem (t ∷ ts) =
    let rest = remove_temporary directory stem ts in
    if is_temporary directory stem t then rest else t ∷ rest

abbrev last_component : FilePath → Text
last_component [] = []
last_component (c ∷ []) = c
last_component (c ∷ d ∷ p) = last_component (d ∷ p)

-- `BTreeSet::insert` in a loop: whether no number occurs twice.
unfoldable pub all_distinct : List ℕ → Bool
all_distinct [] = true
all_distinct (x ∷ xs) = not (any (λ y. y == x) xs) && all_distinct xs

abbrev pub slot_list : List Lease → List ℕ
slot_list = map (λ lease. lease.slot)

-- `(start..start + count).find(|slot| !occupied.contains(slot))`.
unfoldable pub first_free : ℕ → ℕ → List ℕ → Option ℕ
first_free zero start occupied = none
first_free (suc count) start occupied =
    let rest = first_free count (start + 1) occupied in
    if any (λ y. y == start) occupied then rest else some start

abbrev byte_at : List ℕ → ℕ → ℕ
byte_at [] i = 0
byte_at (b ∷ bs) zero = b
byte_at (b ∷ bs) (suc i) = byte_at bs i

unfoldable pub token_text : List ℕ → Text
token_text [] = []
token_text (b ∷ bs) = hex2 b ++ token_text bs

unfoldable pub mac_text : List ℕ → Text
mac_text random = concat (
    bytes "02:"
    ∷ hex2 (byte_at random 0)
    ∷ bytes ":"
    ∷ hex2 (byte_at random 1)
    ∷ bytes ":"
    ∷ hex2 (byte_at random 2)
    ∷ bytes ":"
    ∷ hex2 (byte_at random 3)
    ∷ bytes ":"
    ∷ hex2 (byte_at random 4)
    ∷ [])

-- The lease that `reserve` writes.
unfoldable pub new_lease : Text → Owner → Text → ℕ → ℕ → ℕ → List ℕ → Lease
new_lease name owner execution slot gateway address random = record {
  lease = token_text random;
  slot = slot;
  tap = tap_name slot;
  mac = mac_text random;
  host_mac = none;
  address = address;
  gateway = gateway;
  instance_name = name;
  owner_uid = owner.peer.uid;
  owner_pid = owner.peer.pid;
  owner_starttime = owner.starttime;
  execution_id = execution;
  phase = Phase.reserved;
}

abbrev pub has_execution : Store → Text → List Lease → Bool
has_execution self execution leases =
    any
      (λ lease.
        text_eq lease.instance_name self.instance_name && text_eq lease.execution_id execution)
      leases

module _ (env : Env) where
  unfoldable pub open_store : Policy → Text → Io Store
  open_store policy name = do
    check (contains_text policy.garden_units name)
        (bytes "instance is not a configured garden service")
    create_private_directory env (components policy.state_directory)
    let directory = components policy.state_directory ++ (name ∷ [])
    create_private_directory env directory
    pure (record { policy = policy; instance_name = name; directory = directory })

  abbrev ownership_directory : FilePath
  ownership_directory = bytes "run" ∷ bytes "sower-network-ownership" ∷ []

  unfoldable pub global_lock : Io (Unit {0})
  global_lock = do
    create_private_directory env ownership_directory
    lock ← lock_file env (ownership_directory ++ (bytes "namespace.lock" ∷ [])) false
    lift (or_fail lock (bytes "allocation lock unavailable"))

  -- The bucket is the low 14 bits of the first two bytes of the digest.
  unfoldable pub execution_lock : Store → Text → Bool → Io (Option (Unit {0}))
  execution_lock self execution nonblocking =
      let hash = env.sha256 execution in
      let bucket = (byte_at hash 0 * 256 + byte_at hash 1) % 16384 in
      lock_file env
        (self.directory ++ (concat (bytes "execution-" ∷ hex4 bucket ∷ bytes ".lock" ∷ []) ∷ []))
        nonblocking

  unfoldable pub read_record : Record → Io Lease
  read_record r = do
    open_secure env (json_path r.directory r.stem)
    file env FileOp.parse_file (json_path r.directory r.stem)
    lift (validate r.content)
    pure r.content

  -- The loop of `records_in` over the entries of the directory.
  unfoldable pub read_records : List Record → Io (List Lease)
  read_records [] = pure []
  read_records (r ∷ rs) = do
    lease ← read_record r
    check (text_eq r.stem lease.lease && text_eq (last_component r.directory) lease.instance_name)
        (bytes "journal filename or instance mismatch")
    leases ← read_records rs
    pure (lease ∷ leases)

  abbrev pub directory_exists : FilePath → World → Bool
  directory_exists directory w =
      env.exists w.trace directory || any (λ r. path_eq r.directory directory) w.journal

  unfoldable pub records_in : FilePath → Io (List Lease)
  records_in directory = do
    found ← gets (directory_exists directory)
    if not found then pure [] else (do
      secure_path env directory
      entries ← gets (λ w. in_directory directory w.journal)
      read_records entries)

  -- The loop of `all_records` over the configured units.
  unfoldable pub records_of_units : FilePath → List Text → Io (List Lease)
  records_of_units state_directory [] = pure []
  records_of_units state_directory (unit ∷ units) = do
    leases ← records_in (state_directory ++ (unit ∷ []))
    rest ← records_of_units state_directory units
    pure (leases ++ rest)

  unfoldable pub all_records : Store → Io (List Lease)
  all_records self = do
    leases ← records_of_units (components self.policy.state_directory) self.policy.garden_units
    check (all_distinct (slot_list leases)) (bytes "duplicate journal allocation slot")
    pure leases

  -- The rest of `load`, for the record at the token's path, if there is one.
  unfoldable pub load_found : Store → Text → Option Record → Io (Option Lease)
  load_found self token none = pure none
  load_found self token (some r) = do
    lease ← read_record r
    check (text_eq lease.lease token && text_eq lease.instance_name self.instance_name)
        (bytes "journal ownership mismatch")
    pure (some lease)

  unfoldable pub load : Store → Text → Io (Option Lease)
  load self token = do
    check (valid_token token) (bytes "invalid lease token")
    found ← gets (λ w. find (is_file self.directory token) w.journal)
    load_found self token found

  abbrev write_temporary : FilePath → Text → Io (Unit {0})
  write_temporary directory stem = modify (λ w. record w {
    temporaries = (directory, stem) ∷ remove_temporary directory stem w.temporaries;
  })

  abbrev rename_temporary : FilePath → Text → Lease → Io (Unit {0})
  rename_temporary directory stem lease = modify (λ w. record w {
    journal = put_record directory stem lease w.journal;
    temporaries = remove_temporary directory stem w.temporaries;
  })

  -- Written beside the record, then renamed over it: up to the rename the old record stays.
  unfoldable pub save : Store → Lease → Io (Unit {0})
  save self lease = do
    file env FileOp.create_temporary (tmp_path self.directory lease.lease)
    write_temporary self.directory lease.lease
    file env FileOp.write_temporary (tmp_path self.directory lease.lease)
    file env FileOp.rename (json_path self.directory lease.lease)
    rename_temporary self.directory lease.lease lease
    file env FileOp.sync_directory self.directory

  -- The second half of `reserve`, from the leases that the journal holds.
  unfoldable pub allocate : Store → Owner → Text → List Lease → Io Lease
  allocate self owner execution leases = do
    check (not (has_execution self execution leases)) (bytes "execution already has an allocation")
    slot ← lift (
        or_fail (first_free (slots self.policy) 0 (slot_list leases))
          (bytes "network address pool exhausted (including quarantined allocations)"))
    (gateway, address) ← lift (addresses self.policy slot)
    random ← ask env.random_bytes Op.random
    check (not (any (λ lease. text_eq lease.lease (token_text random)) leases))
        (bytes "lease identifier collision")
    let lease = new_lease self.instance_name owner execution slot gateway address random
    save self lease
    pure lease

  unfoldable pub reserve : Store → Owner → Text → Io Lease
  reserve self owner execution = do
    global_lock
    starttime ← attempt (process_starttime env owner.peer.pid)
    check (elim starttime [ ok start ↦ start == owner.starttime | err e ↦ false ])
        (bytes "garden owner exited before allocation")
    leases ← all_records self
    allocate self owner execution leases
