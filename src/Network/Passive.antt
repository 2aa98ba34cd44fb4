-- ===== src/Network/Passive.antt =====
-- Reading files, journals and /proc asks passive questions only: it changes nothing but the trace.
use sower.Prelude.{refl, Bool, List, [], ◌∷◌, ◌++◌, Option, none, some, ℤ, Text}
use sower.Policy.{Policy}
use sower.Network.Lease.{PeerCredentials}
use sower.Network.Os.{Env, Op, ProcFile, FileOp, FilePath, Record, World, ask}
use sower.Network.Logic.{Keeps, PassivelyUnasked, Keeps-ask, Keeps-bind, Keeps-then, keeps_rules}
use sower.Network.Files.{
  inspect, file, secure_all, secure_path, open_secure, create_private_directory, lock_file,
  ancestors,
}
use sower.Network.Peer.{read_proc, process_starttime, authenticate}
use sower.Network.Store.{
  Store, open_store, global_lock, execution_lock, read_record, read_records, records_in,
  records_of_units, all_records, load_found, load,
}

module _ (env : Env) {P : World → Type 0} (unasked : PassivelyUnasked P) where
  inspect-Keeps : (path : FilePath) → Keeps P (inspect env path)
  unfolding inspect
  inspect-Keeps path = Keeps-ask _ _ (λ w h. unasked (Op.inspect path) w refl h)

  pub file-Keeps : (op : FileOp) (path : FilePath) → Keeps P (file env op path)
  unfolding file
  file-Keeps op path = Keeps-ask _ _ (λ w h. unasked (Op.file op path) w refl h)

  read_proc-Keeps : (pid : ℤ) (f : ProcFile) → Keeps P (read_proc env pid f)
  unfolding read_proc
  read_proc-Keeps pid f = Keeps-ask _ _ (λ w h. unasked (Op.read_proc pid f) w refl h)

  lock-Keeps :
      (path : FilePath) (nonblocking : Bool)
      → Keeps P (ask (λ trace. env.lock_result trace path nonblocking) (Op.lock path nonblocking))
  lock-Keeps path nonblocking = Keeps-ask _ _ (λ w h. unasked (Op.lock path nonblocking) w refl h)

  ruleset asks = (keeps_rules, inspect-Keeps, file-Keeps, read_proc-Keeps, lock-Keeps)

  secure_all-Keeps : (paths : List FilePath) → Keeps P (secure_all env paths)
  unfolding secure_all
  secure_all-Keeps [] = search asks
  secure_all-Keeps (p ∷ paths) =
      let ih = secure_all-Keeps paths in
      Keeps-bind _ _ (search asks) (λ m. Keeps-then _ _ (search asks) ih)

  pub secure_path-Keeps : (path : FilePath) → Keeps P (secure_path env path)
  unfolding secure_path
  secure_path-Keeps path = secure_all-Keeps (ancestors path)

  open_secure-Keeps : (path : FilePath) → Keeps P (open_secure env path)
  unfolding open_secure
  open_secure-Keeps path = search (asks, secure_path-Keeps)

  create_private_directory-Keeps : (path : FilePath) → Keeps P (create_private_directory env path)
  unfolding create_private_directory
  create_private_directory-Keeps path = search (asks, secure_path-Keeps) depth 12

  lock_file-Keeps :
      (path : FilePath) (nonblocking : Bool) → Keeps P (lock_file env path nonblocking)
  unfolding lock_file
  lock_file-Keeps path nonblocking = search asks depth 12

  pub process_starttime-Keeps : (pid : ℤ) → Keeps P (process_starttime env pid)
  unfolding process_starttime
  process_starttime-Keeps pid = search asks

  pub authenticate-Keeps :
      (policy : Policy) (peer : PeerCredentials) → Keeps P (authenticate env policy peer)
  unfolding authenticate
  authenticate-Keeps policy peer = search (asks, process_starttime-Keeps) depth 15

  ruleset checks = (
    asks, secure_path-Keeps, open_secure-Keeps, create_private_directory-Keeps, lock_file-Keeps,
    process_starttime-Keeps,
  )

  pub open_store-Keeps : (policy : Policy) (name : Text) → Keeps P (open_store env policy name)
  unfolding open_store
  open_store-Keeps policy name = search checks depth 12

  pub global_lock-Keeps : Keeps P (global_lock env)
  unfolding global_lock
  global_lock-Keeps = search checks depth 12

  pub execution_lock-Keeps :
      (s : Store) (execution : Text) (nonblocking : Bool)
      → Keeps P (execution_lock env s execution nonblocking)
  unfolding execution_lock
  execution_lock-Keeps s execution nonblocking = search checks

  read_record-Keeps : (r : Record) → Keeps P (read_record env r)
  unfolding read_record
  read_record-Keeps r = search checks depth 12

  read_records-Keeps : (rs : List Record) → Keeps P (read_records env rs)
  unfolding read_records
  read_records-Keeps [] = search checks
  read_records-Keeps (r ∷ rs) =
      let ih = read_records-Keeps rs in
      Keeps-bind _ _ (read_record-Keeps r)
        (λ lease. Keeps-then _ _ (search asks) (Keeps-bind _ _ ih (λ leases. search asks)))

  pub records_in-Keeps : (directory : FilePath) → Keeps P (records_in env directory)
  unfolding records_in
  records_in-Keeps directory = search (checks, read_records-Keeps) depth 12

  records_of_units-Keeps :
      (directory : FilePath) (units : List Text) → Keeps P (records_of_units env directory units)
  unfolding records_of_units
  records_of_units-Keeps directory [] = search checks
  records_of_units-Keeps directory (u ∷ us) =
      let ih = records_of_units-Keeps directory us in
      Keeps-bind _ _ (records_in-Keeps (directory ++ (u ∷ [])))
        (λ leases. search (checks, ih) depth 12)

  pub all_records-Keeps : (s : Store) → Keeps P (all_records env s)
  unfolding all_records
  all_records-Keeps s = search (checks, records_of_units-Keeps) depth 12

  load_found-Keeps :
      (s : Store) (token : Text) (found : Option Record) → Keeps P (load_found env s token found)
  unfolding load_found
  load_found-Keeps s token none = search checks
  load_found-Keeps s token (some r) = search (checks, read_record-Keeps) depth 12

  pub load-Keeps : (s : Store) (token : Text) → Keeps P (load env s token)
  unfolding load
  load-Keeps s token = search (checks, load_found-Keeps) depth 12
