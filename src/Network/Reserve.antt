-- ===== src/Network/Reserve.antt =====
-- What `reserve` of src/commands/activator/network.rs returns and writes.
use sower.Prelude.{
  ℕ, zero, suc, ◌+◌, ◌≤◌, ◌<◌, ◌≡◌, refl, ◌∙◌, ap, true, false, List, [], ◌∷◌, ◌++◌, map, some, ok,
  Text, any, arith, inl, inr, Result-cases, Option-cases, ◌==◌, text_eq, Bool-cases,
}
use sower.Policy.{slots, addresses}
use sower.Network.Lease.{Lease, Owner, Phase, validate}
use sower.Network.Os.{Env, Op, FilePath, Record, World, ◌>>=◌}
use sower.Network.Files.{components, secure_path, file}
use sower.Network.Logic.{PassivelyUnasked}
use sower.Network.Passive.{
  records_in-Keeps, global_lock-Keeps, all_records-Keeps, process_starttime-Keeps,
  secure_path-Keeps,
}
use sower.Network.Peer.{process_starttime}
use sower.Network.Store.{
  Store, in_directory, put_record, has_execution, allocate, read_record, read_records, records_in,
  records_of_units, path_eq, directory_exists, all_records, all_distinct, slot_list, first_free,
  new_lease, token_text, save, reserve, global_lock,
}

abbrev contents : List Record → List Lease
contents = map (λ r. r.content)

-- The leases that the journal holds for the configured units, in the order of the units.
abbrev pub leases_of_units : FilePath → List Text → List Record → List Lease
leases_of_units directory [] journal = []
leases_of_units directory (unit ∷ units) journal =
    contents (in_directory (directory ++ (unit ∷ [])) journal)
    ++ leases_of_units directory units journal

abbrev pub leases_of : Store → World → List Lease
leases_of s w =
    leases_of_units (components s.policy.state_directory) s.policy.garden_units w.journal

pub first_free_sound :
    (count start : ℕ) (occupied : List ℕ) {slot : ℕ}
    → first_free count start occupied ≡ some slot
    → (start ≤ slot) × (slot < start + count) × (any (λ y. y == slot) occupied ≡ false)
unfolding first_free
first_free_sound zero start occupied {slot} h = ground arith
first_free_sound (suc count) start occupied {slot} h =
    ground (arith, first_free_sound count (start + 1) occupied {slot = slot})

module _ (env : Env) where
  read_record_value :
      (r : Record) (w : World) {l : Lease}
      → (read_record env r w).0 ≡ ok l
      → (l ≡ r.content) × (validate r.content ≡ ok tt)
  unfolding read_record ◌>>=◌
  read_record_value r w {l} h = ground arith

  read_records_value :
      (rs : List Record) (w : World) {ls : List Lease}
      → (read_records env rs w).0 ≡ ok ls
      → ls ≡ contents rs
  unfolding read_records ◌>>=◌
  read_records_value [] w h = ground arith
  read_records_value (r ∷ rs) w {ls} h = elim (Result-cases (read_record env r w).0) [
    | inr (e, g) ↦ absurd (ground arith)
    | inl (l, g) ↦
        let w1 = (read_record env r w).1 in
        elim (Result-cases (read_records env rs w1).0) [
          | inr (e, k) ↦ absurd (ground arith)
          | inl (rest, k) ↦
              ground
                (arith, read_record_value r w {l = l} g, read_records_value rs w1 {ls = rest} k)
        ]
  ]

  no_records :
      (directory : FilePath) (rs : List Record)
      → any (λ r. path_eq r.directory directory) rs ≡ false
      → in_directory directory rs ≡ []
  unfolding in_directory
  no_records directory [] h = refl
  no_records directory (r ∷ rs) h = ground (arith, no_records directory rs)

  secured : (directory : FilePath) (w : World) → (secure_path env directory w).1.journal ≡ w.journal
  secured directory w =
      (secure_path-Keeps env {P = λ v. v.journal ≡ w.journal} (λ op v p h. h) directory).at w refl

  -- A directory's listing is the contents of its journal files.
  pub records_in_value :
      (directory : FilePath) (w : World) {ls : List Lease}
      → (records_in env directory w).0 ≡ ok ls
      → ls ≡ contents (in_directory directory w.journal)
  unfolding records_in ◌>>=◌
  records_in_value directory w {ls} h = elim (Bool-cases (directory_exists env directory w)) [
    | inl t ↦ elim (Result-cases (secure_path env directory w).0) [
      | inr (e, g) ↦ absurd (ground arith)
      | inl (u, g) ↦
          rw (← secured directory w)
            (read_records_value _ (secure_path env directory w).1 {ls = ls} (ground arith))
    ]
    | inr t ↦ ground (arith, no_records directory w.journal)
  ]

  records_in_journal :
      (directory : FilePath) (w : World) → (records_in env directory w).1.journal ≡ w.journal
  records_in_journal directory w =
      (records_in-Keeps env {P = λ v. v.journal ≡ w.journal} (λ op v p h. h) directory).at w refl

  records_of_units_value :
      (directory : FilePath) (units : List Text) (w : World) {ls : List Lease}
      → (records_of_units env directory units w).0 ≡ ok ls
      → ls ≡ leases_of_units directory units w.journal
  unfolding records_of_units ◌>>=◌
  records_of_units_value directory [] w h = ground arith
  records_of_units_value directory (unit ∷ units) w {ls} h =
      let here = directory ++ (unit ∷ []) in
      let w1 = (records_in env here w).1 in
      elim (Result-cases (records_in env here w).0) [
        | inr (e, g) ↦ absurd (ground arith)
        | inl (l, g) ↦ elim (Result-cases (records_of_units env directory units w1).0) [
          | inr (e, k) ↦ absurd (ground arith)
          | inl (rest, k) ↦ ground (
            arith,
            records_in_value here w {ls = l} g,
            records_in_journal here w,
            records_of_units_value directory units w1 {ls = rest} k,
          )
        ]
      ]

  -- `all_records` returns every lease of the configured units, and only if no slot occurs twice.
  pub all_records_value :
      (s : Store) (w : World) {ls : List Lease}
      → (all_records env s w).0 ≡ ok ls
      → (ls ≡ leases_of s w) × (all_distinct (slot_list ls) ≡ true)
  unfolding all_records ◌>>=◌
  all_records_value s w {ls} h =
      let units = s.policy.garden_units in
      let directory = components s.policy.state_directory in
      elim (Result-cases (records_of_units env directory units w).0) [
        | inr (e, g) ↦ absurd (ground arith)
        | inl (l, g) ↦ ground (arith, records_of_units_value directory units w {ls = l} g)
      ]

-- A lease that `reserve` may add to the leases that are there.
pub record IsFresh (s : Store) (owner : Owner) (execution : Text) (leases : List Lease) (l : Lease)
    : Type 0 where
  pub reserved : l.phase ≡ Phase.reserved
  pub in_pool : l.slot < slots s.policy
  pub free : any (λ y. y == l.slot) (slot_list leases) ≡ false
  pub addressed : addresses s.policy l.slot ≡ ok (l.gateway, l.address)
  pub new_token : any (λ lease. text_eq lease.lease l.lease) leases ≡ false
  pub new_execution : has_execution s execution leases ≡ false
  pub uid : l.owner_uid ≡ owner.peer.uid
  pub pid : l.owner_pid ≡ owner.peer.pid
  pub starttime : l.owner_starttime ≡ owner.starttime
  pub executes : l.execution_id ≡ execution
  pub named : l.instance_name ≡ s.instance_name

module _ (env : Env) (s : Store) (owner : Owner) (execution : Text) where
  -- A save that succeeds has put the record in place.
  save_value :
      (l : Lease) (w : World)
      → (save env s l w).0 ≡ ok tt
      → (save env s l w).1.journal ≡ put_record s.directory l.lease l w.journal
  unfolding save file ◌>>=◌
  save_value l w h = ground arith

  candidate-IsFresh :
      (leases : List Lease) (slot gateway address : ℕ) (random : List ℕ)
      → first_free (slots s.policy) 0 (slot_list leases) ≡ some slot
      → addresses s.policy slot ≡ ok (gateway, address)
      → any (λ lease. text_eq lease.lease (token_text random)) leases ≡ false
      → has_execution s execution leases ≡ false
      → IsFresh s owner execution leases
          (new_lease s.instance_name owner execution slot gateway address random)
  unfolding new_lease
  candidate-IsFresh leases slot gateway address random f a t x =
      let (lo, hi, free) = first_free_sound (slots s.policy) 0 (slot_list leases) {slot = slot} f in
      record {
        reserved = refl;
        in_pool = omega arith;
        free = free;
        addressed = a;
        new_token = t;
        new_execution = x;
        uid = refl;
        pid = refl;
        starttime = refl;
        executes = refl;
        named = refl;
      }

  allocate-IsFresh :
      (leases : List Lease) (w : World) {l : Lease}
      → (allocate env s owner execution leases w).0 ≡ ok l
      → IsFresh s owner execution leases l
        × ((allocate env s owner execution leases w).1.journal
            ≡ put_record s.directory l.lease l w.journal)
  unfolding allocate ◌>>=◌
  allocate-IsFresh leases w {l} h =
      elim (Option-cases (first_free (slots s.policy) 0 (slot_list leases))) [
        | inl e ↦ absurd (ground arith)
        | inr (slot, f) ↦ elim (Result-cases (addresses s.policy slot)) [
          | inr (e, g) ↦ absurd (ground arith)
          | inl ((gateway, address), g) ↦ elim (Result-cases (env.random_bytes w.trace)) [
            | inr (e, k) ↦ absurd (ground arith)
            | inl (random, k) ↦
                let c = new_lease s.instance_name owner execution slot gateway address random in
                let w1 : World = record w { trace = Op.random ∷ w.trace } in
                let fresh = candidate-IsFresh leases slot gateway address random f g in
                let facts : (l ≡ c)
                    × (any (λ lease. text_eq lease.lease (token_text random)) leases ≡ false)
                    × (has_execution s execution leases ≡ false)
                    × ((save env s c w1).0 ≡ ok tt)
                    × ((allocate env s owner execution leases w).1 ≡ (save env s c w1).1) =
                  ground arith in
                let fresh_c = fresh facts.1 facts.2 in
                let saved = save_value c w1 facts.3 in rw (facts.0, facts.4) (fresh_c, saved)
          ]
        ]
      ]

module _ (env : Env) (s : Store) (owner : Owner) (execution : Text) where
  -- A `reserve` that succeeds returns a fresh lease: in the phase Reserved, on a slot of the pool that no lease of any unit occupies, with that slot's addresses, a new token, and an execution that had no lease of the instance; and the journal is the former one with this lease recorded.
  pub reserve-IsFresh :
      (w : World) (l : Lease)
      → (reserve env s owner execution w).0 ≡ ok l
      → IsFresh s owner execution (leases_of s w) l
        × ((reserve env s owner execution w).1.journal ≡ put_record s.directory l.lease l w.journal)
  unfolding reserve ◌>>=◌
  reserve-IsFresh w l h =
      let w1 = (global_lock env w).1 in
      let w2 = (process_starttime env owner.peer.pid w1).1 in
      let passive : PassivelyUnasked (λ v. v.journal ≡ w.journal) = λ op v p k. k in
      let k1 = (global_lock-Keeps env passive).at w refl in
      let k2 = (process_starttime-Keeps env passive owner.peer.pid).at w1 k1 in
      let k3 = (all_records-Keeps env passive s).at w2 k2 in
      elim (Result-cases (global_lock env w).0) [
        | inr (e, g) ↦ absurd (ground arith)
        | inl (u, g) ↦ elim (Result-cases (process_starttime env owner.peer.pid w1).0) [
          | inr (e, t) ↦ absurd (ground arith)
          | inl (start, t) ↦ elim (Result-cases (all_records env s w2).0) [
            | inr (e, a) ↦ absurd (ground arith)
            | inl (ls, a) ↦
                let w3 = (all_records env s w2).1 in
                let same : ((allocate env s owner execution ls w3).0 ≡ ok l)
                    × ((reserve env s owner execution w).1
                        ≡ (allocate env s owner execution ls w3).1) =
                  ground arith in
                let (fresh, saved) = allocate-IsFresh env s owner execution ls w3 {l = l} same.0 in
                let found : ls ≡ leases_of s w =
                  rw (← k2) ((all_records_value env s w2 {ls = ls} a).0) in
                rw (← found) (
                  fresh,
                  ap (λ v. v.journal) same.1 ∙ saved ∙ ap (put_record s.directory l.lease l) k3,
                )
          ]
        ]
      ]
