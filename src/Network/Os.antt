-- ===== src/Network/Os.antt =====
-- The world outside the activator's network operations, and the actions that touch it.
-- Every answer of the world may depend on all that was asked of it before, so any behaviour of the
-- kernel, the file system and the programs that are run, failures included, is one `Env`.
use sower.Prelude.{ℕ, Bool, List, ◌∷◌, Option, ℤ, Text, Result, ok, err, Error, ensure}
use sower.Network.Lease.{Lease}

-- A path is its components, from the root.
abbrev pub FilePath : Type 0
FilePath = List Text

pub data ProcFile : Type 0 where
  stat status cgroup : ProcFile

-- The steps of file handling that can fail.
pub data FileOp : Type 0 where
  create_directory open_file parse_file create_temporary write_temporary rename sync_directory
        remove_file remove_temporary :
      FileOp

-- What was asked of the world.
pub data Op : Type 0 where
  command : Text → List Text → Op
  nft : Text → Op
  read_proc : ℤ → ProcFile → Op
  inspect : FilePath → Op
  file : FileOp → FilePath → Op
  lock : FilePath → Bool → Op
  random : Op

-- An element of `ip --json link show`: its `ifname`, `ifalias` and `address`.
pub record Link : Type 0 where
  pub ifname : Option Text
  pub ifalias : Option Text
  pub address : Option Text

-- An element of a listing of nft tables: `table.family`, `table.name`, `table.comment`.
pub record Table : Type 0 where
  pub family : Option Text
  pub name : Option Text
  pub comment : Option Text

pub record Metadata : Type 0 where
  pub is_symlink : Bool
  pub is_dir : Bool
  pub is_file : Bool
  pub uid : ℕ
  pub mode : ℕ

-- `command_output` and `nft_result` run a program and fail when it fails, `lock_result` answers `none` for a lock that
-- is held by another, `random_bytes` reads 16 bytes of /dev/urandom; the parsers are those of
-- serde_json, and `sha256` is the digest of the sha2 crate.
pub record Env : Type 0 where
  pub command_output : List Op → Text → List Text → Result Text
  pub nft_result : List Op → Text → Result (Unit {0})
  pub proc_text : List Op → ℤ → ProcFile → Result Text
  pub metadata : List Op → FilePath → Result Metadata
  pub exists : List Op → FilePath → Bool
  pub file_result : List Op → FileOp → FilePath → Result (Unit {0})
  pub lock_result : List Op → FilePath → Bool → Result (Option (Unit {0}))
  pub random_bytes : List Op → Result (List ℕ)
  pub parse_links : Text → Result (List Link)
  pub parse_tables : Text → Result (List Table)
  pub parse_routes : Text → Result (List (Option Text))
  pub sha256 : Text → List ℕ

-- A journal file `<directory>/<stem>.json`.
pub record Record : Type 0 where
  pub directory : FilePath
  pub stem : Text
  pub content : Lease

-- The journal, its left-over `.tmp` files, what was asked of the world (the latest first), and the
-- lease that the operation under way holds as `&mut Lease`.
pub record World : Type 0 where
  pub journal : List Record
  pub temporaries : List (FilePath × Text)
  pub trace : List Op
  pub lease : Lease

-- An action may fail, and what it did before stays done.
abbrev pub Io : Type 0 → Type 0
Io A = World → Result A × World

module _ {A : Type 0} where
  unfoldable pub pure : A → Io A
  pure a w = (ok a, w)

  unfoldable pub lift : Result A → Io A
  lift r w = (r, w)

  unfoldable pub gets : (World → A) → Io A
  gets f w = (ok (f w), w)

  unfoldable pub raise : Error → Io A
  raise e w = (err e, w)

  -- The result of an action, as a value: an `Err` that is not passed on at once.
  unfoldable pub attempt : Io A → Io (Result A)
  attempt m w = let (r, w') = m w in (ok r, w')

  abbrev contextual : Text → Result A → Result A
  contextual message (ok a) = ok a
  contextual message (err e) = err (message ∷ e)

  -- `.with_context(message)`.
  unfoldable pub in_context : Text → Io A → Io A
  in_context message m w = let (r, w') = m w in (contextual message r, w')

  -- Asks the world, and notes that it was asked.
  unfoldable pub ask : (List Op → Result A) → Op → Io A
  ask answer op w = (answer w.trace, record w { trace = op ∷ w.trace })

unfoldable pub check : Bool → Text → Io (Unit {0})
check test message w = (ensure test message, w)

unfoldable pub modify : (World → World) → Io (Unit {0})
modify f w = (ok tt, f w)

module _ {A B : Type 0} where
  abbrev continue : Result A → (A → Io B) → Io B
  continue (ok a) f w = f a w
  continue (err e) f w = (err e, w)

  infixl 5 ◌>>=◌ ◌>>◌
  -- Opening this opens the other ways to build an action too.
  unfoldable pub ◌>>=◌ : Io A → (A → Io B) → Io B
  unfolding pure lift gets raise attempt in_context ask check modify
  ◌>>=◌ m f w = let (r, w') = m w in continue r f w'

  abbrev pub ◌>>◌ : Io A → Io B → Io B
  m >> k = m >>= λ _. k

abbrev pub set_lease : Lease → Io (Unit {0})
set_lease lease = modify (λ w. record w { lease = lease })
