-- ===== src/Network/Files.antt =====
-- The file-system checks of src/commands/activator/network.rs: every path that is trusted is owned
-- by root all the way up, and state directories are private.
use sower.Prelude.{
  ℕ, ◌/◌, ◌%◌, Bool, not, ◌&&◌, ◌||◌, List, [], ◌∷◌, ◌++◌, map, Option, if◌then◌else◌, ◌==◌, Text,
  bytes, text_eq, find, split, or_fail, is_empty,
}
use sower.Network.Os.{
  Env, Op, FileOp, FilePath, Metadata, Io, pure, lift, gets, ask, check, in_context, ◌>>=◌, ◌>>◌,
}

-- The components of an absolute path.
abbrev is_component : Text → Bool
is_component part = not (is_empty part || text_eq part (bytes "."))

abbrev keep_components : List Text → List Text
keep_components [] = []
keep_components (part ∷ parts) =
    let rest = keep_components parts in if is_component part then part ∷ rest else rest

unfoldable pub components : Text → FilePath
components path = keep_components (split b'/' path)

unfoldable pub display_path : FilePath → Text
display_path [] = bytes "/"
display_path (c ∷ []) = bytes "/" ++ c
display_path (c ∷ d ∷ path) = bytes "/" ++ (c ++ display_path (d ∷ path))

-- `Path::ancestors`, the path itself first.
unfoldable pub ancestors : FilePath → List FilePath
ancestors [] = [] ∷ []
ancestors (c ∷ path) = map (◌∷◌ c) (ancestors path) ++ ([] ∷ [])

-- `mode & 0o022 == 0`, `mode & 0o1000 != 0` and `mode & 0o077 == 0`.
abbrev pub not_writable_by_others : ℕ → Bool
not_writable_by_others mode = mode / 2 % 2 == 0 && mode / 16 % 2 == 0

abbrev pub is_sticky : ℕ → Bool
is_sticky mode = mode / 512 % 2 == 1

abbrev pub is_private_mode : ℕ → Bool
is_private_mode mode = mode % 64 == 0

-- The condition on each ancestor.
unfoldable pub is_protected : Metadata → Bool
is_protected m =
    not m.is_symlink
    && (m.uid == 0 && (not_writable_by_others m.mode || (m.is_dir && is_sticky m.mode)))

unfoldable pub is_trusted_file : Metadata → Bool
is_trusted_file m = m.is_file && (m.uid == 0 && not_writable_by_others m.mode)

unfoldable pub is_private_directory : Metadata → Bool
is_private_directory m = m.is_dir && is_private_mode m.mode

unfoldable pub is_private_file : Metadata → Bool
is_private_file m = m.is_file && (m.uid == 0 && is_private_mode m.mode)

module _ (env : Env) where
  unfoldable pub inspect : FilePath → Io Metadata
  inspect path = ask (λ trace. env.metadata trace path) (Op.inspect path)

  unfoldable pub file : FileOp → FilePath → Io (Unit {0})
  file op path = ask (λ trace. env.file_result trace op path) (Op.file op path)

  -- The loop of `secure_path`.
  unfoldable pub secure_all : List FilePath → Io (Unit {0})
  secure_all [] = pure tt
  secure_all (ancestor ∷ rest) = do
    m ← in_context (bytes "inspect " ++ display_path ancestor) (inspect ancestor)
    check (is_protected m) (
        display_path ancestor
        ++ bytes " must be root-owned, non-symlink and protected against entry replacement")
    secure_all rest

  unfoldable pub secure_path : FilePath → Io (Unit {0})
  secure_path path = secure_all (ancestors path)

  unfoldable pub open_secure : FilePath → Io (Unit {0})
  open_secure path = do
    secure_path path
    file FileOp.open_file path
    m ← inspect path
    check (is_trusted_file m) (bytes "untrusted regular file " ++ display_path path)

  unfoldable pub create_private_directory : FilePath → Io (Unit {0})
  create_private_directory path = do
    found ← gets (λ w. find (env.exists w.trace) (ancestors path))
    ancestor ← lift (or_fail found (bytes "directory has no existing ancestor"))
    secure_path ancestor
    file FileOp.create_directory path
    secure_path path
    m ← inspect path
    check (is_private_directory m) (bytes "state directory must be private (0700)")

  -- `lock_file` with `flock`: `none` when a nonblocking lock is held by another.
  unfoldable pub lock_file : FilePath → Bool → Io (Option (Unit {0}))
  lock_file path nonblocking = do
    file FileOp.open_file path
    m ← inspect path
    check (is_private_file m) (bytes "untrusted lock file")
    ask (λ trace. env.lock_result trace path nonblocking) (Op.lock path nonblocking)
