-- ===== src/Guest/Io.antt =====
-- `io::Result` and the file descriptors of guest/src/lib.rs. What a descriptor will answer is a
-- list: any order of data, refusals and closing is one such list.
use sower.Prelude.{
  Option, none, some, ℕ, zero, suc, ◌-◌, Bool, true, false, List, [], ◌∷◌, ◌++◌, take, drop, length,
  Text, bytes, ◌==◌, leb, ◌≡◌, refl, ◌⊎◌, inl, inr,
}

-- An error is an errno of the kernel, or one of the errors that the agent makes itself.
pub data IoError : Type 0 where
  raw : ℕ → IoError
  invalid : Text → IoError
  timed_out : Text → IoError
  other : Text → IoError
  write_zero : IoError

pub data Io {ℓ} (A : Type ℓ) : Type ℓ where
  done : A → Io A
  fails : IoError → Io A

pub Io-cases {ℓ} :
    {A : Type ℓ} (r : Io A) → ((a : A) × (r ≡ done a)) ⊎ ((e : IoError) × (r ≡ fails e))
Io-cases (done a) = inl (a, refl)
Io-cases (fails e) = inr (e, refl)

abbrev pub is_raw : ℕ → IoError → Bool
is_raw n (raw e) = e == n
is_raw n _ = false

-- The kinds that std gives to errno: EINTR, EAGAIN, EPIPE and ENOENT.
abbrev pub is_interrupted : IoError → Bool
is_interrupted = is_raw 4

abbrev pub is_would_block : IoError → Bool
is_would_block = is_raw 11

abbrev pub is_broken_pipe : IoError → Bool
is_broken_pipe = is_raw 32

abbrev pub is_not_found : IoError → Bool
is_not_found = is_raw 2

-- What a descriptor that is read will answer: at least one byte, its end, or an errno.
pub data Arrival : Type 0 where
  arrived : ℕ → Text → Arrival
  closed : Arrival
  refused : ℕ → Arrival

abbrev pub put_back : Text → List Arrival → List Arrival
put_back [] s = s
put_back (b ∷ bs) s = Arrival.arrived b bs ∷ s

-- `read` into a buffer of `n` bytes. A descriptor with nothing more to come would block.
unfoldable pub read : ℕ → List Arrival → Io Text × List Arrival
read n [] = (fails (raw 11), [])
read n (Arrival.arrived b bs ∷ s) = (done (take n (b ∷ bs)), put_back (drop n (b ∷ bs)) s)
read n (Arrival.closed ∷ s) = (done [], Arrival.closed ∷ s)
read n (Arrival.refused e ∷ s) = (fails (raw e), s)

abbrev after : Text → Io Text → Io Text
after bs (done rest) = done (bs ++ rest)
after bs (fails e) = fails e

-- `read_exact` at `n` bytes.
unfoldable pub read_exact : ℕ → List Arrival → Io Text × List Arrival
read_exact zero s = (done [], s)
read_exact (suc n) [] = (fails (raw 11), [])
read_exact (suc n) (Arrival.arrived b bs ∷ s) = elim (leb (suc n) (length (b ∷ bs))) [
  | true ↦ (done (take (suc n) (b ∷ bs)), put_back (drop (suc n) (b ∷ bs)) s)
  | false ↦ (let (rest, s') = read_exact (suc n - length (b ∷ bs)) s in (after (b ∷ bs) rest, s'))
]
read_exact (suc n) (Arrival.closed ∷ s) =
    (fails (other (bytes "failed to fill whole buffer")), Arrival.closed ∷ s)
read_exact (suc n) (Arrival.refused e ∷ s) = elim (e == 4) [
  | true ↦ read_exact (suc n) s
  | false ↦ (fails (raw e), s)
]

-- What a descriptor that is written will answer: how much it takes, or an errno.
pub data Room : Type 0 where
  room : ℕ → Room
  full : ℕ → Room

-- `write`: how many bytes were taken.
unfoldable pub write : Text → List Room → Io ℕ × List Room
write bs [] = (fails (raw 11), [])
write bs (Room.room n ∷ r) = (done (length (take n bs)), r)
write bs (Room.full e ∷ r) = (fails (raw e), r)

-- `write_all`: the bytes taken, and whether all of them were.
unfoldable pub write_all : Text → List Room → (Io (Unit {0}) × Text) × List Room
write_all [] r = ((done tt, []), r)
write_all (b ∷ bs) [] = ((fails (raw 11), []), [])
write_all (b ∷ bs) (Room.room zero ∷ r) = ((fails write_zero, []), r)
write_all (b ∷ bs) (Room.room (suc n) ∷ r) =
    let ((result, taken), r') = write_all (drop (suc n) (b ∷ bs)) r in
    ((result, take (suc n) (b ∷ bs) ++ taken), r')
write_all (b ∷ bs) (Room.full e ∷ r) = elim (e == 4) [
  | true ↦ write_all (b ∷ bs) r
  | false ↦ ((fails (raw e), []), r)
]

-- The `?` operator.
infixl 5 ◌>>=◌ ◌>>◌
abbrev pub ◌>>=◌ {ℓ κ} : {A : Type ℓ} {B : Type κ} → Io A → (A → Io B) → Io B
done a >>= f = f a
fails e >>= f = fails e

abbrev pub ◌>>◌ {ℓ} : {B : Type ℓ} → Io (Unit {0}) → Io B → Io B
first >> next = first >>= λ _. next

abbrev pub ok_or_invalid {ℓ} : {A : Type ℓ} → Option A → Text → Io A
ok_or_invalid (some a) message = done a
ok_or_invalid none message = fails (invalid message)

abbrev pub check : Bool → Text → Io (Unit {0})
check true message = done tt
check false message = fails (invalid message)
