-- ===== src/Guest/Output/Buffered.antt =====
-- What the output buffer of guest/src/lib.rs holds: one frame at a time, sent from the front.
use sower.Prelude.{
  ℕ, zero, suc, ◌+◌, ◌-◌, ◌≤◌, ◌≡◌, refl, ap, sym, ◌∙◌, arith, false, Bool-cases, List, [], ◌∷◌,
  ◌++◌, take, drop, length, append_assoc, Text, ltb, ◌==◌, inl, inr,
}
use sower.Guest.Io.{Room}
use sower.Guest.Frame.{chunk, to_be_bytes}
use sower.Guest.Control.Buffer.{length-take, length-drop}
use sower.Guest.Output.{Output, unsent, Wire, send_some, flushed, zeros, new, flush}

-- A frame as it goes over the connection.
unfoldable pub encode : ℕ → Text → Text
unfolding to_be_bytes
encode kind body = (kind ∷ to_be_bytes (length body)) ++ body

pub record IsBuffer (self : Output) : Type 0 where
  pub capacity : length self.buffer ≡ chunk + 5
  pub fits : self.size ≤ chunk + 5
  pub in_front : self.sent ≤ self.size

-- What is written to a connection and what is still buffered for it make up the same bytes.
pub record Carries (all : Text) (wire : Wire) : Type 0 where
  pub buffer : IsBuffer wire.output
  pub bytes_kept : wire.taken ++ unsent wire.output ≡ all

drop_nothing : (n : ℕ) → drop {A = ℕ} n [] ≡ []
drop_nothing zero = refl
drop_nothing (suc n) = refl

drop-drop : (n m : ℕ) (s : Text) → drop (n + m) s ≡ drop m (drop n s)
drop-drop zero m s = let e : 0 + m ≡ m = omega arith in rw e refl
drop-drop (suc n) m [] = drop_nothing (suc n + m) ∙ sym (drop_nothing m)
drop-drop (suc n) m (b ∷ s) =
    let e : suc n + m ≡ suc (n + m) = omega arith in rw e (drop-drop n m s)

length-take-length : (n : ℕ) (s : Text) → length (take n s) ≤ length s
length-take-length zero s = omega arith
length-take-length (suc n) [] = omega arith
length-take-length (suc n) (b ∷ s) = omega (arith, length-take-length n s)

drop_all : (n : ℕ) (s : Text) → length s ≤ n → drop n s ≡ []
drop_all zero [] h = refl
drop_all zero (b ∷ s) h = absurd (omega (arith, h))
drop_all (suc n) [] h = refl
drop_all (suc n) (b ∷ s) h = drop_all n s (omega (arith, h))

take-drop-length : (n : ℕ) (s : Text) → take n s ++ drop (length (take n s)) s ≡ s
take-drop-length zero s = refl
take-drop-length (suc n) [] = refl
take-drop-length (suc n) (b ∷ s) = ap (◌∷◌ b) (take-drop-length n s)

length-unsent : (self : Output) → IsBuffer self → length (unsent self) ≡ self.size - self.sent
unfolding unsent
length-unsent self b =
    length-drop self.sent (take self.size self.buffer)
    ∙ ap (λ k. k - self.sent)
        (length-take self.size self.buffer (omega (arith, b.fits, b.capacity)))

-- A buffer that was sent whole is empty.
flushed-Carries :
    (self : Output) (rooms : List Room) (taken : Text)
    → IsBuffer self
    → ltb self.sent self.size ≡ false
    → Carries
        (taken ++ unsent self)
        (record { output = flushed self; outbound = rooms; taken = taken })
unfolding unsent
flushed-Carries self rooms taken b e = record {
  buffer = record { capacity = b.capacity; fits = omega arith; in_front = omega arith };
  bytes_kept =
      ap (λ x. taken ++ x)
        (sym (
          drop_all self.sent _ (
            ground
              (arith, length-take self.size self.buffer (omega (arith, b.fits, b.capacity))))));
}

-- A `write` that takes some bytes moves them.
send_some-IsBuffer :
    (n : ℕ) (self : Output) (taken : Text) → IsBuffer self → IsBuffer (send_some n self taken).0
unfolding send_some
send_some-IsBuffer n self taken b = record {
  capacity = b.capacity;
  fits = b.fits;
  in_front = omega (arith, b.in_front, length-take-length n (unsent self), length-unsent self b);
}

send_some_keeps :
    (n : ℕ) (self : Output) (taken : Text)
    → (send_some n self taken).1 ++ unsent (send_some n self taken).0 ≡ taken ++ unsent self
unfolding send_some unsent
send_some_keeps n self taken =
    append_assoc taken (take n (unsent self)) _
    ∙ ap (λ x. taken ++ x)
        (ap (λ x. take n (unsent self) ++ x)
            (drop-drop self.sent (length (take n (unsent self))) (take self.size self.buffer))
          ∙ take-drop-length n (unsent self))

pub flush-Carries :
    (self : Output) (rooms : List Room) (taken : Text)
    → IsBuffer self
    → Carries (taken ++ unsent self) (flush self rooms taken).1
unfolding flush
flush-Carries self [] taken b = elim (Bool-cases (ltb self.sent self.size)) [
  | inl y ↦ rw (y, flush) (record { buffer = b; bytes_kept = refl })
  | inr n ↦ rw (n, flush) (flushed-Carries self [] taken b n)
]
flush-Carries self (Room.room zero ∷ r) taken b = elim (Bool-cases (ltb self.sent self.size)) [
  | inl y ↦ rw (y, flush) (record { buffer = b; bytes_kept = refl })
  | inr n ↦ rw (n, flush) (flushed-Carries self (Room.room zero ∷ r) taken b n)
]
flush-Carries self (Room.room (suc m) ∷ r) taken b =
    let (self', taken') = send_some (suc m) self taken in
    let rest = flush-Carries self' r taken' (send_some-IsBuffer (suc m) self taken b) in
    elim (Bool-cases (ltb self.sent self.size)) [
      | inl y ↦ rw (y, flush) (rw⁻¹ (send_some_keeps (suc m) self taken) rest)
      | inr n ↦ rw (n, flush) (flushed-Carries self (Room.room (suc m) ∷ r) taken b n)
    ]
flush-Carries self (Room.full e ∷ r) taken b = elim (Bool-cases (ltb self.sent self.size)) [
  | inl y ↦ elim (Bool-cases (e == 4)) [
    | inl i ↦ rw (y, i, flush) (flush-Carries self r taken b)
    | inr n ↦ rw (y, n, flush) (record { buffer = b; bytes_kept = refl })
  ]
  | inr n ↦ rw (n, flush) (flushed-Carries self (Room.full e ∷ r) taken b n)
]

length-zeros : (n : ℕ) → length (zeros n) ≡ n
length-zeros zero = refl
length-zeros (suc n) = omega (arith, length-zeros n)

pub new-IsBuffer : IsBuffer new
new-IsBuffer = record {
  capacity = length-zeros (chunk + 5);
  fits = omega arith;
  in_front = omega arith;
}

pub unsent-new : unsent new ≡ []
unfolding unsent
unsent-new = refl
