-- ===== src/Guest/Control/Buffer.antt =====
-- Buffers that `read` of guest/src/lib.rs fills piece by piece.
use sower.Prelude.{
  ℕ, zero, suc, ◌+◌, ◌-◌, ◌≤◌, ◌≡◌, refl, ap, sym, ◌∙◌, arith, [], ◌∷◌, ◌++◌, take, drop, length,
  Text, length-append, append_assoc,
}
use sower.Guest.Control.{overwrite, resize}

pub length-take : (n : ℕ) (s : Text) → n ≤ length s → length (take n s) ≡ n
length-take zero s h = refl
length-take (suc n) [] h = absurd (omega (arith, h))
length-take (suc n) (b ∷ s) h = omega (arith, length-take n s (omega (arith, h)))

pub length-take-le : (n : ℕ) (s : Text) → length (take n s) ≤ n
length-take-le zero s = omega arith
length-take-le (suc n) [] = omega arith
length-take-le (suc n) (b ∷ s) = omega (arith, length-take-le n s)

pub length-drop : (n : ℕ) (s : Text) → length (drop n s) ≡ length s - n
length-drop zero s = omega arith
length-drop (suc n) [] = omega arith
length-drop (suc n) (b ∷ s) = omega (arith, length-drop n s)

pub take_all : (n : ℕ) (s : Text) → length s ≤ n → take n s ≡ s
take_all zero [] h = refl
take_all zero (b ∷ s) h = absurd (omega (arith, h))
take_all (suc n) [] h = refl
take_all (suc n) (b ∷ s) h = ap (◌∷◌ b) (take_all n s (omega (arith, h)))

pub take-append : (s t : Text) (n : ℕ) → length s ≡ n → take n (s ++ t) ≡ s
take-append [] t zero h = refl
take-append [] t (suc n) h = absurd (omega (arith, h))
take-append (b ∷ s) t zero h = absurd (omega (arith, h))
take-append (b ∷ s) t (suc n) h = ap (◌∷◌ b) (take-append s t n (omega (arith, h)))

pub drop-append : (s t : Text) (n : ℕ) → length s ≡ n → drop n (s ++ t) ≡ t
drop-append [] t zero h = refl
drop-append [] t (suc n) h = absurd (omega (arith, h))
drop-append (b ∷ s) t zero h = absurd (omega (arith, h))
drop-append (b ∷ s) t (suc n) h = drop-append s t n (omega (arith, h))

module _ (start : ℕ) (bs buffer : Text) (fits : start + length bs ≤ length buffer) where
  -- What was in the buffer before the place, and then what was written.
  pub take-overwrite :
      take (start + length bs) (overwrite start bs buffer) ≡ take start buffer ++ bs
  unfolding overwrite
  take-overwrite =
      rw (sym (append_assoc (take start buffer) bs (drop (start + length bs) buffer))) (
        take-append (take start buffer ++ bs) _ _ (
          length-append (take start buffer) bs
          ∙ ap (λ n. n + length bs) (length-take start buffer (omega (arith, fits)))))

  pub length-overwrite : length (overwrite start bs buffer) ≡ length buffer
  unfolding overwrite
  length-overwrite =
      rw (length-append, length-append, length-take start buffer (omega (arith, fits)), length-drop)
        (omega (arith, fits))

pub length-resize : (n : ℕ) (s : Text) → length (resize n s) ≡ n
length-resize zero s = refl
length-resize (suc n) [] = omega (arith, length-resize n [])
length-resize (suc n) (b ∷ s) = omega (arith, length-resize n s)
