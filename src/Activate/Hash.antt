-- ===== src/Activate/Hash.antt =====
-- `content_hash` of src/commands/activator/services.rs: the hash of a set of seeds.
use sower.Prelude.{
  ℕ, ◌≡◌, refl, ap, ◌∙◌, Bool, true, false, ◌&&◌, ◌||◌, List, [], ◌∷◌, ◌++◌, map, ltb, ◌==◌, Text,
  hex2, arith, if◌then◌else◌,
}
use mathlib.Core.List.{Permᴰ}
use sower.Protocol.{SeedRef}

-- `str` is ordered by its bytes.
unfoldable pub text_le : Text → Text → Bool
text_le [] t = true
text_le (c ∷ s) [] = false
text_le (c ∷ s) (d ∷ t) = ltb c d || (c == d && text_le s t)

unfoldable pub insert : Text → List Text → List Text
insert t [] = t ∷ []
insert t (u ∷ us) = let rest = insert t us in if text_le t u then t ∷ u ∷ us else u ∷ rest

-- `sort_unstable`: equal texts cannot be told apart, so every sort gives this list.
unfoldable pub sort : List Text → List Text
sort [] = []
sort (t ∷ ts) = insert t (sort ts)

unfoldable pub hex_encode : List ℕ → Text
hex_encode [] = []
hex_encode (b ∷ bs) = hex2 b ++ hex_encode bs

-- What the hasher is given: each path with a line feed after it.
unfoldable pub digest_input : List Text → Text
digest_input [] = []
digest_input (t ∷ ts) = t ++ (10 ∷ digest_input ts)

unfoldable pub content_hash : (Text → List ℕ) → List SeedRef → Text
content_hash sha256 seeds =
    hex_encode (sha256 (digest_input (sort (map (λ seed. seed.path) seeds))))

text_le-total : (s t : Text) → text_le s t ≡ false → text_le t s ≡ true
unfolding text_le
text_le-total [] t h = ground arith
text_le-total (c ∷ s) [] h = ground arith
text_le-total (c ∷ s) (d ∷ t) h = ground (arith, text_le-total s t)

text_le-antisym : (s t : Text) → text_le s t ≡ true → text_le t s ≡ true → s ≡ t
unfolding text_le
text_le-antisym [] [] h k = refl
text_le-antisym [] (d ∷ t) h k = ground arith
text_le-antisym (c ∷ s) [] h k = ground arith
text_le-antisym (c ∷ s) (d ∷ t) h k = ground (arith, text_le-antisym s t)

text_le_trans : (s t u : Text) → text_le s t ≡ true → text_le t u ≡ true → text_le s u ≡ true
unfolding text_le
text_le_trans [] t u h k = refl
text_le_trans (c ∷ s) [] u h k = ground arith
text_le_trans (c ∷ s) (d ∷ t) [] h k = ground arith
text_le_trans (c ∷ s) (d ∷ t) (e ∷ u) h k = ground (arith, text_le_trans s t u)

-- The order in which two texts are inserted does not matter.
insert-swap : (s t : Text) (us : List Text) → insert s (insert t us) ≡ insert t (insert s us)
unfolding insert
insert-swap s t [] = ground (arith, text_le-total s t, text_le-antisym s t)
insert-swap s t (u ∷ us) = ground (
  arith,
  insert-swap s t us,
  text_le-total s t,
  text_le-antisym s t,
  text_le_trans s t u,
  text_le_trans t s u,
  text_le-total s u,
  text_le-total t u,
)

sort-Perm :
    {xs ys : List SeedRef}
    → Permᴰ xs ys
    → sort (map (λ seed. seed.path) xs) ≡ sort (map (λ seed. seed.path) ys)
unfolding sort
sort-Perm Permᴰ.nil = refl
sort-Perm (Permᴰ.cons e d) = rw (e, sort-Perm d) refl
sort-Perm (Permᴰ.swap {l = l} e f) = rw (e, f) (insert-swap _ _ (sort (map (λ seed. seed.path) l)))
sort-Perm (Permᴰ.trans d e) = sort-Perm d ∙ sort-Perm e

-- The hash of a list of seeds does not depend on their order.
pub content_hash-Perm :
    (sha256 : Text → List ℕ) {xs ys : List SeedRef}
    → Permᴰ xs ys
    → content_hash sha256 xs ≡ content_hash sha256 ys
unfolding content_hash
content_hash-Perm sha256 d = ap (λ ts. hex_encode (sha256 (digest_input ts))) (sort-Perm d)
