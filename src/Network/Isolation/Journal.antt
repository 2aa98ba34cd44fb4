-- ===== src/Network/Isolation/Journal.antt =====
-- Writing and removing a record does not touch the records of another directory.
use sower.Prelude.{
  ◌≡◌, refl, true, false, List, [], ◌∷◌, Text, text_eq_iff, arith, Bool-cases, inl, inr,
}
use sower.Network.Lease.{Lease}
use sower.Network.Os.{FilePath, Record}
use sower.Network.Store.{path_eq, is_file, put_record, remove_record, in_directory}

path_eq_sound : (p q : FilePath) → path_eq p q ≡ true → p ≡ q
path_eq_sound [] [] h = refl
path_eq_sound [] (d ∷ q) h = ground arith
path_eq_sound (c ∷ p) [] h = ground arith
path_eq_sound (c ∷ p) (d ∷ q) h = ground (arith, path_eq_sound p q, text_eq_iff c d)

elsewhere :
    (r : FilePath) (directory other : FilePath)
    → path_eq directory other ≡ false
    → path_eq r directory ≡ true
    → path_eq r other ≡ false
elsewhere r directory other h e = rw (path_eq_sound r directory e) h

pub in_directory-put :
    (directory other : FilePath) (stem : Text) (l : Lease) (rs : List Record)
    → path_eq directory other ≡ false
    → in_directory other (put_record directory stem l rs) ≡ in_directory other rs
unfolding in_directory put_record is_file
in_directory-put directory other stem l [] h = rw h refl
in_directory-put directory other stem l (r ∷ rs) h =
    elim (Bool-cases (path_eq r.directory directory)) [
      | inl e ↦ ground (
        arith,
        elsewhere r.directory directory other h e,
        in_directory-put directory other stem l rs h,
      )
      | inr e ↦ rw e (ground (arith, in_directory-put directory other stem l rs h))
    ]

pub in_directory-remove :
    (directory other : FilePath) (stem : Text) (rs : List Record)
    → path_eq directory other ≡ false
    → in_directory other (remove_record directory stem rs) ≡ in_directory other rs
unfolding in_directory remove_record is_file
in_directory-remove directory other stem [] h = refl
in_directory-remove directory other stem (r ∷ rs) h =
    elim (Bool-cases (path_eq r.directory directory)) [
      | inl e ↦ ground (
        arith,
        elsewhere r.directory directory other h e,
        in_directory-remove directory other stem rs h,
      )
      | inr e ↦ rw e (ground (arith, in_directory-remove directory other stem rs h))
    ]
