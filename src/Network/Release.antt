-- ===== src/Network/Release.antt =====
-- What `release` of src/commands/activator/network.rs leaves in the journal.
use sower.Prelude.{◌≡◌, refl, Bool, false, List, [], ◌∷◌, ok, Text, any, arith, if◌then◌else◌}
use sower.Network.Lease.{Lease, Phase, phase_eq}
use sower.Network.Os.{Env, FilePath, Record, World, Io, ◌>>=◌, ◌>>◌, pure, check}
use sower.Network.Logic.{Ensures, Ensures-then}
use sower.Network.Store.{Store, is_file, remove_record, global_lock}
use sower.Network.Files.{file}
use sower.Network.Operations.{release, release_resources, forget}

-- A record that was removed is not found.
remove-gone :
    (directory : FilePath) (stem : Text) (rs : List Record)
    → any (is_file directory stem) (remove_record directory stem rs) ≡ false
unfolding remove_record
remove-gone directory stem [] = refl
remove-gone directory stem (r ∷ rs) = ground (arith, remove-gone directory stem rs)

module _ (env : Env) (s : Store) where
  forget_gone :
      (l : Lease) (w : World)
      → (forget env s l w).0 ≡ ok tt
      → any (is_file s.directory l.lease) (forget env s l w).1.journal ≡ false
  unfolding forget file ◌>>=◌
  forget_gone l w h = ground (arith, remove-gone s.directory l.lease w.journal)

  -- The steps of `release` before the last one.
  abbrev first_steps : Lease → Io (Unit {0})
  first_steps l = if phase_eq l.phase Phase.reserved then pure tt else release_resources env s l

  forgets_last :
      (l : Lease) (b : Bool) (message : Text)
      → Ensures
          (λ v. any (is_file s.directory l.lease) v.journal ≡ false)
          (check b message >> (first_steps l >> (global_lock env >> forget env s l)))
  forgets_last l b message =
      Ensures-then _ _
        (Ensures-then _ _ (Ensures-then _ _ (record { at = λ v a k. forget_gone l v k })))

  -- A `release` that succeeds leaves no record of the lease in the instance's directory.
  pub release_gone :
      (w : World)
      → (release env s w).0 ≡ ok tt
      → any (is_file s.directory w.lease.lease) (release env s w).1.journal ≡ false
  unfolding release ◌>>=◌
  release_gone w h = (forgets_last w.lease _ _).at w tt h
