-- ===== src/Guest/Action.antt =====
-- Actions of the guest agent on a state: each may fail, and what it did before stays done. With
-- them, the rules by which an invariant of the state passes through an action.
use sower.Prelude.{◌≡◌, refl, arith, Bool, true, false, if◌then◌else◌}
use sower.Guest.Io.{Io, done, fails}

abbrev pub Action : Type 0 → Type 0 → Type 0
Action S A = S → Io A × S

module _ {S A : Type 0} where
  unfoldable pub pure : A → Action S A
  pure a s = (done a, s)

  unfoldable pub lift : Io A → Action S A
  lift r s = (r, s)

  unfoldable pub gets : (S → A) → Action S A
  gets f s = (done (f s), s)

module _ {S : Type 0} where
  unfoldable pub modify : (S → S) → Action S (Unit {0})
  modify f s = (done tt, f s)

module _ {S A B : Type 0} where
  abbrev pub continue : Io A → (A → Action S B) → Action S B
  continue (done a) f s = f a s
  continue (fails e) f s = (fails e, s)

  infixl 5 ◌>>=◌ ◌>>◌
  -- Opening this opens the other ways to build an action too.
  unfoldable pub ◌>>=◌ : Action S A → (A → Action S B) → Action S B
  unfolding pure lift gets modify
  ◌>>=◌ m f s = let (r, s') = m s in continue r f s'

  abbrev pub ◌>>◌ : Action S A → Action S B → Action S B
  m >> k = m >>= λ _. k

-- Whether it succeeds or fails, the action leads from `P` to `P`.
pub record Keeps {S A : Type 0} (P : S → Type 0) (m : Action S A) : Type 0 where
  pub at : (s : S) → P s → P (m s).1

module _ {S A : Type 0} {P : S → Type 0} where
  pub Keeps-pure : (a : A) → Keeps P (pure {S = S} a)
  unfolding pure
  Keeps-pure a = record { at = λ s h. h }

  pub Keeps-lift : (r : Io A) → Keeps P (lift {S = S} r)
  unfolding lift
  Keeps-lift r = record { at = λ s h. h }

  pub Keeps-gets : (f : S → A) → Keeps P (gets {S = S} f)
  unfolding gets
  Keeps-gets f = record { at = λ s h. h }

  pub Keeps-if :
      (b : Bool) (m n : Action S A) → Keeps P m → Keeps P n → Keeps P (if b then m else n)
  Keeps-if true m n km kn = km
  Keeps-if false m n km kn = kn

module _ {S : Type 0} {P : S → Type 0} where
  pub Keeps-modify : (f : S → S) → ((s : S) → P s → P (f s)) → Keeps P (modify f)
  unfolding modify
  Keeps-modify f k = record { at = k }

module _ {S A B : Type 0} {P : S → Type 0} where
  onwards : (r : Io A) (f : A → Action S B) → ((a : A) → Keeps P (f a)) → Keeps P (continue r f)
  onwards (done a) f k = record { at = (k a).at }
  onwards (fails e) f k = record { at = λ s h. h }

  pub Keeps-bind :
      (first : Action S A) (next : A → Action S B)
      → Keeps P first
      → ((a : A) → Keeps P (next a))
      → Keeps P (first >>= next)
  unfolding ◌>>=◌
  Keeps-bind first next kept each = record {
    at = λ s p. (onwards (first s).0 next each).at (first s).1 (kept.at s p);
  }

  pub Keeps-then : (m : Action S A) (k : Action S B) → Keeps P m → Keeps P k → Keeps P (m >> k)
  Keeps-then m k km kk = Keeps-bind m (λ _. k) km (λ _. kk)

pub ruleset keeps_rules =
    (Keeps-pure, Keeps-lift, Keeps-gets, Keeps-if, Keeps-modify, Keeps-bind, Keeps-then)

-- Wherever the action starts, if it succeeds with `a` the state is in `Q a` then.
pub record Ensures {S A : Type 0} (Q : A → S → Type 0) (m : Action S A) : Type 0 where
  pub at : (s : S) (a : A) → (m s).0 ≡ done a → Q a (m s).1

module _ {S A B : Type 0} {R : A → S → Type 0} (Q : B → S → Type 0) where
  next_ensures :
      (r : Io A) (f : A → Action S B) (s : S) (b : B)
      → ((a : A) → r ≡ done a → R a s)
      → ((a : A) (s' : S) (b' : B) → R a s' → (f a s').0 ≡ done b' → Q b' (f a s').1)
      → (continue r f s).0 ≡ done b
      → Q b (continue r f s).1
  next_ensures (done a) f s b hr k h = k a s b (hr a refl) h
  next_ensures (fails e) f s b hr k h = absurd (ground arith)

module _ {S A B : Type 0} {R : A → S → Type 0} {Q : B → S → Type 0} where
  -- What the first action ensures is what the second starts from.
  pub Ensures-bind :
      (m : Action S A) (f : A → Action S B)
      → Ensures R m
      → ((a : A) (s : S) (b : B) → R a s → (f a s).0 ≡ done b → Q b (f a s).1)
      → Ensures Q (m >>= f)
  unfolding ◌>>=◌
  Ensures-bind m f em k = record { at = λ s b h. next_ensures Q (m s).0 f (m s).1 b (em.at s) k h }

module _ {S A B : Type 0} {Q : B → S → Type 0} where
  -- The last step of a chain decides.
  pub Ensures-then :
      (m : Action S A) (f : A → Action S B) → ((a : A) → Ensures Q (f a)) → Ensures Q (m >>= f)
  Ensures-then m f k =
      Ensures-bind {R = λ _ _. Unit {0}} m f (record { at = λ _ _ _. tt })
        (λ a s b r h. (k a).at s b h)

-- From `P` the action leads to `P` if it succeeds, and to `E` if it fails.
abbrev pub After : {S A : Type 0} → (S → Type 0) → (S → Type 0) → Io A → S → Type 0
After P E (done a) s = P s
After P E (fails e) s = E s

pub record Leads {S A : Type 0} (P E : S → Type 0) (m : Action S A) : Type 0 where
  pub at : (s : S) → P s → After P E (m s).0 (m s).1

module _ {S A : Type 0} {P E : S → Type 0} where
  pub Leads-keeps : (m : Action S A) → ((s : S) → P s → E s) → Keeps P m → Leads P E m
  Leads-keeps m weaken k = record { at = λ s p. go (m s).1 (m s).0 (k.at s p) }
    where
      go : (s' : S) (r : Io A) → P s' → After P E r s'
      go s' (done a) p = p
      go s' (fails e) p = weaken s' p

  pub Leads-if :
      (b : Bool) (m n : Action S A) → Leads P E m → Leads P E n → Leads P E (if b then m else n)
  Leads-if true m n hm hn = hm
  Leads-if false m n hm hn = hn

module _ {S A B : Type 0} {P E : S → Type 0} where
  next-Leads :
      (r : Io A) (f : A → Action S B) (s : S)
      → After P E r s
      → ((a : A) → Leads P E (f a))
      → After P E (continue r f s).0 (continue r f s).1
  next-Leads (done a) f s p k = (k a).at s p
  next-Leads (fails e) f s p k = p

  pub Leads-bind :
      (m : Action S A) (f : A → Action S B)
      → Leads P E m
      → ((a : A) → Leads P E (f a))
      → Leads P E (m >>= f)
  unfolding ◌>>=◌
  Leads-bind m f hm hf = record { at = λ s p. next-Leads (m s).0 f (m s).1 (hm.at s p) hf }

  pub Leads-then :
      (m : Action S A) (k : Action S B) → Leads P E m → Leads P E k → Leads P E (m >> k)
  Leads-then m k hm hk = Leads-bind m (λ _. k) hm (λ _. hk)

module _ {S A B : Type 0} {P Q : S → Type 0} where
  -- The first action keeps `P`, and the second leads from `P` to `Q`.
  next_weakens :
      (r : Io A) (f : A → Action S B) (s : S)
      → P s
      → ((s' : S) → P s' → Q s')
      → ((a : A) (s' : S) → P s' → Q (f a s').1)
      → Q (continue r f s).1
  next_weakens (done a) f s p w k = k a s p
  next_weakens (fails e) f s p w k = w s p

  pub Keeps-weaken :
      (m : Action S A) (f : A → Action S B)
      → Keeps P m
      → ((s : S) → P s → Q s)
      → ((a : A) (s : S) → P s → Q (f a s).1)
      → (s : S) → P s
      → Q ((m >>= f) s).1
  unfolding ◌>>=◌
  Keeps-weaken m f km w k s p = next_weakens (m s).0 f (m s).1 (km.at s p) w k
