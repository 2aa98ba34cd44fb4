-- ===== src/Network/Logic.antt =====
-- Invariants of actions: one rule for each way to build an action.
use sower.Prelude.{
  Option, none, some, arith, ◌≡◌, Bool, true, false, List, ◌∷◌, if◌then◌else◌, Result, ok, err,
  Error, Text,
}
use sower.Network.Os.{
  Op, World, Io, pure, lift, gets, raise, attempt, in_context, ask, check, modify, ◌>>=◌, ◌>>◌,
}

-- Whether it succeeds or fails, the action leads from `P` to `P`.
pub record Keeps {A : Type 0} (P : World → Type 0) (m : Io A) : Type 0 where
  pub at : (w : World) → P w → P (m w).1

-- Questions that do not run a program.
abbrev pub is_passive : Op → Bool
is_passive (Op.command program args) = false
is_passive (Op.nft script) = false
is_passive _ = true

-- A predicate on the journal and the lease alone does not see the trace; one on the programs run
-- does not see the passive questions.
abbrev pub Unasked : (World → Type 0) → Type 0
Unasked P = (op : Op) (w : World) → P w → P (record w { trace = op ∷ w.trace })

abbrev pub PassivelyUnasked : (World → Type 0) → Type 0
PassivelyUnasked P =
    (op : Op) (w : World) → is_passive op ≡ true → P w → P (record w { trace = op ∷ w.trace })

module _ {A : Type 0} {P : World → Type 0} where
  pub Keeps-pure : (a : A) → Keeps P (pure a)
  unfolding pure
  Keeps-pure a = record { at = λ w h. h }

  pub Keeps-lift : (r : Result A) → Keeps P (lift r)
  unfolding lift
  Keeps-lift r = record { at = λ w h. h }

  pub Keeps-gets : (f : World → A) → Keeps P (gets f)
  unfolding gets
  Keeps-gets f = record { at = λ w h. h }

  pub Keeps-raise : (e : Error) → Keeps P (raise {A = A} e)
  unfolding raise
  Keeps-raise e = record { at = λ w h. h }

  pub Keeps-attempt : (m : Io A) → Keeps P m → Keeps P (attempt m)
  unfolding attempt
  Keeps-attempt m k = record { at = k.at }

  pub Keeps-in_context : (message : Text) (m : Io A) → Keeps P m → Keeps P (in_context message m)
  unfolding in_context
  Keeps-in_context message m k = record { at = k.at }

  pub Keeps-if : (b : Bool) (m n : Io A) → Keeps P m → Keeps P n → Keeps P (if b then m else n)
  Keeps-if true m n km kn = km
  Keeps-if false m n km kn = kn

  pub Keeps-ask :
      (answer : List Op → Result A) (op : Op)
      → ((w : World) → P w → P (record w { trace = op ∷ w.trace }))
      → Keeps P (ask answer op)
  unfolding ask
  Keeps-ask answer op k = record { at = k }

module _ {P : World → Type 0} where
  pub Keeps-check : (b : Bool) (message : Text) → Keeps P (check b message)
  unfolding check
  Keeps-check b message = record { at = λ w h. h }

  pub Keeps-modify : (f : World → World) → ((w : World) → P w → P (f w)) → Keeps P (modify f)
  unfolding modify
  Keeps-modify f k = record { at = k }

module _ {A B : Type 0} {P : World → Type 0} where
  after : (r : Result A) (f : A → Io B) → ((a : A) → Keeps P (f a)) → Keeps P (lift r >>= f)
  unfolding ◌>>=◌
  after (ok a) f k = record { at = (k a).at }
  after (err e) f k = record { at = λ w h. h }

  pub Keeps-bind :
      (m : Io A) (f : A → Io B) → Keeps P m → ((a : A) → Keeps P (f a)) → Keeps P (m >>= f)
  unfolding ◌>>=◌
  Keeps-bind m f km kf = record {
    at = λ w h. let (r, w') = m w in (after r f kf).at w' (km.at w h);
  }

  pub Keeps-then : (m : Io A) (k : Io B) → Keeps P m → Keeps P k → Keeps P (m >> k)
  Keeps-then m k km kk = Keeps-bind m (λ _. k) km (λ _. kk)

module _ {A B : Type 0} {P : World → Type 0} where
  -- A handler of a result that was not passed on.
  pub Keeps-result :
      (r : Result A) (f : A → Io B) (g : Error → Io B)
      → ((a : A) → Keeps P (f a))
      → ((e : Error) → Keeps P (g e))
      → Keeps P (elim r [ ok a ↦ f a | err e ↦ g e ])
  Keeps-result (ok a) f g kf kg = kf a
  Keeps-result (err e) f g kf kg = kg e

module _ {A B : Type 0} {P : World → Type 0} where
  pub Keeps-option :
      (o : Option A) (m : Io B) (f : A → Io B)
      → Keeps P m
      → ((a : A) → Keeps P (f a))
      → Keeps P (elim o [ none ↦ m | some a ↦ f a ])
  Keeps-option none m f km kf = km
  Keeps-option (some a) m f km kf = kf a

pub ruleset keeps_rules = (
  Keeps-pure, Keeps-lift, Keeps-gets, Keeps-raise, Keeps-attempt, Keeps-in_context, Keeps-if,
  Keeps-check, Keeps-bind, Keeps-then,
)

-- Wherever the action starts, if it succeeds the world is in `Q` then.
pub record Ensures {A : Type 0} (Q : World → Type 0) (m : Io A) : Type 0 where
  pub at : (w : World) (a : A) → (m w).0 ≡ ok a → Q (m w).1

module _ {A B : Type 0} {Q : World → Type 0} where
  onwards :
      (r : Result A) (f : A → Io B) (w : World) (b : B)
      → ((a : A) → Ensures Q (f a))
      → ((lift r >>= f) w).0 ≡ ok b
      → Q ((lift r >>= f) w).1
  unfolding ◌>>=◌
  onwards (ok a) f w b k h = (k a).at w b h
  onwards (err e) f w b k h = absurd (ground arith)

  -- The last step of a chain decides.
  pub Ensures-bind : (m : Io A) (f : A → Io B) → ((a : A) → Ensures Q (f a)) → Ensures Q (m >>= f)
  unfolding ◌>>=◌
  Ensures-bind m f k = record { at = λ w b h. let (r, w') = m w in onwards r f w' b k h }

  pub Ensures-then : (m : Io A) (k : Io B) → Ensures Q k → Ensures Q (m >> k)
  Ensures-then m k e = Ensures-bind m (λ _. k) (λ _. e)
