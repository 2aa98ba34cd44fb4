-- ===== src/Deploy/Frames.antt =====
-- Where `Decoder::push` of src/commands/deploy/sudo.rs stands in the bytes that have arrived.
use sower.Prelude.{
  ◌≡◌, ◌∙◌, refl, ap, arith, Bool, true, false, Bool-cases, [], ◌∷◌, ◌++◌, Option, none, some, Text,
  append_assoc, has_byte, inl, inr, split_once, split_once_sound, strip_prefix, strip_prefix_sound,
  ℕ,
}
use sower.Deploy.Decoder.{frame_prefix, find_prefix, found_here, retained, is_partial}

found_here_sound :
    (c : ℕ) (s : Text) (o : Option Text) (r : Option (Text × Text)) (before behind : Text)
    → strip_prefix frame_prefix (c ∷ s) ≡ o
    → ((x y : Text) → r ≡ some (x, y) → s ≡ x ++ (frame_prefix ++ y))
    → found_here c o r ≡ some (before, behind)
    → c ∷ s ≡ before ++ (frame_prefix ++ behind)
found_here_sound c s (some b) r before behind e k h =
    ground (arith, strip_prefix_sound frame_prefix (c ∷ s) e)
found_here_sound c s none none before behind e k h = absurd (ground arith)
found_here_sound c s none (some (x, y)) before behind e k h = ground (arith, k x y refl)

-- The marker stands between what `find_prefix` returns.
find_prefix_sound :
    (s before behind : Text)
    → find_prefix s ≡ some (before, behind)
    → s ≡ before ++ (frame_prefix ++ behind)
unfolding find_prefix
find_prefix_sound [] before behind h = absurd (ground arith)
find_prefix_sound (c ∷ s) before behind h =
    found_here_sound c s _ (find_prefix s) before behind refl (find_prefix_sound s) h

retained_sound : (s : Text) → s ≡ (retained s).0 ++ (retained s).1
unfolding retained
retained_sound [] = refl
retained_sound (c ∷ s) = elim (Bool-cases (is_partial (c ∷ s))) [
  | inl e ↦ rw e refl
  | inr e ↦ rw e (ap (λ t. c ∷ t) (retained_sound s))
]

-- The line stands among the bytes right behind a marker, and a line feed behind it.
pub record IsFramed (seen line : Text) : Type 0 where
  pub before : Text
  pub behind : Text
  pub place : seen ≡ before ++ (frame_prefix ++ (line ++ (10 ∷ behind)))
  pub one_line : has_byte 10 line ≡ false

-- What is pending is the end of what arrived, and an open frame begins there.
pub record IsAt (seen pending : Text) (in_frame : Bool) : Type 0 where
  pub before : Text
  pub cut : seen ≡ before ++ pending
  pub opened : in_frame ≡ true → (outside : Text) × (before ≡ outside ++ frame_prefix)

pub IsFramed-append : (seen line bs : Text) → IsFramed seen line → IsFramed (seen ++ bs) line
IsFramed-append seen line bs h = record {
  before = h.before;
  behind = h.behind ++ bs;
  place = ap (λ t. t ++ bs) h.place ∙ simp append_assoc;
  one_line = h.one_line;
}

pub IsAt-append :
    (seen pending bs : Text) (in_frame : Bool)
    → IsAt seen pending in_frame
    → IsAt (seen ++ bs) (pending ++ bs) in_frame
IsAt-append seen pending bs in_frame h = record {
  before = h.before;
  cut = ap (λ t. t ++ bs) h.cut ∙ append_assoc h.before pending bs;
  opened = h.opened;
}

-- The line up to the line feed in an open frame.
pub open-IsFramed :
    (seen pending line behind : Text)
    → IsAt seen pending true
    → split_once 10 pending ≡ some (line, behind)
    → IsFramed seen line
open-IsFramed seen pending line behind h e =
    let (whole, one) = split_once_sound 10 pending e in
    let (outside, o) = h.opened refl in
    record {
      before = outside;
      behind = behind;
      place =
          h.cut
          ∙ ap (λ t. t ++ pending) o
          ∙ append_assoc outside frame_prefix pending
          ∙ ap (λ t. outside ++ (frame_prefix ++ t)) whole;
      one_line = one;
    }

-- Behind the line feed, behind a marker, and at what is kept for one.
pub closed-IsAt :
    (seen pending line behind : Text)
    → IsAt seen pending true
    → split_once 10 pending ≡ some (line, behind)
    → IsAt seen behind false
closed-IsAt seen pending line behind h e = record {
  before = h.before ++ (line ++ (10 ∷ []));
  cut = h.cut ∙ ap (λ t. h.before ++ t) (split_once_sound 10 pending e).0 ∙ simp append_assoc;
  opened = λ c. absurd (ground arith);
}

pub opened-IsAt :
    (seen pending before behind : Text)
    → IsAt seen pending false
    → find_prefix pending ≡ some (before, behind)
    → IsAt seen behind true
opened-IsAt seen pending before behind h e = record {
  before = (h.before ++ before) ++ frame_prefix;
  cut =
      h.cut
      ∙ ap (λ t. h.before ++ t) (find_prefix_sound pending before behind e)
      ∙ simp append_assoc;
  opened = λ c. (h.before ++ before, refl);
}

pub retained-IsAt :
    (seen pending : Text) → IsAt seen pending false → IsAt seen (retained pending).1 false
retained-IsAt seen pending h = record {
  before = h.before ++ (retained pending).0;
  cut = h.cut ∙ ap (λ t. h.before ++ t) (retained_sound pending) ∙ simp append_assoc;
  opened = λ c. absurd (ground arith);
}
