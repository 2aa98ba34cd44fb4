-- ===== src/Deploy/Scan.antt =====
-- The loop of `Decoder::push` in src/commands/deploy/sudo.rs ends, having looked at every byte.
use sower.Prelude.{
  ℕ, zero, suc, ◌+◌, ◌<◌, ◌≡◌, ◌∙◌, refl, ap, arith, Bool, true, false, [], ◌∷◌, ◌++◌, Option, none,
  some, bytes, Result, ok, err, Text, length, length-append, split_once, split_once_sound,
  strip_prefix, strip_prefix_sound,
}
use sower.Protocol.{Response}
use sower.Deploy.Decoder.{
  frame_prefix, Decoder, Terminal, find_prefix, found_here, Decoded, then_scan, in_frame_turn,
  outside_turn, scan_turn, unless_empty, scan,
}

length-frame_prefix : (b : Text) → length (frame_prefix ++ b) ≡ 17 + length b
unfolding frame_prefix bytes
length-frame_prefix b = omega arith

found_here-shorter :
    (c : ℕ) (s : Text) (o : Option Text) (r : Option (Text × Text)) (before behind : Text)
    → strip_prefix frame_prefix (c ∷ s) ≡ o
    → ((x y : Text) → r ≡ some (x, y) → length y < length s)
    → found_here c o r ≡ some (before, behind)
    → length behind < suc (length s)
found_here-shorter c s (some b) r before behind e k h =
    let whole = ap length (strip_prefix_sound frame_prefix (c ∷ s) e) ∙ length-frame_prefix b in
    ground (arith, whole)
found_here-shorter c s none none before behind e k h = absurd (ground arith)
found_here-shorter c s none (some (x, y)) before behind e k h = ground (arith, k x y refl)

find_prefix-shorter :
    (s : Text) (before behind : Text)
    → find_prefix s ≡ some (before, behind)
    → length behind < length s
unfolding find_prefix
find_prefix-shorter [] before behind h = absurd (ground arith)
find_prefix-shorter (c ∷ s) before behind h =
    found_here-shorter c s _ (find_prefix s) before behind refl (find_prefix-shorter s) h

split_once-shorter :
    (c : ℕ) (s line behind : Text) → split_once c s ≡ some (line, behind) → length behind < length s
split_once-shorter c s line behind h =
    let e = (split_once_sound c s h).0 in
    omega (arith, ap length e, length-append line (c ∷ behind))

module _ (parse_response : Text → Result Response) where
  abbrev Loop : Type 0
  Loop = Decoder → Terminal → Decoded

  -- Two ways to go on that agree where fewer than `n` bytes are left.
  abbrev Same : ℕ → Loop → Loop → Type 0
  Same n next next' = (d : Decoder) (t : Terminal) → length d.pending < n → next d t ≡ next' d t

  then_scan-same :
      (r : Decoded) (next next' : Loop)
      → ((d : Decoder) (t : Terminal) → next d t ≡ next' d t)
      → then_scan r next ≡ then_scan r next'
  then_scan-same (ok d, t) next next' same = same d t
  then_scan-same (err e, t) next next' same = refl

  in_frame_turn-Same :
      (d : Decoder) (t : Terminal) (o : Option (Text × Text)) (next next' : Loop)
      → split_once 10 d.pending ≡ o
      → Same (length d.pending) next next'
      → in_frame_turn parse_response o next d t ≡ in_frame_turn parse_response o next' d t
  in_frame_turn-Same d t none next next' e same = refl
  in_frame_turn-Same d t (some (line, behind)) next next' e same =
      then_scan-same _ _ _ (λ d' t'. same _ t' (split_once-shorter 10 d.pending line behind e))

  outside_turn-Same :
      (d : Decoder) (t : Terminal) (o : Option (Text × Text)) (next next' : Loop)
      → find_prefix d.pending ≡ o
      → Same (length d.pending) next next'
      → outside_turn parse_response o next d t ≡ outside_turn parse_response o next' d t
  outside_turn-Same d t none next next' e same = refl
  outside_turn-Same d t (some (before, behind)) next next' e same =
      then_scan-same _ _ _ (λ d' t'. same _ t' (find_prefix-shorter d.pending before behind e))

  scan_turn-Same :
      (in_frame : Bool) (d : Decoder) (t : Terminal) (next next' : Loop)
      → Same (length d.pending) next next'
      → scan_turn parse_response in_frame next d t ≡ scan_turn parse_response in_frame next' d t
  unfolding scan_turn
  scan_turn-Same true d t next next' same = in_frame_turn-Same d t _ next next' refl same
  scan_turn-Same false d t next next' same = outside_turn-Same d t _ next next' refl same

  unless_empty-Same :
      (s : Text) (next next' : Loop) (d : Decoder) (t : Terminal)
      → next d t ≡ next' d t
      → unless_empty parse_response s next d t ≡ unless_empty parse_response s next' d t
  unless_empty-Same [] next next' d t e = refl
  unless_empty-Same (c ∷ s) next next' d t e = e

  -- One turn more than there are bytes is enough for the loop: with any larger number of turns a decoder does the same.
  pub scan_ends :
      (a b : ℕ) (d : Decoder) (t : Terminal)
      → length d.pending < a
      → length d.pending < b
      → scan parse_response a d t ≡ scan parse_response b d t
  unfolding scan
  scan_ends zero b d t la lb = absurd (omega (arith, la))
  scan_ends (suc a) zero d t la lb = absurd (omega (arith, lb))
  scan_ends (suc a) (suc b) d t la lb = unless_empty-Same d.pending _ _ d t (
      scan_turn-Same d.in_frame d t _ _
        (λ d' t' l. scan_ends a b d' t' (omega (arith, la, l)) (omega (arith, lb, l))))
