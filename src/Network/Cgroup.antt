-- ===== src/Network/Cgroup.antt =====
-- What `cgroup_instance` of src/commands/activator/network.rs finds in the text of
-- /proc/<pid>/cgroup.
use sower.Prelude.{
  ◌≡◌, List, [], ◌∷◌, ◌++◌, Option, none, some, ok, Text, contains_text, lines, split, split_once,
  split_once_sound, text_eq, text_eq_iff, has_byte, bytes, ◌⊎◌, ◌==◌, ap, refl, true, false, ℕ,
  append-nil, arith, inl, inr, Result-cases, Option-cases, Bool-cases, ◌∙◌,
}
use sower.Network.Peer.{slice_unit, line_unit, scan_cgroup, cgroup_instance}

-- A text has one part at least.
split-cons : (c : ℕ) (s : Text) → (p : Text) × ((ps : List Text) × (split c s ≡ p ∷ ps))
unfolding split
split-cons c [] = ([], ([], refl))
split-cons c (x ∷ s) = elim (Bool-cases (x == c)) [
  | inl e ↦ ([], (split c s, rw e refl))
  | inr e ↦ let (p, (ps, k)) = split-cons c s in (x ∷ p, (ps, rw (e, k) refl))
]

-- The first part ends at the end of the text or at a separator.
abbrev Parts : ℕ → Text → Text → List Text → Type 0
Parts c s p ps =
    (has_byte c p ≡ false)
    × (((s ≡ p) × (ps ≡ [])) ⊎ ((r : Text) × ((s ≡ p ++ (c ∷ r)) × (split c r ≡ ps))))

onto-Parts :
    (c x : ℕ) (s p : Text) (ps : List Text)
    → (x == c) ≡ false
    → Parts c s p ps
    → Parts c (x ∷ s) (x ∷ p) ps
onto-Parts c x s p ps e (n, inl (h, k)) = (ground arith, inl (ap (λ t. x ∷ t) h, k))
onto-Parts c x s p ps e (n, inr (r, (h, k))) = (ground arith, inr (r, (ap (λ t. x ∷ t) h, k)))

split_sound : (c : ℕ) (s p : Text) (ps : List Text) → split c s ≡ p ∷ ps → Parts c s p ps
unfolding split
split_sound c [] p ps h = ground arith
split_sound c (x ∷ s) p ps h = elim (Bool-cases (x == c)) [
  | inl e ↦
      let same : ([] ≡ p) × (split c s ≡ ps) = ground arith in
      rw (← same.0) (refl, inr (s, (ground arith, same.1)))
  | inr e ↦
      let (q, (qs, k)) = split-cons c s in
      let same : (x ∷ q ≡ p) × (qs ≡ ps) = ground arith in
      rw (← same.0, ← same.1) (onto-Parts c x s q qs e (split_sound c s q qs k))
]

-- The line of /proc/<pid>/cgroup of a process in the unit, or in a group below it.
pub record IsUnitLine (line unit : Text) : Type 0 where
  pub below : Text
  pub place : line ≡ bytes "0::/system.slice/" ++ (unit ++ below)
  pub ends : (below ≡ []) ⊎ ((r : Text) × (below ≡ b'/' ∷ r))
  pub one_part : has_byte b'/' unit ≡ false

-- What a path means that begins with these three parts.
unit_parts :
    (path unit : Text) (ps : List Text)
    → split b'/' path ≡ [] ∷ bytes "system.slice" ∷ unit ∷ ps
    → IsUnitLine (bytes "0::" ++ path) unit
unfolding bytes
unit_parts path unit ps h = first (split_sound b'/' path _ _ h).1
  where
    last :
        (r r' : Text)
        → path ≡ b'/' ∷ r
        → r ≡ bytes "system.slice" ++ (b'/' ∷ r')
        → Parts b'/' r' unit ps
        → IsUnitLine (bytes "0::" ++ path) unit
    last r r' e f (n, inl (k, _)) = record {
      below = [];
      place = rw (e, f, k) (simp append-nil);
      ends = inl refl;
      one_part = n;
    }
    last r r' e f (n, inr (below, (k, _))) = record {
      below = b'/' ∷ below;
      place = rw (e, f, k) refl;
      ends = inr (below, refl);
      one_part = n;
    }

    second :
        (r : Text)
        → path ≡ b'/' ∷ r
        → Parts b'/' r (bytes "system.slice") (unit ∷ ps)
        → IsUnitLine (bytes "0::" ++ path) unit
    second r e (n, inl (_, k)) = absurd (ground arith)
    second r e (n, inr (r', (f, k))) = last r r' e f (split_sound b'/' r' unit ps k)

    first :
        (((path ≡ []) × ((bytes "system.slice" ∷ unit ∷ ps) ≡ []))
          ⊎ ((r : Text) × ((path ≡ b'/' ∷ r) × (split b'/' r ≡ bytes "system.slice" ∷ unit ∷ ps))))
        → IsUnitLine (bytes "0::" ++ path) unit
    first (inl (_, k)) = absurd (ground arith)
    first (inr (r, (e, k))) = second r e (split_sound b'/' r _ _ k)

-- A unit that `slice_unit` accepts is configured, and the path lies in it.
slice_unit_sound :
    (units path : List Text) (unit : Text)
    → slice_unit units path ≡ some unit
    → (contains_text units unit ≡ true)
      × ((ps : List Text) × (path ≡ [] ∷ bytes "system.slice" ∷ unit ∷ ps))
unfolding slice_unit
slice_unit_sound units [] unit h = absurd (ground arith)
slice_unit_sound units (a ∷ []) unit h = absurd (ground arith)
slice_unit_sound units (a ∷ b ∷ []) unit h = absurd (ground arith)
slice_unit_sound units (a ∷ b ∷ c ∷ path) unit h =
    let facts : (contains_text units c ≡ true)
        × (c ≡ unit)
        × (text_eq a [] ≡ true)
        × (text_eq b (bytes "system.slice") ≡ true) =
      ground arith in
    let root : a ≡ [] = (text_eq_iff a []).0 facts.2 in
    let slice : b ≡ bytes "system.slice" = (text_eq_iff b _).0 facts.3 in
    rw (← facts.1) (facts.0, (path, rw (root, slice) refl))

-- A line that names a configured unit.
pub record IsUnitOf (units : List Text) (line unit : Text) : Type 0 where
  pub configured : contains_text units unit ≡ true
  pub place : IsUnitLine line unit

placed :
    (line hierarchy fields controllers path unit : Text)
    → hierarchy ≡ bytes "0"
    → controllers ≡ []
    → line ≡ hierarchy ++ (b':' ∷ fields)
    → fields ≡ controllers ++ (b':' ∷ path)
    → IsUnitLine (bytes "0::" ++ path) unit
    → IsUnitLine line unit
unfolding bytes
placed line hierarchy fields controllers path unit a b l f u =
    let joined : hierarchy ++ (b':' ∷ fields) ≡ bytes "0::" ++ path = rw (a, f, b) refl in
    record { below = u.below; place = l ∙ joined ∙ u.place; ends = u.ends; one_part = u.one_part }

line_unit_sound :
    (units : List Text) (line unit : Text)
    → line_unit units line ≡ ok (some unit)
    → IsUnitOf units line unit
unfolding line_unit
line_unit_sound units line unit h = elim (Option-cases (split_once b':' line)) [
  | inl e ↦ absurd (ground arith)
  | inr ((hierarchy, fields), e) ↦ elim (Option-cases (split_once b':' fields)) [
    | inl f ↦ absurd (ground arith)
    | inr ((controllers, path), f) ↦
        let facts : (text_eq hierarchy (bytes "0") ≡ true)
            × (text_eq controllers [] ≡ true)
            × (slice_unit units (split b'/' path) ≡ some unit) =
          ground arith in
        let (configured, (ps, parts)) = slice_unit_sound units _ unit facts.2 in
        record {
          configured = configured;
          place =
              placed line hierarchy fields controllers path unit
                ((text_eq_iff hierarchy _).0 facts.0) ((text_eq_iff controllers []).0 facts.1)
                (split_once_sound b':' line e).0 (split_once_sound b':' fields f).0
                (unit_parts path unit ps parts);
        }
  ]
]

-- One of the lines names the unit, which is configured.
pub record IsAmong (units ls : List Text) (unit : Text) : Type 0 where
  pub line : Text
  pub before : List Text
  pub after : List Text
  pub among : ls ≡ before ++ (line ∷ after)
  pub named : IsUnitOf units line unit

later : (units ls : List Text) (l unit : Text) → IsAmong units ls unit → IsAmong units (l ∷ ls) unit
later units ls l unit h = record {
  line = h.line;
  before = l ∷ h.before;
  after = h.after;
  among = ap (λ t. l ∷ t) h.among;
  named = h.named;
}

-- What the scan returns it was given, or found.
scan_sound :
    (units : List Text) (found : Option Text) (ls : List Text) (unit : Text)
    → scan_cgroup units found ls ≡ ok (some unit)
    → (found ≡ some unit) ⊎ IsAmong units ls unit
unfolding scan_cgroup
scan_sound units found [] unit h = inl (ground arith)
scan_sound units found (l ∷ ls) unit h = elim (Result-cases (line_unit units l)) [
  | inr (e, f) ↦ absurd (ground arith)
  | inl (none, f) ↦ elim (scan_sound units found ls unit (ground arith)) [
    | inl e ↦ inl e
    | inr k ↦ inr (later units ls l unit k)
  ]
  | inl (some v, f) ↦ elim (Option-cases found) [
    | inr (x, g) ↦ absurd (ground arith)
    | inl g ↦ elim (scan_sound units (some v) ls unit (ground arith)) [
      | inl e ↦ inr (record {
        line = l;
        before = [];
        after = ls;
        among = refl;
        named = line_unit_sound units l unit (f ∙ ap ok e);
      })
      | inr k ↦ inr (later units ls l unit k)
    ]
  ]
]

pub cgroup_instance_sound :
    (cgroup : Text) (units : List Text) (unit : Text)
    → cgroup_instance cgroup units ≡ ok unit
    → IsAmong units (lines cgroup) unit
unfolding cgroup_instance
cgroup_instance_sound cgroup units unit h =
    elim (Result-cases (scan_cgroup units none (lines cgroup))) [
      | inr (e, f) ↦ absurd (ground arith)
      | inl (none, f) ↦ absurd (ground arith)
      | inl (some u, f) ↦ elim (scan_sound units none (lines cgroup) unit (ground arith)) [
        | inl e ↦ absurd (ground arith)
        | inr k ↦ k
      ]
    ]
