-- ===== src/Deploy/Accept.antt =====
-- One response of a frame, as `Decoder::accept` of src/commands/deploy/sudo.rs takes it.
use sower.Prelude.{
  ◌≡◌, ◌∙◌, refl, Bool, true, false, ◌++◌, Option, none, some, ℤ, Result, ok, err, Text, text_eq,
  text_eq_iff,
}
use sower.Protocol.{Response, ResponseType}
use sower.Deploy.Decoder.{
  Decoder, Terminal, Decoded, shown, completed, obey, accept_own, accept, then_scan, accept_parsed,
}
use sower.Deploy.Frames.{IsFramed, IsFramed-append}

-- What holds of the decoder, if there is no error.
abbrev pub Holds : (Decoder → Type 0) → Decoded → Type 0
Holds P (ok d, t) = P d
Holds P (err e, t) = Unit

pub shown-Holds :
    (P : Decoder → Type 0) (d : Decoder) (r : Result (Unit {0}) × Terminal)
    → P d
    → Holds P (shown d r)
shown-Holds P d (ok u, t) h = h
shown-Holds P d (err e, t) h = tt

pub then_scan-Holds :
    (P Q : Decoder → Type 0) (r : Decoded) (next : Decoder → Terminal → Decoded)
    → Holds P r
    → ((d : Decoder) (t : Terminal) → P d → Holds Q (next d t))
    → Holds Q (then_scan r next)
then_scan-Holds P Q (ok d, t) next h k = k d t h
then_scan-Holds P Q (err e, t) next h k = tt

module _ (parse_response : Text → Result Response) (id : Text) where
  -- A line that arrived in a frame is a response that reports the completion of this request.
  pub record IsCompletion (seen : Text) (code : ℤ) (line : Text) (response : Response)
      : Type 0 where
    pub framed : IsFramed seen line
    pub parsed : parse_response line ≡ ok response
    pub own : response.id ≡ id
    pub is_complete : response.kind ≡ ResponseType.complete
    pub has_code : response.exit_code ≡ some code

  pub data Origin (seen : Text) : Option ℤ → Type 0 where
    unknown : Origin seen none
    reported :
        (code : ℤ) (line : Text) (response : Response)
        → IsCompletion seen code line response
        → Origin seen (some code)

  pub record IsOwn (seen : Text) (d : Decoder) : Type 0 where
    pub same_id : d.id ≡ id
    pub origin : Origin seen d.completion

  Origin-append : (seen bs : Text) (c : Option ℤ) → Origin seen c → Origin (seen ++ bs) c
  Origin-append seen bs _ unknown = unknown
  Origin-append seen bs _ (reported code line response c) = reported code line response (record {
    framed = IsFramed-append seen line bs c.framed;
    parsed = c.parsed;
    own = c.own;
    is_complete = c.is_complete;
    has_code = c.has_code;
  })

  pub IsOwn-append : (seen bs : Text) (d : Decoder) → IsOwn seen d → IsOwn (seen ++ bs) d
  IsOwn-append seen bs d h = record {
    same_id = h.same_id;
    origin = Origin-append seen bs d.completion h.origin;
  }

  module _ (seen : Text) where
    completed-IsOwn :
        (d : Decoder) (code : Option ℤ) (t : Terminal) (line : Text) (response : Response)
        → IsOwn seen d
        → IsFramed seen line
        → parse_response line ≡ ok response
        → response.id ≡ id
        → response.kind ≡ ResponseType.complete
        → response.exit_code ≡ code
        → Holds (IsOwn seen) (completed d code t)
    completed-IsOwn d none t line response h f p o k c = tt
    completed-IsOwn d (some code) t line response h f p o k c = record {
      same_id = h.same_id;
      origin =
          reported code line response
            (record { framed = f; parsed = p; own = o; is_complete = k; has_code = c });
    }

    obey-IsOwn :
        (d : Decoder) (kind : ResponseType) (response : Response) (t : Terminal) (line : Text)
        → IsOwn seen d
        → IsFramed seen line
        → parse_response line ≡ ok response
        → response.id ≡ id
        → response.kind ≡ kind
        → Holds (IsOwn seen) (obey d kind response t)
    obey-IsOwn d ResponseType.complete response t line h f p o k =
        completed-IsOwn d response.exit_code t line response h f p o k refl
    obey-IsOwn d ResponseType.output response t line h f p o k = shown-Holds (IsOwn seen) d _ h
    obey-IsOwn d ResponseType.error response t line h f p o k = shown-Holds (IsOwn seen) d _ h

    accept_own-IsOwn :
        (own : Bool) (completion : Option ℤ) (d : Decoder) (response : Response) (t : Terminal)
        (line : Text)
        → IsOwn seen d
        → IsFramed seen line
        → parse_response line ≡ ok response
        → text_eq response.id d.id ≡ own
        → Holds (IsOwn seen) (accept_own own completion d response t)
    accept_own-IsOwn false completion d response t line h f p e = h
    accept_own-IsOwn true (some code) d response t line h f p e = tt
    accept_own-IsOwn true none d response t line h f p e =
        obey-IsOwn d response.kind response t line h f p
          ((text_eq_iff response.id d.id).0 e ∙ h.same_id) refl

    pub accept_parsed-IsOwn :
        (line : Text) (r : Result Response) (d : Decoder) (t : Terminal)
        → IsOwn seen d
        → IsFramed seen line
        → parse_response line ≡ r
        → Holds (IsOwn seen) (accept_parsed parse_response r d t)
    unfolding accept
    accept_parsed-IsOwn line (err e) d t h f p = tt
    accept_parsed-IsOwn line (ok response) d t h f p =
        accept_own-IsOwn _ d.completion d response t line h f p refl

    pub moved :
        (d : Decoder) (pending : Text) (in_frame : Bool)
        → IsOwn seen d
        → IsOwn seen (record d { pending = pending; in_frame = in_frame })
    moved d pending in_frame h = record { same_id = h.same_id; origin = h.origin }
