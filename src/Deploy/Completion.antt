-- ===== src/Deploy/Completion.antt =====
-- Where the exit code comes from that `stream` of src/commands/deploy/sudo.rs returns.
use sower.Prelude.{
  ℕ, zero, suc, ◌≡◌, refl, subst, arith, Bool, true, false, List, [], ◌∷◌, ◌++◌, Option, none, some,
  ℤ, Result, ok, err, Text, append_assoc, split_once,
}
use sower.Protocol.{Response}
use sower.Deploy.Decoder.{
  Decoder, new, Terminal, Decoded, in_frame_turn, outside_turn, scan_turn, unless_empty, scan, push,
  exit_code, finish_if, finish, then_read, Read, got, interrupted, failed, stream_from, stream,
  find_prefix,
}
use sower.Deploy.Frames.{IsAt, IsAt-append, open-IsFramed, closed-IsAt, opened-IsAt, retained-IsAt}
use sower.Deploy.Accept.{
  Holds, shown-Holds, then_scan-Holds, IsCompletion, Origin, unknown, reported, IsOwn, IsOwn-append,
  accept_parsed-IsOwn, moved,
}

-- The bytes that `stream` reads: up to the end or the first failure.
abbrev pub received : List Read → Text
received [] = []
received (interrupted ∷ reads) = received reads
received (failed e ∷ reads) = []
received (got [] ∷ reads) = []
received (got (b ∷ bs) ∷ reads) = (b ∷ bs) ++ received reads

module _ (parse_response : Text → Result Response) (id : Text) where
  module _ (seen : Text) where
    -- The decoder is this request's, and stands where it should.
    abbrev Stands : Decoder → Type 0
    Stands d = IsOwn parse_response id seen d × IsAt seen d.pending d.in_frame

    abbrev Keeps : (Decoder → Terminal → Decoded) → Type 0
    Keeps next = (d : Decoder) (t : Terminal) → Stands d → Holds Stands (next d t)

    in_frame_turn-Keeps :
        (next : Decoder → Terminal → Decoded)
        → Keeps next
        → (d : Decoder) (t : Terminal) (found : Option (Text × Text)) → Stands d
        → IsAt seen d.pending true
        → split_once 10 d.pending ≡ found
        → Holds Stands (in_frame_turn parse_response found next d t)
    in_frame_turn-Keeps next k d t none h at e = h
    in_frame_turn-Keeps next k d t (some (line, behind)) h at e =
        then_scan-Holds (IsOwn parse_response id seen) Stands _ _
          (accept_parsed-IsOwn parse_response id seen line _ d t h.0
            (open-IsFramed seen d.pending line behind at e) refl)
          (λ d' t' h'. k _ t' (
            moved parse_response id seen d' behind false h',
            closed-IsAt seen d.pending line behind at e,
          ))

    outside_turn-Keeps :
        (next : Decoder → Terminal → Decoded)
        → Keeps next
        → (d : Decoder) (t : Terminal) (found : Option (Text × Text))
        → IsOwn parse_response id seen d
        → d.in_frame ≡ false
        → IsAt seen d.pending false
        → find_prefix d.pending ≡ found
        → Holds Stands (outside_turn parse_response found next d t)
    outside_turn-Keeps next k d t (some (before, behind)) h b at e =
        then_scan-Holds (IsOwn parse_response id seen) Stands _ _
          (shown-Holds (IsOwn parse_response id seen) d _ h)
          (λ d' t' h'. k _ t' (
            moved parse_response id seen d' behind true h',
            opened-IsAt seen d.pending before behind at e,
          ))
    outside_turn-Keeps next k d t none h b at e =
        shown-Holds Stands _ _
          (moved parse_response id seen d _ d.in_frame h, rw b (retained-IsAt seen d.pending at))

    scan_turn-Keeps :
        (next : Decoder → Terminal → Decoded)
        → Keeps next
        → (d : Decoder) (t : Terminal) (in_frame : Bool) → IsOwn parse_response id seen d
        → d.in_frame ≡ in_frame
        → IsAt seen d.pending in_frame
        → Holds Stands (scan_turn parse_response in_frame next d t)
    unfolding scan_turn
    scan_turn-Keeps next k d t true h b at = in_frame_turn-Keeps next k d t _ (h, rw b at) at refl
    scan_turn-Keeps next k d t false h b at = outside_turn-Keeps next k d t _ h b at refl

    unless_empty-Stands :
        (s : Text) (next : Decoder → Terminal → Decoded) (d : Decoder) (t : Terminal)
        → Stands d
        → Holds Stands (next d t)
        → Holds Stands (unless_empty parse_response s next d t)
    unless_empty-Stands [] next d t h k = h
    unless_empty-Stands (c ∷ s) next d t h k = k

    scan-Keeps : (fuel : ℕ) → Keeps (scan parse_response fuel)
    unfolding scan
    scan-Keeps zero d t h = h
    scan-Keeps (suc fuel) d t h =
        unless_empty-Stands d.pending _ d t h
          (scan_turn-Keeps _ (scan-Keeps fuel) d t d.in_frame h.0 refl h.1)

    -- What is known of an exit code that is returned.
    abbrev Returns : Result ℤ × Terminal → Type 0
    Returns (ok code, t) =
        (line : Text) × ((response : Response) × IsCompletion parse_response id seen code line
            response)
    Returns (err e, t) = Unit

    code-Returns :
        (completion : Option ℤ) (r : Result (Unit {0}) × Terminal)
        → Origin parse_response id seen completion
        → Returns (exit_code parse_response completion r)
    code-Returns _ (err e, t') o = tt
    code-Returns _ (ok u, t') unknown = tt
    code-Returns _ (ok u, t') (reported code line response c) = (line, (response, c))

    finish-Returns :
        (d : Decoder) (t : Terminal)
        → IsOwn parse_response id seen d
        → Returns (finish parse_response d t)
    unfolding finish
    finish-Returns d t h = go d.in_frame
      where
        go : (b : Bool) → Returns (finish_if parse_response b d t)
        go true = tt
        go false = code-Returns d.completion _ h.origin

    returned :
        (r : Result ℤ × Terminal) (code : ℤ)
        → Returns r
        → r.0 ≡ ok code
        → (line : Text) × ((response : Response) × IsCompletion parse_response id seen code line
              response)
    returned (ok c, t) code h e =
        let same : c ≡ code = ground arith in
        subst
          (λ x.
            (line : Text) × ((response : Response) × IsCompletion parse_response id seen x line
                response))
          same h
    returned (err x, t) code h e = absurd (ground arith)

  push-Stands :
      (seen bs : Text) (d : Decoder) (t : Terminal)
      → Stands seen d
      → Holds (Stands (seen ++ bs)) (push parse_response d bs t)
  unfolding push
  push-Stands seen bs d t h =
      let total = seen ++ bs in
      let full = record d { pending = d.pending ++ bs } in
      then_scan-Holds (Stands total) (Stands total) _ _
        (scan-Keeps total _ full t (
          moved parse_response id total d (d.pending ++ bs) d.in_frame
              (IsOwn-append parse_response id seen bs d h.0),
          IsAt-append seen d.pending bs d.in_frame h.1,
        ))
        (λ d' t' h'. shown-Holds (Stands total) d' _ h')

  read_on :
      (total seen : Text) (r : Decoded) (next : Decoder → Terminal → Result ℤ × Terminal)
      → Holds (Stands seen) r
      → ((d : Decoder) (t : Terminal) → Stands seen d → Returns total (next d t))
      → Returns total (then_read parse_response r next)
  read_on total seen (ok d, t) next h k = k d t h
  read_on total seen (err e, t) next h k = tt

  stream_from-Returns :
      (reads : List Read) (seen : Text) (d : Decoder) (t : Terminal)
      → Stands seen d
      → Returns (seen ++ received reads) (stream_from parse_response reads d t)
  unfolding stream_from
  stream_from-Returns [] seen d t h =
      finish-Returns _ d t (IsOwn-append parse_response id seen [] d h.0)
  stream_from-Returns (interrupted ∷ reads) seen d t h = stream_from-Returns reads seen d t h
  stream_from-Returns (failed e ∷ reads) seen d t h = tt
  stream_from-Returns (got [] ∷ reads) seen d t h =
      finish-Returns _ d t (IsOwn-append parse_response id seen [] d h.0)
  stream_from-Returns (got (b ∷ bs) ∷ reads) seen d t h =
      let total = seen ++ ((b ∷ bs) ++ received reads) in
      read_on total (seen ++ (b ∷ bs)) _ _ (push-Stands seen (b ∷ bs) d t h) (λ d' t' h'.
        subst (λ x. Returns x (stream_from parse_response reads d' t'))
          (append_assoc seen (b ∷ bs) (received reads))
          (stream_from-Returns reads (seen ++ (b ∷ bs)) d' t' h'))

  -- An exit code that `stream` returns was reported by a completion that bears the id of the request: it is what a line parses to that stands among the bytes read from ssh right behind the frame marker, with a line feed behind it and none in it.
  pub stream_lem :
      (reads : List Read) (t : Terminal) (code : ℤ)
      → (stream parse_response reads id t).0 ≡ ok code
      → (line : Text) × ((response : Response) × IsCompletion parse_response id
            (received reads)
            code
            line
            response)
  unfolding stream
  stream_lem reads t code h =
      let start : Stands [] (new id) = (
        record { same_id = refl; origin = unknown },
        record { before = []; cut = refl; opened = λ c. absurd (ground arith) },
      ) in
      returned (received reads) _ code (stream_from-Returns reads [] (new id) t start) h
