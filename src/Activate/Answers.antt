-- ===== src/Activate/Answers.antt =====
-- What the activator sends to a client: src/commands/activator/handler.rs.
use sower.Prelude.{
  ◌∙◌, display, display_chain, ◌≡◌, refl, Bool, true, false, not, ◌&&◌, List, [], ◌∷◌, ◌++◌, Option,
  none, some, map, all, ℤ, pos, Text, bytes, text_eq, text_eq_refl, starts_with, Result, ok, err,
  ◌⊎◌, inl, inr, Result-cases, Bool-cases, arith, All, append_assoc,
}
use sower.Policy.{PolicyFile}
use sower.Protocol.{
  Request, SeedRef, Response, ResponseType, output_response, error_response, complete_response,
}
use sower.Network.Os.{Env}
use sower.Network.Operations.{Output}
use sower.Activate.Platform.{Platform}
use sower.Activate.Run.{req_reboot, req_services}
use sower.Activate.Handler.{
  Machine, answer, finish, NetworkContext, validate, validate_seeds, validate_store_path,
  has_parent_part, send, line_response, read_request, network_result, handle_network,
  handle_activation, handle_request, run_with_network, is_unauthorized,
}

-- A path that lies in the store for every reading of its components.
pub record IsStorePath (path : Text) : Type 0 where
  pub in_store : starts_with path (bytes "/nix/store/") ≡ true
  pub no_parent : has_parent_part path ≡ false

store_path : (path : Text) → validate_store_path path ≡ ok tt → IsStorePath path
unfolding validate_store_path
store_path path h = record { in_store = ground arith; no_parent = ground arith }

seeds_paths :
    (seeds : List SeedRef)
    → validate_seeds seeds ≡ ok tt
    → All (λ seed. IsStorePath seed.path) seeds
unfolding validate_seeds
seeds_paths [] h = tt
seeds_paths (seed ∷ seeds) h = elim (Result-cases (validate_store_path seed.path)) [
  | inl (u, e) ↦ (store_path seed.path e, seeds_paths seeds (ground arith))
  | inr (e, f) ↦ absurd (ground arith)
]

-- A request that passes validation is a reboot, or it is for services and the path of each of its seeds lies in the store and has no component `..`, or it is of another kind and its own path does and has none.
pub validate-IsStorePath :
    (req : Request)
    → validate req ≡ ok tt
    → text_eq req.kind req_reboot ≡ false
    → ((text_eq req.kind req_services ≡ true) × All (λ seed. IsStorePath seed.path) req.seeds)
      ⊎ ((text_eq req.kind req_services ≡ false) × IsStorePath req.path)
unfolding validate
validate-IsStorePath req h reboot = elim (Bool-cases (text_eq req.kind req_services)) [
  | inl t ↦ inl (t, seeds_paths req.seeds (ground arith))
  | inr t ↦ elim (Result-cases (validate_store_path req.path)) [
    | inl (u, e) ↦ inr (t, store_path req.path e)
    | inr (e, f) ↦ absurd (ground arith)
  ]
]

abbrev is_complete : ResponseType → Bool
is_complete ResponseType.complete = true
is_complete _ = false

abbrev is_error : ResponseType → Bool
is_error ResponseType.error = true
is_error _ = false

-- A response under way: one of the request, and not its last.
abbrev is_line : Text → Response → Bool
is_line id r = text_eq r.id id && not (is_complete r.kind)

-- The request was answered: with lines, and then with one exit code.
pub record IsAnswered (id : Text) (before : List Response) (after : List Response) : Type 0 where
  pub lines : List Response
  pub code : ℤ
  pub all_lines : all (is_line id) lines ≡ true
  pub answers : after ≡ before ++ (lines ++ (complete_response id code ∷ []))

-- The request was refused: with one error, and nothing was done.
pub record IsRefused (before : Machine) (after : Machine) : Type 0 where
  pub response : Response
  pub an_error : is_error response.kind ≡ true
  pub answers : after.responses ≡ before.responses ++ (response ∷ [])
  pub world : after.world ≡ before.world
  pub activation : after.activation ≡ before.activation

lines_of :
    (id : Text) (lines : List (Text × Bool))
    → all (is_line id) (map (line_response id) lines) ≡ true
lines_of id [] = refl
lines_of id ((line, true) ∷ lines) = rw (text_eq_refl id) (lines_of id lines)
lines_of id ((line, false) ∷ lines) = rw (text_eq_refl id) (lines_of id lines)

lines_then :
    (id : Text) (xs : List Response) (r : Response)
    → all (is_line id) xs ≡ true
    → is_line id r ≡ true
    → all (is_line id) (xs ++ (r ∷ [])) ≡ true
lines_then id [] r h k = ground arith
lines_then id (x ∷ xs) r h k = ground (arith, lines_then id xs r)

refuses : (m : Machine) (id text : Text) → IsRefused m (send (error_response id text) m)
unfolding send
refuses m id text = record {
  response = error_response id text;
  an_error = refl;
  answers = refl;
  world = refl;
  activation = refl;
}

module _ (env : Env) (platform : Platform) (print : Output → Text) (root : Bool)
    (content : Result PolicyFile) where
  network_keeps :
      (req : Request) (network : Option NetworkContext) (m : Machine)
      → (network_result env platform print root content req network m).1.responses ≡ m.responses
  unfolding network_result
  network_keeps req none m = ground arith
  network_keeps req (some ctx) m = ground arith

  answer-IsAnswered :
      (id : Text) (r : Result (Option Output)) (m : Machine) {before : List Response}
      → m.responses ≡ before
      → IsAnswered id before (answer env platform print root content id r m).responses
  unfolding send
  answer-IsAnswered id (ok none) m h = record {
    lines = [];
    code = pos 0;
    all_lines = refl;
    answers = rw h refl;
  }
  answer-IsAnswered id (ok (some output)) m h = record {
    lines = output_response id (print output) ∷ [];
    code = pos 0;
    all_lines = rw (text_eq_refl id) refl;
    answers = rw h (simp append_assoc);
  }
  answer-IsAnswered id (err e) m h = record {
    lines = error_response id (display_chain e) ∷ [];
    code = pos 1;
    all_lines = rw (text_eq_refl id) refl;
    answers = rw h (simp append_assoc);
  }

  network-IsAnswered :
      (req : Request) (network : Option NetworkContext) (m : Machine)
      → IsAnswered req.id m.responses
          (handle_network env platform print root content req network m).responses
  unfolding handle_network
  network-IsAnswered req network m = answer-IsAnswered req.id _ _ (network_keeps req network m)

  finish-IsAnswered :
      (id : Text) (r : Result ℤ) (m : Machine) (before lines : List Response)
      → all (is_line id) lines ≡ true
      → m.responses ≡ before ++ lines
      → IsAnswered id before (finish env platform print root content id r m).responses
  unfolding send
  finish-IsAnswered id (ok code) m before lines a h = record {
    lines = lines;
    code = code;
    all_lines = a;
    answers = rw h (append_assoc before lines _);
  }
  finish-IsAnswered id (err e) m before lines a h = record {
    lines = lines ++ (error_response id (display e) ∷ []);
    code = pos 1;
    all_lines = lines_then id lines _ a (rw (text_eq_refl id) refl);
    answers = rw h (simp append_assoc);
  }

  activation-IsAnswered :
      (req : Request) (m : Machine)
      → IsAnswered req.id m.responses
          (handle_activation env platform print root content req m).responses
  unfolding handle_activation
  activation-IsAnswered req m = finish-IsAnswered req.id _ _ m.responses _ (lines_of req.id _) refl

  request-IsAnswered :
      (req : Request) (network : Option NetworkContext) (m : Machine)
      → IsRefused m (handle_request env platform print root content req network m)
        ⊎ IsAnswered req.id m.responses
            (handle_request env platform print root content req network m).responses
  unfolding handle_request
  request-IsAnswered req network m = elim (Bool-cases (text_eq req.kind (bytes "network"))) [
    | inl t ↦ inr (rw t (network-IsAnswered req network m))
    | inr t ↦ elim (Bool-cases (is_unauthorized env platform print root content network)) [
      | inl u ↦ inl (rw (t, u) (refuses m [] (bytes "unauthorized")))
      | inr u ↦ elim (Result-cases (validate req)) [
        | inl (_, v) ↦ inr (rw (t, u, v) (activation-IsAnswered req m))
        | inr (e, v) ↦ inl (rw (t, u, v) (refuses m req.id (display e)))
      ]
    ]
  ]

  -- Every connection ends in one of two ways: the request is refused with a single error and nothing is done; or it was a request that could be read, and its answer is lines with its id, none of them an exit code, and then one exit code.
  pub answers_once :
      (parse : Text → Result Request) (line : Result Text) (network : Option NetworkContext)
      (m : Machine)
      → IsRefused m (run_with_network env platform print root content parse line network m)
        ⊎ ((req : Request) × (read_request parse line ≡ ok req)
            × IsAnswered req.id m.responses
                (run_with_network env platform print root content parse line network m).responses)
  unfolding run_with_network
  answers_once parse line network m = elim (Result-cases (read_request parse line)) [
    | inr (e, h) ↦ inl (rw (h, run_with_network) (refuses m [] (display e)))
    | inl (req, h) ↦ elim (request-IsAnswered req network m) [
      | inl r ↦ inl (rw (h, run_with_network) r)
      | inr r ↦ inr (req, h, rw (h, run_with_network) r)
    ]
  ]

  answer-activation :
      (id : Text) (r : Result (Option Output)) (m : Machine)
      → (answer env platform print root content id r m).activation ≡ m.activation
  unfolding send
  answer-activation id (ok none) m = refl
  answer-activation id (ok (some output)) m = refl
  answer-activation id (err e) m = refl

  network-activation :
      (req : Request) (network : Option NetworkContext) (m : Machine)
      → (handle_network env platform print root content req network m).activation ≡ m.activation
  unfolding handle_network network_result
  network-activation req none m = answer-activation req.id _ _ ∙ ground arith
  network-activation req (some ctx) m = answer-activation req.id _ _ ∙ ground arith

  -- A connection of a client that may not activate, whatever its first line is, is refused with a single error and no effect, or is a network request and leaves the state of activation as it was.
  pub unauthorized-activation :
      (parse : Text → Result Request) (line : Result Text) (ctx : NetworkContext) (m : Machine)
      → ctx.activation_authorized ≡ false
      → let after = run_with_network env platform print root content parse line (some ctx) m in
        IsRefused m after
        ⊎ ((req : Request) × (read_request parse line ≡ ok req)
            × (text_eq req.kind (bytes "network") ≡ true)
            × (after.activation ≡ m.activation))
  unfolding run_with_network handle_request
  unauthorized-activation parse line ctx m a = elim (Result-cases (read_request parse line)) [
    | inr (e, h) ↦ inl (rw (h, run_with_network) (refuses m [] (display e)))
    | inl (req, h) ↦ elim (Bool-cases (text_eq req.kind (bytes "network"))) [
      | inl t ↦ inr (req, h, t, rw (h, run_with_network, t) (network-activation req (some ctx) m))
      | inr t ↦ inl (rw (h, run_with_network, t, a) (refuses m [] (bytes "unauthorized")))
    ]
  ]
