-- ===== src/Gateway.antt =====
-- The parts of internal/gateway/server.go that every request passes: `authn`, `requireUser` and
-- `withIdempotency`. JSON, the hash of a request and the normal form of a jsonb value are parameters.
pub mod Replay
pub mod User
mod Examples
use backend_go.Prelude.{
  ℕ, suc, ◌+◌, Bool, true, false, not, ◌&&◌, ◌||◌, Option, none, some, List, [], ◌∷◌, ◌++◌, Text,
  codes, text_eq, trim_space, find, any, if◌then◌else◌, Result, ok, err, ◌>>=◌, ◌>>◌, require,
  of_option, on_ok,
}
use backend_go.Ids
use backend_go.Payment.Link.{is_blank}
use backend_go.Database.{Session, pool_exec, pool_query}
use backend_go.Auth.{Accounts, AuthSetup, AuthError, Principal, Credential, validate_credential}

-- requester; `is_user` is the principal's
pub record Requester : Type 0 where
  pub merchant : Text
  pub user : Option Text
  pub role : Text
  pub api_key : Option Text
  pub is_user : Bool

pub data AuthnError : Type 0 where
  missing_credentials invalid_merchant : AuthnError
  refused : AuthError → AuthnError

pub data UserError : Type 0 where
  user_token_required : UserError

-- an id that may be absent, dropped where it is not well formed
abbrev pub parsed_id : (ℕ → Text) → Option ℕ → Option Text
parsed_id id_text none = none
parsed_id id_text (some n) = if is_blank (id_text n) then none else Ids.parse (id_text n)

abbrev pub is_some : {A : Type 0} → Option A → Bool
is_some none = false
is_some (some a) = true

module _ (c : AuthSetup) where
  unfoldable pub requester_of : Principal → Result AuthnError Requester
  requester_of p = do
    merchant ← of_option invalid_merchant (Ids.parse (c.id_text p.merchant))
    ok (record {
      merchant = merchant;
      user = parsed_id c.id_text p.user;
      role = p.role;
      api_key = parsed_id c.id_text p.api_key;
      is_user = is_some p.user;
    })

  abbrev pub with_refused : Result AuthError Principal → Result AuthnError Principal
  with_refused (ok p) = ok p
  with_refused (err e) = err (refused e)

  -- the call of the auth service
  unfoldable pub authn :
      Text → Text → Session Accounts → Result AuthnError Requester × Session Accounts
  unfolding requester_of
  authn authorization api_key s =
      let r : Credential = record {
        authorization = trim_space authorization;
        api_key = trim_space api_key;
      } in
      on_ok (require (not (is_blank authorization && is_blank api_key)) missing_credentials) s (λ u.
        let (answer, s1) = validate_credential c r s in
        on_ok (with_refused answer) s1 (λ p. (requester_of p, s1)))

unfoldable pub require_user : Requester → Result UserError Requester
require_user r = if not r.is_user || not (is_some r.user) then err user_token_required else ok r

-- a row of platform.idempotency_keys, UNIQUE (merchant_id, endpoint, idempotency_key)
pub record IdempotencyKey : Type 0 where
  pub merchant : Text
  pub endpoint : Text
  pub key : Text
  pub request_hash : Text
  pub status : ℕ
  pub body : Text
  pub expires_at : ℕ

-- what is written to the client: a payload, stored bytes, an error of a call, or one of the gateway
pub data Response (P E : Type 0) : Type 0 where
  json : ℕ → P → Response P E
  stored : ℕ → Text → Response P E
  rpc_error : E → Response P E
  lookup_failed not_serialized : Response P E

-- the gateway's table, and the state `W` that the handlers change
pub record GatewayWorld (W : Type 0) : Type 0 where
  pub session : Session (List IdempotencyKey)
  pub outer : W

pub record GatewaySetup (P : Type 0) : Type 0 where
  pub marshal : P → Option Text
  pub jsonb : Text → Text
  pub request_hash : Text
  pub now : ℕ

abbrev pub is_key : Text → Text → Text → IdempotencyKey → Bool
is_key merchant endpoint key row =
    text_eq row.merchant merchant && (text_eq row.endpoint endpoint && text_eq row.key key)

-- INSERT … ON CONFLICT (merchant_id, endpoint, idempotency_key) DO NOTHING
abbrev pub insert_key : IdempotencyKey → List IdempotencyKey → List IdempotencyKey
insert_key row rows =
    if any (is_key row.merchant row.endpoint row.key) rows then rows else rows ++ row ∷ []

module _ {P : Type 0} (c : GatewaySetup P) where
  abbrev pub row_of : Text → Text → Text → ℕ → Text → IdempotencyKey
  row_of merchant endpoint key status body = record {
    merchant = merchant;
    endpoint = endpoint;
    key = key;
    request_hash = c.request_hash;
    status = status;
    body = c.jsonb body;
    expires_at = c.now + 86_400;
  }

module _ {P E : Type 0} (c : GatewaySetup P) where
  -- what fn has answered, without a key
  abbrev pub write_answer : Result E (ℕ × P) → Response P E
  write_answer (err e) = rpc_error e
  write_answer (ok (status, payload)) = json status payload

  abbrev pub save_body :
      Option Text
      → Text
      → Text
      → Text
      → ℕ
      → P
      → Session (List IdempotencyKey)
      → Response P E × Session (List IdempotencyKey)
  save_body none merchant endpoint key status payload s = (not_serialized, s)
  save_body (some body) merchant endpoint key status payload s = (
    json status payload,
    (pool_exec (insert_key (row_of c merchant endpoint key status body)) s).1,
  )

  abbrev pub save_answer :
      Result E (ℕ × P)
      → Text
      → Text
      → Text
      → Session (List IdempotencyKey)
      → Response P E × Session (List IdempotencyKey)
  save_answer (err e) merchant endpoint key s = (rpc_error e, s)
  save_answer (ok (status, payload)) merchant endpoint key s =
      save_body (c.marshal payload) merchant endpoint key status payload s

module _ {P E W : Type 0} (c : GatewaySetup P) where
  -- the request was not seen: the handler runs
  abbrev pub run_and_save :
      Text
      → Text
      → Text
      → (W → Result E (ℕ × P) × W)
      → GatewayWorld W
      → Response P E × GatewayWorld W
  run_and_save merchant endpoint key fn w =
      let (answer, outer) = fn w.outer in
      let (response, s) = save_answer c answer merchant endpoint key w.session in
      (response, record { session = s; outer = outer })

  abbrev pub replay_or_run :
      Option IdempotencyKey
      → Text
      → Text
      → Text
      → (W → Result E (ℕ × P) × W)
      → GatewayWorld W
      → Response P E × GatewayWorld W
  replay_or_run (some row) merchant endpoint key fn w = (stored row.status row.body, w)
  replay_or_run none merchant endpoint key fn w = run_and_save merchant endpoint key fn w

  unfoldable pub with_idempotency :
      Text
      → Text
      → Text
      → (W → Result E (ℕ × P) × W)
      → GatewayWorld W
      → Response P E × GatewayWorld W
  with_idempotency merchant endpoint key fn w =
      let (found, s) = pool_query w.session in
      let w' = record w { session = s } in
      let (answer, outer) = fn w.outer in
      if text_eq key []
      then (write_answer c answer, record w { outer = outer })
      else if not found
      then (lookup_failed, w')
      else replay_or_run (find (is_key merchant endpoint key) s.db) merchant endpoint key fn w'
