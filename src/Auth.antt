-- ===== src/Auth.antt =====
-- internal/services/authsvc/service.go, with the tokens of internal/shared/auth/jwt.go. bcrypt, the
-- JWT library, the random source, the hash of a token and go-ethereum's addresses are parameters;
-- `row_id` numbers the rows by their canonical id, and `id_text` is that id.
pub mod Revoked
pub mod Later
pub mod Login
mod Examples
use backend_go.Prelude.{
  ℕ, suc, ◌+◌, ◌-◌, Bool, true, false, not, ◌&&◌, ◌||◌, Option, none, some, List, [], ◌∷◌, ◌++◌,
  Text, codes, text_eq, trim_space, to_lower, has_prefix, drop, find, any, count, length, ◌==◌,
  if◌then◌else◌, Result, ok, err, ◌>>=◌, ◌>>◌, require, of_option, on_ok,
}
use backend_go.Ids
use backend_go.Payment.Link.{is_blank}
use backend_go.Database.{Session, pool_exec, pool_query}
use backend_go.Database.Transaction.{TxResult, transact, is_committed}
use backend_go.Store.{Queued, update_where}

pub record Merchant : Type 0 where
  pub id : ℕ
  pub name : Text
  pub settlement_address : Option Text

pub record User : Type 0 where
  pub id : ℕ
  pub merchant : ℕ
  pub email : Text
  pub password_hash : Text
  pub role : Text

pub record ApiKey : Type 0 where
  pub id : ℕ
  pub merchant : ℕ
  pub name : Text
  pub prefix : Text
  pub key_hash : Text
  pub scopes : List Text
  pub revoked_at : Option ℕ
  pub last_used_at : Option ℕ

pub record Accounts : Type 0 where
  pub merchants : List Merchant
  pub users : List User
  pub api_keys : List ApiKey
  pub outbox : List Queued

-- the claims, with the time of expiry of the registered ones
pub record Claims : Type 0 where
  pub token_type : Text
  pub user : Text
  pub merchant : Text
  pub role : Text
  pub not_before : ℕ
  pub expires_at : ℕ

-- GenerateAPIKey
pub record NewKey : Type 0 where
  pub plain : Text
  pub prefix : Text
  pub hash : Text

-- `sign` and `verify` are SignedString and ParseWithClaims for the service's secret
pub record AuthSetup : Type 0 where
  pub row_id : Text → ℕ
  pub id_text : ℕ → Text
  pub admin_email : Text
  pub admin_password : Text
  pub merchant_name : Text
  pub hash_password : Text → Option Text
  pub password_matches : Text → Text → Bool
  pub sign : Claims → Option Text
  pub verify : ℕ → Text → Option Claims
  pub access_ttl : ℕ
  pub refresh_ttl : ℕ
  pub new_key : Option NewKey
  pub hash_token : Text → Text
  pub is_hex_address : Text → Bool
  pub checksum_address : Text → Text
  pub now : ℕ

pub data AuthError : Type 0 where
  count_failed hash_failed bootstrap_failed credentials_required invalid_credentials login_failed
        access_failed refresh_failed invalid_token token_lookup_failed invalid_id name_required
        key_failed insert_failed revoke_failed not_found settings_failed bad_address
        missing_credentials invalid_api_key key_lookup_failed :
      AuthError

pub record Tokens : Type 0 where
  pub access : Text
  pub refresh : Text

pub record Principal : Type 0 where
  pub merchant : ℕ
  pub user : Option ℕ
  pub role : Text
  pub api_key : Option ℕ

-- a request of ValidateCredential
pub record Credential : Type 0 where
  pub authorization : Text
  pub api_key : Text

abbrev pub is_unset : Option ℕ → Bool
is_unset none = true
is_unset (some t) = false

abbrev pub queue_event : ℕ → ℕ → Text → Accounts → Accounts
queue_event aggregate merchant event_type t = record t {
  outbox =
      t.outbox
      ++ record { aggregate = aggregate; merchant = merchant; event_type = event_type } ∷ [];
}

abbrev pub can_revoke : ℕ → ℕ → ApiKey → Bool
can_revoke key merchant k = k.id == key && (k.merchant == merchant && is_unset k.revoked_at)

abbrev pub revoke_key : ℕ → ℕ → ℕ → Accounts → Accounts
revoke_key now key merchant t = record t {
  api_keys =
      update_where (can_revoke key merchant) (λ k. record k { revoked_at = some now }) t.api_keys;
}

abbrev pub touch_key : ℕ → ℕ → Accounts → Accounts
touch_key now key t = record t {
  api_keys =
      update_where (λ (k : ApiKey). k.id == key) (λ k. record k { last_used_at = some now })
        t.api_keys;
}

abbrev pub insert_key : ApiKey → Accounts → Accounts
insert_key k t = record t { api_keys = t.api_keys ++ k ∷ [] }

abbrev pub set_settlement : ℕ → Text → Accounts → Accounts
set_settlement merchant address t = record t {
  merchants =
      update_where (λ (m : Merchant). m.id == merchant)
        (λ m. record m { settlement_address = some address }) t.merchants;
}

abbrev pub settlement_or_empty : Option Text → Text
settlement_or_empty none = []
settlement_or_empty (some a) = a

-- a user joined with its merchant
unfoldable pub find_role : ℕ → ℕ → Accounts → Option User
find_role user merchant t =
    if any (λ (m : Merchant). m.id == merchant) t.merchants
    then find (λ (u : User). u.id == user && u.merchant == merchant) t.users
    else none

module _ (c : AuthSetup) where
  unfoldable pub generate_jwt : Text → Text → Text → Text → ℕ → Option Text
  generate_jwt token_type user merchant role ttl = c.sign (record {
    token_type = token_type;
    user = user;
    merchant = merchant;
    role = role;
    not_before = c.now - 1;
    expires_at = c.now + ttl;
  })

  unfoldable pub parse_id : Text → Result AuthError ℕ
  parse_id raw = elim (Ids.parse (trim_space raw)) [
    | none ↦ err invalid_id
    | some id ↦ ok (c.row_id id)
  ]

  unfoldable pub normalize_settlement_address : Text → Result AuthError Text
  normalize_settlement_address raw = do
    require (c.is_hex_address (trim_space raw)) bad_address
    ok (c.checksum_address (trim_space raw))

  abbrev pub key_request : Text → Text → Result AuthError (ℕ × NewKey)
  key_request merchant_id name = do
    merchant ← parse_id merchant_id
    require (not (is_blank name)) name_required
    new ← of_option key_failed c.new_key
    ok (merchant, new)

  abbrev pub revoke_request : Text → Text → Result AuthError (ℕ × ℕ)
  revoke_request merchant_id id = do
    merchant ← parse_id merchant_id
    key ← parse_id id
    ok (merchant, key)

  abbrev pub settings_request : Text → Text → Result AuthError (ℕ × Text)
  settings_request merchant_id address = do
    merchant ← parse_id merchant_id
    settlement ← normalize_settlement_address address
    ok (merchant, settlement)

  -- an update that failed, or that changed no row
  abbrev pub updated : Bool → AuthError → ℕ → Result AuthError (Unit {0})
  updated done e affected = do require done e; require (not (affected == 0)) not_found

  abbrev pub bootstrap_statements : ℕ → ℕ → Text → List (Accounts → Accounts)
  bootstrap_statements merchant user password_hash =
      let email = to_lower (trim_space c.admin_email) in
      (λ (t : Accounts). record t {
        merchants =
            t.merchants
            ++ record { id = merchant; name = c.merchant_name; settlement_address = none } ∷ [];
      })
      ∷ ((λ (t : Accounts). record t {
        users =
            t.users
            ++ record {
              id = user;
              merchant = merchant;
              email = email;
              password_hash = password_hash;
              role = codes "admin";
            }
              ∷ [];
      })
          ∷ (queue_event user merchant (codes "user.signed_up") ∷ []))

  abbrev pub commit_bootstrap :
      ℕ → Text → Session Accounts → Result AuthError (Unit {0}) × Session Accounts
  commit_bootstrap merchant hash s =
      let (result, s') = transact (bootstrap_statements merchant (suc merchant) hash) s in
      (require (is_committed result) bootstrap_failed, s')

  abbrev pub bootstrap_for :
      List User → Session Accounts → Result AuthError (Unit {0}) × Session Accounts
  bootstrap_for (user ∷ users) s = (ok tt, s)
  bootstrap_for [] s =
      let merchant = s.next_id in
      let s' = record s { next_id = suc (suc merchant) } in
      on_ok (of_option hash_failed (c.hash_password c.admin_password)) s'
        (λ hash. commit_bootstrap merchant hash s')

  unfoldable pub ensure_bootstrap :
      Session Accounts → Result AuthError (Unit {0}) × Session Accounts
  ensure_bootstrap s =
      let (counted, s1) = pool_query s in
      on_ok (require counted count_failed) s1 (λ u. bootstrap_for s1.db.users s1)

  unfoldable pub issue_tokens : Text → Text → Text → Result AuthError Tokens
  unfolding generate_jwt
  issue_tokens user merchant role = do
    access ← of_option access_failed (generate_jwt (codes "access") user merchant role c.access_ttl)
    refresh ←
        of_option refresh_failed (generate_jwt (codes "refresh") user merchant role c.refresh_ttl)
    ok (record { access = access; refresh = refresh })

  -- the user found, with its tokens
  unfoldable pub login :
      Text → Text → Session Accounts → Result AuthError (User × Tokens) × Session Accounts
  unfolding issue_tokens
  login email password s =
      let email' = to_lower (trim_space email) in
      on_ok (require (not (text_eq email' [] || text_eq password [])) credentials_required) s (λ u.
        let (found, s1) = pool_query s in
        (
          do
            require found login_failed
            user ←
                of_option invalid_credentials
                  (find (λ (u : User). text_eq (to_lower u.email) (to_lower email')) s1.db.users)
            require (c.password_matches user.password_hash password) invalid_credentials
            tokens ← issue_tokens (c.id_text user.id) (c.id_text user.merchant) user.role
            ok (user, tokens),
          s1,
        ))

  -- a token of the right type whose ids are well formed
  unfoldable pub checked_claims : Text → Text → Result AuthError Claims
  checked_claims token_type token = do
    claims ← of_option invalid_token (c.verify c.now token)
    require (text_eq claims.token_type token_type) invalid_token
    merchant ← of_option invalid_token (Ids.parse claims.merchant)
    user ← of_option invalid_token (Ids.parse claims.user)
    ok claims

  unfoldable pub lookup_token_user_role :
      Claims → Session Accounts → Result AuthError Text × Session Accounts
  lookup_token_user_role claims s =
      let (found, s1) = pool_query s in
      (
        do
          require found token_lookup_failed
          user ←
              of_option invalid_token
                (find_role (c.row_id claims.user) (c.row_id claims.merchant) s1.db)
          ok user.role,
        s1,
      )

  unfoldable pub refresh : Text → Session Accounts → Result AuthError Tokens × Session Accounts
  refresh token s = on_ok (checked_claims (codes "refresh") (trim_space token)) s (λ claims.
      let (found, s1) = lookup_token_user_role claims s in
      on_ok found s1 (λ role. (issue_tokens claims.user claims.merchant role, s1)))

  abbrev pub new_api_key : ℕ → ℕ → Text → List Text → NewKey → ApiKey
  new_api_key id merchant name scopes new = record {
    id = id;
    merchant = merchant;
    name = trim_space name;
    prefix = new.prefix;
    key_hash = new.hash;
    scopes = if length scopes == 0 then codes "*" ∷ [] else scopes;
    revoked_at = none;
    last_used_at = none;
  }

  unfoldable pub create_api_key :
      Text
      → Text
      → List Text
      → Session Accounts
      → Result AuthError (ApiKey × Text) × Session Accounts
  create_api_key merchant_id name scopes s =
      on_ok (key_request merchant_id name) s (λ (merchant, new).
        let k = new_api_key s.next_id merchant name scopes new in
        let (inserted, s1) = pool_exec (insert_key k) (record s { next_id = suc s.next_id }) in
        on_ok (require inserted insert_failed) s1 (λ u. (
          ok (k, new.plain),
          (pool_exec (queue_event k.id merchant (codes "api_key.created")) s1).1,
        )))

  -- the number of the key that is revoked
  unfoldable pub revoke_api_key :
      Text → Text → Session Accounts → Result AuthError ℕ × Session Accounts
  unfolding parse_id
  revoke_api_key merchant_id id s = on_ok (revoke_request merchant_id id) s (λ (merchant, key).
      let affected = count (can_revoke key merchant) s.db.api_keys in
      let (done, s1) = pool_exec (revoke_key c.now key merchant) s in
      on_ok (updated done revoke_failed affected) s1
        (λ u. (ok key, (pool_exec (queue_event key merchant (codes "api_key.revoked")) s1).1)))

  unfoldable pub get_merchant_settings :
      Text → Session Accounts → Result AuthError Text × Session Accounts
  get_merchant_settings merchant_id s = on_ok (parse_id merchant_id) s (λ merchant.
      let (found, s1) = pool_query s in
      (
        do
          require found settings_failed
          m ← of_option not_found (find (λ (m : Merchant). m.id == merchant) s1.db.merchants)
          ok (settlement_or_empty m.settlement_address),
        s1,
      ))

  unfoldable pub update_merchant_settings :
      Text → Text → Session Accounts → Result AuthError Text × Session Accounts
  update_merchant_settings merchant_id address s =
      on_ok (settings_request merchant_id address) s (λ (merchant, settlement).
        let affected = count (λ (m : Merchant). m.id == merchant) s.db.merchants in
        let (done, s1) = pool_exec (set_settlement merchant settlement) s in
        on_ok (updated done settings_failed affected) s1 (λ u. (
          ok settlement,
          (pool_exec (queue_event merchant merchant (codes "merchant.settings_updated")) s1).1,
        )))

  -- authorization[7:], trimmed, of a text that starts with "bearer "
  abbrev pub bearer_token : Text → Option Text
  bearer_token authorization =
      if has_prefix (codes "bearer ") (to_lower authorization)
      then some (trim_space (drop 7 authorization))
      else none

  unfoldable pub validate_token :
      Text → Session Accounts → Result AuthError Principal × Session Accounts
  unfolding checked_claims lookup_token_user_role
  validate_token token s = on_ok (checked_claims (codes "access") token) s (λ claims.
      let (found, s1) = lookup_token_user_role claims s in
      on_ok found s1 (λ role. (
        ok (record {
          merchant = c.row_id claims.merchant;
          user = some (c.row_id claims.user);
          role = role;
          api_key = none;
        }),
        s1,
      )))

  abbrev pub lookup_key : Bool → Text → Accounts → Result AuthError ApiKey
  lookup_key found api_key t = do
    require found key_lookup_failed
    of_option invalid_api_key (
        find (λ (k : ApiKey). text_eq k.key_hash (c.hash_token api_key) && is_unset k.revoked_at)
          t.api_keys)

  unfoldable pub validate_key :
      Text → Session Accounts → Result AuthError Principal × Session Accounts
  validate_key api_key s = on_ok (require (not (text_eq api_key [])) missing_credentials) s (λ u.
      let (found, s1) = pool_query s in
      on_ok (lookup_key found api_key s1.db) s1 (λ k. (
        ok (record {
          merchant = k.merchant;
          user = none;
          role = codes "api_key";
          api_key = some k.id;
        }),
        (pool_exec (touch_key c.now k.id) s1).1,
      )))

  abbrev pub validate_by :
      Option Text → Text → Session Accounts → Result AuthError Principal × Session Accounts
  validate_by (some token) api_key s = validate_token token s
  validate_by none api_key s = validate_key api_key s

  unfoldable pub validate_credential :
      Credential → Session Accounts → Result AuthError Principal × Session Accounts
  unfolding validate_token validate_key
  validate_credential r s =
      validate_by (bearer_token (trim_space r.authorization)) (trim_space r.api_key) s
