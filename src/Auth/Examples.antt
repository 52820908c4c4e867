-- ===== src/Auth/Examples.antt =====
-- Tests of the auth service, and the theorems at concrete inputs.
use backend_go.Prelude.{
  ℕ, ◌-◌, ◌==◌, true, Option, none, some, [], ◌∷◌, Text, codes, text_eq, trim_space, if◌then◌else◌,
  ◌≡◌, ◌≢◌, refl, sym, ap, arith, ok, err,
}
use backend_go.Ids
use backend_go.Database.{open_session, pool_query, pool_exec, begin, exec, commit, rollback}
use backend_go.Database.Transaction.{transact, exec_all}
use backend_go.Auth.{
  Accounts, User, AuthSetup, ApiKey, Claims, Tokens, Principal, invalid_token, find_role,
  generate_jwt, issue_tokens, login, ensure_bootstrap, validate_token, validate_key,
  validate_credential, revoke_api_key, parse_id,
}
use backend_go.Auth.Later.{validate_credential-revoked}
use backend_go.Auth.Login.{IsSound, validate_token-login}

abbrev admin_id : Text
admin_id = codes "01ARZ3NDEKTSV4RRFFQ69G5FAA"

abbrev merchant_id : Text
merchant_id = codes "01ARZ3NDEKTSV4RRFFQ69G5FAV"

abbrev verify_token : Text → ℕ → Text → Option Claims
verify_token role now [] = none
verify_token role now (e ∷ token_type) = some (record {
  token_type = token_type;
  user = admin_id;
  merchant = merchant_id;
  role = role;
  not_before = now - 1;
  expires_at = e;
})

-- a token is its time of expiry and its type; the keys hash to themselves
abbrev setup : AuthSetup
setup = record {
  row_id = λ id. if text_eq id admin_id then 4 else if text_eq id merchant_id then 3 else 9;
  id_text = λ n. if n == 4 then admin_id else merchant_id;
  admin_email = codes " Admin@x.io";
  admin_password = codes "pw";
  merchant_name = codes "m";
  hash_password = λ password. some password;
  password_matches = text_eq;
  sign = λ claims. some (claims.expires_at ∷ claims.token_type);
  verify = verify_token (codes "admin");
  access_ttl = 900;
  refresh_ttl = 9_000;
  new_key = none;
  hash_token = λ token. token;
  is_hex_address = λ s. true;
  checksum_address = λ s. s;
  now = 50;
}

abbrev no_accounts : Accounts
no_accounts = record { merchants = []; users = []; api_keys = []; outbox = [] }

abbrev admin : User
admin = record {
  id = 4;
  merchant = 3;
  email = codes "admin@x.io";
  password_hash = codes "pw";
  role = codes "admin";
}

abbrev key : ApiKey
key = record {
  id = 9;
  merchant = 3;
  name = codes "k";
  prefix = codes "cpay";
  key_hash = codes "secret";
  scopes = [];
  revoked_at = none;
  last_used_at = none;
}

abbrev accounts : Accounts
accounts = record {
  merchants = record { id = 3; name = codes "m"; settlement_address = none } ∷ [];
  users = admin ∷ [];
  api_keys = key ∷ [];
  outbox = [];
}

-- the first start of the service makes the admin, the second finds it
first_user :
    (ensure_bootstrap setup
      (ensure_bootstrap setup (record (open_session no_accounts) { next_id = 3 })).1).1.db.users
    ≡ admin ∷ []
unfolding ensure_bootstrap transact exec_all begin exec commit rollback pool_query trim_space
first_user = refl

by_key :
    (validate_credential setup
      (record { authorization = []; api_key = codes "secret " })
      (open_session accounts)).0
    ≡ ok (record { merchant = 3; user = none; role = codes "api_key"; api_key = some 9 })
unfolding validate_credential validate_key pool_query pool_exec trim_space
by_key = refl

abbrev key_id : Text
key_id = codes "01ARZ3NDEKTSV4RRFFQ69G5FAK"

revoked_key :
    (revoke_api_key setup merchant_id key_id (record (open_session accounts) { next_id = 10 })).0
    ≡ ok 9
unfolding revoke_api_key parse_id Ids.parse Ids.is_valid Ids.is_crockford pool_exec trim_space
revoked_key = refl

-- another key of the merchant is still accepted
abbrev two_keys : Accounts
two_keys = record accounts {
  api_keys = key ∷ (record key { id = 8; key_hash = codes "other" } ∷ []);
}

abbrev other_principal : Principal
other_principal = record { merchant = 3; user = none; role = codes "api_key"; api_key = some 8 }

revoked_of_two :
    (revoke_api_key setup merchant_id key_id (record (open_session two_keys) { next_id = 10 })).0
    ≡ ok 9
unfolding revoke_api_key parse_id Ids.parse Ids.is_valid Ids.is_crockford pool_exec trim_space
revoked_of_two = refl

other_accepted :
    (validate_credential setup
      (record { authorization = []; api_key = codes "other" })
      (revoke_api_key setup merchant_id key_id
        (record (open_session two_keys) { next_id = 10 })).1).0
    ≡ ok other_principal
unfolding revoke_api_key parse_id Ids.parse Ids.is_valid Ids.is_crockford validate_credential
    validate_key pool_query pool_exec trim_space
other_accepted = refl

validate_credential-revoked_example : other_principal.api_key ≢ some 9
validate_credential-revoked_example =
    validate_credential-revoked setup setup merchant_id key_id 9
      (record (open_session two_keys) { next_id = 10 }) []
      (record { authorization = []; api_key = codes "other" }) other_principal (omega arith)
      (omega arith) revoked_of_two other_accepted

abbrev logged_in : Tokens
logged_in = record { access = 950 ∷ codes "access"; refresh = 9_050 ∷ codes "refresh" }

login-admin :
    (login setup (codes "ADMIN@x.io") (codes "pw") (open_session accounts)).0
    ≡ ok (admin, logged_in)
unfolding login issue_tokens generate_jwt pool_query pool_exec trim_space
login-admin = refl

admin_role : find_role 4 3 accounts ≡ some admin
unfolding find_role
admin_role = refl

queried : (pool_query (open_session accounts)).0 ≡ true
unfolding pool_query pool_exec
queried = refl

some_eq : (a b : Text) → some a ≡ some b → a ≡ b
some_eq a b h = ground arith

sound : IsSound setup admin
unfolding Ids.parse Ids.is_valid Ids.is_crockford trim_space
sound = record {
  verifies = λ token_type token ttl positive signed.
      sym (ap (verify_token (codes "admin") 50) (some_eq _ _ signed));
  user = (refl, refl);
  merchant = (refl, refl);
}

validate_token-login_example :
    ((validate_token setup logged_in.access (open_session accounts)).0
      ≡ ok (record { merchant = 3; user = some 4; role = codes "admin"; api_key = none }))
    × ((validate_token setup logged_in.refresh (open_session accounts)).0 ≡ err invalid_token)
validate_token-login_example =
    validate_token-login setup (codes "ADMIN@x.io") (codes "pw") (open_session accounts)
      (open_session accounts) admin logged_in sound login-admin (omega arith) (omega arith)
      admin_role queried
