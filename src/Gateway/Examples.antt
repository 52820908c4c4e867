-- ===== src/Gateway/Examples.antt =====
-- Tests of the gateway, and the theorems at concrete inputs.
use backend_go.Prelude.{
  ℕ, suc, ◌==◌, true, none, some, [], ◌∷◌, Text, codes, text_eq, trim_space, if◌then◌else◌, ◌≡◌,
  refl, Result, ok,
}
use backend_go.Ids
use backend_go.Database.{open_session, pool_query, pool_exec}
use backend_go.Auth.{
  Accounts, AuthSetup, Claims, find_role, checked_claims, lookup_token_user_role, validate_token,
  validate_credential, bearer_token,
}
use backend_go.Gateway.{
  GatewayWorld, GatewaySetup, json, stored, Requester, insert_key, row_of, with_idempotency, authn,
  requester_of, require_user,
}
use backend_go.Gateway.Replay.{with_idempotency-replays}
use backend_go.Gateway.User.{HasToken, require_user-HasToken}

abbrev setup : GatewaySetup Text
setup = record {
  marshal = λ payload. some payload;
  jsonb = λ body. body;
  request_hash = codes "h";
  now = 50;
}

-- a handler that counts its runs
abbrev counted : ℕ → Result Text (ℕ × Text) × ℕ
counted n = (ok (201, codes "{}"), suc n)

abbrev empty : GatewayWorld ℕ
empty = record { session = open_session []; outer = 0 }

abbrev twice : GatewayWorld ℕ
twice =
    (with_idempotency setup (codes "m") (codes "e") (codes "k") counted
      (with_idempotency setup (codes "m") (codes "e") (codes "k") counted empty).1).1

once : twice.outer ≡ 1
unfolding with_idempotency pool_query pool_exec
once = refl

queried : (pool_query empty.session).0 ≡ true
unfolding pool_query pool_exec
queried = refl

queried_later :
    (pool_query
      (with_idempotency setup (codes "m") (codes "e") (codes "k") counted empty).1.session).0
    ≡ true
unfolding with_idempotency pool_query pool_exec
queried_later = refl

inserted :
    (pool_exec
      (insert_key (row_of setup (codes "m") (codes "e") (codes "k") 201 (codes "{}")))
      (pool_query empty.session).1).0
    ≡ true
unfolding pool_query pool_exec
inserted = refl

with_idempotency-replays_example :
    ((with_idempotency setup (codes "m") (codes "e") (codes "k") counted empty).0
      ≡ json 201 (codes "{}"))
    × ((with_idempotency setup
          (codes "m")
          (codes "e")
          (codes "k")
          counted
          (with_idempotency setup (codes "m") (codes "e") (codes "k") counted empty).1).0
        ≡ stored 201 (codes "{}"))
    × (twice.outer ≡ 1)
with_idempotency-replays_example =
    with_idempotency-replays setup (codes "m") (codes "e") (codes "k") counted counted empty
      (with_idempotency setup (codes "m") (codes "e") (codes "k") counted empty).1 201 (codes "{}")
      (codes "{}") refl queried refl refl refl inserted refl queried_later

abbrev user_id : Text
user_id = codes "01ARZ3NDEKTSV4RRFFQ69G5FAA"

abbrev merchant_id : Text
merchant_id = codes "01ARZ3NDEKTSV4RRFFQ69G5FAV"

abbrev claims : Claims
claims = record {
  token_type = codes "access";
  user = user_id;
  merchant = merchant_id;
  role = codes "admin";
  not_before = 0;
  expires_at = 90;
}

abbrev auth_setup : AuthSetup
auth_setup = record {
  row_id = λ id. if text_eq id user_id then 4 else 3;
  id_text = λ n. if n == 4 then user_id else merchant_id;
  admin_email = [];
  admin_password = [];
  merchant_name = [];
  hash_password = λ password. none;
  password_matches = text_eq;
  sign = λ c. none;
  verify = λ now token. if text_eq token (codes "t") then some claims else none;
  access_ttl = 900;
  refresh_ttl = 900;
  new_key = none;
  hash_token = λ token. token;
  is_hex_address = λ s. true;
  checksum_address = λ s. s;
  now = 50;
}

abbrev accounts : Accounts
accounts = record {
  merchants = record { id = 3; name = []; settlement_address = none } ∷ [];
  users =
      record { id = 4; merchant = 3; email = []; password_hash = []; role = codes "admin" } ∷ [];
  api_keys = [];
  outbox = [];
}

abbrev admin : Requester
admin = record {
  merchant = merchant_id;
  user = some user_id;
  role = codes "admin";
  api_key = none;
  is_user = true;
}

admitted : (authn auth_setup (codes " Bearer t") [] (open_session accounts)).0 ≡ ok admin
unfolding authn validate_credential validate_token checked_claims lookup_token_user_role find_role
    requester_of pool_query pool_exec trim_space Ids.parse Ids.is_valid Ids.is_crockford
admitted = refl

passed : require_user admin ≡ ok admin
unfolding require_user
passed = refl

require_user-HasToken_example :
    HasToken auth_setup (bearer_token auth_setup (trim_space (trim_space (codes " Bearer t"))))
require_user-HasToken_example =
    require_user-HasToken auth_setup (codes " Bearer t") [] (open_session accounts) admin admin
      admitted passed
