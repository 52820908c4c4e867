-- ===== src/Auth/Later.antt =====
-- Sequences of calls of the auth service (internal/services/authsvc/service.go).
use mathlib.Core.Path.{subst}
use backend_go.Prelude.{
  on_ok-cases, ℕ, ◌≤◌, ◌<◌, true, false, not, ◌&&◌, Option, none, some, List, [], ◌∷◌, Text, codes,
  text_eq, trim_space, All, find-All, count, ◌==◌, ◌≡◌, ◌≢◌, refl, sym, ap, ◌∙◌, arith, Bool-cases,
  inl, inr, Result, ok, require, of_option-ok, bind-ok, ok-ok, on_ok-ok, on_ok-state, require_both,
}
use backend_go.Database.{Session, pool_exec, pool_query}
use backend_go.Database.Laws.{db-pool_exec, next_id-pool_exec}
use backend_go.Store.{update_where}
use backend_go.Auth.{
  Accounts, ApiKey, AuthSetup, AuthError, Principal, Credential, can_revoke, revoke_key,
  queue_event, is_unset, revoke_failed, not_found, missing_credentials, key_lookup_failed,
  invalid_api_key, ensure_bootstrap, login, refresh, create_api_key, revoke_api_key, revoke_request,
  updated, lookup_key, validate_key, validate_token, validate_by, checked_claims,
  lookup_token_user_role, get_merchant_settings, update_merchant_settings, validate_credential,
  bearer_token,
}
use backend_go.Auth.Revoked.{
  IsOff, IsRevoked, ensure_bootstrap-IsRevoked, create_api_key-IsRevoked, revoke_api_key-kept,
  update_merchant_settings-IsRevoked, validate_by-IsRevoked, pool_query-IsRevoked,
  pool_exec-IsRevoked,
}

pub data Call : Type 0 where
  bootstrap : Call
  log_in : Text → Text → Call
  renew : Text → Call
  create_key : Text → Text → List Text → Call
  revoke : Text → Text → Call
  read_settings : Text → Call
  change_settings : Text → Text → Call
  check : Credential → Call

abbrev pub run : AuthSetup → Call → Session Accounts → Session Accounts
run c bootstrap s = (ensure_bootstrap c s).1
run c (log_in email password) s = (login c email password s).1
run c (renew token) s = (refresh c token s).1
run c (create_key merchant name scopes) s = (create_api_key c merchant name scopes s).1
run c (revoke merchant id) s = (revoke_api_key c merchant id s).1
run c (read_settings merchant) s = (get_merchant_settings c merchant s).1
run c (change_settings merchant address) s = (update_merchant_settings c merchant address s).1
run c (check r) s = (validate_credential c r s).1

-- each call with what the parameters are when it is made
abbrev pub run_all : List (AuthSetup × Call) → Session Accounts → Session Accounts
run_all [] s = s
run_all ((c, call) ∷ calls) s = run_all calls (run c call s)

module _ (key : ℕ) where
  run-IsRevoked :
      (c : AuthSetup) (call : Call) (s : Session Accounts)
      → IsRevoked key s
      → IsRevoked key (run c call s)
  unfolding login refresh get_merchant_settings validate_credential lookup_token_user_role
  run-IsRevoked c bootstrap s h = ensure_bootstrap-IsRevoked key c s h
  run-IsRevoked c (log_in email password) s h =
      on_ok-state (IsRevoked key) _ s _ h (λ u e. pool_query-IsRevoked key s h)
  run-IsRevoked c (renew token) s h =
      on_ok-state (IsRevoked key) (checked_claims c (codes "refresh") (trim_space token)) s _ h
        (λ claims e.
          on_ok-state (IsRevoked key) (lookup_token_user_role c claims s).0 _ _
            (pool_query-IsRevoked key s h) (λ role e'. pool_query-IsRevoked key s h))
  run-IsRevoked c (create_key merchant name scopes) s h =
      create_api_key-IsRevoked key c merchant name scopes s h
  run-IsRevoked c (revoke merchant id) s h = revoke_api_key-kept key c merchant id s h
  run-IsRevoked c (read_settings merchant) s h =
      on_ok-state (IsRevoked key) _ s _ h (λ m e. pool_query-IsRevoked key s h)
  run-IsRevoked c (change_settings merchant address) s h =
      update_merchant_settings-IsRevoked key c merchant address s h
  run-IsRevoked c (check r) s h =
      validate_by-IsRevoked key c (bearer_token c (trim_space r.authorization))
        (trim_space r.api_key) s h

  run_all-IsRevoked :
      (calls : List (AuthSetup × Call)) (s : Session Accounts)
      → IsRevoked key s
      → IsRevoked key (run_all calls s)
  run_all-IsRevoked [] s h = h
  run_all-IsRevoked ((c, call) ∷ calls) s h =
      run_all-IsRevoked calls (run c call s) (run-IsRevoked c call s h)

  -- rows of which none has the number
  others-IsOff :
      (xs : List ApiKey) → count (λ (k : ApiKey). k.id == key) xs ≡ 0 → All (IsOff key) xs
  others-IsOff [] h = tt
  others-IsOff (x ∷ xs) h = elim (Bool-cases (x.id == key)) [
    | inl e ↦ absurd (ground arith)
    | inr e ↦ (λ q. absurd (ground arith), others-IsOff xs (rw e at h))
  ]

  module _ (now merchant : ℕ) where
    abbrev off : ApiKey → ApiKey
    off k = record k { revoked_at = some now }

    none_to_revoke :
        (xs : List ApiKey)
        → count (λ (k : ApiKey). k.id == key) xs ≡ 0
        → count (can_revoke key merchant) xs ≡ 0
    none_to_revoke [] h = refl
    none_to_revoke (x ∷ xs) h = ground (arith, none_to_revoke xs)

    update_none :
        (xs : List ApiKey)
        → count (can_revoke key merchant) xs ≡ 0
        → update_where (can_revoke key merchant) off xs ≡ xs
    update_none [] h = refl
    update_none (x ∷ xs) h = elim (Bool-cases (can_revoke key merchant x)) [
      | inl e ↦ absurd (ground (arith, rw e at h))
      | inr e ↦ rw e (ap (λ ys. x ∷ ys) (update_none xs (rw e at h)))
    ]

    All-IsOff :
        (xs : List ApiKey)
        → count (λ (k : ApiKey). k.id == key) xs ≤ 1
        → count (can_revoke key merchant) xs ≢ 0
        → All (IsOff key) (update_where (can_revoke key merchant) off xs)
    All-IsOff [] h k = absurd (k refl)
    All-IsOff (x ∷ xs) h k = elim (Bool-cases (x.id == key)) [
      | inr e ↦
          let skipped : can_revoke key merchant x ≡ false = rw e refl in
          rw skipped (λ q. absurd (ground arith), All-IsOff xs (rw e at h) (rw skipped at k))
      | inl e ↦
          let none_left : count (λ (y : ApiKey). y.id == key) xs ≡ 0 = ground arith in
          let none_to = none_to_revoke xs none_left in
          elim (Bool-cases (can_revoke key merchant x)) [
            | inl can ↦ rw can (
              λ q. refl,
              subst (All (IsOff key)) (sym (update_none xs none_to)) (others-IsOff xs none_left),
            )
            | inr cannot ↦ absurd (k (rw cannot none_to))
          ]
    ]

-- `id` is the primary key of auth.api_keys
abbrev pub IsPrimary : ℕ → Accounts → Type 0
IsPrimary key t = count (λ (k : ApiKey). k.id == key) t.api_keys ≤ 1

module _ (c : AuthSetup) where
  revoke_key-IsRevoked :
      (other merchant key : ℕ) (s : Session Accounts)
      → (pool_exec (revoke_key c.now other merchant) s).0 ≡ true
      → IsPrimary key s.db
      → key < s.next_id
      → other ≡ key
      → count (can_revoke other merchant) s.db.api_keys ≢ 0
      → IsRevoked key (pool_exec (revoke_key c.now other merchant) s).1
  revoke_key-IsRevoked other merchant key s done primary drawn e affected = record {
    rows =
        rw (db-pool_exec (revoke_key c.now other merchant) s done)
          (rw e (All-IsOff key c.now merchant s.db.api_keys primary (rw e at affected)));
    drawn = rw (next_id-pool_exec (revoke_key c.now other merchant) s) drawn;
  }

  revoke_api_key-IsRevoked :
      (merchant_id id : Text) (key : ℕ) (s : Session Accounts)
      → IsPrimary key s.db
      → key < s.next_id
      → (revoke_api_key c merchant_id id s).0 ≡ ok key
      → IsRevoked key (revoke_api_key c merchant_id id s).1
  unfolding revoke_api_key
  revoke_api_key-IsRevoked merchant_id id key s primary drawn h =
      let Done : Result AuthError ℕ × Session Accounts → Type 0 =
        λ o. o.0 ≡ ok key → IsRevoked key o.1 in
      on_ok-cases Done (revoke_request c merchant_id id) s _ (λ e q. cc)
        (λ (merchant, other) e.
          let f = revoke_key c.now other merchant in
          let affected = count (can_revoke other merchant) s.db.api_keys in
          on_ok-cases Done (updated c (pool_exec f s).0 revoke_failed affected) (pool_exec f s).1 _
            (λ e' q. cc)
            (λ u e' q.
              let (done, some_row) =
                require_both (pool_exec f s).0 (not (affected == 0)) revoke_failed not_found u e' in
              pool_exec-IsRevoked key (queue_event other merchant (codes "api_key.revoked"))
                (pool_exec f s).1 (λ r. r)
                (revoke_key-IsRevoked other merchant key s done primary drawn (ok-ok other key q)
                  (λ z. absurd (ground arith)))))
        h

  validate_by-api_key :
      (token : Option Text) (api_key : Text) (s : Session Accounts) (key : ℕ) (p : Principal)
      → IsRevoked key s
      → (validate_by c token api_key s).0 ≡ ok p
      → p.api_key ≢ some key
  unfolding validate_token validate_key
  validate_by-api_key (some token) api_key s key p revoked h q =
      let (claims, e1, h1) = on_ok-ok (checked_claims c (codes "access") token) s _ p h in
      let (role, e2, h2) =
        on_ok-ok (lookup_token_user_role c claims s).0 (lookup_token_user_role c claims s).1 _ p
          h1 in
      cc
  validate_by-api_key none api_key s key p revoked h q =
      let s1 = (pool_query s).1 in
      let (u, e1, h1) = on_ok-ok (require (not (text_eq api_key [])) missing_credentials) s _ p h in
      let (k, e2, h2) = on_ok-ok (lookup_key c (pool_query s).0 api_key s1.db) s1 _ p h1 in
      let (v, e3, h3) = bind-ok (require (pool_query s).0 key_lookup_failed) _ k e2 in
      let (off, usable) =
        find-All (IsOff key)
          (λ (k : ApiKey). text_eq k.key_hash (c.hash_token api_key) && is_unset k.revoked_at)
          s1.db.api_keys k (of_option-ok invalid_api_key _ _ h3)
          (pool_query-IsRevoked key s revoked).rows in
      let named : some k.id ≡ some key = ap (λ (x : Principal). x.api_key) (ok-ok _ _ h2) ∙ q in
      let same : k.id ≡ key = ground arith in let now_off = off same in absurd (ground arith)

-- Once `revoke_api_key` has revoked a key, no sequence of calls of the service, whatever fails in
-- them and whatever their parameters are, leads to a state in which `validate_credential` accepts
-- that key, if `id` is a primary key and its number has been drawn.
pub validate_credential-revoked :
    (c c' : AuthSetup) (merchant_id id : Text) (key : ℕ) (s : Session Accounts)
    (calls : List (AuthSetup × Call)) (r : Credential) (p : Principal)
    → IsPrimary key s.db
    → key < s.next_id
    → (revoke_api_key c merchant_id id s).0 ≡ ok key
    → (validate_credential c' r (run_all calls (revoke_api_key c merchant_id id s).1)).0 ≡ ok p
    → p.api_key ≢ some key
unfolding validate_credential
validate_credential-revoked c c' merchant_id id key s calls r p primary drawn revoked accepted =
    validate_by-api_key c' (bearer_token c' (trim_space r.authorization)) (trim_space r.api_key)
      (run_all calls (revoke_api_key c merchant_id id s).1) key p
      (run_all-IsRevoked key calls _
        (revoke_api_key-IsRevoked c merchant_id id key s primary drawn revoked))
      accepted
