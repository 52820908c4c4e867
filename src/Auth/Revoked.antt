-- ===== src/Auth/Revoked.antt =====
-- A key that has been revoked, in any later state (internal/services/authsvc/service.go).
use backend_go.Prelude.{
  on_ok-state, All-snoc, ℕ, suc, ◌<◌, false, not, Option, none, some, List, [], ◌∷◌, Text, codes,
  text_eq, All, count, ◌==◌, ◌≡◌, refl, arith, Result, require, of_option,
}
use backend_go.Database.{Session, pool_exec, pool_query}
use backend_go.Database.Laws.{next_id-pool_exec, next_id-pool_query, pool_exec-keeps, db-pool_query}
use backend_go.Database.Transaction.{transact-keeps, next_id-transact}
use backend_go.Store.{All-update_where}
use backend_go.Auth.{
  Merchant, can_revoke, updated, key_request, revoke_request, settings_request, revoke_failed,
  settings_failed, lookup_key, missing_credentials, lookup_token_user_role, checked_claims,
  validate_by, bootstrap_for, new_api_key, User, Accounts, ApiKey, AuthSetup, AuthError,
  hash_failed, count_failed, insert_failed, is_unset, queue_event, revoke_key, touch_key,
  insert_key, set_settlement, ensure_bootstrap, bootstrap_statements, create_api_key,
  revoke_api_key, update_merchant_settings, validate_token, validate_key,
}

abbrev pub IsOff : ℕ → ApiKey → Type 0
IsOff key k = k.id ≡ key → is_unset k.revoked_at ≡ false

-- no row with the number is usable, and the number will not be drawn again
pub record IsRevoked (key : ℕ) (s : Session Accounts) : Type 0 where
  pub rows : All (IsOff key) s.db.api_keys
  pub drawn : key < s.next_id

module _ (key : ℕ) where
  abbrev Rows : Accounts → Type 0
  Rows t = All (IsOff key) t.api_keys

  revoke_key-Rows :
      (now other merchant : ℕ) (t : Accounts) → Rows t → Rows (revoke_key now other merchant t)
  revoke_key-Rows now other merchant t h =
      All-update_where (IsOff key) (can_revoke other merchant)
        (λ k. record k { revoked_at = some now }) t.api_keys (λ k off e. refl) h

  touch_key-Rows : (now other : ℕ) (t : Accounts) → Rows t → Rows (touch_key now other t)
  touch_key-Rows now other t h =
      All-update_where (IsOff key) (λ (k : ApiKey). k.id == other)
        (λ k. record k { last_used_at = some now }) t.api_keys (λ k off. off) h

  insert_key-Rows : (k : ApiKey) (t : Accounts) → key < k.id → Rows t → Rows (insert_key k t)
  insert_key-Rows k t h rows = All-snoc (IsOff key) t.api_keys k rows (λ e. absurd (omega arith))

  pub pool_query-IsRevoked :
      (s : Session Accounts) → IsRevoked key s → IsRevoked key (pool_query s).1
  pool_query-IsRevoked s h = record {
    rows = rw (db-pool_query s) h.rows;
    drawn = rw (next_id-pool_query s) h.drawn;
  }

  pub pool_exec-IsRevoked :
      (f : Accounts → Accounts) (s : Session Accounts)
      → (Rows s.db → Rows (f s.db))
      → IsRevoked key s
      → IsRevoked key (pool_exec f s).1
  pool_exec-IsRevoked f s keep h = record {
    rows = pool_exec-keeps Rows f s keep h.rows;
    drawn = rw (next_id-pool_exec f s) h.drawn;
  }

  module _ (c : AuthSetup) where
    abbrev Kept : {A : Type 0} → Result AuthError A × Session Accounts → Type 0
    Kept o = IsRevoked key o.1

    bootstrap_for-IsRevoked :
        (users : List User) (s : Session Accounts)
        → IsRevoked key s
        → IsRevoked key (bootstrap_for c users s).1
    bootstrap_for-IsRevoked (user ∷ users) s h = h
    bootstrap_for-IsRevoked [] s h =
        let s' = record s { next_id = suc (suc s.next_id) } in
        let h' : IsRevoked key s' = record { rows = h.rows; drawn = omega (arith, h.drawn) } in
        on_ok-state (IsRevoked key) (of_option hash_failed (c.hash_password c.admin_password)) s' _
          h'
          (λ hash e.
            let fs = bootstrap_statements c s.next_id (suc s.next_id) hash in
            record {
              rows = transact-keeps Rows fs s' (λ r. r) h.rows;
              drawn = rw (next_id-transact fs s') h'.drawn;
            })

    pub ensure_bootstrap-IsRevoked :
        (s : Session Accounts) → IsRevoked key s → IsRevoked key (ensure_bootstrap c s).1
    unfolding ensure_bootstrap
    ensure_bootstrap-IsRevoked s h =
        let h1 = pool_query-IsRevoked s h in
        on_ok-state (IsRevoked key) (require (pool_query s).0 count_failed) (pool_query s).1 _ h1
          (λ u e. bootstrap_for-IsRevoked (pool_query s).1.db.users (pool_query s).1 h1)

    pub create_api_key-IsRevoked :
        (merchant_id name : Text) (scopes : List Text) (s : Session Accounts)
        → IsRevoked key s
        → IsRevoked key (create_api_key c merchant_id name scopes s).1
    unfolding create_api_key
    create_api_key-IsRevoked merchant_id name scopes s h =
        on_ok-state (IsRevoked key) (key_request c merchant_id name) s _ h (λ (merchant, new) e.
          let s0 = record s { next_id = suc s.next_id } in
          let h0 : IsRevoked key s0 = record { rows = h.rows; drawn = omega (arith, h.drawn) } in
          let k = new_api_key c s.next_id merchant name scopes new in
          let h1 = pool_exec-IsRevoked (insert_key k) s0 (insert_key-Rows k s.db h.drawn) h0 in
          on_ok-state (IsRevoked key) (require (pool_exec (insert_key k) s0).0 insert_failed) _ _ h1
            (λ u e'.
              pool_exec-IsRevoked (queue_event k.id merchant (codes "api_key.created")) _ (λ r. r)
                h1))

    pub revoke_api_key-kept :
        (merchant_id id : Text) (s : Session Accounts)
        → IsRevoked key s
        → IsRevoked key (revoke_api_key c merchant_id id s).1
    unfolding revoke_api_key
    revoke_api_key-kept merchant_id id s h =
        on_ok-state (IsRevoked key) (revoke_request c merchant_id id) s _ h (λ (merchant, other) e.
          let h1 =
            pool_exec-IsRevoked (revoke_key c.now other merchant) s
              (revoke_key-Rows c.now other merchant s.db) h in
          on_ok-state (IsRevoked key)
            (updated c (pool_exec (revoke_key c.now other merchant) s).0 revoke_failed
              (count (can_revoke other merchant) s.db.api_keys))
            _ _ h1
            (λ u e'.
              pool_exec-IsRevoked (queue_event other merchant (codes "api_key.revoked")) _ (λ r. r)
                h1))

    pub update_merchant_settings-IsRevoked :
        (merchant_id address : Text) (s : Session Accounts)
        → IsRevoked key s
        → IsRevoked key (update_merchant_settings c merchant_id address s).1
    unfolding update_merchant_settings
    update_merchant_settings-IsRevoked merchant_id address s h =
        on_ok-state (IsRevoked key) (settings_request c merchant_id address) s _ h
          (λ (merchant, settlement) e.
            let h1 = pool_exec-IsRevoked (set_settlement merchant settlement) s (λ r. r) h in
            on_ok-state (IsRevoked key)
              (updated c (pool_exec (set_settlement merchant settlement) s).0 settings_failed
                (count (λ (m : Merchant). m.id == merchant) s.db.merchants))
              _ _ h1
              (λ u e'.
                pool_exec-IsRevoked
                  (queue_event merchant merchant (codes "merchant.settings_updated")) _ (λ r. r)
                  h1))

    validate_key-IsRevoked :
        (api_key : Text) (s : Session Accounts)
        → IsRevoked key s
        → IsRevoked key (validate_key c api_key s).1
    unfolding validate_key
    validate_key-IsRevoked api_key s h =
        let h1 = pool_query-IsRevoked s h in
        on_ok-state (IsRevoked key) (require (not (text_eq api_key [])) missing_credentials) s _ h
          (λ u e.
            on_ok-state (IsRevoked key) (lookup_key c (pool_query s).0 api_key (pool_query s).1.db)
              (pool_query s).1 _ h1
              (λ k e'.
                pool_exec-IsRevoked (touch_key c.now k.id) (pool_query s).1
                  (touch_key-Rows c.now k.id (pool_query s).1.db) h1))

    validate_token-IsRevoked :
        (token : Text) (s : Session Accounts)
        → IsRevoked key s
        → IsRevoked key (validate_token c token s).1
    unfolding validate_token
    validate_token-IsRevoked token s h =
        let h1 = pool_query-IsRevoked s h in
        on_ok-state (IsRevoked key) (checked_claims c (codes "access") token) s _ h (λ claims e.
          on_ok-state (IsRevoked key) (lookup_token_user_role c claims s).0 (pool_query s).1 _ h1
            (λ role e'. h1))

    pub validate_by-IsRevoked :
        (token : Option Text) (api_key : Text) (s : Session Accounts)
        → IsRevoked key s
        → IsRevoked key (validate_by c token api_key s).1
    validate_by-IsRevoked (some token) api_key s h = validate_token-IsRevoked token s h
    validate_by-IsRevoked none api_key s h = validate_key-IsRevoked api_key s h
