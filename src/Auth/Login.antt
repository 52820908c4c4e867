-- ===== src/Auth/Login.antt =====
-- The tokens that a login issues (internal/services/authsvc/service.go).
use mathlib.Core.Path.{subst}
use backend_go.Prelude.{
  Bool-cases, inl, inr, if◌then◌else◌, ℕ, ◌+◌, ◌-◌, ◌<◌, true, not, ◌||◌, none, some, [], Text,
  codes, text_eq, trim_space, to_lower, find, ◌≡◌, refl, ap, ◌∙◌, ok, err, require, of_option,
  of_option-ok, bind-ok, require-ok, ok-ok, on_ok-ok,
}
use backend_go.Ids
use backend_go.Database.{Session, pool_query}
use backend_go.Database.Laws.{db-pool_query}
use backend_go.Auth.{
  Accounts, User, AuthSetup, Claims, Tokens, login_failed, invalid_credentials,
  credentials_required, access_failed, refresh_failed, invalid_token, find_role, generate_jwt,
  issue_tokens, login, checked_claims, lookup_token_user_role, validate_token,
}

abbrev claims_of : AuthSetup → Text → User → ℕ → Claims
claims_of c token_type u ttl = record {
  token_type = token_type;
  user = c.id_text u.id;
  merchant = c.id_text u.merchant;
  role = u.role;
  not_before = c.now - 1;
  expires_at = c.now + ttl;
}

-- what the JWT library documents, for the claims of a user, and that the user's ids are ids
pub record IsSound (c : AuthSetup) (u : User) : Type 0 where
  pub verifies :
      (token_type token : Text) (ttl : ℕ)
      → 0 < ttl
      → c.sign (claims_of c token_type u ttl) ≡ some token
      → c.verify c.now token ≡ some (claims_of c token_type u ttl)
  pub user :
      (Ids.parse (c.id_text u.id) ≡ some (c.id_text u.id)) × (c.row_id (c.id_text u.id) ≡ u.id)
  pub merchant :
      (Ids.parse (c.id_text u.merchant) ≡ some (c.id_text u.merchant))
      × (c.row_id (c.id_text u.merchant) ≡ u.merchant)

module _ (c : AuthSetup) where
  abbrev IsSigned : User → Tokens → Type 0
  IsSigned u tokens =
      (c.sign (claims_of c (codes "access") u c.access_ttl) ≡ some tokens.access)
      × (c.sign (claims_of c (codes "refresh") u c.refresh_ttl) ≡ some tokens.refresh)

  issue_tokens-IsSigned :
      (u : User) (tokens : Tokens)
      → issue_tokens c (c.id_text u.id) (c.id_text u.merchant) u.role ≡ ok tokens
      → IsSigned u tokens
  unfolding issue_tokens generate_jwt
  issue_tokens-IsSigned u tokens h =
      let (access, e1, h1) =
        bind-ok (of_option access_failed (c.sign (claims_of c (codes "access") u c.access_ttl))) _
          tokens h in
      let (refresh, e2, h2) =
        bind-ok (of_option refresh_failed (c.sign (claims_of c (codes "refresh") u c.refresh_ttl)))
          _ tokens h1 in
      let q = ok-ok _ _ h2 in
      (
        of_option-ok access_failed _ _ e1 ∙ ap (λ (t : Tokens). some t.access) q,
        of_option-ok refresh_failed _ _ e2 ∙ ap (λ (t : Tokens). some t.refresh) q,
      )

  -- the tokens of a login carry the user's claims
  login-IsSigned :
      (email password : Text) (s : Session Accounts) (u : User) (tokens : Tokens)
      → (login c email password s).0 ≡ ok (u, tokens)
      → IsSigned u tokens
  unfolding login
  login-IsSigned email password s u tokens h =
      let email' = to_lower (trim_space email) in
      let s1 = (pool_query s).1 in
      let (v, e1, h1) =
        on_ok-ok (require (not (text_eq email' [] || text_eq password [])) credentials_required) s _
          _ h in
      let (found, h2) = require-ok (pool_query s).0 login_failed _ _ h1 in
      let (u', e3, h3) =
        bind-ok
          (of_option invalid_credentials
            (find (λ (u : User). text_eq (to_lower u.email) (to_lower email')) s1.db.users))
          _ _ h2 in
      let (matches, h4) =
        require-ok (c.password_matches u'.password_hash password) invalid_credentials _ _ h3 in
      let (tokens', e5, h5) =
        bind-ok (issue_tokens c (c.id_text u'.id) (c.id_text u'.merchant) u'.role) _ _ h4 in
      let q = ok-ok _ _ h5 in
      subst (λ (p : User × Tokens). IsSigned p.0 p.1) q (issue_tokens-IsSigned u' tokens' e5)

  checked_claims-signed :
      (token_type signed_type token : Text) (u : User) (ttl : ℕ)
      → IsSound c u
      → c.sign (claims_of c signed_type u ttl) ≡ some token
      → 0 < ttl
      → checked_claims c token_type token ≡ (
          if text_eq signed_type token_type
          then ok (claims_of c signed_type u ttl)
          else err invalid_token)
  unfolding checked_claims
  checked_claims-signed token_type signed_type token u ttl sound signed positive =
      rw (sound.verifies signed_type token ttl positive signed, sound.merchant.0, sound.user.0)
        (elim (Bool-cases (text_eq signed_type token_type)) [
          | inl e ↦ rw e refl
          | inr e ↦ rw e refl
        ])

  -- Whoever logs in is let in: with the access token of a login, at the same time and without a
  -- fault, `validate_token` gives the user with its merchant and role, if tokens that are signed
  -- verify, and the user is the row of its id and has a merchant. The refresh token of the login is refused.
  pub validate_token-login :
      (email password : Text) (s s' : Session Accounts) (u : User) (tokens : Tokens)
      → IsSound c u
      → (login c email password s).0 ≡ ok (u, tokens)
      → 0 < c.access_ttl
      → 0 < c.refresh_ttl
      → find_role u.id u.merchant s'.db ≡ some u
      → (pool_query s').0 ≡ true
      → ((validate_token c tokens.access s').0
          ≡ ok (record { merchant = u.merchant; user = some u.id; role = u.role; api_key = none }))
        × ((validate_token c tokens.refresh s').0 ≡ err invalid_token)
  unfolding validate_token lookup_token_user_role
  validate_token-login email password s s' u tokens sound h t1 t2 there quiet =
      let (access, refresh) = login-IsSigned email password s u tokens h in
      (
        rw
            (checked_claims-signed (codes "access") (codes "access") tokens.access u c.access_ttl
              sound access t1)
            (rw (quiet, sound.user.1, sound.merchant.1, db-pool_query s', there) refl),
        rw
            (checked_claims-signed (codes "access") (codes "refresh") tokens.refresh u c.refresh_ttl
              sound refresh t2)
            refl,
      )
