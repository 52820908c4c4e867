-- ===== src/Gateway/User.antt =====
-- Who passes `authn` and `requireUser` of internal/gateway/server.go.
use backend_go.Prelude.{
  true, false, not, ◌&&◌, Option, none, some, [], Text, codes, text_eq, trim_space, ◌≡◌, refl, sym,
  ap, ◌∙◌, arith, Bool-cases, inl, inr, Result, ok, err, require, of_option, of_option-ok, bind-ok,
  require-ok, ok-ok, on_ok-ok,
}
use backend_go.Ids
use backend_go.Payment.Link.{is_blank}
use backend_go.Database.{Session, pool_query}
use backend_go.Auth.{
  Accounts, AuthSetup, AuthError, Claims, Principal, Credential, invalid_token, bearer_token,
  checked_claims, lookup_key, validate_token, validate_key, validate_by, validate_credential,
}
use backend_go.Gateway.{
  Requester, missing_credentials, invalid_merchant, is_some, with_refused, requester_of, authn,
  require_user,
}

user_of : (q q' : Requester) → require_user q ≡ ok q' → q.is_user ≡ true
unfolding require_user
user_of q q' h = elim (Bool-cases q.is_user) [ inl e ↦ e | inr e ↦ cc ]

module _ (c : AuthSetup) where
  checked_claims-verify :
      (token_type token : Text) (claims : Claims)
      → checked_claims c token_type token ≡ ok claims
      → (c.verify c.now token ≡ some claims) × (text_eq claims.token_type token_type ≡ true)
  unfolding checked_claims
  checked_claims-verify token_type token claims h =
      let (found, e1, h1) = bind-ok (of_option invalid_token (c.verify c.now token)) _ claims h in
      let (typed, h2) =
        require-ok (text_eq found.token_type token_type) invalid_token _ claims h1 in
      let (merchant, e3, h3) =
        bind-ok (of_option invalid_token (Ids.parse found.merchant)) _ claims h2 in
      let (user, e4, h4) = bind-ok (of_option invalid_token (Ids.parse found.user)) _ claims h3 in
      let q = ok-ok _ _ h4 in
      (
        of_option-ok _ _ _ e1 ∙ ap some q,
        sym (ap (λ (x : Claims). text_eq x.token_type token_type) q) ∙ typed,
      )

  abbrev pub HasToken : Option Text → Type 0
  HasToken bearer =
      (token : Text) × (claims : Claims) × (bearer ≡ some token)
      × (c.verify c.now token ≡ some claims)
      × (text_eq claims.token_type (codes "access") ≡ true)

  -- a principal with a user is that of a token
  validate_by-HasToken :
      (bearer : Option Text) (api_key : Text) (s : Session Accounts) (p : Principal)
      → (validate_by c bearer api_key s).0 ≡ ok p
      → is_some p.user ≡ true
      → HasToken bearer
  unfolding validate_token validate_key
  validate_by-HasToken (some token) api_key s p h user =
      let (claims, e1, h1) = on_ok-ok (checked_claims c (codes "access") token) s _ p h in
      let (verified, typed) = checked_claims-verify (codes "access") token claims e1 in
      (token, claims, refl, verified, typed)
  validate_by-HasToken none api_key s p h user =
      let (u, e1, h1) =
        on_ok-ok (require (not (text_eq api_key [])) AuthError.missing_credentials) s _ p h in
      let (k, e2, h2) =
        on_ok-ok (lookup_key c (pool_query s).0 api_key (pool_query s).1.db) (pool_query s).1 _ p
          h1 in
      let no_user : is_some p.user ≡ false =
        sym (ap (λ (x : Principal). is_some x.user) (ok-ok _ _ h2)) in
      absurd (ground arith)

  requester_of-is_user :
      (p : Principal) (q : Requester) → requester_of c p ≡ ok q → q.is_user ≡ is_some p.user
  unfolding requester_of
  requester_of-is_user p q h =
      let (m, e1, h1) =
        bind-ok (of_option invalid_merchant (Ids.parse (c.id_text p.merchant))) _ q h in
      sym (ap (λ (x : Requester). x.is_user) (ok-ok _ _ h1))

  with_refused-ok :
      (answer : Result AuthError Principal) (p : Principal)
      → with_refused c answer ≡ ok p
      → answer ≡ ok p
  with_refused-ok (ok x) p h = ap ok (ok-ok x p h)
  with_refused-ok (err e) p h = cc

  -- Whoever passes `authn` and then `require_user` has sent a bearer token that verifies as an access
  -- token; an API key does not pass.
  pub require_user-HasToken :
      (authorization api_key : Text) (s : Session Accounts) (q q' : Requester)
      → (authn c authorization api_key s).0 ≡ ok q
      → require_user q ≡ ok q'
      → HasToken (bearer_token c (trim_space (trim_space authorization)))
  unfolding authn require_user validate_credential
  require_user-HasToken authorization api_key s q q' h passed =
      let r : Credential = record {
        authorization = trim_space authorization;
        api_key = trim_space api_key;
      } in
      let (u, e1, h1) =
        on_ok-ok (require (not (is_blank authorization && is_blank api_key)) missing_credentials) s
          _ q h in
      let answer = (validate_credential c r s).0 in
      let (p, e2, h2) = on_ok-ok (with_refused c answer) (validate_credential c r s).1 _ q h1 in
      let is_user : q.is_user ≡ true = user_of q q' passed in
      validate_by-HasToken (bearer_token c (trim_space (trim_space authorization)))
        (trim_space (trim_space api_key)) s p (with_refused-ok answer p e2)
        (sym (requester_of-is_user p q h2) ∙ is_user)
