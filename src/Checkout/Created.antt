-- ===== src/Checkout/Created.antt =====
-- What a created session is, and what its link allowed.
mod Examples
use mathlib.Core.Path.{subst}
use backend_go.Prelude.{
  ℕ, suc, ◌+◌, ◌≤◌, Bool, true, false, not, ◌&&◌, ◌||◌, Option, none, some, List, [], ◌∷◌, ◌++◌,
  Text, codes, text_eq, trim_space, find, ltb, leb, ◌==◌, ◌≡◌, ◌⊎◌, inl, inr, refl, ◌∙◌, ap, sym,
  arith, if◌then◌else◌, Result, ok, err, ◌>>=◌, ◌>>◌, require, of_option, bind-ok, require-ok,
  of_option-ok, on_ok-cases, require_both, ok-ok,
}
use backend_go.Float.{Float64}
use backend_go.Payment.Link.{is_blank}
use backend_go.Database.{Session, pool_query}
use backend_go.Database.Laws.{db-pool_query}
use backend_go.Database.Transaction.{
  TxResult, committed, not_begun, not_committed, statement_failed, is_committed, transact,
  transact_lem, apply_all,
}
use backend_go.Store.{Tables}
use backend_go.Checkout.Quote.{token_allowed, settlement_amount_for_token}
use backend_go.Checkout.Create.{
  LinkRow, CreateSessionInput, Setup, CreateError, link_required, chain_and_token_required,
  link_not_found, load_failed, not_active, link_expired, reusable_check_failed, already_paid,
  max_check_failed, max_reached, bad_allowed_tokens, token_not_allowed, quote_unavailable,
  SessionPlan, CreatedSession, link_matches, is_past, paid_count, query_if, is_limited, below_limit,
  session_expires_at, base_amount, adjusted, resolve_token_address, encrypt_key, type_or_eoa,
  normalize_json, opt_text, plan_session, create_statements, tx_error, write_session_tx,
  create_on_link, create_session,
}

-- `session_expires_at` is never more than a day after now. It is at least a minute after now, or it
-- is the link's own expiry; and it is never after the link's expiry.
pub session_expires_at_bounds :
    (now expires_in_sec : ℕ) (link_expires_at : Option ℕ)
    → (session_expires_at now expires_in_sec link_expires_at ≤ now + 86_400)
      × ((now + 60 ≤ session_expires_at now expires_in_sec link_expires_at)
          ⊎ (link_expires_at ≡ some (session_expires_at now expires_in_sec link_expires_at)))
      × ((limit : ℕ)
          → link_expires_at ≡ some limit
          → session_expires_at now expires_in_sec link_expires_at ≤ limit)
unfolding session_expires_at
session_expires_at_bounds now n none = (ground arith, ground arith, λ limit h. cc)
session_expires_at_bounds now n (some t) = (ground arith, ground arith, λ limit h. ground arith)

db-query_if : (b : Bool) (s : Session Tables) → (query_if b s).1.db ≡ s.db
db-query_if true s = db-pool_query s
db-query_if false s = refl

not-true : (b : Bool) → not b ≡ true → b ≡ false
not-true true h = cc
not-true false h = refl

module _ {F : Type 0} (fl : Float64 F) (c : Setup F) where
  -- a plan that was made for a link and a request
  pub record IsPlanned (l : LinkRow F) (r : CreateSessionInput F) (p : SessionPlan F) : Type 0 where
    pub priced :
        (base : F) × (base_amount fl c l r.amount ≡ ok base)
        × (p.amount ≡ adjusted fl c l.adjust_percent base)
    pub address : p.token_address ≡ resolve_token_address fl c r
    pub allowed :
        (tokens : _) × (l.allowed_tokens ≡ some tokens)
        × (token_allowed tokens r.chain r.token_symbol p.token_address ≡ true)
    pub quoted :
        settlement_amount_for_token fl c.quotes p.amount l.currency r.token_symbol ≡ some p.expected
    pub expiry : p.expires_at ≡ session_expires_at c.now r.expires_in_sec l.expires_at

  -- a link that takes one more payment, with the tables `t`
  pub record IsOpenFor (l : LinkRow F) (r : CreateSessionInput F) (t : Tables) : Type 0 where
    pub found : find (link_matches r.merchant (trim_space r.link_identifier)) c.links ≡ some l
    pub active : l.is_active ≡ true
    pub unexpired : is_past c.now l.expires_at ≡ false
    pub once : (l.reusable || paid_count l.id t == 0) ≡ true
    pub limited : below_limit (paid_count l.id t) l.max_payments ≡ true

  abbrev pub Outcome :
      CreateSessionInput F
      → Tables
      → Result CreateError (CreatedSession F) × Session Tables
      → Type 0
  Outcome r t (err e, s) = s.db ≡ t
  Outcome r t (ok o, s) =
      (l : LinkRow F) × IsOpenFor l r t
      × IsPlanned l r o.plan
      × (s.db ≡ apply_all (create_statements fl c o.id o.intent l r o.plan) t)

  plan_session-IsPlanned :
      (l : LinkRow F) (r : CreateSessionInput F) (intent : ℕ) (p : SessionPlan F)
      → plan_session fl c l r intent ≡ ok p
      → IsPlanned l r p
  unfolding plan_session
  plan_session-IsPlanned l r intent p h =
      let (base, e1, h1) = bind-ok (base_amount fl c l r.amount) _ p h in
      let (tokens, e2, h2) = bind-ok (of_option bad_allowed_tokens l.allowed_tokens) _ p h1 in
      let (allow, h3) =
        require-ok (token_allowed tokens r.chain r.token_symbol (resolve_token_address fl c r))
          token_not_allowed _ p h2 in
      let (expected, e4, h4) =
        bind-ok
          (of_option quote_unavailable (
            settlement_amount_for_token fl c.quotes (adjusted fl c l.adjust_percent base) l.currency
              r.token_symbol))
          _ p h3 in
      let (wallet, e5, h5) =
        bind-ok (of_option CreateError.wallet_failed (c.generate_wallet r.chain intent)) _ p h4 in
      let (key, e6, h6) =
        bind-ok (encrypt_key fl c (type_or_eoa fl c wallet.wallet_type) wallet) _ p h5 in
      let (secret, e7, h7) = bind-ok (of_option CreateError.secret_failed c.new_secret) _ p h6 in
      let (address, e8, h8) =
        bind-ok
          (of_option CreateError.bad_customer_address
            (normalize_json c.json_valid r.customer_address (codes "{}")))
          _ p h7 in
      let (metadata, e9, h9) =
        bind-ok
          (of_option CreateError.bad_metadata
            (normalize_json c.json_valid r.metadata_json (codes "{}")))
          _ p h8 in
      let q = sym (ok-ok _ _ h9) in
      let expected_is = ap (λ (x : SessionPlan F). x.expected) q in
      record {
        priced = (base, e1, ap (λ (x : SessionPlan F). x.amount) q);
        address = ap (λ (x : SessionPlan F). x.token_address) q;
        allowed = (
          tokens,
          of_option-ok _ _ _ e2,
          rw (ap (λ (x : SessionPlan F). x.token_address) q) allow,
        );
        quoted = rw (ap (λ (x : SessionPlan F). x.amount) q) rw expected_is (of_option-ok _ _ _ e4);
        expiry = ap (λ (x : SessionPlan F). x.expires_at) q;
      }

  tx_error_lem :
      (x : TxResult) → is_committed x ≡ false → (e : CreateError) × (tx_error fl c x ≡ err e)
  tx_error_lem committed h = cc
  tx_error_lem not_begun h = (_, refl)
  tx_error_lem not_committed h = (_, refl)
  tx_error_lem (statement_failed n) h = (_, refl)

  write_session_tx-Outcome :
      (l : LinkRow F) (r : CreateSessionInput F) (session intent : ℕ) (p : SessionPlan F)
      (t : Tables) (s : Session Tables)
      → IsOpenFor l r t
      → IsPlanned l r p
      → s.db ≡ t
      → Outcome r t (write_session_tx fl c l r session intent p s)
  unfolding write_session_tx
  write_session_tx-Outcome l r session intent p t s open_for planned e =
      let fs = create_statements fl c session intent l r p in
      elim (transact_lem fs s) [
        | inl (done, after) ↦ rw done (l, open_for, planned, after ∙ ap (apply_all fs) e)
        | inr (failed, same) ↦
            let (reason, q) = tx_error_lem (transact fs s).0 failed in rw q (same ∙ e)
      ]

  create_on_link-Outcome :
      (l : LinkRow F) (r : CreateSessionInput F) (t : Tables) (s : Session Tables)
      → find (link_matches r.merchant (trim_space r.link_identifier)) c.links ≡ some l
      → s.db ≡ t
      → Outcome r t (create_on_link fl c l r s)
  unfolding create_on_link
  create_on_link-Outcome l r t s found e =
      let P = Outcome r t in
      let s1 = (query_if (not l.reusable) s).1 in
      let s2 = (query_if (is_limited l.max_payments) s1).1 in
      let e1 = db-query_if (not l.reusable) s ∙ e in
      let e2 = db-query_if (is_limited l.max_payments) s1 ∙ e1 in
      on_ok-cases P
        (do require l.is_active not_active; require (not (is_past c.now l.expires_at)) link_expired)
        s _ (λ x. e)
        (λ u h1.
          let (active, unexpired) = require_both l.is_active _ not_active _ u h1 in
          on_ok-cases P
            (do
              require (query_if (not l.reusable) s).0 reusable_check_failed
              require (l.reusable || paid_count l.id s1.db == 0) already_paid)
            s1 _ (λ x. e1)
            (λ u' h2.
              let (queried, once) =
                require_both (query_if (not l.reusable) s).0 _ reusable_check_failed _ u' h2 in
              on_ok-cases P
                (do
                  require (query_if (is_limited l.max_payments) s1).0 max_check_failed
                  require (below_limit (paid_count l.id s2.db) l.max_payments) max_reached)
                s2 _ (λ x. e2)
                (λ u'' h3.
                  let (queried', limited) =
                    require_both (query_if (is_limited l.max_payments) s1).0 _ max_check_failed _
                      u'' h3 in
                  on_ok-cases P (plan_session fl c l r (suc s2.next_id)) _ _ (λ x. e2)
                    (λ p h4.
                      write_session_tx-Outcome l r _ _ p t _
                        record {
                          found = found;
                          active = active;
                          unexpired = not-true _ unexpired;
                          once =
                              subst (λ (x : Tables). (l.reusable || paid_count l.id x == 0) ≡ true)
                                e1 once;
                          limited =
                              subst
                                (λ (x : Tables).
                                  below_limit (paid_count l.id x) l.max_payments ≡ true)
                                e2 limited;
                        }
                        (plan_session-IsPlanned l r _ p h4) e2))))

  -- Whatever statements fail: when `create_session` returns an error, the committed tables are as they
  -- were. When it returns a session, then the link that the request names is active, not expired and
  -- open for one more payment; the amount, the token and its settlement amount, and the expiry are
  -- those that the link and the request allow; and the session, its intent, its deposit address and
  -- the event, and nothing else, have been added to the committed tables.
  pub create_session-Outcome :
      (r : CreateSessionInput F) (s : Session Tables) → Outcome r s.db (create_session fl c r s)
  unfolding create_session
  create_session-Outcome r s =
      let identifier = trim_space r.link_identifier in
      let s1 = (pool_query s).1 in
      on_ok-cases (Outcome r s.db)
        (do
          require (not (text_eq identifier [])) link_required
          require (not (is_blank r.chain || is_blank r.token_symbol)) chain_and_token_required)
        s _ (λ e. refl)
        (λ u h1.
          let loaded_link =
            of_option link_not_found (find (link_matches r.merchant identifier) c.links) in
          on_ok-cases (Outcome r s.db) (require (pool_query s).0 load_failed >> loaded_link) s1 _
            (λ e. db-pool_query s)
            (λ l h2.
              let (v, loaded, h3) =
                bind-ok (require (pool_query s).0 load_failed) (λ x. loaded_link) l h2 in
              create_on_link-Outcome l r s.db s1 (of_option-ok link_not_found _ _ h3)
                (db-pool_query s)))
