-- ===== src/Subscription/Service.antt =====
-- CreateSubscription, PauseSubscription and ResumeSubscription of
-- internal/services/checkoutsvc/service.go. JSON syntax and time.Parse are parameters.
use backend_go.Prelude.{
  ℕ, suc, Bool, true, false, not, ◌&&◌, ◌||◌, Option, none, some, List, [], ◌∷◌, ◌++◌, Text, codes,
  text_eq, trim_space, to_lower, to_upper, count, ◌==◌, if◌then◌else◌, Result, ok, err, ◌>>=◌, ◌>>◌,
  require, of_option, on_ok,
}
use backend_go.Float.{Float64}
use backend_go.Ids
use backend_go.Payment.Link.{is_blank}
use backend_go.Database.{Session, pool_exec}
use backend_go.Database.Transaction.{
  TxResult, committed, not_begun, not_committed, statement_failed, transact,
}
use backend_go.Store.{update_where}
use backend_go.Subscription.{
  Subscription, SubscriptionStatus, Cycle, CycleStatus, Vault, VaultStatus, Plans, add_interval,
  is_billed, at_least_one,
}
use backend_go.Checkout.Create.{opt_text, normalize_json}

-- the request; `interval_count` is 0 for what is not positive
pub record CreateSubscriptionRequest (F : Type 0) : Type 0 where
  pub merchant_id : Text
  pub payment_link_id : Text
  pub customer_ref : Text
  pub chain : Text
  pub token_symbol : Text
  pub token_address : Text
  pub amount : F
  pub currency : Text
  pub interval_unit : Text
  pub interval_count : ℕ
  pub first_billing_at : Text
  pub vault_contract : Text
  pub vault_wallet : Text
  pub vault_max : F
  pub vault_remaining : F
  pub vault_expires_at : Text
  pub metadata_json : Text

pub record PlanSetup : Type 0 where
  pub row_id : Text → ℕ
  pub json_valid : Text → Bool
  pub parse_time : Text → Option ℕ
  pub add_months : ℕ → ℕ → ℕ
  pub now : ℕ

pub data PlanError : Type 0 where
  bad_merchant_id token_and_amount_required bad_interval_unit vault_required bad_vault_max
        bad_first_billing bad_link_id bad_metadata bad_vault_expiry begin_failed subscription_failed
        vault_failed cycle_failed outbox_failed commit_failed bad_subscription_id update_failed
        not_found :
      PlanError

-- what is computed before the transaction
pub record SubscriptionPlan (F : Type 0) : Type 0 where
  pub merchant : ℕ
  pub link : Option ℕ
  pub unit : Text
  pub count : ℕ
  pub next_billing : ℕ
  pub period_end : ℕ
  pub remaining : F
  pub vault_expires : Option ℕ
  pub metadata : Text

-- a time that may be blank
abbrev pub optional_time : (Text → Option ℕ) → Text → PlanError → Result PlanError (Option ℕ)
optional_time parse raw e =
    if is_blank raw
    then ok none
    else elim (parse (trim_space raw)) [ none ↦ err e | some t ↦ ok (some t) ]

abbrev pub time_or : ℕ → Option ℕ → ℕ
time_or default none = default
time_or default (some t) = t

abbrev pub or_default : Text → Text → Text
or_default default s = if text_eq s [] then default else s

abbrev pub is_interval_unit : Text → Bool
is_interval_unit unit =
    text_eq unit (codes "day") || (text_eq unit (codes "week") || text_eq unit (codes "month"))

abbrev pub can_pause : ℕ → ℕ → Subscription → Bool
can_pause id merchant s = s.id == id && (s.merchant == merchant && is_billed s.status)

abbrev pub is_stopped : SubscriptionStatus → Bool
is_stopped SubscriptionStatus.paused = true
is_stopped SubscriptionStatus.past_due = true
is_stopped _ = false

abbrev pub can_resume : ℕ → ℕ → Subscription → Bool
can_resume id merchant s = s.id == id && (s.merchant == merchant && is_stopped s.status)

abbrev pub set_status : ℕ → SubscriptionStatus → Subscription → Subscription
set_status now status s = record s { status = status; updated_at = now }

abbrev pub pause_rows : ℕ → ℕ → ℕ → Plans → Plans
pause_rows now id merchant t = record t {
  subscriptions =
      update_where (can_pause id merchant) (set_status now SubscriptionStatus.paused)
        t.subscriptions;
}

abbrev pub resume_rows : ℕ → ℕ → ℕ → Plans → Plans
resume_rows now id merchant t = record t {
  subscriptions =
      update_where (can_resume id merchant) (set_status now SubscriptionStatus.active)
        t.subscriptions;
}

abbrev pub queue_event : ℕ → ℕ → Text → Plans → Plans
queue_event id merchant event_type t = record t {
  outbox = t.outbox ++ record { aggregate = id; merchant = merchant; event_type = event_type } ∷ [];
}

module _ (c : PlanSetup) where
  unfoldable pub parse_id : Text → PlanError → Result PlanError ℕ
  parse_id raw e = elim (Ids.parse (trim_space raw)) [ none ↦ err e | some id ↦ ok (c.row_id id) ]

  abbrev pub optional_id : Text → PlanError → Result PlanError (Option ℕ)
  optional_id raw e = if is_blank raw then ok none else do id ← parse_id raw e; ok (some id)

  module _ {F : Type 0} (fl : Float64 F) where
    open fl use {zero, le, numeric}

    unfoldable pub plan_subscription :
        CreateSubscriptionRequest F → Result PlanError (SubscriptionPlan F)
    unfolding parse_id add_interval
    plan_subscription r = do
      merchant ← parse_id r.merchant_id bad_merchant_id
      require (not (is_blank r.chain || (is_blank r.token_symbol || le r.amount zero)))
          token_and_amount_required
      let count = at_least_one r.interval_count
      let unit = or_default (codes "month") (to_lower (trim_space r.interval_unit))
      require (is_interval_unit unit) bad_interval_unit
      require (not (is_blank r.vault_contract || is_blank r.vault_wallet)) vault_required
      require (not (le r.vault_max zero)) bad_vault_max
      first ← optional_time c.parse_time r.first_billing_at bad_first_billing
      let next_billing = time_or (add_interval c.add_months c.now unit count) first
      link ← optional_id r.payment_link_id bad_link_id
      metadata ← of_option bad_metadata (normalize_json c.json_valid r.metadata_json (codes "{}"))
      expires ← optional_time c.parse_time r.vault_expires_at bad_vault_expiry
      ok (record {
        merchant = merchant;
        link = link;
        unit = unit;
        count = count;
        next_billing = next_billing;
        period_end = add_interval c.add_months next_billing unit count;
        remaining = if le r.vault_remaining zero then r.vault_max else r.vault_remaining;
        vault_expires = expires;
        metadata = metadata;
      })

    unfoldable pub new_subscription :
        ℕ → CreateSubscriptionRequest F → SubscriptionPlan F → Subscription
    new_subscription id r p = record {
      id = id;
      merchant = p.merchant;
      link = p.link;
      customer_ref = opt_text r.customer_ref;
      chain = to_lower r.chain;
      token_symbol = to_upper r.token_symbol;
      token_address = opt_text r.token_address;
      amount = numeric r.amount;
      currency = or_default (codes "USD") (to_upper (trim_space r.currency));
      vault_contract = r.vault_contract;
      metadata = p.metadata;
      interval_unit = p.unit;
      interval_count = p.count;
      status = SubscriptionStatus.active;
      next_billing_at = p.next_billing;
      updated_at = c.now;
    }

    unfoldable pub new_vault : ℕ → ℕ → CreateSubscriptionRequest F → SubscriptionPlan F → Vault
    new_vault id subscription r p = record {
      id = id;
      subscription = subscription;
      merchant = p.merchant;
      chain = to_lower r.chain;
      contract = r.vault_contract;
      customer_wallet = r.vault_wallet;
      token_symbol = to_upper r.token_symbol;
      token_address = opt_text r.token_address;
      max_total = numeric r.vault_max;
      remaining = numeric p.remaining;
      expires_at = p.vault_expires;
      status = VaultStatus.active;
    }

    unfoldable pub first_cycle : ℕ → ℕ → CreateSubscriptionRequest F → SubscriptionPlan F → Cycle
    first_cycle id subscription r p = record {
      id = id;
      subscription = subscription;
      index = 1;
      period_start = p.next_billing;
      period_end = p.period_end;
      due_at = p.next_billing;
      status = CycleStatus.due;
      amount = numeric r.amount;
      retry_count = 0;
      last_error = none;
    }

    -- with the ids of the subscription, its vault and its first cycle
    abbrev pub create_statements :
        ℕ → ℕ → ℕ → CreateSubscriptionRequest F → SubscriptionPlan F → List (Plans → Plans)
    create_statements id vault cycle r p =
        (λ (t : Plans). record t {
          subscriptions = t.subscriptions ++ new_subscription id r p ∷ [];
        })
        ∷ ((λ (t : Plans). record t { vaults = t.vaults ++ new_vault vault id r p ∷ [] })
            ∷ ((λ (t : Plans). record t { cycles = t.cycles ++ first_cycle cycle id r p ∷ [] })
                ∷ (queue_event id p.merchant (codes "subscription.created") ∷ [])))

    abbrev pub tx_error : TxResult → Result PlanError (Unit {0})
    tx_error committed = ok tt
    tx_error not_begun = err begin_failed
    tx_error not_committed = err commit_failed
    tx_error (statement_failed n) = err (
        if n == 0
        then subscription_failed
        else if n == 1
        then vault_failed
        else if n == 2
        then cycle_failed
        else outbox_failed)

    unfoldable pub create_subscription :
        CreateSubscriptionRequest F → Session Plans → Result PlanError ℕ × Session Plans
    unfolding plan_subscription new_subscription new_vault first_cycle
    create_subscription r s = on_ok (plan_subscription r) s (λ p.
        let id = s.next_id in
        let (result, s') =
          transact (create_statements id (suc id) (suc (suc id)) r p)
            (record s { next_id = suc (suc (suc id)) }) in
        (do tx_error result; ok id, s'))

  abbrev pub both_ids : Text → Text → Result PlanError (ℕ × ℕ)
  both_ids merchant_id id = do
    merchant ← parse_id merchant_id bad_merchant_id
    subscription ← parse_id id bad_subscription_id
    ok (merchant, subscription)

  -- an update that failed, or that changed no row
  abbrev pub updated : Bool → ℕ → Result PlanError (Unit {0})
  updated done affected = do require done update_failed; require (not (affected == 0)) not_found

  unfoldable pub pause_subscription :
      Text → Text → Session Plans → Result PlanError ℕ × Session Plans
  unfolding parse_id
  pause_subscription merchant_id id s =
      on_ok (both_ids merchant_id id) s (λ (merchant, subscription).
        let affected = count (can_pause subscription merchant) s.db.subscriptions in
        let (done, s1) = pool_exec (pause_rows c.now subscription merchant) s in
        on_ok (updated done affected) s1 (λ u. (
          ok subscription,
          (pool_exec (queue_event subscription merchant (codes "subscription.paused")) s1).1,
        )))

  unfoldable pub resume_subscription :
      Text → Text → Session Plans → Result PlanError ℕ × Session Plans
  unfolding parse_id
  resume_subscription merchant_id id s =
      on_ok (both_ids merchant_id id) s (λ (merchant, subscription).
        let affected = count (can_resume subscription merchant) s.db.subscriptions in
        let (done, s1) = pool_exec (resume_rows c.now subscription merchant) s in
        on_ok (updated done affected) s1 (λ u. (
          ok subscription,
          (pool_exec (queue_event subscription merchant (codes "subscription.resumed")) s1).1,
        )))
