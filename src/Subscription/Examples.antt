-- ===== src/Subscription/Examples.antt =====
-- Tests of the subscription scheduler, and the theorem at a concrete input.
use backend_go.Prelude.{
  Text, text_eq, if◌then◌else◌, ok, ℕ, ◌+◌, ◌*◌, true, none, some, [], ◌∷◌, codes, ◌≡◌, refl,
  trim_space,
}
use backend_go.Float.{fixed_point}
use backend_go.Database.{pool_exec, open_session, begin, exec, query, commit, rollback}
use backend_go.Subscription.{
  Plans, Subscription, Cycle, SubscriptionStatus, CycleStatus, VaultStatus, evaluate_cycle,
  add_interval, process, bill_all, bill, debit, miss, due_cycles,
}
use backend_go.Database.Transaction.{transact, exec_all}
use backend_go.Ids
use backend_go.Subscription.Service.{
  PlanSetup, CreateSubscriptionRequest, create_subscription, pause_subscription,
  resume_subscription, both_ids, parse_id,
}
use backend_go.Subscription.Reach.{Step, Reach, Reach-IsFresh}
use backend_go.Subscription.Pause.{resume_subscription-pause_subscription}
use backend_go.Subscription.Fresh.{IsFresh, process-IsFresh}

abbrev thirty_days : ℕ → ℕ → ℕ
thirty_days t n = t + n * 2_592_000

a_week : add_interval thirty_days 100 (codes " Week ") 0 ≡ 604_900
unfolding add_interval trim_space
a_week = refl

-- 106,752 days are more nanoseconds than an int64 holds: the next billing is in the past
wrapped : add_interval thirty_days 20_000_000_000 (codes "day") 106_752 ≡ 10_776_628_726
unfolding add_interval trim_space
wrapped = refl

covered : (evaluate_cycle true 3 3).0 ≡ CycleStatus.paid
unfolding evaluate_cycle
covered = refl

abbrev monthly : Subscription
monthly = record {
  id = 4;
  merchant = 1;
  link = none;
  customer_ref = none;
  chain = codes "base";
  token_symbol = codes "USDC";
  token_address = none;
  amount = 5_000_000_000_000_000_000;
  currency = codes "USD";
  vault_contract = codes "0xv";
  metadata = codes "{}";
  interval_unit = codes "month";
  interval_count = 1;
  status = SubscriptionStatus.active;
  next_billing_at = 100;
  updated_at = 40;
}

abbrev first_cycle : Cycle
first_cycle = record {
  id = 9;
  subscription = 4;
  index = 1;
  period_start = 0;
  period_end = 100;
  due_at = 100;
  status = CycleStatus.due;
  amount = 5_000_000_000_000_000_000;
  retry_count = 0;
  last_error = none;
}

abbrev plans : Plans
plans = record {
  subscriptions = monthly ∷ [];
  cycles = first_cycle ∷ [];
  vaults =
      record {
        id = 2;
        subscription = 4;
        merchant = 1;
        chain = codes "base";
        contract = codes "0xv";
        customer_wallet = codes "0xc";
        token_symbol = codes "USDC";
        token_address = none;
        max_total = 9_000_000_000_000_000_000;
        expires_at = none;
        remaining = 4_000_000_000_000_000_000;
        status = VaultStatus.active;
      }
      ∷ [];
  outbox = [];
}

not_covered :
    (process fixed_point thirty_days 200 (open_session plans)).db.cycles
    ≡ record first_cycle {
      status = CycleStatus.failed;
      retry_count = 1;
      last_error = some (codes "insufficient vault balance");
    }
      ∷ []
unfolding process bill_all bill debit miss due_cycles begin exec query commit rollback
not_covered = refl

process-IsFresh_example : IsFresh (process fixed_point thirty_days 200 (open_session plans)).db
process-IsFresh_example =
    process-IsFresh fixed_point thirty_days 200 (open_session plans)
      (record { cycles = ((λ d. refl), tt); subscriptions = (refl, tt) })

abbrev merchant_text : Text
merchant_text = codes "01ARZ3NDEKTSV4RRFFQ69G5FAV"

abbrev subscription_text : Text
subscription_text = codes "01ARZ3NDEKTSV4RRFFQ69G5FAW"

abbrev plan_setup : PlanSetup
plan_setup = record {
  row_id = λ id. if text_eq id merchant_text then 1 else 4;
  json_valid = λ raw. true;
  parse_time = λ raw. none;
  add_months = thirty_days;
  now = 100;
}

abbrev weekly : CreateSubscriptionRequest ℕ
weekly = record {
  merchant_id = merchant_text;
  payment_link_id = [];
  customer_ref = codes "r";
  chain = codes "Base";
  token_symbol = codes "usdc";
  token_address = [];
  amount = 500_000_000;
  currency = [];
  interval_unit = codes "Week";
  interval_count = 0;
  first_billing_at = [];
  vault_contract = codes "0xv";
  vault_wallet = codes "0xc";
  vault_max = 900_000_000;
  vault_remaining = 0;
  vault_expires_at = [];
  metadata_json = [];
}

first_due :
    (create_subscription plan_setup fixed_point weekly (open_session plans)).1.db.cycles
    ≡ first_cycle
      ∷ (record {
        id = 3;
        subscription = 1;
        index = 1;
        period_start = 604_900;
        period_end = 1_209_700;
        due_at = 604_900;
        status = CycleStatus.due;
        amount = 5_000_000_000_000_000_000;
        retry_count = 0;
        last_error = none;
      }
          ∷ [])
unfolding create_subscription transact exec_all begin exec commit rollback add_interval trim_space
    parse_id Ids.parse Ids.is_valid Ids.is_crockford
first_due = refl

-- a new subscription, billed later
Reach-IsFresh_example :
    IsFresh
      (process fixed_point thirty_days 700_000
        (create_subscription plan_setup fixed_point weekly (open_session plans)).1).db
Reach-IsFresh_example =
    Reach-IsFresh fixed_point
      (Reach.next (Reach.next Reach.start (Step.create plan_setup weekly (open_session plans))) (
        Step.bill thirty_days 700_000
          (create_subscription plan_setup fixed_point weekly (open_session plans)).1))
      (record { cycles = ((λ d. refl), tt); subscriptions = (refl, tt) })

abbrev later_setup : PlanSetup
later_setup = record plan_setup { now = 900 }

named : both_ids plan_setup merchant_text subscription_text ≡ ok (1, 4)
unfolding parse_id Ids.parse Ids.is_valid Ids.is_crockford trim_space
named = refl

paused :
    (pause_subscription plan_setup merchant_text subscription_text (open_session plans)).0 ≡ ok 4
unfolding pause_subscription parse_id Ids.parse Ids.is_valid Ids.is_crockford trim_space pool_exec
paused = refl

named_later : both_ids later_setup merchant_text subscription_text ≡ ok (1, 4)
unfolding parse_id Ids.parse Ids.is_valid Ids.is_crockford trim_space
named_later = refl

resumed :
    (resume_subscription later_setup merchant_text subscription_text
      (pause_subscription plan_setup merchant_text subscription_text (open_session plans)).1).0
    ≡ ok 4
unfolding pause_subscription resume_subscription parse_id Ids.parse Ids.is_valid Ids.is_crockford
    trim_space pool_exec
resumed = refl

resume_subscription-pause_subscription_example :
    (resume_subscription later_setup merchant_text subscription_text
      (pause_subscription plan_setup merchant_text subscription_text
        (open_session plans)).1).1.db.subscriptions
    ≡ record monthly { updated_at = 900 } ∷ []
resume_subscription-pause_subscription_example =
    resume_subscription-pause_subscription plan_setup later_setup merchant_text subscription_text 1
      4 4 4 (open_session plans) named named_later ((λ i m. refl), tt) paused resumed
