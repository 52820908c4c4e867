-- ===== src/Subscription.antt =====
-- Subscriptions: internal/platform/workers/subscription_scheduler.go, `addInterval` of
-- internal/platform/workers/common.go and internal/domain/subscription/cycle.go. Times are
-- seconds, and `add_months` stands for time.AddDate(0, n, 0). A time.Duration counts
-- nanoseconds in 64 bits and wraps around; a time is cut to its second, and is not before 1970.
pub mod Fresh
pub mod Service
pub mod Reach
pub mod Pause
mod Examples
use backend_go.Prelude.{
  ℕ, zero, suc, ◌+◌, ◌-◌, ◌*◌, ◌/◌, ℤ, pos, negsuc, to_int64, Bool, true, false, not, ◌&&◌, ◌||◌,
  Option, none, some, List, [], ◌∷◌, ◌++◌, Text, codes, text_eq, trim_space, to_lower, find, any,
  leb, ◌==◌, if◌then◌else◌,
}
use backend_go.Float.{Float64}
use backend_go.Database.{Session, begin, exec, query, commit, rollback}
use backend_go.Store.{Queued, update_where}

pub data SubscriptionStatus : Type 0 where
  active paused canceled past_due : SubscriptionStatus

pub data CycleStatus : Type 0 where
  due processing paid failed skipped : CycleStatus

pub data VaultStatus : Type 0 where
  active revoked expired : VaultStatus

pub record Subscription : Type 0 where
  pub id : ℕ
  pub merchant : ℕ
  pub link : Option ℕ
  pub customer_ref : Option Text
  pub chain : Text
  pub token_symbol : Text
  pub token_address : Option Text
  pub amount : ℕ
  pub currency : Text
  pub vault_contract : Text
  pub metadata : Text
  pub interval_unit : Text
  pub interval_count : ℕ
  pub status : SubscriptionStatus
  pub next_billing_at : ℕ
  pub updated_at : ℕ

pub record Cycle : Type 0 where
  pub id : ℕ
  pub subscription : ℕ
  pub index : ℕ
  pub period_start : ℕ
  pub period_end : ℕ
  pub due_at : ℕ
  pub status : CycleStatus
  pub amount : ℕ
  pub retry_count : ℕ
  pub last_error : Option Text

-- `subscription` is UNIQUE
pub record Vault : Type 0 where
  pub id : ℕ
  pub subscription : ℕ
  pub merchant : ℕ
  pub chain : Text
  pub contract : Text
  pub customer_wallet : Text
  pub token_symbol : Text
  pub token_address : Option Text
  pub max_total : ℕ
  pub remaining : ℕ
  pub expires_at : Option ℕ
  pub status : VaultStatus

pub record Plans : Type 0 where
  pub subscriptions : List Subscription
  pub cycles : List Cycle
  pub vaults : List Vault
  pub outbox : List Queued

-- EvaluateCycle
unfoldable pub evaluate_cycle : Bool → ℕ → ℕ → CycleStatus × SubscriptionStatus × Text
evaluate_cycle balance_enough retry_count max_retries =
    if balance_enough
    then (CycleStatus.paid, SubscriptionStatus.active, codes "subscription.debit_succeeded")
    else if leb max_retries retry_count
    then (CycleStatus.failed, SubscriptionStatus.past_due, codes "subscription.cycle_due")
    else (CycleStatus.failed, SubscriptionStatus.active, codes "subscription.cycle_due")

abbrev pub at_least_one : ℕ → ℕ
at_least_one zero = 1
at_least_one (suc n) = suc n

-- t.Add(d)
abbrev pub add_duration : ℕ → ℤ → ℕ
add_duration t (pos ns) = t + ns / 1_000_000_000
add_duration t (negsuc ns) = t - (ns / 1_000_000_000 + 1)

-- time.Duration(n) * 24 * time.Hour
unfoldable pub days : ℕ → ℤ
unfolding to_int64
days n = to_int64 (n * 86_400_000_000_000)

unfoldable pub add_interval : (ℕ → ℕ → ℕ) → ℕ → Text → ℕ → ℕ
unfolding days
add_interval add_months t unit count =
    let n = at_least_one count in
    let u = to_lower (trim_space unit) in
    if text_eq u (codes "day")
    then add_duration t (days n)
    else if text_eq u (codes "week")
    then add_duration t (days (n * 7))
    else add_months t n

-- the row that `process` scans
pub record DueCycle : Type 0 where
  pub cycle : Cycle
  pub subscription : Subscription
  pub vault : Vault

abbrev pub is_due : CycleStatus → Bool
is_due CycleStatus.due = true
is_due _ = false

abbrev pub is_past_due : SubscriptionStatus → Bool
is_past_due SubscriptionStatus.past_due = true
is_past_due _ = false

abbrev pub is_billed : SubscriptionStatus → Bool
is_billed SubscriptionStatus.active = true
is_billed _ = false

abbrev pub is_usable : VaultStatus → Bool
is_usable VaultStatus.active = true
is_usable _ = false

abbrev pub cons_due : Cycle → Option Subscription → Option Vault → List DueCycle → List DueCycle
cons_due c none v rows = rows
cons_due c (some s) none rows = rows
cons_due c (some s) (some v) rows =
    if is_billed s.status then record { cycle = c; subscription = s; vault = v } ∷ rows else rows

unfoldable pub due_cycles : ℕ → Plans → List Cycle → List DueCycle
due_cycles now t [] = []
due_cycles now t (c ∷ cycles) =
    let rest = due_cycles now t cycles in
    if is_due c.status && leb c.due_at now
    then cons_due c (find (λ (s : Subscription). s.id == c.subscription) t.subscriptions)
        (find (λ (v : Vault). v.subscription == c.subscription) t.vaults) rest
    else rest

abbrev pub set_remaining : ℕ → ℕ → Plans → Plans
set_remaining vault remaining t = record t {
  vaults =
      update_where (λ (v : Vault). v.id == vault) (λ v. record v { remaining = remaining })
        t.vaults;
}

abbrev pub pay_cycle : ℕ → Plans → Plans
pay_cycle cycle t = record t {
  cycles =
      update_where (λ (c : Cycle). c.id == cycle) (λ c. record c { status = CycleStatus.paid })
        t.cycles;
}

abbrev pub fail_cycle : ℕ → ℕ → Plans → Plans
fail_cycle cycle retry t = record t {
  cycles =
      update_where (λ (c : Cycle). c.id == cycle)
        (λ c. record c {
          status = CycleStatus.failed;
          retry_count = retry;
          last_error = some (codes "insufficient vault balance");
        })
        t.cycles;
}

abbrev pub set_next_billing : ℕ → ℕ → ℕ → Plans → Plans
set_next_billing now subscription at t = record t {
  subscriptions =
      update_where (λ (s : Subscription). s.id == subscription)
        (λ s. record s { next_billing_at = at; updated_at = now }) t.subscriptions;
}

abbrev pub set_past_due : ℕ → ℕ → Plans → Plans
set_past_due now subscription t = record t {
  subscriptions =
      update_where (λ (s : Subscription). s.id == subscription)
        (λ s. record s { status = SubscriptionStatus.past_due; updated_at = now }) t.subscriptions;
}

-- INSERT … ON CONFLICT (subscription_id, cycle_index) DO NOTHING
abbrev pub insert_cycle : Cycle → Plans → Plans
insert_cycle new t = record t {
  cycles =
      if any (λ (c : Cycle). c.subscription == new.subscription && c.index == new.index) t.cycles
      then t.cycles
      else t.cycles ++ new ∷ [];
}

abbrev pub enqueue_event : Subscription → Text → Plans → Plans
enqueue_event s event_type t = record t {
  outbox =
      t.outbox ++ record { aggregate = s.id; merchant = s.merchant; event_type = event_type } ∷ [];
}

module _ {F : Type 0} (fl : Float64 F) (add_months : ℕ → ℕ → ℕ) (now : ℕ) where
  open fl use {sub, le, parse, numeric}

  abbrev pub next_cycle : ℕ → DueCycle → Cycle
  next_cycle id r =
      let s = r.subscription in
      let start = add_interval add_months r.cycle.due_at s.interval_unit s.interval_count in
      record {
        id = id;
        subscription = s.id;
        index = r.cycle.index + 1;
        period_start = start;
        period_end = add_interval add_months start s.interval_unit s.interval_count;
        due_at = start;
        status = CycleStatus.due;
        amount = numeric (parse r.cycle.amount);
        retry_count = 0;
        last_error = none;
      }

  -- a cycle that the vault covers; the errors of the statements are discarded
  unfoldable pub debit : DueCycle → Session Plans → Session Plans
  debit r s =
      let left = sub (parse r.vault.remaining) (parse r.cycle.amount) in
      let next = next_cycle s.next_id r in
      let s1 =
        (exec (set_remaining r.vault.id (numeric left)) (record s { next_id = suc s.next_id })).1 in
      let s2 = (exec (pay_cycle r.cycle.id) s1).1 in
      let s3 = (exec (set_next_billing now r.subscription.id next.due_at) s2).1 in
      let s4 = (exec (insert_cycle next) s3).1 in
      (exec (enqueue_event r.subscription (codes "subscription.debit_succeeded")) s4).1

  unfoldable pub miss : DueCycle → Session Plans → Session Plans
  miss r s =
      let retry = r.cycle.retry_count + 1 in
      let s1 = (exec (fail_cycle r.cycle.id retry) s).1 in
      let s2 = if leb 3 retry then (exec (set_past_due now r.subscription.id) s1).1 else s1 in
      (exec (enqueue_event r.subscription (codes "subscription.cycle_due")) s2).1

  unfoldable pub bill : DueCycle → Session Plans → Session Plans
  bill r s =
      if is_usable r.vault.status && le (parse r.cycle.amount) (parse r.vault.remaining)
      then debit r s
      else miss r s

  unfoldable pub bill_all : List DueCycle → Session Plans → Session Plans
  bill_all [] s = s
  bill_all (r ∷ rows) s = bill_all rows (bill r s)

  unfoldable pub process : Session Plans → Session Plans
  process s =
      let (begun, s1) = begin s in
      let (found, s2) = query s1 in
      if not begun
      then s1
      else if not found
      then rollback s2
      else rollback (commit (bill_all (due_cycles now s2.work s2.work.cycles) s2)).1
