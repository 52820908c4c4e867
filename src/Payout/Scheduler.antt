-- ===== src/Payout/Scheduler.antt =====
-- `completeDuePayouts` of payout_scheduler.go and what it calls: a payout's items are handed to
-- the executor, settled one by one in a transaction each, and the payout is completed when no
-- item is left. The executor, the decryption of a deposit key and the merchants' addresses are
-- parameters. A query that succeeds delivers all its rows.
use backend_go.Prelude.{
  ℕ, Bool, true, false, not, ◌&&◌, Option, none, some, List, Text, trim_space, length, take, ltb,
  ◌==◌, if◌then◌else◌,
}
use backend_go.Payment.Status.{IntentStatus}
use backend_go.Database.{Session, begin, exec, commit, rollback, pool_exec}
use backend_go.Store.{
  Intent, Deposit, DepositStatus, WalletType, Payout, PayoutStatus, PayoutItem, ItemStatus, Tables,
  update_where, is_payable,
}

-- the request of an executor, less the fields that only name the payout's currency
pub record Request : Type 0 where
  pub payout : ℕ
  pub item : ℕ
  pub intent : ℕ
  pub merchant : ℕ
  pub chain : Text
  pub token_symbol : Text
  pub token_address : Text
  pub amount : ℕ
  pub deposit_address : Text
  pub private_key : Text
  pub wallet_type : WalletType
  pub factory_address : Text
  pub wallet_salt : Text
  pub settlement_address : Text

pub data Executed : Type 0 where
  sent : Text → Executed
  rejected : Text → Executed

-- `execute` may depend on the calls that came before.
pub record Environment : Type 0 where
  pub mock : Bool
  pub execute : List Request → Request → Executed
  pub decrypt : Text → Option Text
  pub settlement : ℕ → Option Text
  pub now : ℕ

pub record World : Type 0 where
  pub session : Session Tables
  pub calls : List Request

-- the row that `processPayout` scans
pub record ItemWork : Type 0 where
  pub item : ℕ
  pub intent : ℕ
  pub merchant : ℕ
  pub chain : Text
  pub token_symbol : Text
  pub token_address : Text
  pub amount : ℕ
  pub deposit_address : Text
  pub encrypted_key : Text
  pub wallet_type : WalletType
  pub factory_address : Text
  pub wallet_salt : Text
  pub settlement_address : Text

abbrev pub is_completed : ItemStatus → Bool
is_completed ItemStatus.completed = true
is_completed _ = false

abbrev pub is_finished : PayoutStatus → Bool
is_finished PayoutStatus.completed = true
is_finished _ = false

abbrev pub is_due : PayoutStatus → Bool
is_due PayoutStatus.scheduled = true
is_due PayoutStatus.processing = true
is_due _ = false

abbrev pub is_create2 : WalletType → Bool
is_create2 WalletType.create2 = true
is_create2 WalletType.eoa = false

unfoldable pub truncate_error : Text → Text
truncate_error message = let m = trim_space message in if ltb 500 (length m) then take 500 m else m

-- UPDATE checkout.payout_items SET status='failed', last_error=$2 WHERE id=$1
abbrev pub fail_item : ℕ → Text → Tables → Tables
fail_item item message t = record t {
  items =
      update_where (λ (r : PayoutItem). r.id == item)
        (λ r. record r { status = ItemStatus.failed; last_error = some (truncate_error message) })
        t.items;
}

unfoldable pub mark_item_failed : ℕ → Text → Session Tables → Session Tables
mark_item_failed item message s = (pool_exec (fail_item item message) s).1

-- UPDATE checkout.payouts SET status='scheduled' … WHERE id=$1 AND status!='completed'
abbrev pub retry_payout : ℕ → Text → Tables → Tables
retry_payout payout message t = record t {
  payouts =
      update_where (λ (r : Payout). r.id == payout && not (is_finished r.status))
        (λ r. record r {
          status = PayoutStatus.scheduled;
          last_error = some (truncate_error message);
        })
        t.payouts;
}

unfoldable pub mark_payout_retry : ℕ → Text → Session Tables → Session Tables
mark_payout_retry payout message s = (pool_exec (retry_payout payout message) s).1

-- the three statements of completePayoutItem
abbrev pub complete_item : ℕ → Text → Tables → Tables
complete_item item tx_hash t = record t {
  items =
      update_where (λ (r : PayoutItem). r.id == item)
        (λ r. record r { status = ItemStatus.completed; tx_hash = tx_hash; last_error = none })
        t.items;
}

abbrev pub settle_intent : ℕ → ℕ → Tables → Tables
settle_intent now intent t = record t {
  intents =
      update_where (λ (r : Intent). r.id == intent && is_payable r.status)
        (λ r. record r { status = IntentStatus.settled; settled_at = some now; updated_at = now })
        t.intents;
}

abbrev pub sweep_deposit : ℕ → Tables → Tables
sweep_deposit intent t = record t {
  deposits =
      update_where (λ (r : Deposit). r.intent == intent)
        (λ r. record r { status = DepositStatus.swept }) t.deposits;
}

unfoldable pub complete_payout_item : ℕ → ItemWork → Text → Session Tables → Bool × Session Tables
complete_payout_item now work tx_hash s =
    let (begun, s1) = begin s in
    let (ok1, s2) = exec (complete_item work.item tx_hash) s1 in
    let (ok2, s3) = exec (settle_intent now work.intent) s2 in
    let (ok3, s4) = exec (sweep_deposit work.intent) s3 in
    if not begun
    then (false, s1)
    else if not ok1
    then (false, rollback s2)
    else if not ok2
    then (false, rollback s3)
    else if not ok3
    then (false, rollback s4)
    else let (done, s5) = commit s4 in (done, rollback s5)
