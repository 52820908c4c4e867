-- ===== src/Observer/Examples.antt =====
-- Tests of the chain observer, and the theorems at concrete inputs.
use backend_go.Prelude.{
  pos, to_int32, to_int64, false, ◌⊎◌, ℕ, ◌+◌, ◌-◌, true, none, some, Option, List, [], ◌∷◌, Text,
  codes, ◌≡◌, ◌≢◌, refl, if◌then◌else◌, ◌==◌, trim_space,
}
use backend_go.Payment.Status.{IntentStatus}
use backend_go.Database.{
  done, refused, broken, open_session, with_script, begin, exec, query, commit, rollback,
}
use backend_go.Store.{Intent, Tables}
use backend_go.Observer.Balance.{
  expire_old_intents, expire_rows, confirm_observed_balance, balance_is_paid,
}
use backend_go.Float.{fixed_point}
use backend_go.Checkout.Atomic.{SameRows}
use backend_go.Observer.Atomic.{balance_written, confirm_observed_balance-atomic}
use backend_go.Observer.Expiry.{OnlyExpires, expire_old_intents-OnlyExpires}
use backend_go.Observer.Scan.{range, filter_transfer_logs, filter_transfer_logs-total}
use backend_go.Observer.Recorded.{
  Node, RecordedTransaction, ConfirmCall, Justified, mined, update_recorded_transaction,
  update_recorded_transaction-Justified, update_by_client, update_by_receipt, latest_block,
  confirm_mined, client_for_chain, is_hex_hash,
}

abbrev logs_at : ℕ → List ℕ
logs_at b = if b == 20_000 then 1 ∷ [] else []

abbrev logs_between : ℕ → ℕ → Option (List ℕ)
logs_between lo hi = some (range logs_at lo (hi + 1 - lo))

filter_transfer_logs-total_example :
    filter_transfer_logs logs_between (codes "hyperevm") 60_000 ≢ none
filter_transfer_logs-total_example =
    filter_transfer_logs-total logs_between (codes "hyperevm") 60_000

abbrev hash : Text
hash = codes "0x00000000000000000000000000000000000000000000000000000000000000aB"

abbrev node : Node
node = record {
  clients = λ name. true;
  receipt = λ client tx_hash. mined true 90;
  block_number = λ client. some 101;
}

abbrev transaction : RecordedTransaction
transaction = record {
  session = 3;
  merchant = 1;
  intent = 7;
  chain = codes "Base";
  tx_hash = hash;
  amount = 5;
  from_address = [];
  to_address = [];
  required = 12;
}

abbrev call : ConfirmCall
call = record { transaction = transaction; confirmations = pos 12; block = pos 90 }

twelve_blocks : (update_recorded_transaction node transaction []).0 ≡ some call
unfolding update_recorded_transaction update_by_client update_by_receipt latest_block confirm_mined
    to_int32 to_int64 client_for_chain is_hex_hash trim_space
twelve_blocks = refl

update_recorded_transaction-Justified_example : Justified node transaction [] call
update_recorded_transaction-Justified_example =
    update_recorded_transaction-Justified node transaction [] call twelve_blocks

abbrev late : Intent
late = record {
  id = 7;
  session = 3;
  link = 8;
  merchant = 1;
  chain = codes "base";
  token_symbol = codes "USDC";
  token_address = [];
  status = IntentStatus.partial;
  expected = 5;
  tolerance = 0;
  min_acceptable = 5;
  max_acceptable = 5;
  received = 2;
  confirmations = 12;
  required = 12;
  tx_hash = [];
  expires_at = 40;
  confirmed_at = none;
  settled_at = none;
  updated_at = 40;
}

abbrev one_late : Tables
one_late = record {
  intents = late ∷ [];
  sessions = [];
  deposits = [];
  payouts = [];
  items = [];
  transfers = [];
  invoices = [];
  outbox = [];
}

expires :
    (expire_old_intents 50 (open_session one_late)).db.intents
    ≡ record late { status = IntentStatus.expired; updated_at = 50 } ∷ []
unfolding expire_old_intents expire_rows begin exec query commit rollback
expires = refl

-- the client library refuses the statements of the loop while the query's rows are open
never_expires :
    (expire_old_intents 50
      (with_script one_late (done ∷ (done ∷ (refused ∷ (refused ∷ (refused ∷ []))))))).db.intents
    ≡ late ∷ []
unfolding expire_old_intents expire_rows begin exec query commit rollback
never_expires = refl

expire_old_intents-OnlyExpires_example :
    OnlyExpires 50 one_late.intents
      (expire_old_intents 50
        (with_script one_late (done ∷ (done ∷ (done ∷ (broken ∷ [])))))).db.intents
expire_old_intents-OnlyExpires_example =
    expire_old_intents-OnlyExpires 50
      (with_script one_late (done ∷ (done ∷ (done ∷ (broken ∷ [])))))

confirm_observed_balance-atomic_example :
    let s = with_script one_late (done ∷ (done ∷ (broken ∷ []))) in
    let after = confirm_observed_balance fixed_point 50 late 5 s in
    ((after.1.db ≡ s.db) × (after.0 ≡ false))
    ⊎ (SameRows after.1.db (balance_written fixed_point 50 late 5 s.db)
        × (after.0 ≡ balance_is_paid fixed_point 50 late 5))
confirm_observed_balance-atomic_example =
    confirm_observed_balance-atomic fixed_point 50 late 5
      (with_script one_late (done ∷ (done ∷ (broken ∷ []))))
