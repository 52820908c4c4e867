-- ===== src/Payout/Examples.antt =====
-- Tests of the payout worker, and the theorems at concrete inputs.
use backend_go.Prelude.{
  true, ◌⊎◌, false, none, some, [], ◌∷◌, codes, trim_space, length, ◌≡◌, refl, arith,
}
use backend_go.Float.{fixed_point}
use backend_go.Payment.Status.{IntentStatus}
use backend_go.Database.{
  broken, done, refused, open_session, with_script, begin, exec, query, commit, rollback, pool_exec,
  pool_query,
}
use backend_go.Store.{
  Payout, Intent, Deposit, DepositStatus, WalletType, PayoutStatus, ItemStatus, Tables,
}
use backend_go.Payout.Amount.{ok, err, decimal_to_base_units, too_many_decimals, strip_hex_prefix}
use backend_go.Payout.Amount.Value.{Exact, decimal_to_base_units-Exact}
use backend_go.Payout.Scheduler.{
  ItemWork, complete_payout_item, complete_item, settle_intent, sweep_deposit, sent, Environment,
  World,
}
use backend_go.Payout.Process.{
  finish_payout_if_complete, remaining, complete_due_payouts, process_payouts, process_payout,
  process_items, process_item, close_payout, start_payouts, due_payouts, rows_of,
}
use backend_go.Payout.Schedule.{
  Group, schedule_payouts, schedule_groups, schedule_group, insert_items, groups, insert_payout,
  set_total,
}
use backend_go.Payout.Atomic.{complete_payout_item-atomic, finish_payout_if_complete_lem, finished}
use backend_go.Payout.Safety.{AllAccounted, complete_due_payouts-AllAccounted}
use backend_go.Payout.Unique.{IsUnique, schedule_payouts-IsUnique}
use backend_go.Payout.Refused.{schedule_group_refused}

cents : decimal_to_base_units (codes " 12.50 ") 6 ≡ ok 12_500_000
unfolding decimal_to_base_units
cents = refl

too_fine : decimal_to_base_units (codes "0.1234567") 6 ≡ err too_many_decimals
unfolding decimal_to_base_units
too_fine = refl

hex_prefix : strip_hex_prefix (codes " 0Xab") ≡ codes "ab"
unfolding strip_hex_prefix
hex_prefix = refl

decimal_to_base_units-Exact_example :
    Exact (codes "12") (codes "50") 6 (decimal_to_base_units (codes "12.50") 6)
decimal_to_base_units-Exact_example =
    decimal_to_base_units-Exact (codes "12") (codes "50") 6 refl refl

abbrev usdc : Intent
usdc = record {
  id = 7;
  session = 3;
  link = 8;
  merchant = 1;
  chain = codes "base";
  token_symbol = codes "USDC";
  token_address = [];
  status = IntentStatus.confirmed;
  expected = 5;
  tolerance = 0;
  min_acceptable = 5;
  max_acceptable = 5;
  received = 20_000_000_000;
  confirmations = 12;
  required = 12;
  tx_hash = [];
  expires_at = 100;
  confirmed_at = some 50;
  settled_at = none;
  updated_at = 40;
}

abbrev deposit : Deposit
deposit = record {
  intent = 7;
  address = codes "0x1";
  wallet_type = WalletType.eoa;
  encrypted_key = codes "k";
  factory_address = [];
  wallet_salt = [];
  status = DepositStatus.active;
}

abbrev one_paid : Tables
one_paid = record {
  intents = usdc ∷ [];
  sessions = [];
  deposits = deposit ∷ [];
  payouts = [];
  items = [];
  transfers = [];
  invoices = [];
  outbox = [];
}

abbrev base_usdc : Group
base_usdc = record { merchant = 1; chain = codes "base"; token_symbol = codes "USDC" }

abbrev environment : Environment
environment = record {
  mock = false;
  execute = λ calls r. sent (codes "0xaa");
  decrypt = λ key. some key;
  settlement = λ merchant. some (codes "0x2");
  now = 60;
}

abbrev first_payout : Payout
first_payout = record {
  id = 1;
  merchant = 1;
  chain = codes "base";
  token_symbol = codes "USDC";
  status = PayoutStatus.scheduled;
  total = 20_000_000_000;
  schedule_at = 55;
  attempts = 0;
  tx_hash = [];
  last_error = none;
}

abbrev planned : Tables
planned = record one_paid {
  payouts = first_payout ∷ [];
  items =
      record {
        id = 2;
        payout = 1;
        intent = 7;
        amount = 20_000_000_000;
        status = ItemStatus.pending;
        tx_hash = [];
        last_error = none;
      }
      ∷ [];
}

planned_by_worker : (schedule_payouts fixed_point 55 (open_session one_paid)).db ≡ planned
unfolding schedule_payouts schedule_groups schedule_group insert_items groups begin exec query
    commit rollback pool_query pool_exec
planned_by_worker = refl

abbrev planned_world : World
planned_world = record { session = open_session planned; calls = [] }

settled_by_worker :
    let t = (complete_due_payouts environment planned_world).session.db in
    (remaining 1 t ≡ 0) × (length t.outbox ≡ 1)
unfolding complete_due_payouts process_payouts process_payout process_items process_item
    close_payout finish_payout_if_complete complete_payout_item start_payouts due_payouts rows_of
    begin exec query commit rollback pool_query pool_exec trim_space
settled_by_worker = (refl, refl)

complete_due_payouts-AllAccounted_example :
    AllAccounted environment
      (λ intent. false)
      (complete_due_payouts environment planned_world).calls
      (complete_due_payouts environment planned_world).session.db
complete_due_payouts-AllAccounted_example =
    complete_due_payouts-AllAccounted environment (λ intent. false) planned_world (λ p. cc, tt)

schedule_payouts-IsUnique_example :
    IsUnique (schedule_payouts fixed_point 55 (open_session one_paid)).db
schedule_payouts-IsUnique_example =
    schedule_payouts-IsUnique fixed_point 55 (open_session one_paid)
      (record { ids = λ k. ground arith; one_each = λ k. omega arith })

schedule_group_refused_example :
    (schedule_group fixed_point 55 base_usdc
      (with_script one_paid (done ∷ done ∷ done ∷ refused ∷ []))).db
    ≡ set_total fixed_point 55 1 2 (insert_payout fixed_point 55 1 base_usdc one_paid)
schedule_group_refused_example = schedule_group_refused fixed_point 55 base_usdc one_paid

complete_payout_item-atomic_example :
    let work : ItemWork = record {
      item = 2;
      intent = 7;
      merchant = 1;
      chain = codes "base";
      token_symbol = codes "USDC";
      token_address = [];
      amount = 20_000_000_000;
      deposit_address = codes "0x1";
      encrypted_key = codes "k";
      wallet_type = WalletType.eoa;
      factory_address = [];
      wallet_salt = [];
      settlement_address = codes "0x2";
    } in
    let s = with_script planned (done ∷ done ∷ broken ∷ []) in
    (((complete_payout_item 60 work (codes "0xaa") s).0 ≡ true)
      × ((complete_payout_item 60 work (codes "0xaa") s).1.db
          ≡ sweep_deposit 7 (settle_intent 60 7 (complete_item 2 (codes "0xaa") planned))))
    ⊎ (((complete_payout_item 60 work (codes "0xaa") s).0 ≡ false)
        × ((complete_payout_item 60 work (codes "0xaa") s).1.db ≡ planned))
complete_payout_item-atomic_example =
    complete_payout_item-atomic 60
      (record {
        item = 2;
        intent = 7;
        merchant = 1;
        chain = codes "base";
        token_symbol = codes "USDC";
        token_address = [];
        amount = 20_000_000_000;
        deposit_address = codes "0x1";
        encrypted_key = codes "k";
        wallet_type = WalletType.eoa;
        factory_address = [];
        wallet_salt = [];
        settlement_address = codes "0x2";
      })
      (codes "0xaa") (with_script planned (done ∷ done ∷ broken ∷ []))

finish_payout_if_complete_example :
    ((finish_payout_if_complete first_payout (open_session planned)).1.db ≡ planned)
    ⊎ ((remaining 1 planned ≡ 0)
        × ((finish_payout_if_complete first_payout (open_session planned)).0 ≡ true)
        × ((finish_payout_if_complete first_payout (open_session planned)).1.db
            ≡ finished first_payout planned))
finish_payout_if_complete_example =
    finish_payout_if_complete_lem first_payout (open_session planned)
