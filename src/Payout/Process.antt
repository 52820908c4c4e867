-- ===== src/Payout/Process.antt =====
-- `processPayout`, `finishPayoutIfComplete` and `completeDuePayouts` of payout_scheduler.go.
use backend_go.Prelude.{
  ℕ, ◌+◌, Bool, true, false, not, ◌&&◌, ◌||◌, Option, none, some, List, [], ◌∷◌, ◌++◌, Text, codes,
  select, any, count, find, ltb, leb, ◌==◌, if◌then◌else◌,
}
use backend_go.Payment.Link.{is_blank}
use backend_go.Database.{Session, begin, exec, query, commit, rollback, pool_exec, pool_query}
use backend_go.Store.{
  Intent, Deposit, Payout, PayoutStatus, PayoutItem, ItemStatus, Tables, update_where,
  enqueue_outbox, is_payable,
}
use backend_go.Payout.Scheduler.{
  Request, Executed, sent, rejected, Environment, World, ItemWork, is_completed, is_finished,
  is_due, is_create2, mark_item_failed, mark_payout_retry, complete_payout_item,
}

-- the joined row of an item, if its intent, deposit address and merchant are there
unfoldable pub row_of : Environment → PayoutItem → Option Intent → Option Deposit → Option ItemWork
row_of e it none d = none
row_of e it (some i) none = none
row_of e it (some i) (some d) =
    if is_payable i.status
    then elim (e.settlement i.merchant) [
      | none ↦ none
      | some settlement ↦ some (record {
        item = it.id;
        intent = it.intent;
        merchant = i.merchant;
        chain = i.chain;
        token_symbol = i.token_symbol;
        token_address = i.token_address;
        amount = it.amount;
        deposit_address = d.address;
        encrypted_key = d.encrypted_key;
        wallet_type = d.wallet_type;
        factory_address = d.factory_address;
        wallet_salt = d.wallet_salt;
        settlement_address = settlement;
      })
    ]
    else none

abbrev pub cons_some : {A : Type 0} → Option A → List A → List A
cons_some none xs = xs
cons_some (some x) xs = x ∷ xs

-- The rows of the query in `processPayout`, in the order of the items: an intent has one deposit
-- address at most (the column is UNIQUE).
unfoldable pub rows_of : Environment → Tables → ℕ → List PayoutItem → List ItemWork
unfolding row_of
rows_of e t payout [] = []
rows_of e t payout (it ∷ items) =
    let rest = rows_of e t payout items in
    if it.payout == payout && not (is_completed it.status)
    then cons_some
        (row_of e it (find (λ (i : Intent). i.id == it.intent) t.intents)
          (find (λ (d : Deposit). d.intent == it.intent) t.deposits))
        rest
    else rest

unfoldable pub request_of : ℕ → Text → ItemWork → Request
request_of payout private_key work = record {
  payout = payout;
  item = work.item;
  intent = work.intent;
  merchant = work.merchant;
  chain = work.chain;
  token_symbol = work.token_symbol;
  token_address = work.token_address;
  amount = work.amount;
  deposit_address = work.deposit_address;
  private_key = private_key;
  wallet_type = work.wallet_type;
  factory_address = work.factory_address;
  wallet_salt = work.wallet_salt;
  settlement_address = work.settlement_address;
}

-- UPDATE … SET status='processing', last_error=NULL WHERE id=$1 AND status IN (…)
abbrev pub start_item : ℕ → Tables → Tables
start_item item t = record t {
  items =
      update_where (λ (r : PayoutItem). r.id == item && not (is_completed r.status))
        (λ r. record r { status = ItemStatus.processing; last_error = none }) t.items;
}

-- what follows the executor's answer; the Boolean is `hadFailure`
unfoldable pub settle_result : ℕ → ItemWork → Executed → Session Tables → Bool × Session Tables
settle_result now work (rejected message) s = (true, mark_item_failed work.item message s)
settle_result now work (sent tx_hash) s =
    let (done, s') = complete_payout_item now work tx_hash s in
    if done
    then (false, s')
    else (true, mark_item_failed work.item (codes "failed to persist payout result") s')

unfoldable pub execute_item : Environment → ℕ → ItemWork → Text → World → Bool × World
unfolding request_of settle_result
execute_item e payout work private_key w =
    let s1 = (pool_exec (start_item work.item) w.session).1 in
    let request = request_of payout private_key work in
    let (failed, s2) = settle_result e.now work (e.execute w.calls request) s1 in
    (failed, record { session = s2; calls = w.calls ++ request ∷ [] })

-- the body of the loop of `processPayout`
unfoldable pub process_item : Environment → ℕ → ItemWork → World → Bool × World
unfolding execute_item
process_item e payout work w =
    if not e.mock && is_blank work.settlement_address
    then (
      true,
      record w {
        session =
            mark_item_failed work.item (codes "merchant settlement address is not configured")
              w.session;
      },
    )
    else if not e.mock && not (is_create2 work.wallet_type)
    then elim (e.decrypt work.encrypted_key) [
      | none ↦ (
        true,
        record w {
          session =
              mark_item_failed work.item (codes "failed to decrypt deposit private key") w.session;
        },
      )
      | some key ↦ execute_item e payout work key w
    ]
    else execute_item e payout work [] w

unfoldable pub process_items : Environment → ℕ → List ItemWork → World → Bool × World
process_items e payout [] w = (false, w)
process_items e payout (work ∷ rest) w =
    let (failed, w') = process_item e payout work w in
    let (later, w'') = process_items e payout rest w' in (failed || later, w'')

-- COALESCE(MAX(tx_hash), ''), in the order of the bytes
abbrev pub text_lt : Text → Text → Bool
text_lt [] [] = false
text_lt [] (b ∷ t) = true
text_lt (a ∷ s) [] = false
text_lt (a ∷ s) (b ∷ t) = ltb a b || (a == b && text_lt s t)

abbrev pub max_hash : List PayoutItem → Text
max_hash [] = []
max_hash (r ∷ items) = let m = max_hash items in if text_lt m r.tx_hash then r.tx_hash else m

abbrev pub items_of : ℕ → Tables → List PayoutItem
items_of payout t = select (λ (r : PayoutItem). r.payout == payout) t.items

abbrev pub remaining : ℕ → Tables → ℕ
remaining payout t = count (λ (r : PayoutItem). not (is_completed r.status)) (items_of payout t)

abbrev pub is_unfinished : ℕ → Payout → Bool
is_unfinished payout r = r.id == payout && not (is_finished r.status)

-- UPDATE checkout.payouts SET status='completed' … WHERE id=$1 AND status!='completed'
abbrev pub finish_payout : ℕ → Text → Tables → Tables
finish_payout payout tx_hash t = record t {
  payouts =
      update_where (is_unfinished payout)
        (λ r. record r { status = PayoutStatus.completed; tx_hash = tx_hash; last_error = none })
        t.payouts;
}

-- the event is written only if the update changed a row
unfoldable pub finish_by_rows : Payout → Bool → Session Tables → Bool × Session Tables
finish_by_rows payout false s = (true, s)
finish_by_rows payout true s =
    exec (enqueue_outbox payout.id payout.merchant (codes "payout.completed")) s

unfoldable pub finish_payout_if_complete : Payout → Session Tables → Bool × Session Tables
unfolding finish_by_rows
finish_payout_if_complete payout s =
    let (begun, s1) = begin s in
    let (counted, s2) = query s1 in
    let (updated, s3) = exec (finish_payout payout.id (max_hash (items_of payout.id s2.work))) s2 in
    let (queued, s4) = finish_by_rows payout (any (is_unfinished payout.id) s2.work.payouts) s3 in
    if not begun
    then (false, s1)
    else if not counted
    then (false, rollback s2)
    else if ltb 0 (remaining payout.id s2.work)
    then (let (done, s') = commit s2 in (done, rollback s'))
    else if not updated
    then (false, rollback s3)
    else if not queued
    then (false, rollback s4)
    else let (done, s') = commit s4 in (done, rollback s')

-- the end of `processPayout`, after the loop
unfoldable pub close_payout : Payout → Bool → World → World
close_payout payout failed w =
    let (finished, s) = finish_payout_if_complete payout w.session in
    if not finished
    then record w { session = mark_payout_retry payout.id (codes "failed to finish payout") s }
    else if failed
    then record w {
      session = mark_payout_retry payout.id (codes "one or more payout items failed") s;
    }
    else record w { session = s }

unfoldable pub process_payout : Environment → Payout → World → World
unfolding close_payout
process_payout e payout w =
    let (found, s) = pool_query w.session in
    if not found
    then record w { session = mark_payout_retry payout.id (codes "failed to load payout items") s }
    else let (failed, w') =
        process_items e payout.id (rows_of e s.db payout.id s.db.items)
          (record w { session = s }) in
      close_payout payout failed w'

unfoldable pub process_payouts : Environment → List Payout → World → World
process_payouts e [] w = w
process_payouts e (payout ∷ rest) w = process_payouts e rest (process_payout e payout w)

abbrev pub start_payout : ℕ → Tables → Tables
start_payout payout t = record t {
  payouts =
      update_where (λ (r : Payout). r.id == payout)
        (λ r. record r {
          status = PayoutStatus.processing;
          attempts = r.attempts + 1;
          last_error = none;
        })
        t.payouts;
}

-- the loop over the due payouts; the errors of its statements are discarded
unfoldable pub start_payouts : List Payout → Session Tables → Session Tables
start_payouts [] s = s
start_payouts (payout ∷ rest) s = start_payouts rest (exec (start_payout payout.id) s).1

unfoldable pub due_payouts : ℕ → Tables → List Payout
due_payouts now t = select (λ (r : Payout). is_due r.status && leb r.schedule_at now) t.payouts

unfoldable pub complete_due_payouts : Environment → World → World
complete_due_payouts e w =
    let (begun, s1) = begin w.session in
    let (found, s2) = query s1 in
    let payouts = due_payouts e.now s2.work in
    let (committed, s4) = commit (start_payouts payouts s2) in
    if not begun
    then record w { session = s1 }
    else if not found
    then record w { session = rollback s2 }
    else if not committed
    then record w { session = rollback s4 }
    else process_payouts e payouts (record w { session = rollback s4 })
