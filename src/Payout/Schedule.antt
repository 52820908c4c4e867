-- ===== src/Payout/Schedule.antt =====
-- `schedulePayouts` of payout_scheduler.go: the paid intents without a payout item are grouped by
-- merchant, chain and token, and each group becomes a payout with an item for each intent.
use backend_go.Prelude.{
  ℕ, suc, Bool, not, ◌&&◌, none, List, [], ◌∷◌, ◌++◌, Text, text_eq, select, any, ◌==◌,
  if◌then◌else◌,
}
use backend_go.Float.{Float64}
use backend_go.Database.{Session, begin, exec, query, commit, rollback, pool_query}
use backend_go.Store.{
  Intent, Payout, PayoutStatus, PayoutItem, ItemStatus, Tables, update_where, is_payable,
}

pub record Group : Type 0 where
  pub merchant : ℕ
  pub chain : Text
  pub token_symbol : Text

abbrev pub in_group : Group → Intent → Bool
in_group g i =
    i.merchant == g.merchant && (text_eq i.chain g.chain && text_eq i.token_symbol g.token_symbol)

abbrev pub has_item : List PayoutItem → Intent → Bool
has_item items i = any (λ (r : PayoutItem). r.intent == i.id) items

-- status IN ('confirmed', 'overpaid') AND id NOT IN (SELECT payment_intent_id FROM payout_items)
abbrev pub is_eligible : List PayoutItem → Intent → Bool
is_eligible items i = is_payable i.status && not (has_item items i)

abbrev pub group_of : Intent → Group
group_of i = record { merchant = i.merchant; chain = i.chain; token_symbol = i.token_symbol }

-- GROUP BY merchant_id, chain, token_symbol
unfoldable pub groups : List Intent → List Group
groups [] = []
groups (i ∷ intents) = group_of i ∷ select (λ g. not (in_group g i)) (groups intents)

module _ {F : Type 0} (fl : Float64 F) (now : ℕ) where
  open fl use {zero, add, parse, numeric}

  abbrev pub insert_payout : ℕ → Group → Tables → Tables
  insert_payout payout g t = record t {
    payouts =
        t.payouts
        ++ record {
          id = payout;
          merchant = g.merchant;
          chain = g.chain;
          token_symbol = g.token_symbol;
          status = PayoutStatus.scheduled;
          total = 0;
          schedule_at = now;
          attempts = 0;
          tx_hash = [];
          last_error = none;
        }
          ∷ [];
  }

  abbrev pub new_item : ℕ → ℕ → ℕ → F → PayoutItem
  new_item item payout intent amount = record {
    id = item;
    payout = payout;
    intent = intent;
    amount = numeric amount;
    status = ItemStatus.pending;
    tx_hash = [];
    last_error = none;
  }

  abbrev pub insert_item : ℕ → ℕ → ℕ → F → Tables → Tables
  insert_item item payout intent amount t = record t {
    items = t.items ++ new_item item payout intent amount ∷ [];
  }

  abbrev pub set_total : ℕ → F → Tables → Tables
  set_total payout total t = record t {
    payouts =
        update_where (λ (r : Payout). r.id == payout) (λ r. record r { total = numeric total })
          t.payouts;
  }

  -- the loop over the group's intents; the errors of its statements are discarded
  unfoldable pub insert_items : ℕ → List Intent → F → Session Tables → F × Session Tables
  insert_items payout [] total s = (total, s)
  insert_items payout (i ∷ intents) total s =
      let amount = parse i.received in
      let s' =
        (exec (insert_item s.next_id payout i.id amount)
          (record s { next_id = suc s.next_id })).1 in
      insert_items payout intents (add total amount) s'

  -- the body of the loop of `schedulePayouts`
  unfoldable pub schedule_group : Group → Session Tables → Session Tables
  schedule_group g s =
      let (begun, s1) = begin s in
      let payout = s1.next_id in
      let (inserted, s2) = exec (insert_payout payout g) (record s1 { next_id = suc s1.next_id }) in
      let (found, s3) = query s2 in
      let intents = select (λ i. in_group g i && is_eligible s3.work.items i) s3.work.intents in
      let (total, s4) = insert_items payout intents zero s3 in
      let s5 = (exec (set_total payout total) s4).1 in
      if not begun
      then s1
      else if not inserted
      then rollback s2
      else if not found
      then rollback s3
      else rollback (commit s5).1

  unfoldable pub schedule_groups : List Group → Session Tables → Session Tables
  schedule_groups [] s = s
  schedule_groups (g ∷ rest) s = schedule_groups rest (schedule_group g s)

  unfoldable pub schedule_payouts : Session Tables → Session Tables
  schedule_payouts s =
      let (found, s1) = pool_query s in
      if not found
      then s1
      else schedule_groups (groups (select (is_eligible s1.db.items) s1.db.intents)) s1
