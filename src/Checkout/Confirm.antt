-- ===== src/Checkout/Confirm.antt =====
-- `ConfirmCheckoutSession` of internal/services/checkoutsvc/service.go. The number of an id's row,
-- JSON syntax, and the making of the invoice file are parameters.
use backend_go.Prelude.{
  ℕ, suc, Bool, false, not, ◌&&◌, Option, none, some, List, [], ◌∷◌, ◌++◌, Text, codes, text_eq,
  trim_space, find, any, leb, ◌==◌, if◌then◌else◌,
}
use backend_go.Float.{Float64}
use backend_go.Ids
use backend_go.Payment.Status.{IntentStatus}
use backend_go.Payment.Link.{is_blank}
use backend_go.Database.{Session, begin, exec, query, commit, rollback, pool_exec, pool_query}
use backend_go.Store.{
  Intent, CheckoutSession, SessionStatus, Transfer, TransferStatus, Invoice, Tables, update_where,
  enqueue_outbox,
}
use backend_go.Checkout.Decision.{Totals, Decision, aggregate, decide}

-- a request whose confirmations and block are not negative
pub record ConfirmRequest (F : Type 0) : Type 0 where
  pub merchant_id : Text
  pub session_id : Text
  pub tx_hash : Text
  pub received : F
  pub confirmations : ℕ
  pub block_number : Option ℕ
  pub from_address : Text
  pub to_address : Text
  pub raw_payload : Text

pub data ConfirmError : Type 0 where
  bad_merchant_id bad_session_id tx_hash_required session_not_found load_failed bad_payload
        begin_failed write_failed aggregate_failed intent_failed session_failed commit_failed :
      ConfirmError

pub record Confirmation : Type 0 where
  pub session : ℕ
  pub intent : ℕ
  pub status : IntentStatus
  pub confirmations : ℕ
  pub required : ℕ

pub data ConfirmResult : Type 0 where
  ok : Confirmation → ConfirmResult
  err : ConfirmError → ConfirmResult

-- `row_id` numbers the rows by their canonical id; `add_invoice` is the link's option, and
-- `make_invoice` the object key of the stored file, none if that failed.
pub record Services : Type 0 where
  pub row_id : Text → ℕ
  pub json_valid : Text → Bool
  pub add_invoice : ℕ → Bool
  pub make_invoice : ℕ → Option Text
  pub now : ℕ

-- ids.Parse(strings.TrimSpace(raw))
unfoldable pub parse_id : Services → Text → Option ℕ
parse_id sv raw = elim (Ids.parse (trim_space raw)) [ none ↦ none | some id ↦ some (sv.row_id id) ]

abbrev pub null_if_empty : Text → Option Text
null_if_empty s = if is_blank s then none else some (trim_space s)

abbrev pub coalesce : {A : Type 0} → Option A → Option A → Option A
coalesce none b = b
coalesce (some a) b = some a

-- the UNIQUE key of checkout.chain_transactions
abbrev pub same_transfer : Transfer → Transfer → Bool
same_transfer a b = a.intent == b.intent && (text_eq a.chain b.chain && text_eq a.tx_hash b.tx_hash)

-- DO UPDATE SET …
abbrev pub merge : Transfer → Transfer → Transfer
merge new old = record old {
  block_number = coalesce new.block_number old.block_number;
  from_address = coalesce new.from_address old.from_address;
  to_address = coalesce new.to_address old.to_address;
  amount = new.amount;
  token_symbol = new.token_symbol;
  confirmations = new.confirmations;
  status = new.status;
  raw_payload = new.raw_payload;
  observed_at = new.observed_at;
}

-- INSERT … ON CONFLICT (chain, tx_hash, payment_intent_id) DO UPDATE
unfoldable pub upsert : Transfer → List Transfer → List Transfer
upsert new [] = new ∷ []
upsert new (old ∷ transfers) =
    let rest = upsert new transfers in
    if same_transfer new old then merge new old ∷ transfers else old ∷ rest

module _ {F : Type 0} (fl : Float64 F) (sv : Services) where
  open fl use {parse, numeric}

  unfoldable pub transfer_of : ConfirmRequest F → Intent → Transfer
  transfer_of r i = record {
    intent = i.id;
    chain = i.chain;
    tx_hash = r.tx_hash;
    block_number = r.block_number;
    from_address = null_if_empty r.from_address;
    to_address = null_if_empty r.to_address;
    amount = numeric r.received;
    token_symbol = i.token_symbol;
    confirmations = r.confirmations;
    status =
        if leb i.required r.confirmations
        then TransferStatus.confirmed
        else TransferStatus.detected;
    raw_payload = if is_blank r.raw_payload then codes "{}" else r.raw_payload;
    observed_at = sv.now;
    created_at = sv.now;
  }

  abbrev pub write_transfer : Transfer → Tables → Tables
  write_transfer new t = record t { transfers = upsert new t.transfers }

  abbrev pub write_intent : ℕ → Decision → Totals → Tables → Tables
  write_intent intent d totals t = record t {
    intents =
        update_where (λ (i : Intent). i.id == intent)
          (λ i. record i {
            status = d.intent_status;
            received = numeric (parse totals.received);
            tx_hash = totals.latest;
            confirmations = totals.confirmations;
            confirmed_at = coalesce i.confirmed_at (if d.is_paid then some sv.now else none);
            updated_at = sv.now;
          })
          t.intents;
  }

  abbrev pub write_session : ℕ → SessionStatus → Tables → Tables
  write_session session status t = record t {
    sessions =
        update_where (λ (c : CheckoutSession). c.id == session) (λ c. record c { status = status })
          t.sessions;
  }

  -- the events; the errors of these statements are discarded
  unfoldable pub queue_events : Intent → Bool → Session Tables → Session Tables
  queue_events i paid s =
      let s1 = (exec (enqueue_outbox i.id i.merchant (codes "payment.detected")) s).1 in
      if paid then (exec (enqueue_outbox i.id i.merchant (codes "payment.confirmed")) s1).1 else s1

  -- the transaction, from Begin to Commit; the Boolean is `statusIsPaid`
  unfoldable pub confirm_tx :
      Intent → ConfirmRequest F → Session Tables → ConfirmResult × Bool × Session Tables
  confirm_tx i r s =
      let (begun, s1) = begin s in
      let (written, s2) = exec (write_transfer (transfer_of r i)) s1 in
      let (aggregated, s3) = query s2 in
      let totals = aggregate i.id i.required s3.work.transfers in
      let d = decide fl (parse i.expected) (parse i.tolerance) i.required totals in
      let (updated, s4) = exec (write_intent i.id d totals) s3 in
      let (marked, s5) = exec (write_session i.session d.session_status) s4 in
      let (committed, s7) = commit (queue_events i d.is_paid s5) in
      if not begun
      then (err begin_failed, false, s1)
      else if not written
      then (err write_failed, false, rollback s2)
      else if not aggregated
      then (err aggregate_failed, false, rollback s3)
      else if not updated
      then (err intent_failed, false, rollback s4)
      else if not marked
      then (err session_failed, false, rollback s5)
      else if not committed
      then (err commit_failed, false, rollback s7)
      else (
        ok (record {
          session = i.session;
          intent = i.id;
          status = d.intent_status;
          confirmations = totals.confirmations;
          required = i.required;
        }),
        d.is_paid,
        rollback s7,
      )

  abbrev pub insert_invoice : Invoice → Tables → Tables
  insert_invoice v t = record t {
    invoices =
        if any (λ (w : Invoice). w.intent == v.intent) t.invoices
        then t.invoices
        else t.invoices ++ v ∷ [];
  }

  abbrev pub has_invoice : ℕ → Tables → Bool
  has_invoice intent t = any (λ (w : Invoice). w.intent == intent) t.invoices

  -- the invoice of a paid intent: at most one row and one event
  unfoldable pub store_invoice : Intent → Text → Text → F → Session Tables → Session Tables
  store_invoice i currency key amount s =
      let v : Invoice = record {
        id = s.next_id;
        intent = i.id;
        merchant = i.merchant;
        object_key = key;
        amount = numeric amount;
        currency = currency;
      } in
      let (inserted, s1) = pool_exec (insert_invoice v) (record s { next_id = suc s.next_id }) in
      if inserted && not (has_invoice i.id s.db)
      then (pool_exec (enqueue_outbox v.id i.merchant (codes "invoice.created")) s1).1
      else s1

  unfoldable pub create_invoice : Intent → Text → F → Session Tables → Session Tables
  unfolding store_invoice
  create_invoice i currency amount s = elim (sv.make_invoice i.id) [
    | none ↦ s
    | some key ↦ if text_eq key [] then s else store_invoice i currency key amount s
  ]

  -- what follows a found intent and its session's currency
  unfoldable pub confirm_found :
      Intent → Text → ConfirmRequest F → Session Tables → ConfirmResult × Session Tables
  confirm_found i currency r s =
      if not (is_blank r.raw_payload) && not (sv.json_valid r.raw_payload)
      then (err bad_payload, s)
      else let (result, paid, s') = confirm_tx i r s in
        (
          result,
          if paid && sv.add_invoice i.id then create_invoice i currency r.received s' else s',
        )

  abbrev pub join_session : Option Intent → Option CheckoutSession → Option (Intent × Text)
  join_session none c = none
  join_session (some i) none = none
  join_session (some i) (some c) = some (i, c.currency)

  -- WHERE c.id=$1 AND i.merchant_id=$2, joined with the session
  unfoldable pub find_intent : ℕ → ℕ → Tables → Option (Intent × Text)
  find_intent session merchant t =
      join_session (find (λ (i : Intent). i.session == session && i.merchant == merchant) t.intents)
        (find (λ (c : CheckoutSession). c.id == session) t.sessions)

  unfoldable pub confirm_by_ids :
      ℕ → ℕ → ConfirmRequest F → Session Tables → ConfirmResult × Session Tables
  confirm_by_ids merchant session r s =
      let (loaded, s1) = pool_query s in
      if not loaded then (err load_failed, s1) else elim (find_intent session merchant s1.db) [
        | none ↦ (err session_not_found, s1)
        | some row ↦ confirm_found row.0 row.1 r s1
      ]

  unfoldable pub confirm_checkout_session :
      ConfirmRequest F → Session Tables → ConfirmResult × Session Tables
  unfolding parse_id
  confirm_checkout_session r s = elim (parse_id sv r.merchant_id) [
    | none ↦ (err bad_merchant_id, s)
    | some merchant ↦ elim (parse_id sv r.session_id) [
      | none ↦ (err bad_session_id, s)
      | some session ↦
          if is_blank r.tx_hash
          then (err tx_hash_required, s)
          else confirm_by_ids merchant session r s
    ]
  ]
