-- ===== src/Store.antt =====
-- The tables of the `checkout` schema that several services share (migrations/000007_init.up.sql),
-- with the columns that decide what a service does or that a theorem speaks of: of the columns
-- `created_at` and `updated_at`, which are set to NOW() and are only shown, the `updated_at` of
-- intents and the `created_at` of transfers are here. Identifiers are compared for equality only
-- and are numbers; times are seconds; NUMERIC amounts count units of 10^-18.
use backend_go.Prelude.{
  ℕ, Bool, true, false, Option, List, [], ◌∷◌, ◌++◌, Text, if◌then◌else◌, All, Bool-cases, inl, inr,
}
use backend_go.Payment.Status.{IntentStatus}

pub record Intent : Type 0 where
  pub id : ℕ
  pub session : ℕ
  pub link : ℕ
  pub merchant : ℕ
  pub chain : Text
  pub token_symbol : Text
  pub token_address : Text
  pub status : IntentStatus
  pub expected : ℕ
  pub tolerance : ℕ
  pub min_acceptable : ℕ
  pub max_acceptable : ℕ
  pub received : ℕ
  pub confirmations : ℕ
  pub required : ℕ
  pub tx_hash : Text
  pub expires_at : ℕ
  pub confirmed_at : Option ℕ
  pub settled_at : Option ℕ
  pub updated_at : ℕ

pub data SessionStatus : Type 0 where
  created awaiting_funds paid expired failed canceled : SessionStatus

pub record Customer : Type 0 where
  pub email : Option Text
  pub name : Option Text
  pub phone : Option Text
  pub address : Text

pub record CheckoutSession : Type 0 where
  pub id : ℕ
  pub link : ℕ
  pub merchant : ℕ
  pub customer : Customer
  pub amount : ℕ
  pub currency : Text
  pub chain : Text
  pub token_symbol : Text
  pub token_address : Option Text
  pub expires_at : ℕ
  pub success_url : Option Text
  pub client_secret_hash : Text
  pub status : SessionStatus

-- the CHECK on deposit addresses: 'eoa' or 'create2'; 'active', 'swept' or 'compromised'
pub data WalletType : Type 0 where
  eoa create2 : WalletType

pub data DepositStatus : Type 0 where
  active swept compromised : DepositStatus

pub record Deposit : Type 0 where
  pub intent : ℕ
  pub address : Text
  pub wallet_type : WalletType
  pub encrypted_key : Text
  pub factory_address : Text
  pub wallet_salt : Text
  pub status : DepositStatus

pub data PayoutStatus : Type 0 where
  scheduled processing completed failed : PayoutStatus

pub record Payout : Type 0 where
  pub id : ℕ
  pub merchant : ℕ
  pub chain : Text
  pub token_symbol : Text
  pub status : PayoutStatus
  pub total : ℕ
  pub schedule_at : ℕ
  pub attempts : ℕ
  pub tx_hash : Text
  pub last_error : Option Text

pub data ItemStatus : Type 0 where
  pending processing completed failed : ItemStatus

pub record PayoutItem : Type 0 where
  pub id : ℕ
  pub payout : ℕ
  pub intent : ℕ
  pub amount : ℕ
  pub status : ItemStatus
  pub tx_hash : Text
  pub last_error : Option Text

-- an event written to platform.outbox_events, its JSON payload left out
pub record Queued : Type 0 where
  pub aggregate : ℕ
  pub merchant : ℕ
  pub event_type : Text

-- a row of checkout.chain_transactions
pub data TransferStatus : Type 0 where
  detected confirmed reorged : TransferStatus

pub record Transfer : Type 0 where
  pub intent : ℕ
  pub chain : Text
  pub tx_hash : Text
  pub block_number : Option ℕ
  pub from_address : Option Text
  pub to_address : Option Text
  pub amount : ℕ
  pub token_symbol : Text
  pub confirmations : ℕ
  pub status : TransferStatus
  pub raw_payload : Text
  pub observed_at : ℕ
  pub created_at : ℕ

-- a row of checkout.invoices
pub record Invoice : Type 0 where
  pub id : ℕ
  pub intent : ℕ
  pub merchant : ℕ
  pub object_key : Text
  pub amount : ℕ
  pub currency : Text

pub record Tables : Type 0 where
  pub intents : List Intent
  pub sessions : List CheckoutSession
  pub deposits : List Deposit
  pub payouts : List Payout
  pub items : List PayoutItem
  pub transfers : List Transfer
  pub invoices : List Invoice
  pub outbox : List Queued

-- UPDATE … SET … WHERE: the rows that pass a test are changed
abbrev pub update_where {ℓ} : {A : Type ℓ} → (A → Bool) → (A → A) → List A → List A
update_where p f [] = []
update_where p f (x ∷ xs) = (if p x then f x else x) ∷ update_where p f xs

-- INSERT INTO platform.outbox_events
abbrev pub enqueue_outbox : ℕ → ℕ → Text → Tables → Tables
enqueue_outbox aggregate merchant event_type t = record t {
  outbox =
      t.outbox
      ++ record { aggregate = aggregate; merchant = merchant; event_type = event_type } ∷ [];
}

-- status IN ('confirmed', 'overpaid')
abbrev pub is_payable : IntentStatus → Bool
is_payable IntentStatus.confirmed = true
is_payable IntentStatus.overpaid = true
is_payable _ = false

-- status IN ('created', 'awaiting_funds', 'partial')
abbrev pub is_open : IntentStatus → Bool
is_open IntentStatus.created = true
is_open IntentStatus.awaiting_funds = true
is_open IntentStatus.partial = true
is_open _ = false

-- an update keeps what holds of all rows
pub All-update_where :
    {A : Type 0} (P : A → Type 0) (p : A → Bool) (f : A → A) (xs : List A)
    → ((x : A) → P x → P (f x))
    → All P xs
    → All P (update_where p f xs)
All-update_where P p f [] keep h = h
All-update_where P p f (x ∷ xs) keep h = elim (Bool-cases (p x)) [
  | inl e ↦ rw e (keep x h.0, All-update_where P p f xs keep h.1)
  | inr e ↦ rw e (h.0, All-update_where P p f xs keep h.1)
]
