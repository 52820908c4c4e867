-- ===== src/Observer/Recorded.antt =====
-- `updateRecordedTransaction`, `clientForChain` and `isHexHash` of chain_observer.go. A client is
-- named by its key in the client map; the node's answers are parameters. A request has the
-- confirmations as an int32 and the block as an int64.
use mathlib.Core.Path.{subst}
use backend_go.Prelude.{
  ℕ, ◌+◌, ◌-◌, ◌≤◌, ℤ, to_int32, to_int64, IsSigned, to_int32-IsSigned, to_int64-IsSigned,
  ltb_false→le, Bool, true, false, ◌&&◌, ◌||◌, Option, none, some, List, [], ◌∷◌, Text, codes,
  text_eq, trim_space, to_lower, contains, has_prefix, drop, length, all, ltb, leb, ◌==◌, ◌≡◌, refl,
  sym, ap, arith, Bool-cases, inl, inr, if◌then◌else◌,
}

unfoldable pub is_hex_hash : Text → Bool
unfolding trim_space
is_hex_hash raw =
    let value = trim_space raw in
    length value == 66
    && (has_prefix (codes "0x") value
        && all
            (λ c.
              (leb b'0' c && leb c b'9')
              || ((leb b'a' c && leb c b'f') || (leb b'A' c && leb c b'F')))
            (drop 2 value))

-- w.clients[name], if it is there
abbrev pub client_at : (Text → Bool) → Text → Option Text
client_at clients name = if clients name then some name else none

unfoldable pub client_for_chain : (Text → Bool) → Text → Option Text
client_for_chain clients raw =
    let name = to_lower (trim_space raw) in
    if clients name
    then some name
    else if contains (codes "arbitrum") name
    then client_at clients (codes "arbitrum")
    else if contains (codes "ethereum") name || text_eq name (codes "mainnet")
    then client_at clients (codes "ethereum")
    else if contains (codes "bnb") name
    then (if clients (codes "bsc") then some (codes "bsc") else client_at clients (codes "bnb"))
    else if contains (codes "hyper") name
    then client_at clients (codes "hyperevm")
    else none

pub record RecordedTransaction : Type 0 where
  pub session : ℕ
  pub merchant : ℕ
  pub intent : ℕ
  pub chain : Text
  pub tx_hash : Text
  pub amount : ℕ
  pub from_address : Text
  pub to_address : Text
  pub required : ℕ

-- client.TransactionReceipt: an error, no receipt or block yet, or a receipt
pub data Receipt : Type 0 where
  unavailable : Receipt
  unmined : Receipt
  mined : Bool → ℕ → Receipt

pub record Node : Type 0 where
  pub clients : Text → Bool
  pub receipt : Text → Text → Receipt
  pub block_number : Text → Option ℕ

-- the request to CheckoutService.ConfirmCheckoutSession, less the fields that copy the item
pub record ConfirmCall : Type 0 where
  pub transaction : RecordedTransaction
  pub confirmations : ℤ
  pub block : ℤ

-- the map `latestBlocks`, one entry for each chain seen in this pass
abbrev pub Latest : Type 0
Latest = List (Text × ℕ)

abbrev pub lookup : Text → Latest → Option ℕ
lookup key [] = none
lookup key ((k, n) ∷ m) = let rest = lookup key m in if text_eq k key then some n else rest

unfoldable pub latest_block : Node → Text → Text → Latest → Option ℕ × Latest
latest_block node client key m = elim (lookup key m) [
  | some n ↦ (some n, m)
  | none ↦ elim (node.block_number client) [ none ↦ (none, m) | some n ↦ (some n, (key, n) ∷ m) ]
]

-- int32(int(latest - block + 1)): the bits that uint64 and int lose are not among the low 32
unfoldable pub confirm_mined : RecordedTransaction → ℕ → Option ℕ → Option ConfirmCall
confirm_mined item block none = none
confirm_mined item block (some latest) =
    if ltb latest block
    then none
    else some (record {
      transaction = item;
      confirmations = to_int32 (latest - block + 1);
      block = to_int64 block;
    })

unfoldable pub update_by_receipt :
    Node → RecordedTransaction → Text → Receipt → Latest → Option ConfirmCall × Latest
unfolding latest_block confirm_mined
update_by_receipt node item client unavailable m = (none, m)
update_by_receipt node item client unmined m = (none, m)
update_by_receipt node item client (mined false block) m = (none, m)
update_by_receipt node item client (mined true block) m =
    let (latest, m') = latest_block node client (to_lower (trim_space item.chain)) m in
    (confirm_mined item block latest, m')

unfoldable pub update_by_client :
    Node → RecordedTransaction → Option Text → Latest → Option ConfirmCall × Latest
update_by_client node item none m = (none, m)
update_by_client node item (some client) m =
    if is_hex_hash item.tx_hash
    then update_by_receipt node item client (node.receipt client item.tx_hash) m
    else (none, m)

-- the call that is made, if one is, and the map afterwards
unfoldable pub update_recorded_transaction :
    Node → RecordedTransaction → Latest → Option ConfirmCall × Latest
unfolding update_by_client
update_recorded_transaction node item m =
    update_by_client node item (client_for_chain node.clients item.chain) m

unfoldable pub update_recorded_transactions :
    Node → List RecordedTransaction → Latest → List ConfirmCall
update_recorded_transactions node [] m = []
update_recorded_transactions node (item ∷ items) m =
    let (call, m') = update_recorded_transaction node item m in
    let rest = update_recorded_transactions node items m' in
    elim call [ none ↦ rest | some c ↦ c ∷ rest ]

-- what is known of a call
abbrev pub Justified : Node → RecordedTransaction → Latest → ConfirmCall → Type 0
Justified node item m c =
    (client : Text) × (client_for_chain node.clients item.chain ≡ some client)
    × (is_hex_hash item.tx_hash ≡ true)
    × (block : ℕ) × (node.receipt client item.tx_hash ≡ mined true block)
    × (latest : ℕ) × ((latest_block node client (to_lower (trim_space item.chain)) m).0
        ≡ some latest)
    × (block ≤ latest)
    × IsSigned 2_147_483_648 (latest + 1 - block) c.confirmations
    × IsSigned 9_223_372_036_854_775_808 block c.block
    × (c.transaction ≡ item)

some-some : (a b : ConfirmCall) → some a ≡ some b → a ≡ b
some-some a b h = ground arith

confirm_mined-some :
    (item : RecordedTransaction) (block : ℕ) (o : Option ℕ) (c : ConfirmCall)
    → confirm_mined item block o ≡ some c
    → (latest : ℕ) × (o ≡ some latest)
      × (block ≤ latest)
      × IsSigned 2_147_483_648 (latest + 1 - block) c.confirmations
      × IsSigned 9_223_372_036_854_775_808 block c.block
      × (c.transaction ≡ item)
unfolding confirm_mined
confirm_mined-some item block none c h = cc
confirm_mined-some item block (some latest) c h = elim (Bool-cases (ltb latest block)) [
  | inl early ↦ let bad : none ≡ some c = rw early at h in cc
  | inr e ↦
      let le = ltb_false→le latest block e in
      let same : some (record {
        transaction = item;
        confirmations = to_int32 (latest - block + 1);
        block = to_int64 block;
      })
          ≡ some c =
        rw e at h in
      let call = some-some _ _ same in
      let n : latest - block + 1 ≡ latest + 1 - block = omega arith in
      (
        latest,
        refl,
        le,
        subst (λ (d : ConfirmCall). IsSigned 2_147_483_648 (latest + 1 - block) d.confirmations)
            call
            (subst (λ k. IsSigned 2_147_483_648 k (to_int32 (latest - block + 1))) n
              (to_int32-IsSigned (latest - block + 1))),
        subst (λ (d : ConfirmCall). IsSigned 9_223_372_036_854_775_808 block d.block) call
            (to_int64-IsSigned block),
        sym (ap (λ (d : ConfirmCall). d.transaction) call),
      )
]

update_by_receipt-some :
    (node : Node) (item : RecordedTransaction) (client : Text) (x : Receipt) (m : Latest)
    (c : ConfirmCall)
    → (update_by_receipt node item client x m).0 ≡ some c
    → (block : ℕ) × (x ≡ mined true block)
      × (latest : ℕ) × ((latest_block node client (to_lower (trim_space item.chain)) m).0
          ≡ some latest)
      × (block ≤ latest)
      × IsSigned 2_147_483_648 (latest + 1 - block) c.confirmations
      × IsSigned 9_223_372_036_854_775_808 block c.block
      × (c.transaction ≡ item)
unfolding update_by_receipt
update_by_receipt-some node item client unavailable m c h = cc
update_by_receipt-some node item client unmined m c h = cc
update_by_receipt-some node item client (mined false block) m c h = cc
update_by_receipt-some node item client (mined true block) m c h =
    let (latest, e, le, n, b, t) =
      confirm_mined-some item block
        (latest_block node client (to_lower (trim_space item.chain)) m).0 c h in
    (block, refl, latest, e, le, n, b, t)

module _ (node : Node) (item : RecordedTransaction) (m : Latest) (c : ConfirmCall) where
  made :
      (client : Text)
      → is_hex_hash item.tx_hash ≡ true
      → (update_by_client node item (some client) m).0 ≡ some c
      → (update_by_receipt node item client (node.receipt client item.tx_hash) m).0 ≡ some c
  unfolding update_by_client
  made client hash h = ground arith

  not_made :
      (client : Text)
      → is_hex_hash item.tx_hash ≡ false
      → (update_by_client node item (some client) m).0 ≡ some c
      → none ≡ some c
  unfolding update_by_client
  not_made client bad h = ground arith

  update_by_client-some :
      (o : Option Text)
      → client_for_chain node.clients item.chain ≡ o
      → (update_by_client node item o m).0 ≡ some c
      → Justified node item m c
  unfolding update_by_client
  update_by_client-some none e h = cc
  update_by_client-some (some client) e h = elim (Bool-cases (is_hex_hash item.tx_hash)) [
    | inr bad ↦ cc (not_made client bad h)
    | inl hash ↦
        let (block, r, latest, k, le, n, b, t) =
          update_by_receipt-some node item client (node.receipt client item.tx_hash) m c
            (made client hash h) in
        (client, e, hash, block, r, latest, k, le, n, b, t)
  ]

  -- A transaction is confirmed only if its hash is well formed and its client has a receipt of
  -- success, in a block that is not after the latest one. The confirmations that are sent are the
  -- number of blocks from the receipt's block to the latest one, both included, as an int32: they
  -- are that number below 2^31, and wrap around from there on. So does the block as an int64.
  pub update_recorded_transaction-Justified :
      (update_recorded_transaction node item m).0 ≡ some c → Justified node item m c
  unfolding update_recorded_transaction
  update_recorded_transaction-Justified h =
      update_by_client-some (client_for_chain node.clients item.chain) refl h
