-- ===== src/Payout/Unique.antt =====
-- The payout items of an intent in `schedulePayouts` of payout_scheduler.go.
use backend_go.Prelude.{
  ℕ, suc, ◌+◌, ◌≤◌, Bool, true, false, not, ◌&&◌, List, [], ◌∷◌, ◌++◌, count, select, any, ◌≡◌,
  refl, sym, ◌∙◌, inl, inr, arith, ◌==◌, if◌then◌else◌, Bool-cases, ==_iff, count-select_le,
}
use mathlib.Core.Path.{subst}
use backend_go.Float.{Float64}
use backend_go.Database.{Session, begin, exec, query, commit, pool_query}
use backend_go.Database.Laws.{
  exec-keeps, commit-keeps, db-begin, work-begin, db-exec, db-query, work-query, db-rollback,
  db-pool_query, work-exec_cases,
}
use backend_go.Store.{Intent, PayoutItem, Tables, is_payable}
use backend_go.Payout.Schedule.{
  Group, in_group, has_item, is_eligible, groups, insert_payout, new_item, insert_item, set_total,
  insert_items, schedule_group, schedule_groups, schedule_payouts,
}

-- how many items an intent has
abbrev pub items_for : ℕ → List PayoutItem → ℕ
items_for k items = count (λ (r : PayoutItem). r.intent == k) items

abbrev pub rows_for : ℕ → List Intent → ℕ
rows_for k intents = count (λ (i : Intent). i.id == k) intents

-- `id` is the primary key of checkout.payment_intents
abbrev pub HasUniqueIds : Tables → Type 0
HasUniqueIds t = (k : ℕ) → rows_for k t.intents ≤ 1

abbrev pub HasOneItemEach : Tables → Type 0
HasOneItemEach t = (k : ℕ) → items_for k t.items ≤ 1

items_for-append :
    (k : ℕ) (items : List PayoutItem) (r : PayoutItem)
    → items_for k (items ++ r ∷ []) ≡ items_for k items + (if r.intent == k then 1 else 0)
items_for-append k [] r = ground arith
items_for-append k (x ∷ items) r = ground (arith, items_for-append k items r)

no_item :
    (k : ℕ) (items : List PayoutItem)
    → any (λ (r : PayoutItem). r.intent == k) items ≡ false
    → items_for k items ≡ 0
no_item k [] h = refl
no_item k (x ∷ items) h = ground (arith, no_item k items)

not_eligible : (a b c : Bool) → c ≡ true → (a && (b && not c)) ≡ true → ⊥
not_eligible a b c h k = ground arith

eligible_ne :
    (g : Group) (items : List PayoutItem) (k : ℕ) (i : Intent)
    → any (λ (r : PayoutItem). r.intent == k) items ≡ true
    → (in_group g i && is_eligible items i) ≡ true
    → (i.id == k) ≡ false
eligible_ne g items k i h c = elim (Bool-cases (i.id == k)) [
  | inr e ↦ e
  | inl e ↦
      let taken : has_item items i ≡ true =
        subst (λ j. any (λ (r : PayoutItem). r.intent == j) items ≡ true)
          (sym ((==_iff i.id k).0 e)) h in
      absurd (not_eligible (in_group g i) (is_payable i.status) (has_item items i) taken c)
]

-- an intent that has an item is not selected
select-taken :
    (g : Group) (items : List PayoutItem) (k : ℕ) (intents : List Intent)
    → any (λ (r : PayoutItem). r.intent == k) items ≡ true
    → rows_for k (select (λ i. in_group g i && is_eligible items i) intents) ≡ 0
select-taken g items k [] h = refl
select-taken g items k (i ∷ intents) h = elim (Bool-cases (in_group g i && is_eligible items i)) [
  | inl c ↦ rw (c, eligible_ne g items k i h c) (select-taken g items k intents h)
  | inr c ↦ rw c (select-taken g items k intents h)
]

-- the items of an intent and its selected rows are one together, at most
selected_once :
    (g : Group) (t : Tables) (k : ℕ)
    → HasUniqueIds t
    → HasOneItemEach t
    → items_for k t.items
        + rows_for k (select (λ i. in_group g i && is_eligible t.items i) t.intents)
      ≤ 1
selected_once g t k u o = elim (Bool-cases (any (λ (r : PayoutItem). r.intent == k) t.items)) [
  | inl h ↦ rw (select-taken g t.items k t.intents h) (omega (arith, o k))
  | inr h ↦ rw (no_item k t.items h) (
      omega (
        arith,
        u k,
        count-select_le (λ (i : Intent). i.id == k) (λ i. in_group g i && is_eligible t.items i)
            t.intents,
      ))
]

-- the tables have at most one row for each intent, and at most one item
pub record IsUnique (t : Tables) : Type 0 where
  pub ids : HasUniqueIds t
  pub one_each : HasOneItemEach t

module _ {F : Type 0} (fl : Float64 F) (now : ℕ) where
  open fl use {add, parse}

  abbrev one_item : Session Tables → ℕ → ℕ → F → Session Tables
  one_item s payout intent amount =
      (exec (insert_item fl now s.next_id payout intent amount)
        (record s { next_id = suc s.next_id })).1

  -- a statement adds one item of its intent, or none
  one_item-count :
      (s : Session Tables) (payout intent : ℕ) (amount : F) (k : ℕ)
      → items_for k (one_item s payout intent amount).work.items
        ≤ items_for k s.work.items + (if intent == k then 1 else 0)
  one_item-count s payout intent amount k =
      let f = insert_item fl now s.next_id payout intent amount in
      let s' = record s { next_id = suc s.next_id } in
      elim (work-exec_cases f s') [
        | inl e ↦ rw e (omega arith)
        | inr e ↦ rw e (
            omega (
              arith,
              items_for-append k s.work.items (new_item fl now s.next_id payout intent amount),
            ))
      ]

  insert_items-count :
      (payout : ℕ) (intents : List Intent) (total : F) (s : Session Tables) (k : ℕ)
      → items_for k (insert_items fl now payout intents total s).1.work.items
        ≤ items_for k s.work.items + rows_for k intents
  unfolding insert_items
  insert_items-count payout [] total s k = omega arith
  insert_items-count payout (i ∷ intents) total s k =
      let amount = parse i.received in
      let s' = one_item s payout i.id amount in
      ground (
        arith,
        insert_items-count payout intents (add total amount) s' k,
        one_item-count s payout i.id amount k,
      )

  insert_items_unique :
      (payout : ℕ) (intents : List Intent) (total : F) (s : Session Tables)
      → HasUniqueIds s.work
      → HasUniqueIds (insert_items fl now payout intents total s).1.work
  unfolding insert_items
  insert_items_unique payout [] total s h = h
  insert_items_unique payout (i ∷ intents) total s h =
      let amount = parse i.received in
      insert_items_unique payout intents (add total amount) (one_item s payout i.id amount) (
        exec-keeps HasUniqueIds (insert_item fl now s.next_id payout i.id amount)
          (record s { next_id = suc s.next_id }) (λ k. k) h)

  db-insert_items :
      (payout : ℕ) (intents : List Intent) (total : F) (s : Session Tables)
      → (insert_items fl now payout intents total s).1.db ≡ s.db
  unfolding insert_items
  db-insert_items payout [] total s = refl
  db-insert_items payout (i ∷ intents) total s =
      let amount = parse i.received in
      db-insert_items payout intents (add total amount) (one_item s payout i.id amount)
      ∙ db-exec (insert_item fl now s.next_id payout i.id amount)
          (record s { next_id = suc s.next_id })

  insert_group :
      (payout : ℕ) (g : Group) (s : Session Tables)
      → IsUnique s.work
      → IsUnique
          (insert_items fl now payout
            (select (λ i. in_group g i && is_eligible s.work.items i) s.work.intents)
            fl.zero
            s).1.work
  insert_group payout g s h =
      let rows = select (λ i. in_group g i && is_eligible s.work.items i) s.work.intents in
      record {
        ids = insert_items_unique payout rows fl.zero s h.ids;
        one_each = λ k. omega (
          arith,
          insert_items-count payout rows fl.zero s k,
          selected_once g s.work k h.ids h.one_each,
        );
      }

  schedule_group-IsUnique :
      (g : Group) (s : Session Tables) → IsUnique s.db → IsUnique (schedule_group fl now g s).db
  unfolding schedule_group
  schedule_group-IsUnique g s h =
      let s1 = (begin s).1 in
      let payout = s1.next_id in
      let s1' = record s1 { next_id = suc s1.next_id } in
      let s2 = (exec (insert_payout fl now payout g) s1').1 in
      let s3 = (query s2).1 in
      let rows = select (λ i. in_group g i && is_eligible s3.work.items i) s3.work.intents in
      let r4 = insert_items fl now payout rows fl.zero s3 in
      let s5 = (exec (set_total fl now payout r4.0) r4.1).1 in
      let d1 : IsUnique s1.db = rw (db-begin s) h in
      let d2 : IsUnique s2.db = rw (db-exec (insert_payout fl now payout g) s1') d1 in
      let d3 : IsUnique s3.db = rw (db-query s2) d2 in
      elim (Bool-cases (begin s).0) [
        | inr b ↦ rw b d1
        | inl b ↦
            let w2 : IsUnique s2.work =
              exec-keeps IsUnique (insert_payout fl now payout g) s1'
                (λ k. record { ids = k.ids; one_each = k.one_each }) (rw (work-begin s b) h) in
            let w3 : IsUnique s3.work = rw (work-query s2) w2 in
            let w5 : IsUnique s5.work =
              exec-keeps IsUnique (set_total fl now payout r4.0) r4.1
                (λ k. record { ids = k.ids; one_each = k.one_each })
                (insert_group payout g s3 w3) in
            let d5 : IsUnique s5.db =
              rw
                (
                  db-exec (set_total fl now payout r4.0) r4.1,
                  db-insert_items payout rows fl.zero s3,
                )
                d3 in
            rw b (elim (Bool-cases (exec (insert_payout fl now payout g) s1').0) [
              | inr i ↦ rw i (rw (db-rollback s2) d2)
              | inl i ↦ rw i (elim (Bool-cases (query s2).0) [
                | inr q ↦ rw q (rw (db-rollback s3) d3)
                | inl q ↦ rw q (rw (db-rollback (commit s5).1) (commit-keeps IsUnique s5 d5 w5))
              ])
            ])
      ]

  schedule_groups-IsUnique :
      (gs : List Group) (s : Session Tables)
      → IsUnique s.db
      → IsUnique (schedule_groups fl now gs s).db
  unfolding schedule_groups
  schedule_groups-IsUnique [] s h = h
  schedule_groups-IsUnique (g ∷ rest) s h =
      schedule_groups-IsUnique rest (schedule_group fl now g s) (schedule_group-IsUnique g s h)

  -- Whatever statements fail, scheduling keeps at most one payout item for each intent.
  pub schedule_payouts-IsUnique :
      (s : Session Tables) → IsUnique s.db → IsUnique (schedule_payouts fl now s).db
  unfolding schedule_payouts
  schedule_payouts-IsUnique s h =
      let s1 = (pool_query s).1 in
      let k : IsUnique s1.db = rw (db-pool_query s) h in
      elim (Bool-cases (pool_query s).0) [
        | inl f ↦ rw f (
            schedule_groups-IsUnique (groups (select (is_eligible s1.db.items) s1.db.intents)) s1 k)
        | inr f ↦ rw f k
      ]
