-- ===== src/Subscription/Fresh.antt =====
-- Due cycles with failures and past due subscriptions in subscription_scheduler.go.
use backend_go.Prelude.{
  ℕ, true, false, ◌&&◌, Option, none, some, List, [], ◌∷◌, All, All-snoc, any, ◌==◌, leb, ◌≡◌, refl,
  codes, ◌∙◌, arith, Bool-cases, inl, inr,
}
use backend_go.Float.{Float64}
use backend_go.Database.{Session, begin, query, commit}
use backend_go.Database.Laws.{
  exec-keeps, commit-keeps, db-begin, work-begin, db-query, work-query, db-exec, db-rollback,
}
use backend_go.Store.{All-update_where}
use backend_go.Subscription.{
  Plans, Cycle, Subscription, Vault, CycleStatus, DueCycle, is_due, is_past_due, is_billed,
  is_usable, cons_due, due_cycles, pay_cycle, fail_cycle, set_next_billing, insert_cycle,
  next_cycle, debit, miss, bill, bill_all, process,
}

abbrev pub IsUntried : Cycle → Type 0
IsUntried c = is_due c.status ≡ true → c.retry_count ≡ 0

abbrev pub IsCurrent : Subscription → Type 0
IsCurrent s = is_past_due s.status ≡ false

-- every cycle that is due has no failure yet, and no subscription is past due
pub record IsFresh (t : Plans) : Type 0 where
  pub cycles : All IsUntried t.cycles
  pub subscriptions : All IsCurrent t.subscriptions

abbrev RowIsUntried : DueCycle → Type 0
RowIsUntried r = r.cycle.retry_count ≡ 0

cons_due-All :
    (c : Cycle) (s : Option Subscription) (v : Option Vault) (rows : List DueCycle)
    → c.retry_count ≡ 0
    → All RowIsUntried rows
    → All RowIsUntried (cons_due c s v rows)
cons_due-All c none v rows h k = k
cons_due-All c (some s) none rows h k = k
cons_due-All c (some s) (some v) rows h k = elim (Bool-cases (is_billed s.status)) [
  | inl e ↦ rw e (h, k)
  | inr e ↦ rw e k
]

due_cycles-All :
    (now : ℕ) (t : Plans) (cycles : List Cycle)
    → All IsUntried cycles
    → All RowIsUntried (due_cycles now t cycles)
unfolding due_cycles
due_cycles-All now t [] h = tt
due_cycles-All now t (c ∷ cycles) h = elim (Bool-cases (is_due c.status && leb c.due_at now)) [
  | inl e ↦ rw e (cons_due-All c _ _ _ (h.0 (ground arith)) (due_cycles-All now t cycles h.1))
  | inr e ↦ rw e (due_cycles-All now t cycles h.1)
]

insert_cycle-IsFresh :
    (new : Cycle) (t : Plans) → new.retry_count ≡ 0 → IsFresh t → IsFresh (insert_cycle new t)
insert_cycle-IsFresh new t zero h =
    elim (Bool-cases
      (any (λ (c : Cycle). c.subscription == new.subscription && c.index == new.index) t.cycles)) [
        | inl e ↦ record { cycles = rw e h.cycles; subscriptions = h.subscriptions }
        | inr e ↦ record {
          cycles = rw e (All-snoc IsUntried t.cycles new h.cycles (λ d. zero));
          subscriptions = h.subscriptions;
        }
      ]

pay_cycle-IsFresh : (cycle : ℕ) (t : Plans) → IsFresh t → IsFresh (pay_cycle cycle t)
pay_cycle-IsFresh cycle t h = record {
  cycles =
      All-update_where IsUntried (λ (c : Cycle). c.id == cycle)
        (λ c. record c { status = CycleStatus.paid }) t.cycles (λ c k d. cc) h.cycles;
  subscriptions = h.subscriptions;
}

fail_cycle-IsFresh : (cycle retry : ℕ) (t : Plans) → IsFresh t → IsFresh (fail_cycle cycle retry t)
fail_cycle-IsFresh cycle retry t h = record {
  cycles =
      All-update_where IsUntried (λ (c : Cycle). c.id == cycle)
        (λ c. record c {
          status = CycleStatus.failed;
          retry_count = retry;
          last_error = some (codes "insufficient vault balance");
        })
        t.cycles (λ c k d. cc) h.cycles;
  subscriptions = h.subscriptions;
}

set_next_billing-IsFresh :
    (now subscription at : ℕ) (t : Plans)
    → IsFresh t
    → IsFresh (set_next_billing now subscription at t)
set_next_billing-IsFresh now subscription at t h = record {
  cycles = h.cycles;
  subscriptions =
      All-update_where IsCurrent (λ (s : Subscription). s.id == subscription)
        (λ s. record s { next_billing_at = at; updated_at = now }) t.subscriptions (λ s k. k)
        h.subscriptions;
}

-- the tables that a statement does not write
unchanged :
    (t u : Plans) → t.cycles ≡ u.cycles → t.subscriptions ≡ u.subscriptions → IsFresh t → IsFresh u
unchanged t u c s h = record { cycles = rw⁻¹ c h.cycles; subscriptions = rw⁻¹ s h.subscriptions }

module _ {F : Type 0} (fl : Float64 F) (add_months : ℕ → ℕ → ℕ) (now : ℕ) where
  open fl use {le, parse}

  debit-IsFresh :
      (r : DueCycle) (s : Session Plans)
      → IsFresh s.work
      → IsFresh (debit fl add_months now r s).work
  unfolding debit
  debit-IsFresh r s h = exec-keeps IsFresh _ _ (unchanged _ _ refl refl) (
      exec-keeps IsFresh _ _
        (insert_cycle-IsFresh (next_cycle fl add_months now s.next_id r) _ refl)
        (exec-keeps IsFresh _ _ (set_next_billing-IsFresh now _ _ _) (
          exec-keeps IsFresh _ _ (pay_cycle-IsFresh _ _)
            (exec-keeps IsFresh _ _ (unchanged _ _ refl refl) h))))

  miss-IsFresh :
      (r : DueCycle) (s : Session Plans)
      → RowIsUntried r
      → IsFresh s.work
      → IsFresh (miss fl add_months now r s).work
  unfolding miss
  miss-IsFresh r s new h = rw new (
      exec-keeps IsFresh _ _ (unchanged _ _ refl refl)
        (exec-keeps IsFresh _ _ (fail_cycle-IsFresh _ _ _) h))

  db-debit : (r : DueCycle) (s : Session Plans) → (debit fl add_months now r s).db ≡ s.db
  unfolding debit
  db-debit r s = db-exec _ _ ∙ db-exec _ _ ∙ db-exec _ _ ∙ db-exec _ _ ∙ db-exec _ _

  db-miss :
      (r : DueCycle) (s : Session Plans) → RowIsUntried r → (miss fl add_months now r s).db ≡ s.db
  unfolding miss
  db-miss r s new = rw new (db-exec _ _ ∙ db-exec _ _)

  bill_lem :
      (r : DueCycle) (s : Session Plans)
      → RowIsUntried r
      → (IsFresh s.work → IsFresh (bill fl add_months now r s).work)
        × ((bill fl add_months now r s).db ≡ s.db)
  unfolding bill
  bill_lem r s new =
      elim (Bool-cases
        (is_usable r.vault.status && le (parse r.cycle.amount) (parse r.vault.remaining))) [
          | inl e ↦ rw e (debit-IsFresh r s, db-debit r s)
          | inr e ↦ rw e (miss-IsFresh r s new, db-miss r s new)
        ]

  bill_all_lem :
      (rows : List DueCycle) (s : Session Plans)
      → All RowIsUntried rows
      → (IsFresh s.work → IsFresh (bill_all fl add_months now rows s).work)
        × ((bill_all fl add_months now rows s).db ≡ s.db)
  unfolding bill_all
  bill_all_lem [] s new = ((λ h. h), refl)
  bill_all_lem (r ∷ rows) s new =
      let (keeps, same) = bill_lem r s new.0 in
      let (rest, same') = bill_all_lem rows (bill fl add_months now r s) new.1 in
      ((λ h. rest (keeps h)), same' ∙ same)

  -- Whatever statements fail: if no due cycle has a failure and no subscription is past due, that
  -- is so after a run, too.
  pub process-IsFresh :
      (s : Session Plans) → IsFresh s.db → IsFresh (process fl add_months now s).db
  unfolding process
  process-IsFresh s h =
      let s1 = (begin s).1 in
      let s2 = (query s1).1 in
      let rows = due_cycles now s2.work s2.work.cycles in
      let s3 = bill_all fl add_months now rows s2 in
      let h2 : IsFresh s2.db = rw (db-query s1, db-begin s) h in
      elim (Bool-cases (begin s).0) [
        | inr b ↦ rw b (rw (db-begin s) h)
        | inl b ↦
            let k2 : IsFresh s2.work = rw (work-query s1, work-begin s b) h in
            let (keeps, same) =
              bill_all_lem rows s2 (due_cycles-All now s2.work s2.work.cycles k2.cycles) in
            rw b (elim (Bool-cases (query s1).0) [
              | inr q ↦ rw q (rw (db-rollback s2) h2)
              | inl q ↦
                  rw q (
                    rw (db-rollback (commit s3).1)
                      (commit-keeps IsFresh s3 (rw same h2) (keeps k2)))
            ])
      ]
