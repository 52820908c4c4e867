-- ===== src/Observer/Atomic.antt =====
-- The transaction of `confirmObservedBalance` under faults.
use backend_go.Prelude.{ℕ, Bool, false, codes, ◌≡◌, ◌⊎◌, inl, inr, refl, ap, ◌∙◌, Bool-cases}
use mathlib.Core.Path.{subst}
use backend_go.Float.{Float64}
use backend_go.Database.{Session, begin, exec, commit}
use backend_go.Database.Laws.{
  exec-keeps, db-begin, work-begin, db-exec, work-exec, db-commit, db-commit_fail, db-rollback,
}
use backend_go.Store.{Intent, Tables, enqueue_outbox}
use backend_go.Checkout.Atomic.{SameRows, SameRows-refl, SameRows-enqueue}
use backend_go.Observer.Balance.{
  balance_is_paid, write_balance, write_session_status, queue_balance_events,
  confirm_observed_balance,
}

module _ {F : Type 0} (fl : Float64 F) (now : ℕ) (item : Intent) where
  queue_balance_events_lem :
      (paid : Bool) (s : Session Tables)
      → SameRows (queue_balance_events fl now item paid s).work s.work
        × ((queue_balance_events fl now item paid s).db ≡ s.db)
  unfolding queue_balance_events
  queue_balance_events_lem paid s =
      let f1 = enqueue_outbox item.id item.merchant (codes "payment.detected") in
      let f2 = enqueue_outbox item.id item.merchant (codes "payment.confirmed") in
      let s1 = (exec f1 s).1 in
      let h1 : SameRows s1.work s.work =
        exec-keeps (λ t. SameRows t s.work) f1 s (SameRows-enqueue _ _ _ _ _)
          (SameRows-refl s.work) in
      elim (Bool-cases paid) [
        | inl p ↦ rw p (
          exec-keeps (λ t. SameRows t s.work) f2 s1 (SameRows-enqueue _ _ _ _ _) h1,
          db-exec f2 s1 ∙ db-exec f1 s,
        )
        | inr p ↦ rw p (h1, db-exec f1 s)
      ]

  abbrev pub balance_written : F → Tables → Tables
  balance_written observed t =
      write_session_status fl now item observed (write_balance fl now item observed t)

  -- Whatever statements fail: either no table changes and the result is false; or, the outbox left
  -- out, the intent and its session have the statuses that follow from the observed balance, and
  -- the result says whether the intent is paid.
  pub confirm_observed_balance-atomic :
      (observed : F) (s : Session Tables)
      → (((confirm_observed_balance fl now item observed s).1.db ≡ s.db)
          × ((confirm_observed_balance fl now item observed s).0 ≡ false))
        ⊎ (SameRows
              (confirm_observed_balance fl now item observed s).1.db
              (balance_written observed s.db)
            × ((confirm_observed_balance fl now item observed s).0
                ≡ balance_is_paid fl now item observed))
  unfolding confirm_observed_balance
  confirm_observed_balance-atomic observed s =
      let paid = balance_is_paid fl now item observed in
      let f1 = write_balance fl now item observed in
      let f2 = write_session_status fl now item observed in
      let s1 = (begin s).1 in
      let s2 = (exec f1 s1).1 in
      let s3 = (exec f2 s2).1 in
      let s4 = queue_balance_events fl now item paid s3 in
      let s5 = (commit s4).1 in
      let (same, d4) = queue_balance_events_lem paid s3 in
      let d1 : s1.db ≡ s.db = db-begin s in
      let d2 : s2.db ≡ s.db = db-exec f1 s1 ∙ d1 in
      let d3 : s3.db ≡ s.db = db-exec f2 s2 ∙ d2 in
      elim (Bool-cases (begin s).0) [
        | inr b ↦ rw b (inl (d1, refl))
        | inl b ↦ rw b (elim (Bool-cases (exec f1 s1).0) [
          | inr e1 ↦ rw e1 (inl (db-rollback s2 ∙ d2, refl))
          | inl e1 ↦ rw e1 (elim (Bool-cases (exec f2 s2).0) [
            | inr e2 ↦ rw e2 (inl (db-rollback s3 ∙ d3, refl))
            | inl e2 ↦ rw e2 (elim (Bool-cases (commit s4).0) [
              | inr c ↦ rw c (inl (db-rollback s5 ∙ db-commit_fail s4 c ∙ d4 ∙ d3, refl))
              | inl c ↦
                  let w : s3.work ≡ balance_written observed s.db =
                    work-exec f2 s2 e2 ∙ ap f2 (work-exec f1 s1 e1 ∙ ap f1 (work-begin s b)) in
                  rw c (
                    inr (
                      rw (db-rollback s5 ∙ db-commit s4 c) (subst (λ t. SameRows s4.work t) w same),
                      refl,
                    ))
            ])
          ])
        ])
      ]
