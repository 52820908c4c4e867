-- ===== src/Checkout/Atomic.antt =====
-- The transaction of `ConfirmCheckoutSession` under faults.
use mathlib.Core.Path.{subst}
use backend_go.Prelude.{
  ℕ, Bool, true, false, Text, ◌≡◌, ◌⊎◌, inl, inr, refl, ap, ◌∙◌, arith, codes, Bool-cases,
}
use backend_go.Float.{Float64}
use backend_go.Database.{Session, begin, exec, query, commit}
use backend_go.Database.Laws.{
  exec-keeps, db-begin, work-begin, db-query, work-query, db-exec, work-exec, db-commit,
  db-commit_fail, db-rollback,
}
use backend_go.Store.{Intent, Tables, enqueue_outbox}
use backend_go.Checkout.Decision.{aggregate, decide}
use backend_go.Checkout.Confirm.{
  ConfirmRequest, ConfirmResult, ok, err, Services, transfer_of, write_transfer, write_intent,
  write_session, queue_events, confirm_tx,
}

abbrev pub is_ok : ConfirmResult → Bool
is_ok (ok c) = true
is_ok (err e) = false

-- the two tables agree on all but the outbox
pub record SameRows (t u : Tables) : Type 0 where
  pub intents : t.intents ≡ u.intents
  pub sessions : t.sessions ≡ u.sessions
  pub transfers : t.transfers ≡ u.transfers
  pub deposits : t.deposits ≡ u.deposits
  pub payouts : t.payouts ≡ u.payouts
  pub items : t.items ≡ u.items
  pub invoices : t.invoices ≡ u.invoices

pub SameRows-refl : (t : Tables) → SameRows t t
SameRows-refl t = record {
  intents = refl;
  sessions = refl;
  transfers = refl;
  deposits = refl;
  payouts = refl;
  items = refl;
  invoices = refl;
}

pub SameRows-enqueue :
    (aggregate merchant : ℕ) (event_type : Text) (t u : Tables)
    → SameRows t u
    → SameRows (enqueue_outbox aggregate merchant event_type t) u
SameRows-enqueue aggregate merchant event_type t u h = record {
  intents = h.intents;
  sessions = h.sessions;
  transfers = h.transfers;
  deposits = h.deposits;
  payouts = h.payouts;
  items = h.items;
  invoices = h.invoices;
}

module _ {F : Type 0} (fl : Float64 F) (sv : Services) where
  open fl use {parse}

  queue_events-SameRows :
      (i : Intent) (paid : Bool) (s : Session Tables)
      → SameRows (queue_events fl sv i paid s).work s.work
  unfolding queue_events
  queue_events-SameRows i paid s =
      let f1 = enqueue_outbox i.id i.merchant (codes "payment.detected") in
      let f2 = enqueue_outbox i.id i.merchant (codes "payment.confirmed") in
      let s1 = (exec f1 s).1 in
      let h1 : SameRows s1.work s.work =
        exec-keeps (λ t. SameRows t s.work) f1 s (SameRows-enqueue _ _ _ _ _)
          (SameRows-refl s.work) in
      elim (Bool-cases paid) [
        | inl p ↦ rw p (exec-keeps (λ t. SameRows t s.work) f2 s1 (SameRows-enqueue _ _ _ _ _) h1)
        | inr p ↦ rw p h1
      ]

  db-queue_events :
      (i : Intent) (paid : Bool) (s : Session Tables) → (queue_events fl sv i paid s).db ≡ s.db
  unfolding queue_events
  db-queue_events i paid s =
      let f1 = enqueue_outbox i.id i.merchant (codes "payment.detected") in
      let f2 = enqueue_outbox i.id i.merchant (codes "payment.confirmed") in
      ground (arith, db-exec f1 s, db-exec f2 (exec f1 s).1)

  -- the statuses and amounts that follow from the transfers
  abbrev pub decided : Intent → Tables → Tables
  decided i t =
      let totals = aggregate i.id i.required t.transfers in
      let d = decide fl (parse i.expected) (parse i.tolerance) i.required totals in
      write_session fl sv i.session d.session_status (write_intent fl sv i.id d totals t)

  -- what a confirmed call has written, the outbox left out
  abbrev pub written : Intent → ConfirmRequest F → Tables → Tables
  written i r t = decided i (write_transfer fl sv (transfer_of fl sv r i) t)

  module _ (i : Intent) (r : ConfirmRequest F) (s : Session Tables) where
    -- the view of the transaction before the events are queued
    confirm_tx_cases :
        (((confirm_tx fl sv i r s).2.db ≡ s.db) × (is_ok (confirm_tx fl sv i r s).0 ≡ false))
        ⊎ ((u : Session Tables) × (paid : Bool) × (u.work ≡ written i r s.db)
            × (is_ok (confirm_tx fl sv i r s).0 ≡ true)
            × ((confirm_tx fl sv i r s).2.db ≡ (queue_events fl sv i paid u).work))
    unfolding confirm_tx
    confirm_tx_cases =
        let s1 = (begin s).1 in
        let f1 = write_transfer fl sv (transfer_of fl sv r i) in
        let s2 = (exec f1 s1).1 in
        let s3 = (query s2).1 in
        let totals = aggregate i.id i.required s3.work.transfers in
        let d = decide fl (parse i.expected) (parse i.tolerance) i.required totals in
        let f2 = write_intent fl sv i.id d totals in
        let s4 = (exec f2 s3).1 in
        let f3 = write_session fl sv i.session d.session_status in
        let s5 = (exec f3 s4).1 in
        let s6 = queue_events fl sv i d.is_paid s5 in
        let s7 = (commit s6).1 in
        let d2 : s2.db ≡ s.db = db-exec f1 s1 ∙ db-begin s in
        let d3 : s3.db ≡ s.db = db-query s2 ∙ d2 in
        let d4 : s4.db ≡ s.db = db-exec f2 s3 ∙ d3 in
        let d5 : s5.db ≡ s.db = db-exec f3 s4 ∙ d4 in
        let d6 : s6.db ≡ s.db = db-queue_events i d.is_paid s5 ∙ d5 in
        elim (Bool-cases (begin s).0) [
          | inr b ↦ rw b (inl (db-begin s, refl))
          | inl b ↦ rw b (elim (Bool-cases (exec f1 s1).0) [
            | inr e1 ↦ rw e1 (inl (db-rollback s2 ∙ d2, refl))
            | inl e1 ↦ rw e1 (elim (Bool-cases (query s2).0) [
              | inr q ↦ rw q (inl (db-rollback s3 ∙ d3, refl))
              | inl q ↦ rw q (elim (Bool-cases (exec f2 s3).0) [
                | inr e2 ↦ rw e2 (inl (db-rollback s4 ∙ d4, refl))
                | inl e2 ↦ rw e2 (elim (Bool-cases (exec f3 s4).0) [
                  | inr e3 ↦ rw e3 (inl (db-rollback s5 ∙ d5, refl))
                  | inl e3 ↦ rw e3 (elim (Bool-cases (commit s6).0) [
                    | inr c ↦ rw c (inl (db-rollback s7 ∙ db-commit_fail s6 c ∙ d6, refl))
                    | inl c ↦ rw c (
                        inr (
                          s5,
                          d.is_paid,
                          work-exec f3 s4 e3
                              ∙ ap f3 (work-exec f2 s3 e2)
                              ∙ ap (decided i)
                                  (work-query s2 ∙ work-exec f1 s1 e1 ∙ ap f1 (work-begin s b)),
                          refl,
                          db-rollback s7 ∙ db-commit s6 c,
                        ))
                  ])
                ])
              ])
            ])
          ])
        ]

    -- Whatever statements fail: an error leaves every table as it is; a success has recorded the
    -- transfer, and the intent and the session have the statuses decided from all the intent's
    -- transfers, this one included. Only the queued events may be missing.
    pub confirm_tx-atomic :
        ((is_ok (confirm_tx fl sv i r s).0 ≡ false) × ((confirm_tx fl sv i r s).2.db ≡ s.db))
        ⊎ ((is_ok (confirm_tx fl sv i r s).0 ≡ true)
            × SameRows (confirm_tx fl sv i r s).2.db (written i r s.db))
    confirm_tx-atomic = elim confirm_tx_cases [
      | inl (e, o) ↦ inl (o, e)
      | inr (u, paid, w, o, e) ↦ inr (
        o,
        rw e (
            subst (λ t. SameRows (queue_events fl sv i paid u).work t) w
              (queue_events-SameRows i paid u)),
      )
    ]
