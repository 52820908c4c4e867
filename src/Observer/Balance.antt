-- ===== src/Observer/Balance.antt =====
-- `confirmObservedBalance` and `expireOldIntents` of chain_observer.go.
use backend_go.Prelude.{
  ℕ, Bool, false, not, ◌&&◌, none, some, List, [], ◌∷◌, codes, select, ltb, ◌==◌, if◌then◌else◌,
}
use backend_go.Float.{Float64}
use backend_go.Payment.Status.{IntentStatus, intent_status_is_paid, status_text}
use backend_go.Payment.Pricing.{resolve_intent_status}
use backend_go.Database.{Session, begin, exec, query, commit, rollback}
use backend_go.Store.{
  Intent, CheckoutSession, SessionStatus, Tables, update_where, enqueue_outbox, is_open,
}
use backend_go.Checkout.Decision.{is_dead}
use backend_go.Checkout.Confirm.{coalesce}

module _ {F : Type 0} (fl : Float64 F) (now : ℕ) where
  open fl use {parse, numeric}

  -- the intent as the query in `observeDeposits` returned it
  unfoldable pub balance_status : Intent → F → IntentStatus
  balance_status i observed =
      resolve_intent_status fl (parse i.expected) observed (parse i.tolerance) i.required i.required

  abbrev pub balance_is_paid : Intent → F → Bool
  balance_is_paid i observed = intent_status_is_paid (status_text (balance_status i observed))

  abbrev pub session_status : Bool → IntentStatus → SessionStatus
  session_status paid status =
      if paid
      then SessionStatus.paid
      else if is_dead status
      then SessionStatus.failed
      else SessionStatus.awaiting_funds

  abbrev pub write_balance : Intent → F → Tables → Tables
  write_balance item observed t = record t {
    intents =
        update_where (λ (i : Intent). i.id == item.id)
          (λ i. record i {
            status = balance_status item observed;
            received = numeric observed;
            confirmations = item.required;
            confirmed_at =
                coalesce i.confirmed_at (if balance_is_paid item observed then some now else none);
            updated_at = now;
          })
          t.intents;
  }

  abbrev pub write_session_status : Intent → F → Tables → Tables
  write_session_status item observed t = record t {
    sessions =
        update_where (λ (c : CheckoutSession). c.id == item.session)
          (λ c. record c {
            status = session_status (balance_is_paid item observed) (balance_status item observed);
          })
          t.sessions;
  }

  unfoldable pub queue_balance_events : Intent → Bool → Session Tables → Session Tables
  queue_balance_events item paid s =
      let s1 = (exec (enqueue_outbox item.id item.merchant (codes "payment.detected")) s).1 in
      if paid
      then (exec (enqueue_outbox item.id item.merchant (codes "payment.confirmed")) s1).1
      else s1

  unfoldable pub confirm_observed_balance : Intent → F → Session Tables → Bool × Session Tables
  confirm_observed_balance item observed s =
      let paid = balance_is_paid item observed in
      let (begun, s1) = begin s in
      let (updated, s2) = exec (write_balance item observed) s1 in
      let (marked, s3) = exec (write_session_status item observed) s2 in
      let (committed, s5) = commit (queue_balance_events item paid s3) in
      if not begun
      then (false, s1)
      else if not updated
      then (false, rollback s2)
      else if not marked
      then (false, rollback s3)
      else if not committed
      then (false, rollback s5)
      else (paid, rollback s5)

module _ (now : ℕ) where
  -- status IN ('created', 'awaiting_funds', 'partial') AND expires_at < NOW()
  abbrev pub is_overdue : Intent → Bool
  is_overdue i = is_open i.status && ltb i.expires_at now

  abbrev pub expire_intent : ℕ → Tables → Tables
  expire_intent intent t = record t {
    intents =
        update_where (λ (i : Intent). i.id == intent)
          (λ i. record i { status = IntentStatus.expired; updated_at = now }) t.intents;
  }

  abbrev pub expire_session : ℕ → Tables → Tables
  expire_session session t = record t {
    sessions =
        update_where (λ (c : CheckoutSession). c.id == session)
          (λ c. record c { status = SessionStatus.expired }) t.sessions;
  }

  -- the loop over the overdue rows; the errors of its statements are discarded
  unfoldable pub expire_rows : List Intent → Session Tables → Session Tables
  expire_rows [] s = s
  expire_rows (i ∷ rows) s =
      let s1 = (exec (expire_intent i.id) s).1 in
      let s2 = (exec (expire_session i.session) s1).1 in
      expire_rows rows (exec (enqueue_outbox i.id i.merchant (codes "payment.expired")) s2).1

  unfoldable pub expire_old_intents : Session Tables → Session Tables
  expire_old_intents s =
      let (begun, s1) = begin s in
      let (found, s2) = query s1 in
      if not begun
      then s1
      else if not found
      then rollback s2
      else rollback (commit (expire_rows (select is_overdue s2.work.intents) s2)).1
