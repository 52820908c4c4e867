-- ===== src/Subscription/Reach.antt =====
-- The calls of the service and the runs of the scheduler, in any order: CreateSubscription,
-- PauseSubscription and ResumeSubscription of internal/services/checkoutsvc/service.go and `process` of
-- internal/platform/workers/subscription_scheduler.go.
use backend_go.Prelude.{ℕ, suc, Text, codes, count, All-snoc, refl, on_ok-state}
use backend_go.Float.{Float64}
use backend_go.Database.{Session, pool_exec}
use backend_go.Database.Laws.{pool_exec-keeps}
use backend_go.Database.Transaction.{transact, transact-keeps}
use backend_go.Store.{All-update_where}
use backend_go.Subscription.{Plans, SubscriptionStatus, process}
use backend_go.Subscription.Fresh.{IsUntried, IsCurrent, IsFresh, process-IsFresh}
use backend_go.Subscription.Service.{
  CreateSubscriptionRequest, PlanSetup, SubscriptionPlan, can_pause, can_resume, set_status,
  pause_rows, resume_rows, queue_event, plan_subscription, new_subscription, first_cycle,
  create_statements, create_subscription, both_ids, updated, pause_subscription,
  resume_subscription,
}

module _ {F : Type 0} (fl : Float64 F) where
  -- one call, or one run of the scheduler, with what the parameters are at its time
  pub data Step : Session Plans → Session Plans → Type 0 where
    create :
        (c : PlanSetup) (r : CreateSubscriptionRequest F) (s : Session Plans)
        → Step s (create_subscription c fl r s).1
    pause :
        (c : PlanSetup) (merchant_id id : Text) (s : Session Plans)
        → Step s (pause_subscription c merchant_id id s).1
    resume :
        (c : PlanSetup) (merchant_id id : Text) (s : Session Plans)
        → Step s (resume_subscription c merchant_id id s).1
    bill :
        (add_months : ℕ → ℕ → ℕ) (now : ℕ) (s : Session Plans)
        → Step s (process fl add_months now s)

  pub data Reach (s : Session Plans) : Session Plans → Type 0 where
    start : Reach s s
    next : {t u : Session Plans} → Reach s t → Step t u → Reach s u

  create_statements-IsFresh :
      (c : PlanSetup) (id vault cycle : ℕ) (r : CreateSubscriptionRequest F)
      (p : SubscriptionPlan F) (s : Session Plans)
      → IsFresh s.db
      → IsFresh (transact (create_statements c fl id vault cycle r p) s).1.db
  unfolding new_subscription first_cycle
  create_statements-IsFresh c id vault cycle r p s h =
      transact-keeps IsFresh (create_statements c fl id vault cycle r p) s
        (λ k. record {
          cycles =
              All-snoc IsUntried s.db.cycles (first_cycle c fl cycle id r p) k.cycles (λ d. refl);
          subscriptions =
              All-snoc IsCurrent s.db.subscriptions (new_subscription c fl id r p) k.subscriptions
                refl;
        })
        h

  pause_rows-IsFresh :
      (now id merchant : ℕ) (t : Plans) → IsFresh t → IsFresh (pause_rows now id merchant t)
  pause_rows-IsFresh now id merchant t h = record {
    cycles = h.cycles;
    subscriptions =
        All-update_where IsCurrent (can_pause id merchant)
          (set_status now SubscriptionStatus.paused) t.subscriptions (λ s k. refl) h.subscriptions;
  }

  resume_rows-IsFresh :
      (now id merchant : ℕ) (t : Plans) → IsFresh t → IsFresh (resume_rows now id merchant t)
  resume_rows-IsFresh now id merchant t h = record {
    cycles = h.cycles;
    subscriptions =
        All-update_where IsCurrent (can_resume id merchant)
          (set_status now SubscriptionStatus.active) t.subscriptions (λ s k. refl) h.subscriptions;
  }

  queue_event-IsFresh :
      (id merchant : ℕ) (e : Text) (t : Plans) → IsFresh t → IsFresh (queue_event id merchant e t)
  queue_event-IsFresh id merchant e t h = record {
    cycles = h.cycles;
    subscriptions = h.subscriptions;
  }

  abbrev FreshDb : Session Plans → Type 0
  FreshDb s = IsFresh s.db

  create_subscription-IsFresh :
      (c : PlanSetup) (r : CreateSubscriptionRequest F) (s : Session Plans)
      → IsFresh s.db
      → IsFresh (create_subscription c fl r s).1.db
  unfolding create_subscription
  create_subscription-IsFresh c r s h =
      on_ok-state FreshDb (plan_subscription c fl r) s _ h
        (λ p e. create_statements-IsFresh c s.next_id (suc s.next_id) (suc (suc s.next_id)) r p _ h)

  pause_subscription-IsFresh :
      (c : PlanSetup) (merchant_id id : Text) (s : Session Plans)
      → IsFresh s.db
      → IsFresh (pause_subscription c merchant_id id s).1.db
  unfolding pause_subscription
  pause_subscription-IsFresh c merchant_id id s h =
      on_ok-state FreshDb (both_ids c merchant_id id) s _ h (λ (m, k) e.
        let s1 = (pool_exec (pause_rows c.now k m) s).1 in
        let h1 =
          pool_exec-keeps IsFresh (pause_rows c.now k m) s (pause_rows-IsFresh c.now k m s.db) h in
        on_ok-state FreshDb
          (updated c (pool_exec (pause_rows c.now k m) s).0
            (count (can_pause k m) s.db.subscriptions))
          s1 _ h1
          (λ u e'.
            pool_exec-keeps IsFresh (queue_event k m (codes "subscription.paused")) s1
              (queue_event-IsFresh k m _ s1.db) h1))

  resume_subscription-IsFresh :
      (c : PlanSetup) (merchant_id id : Text) (s : Session Plans)
      → IsFresh s.db
      → IsFresh (resume_subscription c merchant_id id s).1.db
  unfolding resume_subscription
  resume_subscription-IsFresh c merchant_id id s h =
      on_ok-state FreshDb (both_ids c merchant_id id) s _ h (λ (m, k) e.
        let s1 = (pool_exec (resume_rows c.now k m) s).1 in
        let h1 =
          pool_exec-keeps IsFresh (resume_rows c.now k m) s (resume_rows-IsFresh c.now k m s.db)
            h in
        on_ok-state FreshDb
          (updated c (pool_exec (resume_rows c.now k m) s).0
            (count (can_resume k m) s.db.subscriptions))
          s1 _ h1
          (λ u e'.
            pool_exec-keeps IsFresh (queue_event k m (codes "subscription.resumed")) s1
              (queue_event-IsFresh k m _ s1.db) h1))

  Step-IsFresh : {s t : Session Plans} → Step s t → IsFresh s.db → IsFresh t.db
  Step-IsFresh (create c r s) h = create_subscription-IsFresh c r s h
  Step-IsFresh (pause c merchant_id id s) h = pause_subscription-IsFresh c merchant_id id s h
  Step-IsFresh (resume c merchant_id id s) h = resume_subscription-IsFresh c merchant_id id s h
  Step-IsFresh (bill add_months now s) h = process-IsFresh fl add_months now s h

  -- Whatever fails, and in whatever order subscriptions are created, paused, resumed and billed:
  -- from tables in which no due cycle has a failure and no subscription is past due, no table is
  -- reached in which one is. So no call of ResumeSubscription finds one that is past due.
  pub Reach-IsFresh : {s t : Session Plans} → Reach s t → IsFresh s.db → IsFresh t.db
  Reach-IsFresh start h = h
  Reach-IsFresh (next reached step) h = Step-IsFresh step (Reach-IsFresh reached h)
