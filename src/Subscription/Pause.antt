-- ===== src/Subscription/Pause.antt =====
-- A subscription that is paused and resumed (internal/services/checkoutsvc/service.go).
use backend_go.Prelude.{
  ℕ, Bool, true, false, ◌&&◌, List, [], ◌∷◌, Text, codes, count, All, ◌==◌, ◌≡◌, refl, sym, ap, ◌∙◌,
  arith, Bool-cases, inl, inr, if◌then◌else◌, Result, ok, on_ok-cases, require_both,
}
use backend_go.Database.{Session, pool_exec}
use backend_go.Database.Laws.{db-pool_exec, db-pool_exec_cases}
use backend_go.Store.{update_where}
use backend_go.Subscription.{Plans, Subscription, SubscriptionStatus}
use backend_go.Subscription.Service.{
  PlanSetup, PlanError, update_failed, not_found, can_pause, can_resume, set_status, pause_rows,
  resume_rows, queue_event, both_ids, updated, pause_subscription, resume_subscription,
}

abbrev pub IsRunning : ℕ → ℕ → Subscription → Type 0
IsRunning id merchant s = s.id ≡ id → s.merchant ≡ merchant → s.status ≡ SubscriptionStatus.active

abbrev pub touch : ℕ → Subscription → Subscription
touch now x = record x { updated_at = now }

abbrev pub is_named : ℕ → ℕ → Subscription → Bool
is_named id merchant x = x.id == id && x.merchant == merchant

module _ (now later id merchant : ℕ) where
  abbrev pause_row : Subscription → Subscription
  pause_row x = if can_pause id merchant x then set_status now SubscriptionStatus.paused x else x

  abbrev resume_row : Subscription → Subscription
  resume_row x =
      if can_resume id merchant x then set_status later SubscriptionStatus.active x else x

  abbrev touch_row : Subscription → Subscription
  touch_row x = if is_named id merchant x then touch later x else x

  -- a row that neither statement is for
  other_row :
      (x : Subscription) → is_named id merchant x ≡ false → resume_row (pause_row x) ≡ touch_row x
  other_row x h =
      let paused : pause_row x ≡ x = elim (Bool-cases (x.id == id)) [
        | inr e ↦ rw e refl
        | inl e ↦ let m : (x.merchant == merchant) ≡ false = rw e at h in rw (e, m) refl
      ] in
      let resumed : resume_row x ≡ x = elim (Bool-cases (x.id == id)) [
        | inr e ↦ rw e refl
        | inl e ↦ let m : (x.merchant == merchant) ≡ false = rw e at h in rw (e, m) refl
      ] in
      let touched : touch_row x ≡ x = rw h refl in ap resume_row paused ∙ (resumed ∙ sym touched)

  named_row :
      (x : Subscription)
      → (x.id == id) ≡ true
      → (x.merchant == merchant) ≡ true
      → x.status ≡ SubscriptionStatus.active
      → resume_row (pause_row x) ≡ touch_row x
  named_row x e m active =
      let paused : pause_row x ≡ set_status now SubscriptionStatus.paused x =
        rw (e, m, active) refl in
      let resumed : resume_row (set_status now SubscriptionStatus.paused x)
          ≡ set_status later SubscriptionStatus.active x =
        rw (e, m) refl in
      let touched : touch_row x ≡ touch later x = rw (e, m) refl in
      ap resume_row paused
      ∙ (resumed ∙ (ap (λ st. set_status later st x) (sym active) ∙ sym touched))

  resume_row-pause_row :
      (x : Subscription) → IsRunning id merchant x → resume_row (pause_row x) ≡ touch_row x
  resume_row-pause_row x running = elim (Bool-cases (x.id == id)) [
    | inr e ↦ other_row x (rw e refl)
    | inl e ↦ elim (Bool-cases (x.merchant == merchant)) [
      | inr m ↦ other_row x (rw (e, m) refl)
      | inl m ↦ named_row x e m (running (ground arith) (ground arith))
    ]
  ]

  resume_rows-pause_rows :
      (xs : List Subscription)
      → All (IsRunning id merchant) xs
      → update_where
          (can_resume id merchant)
          (set_status later SubscriptionStatus.active)
          (update_where (can_pause id merchant) (set_status now SubscriptionStatus.paused) xs)
        ≡ update_where (is_named id merchant) (touch later) xs
  resume_rows-pause_rows [] h = refl
  resume_rows-pause_rows (x ∷ xs) h =
      ap
        (λ y.
          y
          ∷ update_where (can_resume id merchant) (set_status later SubscriptionStatus.active)
              (update_where (can_pause id merchant) (set_status now SubscriptionStatus.paused) xs))
        (resume_row-pause_row x h.0)
      ∙ ap (λ ys. touch_row x ∷ ys) (resume_rows-pause_rows xs h.1)

-- the event that is queued leaves the subscriptions
subscriptions-queue_event :
    (id merchant : ℕ) (e : Text) (s : Session Plans)
    → (pool_exec (queue_event id merchant e) s).1.db.subscriptions ≡ s.db.subscriptions
subscriptions-queue_event id merchant e s =
    elim (db-pool_exec_cases (queue_event id merchant e) s) [
      | inl q ↦ ap (λ (t : Plans). t.subscriptions) q
      | inr q ↦ ap (λ (t : Plans). t.subscriptions) q
    ]

module _ (c : PlanSetup) (merchant_id id : Text) (merchant subscription : ℕ)
    (ids : both_ids c merchant_id id ≡ ok (merchant, subscription)) where
  abbrev Changed :
      (List Subscription → List Subscription)
      → Session Plans
      → Result PlanError ℕ × Session Plans
      → Type 0
  Changed f s o = (k : ℕ) → o.0 ≡ ok k → o.1.db.subscriptions ≡ f s.db.subscriptions

  pause_subscription-Changed :
      (s : Session Plans)
      → Changed
          (update_where
            (can_pause subscription merchant)
            (set_status c.now SubscriptionStatus.paused))
          s
          (pause_subscription c merchant_id id s)
  unfolding pause_subscription
  pause_subscription-Changed s =
      let f =
        update_where (can_pause subscription merchant)
          (set_status c.now SubscriptionStatus.paused) in
      let s1 = (pool_exec (pause_rows c.now subscription merchant) s).1 in
      rw ids (
        on_ok-cases (Changed f s)
          (updated c (pool_exec (pause_rows c.now subscription merchant) s).0
            (count (can_pause subscription merchant) s.db.subscriptions))
          s1 _ (λ e k q. cc)
          (λ u e k q.
            let (done, some_row) =
              require_both (pool_exec (pause_rows c.now subscription merchant) s).0 _ update_failed
                not_found u e in
            subscriptions-queue_event subscription merchant (codes "subscription.paused") s1
            ∙ ap (λ (t : Plans). t.subscriptions)
                (db-pool_exec (pause_rows c.now subscription merchant) s done)))

  resume_subscription-Changed :
      (s : Session Plans)
      → Changed
          (update_where
            (can_resume subscription merchant)
            (set_status c.now SubscriptionStatus.active))
          s
          (resume_subscription c merchant_id id s)
  unfolding resume_subscription
  resume_subscription-Changed s =
      let f =
        update_where (can_resume subscription merchant)
          (set_status c.now SubscriptionStatus.active) in
      let s1 = (pool_exec (resume_rows c.now subscription merchant) s).1 in
      rw ids (
        on_ok-cases (Changed f s)
          (updated c (pool_exec (resume_rows c.now subscription merchant) s).0
            (count (can_resume subscription merchant) s.db.subscriptions))
          s1 _ (λ e k q. cc)
          (λ u e k q.
            let (done, some_row) =
              require_both (pool_exec (resume_rows c.now subscription merchant) s).0 _ update_failed
                not_found u e in
            subscriptions-queue_event subscription merchant (codes "subscription.resumed") s1
            ∙ ap (λ (t : Plans). t.subscriptions)
                (db-pool_exec (resume_rows c.now subscription merchant) s done)))

-- An active subscription that is paused and then resumed, both with success, is as it was but for
-- `updated_at`, which is the time of the second call; all others are as they were.
pub resume_subscription-pause_subscription :
    (c later : PlanSetup) (merchant_id id : Text) (merchant subscription k l : ℕ)
    (s : Session Plans)
    → both_ids c merchant_id id ≡ ok (merchant, subscription)
    → both_ids later merchant_id id ≡ ok (merchant, subscription)
    → All (IsRunning subscription merchant) s.db.subscriptions
    → (pause_subscription c merchant_id id s).0 ≡ ok k
    → (resume_subscription later merchant_id id (pause_subscription c merchant_id id s).1).0 ≡ ok l
    → (resume_subscription later merchant_id id
        (pause_subscription c merchant_id id s).1).1.db.subscriptions
      ≡ update_where (is_named subscription merchant) (touch later.now) s.db.subscriptions
resume_subscription-pause_subscription c later merchant_id id merchant subscription k l s ids ids'
      running paused resumed =
    resume_subscription-Changed later merchant_id id merchant subscription ids'
      (pause_subscription c merchant_id id s).1 l resumed
    ∙ (ap
          (update_where (can_resume subscription merchant)
            (set_status later.now SubscriptionStatus.active))
          (pause_subscription-Changed c merchant_id id merchant subscription ids s k paused)
        ∙ resume_rows-pause_rows c.now later.now subscription merchant s.db.subscriptions running)
