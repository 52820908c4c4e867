-- ===== src/Observer/Expiry.antt =====
-- `expireOldIntents`: which intents expire, under every script of faults.
use backend_go.Prelude.{
  ℕ, Bool, true, false, ◌&&◌, ◌||◌, List, [], ◌∷◌, codes, select, any, All, ◌==◌, ==_refl, ==_iff,
  ◌≡◌, refl, sym, ap, ◌∙◌, arith, Bool-cases, inl, inr,
}
use backend_go.Payment.Status.{IntentStatus}
use backend_go.Database.{Session, begin, exec, query, commit}
use backend_go.Database.Laws.{
  exec-keeps, commit-keeps, db-begin, work-begin, db-query, work-query, db-exec, db-rollback,
}
use backend_go.Store.{Intent, Tables, update_where, enqueue_outbox}
use backend_go.Observer.Balance.{
  is_overdue, expire_intent, expire_session, expire_rows, expire_old_intents,
}

abbrev pub expire_ids : ℕ → (ℕ → Bool) → List Intent → List Intent
expire_ids now ids intents =
    update_where (λ (i : Intent). ids i.id)
      (λ i. record i { status = IntentStatus.expired; updated_at = now }) intents

expire_ids-none : (now : ℕ) (intents : List Intent) → expire_ids now (λ k. false) intents ≡ intents
expire_ids-none now [] = refl
expire_ids-none now (i ∷ intents) = ap (λ rest. i ∷ rest) (expire_ids-none now intents)

expire_ids-twice :
    (now : ℕ) (ids : ℕ → Bool) (k : ℕ) (intents : List Intent)
    → expire_ids now (λ n. n == k) (expire_ids now ids intents)
      ≡ expire_ids now (λ n. ids n || n == k) intents
expire_ids-twice now ids k [] = refl
expire_ids-twice now ids k (i ∷ intents) = elim (Bool-cases (ids i.id)) [
  | inl e ↦ elim (Bool-cases (i.id == k)) [
    | inl same ↦ rw (e, same, expire_ids-twice now ids k intents) refl
    | inr other ↦ rw (e, other, expire_ids-twice now ids k intents) refl
  ]
  | inr e ↦ rw (e, expire_ids-twice now ids k intents) refl
]

module _ (now : ℕ) where
  abbrev is_overdue_id : List Intent → ℕ → Bool
  is_overdue_id intents k = any (λ (i : Intent). i.id == k && is_overdue now i) intents

  -- the intents of some ids have expired, and each of these ids is that of an overdue intent
  abbrev pub OnlyExpires : List Intent → List Intent → Type 0
  OnlyExpires before after =
      (ids : ℕ → Bool) × (after ≡ expire_ids now ids before)
      × ((k : ℕ) → ids k ≡ true → is_overdue_id before k ≡ true)

  OnlyExpires-none : (before : List Intent) → OnlyExpires before before
  OnlyExpires-none before = ((λ k. false), sym (expire_ids-none now before), λ k h. cc)

  OnlyExpires-more :
      (before after : List Intent) (k : ℕ)
      → is_overdue_id before k ≡ true
      → OnlyExpires before after
      → OnlyExpires before (expire_ids now (λ n. n == k) after)
  OnlyExpires-more before after k old (ids, e, overdue) = (
    (λ n. ids n || n == k),
    rw e (expire_ids-twice now ids k before),
    λ n h. elim (Bool-cases (ids n)) [
      | inl was ↦ overdue n was
      | inr new ↦ rw ((==_iff n k).0 (rw new at h)) old
    ],
  )

  select-overdue :
      (before intents : List Intent)
      → ((i : Intent) → is_overdue_id intents i.id ≡ true → is_overdue_id before i.id ≡ true)
      → All (λ (i : Intent). is_overdue_id before i.id ≡ true) (select (is_overdue now) intents)
  select-overdue before [] up = tt
  select-overdue before (i ∷ intents) up =
      let rest = select-overdue before intents (λ j h. up j (ground arith)) in
      elim (Bool-cases (is_overdue now i)) [
        | inl e ↦ rw e (up i (rw (==_refl i.id, e) refl), rest)
        | inr e ↦ rw e rest
      ]

  expire_rows-OnlyExpires :
      (before : List Intent) (rows : List Intent) (s : Session Tables)
      → All (λ (i : Intent). is_overdue_id before i.id ≡ true) rows
      → (OnlyExpires before s.work.intents
          → OnlyExpires before (expire_rows now rows s).work.intents)
        × ((expire_rows now rows s).db ≡ s.db)
  unfolding expire_rows
  expire_rows-OnlyExpires before [] s old = ((λ h. h), refl)
  expire_rows-OnlyExpires before (i ∷ rows) s old =
      let P : Tables → Type 0 = λ t. OnlyExpires before t.intents in
      let s1 = (exec (expire_intent now i.id) s).1 in
      let s2 = (exec (expire_session now i.session) s1).1 in
      let s3 = (exec (enqueue_outbox i.id i.merchant (codes "payment.expired")) s2).1 in
      let (keeps, same) = expire_rows-OnlyExpires before rows s3 old.1 in
      (
        (λ h. keeps (
            exec-keeps P _ s2 (λ k. k)
              (exec-keeps P _ s1 (λ k. k)
                (exec-keeps P _ s (OnlyExpires-more before s.work.intents i.id old.0) h)))),
        same ∙ db-exec _ _ ∙ db-exec _ _ ∙ db-exec _ _,
      )

  -- Whatever statements fail, a run changes nothing of the intents but the status and the
  -- `updated_at` of some that have the id of an overdue one: these have expired, and are updated now.
  pub expire_old_intents-OnlyExpires :
      (s : Session Tables) → OnlyExpires s.db.intents (expire_old_intents now s).db.intents
  unfolding expire_old_intents
  expire_old_intents-OnlyExpires s =
      let s1 = (begin s).1 in
      let s2 = (query s1).1 in
      let rows = select (is_overdue now) s2.work.intents in
      let s3 = expire_rows now rows s2 in
      let P : Tables → Type 0 = λ t. OnlyExpires s.db.intents t.intents in
      let h2 : P s2.db = rw (db-query s1, db-begin s) (OnlyExpires-none s.db.intents) in
      elim (Bool-cases (begin s).0) [
        | inr b ↦ rw b (rw (db-begin s) (OnlyExpires-none s.db.intents))
        | inl b ↦
            let w : s2.work ≡ s.db = work-query s1 ∙ work-begin s b in
            let old : All (λ (i : Intent). is_overdue_id s.db.intents i.id ≡ true) rows =
              rw w (select-overdue s.db.intents s.db.intents (λ i h. h)) in
            let (keeps, same) = expire_rows-OnlyExpires s.db.intents rows s2 old in
            rw b (elim (Bool-cases (query s1).0) [
              | inr q ↦ rw q (rw (db-rollback s2) h2)
              | inl q ↦ rw q (
                  rw (db-rollback (commit s3).1)
                    (commit-keeps P s3 (rw same h2) (keeps (rw w (OnlyExpires-none s.db.intents)))))
            ])
      ]
