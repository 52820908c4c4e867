-- ===== src/Payout/Atomic.antt =====
-- The transactions of payout_scheduler.go, under every script of faults.
use backend_go.Prelude.{
  ℕ, true, false, Text, ◌≡◌, ◌⊎◌, inl, inr, ap, ◌∙◌, arith, Bool-cases, any, codes, if◌then◌else◌,
}
use mathlib.Core.Path.{subst}
use backend_go.Database.{Session, begin, exec, query, commit}
use backend_go.Database.Laws.{
  db-begin, work-begin, db-query, work-query, db-exec, work-exec, db-commit, db-commit_fail,
  db-rollback,
}
use backend_go.Store.{Payout, Tables, enqueue_outbox}
use backend_go.Payout.Scheduler.{
  ItemWork, complete_item, settle_intent, sweep_deposit, complete_payout_item,
}
use backend_go.Payout.Process.{
  finish_payout_if_complete, finish_payout, is_unfinished, remaining, max_hash, items_of,
}

module _ (now : ℕ) (work : ItemWork) (tx_hash : Text) (s : Session Tables) where
  -- The item, its intent and its deposit address change together, and exactly if the function
  -- reports success; otherwise the tables are as before.
  pub complete_payout_item-atomic :
      (((complete_payout_item now work tx_hash s).0 ≡ true)
        × ((complete_payout_item now work tx_hash s).1.db
            ≡ sweep_deposit work.intent
                (settle_intent now work.intent (complete_item work.item tx_hash s.db))))
      ⊎ (((complete_payout_item now work tx_hash s).0 ≡ false)
          × ((complete_payout_item now work tx_hash s).1.db ≡ s.db))
  unfolding complete_payout_item
  complete_payout_item-atomic =
      let f1 = complete_item work.item tx_hash in
      let f2 = settle_intent now work.intent in
      let f3 = sweep_deposit work.intent in
      let s1 = (begin s).1 in
      let s2 = (exec f1 s1).1 in
      let s3 = (exec f2 s2).1 in
      let s4 = (exec f3 s3).1 in
      ground (
        arith,
        db-begin s,
        work-begin s,
        db-exec f1 s1,
        work-exec f1 s1,
        db-exec f2 s2,
        work-exec f2 s2,
        db-exec f3 s3,
        work-exec f3 s3,
        db-commit s4,
        db-commit_fail s4,
        db-rollback s2,
        db-rollback s3,
        db-rollback s4,
        db-rollback (commit s4).1,
      )

-- what `finishPayoutIfComplete` writes: the completed payout, and its event if a row changed
abbrev pub finished : Payout → Tables → Tables
finished payout t =
    let t' = finish_payout payout.id (max_hash (items_of payout.id t)) t in
    if any (is_unfinished payout.id) t.payouts
    then enqueue_outbox payout.id payout.merchant (codes "payout.completed") t'
    else t'

finished-intents : (payout : Payout) (t : Tables) → (finished payout t).intents ≡ t.intents
finished-intents payout t = elim (Bool-cases (any (is_unfinished payout.id) t.payouts)) [
  | inl e ↦ rw e
  | inr e ↦ rw e
]

module _ (payout : Payout) (s : Session Tables) where
  finish_cases :
      let s2 = (query (begin s).1).1 in
      let f = finish_payout payout.id (max_hash (items_of payout.id s2.work)) in
      let g = enqueue_outbox payout.id payout.merchant (codes "payout.completed") in
      let s3 = (exec f s2).1 in
      ((finish_payout_if_complete payout s).1.db ≡ s.db)
      ⊎ ((s2.work ≡ s.db)
          × (remaining payout.id s2.work ≡ 0)
          × ((finish_payout_if_complete payout s).0 ≡ true)
          × ((finish_payout_if_complete payout s).1.db ≡ finished payout s2.work))
  unfolding finish_payout_if_complete
  finish_cases =
      let s1 = (begin s).1 in
      let s2 = (query s1).1 in
      let f = finish_payout payout.id (max_hash (items_of payout.id s2.work)) in
      let g = enqueue_outbox payout.id payout.merchant (codes "payout.completed") in
      let s3 = (exec f s2).1 in
      let s4 = (exec g s3).1 in
      ground (
        arith,
        db-begin s,
        work-begin s,
        db-query s1,
        work-query s1,
        db-exec f s2,
        work-exec f s2,
        db-exec g s3,
        work-exec g s3,
        db-commit s2,
        db-commit_fail s2,
        db-commit s3,
        db-commit_fail s3,
        db-commit s4,
        db-commit_fail s4,
        db-rollback s2,
        db-rollback s3,
        db-rollback s4,
        db-rollback (commit s2).1,
        db-rollback (commit s3).1,
        db-rollback (commit s4).1,
      )

  -- Whatever fails, `finishPayoutIfComplete` either leaves the tables as they are, or no item of
  -- the payout is left, the call succeeds, and the payout is completed, with one event if its row
  -- was not completed before and none otherwise.
  pub finish_payout_if_complete_lem :
      ((finish_payout_if_complete payout s).1.db ≡ s.db)
      ⊎ ((remaining payout.id s.db ≡ 0)
          × ((finish_payout_if_complete payout s).0 ≡ true)
          × ((finish_payout_if_complete payout s).1.db ≡ finished payout s.db))
  finish_payout_if_complete_lem = elim finish_cases [
    | inl e ↦ inl e
    | inr (w, r, o, d) ↦
        inr (subst (λ t. remaining payout.id t ≡ 0) w r, o, d ∙ ap (finished payout) w)
  ]

  pub finish_payout_if_complete-intents :
      (finish_payout_if_complete payout s).1.db.intents ≡ s.db.intents
  finish_payout_if_complete-intents = elim finish_payout_if_complete_lem [
    | inl e ↦ ap (λ (t : Tables). t.intents) e
    | inr (r, o, d) ↦ rw d (finished-intents payout s.db)
  ]
