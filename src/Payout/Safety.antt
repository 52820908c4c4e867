-- ===== src/Payout/Safety.antt =====
-- What the payout worker pays out and settles, under every executor and script of faults.
use backend_go.Prelude.{
  ℕ, Bool, true, false, not, ◌&&◌, ◌||◌, some, List, [], ◌∷◌, ◌++◌, Text, All, ◌≡◌, inl, inr, refl,
  sym, ap, ◌∙◌, arith, ◌==◌, ==_iff, codes, Bool-cases, Option-cases, or_false, or_assoc,
  or_true_left, or_true_right,
}
use mathlib.Core.Path.{subst}
use mathlib.Core.List.{append-nil, append_assoc}
use backend_go.Payment.Status.{IntentStatus}
use backend_go.Database.{Session, begin, exec, query, commit, rollback, pool_query}
use backend_go.Database.Laws.{
  exec-keeps, pool_exec-keeps, commit-keeps, db-begin, work-begin, db-exec, db-query, work-query,
  db-rollback, db-pool_query,
}
use backend_go.Store.{Intent, Payout, Tables, update_where, is_payable}
use backend_go.Payment.Link.{is_blank}
use backend_go.Payout.Scheduler.{
  Request, Executed, sent, rejected, Environment, World, ItemWork, is_create2, mark_item_failed,
  fail_item, mark_payout_retry, retry_payout,
}
use backend_go.Payout.Process.{
  rows_of, request_of, start_item, settle_result, execute_item, process_item, process_items,
  finish_payout_if_complete, close_payout, process_payout, process_payouts, start_payout,
  start_payouts, due_payouts, complete_due_payouts,
}
use backend_go.Payout.Atomic.{complete_payout_item-atomic, finish_payout_if_complete-intents}

abbrev pub is_settled : IntentStatus → Bool
is_settled IntentStatus.settled = true
is_settled _ = false

abbrev pub is_sent : Executed → Bool
is_sent (sent tx_hash) = true
is_sent (rejected message) = false

module _ (e : Environment) (intent : ℕ) where
  -- a call of the executor, after the calls `before`, that paid the intent
  abbrev pub pays : List Request → Request → Bool
  pays before r = r.intent == intent && is_sent (e.execute before r)

  abbrev pub paid_from : List Request → List Request → Bool
  paid_from before [] = false
  paid_from before (r ∷ calls) = pays before r || paid_from (before ++ r ∷ []) calls

  abbrev pub was_paid : List Request → Bool
  was_paid = paid_from []

  paid_from-append :
      (before calls : List Request) (r : Request)
      → paid_from before (calls ++ r ∷ []) ≡ (paid_from before calls || pays (before ++ calls) r)
  paid_from-append before [] r =
      or_false (pays before r) ∙ ap (λ (b : List Request). pays b r) (sym (append-nil before))
  paid_from-append before (c ∷ calls) r =
      ap (λ (b : Bool). pays before c || b) (paid_from-append (before ++ c ∷ []) calls r)
      ∙ sym (
          or_assoc (pays before c) (paid_from (before ++ c ∷ []) calls)
            (pays ((before ++ c ∷ []) ++ calls) r))
      ∙ ap (λ (b : List Request). paid_from before (c ∷ calls) || pays b r)
          (append_assoc before (c ∷ []) calls)

  pub was_paid-append :
      (calls : List Request) (r : Request)
      → was_paid (calls ++ r ∷ []) ≡ (was_paid calls || pays calls r)
  was_paid-append calls r = paid_from-append [] calls r

-- Every settled intent was settled before (`was`), or a call of the executor paid it.
abbrev pub IsAccounted : Environment → (ℕ → Bool) → List Request → Intent → Type 0
IsAccounted e was calls i = is_settled i.status ≡ true → (was i.id || was_paid e i.id calls) ≡ true

abbrev pub AllAccounted : Environment → (ℕ → Bool) → List Request → Tables → Type 0
AllAccounted e was calls t = All (IsAccounted e was calls) t.intents

pays_sent :
    (e : Environment) (intent : ℕ) (calls : List Request) (r : Request) (tx_hash : Text)
    → r.intent ≡ intent
    → e.execute calls r ≡ sent tx_hash
    → pays e intent calls r ≡ true
pays_sent e intent calls r tx_hash q p = rw ((==_iff r.intent intent).1 q, p)

id_of_match :
    (i : Intent) (intent : ℕ) → (i.id == intent && is_payable i.status) ≡ true → i.id ≡ intent
id_of_match i intent h = ground arith

db-start_payouts :
    (payouts : List Payout) (s : Session Tables) → (start_payouts payouts s).db ≡ s.db
unfolding start_payouts
db-start_payouts [] s = refl
db-start_payouts (payout ∷ rest) s =
    db-start_payouts rest (exec (start_payout payout.id) s).1 ∙ db-exec (start_payout payout.id) s

module _ (e : Environment) (was : ℕ → Bool) where
  -- one more call takes nothing away
  IsAccounted-mono :
      (calls : List Request) (r : Request) (i : Intent)
      → IsAccounted e was calls i
      → IsAccounted e was (calls ++ r ∷ []) i
  IsAccounted-mono calls r i h p =
      rw (was_paid-append e i.id calls r)
        (or_true_left (was i.id) (was_paid e i.id calls) (pays e i.id calls r) (h p))

  AllAccounted-mono :
      (calls : List Request) (r : Request) (intents : List Intent)
      → All (IsAccounted e was calls) intents
      → All (IsAccounted e was (calls ++ r ∷ [])) intents
  AllAccounted-mono calls r [] h = tt
  AllAccounted-mono calls r (i ∷ intents) h =
      (IsAccounted-mono calls r i h.0, AllAccounted-mono calls r intents h.1)

  -- an intent that the last call paid may be settled
  settle_intent-AllAccounted :
      (calls : List Request) (intent : ℕ) (intents : List Intent)
      → was_paid e intent calls ≡ true
      → All (IsAccounted e was calls) intents
      → All (IsAccounted e was calls) (
          update_where
            (λ (r : Intent). r.id == intent && is_payable r.status)
            (λ r. record r {
              status = IntentStatus.settled;
              settled_at = some e.now;
              updated_at = e.now;
            })
            intents)
  settle_intent-AllAccounted calls intent [] w h = tt
  settle_intent-AllAccounted calls intent (i ∷ intents) w h = (
    elim (Bool-cases (i.id == intent && is_payable i.status)) [
      | inl c ↦ rw c (λ _.
          or_true_right (was i.id) (was_paid e i.id calls)
            (subst (λ k. was_paid e k calls ≡ true) (sym (id_of_match i intent c)) w))
      | inr c ↦ rw c h.0
    ],
    settle_intent-AllAccounted calls intent intents w h.1,
  )

  -- marking an item leaves the intents alone
  mark_item_failed-AllAccounted :
      (calls : List Request) (item : ℕ) (message : Text) (s : Session Tables)
      → AllAccounted e was calls s.db
      → AllAccounted e was calls (mark_item_failed item message s).db
  unfolding mark_item_failed
  mark_item_failed-AllAccounted calls item message s h =
      pool_exec-keeps (AllAccounted e was calls) (fail_item item message) s (λ k. k) h

  mark_payout_retry-AllAccounted :
      (calls : List Request) (payout : ℕ) (message : Text) (s : Session Tables)
      → AllAccounted e was calls s.db
      → AllAccounted e was calls (mark_payout_retry payout message s).db
  unfolding mark_payout_retry
  mark_payout_retry-AllAccounted calls payout message s h =
      pool_exec-keeps (AllAccounted e was calls) (retry_payout payout message) s (λ k. k) h

  settle_sent-AllAccounted :
      (calls : List Request) (work : ItemWork) (tx_hash : Text) (s : Session Tables)
      → was_paid e work.intent calls ≡ true
      → AllAccounted e was calls s.db
      → AllAccounted e was calls (settle_result e.now work (sent tx_hash) s).1.db
  unfolding settle_result
  settle_sent-AllAccounted calls work tx_hash s w h =
      elim (complete_payout_item-atomic e.now work tx_hash s) [
        | inl (d, t) ↦ rw d (rw t (settle_intent-AllAccounted calls work.intent s.db.intents w h))
        | inr (d, t) ↦ rw d (
            mark_item_failed-AllAccounted calls work.item (codes "failed to persist payout result")
              _ (rw t h))
      ]

  settle_result-AllAccounted :
      (calls : List Request) (r : Request) (work : ItemWork) (x : Executed) (s : Session Tables)
      → r.intent ≡ work.intent
      → e.execute calls r ≡ x
      → AllAccounted e was calls s.db
      → AllAccounted e was (calls ++ r ∷ []) (settle_result e.now work x s).1.db
  unfolding settle_result
  settle_result-AllAccounted calls r work (rejected message) s q p h =
      mark_item_failed-AllAccounted (calls ++ r ∷ []) work.item message s
        (AllAccounted-mono calls r s.db.intents h)
  settle_result-AllAccounted calls r work (sent tx_hash) s q p h =
      settle_sent-AllAccounted (calls ++ r ∷ []) work tx_hash s
        (rw (was_paid-append e work.intent calls r) (
          or_true_right (was_paid e work.intent calls) (pays e work.intent calls r)
            (pays_sent e work.intent calls r tx_hash q p)))
        (AllAccounted-mono calls r s.db.intents h)

  abbrev Keeps : World → World → Type 0
  Keeps w w' = AllAccounted e was w.calls w.session.db → AllAccounted e was w'.calls w'.session.db

  execute_item-AllAccounted :
      (payout : ℕ) (work : ItemWork) (key : Text) (w : World)
      → Keeps w (execute_item e payout work key w).1
  unfolding execute_item
  execute_item-AllAccounted payout work key w h =
      settle_result-AllAccounted w.calls (request_of payout key work) work _ _
        (unfold request_of in refl) refl
        (pool_exec-keeps (AllAccounted e was w.calls) (start_item work.item) w.session (λ k. k) h)

  process_item-AllAccounted :
      (payout : ℕ) (work : ItemWork) (w : World) → Keeps w (process_item e payout work w).1
  unfolding process_item
  process_item-AllAccounted payout work w h =
      elim (Bool-cases (not e.mock && is_blank work.settlement_address)) [
        | inl b ↦ rw b (mark_item_failed-AllAccounted w.calls work.item _ w.session h)
        | inr b ↦ rw b (elim (Bool-cases (not e.mock && not (is_create2 work.wallet_type))) [
          | inl c ↦ rw c (elim (Option-cases (e.decrypt work.encrypted_key)) [
            | inl d ↦ rw d (mark_item_failed-AllAccounted w.calls work.item _ w.session h)
            | inr (key, d) ↦ rw d (execute_item-AllAccounted payout work key w h)
          ])
          | inr c ↦ rw c (execute_item-AllAccounted payout work [] w h)
        ])
      ]

  process_items-AllAccounted :
      (payout : ℕ) (works : List ItemWork) (w : World) → Keeps w (process_items e payout works w).1
  unfolding process_items
  process_items-AllAccounted payout [] w h = h
  process_items-AllAccounted payout (work ∷ rest) w h =
      process_items-AllAccounted payout rest (process_item e payout work w).1
        (process_item-AllAccounted payout work w h)

  finish-AllAccounted :
      (calls : List Request) (payout : Payout) (s : Session Tables)
      → AllAccounted e was calls s.db
      → AllAccounted e was calls (finish_payout_if_complete payout s).1.db
  finish-AllAccounted calls payout s h = rw (finish_payout_if_complete-intents payout s) h

  close_payout-AllAccounted :
      (payout : Payout) (failed : Bool) (w : World) → Keeps w (close_payout payout failed w)
  unfolding close_payout
  close_payout-AllAccounted payout failed w h =
      let k = finish-AllAccounted w.calls payout w.session h in
      let retry = λ (m : Text).
        mark_payout_retry-AllAccounted w.calls payout.id m
          (finish_payout_if_complete payout w.session).1 k in
      elim (Bool-cases (finish_payout_if_complete payout w.session).0) [
        | inl f ↦ rw f (elim (Bool-cases failed) [ inl x ↦ rw x (retry _) | inr x ↦ rw x k ])
        | inr f ↦ rw f (retry _)
      ]

  process_payout-AllAccounted : (payout : Payout) (w : World) → Keeps w (process_payout e payout w)
  unfolding process_payout
  process_payout-AllAccounted payout w h =
      let s = (pool_query w.session).1 in
      let k : AllAccounted e was w.calls s.db = rw (db-pool_query w.session) h in
      let works = rows_of e s.db payout.id s.db.items in
      elim (Bool-cases (pool_query w.session).0) [
        | inl f ↦ rw f (
            close_payout-AllAccounted payout
              (process_items e payout.id works (record w { session = s })).0
              (process_items e payout.id works (record w { session = s })).1
              (process_items-AllAccounted payout.id works (record w { session = s }) k))
        | inr f ↦ rw f (mark_payout_retry-AllAccounted w.calls payout.id _ s k)
      ]

  process_payouts-AllAccounted :
      (payouts : List Payout) (w : World) → Keeps w (process_payouts e payouts w)
  unfolding process_payouts
  process_payouts-AllAccounted [] w h = h
  process_payouts-AllAccounted (payout ∷ rest) w h =
      process_payouts-AllAccounted rest (process_payout e payout w)
        (process_payout-AllAccounted payout w h)

  start_payouts-work :
      (calls : List Request) (payouts : List Payout) (s : Session Tables)
      → AllAccounted e was calls s.work
      → AllAccounted e was calls (start_payouts payouts s).work
  unfolding start_payouts
  start_payouts-work calls [] s h = h
  start_payouts-work calls (payout ∷ rest) s h =
      start_payouts-work calls rest (exec (start_payout payout.id) s).1
        (exec-keeps (AllAccounted e was calls) (start_payout payout.id) s (λ k. k) h)

  -- A run of the worker, whatever fails and whatever the executor answers, settles an intent only
  -- if a call of the executor that named this intent was sent: if every settled intent was settled
  -- before or was paid by a call, that holds after the run too.
  pub complete_due_payouts-AllAccounted :
      (w : World)
      → AllAccounted e was w.calls w.session.db
      → AllAccounted e was (complete_due_payouts e w).calls (complete_due_payouts e w).session.db
  unfolding complete_due_payouts
  complete_due_payouts-AllAccounted w h =
      let s1 = (begin w.session).1 in
      let s2 = (query s1).1 in
      let payouts = due_payouts e.now s2.work in
      let s3 = start_payouts payouts s2 in
      let s4 = (commit s3).1 in
      let k2 : AllAccounted e was w.calls s2.db = rw (db-query s1, db-begin w.session) h in
      elim (Bool-cases (begin w.session).0) [
        | inr b ↦ rw b (rw (db-begin w.session) h)
        | inl b ↦ rw b (elim (Bool-cases (query s1).0) [
          | inr q ↦ rw q (rw (db-rollback s2) k2)
          | inl q ↦
              let w2 : AllAccounted e was w.calls s2.work =
                rw (work-query s1, work-begin w.session b) h in
              let k4 : AllAccounted e was w.calls (rollback s4).db = rw (db-rollback s4) (
                commit-keeps (AllAccounted e was w.calls) s3 (rw (db-start_payouts payouts s2) k2)
                  (start_payouts-work w.calls payouts s2 w2)) in
              rw q (elim (Bool-cases (commit s3).0) [
                | inl c ↦
                    rw c
                      (process_payouts-AllAccounted payouts (record w { session = rollback s4 }) k4)
                | inr c ↦ rw c k4
              ])
        ])
      ]
