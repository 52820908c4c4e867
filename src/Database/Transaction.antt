-- ===== src/Database/Transaction.antt =====
-- A transaction of the common form: Begin, statements of which the first to fail is reported, and
-- Commit, with the deferred Rollback.
use backend_go.Prelude.{
  ℕ, suc, Bool, true, false, Option, none, some, List, [], ◌∷◌, ◌≡◌, ◌⊎◌, inl, inr, refl, ap, ◌∙◌,
  Bool-cases, if◌then◌else◌,
}
use backend_go.Database.{Session, begin, exec, commit, rollback}
use backend_go.Database.Laws.{
  next_id-exec, next_id-begin, next_id-rollback, next_id-commit, db-begin, work-begin, db-exec,
  work-exec, db-commit, db-commit_fail, db-rollback,
}

pub data TxResult : Type 0 where
  committed not_begun not_committed : TxResult
  statement_failed : ℕ → TxResult

abbrev pub is_committed : TxResult → Bool
is_committed committed = true
is_committed _ = false

module _ {T : Type 0} where
  -- the tables after all the statements
  abbrev pub apply_all : List (T → T) → T → T
  apply_all [] t = t
  apply_all (f ∷ fs) t = apply_all fs (f t)

  -- the first statement that fails, by its number
  unfoldable pub exec_all : ℕ → List (T → T) → Session T → Option ℕ × Session T
  exec_all n [] s = (none, s)
  exec_all n (f ∷ fs) s =
      let (done, s') = exec f s in
      let rest = exec_all (suc n) fs s' in if done then rest else (some n, s')

  abbrev finish : Option ℕ × Session T → TxResult × Session T
  finish (some n, s) = (statement_failed n, rollback s)
  finish (none, s) =
      let (done, s') = commit s in
      if done then (committed, rollback s') else (not_committed, rollback s')

  unfoldable pub transact : List (T → T) → Session T → TxResult × Session T
  transact fs s =
      let (begun, s1) = begin s in
      let rest = finish (exec_all 0 fs s1) in if begun then rest else (not_begun, s1)

  exec_all_lem :
      (n : ℕ) (fs : List (T → T)) (s : Session T)
      → ((exec_all n fs s).1.db ≡ s.db)
        × ((exec_all n fs s).0 ≡ none → (exec_all n fs s).1.work ≡ apply_all fs s.work)
  unfolding exec_all
  exec_all_lem n [] s = (refl, λ h. refl)
  exec_all_lem n (f ∷ fs) s =
      let s' = (exec f s).1 in
      let (same, all) = exec_all_lem (suc n) fs s' in
      elim (Bool-cases (exec f s).0) [
        | inr e ↦ rw e (db-exec f s, λ h. cc)
        | inl e ↦ rw e (same ∙ db-exec f s, λ h. all h ∙ ap (apply_all fs) (work-exec f s e))
      ]

  finish_lem :
      (r : Option ℕ × Session T) (before after : T)
      → r.1.db ≡ before
      → (r.0 ≡ none → r.1.work ≡ after)
      → (((finish r).0 ≡ committed) × ((finish r).1.db ≡ after))
        ⊎ ((is_committed (finish r).0 ≡ false) × ((finish r).1.db ≡ before))
  finish_lem (some n, s) before after h k = inr (refl, db-rollback s ∙ h)
  finish_lem (none, s) before after h k = elim (Bool-cases (commit s).0) [
    | inl c ↦ rw c (inl (refl, db-rollback (commit s).1 ∙ db-commit s c ∙ k refl))
    | inr c ↦ rw c (inr (refl, db-rollback (commit s).1 ∙ db-commit_fail s c ∙ h))
  ]

  -- all statements are written, or none is
  pub transact_lem :
      (fs : List (T → T)) (s : Session T)
      → (((transact fs s).0 ≡ committed) × ((transact fs s).1.db ≡ apply_all fs s.db))
        ⊎ ((is_committed (transact fs s).0 ≡ false) × ((transact fs s).1.db ≡ s.db))
  unfolding transact
  transact_lem fs s =
      let s1 = (begin s).1 in
      elim (Bool-cases (begin s).0) [
        | inr b ↦ rw b (inr (refl, db-begin s))
        | inl b ↦
            let (same, all) = exec_all_lem 0 fs s1 in
            rw b (
              finish_lem (exec_all 0 fs s1) s.db (apply_all fs s.db) (same ∙ db-begin s)
                (λ h. all h ∙ ap (apply_all fs) (work-begin s b)))
      ]

  next_id-exec_all :
      (n : ℕ) (fs : List (T → T)) (s : Session T) → (exec_all n fs s).1.next_id ≡ s.next_id
  unfolding exec_all
  next_id-exec_all n [] s = refl
  next_id-exec_all n (f ∷ fs) s = elim (Bool-cases (exec f s).0) [
    | inr e ↦ rw e (next_id-exec f s)
    | inl e ↦ rw e (next_id-exec_all (suc n) fs (exec f s).1 ∙ next_id-exec f s)
  ]

  next_id-finish : (r : Option ℕ × Session T) → (finish r).1.next_id ≡ r.1.next_id
  next_id-finish (some n, s) = next_id-rollback s
  next_id-finish (none, s) = elim (Bool-cases (commit s).0) [
    | inl c ↦ rw c (next_id-rollback (commit s).1 ∙ next_id-commit s)
    | inr c ↦ rw c (next_id-rollback (commit s).1 ∙ next_id-commit s)
  ]

  pub next_id-transact : (fs : List (T → T)) (s : Session T) → (transact fs s).1.next_id ≡ s.next_id
  unfolding transact
  next_id-transact fs s = elim (Bool-cases (begin s).0) [
    | inr b ↦ rw b (next_id-begin s)
    | inl b ↦ rw b (
        next_id-finish (exec_all 0 fs (begin s).1)
        ∙ (next_id-exec_all 0 fs (begin s).1 ∙ next_id-begin s))
  ]

  -- what all the statements together keep is kept
  pub transact-keeps :
      (P : T → Type 0) (fs : List (T → T)) (s : Session T)
      → (P s.db → P (apply_all fs s.db))
      → P s.db
      → P (transact fs s).1.db
  transact-keeps P fs s keep h = elim (transact_lem fs s) [
    | inl (done, after) ↦ rw after (keep h)
    | inr (failed, same) ↦ rw same h
  ]
