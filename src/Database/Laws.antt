-- ===== src/Database/Laws.antt =====
-- What a statement can do to the committed tables and to the open transaction.
use backend_go.Prelude.{◌≡◌, refl, ◌⊎◌, inl, inr, true, false, arith}
use backend_go.Database.{Session, begin, exec, query, commit, rollback, pool_exec, pool_query}

module _ {T : Type 0} where
  -- before the commit, no other session sees a change
  pub db-exec : (f : T → T) (s : Session T) → (exec f s).1.db ≡ s.db
  unfolding exec
  db-exec f s = ground arith

  pub db-begin : (s : Session T) → (begin s).1.db ≡ s.db
  unfolding begin
  db-begin s = ground arith

  pub db-rollback : (s : Session T) → (rollback s).db ≡ s.db
  unfolding rollback
  db-rollback s = refl

  pub work-exec : (f : T → T) (s : Session T) → (exec f s).0 ≡ true → (exec f s).1.work ≡ f s.work
  unfolding exec
  work-exec f s h = ground arith

  pub work-exec_fail :
      (f : T → T) (s : Session T) → (exec f s).0 ≡ false → (exec f s).1.work ≡ s.work
  unfolding exec
  work-exec_fail f s h = ground arith

  pub work-begin : (s : Session T) → (begin s).0 ≡ true → (begin s).1.work ≡ s.db
  unfolding begin
  work-begin s h = ground arith

  pub work-query : (s : Session T) → (query s).1.work ≡ s.work
  unfolding query
  work-query s = ground arith

  pub db-query : (s : Session T) → (query s).1.db ≡ s.db
  unfolding query
  db-query s = ground arith

  pub db-commit : (s : Session T) → (commit s).0 ≡ true → (commit s).1.db ≡ s.work
  unfolding commit
  db-commit s h = ground arith

  pub db-commit_fail : (s : Session T) → (commit s).0 ≡ false → (commit s).1.db ≡ s.db
  unfolding commit
  db-commit_fail s h = ground arith

  pub db-pool_query : (s : Session T) → (pool_query s).1.db ≡ s.db
  unfolding pool_query
  db-pool_query s = ground arith

  -- a statement is applied whole or not at all
  pub work-exec_cases :
      (f : T → T) (s : Session T) → ((exec f s).1.work ≡ s.work) ⊎ ((exec f s).1.work ≡ f s.work)
  unfolding exec
  work-exec_cases f s = ground arith

  pub db-pool_exec_cases :
      (f : T → T) (s : Session T) → ((pool_exec f s).1.db ≡ s.db) ⊎ ((pool_exec f s).1.db ≡ f s.db)
  unfolding pool_exec
  db-pool_exec_cases f s = ground arith

  pub db-commit_cases : (s : Session T) → ((commit s).1.db ≡ s.db) ⊎ ((commit s).1.db ≡ s.work)
  unfolding commit
  db-commit_cases s = ground arith

module _ {T : Type 0} where
  pub db-pool_exec :
      (f : T → T) (s : Session T) → (pool_exec f s).0 ≡ true → (pool_exec f s).1.db ≡ f s.db
  unfolding pool_exec
  db-pool_exec f s h = ground arith

-- A predicate that a statement keeps is kept whatever the statement's outcome.
module _ {ℓ} {T : Type 0} (P : T → Type ℓ) (f : T → T) (s : Session T) where
  pub exec-keeps : (P s.work → P (f s.work)) → P s.work → P (exec f s).1.work
  exec-keeps keep h = elim (work-exec_cases f s) [ inl e ↦ rw e h | inr e ↦ rw e (keep h) ]

  pub pool_exec-keeps : (P s.db → P (f s.db)) → P s.db → P (pool_exec f s).1.db
  pool_exec-keeps keep h = elim (db-pool_exec_cases f s) [ inl e ↦ rw e h | inr e ↦ rw e (keep h) ]

pub commit-keeps {ℓ} :
    {T : Type 0} (P : T → Type ℓ) (s : Session T) → P s.db → P s.work → P (commit s).1.db
commit-keeps P s h k = elim (db-commit_cases s) [ inl e ↦ rw e h | inr e ↦ rw e k ]

-- statements draw no ids
module _ {T : Type 0} where
  pub next_id-pool_exec : (f : T → T) (s : Session T) → (pool_exec f s).1.next_id ≡ s.next_id
  unfolding pool_exec
  next_id-pool_exec f s = ground arith

  pub next_id-pool_query : (s : Session T) → (pool_query s).1.next_id ≡ s.next_id
  unfolding pool_query
  next_id-pool_query s = ground arith

  pub next_id-exec : (f : T → T) (s : Session T) → (exec f s).1.next_id ≡ s.next_id
  unfolding exec
  next_id-exec f s = ground arith

  pub next_id-begin : (s : Session T) → (begin s).1.next_id ≡ s.next_id
  unfolding begin
  next_id-begin s = ground arith

  pub next_id-rollback : (s : Session T) → (rollback s).next_id ≡ s.next_id
  unfolding rollback
  next_id-rollback s = refl

  pub next_id-commit : (s : Session T) → (commit s).1.next_id ≡ s.next_id
  unfolding commit
  next_id-commit s = ground arith
