-- ===== src/Database.antt =====
-- The database as the services use it through pgx: statements on a connection pool and inside a
-- transaction. Which statements fail is a script that the environment chooses: a statement is
-- done, is refused by the client library (nothing is sent, the transaction stays usable), or is
-- broken by the server, which aborts the transaction it runs in. A statement of an aborted
-- transaction fails, and so does its commit, which rolls back.
pub mod Laws
pub mod Transaction
use backend_go.Prelude.{ℕ, ◌+◌, Bool, true, false, List, [], ◌∷◌}

pub data Outcome : Type 0 where
  done refused broken : Outcome

-- `db` is what other sessions see, `work` the open transaction's view; `next_id` is the next
-- value of `ids.New()`.
pub record Session (T : Type 0) : Type 0 where
  pub db : T
  pub work : T
  pub aborted : Bool
  pub script : List Outcome
  pub next_id : ℕ

abbrev pub first : List Outcome → Outcome
first [] = done
first (o ∷ script) = o

abbrev pub later : List Outcome → List Outcome
later [] = []
later (o ∷ script) = script

module _ {T : Type 0} where
  -- db.Begin(ctx)
  begin_by : Outcome → Session T → Bool × Session T
  begin_by done s = (true, record s { work = s.db; aborted = false; script = later s.script })
  begin_by refused s = (false, record s { script = later s.script })
  begin_by broken s = (false, record s { script = later s.script })

  unfoldable pub begin : Session T → Bool × Session T
  unfolding begin_by
  begin s = begin_by (first s.script) s

  -- tx.Exec(ctx, statement)
  exec_by : Bool → Outcome → (T → T) → Session T → Bool × Session T
  exec_by true o f s = (false, record s { script = later s.script })
  exec_by false done f s = (true, record s { work = f s.work; script = later s.script })
  exec_by false refused f s = (false, record s { script = later s.script })
  exec_by false broken f s = (false, record s { aborted = true; script = later s.script })

  unfoldable pub exec : (T → T) → Session T → Bool × Session T
  unfolding exec_by
  exec f s = exec_by s.aborted (first s.script) f s

  -- tx.Query(ctx, query): whether the rows could be read
  unfoldable pub query : Session T → Bool × Session T
  unfolding exec
  query s = exec (λ t. t) s

  -- tx.Commit(ctx): a commit that reports an error has not been applied
  commit_by : Bool → Outcome → Session T → Bool × Session T
  commit_by true o s = (false, record s { work = s.db; aborted = false; script = later s.script })
  commit_by false done s = (true, record s { db = s.work; script = later s.script })
  commit_by false refused s = (false, record s { work = s.db; script = later s.script })
  commit_by false broken s = (false, record s { work = s.db; script = later s.script })

  unfoldable pub commit : Session T → Bool × Session T
  unfolding commit_by
  commit s = commit_by s.aborted (first s.script) s

  -- the deferred tx.Rollback(ctx)
  unfoldable pub rollback : Session T → Session T
  rollback s = record s { work = s.db; aborted = false }

  -- db.Exec(ctx, statement) on the pool
  pool_exec_by : Outcome → (T → T) → Session T → Bool × Session T
  pool_exec_by done f s = (true, record s { db = f s.db; script = later s.script })
  pool_exec_by refused f s = (false, record s { script = later s.script })
  pool_exec_by broken f s = (false, record s { script = later s.script })

  unfoldable pub pool_exec : (T → T) → Session T → Bool × Session T
  unfolding pool_exec_by
  pool_exec f s = pool_exec_by (first s.script) f s

  -- db.Query(ctx, query) on the pool
  unfoldable pub pool_query : Session T → Bool × Session T
  unfolding pool_exec
  pool_query s = pool_exec (λ t. t) s

-- a session without an open transaction and without faults
abbrev pub open_session : {T : Type 0} → T → Session T
open_session t = record { db = t; work = t; aborted = false; script = []; next_id = 1 }

abbrev pub with_script : {T : Type 0} → T → List Outcome → Session T
with_script t script = record { db = t; work = t; aborted = false; script = script; next_id = 1 }
