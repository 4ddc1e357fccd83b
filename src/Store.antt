-- ===== src/Store.antt =====
-- The database session that the protocols run in (psycopg's Connection with autocommit off, as
-- src/workflow_engine/db.py configures it): statements act on the working copy, `commit` publishes
-- it and `rollback` drops it. Each operation is a session action that returns or raises.
use platform_forge.Prelude.{ℕ, ◌+◌, Bool, List, insert, update, Result, ok, err, String}
use platform_forge.Models.{Db, JobRow, StepRow, AttemptRow}
use platform_forge.Metrics.{Metric}

-- What the operations raise: ValueError, RuntimeError, the two PermissionErrors, KeyError of a job
-- id or of a step name, psycopg's IntegrityError, AssertionError.
pub data Error : Type 0 where
  unknown_workflow : Error
  lost_job_row : Error
  conflict_terminal : Error
  not_dead_lettered : Error
  missing_job : ℕ → Error
  missing_step : String → Error
  integrity_error : Error
  assertion_failed : Error

pub record Session : Type 0 where
  pub committed : Db
  pub work : Db
  pub metrics : List Metric

abbrev pub M : Type 0 → Type 0
M A = Session → Result Error A × Session

infixl 5 ◌>>=◌ ◌>>◌
abbrev pub ◌>>=◌ : {A B : Type 0} → M A → (A → M B) → M B
◌>>=◌ m f s = let (r, s') = m s in elim r [ ok a ↦ f a s' | err e ↦ (err e, s') ]

abbrev pub ◌>>◌ : {A B : Type 0} → M A → M B → M B
m >> k = m >>= λ _. k

module _ {A : Type 0} where
  abbrev pub pure : A → M A
  pure a s = (ok a, s)

  abbrev pub raise : Error → M A
  raise e s = (err e, s)

  -- A SELECT.
  abbrev pub query : (Db → A) → M A
  query f s = (ok (f s.work), s)

-- A statement that writes.
abbrev pub execute : (Db → Db) → M (Unit {0})
execute f s = (ok tt, record s { work = f s.work })

abbrev pub commit : M (Unit {0})
commit s = (ok tt, record s { committed = s.work })

abbrev pub rollback : M (Unit {0})
rollback s = (ok tt, record s { work = s.committed })

abbrev pub inc : Metric → M (Unit {0})
inc m s = (ok tt, record s { metrics = insert m s.metrics })

-- UPDATE jobs SET f WHERE p
abbrev pub update_jobs : (JobRow → Bool) → (JobRow → JobRow) → Db → Db
update_jobs p f d = record d { jobs = update p f d.jobs }

-- UPDATE steps SET f WHERE p
abbrev pub update_steps : (StepRow → Bool) → (StepRow → StepRow) → Db → Db
update_steps p f d = record d { steps = update p f d.steps }

-- UPDATE attempts SET f WHERE p
abbrev pub update_attempts : (AttemptRow → Bool) → (AttemptRow → AttemptRow) → Db → Db
update_attempts p f d = record d { attempts = update p f d.attempts }

-- NOTIFY workflow_wake
abbrev pub notify : Db → Db
notify d = record d { wakes = d.wakes + 1 }

-- The block `with connection() as conn`, as psycopg_pool documents it: commit on return, roll back on an
-- exception.
unfoldable pub connection : {A : Type 0} → M A → M A
connection m s =
    let (r, s') = m s in
    elim r [
      | ok a ↦ (ok a, record s' { committed = s'.work })
      | err e ↦ (err e, record s' { work = s'.committed })
    ]
