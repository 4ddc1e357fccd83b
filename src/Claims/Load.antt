-- ===== src/Claims/Load.antt =====
-- `load_job` and `list_jobs` of src/workflow_engine/claims.py. Rows that ORDER BY ranks equally, of which
-- the database may choose, come in the order of the table.
use platform_forge.Claims.Claim.{job_with, is_before}
use platform_forge.Store.{missing_job, M, query, raise, ◌>>=◌, pure}
use platform_forge.Models.{
  Db, AttemptRow, is_active, is_pending, JobRow, is_running, StepRow, status_text,
}
use platform_forge.Prelude.{
  ℕ, some, insert, max, map, take, leb, ◌+◌, ◌∷◌, any, ◌==◌, ◌&&◌, min, ◌||◌, none, order_by, true,
  if◌then◌else◌, Option, select, List, [], Bool, order_down, String, str_eq,
}

pub record StepView : Type 0 where
  pub step : StepRow
  pub attempts : List AttemptRow

pub record JobView : Type 0 where
  pub job : JobRow
  pub steps : List StepView

-- by_step.setdefault(key, []).append(a), on a dictionary in insertion order.
unfoldable pub append_to : ℕ → AttemptRow → List (ℕ × List AttemptRow) → List (ℕ × List AttemptRow)
append_to key a [] = (key, a ∷ []) ∷ []
append_to key a ((k, group) ∷ m) =
    if k == key then (k, insert a group) ∷ m else (k, group) ∷ append_to key a m

-- by_step.get(key, [])
unfoldable pub group_of : ℕ → List (ℕ × List AttemptRow) → List AttemptRow
group_of key [] = []
group_of key ((k, group) ∷ m) = if k == key then group else group_of key m

-- The loop over the attempts.
unfoldable pub by_step : List AttemptRow → List (ℕ × List AttemptRow) → List (ℕ × List AttemptRow)
by_step [] m = m
by_step (a ∷ rest) m = by_step rest (append_to a.step_id a m)

-- The SELECT of the attempts of a job, ORDER BY started_at, id.
unfoldable pub attempts_of : ℕ → Db → List AttemptRow
attempts_of job_id d =
    order_by (λ a. a.started_at)
      (order_by (λ a. a.id)
        (select (λ a. any (λ s. s.id == a.step_id && s.job_id == job_id) d.steps) d.attempts))

-- SELECT * FROM steps WHERE job_id = %s ORDER BY seq
unfoldable pub steps_of : ℕ → Db → List StepRow
steps_of job_id d = order_by (λ s. s.seq) (select (λ s. s.job_id == job_id) d.steps)

unfoldable pub load_job : ℕ → M JobView
load_job job_id = do
  job ← query (job_with job_id)
  elim job [
    | none ↦ raise (missing_job job_id)
    | some j ↦ do
      steps ← query (steps_of job_id)
      attempts ← query (attempts_of job_id)
      let groups = by_step attempts []
      pure (record {
        job = j;
        steps = map (λ s. record { step = s; attempts = group_of s.id groups }) steps;
      })
  ]

-- now() - interval '30 seconds', in microseconds.
abbrev stuck_after : ℕ
stuck_after = 30000000

-- The lease has run out, or the step is due since half a minute.
abbrev pub is_stuck : ℕ → StepRow → Bool
is_stuck now s =
    (is_running s.status && is_before s.leased_until now)
    || (is_pending s.status && leb (s.run_after + stuck_after) now)

abbrev pub clamp_limit : ℕ → ℕ
clamp_limit limit = max 1 (min limit 200)

-- The three SELECTs of `list_jobs`; an empty `status` is none. DISTINCT drops nothing but repetitions of a job, as its id is a key.
unfoldable pub listed : Option String → Bool → ℕ → Db → List JobRow
listed status stuck limit d =
    let chosen : JobRow → Bool =
      if stuck
      then (λ j. is_active j.status && any (λ s. s.job_id == j.id && is_stuck d.now s) d.steps)
      else elim status [
        | none ↦ (λ j. true)
        | some t ↦ (λ j. str_eq t "" || str_eq (status_text j.status) t)
      ] in
    take limit (order_down (λ j. j.created_at) (select chosen d.jobs))

-- [load_job(conn, row["id"]) for row in rows]
unfoldable pub load_jobs : List JobRow → M (List JobView)
load_jobs [] = pure []
load_jobs (j ∷ rest) = do view ← load_job j.id; views ← load_jobs rest; pure (view ∷ views)

unfoldable pub list_jobs : Option String → Bool → ℕ → M (List JobView)
list_jobs status stuck limit = do load_jobs (← query (listed status stuck (clamp_limit limit)))
