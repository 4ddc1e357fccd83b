-- ===== src/Race.antt =====
-- `complete_failure` reads the job and the row that it owns, and writes later: its statements are not
-- one atomic step, so another transaction may commit in between.
use platform_forge.Claims.Complete.{
  Failure, dead_letter_job, dead_letter_row, fail_dead_letter, failure_write,
}
use platform_forge.Claims.Claimed.{ClaimedStep, finish_attempt, Verdict, owned}
use platform_forge.Metrics.{Metric}
use platform_forge.Models.{is_active, Db, JobRow}
use platform_forge.Effects.{published, at}
use platform_forge.Prelude.{
  changed, In, none, Bool, ltb, ◌≡◌, false, In-update, ok, true, find, arith, ◌&&◌, ◌==◌,
  update-none, List,
}

-- If the lease is lost between the reads and the writes, and no retry is left, the answer is
-- `dead_lettered`, no step changes, and yet the claim's job, if it is active, is dead-lettered.
pub late_failure_dead_letters_job :
    (c : ClaimedStep) (f : Failure) (d : Db) (ms : List Metric)
    → find (owned c.step_id c.fencing_token) d.steps ≡ none
    → (f.retryable && ltb c.attempt_count c.max_attempts) ≡ false
    → let r = failure_write c f false true (at d ms) in
      (r.0 ≡ ok Verdict.dead_lettered)
      × ((published r).steps ≡ d.steps)
      × ((j : JobRow)
          → In j d.jobs
          → j.id ≡ c.job_id
          → is_active j.status ≡ true
          → In (dead_letter_job d.now j) (published r).jobs)
unfolding failure_write fail_dead_letter finish_attempt
late_failure_dead_letters_job c f d ms lost over = (
  ground arith,
  ground (
    arith,
    update-none (owned c.step_id c.fencing_token) (dead_letter_row d.now f.error) d.steps lost,
  ),
  λ j m e a.
      let k : JobRow → Bool = λ k. k.id == c.job_id && is_active k.status in
      let hit : changed k (dead_letter_job d.now) j ≡ dead_letter_job d.now j = ground arith in
      let there' = In-update k (dead_letter_job d.now) m in ground (arith, rw hit at there'),
)
