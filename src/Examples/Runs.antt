-- ===== src/Examples/Runs.antt =====
-- Concrete runs of the operations, and the soundness of the tables that they leave.
use platform_forge.Invariant.{Inv}
use platform_forge.Effects.Failure.{complete_failure-Inv}
use platform_forge.Models.{JobStatus, Db}
use platform_forge.Prelude.{
  ◌≢◌, none, some, update, refl, ok, ℕ, [], ◌∷◌, false, select, err, true, ◌<◌, find, first_by,
  length, arith, any, order_by, ◌≡◌, here,
}
use platform_forge.History.{
  cancels, IsSound, Reach, Reach-IsSound, empty-IsSound, start, waits, submits, claims,
}
use platform_forge.Registry.{register, store, set_of, Workflow, get}
use platform_forge.Claims.Claimed.{Verdict, stored_error, finish_attempt, owned}
use platform_forge.Claims.Complete.{
  complete_success, complete_success_sql, completable, complete_advance, finish_job_sql, unfinished,
  fail_retry, complete_failure, failure_write, has_cancelled, fail_dead_letter,
}
use platform_forge.Claims.Cancel.{cancel_job, replay_write, replay_step}
use platform_forge.Store.{integrity_error}
use platform_forge.Claims.Submit.{
  submit_existing, submit_new, submit_job, insert_job, char_length, insert_steps, insert_step,
}
use platform_forge.Examples.Data.{
  other_claim, other_uuids, busy_db, cancelled_db, refilled_db, claim_of, uuids, empty_db, demo,
  expired_db, stolen_db, payload, no_locks, claimed_db, submitted_db, halted_db, failure, the_job,
  fatal,
}
use platform_forge.Claims.Claim.{
  claim_step, claim_sql, picked, claimable, job_with, claim_row, insert_attempt, start_queued,
  claim_granted, upstream,
}
use platform_forge.Effects.{at, published}

pub submit_run :
    (submit_job uuids (demo ∷ []) "linear_naive" "k1" payload (at empty_db [])).0 ≡ ok (10, true)
unfolding submit_job get find insert_job any char_length insert_steps insert_step submit_new
submit_run = refl

submit_run_tables :
    published (submit_job uuids (demo ∷ []) "linear_naive" "k1" payload (at empty_db []))
    ≡ submitted_db
unfolding submit_job get find insert_job any char_length insert_steps insert_step submit_new
submit_run_tables = refl

pub claim_run : (claim_step no_locks "w1" 15 (at submitted_db [])).0 ≡ ok (some (claim_of 1 false))
unfolding claim_step claim_sql picked claimable job_with claim_row insert_attempt start_queued
    claim_granted upstream find any update first_by order_by select
claim_run = refl

claim_run_tables : published (claim_step no_locks "w1" 15 (at submitted_db [])) ≡ claimed_db
unfolding claim_step claim_sql picked claimable job_with claim_row insert_attempt start_queued
    claim_granted upstream find any update first_by order_by select
claim_run_tables = refl

pub steal_run : (claim_step no_locks "w2" 15 (at expired_db [])).0 ≡ ok (some (claim_of 2 true))
unfolding claim_step claim_sql picked claimable job_with claim_row insert_attempt start_queued
    claim_granted upstream find any update first_by order_by select
steal_run = refl

steal_run_tables : published (claim_step no_locks "w2" 15 (at expired_db [])) ≡ stolen_db
unfolding claim_step claim_sql picked claimable job_with claim_row insert_attempt start_queued
    claim_granted upstream find any update first_by order_by select
steal_run_tables = refl

demo_has_steps : (wf : Workflow ℕ) → get (demo ∷ []) "linear_naive" ≡ some wf → 0 < length wf.steps
unfolding get find
demo_has_steps wf e = let same : demo ≡ wf = ground arith in rw (← same) (omega arith)

-- The history of the examples, call by call.
pub submit_history : Reach ℕ empty_db [] submitted_db []
submit_history =
    let h : Reach ℕ empty_db [] _ [] =
      submits uuids (demo ∷ []) "linear_naive" "k1" payload [] demo_has_steps start in
    rw submit_run_tables at h

pub claim_history : Reach ℕ empty_db [] claimed_db (claim_of 1 false ∷ [])
claim_history =
    let h = claims no_locks "w1" 15 [] submit_history in rw (claim_run_tables, claim_run) at h

pub steal_history : Reach ℕ empty_db [] stolen_db (claim_of 2 true ∷ claim_of 1 false ∷ [])
steal_history =
    let h = claims no_locks "w2" 15 [] (waits 20 claim_history) in
    rw (steal_run_tables, steal_run) at h

pub submitted-IsSound : IsSound submitted_db []
submitted-IsSound = Reach-IsSound (empty-IsSound 1000) submit_history

pub claimed-IsSound : IsSound claimed_db (claim_of 1 false ∷ [])
claimed-IsSound = Reach-IsSound (empty-IsSound 1000) claim_history

pub stolen-IsSound : IsSound stolen_db (claim_of 2 true ∷ claim_of 1 false ∷ [])
stolen-IsSound = Reach-IsSound (empty-IsSound 1000) steal_history

pub other_run : (claim_step no_locks "w2" 15 (at busy_db [])).0 ≡ ok (some other_claim)
unfolding claim_step claim_sql picked claimable job_with claim_row insert_attempt start_queued
    claim_granted upstream find any update first_by order_by select
other_run = refl

busy_run_tables :
    published (submit_job other_uuids (demo ∷ []) "linear_naive" "k2" payload (at claimed_db []))
    ≡ busy_db
unfolding submit_job get find insert_job any char_length insert_steps insert_step submit_new
busy_run_tables = refl

cancel_run_tables : published (cancel_job 10 (at submitted_db [])) ≡ cancelled_db
unfolding cancel_job find update
cancel_run_tables = refl

refilled_run_tables :
    published (submit_job other_uuids (demo ∷ []) "linear_naive" "k2" payload (at cancelled_db []))
    ≡ refilled_db
unfolding submit_job get find insert_job any char_length insert_steps insert_step submit_new
refilled_run_tables = refl

pub refilled_run : (claim_step no_locks "w2" 15 (at refilled_db [])).0 ≡ ok (some other_claim)
unfolding claim_step claim_sql picked claimable job_with claim_row insert_attempt start_queued
    claim_granted upstream find any update first_by order_by select
refilled_run = refl

pub busy_history : Reach ℕ empty_db [] busy_db (claim_of 1 false ∷ [])
busy_history =
    let h : Reach ℕ empty_db [] _ (claim_of 1 false ∷ []) =
      submits other_uuids (demo ∷ []) "linear_naive" "k2" payload [] demo_has_steps claim_history in
    rw busy_run_tables at h

pub cancel_history : Reach ℕ empty_db [] cancelled_db []
cancel_history =
    let h : Reach ℕ empty_db [] _ [] = cancels 10 [] submit_history in rw cancel_run_tables at h

pub refilled_history : Reach ℕ cancelled_db [] refilled_db []
refilled_history =
    let h : Reach ℕ cancelled_db [] _ [] =
      submits other_uuids (demo ∷ []) "linear_naive" "k2" payload [] demo_has_steps start in
    rw refilled_run_tables at h

-- What happens after the submit, up to the steal.
pub later_history : Reach ℕ submitted_db [] stolen_db (claim_of 2 true ∷ claim_of 1 false ∷ [])
later_history =
    let h : Reach ℕ submitted_db [] _ _ = claims no_locks "w1" 15 [] start in
    let first : Reach ℕ submitted_db [] claimed_db (claim_of 1 false ∷ []) =
      rw (claim_run_tables, claim_run) at h in
    let k : Reach ℕ submitted_db [] _ _ = claims no_locks "w2" 15 [] (waits 20 first) in
    rw (steal_run_tables, steal_run) at k

pub success_run :
    (complete_success (claim_of 1 false) payload (at claimed_db [])).0 ≡ ok Verdict.succeeded
unfolding complete_success complete_success_sql completable complete_advance finish_attempt
    stored_error finish_job_sql unfinished job_with find any update
success_run = refl

-- One id for the job and for every step: the insert of the second step raises, after the job and the
-- first step were inserted.
pub clash_run :
    (submit_job (λ _. 10) (demo ∷ []) "linear_naive" "k1" payload (at empty_db [])).0
    ≡ err integrity_error
unfolding submit_job get find insert_job any char_length insert_steps insert_step submit_new
clash_run = refl

pub duplicate_run :
    (submit_job uuids (demo ∷ []) "linear_naive" "k1" payload (at submitted_db [])).0
    ≡ ok (10, false)
unfolding submit_job get find insert_job any char_length submit_existing
duplicate_run = refl

pub register_run : register [] demo ≡ ok (demo ∷ [])
unfolding register set_of any store
register_run = refl

pub get_run : get (demo ∷ []) "linear_naive" ≡ some demo
unfolding get find
get_run = refl

pub busy-IsSound : IsSound busy_db (claim_of 1 false ∷ [])
busy-IsSound = Reach-IsSound (empty-IsSound 1000) busy_history

pub demo_known : get (demo ∷ []) "linear_naive" ≢ none
unfolding get find
demo_known e = ground arith

pub expired_job_run : job_with 10 expired_db ≡ some (the_job JobStatus.running)
unfolding job_with find
expired_job_run = refl

-- The first step fails for good.
abbrev pub dead_db : Db
dead_db = published (complete_failure (claim_of 1 false) fatal (at claimed_db []))

pub dead-Inv : Inv dead_db
dead-Inv =
    complete_failure-Inv (claim_of 1 false) fatal claimed_db [] claimed-IsSound.inv
      (claimed-IsSound.issued (claim_of 1 false) here)

pub replay_run : (replay_step 10 "charge" (at dead_db [])).0 ≡ ok tt
unfolding replay_step replay_write complete_failure failure_write fail_dead_letter finish_attempt
    stored_error job_with find update
replay_run = refl

pub retry_run :
    (complete_failure (claim_of 1 false) failure (at claimed_db [])).0 ≡ ok Verdict.retry
unfolding complete_failure failure_write fail_retry finish_attempt stored_error job_with find update
retry_run = refl

pub cancel_run : (cancel_job 10 (at submitted_db [])).0 ≡ ok tt
unfolding cancel_job find update
cancel_run = refl

halted_run_tables : published (cancel_job 10 (at claimed_db [])) ≡ halted_db
unfolding cancel_job find update
halted_run_tables = refl

pub halted_history : Reach ℕ empty_db [] halted_db (claim_of 1 false ∷ [])
halted_history =
    let h : Reach ℕ empty_db [] _ (claim_of 1 false ∷ []) = cancels 10 [] claim_history in
    rw halted_run_tables at h

pub halted_run : has_cancelled (job_with 10 halted_db) ≡ true
unfolding job_with find
halted_run = refl

pub lost_run : find (owned 11 1) stolen_db.steps ≡ none
unfolding find
lost_run = refl
