-- ===== src/History/Once.antt =====
-- A granted claim completes once, whatever is called after its success.
use platform_forge.Api.Jobs.{jobs}
use platform_forge.History.{Reach, IsSound, Reach-IsSound, succeeds, start, kept-IsIssued}
use platform_forge.History.Durable.{Reach-Keeps}
use platform_forge.Fencing.{success_found, completed_row}
use platform_forge.Effects.{at, published}
use platform_forge.Effects.Success.{refused_same, success_refused, IsIssued}
use platform_forge.Effects.Failure.{failure_stale}
use platform_forge.Claims.Complete.{complete_success, complete_failure, Failure, completable}
use platform_forge.Claims.Claimed.{ClaimedStep, Verdict, owned}
use platform_forge.Models.{Db, Value, StepRow, is_succeeded}
use platform_forge.Metrics.{Metric}
use platform_forge.Prelude.{◌≡◌, ◌≢◌, In, List, ok, none, find, find-miss, arith, true, ◌∙◌}

abbrev pub after_success : ClaimedStep → Value → Db → List Metric → Db
after_success c output d ms = published (complete_success c output (at d ms))

module _ {ℓ} {H : Type ℓ} {d : Db} {cs : List ClaimedStep} (s : IsSound d cs) (c : ClaimedStep)
    (m : In c cs) (output : Value) (ms : List Metric) where
  module _ (e : (complete_success c output (at d ms)).0 ≡ ok Verdict.succeeded) {d' : Db}
      {cs' : List ClaimedStep} (r : Reach H (after_success c output d ms) cs d' cs') where
    sound_after : IsSound (after_success c output d ms) cs
    sound_after = Reach-IsSound {H = H} s (succeeds c output ms m start)

    -- The row of the claim has succeeded for good, so the claim owns none.
    succeeded_row :
        (t : StepRow) × In t d'.steps × (t.id ≡ c.step_id) × (is_succeeded t.status ≡ true)
    succeeded_row =
        let (p, found) = success_found c output d ms s.inv (s.issued c m) e in
        let (t, mt, id, over) = completed_row c output d ms s.inv (s.issued c m) p found in
        let (u, mu, kept) = (Reach-Keeps sound_after r).steps t mt in
        (u, mu, kept.id ∙ id, ground (arith, kept.final, over))

    claim_gone : find (owned c.step_id c.fencing_token) d'.steps ≡ none
    claim_gone =
        let (t, mt, id, over) = succeeded_row in
        let keyed = (Reach-IsSound sound_after r).inv.keyed in
        find-miss (owned c.step_id c.fencing_token) d'.steps
          λ u mu. ground (arith, keyed.step_id u t mu mt, id, over)

    claim_closed : find (completable c.step_id c.fencing_token d') d'.steps ≡ none
    unfolding completable
    claim_closed =
        let (t, mt, id, over) = succeeded_row in
        let keyed = (Reach-IsSound sound_after r).inv.keyed in
        find-miss _ d'.steps λ u mu. ground (arith, keyed.step_id u t mu mt, id, over)

    kept_claim : IsIssued d' c
    kept_claim =
        kept-IsIssued (after_success c output d ms) d' c (Reach-Keeps sound_after r)
          (sound_after.issued c m)

    -- After a success of a granted claim, from sound tables, and then any history of calls, no report
    -- of the same claim is accepted: a report of success is not answered by `succeeded`, and neither it
    -- nor a report of failure changes a job or a step.
    pub succeeds_once :
        (output' : Value) (f : Failure) (ms' : List Metric)
        → let again = complete_success c output' (at d' ms') in
          let late = complete_failure c f (at d' ms') in
          (again.0 ≢ ok Verdict.succeeded)
          × ((published again).steps ≡ d'.steps)
          × ((published again).jobs ≡ d'.jobs)
          × ((published late).steps ≡ d'.steps)
          × ((published late).jobs ≡ d'.jobs)
    succeeds_once output' f ms' =
        let now_sound = Reach-IsSound sound_after r in
        let held = kept_claim in
        let (steps, jobs) = refused_same c output' d' ms' now_sound.inv held claim_closed in
        let (fsteps, fjobs, _) = failure_stale c f d' ms' claim_gone in
        (
          λ q. ground (arith, (success_refused c output' d' ms' claim_closed).2),
          steps,
          jobs,
          fsteps,
          fjobs,
        )
