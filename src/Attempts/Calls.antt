-- ===== src/Attempts/Calls.antt =====
-- Each operation on a leased step, a job or a dead letter keeps the log of the leases.
use platform_forge.Invariant.{Inv}
use platform_forge.Metrics.{Metric}
use platform_forge.Durable.Calls.{heartbeat-Keeps, cancel_job-Keeps, replay_step-Keeps}
use platform_forge.Effects.Heartbeat.{heartbeat_tables, heartbeat_missed_tables}
use platform_forge.Claims.Claim.{job_with}
use platform_forge.Claims.Heartbeat.{heartbeat, joined, renew_row, beats}
use platform_forge.Claims.Cancel.{live_step, active_job, replay_row, cancel_job, replay_step}
use platform_forge.Effects.Cancel.{
  cancel_tables, named, cancel_refused, replay_tables, replay_missing_job, replay_missing_step,
  replay_refused,
}
use platform_forge.Claims.Claimed.{close_attempt, open_attempt, cancel_row}
use platform_forge.Effects.{published, at}
use platform_forge.Durable.{Keeps}
use platform_forge.Attempts.{IsLogged, RanOn, written-IsLogged, is_unsettled, Rested}
use platform_forge.Attempts.Writes.{heartbeat_attempts, cancel_attempts, replay_attempts, Closes}
use platform_forge.Models.{Db, AttemptRow, is_dead_lettered, is_running, JobRow, StepRow}
use platform_forge.Prelude.{
  ℕ, ◌≡◌, update, arith, Bool-cases, inr, Option-cases, String, false, In, refl, Bool, ◌∷◌,
  In-update-cases, true, some, List, sym, find, ◌∙◌, inl, [],
}

abbrev pub none_written : AttemptRow → Bool
none_written a = false

pub nothing_updated : (xs : List AttemptRow) → update none_written (λ a. a) xs ≡ xs
unfolding update
nothing_updated [] = refl
nothing_updated (x ∷ xs) = ground (arith, nothing_updated xs)

-- A step that an UPDATE does not touch runs on.
pub runs_on :
    (q : AttemptRow → Bool) (d : Db) (t : StepRow)
    → In t d.steps
    → is_running t.status ≡ true
    → ((a : AttemptRow) → a.step_id ≡ t.id → a.fencing_token ≡ t.fencing_token → q a ≡ false)
    → RanOn q d t
runs_on q d t m h spared = record {
  row = t;
  row_in = m;
  ran = h;
  id = refl;
  token = refl;
  worker = refl;
  spared = spared;
}

-- A settled step that an UPDATE does not touch was settled before.
pub rests_on :
    (q : AttemptRow → Bool) (d : Db) (t : StepRow)
    → In t d.steps
    → is_unsettled t ≡ false
    → Rested q d t
rests_on q d t m h = inl (t, m, refl, refl, h)

module _ (d d' : Db) (l : IsLogged d) where
  -- Attempts are not written.
  pub kept-IsLogged :
      Keeps d d'
      → d'.attempts ≡ d.attempts
      → ((t : StepRow) → In t d'.steps → is_running t.status ≡ true → RanOn none_written d t)
      → ((t : StepRow) → In t d'.steps → is_unsettled t ≡ false → Rested none_written d t)
      → IsLogged d'
  kept-IsLogged k e runs rests =
      written-IsLogged none_written (λ a. a) d d' l
        (λ a. record { step_id = refl; token = refl; worker = refl }) k
        (e ∙ sym (nothing_updated d.attempts)) (λ a h. absurd (ground (arith, h))) runs rests

  -- The attempt of one lease is closed.
  pub closed-IsLogged :
      (step_id token : ℕ)
      → Keeps d d'
      → Closes step_id token d d'
      → ((t : StepRow)
          → In t d'.steps
          → is_running t.status ≡ true
          → RanOn (open_attempt step_id token) d t)
      → ((t : StepRow)
          → In t d'.steps
          → is_unsettled t ≡ false
          → Rested (open_attempt step_id token) d t)
      → IsLogged d'
  closed-IsLogged step_id token k c runs rests =
      written-IsLogged (open_attempt step_id token) (close_attempt d.now c.outcome c.error) d d' l
        (λ a. record { step_id = refl; token = refl; worker = refl }) k c.attempts
        (λ a h n. absurd (ground (arith, n))) runs rests

module _ (d : Db) (ms : List Metric) (v : Inv d) (l : IsLogged d) where
  pub heartbeat-IsLogged :
      (step_id : ℕ) (worker : String) (token ttl : ℕ)
      → IsLogged (published (heartbeat step_id worker token ttl (at d ms)))
  heartbeat-IsLogged step_id worker token ttl =
      kept-IsLogged d _ l (heartbeat-Keeps d ms v step_id worker token ttl)
        (heartbeat_attempts d ms step_id worker token ttl)
        (λ t m h. elim (Option-cases (joined (beats step_id worker token) d)) [
          | inl e ↦
              runs_on none_written d t
                (rw (heartbeat_missed_tables step_id worker token ttl d ms e).0 at m) h
                (λ a i n. refl)
          | inr ((s, j), e) ↦
              let (steps, _, _) = heartbeat_tables step_id worker token ttl d ms s j e in
              let (r, mr, er) =
                In-update-cases (beats step_id worker token) (renew_row d.now ttl) d.steps
                  (rw steps at m) in
              record {
                row = r;
                row_in = mr;
                ran = ground arith;
                id = ground arith;
                token = ground arith;
                worker = ground arith;
                spared = λ a i n. refl;
              }
        ])
        (λ t m h. elim (Option-cases (joined (beats step_id worker token) d)) [
          | inl e ↦
              rests_on none_written d t
                (rw (heartbeat_missed_tables step_id worker token ttl d ms e).0 at m) h
          | inr ((s, j), e) ↦
              let (steps, _, _) = heartbeat_tables step_id worker token ttl d ms s j e in
              let (r, mr, er) =
                In-update-cases (beats step_id worker token) (renew_row d.now ttl) d.steps
                  (rw steps at m) in
              inl (r, mr, ground (arith, er), ground (arith, er), ground (arith, er, h))
        ])

  pub cancel_job-IsLogged : (job_id : ℕ) → IsLogged (published (cancel_job job_id (at d ms)))
  cancel_job-IsLogged job_id =
      kept-IsLogged d _ l (cancel_job-Keeps d ms v job_id) (cancel_attempts d ms job_id)
        (λ t m h. elim (Option-cases (find (active_job job_id) d.jobs)) [
          | inl e ↦
              runs_on none_written d t (rw (cancel_refused job_id d ms e).0 at m) h (λ a i n. refl)
          | inr (k, e) ↦
              let (steps, _, _) = cancel_tables job_id d ms k e in
              let (r, mr, er) =
                In-update-cases (live_step job_id) (cancel_row d.now) d.steps (rw steps at m) in
              let same : t ≡ r = ground arith in
              runs_on none_written d t (rw same mr) h (λ a i n. refl)
        ])
        (λ t m h. elim (Option-cases (find (active_job job_id) d.jobs)) [
          | inl e ↦ rests_on none_written d t (rw (cancel_refused job_id d ms e).0 at m) h
          | inr (k, e) ↦
              let (steps, _, _) = cancel_tables job_id d ms k e in
              let (r, mr, er) =
                In-update-cases (live_step job_id) (cancel_row d.now) d.steps (rw steps at m) in
              let same : t ≡ r = ground arith in rests_on none_written d t (rw same mr) h
        ])

  replayed-RanOn :
      (job_id : ℕ) (name : String) (j : JobRow) (p : StepRow)
      → job_with job_id d ≡ some j
      → find (named job_id name) d.steps ≡ some p
      → is_dead_lettered p.status ≡ true
      → (t : StepRow) → In t (published (replay_step job_id name (at d ms))).steps
      → is_running t.status ≡ true
      → RanOn none_written d t
  replayed-RanOn job_id name j p e ep dead t m h =
      let (steps, _, _) = replay_tables job_id name d ms j p e ep dead in
      let (r, mr, er) = In-update-cases _ (replay_row d.now) d.steps (rw steps at m) in
      let same : t ≡ r = ground arith in runs_on none_written d t (rw same mr) h (λ a i n. refl)

  replayed-Rested :
      (job_id : ℕ) (name : String) (j : JobRow) (p : StepRow)
      → job_with job_id d ≡ some j
      → find (named job_id name) d.steps ≡ some p
      → is_dead_lettered p.status ≡ true
      → (t : StepRow) → In t (published (replay_step job_id name (at d ms))).steps
      → is_unsettled t ≡ false
      → Rested none_written d t
  replayed-Rested job_id name j p e ep dead t m h =
      let (steps, _, _) = replay_tables job_id name d ms j p e ep dead in
      let (r, mr, er) = In-update-cases _ (replay_row d.now) d.steps (rw steps at m) in
      inl (r, mr, ground (arith, er), ground (arith, er), ground (arith, er, h))

  pub replay_step-IsLogged :
      (job_id : ℕ) (name : String) → IsLogged (published (replay_step job_id name (at d ms)))
  replay_step-IsLogged job_id name =
      kept-IsLogged d _ l (replay_step-Keeps d ms v job_id name) (replay_attempts d ms job_id name)
        (λ t m h. elim (Option-cases (job_with job_id d)) [
          | inl e ↦
              runs_on none_written d t (rw (replay_missing_job job_id name d ms e).0 at m) h
                (λ a i n. refl)
          | inr (j, e) ↦ elim (Option-cases (find (named job_id name) d.steps)) [
            | inl n ↦
                runs_on none_written d t (rw (replay_missing_step job_id name d ms j e n).0 at m) h
                  (λ a i n. refl)
            | inr (p, ep) ↦ elim (Bool-cases (is_dead_lettered p.status)) [
              | inl dead ↦ replayed-RanOn job_id name j p e ep dead t m h
              | inr alive ↦
                  runs_on none_written d t
                    (rw (replay_refused job_id name d ms j p e ep alive).0 at m) h (λ a i n. refl)
            ]
          ]
        ])
        (λ t m h. elim (Option-cases (job_with job_id d)) [
          | inl e ↦ rests_on none_written d t (rw (replay_missing_job job_id name d ms e).0 at m) h
          | inr (j, e) ↦ elim (Option-cases (find (named job_id name) d.steps)) [
            | inl n ↦
                rests_on none_written d t (rw (replay_missing_step job_id name d ms j e n).0 at m) h
            | inr (p, ep) ↦ elim (Bool-cases (is_dead_lettered p.status)) [
              | inl dead ↦ replayed-Rested job_id name j p e ep dead t m h
              | inr alive ↦
                  rests_on none_written d t
                    (rw (replay_refused job_id name d ms j p e ep alive).0 at m) h
            ]
          ]
        ])
