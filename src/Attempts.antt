-- ===== src/Attempts.antt =====
-- The table `attempts` as the log of the leases.

pub mod Writes
pub mod Issues
pub mod Calls
pub mod Reports
pub mod Granted
pub mod Every
pub mod Log
use platform_forge.Effects.{at}
use platform_forge.Lifecycle.Rows.{ends}
use platform_forge.Models.{Db, StepRow, AttemptRow, is_running, is_started, is_cancelled}
use platform_forge.Claims.Claimed.{ClaimedStep}
use platform_forge.Durable.{Keeps}
use platform_forge.Prelude.{
  ◌≤◌, ◌≡◌, In, Bool, true, false, some, update, arith, In-update-cases, ap, sym, In-update,
  changed, ◌∙◌, List, ◌||◌, inr, ◌⊎◌, none, inl, ◌≢◌, Bool-cases,
}

-- The attempt that a running step has open.
pub record IsOpen (a : AttemptRow) (s : StepRow) : Type 0 where
  pub step_id : a.step_id ≡ s.id
  pub token : a.fencing_token ≡ s.fencing_token
  pub worker : some a.worker_id ≡ s.worker_id
  pub started : is_started a.outcome ≡ true
  pub unfinished : a.finished_at ≡ none

-- The step runs, or was cancelled, perhaps while it ran.
abbrev pub is_unsettled : StepRow → Bool
is_unsettled s = is_running s.status || is_cancelled s.status

pub record IsLogged (d : Db) : Type 0 where
  -- an attempt is of a step of the table, under a token that was given
  pub known :
      (a : AttemptRow)
      → In a d.attempts
      → (s : StepRow) × In s d.steps × (s.id ≡ a.step_id) × (a.fencing_token ≤ s.fencing_token)
  -- UNIQUE (step_id, fencing_token)
  pub single :
      (a b : AttemptRow)
      → In a d.attempts
      → In b d.attempts
      → a.step_id ≡ b.step_id
      → a.fencing_token ≡ b.fencing_token
      → a ≡ b
  -- a step that runs has the attempt of its lease open, by the worker that holds it
  pub running :
      (s : StepRow)
      → In s d.steps
      → is_running s.status ≡ true
      → (a : AttemptRow) × In a d.attempts × IsOpen a s
  -- an attempt without an end has begun, and nothing else
  pub begun :
      (a : AttemptRow) → In a d.attempts → a.finished_at ≡ none → is_started a.outcome ≡ true
  -- the attempt of the last lease of a step has its end once the step neither runs nor is cancelled
  pub settled :
      (a : AttemptRow) (s : StepRow)
      → In a d.attempts
      → a.finished_at ≡ none
      → In s d.steps
      → s.id ≡ a.step_id
      → s.fencing_token ≡ a.fencing_token
      → is_unsettled s ≡ true

-- Every claim has its attempt.
abbrev pub LogsAll : Db → List ClaimedStep → Type 0
LogsAll d cs =
    (c : ClaimedStep)
    → In c cs
    → (a : AttemptRow) × In a d.attempts
      × (a.step_id ≡ c.step_id)
      × (a.fencing_token ≡ c.fencing_token)

-- The attempt is the same but for how it ended.
pub record SameAttempt (a b : AttemptRow) : Type 0 where
  pub step_id : b.step_id ≡ a.step_id
  pub token : b.fencing_token ≡ a.fencing_token
  pub worker : b.worker_id ≡ a.worker_id

-- A step that runs, and ran before under the same lease, whose attempts are not written.
pub record RanOn (q : AttemptRow → Bool) (d : Db) (t : StepRow) : Type 0 where
  pub row : StepRow
  pub row_in : In row d.steps
  pub ran : is_running row.status ≡ true
  pub id : row.id ≡ t.id
  pub token : row.fencing_token ≡ t.fencing_token
  pub worker : row.worker_id ≡ t.worker_id
  pub spared : (a : AttemptRow) → a.step_id ≡ t.id → a.fencing_token ≡ t.fencing_token → q a ≡ false

-- A step that is settled was so before under the same lease, or all its attempts of that lease that are
-- open are written.
abbrev pub Rested : (AttemptRow → Bool) → Db → StepRow → Type 0
Rested q d t =
    ((r : StepRow) × In r d.steps
      × (r.id ≡ t.id)
      × (r.fencing_token ≡ t.fencing_token)
      × (is_unsettled r ≡ false))
    ⊎ ((a : AttemptRow)
        → In a d.attempts
        → a.step_id ≡ t.id
        → a.fencing_token ≡ t.fencing_token
        → is_started a.outcome ≡ true
        → q a ≡ true)

module _ (q : AttemptRow → Bool) (f : AttemptRow → AttemptRow) (d d' : Db) (l : IsLogged d) where
  -- Writing attempts of steps that do not run keeps the log.
  pub written-IsLogged :
      ((a : AttemptRow) → SameAttempt a (f a))
      → Keeps d d'
      → d'.attempts ≡ update q f d.attempts
      → ((a : AttemptRow) → q a ≡ true → (f a).finished_at ≢ none)
      → ((t : StepRow) → In t d'.steps → is_running t.status ≡ true → RanOn q d t)
      → ((t : StepRow) → In t d'.steps → is_unsettled t ≡ false → Rested q d t)
      → IsLogged d'
  written-IsLogged same k e ended runs rests = record {
    known = λ b m.
        let (a, ma, ea) = came b m in
        let (s, ms, id, token) = l.known a ma in
        let (t, mt, st) = k.steps s ms in
        (t, mt, ground (arith, st.id, id, ea, same a), ground (arith, st.token, token, ea, same a));
    single = λ b c mb mc i n.
        let (x, mx, ex) = came b mb in
        let (y, my, ey) = came c mc in
        let one : x ≡ y =
          l.single x y mx my (ground (arith, i, ex, ey, same x, same y))
            (ground (arith, n, ex, ey, same x, same y)) in
        ex ∙ ap (changed q f) one ∙ sym ey;
    running = λ t m r.
        let ran = runs t m r in
        let (a, ma, opened) = l.running ran.row ran.row_in ran.ran in
        let out : q a ≡ false = ran.spared a (opened.step_id ∙ ran.id) (opened.token ∙ ran.token) in
        let fixed : changed q f a ≡ a = ground arith in
        (
          a,
          rw e (rw fixed at (In-update q f ma)),
          record {
            step_id = opened.step_id ∙ ran.id;
            token = opened.token ∙ ran.token;
            worker = opened.worker ∙ ran.worker;
            started = opened.started;
            unfinished = opened.unfinished;
          },
        );
    begun = λ b m n.
        let (a, ma, ea, out, fin) = unwritten b m n in ground (arith, l.begun a ma fin, ea);
    settled = λ b t m n mt i k.
        let (a, ma, ea, out, fin) = unwritten b m n in
        elim (Bool-cases (is_unsettled t)) [
          | inl u ↦ u
          | inr u ↦ elim (rests t mt u) [
            | inl (r, mr, id, token, rest) ↦ absurd (
                ground
                  (arith, l.settled a r ma fin mr (ground (arith, ea)) (ground (arith, ea)), rest))
            | inr hits ↦ absurd (
                ground (
                  arith,
                  hits a ma (ground (arith, ea)) (ground (arith, ea)) (l.begun a ma fin),
                  out,
                ))
          ]
        ];
  }
    where
      came :
          (b : AttemptRow)
          → In b d'.attempts
          → (a : AttemptRow) × In a d.attempts × (b ≡ changed q f a)
      came b m = In-update-cases q f d.attempts (rw e at m)

      unwritten :
          (b : AttemptRow)
          → In b d'.attempts
          → b.finished_at ≡ none
          → (a : AttemptRow) × In a d.attempts × (b ≡ a) × (q a ≡ false) × (a.finished_at ≡ none)
      unwritten b m n =
          let (a, ma, ea) = came b m in
          elim (Bool-cases (q a)) [
            | inl t ↦ absurd (ended a t (ground (arith, ea)))
            | inr out ↦ (a, ma, ground (arith, ea), out, ground (arith, ea))
          ]
