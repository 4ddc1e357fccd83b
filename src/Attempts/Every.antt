-- ===== src/Attempts/Every.antt =====
-- Every claim that was granted stays in the log of the leases.
use platform_forge.Schema.Script.{closes}
use platform_forge.Metrics.{Metric}
use platform_forge.Claims.Claim.{claim_step, picked}
use platform_forge.Store.{Error, Session}
use platform_forge.Effects.Claim.{picked-claimable, claim_none, claim_answer}
use platform_forge.Effects.{published, at}
use platform_forge.Invariant.{Inv}
use platform_forge.Models.{AttemptRow, Db}
use platform_forge.Claims.Claimed.{ClaimedStep, close_attempt, open_attempt}
use platform_forge.Attempts.{LogsAll, SameAttempt, IsLogged}
use platform_forge.Attempts.Granted.{logged, lease}
use platform_forge.Attempts.Writes.{Closes}
use platform_forge.History.{granted}
use platform_forge.Prelude.{
  ℕ, ◌≡◌, In, List, refl, ok, err, some, none, here, there, arith, String, changed, inr,
  In-append_left, Result, Bool, Option-cases, Option, In-append_right, inl, ◌∙◌, In-update,
}

-- No attempt is lost.
abbrev AttemptsKept : Db → Db → Type 0
AttemptsKept d d' =
    (a : AttemptRow) → In a d.attempts → (b : AttemptRow) × In b d'.attempts × SameAttempt a b

kept-LogsAll :
    (d d' : Db) (cs : List ClaimedStep) → AttemptsKept d d' → LogsAll d cs → LogsAll d' cs
kept-LogsAll d d' cs k all c m =
    let (a, ma, id, token) = all c m in
    let (b, mb, same) = k a ma in (b, mb, same.step_id ∙ id, same.token ∙ token)

pub unwritten-LogsAll :
    (d d' : Db) (cs : List ClaimedStep) → d'.attempts ≡ d.attempts → LogsAll d cs → LogsAll d' cs
unwritten-LogsAll d d' cs e =
    kept-LogsAll d d' cs λ a m. (a, rw e m, record { step_id = refl; token = refl; worker = refl })

pub closed-LogsAll :
    (d d' : Db) (cs : List ClaimedStep) (step_id token : ℕ)
    → Closes step_id token d d'
    → LogsAll d cs
    → LogsAll d' cs
closed-LogsAll d d' cs step_id token closes =
    let f = close_attempt d.now closes.outcome closes.error in
    kept-LogsAll d d' cs λ a m. (
      changed (open_attempt step_id token) f a,
      rw closes.attempts (In-update (open_attempt step_id token) f m),
      record { step_id = ground arith; token = ground arith; worker = ground arith },
    )

module _ (locked : ℕ → Bool) (d : Db) (worker : String) (ttl : ℕ) (ms : List Metric) (v : Inv d)
    (l : IsLogged d) where
  abbrev claim : Result Error (Option ClaimedStep) × Session
  claim = claim_step locked worker ttl (at d ms)

  claim-AttemptsKept : AttemptsKept d (published claim)
  claim-AttemptsKept a m = elim (Option-cases (picked locked d)) [
    | inl e ↦ (
      a,
      rw (claim_none locked d worker ttl ms e).1 m,
      record { step_id = refl; token = refl; worker = refl },
    )
    | inr (p, e) ↦
        let (j, ej) = v.keyed.has_job p (picked-claimable locked d p e).0 in
        (
          a,
          rw (logged locked d worker ttl ms v l p j e ej) (In-append_left _ m),
          record { step_id = refl; token = refl; worker = refl },
        )
  ]

  new_logged :
      (c : ClaimedStep)
      → claim.0 ≡ ok (some c)
      → (a : AttemptRow) × In a (published claim).attempts
        × (a.step_id ≡ c.step_id)
        × (a.fencing_token ≡ c.fencing_token)
  new_logged c e = elim (Option-cases (picked locked d)) [
    | inl n ↦ absurd (ground (arith, (claim_none locked d worker ttl ms n).0))
    | inr (p, h) ↦
        let (j, ej) = v.keyed.has_job p (picked-claimable locked d p h).0 in
        let answer = claim_answer locked d worker ttl ms v p j h ej in
        (
          lease locked d worker ttl ms v l p j h ej,
          rw (logged locked d worker ttl ms v l p j h ej) (In-append_right d.attempts here),
          ground (arith, answer, e),
          ground (arith, answer, e),
        )
  ]

  pub granted-LogsAll :
      (cs : List ClaimedStep) (r : Result Error (Option ClaimedStep))
      → claim.0 ≡ r
      → LogsAll d cs
      → LogsAll (published claim) (granted r cs)
  granted-LogsAll cs (err _) e all c m =
      kept-LogsAll d (published claim) cs claim-AttemptsKept all c m
  granted-LogsAll cs (ok none) e all c m =
      kept-LogsAll d (published claim) cs claim-AttemptsKept all c m
  granted-LogsAll cs (ok (some k)) e all c here = new_logged c e
  granted-LogsAll cs (ok (some k)) e all c (there m) =
      kept-LogsAll d (published claim) cs claim-AttemptsKept all c m
