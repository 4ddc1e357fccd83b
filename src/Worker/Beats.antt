-- ===== src/Worker/Beats.antt =====
-- When the heartbeat thread gives up, read off the answers of the beats, without its counter.
use platform_forge.Models.{job_is_cancelled, JobStatus}
use platform_forge.Worker.{
  failed, answered, beat_failed, new_flags, beat_answered, Beat, Flags, beat_once, beat_loop,
}
use platform_forge.Prelude.{
  ℕ, false, none, true, Bool, refl, ◌∷◌, arith, List, ◌≡◌, ◌+◌, some, [], zero, suc, ◌||◌,
  if◌then◌else◌, Option, Bool-cases, inr, inl,
}

-- The list begins with `n` beats that raised.
abbrev pub starts_failed : ℕ → List Beat → Bool
starts_failed zero beats = true
starts_failed (suc n) [] = false
starts_failed (suc n) (failed ∷ rest) = starts_failed n rest
starts_failed (suc n) (answered _ ∷ rest) = false

-- Some three beats in a row raised, or one found the lease gone, before any found the job cancelled.
abbrev pub loses : List Beat → Bool
loses [] = false
loses (failed ∷ rest) = starts_failed 2 rest || loses rest
loses (answered none ∷ rest) = true
loses (answered (some status) ∷ rest) = if job_is_cancelled status then false else loses rest

three_lose : (beats : List Beat) → starts_failed 3 beats ≡ true → loses beats ≡ true
three_lose [] h = absurd (ground arith)
three_lose (failed ∷ rest) h = ground arith
three_lose (answered a ∷ rest) h = absurd (ground arith)

two_begin : (beats : List Beat) → starts_failed 2 beats ≡ true → starts_failed 1 beats ≡ true
two_begin [] h = h
two_begin (failed ∷ rest) h = refl
two_begin (answered a ∷ rest) h = h

-- What the loop reports from flags that it goes on with, after some failures in a row.
abbrev IsCounted : ℕ → List Beat → Type 0
IsCounted n beats =
    (h : Flags)
    → h.transient_failures + n ≡ 3
    → h.lost ≡ false
    → h.running ≡ true
    → (beat_loop beats h).lost ≡ (starts_failed n beats || loses beats)

-- An answer sets the counter back.
after_answer :
    (a : Option JobStatus) (rest : List Beat) (h : Flags)
    → IsCounted 3 rest
    → h.lost ≡ false
    → h.running ≡ true
    → (beat_loop (answered a ∷ rest) h).lost ≡ loses (answered a ∷ rest)
unfolding beat_loop beat_once beat_failed beat_answered
after_answer none rest h counted l r = ground arith
after_answer (some status) rest h counted l r = elim (Bool-cases (job_is_cancelled status)) [
  | inl c ↦ ground arith
  | inr n ↦
      let next = beat_once (answered (some status)) h in
      ground (arith, counted next (ground arith) (ground arith) (ground arith), three_lose rest)
]

mutual
  unfolding beat_loop beat_once beat_failed beat_answered

  one_left : (beats : List Beat) → IsCounted 1 beats
  one_left [] h e l r = l
  one_left (failed ∷ rest) h e l r = ground arith
  one_left (answered a ∷ rest) h e l r = after_answer a rest h (three_left rest) l r

  two_left : (beats : List Beat) → IsCounted 2 beats
  two_left [] h e l r = l
  two_left (failed ∷ rest) h e l r =
      let next = beat_once failed h in
      ground
        (arith, one_left rest next (ground arith) (ground arith) (ground arith), two_begin rest)
  two_left (answered a ∷ rest) h e l r = after_answer a rest h (three_left rest) l r

  three_left : (beats : List Beat) → IsCounted 3 beats
  three_left [] h e l r = l
  three_left (failed ∷ rest) h e l r =
      let next = beat_once failed h in
      ground (arith, two_left rest next (ground arith) (ground arith) (ground arith))
  three_left (answered a ∷ rest) h e l r = after_answer a rest h (three_left rest) l r

-- The heartbeat loop reports the lease as lost exactly when three beats in a row raise or a beat finds
-- the lease gone, and no beat before finds the job cancelled.
pub beat_loop-loses : (beats : List Beat) → (beat_loop beats new_flags).lost ≡ loses beats
beat_loop-loses beats = ground (arith, three_left beats new_flags refl refl refl, three_lose beats)
