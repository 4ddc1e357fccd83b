-- ===== src/Registry/Jitter.antt =====
-- `full_jitter` of src/workflow_engine/registry.py, in whole microseconds. The generator's
-- `uniform` is an argument.
use native.Mathlib.Nat.{pow-succ'}
use platform_forge.Prelude.{
  ◌∙◌, ap, ℕ, ◌-◌, ◌*◌, ◌^◌, ◌≤◌, ◌≡◌, min, suc, arith, ltb, if◌then◌else◌, ◌+◌,
}

-- The bound of the delay of an attempt.
pub jitter_cap : ℕ → ℕ → ℕ → ℕ
jitter_cap attempt_count base max_backoff =
    min max_backoff (base * 2 ^ ((if ltb attempt_count 1 then 1 else attempt_count) - 1))

unfoldable pub full_jitter : ℕ → ℕ → ℕ → (ℕ → ℕ → ℕ) → ℕ
full_jitter attempt_count base max_backoff uniform =
    uniform 0 (jitter_cap attempt_count base max_backoff)

-- `uniform` stays within its bounds.
abbrev pub IsUniform : (ℕ → ℕ → ℕ) → Type 0
IsUniform uniform = (lo hi : ℕ) → lo ≤ hi → (lo ≤ uniform lo hi) × (uniform lo hi ≤ hi)

jitter_cap_bounds :
    (attempt_count base max_backoff : ℕ) → jitter_cap attempt_count base max_backoff ≤ max_backoff
unfolding jitter_cap
jitter_cap_bounds attempt_count base max_backoff = omega arith

first_jitter_cap :
    (attempt_count base max_backoff : ℕ)
    → attempt_count ≤ 1
    → jitter_cap attempt_count base max_backoff ≤ base
unfolding jitter_cap
first_jitter_cap attempt_count base max_backoff first =
    let e : (if ltb attempt_count 1 then 1 else attempt_count) - 1 ≡ 0 = ground arith in
    rw e (omega arith)

-- If `uniform` stays within its bounds, the delay is at most the cap of its attempt, and so never more than `max_backoff`; the first
-- attempt waits at most `base`, and an attempt count of 0 is read as 1.
pub full_jitter_bounds :
    (attempt_count base max_backoff : ℕ) (uniform : ℕ → ℕ → ℕ)
    → IsUniform uniform
    → let delay = full_jitter attempt_count base max_backoff uniform in
      (delay ≤ jitter_cap attempt_count base max_backoff)
      × (delay ≤ max_backoff)
      × (attempt_count ≤ 1 → delay ≤ base)
unfolding full_jitter jitter_cap
full_jitter_bounds attempt_count base max_backoff uniform within =
    let cap = jitter_cap attempt_count base max_backoff in
    let (_, high) = within 0 cap (omega arith) in
    (
      high,
      omega (arith, high),
      λ first. omega (arith, high, first_jitter_cap attempt_count base max_backoff first),
    )

-- One more attempt doubles the cap, until it reaches `max_backoff`.
pub jitter_cap-doubles :
    (n base max_backoff : ℕ)
    → jitter_cap (n + 2) base max_backoff ≡ min max_backoff (2 * (base * 2 ^ n))
unfolding jitter_cap
jitter_cap-doubles n base max_backoff =
    let e : n + 2 - 1 ≡ suc n = omega arith in
    let p : 2 ^ suc n ≡ 2 * 2 ^ n = pow-succ' 2 n in
    let q : jitter_cap (n + 2) base max_backoff ≡ min max_backoff (base * 2 ^ suc n) =
      ground (arith, e) in
    q ∙ ap (λ (t : ℕ). min max_backoff (base * t)) p ∙ ap (min max_backoff) (omega arith)
