-- ===== src/Api/Signals.antt =====
-- Which processes the demo endpoints reach.
use platform_forge.Api.Demo.{demo_workers, Signal, no_demo, demo_start_worker, demo_signal, Demo}
use platform_forge.Prelude.{ℕ, Bool, false, [], ◌∷◌, In, String, ◌≡◌, List, if◌then◌else◌, refl}

module _ (demo_mode : Bool) (str_nat : ℕ → String) where
  -- The state after any requests, and the pids of the workers that were started, if demo mode is on. What the operating
  -- system answers is arbitrary.
  pub data Requests : Demo → List ℕ → Type 0 where
    boots : Requests no_demo []
    starts :
        {d : Demo} {pids : List ℕ} (pid : ℕ)
        → Requests d pids
        → Requests
            (demo_start_worker demo_mode str_nat pid d).1
            (if demo_mode then pid ∷ pids else pids)
    lists :
        {d : Demo} {pids : List ℕ} (exited exited_since : ℕ → Bool)
        → Requests d pids
        → Requests (demo_workers demo_mode str_nat exited exited_since d).1 pids
    signals :
        {d : Demo} {pids : List ℕ} (exists : ℕ → Bool) (pid : ℕ) (sig : Signal) (done name : String)
        → Requests d pids
        → Requests (demo_signal demo_mode str_nat exists pid sig done name d).1 pids

-- Every worker of the list and every process that got a signal was started here.
pub record IsOwned (d : Demo) (pids : List ℕ) : Type 0 where
  pub workers : (p : ℕ) → In p d.workers → In p pids
  pub sent : (p : ℕ) (sig : Signal) → In (p, sig) d.sent → In p pids

-- With demo mode off, nothing that is requested starts a worker or sends a signal.
pub demo_off_silent :
    (str_nat : ℕ → String) {d : Demo} {pids : List ℕ}
    → Requests false str_nat d pids
    → (d ≡ no_demo) × (pids ≡ [])
unfolding demo_start_worker demo_workers demo_signal
demo_off_silent str_nat boots = (refl, refl)
demo_off_silent str_nat (starts pid r) = demo_off_silent str_nat r
demo_off_silent str_nat (lists exited exited_since r) = demo_off_silent str_nat r
demo_off_silent str_nat (signals exists pid sig done name r) = demo_off_silent str_nat r
