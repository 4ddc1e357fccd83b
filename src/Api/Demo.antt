-- ===== src/Api/Demo.antt =====
-- The demo endpoints of src/workflow_engine/api.py. What the operating system says of a process
-- (`poll`, and whether `os.kill` finds it) and the pid of a new process are arguments.
use platform_forge.Api.{error_response, answer, http_exception, Response}
use platform_forge.Models.Values.{Items, field, end, nil, dict, bool, null, nat, text, item, array}
use Prim.Native.String.{◌++◌ as str_append}
use platform_forge.Prelude.{
  ℕ, List, not, String, some, if◌then◌else◌, true, Bool, select, none, find, Option, [], insert,
  ◌==◌, ◌∷◌,
}

pub data Signal : Type 0 where
  sigkill sigstop sigcont : Signal

-- `_workers`, and the calls of `os.kill` so far.
pub record Demo : Type 0 where
  pub workers : List ℕ
  pub sent : List (ℕ × Signal)

abbrev pub no_demo : Demo
no_demo = record { workers = []; sent = [] }

-- `_owned_worker`
abbrev pub owned_worker : ℕ → Demo → Option ℕ
owned_worker pid d = find (λ p. p == pid) d.workers

-- `_signal_owned`: why the signal was not delivered.
unfoldable pub signal_owned : (ℕ → Bool) → ℕ → Signal → Demo → Option String × Demo
signal_owned exists pid sig d = elim (owned_worker pid d) [
  | none ↦ (some "not_owned", d)
  | some _ ↦
      (if exists pid then none else some "not_found", record d { sent = insert (pid, sig) d.sent })
]

-- `_require_demo`
abbrev demo_off : Response
demo_off = http_exception 404 "not_found" "demo mode off"

module _ (demo_mode : Bool) (str_nat : ℕ → String) where
  -- /demo/workers/{pid}/kill, /stop and /cont: the last two texts are the fields of the answer.
  unfoldable pub demo_signal : (ℕ → Bool) → ℕ → Signal → String → String → Demo → Response × Demo
  demo_signal exists pid sig done name d =
      if not demo_mode
      then (demo_off, d)
      else (let (reason, d') = signal_owned exists pid sig d in
          elim reason [
            | some why ↦ (
              error_response 404 why
                  (str_append "pid " (str_append (str_nat pid) " is not a demo worker")),
              d',
            )
            | none ↦ (
              answer (
                  dict (
                    field "pid" (nat pid)
                      (field done (bool true) (field "signal" (text name) end)))),
              d',
            )
          ])

  unfoldable pub demo_kill_worker : (ℕ → Bool) → ℕ → Demo → Response × Demo
  demo_kill_worker exists pid = demo_signal exists pid sigkill "killed" "SIGKILL"

  unfoldable pub demo_stop_worker : (ℕ → Bool) → ℕ → Demo → Response × Demo
  demo_stop_worker exists pid = demo_signal exists pid sigstop "stopped" "SIGSTOP"

  unfoldable pub demo_cont_worker : (ℕ → Bool) → ℕ → Demo → Response × Demo
  demo_cont_worker exists pid = demo_signal exists pid sigcont "continued" "SIGCONT"

  -- Popen of a worker, which gets the pid `pid`.
  unfoldable pub demo_start_worker : ℕ → Demo → Response × Demo
  demo_start_worker pid d = if not demo_mode then (demo_off, d) else (
    answer (dict (field "pid" (nat pid) (field "alive" (bool true) end))),
    record d { workers = insert pid d.workers },
  )

  -- {"pid": pid, "returncode": None, "alive": True}
  unfoldable pub alive_items : (ℕ → Bool) → List ℕ → Items
  alive_items exited [] = nil
  alive_items exited (p ∷ rest) =
      let more = alive_items exited rest in
      if exited p
      then more
      else item
          (dict (field "pid" (nat p) (field "returncode" null (field "alive" (bool true) end))))
          more

  unfoldable pub exited_items : (ℕ → Bool) → List ℕ → Items
  exited_items exited [] = nil
  exited_items exited (p ∷ rest) =
      let more = exited_items exited rest in if exited p then item (nat p) more else more

  -- The list, which drops the workers that a second `poll` finds exited.
  unfoldable pub demo_workers : (ℕ → Bool) → (ℕ → Bool) → Demo → Response × Demo
  demo_workers exited exited_since d = if not demo_mode then (demo_off, d) else (
    answer (
        dict (
          field "workers" (array (alive_items exited d.workers))
            (field "exited_pids" (array (exited_items exited d.workers)) end))),
    record d { workers = select (λ p. not (exited_since p)) d.workers },
  )
