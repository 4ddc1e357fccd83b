-- ===== src/Handlers/Lab.antt =====
-- `register_lab_workflows` of src/workflow_engine/handlers.py: the workflows of the laboratory, with their
-- handlers by name.
use platform_forge.Registry.Laws.{get-store}
use platform_forge.Registry.{
  Workflow, Step, RegisterError, register, set_of, step_names, store, get,
}
use platform_forge.Prelude.{
  ℕ, List, [], ◌∷◌, String, Result, ok, err, In, false, ◌≡◌, some, str_eq, true, arith, length, ◌∙◌,
  ◌&&◌, refl, any, not, ◌==◌, Bool, here, there, str_eq_iff,
}

pub data LabHandler : Type 0 where
  noop echo fail_until always_fail hang http_post : LabHandler
  pg_effect_naive pg_effect_idempotent crash_after_naive crash_after_idempotent : LabHandler

-- Step(sname, handler, max_attempts, timeout_seconds)
abbrev step : String → LabHandler → ℕ → ℕ → Step LabHandler
step name h max_attempts timeout = record {
  name = name;
  handler = h;
  max_attempts = max_attempts;
  timeout_seconds = timeout;
}

abbrev single : String → Step LabHandler → Workflow LabHandler
single name s = record { name = name; steps = s ∷ [] }

-- `specs`, as workflows.
abbrev pub lab_workflows : List (Workflow LabHandler)
lab_workflows =
    single "noop" (step "run" LabHandler.noop 1 5)
    ∷ single "echo" (step "run" LabHandler.echo 1 5)
    ∷ single "naive_effect" (step "write" LabHandler.pg_effect_naive 3 10)
    ∷ single "idempotent_effect" (step "write" LabHandler.pg_effect_idempotent 3 10)
    ∷ single "crash_naive" (step "boom" LabHandler.crash_after_naive 5 10)
    ∷ single "crash_idempotent" (step "boom" LabHandler.crash_after_idempotent 5 10)
    ∷ single "fail_until" (step "run" LabHandler.fail_until 10 10)
    ∷ single "always_fail" (step "run" LabHandler.always_fail 3 5)
    ∷ single "hang" (step "run" LabHandler.hang 1 120)
    ∷ single "http_post" (step "run" LabHandler.http_post 5 10)
    ∷ record {
      name = "linear_demo";
      steps =
          step "charge" LabHandler.pg_effect_idempotent 5 10
          ∷ step "notify" LabHandler.echo 5 10
          ∷ step "provision" LabHandler.noop 3 10
          ∷ [];
    }
    ∷ record {
      name = "linear_naive";
      steps =
          step "charge" LabHandler.pg_effect_naive 5 10 ∷ step "notify" LabHandler.echo 5 10 ∷ [];
    }
    ∷ []

-- The loop that registers them.
unfoldable pub register_all {ℓ} :
    {H : Type ℓ} → List (Workflow H) → List (Workflow H) → Result RegisterError (List (Workflow H))
register_all [] ws = ok ws
register_all (w ∷ rest) ws = elim (register ws w) [
  | ok more ↦ register_all rest more
  | err e ↦ err e
]

unfoldable pub register_lab_workflows :
    List (Workflow LabHandler) → Result RegisterError (List (Workflow LabHandler))
register_lab_workflows = register_all lab_workflows

module _ {ℓ} {H : Type ℓ} where
  -- The workflow has a step, and its steps have different names.
  abbrev pub fits_registry : Workflow H → Bool
  fits_registry w =
      not (length w.steps == 0) && length (step_names w) == length (set_of (step_names w))

  -- Each of them fits, and no later one has its name.
  unfoldable pub all_fit : List (Workflow H) → Bool
  all_fit [] = true
  all_fit (w ∷ rest) =
      let more = all_fit rest in
      fits_registry w && not (any (λ v. str_eq v.name w.name) rest) && more

  registered :
      (ws : List (Workflow H)) (w : Workflow H)
      → fits_registry w ≡ true
      → register ws w ≡ ok (store ws w)
  unfolding register
  registered ws w h = ground arith

  -- The registry that they leave.
  abbrev pub store_all : List (Workflow H) → List (Workflow H) → List (Workflow H)
  store_all [] ws = ws
  store_all (w ∷ rest) ws = store_all rest (store ws w)

  register_all-store_all :
      (specs ws : List (Workflow H))
      → all_fit specs ≡ true
      → register_all specs ws ≡ ok (store_all specs ws)
  unfolding register_all all_fit
  register_all-store_all [] ws h = refl
  register_all-store_all (w ∷ rest) ws h =
      let again = register_all-store_all rest (store ws w) (ground arith) in
      ground (arith, registered ws w, again)

  get-store_all-other :
      (specs ws : List (Workflow H)) (name : String)
      → any (λ v. str_eq v.name name) specs ≡ false
      → get (store_all specs ws) name ≡ get ws name
  unfolding any
  get-store_all-other [] ws name f = refl
  get-store_all-other (w ∷ rest) ws name f =
      get-store_all-other rest (store ws w) name (ground arith)
      ∙ ground (arith, get-store ws w name)

  get-store_all :
      (specs ws : List (Workflow H)) (v : Workflow H)
      → all_fit specs ≡ true
      → In v specs
      → get (store_all specs ws) v.name ≡ some v
  unfolding all_fit
  get-store_all [] ws v h m = absurd (elim m [ ])
  get-store_all (w ∷ rest) ws v h here =
      get-store_all-other rest (store ws v) v.name (ground arith)
      ∙ ground (arith, get-store ws v v.name, str_eq_iff v.name v.name)
  get-store_all (w ∷ rest) ws v h (there m) = get-store_all rest (store ws w) v (ground arith) m

lab_fits : all_fit lab_workflows ≡ true
unfolding all_fit set_of any
lab_fits = refl

-- Whatever was registered before, `register_lab_workflows` raises nothing, and then every workflow of the
-- laboratory is found under its name.
pub lab_registered :
    (ws : List (Workflow LabHandler))
    → (ws' : List (Workflow LabHandler)) × (register_lab_workflows ws ≡ ok ws')
      × ((w : Workflow LabHandler) → In w lab_workflows → get ws' w.name ≡ some w)
unfolding register_lab_workflows
lab_registered ws =
    let fit = lab_fits in
    (
      store_all lab_workflows ws,
      register_all-store_all lab_workflows ws fit,
      λ w m. get-store_all lab_workflows ws w fit m,
    )
