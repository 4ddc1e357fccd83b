-- ===== src/Handlers/Effect.antt =====
-- How often an effect is written: once with `_write_idempotent`, once a run with `_write_naive`.
use platform_forge.Store.{Session}
use platform_forge.Effects.{at}
use platform_forge.Metrics.{Metric}
use platform_forge.Models.{EffectRow, Db}
use platform_forge.Handlers.{
  write_naive, insert_effect, write_idempotent, upsert_effect, new_effect, StepContext, count_write,
  has_effect,
}
use platform_forge.Prelude.{
  ℕ, inr, find-any, ◌≡◌, find, String, true, find-some, ◌+◌, str_eq, str_eq_iff, [], some, inl, ◌≢◌,
  arith, any-true, find-In, ◌∷◌, Option-cases, List, none, find-update, Bool, if◌then◌else◌, refl,
  find-insert, Bool-cases, any,
}

-- The write count of a key, 0 without a row.
abbrev pub writes_of : String → List EffectRow → ℕ
writes_of key es = elim (find (has_effect key) es) [ none ↦ 0 | some e ↦ e.write_count ]

-- Runs of `_write_naive`, one after another.
abbrev pub naive_runs : List StepContext → Session → Session
naive_runs [] s = s
naive_runs (ctx ∷ rest) s = naive_runs rest (write_naive ctx s).1

-- Runs of `_write_idempotent`, one after another.
abbrev pub idempotent_runs : List StepContext → Session → Session
idempotent_runs [] s = s
idempotent_runs (ctx ∷ rest) s = idempotent_runs rest (write_idempotent ctx s).1

-- The number of the runs under a key.
abbrev pub runs_of : String → List StepContext → ℕ
runs_of key [] = 0
runs_of key (ctx ∷ rest) = (if str_eq ctx.idempotency_key key then 1 else 0) + runs_of key rest

found_any : (p : EffectRow → Bool) (es : List EffectRow) → any p es ≡ true → find p es ≢ none
found_any p es e = let (x, m, h) = any-true p es e in find-In p m h

upsert_count :
    (key : String) (ctx : StepContext) (d : Db)
    → writes_of key (upsert_effect ctx d).effects
      ≡ (if str_eq ctx.idempotency_key key then 1 else 0) + writes_of key d.effects
unfolding upsert_effect
upsert_count key ctx d =
    let q = has_effect key in
    let p = has_effect ctx.idempotency_key in
    elim (Bool-cases (any p d.effects)) [
      | inl t ↦ elim (Option-cases (find q d.effects)) [
        | inl n ↦ elim (Bool-cases (str_eq ctx.idempotency_key key)) [
          | inl same ↦
              absurd
                (ground (arith, found_any p d.effects t, n, str_eq_iff ctx.idempotency_key key))
          | inr other ↦
              ground (arith, find-update q p (count_write d.now ctx) d.effects (λ e. refl))
        ]
        | inr (e, h) ↦
            let (m, hit) = find-some q e d.effects h in
            ground (
              arith,
              find-update q p (count_write d.now ctx) d.effects (λ e. refl),
              str_eq_iff ctx.idempotency_key key,
              str_eq_iff e.effect_key key,
              str_eq_iff e.effect_key ctx.idempotency_key,
            )
      ]
      | inr f ↦ ground (
        arith,
        find-insert q (new_effect d.now ctx) d.effects,
        find-any p d.effects f,
        str_eq_iff ctx.idempotency_key key,
      )
    ]

-- Every run of `_write_naive` counts: after any runs the published write count of a key has grown by
-- the number of the runs under that key.
pub naive_runs_count :
    (key : String) (runs : List StepContext) (d : Db) (ms : List Metric)
    → writes_of key (naive_runs runs (at d ms)).committed.effects
      ≡ runs_of key runs + writes_of key d.effects
unfolding write_naive
naive_runs_count key [] d ms = omega arith
naive_runs_count key (ctx ∷ rest) d ms =
    let later = naive_runs_count key rest (upsert_effect ctx d) ms in
    let now = upsert_count key ctx d in omega (arith, later, now)

insert_found :
    (key : String) (ctx : StepContext) (d : Db)
    → find (has_effect key) (insert_effect ctx d).effects ≡ elim (find (has_effect key) d.effects) [
      | none ↦ (if str_eq ctx.idempotency_key key then some (new_effect d.now ctx) else none)
      | some e ↦ some e
    ]
unfolding insert_effect
insert_found key ctx d =
    let q = has_effect key in
    let p = has_effect ctx.idempotency_key in
    elim (Bool-cases (any p d.effects)) [
      | inl t ↦ elim (Option-cases (find q d.effects)) [
        | inl n ↦ ground (arith, found_any p d.effects t, n, str_eq_iff ctx.idempotency_key key)
        | inr (e, h) ↦ ground arith
      ]
      | inr f ↦ ground (arith, find-insert q (new_effect d.now ctx) d.effects)
    ]

-- A row that stands is never written again by runs of `_write_idempotent`.
pub idempotent_runs_keep :
    (key : String) (e : EffectRow) (runs : List StepContext) (d : Db) (ms : List Metric)
    → find (has_effect key) d.effects ≡ some e
    → find (has_effect key) (idempotent_runs runs (at d ms)).committed.effects ≡ some e
unfolding write_idempotent
idempotent_runs_keep key e [] d ms h = h
idempotent_runs_keep key e (ctx ∷ rest) d ms h =
    idempotent_runs_keep key e rest (insert_effect ctx d) ms
      (ground (arith, insert_found key ctx d))

-- If a key has no row, then after a run of `_write_idempotent` under that key and any runs that follow
-- its published row is the one that the first run wrote, with a write count of 1 and the first token.
pub idempotent_runs_once :
    (ctx : StepContext) (runs : List StepContext) (d : Db) (ms : List Metric)
    → find (has_effect ctx.idempotency_key) d.effects ≡ none
    → find
        (has_effect ctx.idempotency_key)
        (idempotent_runs (ctx ∷ runs) (at d ms)).committed.effects
      ≡ some (new_effect d.now ctx)
unfolding write_idempotent
idempotent_runs_once ctx runs d ms h =
    idempotent_runs_keep ctx.idempotency_key (new_effect d.now ctx) runs (insert_effect ctx d) ms (
      ground (
        arith,
        insert_found ctx.idempotency_key ctx d,
        str_eq_iff ctx.idempotency_key ctx.idempotency_key,
      ))
