-- ===== src/Pool.antt =====
-- src/workflow_engine/db.py: the one pool of the process. A pool is known by a number that its opening
-- gives; what `apply_schema` raises is an argument.
use platform_forge.Prelude.{
  ℕ, List, [], ◌∷◌, Option, none, some, Result, ok, err, String, ◌≡◌, In, ◌⊎◌, insert, arith,
  In-append_right, inl, refl, Option-cases, inr, In-insert-cases, here, In-append_left, ◌≢◌,
}

-- `_pool`, with the pools that were opened and closed so far.
pub record Pools : Type 0 where
  pub current : Option ℕ
  pub opened : List ℕ
  pub closed : List ℕ

abbrev pub no_pool : Pools
no_pool = record { current = none; opened = []; closed = [] }

-- The close of `_pool`, if there is one.
abbrev close_current : Pools → List ℕ
close_current p = elim p.current [ none ↦ p.closed | some id ↦ insert id p.closed ]

-- `close_pool`
unfoldable pub close_pool : Pools → Pools
close_pool p = record { current = none; opened = p.opened; closed = close_current p }

-- `configure_pool`, where `built` is what the constructor of the pool gives, the number of the new pool or
-- what it raises, and `schema_error` is what `apply_schema` raises.
unfoldable pub configure_pool : Result String ℕ → Option String → Pools → Result String ℕ × Pools
configure_pool (err e) schema_error p = (err e, record p { closed = close_current p })
configure_pool (ok id) schema_error p = (
  elim schema_error [ none ↦ ok id | some e ↦ err e ],
  record { current = some id; opened = insert id p.opened; closed = close_current p },
)

-- `get_pool`
unfoldable pub get_pool : Pools → Result String ℕ
get_pool p = elim p.current [ none ↦ err "database pool is not configured" | some id ↦ ok id ]

-- The state after any calls in which the constructor gives a new pool each time.
pub data PoolState : Pools → Type 0 where
  boots : PoolState no_pool
  configures :
      {p : Pools} (id : ℕ) (schema_error : Option String)
      → (In id p.opened → ⊥)
      → PoolState p
      → PoolState (configure_pool (ok id) schema_error p).1
  closes : {p : Pools} → PoolState p → PoolState (close_pool p)

closed_all : (p : Pools) (id : ℕ) → In id p.closed ⊎ (get_pool p ≡ ok id) → In id (close_current p)
unfolding get_pool
closed_all p id h = elim (Option-cases p.current) [
  | inl n ↦ elim h [ inl m ↦ rw n m | inr e ↦ absurd (ground arith) ]
  | inr (k, n) ↦ elim h [
    | inl m ↦ rw n (In-append_left (k ∷ []) m)
    | inr e ↦ let same : k ≡ id = ground arith in rw (n, same) (In-append_right p.closed here)
  ]
]

closed_cases :
    (p : Pools) (id : ℕ) → In id (close_current p) → In id p.closed ⊎ (get_pool p ≡ ok id)
unfolding get_pool
closed_cases p id m = elim (Option-cases p.current) [
  | inl n ↦ inl (rw n at m)
  | inr (k, n) ↦ elim (In-insert-cases p.closed (rw n at m)) [
    | inl old ↦ inl old
    | inr same ↦ inr (ground (arith, n, same))
  ]
]

-- A pool that `get_pool` returns was opened.
current_opened : {p : Pools} → PoolState p → (id : ℕ) → get_pool p ≡ ok id → In id p.opened
unfolding configure_pool close_pool get_pool
current_opened boots id e = absurd (ground arith)
current_opened (configures {p = p} new schema_error fresh c) id e =
    let same : new ≡ id = ground arith in rw same (In-append_right p.opened here)
current_opened (closes c) id e = absurd (ground arith)

-- A closed pool was opened, and `get_pool` does not return it.
closed_unused :
    {p : Pools} → PoolState p → (id : ℕ) → In id p.closed → In id p.opened × (get_pool p ≢ ok id)
unfolding configure_pool close_pool get_pool
closed_unused boots id m = absurd (elim m [ ])
closed_unused (configures {p = p} new schema_error fresh c) id m =
    let old : In id p.opened = elim (closed_cases p id m) [
      | inl k ↦ (closed_unused c id k).0
      | inr e ↦ current_opened c id e
    ] in
    (In-append_left (new ∷ []) old, λ e. let same : new ≡ id = ground arith in fresh (rw same old))
closed_unused (closes {p = p} c) id m = (
  elim (closed_cases p id m) [ inl k ↦ (closed_unused c id k).0 | inr e ↦ current_opened c id e ],
  λ e. absurd (ground arith),
)

opened_cases :
    {p : Pools} → PoolState p → (id : ℕ) → In id p.opened → In id p.closed ⊎ (get_pool p ≡ ok id)
unfolding configure_pool close_pool get_pool
opened_cases boots id m = absurd (elim m [ ])
opened_cases (configures {p = p} new schema_error fresh c) id m =
    elim (In-insert-cases p.opened m) [
      | inl old ↦ inl (closed_all p id (opened_cases c id old))
      | inr same ↦ inr (rw same refl)
    ]
opened_cases (closes {p = p} c) id m = inl (closed_all p id (opened_cases c id m))

-- After any calls in which the constructor gives a new pool each time, a pool that was opened is either
-- closed, and then `get_pool` does not return it, or open, and then `get_pool` returns it. So none leaks
-- and no closed one is handed out, though `apply_schema` may raise.
pub open_is_current :
    {p : Pools}
    → PoolState p
    → (id : ℕ) → In id p.opened
    → (In id p.closed × (get_pool p ≢ ok id)) ⊎ ((In id p.closed → ⊥) × (get_pool p ≡ ok id))
open_is_current c id m = elim (opened_cases c id m) [
  | inl k ↦ inl (k, (closed_unused c id k).1)
  | inr e ↦ inr (λ k. (closed_unused c id k).1 e, e)
]
