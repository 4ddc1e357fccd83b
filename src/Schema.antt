-- ===== src/Schema.antt =====
-- `split_sql` of src/workflow_engine/schema.py, with the methods of `str` that it calls. A text is the list
-- of its code points.

pub mod Lines
pub mod Script
use platform_forge.Prelude.{
  ℕ, ◌==◌, leb, ◌&&◌, ◌||◌, Bool, true, false, List, [], ◌∷◌, ◌++◌, insert, if◌then◌else◌, Result,
  none, err, some, Option, ok,
}

abbrev pub Text : Type 0
Text = List ℕ

abbrev pub between : ℕ → ℕ → ℕ → Bool
between lo hi c = leb lo c && leb c hi

-- str.isspace of one character.
abbrev pub is_space : ℕ → Bool
is_space c =
    between 9 13 c
    || between 28 32 c
    || c == 133
    || c == 160
    || c == 5760
    || between 8192 8202 c
    || c == 8232
    || c == 8233
    || c == 8239
    || c == 8287
    || c == 12288

-- The characters that end a line for str.splitlines.
abbrev pub is_break : ℕ → Bool
is_break c = between 10 13 c || between 28 30 c || c == 133 || c == 8232 || c == 8233

abbrev pub newline : ℕ
newline = 10

abbrev pub carriage_return : ℕ
carriage_return = 13

abbrev pub dash : ℕ
dash = 45

abbrev pub semicolon : ℕ
semicolon = 59

abbrev pub is_empty {ℓ} : {A : Type ℓ} → List A → Bool
is_empty [] = true
is_empty (x ∷ xs) = false

-- A character before the first line.
abbrev pub prepend : ℕ → List Text → List Text
prepend c [] = (c ∷ []) ∷ []
prepend c (line ∷ rest) = (c ∷ line) ∷ rest

-- The lines after a carriage return, of which a newline is part, or not after one.
unfoldable pub lines_after : Bool → Text → List Text
lines_after after_return [] = []
lines_after after_return (c ∷ s) =
    let rest = lines_after (c == carriage_return) s in
    if after_return && c == newline
    then rest
    else (if is_break c then [] ∷ rest else prepend c rest)

-- str.splitlines
abbrev pub splitlines : Text → List Text
splitlines s = lines_after false s

unfoldable pub lstrip : Text → Text
lstrip [] = []
lstrip (c ∷ s) = let rest = lstrip s in if is_space c then rest else c ∷ s

unfoldable pub rstrip : Text → Text
rstrip [] = []
rstrip (c ∷ s) = let rest = rstrip s in if is_space c && is_empty rest then [] else c ∷ rest

-- str.strip
abbrev pub strip : Text → Text
strip s = rstrip (lstrip s)

-- startswith("--")
abbrev pub is_comment : Text → Bool
is_comment [] = false
is_comment (c ∷ []) = false
is_comment (c ∷ d ∷ s) = c == dash && d == dash

-- endswith(";")
unfoldable pub ends_statement : Text → Bool
ends_statement [] = false
ends_statement (c ∷ []) = c == semicolon
ends_statement (c ∷ d ∷ s) = ends_statement (d ∷ s)

-- "\n".join
unfoldable pub join_lines : List Text → Text
join_lines [] = []
join_lines (l ∷ []) = l
join_lines (l ∷ m ∷ ls) = l ++ newline ∷ join_lines (m ∷ ls)

-- The text is appended if it is not empty.
abbrev pub if_any : Text → List Text
if_any s = if is_empty s then [] else s ∷ []

-- One turn of the loop: what it appends to `statements`, and `buf` after it.
unfoldable pub take_line : Text → List Text → List Text × List Text
take_line line buf =
    let stripped = strip line in
    if is_comment stripped || is_empty stripped
    then ([], if is_empty buf then buf else insert line buf)
    else (if ends_statement stripped
        then (if_any (strip (join_lines (insert line buf))), [])
        else ([], insert line buf))

-- The loop over the lines, and the tail.
unfoldable pub split_loop : List Text → List Text → List Text
split_loop [] buf = if_any (strip (join_lines buf))
split_loop (line ∷ rest) buf =
    let (statements, next) = take_line line buf in statements ++ split_loop rest next

unfoldable pub split_sql : Text → List Text
split_sql script = split_loop (splitlines script) []

-- `schema_path`: the file at the root of the repository, else the one of the package, else
-- FileNotFoundError.
unfoldable pub schema_path {ℓ} : {P : Type ℓ} → (P → Bool) → P → P → Option P
schema_path exists root pkg =
    if exists root then some root else (if exists pkg then some pkg else none)

-- A connection that executes statements, each of which may raise.
module _ {ℓ} {C E : Type ℓ} (execute_statement : Text → C → Result E C) (commit_all : C → C) where
  unfoldable pub execute_all : List Text → C → Result E C
  execute_all [] conn = ok conn
  execute_all (statement ∷ rest) conn = elim (execute_statement statement conn) [
    | ok next ↦ execute_all rest next
    | err e ↦ err e
  ]

  -- `apply_schema`, on the text of the file.
  unfoldable pub apply_schema : Text → C → Result E C
  apply_schema sql conn = elim (execute_all (split_sql sql) conn) [
    | ok next ↦ ok (commit_all next)
    | err e ↦ err e
  ]
