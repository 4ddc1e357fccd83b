-- ===== src/Schema/Lines.antt =====
-- Lines and their ends: what splitlines, strip and join make of each other.
use platform_forge.Schema.{
  Text, is_break, lines_after, newline, lstrip, rstrip, strip, ends_statement, join_lines, is_space,
}
use platform_forge.Prelude.{
  ◌≡◌, Bool, true, false, List, [], ◌∷◌, ◌++◌, refl, arith, ◌&&◌, ◌∙◌, In, there, ap, here, not,
}

-- Each line, with a newline after it.
unfoldable pub lines_text : List Text → Text
lines_text [] = []
lines_text (l ∷ ls) = l ++ newline ∷ lines_text ls

-- No character of the line ends a line.
unfoldable pub is_line : Text → Bool
is_line [] = true
is_line (c ∷ s) = not (is_break c) && is_line s

abbrev pub AreLines : List Text → Type 0
AreLines ls = (l : Text) → In l ls → is_line l ≡ true

lines_after-line :
    (l s : Text) → is_line l ≡ true → lines_after false (l ++ newline ∷ s) ≡ l ∷ lines_after false s
unfolding lines_after is_line
lines_after-line [] s h = refl
lines_after-line (c ∷ l) s h = ground (arith, lines_after-line l s)

-- Writing lines and splitting the text gives the lines.
pub splitlines-lines_text : (ls : List Text) → AreLines ls → lines_after false (lines_text ls) ≡ ls
unfolding lines_after lines_text
splitlines-lines_text [] h = refl
splitlines-lines_text (l ∷ ls) h =
    lines_after-line l (lines_text ls) (h l here)
    ∙ ap (λ (r : List Text). l ∷ r) (splitlines-lines_text ls (λ k m. h k (there m)))

-- The text begins with a character that is not white space.
abbrev pub starts_solid : Text → Bool
starts_solid [] = false
starts_solid (c ∷ s) = not (is_space c)

lstrip-solid : (s : Text) → starts_solid s ≡ true → lstrip s ≡ s
unfolding lstrip
lstrip-solid [] h = refl
lstrip-solid (c ∷ s) h = ground arith

rstrip-statement : (s : Text) → ends_statement s ≡ true → rstrip s ≡ s
unfolding rstrip ends_statement
rstrip-statement [] h = refl
rstrip-statement (c ∷ []) h = ground arith
rstrip-statement (c ∷ d ∷ s) h = let same = rstrip-statement (d ∷ s) h in ground (arith, same)

-- A text that begins so and ends with a semicolon is not stripped.
pub strip_solid : (s : Text) → starts_solid s ≡ true → ends_statement s ≡ true → strip s ≡ s
strip_solid s h e = ap rstrip (lstrip-solid s h) ∙ rstrip-statement s e

pub ends_statement-append : (s t : Text) → ends_statement t ≡ true → ends_statement (s ++ t) ≡ true
unfolding ends_statement
ends_statement-append [] t h = h
ends_statement-append (c ∷ []) [] h = absurd (ground arith)
ends_statement-append (c ∷ []) (d ∷ t) h = h
ends_statement-append (c ∷ d ∷ s) t h = ends_statement-append (d ∷ s) t h

pub join_lines-solid :
    (l : Text) (ls : List Text) → starts_solid l ≡ true → starts_solid (join_lines (l ∷ ls)) ≡ true
unfolding join_lines
join_lines-solid l [] h = h
join_lines-solid [] (m ∷ ls) h = absurd (ground arith)
join_lines-solid (c ∷ l) (m ∷ ls) h = h
