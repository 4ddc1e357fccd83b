-- ===== src/Schema/Script.antt =====
-- A script of statements, each written over some lines, and what `split_sql` makes of it.
use platform_forge.Schema.{
  Text, take_line, split_loop, if_any, strip, is_comment, is_empty, ends_statement, join_lines,
  newline, lstrip, split_sql, rstrip,
}
use platform_forge.Schema.Lines.{
  AreLines, starts_solid, ends_statement-append, lines_text, strip_solid, splitlines-lines_text,
  join_lines-solid,
}
use platform_forge.Prelude.{
  ◌≡◌, Bool, true, false, List, [], ◌∷◌, ◌++◌, refl, arith, not, ◌||◌, here, In, append_assoc, ◌&&◌,
  insert, there, map, inl, ap, In-append-cases, inr, ◌∙◌,
}

-- A comment or a blank line.
abbrev pub is_skipped : Text → Bool
is_skipped l = is_comment (strip l) || is_empty (strip l)

-- A line that ends a statement.
abbrev pub closes : Text → Bool
closes l = not (is_skipped l) && ends_statement (strip l)

-- Lines of which the last one, and no other, ends a statement; it has no white space after its semicolon.
pub data IsBody : List Text → Type 0 where
  last : {l : Text} → closes l ≡ true → ends_statement l ≡ true → IsBody (l ∷ [])
  more : {l : Text} {ls : List Text} → closes l ≡ false → IsBody ls → IsBody (l ∷ ls)

-- The first line is neither a comment nor blank, and is not indented.
abbrev pub begins : List Text → Bool
begins [] = false
begins (l ∷ ls) = starts_solid l && not (is_skipped l)

-- The lines of a statement, after comments and blank lines.
pub record Block : Type 0 where
  pub comments : List Text
  pub lines : List Text

pub record IsBlock (b : Block) : Type 0 where
  pub skipped : (l : Text) → In l b.comments → is_skipped l ≡ true
  pub begun : begins b.lines ≡ true
  pub body : IsBody b.lines
  pub comment_lines : AreLines b.comments
  pub body_lines : AreLines b.lines

abbrev pub AreBlocks : List Block → Type 0
AreBlocks bs = (b : Block) → In b bs → IsBlock b

unfoldable pub all_lines : List Block → List Text
all_lines [] = []
all_lines (b ∷ bs) = b.comments ++ (b.lines ++ all_lines bs)

skips_comments :
    (cs rest : List Text)
    → ((l : Text) → In l cs → is_skipped l ≡ true)
    → split_loop (cs ++ rest) [] ≡ split_loop rest []
unfolding split_loop take_line
skips_comments [] rest h = refl
skips_comments (c ∷ cs) rest h =
    let again = skips_comments cs rest (λ l m. h l (there m)) in ground (arith, h c here, again)

keeps_line :
    (l : Text) (buf : List Text)
    → is_empty buf ≡ false
    → closes l ≡ false
    → take_line l buf ≡ ([], insert l buf)
unfolding take_line
keeps_line l buf h e = ground arith

closes_buffer :
    (l : Text) (buf : List Text)
    → closes l ≡ true
    → take_line l buf ≡ (if_any (strip (join_lines (insert l buf))), [])
unfolding take_line
closes_buffer l buf e = ground arith

not_empty : (l : Text) (buf : List Text) → is_empty (insert l buf) ≡ false
not_empty l [] = refl
not_empty l (b ∷ buf) = refl

-- The loop over the lines of a statement of which some are in the buffer.
takes_body :
    (ls rest buf : List Text)
    → IsBody ls
    → is_empty buf ≡ false
    → split_loop (ls ++ rest) buf ≡ if_any (strip (join_lines (buf ++ ls))) ++ split_loop rest []
unfolding split_loop
takes_body ls rest buf (last {l = l} e f) h = ground (arith, closes_buffer l buf e)
takes_body ls rest buf (more {l = l} {ls = ks} e b) h =
    let kept = keeps_line l buf h e in
    let again = takes_body ks rest (insert l buf) b (not_empty l buf) in
    ground (arith, kept, again, append_assoc buf (l ∷ []) ks)

takes_statement :
    (ls rest : List Text)
    → IsBody ls
    → begins ls ≡ true
    → split_loop (ls ++ rest) [] ≡ if_any (strip (join_lines ls)) ++ split_loop rest []
unfolding split_loop take_line
takes_statement ls rest (last {l = l} e f) h = ground (arith, closes_buffer l [] e)
takes_statement ls rest (more {l = l} {ls = ks} e b) h =
    let again = takes_body ks rest (l ∷ []) b refl in ground (arith, again)

body_ends : (ls : List Text) → IsBody ls → ends_statement (join_lines ls) ≡ true
unfolding join_lines
body_ends ls (last e f) = f
body_ends ls (more {l = l} {ls = []} e b) = absurd (elim b [ ])
body_ends ls (more {l = l} {ls = k ∷ ks} e b) =
    ends_statement-append l (newline ∷ join_lines (k ∷ ks))
      (ends_statement-append (newline ∷ []) (join_lines (k ∷ ks)) (body_ends (k ∷ ks) b))

ended_full : (s : Text) → ends_statement s ≡ true → is_empty s ≡ false
unfolding ends_statement
ended_full [] h = absurd (ground arith)
ended_full (c ∷ s) h = refl

-- The text of a statement is appended as it is.
statement_kept :
    (ls : List Text)
    → IsBody ls
    → begins ls ≡ true
    → if_any (strip (join_lines ls)) ≡ join_lines ls ∷ []
statement_kept [] b h = absurd (ground arith)
statement_kept (l ∷ ls) b h =
    let ends = body_ends (l ∷ ls) b in
    let same = strip_solid (join_lines (l ∷ ls)) (join_lines-solid l ls (ground arith)) ends in
    let full : is_empty (join_lines (l ∷ ls)) ≡ false = ended_full (join_lines (l ∷ ls)) ends in
    ground (arith, same, full)

split_loop-all_lines :
    (bs : List Block)
    → AreBlocks bs
    → split_loop (all_lines bs) [] ≡ map (λ b. join_lines b.lines) bs
unfolding split_loop all_lines join_lines lstrip rstrip
split_loop-all_lines [] h = refl
split_loop-all_lines (b ∷ bs) h =
    let block = h b here in
    skips_comments b.comments (b.lines ++ all_lines bs) block.skipped
    ∙ takes_statement b.lines (all_lines bs) block.body block.begun
    ∙ ground (
      arith,
      statement_kept b.lines block.body block.begun,
      split_loop-all_lines bs (λ k m. h k (there m)),
    )

all_lines-AreLines : (bs : List Block) → AreBlocks bs → AreLines (all_lines bs)
unfolding all_lines
all_lines-AreLines [] h l m = absurd (elim m [ ])
all_lines-AreLines (b ∷ bs) h l m = elim (In-append-cases b.comments m) [
  | inl c ↦ (h b here).comment_lines l c
  | inr n ↦ elim (In-append-cases b.lines n) [
    | inl s ↦ (h b here).body_lines l s
    | inr r ↦ all_lines-AreLines bs (λ k i. h k (there i)) l r
  ]
]

-- Take statements, each of some lines of which only the last ends in a semicolon, written one after the
-- other with comments and blank lines before them, a newline after each line: `split_sql` gives back
-- the texts of the statements, in order. A first line is not indented, and nothing follows the
-- semicolon that ends a statement.
pub split_sql-all_lines :
    (bs : List Block)
    → AreBlocks bs
    → split_sql (lines_text (all_lines bs)) ≡ map (λ b. join_lines b.lines) bs
unfolding split_sql
split_sql-all_lines bs h =
    ap (λ (ls : List Text). split_loop ls [])
      (splitlines-lines_text (all_lines bs) (all_lines-AreLines bs h))
    ∙ split_loop-all_lines bs h
