-- ===== src/Examples/Scripts.antt =====
-- A script of two statements, split again.
use platform_forge.Schema.{split_sql, join_lines, rstrip, lstrip, ends_statement}
use platform_forge.Schema.Lines.{lines_text, is_line}
use platform_forge.Schema.Script.{
  Block, IsBlock, AreBlocks, all_lines, split_sql-all_lines, last, more,
}
use platform_forge.Prelude.{◌≡◌, [], ◌∷◌, refl, map, inl, inr, In-cons-cases}

-- "-- x" and a blank line, then "A (" and ");".
abbrev first_block : Block
first_block = record {
  comments = (45 ∷ 45 ∷ 32 ∷ 120 ∷ []) ∷ [] ∷ [];
  lines = (65 ∷ 32 ∷ 40 ∷ []) ∷ (41 ∷ 59 ∷ []) ∷ [];
}

-- "B;"
abbrev second_block : Block
second_block = record { comments = []; lines = (66 ∷ 59 ∷ []) ∷ [] }

first_block-IsBlock : IsBlock first_block
unfolding is_line rstrip lstrip ends_statement
first_block-IsBlock = record {
  skipped = λ l m. elim (In-cons-cases _ m) [
    | inl e ↦ rw e refl
    | inr n ↦ elim (In-cons-cases _ n) [ inl e ↦ rw e refl | inr k ↦ absurd (elim k [ ]) ]
  ];
  begun = refl;
  body = more refl (last refl refl);
  comment_lines = λ l m. elim (In-cons-cases _ m) [
    | inl e ↦ rw e refl
    | inr n ↦ elim (In-cons-cases _ n) [ inl e ↦ rw e refl | inr k ↦ absurd (elim k [ ]) ]
  ];
  body_lines = λ l m. elim (In-cons-cases _ m) [
    | inl e ↦ rw e refl
    | inr n ↦ elim (In-cons-cases _ n) [ inl e ↦ rw e refl | inr k ↦ absurd (elim k [ ]) ]
  ];
}

second_block-IsBlock : IsBlock second_block
unfolding is_line rstrip lstrip ends_statement
second_block-IsBlock = record {
  skipped = λ l m. absurd (elim m [ ]);
  begun = refl;
  body = last refl refl;
  comment_lines = λ l m. absurd (elim m [ ]);
  body_lines = λ l m. elim (In-cons-cases _ m) [ inl e ↦ rw e refl | inr k ↦ absurd (elim k [ ]) ];
}

both-AreBlocks : AreBlocks (first_block ∷ second_block ∷ [])
both-AreBlocks b m = elim (In-cons-cases _ m) [
  | inl e ↦ rw e first_block-IsBlock
  | inr n ↦ elim (In-cons-cases _ n) [
    | inl e ↦ rw e second_block-IsBlock
    | inr k ↦ absurd (elim k [ ])
  ]
]

split_sql-all_lines_example :
    split_sql (lines_text (all_lines (first_block ∷ second_block ∷ [])))
    ≡ map (λ b. join_lines b.lines) (first_block ∷ second_block ∷ [])
split_sql-all_lines_example = split_sql-all_lines (first_block ∷ second_block ∷ []) both-AreBlocks
