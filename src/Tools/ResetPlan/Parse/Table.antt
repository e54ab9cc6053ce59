-- ===== src/Tools/ResetPlan/Parse/Table.antt =====
-- The table that `kafka-consumer-groups.sh` prints, with any blanks between its cells, so that its
-- rows may stand on lines of their own or all on the header's line; and what `_parse_plan` makes of it.
use devops_agent_msk_mcp.Base.{
  ℕ, zero, suc, ◌+◌, ◌≤◌, ◌<◌, ◌^◌, ℤ, show_ℤ, Text, codes, Unicode, find, behind_last, split, take,
  drop, length, List, [], ◌∷◌, ◌++◌, map, some, ◌≡◌, ◌≢◌, refl, sym, ap, ◌∙◌, All, arith,
  length-append, list_beq, take_at-append, drop_at-append, is_space,
}
use mathlib.Core.List.{append_assoc, append-nil, cons-ne-nil}
use devops_agent_msk_mcp.Base.Sort.{sort_by}
use devops_agent_msk_mcp.Base.Int.{pos_part, neg_part}
use devops_agent_msk_mcp.Base.Int.Laws.{int-show_ℤ, show_ℤ-IsWord}
use devops_agent_msk_mcp.Base.Strings.Laws.{
  IsWord, IsGap, spread, split-spread, split-gap, split-word, spread-Lacks, behind_last-append,
}
use devops_agent_msk_mcp.Errors.{ok}
use devops_agent_msk_mcp.Tools.ResetPlan.Parse.{
  Row, Layout, layout, row_leb, read_row, read_rows, parse_plan, plan_from,
}

-- A row of the table, with the blanks behind its cells.
pub record Line : Type 0 where
  pub group : Text
  pub topic : Text
  pub partition : ℤ
  pub new_offset : ℤ
  pub gap₁ : Text
  pub gap₂ : Text
  pub gap₃ : Text
  pub gap₄ : Text

unfoldable pub cells : List Line → List (Text × Text)
cells [] = []
cells (r ∷ rs) =
    (r.group, r.gap₁)
    ∷ (r.topic, r.gap₂)
    ∷ (show_ℤ r.partition, r.gap₃)
    ∷ (show_ℤ r.new_offset, r.gap₄)
    ∷ cells rs

-- What the plan holds of a line.
abbrev pub row_of : Line → Row
row_of r = record { topic = some r.topic; partition = r.partition; new_offset = r.new_offset }

-- The header up to its last word.
unfoldable pub header : Text → Text → Text → List (Text × Text)
header g₁ g₂ g₃ = (codes "GROUP", g₁) ∷ (codes "TOPIC", g₂) ∷ (codes "PARTITION", g₃) ∷ []

module _ (u : Unicode) where
  abbrev Fits : ℤ → Type 0
  Fits z = (pos_part z < 10 ^ 4300) × (neg_part z < 10 ^ 4300)

  pub record IsLine (r : Line) : Type 0 where
    pub group_word : IsWord u r.group
    pub topic_word : IsWord u r.topic
    pub partition_fits : Fits r.partition
    pub offset_fits : Fits r.new_offset
    pub gaps : IsGap u r.gap₁ × IsGap u r.gap₂ × IsGap u r.gap₃ × IsGap u r.gap₄

  -- The columns of the table.
  abbrev columns : Layout
  columns = record { cols_per_row = 4; partition_idx = 2; new_offset_idx = 3; topic_idx = 1 }

  layout-columns :
      layout (codes "GROUP" ∷ codes "TOPIC" ∷ codes "PARTITION" ∷ codes "NEW-OFFSET" ∷ [])
      ≡ ok (some columns)
  unfolding layout codes list_beq
  layout-columns = refl

  words : List Line → List Text
  words rs = map (λ p. p.0) (cells rs)

  cells-ok : (rs : List Line) → All IsLine rs → All (λ p. IsWord u p.0 × IsGap u p.1) (cells rs)
  unfolding cells
  cells-ok [] h = tt
  cells-ok (r ∷ rs) (hr, h) = (
    (hr.group_word, hr.gaps.0),
    (
      (hr.topic_word, hr.gaps.1),
      (
        (show_ℤ-IsWord u r.partition, hr.gaps.2),
        ((show_ℤ-IsWord u r.new_offset, hr.gaps.3), cells-ok rs h),
      ),
    ),
  )

  read_row-words :
      (r : Line)
      → IsLine r
      → read_row u columns (r.group ∷ r.topic ∷ show_ℤ r.partition ∷ show_ℤ r.new_offset ∷ [])
        ≡ some (row_of r)
  unfolding read_row
  read_row-words r h = ground (
    arith,
    int-show_ℤ u r.partition h.partition_fits.0 h.partition_fits.1,
    int-show_ℤ u r.new_offset h.offset_fits.0 h.offset_fits.1,
  )

  read_rows-words :
      (f : ℕ) (rs : List Line)
      → All IsLine rs
      → length (words rs) ≤ f
      → read_rows u f columns (words rs) ≡ map row_of rs
  unfolding words cells read_rows
  read_rows-words zero [] h k = refl
  read_rows-words zero (r ∷ rs) h k = absurd (omega arith)
  read_rows-words (suc f) [] h k = refl
  read_rows-words (suc f) (r ∷ rs) (hr, h) k =
      ground (arith, read_row-words r hr, read_rows-words f rs h)

-- The output up to the last word of the header: other lines, and the header's first three words.
abbrev pub up_to_header : Text → Text → Text → Text → Text
up_to_header lead g₁ g₂ g₃ = lead ++ spread (header g₁ g₂ g₃)

-- The whole output of a dry run.
abbrev pub output : Text → Text → Text → Text → Text → List Line → Text
output lead g₁ g₂ g₃ g₄ rs =
    up_to_header lead g₁ g₂ g₃ ++ (codes "NEW-OFFSET" ++ (g₄ ++ spread (cells rs)))

group_lacks : All (λ c. c ≢ b'\n') (codes "GROUP")
unfolding codes
group_lacks = omega arith

topic_lacks : All (λ c. c ≢ b'\n') (codes "TOPIC")
unfolding codes
topic_lacks = omega arith

partition_lacks : All (λ c. c ≢ b'\n') (codes "PARTITION")
unfolding codes
partition_lacks = omega arith

module _ (u : Unicode) where
  parse_plan_at :
      (stdout : Text) (idx : ℕ) (cols : List Text) (l : Layout)
      → find stdout (codes "NEW-OFFSET") ≡ some idx
      → split u (drop (behind_last (take idx stdout) b'\n') (take (idx + 10) stdout)) ≡ cols
      → layout cols ≡ ok (some l)
      → parse_plan u stdout ≡ ok (plan_from u (drop (idx + 10) stdout) (some l))
  unfolding parse_plan
  parse_plan_at stdout idx cols l h k e = rw (h, parse_plan) (rw (k, e) refl)

  module _ (lead g₁ g₂ g₃ : Text) (rest : Text) where
    abbrev front : Text
    front = up_to_header lead g₁ g₂ g₃

    length_header : length (front ++ codes "NEW-OFFSET") ≡ length front + 10
    unfolding codes
    length_header = length-append front (codes "NEW-OFFSET")

    drop_header : drop (length front + 10) (front ++ (codes "NEW-OFFSET" ++ rest)) ≡ rest
    drop_header =
        rw (← length_header, ← append_assoc front (codes "NEW-OFFSET") rest)
          (drop_at-append (front ++ codes "NEW-OFFSET") rest)

    take_header :
        take (length front + 10) (front ++ (codes "NEW-OFFSET" ++ rest))
        ≡ front ++ codes "NEW-OFFSET"
    take_header =
        rw (← length_header, ← append_assoc front (codes "NEW-OFFSET") rest)
          (take_at-append (front ++ codes "NEW-OFFSET") rest)

  header_literals :
      IsWord u (codes "GROUP")
      × IsWord u (codes "TOPIC")
      × IsWord u (codes "PARTITION")
      × IsWord u (codes "NEW-OFFSET")
  unfolding codes is_space
  header_literals = (
    (cons-ne-nil _ _, ground arith),
    (cons-ne-nil _ _, ground arith),
    (cons-ne-nil _ _, ground arith),
    (cons-ne-nil _ _, ground arith),
  )

  -- Blanks with no newline.
  abbrev pub IsHeaderGap : Text → Type 0
  IsHeaderGap g = IsGap u g × All (λ c. c ≢ b'\n') g

  split_body :
      (g : Text) (rs : List Line)
      → IsGap u g
      → All (IsLine u) rs
      → split u (g ++ spread (cells rs)) ≡ words u rs
  unfolding words split
  split_body g rs h lines =
      split-gap u g _ h
      ∙ ap (split u) (sym (append-nil (spread (cells rs))))
      ∙ split-spread u (cells rs) [] (cells-ok u rs lines)
      ∙ append-nil _

  module _ (lead g₁ g₂ g₃ : Text) (h₁ : IsHeaderGap g₁) (h₂ : IsHeaderGap g₂)
      (h₃ : IsHeaderGap g₃) where
    split-header :
        split u (spread (header g₁ g₂ g₃) ++ codes "NEW-OFFSET")
        ≡ codes "GROUP" ∷ codes "TOPIC" ∷ codes "PARTITION" ∷ codes "NEW-OFFSET" ∷ []
    unfolding header
    split-header =
        let (a, b, c, d) = header_literals in
        split-spread u (header g₁ g₂ g₃) (codes "NEW-OFFSET")
          ((a, h₁.0), ((b, h₂.0), ((c, h₃.0), tt)))
        ∙ ap (λ ws. codes "GROUP" ∷ codes "TOPIC" ∷ codes "PARTITION" ∷ ws) (split-word u _ d)

    header-Lacks : All (λ c. c ≢ b'\n') (spread (header g₁ g₂ g₃))
    unfolding header
    header-Lacks =
        spread-Lacks (header g₁ g₂ g₃) b'\n'
          ((group_lacks, h₁.1), ((topic_lacks, h₂.1), ((partition_lacks, h₃.1), tt)))

    header_text :
        (rest : Text)
        → behind_last lead b'\n' ≡ length lead
        → let front = up_to_header lead g₁ g₂ g₃ in
          let stdout = front ++ (codes "NEW-OFFSET" ++ rest) in
          drop (behind_last (take (length front) stdout) b'\n') (take (length front + 10) stdout)
          ≡ spread (header g₁ g₂ g₃) ++ codes "NEW-OFFSET"
    header_text rest above =
        rw
          (
            take_at-append,
            take_header lead g₁ g₂ g₃ rest,
            behind_last-append lead _ b'\n' header-Lacks,
            above,
            append_assoc,
          )
          (drop_at-append lead _)

  -- Whatever blanks stand between the cells, on many lines or on one, and whatever lines stand above
  -- the header, the plan of a table is its rows, in order of topic and partition. The conditions: the
  -- first "NEW-OFFSET" of the output is the header's, what stands above the header is empty or ends
  -- with a newline, the header is on one line, and the numbers have at most 4300 digits.
  pub parse_plan-output :
      (lead g₁ g₂ g₃ g₄ : Text) (rs : List Line)
      → find (output lead g₁ g₂ g₃ g₄ rs) (codes "NEW-OFFSET")
        ≡ some (length (up_to_header lead g₁ g₂ g₃))
      → behind_last lead b'\n' ≡ length lead
      → All IsHeaderGap (g₁ ∷ g₂ ∷ g₃ ∷ [])
      → IsGap u g₄
      → All (IsLine u) rs
      → parse_plan u (output lead g₁ g₂ g₃ g₄ rs) ≡ ok (sort_by row_leb (map row_of rs))
  parse_plan-output lead g₁ g₂ g₃ g₄ rs found above (h₁, (h₂, (h₃, _))) h₄ lines =
      let rest = g₄ ++ spread (cells rs) in
      let heads = header_text lead g₁ g₂ g₃ h₁ h₂ h₃ rest above in
      rw
        (parse_plan_at _ (length (up_to_header lead g₁ g₂ g₃)) _ (columns u) found
          (ap (split u) heads ∙ split-header lead g₁ g₂ g₃ h₁ h₂ h₃) (layout-columns u))
        (rw (drop_header lead g₁ g₂ g₃ rest, split_body g₄ rs h₄ lines)
          (ap (λ t. ok (sort_by row_leb t)) (read_rows-words u _ rs lines (omega arith))))
