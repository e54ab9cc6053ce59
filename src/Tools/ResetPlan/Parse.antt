-- ===== src/Tools/ResetPlan/Parse.antt =====
-- `_parse_plan`: the table of new offsets in the output of the dry run, on many lines or on one.
pub mod Laws
pub mod Table
use devops_agent_msk_mcp.Base.{
  ℕ, zero, suc, ◌+◌, ℤ, leb_ℤ, ltb, leb, int, Text, codes, Unicode, find, behind_last, split,
  text_leb, take, drop, length, get_elem?, Bool, true, false, List, [], ◌∷◌, Option, none, some,
  text_eq, ◌==◌, if◌then◌else◌,
}
use devops_agent_msk_mcp.Base.Keys.{key_leb}
use devops_agent_msk_mcp.Base.Sort.{sort_by}
use devops_agent_msk_mcp.Config.{value_error}
use devops_agent_msk_mcp.Errors.{Result, ok, err, ◌>>=◌}

-- A row of the plan. `topic` is `None` where the row has no such column.
pub record Row : Type 0 where
  pub topic : Option Text
  pub partition : ℤ
  pub new_offset : ℤ

-- `xs.index(x)`
unfoldable pub index : Text → List Text → Option ℕ
index x [] = none
index x (y ∷ ys) =
    if x == y then some 0 else elim (index x ys) [ none ↦ none | some i ↦ some (suc i) ]

-- The columns that the header shows: how many, and where the three that are read stand.
pub record Layout : Type 0 where
  pub cols_per_row : ℕ
  pub partition_idx : ℕ
  pub new_offset_idx : ℕ
  pub topic_idx : ℕ

abbrev or_one : Option ℕ → ℕ
or_one none = 1
or_one (some i) = i

-- The tests on the header's words; `none` is the early `return []`. That "NEW-OFFSET" is one of the
-- words is not tested: `index` raises a `ValueError` if it is not.
unfoldable pub layout : List Text → Result (Option Layout)
unfolding index
layout cols = elim (index (codes "PARTITION") cols) [
  | none ↦ ok none
  | some p ↦ if ltb (length cols) 4 then ok none else elim (index (codes "NEW-OFFSET") cols) [
    | none ↦ err (value_error (codes "'NEW-OFFSET' is not in list"))
    | some n ↦ ok (
        some (record {
          cols_per_row = length cols;
          partition_idx = p;
          new_offset_idx = n;
          topic_idx = or_one (index (codes "TOPIC") cols);
        }))
  ]
]

-- `r["topic"] or ""`
abbrev topic_key : Row → Text
topic_key r = elim r.topic [ none ↦ [] | some t ↦ t ]

-- The sort key is the pair of the topic and the partition.
unfoldable pub row_leb : Row → Row → Bool
unfolding key_leb
row_leb r s = key_leb (topic_key r, r.partition) (topic_key s, s.partition)

module _ (u : Unicode) where
  -- The `try` block for one group of tokens; `none` is a `ValueError` or an `IndexError`.
  unfoldable pub read_row : Layout → List Text → Option Row
  read_row l group = elim (get_elem? group l.partition_idx) [
    | none ↦ none
    | some p ↦ elim (int u p) [
      | none ↦ none
      | some partition ↦ elim (get_elem? group l.new_offset_idx) [
        | none ↦ none
        | some n ↦ elim (int u n) [
          | none ↦ none
          | some new_offset ↦ some (record {
            topic = get_elem? group l.topic_idx;
            partition = partition;
            new_offset = new_offset;
          })
        ]
      ]
    ]
  ]

  -- The `while` loop over the tokens from `i` on; a round takes one token or a whole row.
  unfoldable pub read_rows : ℕ → Layout → List Text → List Row
  unfolding read_row
  read_rows zero l tokens = []
  read_rows (suc fuel) l [] = []
  read_rows (suc fuel) l (t ∷ tokens) = elim (leb l.cols_per_row (length (t ∷ tokens))) [
    | false ↦ []
    | true ↦ elim (read_row l (take l.cols_per_row (t ∷ tokens))) [
      | none ↦ read_rows fuel l tokens
      | some row ↦ row ∷ read_rows fuel l (drop l.cols_per_row (t ∷ tokens))
    ]
  ]

  abbrev plan_from : Text → Option Layout → List Row
  plan_from rest none = []
  plan_from rest (some l) =
      let tokens = split u rest in sort_by row_leb (read_rows (length tokens) l tokens)

  -- `find` gives the place of the header's last word, 10 characters long.
  unfoldable pub parse_plan : Text → Result (List Row)
  unfolding layout read_rows
  parse_plan stdout = elim (find stdout (codes "NEW-OFFSET")) [
    | none ↦ ok []
    | some idx ↦ do
      let line_start = behind_last (take idx stdout) b'\n'
      let header_text = drop line_start (take (idx + 10) stdout)
      l ← layout (split u header_text)
      ok (plan_from (drop (idx + 10) stdout) l)
  ]
