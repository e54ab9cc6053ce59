-- ===== src/Tools/ResetPlan/Parse/Laws.antt =====
-- What `_parse_plan` returns, for any output and for the table that the tool prints.
use devops_agent_msk_mcp.Base.{
  ℕ, zero, suc, ◌+◌, ◌*◌, ◌≤◌, ◌<◌, Text, codes, Unicode, find, behind_last, split, take, drop,
  length, List, [], ◌∷◌, ◌++◌, Option, none, some, ◌≡◌, refl, sym, take-append-drop, length-take,
  leb→le, inl, inr, Bool-cases, Option-cases, All, arith, leb, nat_eq, length-drop,
}
use mathlib.Core.Path.{subst}
use mathlib.Core.List.{append_assoc}
use devops_agent_msk_mcp.Base.Sort.{sort_by-IsSorted, IsSorted, IsTotalOrder, All-sort_by}
use devops_agent_msk_mcp.Base.Keys.{key_leb, key_leb-IsTotalOrder, on-IsTotalOrder}
use devops_agent_msk_mcp.Errors.{Result, ok, err, ok_injective, ◌>>=◌}
use devops_agent_msk_mcp.Tools.ResetPlan.Parse.{
  Row, Layout, layout, row_leb, read_row, read_rows, parse_plan, plan_from, topic_key,
}

module _ (u : Unicode) (l : Layout) where
  took : (n : ℕ) (ts : List Text) → n ≤ length ts → length (take n ts) ≡ n
  took n ts h = omega (arith, length-take n ts)

  -- What a round of the loop does.
  data Round (f : ℕ) (t : Text) (ts : List Text) : Type 0 where
    stop : length (t ∷ ts) < l.cols_per_row → read_rows u (suc f) l (t ∷ ts) ≡ [] → Round f t ts
    skip :
        l.cols_per_row ≤ length (t ∷ ts)
        → read_row u l (take l.cols_per_row (t ∷ ts)) ≡ none
        → read_rows u (suc f) l (t ∷ ts) ≡ read_rows u f l ts
        → Round f t ts
    accept :
        (row : Row)
        → l.cols_per_row ≤ length (t ∷ ts)
        → read_row u l (take l.cols_per_row (t ∷ ts)) ≡ some row
        → read_rows u (suc f) l (t ∷ ts) ≡ row ∷ read_rows u f l (drop l.cols_per_row (t ∷ ts))
        → Round f t ts

  round : (f : ℕ) (t : Text) (ts : List Text) → Round f t ts
  unfolding read_rows
  round f t ts = elim (Bool-cases (leb l.cols_per_row (length (t ∷ ts)))) [
    | inr h ↦ stop (ground arith) (ground arith)
    | inl h ↦ elim (Option-cases (read_row u l (take l.cols_per_row (t ∷ ts)))) [
      | inl e ↦ skip (leb→le _ _ h) e (rw (h, e, read_rows))
      | inr (row, e) ↦ accept row (leb→le _ _ h) e (rw (h, e, read_rows))
    ]
  ]

  -- The rows take up no more tokens than there are.
  pub length-read_rows :
      (f : ℕ) (tokens : List Text)
      → 0 < l.cols_per_row
      → length (read_rows u f l tokens) * l.cols_per_row ≤ length tokens
  length-read_rows zero tokens c = unfold read_rows in omega arith
  length-read_rows (suc f) [] c = unfold read_rows in omega arith
  length-read_rows (suc f) (t ∷ tokens) c = elim (round f t tokens) [
    | stop h e ↦ rw e (omega arith)
    | skip h n e ↦ rw e (omega (arith, length-read_rows f tokens c))
    | accept row h r e ↦ rw e (
        omega (
          arith,
          length-read_rows f (drop l.cols_per_row (t ∷ tokens)) c,
          length-drop l.cols_per_row (t ∷ tokens),
        ))
  ]

  -- Some stretch of the tokens, as long as the header, reads as the row.
  abbrev pub IsWindow : List Text → Row → Type 0
  IsWindow tokens row =
      (before : List Text) × (group : List Text) × (after : List Text) × (tokens
        ≡ before ++ (group ++ after))
      × (length group ≡ l.cols_per_row)
      × (read_row u l group ≡ some row)

  IsWindow-append :
      (front tokens : List Text) (row : Row) → IsWindow tokens row → IsWindow (front ++ tokens) row
  IsWindow-append front tokens row (before, group, after, e, n, r) =
      (front ++ before, group, after, rw (e, append_assoc), n, r)

  All-IsWindow_append :
      (front tokens : List Text) (rows : List Row)
      → All (IsWindow tokens) rows
      → All (IsWindow (front ++ tokens)) rows
  All-IsWindow_append front tokens [] h = tt
  All-IsWindow_append front tokens (row ∷ rows) (w, h) =
      (IsWindow-append front tokens row w, All-IsWindow_append front tokens rows h)

  -- Every row was read from some stretch of the tokens.
  read_rows_sound : (f : ℕ) (tokens : List Text) → All (IsWindow tokens) (read_rows u f l tokens)
  read_rows_sound zero tokens = unfold read_rows in tt
  read_rows_sound (suc f) [] = unfold read_rows in tt
  read_rows_sound (suc f) (t ∷ tokens) = elim (round f t tokens) [
    | stop h e ↦ rw e tt
    | skip h n e ↦ rw e (All-IsWindow_append (t ∷ []) tokens _ (read_rows_sound f tokens))
    | accept row h r e ↦
        let n = l.cols_per_row in
        let group = take n (t ∷ tokens) in
        let after = drop n (t ∷ tokens) in
        rw e (
          ([], group, after, sym (take-append-drop n (t ∷ tokens)), took n (t ∷ tokens) h, r),
          subst (λ ts. All (IsWindow ts) (read_rows u f l after)) (take-append-drop n (t ∷ tokens))
              (All-IsWindow_append group after _ (read_rows_sound f after)),
        )
  ]

-- Rows are ordered by topic, and by partition within a topic: any two are comparable.
pub row_leb-IsTotalOrder : IsTotalOrder row_leb
unfolding row_leb
row_leb-IsTotalOrder =
    on-IsTotalOrder (λ (r : Row). (topic_key r, r.partition)) key_leb key_leb-IsTotalOrder

module _ (u : Unicode) where
  -- The words of the header line, whose last one ends at `idx + 10`.
  abbrev pub header_cols : Text → ℕ → List Text
  header_cols stdout idx =
      split u (drop (behind_last (take idx stdout) b'\n') (take (idx + 10) stdout))

  -- The row stands in the output: behind the header, under a layout that the header gives.
  abbrev pub IsPrinted : Text → Row → Type 0
  IsPrinted stdout row =
      (idx : ℕ) × (l : Layout) × (find stdout (codes "NEW-OFFSET") ≡ some idx)
      × (layout (header_cols stdout idx) ≡ ok (some l))
      × IsWindow u l (split u (drop (idx + 10) stdout)) row

  All-IsPrinted :
      (stdout : Text) (idx : ℕ) (l : Layout) (rows : List Row)
      → find stdout (codes "NEW-OFFSET") ≡ some idx
      → layout (header_cols stdout idx) ≡ ok (some l)
      → All (IsWindow u l (split u (drop (idx + 10) stdout))) rows
      → All (IsPrinted stdout) rows
  All-IsPrinted stdout idx l [] f e h = tt
  All-IsPrinted stdout idx l (r ∷ rows) f e (w, h) =
      ((idx, l, f, e, w), All-IsPrinted stdout idx l rows f e h)

  abbrev IsFaithful : Text → List Row → Type 0
  IsFaithful stdout rows = IsSorted row_leb rows × All (IsPrinted stdout) rows

  plan_from-IsFaithful :
      (stdout : Text) (idx : ℕ) (ml : Option Layout)
      → find stdout (codes "NEW-OFFSET") ≡ some idx
      → layout (header_cols stdout idx) ≡ ok ml
      → IsFaithful stdout (plan_from u (drop (idx + 10) stdout) ml)
  plan_from-IsFaithful stdout idx none f e = (tt, tt)
  plan_from-IsFaithful stdout idx (some l) f e =
      let tokens = split u (drop (idx + 10) stdout) in
      let rows = read_rows u (length tokens) l tokens in
      (
        sort_by-IsSorted row_leb-IsTotalOrder rows,
        All-sort_by row_leb (IsPrinted stdout) rows
            (All-IsPrinted stdout idx l rows f e (read_rows_sound u l (length tokens) tokens)),
      )

  parse_at :
      (stdout : Text) (idx : ℕ) (r : Result (Option Layout)) (rows : List Row)
      → find stdout (codes "NEW-OFFSET") ≡ some idx
      → layout (header_cols stdout idx) ≡ r
      → (r >>= λ ml. ok (plan_from u (drop (idx + 10) stdout) ml)) ≡ ok rows
      → IsFaithful stdout rows
  parse_at stdout idx (err e) rows f k h = cc
  parse_at stdout idx (ok ml) rows f k h =
      subst (IsFaithful stdout) (ok_injective h) (plan_from-IsFaithful stdout idx ml f k)

  parse_found :
      (stdout : Text) (o : Option ℕ) (rows : List Row)
      → find stdout (codes "NEW-OFFSET") ≡ o
      → parse_plan u stdout ≡ ok rows
      → IsFaithful stdout rows
  unfolding parse_plan
  parse_found stdout none rows f h =
      subst (IsFaithful stdout) (ok_injective (rw (f, parse_plan) at h)) (tt, tt)
  parse_found stdout (some idx) rows f h =
      parse_at stdout idx (layout (header_cols stdout idx)) rows f refl (rw (f, parse_plan) at h)

  -- Whatever the output is, a plan is sorted by topic and partition, and each of its rows was read
  -- from a stretch of as many words as the header has, behind the header.
  pub parse_plan_sound :
      (stdout : Text) (rows : List Row)
      → parse_plan u stdout ≡ ok rows
      → IsSorted row_leb rows × All (IsPrinted stdout) rows
  parse_plan_sound stdout rows h = parse_found stdout (find stdout (codes "NEW-OFFSET")) rows refl h
