-- ===== src/Tools/LogDirs/Scan/Names.antt =====
-- The names of partitions, `topic-number`, where the topic may have dashes of its own.
use devops_agent_msk_mcp.Base.{
  ℕ, ◌<◌, ◌^◌, pos, int, show_ℕ, show_ℤ, Text, codes, Unicode, false, [], ◌∷◌, ◌++◌, Option, some,
  ◌≡◌, ◌≢◌, refl, All, arith,
}
use devops_agent_msk_mcp.Base.Int.Laws.{int-show_ℤ, IsDigit, show_ℕ-IsDigit}
use devops_agent_msk_mcp.Base.Json.{Json, str, dict, Fields, lookup_field}
use devops_agent_msk_mcp.Base.Strings.Laws.{rsplit-append}
use devops_agent_msk_mcp.Config.{non_empty}
use devops_agent_msk_mcp.Errors.{ok}
use devops_agent_msk_mcp.Tools.LogDirs.Scan.{
  get, is_true, name_of, is_skipped, Rows, add_entry, entry_of, scan_partition,
}

no_dash : (s : Text) → All IsDigit s → All (λ d. d ≢ b'-') s
no_dash [] h = tt
no_dash (d ∷ s) (digit, h) = (omega arith, no_dash s h)

module _ (u : Unicode) (topic_filter : Option Text) (b path : Option Json) where
  -- A partition that is named after its topic and its number is listed with them, whatever dashes the
  -- topic has, and with the other fields as they are, if the filter lets its topic pass and the number
  -- has at most 4300 digits.
  pub scan_partition-name :
      (fs : Fields) (topic : Text) (n : ℕ) (rows : Rows)
      → lookup_field (codes "partition") fs ≡ some (str (topic ++ (b'-' ∷ show_ℕ n)))
      → n < 10 ^ 4300
      → is_skipped (non_empty topic_filter) (some topic) ≡ false
      → scan_partition u topic_filter b path (dict fs) rows
        ≡ ok (
            add_entry u topic_filter b path
              (record {
                topic = some topic;
                partition = some (pos n);
                size_bytes = lookup_field (codes "size") fs;
                offset_lag = lookup_field (codes "offsetLag") fs;
                is_future = is_true (lookup_field (codes "isFuture") fs);
              })
              rows)
  unfolding scan_partition entry_of get name_of show_ℤ
  scan_partition-name fs topic n rows named small passes =
      let split = rsplit-append b'-' topic (show_ℕ n) (no_dash (show_ℕ n) (show_ℕ-IsDigit n)) in
      let number : int u (show_ℕ n) ≡ some (pos n) = int-show_ℤ u (pos n) small (omega arith) in
      rw (named, scan_partition) (rw (split, name_of) (rw (passes, number) refl))
