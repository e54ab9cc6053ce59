-- ===== src/Tools/ResetPlan/Quote.antt =====
-- `_quote_for_shell` and the command line that is joined from the quoted arguments.
pub mod Laws
use devops_agent_msk_mcp.Base.{
  ℕ, Text, codes, Unicode, is_alnum, join, Bool, true, ◌&&◌, ◌||◌, List, [], ◌∷◌, ◌++◌, map, elem,
  nat_eq, ◌==◌, if◌then◌else◌,
}

-- `arg.replace("'", "'\\''")`
unfoldable pub escape_quotes : Text → Text
escape_quotes [] = []
escape_quotes (c ∷ s) =
    let rest = escape_quotes s in
    if c == b'\'' then b'\'' ∷ b'\\' ∷ b'\'' ∷ b'\'' ∷ rest else c ∷ rest

module _ (u : Unicode) where
  -- The characters that need no quotes.
  unfoldable pub is_bare : ℕ → Bool
  is_bare c = is_alnum u c || elem c (codes "@%+=:,./-_")

  unfoldable pub all_bare : Text → Bool
  unfolding is_bare
  all_bare [] = true
  all_bare (c ∷ s) = is_bare c && all_bare s

  unfoldable pub quote_for_shell : Text → Text
  unfolding all_bare escape_quotes
  quote_for_shell [] = b'\'' ∷ b'\'' ∷ []
  quote_for_shell (c ∷ s) =
      if all_bare (c ∷ s) then c ∷ s else b'\'' ∷ (escape_quotes (c ∷ s) ++ (b'\'' ∷ []))

  -- `" ".join(_quote_for_shell(a) for a in argv)`
  unfoldable pub command_line : List Text → Text
  unfolding quote_for_shell
  command_line argv = join (b' ' ∷ []) (map quote_for_shell argv)
