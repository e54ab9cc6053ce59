-- ===== src/Tools/ResetPlan/Quote/Laws.antt =====
-- How a POSIX shell splits a command line into words, and what it makes of the quoted line.
use devops_agent_msk_mcp.Base.{
  ℕ, Text, codes, Unicode, leb, Bool, true, false, ◌&&◌, ◌||◌, List, [], ◌∷◌, ◌++◌, Option, none,
  some, ◌≡◌, refl, inl, inr, Bool-cases, arith, elem, nat_eq, ◌==◌, if◌then◌else◌, join, is_alnum,
}
use mathlib.Core.List.{append_assoc, append-nil}
use mathlib.Core.Option
use devops_agent_msk_mcp.Tools.ResetPlan.Quote.{
  is_bare, all_bare, escape_quotes, quote_for_shell, command_line,
}

-- What a shell makes of an unquoted character.
pub data Kind : Type 0 where
  blank quote backslash plain special : Kind

-- A letter, a digit, one of `@%+=:,./-_`, or a character beyond ASCII stands for itself.
abbrev is_plain : ℕ → Bool
is_plain c =
    leb 128 c
    || (leb b'0' c && leb c b'9')
    || (leb b'A' c && leb c b'Z')
    || (leb b'a' c && leb c b'z')
    || c == b'@'
    || c == b'%'
    || c == b'+'
    || c == b'='
    || c == b':'
    || c == b','
    || c == b'.'
    || c == b'/'
    || c == b'-'
    || c == b'_'

unfoldable pub kind : ℕ → Kind
kind c =
    if c == b' '
    then blank
    else if c == b'\''
    then quote
    else if c == b'\\'
    then backslash
    else if is_plain c
    then plain
    else special

pub data Mode : Type 0 where
  gap bare quoted escaped : Mode

-- The words of the input, with the word under way; `none` is an open quote, or a character that a
-- shell would act on.
unfoldable pub shell_words : Mode → Text → Text → Option (List Text)
unfolding kind
shell_words gap cur [] = some []
shell_words bare cur [] = some (cur ∷ [])
shell_words quoted cur [] = none
shell_words escaped cur [] = none
shell_words gap cur (c ∷ s) = elim (kind c) [
  | blank ↦ shell_words gap [] s
  | quote ↦ shell_words quoted [] s
  | backslash ↦ shell_words escaped [] s
  | plain ↦ shell_words bare (c ∷ []) s
  | special ↦ none
]
shell_words bare cur (c ∷ s) = elim (kind c) [
  | blank ↦ Option.map (λ ws. cur ∷ ws) (shell_words gap [] s)
  | quote ↦ shell_words quoted cur s
  | backslash ↦ shell_words escaped cur s
  | plain ↦ shell_words bare (cur ++ (c ∷ [])) s
  | special ↦ none
]
shell_words quoted cur (c ∷ s) = elim (c == b'\'') [
  | true ↦ shell_words bare cur s
  | false ↦ shell_words quoted (cur ++ (c ∷ [])) s
]
shell_words escaped cur (c ∷ s) = shell_words bare (cur ++ (c ∷ [])) s

-- Inside single quotes the shell reads back the text that was escaped.
quoted-append :
    (a rest cur : Text)
    → shell_words quoted cur (escape_quotes a ++ (b'\'' ∷ rest)) ≡ shell_words bare (cur ++ a) rest
unfolding shell_words escape_quotes
quoted-append [] rest cur = rw append-nil
quoted-append (c ∷ a) rest cur =
    ground (arith, quoted-append a rest (cur ++ (c ∷ [])), append_assoc cur (c ∷ []) a)

module _ (u : Unicode) where
  is_bare-plain : (c : ℕ) → is_bare u c ≡ true → kind c ≡ plain
  unfolding is_bare kind is_alnum codes elem
  is_bare-plain c h = ground arith

  bare_step :
      (c : ℕ) (s cur : Text)
      → is_bare u c ≡ true
      → shell_words bare cur (c ∷ s) ≡ shell_words bare (cur ++ (c ∷ [])) s
  unfolding shell_words
  bare_step c s cur h = ground (arith, is_bare-plain c h)

  bare-append :
      (a rest cur : Text)
      → all_bare u a ≡ true
      → shell_words bare cur (a ++ rest) ≡ shell_words bare (cur ++ a) rest
  unfolding all_bare
  bare-append [] rest cur h = rw append-nil
  bare-append (c ∷ a) rest cur h = ground (
    arith,
    bare_step c (a ++ rest) cur,
    bare-append a rest (cur ++ (c ∷ [])),
    append_assoc cur (c ∷ []) a,
  )

  gap-quote :
      (a rest : Text) → shell_words gap [] (quote_for_shell u a ++ rest) ≡ shell_words bare a rest
  unfolding shell_words quote_for_shell
  gap-quote [] rest = refl
  gap-quote (c ∷ s) rest = elim (Bool-cases (all_bare u (c ∷ s))) [
    | inl h ↦ rw h (ground (arith, is_bare-plain c, bare-append s rest (c ∷ [])))
    | inr h ↦ rw h (rw append_assoc (quoted-append (c ∷ s) rest []))
  ]

  bare_at_blank :
      (s cur : Text)
      → shell_words bare cur (b' ' ∷ s) ≡ Option.map (λ ws. cur ∷ ws) (shell_words gap [] s)
  unfolding shell_words
  bare_at_blank s cur = refl

  command_line-cons :
      (a b : Text) (rest : List Text)
      → command_line u (a ∷ b ∷ rest) ≡ quote_for_shell u a ++ (b' ' ∷ command_line u (b ∷ rest))
  unfolding command_line join
  command_line-cons a b rest = refl

  command_line-one : (a : Text) → command_line u (a ∷ []) ≡ quote_for_shell u a ++ []
  unfolding command_line join
  command_line-one a = rw append-nil

  -- A POSIX shell splits the command line into exactly the arguments that it was made of: no
  -- argument, whatever characters it holds, is split, merged, expanded or dropped.
  pub shell_words-command_line :
      (argv : List Text) → shell_words gap [] (command_line u argv) ≡ some argv
  shell_words-command_line [] = unfold shell_words command_line join in refl
  shell_words-command_line (a ∷ []) =
      rw (command_line-one a, gap-quote a []) (unfold shell_words in refl)
  shell_words-command_line (a ∷ b ∷ rest) =
      rw (
        command_line-cons a b rest,
        gap-quote a,
        bare_at_blank,
        shell_words-command_line (b ∷ rest),
      )
