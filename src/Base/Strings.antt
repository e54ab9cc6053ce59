-- ===== src/Base/Strings.antt =====
-- Python's `str` as the list of its code points, and the methods of `str` that the code calls.
-- What Python knows of the code points from 128 on is a parameter, `Unicode`.
pub mod Laws
pub mod Order
pub mod Contains
use Prim.Native.Nat.{ℕ, suc, ◌+◌, ◌-◌}
use Prim.Native.Char.{code}
use Prim.Native.String.{String}
use mathlib.Core.Bool.{Bool, true, false, ◌&&◌, ◌||◌}
use mathlib.Core.Option
use mathlib.Core.Option.{Option, none, some}
use mathlib.Core.List.{List, [], ◌∷◌, ◌++◌, flat_map}
use devops_agent_msk_mcp.Base.Tests.{ltb, leb, ◌==◌, if◌then◌else◌}

abbrev pub Text : Type 0
Text = List ℕ

-- The code points of a literal.
unfoldable pub codes : String → Text
codes String.[] = []
codes (String.◌∷◌ c s) = code c ∷ codes s

-- Python's tables for the code points from 128 on, and its UTF-8 decoder.
pub record Unicode : Type 0 where
  pub lower_of : ℕ → Text
  pub upper_of : ℕ → Text
  pub is_space_of : ℕ → Bool
  pub is_alnum_of : ℕ → Bool
  pub digit_of : ℕ → Option ℕ
  pub decode : List ℕ → Text

abbrev in_range : ℕ → ℕ → ℕ → Bool
in_range lo hi c = leb lo c && leb c hi

unfoldable pub starts_with : Text → Text → Bool
starts_with s [] = true
starts_with [] (p ∷ ps) = false
starts_with (c ∷ s) (p ∷ ps) = c == p && starts_with s ps

-- `sub in s`
unfoldable pub contains : Text → Text → Bool
unfolding starts_with
contains [] sub = starts_with [] sub
contains (c ∷ s) sub = starts_with (c ∷ s) sub || contains s sub

-- `any(p in haystack for p in patterns)`
unfoldable pub any_in : List Text → Text → Bool
unfolding contains
any_in [] haystack = false
any_in (p ∷ ps) haystack = contains haystack p || any_in ps haystack

-- `s.find(sub)`, `none` for -1.
unfoldable pub find : Text → Text → Option ℕ
unfolding starts_with
find [] sub = if starts_with [] sub then some 0 else none
find (c ∷ s) sub =
    let rest = Option.map suc (find s sub) in if starts_with (c ∷ s) sub then some 0 else rest

-- `s.rfind(c) + 1` for one character: the place behind its last occurrence, 0 if there is none.
unfoldable pub behind_last : Text → ℕ → ℕ
behind_last [] d = 0
behind_last (c ∷ s) d =
    let rest = behind_last s d in if rest == 0 then (if c == d then 1 else 0) else suc rest

-- `s.rsplit(c, 1)` for one character: what stands before and behind its last occurrence.
unfoldable pub rsplit : ℕ → Text → Option (Text × Text)
rsplit c [] = none
rsplit c (d ∷ s) = elim (rsplit c s) [
  | some (before, behind) ↦ some (d ∷ before, behind)
  | none ↦ if d == c then some ([], s) else none
]

module _ (u : Unicode) where
  unfoldable pub lower_char : ℕ → Text
  lower_char c =
      if ltb c 128 then (if in_range b'A' b'Z' c then c + 32 else c) ∷ [] else u.lower_of c

  unfoldable pub upper_char : ℕ → Text
  upper_char c =
      if ltb c 128 then (if in_range b'a' b'z' c then c - 32 else c) ∷ [] else u.upper_of c

  unfoldable pub lower : Text → Text
  unfolding lower_char flat_map
  lower = flat_map lower_char

  unfoldable pub upper : Text → Text
  unfolding upper_char flat_map
  upper = flat_map upper_char

  -- `str.isspace` of one character: tab to carriage return, the four separators, the blank.
  unfoldable pub is_space : ℕ → Bool
  is_space c = if ltb c 128 then in_range 9 13 c || in_range 28 31 c || c == 32 else u.is_space_of c

  unfoldable pub is_alnum : ℕ → Bool
  is_alnum c =
      if ltb c 128
      then in_range b'0' b'9' c || in_range b'A' b'Z' c || in_range b'a' b'z' c
      else u.is_alnum_of c

  -- The value of a decimal digit.
  unfoldable pub digit : ℕ → Option ℕ
  digit c =
      if ltb c 128 then (if in_range b'0' b'9' c then some (c - b'0') else none) else u.digit_of c

  abbrev push_word : Text → List Text → List Text
  push_word [] ws = ws
  push_word (c ∷ w) ws = (c ∷ w) ∷ ws

  -- The first word of `s`, and the words behind it.
  unfoldable pub split_words : Text → Text × List Text
  unfolding is_space
  split_words [] = ([], [])
  split_words (c ∷ s) =
      let (w, ws) = split_words s in if is_space c then ([], push_word w ws) else (c ∷ w, ws)

  -- `s.split()`: the runs of characters that are not spaces.
  unfoldable pub split : Text → List Text
  unfolding split_words
  split s = let (w, ws) = split_words s in push_word w ws

module _ (blank : ℕ → Bool) where
  unfoldable pub strip_left : Text → Text
  strip_left [] = []
  strip_left (c ∷ s) = let rest = strip_left s in if blank c then rest else c ∷ s

  abbrev push_right : ℕ → Text → Text
  push_right c [] = if blank c then [] else c ∷ []
  push_right c (d ∷ s) = c ∷ d ∷ s

  unfoldable pub strip_right : Text → Text
  strip_right [] = []
  strip_right (c ∷ s) = push_right c (strip_right s)

  unfoldable pub strip_by : Text → Text
  unfolding strip_left strip_right
  strip_by s = strip_right (strip_left s)

-- `s.strip()`
unfoldable pub strip : Unicode → Text → Text
unfolding strip_by is_space
strip u = strip_by (is_space u)

-- `s.split(sep)` for a separator of one character: always at least one part.
unfoldable pub split_at : ℕ → Text → Text × List Text
split_at sep [] = ([], [])
split_at sep (c ∷ s) =
    let (p, ps) = split_at sep s in if c == sep then ([], p ∷ ps) else (c ∷ p, ps)

-- `sep.join(parts)`
unfoldable pub join : Text → List Text → Text
join sep [] = []
join sep (p ∷ []) = p
join sep (p ∷ q ∷ ps) = p ++ (sep ++ join sep (q ∷ ps))

-- The order of Python's `str`: by code points, a prefix first.
unfoldable pub text_leb : Text → Text → Bool
text_leb [] t = true
text_leb (c ∷ s) [] = false
text_leb (c ∷ s) (d ∷ t) = ltb c d || (c == d && text_leb s t)
