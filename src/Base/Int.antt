-- ===== src/Base/Int.antt =====
-- Signed integers over the native numbers, under the library's names; `int` and `str` of Python.
pub mod Laws
use mathlib.Core.Option
use devops_agent_msk_mcp.Base.Strings.{Text, Unicode, digit, strip_by}
use Prim.Native.Nat.{ℕ, zero, suc, ◌+◌, ◌-◌, ◌*◌, ◌/◌, ◌%◌, ◌≤◌}
use mathlib.Core.Path.{◌≡◌}
use mathlib.Core.Bool.{Bool, true, false, ◌&&◌, ◌||◌}
use mathlib.Core.Option.{Option, none, some}
use mathlib.Core.List.{[], ◌∷◌}
use native.Mathlib.Omega.{arith}
use devops_agent_msk_mcp.Base.Tests.{ltb, leb, ◌==◌, if◌then◌else◌}

-- `negsuc n` is -(n + 1).
pub data ℤ : Type 0 where
  pos : ℕ → ℤ
  negsuc : ℕ → ℤ

abbrev pub pos_part : ℤ → ℕ
pos_part (pos n) = n
pos_part (negsuc n) = 0

abbrev pub neg_part : ℤ → ℕ
neg_part (pos n) = 0
neg_part (negsuc n) = suc n

-- a - b, as an integer.
abbrev pub sub_ℕ : ℕ → ℕ → ℤ
sub_ℕ a b = if leb b a then pos (a - b) else negsuc (b - a - 1)

infixl 65 ◌+ℤ◌ ◌-ℤ◌
infix 50 ◌≤ℤ◌
unfoldable pub ◌+ℤ◌ : ℤ → ℤ → ℤ
a +ℤ b = sub_ℕ (pos_part a + pos_part b) (neg_part a + neg_part b)

unfoldable pub ◌-ℤ◌ : ℤ → ℤ → ℤ
a -ℤ b = sub_ℕ (pos_part a + neg_part b) (neg_part a + pos_part b)

abbrev pub ◌≤ℤ◌ : ℤ → ℤ → Type 0
a ≤ℤ b = pos_part a + neg_part b ≤ pos_part b + neg_part a

abbrev pub leb_ℤ : ℤ → ℤ → Bool
leb_ℤ a b = leb (pos_part a + neg_part b) (pos_part b + neg_part a)

abbrev pub eqb_ℤ : ℤ → ℤ → Bool
eqb_ℤ (pos m) (pos n) = m == n
eqb_ℤ (negsuc m) (negsuc n) = m == n
eqb_ℤ _ _ = false

-- What `a - b` is, told by `a ≡ (a - b) + b`.
pub -ℤ_cancel : (a b : ℤ) → a -ℤ b +ℤ b ≡ a
unfolding ◌+ℤ◌ ◌-ℤ◌
-ℤ_cancel a b = ground arith

unfoldable pub negate : ℕ → ℤ
negate zero = pos 0
negate (suc n) = negsuc n

unfoldable digit_count : Text → ℕ
digit_count [] = 0
digit_count (c ∷ s) = if c == b'_' then digit_count s else suc (digit_count s)

-- `int(s)`: blanks round it, a sign, digits with single underscores between them, and by Python's
-- default limit at most 4300 digits. `none` is a `ValueError`.
module _ (u : Unicode) where
  unfoldable is_int_space : ℕ → Bool
  is_int_space c = if ltb c 128 then (leb 9 c && leb c 13) || c == 32 else u.is_space_of c

  unfoldable pub read_digits : Text → Bool → ℕ → Option ℕ
  unfolding digit
  read_digits [] after n = if after then some n else none
  read_digits (c ∷ s) after n = elim (c == b'_') [
    | true ↦ elim after [ true ↦ read_digits s false n | false ↦ none ]
    | false ↦ elim (digit u c) [ none ↦ none | some d ↦ read_digits s true (n * 10 + d) ]
  ]

  unfoldable pub read_ℕ : Text → Option ℕ
  unfolding read_digits digit_count
  read_ℕ s = if leb (digit_count s) 4300 then read_digits s false 0 else none

  unfoldable pub read_signed : Text → Option ℤ
  unfolding read_ℕ negate
  read_signed [] = none
  read_signed (c ∷ s) =
      if c == b'-'
      then Option.map negate (read_ℕ s)
      else if c == b'+'
      then Option.map pos (read_ℕ s)
      else Option.map pos (read_ℕ (c ∷ s))

  unfoldable pub int : Text → Option ℤ
  unfolding read_signed strip_by is_int_space
  int s = read_signed (strip_by is_int_space s)

-- The decimal digits of `n`, in front of `out`; `n` rounds are enough.
unfoldable pub show_digits : ℕ → ℕ → Text → Text
show_digits zero n out = out
show_digits (suc fuel) n out =
    let rest = show_digits fuel (n / 10) ((b'0' + n % 10) ∷ out) in if n == 0 then out else rest

-- `str(n)`
unfoldable pub show_ℕ : ℕ → Text
unfolding show_digits
show_ℕ n = if n == 0 then b'0' ∷ [] else show_digits n n []

unfoldable pub show_ℤ : ℤ → Text
unfolding show_ℕ
show_ℤ (pos n) = show_ℕ n
show_ℤ (negsuc n) = b'-' ∷ show_ℕ (suc n)
