-- ===== src/Base/Int/Laws.antt =====
-- `int` reads back what `str` prints.
use Prim.Native.Nat.{ℕ, zero, suc, ◌+◌, ◌*◌, ◌/◌, ◌%◌, ◌^◌, ◌≤◌, ◌<◌}
use mathlib.Core.Path.{◌≡◌, refl}
use mathlib.Core.Bool.{Bool, true, false}
use mathlib.Core.Logic.{◌≢◌, inl, inr}
use mathlib.Core.Option.{some}
use mathlib.Core.List.{cons-ne-nil, [], ◌∷◌}
use native.Mathlib.Omega.{arith}
use native.Mathlib.Nat.{pow-suc}
use devops_agent_msk_mcp.Base.Tests.{◌==◌, Bool-cases, le→leb}
use devops_agent_msk_mcp.Base.Lists.{All}
use devops_agent_msk_mcp.Base.Strings.{is_space, Text, Unicode, strip_left, strip_right, strip_by}
use devops_agent_msk_mcp.Base.Strings.Laws.{IsWord}
use devops_agent_msk_mcp.Base.Int.{
  ℤ, pos, negsuc, negate, is_int_space, read_digits, digit_count, read_ℕ, read_signed, int,
  show_digits, show_ℕ, show_ℤ, neg_part, pos_part,
}

abbrev pub IsDigit : ℕ → Type 0
IsDigit c = (b'0' ≤ c) × (c ≤ b'9')

module _ (blank : ℕ → Bool) where
  strip_left-eq_self : (s : Text) → All (λ c. blank c ≡ false) s → strip_left blank s ≡ s
  unfolding strip_left
  strip_left-eq_self [] h = refl
  strip_left-eq_self (c ∷ s) (hc, h) = ground arith

  strip_right-eq_self : (s : Text) → All (λ c. blank c ≡ false) s → strip_right blank s ≡ s
  unfolding strip_right
  strip_right-eq_self [] h = refl
  strip_right-eq_self (c ∷ []) (hc, h) = ground arith
  strip_right-eq_self (c ∷ d ∷ s) (hc, h) = rw (strip_right-eq_self (d ∷ s) h)

  pub strip_by-eq_self : (s : Text) → All (λ c. blank c ≡ false) s → strip_by blank s ≡ s
  unfolding strip_by
  strip_by-eq_self s h = rw (strip_left-eq_self s h) (strip_right-eq_self s h)

-- With no number left there is nothing to print.
show_digits-zero : (fuel : ℕ) (out : Text) → show_digits fuel 0 out ≡ out
unfolding show_digits
show_digits-zero zero out = refl
show_digits-zero (suc fuel) out = refl

All-show_digits : (fuel n : ℕ) (out : Text) → All IsDigit out → All IsDigit (show_digits fuel n out)
unfolding show_digits
All-show_digits zero n out h = h
All-show_digits (suc fuel) n out h =
    let next =
      All-show_digits fuel (n / 10) ((b'0' + n % 10) ∷ out) ((omega arith, omega arith), h) in
    ground (arith, next)

-- Every character that `str` prints for a natural number is a digit.
pub show_ℕ-IsDigit : (n : ℕ) → All IsDigit (show_ℕ n)
unfolding show_ℕ
show_ℕ-IsDigit n = elim (Bool-cases (n == 0)) [
  | inl h ↦ rw h ((omega arith, omega arith), tt)
  | inr h ↦ rw h (All-show_digits n n [] tt)
]

digit_count-show_digits :
    (fuel k n : ℕ) (out : Text)
    → n < 10 ^ k
    → digit_count (show_digits fuel n out) ≤ k + digit_count out
unfolding show_digits digit_count
digit_count-show_digits zero k n out h = omega arith
digit_count-show_digits (suc fuel) zero n out h = ground arith
digit_count-show_digits (suc fuel) (suc k) n out h =
    ground (arith, pow-suc 10 k, digit_count-show_digits fuel k (n / 10) ((b'0' + n % 10) ∷ out))

show_digits-ne-nil : (fuel n : ℕ) (out : Text) → out ≢ [] → show_digits fuel n out ≢ []
unfolding show_digits
show_digits-ne-nil zero n out h = h
show_digits-ne-nil (suc fuel) n out h =
    ground (arith, show_digits-ne-nil fuel (n / 10) ((b'0' + n % 10) ∷ out) (cons-ne-nil _ _))

show_ℕ-ne-nil : (n : ℕ) → show_ℕ n ≢ []
unfolding show_ℕ show_digits
show_ℕ-ne-nil zero = cons-ne-nil _ _
show_ℕ-ne-nil (suc n) =
    ground (arith, show_digits-ne-nil n (suc n / 10) ((b'0' + suc n % 10) ∷ []) (cons-ne-nil _ _))

module _ (u : Unicode) where
  few_digits : (s : Text) → digit_count s ≤ 4300 + digit_count [] → digit_count s ≤ 4300
  unfolding digit_count
  few_digits s h = omega arith

  read_digit :
      (d : ℕ) (s : Text) (after : Bool) (n : ℕ)
      → d < 10
      → read_digits u ((b'0' + d) ∷ s) after n ≡ read_digits u s true (n * 10 + d)
  unfolding read_digits
  read_digit d s after n h = ground arith

  -- Reading the digits of `n`, and then `out`, is reading `out` with `n` in hand.
  read_digits-show_digits :
      (fuel n : ℕ) (out : Text) (after : Bool)
      → n ≤ fuel
      → 0 < n
      → read_digits u (show_digits fuel n out) after 0 ≡ read_digits u out true n
  unfolding show_digits
  read_digits-show_digits zero n out after h p = absurd (omega arith)
  read_digits-show_digits (suc fuel) n out after h p = ground (
    arith,
    show_digits-zero fuel ((b'0' + n % 10) ∷ out),
    read_digits-show_digits fuel (n / 10) ((b'0' + n % 10) ∷ out) after,
    read_digit (n % 10) out after 0,
    read_digit (n % 10) out true (n / 10),
  )

  is_int_space-digit : (c : ℕ) → IsDigit c → is_int_space u c ≡ false
  unfolding is_int_space
  is_int_space-digit c h = ground arith

  read_ℕ-show_digits : (n : ℕ) → 0 < n → n < 10 ^ 4300 → read_ℕ u (show_digits n n []) ≡ some n
  unfolding read_ℕ
  read_ℕ-show_digits n p h =
      let few = digit_count-show_digits n 4300 n [] h in
      let read = read_digits-show_digits n n [] false (omega arith) p in
      rw (le→leb _ _ (few_digits (show_digits n n []) few), read) refl

  not_int_space : (s : Text) → All IsDigit s → All (λ c. is_int_space u c ≡ false) s
  not_int_space [] h = tt
  not_int_space (c ∷ s) (hc, h) = (is_int_space-digit c hc, not_int_space s h)

  read_zero : read_ℕ u (b'0' ∷ []) ≡ some 0
  unfolding read_ℕ
  read_zero = refl

  read_ℕ-show_ℕ : (n : ℕ) → n < 10 ^ 4300 → read_ℕ u (show_ℕ n) ≡ some n
  unfolding show_ℕ
  read_ℕ-show_ℕ n h = elim (Bool-cases (n == 0)) [
    | inl z ↦ rw (z, read_zero) (ground arith)
    | inr p ↦ rw p (read_ℕ-show_digits n (ground arith) h)
  ]

  read_nothing : (n : ℕ) → read_ℕ u [] ≢ some n
  unfolding read_ℕ
  read_nothing n e = cc

  minus_not_space : is_int_space u b'-' ≡ false
  unfolding is_int_space
  minus_not_space = refl

  read_unsigned :
      (s : Text) (n : ℕ) → All IsDigit s → read_ℕ u s ≡ some n → read_signed u s ≡ some (pos n)
  unfolding read_signed
  read_unsigned [] n h e = absurd (read_nothing n e)
  read_unsigned (c ∷ s) n (hc, h) e = ground arith

  read_negative :
      (s : Text) (n : ℕ) → read_ℕ u s ≡ some (suc n) → read_signed u (b'-' ∷ s) ≡ some (negsuc n)
  unfolding read_signed negate
  read_negative s n e = rw e

  -- Python's `int(str(z))` is `z`, for every `z` of at most 4300 digits.
  pub int-show_ℤ :
      (z : ℤ) → pos_part z < 10 ^ 4300 → neg_part z < 10 ^ 4300 → int u (show_ℤ z) ≡ some z
  unfolding int show_ℤ
  int-show_ℤ (pos n) h _ =
      rw (strip_by-eq_self (is_int_space u) (show_ℕ n) (not_int_space _ (show_ℕ-IsDigit n)))
        (read_unsigned (show_ℕ n) n (show_ℕ-IsDigit n) (read_ℕ-show_ℕ n h))
  int-show_ℤ (negsuc n) _ h =
      rw
        (strip_by-eq_self (is_int_space u) (b'-' ∷ show_ℕ (suc n))
          (minus_not_space, not_int_space _ (show_ℕ-IsDigit (suc n))))
        (read_negative (show_ℕ (suc n)) n (read_ℕ-show_ℕ (suc n) h))

  is_space-digit : (c : ℕ) → IsDigit c → is_space u c ≡ false
  unfolding is_space
  is_space-digit c h = ground arith

  minus_is_no_space : is_space u b'-' ≡ false
  unfolding is_space
  minus_is_no_space = refl

  digit_not_space : (s : Text) → All IsDigit s → All (λ c. is_space u c ≡ false) s
  digit_not_space [] h = tt
  digit_not_space (c ∷ s) (hc, h) = (is_space-digit c hc, digit_not_space s h)

  -- What `str` prints for an integer is one word.
  pub show_ℤ-IsWord : (z : ℤ) → IsWord u (show_ℤ z)
  unfolding show_ℤ
  show_ℤ-IsWord (pos n) = (show_ℕ-ne-nil n, digit_not_space _ (show_ℕ-IsDigit n))
  show_ℤ-IsWord (negsuc n) =
      (cons-ne-nil _ _, (minus_is_no_space, digit_not_space _ (show_ℕ-IsDigit (suc n))))
