-- ===== src/Base/Strings/Laws.antt =====
-- `str.split()` finds the words of a text again, whatever blanks stand between them.
use Prim.Native.Nat.{ℕ}
use mathlib.Core.Path.{◌≡◌, refl}
use mathlib.Core.Logic.{◌≢◌}
use mathlib.Core.Bool.{true, false}
use mathlib.Core.Option.{none, some}
use mathlib.Core.List.{List, [], ◌∷◌, ◌++◌, map, append_assoc, append-nil, cons-ne-nil}
use native.Mathlib.Omega.{arith}
use devops_agent_msk_mcp.Base.Lists.{All, All-append}
use devops_agent_msk_mcp.Base.Strings.{
  Text, Unicode, is_space, split_words, push_word, split, behind_last, rsplit,
}

-- Words, each with the gap behind it.
unfoldable pub spread : List (Text × Text) → Text
spread [] = []
spread ((w, g) ∷ ps) = w ++ (g ++ spread ps)

module _ (u : Unicode) where
  -- One or more characters, none of them a blank.
  abbrev pub IsWord : Text → Type 0
  IsWord w = (w ≢ []) × All (λ c. is_space u c ≡ false) w

  -- One or more blanks.
  abbrev pub IsGap : Text → Type 0
  IsGap g = (g ≢ []) × All (λ c. is_space u c ≡ true) g

  split_at_blank :
      (c : ℕ) (s : Text) → is_space u c ≡ true → split_words u (c ∷ s) ≡ ([], split u s)
  unfolding split_words split
  split_at_blank c s h = ground arith

  split-eq : (s : Text) → split u s ≡ push_word u (split_words u s).0 (split_words u s).1
  unfolding split
  split-eq s = refl

  split_words-gap :
      (g s : Text)
      → g ≢ []
      → All (λ c. is_space u c ≡ true) g
      → split_words u (g ++ s) ≡ ([], split u s)
  split_words-gap [] s n h = absurd (n refl)
  split_words-gap (c ∷ []) s n (hc, _) = split_at_blank c s hc
  split_words-gap (c ∷ d ∷ g) s n (hc, h) =
      rw (split_at_blank c (d ∷ (g ++ s)) hc, split-eq)
        (rw (split_words-gap (d ∷ g) s (cons-ne-nil d g) h) refl)

  split_words-word :
      (w s : Text)
      → All (λ c. is_space u c ≡ false) w
      → split_words u (w ++ s) ≡ (w ++ (split_words u s).0, (split_words u s).1)
  unfolding split_words
  split_words-word [] s h = refl
  split_words-word (c ∷ w) s (hc, h) = ground (arith, split_words-word w s h)

  split_step : (w g s : Text) → IsWord w → IsGap g → split u (w ++ (g ++ s)) ≡ w ∷ split u s
  split_step [] g s (n, _) _ = absurd (n refl)
  split_step (c ∷ w) g s (_, hw) (n, hg) =
      rw (split-eq, split_words-word (c ∷ w) (g ++ s) hw, split_words-gap g s n hg) (rw append-nil)

  -- A leading gap does not matter.
  pub split-gap : (g s : Text) → IsGap g → split u (g ++ s) ≡ split u s
  split-gap g s (n, h) = rw (split-eq, split_words-gap g s n h)

  -- The words of a spread text, and then those of what follows it.
  pub split-spread :
      (ps : List (Text × Text)) (s : Text)
      → All (λ p. IsWord p.0 × IsGap p.1) ps
      → split u (spread ps ++ s) ≡ map (λ p. p.0) ps ++ split u s
  unfolding spread
  split-spread [] s h = refl
  split-spread ((w, g) ∷ ps) s ((hw, hg), h) =
      rw (append_assoc, append_assoc, split_step w g (spread ps ++ s) hw hg, split-spread ps s h)

  split_words_alone : (w : Text) → All (λ c. is_space u c ≡ false) w → split_words u w ≡ (w, [])
  unfolding split_words
  split_words_alone [] h = refl
  split_words_alone (c ∷ w) (hc, h) = ground (arith, split_words_alone w h)

  -- A single word.
  pub split-word : (w : Text) → IsWord w → split u w ≡ w ∷ []
  split-word [] (n, _) = absurd (n refl)
  split-word (c ∷ w) (_, h) = rw (split-eq, split_words_alone (c ∷ w) h)

-- The place behind the last newline of a text that goes on without one.
pub behind_last-append :
    (s t : Text) (d : ℕ) → All (λ c. c ≢ d) t → behind_last (s ++ t) d ≡ behind_last s d
unfolding behind_last
behind_last-append [] [] d h = refl
behind_last-append [] (c ∷ t) d (hc, h) = ground (arith, behind_last-append [] t d h)
behind_last-append (c ∷ s) t d h = rw (behind_last-append s t d h)

pub spread-Lacks :
    (ps : List (Text × Text)) (d : ℕ)
    → All (λ p. All (λ c. c ≢ d) p.0 × All (λ c. c ≢ d) p.1) ps
    → All (λ c. c ≢ d) (spread ps)
unfolding spread
spread-Lacks [] d h = tt
spread-Lacks ((w, g) ∷ ps) d ((hw, hg), h) =
    All-append _ w _ hw (All-append _ g _ hg (spread-Lacks ps d h))

rsplit-none : (c : ℕ) (s : Text) → All (λ d. d ≢ c) s → rsplit c s ≡ none
unfolding rsplit
rsplit-none c [] h = refl
rsplit-none c (d ∷ s) (hd, h) = ground (arith, rsplit-none c s h)

-- The last occurrence of the character is where the two parts were joined, if the second lacks it.
pub rsplit-append :
    (c : ℕ) (before behind : Text)
    → All (λ d. d ≢ c) behind
    → rsplit c (before ++ (c ∷ behind)) ≡ some (before, behind)
unfolding rsplit
rsplit-append c [] behind h = ground (arith, rsplit-none c behind h)
rsplit-append c (d ∷ before) behind h = rw (rsplit-append c before behind h, rsplit) refl
