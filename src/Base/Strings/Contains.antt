-- ===== src/Base/Strings/Contains.antt =====
-- `sub in s` decides whether `s` is some text, `sub`, and some text.
use mathlib.Core.Path.{◌≡◌, refl, sym, ap, ◌∙◌, subst}
use mathlib.Core.Logic.{◌↔◌, inl, inr}
use mathlib.Core.Bool.{true, false}
use mathlib.Core.List.{[], ◌∷◌, ◌++◌, append_assoc}
use native.Mathlib.Omega.{arith}
use devops_agent_msk_mcp.Base.Tests.{Bool-cases}
use devops_agent_msk_mcp.Base.Strings.{Text, starts_with, contains}

starts_with-append : (p s : Text) → starts_with (p ++ s) p ≡ true
unfolding starts_with
starts_with-append [] s = refl
starts_with-append (c ∷ p) s = ground (arith, starts_with-append p s)

starts_with_split : (s p : Text) → starts_with s p ≡ true → (r : Text) × (s ≡ p ++ r)
unfolding starts_with
starts_with_split s [] h = (s, refl)
starts_with_split [] (d ∷ p) h = cc
starts_with_split (c ∷ s) (d ∷ p) h =
    let (r, e) = starts_with_split s p (ground arith) in (r, ground arith)

contains_at : (a p b : Text) → contains (a ++ (p ++ b)) p ≡ true
unfolding contains
contains_at [] [] [] = refl
contains_at [] [] (d ∷ b) = refl
contains_at [] (c ∷ p) b = ground (arith, starts_with-append (c ∷ p) b)
contains_at (c ∷ a) p b = ground (arith, contains_at a p b)

contains_split : (s p : Text) → contains s p ≡ true → (a : Text) × (b : Text) × (s ≡ a ++ (p ++ b))
contains_split [] p h = let (r, e) = starts_with_split [] p (unfold contains in h) in ([], r, e)
contains_split (c ∷ s) p h = elim (Bool-cases (starts_with (c ∷ s) p)) [
  | inl q ↦ let (r, e) = starts_with_split (c ∷ s) p q in ([], r, e)
  | inr q ↦ let (a, b, e) = contains_split s p (rest q h) in (c ∷ a, b, ap (λ t. c ∷ t) e)
]
  where
    rest : starts_with (c ∷ s) p ≡ false → contains (c ∷ s) p ≡ true → contains s p ≡ true
    rest q h = unfold contains in ground arith

-- `p in s` is the text of `p` somewhere in `s`.
pub contains_iff :
    (s p : Text) → (contains s p ≡ true) ↔ ((a : Text) × (b : Text) × (s ≡ a ++ (p ++ b)))
contains_iff s p =
    (contains_split s p, λ h. subst (λ t. contains t p ≡ true) (sym h.2) (contains_at h.0 p h.1))

-- What is in a part is in the whole.
pub contains_trans :
    (s p q : Text) → contains s p ≡ true → contains p q ≡ true → contains s q ≡ true
contains_trans s p q h k =
    let (a, b, e) = contains_split s p h in
    let (c, d, f) = contains_split p q k in
    (contains_iff s q).1 (
      a ++ c,
      d ++ b,
      e ∙ ap (λ t. a ++ (t ++ b)) f ∙ rw (append_assoc, append_assoc, append_assoc),
    )
