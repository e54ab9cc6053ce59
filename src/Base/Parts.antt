-- ===== src/Base/Parts.antt =====
-- `[x for x in xs if test(x)]`, and lists that are split by a property of their items.
use mathlib.Core.Path.{◌≡◌, sym, subst}
use mathlib.Core.Logic.{inl, inr}
use mathlib.Core.Bool.{Bool, true, false}
use mathlib.Core.List.{List, [], ◌∷◌, ◌++◌, Perm, perm_middle, append-nil}
use mathlib.Core.List.Perm
use devops_agent_msk_mcp.Base.Tests.{if◌then◌else◌, Bool-cases}
use devops_agent_msk_mcp.Base.Lists.{All}

unfoldable pub keep {ℓ} : {A : Type ℓ} → (A → Bool) → List A → List A
keep test [] = []
keep test (x ∷ xs) = let rest = keep test xs in if test x then x ∷ rest else rest

-- The items of a list with a property; the rest of the list lacks it.
abbrev pub IsPart {ℓ κ} : {A : Type ℓ} → (A → Type κ) → List A → List A → Type (ℓ ⊔ κ)
IsPart {A = A} P part whole =
    All P part × ((rest : List A) × Perm (part ++ rest) whole × All (λ x. ¬ P x) rest)

module _ {ℓ κ} {A : Type ℓ} (P : A → Type κ) where
  pub keep-IsPart :
      (test : A → Bool)
      → ((x : A) → test x ≡ true → P x)
      → ((x : A) → test x ≡ false → ¬ P x)
      → (xs : List A) → IsPart P (keep test xs) xs
  unfolding keep
  keep-IsPart test sound complete [] = (tt, ([], Perm.refl [], tt))
  keep-IsPart test sound complete (x ∷ xs) =
      let (kept, (rest, split, dropped)) = keep-IsPart test sound complete xs in
      elim (Bool-cases (test x)) [
        | inl e ↦ rw e ((sound x e, kept), (rest, Perm.cons x split, dropped))
        | inr e ↦ rw e (
          kept,
          (
            x ∷ rest,
            Perm.trans (perm_middle (keep test xs) rest) (Perm.cons x split),
            (complete x e, dropped),
          ),
        )
      ]

  pub whole-IsPart : (xs : List A) → All P xs → IsPart P xs xs
  whole-IsPart xs h = (h, ([], subst (λ l. Perm l xs) (sym (append-nil xs)) (Perm.refl xs), tt))
