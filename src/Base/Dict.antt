-- ===== src/Base/Dict.antt =====
-- Python's `dict` as the list of its items, in the order in which the keys were first set.
use mathlib.Core.Path.{◌≡◌, refl}
use mathlib.Core.Logic.{◌≢◌, inl, inr}
use mathlib.Core.Bool.{true}
use mathlib.Core.Option.{Option, none, some}
use mathlib.Core.List.{List, [], ◌∷◌}
use native.Mathlib.Omega.{arith}
use devops_agent_msk_mcp.Base.Tests.{if◌then◌else◌, Bool-cases}
use devops_agent_msk_mcp.Base.Equality.{Eq, ◌==◌, elem}

abbrev pub Dict {ℓ κ} : Type ℓ → Type κ → Type (ℓ ⊔ κ)
Dict K V = List (K × V)

unfoldable pub keys {ℓ κ} : {K : Type ℓ} {V : Type κ} → Dict K V → List K
keys [] = []
keys ((k, v) ∷ d) = k ∷ keys d

module _ {ℓ κ} {K : Type ℓ} {V : Type κ} ⦃e : Eq K⦄ where
  -- `d.get(k)`; `none` is a missing key.
  unfoldable pub lookup : K → Dict K V → Option V
  lookup k [] = none
  lookup k ((j, v) ∷ d) = if k == j then some v else lookup k d

  -- `d[k] = v`
  unfoldable pub insert : K → V → Dict K V → Dict K V
  insert k v [] = (k, v) ∷ []
  insert k v ((j, w) ∷ d) = if k == j then (j, v) ∷ d else (j, w) ∷ insert k v d

  pub lookup-insert :
      (j k : K) (v : V) (d : Dict K V)
      → lookup j (insert k v d) ≡ (if j == k then some v else lookup j d)
  unfolding lookup insert
  lookup-insert j k v [] = refl
  lookup-insert j k v ((i, w) ∷ d) =
      ground (arith, e.beq_iff j k, e.beq_iff k i, e.beq_iff j i, lookup-insert j k v d)

  pub elem-keys : (k : K) (d : Dict K V) → elem k (keys d) ≡ true → (v : V) × (lookup k d ≡ some v)
  unfolding lookup keys elem
  elem-keys k [] h = absurd (ground arith)
  elem-keys k ((j, w) ∷ d) h = elim (Bool-cases (k == j)) [
    | inl p ↦ (w, ground arith)
    | inr p ↦ let (v, found) = elem-keys k d (ground arith) in (v, ground arith)
  ]

  pub lookup-ne-none : (k : K) (d : Dict K V) → lookup k d ≢ none → elem k (keys d) ≡ true
  unfolding lookup keys elem
  lookup-ne-none k [] h = absurd (h refl)
  lookup-ne-none k ((j, w) ∷ d) h = ground (arith, lookup-ne-none k d)
