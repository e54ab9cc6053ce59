-- ===== src/Base/Keys.antt =====
-- Sort keys: a text and an integer, compared in this order, and keys that are read off the items.
use mathlib.Core.Path.{◌≡◌, refl, ap}
use mathlib.Core.Logic.{inl, inr}
use mathlib.Core.List.{List, [], ◌∷◌, map}
use mathlib.Core.Bool.{Bool, true, false}
use native.Mathlib.Omega.{arith}
use devops_agent_msk_mcp.Base.Tests.{if◌then◌else◌, Bool-cases}
use devops_agent_msk_mcp.Base.Equality.{◌==◌, nat_eq, text_eq, list_beq_iff}
use devops_agent_msk_mcp.Base.Int.{ℤ, leb_ℤ}
use devops_agent_msk_mcp.Base.Strings.{Text, text_leb}
use devops_agent_msk_mcp.Base.Strings.Order.{text_leb_total, text_leb_trans, text_leb_antisymm}
use devops_agent_msk_mcp.Base.Sort.{IsTotalOrder, sort_by, insert_sorted}

unfoldable pub key_leb : Text × ℤ → Text × ℤ → Bool
key_leb (s, m) (t, n) = if s == t then leb_ℤ m n else text_leb s t

key_leb_total : (p q : Text × ℤ) → key_leb p q ≡ false → key_leb q p ≡ true
unfolding key_leb
key_leb_total (s, m) (t, n) h =
    ground (arith, list_beq_iff s t, list_beq_iff t s, text_leb_total s t)

key_leb_trans : (p q r : Text × ℤ) → key_leb p q ≡ true → key_leb q r ≡ true → key_leb p r ≡ true
unfolding key_leb
key_leb_trans (s, k) (t, m) (v, n) g h = ground (
  arith,
  list_beq_iff s t,
  list_beq_iff t v,
  list_beq_iff s v,
  text_leb_trans s t v,
  text_leb_antisymm s t,
)

-- Any two keys are comparable, and the comparison is transitive.
pub key_leb-IsTotalOrder : IsTotalOrder key_leb
key_leb-IsTotalOrder = record { total = key_leb_total; trans = key_leb_trans }

pub leb_ℤ-IsTotalOrder : IsTotalOrder leb_ℤ
unfolding leb_ℤ
leb_ℤ-IsTotalOrder = record { total = λ m n h. ground arith; trans = λ k m n g h. ground arith }

-- `key=f`
abbrev pub on {ℓ κ} : {A : Type ℓ} {K : Type κ} → (A → K) → (K → K → Bool) → A → A → Bool
on f le x y = le (f x) (f y)

pub on-IsTotalOrder {ℓ κ} :
    {A : Type ℓ} {K : Type κ} (f : A → K) (le : K → K → Bool)
    → IsTotalOrder le
    → IsTotalOrder (on f le)
on-IsTotalOrder f le h = record {
  total = λ x y. h.total (f x) (f y);
  trans = λ x y z. h.trans (f x) (f y) (f z);
}

module _ {ℓ κ μ} {A : Type ℓ} {B : Type κ} {K : Type μ} (f : A → B) (g : B → K)
    (le : K → K → Bool) where
  insert_sorted-map :
      (x : A) (xs : List A)
      → insert_sorted (on g le) (f x) (map f xs) ≡ map f (insert_sorted (on (λ a. g (f a)) le) x xs)
  unfolding insert_sorted
  insert_sorted-map x [] = refl
  insert_sorted-map x (y ∷ ys) = elim (Bool-cases (le (g (f x)) (g (f y)))) [
    | inl e ↦ rw e refl
    | inr e ↦ rw e (ap (λ l. f y ∷ l) (insert_sorted-map x ys))
  ]

  -- Sorting by a key that the items keep.
  pub sort_by-map :
      (xs : List A) → sort_by (on g le) (map f xs) ≡ map f (sort_by (on (λ a. g (f a)) le) xs)
  unfolding sort_by
  sort_by-map [] = refl
  sort_by-map (x ∷ xs) =
      rw (sort_by-map xs) (insert_sorted-map x (sort_by (on (λ a. g (f a)) le) xs))
