-- ===== src/Tools/Topics/Sets.antt =====
-- Python's sets as lists without repetition, and the pigeonhole principle for them.
use devops_agent_msk_mcp.Base.{
  ◌+◌, ◌≤◌, Bool, true, false, not, ◌&&◌, List, [], ◌∷◌, ◌≡◌, refl, length, All, Eq, elem, ◌==◌,
  if◌then◌else◌, arith, ◌∙◌,
}

module _ {ℓ} {A : Type ℓ} ⦃e : Eq A⦄ where
  -- `set(xs)`
  unfoldable pub set_of : List A → List A
  unfolding elem
  set_of [] = []
  set_of (x ∷ xs) = let rest = set_of xs in if elem x rest then rest else x ∷ rest

  -- `xs - ys`
  unfoldable pub difference : List A → List A → List A
  unfolding elem
  difference [] ys = []
  difference (x ∷ xs) ys = let rest = difference xs ys in if elem x ys then rest else x ∷ rest

  -- No item occurs twice.
  unfoldable pub distinct : List A → Bool
  unfolding elem
  distinct [] = true
  distinct (x ∷ xs) = not (elem x xs) && distinct xs

  unfoldable remove : A → List A → List A
  remove x [] = []
  remove x (y ∷ ys) = let rest = remove x ys in if x == y then ys else y ∷ rest

  elem_same : (a b : A) (ys : List A) → (a == b) ≡ true → elem a ys ≡ elem b ys
  elem_same a b ys h = rw ((e.beq_iff a b).0 h) refl

  pub elem-set_of : (a : A) (xs : List A) → elem a (set_of xs) ≡ elem a xs
  unfolding set_of elem
  elem-set_of a [] = refl
  elem-set_of a (x ∷ xs) = ground (arith, elem-set_of a xs, elem_same a x (set_of xs))

  pub elem-difference :
      (a : A) (xs ys : List A) → elem a (difference xs ys) ≡ (elem a xs && not (elem a ys))
  unfolding difference elem
  elem-difference a [] ys = refl
  elem-difference a (x ∷ xs) ys = ground (arith, elem-difference a xs ys, elem_same a x ys)

  abbrev pub AllIn : List A → List A → Type 0
  AllIn xs ys = All (λ x. elem x ys ≡ true) xs

  length-remove : (x : A) (ys : List A) → elem x ys ≡ true → length (remove x ys) + 1 ≡ length ys
  unfolding remove elem
  length-remove x [] h = cc
  length-remove x (y ∷ ys) h = ground (arith, length-remove x ys)

  elem-remove : (a x : A) (ys : List A) → (a == x) ≡ false → elem a (remove x ys) ≡ elem a ys
  unfolding remove elem
  elem-remove a x [] h = refl
  elem-remove a x (y ∷ ys) h =
      ground (arith, elem-remove a x ys h, e.beq_iff x y, e.beq_iff a y, e.beq_iff a x)

  AllIn-remove : (x : A) (xs ys : List A) → elem x xs ≡ false → AllIn xs ys → AllIn xs (remove x ys)
  unfolding elem
  AllIn-remove x [] ys h k = tt
  AllIn-remove x (a ∷ xs) ys h (k, ks) = (
    elem-remove a x ys (ground (arith, e.beq_iff a x, e.beq_iff x a)) ∙ k,
    AllIn-remove x xs ys (ground arith) ks,
  )

  -- A list without repetition of items of another is no longer than it.
  pub pigeonhole : (xs ys : List A) → distinct xs ≡ true → AllIn xs ys → length xs ≤ length ys
  unfolding distinct
  pigeonhole [] ys d h = ground arith
  pigeonhole (x ∷ xs) ys d (k, h) = ground (
    arith,
    length-remove x ys k,
    pigeonhole xs (remove x ys) (ground arith) (AllIn-remove x xs ys (ground arith) h),
  )
