-- ===== src/Bouncer/Progress.antt =====
-- Who holds a slot, while one is held.
use devops_agent_msk_mcp.Base.{
  ℕ, zero, suc, ◌+◌, ◌≤◌, List, [], ◌∷◌, some, get_elem?, ◌≡◌, ◌⊎◌, inl, inr, refl, arith,
}
use devops_agent_msk_mcp.Bouncer.{Phase}
use devops_agent_msk_mcp.Bouncer.Laws.{total}

pub holder :
    (f : Phase → ℕ) (ps : List Phase)
    → 1 ≤ total f ps
    → (i : ℕ) × (p : Phase) × (get_elem? ps i ≡ some p) × (1 ≤ f p)
unfolding total
holder f [] h = absurd (omega arith)
holder f (p ∷ ps) h = elim (split_on (f p)) [
  | inl none_held ↦ let (i, q, at, held) = holder f ps (omega arith) in (suc i, q, at, held)
  | inr held ↦ (zero, p, refl, held)
]
  where
    split_on : (n : ℕ) → (n ≡ 0) ⊎ (1 ≤ n)
    split_on zero = inl refl
    split_on (suc n) = inr (omega arith)

pub predecessor : (n : ℕ) → (n ≡ 0) ⊎ ((m : ℕ) × (n ≡ m + 1))
predecessor zero = inl refl
predecessor (suc n) = inr (n, omega arith)
