-- ===== src/Tools/GroupList/Laws.antt =====
-- The counts that the summary shows.
use devops_agent_msk_mcp.Base.{
  ℕ, ◌+◌, Text, List, [], ◌∷◌, length, Eq, text_eq, ◌==◌, if◌then◌else◌, ◌≡◌, arith,
}
use devops_agent_msk_mcp.Base.Dict
use devops_agent_msk_mcp.Base.Dict.{Dict, lookup-insert}
use devops_agent_msk_mcp.Tools.Topics.{bump, or_zero}
use devops_agent_msk_mcp.Tools.GroupList.{Entry, state_key, count_states}

unfoldable pub sum_values {ℓ} : {K : Type ℓ} → Dict K ℕ → ℕ
sum_values [] = 0
sum_values ((k, n) ∷ d) = n + sum_values d

module _ {ℓ} {K : Type ℓ} ⦃e : Eq K⦄ where
  sum_values-insert :
      (k : K) (n : ℕ) (d : Dict K ℕ)
      → sum_values (Dict.insert k n d) + or_zero (Dict.lookup k d) ≡ n + sum_values d
  unfolding sum_values Dict.insert Dict.lookup
  sum_values-insert k n [] = omega arith
  sum_values-insert k n ((j, m) ∷ d) = ground (arith, sum_values-insert k n d)

  sum_values-bump : (k : K) (d : Dict K ℕ) → sum_values (bump k d) ≡ sum_values d + 1
  unfolding bump
  sum_values-bump k d =
      let all = sum_values-insert k (or_zero (Dict.lookup k d) + 1) d in omega arith

sum_values-count_states :
    (groups : List Entry) (d : Dict Text ℕ)
    → sum_values (count_states groups d) ≡ sum_values d + length groups
unfolding count_states
sum_values-count_states [] d = omega arith
sum_values-count_states (g ∷ groups) d =
    let rest = sum_values-count_states groups (bump (state_key g.group_state) d) in
    let one = sum_values-bump (state_key g.group_state) d in omega arith

-- How many of the groups are shown under a state.
unfoldable pub shown_as : Text → List Entry → ℕ
shown_as s [] = 0
shown_as s (g ∷ groups) = (if s == state_key g.group_state then 1 else 0) + shown_as s groups

lookup-bump :
    (s k : Text) (d : Dict Text ℕ)
    → or_zero (Dict.lookup s (bump k d)) ≡ or_zero (Dict.lookup s d) + (if s == k then 1 else 0)
unfolding bump
lookup-bump s k d =
    ground (arith, lookup-insert s k (or_zero (Dict.lookup k d) + 1) d, text_eq.beq_iff s k)

lookup-count_from :
    (s : Text) (groups : List Entry) (d : Dict Text ℕ)
    → or_zero (Dict.lookup s (count_states groups d))
      ≡ or_zero (Dict.lookup s d) + shown_as s groups
unfolding count_states shown_as
lookup-count_from s [] d = omega arith
lookup-count_from s (g ∷ groups) d =
    let rest = lookup-count_from s groups (bump (state_key g.group_state) d) in
    let one = lookup-bump s (state_key g.group_state) d in omega arith

-- The counts of the summary add up to the number of groups, and the count of each state is the number
-- of groups in it; a group without a state counts as UNKNOWN, a state without an entry as 0.
pub count_states_lem :
    (groups : List Entry)
    → (sum_values (count_states groups []) ≡ length groups)
      × ((s : Text) → or_zero (Dict.lookup s (count_states groups [])) ≡ shown_as s groups)
unfolding sum_values Dict.lookup
count_states_lem groups =
    let all = sum_values-count_states groups [] in
    (omega arith, λ s. let one = lookup-count_from s groups [] in omega arith)
