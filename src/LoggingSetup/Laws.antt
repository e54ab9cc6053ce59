-- ===== src/LoggingSetup/Laws.antt =====
-- Which correlation id a request gets, and which one a log line shows.
use devops_agent_msk_mcp.Base.{
  Text, codes, true, List, [], ◌∷◌, ◌++◌, none, some, elem, text_eq, nat_eq, list_beq_iff, ◌==◌,
  ◌≡◌, ◌⊎◌, refl, inl, inr, All, arith, Bool-cases, ap, if◌then◌else◌,
}
use devops_agent_msk_mcp.Base.Dict
use devops_agent_msk_mcp.Base.Dict.{Dict, lookup-insert}
use devops_agent_msk_mcp.Config.{non_empty}
use devops_agent_msk_mcp.LoggingSetup.{
  lower_bytes, header_names, extract_cid, Var, inject_correlation_id,
}

-- A header that carries a correlation id, in any case of letters.
abbrev pub Carries : Text × Text → Type 0
Carries (name, value) = elem (lower_bytes name) header_names ≡ true

-- The id of a request is the value of the first header that carries one, and none only if no header
-- does.
pub extract_cid_lem :
    (headers : List (Text × Text))
    → ((before : List (Text × Text)) × (name : Text) × (value : Text) × (behind : List
          (Text × Text))
        × (headers ≡ before ++ ((name, value) ∷ behind))
        × All (λ p. ¬ Carries p) before
        × Carries (name, value)
        × (extract_cid headers ≡ some value))
      ⊎ (All (λ p. ¬ Carries p) headers × (extract_cid headers ≡ none))
unfolding extract_cid
extract_cid_lem [] = inr (tt, refl)
extract_cid_lem ((name, value) ∷ headers) =
    elim (Bool-cases (elem (lower_bytes name) header_names)) [
      | inl e ↦ inl ([], name, value, headers, refl, tt, e, rw e refl)
      | inr e ↦ elim (extract_cid_lem headers) [
        | inl (before, n, v, behind, split, none_before, carries, found) ↦ inl (
          (name, value) ∷ before,
          n,
          v,
          behind,
          ap (λ l. (name, value) ∷ l) split,
          ((λ c. cc (e, c)), none_before),
          carries,
          rw e found,
        )
        | inr (nowhere, found) ↦ inr (((λ c. cc (e, c)), nowhere), rw e found)
      ]
    ]

-- A log line shows the id that it already has, else that of the variable if that is not empty, and keeps
-- every other field.
pub lookup-inject_correlation_id :
    (var : Var) (event : Dict Text Text) (k : Text)
    → Dict.lookup k (inject_correlation_id var event) ≡ elim (Dict.lookup k event) [
      | some v ↦ some v
      | none ↦ if k == codes "correlation_id" then non_empty var else none
    ]
unfolding inject_correlation_id
lookup-inject_correlation_id none event k = ground arith
lookup-inject_correlation_id (some []) event k = ground arith
lookup-inject_correlation_id (some (c ∷ cid)) event k = ground (
  arith,
  lookup-insert k (codes "correlation_id") (c ∷ cid) event,
  list_beq_iff k (codes "correlation_id"),
)
