-- ===== src/Config/Laws.antt =====
-- `ClustersRegistry.get` and `ids`, the bounds of the settings, and the list of allowed hosts.
use devops_agent_msk_mcp.Base.{
  pos, leb_ℤ, Text, Unicode, text_leb, strip, Bool, true, false, List, [], ◌≡◌, ◌≢◌, ◌∙◌, sym, inl,
  inr, Option-cases, All, arith, elem, text_eq, nat_eq,
}
use devops_agent_msk_mcp.Base.Dict
use devops_agent_msk_mcp.Base.Dict.{Dict, elem-keys, lookup-ne-none}
use devops_agent_msk_mcp.Base.Sort.{sort_by-IsSorted, IsSorted, elem-sort_by}
use devops_agent_msk_mcp.Base.Strings.Order.{text_leb-IsTotalOrder}
use devops_agent_msk_mcp.Errors.{ok, err}
use devops_agent_msk_mcp.Config.{
  ClustersRegistry, ClusterConfig, ids, get, unknown_cluster_error, Host, Settings, load_settings,
  Env,
}

-- `ids` lists the registered ids in order, and `get` finds a cluster exactly for those; for any other
-- id it raises `UnknownClusterError` with that list.
pub get-ids :
    (r : ClustersRegistry) (k : Text)
    → IsSorted text_leb (ids r)
      × ((elem k (ids r) ≡ true) → (cfg : ClusterConfig) × (get r k ≡ ok cfg))
      × ((elem k (ids r) ≡ false) → get r k ≡ err (unknown_cluster_error k (ids r)))
unfolding ids get
get-ids r k = (
  sort_by-IsSorted text_leb-IsTotalOrder _,
  λ h.
      let (cfg, found) = elem-keys k r.clusters (sym (elem-sort_by text_leb k _) ∙ h) in
      (cfg, rw found),
  λ h. elim (Option-cases (Dict.lookup k r.clusters)) [
    | inl absent ↦ rw absent
    | inr (cfg, found) ↦
        absurd (clash (sym h ∙ elem-sort_by text_leb k _ ∙ lookup-ne-none k r.clusters (λ e. cc)))
  ],
)
  where
    clash : ◌≡◌ {A = Bool} false true → ⊥
    clash e = cc

module _ (h : Host) where
  -- Within the bounds that the rest of the server relies on.
  abbrev pub IsPositive : Settings h → Type 0
  IsPositive s =
      (leb_ℤ (pos 1) s.tool_concurrency ≡ true)
      × (leb_ℤ (pos 1) s.cli_concurrency ≡ true)
      × (h.not_above_zero s.default_timeout_seconds ≡ false)

  -- Settings that load have at least one slot of each kind, and a timeout that is not at or below
  -- zero.
  pub load_settings-IsPositive :
      (u : Unicode) (env : Env) (s : Settings h) → load_settings u h env ≡ ok s → IsPositive s
  unfolding load_settings
  load_settings-IsPositive u env s e = ground arith

-- A host as an operator writes it: not empty, without a comma, and without blanks round it.
abbrev pub IsHost : Unicode → Text → Type 0
IsHost u h = (h ≢ []) × All (λ c. c ≢ b',') h × (strip u h ≡ h)
