-- ===== src/Tools/ResetPlan/Argv/Laws.antt =====
-- The two command lines of a request, and which strategies pass.
use devops_agent_msk_mcp.Base.{
  ℤ, Text, codes, Bool, true, false, ◌&&◌, ◌||◌, List, [], ◌∷◌, ◌++◌, Option, none, some, ◌≡◌, ◌≢◌,
  ◌↔◌, ◌⊎◌, sym, refl, inl, inr, Bool-cases, arith, elem, text_eq, nat_eq, list_beq, list_beq_iff,
  ◌==◌,
}
use mathlib.Core.Path.{subst}
use mathlib.Core.List.{append_assoc}
use devops_agent_msk_mcp.Errors.{ok, err, tool_error, invalid_params, plain_error}
use devops_agent_msk_mcp.Tools.ResetPlan.Argv.{
  Request, valid_strategies, validate_strategy, is_missing, missing_value, unknown_strategy,
  strategy_args, build_argv, show_value,
}

-- All arguments but the last: the tool, the connection, the group, the topic and the strategy.
unfoldable pub common_args : Request → List Text
common_args r =
    ((r.kafka_bin_path ++ codes "/kafka-consumer-groups.sh")
      ∷ codes "--bootstrap-server"
      ∷ r.bootstrap_servers
      ∷ codes "--command-config"
      ∷ r.client_properties_path
      ∷ codes "--group"
      ∷ r.group_id
      ∷ codes "--topic"
      ∷ r.topic_name
      ∷ codes "--reset-offsets"
      ∷ [])
    ++ strategy_args r.reset_strategy r.offset_value

-- The dry run and the command for the human share every argument but the last.
pub build_argv-common_args :
    (r : Request)
    → (build_argv r false ≡ common_args r ++ (codes "--dry-run" ∷ []))
      × (build_argv r true ≡ common_args r ++ (codes "--execute" ∷ []))
unfolding build_argv common_args
build_argv-common_args r = (rw append_assoc, rw append_assoc)

-- A strategy that needs a value.
abbrev pub needs_value : Text → Bool
needs_value s = s == codes "to-offset" || s == codes "shift-by"

-- A request passes exactly when its strategy is one of the four, and it has a value if the strategy
-- needs one.
pub validate_strategy-ok :
    (repr : Text → Text) (s : Text) (v : Option ℤ)
    → (validate_strategy repr s v ≡ ok tt)
      ↔ ((elem s valid_strategies ≡ true) × ((needs_value s ≡ true) → v ≢ none))
unfolding validate_strategy
validate_strategy-ok repr s none = ground arith
validate_strategy-ok repr s (some z) = ground arith

pub four_strategies :
    (s : Text)
    → elem s valid_strategies ≡ true
    → (s ≡ codes "to-latest")
      ⊎ (s ≡ codes "to-earliest")
      ⊎ (s ≡ codes "to-offset")
      ⊎ (s ≡ codes "shift-by")
unfolding valid_strategies elem
four_strategies s h = ground (
  arith,
  list_beq_iff s (codes "to-latest"),
  list_beq_iff s (codes "to-earliest"),
  list_beq_iff s (codes "to-offset"),
  list_beq_iff s (codes "shift-by"),
)

abbrev HasFlag : Option ℤ → Text → Type 0
HasFlag v s = (rest : List Text) × (strategy_args s v ≡ (codes "--" ++ s) ∷ rest)

-- Each accepted strategy puts the option of its own name on the command line.
pub strategy_args-flag :
    (s : Text) (v : Option ℤ)
    → elem s valid_strategies ≡ true
    → (rest : List Text) × (strategy_args s v ≡ (codes "--" ++ s) ∷ rest)
unfolding strategy_args codes list_beq
strategy_args-flag s v h = elim (four_strategies s h) [
  | inl e ↦ subst (HasFlag v) (sym e) ([], refl)
  | inr (inl e) ↦ subst (HasFlag v) (sym e) ([], refl)
  | inr (inr (inl e)) ↦ subst (HasFlag v) (sym e) (show_value v ∷ [], refl)
  | inr (inr (inr e)) ↦ subst (HasFlag v) (sym e) (show_value v ∷ [], refl)
]

-- What a rejected request raises is an INVALID_PARAMS error.
pub validate_strategy-err :
    (repr : Text → Text) (s : Text) (v : Option ℤ)
    → validate_strategy repr s v ≢ ok tt
    → (message : Text) × (validate_strategy repr s v
        ≡ err (tool_error (plain_error invalid_params message)))
unfolding validate_strategy
validate_strategy-err repr s v h = elim (Bool-cases (elem s valid_strategies)) [
  | inl a ↦ elim (Bool-cases (needs_value s && is_missing v)) [
    | inl b ↦ (missing_value s, rw (a, b) refl)
    | inr b ↦ absurd (h (rw (a, b)))
  ]
  | inr a ↦ (unknown_strategy repr s, rw a refl)
]
