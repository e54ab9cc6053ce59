-- ===== src/Tools/ResetPlan/Argv.antt =====
-- The check of the strategy and the arguments of `kafka-consumer-groups.sh`.
pub mod Laws
use devops_agent_msk_mcp.Base.{
  ℤ, show_ℤ, Text, codes, Bool, true, false, ◌&&◌, ◌||◌, List, [], ◌∷◌, ◌++◌, Option, none, some,
  elem, text_eq, ◌==◌, if◌then◌else◌,
}
use devops_agent_msk_mcp.Errors.{Result, ok, err, tool_error, invalid_params, plain_error}

unfoldable pub valid_strategies : List Text
valid_strategies =
    codes "shift-by" ∷ codes "to-earliest" ∷ codes "to-latest" ∷ codes "to-offset" ∷ []

abbrev is_missing {ℓ} : {A : Type ℓ} → Option A → Bool
is_missing none = true
is_missing (some a) = false

abbrev pub missing_value : Text → Text
missing_value strategy = codes "reset_strategy=" ++ (strategy ++ codes " requires offset_value")

-- `repr` is Python's `repr` of a text.
abbrev pub unknown_strategy : (Text → Text) → Text → Text
unknown_strategy repr strategy =
    codes "reset_strategy must be one of "
    ++ (codes "['shift-by', 'to-earliest', 'to-latest', 'to-offset']"
        ++ (codes ", got " ++ repr strategy))

unfoldable pub validate_strategy : (Text → Text) → Text → Option ℤ → Result (Unit {0})
validate_strategy repr strategy offset_value =
    if elem strategy valid_strategies
    then (if (strategy == codes "to-offset" || strategy == codes "shift-by")
          && is_missing offset_value
        then err (tool_error (plain_error invalid_params (missing_value strategy)))
        else ok tt)
    else err (tool_error (plain_error invalid_params (unknown_strategy repr strategy)))

-- `str(offset_value)`
unfoldable pub show_value : Option ℤ → Text
show_value none = codes "None"
show_value (some z) = show_ℤ z

pub record Request : Type 0 where
  pub kafka_bin_path : Text
  pub bootstrap_servers : Text
  pub client_properties_path : Text
  pub group_id : Text
  pub topic_name : Text
  pub reset_strategy : Text
  pub offset_value : Option ℤ

unfoldable pub strategy_args : Text → Option ℤ → List Text
unfolding show_value
strategy_args strategy offset_value =
    if strategy == codes "to-latest"
    then codes "--to-latest" ∷ []
    else if strategy == codes "to-earliest"
    then codes "--to-earliest" ∷ []
    else if strategy == codes "to-offset"
    then codes "--to-offset" ∷ show_value offset_value ∷ []
    else if strategy == codes "shift-by"
    then codes "--shift-by" ∷ show_value offset_value ∷ []
    else []

unfoldable pub build_argv : Request → Bool → List Text
unfolding strategy_args
build_argv r execute =
    ((r.kafka_bin_path ++ codes "/kafka-consumer-groups.sh")
      ∷ codes "--bootstrap-server"
      ∷ r.bootstrap_servers
      ∷ codes "--command-config"
      ∷ r.client_properties_path
      ∷ codes "--group"
      ∷ r.group_id
      ∷ codes "--topic"
      ∷ r.topic_name
      ∷ codes "--reset-offsets"
      ∷ [])
    ++ (strategy_args r.reset_strategy r.offset_value
        ++ ((if execute then codes "--execute" else codes "--dry-run") ∷ []))
