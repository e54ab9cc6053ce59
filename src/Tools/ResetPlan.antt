-- ===== src/Tools/ResetPlan.antt =====
-- src/msk_mcp/tools/compute_offset_reset_plan.py: the dry run of an offset reset, and the command that
-- a human would run.
pub mod Argv
pub mod Parse
pub mod Quote
pub mod Laws
use devops_agent_msk_mcp.Base.{
  ℤ, Option, show_ℕ, Text, codes, Unicode, length, true, false, List, [], ◌∷◌, ◌++◌, Bool,
}
use devops_agent_msk_mcp.ClientProperties.{Manager, get_path}
use devops_agent_msk_mcp.CliExecutor.{CliResult, Spawn, Signal, run}
use devops_agent_msk_mcp.Config.{Env, ClusterConfig, get, bootstrap_servers}
use devops_agent_msk_mcp.Errors.{Result, ok, err, Raised, Response, tool_error_handler, ◌>>=◌}
use devops_agent_msk_mcp.Tools.Cli.{Setup, Outcome, failed, cli_call}
use devops_agent_msk_mcp.Tools.ResetPlan.Argv.{Request, validate_strategy, build_argv}
use devops_agent_msk_mcp.Tools.ResetPlan.Parse.{Row, parse_plan}
use devops_agent_msk_mcp.Tools.ResetPlan.Quote.{command_line}

unfoldable pub build_warning : List Row → Text
build_warning [] =
    codes
      "No partition reset plan parsed from dry-run output. Verify the consumer group exists on this cluster."
build_warning (r ∷ rs) =
    codes "DRY RUN ONLY — no offsets have changed. To apply this reset, a human "
    ++ (codes "must run the command in remediation_command. Resetting consumer "
        ++ (codes "offsets can cause messages to be skipped or reprocessed; confirm "
            ++ codes "business impact before running --execute."))

unfoldable pub summarize : List Row → Text
summarize [] = codes "DRY RUN: no plan parsed (group or topic may not exist)"
summarize (r ∷ rs) =
    codes "DRY RUN: would set offsets on "
    ++ (show_ℕ (length (r ∷ rs)) ++ codes " partition(s); see remediation_command to apply")

pub record Plan : Type 0 where
  pub cluster_id : Text
  pub group_id : Text
  pub topic : Text
  pub strategy : Text
  pub offset_value : Option ℤ
  pub dry_run : Bool
  pub partition_offsets : List Row
  pub remediation_command : Text
  pub warning : Text
  pub summary : Text

-- The arguments that the caller of the tool gives.
pub record Params : Type 0 where
  pub cluster_id : Text
  pub group_id : Text
  pub topic_name : Text
  pub reset_strategy : Text
  pub offset_value : Option ℤ

module _ (w : Setup) (p : Params) where
  abbrev pub request : Text → Text → Request
  request servers path = record {
    kafka_bin_path = w.kafka_bin_path;
    bootstrap_servers = servers;
    client_properties_path = path;
    group_id = p.group_id;
    topic_name = p.topic_name;
    reset_strategy = p.reset_strategy;
    offset_value = p.offset_value;
  }

  unfoldable pub plan_of : Request → List Row → Plan
  unfolding build_warning summarize
  plan_of r plan = record {
    cluster_id = p.cluster_id;
    group_id = p.group_id;
    topic = p.topic_name;
    strategy = p.reset_strategy;
    offset_value = p.offset_value;
    dry_run = true;
    partition_offsets = plan;
    remediation_command = command_line w.unicode (build_argv r true);
    warning = build_warning plan;
    summary = summarize plan;
  }

  -- The part behind the dry run.
  abbrev pub after_run : Text → Text → CliResult → Result Plan
  after_run servers path result = do
    rows ← parse_plan w.unicode (w.unicode.decode result.stdout)
    ok (plan_of (request servers path) rows)

  abbrev pub dry_argv : Text → Text → List Text
  dry_argv servers path = build_argv (request servers path) false

  abbrev pub validated : Manager → Result (Unit {0}) → Outcome Plan
  validated m (err e) = failed e m
  validated m (ok _) = cli_call w p.cluster_id dry_argv after_run m

  unfoldable pub compute_offset_reset_plan : Manager → Outcome Plan
  unfolding plan_of cli_call
  compute_offset_reset_plan m =
      validated m (validate_strategy w.repr p.reset_strategy p.offset_value)

  -- The decorated tool: what its caller gets.
  unfoldable pub respond : Manager → Response Plan
  unfolding compute_offset_reset_plan
  respond m = tool_error_handler w.unicode (compute_offset_reset_plan m).result
