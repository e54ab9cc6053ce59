-- ===== src/Tools/Cli.antt =====
-- What the two tools share that run a `kafka-*.sh`: the cluster is looked up, its properties file is
-- found or written, and the command runs; tools/compute_offset_reset_plan.py, tools/describe_log_dirs.py.
pub mod Laws
use devops_agent_msk_mcp.Base.{Text, Unicode, Option, List, [], ◌∷◌}
use devops_agent_msk_mcp.ClientProperties.{Manager, FileSystem, get_path}
use devops_agent_msk_mcp.CliExecutor.{CliResult, Spawn, Signal, run}
use devops_agent_msk_mcp.Config.{Env, ClusterConfig, ClustersRegistry, get, bootstrap_servers}
use devops_agent_msk_mcp.Errors.{Result, ok, err, Raised, ◌>>=◌}

-- What surrounds a call: the settings, the process environment and the outside world.
pub record Setup : Type 0 where
  pub unicode : Unicode
  pub repr : Text → Text
  pub fs : FileSystem
  pub kafka_bin_path : Text
  pub timeout : Text
  pub classpath : Option Text
  pub correlation_id : Option Text
  pub environ : Env
  pub registry : ClustersRegistry
  pub world : List Text → Env → Spawn

-- A call's outcome: its result, the manager after it, the command lines that it handed to the
-- executor, and the signals that it sent.
pub record Outcome {ℓ} (A : Type ℓ) : Type ℓ where
  pub result : Result A
  pub manager : Manager
  pub executed : List (List Text)
  pub signals : List Signal

abbrev pub failed {ℓ} : {A : Type ℓ} → Raised → Manager → Outcome A
failed e m = record { result = err e; manager = m; executed = []; signals = [] }

-- `argv_of` gives the command line from the bootstrap servers and the path of the properties file, and
-- `after` what is made of the run.
module _ {ℓ} {A : Type ℓ} (w : Setup) (cluster_id : Text) (argv_of : Text → Text → List Text)
    (after : Text → Text → CliResult → Result A) where
  abbrev pub with_path : Text → Result Text × Manager → Outcome A
  with_path servers (err e, m) = failed e m
  with_path servers (ok path, m) =
      let argv = argv_of servers path in
      let (signals, result) =
        run w.unicode w.classpath w.world argv w.timeout w.correlation_id w.environ in
      record {
        result = result >>= after servers path;
        manager = m;
        executed = argv ∷ [];
        signals = signals;
      }

  abbrev pub with_config : Manager → Result ClusterConfig → Outcome A
  with_config m (err e) = failed e m
  with_config m (ok cfg) = with_path (bootstrap_servers cfg) (get_path w.fs m cluster_id)

  unfoldable pub cli_call : Manager → Outcome A
  cli_call m = with_config m (get w.registry cluster_id)
