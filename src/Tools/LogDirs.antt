-- ===== src/Tools/LogDirs.antt =====
-- src/msk_mcp/tools/describe_log_dirs.py: the tool as a whole, from the properties manager to the
-- report that Scan makes of the printed JSON. `json.loads` is a parameter.
pub mod Scan
pub mod Laws
use devops_agent_msk_mcp.Base.{
  ℕ, show_ℕ, Text, codes, find, take, drop, length, List, [], ◌∷◌, ◌++◌, Option, none, some,
}
use devops_agent_msk_mcp.Base.Json.{Json}
use devops_agent_msk_mcp.ClientProperties.{Manager}
use devops_agent_msk_mcp.CliExecutor.{CliResult}
use devops_agent_msk_mcp.Config.{non_empty}
use devops_agent_msk_mcp.Errors.{
  Result, ok, err, Raised, tool_error, execution_failure, MskToolError, ◌>>=◌,
}
use devops_agent_msk_mcp.Tools.Cli.{Setup, Outcome, cli_call}
use devops_agent_msk_mcp.Tools.LogDirs.Scan.{
  Broker, Stuck, DiskError, Found, nothing_found, scan_payload,
}

-- What `json.loads` does: a value, a `JSONDecodeError` by its `str`, or another exception.
pub data Loaded : Type 0 where
  loaded : Json → Loaded
  decode_error : Text → Loaded
  load_error : Raised → Loaded

abbrev json_failure : Text → Text → Raised
json_failure message stdout = tool_error (record {
  error_type = execution_failure;
  message = message;
  suggestion = [];
  raw_stderr = take 500 stdout;
})

abbrev from_loaded : Text → Loaded → Result Json
from_loaded stdout (loaded payload) = ok payload
from_loaded stdout (decode_error e) =
    err (json_failure (codes "Failed to parse kafka-log-dirs.sh JSON: " ++ e) stdout)
from_loaded stdout (load_error e) = err e

unfoldable pub extract_json : (Text → Loaded) → Text → Result Json
extract_json loads stdout = elim (find stdout (codes "{")) [
  | none ↦
      err (json_failure (codes "kafka-log-dirs.sh output did not contain a JSON object") stdout)
  | some idx ↦ from_loaded stdout (loads (drop idx stdout))
]

abbrev broker_list : Option Text → List Text
broker_list none = []
broker_list (some ids) = codes "--broker-list" ∷ ids ∷ []

unfoldable pub log_dirs_argv : Setup → Option Text → Text → Text → List Text
log_dirs_argv w broker_ids servers path =
    ((w.kafka_bin_path ++ codes "/kafka-log-dirs.sh")
      ∷ codes "--bootstrap-server"
      ∷ servers
      ∷ codes "--command-config"
      ∷ path
      ∷ codes "--describe"
      ∷ [])
    ++ broker_list (non_empty broker_ids)

pub record LogDirReport : Type 0 where
  pub cluster_id : Text
  pub brokers : List Broker
  pub stuck_reassignments : List Stuck
  pub disk_errors : List DiskError
  pub summary : Text

unfoldable pub summarize : ℕ → ℕ → ℕ → Text
summarize brokers stuck disk_errors =
    codes "brokers="
    ++ (show_ℕ brokers
        ++ (codes ", stuck_reassignments="
            ++ (show_ℕ stuck ++ (codes ", disk_errors=" ++ show_ℕ disk_errors))))

unfoldable pub log_dir_report : Text → Found → LogDirReport
unfolding summarize
log_dir_report cluster_id found = record {
  cluster_id = cluster_id;
  brokers = found.brokers_out;
  stuck_reassignments = found.stuck;
  disk_errors = found.disk_errors;
  summary = summarize (length found.brokers_out) (length found.stuck) (length found.disk_errors);
}

module _ (w : Setup) (loads : Text → Loaded) (cluster_id : Text)
    (broker_ids topic_filter : Option Text) where
  unfoldable pub read_log_dirs : Text → Text → CliResult → Result LogDirReport
  unfolding extract_json scan_payload log_dir_report
  read_log_dirs servers path result = do
    payload ← extract_json loads (w.unicode.decode result.stdout)
    found ← scan_payload w.unicode topic_filter payload
    ok (log_dir_report cluster_id found)

  unfoldable pub describe_log_dirs : Manager → Outcome LogDirReport
  unfolding read_log_dirs log_dirs_argv cli_call
  describe_log_dirs m = cli_call w cluster_id (log_dirs_argv w broker_ids) read_log_dirs m
