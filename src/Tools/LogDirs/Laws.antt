-- ===== src/Tools/LogDirs/Laws.antt =====
-- What an answer of describe_log_dirs says, and which command it comes from.
use devops_agent_msk_mcp.Base.{Text, Option, [], ◌∷◌, ◌≡◌, All}
use devops_agent_msk_mcp.ClientProperties.{Manager}
use devops_agent_msk_mcp.CliExecutor.{CliResult}
use devops_agent_msk_mcp.Config.{non_empty}
use devops_agent_msk_mcp.Errors.{ok, Ensures, Ensures->>=, Ensures-then, Ensures-ok}
use devops_agent_msk_mcp.Tools.Cli.{Setup}
use devops_agent_msk_mcp.Tools.Cli.Laws.{cli_call-IsAnswer}
use devops_agent_msk_mcp.Tools.LogDirs.{
  Loaded, LogDirReport, extract_json, log_dirs_argv, log_dir_report, read_log_dirs,
  describe_log_dirs,
}
use devops_agent_msk_mcp.Tools.LogDirs.Scan.{scan_payload}
use devops_agent_msk_mcp.Tools.LogDirs.Scan.Laws.{BrokerHasTopic, IsFaithful, scan_payload-Ensures}
use devops_agent_msk_mcp.Tools.LogDirs.Scan.Places.{stuck_in, errors_in}

module _ (w : Setup) (loads : Text → Loaded) (cluster_id : Text)
    (broker_ids topic_filter : Option Text) where
  -- The two lists of a report are read off its brokers.
  abbrev pub IsConsistent : LogDirReport → Type 0
  IsConsistent report =
      (report.stuck_reassignments ≡ stuck_in report.brokers)
      × (report.disk_errors ≡ errors_in report.brokers)
      × All (BrokerHasTopic (non_empty topic_filter)) report.brokers

  read_log_dirs-IsConsistent :
      (servers path : Text) (c : CliResult)
      → Ensures IsConsistent
          (read_log_dirs w loads cluster_id broker_ids topic_filter servers path c)
  unfolding read_log_dirs log_dir_report
  read_log_dirs-IsConsistent servers path c =
      Ensures-then IsConsistent (extract_json loads (w.unicode.decode c.stdout)) _ (λ payload.
        Ensures->>= (IsFaithful w.unicode topic_filter) IsConsistent
          (scan_payload w.unicode topic_filter payload) _
          (scan_payload-Ensures w.unicode topic_filter payload) (λ found h. h))

  -- An answer comes from one run of `kafka-log-dirs.sh`; its stuck reassignments are the entries of its
  -- brokers that are in the future, with their places and in order, its disk errors are the log
  -- directories of its brokers with an error, and each entry is of the topic that is asked for, if
  -- one is.
  pub describe_log_dirs-IsConsistent :
      (m : Manager) (report : LogDirReport)
      → (describe_log_dirs w loads cluster_id broker_ids topic_filter m).result ≡ ok report
      → IsConsistent report
        × ((servers : Text) × (path : Text) × ((describe_log_dirs w loads cluster_id broker_ids
                topic_filter m).executed
              ≡ log_dirs_argv w broker_ids servers path ∷ []))
  unfolding describe_log_dirs
  describe_log_dirs-IsConsistent m report h =
      let read = read_log_dirs w loads cluster_id broker_ids topic_filter in
      let (servers, path, c, ran, made) =
        cli_call-IsAnswer w cluster_id (log_dirs_argv w broker_ids) read m report h in
      (
        Ensures-ok IsConsistent (read servers path c) report
            (read_log_dirs-IsConsistent servers path c) made,
        (servers, path, ran),
      )
