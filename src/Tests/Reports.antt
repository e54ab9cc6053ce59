-- ===== src/Tests/Reports.antt =====
-- The reports of the tools that list groups, configurations, reassignments, offsets and log directories.
use devops_agent_msk_mcp.Base.{
  ℤ, pos, show_ℕ, rsplit, find, list_beq, Text, codes, true, false, List, [], ◌∷◌, ◌++◌, map,
  Option, none, some, length, text_eq, text_leb, ◌≡◌, refl, arith,
}
use mathlib.Core.List.{cons-ne-nil, Perm}
use devops_agent_msk_mcp.Base.Dict
use devops_agent_msk_mcp.Base.Dict.{Dict}
use devops_agent_msk_mcp.Base.Json.{
  Json, str, list, dict, boolean, end, item, close, field, Fields, lookup_field, list_items, truthy,
}
use devops_agent_msk_mcp.Base.Keys.{on, key_leb}
use devops_agent_msk_mcp.Base.Parts.{IsPart}
use devops_agent_msk_mcp.Base.Sort.{IsSorted}
use devops_agent_msk_mcp.ClientProperties.{get_path, render}
use devops_agent_msk_mcp.CliExecutor.{started, finished, run}
use devops_agent_msk_mcp.Config.{get}
use devops_agent_msk_mcp.Errors.{ok, err, timeout_error}
use devops_agent_msk_mcp.Tests.ResetPlan.{setup}
use devops_agent_msk_mcp.Tests.Samples.{ascii, manager}
use devops_agent_msk_mcp.Tools.Cli.{Setup}
use devops_agent_msk_mcp.Tools.Configs.{
  ConfigEntry, ConfigRecord, source, record_of, highlight, record_name, config_report,
}
use devops_agent_msk_mcp.Tools.Configs.Laws.{IsNotable, config_report_lem}
use devops_agent_msk_mcp.Tools.GroupList.{Entry, count_states}
use devops_agent_msk_mcp.Tools.GroupList.Laws.{sum_values, shown_as, count_states_lem}
use devops_agent_msk_mcp.Tools.LogDirs.{
  Loaded, loaded, LogDirReport, log_dir_report, log_dirs_argv, extract_json, describe_log_dirs,
}
use devops_agent_msk_mcp.Tools.LogDirs.Laws.{IsConsistent, describe_log_dirs-IsConsistent}
use devops_agent_msk_mcp.Tools.LogDirs.Scan
use devops_agent_msk_mcp.Tools.LogDirs.Scan.{is_true, add_entry, scan_partition, scan_payload}
use devops_agent_msk_mcp.Tools.LogDirs.Scan.Names.{scan_partition-name}
use devops_agent_msk_mcp.Tools.Reassignments.{Reassignment, sort_key, reassignment_report}
use devops_agent_msk_mcp.Tools.Reassignments.Laws.{HasTopic, reassignment_report_lem}
use devops_agent_msk_mcp.Tools.Times.{Future, about, times_report}
use devops_agent_msk_mcp.Tools.Times.Laws.{raised_in, found_in, times_report_raising}
use devops_agent_msk_mcp.Tools.Topics.{or_zero}

abbrev groups : List Entry
groups =
    record { group_id = codes "a"; group_state = some (codes "STABLE") }
    ∷ record { group_id = codes "b"; group_state = none }
    ∷ []

count_states_lem_example :
    (sum_values (count_states groups []) ≡ length groups)
    × ((s : Text) → or_zero (Dict.lookup s (count_states groups [])) ≡ shown_as s groups)
count_states_lem_example = count_states_lem groups

abbrev moving : Text → ℤ → Reassignment
moving topic partition = record {
  topic = some topic;
  partition = some partition;
  current_replicas = pos 1 ∷ [];
  adding_replicas = pos 2 ∷ [];
  removing_replicas = pos 1 ∷ [];
}

abbrev moves : List Reassignment
moves = moving (codes "b") (pos 1) ∷ moving (codes "a") (pos 0) ∷ moving (codes "b") (pos 0) ∷ []

reassignment_report_lem_example :
    let report = reassignment_report (codes "prod") (some (codes "b")) moves in
    IsSorted (on sort_key key_leb) report.in_progress_reassignments
    × IsPart (HasTopic (some (codes "b"))) report.in_progress_reassignments moves
    × (report.total_count ≡ length report.in_progress_reassignments)
reassignment_report_lem_example = reassignment_report_lem (codes "prod") (some (codes "b")) moves

abbrev late_futures : List Future
late_futures = (some (pos 0), err timeout_error) ∷ (some (pos 1), err timeout_error) ∷ []

all_raised : raised_in late_futures ≡ length late_futures
unfolding raised_in
all_raised = refl

times_report_raising_example :
    (found_in late_futures ≡ 0)
    × ((times_report (codes "prod") (codes "orders") (pos 5) late_futures).summary
        ≡ about (codes "orders") (pos 5)
          ++ (codes "offsets returned for all "
              ++ (show_ℕ (length late_futures) ++ codes " partitions")))
times_report_raising_example =
    times_report_raising (codes "prod") (codes "orders") (pos 5) late_futures all_raised
      (cons-ne-nil _ _)

abbrev config_entries : Dict Text ConfigEntry
config_entries =
    (
      codes "retention.ms",
      record {
        value = some (codes "1000");
        config_source = source (some (codes "DYNAMIC_TOPIC_CONFIG")) none [];
        is_sensitive = false;
        is_read_only = false;
        is_default = false;
      },
    )
    ∷ (
      codes "cleanup.policy",
      record {
        value = some (codes "delete");
        config_source = source (some (codes "DEFAULT_CONFIG")) none [];
        is_sensitive = false;
        is_read_only = false;
        is_default = false;
      },
    )
    ∷ []

abbrev no_names : ℤ → Option Text
no_names n = none

config_report_lem_example :
    let report = config_report no_names (codes "prod") (codes "orders") config_entries in
    IsSorted (on record_name text_leb) report.configs
    × Perm report.configs (map (record_of no_names) config_entries)
    × ((part : List ConfigRecord) × (report.notable_overrides ≡ map highlight part)
        × IsSorted (on record_name text_leb) part
        × IsPart IsNotable part report.configs)
config_report_lem_example =
    config_report_lem no_names (codes "prod") (codes "orders") config_entries

abbrev partition : Fields
partition =
    field (codes "partition") (str (codes "my-topic" ++ (b'-' ∷ show_ℕ 7)))
      (field (codes "isFuture") (boolean true) close)

partition_named :
    lookup_field (codes "partition") partition ≡ some (str (codes "my-topic" ++ (b'-' ∷ show_ℕ 7)))
unfolding codes lookup_field list_beq
partition_named = refl

scan_partition-name_example :
    scan_partition ascii none none none
      (dict partition)
      (record { partitions_out = []; stuck = [] })
    ≡ ok (
        add_entry ascii none none none
          (record {
            topic = some (codes "my-topic");
            partition = some (pos 7);
            size_bytes = lookup_field (codes "size") partition;
            offset_lag = lookup_field (codes "offsetLag") partition;
            is_future = is_true (lookup_field (codes "isFuture") partition);
          })
          (record { partitions_out = []; stuck = [] }))
scan_partition-name_example =
    scan_partition-name ascii none none none partition (codes "my-topic") 7
      (record { partitions_out = []; stuck = [] }) partition_named (omega arith) refl

-- One broker with one log directory, which holds the partition and shows an error.
abbrev payload : Json
payload = dict (
    field (codes "brokers")
      (list (
        item
          (dict (
            field (codes "broker") (Json.int (pos 1)) (
              field (codes "logDirs")
                (list (
                  item
                    (dict (
                      field (codes "logDir") (str (codes "/kafka")) (
                        field (codes "error") (str (codes "offline"))
                          (field (codes "partitions") (list (item (dict partition) end)) close))))
                    end))
                close)))
          end))
      close)

abbrev read_json : Text → Loaded
read_json s = loaded payload

-- The process prints a line, then something that starts as an object does.
abbrev printing : Setup
printing = record setup {
  world = λ argv env. started (finished (codes "log\n{") [] (some (pos 0)) (pos 12));
}

abbrev report : LogDirReport
report = elim (describe_log_dirs printing read_json (codes "prod") none none manager).result [
  | ok r ↦ r
  | err e ↦ log_dir_report [] (record { brokers_out = []; stuck = []; disk_errors = [] })
]

report-ok :
    (describe_log_dirs printing read_json (codes "prod") none none manager).result ≡ ok report
unfolding codes describe_log_dirs get get_path render run Dict.lookup list_beq extract_json find
    scan_payload Scan.get lookup_field truthy list_items rsplit show_ℕ
report-ok = refl

describe_log_dirs-IsConsistent_example :
    IsConsistent printing read_json (codes "prod") none none report
    × ((servers : Text) × (path : Text) × ((describe_log_dirs printing read_json
            (codes "prod")
            none
            none
            manager).executed
          ≡ log_dirs_argv printing none servers path ∷ []))
describe_log_dirs-IsConsistent_example =
    describe_log_dirs-IsConsistent printing read_json (codes "prod") none none manager report
      report-ok

-- It is stuck, and its directory broken.
report-shows : (length report.stuck_reassignments ≡ 1) × (length report.disk_errors ≡ 1)
unfolding codes describe_log_dirs get get_path render run Dict.lookup list_beq extract_json find
    scan_payload Scan.get lookup_field truthy list_items rsplit show_ℕ
report-shows = (refl, refl)
