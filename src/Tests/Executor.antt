-- ===== src/Tests/Executor.antt =====
-- Errors and the executor.
use devops_agent_msk_mcp.Base.{
  ℕ, text_eq, pos, Text, codes, lower, list_beq, false, List, [], ◌∷◌, none, some, ◌≡◌, ◌↔◌, refl,
}
use devops_agent_msk_mcp.Base.Dict
use devops_agent_msk_mcp.CliExecutor.{
  CliResult, Spawn, started, finished, exceeded, over_grace, broken, run, child_env,
  classify_cli_failure,
}
use devops_agent_msk_mcp.CliExecutor.Laws.{IsSuccess, run-ok}
use devops_agent_msk_mcp.CliExecutor.Classify.{cli_rules, classify_cli_failure-first_rule}
use devops_agent_msk_mcp.Config.{Env}
use devops_agent_msk_mcp.Errors.{Result, ok, err, Raised, exception, classify_kafka_exception}
use devops_agent_msk_mcp.Errors.Laws.{kafka_rules, classify_kafka_exception-first_rule}
use devops_agent_msk_mcp.Errors.Rules.{first_rule}
use devops_agent_msk_mcp.Tests.Samples.{ascii}

abbrev done : CliResult
done = record { returncode = pos 0; stdout = codes "ok"; stderr = []; duration_ms = pos 12 }

abbrev quick : List Text → Env → Spawn
quick argv env = started (finished (codes "ok") [] (some (pos 0)) (pos 12))

abbrev stuck : List Text → Env → Spawn
stuck argv env = started (exceeded (over_grace false broken))

run-ok_example :
    let ran = run ascii none quick (codes "kafka.sh" ∷ []) (codes "30.0") none [] in
    ((ran.1 ≡ ok done) ↔ IsSuccess (quick (codes "kafka.sh" ∷ []) []) done)
    × (ran.1 ≡ ok done → ran.0 ≡ [])
unfolding child_env
run-ok_example = run-ok ascii none quick (codes "kafka.sh") [] (codes "30.0") none [] done

abbrev environ : Env
environ = (codes "CLASSPATH", codes "/a.jar") ∷ (codes "HOME", codes "/root") ∷ []

-- The class path of the settings stands in front.
class_path_value :
    Dict.lookup
      (codes "CLASSPATH")
      (child_env (some (codes "/iam.jar")) (some (codes "c1")) environ)
    ≡ some (codes "/iam.jar:/a.jar")
unfolding codes child_env list_beq Dict.lookup Dict.insert
class_path_value = refl

abbrev refused : CliResult
refused = record {
  returncode = pos 1;
  stdout = [];
  stderr = codes "Connection refused";
  duration_ms = pos 12;
}

classify_kafka_exception-first_rule_example :
    (classify_kafka_exception ascii (codes "TopicAuthorizationException")).error_type
    ≡ first_rule kafka_rules (lower ascii (codes "TopicAuthorizationException"))
classify_kafka_exception-first_rule_example =
    classify_kafka_exception-first_rule ascii (codes "TopicAuthorizationException")

abbrev kafka_error : Raised
kafka_error = exception (codes "confluent_kafka.error") (codes "Timed out")

abbrev raised : Result ℕ
raised = err kafka_error

classify_cli_failure-first_rule_example :
    ((classify_cli_failure ascii refused (codes "kafka.sh" ∷ [])).error_type
      ≡ first_rule cli_rules (lower ascii (codes "Connection refused")))
    × ((classify_cli_failure ascii refused (codes "kafka.sh" ∷ [])).raw_stderr
        ≡ codes "Connection refused")
classify_cli_failure-first_rule_example =
    classify_cli_failure-first_rule ascii refused (codes "kafka.sh" ∷ [])
