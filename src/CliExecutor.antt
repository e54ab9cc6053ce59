-- ===== src/CliExecutor.antt =====
-- src/msk_mcp/cli_executor.py: a run of a `kafka-*.sh` subprocess, from its environment to the error
-- that its exit is mapped to. How the process behaves is an argument, `Spawn`; the result lists the
-- signals that were sent. The semaphore is modelled in Bouncer and Server/Calls, and the timeouts in
-- CliExecutor/Deadline.
pub mod Classify
pub mod Laws
pub mod Deadline
use devops_agent_msk_mcp.Base.{
  ℕ, ℤ, pos, negsuc, show_ℤ, Text, codes, Unicode, any_in, lower, join, Bool, true, false, ◌||◌,
  List, [], ◌∷◌, ◌++◌, Option, none, some, text_eq, int_eq, ◌==◌, if◌then◌else◌,
}
use devops_agent_msk_mcp.Base.Dict
use devops_agent_msk_mcp.Base.Dict.{Dict}
use devops_agent_msk_mcp.Config.{Env}
use devops_agent_msk_mcp.Errors.{
  Result, ok, err, Raised, tool_error, exception, MskToolError, auth_failure, authorization,
  network_timeout, execution_failure, timeout, plain_error, advised_error,
}

abbrev Bytes : Type 0
Bytes = List ℕ

pub record CliResult : Type 0 where
  pub returncode : ℤ
  pub stdout : Bytes
  pub stderr : Bytes
  pub duration_ms : ℤ

unfoldable pub auth_patterns : List Text
auth_patterns = codes "authentication failed" ∷ codes "sasl" ∷ codes "oauth" ∷ codes "iam" ∷ []

unfoldable pub authz_patterns : List Text
authz_patterns =
    codes "authorization"
    ∷ codes "topicauthorizationexception"
    ∷ codes "groupauthorizationexception"
    ∷ []

unfoldable pub network_patterns : List Text
network_patterns =
    codes "no route to host"
    ∷ codes "connection refused"
    ∷ codes "connection timed out"
    ∷ codes "name or service not known"
    ∷ codes "could not be established"
    ∷ []

-- `(rc=…)`
abbrev rc : CliResult → Text
rc r = codes " (rc=" ++ (show_ℤ r.returncode ++ codes ")")

unfoldable pub classify_cli_failure : Unicode → CliResult → List Text → MskToolError
classify_cli_failure u r argv =
    let stderr_text = u.decode r.stderr in
    let haystack = lower u stderr_text in
    if any_in auth_patterns haystack
    then record {
      error_type = auth_failure;
      message = codes "CLI auth failed" ++ rc r;
      suggestion =
          codes
            "Check the cluster's auth config and that aws-msk-iam-auth JAR is on the classpath.";
      raw_stderr = stderr_text;
    }
    else if any_in authz_patterns haystack
    then record {
      error_type = authorization;
      message = codes "CLI authorization denied" ++ rc r;
      suggestion = codes "Principal authenticated but lacks permission for this operation.";
      raw_stderr = stderr_text;
    }
    else if any_in network_patterns haystack
    then record {
      error_type = network_timeout;
      message = codes "CLI network failure" ++ rc r;
      suggestion = codes "Check broker reachability and security groups.";
      raw_stderr = stderr_text;
    }
    else record {
      error_type = execution_failure;
      message = codes "CLI failed" ++ (rc r ++ (codes ": " ++ join (codes " ") argv));
      suggestion = [];
      raw_stderr = stderr_text;
    }

-- What `communicate` does: it returns the output, or raises.
pub data Drained : Type 0 where
  output : Bytes → Bytes → Drained
  broken : Drained

-- A process after SIGTERM: gone before the signal, done within the grace period, or still running, so
-- that it is killed. `gone_before_kill` says that the kill met no process, which is ignored.
pub data Termination : Type 0 where
  gone : Termination
  in_grace : Bytes → Bytes → Termination
  over_grace : Bool → Drained → Termination

-- A started process ends in time, with its exit code if it is known and what the clock gives for
-- `int((time.monotonic() - start) * 1000)`, or exceeds the timeout.
pub data Process : Type 0 where
  finished : Bytes → Bytes → Option ℤ → ℤ → Process
  exceeded : Termination → Process

-- What `create_subprocess_exec` does with the arguments and the environment. An exception that is
-- neither of the two that `run` maps goes to the caller.
pub data Spawn : Type 0 where
  file_not_found : Spawn
  permission_denied : Text → Spawn
  spawn_error : Raised → Spawn
  started : Process → Spawn

pub data Signal : Type 0 where
  sigterm sigkill : Signal

-- What is known of the process after `communicate` was drained for the last time.
abbrev drained : Drained → Bytes × Bytes
drained (output out errors) = (out, errors)
drained broken = ([], [])

-- The signals that reached the process, and the output that was read.
unfoldable pub terminate : Termination → List Signal × (Bytes × Bytes)
terminate gone = ([], ([], []))
terminate (in_grace out errors) = (sigterm ∷ [], (out, errors))
terminate (over_grace true d) = (sigterm ∷ [], drained d)
terminate (over_grace false d) = (sigterm ∷ sigkill ∷ [], drained d)

abbrev with_cid : Option Text → Env → Env
with_cid none env = env
with_cid (some []) env = env
with_cid (some (c ∷ cid)) env = Dict.insert (codes "MSK_MCP_CID") (c ∷ cid) env

abbrev class_path : Text → Option Text → Text
class_path own none = own
class_path own (some []) = own
class_path own (some (c ∷ existing)) = own ++ (codes ":" ++ (c ∷ existing))

abbrev with_class_path : Option Text → Env → Env
with_class_path none env = env
with_class_path (some []) env = env
with_class_path (some (c ∷ own)) env =
    Dict.insert (codes "CLASSPATH") (class_path (c ∷ own) (Dict.lookup (codes "CLASSPATH") env)) env

-- The environment of the subprocess.
unfoldable pub child_env : Option Text → Option Text → Env → Env
child_env classpath cid environ = with_class_path classpath (with_cid cid environ)

unfoldable pub exit_code : Option ℤ → ℤ
exit_code none = negsuc 0
exit_code (some code) = code

module _ (u : Unicode) where
  -- The check of the exit code at the end of `run`.
  unfoldable pub conclude : CliResult → List Text → Result CliResult
  unfolding classify_cli_failure
  conclude r argv =
      if r.returncode == pos 0 then ok r else err (tool_error (classify_cli_failure u r argv))

  unfoldable pub timeout_failure : Text → Bytes → MskToolError
  timeout_failure seconds errors = record {
    error_type = timeout;
    message = codes "CLI exceeded timeout of " ++ (seconds ++ codes "s");
    suggestion = codes "Re-run with a higher timeout or scope down the request.";
    raw_stderr = u.decode errors;
  }

  unfoldable pub after_spawn : List Text → Text → Text → Spawn → List Signal × Result CliResult
  unfolding conclude timeout_failure terminate exit_code
  after_spawn argv name seconds file_not_found = (
    [],
    err (
        tool_error (
          advised_error execution_failure (codes "CLI binary not found: " ++ name)
            (codes "Verify Kafka CLI is installed and MSK_MCP_KAFKA_BIN_PATH is correct."))),
  )
  after_spawn argv name seconds (permission_denied e) = (
    [],
    err (
        tool_error (
          plain_error execution_failure
            (codes "CLI binary not executable: " ++ (name ++ (codes ": " ++ e))))),
  )
  after_spawn argv name seconds (spawn_error e) = ([], err e)
  after_spawn argv name seconds (started (finished out errors code millis)) = (
    [],
    conclude
        (record {
          returncode = exit_code code;
          stdout = out;
          stderr = errors;
          duration_ms = millis;
        })
        argv,
  )
  after_spawn argv name seconds (started (exceeded t)) =
      let (signals, (out, errors)) = terminate t in
      (signals, err (tool_error (timeout_failure seconds errors)))

  -- `seconds` is the timeout as it is printed; `world` starts the process.
  unfoldable pub run :
      Option Text
      → (List Text → Env → Spawn)
      → List Text
      → Text
      → Option Text
      → Env
      → List Signal × Result CliResult
  unfolding after_spawn child_env
  run classpath world [] seconds cid environ =
      ([], err (exception (codes "builtins") (codes "argv must not be empty")))
  run classpath world (name ∷ args) seconds cid environ =
      after_spawn (name ∷ args) name seconds (world (name ∷ args) (child_env classpath cid environ))
