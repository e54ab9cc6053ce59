-- ===== src/Tests/Probe.antt =====
-- The broker probe, correlation ids, and the clock of a CLI tool.
use devops_agent_msk_mcp.Base.{
  ◌<◌, ◌≤◌, pos, int, show_ℕ, rsplit, contains, list_beq, lower, Text, codes, false, List, [], ◌∷◌,
  ◌++◌, Option, none, some, elem, text_eq, ◌≡◌, ◌≢◌, refl, All, arith,
}
use devops_agent_msk_mcp.Base.Dict
use devops_agent_msk_mcp.CliExecutor.{sigterm, sigkill}
use devops_agent_msk_mcp.CliExecutor.Deadline.{
  Timing, margin, cancelled, timed_run, timed_run-never_killed,
}
use devops_agent_msk_mcp.Config.{iam_cluster, get}
use devops_agent_msk_mcp.Errors.{Result, ok, err, exception}
use devops_agent_msk_mcp.LoggingSetup.{
  Scope, headers_of, Var, header_names, extract_cid, correlation_id,
}
use devops_agent_msk_mcp.Tests.Registry.{host}
use devops_agent_msk_mcp.Tests.Samples.{ascii, registry, prod}
use devops_agent_msk_mcp.Tools.Probe.{
  Url, connected, ProbeCalls, ProbeReport, parse_endpoint, failed_report, probe_broker_connectivity,
  probe_tcp, probe_kafka_protocol, classify_protocol_failure,
}
use devops_agent_msk_mcp.Tools.Probe.Laws.{parse_endpoint-pair, Staged, handshake_of, probe-Staged}

abbrev no_url : Text → Result Url
no_url s = ok (record { hostname = none; port = ok none })

abbrev as_is : Text → Text
as_is s = s

-- A host with colons of its own.
abbrev endpoint : Text
endpoint = codes "::1" ++ (b':' ∷ show_ℕ 9098)

endpoint-plain : contains endpoint (codes "://") ≡ false
unfolding codes contains show_ℕ
endpoint-plain = refl

parse_endpoint-pair_example :
    parse_endpoint ascii as_is no_url endpoint ≡ ok (codes "::1", pos 9098)
parse_endpoint-pair_example =
    parse_endpoint-pair ascii as_is no_url (codes "::1") 9098 endpoint-plain (omega arith)

-- The connection comes about, and the client raises.
abbrev calls : ProbeCalls host
calls = record {
  open_connection = λ name port s. connected;
  list_topics = λ conf s. err (exception (codes "cimpl") (codes "SSL handshake failed"));
  at_most_five = λ s. s;
  show_float = λ s. codes "30";
  millis = λ s. s;
}

abbrev failed : ProbeReport
failed = failed_report (codes "prod") endpoint (codes "TLS") (codes "SSL handshake failed")

endpoint-read : parse_endpoint ascii as_is no_url endpoint ≡ ok (codes "::1", pos 9098)
unfolding codes contains show_ℕ rsplit int parse_endpoint
endpoint-read = refl

prod-known : get registry (codes "prod") ≡ ok (iam_cluster prod)
unfolding codes get list_beq Dict.lookup
prod-known = refl

failed-ok :
    probe_broker_connectivity ascii calls as_is no_url registry (codes "prod") endpoint (pos 30)
    ≡ ok failed
unfolding codes probe_broker_connectivity get list_beq Dict.lookup parse_endpoint contains show_ℕ
    rsplit int probe_tcp probe_kafka_protocol classify_protocol_failure lower
failed-ok = refl

probe-Staged_example :
    Staged ascii calls
      (calls.open_connection (codes "::1") (pos 9098) (calls.at_most_five (pos 30)))
      (handshake_of ascii calls endpoint (pos 30) prod)
      failed
probe-Staged_example =
    probe-Staged ascii calls as_is no_url registry (codes "prod") endpoint (codes "::1") (pos 9098)
      (pos 30) prod failed prod-known endpoint-read failed-ok

-- An app that shows the id that it sees, and changes it.
abbrev app : Scope → Var → Result Var × Var
app scope var = (ok var, some (codes "changed"))

abbrev headers : Option (List (Text × Text))
headers = some ((codes "Host", codes "a") ∷ (codes "X-Request-Id", codes "r1") ∷ [])

header-found : correlation_id (headers_of headers) (codes "f") ≡ codes "r1"
unfolding codes correlation_id extract_cid header_names elem list_beq
header-found = refl

-- A call that waited six seconds for its process, which ignores SIGTERM.
abbrev stuck : Timing
stuck = record { start = 6000; runtime = 90000; after_sigterm = none }

timed_run-never_killed_example :
    All (λ s. s ≢ sigkill) (timed_run 30000 stuck).0
    × (margin ≤ stuck.start → 30000 < stuck.runtime → timed_run 30000 stuck ≡ ([], cancelled))
timed_run-never_killed_example = timed_run-never_killed 30000 stuck

-- One that waited a second gets SIGTERM, and is left running.
left_running : timed_run 30000 (record stuck { start = 1000 }) ≡ (sigterm ∷ [], cancelled)
unfolding timed_run
left_running = refl
