-- ===== src/Tools/Probe.antt =====
-- src/msk_mcp/tools/test_broker_connectivity.py: the probe of one broker, stage by stage. `urlsplit`,
-- `repr`, the connection, the client and what the probe does with a float are parameters.
pub mod Laws
use devops_agent_msk_mcp.Base.{
  ℕ, ℤ, pos, int, int_eq, Text, codes, Unicode, contains, lower, rsplit, Bool, true, false, ◌||◌,
  List, [], ◌∷◌, ◌++◌, Option, none, some, ◌==◌, if◌then◌else◌,
}
use devops_agent_msk_mcp.Base.Dict.{Dict}
use devops_agent_msk_mcp.Config.{
  Host, ClusterConfig, iam_cluster, scram_cluster, mtls_cluster, ClustersRegistry, get, non_empty,
}
use devops_agent_msk_mcp.Errors.{
  Result, ok, err, Raised, str_of, tool_error, plain_error, advised_error, invalid_params,
  execution_failure, ◌>>=◌,
}
use devops_agent_msk_mcp.KafkaClients.{Conf, text, number, iam_config, update}

-- What `urlsplit` gives: the host, and the port, which raises where it is no port.
pub record Url : Type 0 where
  pub hostname : Option Text
  pub port : Result (Option ℤ)

-- How the connection ends.
pub data Connection : Type 0 where
  connected : Connection
  connect_timeout : Connection
  gaierror : Text → Connection
  os_error : Text → Connection
  connect_raised : Raised → Connection

-- `port` is not 0.
abbrev non_zero : Option ℤ → Option ℤ
non_zero none = none
non_zero (some port) = if port == pos 0 then none else some port

abbrev endpoint_error : Text → Text → Raised
endpoint_error message shown = tool_error (plain_error invalid_params (message ++ shown))

module _ (u : Unicode) (repr : Text → Text) (urlsplit : Text → Result Url) where
  abbrev some_port : Text → Text → Option ℤ → Result (Text × ℤ)
  some_port endpoint hostname none =
      err (endpoint_error (codes "broker_endpoint must include host and port: ") (repr endpoint))
  some_port endpoint hostname (some port) = ok (hostname, port)

  abbrev parse_url : Text → Url → Result (Text × ℤ)
  parse_url endpoint url = elim (non_empty url.hostname) [
    | none ↦
        err (endpoint_error (codes "broker_endpoint must include host and port: ") (repr endpoint))
    | some hostname ↦ url.port >>= λ port. some_port endpoint hostname (non_zero port)
  ]

  abbrev numeric : Text → Text → Option ℤ → Result (Text × ℤ)
  numeric endpoint host none =
      err (endpoint_error (codes "broker_endpoint port not numeric: ") (repr endpoint))
  numeric endpoint host (some port) = ok (host, port)

  abbrev parse_pair : Text → Option (Text × Text) → Result (Text × ℤ)
  parse_pair endpoint none =
      err (endpoint_error (codes "broker_endpoint must be host:port: ") (repr endpoint))
  parse_pair endpoint (some (host, port_s)) = numeric endpoint host (int u port_s)

  unfoldable pub parse_endpoint : Text → Result (Text × ℤ)
  parse_endpoint endpoint =
      if contains endpoint (codes "://")
      then urlsplit endpoint >>= parse_url endpoint
      else parse_pair endpoint (rsplit b':' endpoint)

-- A failure's stage and its detail.
unfoldable pub classify_protocol_failure : Unicode → Raised → Text × Text
classify_protocol_failure u e =
    let text = lower u (str_of e) in
    if contains text (codes "ssl")
      || contains text (codes "tls")
      || contains text (codes "certificate")
    then (codes "TLS", str_of e)
    else if contains text (codes "sasl")
        || contains text (codes "authentication")
        || contains text (codes "oauth")
        || contains text (codes "iam")
    then (codes "SASL", str_of e)
    else if contains text (codes "timed out") || contains text (codes "timeout")
    then (codes "PROTOCOL", str_of e)
    else if contains text (codes "unsupported")
        || contains text (codes "version")
        || contains text (codes "protocol")
    then (codes "PROTOCOL", str_of e)
    else (codes "PROTOCOL", str_of e)

-- The report.
pub record ProbeReport : Type 0 where
  pub cluster_id : Text
  pub broker_endpoint : Text
  pub connection_successful : Bool
  pub failure_stage : Option Text
  pub failure_detail : Option Text
  pub api_versions : List (Dict Text Text)
  pub summary : Text

unfoldable pub failed_report : Text → Text → Text → Text → ProbeReport
failed_report cluster_id broker_endpoint stage detail = record {
  cluster_id = cluster_id;
  broker_endpoint = broker_endpoint;
  connection_successful = false;
  failure_stage = some stage;
  failure_detail = some detail;
  api_versions = [];
  summary = stage ++ (codes " failure to " ++ (broker_endpoint ++ (codes ": " ++ detail)));
}

unfoldable pub stub_unsupported : Text → Raised
stub_unsupported kind = tool_error (
    advised_error execution_failure
      (codes "test_broker_connectivity not yet wired for cluster auth_type="
        ++ (kind ++ (codes "; " ++ codes "POC supports IAM only.")))
      (codes "Use IAM-auth clusters for v1, or wire SCRAM/MTLS in kafka_clients.py."))

-- The connection within a time, `AdminClient(conf).list_topics` within a time, and on floats
-- `min(t, 5.0)`, `str(t)` and `int(t * 1000)`.
pub record ProbeCalls (h : Host) : Type 0 where
  pub open_connection : Text → ℤ → h.Float → Connection
  pub list_topics : Conf → h.Float → Result (Unit {0})
  pub at_most_five : h.Float → h.Float
  pub show_float : h.Float → Text
  pub millis : h.Float → ℤ

module _ (u : Unicode) {h : Host} (calls : ProbeCalls h) where
  -- What `_probe_tcp` makes of how the connection ends.
  abbrev pub tcp_outcome : h.Float → Connection → Result (Option Text)
  tcp_outcome timeout connected = ok none
  tcp_outcome timeout connect_timeout =
      ok (some (codes "TCP connect timed out after " ++ (calls.show_float timeout ++ codes "s")))
  tcp_outcome timeout (gaierror e) = ok (some (codes "DNS resolution failed: " ++ e))
  tcp_outcome timeout (os_error e) = ok (some (codes "Connection failed: " ++ e))
  tcp_outcome timeout (connect_raised e) = err e

  unfoldable pub probe_tcp : Text → ℤ → h.Float → Result (Option Text)
  probe_tcp host port timeout = tcp_outcome timeout (calls.open_connection host port timeout)

  unfoldable pub probe_conf : Text → h.Float → Conf → Conf
  unfolding update
  probe_conf broker_endpoint timeout more =
      update
        ((codes "bootstrap.servers", text broker_endpoint)
          ∷ (codes "socket.timeout.ms", number (calls.millis timeout))
          ∷ (codes "metadata.max.age.ms", number (calls.millis timeout))
          ∷ [])
        more

  -- The metadata are not looked at.
  abbrev extract_api_versions : Unit {0} → List (Dict Text Text)
  extract_api_versions metadata = []

  -- The report of an attempt, by what the client raised.
  abbrev pub attempted : Text → Text → Result (Unit {0}) → ProbeReport
  attempted cluster_id broker_endpoint (ok tt) = record {
    cluster_id = cluster_id;
    broker_endpoint = broker_endpoint;
    connection_successful = true;
    failure_stage = none;
    failure_detail = none;
    api_versions = extract_api_versions tt;
    summary = codes "Successful handshake to " ++ broker_endpoint;
  }
  attempted cluster_id broker_endpoint (err e) =
      let (stage, detail) = classify_protocol_failure u e in
      failed_report cluster_id broker_endpoint stage detail

  unfoldable pub probe_kafka_protocol : Text → ClusterConfig → Text → h.Float → Result ProbeReport
  unfolding probe_conf iam_config stub_unsupported classify_protocol_failure failed_report
  probe_kafka_protocol cluster_id (scram_cluster c) broker_endpoint timeout =
      err (stub_unsupported (codes "ScramCluster"))
  probe_kafka_protocol cluster_id (mtls_cluster c) broker_endpoint timeout =
      err (stub_unsupported (codes "MtlsCluster"))
  probe_kafka_protocol cluster_id (iam_cluster c) broker_endpoint timeout = do
    more ← iam_config c
    ok (
        attempted cluster_id broker_endpoint
          (calls.list_topics (probe_conf broker_endpoint timeout more) timeout))

  -- What follows the TCP stage; an error is never the empty text, which would count as none.
  abbrev pub after_tcp : Text → ClusterConfig → Text → h.Float → Option Text → Result ProbeReport
  after_tcp cluster_id cfg broker_endpoint timeout none =
      probe_kafka_protocol cluster_id cfg broker_endpoint timeout
  after_tcp cluster_id cfg broker_endpoint timeout (some tcp_error) =
      ok (failed_report cluster_id broker_endpoint (codes "NETWORK") tcp_error)

  module _ (repr : Text → Text) (urlsplit : Text → Result Url) where
    unfoldable pub probe_broker_connectivity :
        ClustersRegistry → Text → Text → h.Float → Result ProbeReport
    unfolding parse_endpoint probe_tcp
    probe_broker_connectivity registry cluster_id broker_endpoint timeout = do
      cfg ← get registry cluster_id
      (host, port) ← parse_endpoint u repr urlsplit broker_endpoint
      tcp_error ← probe_tcp host port (calls.at_most_five timeout)
      after_tcp cluster_id cfg broker_endpoint timeout (non_empty tcp_error)
