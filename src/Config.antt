-- ===== src/Config.antt =====
-- src/msk_mcp/config.py: the registry of clusters and the settings read from the environment.
-- YAML, pydantic's field checks, floats and the home directory are parameters.
pub mod Laws
use devops_agent_msk_mcp.Base.{
  Text, codes, Unicode, strip, split_at, join, text_leb, int, ℤ, pos, leb_ℤ, Bool, true, false, not,
  Option, none, some, List, [], ◌∷◌, ◌++◌, ◌==◌, text_eq, if◌then◌else◌,
}
use devops_agent_msk_mcp.Base.Dict
use devops_agent_msk_mcp.Base.Dict.{Dict}
use devops_agent_msk_mcp.Base.Sort.{sort_by}
use devops_agent_msk_mcp.Errors.{Result, ok, err, Raised, exception, ◌>>=◌, ◌>>◌}

pub data AuthType : Type 0 where
  iam sasl_scram mtls : AuthType

pub record IamCluster : Type 0 where
  pub bootstrap_servers : Text
  pub region : Text
  pub description : Option Text

pub record ScramCluster : Type 0 where
  pub bootstrap_servers : Text
  pub region : Text
  pub scram_secret_arn : Text
  pub description : Option Text

pub record MtlsCluster : Type 0 where
  pub bootstrap_servers : Text
  pub region : Text
  pub cert_path : Text
  pub key_path : Text
  pub ca_path : Text
  pub description : Option Text

pub data ClusterConfig : Type 0 where
  iam_cluster : IamCluster → ClusterConfig
  scram_cluster : ScramCluster → ClusterConfig
  mtls_cluster : MtlsCluster → ClusterConfig

-- The discriminator of the union.
abbrev pub auth_type : ClusterConfig → AuthType
auth_type (iam_cluster c) = iam
auth_type (scram_cluster c) = sasl_scram
auth_type (mtls_cluster c) = mtls

abbrev pub bootstrap_servers : ClusterConfig → Text
bootstrap_servers (iam_cluster c) = c.bootstrap_servers
bootstrap_servers (scram_cluster c) = c.bootstrap_servers
bootstrap_servers (mtls_cluster c) = c.bootstrap_servers

pub record ClustersRegistry : Type 0 where
  pub clusters : Dict Text ClusterConfig

abbrev pub value_error : Text → Raised
value_error = exception (codes "builtins")

unfoldable pub at_least_one_cluster : Dict Text ClusterConfig → Result (Dict Text ClusterConfig)
at_least_one_cluster [] = err (value_error (codes "clusters.yaml must define at least one cluster"))
at_least_one_cluster (c ∷ cs) = ok (c ∷ cs)

-- `UnknownClusterError(cluster_id, valid_ids)`
unfoldable pub unknown_cluster_error : Text → List Text → Raised
unknown_cluster_error cluster_id valid_ids = exception (codes "msk_mcp.config") (
    codes "Unknown cluster_id '"
    ++ (cluster_id ++ (codes "'. Valid: " ++ join (codes ", ") valid_ids)))

unfoldable pub ids : ClustersRegistry → List Text
ids r = sort_by text_leb (Dict.keys r.clusters)

abbrev found_or : Raised → Option ClusterConfig → Result ClusterConfig
found_or e none = err e
found_or e (some cfg) = ok cfg

unfoldable pub get : ClustersRegistry → Text → Result ClusterConfig
get r cluster_id =
    found_or (unknown_cluster_error cluster_id (sort_by text_leb (Dict.keys r.clusters)))
      (Dict.lookup cluster_id r.clusters)

-- Floats, as far as the settings use them, and `Path.expanduser`.
pub record Host : Type 1 where
  pub Float : Type 0
  pub float : Text → Option Float
  pub not_above_zero : Float → Bool
  pub expanduser : Text → Result Text

module _ (u : Unicode) where
  -- `if item.strip()`, and the strip.
  unfoldable pub strip_items : List Text → List Text
  strip_items [] = []
  strip_items (item ∷ items) =
      let s = strip u item in let rest = strip_items items in if s == [] then rest else s ∷ rest

  unfoldable pub split_csv : Text → List Text
  unfolding strip_items
  split_csv s = let (p, ps) = split_at b',' s in strip_items (p ∷ ps)

  unfoldable pub parse_csv : Option Text → Option (List Text)
  unfolding split_csv
  parse_csv none = none
  parse_csv (some []) = none
  parse_csv (some (c ∷ s)) = some (split_csv (c ∷ s))

abbrev pub Env : Type 0
Env = Dict Text Text

-- `env.get(name, default)`
abbrev get_env : Env → Text → Text → Text
get_env env name default = elim (Dict.lookup name env) [ none ↦ default | some v ↦ v ]

-- `s or None`
abbrev pub non_empty : Option Text → Option Text
non_empty none = none
non_empty (some []) = none
non_empty (some (c ∷ s)) = some (c ∷ s)

-- A text that `int` or `float` refuses raises a `ValueError`; its wording is Python's.
abbrev pub parsed {ℓ} : {A : Type ℓ} → Option A → Result A
parsed none = err (value_error (codes "invalid literal"))
parsed (some a) = ok a

abbrev pub require : Bool → Text → Result (Unit {0})
require true message = ok tt
require false message = err (value_error message)

module _ (h : Host) where
  pub record Settings : Type 0 where
    pub clusters_config_path : Text
    pub port : ℤ
    pub tool_concurrency : ℤ
    pub cli_concurrency : ℤ
    pub default_timeout_seconds : h.Float
    pub log_level : Text
    pub kafka_bin_path : Text
    pub client_properties_dir : Text
    pub kafka_classpath : Option Text
    pub allowed_hosts : Option (List Text)

  unfoldable pub validate_positives : Settings → Result Settings
  validate_positives s = do
    require (leb_ℤ (pos 1) s.tool_concurrency) (codes "MSK_MCP_TOOL_CONCURRENCY must be >= 1")
    require (leb_ℤ (pos 1) s.cli_concurrency) (codes "MSK_MCP_CLI_CONCURRENCY must be >= 1")
    require (not (h.not_above_zero s.default_timeout_seconds))
        (codes "MSK_MCP_DEFAULT_TIMEOUT_SECONDS must be > 0")
    ok s

-- `env` is the process environment, or the argument given.
module _ (u : Unicode) (h : Host) where
  unfoldable pub load_settings : Env → Result (Settings h)
  unfolding validate_positives
  load_settings env = do
    config ←
        h.expanduser
          (get_env env (codes "MSK_MCP_CLUSTERS_CONFIG_PATH") (codes "/etc/msk-mcp/clusters.yaml"))
    port ← parsed (int u (get_env env (codes "MSK_MCP_PORT") (codes "8080")))
    tools ← parsed (int u (get_env env (codes "MSK_MCP_TOOL_CONCURRENCY") (codes "16")))
    clis ← parsed (int u (get_env env (codes "MSK_MCP_CLI_CONCURRENCY") (codes "4")))
    seconds ← parsed (h.float (get_env env (codes "MSK_MCP_DEFAULT_TIMEOUT_SECONDS") (codes "30")))
    bin ← h.expanduser (get_env env (codes "MSK_MCP_KAFKA_BIN_PATH") (codes "/opt/kafka/bin"))
    props ←
        h.expanduser (get_env env (codes "MSK_MCP_CLIENT_PROPERTIES_DIR") (codes "/tmp/msk-mcp"))
    validate_positives h (record {
      clusters_config_path = config;
      port = port;
      tool_concurrency = tools;
      cli_concurrency = clis;
      default_timeout_seconds = seconds;
      log_level = get_env env (codes "MSK_MCP_LOG_LEVEL") (codes "INFO");
      kafka_bin_path = bin;
      client_properties_dir = props;
      kafka_classpath = non_empty (Dict.lookup (codes "MSK_MCP_KAFKA_CLASSPATH") env);
      allowed_hosts = parse_csv u (Dict.lookup (codes "MSK_MCP_ALLOWED_HOSTS") env);
    })

-- A file, if it is there; the YAML reader, the test for a mapping, and pydantic's reading of the
-- `clusters` field are parameters.
module _ {Yaml : Type 0} (safe_load : Text → Result Yaml) (is_mapping : Yaml → Bool)
    (read_clusters : Yaml → Result (Dict Text ClusterConfig)) where
  unfoldable pub load_registry : Text → Option Text → Result ClustersRegistry
  unfolding at_least_one_cluster
  load_registry path none = err (value_error (codes "Cluster registry not found at " ++ path))
  load_registry path (some content) = do
    raw ← safe_load content
    require (is_mapping raw) (path ++ codes " must be a YAML mapping at the top level")
    clusters ← read_clusters raw
    valid ← at_least_one_cluster clusters
    ok (record { clusters = valid })
