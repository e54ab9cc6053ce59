-- ===== src/KafkaClients.antt =====
-- src/msk_mcp/kafka_clients.py: one AdminClient for each cluster, built on first use and kept.
-- The constructor of `AdminClient` and the IAM token provider are parameters.
pub mod Laws
use devops_agent_msk_mcp.Base.{ℤ, Text, codes, List, [], ◌∷◌, ◌++◌, Option, none, some, text_eq}
use devops_agent_msk_mcp.Base.Dict
use devops_agent_msk_mcp.Base.Dict.{Dict}
use devops_agent_msk_mcp.Config.{
  IamCluster, ScramCluster, MtlsCluster, ClusterConfig, iam_cluster, scram_cluster, mtls_cluster,
  bootstrap_servers, ClustersRegistry, get,
}
use devops_agent_msk_mcp.Errors.{
  Result, ok, err, tool_error, execution_failure, advised_error, ◌>>=◌,
}

-- A value of the client's configuration: a text, a number, or the callback that fetches a token for a
-- region.
pub data ConfValue : Type 0 where
  text : Text → ConfValue
  number : ℤ → ConfValue
  oauth_cb : Text → ConfValue

abbrev pub Conf : Type 0
Conf = Dict Text ConfValue

unfoldable pub base_config : ClusterConfig → Conf
base_config cfg = (codes "bootstrap.servers", text (bootstrap_servers cfg)) ∷ []

unfoldable pub iam_config : IamCluster → Result Conf
iam_config cfg = ok (
    (codes "security.protocol", text (codes "SASL_SSL"))
    ∷ (codes "sasl.mechanism", text (codes "OAUTHBEARER"))
    ∷ (codes "oauth_cb", oauth_cb cfg.region)
    ∷ [])

unfoldable pub scram_config : ScramCluster → Result Conf
scram_config cfg = err (
    tool_error (
      advised_error execution_failure
        (codes "SASL_SCRAM auth is not yet implemented in this POC. Use auth_type: IAM for now.")
        (codes "See the project roadmap; SCRAM support arrives after the walking skeleton.")))

unfoldable pub mtls_config : MtlsCluster → Result Conf
mtls_config cfg = err (
    tool_error (
      advised_error execution_failure
        (codes "MTLS auth is not yet implemented in this POC. Use auth_type: IAM for now.")
        (codes "See the project roadmap; mTLS support arrives after the walking skeleton.")))

-- `conf.update(more)`
unfoldable pub update : Conf → Conf → Conf
update conf [] = conf
update conf ((k, v) ∷ more) = update (Dict.insert k v conf) more

-- The configuration that `_build` hands to `AdminClient`.
unfoldable pub client_config : ClusterConfig → Result Conf
unfolding base_config iam_config scram_config mtls_config update
client_config (iam_cluster c) = do
  more ← iam_config c
  ok (update (base_config (iam_cluster c)) more)
client_config (scram_cluster c) = do
  more ← scram_config c
  ok (update (base_config (scram_cluster c)) more)
client_config (mtls_cluster c) = do
  more ← mtls_config c
  ok (update (base_config (mtls_cluster c)) more)

module _ {Client : Type 0} (admin_client : Conf → Result Client) where
  pub record Factory : Type 0 where
    pub registry : ClustersRegistry
    pub clients : Dict Text Client

  unfoldable pub new_factory : ClustersRegistry → Factory
  new_factory registry = record { registry = registry; clients = [] }

  unfoldable pub build : ClusterConfig → Result Client
  build cfg = client_config cfg >>= admin_client

  abbrev keep : Factory → Text → Result Client → Result Client × Factory
  keep f cluster_id (err e) = (err e, f)
  keep f cluster_id (ok c) = (ok c, record f { clients = Dict.insert cluster_id c f.clients })

  unfoldable pub get_client : Factory → Text → Result Client × Factory
  get_client f cluster_id = elim (Dict.lookup cluster_id f.clients) [
    | some c ↦ (ok c, f)
    | none ↦ keep f cluster_id (get f.registry cluster_id >>= build)
  ]
