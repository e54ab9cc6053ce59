-- ===== src/Server.antt =====
-- src/msk_mcp/server.py: what the tools of a server share, how it is built at startup, and the hosts that
-- it answers to. Starlette and FastMCP are not modelled.
pub mod Dispatch
pub mod Startup
pub mod Laws
pub mod Replies
pub mod ReadOnly
pub mod Correlation
pub mod App
pub mod Service
pub mod Hosts
pub mod Calls
use devops_agent_msk_mcp.Base.{
  ℕ, ℤ, Text, codes, Unicode, Bool, true, false, not, List, [], ◌∷◌, ◌++◌, Option, none, some, elem,
  text_eq, ◌==◌, if◌then◌else◌,
}
use devops_agent_msk_mcp.Base.Dict.{Dict}
use devops_agent_msk_mcp.Base.Parts.{keep}
use devops_agent_msk_mcp.Bouncer.{Bouncer, new_bouncer}
use devops_agent_msk_mcp.ClientProperties.{FileSystem, File, Manager, new_manager, render_all}
use devops_agent_msk_mcp.CliExecutor.{Spawn}
use devops_agent_msk_mcp.Config.{
  Host, Settings, Env, ClusterConfig, ClustersRegistry, load_settings, load_registry,
}
use devops_agent_msk_mcp.Errors.{Result, ok, err, ◌>>=◌, ◌>>◌}
use devops_agent_msk_mcp.KafkaClients.{Conf, Factory, new_factory}
use devops_agent_msk_mcp.LoggingSetup.{Logging, configure_logging}
use devops_agent_msk_mcp.Tools.Acls.{ResourceTypes, AclAdmin}
use devops_agent_msk_mcp.Tools.Cluster.{ClusterAdmin}
use devops_agent_msk_mcp.Tools.Configs.{ConfigAdmin}
use devops_agent_msk_mcp.Tools.Group.{GroupAdmin}
use devops_agent_msk_mcp.Tools.GroupList.{ListAdmin}
use devops_agent_msk_mcp.Tools.LogDirs.{Loaded}
use devops_agent_msk_mcp.Tools.Probe.{ProbeCalls, Url}
use devops_agent_msk_mcp.Tools.Reassignments.{ReassignmentAdmin}
use devops_agent_msk_mcp.Tools.Times.{TimesAdmin}
use devops_agent_msk_mcp.Tools.Topics.{TopicAdmin}

-- The settings that FastMCP is given: whether it checks the `Host` header, and against which hosts.
pub record TransportSecurity : Type 0 where
  pub enable_dns_rebinding_protection : Bool
  pub allowed_hosts : Option (List Text)

abbrev pub base_hosts : List Text
base_hosts = codes "127.0.0.1:*" ∷ codes "localhost:*" ∷ codes "[::1]:*" ∷ []

-- `allowed_hosts == ["*"]`
abbrev pub is_star : List Text → Bool
is_star [] = false
is_star (h ∷ []) = h == codes "*"
is_star (h ∷ k ∷ hs) = false

unfoldable pub build_transport_security : Option (List Text) → Option TransportSecurity
build_transport_security none = none
build_transport_security (some []) = none
build_transport_security (some (h ∷ hs)) =
    if is_star (h ∷ hs)
    then some (record { enable_dns_rebinding_protection = false; allowed_hosts = none })
    else some (record {
      enable_dns_rebinding_protection = true;
      allowed_hosts = some (base_hosts ++ keep (λ x. not (elem x base_hosts)) (h ∷ hs));
    })

-- What the server takes from the outside: Python's functions, the client library's calls, the process
-- environment and the processes that it starts.
pub record Outside (h : Host) (t : ResourceTypes) (Client : Type 0) : Type 0 where
  pub unicode : Unicode
  pub repr : Text → Text
  pub fs : FileSystem
  pub urlsplit : Text → Result Url
  pub loads : Text → Loaded
  pub plus_five : h.Float → h.Float
  pub config_source : ℤ → Option Text
  pub environ : Env
  pub world : List Text → Env → Spawn
  pub admin_client : Conf → Result Client
  pub topics : TopicAdmin Client
  pub groups : GroupAdmin Client
  pub listings : ListAdmin Client
  pub reassignments : ReassignmentAdmin Client
  pub configs : ConfigAdmin Client
  pub times : TimesAdmin Client
  pub topology : ClusterAdmin Client
  pub acls : AclAdmin t Client
  pub probe : ProbeCalls h

pub record CliExecutor : Type 0 where
  pub sem : ℕ
  pub classpath : Option Text

-- What `build_context` reads: the file of the registry, if it is there, its YAML, what Python's `logging` gives,
-- and the files that are already on disk.
pub record Inputs : Type 1 where
  pub Yaml : Type 0
  pub safe_load : Text → Result Yaml
  pub is_mapping : Yaml → Bool
  pub read_clusters : Yaml → Result (Dict Text ClusterConfig)
  pub read_file : Text → Option Text
  pub logging : Logging
  pub disk : Dict Text File

module _ {h : Host} {t : ResourceTypes} {Client : Type 0} (x : Outside h t Client) where
  pub record AppContext : Type 0 where
    pub settings : Settings h
    pub registry : ClustersRegistry
    pub factory : Factory x.admin_client
    pub properties : Manager
    pub bouncer : Bouncer
    pub cli_executor : CliExecutor

  abbrev pub settings_or_load : Option (Settings h) → Result (Settings h)
  settings_or_load none = load_settings x.unicode h x.environ
  settings_or_load (some s) = ok s

  unfoldable pub build_context : Inputs → Option (Settings h) → Result AppContext
  unfolding configure_logging
  build_context i given = do
    settings ← settings_or_load given
    log_config ← configure_logging x.unicode i.logging settings.log_level
    registry ←
        load_registry i.safe_load i.is_mapping i.read_clusters settings.clusters_config_path
          (i.read_file settings.clusters_config_path)
    properties ← render_all x.fs (new_manager registry settings.client_properties_dir i.disk)
    bouncer ← new_bouncer settings.tool_concurrency settings.cli_concurrency
    ok (record {
      settings = settings;
      registry = registry;
      factory = new_factory x.admin_client registry;
      properties = properties;
      bouncer = bouncer;
      cli_executor = record { sem = bouncer.cli_sem; classpath = settings.kafka_classpath };
    })
