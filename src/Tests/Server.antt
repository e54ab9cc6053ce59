-- ===== src/Tests/Server.antt =====
-- A server over the registry of two clusters: its startup and its calls.
use devops_agent_msk_mcp.Base.{
  ℤ, pos, ◌+ℤ◌, Text, codes, true, List, [], ◌∷◌, none, some, text_eq, text_leb, list_beq, leb_ℤ,
  int, ◌≡◌, ◌≢◌, ◌⊎◌, refl, if◌then◌else◌, sym, ◌∙◌,
}
use mathlib.Core.Path.{subst}
use devops_agent_msk_mcp.Base.Dict
use devops_agent_msk_mcp.Base.Sort.{sort_by}
use devops_agent_msk_mcp.Base.Json.{null}
use devops_agent_msk_mcp.Bouncer.{new_bouncer}
use devops_agent_msk_mcp.ClientProperties.{
  write, stored, iam_properties, new_manager, render_one, render_all, render,
}
use devops_agent_msk_mcp.CliExecutor.{file_not_found}
use devops_agent_msk_mcp.Config.{
  ClustersRegistry, load_registry, load_settings, ids, parse_csv, get,
}
use devops_agent_msk_mcp.Errors.{ok, err, ok_injective, timeout_error}
use devops_agent_msk_mcp.KafkaClients.{Conf, new_factory, get_client, build, client_config}
use devops_agent_msk_mcp.Server.{
  Outside, Inputs, AppContext, build_context, TransportSecurity, build_transport_security,
}
use devops_agent_msk_mcp.Server.Dispatch.{
  Request, cluster, log_dirs, Pace, in_time, cancelled, serve, perform, Reach, here, next,
}
use devops_agent_msk_mcp.Server.Hosts.{IsSecured, build_transport_security_lem}
use devops_agent_msk_mcp.Server.Laws.{IsReady}
use devops_agent_msk_mcp.Server.Replies.{seen, perform-Reach}
use devops_agent_msk_mcp.Server.Startup.{build_context-IsReady}
use devops_agent_msk_mcp.Tests.Registry.{host, environ, loaded-ok, admin_client, fs}
use devops_agent_msk_mcp.Tests.Registry
use devops_agent_msk_mcp.Tests.Samples.{ascii, registry, manager}
use devops_agent_msk_mcp.Tools.Acls.{ResourceTypes}
use devops_agent_msk_mcp.Tools.Cluster.{direct, describe_cluster}
use devops_agent_msk_mcp.Tools.LogDirs.{loaded, describe_log_dirs}
use devops_agent_msk_mcp.Tools.Probe.{connected}

build_transport_security_lem_example :
    (((some (codes "a.com" ∷ []) ≡ none) ⊎ (some (codes "a.com" ∷ []) ≡ some []))
      × (build_transport_security (some (codes "a.com" ∷ [])) ≡ none))
    ⊎ ((hosts : List Text) × (s : TransportSecurity) × (some (codes "a.com" ∷ []) ≡ some hosts)
        × (hosts ≢ [])
        × (build_transport_security (some (codes "a.com" ∷ [])) ≡ some s)
        × IsSecured hosts s)
build_transport_security_lem_example = build_transport_security_lem (some (codes "a.com" ∷ []))

-- A type of resources is its name.
abbrev pub types : ResourceTypes
types = record { ResourceType = Text; member = λ name. none; any = codes "ANY" }

-- A world in which each call of the client answers with nothing, and no command is found.
abbrev pub outside : Outside host types Conf
outside = record {
  unicode = ascii;
  repr = λ s. s;
  fs = fs;
  urlsplit = λ s. ok (record { hostname = none; port = ok none });
  loads = λ s. loaded null;
  plus_five = λ s. s +ℤ pos 5;
  config_source = λ n. none;
  environ = environ;
  world = λ argv env. file_not_found;
  admin_client = admin_client;
  topics = record { describe_topics = λ c ts. ok []; list_topics = λ c. ok [] };
  groups = record {
    describe_consumer_groups = λ c gs. ok [];
    list_consumer_group_offsets = λ c g. ok [];
    list_offsets = none;
  };
  listings = record { list_groups = λ c. ok (record { valid = []; errors = [] }) };
  reassignments = record { list_reassignments = none };
  configs = record { describe_configs = λ c name. ok [] };
  times = record { list_partitions = λ c. ok []; list_offsets = λ c name ps ts. ok [] };
  topology = record {
    describe =
        λ c. ok (direct (record { nodes = []; controller = none; cluster_id = none; id = none }));
  };
  acls = record { describe = λ c f. ok (direct []) };
  probe = record {
    open_connection = λ name port s. connected;
    list_topics = λ conf s. ok tt;
    at_most_five = λ s. s;
    show_float = λ s. codes "30";
    millis = λ s. s;
  };
}

abbrev pub inputs : Inputs
inputs = record {
  Yaml = ClustersRegistry;
  safe_load = λ s. ok registry;
  is_mapping = λ y. true;
  read_clusters = λ y. ok y.clusters;
  read_file = λ path. some [];
  logging = record { basic_config = λ level. ok tt; level_of = λ level. none; info = pos 20 };
  disk = [];
}

pub registry-loads :
    load_registry inputs.safe_load inputs.is_mapping inputs.read_clusters
      Registry.loaded.clusters_config_path
      (inputs.read_file Registry.loaded.clusters_config_path)
    ≡ ok registry
unfolding load_registry
registry-loads = refl

abbrev pub context : AppContext outside
context = record {
  settings = Registry.loaded;
  registry = registry;
  factory = new_factory admin_client registry;
  properties = stored fs manager (codes "prod") iam_properties;
  bouncer = record { tool_sem = 2; cli_sem = 4 };
  cli_executor = record { sem = 4; classpath = none };
}

context-starts : build_context outside inputs none ≡ ok context
unfolding codes build_context load_settings load_registry list_beq text_leb int leb_ℤ parse_csv
    Dict.lookup Dict.keys new_manager render_one render_all render get ids new_bouncer write stored
    sort_by
context-starts = refl

pub context-IsReady : IsReady outside context
context-IsReady =
    let started =
      build_context-IsReady outside inputs Registry.loaded registry loaded-ok refl registry-loads
        refl (λ k c g. (refl, refl, refl)) in
    subst (IsReady outside) (ok_injective (sym started.1 ∙ context-starts)) started.2

-- A call about a cluster that ends in time, then one of a CLI tool that is cancelled.
abbrev clock : ℤ → Pace
clock seconds = if leb_ℤ seconds (pos 30) then in_time else cancelled

abbrev pub ask_cluster : Request
ask_cluster = cluster (codes "prod")

abbrev pub ask_log_dirs : Request
ask_log_dirs = log_dirs (codes "prod") none none

abbrev served_one : AppContext outside
served_one = (serve outside clock context none ask_cluster).1

abbrev served_two : AppContext outside
served_two = (serve outside clock served_one none ask_log_dirs).1

served : Reach outside context served_two
served = next (next here clock none ask_cluster) clock none ask_log_dirs

perform-Reach_example :
    seen outside (perform outside served_two none ask_cluster)
    ≡ seen outside (perform outside context none ask_cluster)
perform-Reach_example = perform-Reach outside context context-IsReady served none ask_cluster

-- The second call ran out of time; the factory holds one client then.
late : (serve outside clock served_one none ask_log_dirs).0 ≡ err timeout_error
unfolding serve leb_ℤ ◌+ℤ◌
late = refl

one_client : Dict.keys served_two.factory.clients ≡ codes "prod" ∷ []
unfolding codes serve leb_ℤ ◌+ℤ◌ perform describe_cluster describe_log_dirs get_client new_factory
    get build list_beq Dict.lookup Dict.insert Dict.keys client_config
one_client = refl
