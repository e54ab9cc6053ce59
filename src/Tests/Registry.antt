-- ===== src/Tests/Registry.antt =====
-- The registry, the settings, the clients and the properties files.
use devops_agent_msk_mcp.Base.{
  ℤ, Bool, elem, true, false, if◌then◌else◌, contains, text_leb, text_eq, pos, codes, int, leb_ℤ,
  list_beq, [], ◌∷◌, ◌++◌, none, ◌≡◌, ◌≢◌, refl,
}
use devops_agent_msk_mcp.Base.Dict
use devops_agent_msk_mcp.Base.Sort.{sort_by, IsSorted}
use devops_agent_msk_mcp.ClientProperties.{
  Manager, FileSystem, Written, wrote, unwritten, write, put, stored, get_path, render, path_of,
  render_one, render_each, render_all,
}
use devops_agent_msk_mcp.ClientProperties.Laws.{IsConsistent, CanWrite, get_path-decides}
use devops_agent_msk_mcp.ClientProperties.Startup.{CanWriteAll, HasRendered, render_all_lem}
use devops_agent_msk_mcp.Config.{
  IamCluster, ClusterConfig, iam_cluster, get, ids, unknown_cluster_error, Env, Host, Settings,
  load_settings, parse_csv,
}
use devops_agent_msk_mcp.Config.Laws.{IsPositive, load_settings-IsPositive, get-ids}
use devops_agent_msk_mcp.Errors.{Result, ok, err, Raised, exception, ◌>>=◌}
use devops_agent_msk_mcp.KafkaClients.{Conf, Factory, get_client, new_factory, build, client_config}
use devops_agent_msk_mcp.KafkaClients.Laws.{new_factory-IsCoherent, get_client-result}
use devops_agent_msk_mcp.Tests.Samples.{ascii, registry, manager, prod}

-- A float is read as a whole number, and the home directory is not expanded.
abbrev pub host : Host
host = record {
  Float = ℤ;
  float = int ascii;
  not_above_zero = λ v. leb_ℤ v (pos 0);
  expanduser = ok;
}

abbrev pub loaded : Settings host
loaded = record {
  clusters_config_path = codes "/etc/msk-mcp/clusters.yaml";
  port = pos 8080;
  tool_concurrency = pos 2;
  cli_concurrency = pos 4;
  default_timeout_seconds = pos 30;
  log_level = codes "INFO";
  kafka_bin_path = codes "/opt/kafka/bin";
  client_properties_dir = codes "/tmp/msk-mcp";
  kafka_classpath = none;
  allowed_hosts = none;
}

abbrev pub environ : Env
environ = (codes "MSK_MCP_TOOL_CONCURRENCY", codes " 2") ∷ []

pub loaded-ok : load_settings ascii host environ ≡ ok loaded
unfolding codes load_settings list_beq int leb_ℤ parse_csv Dict.lookup
loaded-ok = refl

load_settings-IsPositive_example : IsPositive host loaded
load_settings-IsPositive_example = load_settings-IsPositive host ascii environ loaded loaded-ok

-- A client is its configuration.
abbrev pub admin_client : Conf → Result Conf
admin_client conf = ok conf

abbrev factory : Factory admin_client
factory = new_factory admin_client registry

get_client-result_example :
    (get_client admin_client factory (codes "prod")).0
    ≡ (get factory.registry (codes "prod") >>= build admin_client)
get_client-result_example =
    get_client-result admin_client factory (codes "prod")
      (new_factory-IsCoherent admin_client registry)

abbrev client : Conf
client = elim ((get_client admin_client factory (codes "prod")).0) [ ok c ↦ c | err e ↦ [] ]

client-built : (get_client admin_client factory (codes "prod")).0 ≡ ok client
unfolding codes get_client new_factory get build list_beq Dict.lookup client_config
client-built = refl

unknown :
    (get_client admin_client factory (codes "x")).0
    ≡ err (unknown_cluster_error (codes "x") (ids registry))
unfolding codes get_client new_factory get ids list_beq Dict.lookup
unknown = refl

abbrev no_directory : Raised
no_directory = exception (codes "builtins") (codes "No such file or directory")

abbrev written_if : Bool → Written
written_if missing = if missing then unwritten no_directory none else wrote

-- A disk on which no call raises, and one on which a name with a slash is in a directory that is not
-- there.
abbrev pub fs : FileSystem
fs = record {
  join_path = λ dir name. dir ++ (codes "/" ++ name);
  mkdir = λ dir. ok tt;
  write_text = λ path content. wrote;
  chmod = λ path. ok tt;
  new_mode = 0o644;
}

abbrev strict : FileSystem
strict = record fs { write_text = λ path content. written_if (contains path (codes "team/")) }

manager-IsConsistent : IsConsistent fs manager
unfolding Dict.lookup
manager-IsConsistent k path found = cc

prod-path : (get_path fs manager (codes "prod")).0 ≡ ok (codes "/tmp/msk-mcp/prod.properties")
unfolding codes get_path get render list_beq Dict.lookup
prod-path = refl

get_path-decides_example :
    ((c : IamCluster)
      → get manager.registry (codes "old") ≡ ok (iam_cluster c)
      → (CanWrite fs manager (codes "old")
          → (get_path fs manager (codes "old")).0 ≡ ok (path_of fs manager (codes "old")))
        × (¬ CanWrite fs manager (codes "old")
            → (e : Raised) × ((get_path fs manager (codes "old")).0 ≡ err e)
              × ((get_path fs manager (codes "old")).1.paths ≡ manager.paths)))
    × (((c : IamCluster) → get manager.registry (codes "old") ≢ ok (iam_cluster c))
        → (e : Raised) × (get_path fs manager (codes "old") ≡ (err e, manager)))
get_path-decides_example = get_path-decides fs manager (codes "old") manager-IsConsistent

render_all_lem_example :
    ((fs.mkdir manager.output_dir ≡ ok tt)
      → CanWriteAll fs manager.registry manager.output_dir
      → (m' : Manager) × (render_all fs manager ≡ ok m'))
    × ((m' : Manager)
        → render_all fs manager ≡ ok m'
        → (fs.mkdir manager.output_dir ≡ ok tt)
          × CanWriteAll fs manager.registry manager.output_dir
          × HasRendered fs manager m')
render_all_lem_example = render_all_lem fs manager manager-IsConsistent

-- A cluster with IAM whose id has a slash: startup raises.
abbrev team : Manager
team = record {
  registry = record { clusters = (codes "team/prod", iam_cluster prod) ∷ [] };
  output_dir = codes "/tmp/msk-mcp";
  paths = [];
  files = [];
}

team-raises : render_all strict team ≡ err no_directory
unfolding codes render_all render_each render_one write put stored get ids render list_beq text_leb
    contains Dict.lookup Dict.keys sort_by
team-raises = refl

get-ids_example :
    IsSorted text_leb (ids registry)
    × ((elem (codes "old") (ids registry) ≡ true)
        → (cfg : ClusterConfig) × (get registry (codes "old") ≡ ok cfg))
    × ((elem (codes "old") (ids registry) ≡ false)
        → get registry (codes "old") ≡ err (unknown_cluster_error (codes "old") (ids registry)))
get-ids_example = get-ids registry (codes "old")
