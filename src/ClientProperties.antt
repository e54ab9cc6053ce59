-- ===== src/ClientProperties.antt =====
-- src/msk_mcp/client_properties.py: one properties file for each cluster. The state is the table of
-- paths with the files on disk. How the calls on paths and files end is a parameter, `FileSystem`.
pub mod Laws
pub mod Startup
use devops_agent_msk_mcp.Base.{ℕ, Text, codes, List, [], ◌∷◌, ◌++◌, Option, none, some, text_eq}
use devops_agent_msk_mcp.Base.Dict
use devops_agent_msk_mcp.Base.Dict.{Dict}
use devops_agent_msk_mcp.Config.{
  ClusterConfig, iam_cluster, scram_cluster, mtls_cluster, ClustersRegistry, ids, get,
}
use devops_agent_msk_mcp.Errors.{
  Result, ok, err, Raised, tool_error, timeout_error, exception, execution_failure, plain_error,
}

pub record File : Type 0 where
  pub content : Text
  pub mode : ℕ

pub record Manager : Type 0 where
  pub registry : ClustersRegistry
  pub output_dir : Text
  pub paths : Dict Text Text
  pub files : Dict Text File

unfoldable pub iam_properties : Text
iam_properties =
    codes "security.protocol=SASL_SSL\n"
    ++ (codes "sasl.mechanism=AWS_MSK_IAM\n"
        ++ (codes "sasl.jaas.config=software.amazon.msk.auth.iam.IAMLoginModule required;\n"
            ++ (codes "sasl.client.callback.handler.class="
                ++ codes "software.amazon.msk.auth.iam.IAMClientCallbackHandler\n")))

abbrev pub scram_unsupported : Raised
scram_unsupported = tool_error (
    plain_error execution_failure
      (codes "SASL_SCRAM client.properties rendering not yet implemented in this POC."))

abbrev pub mtls_unsupported : Raised
mtls_unsupported = tool_error (
    plain_error execution_failure
      (codes "MTLS client.properties rendering not yet implemented in this POC."))

unfoldable pub render : ClusterConfig → Result Text
render (iam_cluster c) = ok iam_properties
render (scram_cluster c) = err scram_unsupported
render (mtls_cluster c) = err mtls_unsupported

-- 0o600
abbrev pub owner_only : ℕ
owner_only = 0o600

-- `ClientPropertiesManager(registry, output_dir)` over the files that are on disk.
unfoldable pub new_manager : ClustersRegistry → Text → Dict Text File → Manager
new_manager registry output_dir files = record {
  registry = registry;
  output_dir = output_dir;
  paths = [];
  files = files;
}

-- How `write_text` ends. If it raises, it has not opened the file, or the file is left with some text.
pub data Written : Type 0 where
  wrote : Written
  unwritten : Raised → Option Text → Written

-- `dir / name`; the calls of pathlib and os, which end the same way each time for a path and a text; and
-- the mode of a new file.
pub record FileSystem : Type 0 where
  pub join_path : Text → Text → Text
  pub mkdir : Text → Result (Unit {0})
  pub write_text : Text → Text → Written
  pub chmod : Text → Result (Unit {0})
  pub new_mode : ℕ

module _ (fs : FileSystem) where
  abbrev pub path_of : Manager → Text → Text
  path_of m cluster_id = fs.join_path m.output_dir (cluster_id ++ codes ".properties")

  abbrev mode_of : Option File → ℕ
  mode_of none = fs.new_mode
  mode_of (some f) = f.mode

  -- The text of a file is written, and its mode stays as it is.
  unfoldable pub put : Manager → Text → Text → Manager
  put m path content = record m {
    files =
        Dict.insert path (record { content = content; mode = mode_of (Dict.lookup path m.files) })
          m.files;
  }

  -- The file is written and has its mode, and its path is kept.
  unfoldable pub stored : Manager → Text → Text → Manager
  stored m cluster_id content =
      let path = path_of m cluster_id in
      record m {
        files = Dict.insert path (record { content = content; mode = owner_only }) m.files;
        paths = Dict.insert cluster_id path m.paths;
      }

  -- What follows on `os.chmod`.
  abbrev pub after_chmod : Manager → Text → Text → Result (Unit {0}) → Result Text × Manager
  after_chmod m cluster_id content (err e) = (err e, put m (path_of m cluster_id) content)
  after_chmod m cluster_id content (ok _) = (ok (path_of m cluster_id), stored m cluster_id content)

  -- What follows on `path.write_text`.
  abbrev pub after_write : Manager → Text → Text → Written → Result Text × Manager
  after_write m cluster_id content (unwritten e none) = (err e, m)
  after_write m cluster_id content (unwritten e (some left)) =
      (err e, put m (path_of m cluster_id) left)
  after_write m cluster_id content wrote =
      after_chmod m cluster_id content (fs.chmod (path_of m cluster_id))

  -- The file is written, then given its mode, and its path is kept.
  unfoldable pub write : Manager → Text → Text → Result Text × Manager
  unfolding put stored
  write m cluster_id content =
      after_write m cluster_id content (fs.write_text (path_of m cluster_id) content)

  -- An error of the file calls ends the loop.
  abbrev pub or_raised : Result Text × Manager → Result Manager
  or_raised (err e, m) = err e
  or_raised (ok path, m) = ok m

  -- What `render_all` does with what `_render` gave.
  abbrev pub write_or_skip : Manager → Text → Result Text → Result Manager
  write_or_skip m cluster_id (ok content) = or_raised (write m cluster_id content)
  write_or_skip m cluster_id (err (tool_error e)) = ok m
  write_or_skip m cluster_id (err timeout_error) = err timeout_error
  write_or_skip m cluster_id (err (exception owner text)) = err (exception owner text)

  -- One round of the loop.
  unfoldable pub render_one : Manager → Text → Result Manager
  unfolding write render
  render_one m cluster_id = elim (get m.registry cluster_id) [
    | err e ↦ err e
    | ok cfg ↦ write_or_skip m cluster_id (render cfg)
  ]

  unfoldable pub render_each : List Text → Manager → Result Manager
  render_each [] m = ok m
  render_each (cluster_id ∷ rest) m = elim (render_one m cluster_id) [
    | err e ↦ err e
    | ok m' ↦ render_each rest m'
  ]

  unfoldable pub render_all : Manager → Result Manager
  unfolding render_each
  render_all m = elim (fs.mkdir m.output_dir) [
    | err e ↦ err e
    | ok _ ↦ render_each (ids m.registry) m
  ]

  abbrev pub after_mkdir : Manager → Text → Text → Result (Unit {0}) → Result Text × Manager
  after_mkdir m cluster_id content (err e) = (err e, m)
  after_mkdir m cluster_id content (ok _) = write m cluster_id content

  abbrev render_and_write : Manager → Text → Result Text → Result Text × Manager
  render_and_write m cluster_id (err e) = (err e, m)
  render_and_write m cluster_id (ok content) =
      after_mkdir m cluster_id content (fs.mkdir m.output_dir)

  abbrev render_missing : Manager → Text → Result ClusterConfig → Result Text × Manager
  render_missing m cluster_id (err e) = (err e, m)
  render_missing m cluster_id (ok cfg) = render_and_write m cluster_id (render cfg)

  unfoldable pub get_path : Manager → Text → Result Text × Manager
  unfolding write
  get_path m cluster_id = elim (Dict.lookup cluster_id m.paths) [
    | some path ↦ (ok path, m)
    | none ↦ render_missing m cluster_id (get m.registry cluster_id)
  ]
