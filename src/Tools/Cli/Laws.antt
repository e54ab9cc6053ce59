-- ===== src/Tools/Cli/Laws.antt =====
-- How a call of a tool with a subprocess ends, and what it does to the properties manager.
use devops_agent_msk_mcp.Base.{Text, List, [], ◌∷◌, text_eq, ◌≡◌, ap, refl, ◌⊎◌, inl, inr, All}
use devops_agent_msk_mcp.ClientProperties.{Manager, get_path}
use devops_agent_msk_mcp.CliExecutor.{CliResult, Spawn, child_env, after_spawn, run}
use devops_agent_msk_mcp.CliExecutor.Laws.{env_value, lookup-child_env}
use devops_agent_msk_mcp.Base.Dict
use devops_agent_msk_mcp.Config.{Env, non_empty, ClusterConfig, get, bootstrap_servers}
use devops_agent_msk_mcp.Errors.{Result, ok, err, ◌>>=◌}
use devops_agent_msk_mcp.Tools.Cli.{Setup, Outcome, with_path, with_config, cli_call}

module _ {ℓ} {A : Type ℓ} (w : Setup) (cluster_id : Text) (argv_of : Text → Text → List Text)
    (after : Text → Text → CliResult → Result A) where
  -- A call that answers: it ran one command line, of a result that the answer was made of.
  abbrev pub IsAnswer : Outcome A → A → Type ℓ
  IsAnswer o a =
      (servers : Text) × (path : Text) × (c : CliResult) × (o.executed ≡ argv_of servers path ∷ [])
      × (after servers path c ≡ ok a)

  ran-IsAnswer :
      (servers path : Text) (m : Manager) (r : Result CliResult) (a : A)
      → (r >>= after servers path) ≡ ok a
      → (c : CliResult) × (r ≡ ok c) × (after servers path c ≡ ok a)
  ran-IsAnswer servers path m (err e) a h = cc
  ran-IsAnswer servers path m (ok c) a h = (c, refl, h)

  with_path-IsAnswer :
      (servers : Text) (found : Result Text × Manager) (a : A)
      → (with_path w cluster_id argv_of after servers found).result ≡ ok a
      → IsAnswer (with_path w cluster_id argv_of after servers found) a
  with_path-IsAnswer servers (err e, m) a h = cc
  with_path-IsAnswer servers (ok path, m) a h =
      let ran =
        run w.unicode w.classpath w.world (argv_of servers path) w.timeout w.correlation_id
          w.environ in
      let (c, _, made) = ran-IsAnswer servers path m ran.1 a h in (servers, path, c, refl, made)

  with_config-IsAnswer :
      (m : Manager) (r : Result ClusterConfig) (a : A)
      → (with_config w cluster_id argv_of after m r).result ≡ ok a
      → IsAnswer (with_config w cluster_id argv_of after m r) a
  with_config-IsAnswer m (err e) a h = cc
  with_config-IsAnswer m (ok cfg) a h =
      with_path-IsAnswer (bootstrap_servers cfg) (get_path w.fs m cluster_id) a h

  pub cli_call-IsAnswer :
      (m : Manager) (a : A)
      → (cli_call w cluster_id argv_of after m).result ≡ ok a
      → IsAnswer (cli_call w cluster_id argv_of after m) a
  unfolding cli_call
  cli_call-IsAnswer m a h = with_config-IsAnswer m (get w.registry cluster_id) a h

  -- Whatever the outcome, each command line that was run is one that `argv_of` gives.
  module _ {κ} (P : List Text → Type κ)
      (good : (servers path : Text) → P (argv_of servers path)) where
    All-with_path :
        (servers : Text) (found : Result Text × Manager)
        → All P (with_path w cluster_id argv_of after servers found).executed
    All-with_path servers (err e, m) = tt
    All-with_path servers (ok path, m) = (good servers path, tt)

    All-with_config :
        (m : Manager) (r : Result ClusterConfig)
        → All P (with_config w cluster_id argv_of after m r).executed
    All-with_config m (err e) = tt
    All-with_config m (ok cfg) = All-with_path (bootstrap_servers cfg) (get_path w.fs m cluster_id)

    pub All-cli_call : (m : Manager) → All P (cli_call w cluster_id argv_of after m).executed
    unfolding cli_call
    All-cli_call m = All-with_config m (get w.registry cluster_id)

  manager-with_path :
      (servers : Text) (found : Result Text × Manager)
      → (with_path w cluster_id argv_of after servers found).manager ≡ found.1
  manager-with_path servers (err e, m) = refl
  manager-with_path servers (ok path, m) = refl

  manager-with_config :
      (m : Manager) (r : Result ClusterConfig)
      → ((with_config w cluster_id argv_of after m r).manager ≡ m)
        ⊎ ((with_config w cluster_id argv_of after m r).manager ≡ (get_path w.fs m cluster_id).1)
  manager-with_config m (err e) = inl refl
  manager-with_config m (ok cfg) =
      inr (manager-with_path (bootstrap_servers cfg) (get_path w.fs m cluster_id))

  -- The manager after the call is the one before, or the one that a lookup of the path leaves.
  pub manager-cli_call :
      (m : Manager)
      → ((cli_call w cluster_id argv_of after m).manager ≡ m)
        ⊎ ((cli_call w cluster_id argv_of after m).manager ≡ (get_path w.fs m cluster_id).1)
  unfolding cli_call
  manager-cli_call m = manager-with_config m (get w.registry cluster_id)

-- Another world of processes around the same setup.
abbrev pub in_world : Setup → (List Text → Env → Spawn) → Setup
in_world w world = record w { world = world }

-- The environment that a setup gives its subprocess, variable by variable.
abbrev pub IsChildEnv : Setup → Env → Type 0
IsChildEnv w env =
    (k : Text)
    → Dict.lookup k env ≡ env_value (non_empty w.classpath) (non_empty w.correlation_id) w.environ k

module _ {ℓ} {A : Type ℓ} (w : Setup) (cluster_id : Text) (argv_of : Text → Text → List Text)
    (after : Text → Text → CliResult → Result A) (world : List Text → Env → Spawn)
    (agrees : (argv : List Text) (env : Env)
      → IsChildEnv w env
      → w.world argv env ≡ world argv env) where
  same_run :
      (argv : List Text)
      → run w.unicode w.classpath w.world argv w.timeout w.correlation_id w.environ
        ≡ run w.unicode w.classpath world argv w.timeout w.correlation_id w.environ
  unfolding run
  same_run [] = refl
  same_run (name ∷ args) = ap (after_spawn w.unicode (name ∷ args) name w.timeout) (
      agrees (name ∷ args) (child_env w.classpath w.correlation_id w.environ)
        (lookup-child_env w.classpath w.correlation_id w.environ))

  with_path-world :
      (servers : Text) (found : Result Text × Manager)
      → with_path w cluster_id argv_of after servers found
        ≡ with_path (in_world w world) cluster_id argv_of after servers found
  with_path-world servers (err e, m) = refl
  with_path-world servers (ok path, m) = rw (same_run (argv_of servers path)) refl

  with_config-world :
      (m : Manager) (r : Result ClusterConfig)
      → with_config w cluster_id argv_of after m r
        ≡ with_config (in_world w world) cluster_id argv_of after m r
  with_config-world m (err e) = refl
  with_config-world m (ok cfg) =
      with_path-world (bootstrap_servers cfg) (get_path w.fs m cluster_id)

  -- Only the behaviour of processes in that environment matters.
  pub cli_call-world :
      (m : Manager)
      → cli_call w cluster_id argv_of after m
        ≡ cli_call (in_world w world) cluster_id argv_of after m
  unfolding cli_call
  cli_call-world m = with_config-world m (get w.registry cluster_id)
