-- ===== src/Server/Laws.antt =====
-- What a server keeps from call to call.
use devops_agent_msk_mcp.Base.{Text, Option, List, ◌≡◌, refl, inl, inr, ap, sym, ◌∙◌}
use mathlib.Core.Path.{subst}
use devops_agent_msk_mcp.ClientProperties.{FileSystem, Manager, get_path}
use devops_agent_msk_mcp.ClientProperties.Laws.{IsConsistent, kept, fresh, refused, got}
use devops_agent_msk_mcp.ClientProperties.Startup.{IsKept}
use devops_agent_msk_mcp.CliExecutor.{CliResult}
use devops_agent_msk_mcp.Config.{Host, IamCluster, iam_cluster, ClusterConfig, get}
use devops_agent_msk_mcp.Errors.{Result, ok, err}
use devops_agent_msk_mcp.KafkaClients.{Factory, get_client}
use devops_agent_msk_mcp.KafkaClients.Laws.{IsCoherent, get_client-IsCoherent, get_client-registry}
use devops_agent_msk_mcp.Server.{Outside, AppContext}
use devops_agent_msk_mcp.Server.Dispatch.{
  Request, list_groups, consumer_group, topic, cluster, under_replicated, acls, offsets_for_times,
  partition_reassignments, topic_configs, broker_connectivity, offset_reset_plan, log_dirs, Pace,
  in_time, cancelled_early, cancelled, Served, perform, run_tool, setup_of, timeout_of, serve,
  Reach, here, next,
}
use devops_agent_msk_mcp.Tools.Acls.{ResourceTypes, AclQuery, describe_acls}
use devops_agent_msk_mcp.Tools.Cli.{Setup, cli_call}
use devops_agent_msk_mcp.Tools.Cli.Laws.{manager-cli_call}
use devops_agent_msk_mcp.Tools.Cluster.{describe_cluster}
use devops_agent_msk_mcp.Tools.Configs.{describe_topic_configs}
use devops_agent_msk_mcp.Tools.Group.{describe_consumer_group}
use devops_agent_msk_mcp.Tools.GroupList.{list_consumer_groups}
use devops_agent_msk_mcp.Tools.LogDirs.{log_dirs_argv, read_log_dirs, describe_log_dirs}
use devops_agent_msk_mcp.Tools.Reassignments.{describe_partition_reassignments}
use devops_agent_msk_mcp.Tools.ResetPlan.{
  Params, validated, dry_argv, after_run, compute_offset_reset_plan,
}
use devops_agent_msk_mcp.Tools.ResetPlan.Argv.{validate_strategy}
use devops_agent_msk_mcp.Tools.Times.{get_offsets_for_times}
use devops_agent_msk_mcp.Tools.Topics.Describe.{describe_topic}
use devops_agent_msk_mcp.Tools.Topics.UnderReplicated.{describe_under_replicated_partitions}

-- Every cluster of the registry with IAM has its path.
abbrev pub HasAll : Manager → Type 0
HasAll m = (k : Text) (c : IamCluster) → get m.registry k ≡ ok (iam_cluster c) → IsKept m k

module _ (fs : FileSystem) (m : Manager) (all : HasAll m) where
  found_kept : (id : Text) → IsKept m id → (get_path fs m id).1 ≡ m
  unfolding get_path
  found_kept id (path, e) = rw (e, get_path) refl

  -- With all paths there, asking for one writes nothing.
  get_path-same : (id : Text) → (get_path fs m id).1 ≡ m
  get_path-same id = elim (got fs m id) [
    | kept path e g ↦ ap (λ t. t.1) g
    | fresh c n known ended ↦ found_kept id (all id c known)
    | refused e n other g ↦ ap (λ t. t.1) g
  ]

module _ {h : Host} {t : ResourceTypes} {Client : Type 0} (x : Outside h t Client) where
  -- A context as startup leaves it: one registry for all its parts, a coherent factory, and a consistent
  -- manager with all paths.
  pub record IsReady (c : AppContext x) : Type 0 where
    pub coherent : IsCoherent x.admin_client c.factory
    pub consistent : IsConsistent x.fs c.properties
    pub factory_registry : c.factory.registry ≡ c.registry
    pub properties_registry : c.properties.registry ≡ c.registry
    pub has_all : HasAll c.properties

  abbrev pub with_factory : AppContext x → Factory x.admin_client → AppContext x
  with_factory c f = record c { factory = f }

  -- What the factory of a context may have become.
  abbrev pub IsSettled : AppContext x → Factory x.admin_client → Type 0
  IsSettled c f = IsCoherent x.admin_client f × (f.registry ≡ c.registry)

  -- A context that differs from another in the factory only.
  abbrev pub IsLike : AppContext x → AppContext x → Type 0
  IsLike c c' = (f : Factory x.admin_client) × (c' ≡ with_factory c f) × IsSettled c f

  module _ (c : AppContext x) (ready : IsReady c) where
    asked :
        (f : Factory x.admin_client) (id : Text)
        → IsSettled c f
        → IsSettled c (get_client x.admin_client f id).1
    asked f id (h, same) = (
      get_client-IsCoherent x.admin_client f id h,
      get_client-registry x.admin_client f id ∙ same,
    )

    acls-IsSettled :
        (f : Factory x.admin_client) (id : Text) (query : AclQuery) (r : Result ClusterConfig)
        → get c.registry id ≡ r
        → IsSettled c f
        → IsSettled c (describe_acls x.unicode t x.admin_client x.acls c.registry f id query).1
    unfolding describe_acls
    acls-IsSettled f id query (err e) known s = rw (known, describe_acls) s
    acls-IsSettled f id query (ok cfg) known s = rw (known, describe_acls) (asked f id s)

    cli_same :
        {A : Type 0} (w : Setup) (id : Text) (argv : Text → Text → List Text)
        (after : Text → Text → CliResult → Result A)
        → (cli_call w id argv after c.properties).manager ≡ c.properties
    cli_same w id argv after = elim (manager-cli_call w id argv after c.properties) [
      | inl same ↦ same
      | inr asked ↦ asked ∙ get_path-same w.fs c.properties ready.has_all id
    ]

    plan_same :
        (w : Setup) (params : Params) (r : Result (Unit {0}))
        → (validated w params c.properties r).manager ≡ c.properties
    plan_same w params (err e) = refl
    plan_same w params (ok v) =
        cli_same w params.cluster_id (dry_argv w params) (after_run w params)

    -- The context behind a tool is like the one that the server started with.
    with_asked :
        (f : Factory x.admin_client) (id : Text)
        → IsSettled c f
        → IsLike c (with_factory c (get_client x.admin_client f id).1)
    with_asked f id s = ((get_client x.admin_client f id).1, refl, asked f id s)

    pub perform-IsLike :
        (f : Factory x.admin_client) (cid : Option Text) (q : Request)
        → IsSettled c f
        → IsLike c (perform x (with_factory c f) cid q).context
    unfolding perform list_consumer_groups describe_consumer_group describe_topic describe_cluster
        describe_under_replicated_partitions get_offsets_for_times describe_partition_reassignments
        describe_topic_configs describe_log_dirs compute_offset_reset_plan
    perform-IsLike f cid (list_groups id sf) s = with_asked f id s
    perform-IsLike f cid (consumer_group id g m o) s = with_asked f id s
    perform-IsLike f cid (topic id name) s = with_asked f id s
    perform-IsLike f cid (cluster id) s = with_asked f id s
    perform-IsLike f cid (under_replicated id tf) s = with_asked f id s
    perform-IsLike f cid (acls id query) s =
        (_, refl, acls-IsSettled f id query (get c.registry id) refl s)
    perform-IsLike f cid (offsets_for_times id name ts ps) s = with_asked f id s
    perform-IsLike f cid (partition_reassignments id tf) s = with_asked f id s
    perform-IsLike f cid (topic_configs id name) s = with_asked f id s
    perform-IsLike f cid (broker_connectivity id endpoint) s = (f, refl, s)
    perform-IsLike f cid (offset_reset_plan params) s =
        let w = setup_of x c cid in
        (
          f,
          ap (λ m. record c { factory = f; properties = m })
              (plan_same w params
                (validate_strategy w.repr params.reset_strategy params.offset_value)),
          s,
        )
    perform-IsLike f cid (log_dirs id ids tf) s =
        let w = setup_of x c cid in
        (
          f,
          ap (λ m. record c { factory = f; properties = m })
              (cli_same w id (log_dirs_argv w ids) (read_log_dirs w x.loads id ids tf)),
          s,
        )

    run_tool-IsLike :
        (pace : Pace) (f : Factory x.admin_client) (s : Served x)
        → IsSettled c f
        → IsLike c s.context
        → IsLike c (run_tool x pace (with_factory c f) s).1
    unfolding run_tool
    run_tool-IsLike in_time f s settled like = like
    run_tool-IsLike cancelled_early f s settled like = (f, refl, settled)
    run_tool-IsLike cancelled f s settled like = like

    -- Whatever calls a server has served since it was ready, in whatever order and whether they ended in
    -- time or not, its settings, registry, properties files and limits are the same, and its factory is
    -- coherent and of the same registry: only the clients of the factory have changed.
    pub Reach-IsLike : {c' : AppContext x} → Reach x c c' → IsLike c c'
    unfolding serve
    Reach-IsLike here = (c.factory, refl, (ready.coherent, ready.factory_registry))
    Reach-IsLike (next {c = d} r clock cid q) =
        let (f, same, settled) = Reach-IsLike r in
        subst (λ d. IsLike c (serve x clock d cid q).1) (sym same)
          (run_tool-IsLike (clock (timeout_of x (with_factory c f) q)) f
            (perform x (with_factory c f) cid q) settled (perform-IsLike f cid q settled))
