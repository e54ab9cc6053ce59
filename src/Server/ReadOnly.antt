-- ===== src/Server/ReadOnly.antt =====
-- Which command lines the tools of src/msk_mcp/server.py run, one call by itself or many at once.
use devops_agent_msk_mcp.Base.{
  ℤ, show_ℤ, none, some, true, list_beq, text_eq, ◌≢◌, Text, codes, List, [], ◌∷◌, ◌++◌, Option,
  ◌≡◌, ◌⊎◌, inl, inr, refl, ap, sym, All,
}
use mathlib.Core.Path.{subst}
use devops_agent_msk_mcp.Config.{Host}
use devops_agent_msk_mcp.ClientProperties.{Manager}
use devops_agent_msk_mcp.Errors.{Result, ok, err}
use devops_agent_msk_mcp.Tools.ResetPlan.Argv.{show_value, strategy_args, validate_strategy}
use devops_agent_msk_mcp.Tools.ResetPlan.Argv.Laws.{
  needs_value, four_strategies, validate_strategy-ok, common_args, build_argv-common_args,
}
use devops_agent_msk_mcp.Server.{Outside, AppContext}
use devops_agent_msk_mcp.Server.Calls.{
  Stage, waiting, running, begun, queued, in_cli, ran, over, cancelled, abandoned, Call, System,
  start, Reach,
}
use devops_agent_msk_mcp.Server.Calls.Replies.{alone, IsFaithfulAt, IsFaithful, Reach-IsSound}
use devops_agent_msk_mcp.Server.Dispatch.{
  Request, list_groups, consumer_group, topic, cluster, under_replicated, acls, offsets_for_times,
  partition_reassignments, topic_configs, broker_connectivity, offset_reset_plan, log_dirs, Served,
  setup_of, perform,
}
use devops_agent_msk_mcp.Server.Laws.{IsReady}
use devops_agent_msk_mcp.Server.Replies.{seen}
use devops_agent_msk_mcp.Tools.Acls.{ResourceTypes}
use devops_agent_msk_mcp.Tools.Cli.{Setup}
use devops_agent_msk_mcp.Tools.Cli.Laws.{All-cli_call}
use devops_agent_msk_mcp.Tools.LogDirs.{Loaded, log_dirs_argv, read_log_dirs, describe_log_dirs}
use devops_agent_msk_mcp.Tools.ResetPlan.{
  Params, request, dry_argv, after_run, validated, compute_offset_reset_plan,
}

-- The options of the four strategies.
abbrev pub IsStrategy : List Text → Type 0
IsStrategy options =
    (options ≡ codes "--to-latest" ∷ [])
    ⊎ (options ≡ codes "--to-earliest" ∷ [])
    ⊎ ((z : ℤ) × (options ≡ codes "--to-offset" ∷ show_ℤ z ∷ []))
    ⊎ ((z : ℤ) × (options ≡ codes "--shift-by" ∷ show_ℤ z ∷ []))

-- Option by option: a description of log directories, of all brokers or of some.
abbrev pub IsDescription : Text → List Text → Type 0
IsDescription bin argv =
    (servers : Text) × (path : Text) × (brokers : List Text) × (argv
      ≡ (bin ++ codes "/kafka-log-dirs.sh")
        ∷ codes "--bootstrap-server"
        ∷ servers
        ∷ codes "--command-config"
        ∷ path
        ∷ codes "--describe"
        ∷ brokers)
    × ((brokers ≡ []) ⊎ ((b : Text) × (brokers ≡ codes "--broker-list" ∷ b ∷ [])))

-- A dry run of a reset of the offsets of one group and one topic, by one of the four strategies.
abbrev pub IsDryReset : Text → List Text → Type 0
IsDryReset bin argv =
    (servers : Text) × (path : Text) × (group : Text) × (topic : Text) × (options : List Text)
    × IsStrategy options
    × (argv
        ≡ (bin ++ codes "/kafka-consumer-groups.sh")
          ∷ codes "--bootstrap-server"
          ∷ servers
          ∷ codes "--command-config"
          ∷ path
          ∷ codes "--group"
          ∷ group
          ∷ codes "--topic"
          ∷ topic
          ∷ codes "--reset-offsets"
          ∷ (options ++ (codes "--dry-run" ∷ [])))

abbrev pub IsReadOnly : Text → List Text → Type 0
IsReadOnly bin argv = IsDescription bin argv ⊎ IsDryReset bin argv

-- The options of a strategy, by its name; one that needs a value has one.
named-IsStrategy :
    (s : Text) (v : Option ℤ)
    → (s ≡ codes "to-latest")
      ⊎ (s ≡ codes "to-earliest")
      ⊎ (s ≡ codes "to-offset")
      ⊎ (s ≡ codes "shift-by")
    → ((needs_value s ≡ true) → v ≢ none)
    → IsStrategy (strategy_args s v)
unfolding codes list_beq strategy_args show_value
named-IsStrategy s v (inl e) n = subst (λ t. IsStrategy (strategy_args t v)) (sym e) (inl refl)
named-IsStrategy s v (inr (inl e)) n =
    subst (λ t. IsStrategy (strategy_args t v)) (sym e) (inr (inl refl))
named-IsStrategy s none (inr (inr (inl e))) n = absurd (n (ap needs_value e) refl)
named-IsStrategy s (some z) (inr (inr (inl e))) n =
    subst (λ t. IsStrategy (strategy_args t (some z))) (sym e) (inr (inr (inl (z, refl))))
named-IsStrategy s none (inr (inr (inr e))) n = absurd (n (ap needs_value e) refl)
named-IsStrategy s (some z) (inr (inr (inr e))) n =
    subst (λ t. IsStrategy (strategy_args t (some z))) (sym e) (inr (inr (inr (z, refl))))

-- A strategy that passes gives its own options.
strategy_args-IsStrategy :
    (repr : Text → Text) (s : Text) (v : Option ℤ)
    → validate_strategy repr s v ≡ ok tt
    → IsStrategy (strategy_args s v)
strategy_args-IsStrategy repr s v passed =
    let (valid, value) = (validate_strategy-ok repr s v).0 passed in
    named-IsStrategy s v (four_strategies s valid) value

module _ (w : Setup) where
  log_dirs_argv-IsReadOnly :
      (broker_ids : Option Text) (servers path : Text)
      → IsReadOnly w.kafka_bin_path (log_dirs_argv w broker_ids servers path)
  unfolding log_dirs_argv
  log_dirs_argv-IsReadOnly none servers path = inl (servers, path, [], refl, inl refl)
  log_dirs_argv-IsReadOnly (some []) servers path = inl (servers, path, [], refl, inl refl)
  log_dirs_argv-IsReadOnly (some (c ∷ b)) servers path =
      inl (servers, path, _, refl, inr (c ∷ b, refl))

  describe_log_dirs-IsReadOnly :
      (loads : Text → Loaded) (id : Text) (broker_ids topic_filter : Option Text) (m : Manager)
      → All
          (IsReadOnly w.kafka_bin_path)
          (describe_log_dirs w loads id broker_ids topic_filter m).executed
  unfolding describe_log_dirs
  describe_log_dirs-IsReadOnly loads id broker_ids topic_filter m =
      All-cli_call w id (log_dirs_argv w broker_ids)
        (read_log_dirs w loads id broker_ids topic_filter) (IsReadOnly w.kafka_bin_path)
        (log_dirs_argv-IsReadOnly broker_ids) m

  dry_argv-IsReadOnly :
      (p : Params) (servers path : Text)
      → validate_strategy w.repr p.reset_strategy p.offset_value ≡ ok tt
      → IsReadOnly w.kafka_bin_path (dry_argv w p servers path)
  unfolding common_args
  dry_argv-IsReadOnly p servers path passed = inr (
    servers,
    path,
    p.group_id,
    p.topic_name,
    strategy_args p.reset_strategy p.offset_value,
    strategy_args-IsStrategy w.repr p.reset_strategy p.offset_value passed,
    (build_argv-common_args (request w p servers path)).0,
  )

  validated-IsReadOnly :
      (p : Params) (m : Manager) (r : Result (Unit {0}))
      → validate_strategy w.repr p.reset_strategy p.offset_value ≡ r
      → All (IsReadOnly w.kafka_bin_path) (validated w p m r).executed
  validated-IsReadOnly p m (err e) passed = tt
  validated-IsReadOnly p m (ok tt) passed =
      All-cli_call w p.cluster_id (dry_argv w p) (after_run w p) (IsReadOnly w.kafka_bin_path)
        (λ servers path. dry_argv-IsReadOnly p servers path passed) m

  compute_offset_reset_plan-IsReadOnly :
      (p : Params) (m : Manager)
      → All (IsReadOnly w.kafka_bin_path) (compute_offset_reset_plan w p m).executed
  unfolding compute_offset_reset_plan
  compute_offset_reset_plan-IsReadOnly p m =
      validated-IsReadOnly p m (validate_strategy w.repr p.reset_strategy p.offset_value) refl

module _ {h : Host} {t : ResourceTypes} {Client : Type 0} (x : Outside h t Client) where
  perform-IsReadOnly :
      (c : AppContext x) (cid : Option Text) (q : Request)
      → All (IsReadOnly c.settings.kafka_bin_path) (perform x c cid q).executed
  unfolding perform
  perform-IsReadOnly c cid (list_groups id sf) = tt
  perform-IsReadOnly c cid (consumer_group id group m o) = tt
  perform-IsReadOnly c cid (topic id name) = tt
  perform-IsReadOnly c cid (cluster id) = tt
  perform-IsReadOnly c cid (under_replicated id tf) = tt
  perform-IsReadOnly c cid (acls id query) = tt
  perform-IsReadOnly c cid (offsets_for_times id name ts ps) = tt
  perform-IsReadOnly c cid (partition_reassignments id tf) = tt
  perform-IsReadOnly c cid (topic_configs id name) = tt
  perform-IsReadOnly c cid (broker_connectivity id e) = tt
  perform-IsReadOnly c cid (offset_reset_plan p) =
      compute_offset_reset_plan-IsReadOnly (setup_of x c cid) p c.properties
  perform-IsReadOnly c cid (log_dirs id b tf) =
      describe_log_dirs-IsReadOnly (setup_of x c cid) x.loads id b tf c.properties

  -- The command lines of a call that has begun and is not answered yet.
  abbrev pub commands : Stage x → List (List Text)
  commands waiting = []
  commands running = []
  commands (begun d) = d.executed
  commands (queued d) = d.executed
  commands (in_cli d) = d.executed
  commands (ran d) = d.executed
  commands (over r) = []
  commands cancelled = []
  commands (abandoned d) = d.executed

  module _ (c : AppContext x) (ready : IsReady x c) where
    abbrev pub OnlyReads : Call x → Type 0
    OnlyReads k = All (IsReadOnly c.settings.kafka_bin_path) (commands k.stage)

    same_commands :
        (k : Call x) (d : Served x)
        → seen x d ≡ seen x (alone x c ready k)
        → All (IsReadOnly c.settings.kafka_bin_path) d.executed
    same_commands k d e =
        subst (All (IsReadOnly c.settings.kafka_bin_path)) (sym (ap (λ p. p.1) e))
          (perform-IsReadOnly c k.cid k.request)

    only_reads : (ks : List (Call x)) → All (IsFaithful x c ready) ks → All OnlyReads ks
    only_reads [] f = tt
    only_reads (k ∷ ks) (f, fs) = (at k k.stage f, only_reads ks fs)
      where
        at :
            (k : Call x) (st : Stage x)
            → IsFaithfulAt x c ready (alone x c ready k) st
            → All (IsReadOnly c.settings.kafka_bin_path) (commands st)
        at k waiting f = tt
        at k running f = tt
        at k (begun d) f = same_commands k d f
        at k (queued d) f = same_commands k d f.0
        at k (in_cli d) f = same_commands k d f.0
        at k (ran d) f = same_commands k d f.0
        at k (over r) f = tt
        at k cancelled f = tt
        at k (abandoned d) f = same_commands k d f.0

    -- Each command line that a call has run, runs or is about to run only reads.
    pub Reach-OnlyReads : {s : System x} → Reach x (start x c) s → All OnlyReads s.calls
    Reach-OnlyReads {s} r = only_reads s.calls (Reach-IsSound x c ready r).1
