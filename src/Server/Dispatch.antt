-- ===== src/Server/Dispatch.antt =====
-- src/msk_mcp/server.py: the tools that `create_mcp` registers, each with the parts of the context that
-- it is given and its timeout.
use devops_agent_msk_mcp.Base.{ℤ, Text, Bool, List, [], Option}
use devops_agent_msk_mcp.CliExecutor.{Signal}
use devops_agent_msk_mcp.Config.{Host}
use devops_agent_msk_mcp.Errors.{Result, ok, err, timeout_error, Response, tool_error_handler}
use devops_agent_msk_mcp.KafkaClients.{Factory}
use devops_agent_msk_mcp.LoggingSetup.{Var, current_correlation_id}
use devops_agent_msk_mcp.Server.{Outside, AppContext}
use devops_agent_msk_mcp.Tools.Acls.{ResourceTypes, AclQuery, AclReport, describe_acls}
use devops_agent_msk_mcp.Tools.Cli.{Setup, Outcome}
use devops_agent_msk_mcp.Tools.Cluster.{TopologyReport, describe_cluster}
use devops_agent_msk_mcp.Tools.Configs.{ConfigReport, describe_topic_configs}
use devops_agent_msk_mcp.Tools.Group.{GroupReport, describe_consumer_group}
use devops_agent_msk_mcp.Tools.GroupList.{GroupListReport, list_consumer_groups}
use devops_agent_msk_mcp.Tools.LogDirs.{LogDirReport, describe_log_dirs}
use devops_agent_msk_mcp.Tools.Probe.{ProbeReport, probe_broker_connectivity}
use devops_agent_msk_mcp.Tools.Reassignments.{ReassignmentReport, describe_partition_reassignments}
use devops_agent_msk_mcp.Tools.ResetPlan.{Params, Plan, compute_offset_reset_plan}
use devops_agent_msk_mcp.Tools.Times.{TimesReport, get_offsets_for_times}
use devops_agent_msk_mcp.Tools.Topics.Describe.{TopicReport, describe_topic}
use devops_agent_msk_mcp.Tools.Topics.UnderReplicated.{
  ClusterReport, describe_under_replicated_partitions,
}

-- A call of a tool, by its arguments.
pub data Request : Type 0 where
  list_groups : Text → Option Text → Request
  consumer_group : Text → Text → Bool → Bool → Request
  topic : Text → Text → Request
  cluster : Text → Request
  under_replicated : Text → Option Text → Request
  acls : Text → AclQuery → Request
  offsets_for_times : Text → Text → ℤ → Option (List ℤ) → Request
  partition_reassignments : Text → Option Text → Request
  topic_configs : Text → Text → Request
  broker_connectivity : Text → Text → Request
  offset_reset_plan : Params → Request
  log_dirs : Text → Option Text → Option Text → Request

-- What a tool returns: a report of its own, or an envelope.
pub data Reply : Type 0 where
  group_list_reply : Response GroupListReport → Reply
  group_reply : Response GroupReport → Reply
  topic_reply : Response TopicReport → Reply
  topology_reply : Response TopologyReport → Reply
  under_replicated_reply : Response ClusterReport → Reply
  acl_reply : Response AclReport → Reply
  times_reply : Response TimesReport → Reply
  reassignment_reply : Response ReassignmentReport → Reply
  config_reply : Response ConfigReport → Reply
  probe_reply : Response ProbeReport → Reply
  plan_reply : Response Plan → Reply
  log_dir_reply : Response LogDirReport → Reply

-- How a call fares against its timeout: it ends in time, or `wait_for` cancels it, before its first part
-- ran or after. The first part, up to the first `await`, is the one that changes the context.
pub data Pace : Type 0 where
  in_time cancelled_early cancelled : Pace

module _ {h : Host} {t : ResourceTypes} {Client : Type 0} (x : Outside h t Client) where
  -- A call's effect: what its caller gets, the command lines that were run, the signals sent, and the
  -- context after it.
  pub record Served : Type 0 where
    pub reply : Reply
    pub executed : List (List Text)
    pub signals : List Signal
    pub context : AppContext x

  -- A tool that is given the factory, one that is given the properties manager, and one that is given
  -- neither.
  module _ {A : Type 0} (ctx : AppContext x) (wrap : Response A → Reply) where
    abbrev pub by_factory : Result A × Factory x.admin_client → Served
    by_factory (r, f) = record {
      reply = wrap (tool_error_handler x.unicode r);
      executed = [];
      signals = [];
      context = record ctx { factory = f };
    }

    abbrev pub by_cli : Outcome A → Served
    by_cli o = record {
      reply = wrap (tool_error_handler x.unicode o.result);
      executed = o.executed;
      signals = o.signals;
      context = record ctx { properties = o.manager };
    }

    abbrev pub by_registry : Result A → Served
    by_registry r = record {
      reply = wrap (tool_error_handler x.unicode r);
      executed = [];
      signals = [];
      context = ctx;
    }

  -- The part of a CLI tool's arguments that does not come from its caller.
  abbrev pub setup_of : AppContext x → Var → Setup
  setup_of ctx var = record {
    unicode = x.unicode;
    repr = x.repr;
    fs = x.fs;
    kafka_bin_path = ctx.settings.kafka_bin_path;
    timeout = x.probe.show_float ctx.settings.default_timeout_seconds;
    classpath = ctx.cli_executor.classpath;
    correlation_id = current_correlation_id var;
    environ = x.environ;
    registry = ctx.registry;
    world = x.world;
  }

  -- The tool itself, under no timeout. `cid` is the context variable of correlation ids.
  unfoldable pub perform : AppContext x → Option Text → Request → Served
  perform ctx cid (list_groups cluster_id state_filter) =
      by_factory ctx group_list_reply (
        list_consumer_groups x.unicode x.admin_client x.listings ctx.factory cluster_id
          state_filter)
  perform ctx cid (consumer_group cluster_id group_id include_members include_offsets) =
      by_factory ctx group_reply (
        describe_consumer_group x.unicode x.admin_client x.groups ctx.factory cluster_id group_id
          include_members include_offsets)
  perform ctx cid (topic cluster_id topic_name) =
      by_factory ctx topic_reply
        (describe_topic x.admin_client x.topics ctx.factory cluster_id topic_name)
  perform ctx cid (cluster cluster_id) =
      by_factory ctx topology_reply
        (describe_cluster x.admin_client x.topology ctx.factory cluster_id)
  perform ctx cid (under_replicated cluster_id topic_filter) =
      by_factory ctx under_replicated_reply (
        describe_under_replicated_partitions x.admin_client x.topics ctx.factory cluster_id
          topic_filter)
  perform ctx cid (acls cluster_id query) =
      by_factory ctx acl_reply
        (describe_acls x.unicode t x.admin_client x.acls ctx.registry ctx.factory cluster_id query)
  perform ctx cid (offsets_for_times cluster_id topic_name timestamp_ms partitions) =
      by_factory ctx times_reply (
        get_offsets_for_times x.repr x.admin_client x.times ctx.factory cluster_id topic_name
          timestamp_ms partitions)
  perform ctx cid (partition_reassignments cluster_id topic_filter) =
      by_factory ctx reassignment_reply (
        describe_partition_reassignments x.admin_client x.reassignments ctx.factory cluster_id
          topic_filter)
  perform ctx cid (topic_configs cluster_id topic_name) = by_factory ctx config_reply (
      describe_topic_configs x.config_source x.admin_client x.configs ctx.factory cluster_id
        topic_name)
  perform ctx cid (broker_connectivity cluster_id broker_endpoint) = by_registry ctx probe_reply (
      probe_broker_connectivity x.unicode x.probe x.repr x.urlsplit ctx.registry cluster_id
        broker_endpoint ctx.settings.default_timeout_seconds)
  perform ctx cid (offset_reset_plan params) =
      by_cli ctx plan_reply (compute_offset_reset_plan (setup_of ctx cid) params ctx.properties)
  perform ctx cid (log_dirs cluster_id broker_ids topic_filter) = by_cli ctx log_dir_reply (
      describe_log_dirs (setup_of ctx cid) x.loads cluster_id broker_ids topic_filter
        ctx.properties)

  -- The timeout that `run_tool` is given.
  unfoldable pub timeout_of : AppContext x → Request → h.Float
  timeout_of ctx (broker_connectivity cluster_id broker_endpoint) =
      x.plus_five ctx.settings.default_timeout_seconds
  timeout_of ctx (offset_reset_plan params) = x.plus_five ctx.settings.default_timeout_seconds
  timeout_of ctx (log_dirs cluster_id broker_ids topic_filter) =
      x.plus_five ctx.settings.default_timeout_seconds
  timeout_of ctx (list_groups cluster_id state_filter) = ctx.settings.default_timeout_seconds
  timeout_of ctx (consumer_group cluster_id group_id m o) = ctx.settings.default_timeout_seconds
  timeout_of ctx (topic cluster_id topic_name) = ctx.settings.default_timeout_seconds
  timeout_of ctx (cluster cluster_id) = ctx.settings.default_timeout_seconds
  timeout_of ctx (under_replicated cluster_id f) = ctx.settings.default_timeout_seconds
  timeout_of ctx (acls cluster_id query) = ctx.settings.default_timeout_seconds
  timeout_of ctx (offsets_for_times cluster_id topic_name ts ps) =
      ctx.settings.default_timeout_seconds
  timeout_of ctx (partition_reassignments cluster_id f) = ctx.settings.default_timeout_seconds
  timeout_of ctx (topic_configs cluster_id topic_name) = ctx.settings.default_timeout_seconds

  -- `bouncer.run_tool`, once the call has its slot: `wait_for` raises around the decorated tool.
  unfoldable pub run_tool : Pace → AppContext x → Served → Result Reply × AppContext x
  run_tool in_time ctx s = (ok s.reply, s.context)
  run_tool cancelled_early ctx s = (err timeout_error, ctx)
  run_tool cancelled ctx s = (err timeout_error, s.context)

  -- A tool as it is registered; the clock says how a call fares within a time.
  unfoldable pub serve :
      (h.Float → Pace) → AppContext x → Option Text → Request → Result Reply × AppContext x
  unfolding perform run_tool timeout_of
  serve clock ctx cid q = run_tool (clock (timeout_of ctx q)) ctx (perform ctx cid q)

  -- The contexts that a server passes through, whatever calls it serves.
  pub data Reach (ctx : AppContext x) : AppContext x → Type 0 where
    here : Reach ctx ctx
    next :
        {c : AppContext x}
        → Reach ctx c
        → (clock : h.Float → Pace) (cid : Option Text) (q : Request)
        → Reach ctx (serve clock c cid q).1
