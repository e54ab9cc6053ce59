-- ===== src/Server/Replies.antt =====
-- The replies of a server's tools after calls, against those right after startup.
use devops_agent_msk_mcp.Base.{Text, Option, List, ◌≡◌, refl, ap, sym, ◌∙◌}
use devops_agent_msk_mcp.CliExecutor.{Signal}
use devops_agent_msk_mcp.Config.{Host, ClusterConfig, get}
use devops_agent_msk_mcp.Errors.{Result, ok, err, ◌>>=◌}
use devops_agent_msk_mcp.KafkaClients.{Factory, get_client, build}
use devops_agent_msk_mcp.KafkaClients.Laws.{get_client-result}
use devops_agent_msk_mcp.Server.{Outside, AppContext}
use devops_agent_msk_mcp.Server.Laws.{IsReady, with_factory, IsSettled, IsLike, Reach-IsLike}
use devops_agent_msk_mcp.Server.Dispatch.{
  Request, list_groups, consumer_group, topic, cluster, under_replicated, acls, offsets_for_times,
  partition_reassignments, topic_configs, broker_connectivity, offset_reset_plan, log_dirs, Reply,
  Served, perform, Reach,
}
use devops_agent_msk_mcp.Tools.Acls.{ResourceTypes, AclQuery, describe_acls}
use devops_agent_msk_mcp.Tools.Cluster.{describe_cluster}
use devops_agent_msk_mcp.Tools.Configs.{describe_topic_configs}
use devops_agent_msk_mcp.Tools.Group.{describe_consumer_group}
use devops_agent_msk_mcp.Tools.GroupList.{list_consumer_groups}
use devops_agent_msk_mcp.Tools.LogDirs.{describe_log_dirs}
use devops_agent_msk_mcp.Tools.Reassignments.{describe_partition_reassignments}
use devops_agent_msk_mcp.Tools.ResetPlan.{compute_offset_reset_plan}
use devops_agent_msk_mcp.Tools.Times.{get_offsets_for_times}
use devops_agent_msk_mcp.Tools.Topics.Describe.{describe_topic}
use devops_agent_msk_mcp.Tools.Topics.UnderReplicated.{describe_under_replicated_partitions}

module _ {h : Host} {t : ResourceTypes} {Client : Type 0} (x : Outside h t Client) where
  -- What a caller sees of a tool, and the world of it.
  abbrev pub seen : Served x → Reply × List (List Text) × List Signal
  seen s = (s.reply, s.executed, s.signals)

  module _ (c : AppContext x) (ready : IsReady x c) where
    found_same :
        (f g : Factory x.admin_client) (id : Text)
        → IsSettled x c f
        → IsSettled x c g
        → (get_client x.admin_client f id).0 ≡ (get_client x.admin_client g id).0
    found_same f g id (hf, sf) (hg, sg) =
        get_client-result x.admin_client f id hf
        ∙ (ap (λ r. get r id >>= build x.admin_client) (sf ∙ sym sg)
            ∙ sym (get_client-result x.admin_client g id hg))

    acls_same :
        (f g : Factory x.admin_client) (id : Text) (query : AclQuery) (r : Result ClusterConfig)
        → get c.registry id ≡ r
        → IsSettled x c f
        → IsSettled x c g
        → (describe_acls x.unicode t x.admin_client x.acls c.registry f id query).0
          ≡ (describe_acls x.unicode t x.admin_client x.acls c.registry g id query).0
    unfolding describe_acls
    acls_same f g id query (err e) known sf sg = rw (known, describe_acls) refl
    acls_same f g id query (ok cfg) known sf sg =
        rw (known, describe_acls) (rw (found_same f g id sf sg) refl)

    perform-same :
        (f g : Factory x.admin_client) (cid : Option Text) (q : Request)
        → IsSettled x c f
        → IsSettled x c g
        → seen (perform x (with_factory x c f) cid q) ≡ seen (perform x (with_factory x c g) cid q)
    unfolding perform list_consumer_groups describe_consumer_group describe_topic describe_cluster
        describe_under_replicated_partitions get_offsets_for_times describe_partition_reassignments
        describe_topic_configs describe_log_dirs compute_offset_reset_plan
    perform-same f g cid (list_groups id sf) s t = rw (found_same f g id s t) refl
    perform-same f g cid (consumer_group id group m o) s t = rw (found_same f g id s t) refl
    perform-same f g cid (topic id name) s t = rw (found_same f g id s t) refl
    perform-same f g cid (cluster id) s t = rw (found_same f g id s t) refl
    perform-same f g cid (under_replicated id tf) s t = rw (found_same f g id s t) refl
    perform-same f g cid (acls id query) s t =
        rw (acls_same f g id query (get c.registry id) refl s t) refl
    perform-same f g cid (offsets_for_times id name ts ps) s t = rw (found_same f g id s t) refl
    perform-same f g cid (partition_reassignments id tf) s t = rw (found_same f g id s t) refl
    perform-same f g cid (topic_configs id name) s t = rw (found_same f g id s t) refl
    perform-same f g cid (broker_connectivity id endpoint) s t = refl
    perform-same f g cid (offset_reset_plan params) s t = refl
    perform-same f g cid (log_dirs id ids tf) s t = refl

    -- In a context that differs from a ready one in the factory only, a tool does the same.
    pub perform-like :
        {c' : AppContext x}
        → IsLike x c c'
        → (cid : Option Text) (q : Request) → seen (perform x c' cid q) ≡ seen (perform x c cid q)
    perform-like (f, same, settled) cid q =
        ap (λ d. seen (perform x d cid q)) same
        ∙ perform-same f c.factory cid q settled (ready.coherent, ready.factory_registry)

    -- A tool replies, runs command lines and sends signals as it would have done when the server was
    -- ready, whatever calls it has served since, if the outside answers as it would have done then.
    pub perform-Reach :
        {c' : AppContext x}
        → Reach x c c'
        → (cid : Option Text) (q : Request) → seen (perform x c' cid q) ≡ seen (perform x c cid q)
    perform-Reach r cid q = perform-like (Reach-IsLike x c ready r) cid q
