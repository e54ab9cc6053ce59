-- ===== src/Tests/Topics.antt =====
-- Topics and their partitions.
use devops_agent_msk_mcp.Base.{
  pos, codes, [], ◌∷◌, some, length, elem, map, ◌≡◌, ◌≢◌, ◌↔◌, refl, All, int_eq, nat_eq,
}
use devops_agent_msk_mcp.Base.Dict
use devops_agent_msk_mcp.Tools.Topics.{PartitionInfo, broker, number, no_node, known_ids, or_zero}
use devops_agent_msk_mcp.Tools.Topics.Sets.{distinct}
use devops_agent_msk_mcp.Tools.Topics.Describe.{topic_report, report, count_under}
use devops_agent_msk_mcp.Tools.Topics.Describe.Laws.{replica_count, replication_factor-topic_report}
use devops_agent_msk_mcp.Tools.Topics.UnderReplicated.{check_all, check_topic, nothing_found}
use devops_agent_msk_mcp.Tools.Topics.UnderReplicated.Laws.{
  missing_count, all_partitions, lookup-check_all,
}
use devops_agent_msk_mcp.Tools.Topics.Agreement.{IsSane, IsSanePartition, length-check_topic}

-- Broker 3 is not in sync.
abbrev lagging : PartitionInfo
lagging = record {
  id = some (pos 0);
  leader = broker (some (pos 1));
  replicas = broker (some (pos 1)) ∷ number (pos 2) ∷ broker (some (pos 3)) ∷ [];
  isr = broker (some (pos 1)) ∷ no_node ∷ number (pos 2) ∷ [];
}

abbrev healthy : PartitionInfo
healthy = record lagging { id = some (pos 1); isr = lagging.replicas }

replication_factor-topic_report_example :
    ((topic_report (codes "prod") (codes "orders") (lagging ∷ healthy ∷ [])).replication_factor
      ≡ some 3)
    ↔ ((lagging ∷ healthy ∷ [] ≢ []) × All (λ p. replica_count p ≡ 3) (lagging ∷ healthy ∷ []))
replication_factor-topic_report_example =
    replication_factor-topic_report (codes "prod") (codes "orders") (lagging ∷ healthy ∷ []) 3

lookup-check_all_example :
    or_zero (
      Dict.lookup
        (pos 3)
        (check_all
          ((codes "orders", lagging ∷ healthy ∷ []) ∷ [])
          nothing_found).broker_drop_counts)
    ≡ missing_count (pos 3) (all_partitions ((codes "orders", lagging ∷ healthy ∷ []) ∷ []))
lookup-check_all_example = lookup-check_all (pos 3) ((codes "orders", lagging ∷ healthy ∷ []) ∷ [])

missed_once : missing_count (pos 3) (lagging ∷ healthy ∷ []) ≡ 1
unfolding missing_count known_ids elem
missed_once = refl

lagging-IsSane : IsSane (pos 1 ∷ pos 2 ∷ pos 3 ∷ []) (pos 1 ∷ pos 2 ∷ [])
unfolding distinct elem
lagging-IsSane = (refl, refl, (refl, (refl, tt)))

both-IsSane : All IsSanePartition (lagging ∷ healthy ∷ [])
unfolding distinct elem known_ids
both-IsSane = ((refl, refl, (refl, (refl, tt))), ((refl, refl, (refl, (refl, (refl, tt)))), tt))

length-check_topic_example :
    length (check_topic (codes "orders") (lagging ∷ healthy ∷ []) nothing_found).under_replicated
    ≡ count_under (map report (lagging ∷ healthy ∷ []))
length-check_topic_example =
    length-check_topic (codes "orders") (lagging ∷ healthy ∷ []) both-IsSane
