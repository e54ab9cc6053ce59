-- ===== src/Tools/Topics/UnderReplicated.antt =====
-- src/msk_mcp/tools/describe_under_replicated_partitions.py: the partitions of a cluster with
-- replicas that are not in sync, and how often each broker is missing.
pub mod Laws
use devops_agent_msk_mcp.Base.{
  ℕ, zero, suc, ◌+◌, ℤ, leb_ℤ, show_ℤ, show_ℕ, Text, codes, starts_with, leb, Bool, true, false,
  not, ◌||◌, List, [], ◌∷◌, ◌++◌, Option, none, some, length, text_eq, int_eq, list_beq, ◌==◌,
  if◌then◌else◌,
}
use devops_agent_msk_mcp.Base.Dict
use devops_agent_msk_mcp.Base.Dict.{Dict}
use devops_agent_msk_mcp.Base.Sort.{sort_by}
use devops_agent_msk_mcp.Config.{non_empty}
use devops_agent_msk_mcp.Errors.{Result, ok, err, ◌>>=◌}
use devops_agent_msk_mcp.KafkaClients.{Conf, Factory, get_client}
use devops_agent_msk_mcp.Tools.Topics.{PartitionInfo, TopicAdmin, node_id, known_ids, bump}
use devops_agent_msk_mcp.Tools.Topics.Sets.{set_of, difference}

-- `sorted(set(replicas) - set(isr))`
unfoldable pub missing_from : List ℤ → List ℤ → List ℤ
unfolding set_of difference
missing_from replicas isr = sort_by leb_ℤ (difference (set_of replicas) (set_of isr))

-- An item of `under_replicated_partitions`.
pub record UnderReplicated : Type 0 where
  pub topic : Text
  pub partition : Option ℤ
  pub leader : Option ℤ
  pub replicas : List ℤ
  pub isr : List ℤ
  pub missing_from_isr : List ℤ

unfoldable pub bump_all : List ℤ → Dict ℤ ℕ → Dict ℤ ℕ
unfolding bump
bump_all [] counts = counts
bump_all (b ∷ bs) counts = bump_all bs (bump b counts)

-- What the loops gather.
pub record Found : Type 0 where
  pub under_replicated : List UnderReplicated
  pub broker_drop_counts : Dict ℤ ℕ

abbrev pub nothing_found : Found
nothing_found = record { under_replicated = []; broker_drop_counts = [] }

abbrev pub note_missing : Text → PartitionInfo → List ℤ → Found → Found
note_missing topic_name p [] found = found
note_missing topic_name p (b ∷ bs) found = record {
  under_replicated =
      found.under_replicated
      ++ (record {
        topic = topic_name;
        partition = p.id;
        leader = node_id p.leader;
        replicas = known_ids p.replicas;
        isr = known_ids p.isr;
        missing_from_isr = b ∷ bs;
      }
          ∷ []);
  broker_drop_counts = bump_all (b ∷ bs) found.broker_drop_counts;
}

-- One round of the inner loop, and the loops.
unfoldable pub check : Text → PartitionInfo → Found → Found
unfolding missing_from bump_all node_id known_ids
check topic_name p found =
    note_missing topic_name p (missing_from (known_ids p.replicas) (known_ids p.isr)) found

unfoldable pub check_topic : Text → List PartitionInfo → Found → Found
unfolding check
check_topic topic_name [] found = found
check_topic topic_name (p ∷ ps) found = check_topic topic_name ps (check topic_name p found)

unfoldable pub check_all : Dict Text (List PartitionInfo) → Found → Found
unfolding check_topic
check_all [] found = found
check_all ((topic_name, ps) ∷ descriptions) found =
    check_all descriptions (check_topic topic_name ps found)

-- The first broker with the greatest count.
unfoldable pub worst_of : ℤ × ℕ → Dict ℤ ℕ → ℤ × ℕ
worst_of best [] = best
worst_of best (kv ∷ counts) = worst_of (if leb kv.1 best.1 then best else kv) counts

unfoldable pub summarize : ℕ → Dict ℤ ℕ → Text
unfolding worst_of
summarize zero counts = codes "No under-replicated partitions"
summarize (suc n) [] = show_ℕ (suc n) ++ codes " under-replicated partitions"
summarize (suc n) (kv ∷ counts) =
    let worst = worst_of kv counts in
    show_ℕ (suc n)
    ++ (codes " under-replicated partitions; broker "
        ++ (show_ℤ worst.0
            ++ (codes " missing from ISR on " ++ (show_ℕ worst.1 ++ codes " of them"))))

pub record ClusterReport : Type 0 where
  pub cluster_id : Text
  pub under_replicated_partitions : List UnderReplicated
  pub total_count : ℕ
  pub broker_drop_counts : Dict Text ℕ
  pub summary : Text

unfoldable pub empty_result : Text → Option Text → ClusterReport
empty_result cluster_id topic_filter = record {
  cluster_id = cluster_id;
  under_replicated_partitions = [];
  total_count = 0;
  broker_drop_counts = [];
  summary = elim (non_empty topic_filter) [
    | none ↦ codes "No topics on cluster"
    | some f ↦ codes "No topics matched filter '" ++ (f ++ codes "'")
  ];
}

-- `sorted(counts.items())`: the keys are distinct, so that they decide.
abbrev pub key_leb : ℤ × ℕ → ℤ × ℕ → Bool
key_leb p q = leb_ℤ p.0 q.0

unfoldable pub with_text_keys : Dict ℤ ℕ → Dict Text ℕ
with_text_keys [] = []
with_text_keys ((k, v) ∷ d) = (show_ℤ k, v) ∷ with_text_keys d

unfoldable pub cluster_report : Text → Dict Text (List PartitionInfo) → ClusterReport
unfolding check_all summarize with_text_keys
cluster_report cluster_id descriptions =
    let found = check_all descriptions nothing_found in
    let counts = found.broker_drop_counts in
    let total = length found.under_replicated in
    record {
      cluster_id = cluster_id;
      under_replicated_partitions = found.under_replicated;
      total_count = total;
      broker_drop_counts = with_text_keys (sort_by key_leb counts);
      summary = summarize total counts;
    }

-- `[t for t in topics if not t.startswith("__consumer_offsets")]`
unfoldable pub visible : List Text → List Text
visible [] = []
visible (t ∷ ts) =
    let rest = visible ts in if starts_with t (codes "__consumer_offsets") then rest else t ∷ rest

-- `[t for t in topics if t == topic_filter or t.startswith(topic_filter)]`
unfoldable pub matching : Text → List Text → List Text
matching f [] = []
matching f (t ∷ ts) =
    let rest = matching f ts in if t == f || starts_with t f then t ∷ rest else rest

unfoldable pub filtered : Option Text → List Text → List Text
unfolding matching
filtered topic_filter topics = elim (non_empty topic_filter) [
  | none ↦ topics
  | some f ↦ matching f topics
]

-- The descriptions that came; a topic whose future raises is skipped.
unfoldable pub described : Dict Text (Result (List PartitionInfo)) → Dict Text (List PartitionInfo)
described [] = []
described ((topic, err e) ∷ futures) = described futures
described ((topic, ok ps) ∷ futures) = (topic, ps) ∷ described futures

module _ {Client : Type 0} (admin_client : Conf → Result Client) (calls : TopicAdmin Client) where
  open calls use {describe_topics, list_topics}

  unfoldable pub describe_listed : Text → Option Text → Client → List Text → Result ClusterReport
  unfolding cluster_report empty_result described
  describe_listed cluster_id topic_filter admin [] = ok (empty_result cluster_id topic_filter)
  describe_listed cluster_id topic_filter admin (t ∷ topics) = do
    futures ← describe_topics admin (t ∷ topics)
    ok (cluster_report cluster_id (described futures))

  unfoldable pub find_under_replicated : Text → Option Text → Result Client → Result ClusterReport
  unfolding describe_listed visible filtered
  find_under_replicated cluster_id topic_filter found = do
    admin ← found
    topics ← list_topics admin
    describe_listed cluster_id topic_filter admin (filtered topic_filter (visible topics))

  unfoldable pub describe_under_replicated_partitions :
      Factory admin_client → Text → Option Text → Result ClusterReport × Factory admin_client
  unfolding find_under_replicated
  describe_under_replicated_partitions f cluster_id topic_filter =
      let (found, f') = get_client admin_client f cluster_id in
      (find_under_replicated cluster_id topic_filter found, f')
