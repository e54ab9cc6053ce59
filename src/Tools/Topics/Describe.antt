-- ===== src/Tools/Topics/Describe.antt =====
-- src/msk_mcp/tools/describe_topic.py: the layout of one topic's partitions.
pub mod Laws
use devops_agent_msk_mcp.Base.{
  ℕ, ◌+◌, ℤ, show_ℤ, show_ℕ, Text, codes, ltb, Bool, true, false, List, [], ◌∷◌, ◌++◌, Option, none,
  some, length, elem, int_eq, nat_eq, text_eq, list_beq, ◌==◌, if◌then◌else◌,
}
use devops_agent_msk_mcp.Base.Dict
use devops_agent_msk_mcp.Base.Dict.{Dict}
use devops_agent_msk_mcp.Errors.{Result, ok, err, tool_error, plain_error, invalid_params, ◌>>=◌}
use devops_agent_msk_mcp.KafkaClients.{Conf, Factory, get_client}
use devops_agent_msk_mcp.Tools.Topics.{PartitionInfo, TopicAdmin, node_id, known_ids, bump}

-- An item of `partitions`.
pub record PartitionReport : Type 0 where
  pub partition : Option ℤ
  pub leader : Option ℤ
  pub replicas : List ℤ
  pub isr : List ℤ
  pub is_under_replicated : Bool

-- `len(isr) < len(replicas) if replicas else False`
unfoldable pub is_under : List ℤ → List ℤ → Bool
is_under [] isr = false
is_under (r ∷ replicas) isr = ltb (length isr) (length (r ∷ replicas))

unfoldable pub report : PartitionInfo → PartitionReport
unfolding node_id known_ids is_under
report p =
    let replicas = known_ids p.replicas in
    let isr = known_ids p.isr in
    record {
      partition = p.id;
      leader = node_id p.leader;
      replicas = replicas;
      isr = isr;
      is_under_replicated = is_under replicas isr;
    }

-- What the loop gathers: the items, the counter of leaders, and the set of replica counts.
pub record Tally : Type 0 where
  pub partitions_out : List PartitionReport
  pub leader_counter : Dict ℤ ℕ
  pub replication_factors : List ℕ

abbrev pub start : Tally
start = record { partitions_out = []; leader_counter = []; replication_factors = [] }

-- `s.add(n)`
unfoldable pub add : ℕ → List ℕ → List ℕ
add n s = if elem n s then s else s ++ (n ∷ [])

unfoldable pub count_leader : Option ℤ → Dict ℤ ℕ → Dict ℤ ℕ
unfolding bump
count_leader none d = d
count_leader (some b) d = bump b d

-- One round of the loop.
unfoldable pub visit : PartitionInfo → Tally → Tally
unfolding report add count_leader
visit p t =
    let r = report p in
    record {
      partitions_out = t.partitions_out ++ (r ∷ []);
      leader_counter = count_leader r.leader t.leader_counter;
      replication_factors = add (length r.replicas) t.replication_factors;
    }

unfoldable pub visit_all : List PartitionInfo → Tally → Tally
unfolding visit
visit_all [] t = t
visit_all (p ∷ ps) t = visit_all ps (visit p t)

-- The one element of a set, if it has just one.
unfoldable pub single : List ℕ → Option ℕ
single [] = none
single (n ∷ []) = some n
single (n ∷ m ∷ s) = none

-- `{str(k): v for k, v in counter.items()}`
unfoldable pub with_text_keys : Dict ℤ ℕ → Dict Text ℕ
with_text_keys [] = []
with_text_keys ((k, v) ∷ d) = (show_ℤ k, v) ∷ with_text_keys d

unfoldable pub count_under : List PartitionReport → ℕ
count_under [] = 0
count_under (p ∷ ps) = (if p.is_under_replicated then 1 else 0) + count_under ps

unfoldable pub summarize : Text → List PartitionReport → Text
unfolding count_under
summarize topic parts =
    codes "topic="
    ++ (topic
        ++ (codes ", partitions="
            ++ (show_ℕ (length parts)
                ++ (codes ", under_replicated=" ++ show_ℕ (count_under parts)))))

pub record TopicReport : Type 0 where
  pub cluster_id : Text
  pub topic : Text
  pub partition_count : ℕ
  pub replication_factor : Option ℕ
  pub partitions : List PartitionReport
  pub leader_distribution : Dict Text ℕ
  pub summary : Text

-- The answer for the partitions of a topic's description.
unfoldable pub topic_report : Text → Text → List PartitionInfo → TopicReport
unfolding visit_all single with_text_keys summarize
topic_report cluster_id topic_name ps =
    let t = visit_all ps start in
    record {
      cluster_id = cluster_id;
      topic = topic_name;
      partition_count = length t.partitions_out;
      replication_factor = single t.replication_factors;
      partitions = t.partitions_out;
      leader_distribution = with_text_keys t.leader_counter;
      summary = summarize topic_name t.partitions_out;
    }

module _ {Client : Type 0} (admin_client : Conf → Result Client) (calls : TopicAdmin Client) where
  open calls use {describe_topics}

  -- `futures[topic_name]`, if it is there.
  abbrev described : Text → Option (Result (List PartitionInfo)) → Result (List PartitionInfo)
  described topic_name none =
      err (tool_error (plain_error invalid_params (codes "Topic not found: " ++ topic_name)))
  described topic_name (some future) = future

  unfoldable pub describe_with : Text → Text → Result Client → Result TopicReport
  unfolding topic_report
  describe_with cluster_id topic_name found = do
    admin ← found
    futures ← describe_topics admin (topic_name ∷ [])
    ps ← described topic_name (Dict.lookup topic_name futures)
    ok (topic_report cluster_id topic_name ps)

  unfoldable pub describe_topic :
      Factory admin_client → Text → Text → Result TopicReport × Factory admin_client
  unfolding describe_with
  describe_topic f cluster_id topic_name =
      let (found, f') = get_client admin_client f cluster_id in
      (describe_with cluster_id topic_name found, f')
