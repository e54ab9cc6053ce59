-- ===== src/Tools/Reassignments.antt =====
-- src/msk_mcp/tools/describe_partition_reassignments.py: the reassignments in progress. The client's
-- call is a parameter; old versions of the library lack it.
pub mod Laws
use devops_agent_msk_mcp.Base.{
  ℕ, zero, suc, ℤ, pos, leb_ℤ, show_ℕ, Text, codes, text_leb, Bool, true, false, List, [], ◌∷◌,
  ◌++◌, map, Option, none, some, length, text_eq, ◌==◌, if◌then◌else◌,
}
use devops_agent_msk_mcp.Base.Keys.{key_leb, on}
use devops_agent_msk_mcp.Base.Parts.{keep}
use devops_agent_msk_mcp.Base.Sort.{sort_by}
use devops_agent_msk_mcp.Config.{non_empty}
use devops_agent_msk_mcp.Errors.{Result, ok, ◌>>=◌}
use devops_agent_msk_mcp.KafkaClients.{Conf, Factory, get_client}

-- An item of `in_progress_reassignments`, which is what the client's answer says of the partition; a
-- list that is missing or `None` is empty.
pub record Reassignment : Type 0 where
  pub topic : Option Text
  pub partition : Option ℤ
  pub current_replicas : List ℤ
  pub adding_replicas : List ℤ
  pub removing_replicas : List ℤ

abbrev pub has_topic : Text → Option Text → Bool
has_topic f none = false
has_topic f (some t) = t == f

-- The loop skips the other topics: `if topic_filter and topic != topic_filter: continue`.
unfoldable pub selected : Option Text → List Reassignment → List Reassignment
unfolding keep
selected topic_filter raw = elim (non_empty topic_filter) [
  | none ↦ raw
  | some f ↦ keep (λ (r : Reassignment). has_topic f r.topic) raw
]

abbrev topic_key : Reassignment → Text
topic_key r = elim r.topic [ none ↦ [] | some t ↦ t ]

abbrev partition_key : Reassignment → ℤ
partition_key r = elim r.partition [ none ↦ pos 0 | some p ↦ p ]

-- The sort key, `(r["topic"] or "", r["partition"] or 0)`.
abbrev pub sort_key : Reassignment → Text × ℤ
sort_key r = (topic_key r, partition_key r)

unfoldable pub summarize : ℕ → Text
summarize zero = codes "No partition reassignments in progress"
summarize (suc n) = show_ℕ (suc n) ++ codes " partition reassignment(s) in progress"

pub record ReassignmentReport : Type 0 where
  pub cluster_id : Text
  pub in_progress_reassignments : List Reassignment
  pub total_count : ℕ
  pub summary : Text

unfoldable pub unsupported_response : Text → ReassignmentReport
unsupported_response cluster_id = record {
  cluster_id = cluster_id;
  in_progress_reassignments = [];
  total_count = 0;
  summary =
      codes "list_partition_reassignments not available in this confluent-kafka "
      ++ codes "version; use describe_log_dirs and look for is_future=true partitions.";
}

unfoldable pub reassignment_report : Text → Option Text → List Reassignment → ReassignmentReport
unfolding selected summarize key_leb
reassignment_report cluster_id topic_filter raw =
    let out = selected topic_filter raw in
    record {
      cluster_id = cluster_id;
      in_progress_reassignments = sort_by (on sort_key key_leb) out;
      total_count = length (sort_by (on sort_key key_leb) out);
      summary = summarize (length (sort_by (on sort_key key_leb) out));
    }

pub record ReassignmentAdmin (Client : Type 0) : Type 0 where
  pub list_reassignments : Option (Client → Result (List Reassignment))

module _ {Client : Type 0} (admin_client : Conf → Result Client)
    (calls : ReassignmentAdmin Client) where
  unfoldable pub reassignments_with : Text → Option Text → Result Client → Result ReassignmentReport
  unfolding reassignment_report unsupported_response
  reassignments_with cluster_id topic_filter found = do
    admin ← found
    elim calls.list_reassignments [
      | none ↦ ok (unsupported_response cluster_id)
      | some list_fn ↦ do raw ← list_fn admin; ok (reassignment_report cluster_id topic_filter raw)
    ]

  unfoldable pub describe_partition_reassignments :
      Factory admin_client → Text → Option Text → Result ReassignmentReport × Factory admin_client
  unfolding reassignments_with
  describe_partition_reassignments f cluster_id topic_filter =
      let (found, f') = get_client admin_client f cluster_id in
      (reassignments_with cluster_id topic_filter found, f')
