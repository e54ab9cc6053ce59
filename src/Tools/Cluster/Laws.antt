-- ===== src/Tools/Cluster/Laws.antt =====
-- The brokers of the topology report.
use devops_agent_msk_mcp.Base.{leb_ℤ, Text, map, length, length-map, ◌≡◌, sym}
use mathlib.Core.List.{Perm}
use devops_agent_msk_mcp.Base.Keys.{leb_ℤ-IsTotalOrder, on, on-IsTotalOrder}
use devops_agent_msk_mcp.Base.Sort.{sort_by-perm, sort_by-IsSorted, length-sort_by, IsSorted}
use devops_agent_msk_mcp.Tools.Cluster.{
  broker_item, broker_key, ClusterDescription, topology_report,
}

-- The report lists each node of the description once, by its id, and counts them.
pub topology_report_lem :
    (cluster_id : Text) (desc : ClusterDescription)
    → let report = topology_report cluster_id desc in
      Perm report.brokers (map broker_item desc.nodes)
      × IsSorted (on broker_key leb_ℤ) report.brokers
      × (report.broker_count ≡ length report.brokers)
      × (report.broker_count ≡ length desc.nodes)
unfolding topology_report
topology_report_lem cluster_id desc =
    let le = on broker_key leb_ℤ in
    let items = map broker_item desc.nodes in
    (
      sort_by-perm le items,
      sort_by-IsSorted (on-IsTotalOrder broker_key leb_ℤ leb_ℤ-IsTotalOrder) items,
      sym (length-sort_by le items),
      length-map desc.nodes broker_item,
    )
