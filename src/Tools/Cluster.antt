-- ===== src/Tools/Cluster.antt =====
-- src/msk_mcp/tools/describe_cluster.py: the brokers and the controller of a cluster. The client's call
-- is a parameter.
pub mod Laws
use devops_agent_msk_mcp.Base.{
  ℕ, ℤ, pos, leb_ℤ, show_ℕ, show_ℤ, Text, codes, join, List, [], ◌∷◌, ◌++◌, map, Option, none, some,
  length,
}
use devops_agent_msk_mcp.Base.Keys.{on}
use devops_agent_msk_mcp.Base.Sort.{sort_by}
use devops_agent_msk_mcp.Config.{non_empty}
use devops_agent_msk_mcp.Errors.{Result, ok, ◌>>=◌}
use devops_agent_msk_mcp.KafkaClients.{Conf, Factory, get_client}

-- What a call of the client gives: the object itself, as older versions do, or a future.
pub data Given (A : Type 0) : Type 0 where
  direct : A → Given A
  future : Result A → Given A

unfoldable pub resolve : {A : Type 0} → Given A → Result A
resolve (direct a) = ok a
resolve (future r) = r

pub record BrokerNode : Type 0 where
  pub id : Option ℤ
  pub host : Option Text
  pub port : Option ℤ
  pub rack : Option Text

-- An absent attribute is `none`.
pub record ClusterDescription : Type 0 where
  pub nodes : List BrokerNode
  pub controller : Option BrokerNode
  pub cluster_id : Option Text
  pub id : Option Text

-- An item of `brokers`.
pub record BrokerItem : Type 0 where
  pub broker_id : Option ℤ
  pub host : Option Text
  pub port : Option ℤ
  pub rack : Option Text

unfoldable pub broker_item : BrokerNode → BrokerItem
broker_item n = record { broker_id = n.id; host = n.host; port = n.port; rack = n.rack }

unfoldable pub controller_id : ClusterDescription → Option ℤ
controller_id desc = elim desc.controller [ none ↦ none | some n ↦ n.id ]

unfoldable pub cluster_uuid : ClusterDescription → Option Text
cluster_uuid desc = elim (non_empty desc.cluster_id) [
  | some uuid ↦ some uuid
  | none ↦ non_empty desc.id
]

-- `b["broker_id"] or 0`
abbrev pub broker_key : BrokerItem → ℤ
broker_key b = elim b.broker_id [ none ↦ pos 0 | some n ↦ n ]

-- A number, or `None`, as an f-string shows it.
abbrev show_option : Option ℤ → Text
show_option none = codes "None"
show_option (some n) = show_ℤ n

abbrev uuid_part : Option Text → List Text
uuid_part none = []
uuid_part (some uuid) = (codes "cluster_uuid=" ++ uuid) ∷ []

unfoldable pub summarize : Option ℤ → ℕ → Option Text → Text
summarize controller broker_count uuid = join (codes ", ") (
    (codes "controller=broker_" ++ show_option controller)
    ∷ (codes "brokers=" ++ show_ℕ broker_count)
    ∷ uuid_part (non_empty uuid))

pub record TopologyReport : Type 0 where
  pub cluster_id : Text
  pub cluster_uuid : Option Text
  pub controller_id : Option ℤ
  pub broker_count : ℕ
  pub brokers : List BrokerItem
  pub summary : Text

unfoldable pub topology_report : Text → ClusterDescription → TopologyReport
unfolding broker_item controller_id cluster_uuid summarize
topology_report cluster_id desc =
    let brokers = map broker_item desc.nodes in
    record {
      cluster_id = cluster_id;
      cluster_uuid = cluster_uuid desc;
      controller_id = controller_id desc;
      broker_count = length brokers;
      brokers = sort_by (on broker_key leb_ℤ) brokers;
      summary = summarize (controller_id desc) (length brokers) (cluster_uuid desc);
    }

pub record ClusterAdmin (Client : Type 0) : Type 0 where
  pub describe : Client → Result (Given ClusterDescription)

module _ {Client : Type 0} (admin_client : Conf → Result Client) (calls : ClusterAdmin Client) where
  unfoldable pub topology_with : Text → Result Client → Result TopologyReport
  unfolding topology_report resolve
  topology_with cluster_id found = do
    admin ← found
    given ← calls.describe admin
    desc ← resolve given
    ok (topology_report cluster_id desc)

  unfoldable pub describe_cluster :
      Factory admin_client → Text → Result TopologyReport × Factory admin_client
  unfolding topology_with
  describe_cluster f cluster_id =
      let (found, f') = get_client admin_client f cluster_id in (topology_with cluster_id found, f')
