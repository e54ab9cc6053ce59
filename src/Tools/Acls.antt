-- ===== src/Tools/Acls.antt =====
-- src/msk_mcp/tools/describe_acls.py: the ACLs of a cluster that a filter selects. The client's call
-- and the library's resource types are parameters, and confluent_kafka is installed.
pub mod Laws
use devops_agent_msk_mcp.Base.{
  ℕ, zero, suc, show_ℕ, Text, codes, Unicode, upper, Bool, true, false, List, [], ◌∷◌, ◌++◌, map,
  Option, none, some, length, if◌then◌else◌,
}
use devops_agent_msk_mcp.Config.{
  ClustersRegistry, ClusterConfig, AuthType, iam, sasl_scram, mtls, auth_type, get,
}
use devops_agent_msk_mcp.Errors.{Result, ok, err, ◌>>=◌}
use devops_agent_msk_mcp.KafkaClients.{Conf, Factory, get_client}
use devops_agent_msk_mcp.Tools.Cluster.{Given, resolve}

-- A value of one of the library's enumerations: none, or a value by its `name`, if it has one, and its
-- `str`.
pub data EnumValue : Type 0 where
  no_value : EnumValue
  enum_value : Option Text → Text → EnumValue

unfoldable pub enum_name : EnumValue → Option Text
enum_name no_value = none
enum_name (enum_value (some (c ∷ name)) text) = some (c ∷ name)
enum_name (enum_value (some []) text) = some text
enum_name (enum_value none text) = some text

pub record AclBinding : Type 0 where
  pub restype : EnumValue
  pub name : Option Text
  pub resource_pattern_type : EnumValue
  pub principal : Option Text
  pub host : Option Text
  pub operation : EnumValue
  pub permission_type : EnumValue

-- An item of `acls`.
pub record Acl : Type 0 where
  pub resource_type : Option Text
  pub resource_name : Option Text
  pub pattern_type : Option Text
  pub principal : Option Text
  pub host : Option Text
  pub operation : Option Text
  pub permission : Option Text

unfoldable pub acl_of : AclBinding → Acl
unfolding enum_name
acl_of b = record {
  resource_type = enum_name b.restype;
  resource_name = b.name;
  pattern_type = enum_name b.resource_pattern_type;
  principal = b.principal;
  host = b.host;
  operation = enum_name b.operation;
  permission = enum_name b.permission_type;
}

unfoldable pub is_iam : ClusterConfig → Bool
is_iam cfg = elim (auth_type cfg) [ iam ↦ true | sasl_scram ↦ false | mtls ↦ false ]

unfoldable pub summarize : ℕ → Bool → Text
summarize zero true =
    codes "No Kafka ACLs (cluster uses IAM auth — permissions are managed "
    ++ codes "via IAM policies, not Kafka ACLs)."
summarize zero false = codes "No Kafka ACLs match the filter"
summarize (suc n) cluster_iam = show_ℕ (suc n) ++ codes " ACL binding(s) match the filter"

-- The arguments that choose the ACLs.
pub record AclQuery : Type 0 where
  pub resource_type : Option Text
  pub resource_name : Option Text
  pub principal : Option Text

pub record AclReport : Type 0 where
  pub cluster_id : Text
  pub query : AclQuery
  pub acls : List Acl
  pub total_count : ℕ
  pub summary : Text

unfoldable pub acl_report : Text → AclQuery → Bool → List AclBinding → AclReport
unfolding acl_of summarize
acl_report cluster_id query cluster_iam bindings =
    let out = map acl_of bindings in
    record {
      cluster_id = cluster_id;
      query = query;
      acls = out;
      total_count = length out;
      summary = summarize (length out) cluster_iam;
    }

-- The members of `ResourceType` by name, and `ANY`.
pub record ResourceTypes : Type 1 where
  pub ResourceType : Type 0
  pub member : Text → Option ResourceType
  pub any : ResourceType

-- The `AclBindingFilter`, whose other fields are `ANY`.
pub record AclFilter (t : ResourceTypes) : Type 0 where
  pub rtype : t.ResourceType
  pub rname : Option Text
  pub principal_filter : Option Text

pub record AclAdmin (t : ResourceTypes) (Client : Type 0) : Type 0 where
  pub describe : Client → AclFilter t → Result (Given (List AclBinding))

module _ (u : Unicode) (t : ResourceTypes) where
  unfoldable pub resolve_resource_type : Option Text → t.ResourceType
  resolve_resource_type none = t.any
  resolve_resource_type (some resource_type) = elim (t.member (upper u resource_type)) [
    | none ↦ t.any
    | some rtype ↦ rtype
  ]

  unfoldable pub acl_filter : AclQuery → AclFilter t
  unfolding resolve_resource_type
  acl_filter query = record {
    rtype = resolve_resource_type query.resource_type;
    rname = query.resource_name;
    principal_filter = query.principal;
  }

  module _ {Client : Type 0} (admin_client : Conf → Result Client) (calls : AclAdmin t Client) where
    unfoldable pub acls_with : Text → AclQuery → Bool → Result Client → Result AclReport
    unfolding acl_filter acl_report resolve
    acls_with cluster_id query cluster_iam found = do
      admin ← found
      given ← calls.describe admin (acl_filter query)
      bindings ← resolve given
      ok (acl_report cluster_id query cluster_iam bindings)

    -- The registry is asked before the factory.
    unfoldable pub describe_acls :
        ClustersRegistry
        → Factory admin_client
        → Text
        → AclQuery
        → Result AclReport × Factory admin_client
    unfolding acls_with is_iam
    describe_acls registry f cluster_id query = elim (get registry cluster_id) [
      | err e ↦ (err e, f)
      | ok cfg ↦
          let (found, f') = get_client admin_client f cluster_id in
          (acls_with cluster_id query (is_iam cfg) found, f')
    ]
