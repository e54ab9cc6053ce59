-- ===== src/Tests/Acls.antt =====
-- A listing of ACLs with a misspelt resource type.
use devops_agent_msk_mcp.Base.{codes, [], ◌∷◌, none, some, ◌≡◌, refl}
use devops_agent_msk_mcp.Errors.{ok}
use devops_agent_msk_mcp.KafkaClients.{Conf, Factory, new_factory}
use devops_agent_msk_mcp.Tests.Registry.{admin_client}
use devops_agent_msk_mcp.Tests.Samples.{ascii, registry}
use devops_agent_msk_mcp.Tests.Server.{types}
use devops_agent_msk_mcp.Tools.Acls.{
  AclBinding, AclQuery, AclAdmin, no_value, enum_value, describe_acls,
}
use devops_agent_msk_mcp.Tools.Acls.Laws.{listing, describe_acls-unknown}
use devops_agent_msk_mcp.Tools.Cluster.{direct}

abbrev binding : AclBinding
binding = record {
  restype = enum_value (some (codes "GROUP")) (codes "ResourceType.GROUP");
  name = some (codes "g");
  resource_pattern_type = no_value;
  principal = some (codes "User:a");
  host = none;
  operation = no_value;
  permission_type = no_value;
}

-- A client that has the one ACL, which every filter of this library selects.
abbrev calls : AclAdmin types Conf
calls = record { describe = λ c f. ok (direct (binding ∷ [])) }

abbrev query : AclQuery
query = record { resource_type = some (codes "topics"); resource_name = none; principal = none }

abbrev factory : Factory admin_client
factory = new_factory admin_client registry

describe_acls-unknown_example :
    listing (describe_acls ascii types admin_client calls registry factory (codes "prod") query).0
    ≡ listing
        (describe_acls ascii types admin_client calls registry factory
          (codes "prod")
          (record query { resource_type = none })).0
describe_acls-unknown_example =
    describe_acls-unknown ascii types admin_client calls query (codes "topics") refl registry
      factory (codes "prod")
