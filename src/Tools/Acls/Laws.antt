-- ===== src/Tools/Acls/Laws.antt =====
-- The filter on the type of the resource.
use devops_agent_msk_mcp.Base.{ℕ, Bool, List, Text, Unicode, upper, none, some, inl, inr, ◌≡◌, refl}
use devops_agent_msk_mcp.Tools.Acls.{
  AclQuery, ResourceTypes, acl_filter, resolve_resource_type, Acl, AclReport, AclAdmin, AclBinding,
  acl_report, acls_with, is_iam, describe_acls,
}
use devops_agent_msk_mcp.Errors.{Result, ok, err, ◌>>=◌, Result-cases}
use devops_agent_msk_mcp.KafkaClients.{Conf, Factory, get_client}
use devops_agent_msk_mcp.Config.{ClustersRegistry, get}
use devops_agent_msk_mcp.Tools.Cluster.{Given, resolve}

-- A resource type that the library has no member for filters nothing: the client is asked as if none
-- were given.
pub acl_filter-unknown :
    (u : Unicode) (t : ResourceTypes) (query : AclQuery) (name : Text)
    → t.member (upper u name) ≡ none
    → acl_filter u t (record query { resource_type = some name })
      ≡ acl_filter u t (record query { resource_type = none })
unfolding acl_filter resolve_resource_type
acl_filter-unknown u t query name h = rw (h, resolve_resource_type) refl

-- What an answer lists.
abbrev pub listing : Result AclReport → Result (List Acl × (ℕ × Text))
listing (ok r) = ok (r.acls, (r.total_count, r.summary))
listing (err e) = err e

module _ (u : Unicode) (t : ResourceTypes) {Client : Type 0} (admin_client : Conf → Result Client)
    (calls : AclAdmin t Client) (query : AclQuery) (name : Text)
    (h : t.member (upper u name) ≡ none) where
  abbrev typed : AclQuery
  typed = record query { resource_type = some name }

  abbrev untyped : AclQuery
  untyped = record query { resource_type = none }

  reported-unknown :
      (cluster_id : Text) (cluster_iam : Bool) (r : Result (List AclBinding))
      → listing (r >>= λ bindings. ok (acl_report cluster_id typed cluster_iam bindings))
        ≡ listing (r >>= λ bindings. ok (acl_report cluster_id untyped cluster_iam bindings))
  unfolding acl_report
  reported-unknown cluster_id cluster_iam (ok bindings) = refl
  reported-unknown cluster_id cluster_iam (err e) = refl

  given-unknown :
      (cluster_id : Text) (cluster_iam : Bool) (g : Result (Given (List AclBinding)))
      → listing (
          g >>= λ given.
          resolve given >>= λ bindings. ok (acl_report cluster_id typed cluster_iam bindings))
        ≡ listing (
            g >>= λ given.
            resolve given >>= λ bindings. ok (acl_report cluster_id untyped cluster_iam bindings))
  given-unknown cluster_id cluster_iam (ok given) =
      reported-unknown cluster_id cluster_iam (resolve given)
  given-unknown cluster_id cluster_iam (err e) = refl

  acls_with-unknown :
      (cluster_id : Text) (cluster_iam : Bool) (found : Result Client)
      → listing (acls_with u t admin_client calls cluster_id typed cluster_iam found)
        ≡ listing (acls_with u t admin_client calls cluster_id untyped cluster_iam found)
  unfolding acls_with
  acls_with-unknown cluster_id cluster_iam (err e) = refl
  acls_with-unknown cluster_id cluster_iam (ok admin) =
      rw (acl_filter-unknown u t query name h)
        (given-unknown cluster_id cluster_iam (calls.describe admin (acl_filter u t untyped)))

  -- A call with a resource type that the library has no member for answers, or fails, as one without a
  -- resource type: it lists the same ACLs, with the same total and the same summary.
  pub describe_acls-unknown :
      (registry : ClustersRegistry) (f : Factory admin_client) (cluster_id : Text)
      → listing (describe_acls u t admin_client calls registry f cluster_id typed).0
        ≡ listing (describe_acls u t admin_client calls registry f cluster_id untyped).0
  unfolding describe_acls
  describe_acls-unknown registry f cluster_id = elim (Result-cases (get registry cluster_id)) [
    | inl (cfg, e) ↦
        rw (e, listing, describe_acls)
          (acls_with-unknown cluster_id (is_iam cfg) (get_client admin_client f cluster_id).0)
    | inr (raised, e) ↦ rw (e, listing, describe_acls) refl
  ]
