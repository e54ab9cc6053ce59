-- ===== src/CliExecutor/Classify.antt =====
-- The classification of a failed run as an ordered table of patterns.
use devops_agent_msk_mcp.Base.{
  Text, codes, Unicode, any_in, contains, lower, true, List, [], ◌∷◌, ◌≡◌, refl, arith,
}
use devops_agent_msk_mcp.Base.Strings.Contains.{contains_trans}
use devops_agent_msk_mcp.Errors.{ErrorType, auth_failure, network_timeout, authorization}
use devops_agent_msk_mcp.Errors.Rules.{first_rule}
use devops_agent_msk_mcp.CliExecutor.{
  CliResult, auth_patterns, authz_patterns, network_patterns, classify_cli_failure,
}

-- The patterns that can decide: "authorization" is in the other two of its group.
unfoldable pub cli_rules : List (List Text × ErrorType)
cli_rules =
    (codes "authentication failed" ∷ codes "sasl" ∷ codes "oauth" ∷ codes "iam" ∷ [], auth_failure)
    ∷ (codes "authorization" ∷ [], authorization)
    ∷ (
      codes "no route to host"
          ∷ codes "connection refused"
          ∷ codes "connection timed out"
          ∷ codes "name or service not known"
          ∷ codes "could not be established"
          ∷ [],
      network_timeout,
    )
    ∷ []

topic_authorization : contains (codes "topicauthorizationexception") (codes "authorization") ≡ true
unfolding contains codes
topic_authorization = refl

group_authorization : contains (codes "groupauthorizationexception") (codes "authorization") ≡ true
unfolding contains codes
group_authorization = refl

-- The error of a failed run carries the process's stderr, and its type is given by the first rule of
-- the table that fits the stderr in lower case.
pub classify_cli_failure-first_rule :
    (u : Unicode) (r : CliResult) (argv : List Text)
    → ((classify_cli_failure u r argv).error_type
        ≡ first_rule cli_rules (lower u (u.decode r.stderr)))
      × ((classify_cli_failure u r argv).raw_stderr ≡ u.decode r.stderr)
unfolding classify_cli_failure first_rule cli_rules auth_patterns authz_patterns network_patterns
    any_in
classify_cli_failure-first_rule u r argv =
    let text = lower u (u.decode r.stderr) in
    let topic = contains_trans text (codes "topicauthorizationexception") (codes "authorization") in
    let group = contains_trans text (codes "groupauthorizationexception") (codes "authorization") in
    (ground (arith, topic, group, topic_authorization, group_authorization), ground arith)
