-- ===== src/Errors/Laws.antt =====
-- How Kafka's errors are classified, and what the decorator returns.
use devops_agent_msk_mcp.Base.{
  Text, codes, Unicode, contains, any_in, lower, true, List, [], ◌∷◌, ◌≡◌, refl, arith, elem,
  text_eq, list_beq, ◌↔◌,
}
use devops_agent_msk_mcp.Base.Strings.Contains.{contains_trans}
use devops_agent_msk_mcp.Errors.{
  ErrorType, auth_failure, network_timeout, authorization, invalid_params, execution_failure,
  timeout, value, classify_kafka_exception, Envelope, Raised, tool_error, timeout_error, exception,
  handle, Result, ok, err, answer, failure, tool_error_handler, to_envelope,
}
use devops_agent_msk_mcp.Errors.Rules.{first_rule}

-- The patterns of `_classify_kafka_exception` without those that can never decide.
unfoldable pub kafka_rules : List (List Text × ErrorType)
kafka_rules =
    (codes "authentication" ∷ codes "sasl" ∷ codes "oauth" ∷ [], auth_failure)
    ∷ (codes "authoriz" ∷ [], authorization)
    ∷ (codes "timed out" ∷ codes "timeout" ∷ [], network_timeout)
    ∷ (codes "unknown_topic_or_partition" ∷ codes "unknowntopicor" ∷ [], invalid_params)
    ∷ (codes "groupidnotfound" ∷ codes "group not found" ∷ [], invalid_params)
    ∷ []

topic_authoriz : contains (codes "topicauthorizationexception") (codes "authoriz") ≡ true
unfolding contains codes
topic_authoriz = refl

group_authoriz : contains (codes "groupauthorizationexception") (codes "authoriz") ≡ true
unfolding contains codes
group_authoriz = refl

-- The error type of a Kafka exception is given by the first rule of the table that fits its text in
-- lower case; the two patterns that the table leaves out decide nothing, since "authoriz" is in both.
pub classify_kafka_exception-first_rule :
    (u : Unicode) (e : Text)
    → (classify_kafka_exception u e).error_type ≡ first_rule kafka_rules (lower u e)
unfolding classify_kafka_exception first_rule kafka_rules any_in
classify_kafka_exception-first_rule u e = ground (
  arith,
  contains_trans (lower u e) (codes "topicauthorizationexception") (codes "authoriz"),
  contains_trans (lower u e) (codes "groupauthorizationexception") (codes "authoriz"),
  topic_authoriz,
  group_authoriz,
)

-- The six names of the taxonomy.
unfoldable pub taxonomy : List Text
taxonomy =
    codes "AUTH_FAILURE"
    ∷ codes "NETWORK_TIMEOUT"
    ∷ codes "AUTHORIZATION"
    ∷ codes "INVALID_PARAMS"
    ∷ codes "EXECUTION_FAILURE"
    ∷ codes "TIMEOUT"
    ∷ []

elem-value : (t : ErrorType) → elem (value t) taxonomy ≡ true
unfolding value taxonomy elem list_beq
elem-value auth_failure = refl
elem-value network_timeout = refl
elem-value authorization = refl
elem-value invalid_params = refl
elem-value execution_failure = refl
elem-value timeout = refl

-- Whatever a tool raises, its caller gets an envelope that is marked as an error and names one of
-- the six types.
pub handle-taxonomy :
    (u : Unicode) (e : Raised)
    → ((handle u e).error ≡ true) × (elem (handle u e).error_type taxonomy ≡ true)
unfolding handle to_envelope
handle-taxonomy u (tool_error e) = (refl, elem-value e.error_type)
handle-taxonomy u timeout_error = (refl, elem-value timeout)
handle-taxonomy u (exception owner text) = (refl, elem-value _)

-- The decorator answers with a value exactly when the tool returned it, and with the envelope of an
-- exception exactly when the tool raised one that is mapped to it.
pub tool_error_handler_iff {ℓ} :
    {A : Type ℓ} (u : Unicode) (r : Result A)
    → ((a : A) → (tool_error_handler u r ≡ answer a) ↔ (r ≡ ok a))
      × ((v : Envelope)
          → (tool_error_handler u r ≡ failure v) ↔ ((e : Raised) × (r ≡ err e) × (handle u e ≡ v)))
unfolding tool_error_handler
tool_error_handler_iff u (ok a) = (λ b. (λ h. cc, λ h. cc), λ v. (λ h. cc, λ h. cc (h.1)))
tool_error_handler_iff u (err e) =
    (λ a. (λ h. cc, λ h. cc), λ v. (λ h. (e, refl, cc), λ h. cc (h.1, h.2)))
