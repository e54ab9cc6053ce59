-- ===== src/Errors.antt =====
-- src/msk_mcp/errors.py: the error taxonomy, the mapping of Kafka exceptions, and the decorator that
-- turns what a tool raises into an envelope. Log lines are not modelled.
pub mod Rules
pub mod Laws
use mathlib.Core.Path.{subst}
use devops_agent_msk_mcp.Base.{
  [], Text, codes, Unicode, contains, starts_with, lower, Bool, true, ◌||◌, ◌++◌, ◌≡◌, ◌⊎◌, inl,
  inr, if◌then◌else◌,
}

pub data ErrorType : Type 0 where
  auth_failure network_timeout authorization invalid_params execution_failure timeout : ErrorType

unfoldable pub value : ErrorType → Text
unfolding codes
value auth_failure = codes "AUTH_FAILURE"
value network_timeout = codes "NETWORK_TIMEOUT"
value authorization = codes "AUTHORIZATION"
value invalid_params = codes "INVALID_PARAMS"
value execution_failure = codes "EXECUTION_FAILURE"
value timeout = codes "TIMEOUT"

pub record MskToolError : Type 0 where
  pub error_type : ErrorType
  pub message : Text
  pub suggestion : Text
  pub raw_stderr : Text

-- The dictionary that `to_envelope` builds.
pub record Envelope : Type 0 where
  pub error : Bool
  pub error_type : Text
  pub error_message : Text
  pub raw_stderr : Text
  pub suggestion : Text

unfoldable pub to_envelope : MskToolError → Envelope
to_envelope e = record {
  error = true;
  error_type = value e.error_type;
  error_message = e.message;
  raw_stderr = e.raw_stderr;
  suggestion = e.suggestion;
}

-- What Python code raises: an error of the taxonomy, a `TimeoutError`, or any other `Exception`, by
-- the module of its class and its `str`.
pub data Raised : Type 0 where
  tool_error : MskToolError → Raised
  timeout_error : Raised
  exception : Text → Text → Raised

-- `str(e)`
abbrev pub str_of : Raised → Text
str_of (tool_error e) = e.message
str_of timeout_error = []
str_of (exception owner text) = text

-- A call returns a value or raises.
pub data Result {ℓ} (A : Type ℓ) : Type ℓ where
  ok : A → Result A
  err : Raised → Result A

pub ok_injective {ℓ} : {A : Type ℓ} {a b : A} → ok a ≡ ok b → a ≡ b
ok_injective h = cc

pub Result-cases {ℓ} :
    {A : Type ℓ} (r : Result A) → ((a : A) × (r ≡ ok a)) ⊎ ((e : Raised) × (r ≡ err e))
Result-cases (ok a) = inl (a, (λ i. ok a))
Result-cases (err e) = inr (e, (λ i. err e))

infixl 5 ◌>>=◌ ◌>>◌
abbrev pub ◌>>=◌ {ℓ κ} : {S : Type ℓ} {T : Type κ} → Result S → (S → Result T) → Result T
ok value >>= next = next value
err raised >>= next = err raised

abbrev pub ◌>>◌ {ℓ} : {T : Type ℓ} → Result (Unit {0}) → Result T → Result T
first >> next = first >>= λ _. next

-- What returns has returned from its parts.
pub >>=-ok {ℓ κ} :
    {S : Type ℓ} {T : Type κ} (m : Result S) (next : S → Result T) (v : T)
    → m >>= next ≡ ok v
    → (a : S) × (m ≡ ok a) × (next a ≡ ok v)
>>=-ok (ok a) next v e = (a, (λ i. ok a), e)
>>=-ok (err raised) next v e = cc

-- What a call returns, if it returns.
abbrev pub Ensures {ℓ κ} : {A : Type ℓ} → (A → Type κ) → Result A → Type κ
Ensures P (ok a) = P a
Ensures P (err e) = Unit

module _ {ℓ κ μ ν} {S : Type ℓ} {T : Type κ} (Q : S → Type μ) (P : T → Type ν) where
  pub Ensures->>= :
      (m : Result S) (next : S → Result T)
      → Ensures Q m
      → ((s : S) → Q s → Ensures P (next s))
      → Ensures P (m >>= next)
  Ensures->>= (ok s) next h step = step s h
  Ensures->>= (err e) next h step = tt

-- The same, where nothing is known of what the first call returns.
pub Ensures-then {ℓ κ ν} :
    {S : Type ℓ} {T : Type κ} (P : T → Type ν) (m : Result S) (next : S → Result T)
    → ((s : S) → Ensures P (next s))
    → Ensures P (m >>= next)
Ensures-then P (ok s) next step = step s
Ensures-then P (err e) next step = tt

pub Ensures-ok {ℓ κ} :
    {A : Type ℓ} (P : A → Type κ) (r : Result A) (a : A) → Ensures P r → r ≡ ok a → P a
Ensures-ok P (ok b) a h e = subst P (ok_injective e) h
Ensures-ok P (err e') a h e = cc

-- `MskToolError(t, m)`, with the default suggestion and stderr, and with a suggestion.
abbrev pub plain_error : ErrorType → Text → MskToolError
plain_error t m = record { error_type = t; message = m; suggestion = []; raw_stderr = [] }

abbrev pub advised_error : ErrorType → Text → Text → MskToolError
advised_error t m s = record { error_type = t; message = m; suggestion = s; raw_stderr = [] }

-- `e` is the exception's `str`.
unfoldable pub classify_kafka_exception : Unicode → Text → MskToolError
classify_kafka_exception u e =
    let text = lower u e in
    if contains text (codes "authentication")
      || contains text (codes "sasl")
      || contains text (codes "oauth")
    then advised_error auth_failure (codes "Authentication failed: " ++ e)
        (codes "Check the cluster's auth config (IAM permissions / SCRAM secret / mTLS cert).")
    else if contains text (codes "authoriz")
        || contains text (codes "topicauthorizationexception")
        || contains text (codes "groupauthorizationexception")
    then advised_error authorization (codes "Not authorized: " ++ e)
        (codes "The principal authenticated but lacks permission for this operation.")
    else if contains text (codes "timed out") || contains text (codes "timeout")
    then advised_error network_timeout (codes "Network/operation timeout: " ++ e)
        (codes "Check connectivity to the bootstrap servers and broker security groups.")
    else if contains text (codes "unknown_topic_or_partition")
        || contains text (codes "unknowntopicor")
    then advised_error invalid_params (codes "Unknown topic or partition: " ++ e)
        (codes "Verify the topic name exists on the cluster.")
    else if contains text (codes "groupidnotfound") || contains text (codes "group not found")
    then advised_error invalid_params (codes "Consumer group not found: " ++ e)
        (codes "Verify the group_id exists; use list_consumer_groups.")
    else plain_error execution_failure (codes "Kafka operation failed: " ++ e)

-- What a decorated tool returns to its caller.
pub data Response {ℓ} (A : Type ℓ) : Type ℓ where
  answer : A → Response A
  failure : Envelope → Response A

unfoldable pub handle : Unicode → Raised → Envelope
handle u (tool_error e) = to_envelope e
handle u timeout_error = to_envelope (
    advised_error timeout (codes "Tool exceeded timeout")
      (codes "Re-run with a higher MSK_MCP_DEFAULT_TIMEOUT_SECONDS, or scope down filters."))
handle u (exception owner text) = to_envelope (
    if starts_with owner (codes "confluent_kafka")
    then classify_kafka_exception u text
    else plain_error execution_failure (codes "Unhandled error: " ++ text))

unfoldable pub tool_error_handler {ℓ} : {A : Type ℓ} → Unicode → Result A → Response A
unfolding handle
tool_error_handler u (ok a) = answer a
tool_error_handler u (err e) = failure (handle u e)
