-- ===== src/LoggingSetup.antt =====
-- src/msk_mcp/logging_setup.py: correlation ids, from the header of a request to the context variable
-- that log lines and subprocesses read, and the configuration of logging with its processors in their
-- order. What `logging` does is a parameter; what the processors of structlog do is not modelled.
pub mod Laws
use devops_agent_msk_mcp.Base.{
  ℕ, leb, ◌+◌, ℤ, Unicode, upper, Text, codes, Bool, ◌&&◌, List, [], ◌∷◌, map, Option, none, some,
  elem, text_eq, if◌then◌else◌,
}
use devops_agent_msk_mcp.Base.Dict
use devops_agent_msk_mcp.Base.Dict.{Dict}
use devops_agent_msk_mcp.Config.{non_empty}
use devops_agent_msk_mcp.Errors.{Result, ok, ◌>>=◌, ◌>>◌}

-- `name.lower()` of bytes, which knows ASCII only.
abbrev lower_byte : ℕ → ℕ
lower_byte c = if leb 65 c && leb c 90 then c + 32 else c

abbrev pub lower_bytes : Text → Text
lower_bytes = map lower_byte

unfoldable pub header_names : List Text
header_names = codes "x-amzn-trace-id" ∷ codes "x-correlation-id" ∷ codes "x-request-id" ∷ []

-- A value's bytes are its code points in Latin-1.
unfoldable pub extract_cid : List (Text × Text) → Option Text
extract_cid [] = none
extract_cid ((name, value) ∷ headers) =
    let rest = extract_cid headers in
    if elem (lower_bytes name) header_names then some value else rest

-- `scope["type"]`, with the headers of the two types that the middleware looks at.
pub data Scope : Type 0 where
  http : Option (List (Text × Text)) → Scope
  websocket : Option (List (Text × Text)) → Scope
  other : Scope

-- `scope.get("headers", [])`
abbrev pub headers_of : Option (List (Text × Text)) → List (Text × Text)
headers_of none = []
headers_of (some headers) = headers

abbrev pub or_fresh : Option Text → Text → Text
or_fresh none fresh = fresh
or_fresh (some cid) fresh = cid

-- `self._extract_cid(scope) or uuid.uuid4().hex`
unfoldable pub correlation_id : List (Text × Text) → Text → Text
unfolding extract_cid
correlation_id headers fresh = or_fresh (non_empty (extract_cid headers)) fresh

-- The context variable.
abbrev pub Var : Type 0
Var = Option Text

module _ {R : Type 0} (app : Scope → Var → Result R × Var) (fresh : Text) where
  -- The variable is set for the call of the app, and reset however that ends.
  abbrev with_cid : Scope → List (Text × Text) → Var → Result R × Var
  with_cid scope headers var = ((app scope (some (correlation_id headers fresh))).0, var)

  unfoldable pub call : Scope → Var → Result R × Var
  unfolding correlation_id
  call (http headers) var = with_cid (http headers) (headers_of headers) var
  call (websocket headers) var = with_cid (websocket headers) (headers_of headers) var
  call other var = app other var

abbrev pub current_correlation_id : Var → Option Text
current_correlation_id var = var

-- `event_dict.setdefault(key, value)`
abbrev setdefault : Text → Text → Dict Text Text → Dict Text Text
setdefault key value event = elim (Dict.lookup key event) [
  | none ↦ Dict.insert key value event
  | some v ↦ event
]

unfoldable pub inject_correlation_id : Var → Dict Text Text → Dict Text Text
inject_correlation_id var event = elim (non_empty var) [
  | none ↦ event
  | some cid ↦ setdefault (codes "correlation_id") cid event
]

-- The `processors` of `structlog.configure`: those of the library by name, and the one of this module.
pub data Processor : Type 0 where
  merge_contextvars : Processor
  inject : Processor
  add_log_level : Processor
  time_stamper : Processor
  stack_info_renderer : Processor
  format_exc_info : Processor
  json_renderer : Processor

unfoldable pub processors : List Processor
processors =
    merge_contextvars ∷ inject ∷ add_log_level ∷ time_stamper ∷ stack_info_renderer
    ∷ format_exc_info ∷ json_renderer ∷ []

-- What Python's `logging` gives: `basicConfig` at a level, which refuses an unknown one, a level by its
-- name, and `INFO`.
pub record Logging : Type 0 where
  pub basic_config : Text → Result (Unit {0})
  pub level_of : Text → Option ℤ
  pub info : ℤ

-- What structlog is configured with.
pub record LogConfig : Type 0 where
  pub chain : List Processor
  pub min_level : ℤ

abbrev or_info : Logging → Option ℤ → ℤ
or_info logging none = logging.info
or_info logging (some level) = level

unfoldable pub configure_logging : Unicode → Logging → Text → Result LogConfig
unfolding processors
configure_logging u logging level = do
  logging.basic_config (upper u level)
  ok (record { chain = processors; min_level = or_info logging (logging.level_of (upper u level)) })
