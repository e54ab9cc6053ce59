-- ===== src/Tools/LogDirs/Scan.antt =====
-- src/msk_mcp/tools/describe_log_dirs.py: `_safe_int` and the three loops over the payload, with what
-- they raise where a value is not of the expected kind.
pub mod Places
pub mod Laws
pub mod Names
use devops_agent_msk_mcp.Base.{
  ℤ, int, Text, codes, Unicode, contains, rsplit, Bool, true, false, not, ◌&&◌, List, [], ◌∷◌, ◌++◌,
  Option, none, some, text_eq, ◌==◌, if◌then◌else◌,
}
use devops_agent_msk_mcp.Base.Json.{
  Json, null, boolean, float, str, list, dict, truthy, type_name, lookup_field, list_items,
  field_keys, characters, in_items, in_fields,
}
use devops_agent_msk_mcp.Base.Json
use devops_agent_msk_mcp.Config.{non_empty}
use devops_agent_msk_mcp.Errors.{Result, ok, err, Raised, exception, ◌>>=◌}

abbrev attribute_error : Json → Text → Raised
attribute_error x name =
    exception (codes "builtins")
      (codes "'" ++ (type_name x ++ (codes "' object has no attribute '" ++ (name ++ codes "'"))))

abbrev not_iterable : Json → Raised
not_iterable x =
    exception (codes "builtins") (codes "'" ++ (type_name x ++ codes "' object is not iterable"))

abbrev no_container : Json → Raised
no_container x =
    exception (codes "builtins")
      (codes "argument of type '" ++ (type_name x ++ codes "' is not iterable"))

-- `x.get(key)`; `none` is a missing key.
unfoldable pub get : Json → Text → Result (Option Json)
get (dict fs) key = ok (lookup_field key fs)
get (list xs) key = err (attribute_error (list xs) (codes "get"))
get (str s) key = err (attribute_error (str s) (codes "get"))
get (Json.int z) key = err (attribute_error (Json.int z) (codes "get"))
get (float is_zero text) key = err (attribute_error (float is_zero text) (codes "get"))
get (boolean b) key = err (attribute_error (boolean b) (codes "get"))
get null key = err (attribute_error null (codes "get"))

-- What `for b in x` runs over, for a value that is true.
unfoldable pub iterate : Json → Result (List Json)
iterate (list xs) = ok (list_items xs)
iterate (dict fs) = ok (field_keys fs)
iterate (str s) = ok (characters s)
iterate (Json.int z) = err (not_iterable (Json.int z))
iterate (float is_zero text) = err (not_iterable (float is_zero text))
iterate (boolean b) = err (not_iterable (boolean b))
iterate null = err (not_iterable null)

-- `x.get(key, []) or []`, as it is iterated.
unfoldable pub items_of : Option Json → Result (List Json)
unfolding iterate
items_of none = ok []
items_of (some x) = if truthy x then iterate x else ok []

abbrev pub is_true : Option Json → Bool
is_true none = false
is_true (some x) = truthy x

-- The topic and the rest of `topic_part`, and whether that is a text at all.
pub record Name : Type 0 where
  pub topic : Option Text
  pub behind : Result Text

abbrev text_name : Text → Option (Text × Text) → Name
text_name s none = record { topic = none; behind = ok s }
text_name s (some (topic, behind)) = record { topic = some topic; behind = ok behind }

-- Without a `-` the topic is `None`; `rsplit` fails on what is not a text, now or later.
abbrev other_name : Json → Bool → Result Name
other_name x true = err (attribute_error x (codes "rsplit"))
other_name x false = ok (record { topic = none; behind = err (attribute_error x (codes "rsplit")) })

unfoldable pub name_of : Option Json → Result Name
name_of none = ok (text_name [] none)
name_of (some (str s)) = ok (text_name s (rsplit b'-' s))
name_of (some (list xs)) = other_name (list xs) (in_items (codes "-") xs)
name_of (some (dict fs)) = other_name (dict fs) (in_fields (codes "-") fs)
name_of (some (Json.int z)) = err (no_container (Json.int z))
name_of (some (float is_zero text)) = err (no_container (float is_zero text))
name_of (some (boolean b)) = err (no_container (boolean b))
name_of (some null) = err (no_container null)

-- An item of a log directory's `partitions`.
pub record Entry : Type 0 where
  pub topic : Option Text
  pub partition : Option ℤ
  pub size_bytes : Option Json
  pub offset_lag : Option Json
  pub is_future : Bool

pub record Stuck : Type 0 where
  pub broker_id : Option Json
  pub path : Option Json
  pub entry : Entry

pub record DiskError : Type 0 where
  pub broker_id : Option Json
  pub path : Option Json
  pub error : Option Json

pub record LogDir : Type 0 where
  pub path : Option Json
  pub error : Option Json
  pub partitions : List Entry

pub record Broker : Type 0 where
  pub broker_id : Option Json
  pub log_dirs : List LogDir

abbrev pub is_topic : Text → Option Text → Bool
is_topic f none = false
is_topic f (some t) = t == f

-- `topic_filter and topic != topic_filter`
abbrev pub is_skipped : Option Text → Option Text → Bool
is_skipped none topic = false
is_skipped (some f) topic = not (is_topic f topic)

-- What the loop over partitions gathers.
pub record Rows : Type 0 where
  pub partitions_out : List Entry
  pub stuck : List Stuck

-- What the loop over log directories gathers.
pub record Dirs : Type 0 where
  pub log_dirs_out : List LogDir
  pub stuck : List Stuck
  pub disk_errors : List DiskError

pub record Found : Type 0 where
  pub brokers_out : List Broker
  pub stuck : List Stuck
  pub disk_errors : List DiskError

abbrev pub nothing_found : Found
nothing_found = record { brokers_out = []; stuck = []; disk_errors = [] }

module _ (u : Unicode) (topic_filter : Option Text) where
  module _ (broker_id path : Option Json) where
    unfoldable pub add_entry : Entry → Rows → Rows
    add_entry e rows = record {
      partitions_out = rows.partitions_out ++ (e ∷ []);
      stuck =
          if e.is_future
          then rows.stuck ++ (record { broker_id = broker_id; path = path; entry = e } ∷ [])
          else rows.stuck;
    }

    -- `int` raises on text that is no number.
    abbrev pub safe_int : Text → Option ℤ
    safe_int s = int u s

    unfoldable pub entry_of : Json → Name → Result Entry
    entry_of p name = do
      behind ← name.behind
      size ← get p (codes "size")
      lag ← get p (codes "offsetLag")
      future ← get p (codes "isFuture")
      ok (record {
        topic = name.topic;
        partition = safe_int behind;
        size_bytes = size;
        offset_lag = lag;
        is_future = is_true future;
      })

    unfoldable pub scan_partition : Json → Rows → Result Rows
    unfolding name_of entry_of add_entry
    scan_partition p rows = do
      topic_part ← get p (codes "partition")
      name ← name_of topic_part
      if is_skipped (non_empty topic_filter) name.topic
          then ok rows
          else do e ← entry_of p name; ok (add_entry e rows)

    unfoldable pub scan_partitions : List Json → Rows → Result Rows
    unfolding scan_partition
    scan_partitions [] rows = ok rows
    scan_partitions (p ∷ ps) rows = scan_partition p rows >>= scan_partitions ps

  unfoldable pub note_error :
      Option Json → Option Json → Option Json → List DiskError → List DiskError
  note_error broker_id path error errors =
      if is_true error
      then errors ++ (record { broker_id = broker_id; path = path; error = error } ∷ [])
      else errors

  unfoldable pub scan_dir : Option Json → Json → Dirs → Result Dirs
  unfolding scan_partitions note_error items_of
  scan_dir broker_id ld dirs = do
    error ← get ld (codes "error")
    path ← get ld (codes "logDir")
    partitions ← get ld (codes "partitions")
    ps ← items_of partitions
    rows ← scan_partitions broker_id path ps (record { partitions_out = []; stuck = dirs.stuck })
    ok (record {
      log_dirs_out =
          dirs.log_dirs_out
          ++ (record { path = path; error = error; partitions = rows.partitions_out } ∷ []);
      stuck = rows.stuck;
      disk_errors = note_error broker_id path error dirs.disk_errors;
    })

  unfoldable pub scan_dirs : Option Json → List Json → Dirs → Result Dirs
  unfolding scan_dir
  scan_dirs broker_id [] dirs = ok dirs
  scan_dirs broker_id (ld ∷ lds) dirs = scan_dir broker_id ld dirs >>= scan_dirs broker_id lds

  unfoldable pub scan_broker : Json → Found → Result Found
  unfolding scan_dirs items_of
  scan_broker b found = do
    broker_id ← get b (codes "broker")
    log_dirs ← get b (codes "logDirs")
    lds ← items_of log_dirs
    dirs ←
        scan_dirs broker_id lds
          (record { log_dirs_out = []; stuck = found.stuck; disk_errors = found.disk_errors })
    ok (record {
      brokers_out =
          found.brokers_out
          ++ (record { broker_id = broker_id; log_dirs = dirs.log_dirs_out } ∷ []);
      stuck = dirs.stuck;
      disk_errors = dirs.disk_errors;
    })

  unfoldable pub scan_brokers : List Json → Found → Result Found
  unfolding scan_broker
  scan_brokers [] found = ok found
  scan_brokers (b ∷ bs) found = scan_broker b found >>= scan_brokers bs

  unfoldable pub scan_payload : Json → Result Found
  unfolding scan_brokers items_of
  scan_payload payload = do
    brokers ← get payload (codes "brokers")
    bs ← items_of brokers
    scan_brokers bs nothing_found
