-- ===== src/Tools/Configs.antt =====
-- src/msk_mcp/tools/describe_topic_configs.py: the configuration of a topic, and its notable overrides.
-- The client's call and the library's table of config sources are parameters.
pub mod Laws
use devops_agent_msk_mcp.Base.{
  ℕ, ℤ, show_ℕ, Text, codes, contains, join, text_leb, Bool, true, false, not, ◌&&◌, ◌||◌, List, [],
  ◌∷◌, ◌++◌, map, Option, none, some, length, elem, text_eq, if◌then◌else◌,
}
use devops_agent_msk_mcp.Base.Dict.{Dict}
use devops_agent_msk_mcp.Base.Keys.{on}
use devops_agent_msk_mcp.Base.Sort.{sort_by}
use devops_agent_msk_mcp.Errors.{Result, ok, err, tool_error, plain_error, invalid_params, ◌>>=◌}
use devops_agent_msk_mcp.KafkaClients.{Conf, Factory, get_client}

-- `_NOTABLE_KEYS`
unfoldable pub notable_keys : List Text
notable_keys =
    codes "compression.type"
    ∷ codes "cleanup.policy"
    ∷ codes "retention.ms"
    ∷ codes "retention.bytes"
    ∷ codes "min.insync.replicas"
    ∷ codes "max.message.bytes"
    ∷ codes "segment.ms"
    ∷ codes "segment.bytes"
    ∷ codes "unclean.leader.election.enable"
    ∷ codes "message.timestamp.type"
    ∷ []

-- A source: none, or an object by its `name`, if it has one, its value as an integer, if it is one, and
-- its `str`.
pub data Source : Type 0 where
  no_source : Source
  source : Option Text → Option ℤ → Text → Source

pub record ConfigEntry : Type 0 where
  pub value : Option Text
  pub config_source : Source
  pub is_sensitive : Bool
  pub is_read_only : Bool
  pub is_default : Bool

-- An item of `configs`.
pub record ConfigRecord : Type 0 where
  pub name : Text
  pub value : Option Text
  pub config_source : Option Text
  pub is_sensitive : Bool
  pub is_read_only : Bool
  pub is_default : Bool

-- An item of `notable_overrides`.
pub record Notable : Type 0 where
  pub name : Text
  pub value : Option Text
  pub config_source : Option Text

abbrev named_or_unknown : Text → Option Text → Text
named_or_unknown text none = codes "UNKNOWN(" ++ (text ++ codes ")")
named_or_unknown text (some name) = name

-- `source is not None and "DEFAULT" in source`
unfoldable pub is_default_source : Option Text → Bool
is_default_source none = false
is_default_source (some s) = contains s (codes "DEFAULT")

-- `config_source` is `ConfigSource(n).name`; none is a `ValueError` or an `ImportError`.
module _ (config_source : ℤ → Option Text) where
  abbrev unnamed_source : Option ℤ → Text → Text
  unnamed_source none text = text
  unnamed_source (some n) text = named_or_unknown text (config_source n)

  unfoldable pub source_name : Source → Option Text
  source_name no_source = none
  source_name (source (some (c ∷ name)) n text) = some (c ∷ name)
  source_name (source (some []) n text) = some (unnamed_source n text)
  source_name (source none n text) = some (unnamed_source n text)

  unfoldable pub record_of : Text × ConfigEntry → ConfigRecord
  unfolding source_name is_default_source
  record_of (name, entry) =
      let s = source_name entry.config_source in
      record {
        name = name;
        value = entry.value;
        config_source = s;
        is_sensitive = entry.is_sensitive;
        is_read_only = entry.is_read_only;
        is_default = entry.is_default || is_default_source s;
      }

abbrev pub is_notable : ConfigRecord → Bool
is_notable r = elem r.name notable_keys && not r.is_default

abbrev pub highlight : ConfigRecord → Notable
highlight r = record { name = r.name; value = r.value; config_source = r.config_source }

-- What the loop gathers.
pub record Gathered : Type 0 where
  pub configs_out : List ConfigRecord
  pub notable : List Notable

abbrev pub start : Gathered
start = record { configs_out = []; notable = [] }

unfoldable pub visit_entry : ConfigRecord → Gathered → Gathered
visit_entry r g = record {
  configs_out = g.configs_out ++ (r ∷ []);
  notable = if is_notable r then g.notable ++ (highlight r ∷ []) else g.notable;
}

unfoldable pub visit_entries : List ConfigRecord → Gathered → Gathered
unfolding visit_entry
visit_entries [] g = g
visit_entries (r ∷ rs) g = visit_entries rs (visit_entry r g)

unfoldable pub summarize : Text → ℕ → List Notable → Text
summarize topic total [] =
    codes "topic=" ++ (topic ++ (codes ", configs=" ++ (show_ℕ total ++ codes ", all defaults")))
summarize topic total (n ∷ ns) =
    codes "topic="
    ++ (topic
        ++ (codes ", configs="
            ++ (show_ℕ total
                ++ (codes ", notable_overrides=["
                    ++ (join (codes ", ") (map (λ (m : Notable). m.name) (n ∷ ns)) ++ codes "]")))))

pub record ConfigReport : Type 0 where
  pub cluster_id : Text
  pub topic : Text
  pub configs : List ConfigRecord
  pub notable_overrides : List Notable
  pub summary : Text

abbrev pub record_name : ConfigRecord → Text
record_name r = r.name

abbrev pub notable_name : Notable → Text
notable_name n = n.name

unfoldable pub config_report :
    (ℤ → Option Text) → Text → Text → Dict Text ConfigEntry → ConfigReport
unfolding record_of visit_entries summarize
config_report config_source cluster_id topic_name entries =
    let g = visit_entries (map (record_of config_source) entries) start in
    let configs = sort_by (on record_name text_leb) g.configs_out in
    let notable = sort_by (on notable_name text_leb) g.notable in
    record {
      cluster_id = cluster_id;
      topic = topic_name;
      configs = configs;
      notable_overrides = notable;
      summary = summarize topic_name (length configs) notable;
    }

-- The call of the client: the futures of the description of one topic's configuration.
pub record ConfigAdmin (Client : Type 0) : Type 0 where
  pub describe_configs : Client → Text → Result (List (Result (Dict Text ConfigEntry)))

module _ (config_source : ℤ → Option Text) {Client : Type 0} (admin_client : Conf → Result Client)
    (calls : ConfigAdmin Client) where
  -- The first future, if there is one.
  abbrev first_future :
      Text → List (Result (Dict Text ConfigEntry)) → Result (Dict Text ConfigEntry)
  first_future topic_name [] = err (
      tool_error
        (plain_error invalid_params (codes "Topic not found or not describable: " ++ topic_name)))
  first_future topic_name (future ∷ futures) = future

  unfoldable pub configs_with : Text → Text → Result Client → Result ConfigReport
  unfolding config_report
  configs_with cluster_id topic_name found = do
    admin ← found
    futures ← calls.describe_configs admin topic_name
    entries ← first_future topic_name futures
    ok (config_report config_source cluster_id topic_name entries)

  unfoldable pub describe_topic_configs :
      Factory admin_client → Text → Text → Result ConfigReport × Factory admin_client
  unfolding configs_with
  describe_topic_configs f cluster_id topic_name =
      let (found, f') = get_client admin_client f cluster_id in
      (configs_with cluster_id topic_name found, f')
