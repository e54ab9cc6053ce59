-- ===== src/Tools/Times.antt =====
-- src/msk_mcp/tools/get_offsets_for_times.py: the offsets of a topic's partitions at a time. The
-- client's calls and `repr` are parameters, and confluent_kafka is installed.
pub mod Laws
use devops_agent_msk_mcp.Base.{
  ℕ, zero, suc, ◌+◌, ◌-◌, ℤ, pos, negsuc, leb_ℤ, show_ℕ, show_ℤ, Text, codes, Bool, true, false,
  List, [], ◌∷◌, ◌++◌, Option, none, some, length, elem, int_eq, text_eq, nat_eq, ◌==◌,
  if◌then◌else◌,
}
use devops_agent_msk_mcp.Base.Dict
use devops_agent_msk_mcp.Base.Dict.{Dict}
use devops_agent_msk_mcp.Base.Keys.{on}
use devops_agent_msk_mcp.Base.Sort.{sort_by}
use devops_agent_msk_mcp.Errors.{
  Result, ok, err, str_of, tool_error, plain_error, invalid_params, ◌>>=◌,
}
use devops_agent_msk_mcp.KafkaClients.{Conf, Factory, get_client}

-- What a future of `list_offsets` yields.
pub record OffsetInfo : Type 0 where
  pub offset : Option ℤ
  pub timestamp : Option ℤ

-- The partition of the key, and its future.
abbrev pub Future : Type 0
Future = Option ℤ × Result OffsetInfo

-- An item of `offsets`; `error` is there only for a future that raises.
pub record TimeRow : Type 0 where
  pub partition : Option ℤ
  pub offset : Option ℤ
  pub timestamp_ms : Option ℤ
  pub found : Bool
  pub error : Option Text

-- `offset is not None and offset >= 0`
unfoldable pub is_found : Option ℤ → Bool
is_found none = false
is_found (some offset) = leb_ℤ (pos 0) offset

unfoldable pub row_of : Future → TimeRow
unfolding is_found
row_of (partition, ok res) = record {
  partition = partition;
  offset = res.offset;
  timestamp_ms = res.timestamp;
  found = is_found res.offset;
  error = none;
}
row_of (partition, err e) = record {
  partition = partition;
  offset = none;
  timestamp_ms = none;
  found = false;
  error = some (str_of e);
}

-- `not_found_count` after a round.
unfoldable pub count_not_found : Future → ℕ → ℕ
unfolding is_found
count_not_found (partition, err e) n = n
count_not_found (partition, ok res) n = if is_found res.offset then n else n + 1

pub record Scan : Type 0 where
  pub results : List TimeRow
  pub not_found_count : ℕ

abbrev pub start : Scan
start = record { results = []; not_found_count = 0 }

unfoldable pub scan : List Future → Scan → Scan
unfolding row_of count_not_found
scan [] s = s
scan (f ∷ futures) s = scan futures (record {
  results = s.results ++ (row_of f ∷ []);
  not_found_count = count_not_found f s.not_found_count;
})

-- `r["partition"] if r["partition"] is not None else -1`
abbrev pub partition_key : TimeRow → ℤ
partition_key r = elim r.partition [ none ↦ negsuc 0 | some p ↦ p ]

-- `topic=… ts_ms=…: `
abbrev pub about : Text → ℤ → Text
about topic ts = codes "topic=" ++ (topic ++ (codes " ts_ms=" ++ (show_ℤ ts ++ codes ": ")))

unfoldable pub summarize : Text → ℤ → ℕ → ℕ → Text
summarize topic ts total not_found =
    if total == 0
    then about topic ts ++ codes "no partitions"
    else if not_found == total
    then about topic ts
      ++ codes
          "no messages found at or after this timestamp on any partition (it may be in the future)"
    else if not_found == 0
    then about topic ts
      ++ (codes "offsets returned for all " ++ (show_ℕ total ++ codes " partitions"))
    else about topic ts
      ++ (codes "offsets returned for "
          ++ (show_ℕ (total - not_found)
              ++ (codes "/"
                  ++ (show_ℕ total
                      ++ (codes " partitions ("
                          ++ (show_ℕ not_found
                              ++ codes " have no messages at/after this timestamp)"))))))

pub record TimesReport : Type 0 where
  pub cluster_id : Text
  pub topic : Text
  pub timestamp_ms : ℤ
  pub offsets : List TimeRow
  pub summary : Text

unfoldable pub times_report : Text → Text → ℤ → List Future → TimesReport
unfolding scan summarize
times_report cluster_id topic_name timestamp_ms futures =
    let s = scan futures start in
    let results = sort_by (on partition_key leb_ℤ) s.results in
    record {
      cluster_id = cluster_id;
      topic = topic_name;
      timestamp_ms = timestamp_ms;
      offsets = results;
      summary = summarize topic_name timestamp_ms (length results) s.not_found_count;
    }

-- The calls of the client: the partitions of each topic, and the futures for a topic's partitions at a
-- time.
pub record TimesAdmin (Client : Type 0) : Type 0 where
  pub list_partitions : Client → Result (Dict Text (List ℤ))
  pub list_offsets : Client → Text → List ℤ → ℤ → Result (List Future)

-- The keys of the request, of which each occurs once.
unfoldable pub request_keys : List ℤ → List ℤ → List ℤ
request_keys [] out = out
request_keys (p ∷ ps) out = request_keys ps (if elem p out then out else out ++ (p ∷ []))

abbrev partitions_of : Text → Option (List ℤ) → Result (List ℤ)
partitions_of topic_name none =
    err (tool_error (plain_error invalid_params (codes "Topic not found: " ++ topic_name)))
partitions_of topic_name (some parts) = ok (sort_by leb_ℤ parts)

module _ (repr : Text → Text) {Client : Type 0} (admin_client : Conf → Result Client)
    (calls : TimesAdmin Client) where
  unfoldable pub resolve_partitions : Client → Text → Option (List ℤ) → Result (List ℤ)
  resolve_partitions admin topic_name (some (p ∷ ps)) = ok (p ∷ ps)
  resolve_partitions admin topic_name (some []) = do
    topics ← calls.list_partitions admin
    partitions_of topic_name (Dict.lookup topic_name topics)
  resolve_partitions admin topic_name none = do
    topics ← calls.list_partitions admin
    partitions_of topic_name (Dict.lookup topic_name topics)

  abbrev some_partition : Text → List ℤ → Result (List ℤ)
  some_partition topic_name [] = err (
      tool_error
        (plain_error invalid_params (codes "No partitions to query for topic " ++ repr topic_name)))
  some_partition topic_name (p ∷ ps) = ok (p ∷ ps)

  unfoldable pub times_with : Text → Text → ℤ → Option (List ℤ) → Result Client → Result TimesReport
  unfolding resolve_partitions request_keys times_report
  times_with cluster_id topic_name timestamp_ms partitions found = do
    admin ← found
    resolved ← resolve_partitions admin topic_name partitions
    target ← some_partition topic_name resolved
    futures ← calls.list_offsets admin topic_name (request_keys target []) timestamp_ms
    ok (times_report cluster_id topic_name timestamp_ms futures)

  unfoldable pub get_offsets_for_times :
      Factory admin_client
      → Text
      → Text
      → ℤ
      → Option (List ℤ)
      → Result TimesReport × Factory admin_client
  unfolding times_with
  get_offsets_for_times f cluster_id topic_name timestamp_ms partitions =
      let (found, f') = get_client admin_client f cluster_id in
      (times_with cluster_id topic_name timestamp_ms partitions found, f')
