-- ===== src/Tools/Group.antt =====
-- src/msk_mcp/tools/describe_consumer_group.py: the state of a consumer group, its members, and the lag
-- of each partition. The client's calls are a parameter, and confluent_kafka is installed.
pub mod Laws
use devops_agent_msk_mcp.Base.{
  ℕ, ℤ, pos, ◌-ℤ◌, leb_ℤ, show_ℕ, Text, codes, Unicode, upper, Bool, true, false, ◌||◌, List, [],
  ◌∷◌, ◌++◌, map, Option, none, some, length, text_eq, int_eq, pair_eq, ◌==◌, if◌then◌else◌,
}
use devops_agent_msk_mcp.Base.Dict
use devops_agent_msk_mcp.Base.Dict.{Dict}
use devops_agent_msk_mcp.Errors.{Result, ok, err, tool_error, advised_error, invalid_params, ◌>>=◌}
use devops_agent_msk_mcp.KafkaClients.{Conf, Factory, get_client}

-- A topic and a partition.
abbrev pub Key : Type 0
Key = Text × ℤ

-- A member as the client gives it; the assignment may be missing.
pub record MemberInfo : Type 0 where
  pub member_id : Option Text
  pub host : Option Text
  pub client_id : Option Text
  pub assignment : Option (List Key)

-- An item of `members`.
pub record Member : Type 0 where
  pub consumer_id : Option Text
  pub host : Option Text
  pub client_id : Option Text
  pub assigned_partitions : List Key

abbrev assigned : Option (List Key) → List Key
assigned none = []
assigned (some tps) = tps

unfoldable pub member_out : MemberInfo → Member
member_out m = record {
  consumer_id = m.member_id;
  host = m.host;
  client_id = m.client_id;
  assigned_partitions = assigned m.assignment;
}

unfoldable pub assign_all : Member → List Key → Dict Key Member → Dict Key Member
assign_all m [] out = out
assign_all m (tp ∷ tps) out = assign_all m tps (Dict.insert tp m out)

unfoldable pub members_from : List Member → Dict Key Member → Dict Key Member
unfolding assign_all
members_from [] out = out
members_from (m ∷ ms) out = members_from ms (assign_all m m.assigned_partitions out)

unfoldable pub members_by_partition : List Member → Dict Key Member
unfolding members_from
members_by_partition members = members_from members []

-- A committed offset; a negative one stands for none.
pub record Committed : Type 0 where
  pub topic : Text
  pub partition : ℤ
  pub offset : ℤ

abbrev pub key_of : Committed → Key
key_of tp = (tp.topic, tp.partition)

-- An item of `offsets`.
pub record OffsetRow : Type 0 where
  pub topic : Text
  pub partition : ℤ
  pub current_offset : Option ℤ
  pub log_end_offset : Option ℤ
  pub lag : Option ℤ
  pub consumer_id : Option Text
  pub host : Option Text
  pub client_id : Option Text

-- `m.get("consumer_id")` of a member or of `{}`.
abbrev field : (Member → Option Text) → Option Member → Option Text
field f none = none
field f (some m) = f m

unfoldable pub committed_offset : ℤ → Option ℤ
committed_offset offset = if leb_ℤ (pos 0) offset then some offset else none

unfoldable pub lag_of : Option ℤ → Option ℤ → Option ℤ
lag_of (some end) (some current) = some (end -ℤ current)
lag_of (some end) none = none
lag_of none current = none

unfoldable pub offset_row : Dict Key ℤ → Dict Key Member → Committed → OffsetRow
unfolding committed_offset lag_of
offset_row end_offsets member_lookup tp =
    let end = Dict.lookup (key_of tp) end_offsets in
    let current = committed_offset tp.offset in
    let m = Dict.lookup (key_of tp) member_lookup in
    record {
      topic = tp.topic;
      partition = tp.partition;
      current_offset = current;
      log_end_offset = end;
      lag = lag_of end current;
      consumer_id = field (λ m. m.consumer_id) m;
      host = field (λ m. m.host) m;
      client_id = field (λ m. m.client_id) m;
    }

-- The results of `list_offsets` that came with an offset.
unfoldable pub gather : List (Key × Result (Option ℤ)) → Dict Key ℤ → Dict Key ℤ
gather [] out = out
gather ((tp, err e) ∷ rest) out = gather rest out
gather ((tp, ok none) ∷ rest) out = gather rest out
gather ((tp, ok (some offset)) ∷ rest) out = gather rest (Dict.insert tp offset out)

-- The state of a group: none, or an object by its `name`, if it has one, and its `str`.
pub data GroupState : Type 0 where
  no_state : GroupState
  state : Option Text → Text → GroupState

unfoldable pub state_name : GroupState → Option Text
state_name no_state = none
state_name (state none text) = some text
state_name (state (some []) text) = some text
state_name (state (some (c ∷ name)) text) = some (c ∷ name)

-- The node that coordinates a group; an absent attribute is `none`.
pub record Coordinator : Type 0 where
  pub id : Option ℤ

unfoldable pub coordinator_id : Option Coordinator → Option ℤ
coordinator_id none = none
coordinator_id (some node) = node.id

-- A group's description.
pub record GroupInfo : Type 0 where
  pub group_state : GroupState
  pub members : List MemberInfo
  pub protocol_type : Option Text
  pub coordinator : Option Coordinator

-- The client's calls; `list_offsets` is missing in old versions of the library.
pub record GroupAdmin (Client : Type 0) : Type 0 where
  pub describe_consumer_groups : Client → List Text → Result (Dict Text (Result GroupInfo))
  pub list_consumer_group_offsets : Client → Text → Result (Dict Text (Result (List Committed)))
  pub list_offsets : Option (Client → List Key → Result (List (Key × Result (Option ℤ))))

-- `(state or "").upper() in _REBALANCING_STATES`
unfoldable pub is_rebalancing : Unicode → Option Text → Bool
is_rebalancing u none = false
is_rebalancing u (some s) =
    let name = upper u s in
    name == codes "PREPARINGREBALANCE" || name == codes "COMPLETINGREBALANCE"

abbrev or_none : Option Text → Text
or_none none = codes "None"
or_none (some s) = s

unfoldable pub summarize : Option Text → ℕ → ℕ → Text
summarize s member_count offset_count =
    codes "state="
    ++ (or_none s
        ++ (codes ", members="
            ++ (show_ℕ member_count ++ (codes ", offsets_partitions=" ++ show_ℕ offset_count))))

pub record GroupReport : Type 0 where
  pub cluster_id : Text
  pub group_id : Text
  pub group_state : Option Text
  pub protocol_type : Option Text
  pub coordinator : Option ℤ
  pub members : List Member
  pub offsets : List OffsetRow
  pub is_rebalancing : Bool
  pub summary : Text

unfoldable pub group_report :
    Unicode → Text → Text → GroupInfo → List Member → List OffsetRow → GroupReport
unfolding state_name is_rebalancing summarize coordinator_id
group_report u cluster_id group_id desc members offsets =
    let name = state_name desc.group_state in
    record {
      cluster_id = cluster_id;
      group_id = group_id;
      group_state = name;
      protocol_type = desc.protocol_type;
      coordinator = coordinator_id desc.coordinator;
      members = members;
      offsets = offsets;
      is_rebalancing = is_rebalancing u name;
      summary = summarize name (length members) (length offsets);
    }

module _ (u : Unicode) {Client : Type 0} (admin_client : Conf → Result Client)
    (calls : GroupAdmin Client) where
  open calls use {describe_consumer_groups, list_consumer_group_offsets, list_offsets}

  -- An error of the call counts as no end offsets.
  abbrev gathered : Result (List (Key × Result (Option ℤ))) → Dict Key ℤ
  gathered (err e) = []
  gathered (ok results) = gather results []

  unfoldable pub fetch_end_offsets : Client → List Committed → Dict Key ℤ
  unfolding gather
  fetch_end_offsets admin tps = elim list_offsets [
    | none ↦ []
    | some call ↦ gathered (call admin (map key_of tps))
  ]

  abbrev rows : Client → List Member → List Committed → List OffsetRow
  rows admin members committed =
      map (offset_row (fetch_end_offsets admin committed) (members_by_partition members)) committed

  abbrev committed_of : Option (Result (List Committed)) → Result (List Committed)
  committed_of none = ok []
  committed_of (some future) = future

  unfoldable pub fetch_offsets : Client → Text → List Member → Result (List OffsetRow)
  unfolding fetch_end_offsets
  fetch_offsets admin group_id members = do
    futures ← list_consumer_group_offsets admin group_id
    committed ← committed_of (Dict.lookup group_id futures)
    ok (rows admin members committed)

  abbrev described : Text → Option (Result GroupInfo) → Result GroupInfo
  described group_id none = err (
      tool_error (
        advised_error invalid_params (codes "Consumer group not found: " ++ group_id)
          (codes "Use list_consumer_groups to enumerate available groups.")))
  described group_id (some future) = future

  abbrev members_of : Bool → GroupInfo → List Member
  members_of true desc = map member_out desc.members
  members_of false desc = []

  abbrev offsets_of : Bool → Client → Text → List Member → Result (List OffsetRow)
  offsets_of true admin group_id members = fetch_offsets admin group_id members
  offsets_of false admin group_id members = ok []

  unfoldable pub describe_with : Text → Text → Bool → Bool → Result Client → Result GroupReport
  unfolding member_out fetch_offsets group_report
  describe_with cluster_id group_id include_members include_offsets found = do
    admin ← found
    desc_map ← describe_consumer_groups admin (group_id ∷ [])
    desc ← described group_id (Dict.lookup group_id desc_map)
    let members = members_of include_members desc
    offsets ← offsets_of include_offsets admin group_id members
    ok (group_report u cluster_id group_id desc members offsets)

  unfoldable pub describe_consumer_group :
      Factory admin_client → Text → Text → Bool → Bool → Result GroupReport × Factory admin_client
  unfolding describe_with
  describe_consumer_group f cluster_id group_id include_members include_offsets =
      let (found, f') = get_client admin_client f cluster_id in
      (describe_with cluster_id group_id include_members include_offsets found, f')
