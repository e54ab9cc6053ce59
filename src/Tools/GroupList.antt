-- ===== src/Tools/GroupList.antt =====
-- src/msk_mcp/tools/list_consumer_groups.py: the groups of a cluster with their states. The client's
-- call is a parameter.
pub mod Laws
use devops_agent_msk_mcp.Base.{
  ℕ, zero, suc, show_ℕ, Text, codes, Unicode, upper, join, text_leb, Bool, List, [], ◌∷◌, ◌++◌, map,
  Option, none, some, length, text_eq, ◌==◌, if◌then◌else◌,
}
use devops_agent_msk_mcp.Base.Dict.{Dict}
use devops_agent_msk_mcp.Base.Parts.{keep}
use devops_agent_msk_mcp.Base.Sort.{sort_by}
use devops_agent_msk_mcp.Config.{non_empty}
use devops_agent_msk_mcp.Errors.{Result, ok, ◌>>=◌}
use devops_agent_msk_mcp.KafkaClients.{Conf, Factory, get_client}
use devops_agent_msk_mcp.Tools.Group.{GroupState, state_name}
use devops_agent_msk_mcp.Tools.Topics.{bump}

-- What the client lists: the groups, and the `str` of each listing error.
pub record Listing : Type 0 where
  pub valid : List (Text × GroupState)
  pub errors : List Text

pub record Entry : Type 0 where
  pub group_id : Text
  pub group_state : Option Text

unfoldable pub entry_of : Text × GroupState → Entry
unfolding state_name
entry_of (group_id, s) = record { group_id = group_id; group_state = state_name s }

abbrev pub or_empty : Option Text → Text
or_empty none = []
or_empty (some s) = s

-- `(g["state"] or "").upper() == sf`
unfoldable pub is_in_state : Unicode → Text → Entry → Bool
is_in_state u sf g = upper u (or_empty g.group_state) == sf

unfoldable pub filtered : Unicode → Option Text → List Entry → List Entry
unfolding keep is_in_state
filtered u state_filter groups = elim (non_empty state_filter) [
  | none ↦ groups
  | some f ↦ keep (is_in_state u (upper u f)) groups
]

-- `g["state"] or "UNKNOWN"`
unfoldable pub state_key : Option Text → Text
state_key none = codes "UNKNOWN"
state_key (some []) = codes "UNKNOWN"
state_key (some (c ∷ s)) = c ∷ s

unfoldable pub count_states : List Entry → Dict Text ℕ → Dict Text ℕ
unfolding state_key bump
count_states [] counts = counts
count_states (g ∷ groups) counts = count_states groups (bump (state_key g.group_state) counts)

-- `sorted(counts.items())`: the keys are distinct, so that they decide.
abbrev key_leb : Text × ℕ → Text × ℕ → Bool
key_leb p q = text_leb p.0 q.0

abbrev show_count : Text × ℕ → Text
show_count (s, c) = show_ℕ c ++ (codes " " ++ s)

unfoldable pub breakdown : List Entry → Text
unfolding count_states
breakdown groups = join (codes ", ") (map show_count (sort_by key_leb (count_states groups [])))

abbrev state_part : Unicode → Option Text → Text
state_part u none = []
state_part u (some f) = codes " in state " ++ upper u f

abbrev errors_part : ℕ → Text
errors_part zero = []
errors_part (suc n) = codes "; " ++ (show_ℕ (suc n) ++ codes " listing error(s)")

unfoldable pub summarize : Unicode → List Entry → Option Text → ℕ → Text
unfolding breakdown
summarize u [] state_filter error_count = elim (non_empty state_filter) [
  | none ↦ codes "No consumer groups on this cluster"
  | some f ↦ codes "No consumer groups in state " ++ upper u f
]
summarize u (g ∷ groups) state_filter error_count =
    show_ℕ (length (g ∷ groups))
    ++ (codes " group(s)"
        ++ (state_part u (non_empty state_filter)
            ++ (codes ": " ++ (breakdown (g ∷ groups) ++ errors_part error_count))))

pub record GroupListReport : Type 0 where
  pub cluster_id : Text
  pub consumer_groups : List Text
  pub groups_with_state : List Entry
  pub total_count : ℕ
  pub errors : List Text
  pub summary : Text

unfoldable pub list_report : Unicode → Text → Option Text → Listing → GroupListReport
unfolding entry_of filtered summarize
list_report u cluster_id state_filter listing =
    let groups = filtered u state_filter (map entry_of listing.valid) in
    record {
      cluster_id = cluster_id;
      consumer_groups = map (λ (g : Entry). g.group_id) groups;
      groups_with_state = groups;
      total_count = length groups;
      errors = listing.errors;
      summary = summarize u groups state_filter (length listing.errors);
    }

-- The client's call.
pub record ListAdmin (Client : Type 0) : Type 0 where
  pub list_groups : Client → Result Listing

module _ (u : Unicode) {Client : Type 0} (admin_client : Conf → Result Client)
    (calls : ListAdmin Client) where
  unfoldable pub list_with : Text → Option Text → Result Client → Result GroupListReport
  unfolding list_report
  list_with cluster_id state_filter found = do
    admin ← found
    listing ← calls.list_groups admin
    ok (list_report u cluster_id state_filter listing)

  unfoldable pub list_consumer_groups :
      Factory admin_client → Text → Option Text → Result GroupListReport × Factory admin_client
  unfolding list_with
  list_consumer_groups f cluster_id state_filter =
      let (found, f') = get_client admin_client f cluster_id in
      (list_with cluster_id state_filter found, f')
