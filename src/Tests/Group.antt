-- ===== src/Tests/Group.antt =====
-- Consumer groups.
use devops_agent_msk_mcp.Base.{
  ℤ, pos, ◌+ℤ◌, ◌-ℤ◌, leb_ℤ, Text, codes, list_beq, true, List, [], ◌∷◌, none, some, ◌≡◌, refl,
  text_eq, int_eq, pair_eq,
}
use devops_agent_msk_mcp.Base.Dict
use devops_agent_msk_mcp.Tools.Group.{
  Key, Member, members_by_partition, Committed, offset_row, key_of,
}
use devops_agent_msk_mcp.Tools.Group.Laws.{last_owner, lookup-members_by_partition, lag-offset_row}

abbrev orders : Key
orders = (codes "orders", pos 0)

abbrev member : Text → Member
member id = record {
  consumer_id = some id;
  host = some (codes "/10.0.0.1");
  client_id = none;
  assigned_partitions = orders ∷ [];
}

-- During a rebalance two members may show the same partition.
abbrev members : List Member
members = member (codes "a") ∷ member (codes "b") ∷ []

lookup-members_by_partition_example :
    Dict.lookup orders (members_by_partition members) ≡ last_owner orders members none
lookup-members_by_partition_example = lookup-members_by_partition orders members

abbrev committed : Committed
committed = record { topic = codes "orders"; partition = pos 0; offset = pos 7 }

shown : (offset_row ((orders, pos 10) ∷ []) [] committed).lag ≡ some (pos 3)
unfolding offset_row Dict.lookup codes list_beq ◌-ℤ◌
shown = refl

lag-offset_row_example :
    (leb_ℤ (pos 0) (pos 7) ≡ true)
    × ((e : ℤ) × (Dict.lookup (key_of committed) ((orders, pos 10) ∷ []) ≡ some e)
        × (pos 3 +ℤ pos 7 ≡ e))
lag-offset_row_example = lag-offset_row ((orders, pos 10) ∷ []) [] committed (pos 3) shown
