-- ===== src/Tools/Topics.antt =====
-- What describe_topic.py and describe_under_replicated_partitions.py share: the ids of nodes, the sets
-- and counters of Python that they use, and the calls of the AdminClient that they make.
pub mod Sets
pub mod Describe
pub mod UnderReplicated
pub mod Agreement
use devops_agent_msk_mcp.Base.{
  ℕ, ◌+◌, ℤ, Text, Bool, List, [], ◌∷◌, Option, none, some, Eq, elem, if◌then◌else◌,
}
use devops_agent_msk_mcp.Base.Dict
use devops_agent_msk_mcp.Base.Dict.{Dict}
use devops_agent_msk_mcp.Errors.{Result}

-- A node as the client gives it: none, an object with an `id`, a number, or anything else.
pub data Node : Type 0 where
  no_node : Node
  broker : Option ℤ → Node
  number : ℤ → Node
  other : Node

unfoldable pub node_id : Node → Option ℤ
node_id no_node = none
node_id (broker id) = id
node_id (number z) = some z
node_id other = none

-- The ids of the nodes that have one.
unfoldable pub known_ids : List Node → List ℤ
unfolding node_id
known_ids [] = []
known_ids (n ∷ ns) = let rest = known_ids ns in elim (node_id n) [ none ↦ rest | some z ↦ z ∷ rest ]

-- One partition of a topic's description; a list that is missing or `None` is empty.
pub record PartitionInfo : Type 0 where
  pub id : Option ℤ
  pub leader : Node
  pub replicas : List Node
  pub isr : List Node

-- The calls of a client: the description of each topic asked for, or what its future raises; and the
-- names of all topics.
pub record TopicAdmin (Client : Type 0) : Type 0 where
  pub describe_topics : Client → List Text → Result (Dict Text (Result (List PartitionInfo)))
  pub list_topics : Client → Result (List Text)

abbrev pub or_zero : Option ℕ → ℕ
or_zero none = 0
or_zero (some n) = n

module _ {ℓ} {K : Type ℓ} ⦃e : Eq K⦄ where
  -- `counts[k] = counts.get(k, 0) + 1`
  unfoldable pub bump : K → Dict K ℕ → Dict K ℕ
  bump k d = Dict.insert k (or_zero (Dict.lookup k d) + 1) d
