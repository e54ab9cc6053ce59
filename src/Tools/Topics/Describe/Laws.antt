-- ===== src/Tools/Topics/Describe/Laws.antt =====
-- What describe_topic says of a topic's partitions as a whole.
use devops_agent_msk_mcp.Base.{
  ℕ, ◌+◌, ℤ, Text, Bool, false, List, [], ◌∷◌, ◌++◌, map, Option, none, some, length, elem, ◌≡◌,
  ◌≢◌, ◌↔◌, inl, inr, refl, All, int_eq, nat_eq, ◌==◌, if◌then◌else◌, arith, Bool-cases, ◌∙◌, sym,
}
use mathlib.Core.List.{append-nil, append_assoc}
use devops_agent_msk_mcp.Base.Dict
use devops_agent_msk_mcp.Base.Dict.{Dict, lookup-insert}
use devops_agent_msk_mcp.Tools.Topics.{PartitionInfo, node_id, known_ids, bump, or_zero}
use devops_agent_msk_mcp.Tools.Topics.Describe.{
  report, Tally, start, add, count_leader, visit, visit_all, single, topic_report,
}

abbrev pub replica_count : PartitionInfo → ℕ
replica_count p = length (known_ids p.replicas)

abbrev leads : ℤ → Option ℤ → Bool
leads b none = false
leads b (some l) = b == l

-- How many of the partitions a broker leads.
unfoldable pub led_by : ℤ → List PartitionInfo → ℕ
led_by b [] = 0
led_by b (p ∷ ps) = (if leads b (node_id p.leader) then 1 else 0) + led_by b ps

lookup-count_leader :
    (b : ℤ) (l : Option ℤ) (d : Dict ℤ ℕ)
    → or_zero (Dict.lookup b (count_leader l d))
      ≡ or_zero (Dict.lookup b d) + (if leads b l then 1 else 0)
unfolding count_leader bump
lookup-count_leader b none d = ground arith
lookup-count_leader b (some l) d =
    ground (arith, lookup-insert b l (or_zero (Dict.lookup l d) + 1) d, int_eq.beq_iff b l)

lookup-visit_all :
    (b : ℤ) (ps : List PartitionInfo) (t : Tally)
    → or_zero (Dict.lookup b (visit_all ps t).leader_counter)
      ≡ or_zero (Dict.lookup b t.leader_counter) + led_by b ps
unfolding visit_all visit led_by report
lookup-visit_all b [] t = omega arith
lookup-visit_all b (p ∷ ps) t =
    let here = lookup-count_leader b (node_id p.leader) t.leader_counter in
    let rest = lookup-visit_all b ps (visit p t) in omega arith

-- The count of leaders of a broker is the number of partitions that it leads; a broker without an
-- entry counts as 0.
pub lookup-leader_counter :
    (b : ℤ) (ps : List PartitionInfo)
    → or_zero (Dict.lookup b (visit_all ps start).leader_counter) ≡ led_by b ps
unfolding Dict.lookup
lookup-leader_counter b ps = let all = lookup-visit_all b ps start in omega arith

partitions_out-visit_all :
    (ps : List PartitionInfo) (t : Tally)
    → (visit_all ps t).partitions_out ≡ t.partitions_out ++ map report ps
unfolding visit_all visit
partitions_out-visit_all [] t = sym (append-nil _)
partitions_out-visit_all (p ∷ ps) t =
    partitions_out-visit_all ps (visit p t) ∙ append_assoc t.partitions_out _ _

add_all : List PartitionInfo → List ℕ → List ℕ
add_all [] s = s
add_all (p ∷ ps) s = add_all ps (add (replica_count p) s)

factors-visit_all :
    (ps : List PartitionInfo) (t : Tally)
    → (visit_all ps t).replication_factors ≡ add_all ps t.replication_factors
unfolding visit_all visit add_all report
factors-visit_all [] t = refl
factors-visit_all (p ∷ ps) t = factors-visit_all ps (visit p t)

-- Two different counts never become one again.
single-many :
    (ps : List PartitionInfo) (a b : ℕ) (s : List ℕ) → single (add_all ps (a ∷ b ∷ s)) ≡ none
unfolding add_all add single
single-many [] a b s = refl
single-many (p ∷ ps) a b s = elim (Bool-cases (elem (replica_count p) (a ∷ b ∷ s))) [
  | inl old ↦ rw (old, add) (single-many ps a b s)
  | inr new ↦ rw (new, add) (single-many ps a b _)
]

single-one :
    (ps : List PartitionInfo) (a n : ℕ)
    → (single (add_all ps (a ∷ [])) ≡ some n) ↔ ((a ≡ n) × All (λ p. replica_count p ≡ n) ps)
unfolding add_all add single elem
single-one [] a n = ground arith
single-one (p ∷ ps) a n = ground (arith, single-one ps a n, single-many ps a (replica_count p) [])

-- The replication factor is a number exactly when there is a partition and all have that many
-- replicas.
pub replication_factor-topic_report :
    (cluster_id topic : Text) (ps : List PartitionInfo) (n : ℕ)
    → ((topic_report cluster_id topic ps).replication_factor ≡ some n)
      ↔ ((ps ≢ []) × All (λ p. replica_count p ≡ n) ps)
unfolding topic_report add_all add single elem
replication_factor-topic_report cluster_id topic [] n = (λ h. cc, λ h. absurd (h.0 refl))
replication_factor-topic_report cluster_id topic (p ∷ ps) n =
    rw (factors-visit_all (p ∷ ps) start) (
      (
        λ h. (λ e. cc, (single-one ps (replica_count p) n).0 h),
        λ h. (single-one ps (replica_count p) n).1 h.1,
      ))
