-- ===== src/Tools/Group/Laws.antt =====
-- Which member a partition is attributed to, and what its lag is.
use devops_agent_msk_mcp.Base.{
  ℤ, pos, ◌+ℤ◌, ◌-ℤ◌, leb_ℤ, true, List, [], ◌∷◌, Option, none, some, elem, ◌≡◌, refl, text_eq,
  int_eq, pair_eq, if◌then◌else◌, arith, ◌∙◌, sym, ap,
}
use devops_agent_msk_mcp.Base.Int.{ -ℤ_cancel}
use devops_agent_msk_mcp.Base.Dict
use devops_agent_msk_mcp.Base.Dict.{Dict, lookup-insert}
use devops_agent_msk_mcp.Tools.Group.{
  Key, Member, assign_all, members_from, members_by_partition, Committed, offset_row, lag_of,
  committed_offset, key_of,
}

-- The last member of the list that the partition is assigned to; otherwise the one before.
unfoldable pub last_owner : Key → List Member → Option Member → Option Member
last_owner k [] before = before
last_owner k (m ∷ ms) before =
    last_owner k ms (if elem k m.assigned_partitions then some m else before)

lookup-assign_all :
    (k : Key) (m : Member) (tps : List Key) (out : Dict Key Member)
    → Dict.lookup k (assign_all m tps out) ≡ (if elem k tps then some m else Dict.lookup k out)
unfolding assign_all elem
lookup-assign_all k m [] out = refl
lookup-assign_all k m (tp ∷ tps) out =
    ground (arith, lookup-assign_all k m tps (Dict.insert tp m out), lookup-insert k tp m out)

lookup-members_from :
    (k : Key) (ms : List Member) (out : Dict Key Member)
    → Dict.lookup k (members_from ms out) ≡ last_owner k ms (Dict.lookup k out)
unfolding members_from last_owner
lookup-members_from k [] out = refl
lookup-members_from k (m ∷ ms) out =
    lookup-members_from k ms (assign_all m m.assigned_partitions out)
    ∙ ap (last_owner k ms) (lookup-assign_all k m m.assigned_partitions out)

-- A partition is attributed to the last member that it is assigned to, and to none if there is none.
pub lookup-members_by_partition :
    (k : Key) (ms : List Member) → Dict.lookup k (members_by_partition ms) ≡ last_owner k ms none
unfolding members_by_partition Dict.lookup
lookup-members_by_partition k ms = lookup-members_from k ms []

lag_from :
    (end current : Option ℤ) (l : ℤ)
    → lag_of end current ≡ some l
    → (e : ℤ) × (c : ℤ) × (end ≡ some e) × (current ≡ some c) × (l +ℤ c ≡ e)
unfolding lag_of
lag_from (some e) (some c) l h =
    let same : e -ℤ c ≡ l = ground arith in
    (e, c, refl, refl, ap (λ x. x +ℤ c) (sym same) ∙ -ℤ_cancel e c)
lag_from (some e) none l h = cc
lag_from none current l h = cc

committed_from :
    (offset c : ℤ) → committed_offset offset ≡ some c → (c ≡ offset) × (leb_ℤ (pos 0) offset ≡ true)
unfolding committed_offset
committed_from offset c h = ground arith

-- A row shows a lag only if the offset that was committed is not negative and an end offset of the
-- partition is known, and then the lag and the committed offset add up to the end offset.
pub lag-offset_row :
    (ends : Dict Key ℤ) (members : Dict Key Member) (tp : Committed) (l : ℤ)
    → (offset_row ends members tp).lag ≡ some l
    → (leb_ℤ (pos 0) tp.offset ≡ true)
      × ((e : ℤ) × (Dict.lookup (key_of tp) ends ≡ some e) × (l +ℤ tp.offset ≡ e))
unfolding offset_row
lag-offset_row ends members tp l h =
    let (e, c, known, current, sum) =
      lag_from (Dict.lookup (key_of tp) ends) (committed_offset tp.offset) l h in
    let (same, fits) = committed_from tp.offset c current in
    (fits, (e, known, ap (λ x. l +ℤ x) (sym same) ∙ sum))
