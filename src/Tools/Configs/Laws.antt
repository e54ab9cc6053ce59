-- ===== src/Tools/Configs/Laws.antt =====
-- Which configurations are reported, and which are notable.
use devops_agent_msk_mcp.Base.{
  ℤ, Text, text_leb, true, false, List, [], ◌∷◌, ◌++◌, map, Option, elem, text_eq, ◌≡◌, refl, sym,
  ◌∙◌, inl, inr, Bool-cases, arith,
}
use mathlib.Core.List.{Perm, append_assoc, append-nil}
use mathlib.Core.List.Perm
use devops_agent_msk_mcp.Base.Dict.{Dict}
use devops_agent_msk_mcp.Base.Keys.{on, on-IsTotalOrder, sort_by-map}
use devops_agent_msk_mcp.Base.Parts.{keep, IsPart, keep-IsPart}
use devops_agent_msk_mcp.Base.Sort.{
  sort_by, sort_by-perm, sort_by-IsSorted, IsSorted, IsTotalOrder, All-sort_by,
}
use devops_agent_msk_mcp.Base.Strings.Order.{text_leb-IsTotalOrder}
use devops_agent_msk_mcp.Tools.Configs.{
  ConfigEntry, ConfigRecord, notable_keys, record_of, is_notable, highlight, Gathered, start,
  visit_entry, visit_entries, record_name, notable_name, config_report,
}

-- A configuration of one of the notable keys that is not a default.
abbrev pub IsNotable : ConfigRecord → Type 0
IsNotable r = (elem r.name notable_keys ≡ true) × (r.is_default ≡ false)

configs-visit_entries :
    (rs : List ConfigRecord) (g : Gathered) → (visit_entries rs g).configs_out ≡ g.configs_out ++ rs
unfolding visit_entries visit_entry
configs-visit_entries [] g = sym (append-nil _)
configs-visit_entries (r ∷ rs) g =
    configs-visit_entries rs (visit_entry r g) ∙ append_assoc g.configs_out _ _

notable-visit_entries :
    (rs : List ConfigRecord) (g : Gathered)
    → (visit_entries rs g).notable ≡ g.notable ++ map highlight (keep is_notable rs)
unfolding visit_entries visit_entry keep
notable-visit_entries [] g = sym (append-nil _)
notable-visit_entries (r ∷ rs) g = elim (Bool-cases (is_notable r)) [
  | inl e ↦ rw e (notable-visit_entries rs (visit_entry r g) ∙ rw e (append_assoc g.notable _ _))
  | inr e ↦ rw e (notable-visit_entries rs (visit_entry r g) ∙ rw e refl)
]

IsNotable-sound : (r : ConfigRecord) → is_notable r ≡ true → IsNotable r
IsNotable-sound r h = ground arith

IsNotable-complete : (r : ConfigRecord) → is_notable r ≡ false → ¬ IsNotable r
IsNotable-complete r h n = ground arith

-- The notable configurations of a list, in order of name.
notable_part : List ConfigRecord → List ConfigRecord
notable_part rs = sort_by (on record_name text_leb) (keep is_notable rs)

notable_part-IsPart :
    (rs : List ConfigRecord)
    → IsPart IsNotable (notable_part rs) (sort_by (on record_name text_leb) rs)
unfolding notable_part
notable_part-IsPart rs =
    let le = on record_name text_leb in
    let (kept, (rest, split, dropped)) =
      keep-IsPart IsNotable is_notable IsNotable-sound IsNotable-complete rs in
    (
      All-sort_by le IsNotable (keep is_notable rs) kept,
      (
        rest,
        Perm.trans (Perm.append_right rest (sort_by-perm le (keep is_notable rs)))
            (Perm.trans split (Perm.symm (sort_by-perm le rs))),
        dropped,
      ),
    )

name-IsTotalOrder : IsTotalOrder (on record_name text_leb)
name-IsTotalOrder = on-IsTotalOrder record_name text_leb text_leb-IsTotalOrder

-- The report lists every configuration of the topic once, in order of name; the notable overrides are,
-- in order of name, those that it lists for one of the notable keys and not as a default, and the
-- others are not such.
pub config_report_lem :
    (config_source : ℤ → Option Text) (cluster_id topic : Text) (entries : Dict Text ConfigEntry)
    → let report = config_report config_source cluster_id topic entries in
      IsSorted (on record_name text_leb) report.configs
      × Perm report.configs (map (record_of config_source) entries)
      × ((part : List ConfigRecord) × (report.notable_overrides ≡ map highlight part)
          × IsSorted (on record_name text_leb) part
          × IsPart IsNotable part report.configs)
unfolding config_report notable_part
config_report_lem config_source cluster_id topic entries =
    let le = on record_name text_leb in
    let rs = map (record_of config_source) entries in
    let all : (visit_entries rs start).configs_out ≡ rs = configs-visit_entries rs start in
    let found : (visit_entries rs start).notable ≡ map highlight (keep is_notable rs) =
      notable-visit_entries rs start in
    rw (all, found)
      ((
        sort_by-IsSorted name-IsTotalOrder rs,
        sort_by-perm le rs,
        (
          notable_part rs,
          sort_by-map highlight notable_name text_leb (keep is_notable rs),
          sort_by-IsSorted name-IsTotalOrder (keep is_notable rs),
          notable_part-IsPart rs,
        ),
      ))
