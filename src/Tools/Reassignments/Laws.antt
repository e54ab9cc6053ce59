-- ===== src/Tools/Reassignments/Laws.antt =====
-- Which reassignments are reported, and in which order.
use devops_agent_msk_mcp.Base.{
  Text, true, false, List, [], ◌∷◌, Option, none, some, length, text_eq, ◌≡◌, ◌≢◌, refl,
  All-of_every, arith, ap,
}
use mathlib.Core.List.Perm
use devops_agent_msk_mcp.Base.Keys.{key_leb, key_leb-IsTotalOrder, on, on-IsTotalOrder}
use devops_agent_msk_mcp.Base.Parts.{IsPart, keep-IsPart, whole-IsPart}
use devops_agent_msk_mcp.Base.Sort.{sort_by-perm, sort_by-IsSorted, IsSorted, All-sort_by}
use devops_agent_msk_mcp.Tools.Reassignments.{
  Reassignment, selected, has_topic, sort_key, reassignment_report,
}

has_topic_sound : (f : Text) (t : Option Text) → has_topic f t ≡ true → t ≡ some f
has_topic_sound f none h = cc
has_topic_sound f (some t) h = ap some ((text_eq.beq_iff t f).0 h)

has_topic_complete : (f : Text) (t : Option Text) → t ≡ some f → has_topic f t ≢ false
has_topic_complete f none h e = cc
has_topic_complete f (some t) h e = ground (arith, text_eq.beq_iff t f)

-- The topic that a filter asks for; an empty filter asks for none in particular.
abbrev pub HasTopic : Option Text → Reassignment → Type 0
HasTopic none r = Unit
HasTopic (some []) r = Unit
HasTopic (some (c ∷ f)) r = r.topic ≡ some (c ∷ f)

selected-IsPart :
    (topic_filter : Option Text) (raw : List Reassignment)
    → IsPart (HasTopic topic_filter) (selected topic_filter raw) raw
unfolding selected
selected-IsPart none raw =
    whole-IsPart (λ (r : Reassignment). Unit {0}) raw (All-of_every raw (λ r. tt))
selected-IsPart (some []) raw =
    whole-IsPart (λ (r : Reassignment). Unit {0}) raw (All-of_every raw (λ r. tt))
selected-IsPart (some (c ∷ f)) raw =
    keep-IsPart (HasTopic (some (c ∷ f))) (λ r. has_topic (c ∷ f) r.topic)
      (λ r. has_topic_sound (c ∷ f) r.topic) (λ r e h. has_topic_complete (c ∷ f) r.topic h e) raw

-- The report lists, in order of topic and partition, the reassignments of the topic that is asked for,
-- or all; those that it leaves out are of other topics, and none is lost or repeated; the total is
-- the number of those listed.
pub reassignment_report_lem :
    (cluster_id : Text) (topic_filter : Option Text) (raw : List Reassignment)
    → let report = reassignment_report cluster_id topic_filter raw in
      IsSorted (on sort_key key_leb) report.in_progress_reassignments
      × IsPart (HasTopic topic_filter) report.in_progress_reassignments raw
      × (report.total_count ≡ length report.in_progress_reassignments)
unfolding reassignment_report
reassignment_report_lem cluster_id topic_filter raw =
    let le = on sort_key key_leb in
    let out = selected topic_filter raw in
    let (kept, (rest, split, dropped)) = selected-IsPart topic_filter raw in
    (
      sort_by-IsSorted (on-IsTotalOrder sort_key key_leb key_leb-IsTotalOrder) out,
      (
        All-sort_by le (HasTopic topic_filter) out kept,
        (rest, Perm.trans (Perm.append_right rest (sort_by-perm le out)) split, dropped),
      ),
      refl,
    )
