-- ===== src/Tools/Topics/Agreement.antt =====
-- describe_topic compares the numbers of replicas, describe_under_replicated_partitions their sets: when
-- the two tools agree on which partitions are under-replicated.
use devops_agent_msk_mcp.Base.{
  ◌+◌, ◌≤◌, ℤ, Text, Bool, true, false, not, List, [], ◌∷◌, map, length, elem, ◌≡◌, ◌≢◌, ◌↔◌, refl,
  All, int_eq, if◌then◌else◌, arith, ◌∙◌, sym, ap, length-append,
}
use devops_agent_msk_mcp.Base.Equality.{All-elem, beq_refl}
use devops_agent_msk_mcp.Tools.Topics.{PartitionInfo, known_ids}
use devops_agent_msk_mcp.Tools.Topics.Sets.{distinct, AllIn, pigeonhole}
use devops_agent_msk_mcp.Tools.Topics.Describe.{report, is_under, count_under}
use devops_agent_msk_mcp.Tools.Topics.UnderReplicated.{
  Found, nothing_found, missing_from, note_missing, check, check_topic,
}
use devops_agent_msk_mcp.Tools.Topics.UnderReplicated.Laws.{elem-missing_from}

-- As Kafka keeps it: no broker is listed twice, and only replicas are in sync.
abbrev pub IsSane : List ℤ → List ℤ → Type 0
IsSane replicas isr = (distinct replicas ≡ true) × (distinct isr ≡ true) × AllIn isr replicas

elem-none_missing :
    (replicas isr : List ℤ) (b : ℤ)
    → missing_from replicas isr ≡ []
    → elem b replicas ≡ true
    → elem b isr ≡ true
unfolding elem
elem-none_missing replicas isr b none_missing h =
    let e = elem-missing_from b replicas isr in
    let e' = sym (ap (elem b) none_missing) ∙ e in ground arith

AllIn-none_missing :
    (xs replicas isr : List ℤ) → missing_from replicas isr ≡ [] → AllIn xs replicas → AllIn xs isr
AllIn-none_missing [] replicas isr n h = tt
AllIn-none_missing (x ∷ xs) replicas isr n (h, hs) =
    (elem-none_missing replicas isr x n h, AllIn-none_missing xs replicas isr n hs)

-- A first missing replica is a replica that is not in sync.
first_missing :
    (replicas isr : List ℤ) (b : ℤ) (bs : List ℤ)
    → missing_from replicas isr ≡ b ∷ bs
    → (elem b replicas ≡ true) × (elem b isr ≡ false)
unfolding elem
first_missing replicas isr b bs h =
    let e = elem-missing_from b replicas isr in
    let e' = sym (ap (elem b) h) ∙ e in let r = beq_refl b in ground arith

full : (replicas isr : List ℤ) → length replicas ≤ length isr → is_under replicas isr ≡ false
unfolding is_under
full [] isr h = refl
full (r ∷ replicas) isr h = ground arith

short : (replicas isr : List ℤ) → length isr + 1 ≤ length replicas → is_under replicas isr ≡ true
unfolding is_under
short [] isr h = absurd (omega arith)
short (r ∷ replicas) isr h = ground arith

abbrev is_empty : List ℤ → Bool
is_empty [] = true
is_empty (b ∷ bs) = false

agree_on :
    (replicas isr missing : List ℤ)
    → missing_from replicas isr ≡ missing
    → IsSane replicas isr
    → is_under replicas isr ≡ not (is_empty missing)
unfolding distinct
agree_on replicas isr [] e (dr, di, sub) =
    full replicas isr
      (pigeonhole replicas isr dr (AllIn-none_missing replicas replicas isr e (All-elem replicas)))
agree_on replicas isr (b ∷ bs) e (dr, di, sub) =
    let (member, out) = first_missing replicas isr b bs e in
    let fits = pigeonhole (b ∷ isr) replicas (ground arith) (member, sub) in
    short replicas isr (omega arith)

-- The two tools judge a partition alike if no broker is listed twice among its replicas or its
-- in-sync replicas, and the latter are replicas: describe_topic flags it exactly when some replica
-- is missing from the in-sync replicas.
pub is_under-missing_from :
    (replicas isr : List ℤ)
    → IsSane replicas isr
    → (is_under replicas isr ≡ true) ↔ (missing_from replicas isr ≢ [])
is_under-missing_from replicas isr sane =
    let agree = agree_on replicas isr (missing_from replicas isr) refl sane in
    (
      λ flagged none_missing. cc (agree_on replicas isr [] none_missing sane),
      λ some_missing. agree ∙ non_empty (missing_from replicas isr) some_missing,
    )
  where
    non_empty : (bs : List ℤ) → bs ≢ [] → not (is_empty bs) ≡ true
    non_empty [] h = absurd (h refl)
    non_empty (b ∷ bs) h = refl

abbrev pub IsSanePartition : PartitionInfo → Type 0
IsSanePartition p = IsSane (known_ids p.replicas) (known_ids p.isr)

length-note_missing :
    (topic : Text) (p : PartitionInfo) (bs : List ℤ) (f : Found)
    → length (note_missing topic p bs f).under_replicated
      ≡ length f.under_replicated + (if not (is_empty bs) then 1 else 0)
length-note_missing topic p [] f = omega arith
length-note_missing topic p (b ∷ bs) f = length-append f.under_replicated _

length-check :
    (topic : Text) (p : PartitionInfo) (f : Found)
    → IsSanePartition p
    → length (check topic p f).under_replicated
      ≡ length f.under_replicated + (if (report p).is_under_replicated then 1 else 0)
unfolding check report
length-check topic p f sane =
    let missing = missing_from (known_ids p.replicas) (known_ids p.isr) in
    length-note_missing topic p missing f
    ∙ ap (λ t. length f.under_replicated + (if t then 1 else 0))
        (sym (agree_on (known_ids p.replicas) (known_ids p.isr) missing refl sane))

length-check_from :
    (topic : Text) (ps : List PartitionInfo) (f : Found)
    → All IsSanePartition ps
    → length (check_topic topic ps f).under_replicated
      ≡ length f.under_replicated + count_under (map report ps)
unfolding check_topic count_under
length-check_from topic [] f h = omega arith
length-check_from topic (p ∷ ps) f (h, hs) =
    let here = length-check topic p f h in
    let rest = length-check_from topic ps (check topic p f) hs in omega arith

-- For a topic whose partitions are of that kind, describe_under_replicated_partitions lists as many
-- partitions as the summary of describe_topic counts.
pub length-check_topic :
    (topic : Text) (ps : List PartitionInfo)
    → All IsSanePartition ps
    → length (check_topic topic ps nothing_found).under_replicated ≡ count_under (map report ps)
length-check_topic topic ps h = let all = length-check_from topic ps nothing_found h in omega arith
