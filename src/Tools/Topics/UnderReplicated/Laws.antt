-- ===== src/Tools/Topics/UnderReplicated/Laws.antt =====
-- How often each broker is missing, and the broker that the summary names.
use devops_agent_msk_mcp.Base.{
  ℕ, ◌+◌, ◌≤◌, ℤ, leb_ℤ, Text, leb, Bool, true, not, ◌&&◌, List, [], ◌∷◌, ◌++◌, elem, Bool-cases,
  inl, inr, ◌≡◌, refl, All, Eq, int_eq, ◌==◌, if◌then◌else◌, arith, ◌∙◌, ap,
}
use mathlib.Core.Path.{subst}
use devops_agent_msk_mcp.Base.Dict
use devops_agent_msk_mcp.Base.Dict.{Dict, lookup-insert}
use devops_agent_msk_mcp.Base.Sort.{sort_by, insert_sorted, elem-sort_by}
use devops_agent_msk_mcp.Tools.Topics.{PartitionInfo, known_ids, bump, or_zero}
use devops_agent_msk_mcp.Tools.Topics.Sets.{set_of, difference, elem-set_of, elem-difference}
use devops_agent_msk_mcp.Tools.Topics.UnderReplicated.{
  Found, nothing_found, missing_from, bump_all, note_missing, check, check_topic, check_all,
  worst_of,
}

-- The members of the difference: the replicas that are not in sync.
pub elem-missing_from :
    (b : ℤ) (replicas isr : List ℤ)
    → elem b (missing_from replicas isr) ≡ (elem b replicas && not (elem b isr))
unfolding missing_from
elem-missing_from b replicas isr =
    rw (elem-sort_by leb_ℤ b _, elem-difference b _ _, elem-set_of b replicas, elem-set_of b isr)
      refl

module _ {ℓ} {A : Type ℓ} ⦃e : Eq A⦄ where
  unfoldable count : A → List A → ℕ
  count a [] = 0
  count a (x ∷ xs) = (if a == x then 1 else 0) + count a xs

  elem_same : (a b : A) (ys : List A) → (a == b) ≡ true → elem a ys ≡ elem b ys
  elem_same a b ys h = rw ((e.beq_iff a b).0 h) refl

  count-set_of : (a : A) (xs : List A) → count a (set_of xs) ≡ (if elem a xs then 1 else 0)
  unfolding count set_of elem
  count-set_of a [] = refl
  count-set_of a (x ∷ xs) =
      ground (arith, count-set_of a xs, elem_same a x (set_of xs), elem-set_of a xs)

  count-difference :
      (a : A) (xs ys : List A) → count a (difference xs ys) ≡ (if elem a ys then 0 else count a xs)
  unfolding count difference
  count-difference a [] ys = ground arith
  count-difference a (x ∷ xs) ys = ground (arith, count-difference a xs ys, elem_same a x ys)

  module _ (le : A → A → Bool) where
    count-insert_sorted :
        (a x : A) (xs : List A)
        → count a (insert_sorted le x xs) ≡ (if a == x then 1 else 0) + count a xs
    unfolding count insert_sorted
    count-insert_sorted a x [] = refl
    count-insert_sorted a x (y ∷ ys) = ground (arith, count-insert_sorted a x ys)

    count-sort_by : (a : A) (xs : List A) → count a (sort_by le xs) ≡ count a xs
    unfolding count sort_by
    count-sort_by a [] = refl
    count-sort_by a (x ∷ xs) =
        ground (arith, count-insert_sorted a x (sort_by le xs), count-sort_by a xs)

count-missing_from :
    (b : ℤ) (replicas isr : List ℤ)
    → count b (missing_from replicas isr) ≡ (if elem b replicas && not (elem b isr) then 1 else 0)
unfolding missing_from
count-missing_from b replicas isr = ground (
  arith,
  count-sort_by leb_ℤ b (difference (set_of replicas) (set_of isr)),
  count-difference b (set_of replicas) (set_of isr),
  count-set_of b replicas,
  elem-set_of b isr,
)

lookup-bump_all :
    (b : ℤ) (bs : List ℤ) (d : Dict ℤ ℕ)
    → or_zero (Dict.lookup b (bump_all bs d)) ≡ or_zero (Dict.lookup b d) + count b bs
unfolding bump_all bump count
lookup-bump_all b [] d = omega arith
lookup-bump_all b (c ∷ bs) d = ground (
  arith,
  lookup-bump_all b bs (bump c d),
  lookup-insert b c (or_zero (Dict.lookup c d) + 1) d,
  int_eq.beq_iff b c,
)

-- The partition has the broker as a replica that is not in sync.
unfoldable pub is_missing : ℤ → PartitionInfo → Bool
is_missing b p = elem b (known_ids p.replicas) && not (elem b (known_ids p.isr))

unfoldable pub missing_count : ℤ → List PartitionInfo → ℕ
unfolding is_missing
missing_count b [] = 0
missing_count b (p ∷ ps) = (if is_missing b p then 1 else 0) + missing_count b ps

unfoldable pub all_partitions : Dict Text (List PartitionInfo) → List PartitionInfo
all_partitions [] = []
all_partitions ((topic, ps) ∷ d) = ps ++ all_partitions d

lookup-note_missing :
    (b : ℤ) (topic : Text) (p : PartitionInfo) (bs : List ℤ) (f : Found)
    → or_zero (Dict.lookup b (note_missing topic p bs f).broker_drop_counts)
      ≡ or_zero (Dict.lookup b f.broker_drop_counts) + count b bs
unfolding count
lookup-note_missing b topic p [] f = omega arith
lookup-note_missing b topic p (c ∷ bs) f = lookup-bump_all b (c ∷ bs) f.broker_drop_counts

lookup-check :
    (b : ℤ) (topic : Text) (p : PartitionInfo) (f : Found)
    → or_zero (Dict.lookup b (check topic p f).broker_drop_counts)
      ≡ or_zero (Dict.lookup b f.broker_drop_counts) + (if is_missing b p then 1 else 0)
unfolding check is_missing
lookup-check b topic p f =
    lookup-note_missing b topic p (missing_from (known_ids p.replicas) (known_ids p.isr)) f
    ∙ ap (λ n. or_zero (Dict.lookup b f.broker_drop_counts) + n)
        (count-missing_from b (known_ids p.replicas) (known_ids p.isr))

lookup-check_topic :
    (b : ℤ) (topic : Text) (ps : List PartitionInfo) (f : Found)
    → or_zero (Dict.lookup b (check_topic topic ps f).broker_drop_counts)
      ≡ or_zero (Dict.lookup b f.broker_drop_counts) + missing_count b ps
unfolding check_topic missing_count
lookup-check_topic b topic [] f = omega arith
lookup-check_topic b topic (p ∷ ps) f =
    let here = lookup-check b topic p f in
    let rest = lookup-check_topic b topic ps (check topic p f) in omega arith

missing_count-append :
    (b : ℤ) (ps qs : List PartitionInfo)
    → missing_count b (ps ++ qs) ≡ missing_count b ps + missing_count b qs
unfolding missing_count
missing_count-append b [] qs = omega arith
missing_count-append b (p ∷ ps) qs = ground (arith, missing_count-append b ps qs)

lookup-check_from :
    (b : ℤ) (d : Dict Text (List PartitionInfo)) (f : Found)
    → or_zero (Dict.lookup b (check_all d f).broker_drop_counts)
      ≡ or_zero (Dict.lookup b f.broker_drop_counts) + missing_count b (all_partitions d)
unfolding check_all all_partitions missing_count
lookup-check_from b [] f = omega arith
lookup-check_from b ((topic, ps) ∷ d) f =
    let here = lookup-check_topic b topic ps f in
    let rest = lookup-check_from b d (check_topic topic ps f) in
    let parts = missing_count-append b ps (all_partitions d) in omega arith

-- The drop count of a broker is the number of described partitions that have it as a replica which
-- is not in sync; a broker without an entry counts as 0.
pub lookup-check_all :
    (b : ℤ) (d : Dict Text (List PartitionInfo))
    → or_zero (Dict.lookup b (check_all d nothing_found).broker_drop_counts)
      ≡ missing_count b (all_partitions d)
unfolding Dict.lookup
lookup-check_all b d = let all = lookup-check_from b d nothing_found in omega arith

-- The broker that the summary names has the greatest count.
pub worst_of-greatest :
    (best : ℤ × ℕ) (counts : Dict ℤ ℕ)
    → (best.1 ≤ (worst_of best counts).1) × All (λ kv. kv.1 ≤ (worst_of best counts).1) counts
unfolding worst_of
worst_of-greatest best [] = (omega arith, tt)
worst_of-greatest best (kv ∷ counts) =
    let now : ℕ → Type 0 = λ n. (best.1 ≤ n) × All (λ q. q.1 ≤ n) (kv ∷ counts) in
    elim (Bool-cases (leb kv.1 best.1)) [
      | inl l ↦
          let (low, high) = worst_of-greatest best counts in
          let same : (worst_of best counts).1 ≡ (worst_of best (kv ∷ counts)).1 =
            rw (l, worst_of) refl in
          subst now same (low, (ground arith, high))
      | inr l ↦
          let (low, high) = worst_of-greatest kv counts in
          let same : (worst_of kv counts).1 ≡ (worst_of best (kv ∷ counts)).1 =
            rw (l, worst_of) refl in
          subst now same (ground arith, (low, high))
    ]
