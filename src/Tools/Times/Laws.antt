-- ===== src/Tools/Times/Laws.antt =====
-- What the summary of get_offsets_for_times counts.
use devops_agent_msk_mcp.Base.{
  ℕ, suc, ◌+◌, ◌≤◌, ℤ, leb_ℤ, show_ℕ, Text, codes, List, [], ◌∷◌, ◌++◌, length, length-append,
  nat_eq, if◌then◌else◌, ◌≡◌, ◌≢◌, refl, arith, ◌∙◌,
}
use devops_agent_msk_mcp.Base.Keys.{on}
use devops_agent_msk_mcp.Base.Sort.{sort_by, length-sort_by}
use devops_agent_msk_mcp.Errors.{ok, err}
use devops_agent_msk_mcp.Tools.Times.{
  Future, is_found, row_of, count_not_found, Scan, start, scan, partition_key, about, summarize,
  times_report,
}

-- How many futures yield an offset, and how many raise.
unfoldable pub found_in : List Future → ℕ
found_in [] = 0
found_in ((p, ok res) ∷ futures) = (if is_found res.offset then 1 else 0) + found_in futures
found_in ((p, err e) ∷ futures) = found_in futures

unfoldable pub raised_in : List Future → ℕ
raised_in [] = 0
raised_in ((p, ok res) ∷ futures) = raised_in futures
raised_in ((p, err e) ∷ futures) = suc (raised_in futures)

not_found-scan :
    (futures : List Future) (s : Scan)
    → (scan futures s).not_found_count + (found_in futures + raised_in futures)
      ≡ s.not_found_count + length futures
unfolding scan found_in raised_in count_not_found
not_found-scan [] s = omega arith
not_found-scan ((p, ok res) ∷ futures) s = ground (
  arith,
  not_found-scan futures (record {
    results = s.results ++ (row_of (p, ok res) ∷ []);
    not_found_count = count_not_found (p, ok res) s.not_found_count;
  }),
)
not_found-scan ((p, err e) ∷ futures) s = ground (
  arith,
  not_found-scan futures (record {
    results = s.results ++ (row_of (p, err e) ∷ []);
    not_found_count = s.not_found_count;
  }),
)

results-scan :
    (futures : List Future) (s : Scan)
    → length (scan futures s).results ≡ length s.results + length futures
unfolding scan
results-scan [] s = omega arith
results-scan (f ∷ futures) s =
    let grown = length-append s.results (row_of f ∷ []) in
    let rest = results-scan futures (record {
      results = s.results ++ (row_of f ∷ []);
      not_found_count = count_not_found f s.not_found_count;
    }) in
    omega arith

-- There is a row for each future, and the number of partitions that the summary takes as not found
-- leaves those that yield an offset and those whose future raises.
pub scan-counts :
    (futures : List Future)
    → (length (scan futures start).results ≡ length futures)
      × ((scan futures start).not_found_count + (found_in futures + raised_in futures)
          ≡ length futures)
scan-counts futures =
    let rows = results-scan futures start in
    let counts = not_found-scan futures start in (omega arith, omega arith)

found-raising : (futures : List Future) → raised_in futures ≡ length futures → found_in futures ≡ 0
unfolding raised_in found_in
found-raising futures h = omega (arith, few futures)
  where
    few : (fs : List Future) → found_in fs + raised_in fs ≤ length fs
    few [] = omega arith
    few ((p, ok res) ∷ fs) = ground (arith, few fs)
    few ((p, err e) ∷ fs) = let rest = few fs in omega arith

-- If the future of each partition raises, and there is a partition, no offset is found, and the summary
-- says that offsets were returned for all partitions.
pub times_report_raising :
    (cluster_id topic : Text) (ts : ℤ) (futures : List Future)
    → raised_in futures ≡ length futures
    → futures ≢ []
    → (found_in futures ≡ 0)
      × ((times_report cluster_id topic ts futures).summary
          ≡ about topic ts
            ++ (codes "offsets returned for all "
                ++ (show_ℕ (length futures) ++ codes " partitions")))
unfolding times_report
times_report_raising cluster_id topic ts [] h n = absurd (n refl)
times_report_raising cluster_id topic ts (f ∷ futures) h n =
    let (rows, counts) = scan-counts (f ∷ futures) in
    let none_left : (scan (f ∷ futures) start).not_found_count ≡ 0 = omega arith in
    let sorted : length (sort_by (on partition_key leb_ℤ) (scan (f ∷ futures) start).results)
        ≡ length (f ∷ futures) =
      length-sort_by (on partition_key leb_ℤ) (scan (f ∷ futures) start).results ∙ rows in
    (found-raising (f ∷ futures) h, rw (sorted, none_left) (summary_all topic ts (length futures)))
  where
    summary_all :
        (t : Text) (z : ℤ) (n : ℕ)
        → summarize t z (suc n) 0
          ≡ about t z
            ++ (codes "offsets returned for all " ++ (show_ℕ (suc n) ++ codes " partitions"))
    summary_all t z n = ground arith
