-- ===== src/Tools/LogDirs/Scan/Places.antt =====
-- Where the stuck entries and the errors of a report stand: the lists read off its brokers.
use devops_agent_msk_mcp.Base.{
  Bool, true, false, List, [], ◌∷◌, ◌++◌, Option, if◌then◌else◌, ◌≡◌, refl, sym, ap, ◌∙◌, arith,
}
use mathlib.Core.List.{append_assoc, append-nil}
use devops_agent_msk_mcp.Base.Json.{Json}
use devops_agent_msk_mcp.Tools.LogDirs.Scan.{is_true, Entry, Stuck, DiskError, LogDir, Broker}

-- The entries of a report that are in the future, with their places.
unfoldable pub stuck_entries : Option Json → Option Json → List Entry → List Stuck
stuck_entries b path [] = []
stuck_entries b path (e ∷ es) =
    let rest = stuck_entries b path es in
    if e.is_future then record { broker_id = b; path = path; entry = e } ∷ rest else rest

unfoldable pub stuck_dirs : Option Json → List LogDir → List Stuck
stuck_dirs b [] = []
stuck_dirs b (d ∷ ds) = stuck_entries b d.path d.partitions ++ stuck_dirs b ds

unfoldable pub stuck_in : List Broker → List Stuck
stuck_in [] = []
stuck_in (b ∷ bs) = stuck_dirs b.broker_id b.log_dirs ++ stuck_in bs

-- The log directories of a report that have an error.
unfoldable pub error_dirs : Option Json → List LogDir → List DiskError
error_dirs b [] = []
error_dirs b (d ∷ ds) =
    let rest = error_dirs b ds in
    if is_true d.error
    then record { broker_id = b; path = d.path; error = d.error } ∷ rest
    else rest

unfoldable pub errors_in : List Broker → List DiskError
errors_in [] = []
errors_in (b ∷ bs) = error_dirs b.broker_id b.log_dirs ++ errors_in bs

-- An item that is added behind a list under a condition.
pub push_if {ℓ} :
    {A : Type ℓ} (test : Bool) (x : A) (now before new : List A)
    → now ≡ before ++ new
    → (if test then now ++ (x ∷ []) else now) ≡ before ++ (new ++ (if test then x ∷ [] else []))
push_if true x now before new h = ap (λ l. l ++ (x ∷ [])) h ∙ append_assoc before new _
push_if false x now before new h = h ∙ ap (λ l. before ++ l) (sym (append-nil new))

pub stuck_entries-append :
    (b path : Option Json) (es : List Entry) (e : Entry)
    → stuck_entries b path (es ++ (e ∷ []))
      ≡ stuck_entries b path es ++ stuck_entries b path (e ∷ [])
unfolding stuck_entries
stuck_entries-append b path [] e = refl
stuck_entries-append b path (d ∷ es) e = ground (arith, stuck_entries-append b path es e)

pub stuck_dirs-append :
    (b : Option Json) (ds : List LogDir) (d : LogDir)
    → stuck_dirs b (ds ++ (d ∷ [])) ≡ stuck_dirs b ds ++ stuck_entries b d.path d.partitions
unfolding stuck_dirs
stuck_dirs-append b [] d = append-nil _
stuck_dirs-append b (c ∷ ds) d =
    rw (stuck_dirs-append b ds d) (sym (append_assoc (stuck_entries b c.path c.partitions) _ _))

pub stuck_in-append :
    (bs : List Broker) (b : Broker)
    → stuck_in (bs ++ (b ∷ [])) ≡ stuck_in bs ++ stuck_dirs b.broker_id b.log_dirs
unfolding stuck_in
stuck_in-append [] b = append-nil _
stuck_in-append (c ∷ bs) b =
    rw (stuck_in-append bs b) (sym (append_assoc (stuck_dirs c.broker_id c.log_dirs) _ _))

pub error_dirs-append :
    (b : Option Json) (ds : List LogDir) (d : LogDir)
    → error_dirs b (ds ++ (d ∷ [])) ≡ error_dirs b ds ++ error_dirs b (d ∷ [])
unfolding error_dirs
error_dirs-append b [] d = refl
error_dirs-append b (c ∷ ds) d = ground (arith, error_dirs-append b ds d)

pub errors_in-append :
    (bs : List Broker) (b : Broker)
    → errors_in (bs ++ (b ∷ [])) ≡ errors_in bs ++ error_dirs b.broker_id b.log_dirs
unfolding errors_in
errors_in-append [] b = append-nil _
errors_in-append (c ∷ bs) b =
    rw (errors_in-append bs b) (sym (append_assoc (error_dirs c.broker_id c.log_dirs) _ _))
