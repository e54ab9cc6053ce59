-- ===== src/Tools/LogDirs/Scan/Laws.antt =====
-- The lists of stuck reassignments and disk errors against the brokers of the same report.
use devops_agent_msk_mcp.Base.{
  Text, codes, Unicode, false, not, List, [], ◌∷◌, ◌++◌, Option, none, some, text_eq, if◌then◌else◌,
  ◌≡◌, refl, sym, ap, ◌∙◌, inl, inr, Bool-cases, All, All-append, arith,
}
use mathlib.Core.List.{append_assoc, append-nil}
use devops_agent_msk_mcp.Base.Json.{Json}
use devops_agent_msk_mcp.Config.{non_empty}
use devops_agent_msk_mcp.Errors.{ok, Ensures, Ensures->>=, Ensures-then, ◌>>=◌}
use devops_agent_msk_mcp.Tools.LogDirs.Scan.Places.{
  stuck_entries, stuck_dirs, stuck_in, error_dirs, errors_in, push_if, stuck_entries-append,
  stuck_dirs-append, stuck_in-append, error_dirs-append, errors_in-append,
}
use devops_agent_msk_mcp.Tools.LogDirs.Scan.{
  get, items_of, is_true, Name, name_of, Entry, Stuck, DiskError, LogDir, Broker, is_topic,
  is_skipped, Rows, Dirs, Found, nothing_found, add_entry, entry_of, scan_partition,
  scan_partitions, note_error, scan_dir, scan_dirs, scan_broker, scan_brokers, scan_payload,
}

-- The entry is of the topic that is asked for.
abbrev pub HasTopic : Option Text → Entry → Type 0
HasTopic none e = Unit
HasTopic (some f) e = e.topic ≡ some f

abbrev pub DirHasTopic : Option Text → LogDir → Type 0
DirHasTopic f d = All (HasTopic f) d.partitions

abbrev pub BrokerHasTopic : Option Text → Broker → Type 0
BrokerHasTopic f b = All (DirHasTopic f) b.log_dirs

skipped-HasTopic : (f : Option Text) (e : Entry) → is_skipped f e.topic ≡ false → HasTopic f e
skipped-HasTopic none e h = tt
skipped-HasTopic (some f) e h = named e.topic h
  where
    named : (t : Option Text) → not (is_topic f t) ≡ false → t ≡ some f
    named none h = cc
    named (some t) h = ap some ((text_eq.beq_iff t f).0 (ground arith))

module _ (u : Unicode) (topic_filter : Option Text) where
  module _ (b path : Option Json) (before : List Stuck) where
    abbrev IsRows : Rows → Type 0
    IsRows rows =
        (rows.stuck ≡ before ++ stuck_entries b path rows.partitions_out)
        × All (HasTopic (non_empty topic_filter)) rows.partitions_out

    add_entry-IsRows :
        (e : Entry) (rows : Rows)
        → HasTopic (non_empty topic_filter) e
        → IsRows rows
        → IsRows (add_entry u topic_filter b path e rows)
    unfolding add_entry stuck_entries
    add_entry-IsRows e rows t (s, h) = (
      rw (stuck_entries-append b path rows.partitions_out e)
          (push_if e.is_future _ rows.stuck before _ s),
      All-append (HasTopic (non_empty topic_filter)) rows.partitions_out (e ∷ []) h (t, tt),
    )

    entry_of-topic :
        (p : Json) (name : Name)
        → Ensures (λ e. e.topic ≡ name.topic) (entry_of u topic_filter b path p name)
    unfolding entry_of
    entry_of-topic p name =
        let P : Entry → Type 0 = λ e. e.topic ≡ name.topic in
        Ensures-then P name.behind _ (λ behind. Ensures-then P (get p (codes "size")) _ (λ size.
          Ensures-then P (get p (codes "offsetLag")) _
            (λ lag. Ensures-then P (get p (codes "isFuture")) _ (λ future. refl))))

    scan_partition-IsRows :
        (p : Json) (rows : Rows)
        → IsRows rows
        → Ensures IsRows (scan_partition u topic_filter b path p rows)
    unfolding scan_partition
    scan_partition-IsRows p rows h =
        Ensures-then IsRows (get p (codes "partition")) _
          (λ topic_part. Ensures-then IsRows (name_of topic_part) _ (λ name. unless_skipped name))
      where
        unless_skipped :
            (name : Name)
            → Ensures IsRows (
                if is_skipped (non_empty topic_filter) name.topic
                then ok rows
                else (entry_of u topic_filter b path p name >>= λ e.
                    ok (add_entry u topic_filter b path e rows)))
        unless_skipped name = elim (Bool-cases (is_skipped (non_empty topic_filter) name.topic)) [
          | inl s ↦ rw s h
          | inr s ↦ rw s (
              Ensures->>= (λ (e : Entry). e.topic ≡ name.topic) IsRows
                (entry_of u topic_filter b path p name) _ (entry_of-topic p name)
                (λ e t.
                  add_entry-IsRows e rows
                    (skipped-HasTopic (non_empty topic_filter) e
                      (ap (is_skipped (non_empty topic_filter)) t ∙ s))
                    h))
        ]

    scan_partitions-IsRows :
        (ps : List Json) (rows : Rows)
        → IsRows rows
        → Ensures IsRows (scan_partitions u topic_filter b path ps rows)
    unfolding scan_partitions
    scan_partitions-IsRows [] rows h = h
    scan_partitions-IsRows (p ∷ ps) rows h =
        Ensures->>= IsRows IsRows (scan_partition u topic_filter b path p rows) _
          (scan_partition-IsRows p rows h) (scan_partitions-IsRows ps)

  module _ (b : Option Json) (before : List Stuck) (errors : List DiskError) where
    abbrev IsDirs : Dirs → Type 0
    IsDirs dirs =
        (dirs.stuck ≡ before ++ stuck_dirs b dirs.log_dirs_out)
        × (dirs.disk_errors ≡ errors ++ error_dirs b dirs.log_dirs_out)
        × All (DirHasTopic (non_empty topic_filter)) dirs.log_dirs_out

    added-IsDirs :
        (path error : Option Json) (dirs : Dirs) (rows : Rows)
        → IsDirs dirs
        → IsRows b path dirs.stuck rows
        → IsDirs (record {
          log_dirs_out =
              dirs.log_dirs_out
              ++ (record { path = path; error = error; partitions = rows.partitions_out } ∷ []);
          stuck = rows.stuck;
          disk_errors = note_error u topic_filter b path error dirs.disk_errors;
        })
    unfolding note_error error_dirs
    added-IsDirs path error dirs rows (s, e, h) (r, t) =
        let d : LogDir = record { path = path; error = error; partitions = rows.partitions_out } in
        (
          rw (stuck_dirs-append b dirs.log_dirs_out d) (
              r
              ∙ ap (λ l. l ++ stuck_entries b path rows.partitions_out) s
              ∙ append_assoc before _ _),
          rw (error_dirs-append b dirs.log_dirs_out d)
              (push_if (is_true error) _ dirs.disk_errors errors _ e),
          All-append (DirHasTopic (non_empty topic_filter)) dirs.log_dirs_out (d ∷ []) h (t, tt),
        )

    scan_dir-IsDirs :
        (ld : Json) (dirs : Dirs) → IsDirs dirs → Ensures IsDirs (scan_dir u topic_filter b ld dirs)
    unfolding scan_dir stuck_entries
    scan_dir-IsDirs ld dirs h = Ensures-then IsDirs (get ld (codes "error")) _ (λ error.
        Ensures-then IsDirs (get ld (codes "logDir")) _ (λ path.
          Ensures-then IsDirs (get ld (codes "partitions")) _ (λ partitions.
            Ensures-then IsDirs (items_of partitions) _ (λ ps.
              let fresh : Rows = record { partitions_out = []; stuck = dirs.stuck } in
              Ensures->>= (IsRows b path dirs.stuck) IsDirs
                (scan_partitions u topic_filter b path ps fresh) _
                (scan_partitions-IsRows b path dirs.stuck ps fresh (sym (append-nil _), tt))
                (λ rows r. added-IsDirs path error dirs rows h r)))))

    scan_dirs-IsDirs :
        (lds : List Json) (dirs : Dirs)
        → IsDirs dirs
        → Ensures IsDirs (scan_dirs u topic_filter b lds dirs)
    unfolding scan_dirs
    scan_dirs-IsDirs [] dirs h = h
    scan_dirs-IsDirs (ld ∷ lds) dirs h =
        Ensures->>= IsDirs IsDirs (scan_dir u topic_filter b ld dirs) _ (scan_dir-IsDirs ld dirs h)
          (scan_dirs-IsDirs lds)

  -- The lists of a report against its brokers.
  abbrev pub IsFaithful : Found → Type 0
  IsFaithful found =
      (found.stuck ≡ stuck_in found.brokers_out)
      × (found.disk_errors ≡ errors_in found.brokers_out)
      × All (BrokerHasTopic (non_empty topic_filter)) found.brokers_out

  added-IsFaithful :
      (b : Option Json) (found : Found) (dirs : Dirs)
      → IsFaithful found
      → IsDirs b found.stuck found.disk_errors dirs
      → IsFaithful (record {
        brokers_out =
            found.brokers_out ++ (record { broker_id = b; log_dirs = dirs.log_dirs_out } ∷ []);
        stuck = dirs.stuck;
        disk_errors = dirs.disk_errors;
      })
  added-IsFaithful b found dirs (s, e, h) (ds, de, dh) =
      let new : Broker = record { broker_id = b; log_dirs = dirs.log_dirs_out } in
      (
        rw (stuck_in-append found.brokers_out new)
            (ds ∙ ap (λ l. l ++ stuck_dirs b dirs.log_dirs_out) s),
        rw (errors_in-append found.brokers_out new)
            (de ∙ ap (λ l. l ++ error_dirs b dirs.log_dirs_out) e),
        All-append (BrokerHasTopic (non_empty topic_filter)) found.brokers_out (new ∷ []) h
            (dh, tt),
      )

  scan_broker-IsFaithful :
      (x : Json) (found : Found)
      → IsFaithful found
      → Ensures IsFaithful (scan_broker u topic_filter x found)
  unfolding scan_broker stuck_dirs error_dirs
  scan_broker-IsFaithful x found h = Ensures-then IsFaithful (get x (codes "broker")) _ (λ b.
      Ensures-then IsFaithful (get x (codes "logDirs")) _ (λ log_dirs.
        Ensures-then IsFaithful (items_of log_dirs) _ (λ lds.
          let fresh : Dirs = record {
            log_dirs_out = [];
            stuck = found.stuck;
            disk_errors = found.disk_errors;
          } in
          Ensures->>= (IsDirs b found.stuck found.disk_errors) IsFaithful
            (scan_dirs u topic_filter b lds fresh) _
            (scan_dirs-IsDirs b found.stuck found.disk_errors lds fresh
              (sym (append-nil _), sym (append-nil _), tt))
            (λ dirs d. added-IsFaithful b found dirs h d))))

  scan_brokers-IsFaithful :
      (bs : List Json) (found : Found)
      → IsFaithful found
      → Ensures IsFaithful (scan_brokers u topic_filter bs found)
  unfolding scan_brokers
  scan_brokers-IsFaithful [] found h = h
  scan_brokers-IsFaithful (b ∷ bs) found h =
      Ensures->>= IsFaithful IsFaithful (scan_broker u topic_filter b found) _
        (scan_broker-IsFaithful b found h) (scan_brokers-IsFaithful bs)

  -- What a payload gives, if it is read without an error.
  pub scan_payload-Ensures :
      (payload : Json) → Ensures IsFaithful (scan_payload u topic_filter payload)
  unfolding scan_payload stuck_in errors_in
  scan_payload-Ensures payload =
      Ensures-then IsFaithful (get payload (codes "brokers")) _ (λ brokers.
        Ensures-then IsFaithful (items_of brokers) _
          (λ bs. scan_brokers-IsFaithful bs nothing_found (refl, refl, tt)))
