-- ===== src/ClientProperties/Laws.antt =====
-- What stands on disk for the paths that the manager keeps.
use devops_agent_msk_mcp.Base.{
  Text, codes, ◌++◌, Option, none, some, ◌≡◌, ◌≢◌, refl, inl, inr, arith, Option-cases, Bool-cases,
  text_eq, nat_eq, list_beq_iff, ◌==◌, beq_refl, ap, sym, ◌∙◌,
}
use mathlib.Core.Path.{subst}
use devops_agent_msk_mcp.Base.Dict
use devops_agent_msk_mcp.Base.Dict.{lookup-insert}
use devops_agent_msk_mcp.Config.{
  ClusterConfig, IamCluster, iam_cluster, scram_cluster, mtls_cluster, get,
}
use devops_agent_msk_mcp.Errors.{Result, ok, err, Raised, ok_injective}
use devops_agent_msk_mcp.ClientProperties.{
  Manager, File, FileSystem, Written, wrote, unwritten, iam_properties, owner_only, render, put,
  stored, after_chmod, after_write, after_mkdir, write, get_path, render_missing, path_of,
  scram_unsupported, mtls_unsupported,
}

abbrev pub rendered : File
rendered = record { content = iam_properties; mode = owner_only }

-- Every path that is kept is that of its cluster's file, which holds the IAM properties, is readable
-- and writable by its owner alone, can be written, and belongs to a cluster of the registry with IAM.
module _ (fs : FileSystem) where
  -- None of the file calls for a cluster with IAM raises.
  abbrev pub WritesIn : Text → Text → Type 0
  WritesIn dir k =
      (fs.mkdir dir ≡ ok tt)
      × (fs.write_text (fs.join_path dir (k ++ codes ".properties")) iam_properties ≡ wrote)
      × (fs.chmod (fs.join_path dir (k ++ codes ".properties")) ≡ ok tt)

  abbrev pub CanWrite : Manager → Text → Type 0
  CanWrite m k = WritesIn m.output_dir k

  abbrev pub IsConsistent : Manager → Type 0
  IsConsistent m =
      (k path : Text)
      → Dict.lookup k m.paths ≡ some path
      → (Dict.lookup path m.files ≡ some rendered)
        × (path ≡ path_of fs m k)
        × ((c : IamCluster) × (get m.registry k ≡ ok (iam_cluster c)))
        × CanWrite m k

  pub stored-IsConsistent :
      (m : Manager) (id : Text) (c : IamCluster)
      → get m.registry id ≡ ok (iam_cluster c)
      → CanWrite m id
      → IsConsistent m
      → IsConsistent (stored fs m id iam_properties)
  unfolding stored
  stored-IsConsistent m id c known can h k path found =
      let paths = lookup-insert k id (path_of fs m id) m.paths in
      let files = lookup-insert path (path_of fs m id) rendered m.files in
      elim (Bool-cases (k == id)) [
        | inl p ↦
            let same : k ≡ id = (list_beq_iff k id).0 p in
            let here : path ≡ path_of fs m id = ground (arith, paths) in
            (
              rw (files, (list_beq_iff path (path_of fs m id)).1 here),
              here ∙ ap (path_of fs m) (sym same),
              (c, ap (get m.registry) same ∙ known),
              subst (CanWrite m) (sym same) can,
            )
        | inr p ↦
            let old = h k path (ground (arith, paths)) in
            (ground (arith, files, old.0), old.1, old.2, old.3)
      ]

  -- The properties put over a kept file leave it as it was.
  put-IsConsistent :
      (m : Manager) (p : Text) → IsConsistent m → IsConsistent (put fs m p iam_properties)
  unfolding put
  put-IsConsistent m p h k path found =
      let (file, place, owner, can) = h k path found in
      elim (Bool-cases (path == p)) [
        | inl e ↦
            let same : p ≡ path = sym ((list_beq_iff path p).0 e) in
            (rw (lookup-insert path p _ m.files, e, same, file) refl, place, owner, can)
        | inr e ↦ (rw (lookup-insert path p _ m.files, e) file, place, owner, can)
      ]

  -- Whatever a failing write leaves, it does so at the path of no kept file.
  put-IsConsistent_failed :
      (m : Manager) (id left : Text) (e : Raised) (o : Option Text)
      → fs.write_text (path_of fs m id) iam_properties ≡ unwritten e o
      → IsConsistent m
      → IsConsistent (put fs m (path_of fs m id) left)
  unfolding put
  put-IsConsistent_failed m id left e o fails h k path found =
      let (file, place, owner, can) = h k path found in
      elim (Bool-cases (path == path_of fs m id)) [
        | inl p ↦
            let same : path_of fs m k ≡ path_of fs m id =
              sym place ∙ (list_beq_iff path (path_of fs m id)).0 p in
            let works : fs.write_text (path_of fs m id) iam_properties ≡ wrote =
              subst (λ t. fs.write_text t iam_properties ≡ wrote) same can.1 in
            cc
        | inr p ↦ (rw (lookup-insert path (path_of fs m id) _ m.files, p) file, place, owner, can)
      ]

  -- A failed call leaves the paths alone, and the files that are kept.
  abbrev pub IsHarmless : Manager → Manager → Type 0
  IsHarmless m m' =
      (m'.paths ≡ m.paths) × (m'.registry ≡ m.registry) × (IsConsistent m → IsConsistent m')

  -- How the file calls for a cluster end: with the file in place, or with an error.
  pub data Ended (m : Manager) (id : Text) (r : Result Text × Manager) : Type 0 where
    in_place :
        CanWrite m id → r ≡ (ok (path_of fs m id), stored fs m id iam_properties) → Ended m id r
    failed :
        (e : Raised) (m' : Manager)
        → ¬ CanWrite m id
        → IsHarmless m m'
        → r ≡ (err e, m')
        → Ended m id r

  chmod_ended :
      (m : Manager) (id : Text) (r : Result (Unit {0}))
      → fs.mkdir m.output_dir ≡ ok tt
      → fs.write_text (path_of fs m id) iam_properties ≡ wrote
      → fs.chmod (path_of fs m id) ≡ r
      → Ended m id (after_chmod fs m id iam_properties r)
  unfolding put
  chmod_ended m id (ok tt) dir w c = in_place (dir, w, c) refl
  chmod_ended m id (err e) dir w c =
      failed e _ (λ can. cc (can.2, c)) (refl, refl, put-IsConsistent m (path_of fs m id)) refl

  write_ended :
      (m : Manager) (id : Text) (w : Written)
      → fs.mkdir m.output_dir ≡ ok tt
      → fs.write_text (path_of fs m id) iam_properties ≡ w
      → Ended m id (after_write fs m id iam_properties w)
  unfolding put
  write_ended m id wrote dir w = chmod_ended m id (fs.chmod (path_of fs m id)) dir w refl
  write_ended m id (unwritten e none) dir w =
      failed e m (λ can. cc (can.1, w)) (refl, refl, (λ h. h)) refl
  write_ended m id (unwritten e (some left)) dir w =
      failed e _ (λ can. cc (can.1, w))
        (refl, refl, put-IsConsistent_failed m id left e (some left) w) refl

  pub written :
      (m : Manager) (id : Text)
      → fs.mkdir m.output_dir ≡ ok tt
      → Ended m id (write fs m id iam_properties)
  unfolding write
  written m id dir = write_ended m id (fs.write_text (path_of fs m id) iam_properties) dir refl

  mkdir_ended :
      (m : Manager) (id : Text) (r : Result (Unit {0}))
      → fs.mkdir m.output_dir ≡ r
      → Ended m id (after_mkdir fs m id iam_properties r)
  mkdir_ended m id (ok tt) dir = written m id dir
  mkdir_ended m id (err e) dir = failed e m (λ can. cc (can.0, dir)) (refl, refl, (λ h. h)) refl

  -- How a call of `get_path` ends: with a kept path, with what the file calls for an IAM cluster give, or
  -- with an error and no change.
  pub data Got (m : Manager) (id : Text) : Type 0 where
    kept :
        (path : Text)
        → Dict.lookup id m.paths ≡ some path
        → get_path fs m id ≡ (ok path, m)
        → Got m id
    fresh :
        (c : IamCluster)
        → Dict.lookup id m.paths ≡ none
        → get m.registry id ≡ ok (iam_cluster c)
        → Ended m id (get_path fs m id)
        → Got m id
    refused :
        (e : Raised)
        → Dict.lookup id m.paths ≡ none
        → ((c : IamCluster) → get m.registry id ≢ ok (iam_cluster c))
        → get_path fs m id ≡ (err e, m)
        → Got m id

  missing :
      (m : Manager) (id : Text) (r : Result ClusterConfig)
      → Dict.lookup id m.paths ≡ none
      → get m.registry id ≡ r
      → Got m id
  unfolding get_path render
  missing m id (err e) n g = refused e n (λ c h. cc) (rw (n, get_path) (rw (g, render_missing)))
  missing m id (ok (iam_cluster c)) n g =
      fresh c n g
        (rw (n, get_path) (rw (g, render_missing) (mkdir_ended m id (fs.mkdir m.output_dir) refl)))
  missing m id (ok (scram_cluster c)) n g =
      refused scram_unsupported n (λ d h. cc) (rw (n, get_path) (rw (g, render_missing)))
  missing m id (ok (mtls_cluster c)) n g =
      refused mtls_unsupported n (λ d h. cc) (rw (n, get_path) (rw (g, render_missing)))

  pub got : (m : Manager) (id : Text) → Got m id
  unfolding get_path
  got m id = elim (Option-cases (Dict.lookup id m.paths)) [
    | inl n ↦ missing m id (get m.registry id) n refl
    | inr (path, e) ↦ kept path e (rw (e, get_path))
  ]

  Ended-IsConsistent :
      (m : Manager) (id : Text) (c : IamCluster) (r : Result Text × Manager)
      → get m.registry id ≡ ok (iam_cluster c)
      → IsConsistent m
      → Ended m id r
      → IsConsistent r.1
  Ended-IsConsistent m id c r known h (in_place can g) =
      subst IsConsistent (sym (ap (λ t. t.1) g)) (stored-IsConsistent m id c known can h)
  Ended-IsConsistent m id c r known h (failed e m' cannot harmless g) =
      subst IsConsistent (sym (ap (λ t. t.1) g)) (harmless.2 h)

  -- Asking for a path keeps the manager consistent.
  pub get_path-IsConsistent :
      (m : Manager) (id : Text) → IsConsistent m → IsConsistent (get_path fs m id).1
  get_path-IsConsistent m id h = elim (got m id) [
    | kept path e g ↦ subst IsConsistent (sym (ap (λ t. t.1) g)) h
    | fresh c n known ended ↦ Ended-IsConsistent m id c (get_path fs m id) known h ended
    | refused e n other g ↦ subst IsConsistent (sym (ap (λ t. t.1) g)) h
  ]

  -- What a manager answers for an id: a path exactly if it is that of a cluster of the registry with IAM for
  -- which no file call raises. Whatever it raises, the paths that it keeps are the same, and for another
  -- id nothing at all has changed.
  pub get_path-decides :
      (m : Manager) (id : Text)
      → IsConsistent m
      → ((c : IamCluster)
          → get m.registry id ≡ ok (iam_cluster c)
          → (CanWrite m id → (get_path fs m id).0 ≡ ok (path_of fs m id))
            × (¬ CanWrite m id
                → (e : Raised) × ((get_path fs m id).0 ≡ err e)
                  × ((get_path fs m id).1.paths ≡ m.paths)))
        × (((c : IamCluster) → get m.registry id ≢ ok (iam_cluster c))
            → (e : Raised) × (get_path fs m id ≡ (err e, m)))
  get_path-decides m id h = elim (got m id) [
    | kept p e g ↦
        let (_, place, owner, can) = h id p e in
        (
          (λ d k. ((λ _. ap (λ t. t.0) g ∙ ap ok place), (λ cannot. absurd (cannot can)))),
          λ none_known. absurd (none_known owner.0 owner.1),
        )
    | fresh c n known ended ↦
        ((λ d k. decided (get_path fs m id) ended), λ none_known. absurd (none_known c known))
    | refused e n other g ↦ ((λ d k. absurd (other d k)), λ none_known. (e, g))
  ]
    where
      decided :
          (r : Result Text × Manager)
          → Ended m id r
          → (CanWrite m id → r.0 ≡ ok (path_of fs m id))
            × (¬ CanWrite m id → (e : Raised) × (r.0 ≡ err e) × (r.1.paths ≡ m.paths))
      decided r (in_place can g) = ((λ _. ap (λ t. t.0) g), (λ cannot. absurd (cannot can)))
      decided r (failed e m' cannot harmless g) = (
        (λ can. absurd (cannot can)),
        (λ _. (e, ap (λ t. t.0) g, ap (λ t. t.1.paths) g ∙ harmless.0)),
      )

  lookup-stored :
      (m : Manager) (id : Text)
      → Dict.lookup id (stored fs m id iam_properties).paths ≡ some (path_of fs m id)
  unfolding stored
  lookup-stored m id = rw (lookup-insert id id (path_of fs m id) m.paths, beq_refl {A = Text} id)

  kept_again :
      (m : Manager) (id path : Text)
      → Dict.lookup id m.paths ≡ some path
      → get_path fs m id ≡ (ok path, m)
  unfolding get_path
  kept_again m id path e = rw (e, get_path)

  lookup-Ended :
      (m : Manager) (id path : Text) (r : Result Text × Manager)
      → Ended m id r
      → r.0 ≡ ok path
      → Dict.lookup id r.1.paths ≡ some path
  lookup-Ended m id path r (in_place can g) found =
      rw g (lookup-stored m id ∙ ap some (ok_injective (sym (ap (λ t. t.0) g) ∙ found)))
  lookup-Ended m id path r (failed e m' cannot harmless g) found = cc (ap (λ t. t.0) g)

  lookup-get_path :
      (m : Manager) (id path : Text)
      → (get_path fs m id).0 ≡ ok path
      → Dict.lookup id (get_path fs m id).1.paths ≡ some path
  lookup-get_path m id path found = elim (got m id) [
    | kept p e g ↦ rw g (e ∙ ap some (ok_injective (sym (ap (λ t. t.0) g) ∙ found)))
    | fresh c n known ended ↦ lookup-Ended m id path (get_path fs m id) ended found
    | refused e n other g ↦ cc (ap (λ t. t.0) g)
  ]

  -- A path once returned is returned again with nothing written, and in a consistent manager it is the
  -- path of a file with the IAM properties and mode 0600, for a cluster of the registry with IAM.
  pub get_path-ok :
      (m : Manager) (id path : Text)
      → IsConsistent m
      → (get_path fs m id).0 ≡ ok path
      → let m' = (get_path fs m id).1 in
        (get_path fs m' id ≡ (ok path, m'))
        × (Dict.lookup path m'.files ≡ some rendered)
        × ((c : IamCluster) × (get m'.registry id ≡ ok (iam_cluster c)))
  get_path-ok m id path h found =
      let m' = (get_path fs m id).1 in
      let again = lookup-get_path m id path found in
      let (file, _, owner, _) = get_path-IsConsistent m id h id path again in
      (kept_again m' id path again, file, owner)
