-- ===== src/ClientProperties/Startup.antt =====
-- `render_all`, the loop over the clusters at startup.
use devops_agent_msk_mcp.Base.{
  Text, true, List, [], ◌∷◌, some, ◌≡◌, ◌≢◌, refl, inl, inr, arith, All, Bool-cases, text_eq,
  nat_eq, list_beq_iff, ◌==◌, beq_refl, elem, ap, sym, ◌∙◌,
}
use mathlib.Core.Path.{subst}
use devops_agent_msk_mcp.Base.Dict
use devops_agent_msk_mcp.Base.Dict.{lookup-insert}
use devops_agent_msk_mcp.Base.Equality.{All-elem}
use devops_agent_msk_mcp.Config.{
  ClusterConfig, IamCluster, iam_cluster, scram_cluster, mtls_cluster, ClustersRegistry, get, ids,
}
use devops_agent_msk_mcp.Config.Laws.{get-ids}
use devops_agent_msk_mcp.Errors.{ok, err, Raised, Result-cases, ok_injective}
use devops_agent_msk_mcp.ClientProperties.{
  Manager, FileSystem, iam_properties, stored, or_raised, render_one, render_each, render_all,
  path_of,
}
use devops_agent_msk_mcp.ClientProperties.Laws.{
  WritesIn, CanWrite, IsConsistent, stored-IsConsistent, in_place, failed, written,
}

elem-nil : (k : Text) → elem k [] ≢ true
unfolding elem
elem-nil k e = cc

abbrev pub IsKept : Manager → Text → Type 0
IsKept m k = (path : Text) × (Dict.lookup k m.paths ≡ some path)

module _ (fs : FileSystem) where
  -- The manager after one round of the loop.
  after_one : Manager → Text → ClusterConfig → Manager
  after_one m id (iam_cluster c) = stored fs m id iam_properties
  after_one m id (scram_cluster c) = m
  after_one m id (mtls_cluster c) = m

  -- How a round ends: with its file in place, if it has one, or with the error of a file call.
  data Round (m : Manager) (id : Text) (cfg : ClusterConfig) : Type 0 where
    went :
        ((c : IamCluster) → cfg ≡ iam_cluster c → CanWrite fs m id)
        → render_one fs m id ≡ ok (after_one m id cfg)
        → Round m id cfg
    broke :
        (e : Raised) (c : IamCluster)
        → cfg ≡ iam_cluster c
        → ¬ CanWrite fs m id
        → render_one fs m id ≡ err e
        → Round m id cfg

  round :
      (m : Manager) (id : Text) (cfg : ClusterConfig)
      → get m.registry id ≡ ok cfg
      → fs.mkdir m.output_dir ≡ ok tt
      → Round m id cfg
  unfolding render_one after_one
  round m id (iam_cluster c) e dir = elim (written fs m id dir) [
    | in_place can g ↦ went (λ d same. can) (rw (e, render_one) (ap (or_raised fs) g))
    | failed raised m' cannot harmless g ↦
        broke raised c refl cannot (rw (e, render_one) (ap (or_raised fs) g))
  ]
  round m id (scram_cluster c) e dir = went (λ d same. cc) (rw (e, render_one))
  round m id (mtls_cluster c) e dir = went (λ d same. cc) (rw (e, render_one))

  after_one-registry :
      (m : Manager) (id : Text) (cfg : ClusterConfig) → (after_one m id cfg).registry ≡ m.registry
  unfolding after_one stored
  after_one-registry m id (iam_cluster c) = refl
  after_one-registry m id (scram_cluster c) = refl
  after_one-registry m id (mtls_cluster c) = refl

  after_one-output_dir :
      (m : Manager) (id : Text) (cfg : ClusterConfig)
      → (after_one m id cfg).output_dir ≡ m.output_dir
  unfolding after_one stored
  after_one-output_dir m id (iam_cluster c) = refl
  after_one-output_dir m id (scram_cluster c) = refl
  after_one-output_dir m id (mtls_cluster c) = refl

  after_one-IsConsistent :
      (m : Manager) (id : Text) (cfg : ClusterConfig)
      → get m.registry id ≡ ok cfg
      → ((c : IamCluster) → cfg ≡ iam_cluster c → CanWrite fs m id)
      → IsConsistent fs m
      → IsConsistent fs (after_one m id cfg)
  unfolding after_one
  after_one-IsConsistent m id (iam_cluster c) e can h =
      stored-IsConsistent fs m id c e (can c refl) h
  after_one-IsConsistent m id (scram_cluster c) e can h = h
  after_one-IsConsistent m id (mtls_cluster c) e can h = h

  stored-IsKept :
      (m : Manager) (id k : Text) → IsKept m k → IsKept (stored fs m id iam_properties) k
  unfolding stored
  stored-IsKept m id k (path, e) = elim (Bool-cases (k == id)) [
    | inl p ↦ (path_of fs m id, rw (lookup-insert k id _ m.paths, p) refl)
    | inr p ↦ (path, rw (lookup-insert k id _ m.paths, p) e)
  ]

  stored-IsKept_self : (m : Manager) (id : Text) → IsKept (stored fs m id iam_properties) id
  unfolding stored
  stored-IsKept_self m id = (
    path_of fs m id,
    rw (lookup-insert id id (path_of fs m id) m.paths, beq_refl {A = Text} id) refl,
  )

  after_one-IsKept :
      (m : Manager) (id k : Text) (cfg : ClusterConfig) → IsKept m k → IsKept (after_one m id cfg) k
  unfolding after_one
  after_one-IsKept m id k (iam_cluster c) h = stored-IsKept m id k h
  after_one-IsKept m id k (scram_cluster c) h = h
  after_one-IsKept m id k (mtls_cluster c) h = h

  -- Ids that the registry knows.
  abbrev Known : ClustersRegistry → List Text → Type 0
  Known r = All (λ k. (cfg : ClusterConfig) × (get r k ≡ ok cfg))

  -- What the loop leaves behind.
  abbrev IsRendered : ClustersRegistry → List Text → Manager → Manager → Type 0
  IsRendered r l m m' =
      (m'.registry ≡ r)
      × (m'.output_dir ≡ m.output_dir)
      × IsConsistent fs m'
      × ((k : Text) → IsKept m k → IsKept m' k)
      × ((k : Text) (c : IamCluster) → get r k ≡ ok (iam_cluster c) → elem k l ≡ true → IsKept m' k)

  IsKept-after_round :
      (r : ClustersRegistry) (id k : Text) (l : List Text) (m m' : Manager) (cfg : ClusterConfig)
      → get r id ≡ ok cfg
      → IsRendered r l (after_one m id cfg) m'
      → (c : IamCluster) → get r k ≡ ok (iam_cluster c)
      → elem k (id ∷ l) ≡ true
      → IsKept m' k
  unfolding after_one elem
  IsKept-after_round r id k l m m' cfg known (_, _, _, old, new) c h e =
      elim (Bool-cases (k == id)) [
        | inl p ↦
            let same : id ≡ k = sym ((list_beq_iff k id).0 p) in
            let iam : iam_cluster c ≡ cfg = ok_injective (sym h ∙ ap (get r) (sym same) ∙ known) in
            old k (
              subst (λ t. IsKept (after_one m id t) k) iam
                (subst (IsKept (stored fs m id iam_properties)) same (stored-IsKept_self m id)))
        | inr p ↦ new k c h (ground arith)
      ]

  -- If the loop ends without an error, it has rendered all.
  render_each-IsRendered :
      (r : ClustersRegistry) (l : List Text) (m m' : Manager)
      → m.registry ≡ r
      → fs.mkdir m.output_dir ≡ ok tt
      → Known r l
      → IsConsistent fs m
      → render_each fs l m ≡ ok m'
      → IsRendered r l m m'
  unfolding render_each
  render_each-IsRendered r [] m m' same dir h c ends =
      let e : m ≡ m' = ok_injective ends in
      subst (IsRendered r [] m) e (same, refl, c, (λ k h. h), (λ k c h e. absurd (elem-nil k e)))
  render_each-IsRendered r (id ∷ l) m m' same dir ((cfg, known), h) c ends =
      let known' : get m.registry id ≡ ok cfg = ap (λ t. get t id) same ∙ known in
      elim (round m id cfg known' dir) [
        | broke e d iam cannot g ↦ cc (rw (g, render_each) at ends)
        | went can g ↦
            let ends' : render_each fs l (after_one m id cfg) ≡ ok m' =
              rw (g, render_each) at ends in
            let done =
              render_each-IsRendered r l (after_one m id cfg) m'
                (after_one-registry m id cfg ∙ same)
                (ap fs.mkdir (after_one-output_dir m id cfg) ∙ dir) h
                (after_one-IsConsistent m id cfg known' can c) ends' in
            (
              done.0,
              done.1 ∙ after_one-output_dir m id cfg,
              done.2,
              λ k kept. done.3 k (after_one-IsKept m id k cfg kept),
              λ k c. IsKept-after_round r id k l m m' cfg known done c,
            )
      ]

  -- No file call raises for any cluster of the registry with IAM.
  abbrev pub CanWriteAll : ClustersRegistry → Text → Type 0
  CanWriteAll r dir = (k : Text) (c : IamCluster) → get r k ≡ ok (iam_cluster c) → WritesIn fs dir k

  render_each-runs :
      (r : ClustersRegistry) (l : List Text) (m : Manager)
      → m.registry ≡ r
      → fs.mkdir m.output_dir ≡ ok tt
      → Known r l
      → CanWriteAll r m.output_dir
      → (m' : Manager) × (render_each fs l m ≡ ok m')
  unfolding render_each
  render_each-runs r [] m same dir h all = (m, refl)
  render_each-runs r (id ∷ l) m same dir ((cfg, known), h) all =
      let known' : get m.registry id ≡ ok cfg = ap (λ t. get t id) same ∙ known in
      elim (round m id cfg known' dir) [
        | broke e d iam cannot g ↦ absurd (cannot (all id d (known ∙ ap ok iam)))
        | went can g ↦
            let place = after_one-output_dir m id cfg in
            let (m', ends) =
              render_each-runs r l (after_one m id cfg) (after_one-registry m id cfg ∙ same)
                (ap fs.mkdir place ∙ dir) h (subst (CanWriteAll r) (sym place) all) in
            (m', rw (g, render_each) ends)
      ]

  Known-of_elem :
      (r : ClustersRegistry) (l : List Text) → All (λ k. elem k (ids r) ≡ true) l → Known r l
  Known-of_elem r [] h = tt
  Known-of_elem r (k ∷ l) (e, h) = ((get-ids r k).1 e, Known-of_elem r l h)

  listed :
      (r : ClustersRegistry) (k : Text) (cfg : ClusterConfig)
      → get r k ≡ ok cfg
      → elem k (ids r) ≡ true
  listed r k cfg h = elim (Bool-cases (elem k (ids r))) [
    | inl e ↦ e
    | inr e ↦ cc (h, (get-ids r k).2 e)
  ]

  known : (m : Manager) → Known m.registry (ids m.registry)
  known m = Known-of_elem m.registry (ids m.registry) (All-elem (ids m.registry))

  -- What the loop at startup has done if it ends without an error: the manager is consistent, and every
  -- cluster of the registry with IAM has its path, whatever clusters without support stand among them.
  abbrev pub HasRendered : Manager → Manager → Type 0
  HasRendered m m' =
      (m'.registry ≡ m.registry)
      × IsConsistent fs m'
      × ((k : Text) (c : IamCluster) → get m.registry k ≡ ok (iam_cluster c) → IsKept m' k)

  -- Rendering at startup ends without an error exactly if the directory can be made and no file call raises
  -- for any cluster of the registry with IAM. It then leaves a consistent manager, in which each of
  -- these clusters has its path, whatever clusters without support stand among them.
  pub render_all_lem :
      (m : Manager)
      → IsConsistent fs m
      → ((fs.mkdir m.output_dir ≡ ok tt)
          → CanWriteAll m.registry m.output_dir
          → (m' : Manager) × (render_all fs m ≡ ok m'))
        × ((m' : Manager)
            → render_all fs m ≡ ok m'
            → (fs.mkdir m.output_dir ≡ ok tt)
              × CanWriteAll m.registry m.output_dir
              × HasRendered m m')
  unfolding render_all
  render_all_lem m h = (
    (λ dir all.
        let (m', e) = render_each-runs m.registry (ids m.registry) m refl dir (known m) all in
        (m', rw (dir, render_all) e)),
    (λ m' ends. elim (Result-cases (fs.mkdir m.output_dir)) [
      | inr (e, dir) ↦ cc (rw (dir, render_all) at ends)
      | inl (tt, dir) ↦
          let done =
            render_each-IsRendered m.registry (ids m.registry) m m' refl dir (known m) h
              (rw (dir, render_all) at ends) in
          let kept : (k : Text) (c : IamCluster)
              → get m.registry k ≡ ok (iam_cluster c)
              → IsKept m' k =
            λ k c g. done.4 k c g (listed m.registry k (iam_cluster c) g) in
          (
            dir,
            (λ k c g.
                let (path, e) = kept k c g in
                subst (λ d. WritesIn fs d k) done.1 (done.2 k path e).3),
            (done.0, done.2, kept),
          )
    ]),
  )
