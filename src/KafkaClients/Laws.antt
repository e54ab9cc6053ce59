-- ===== src/KafkaClients/Laws.antt =====
-- `AdminClientFactory.get`: the kept clients against clients that are built anew.
use devops_agent_msk_mcp.Base.{
  Text, some, ◌≡◌, refl, inl, inr, arith, Option-cases, text_eq, nat_eq, list_beq_iff, beq_refl, ap,
  sym, ◌∙◌,
}
use mathlib.Core.Path.{subst}
use devops_agent_msk_mcp.Base.Dict
use devops_agent_msk_mcp.Base.Dict.{lookup-insert}
use devops_agent_msk_mcp.Config.{ClustersRegistry, get}
use devops_agent_msk_mcp.Errors.{Result, ok, err, Raised, ok_injective, ◌>>=◌}
use devops_agent_msk_mcp.KafkaClients.{Conf, Factory, get_client, build, keep, new_factory}

module _ {Client : Type 0} (admin_client : Conf → Result Client) where
  -- Every client that the factory keeps was built from its cluster's configuration in the registry.
  abbrev pub IsCoherent : Factory admin_client → Type 0
  IsCoherent f =
      (k : Text) (c : Client)
      → Dict.lookup k f.clients ≡ some c
      → (get f.registry k >>= build admin_client) ≡ ok c

  keep-IsCoherent :
      (f : Factory admin_client) (id : Text) (r : Result Client)
      → (get f.registry id >>= build admin_client) ≡ r
      → IsCoherent f
      → IsCoherent (keep admin_client f id r).1
  keep-IsCoherent f id (err e) built h k d found = h k d found
  keep-IsCoherent f id (ok c) built h k d found =
      ground (arith, lookup-insert k id c f.clients, list_beq_iff k id, h k d)

  -- A new factory is coherent.
  pub new_factory-IsCoherent : (r : ClustersRegistry) → IsCoherent (new_factory admin_client r)
  unfolding new_factory Dict.lookup
  new_factory-IsCoherent r k c h = cc

  -- How a call of `get` ends.
  data Got (f : Factory admin_client) (id : Text) : Type 0 where
    cached :
        (c : Client)
        → Dict.lookup id f.clients ≡ some c
        → get_client admin_client f id ≡ (ok c, f)
        → Got f id
    built :
        (r : Result Client)
        → (get f.registry id >>= build admin_client) ≡ r
        → get_client admin_client f id ≡ keep admin_client f id r
        → Got f id

  got : (f : Factory admin_client) (id : Text) → Got f id
  unfolding get_client
  got f id = elim (Option-cases (Dict.lookup id f.clients)) [
    | inl e ↦ built _ refl (rw (e, get_client))
    | inr (c, e) ↦ cached c e (rw (e, get_client))
  ]

  -- Asking for a client keeps the factory coherent.
  pub get_client-IsCoherent :
      (f : Factory admin_client) (id : Text)
      → IsCoherent f
      → IsCoherent (get_client admin_client f id).1
  get_client-IsCoherent f id h = elim (got f id) [
    | cached c e g ↦ subst IsCoherent (sym (ap (λ t. t.1) g)) h
    | built r b g ↦ subst IsCoherent (sym (ap (λ t. t.1) g)) (keep-IsCoherent f id r b h)
  ]

  -- Asking for a client leaves the registry of the factory as it is.
  pub get_client-registry :
      (f : Factory admin_client) (id : Text)
      → (get_client admin_client f id).1.registry ≡ f.registry
  get_client-registry f id = elim (got f id) [
    | cached c e g ↦ ap (λ t. t.1.registry) g
    | built (ok c) b g ↦ ap (λ t. t.1.registry) g
    | built (err x) b g ↦ ap (λ t. t.1.registry) g
  ]

  -- In a coherent factory `get` returns what building the client anew would return, error or client,
  -- whether or not it was kept before.
  pub get_client-result :
      (f : Factory admin_client) (id : Text)
      → IsCoherent f
      → (get_client admin_client f id).0 ≡ (get f.registry id >>= build admin_client)
  get_client-result f id h = elim (got f id) [
    | cached c e g ↦ ap (λ t. t.0) g ∙ sym (h id c e)
    | built (ok c) b g ↦ ap (λ t. t.0) g ∙ sym b
    | built (err x) b g ↦ ap (λ t. t.0) g ∙ sym b
  ]

  kept_again :
      (f : Factory admin_client) (id : Text) (c : Client)
      → Dict.lookup id f.clients ≡ some c
      → get_client admin_client f id ≡ (ok c, f)
  unfolding get_client
  kept_again f id c e = rw (e, get_client)

  lookup-keep :
      (f : Factory admin_client) (id : Text) (c : Client)
      → Dict.lookup id (keep admin_client f id (ok c)).1.clients ≡ some c
  lookup-keep f id c = rw (lookup-insert id id c f.clients, beq_refl {A = Text} id)

  -- A client once returned is returned again, with the factory unchanged, so none is built twice.
  pub get_client_again :
      (f : Factory admin_client) (id : Text) (c : Client)
      → (get_client admin_client f id).0 ≡ ok c
      → let g = (get_client admin_client f id).1 in get_client admin_client g id ≡ (ok c, g)
  get_client_again f id c h = elim (got f id) [
    | cached d e g ↦
        let same : d ≡ c = ok_injective (sym (ap (λ t. t.0) g) ∙ h) in
        kept_again _ id c (rw g (e ∙ ap some same))
    | built (ok d) b g ↦
        let same : d ≡ c = ok_injective (sym (ap (λ t. t.0) g) ∙ h) in
        kept_again _ id c (rw g (lookup-keep f id d ∙ ap some same))
    | built (err x) b g ↦ cc (ap (λ t. t.0) g)
  ]

  -- A call that raises leaves the factory as it was.
  pub get_client_failed :
      (f : Factory admin_client) (id : Text) (x : Raised)
      → (get_client admin_client f id).0 ≡ err x
      → (get_client admin_client f id).1 ≡ f
  get_client_failed f id x h = elim (got f id) [
    | cached d e g ↦ ap (λ t. t.1) g
    | built (ok d) b g ↦ cc (ap (λ t. t.0) g)
    | built (err y) b g ↦ ap (λ t. t.1) g
  ]
