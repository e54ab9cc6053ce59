-- ===== src/Server/Startup.antt =====
-- `build_context`: when a server starts, and in which state.
use devops_agent_msk_mcp.Base.{
  upper, ◌≤◌, ℤ, pos, negsuc, leb_ℤ, Text, true, none, ◌≡◌, refl, arith, ap, sym, ◌∙◌,
}
use devops_agent_msk_mcp.Base.Int.{pos_part}
use devops_agent_msk_mcp.Base.Dict
use devops_agent_msk_mcp.Bouncer.{new_bouncer}
use devops_agent_msk_mcp.ClientProperties.{new_manager}
use devops_agent_msk_mcp.ClientProperties.Laws.{IsConsistent}
use devops_agent_msk_mcp.ClientProperties.Startup.{CanWriteAll, render_all_lem}
use devops_agent_msk_mcp.Config.{
  Host, Settings, load_settings, load_registry, ClustersRegistry, get,
}
use devops_agent_msk_mcp.Config.Laws.{load_settings-IsPositive}
use devops_agent_msk_mcp.Errors.{ok}
use devops_agent_msk_mcp.KafkaClients.{new_factory}
use devops_agent_msk_mcp.KafkaClients.Laws.{new_factory-IsCoherent}
use devops_agent_msk_mcp.Server.{Outside, Inputs, AppContext, build_context}
use devops_agent_msk_mcp.Server.Laws.{IsReady}
use devops_agent_msk_mcp.Tools.Acls.{ResourceTypes}

new_bouncer-ok :
    (m n : ℤ)
    → leb_ℤ (pos 1) m ≡ true
    → leb_ℤ (pos 1) n ≡ true
    → new_bouncer m n ≡ ok (record { tool_sem = pos_part m; cli_sem = pos_part n })
unfolding new_bouncer
new_bouncer-ok m n hm hn = rw (hm, hn) refl

some_slot : (m : ℤ) → leb_ℤ (pos 1) m ≡ true → 1 ≤ pos_part m
unfolding leb_ℤ
some_slot (pos n) e = ground arith
some_slot (negsuc n) e = ground arith

module _ {h : Host} {t : ResourceTypes} {Client : Type 0} (x : Outside h t Client)
    (i : Inputs) where
  pub new_manager-IsConsistent :
      (r : ClustersRegistry) (dir : Text) → IsConsistent x.fs (new_manager r dir i.disk)
  unfolding new_manager Dict.lookup
  new_manager-IsConsistent r dir k path found = cc

  -- The server starts if the settings load, logging takes their level, the registry loads, the directory of
  -- the properties files can be made, and no file call raises for a cluster with IAM. Its context is ready, over that registry and with those settings, and both semaphores
  -- have a slot.
  pub build_context-IsReady :
      (s : Settings h) (r : ClustersRegistry)
      → load_settings x.unicode h x.environ ≡ ok s
      → i.logging.basic_config (upper x.unicode s.log_level) ≡ ok tt
      → load_registry i.safe_load i.is_mapping i.read_clusters s.clusters_config_path
          (i.read_file s.clusters_config_path)
        ≡ ok r
      → x.fs.mkdir s.client_properties_dir ≡ ok tt
      → CanWriteAll x.fs r s.client_properties_dir
      → (c : AppContext x) × (build_context x i none ≡ ok c)
        × IsReady x c
        × (c.settings ≡ s)
        × (c.registry ≡ r)
        × (1 ≤ c.bouncer.tool_sem)
        × (1 ≤ c.bouncer.cli_sem)
        × (c.cli_executor.sem ≡ c.bouncer.cli_sem)
  unfolding build_context new_factory new_manager
  build_context-IsReady s r settings logging registry dir all =
      let (one, more, _) = load_settings-IsPositive h x.unicode x.environ s settings in
      let m = new_manager r s.client_properties_dir i.disk in
      let (runs, only) =
        render_all_lem x.fs m (new_manager-IsConsistent r s.client_properties_dir) in
      let (m', rendered) = runs dir all in
      let (_, _, (registry', consistent, kept)) = only m' rendered in
      let slots = new_bouncer-ok s.tool_concurrency s.cli_concurrency one more in
      (
        record {
          settings = s;
          registry = r;
          factory = new_factory x.admin_client r;
          properties = m';
          bouncer = record {
            tool_sem = pos_part s.tool_concurrency;
            cli_sem = pos_part s.cli_concurrency;
          };
          cli_executor = record { sem = pos_part s.cli_concurrency; classpath = s.kafka_classpath };
        },
        rw (settings, logging, registry, rendered, slots, build_context) refl,
        record {
          coherent = new_factory-IsCoherent x.admin_client r;
          consistent = consistent;
          factory_registry = refl;
          properties_registry = registry';
          has_all = λ k c known. kept k c (ap (λ q. get q k) (sym registry') ∙ known);
        },
        refl,
        refl,
        some_slot s.tool_concurrency one,
        some_slot s.cli_concurrency more,
        refl,
      )
