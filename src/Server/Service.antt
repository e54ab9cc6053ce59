-- ===== src/Server/Service.antt =====
-- src/msk_mcp/__main__.py with all that it starts: the program, and the calls that it then serves.
use devops_agent_msk_mcp.Base.{ℕ, ◌≤◌, upper, All, map, some, ◌≡◌, sym, ◌∙◌}
use mathlib.Core.Path.{subst}
use devops_agent_msk_mcp.ClientProperties.{new_manager, render_all}
use devops_agent_msk_mcp.ClientProperties.Startup.{CanWriteAll, render_all_lem}
use devops_agent_msk_mcp.Server.Startup.{new_manager-IsConsistent}
use devops_agent_msk_mcp.Config.{Host, Settings, load_settings, load_registry, ClustersRegistry}
use devops_agent_msk_mcp.Errors.{ok, >>=-ok, ok_injective}
use devops_agent_msk_mcp.Server.{Outside, Inputs, build_context}
use devops_agent_msk_mcp.LoggingSetup.{configure_logging}
use devops_agent_msk_mcp.Server.App.{Running, main, main_starts}
use devops_agent_msk_mcp.Server.Calls.{System, start, Reach}
use devops_agent_msk_mcp.Server.Calls.Answers.{Works, ended, Reach-answers}
use devops_agent_msk_mcp.Server.ReadOnly.{IsReadOnly, commands, Reach-OnlyReads}
use devops_agent_msk_mcp.Server.Laws.{IsReady}
use devops_agent_msk_mcp.Tools.Acls.{ResourceTypes}

module _ {h : Host} {t : ResourceTypes} {Client : Type 0} (x : Outside h t Client) where
  -- A program that runs has loaded its settings and its registry, logging took the level, and all file
  -- calls succeeded.
  main-ok :
      (i : Inputs) (v : Running x)
      → main x i ≡ ok v
      → (s : Settings h) × (r : ClustersRegistry) × (load_settings x.unicode h x.environ ≡ ok s)
        × (i.logging.basic_config (upper x.unicode s.log_level) ≡ ok tt)
        × (load_registry i.safe_load i.is_mapping i.read_clusters s.clusters_config_path
              (i.read_file s.clusters_config_path)
            ≡ ok r)
        × (x.fs.mkdir s.client_properties_dir ≡ ok tt)
        × CanWriteAll x.fs r s.client_properties_dir
  unfolding main build_context configure_logging new_manager
  main-ok i v e =
      let (s, settings, e₁) = >>=-ok (load_settings x.unicode h x.environ) _ v e in
      let (c, built, _) = >>=-ok (build_context x i (some s)) _ v e₁ in
      let (config, logging, e₂) =
        >>=-ok (configure_logging x.unicode i.logging s.log_level) _ c built in
      let (tt, level, _) =
        >>=-ok (i.logging.basic_config (upper x.unicode s.log_level)) _ config logging in
      let (r, registry, e₃) =
        >>=-ok
          (load_registry i.safe_load i.is_mapping i.read_clusters s.clusters_config_path
            (i.read_file s.clusters_config_path))
          _ c e₂ in
      let m = new_manager r s.client_properties_dir i.disk in
      let (m', rendered, _) = >>=-ok (render_all x.fs m) _ c e₃ in
      let (dir, all, _) =
        (render_all_lem x.fs m (new_manager-IsConsistent x i r s.client_properties_dir)).1 m'
          rendered in
      (s, r, settings, level, registry, dir, all)

  abbrev Serves : Running x → Type 0
  Serves v =
      IsReady x v.app.mcp.context
      × (1 ≤ v.app.mcp.context.bouncer.tool_sem)
      × (1 ≤ v.app.mcp.context.bouncer.cli_sem)

  -- Once the program runs, every call can be answered: from whatever calls came in, worked and were cancelled
  -- since its start, all that were not cancelled can go on until they are answered, each as its tool does
  -- by itself in the context that the program started with.
  pub main_answers :
      (i : Inputs) (v : Running x) (s : System x)
      → main x i ≡ ok v
      → Reach x (start x v.app.mcp.context) s
      → (ready : IsReady x v.app.mcp.context) × (u : System x) × (n : ℕ) × Works x s u n
        × (u.calls ≡ map (ended x v.app.mcp.context ready) s.calls)
  main_answers i v s e r =
      let (_, _, settings, logging, registry, dir, all) = main-ok i v e in
      let (v', runs, _, _, ready, _, _, tools, clis) =
        main_starts x i _ _ settings logging registry dir all in
      let (is_ready, some_tool, some_cli) =
        subst Serves (ok_injective (sym runs ∙ e)) (ready, tools, clis) in
      let (u, n, works, same) = Reach-answers x v.app.mcp.context is_ready some_tool some_cli s r in
      (is_ready, u, n, works, same)

  -- Once the program runs, whatever calls come in, with whatever parameters, and however they interleave
  -- and end: each command line that a call has run, runs or is about to run is a description of log
  -- directories or a dry run of a reset of offsets, by a command of the directory in the settings.
  pub main-OnlyReads :
      (i : Inputs) (v : Running x) (s : System x)
      → main x i ≡ ok v
      → Reach x (start x v.app.mcp.context) s
      → All
          (λ k. All (IsReadOnly v.app.mcp.context.settings.kafka_bin_path) (commands x k.stage))
          s.calls
  main-OnlyReads i v s e r = Reach-OnlyReads x v.app.mcp.context (main_answers i v s e r).0 r
