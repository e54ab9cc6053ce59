-- ===== src/Server/App.antt =====
-- src/msk_mcp/server.py, src/msk_mcp/http/health.py and src/msk_mcp/__main__.py: the server as it is put
-- together and started. What Starlette, FastMCP and uvicorn make of it is not modelled.
use devops_agent_msk_mcp.Base.{
  ◌≤◌, ℤ, Text, codes, lower, upper, Bool, true, List, [], ◌∷◌, Option, none, some, ◌≡◌, refl, ap,
  sym, ◌∙◌,
}
use devops_agent_msk_mcp.Base.Dict.{Dict}
use devops_agent_msk_mcp.ClientProperties.Startup.{CanWriteAll}
use devops_agent_msk_mcp.Config.{Host, Settings, load_settings, load_registry, ClustersRegistry}
use devops_agent_msk_mcp.Errors.{Result, ok, ◌>>=◌}
use devops_agent_msk_mcp.Server.{
  Outside, Inputs, AppContext, build_context, TransportSecurity, build_transport_security,
}
use devops_agent_msk_mcp.Server.Laws.{IsReady}
use devops_agent_msk_mcp.Server.Startup.{build_context-IsReady}
use devops_agent_msk_mcp.Tools.Acls.{ResourceTypes}

-- The JSON object that the health endpoint answers with.
unfoldable pub health : Dict Text Text
health = (codes "status", codes "ok") ∷ []

-- What a route leads to: the health endpoint, or the application of FastMCP.
pub data Endpoint : Type 0 where
  health_endpoint mcp_endpoint : Endpoint

-- A `Route` with its methods, or a `Mount`, which has none of its own.
pub record Route : Type 0 where
  pub path : Text
  pub methods : Option (List Text)
  pub endpoint : Endpoint

module _ {h : Host} {t : ResourceTypes} {Client : Type 0} (x : Outside h t Client) where
  -- The server object of FastMCP: its tools are those of Dispatch over the context.
  pub record Mcp : Type 0 where
    pub name : Text
    pub transport_security : Option TransportSecurity
    pub context : AppContext x

  unfoldable pub create_mcp : AppContext x → Mcp
  create_mcp ctx = record {
    name = codes "msk-debug";
    transport_security = build_transport_security ctx.settings.allowed_hosts;
    context = ctx;
  }

  pub record App : Type 0 where
    pub mcp : Mcp
    pub routes : List Route
    pub correlation_ids : Bool

  abbrev context_or_build : Inputs → Option (AppContext x) → Result (AppContext x)
  context_or_build i none = build_context x i none
  context_or_build i (some ctx) = ok ctx

  -- The routes in their order, and the middleware that is added around them.
  unfoldable pub build_app : Inputs → Option (AppContext x) → Result App
  unfolding create_mcp
  build_app i given = do
    ctx ← context_or_build i given
    ok (record {
      mcp = create_mcp ctx;
      routes =
          record {
            path = codes "/health";
            methods = some (codes "GET" ∷ []);
            endpoint = health_endpoint;
          }
          ∷ record { path = codes "/"; methods = none; endpoint = mcp_endpoint }
          ∷ [];
      correlation_ids = true;
    })

  -- The arguments of `uvicorn.run`.
  pub record Running : Type 0 where
    pub app : App
    pub listens_on : Text
    pub port : ℤ
    pub log_level : Text

  unfoldable pub main : Inputs → Result Running
  unfolding build_app
  main i = do
    settings ← load_settings x.unicode h x.environ
    ctx ← build_context x i (some settings)
    app ← build_app i (some ctx)
    ok (record {
      app = app;
      listens_on = codes "0.0.0.0";
      port = settings.port;
      log_level = lower x.unicode settings.log_level;
    })

  -- Given settings or loaded ones make the same context.
  build_context-loaded :
      (i : Inputs) (s : Settings h)
      → load_settings x.unicode h x.environ ≡ ok s
      → build_context x i none ≡ build_context x i (some s)
  unfolding build_context
  build_context-loaded i s e = rw (e, build_context) refl

  -- The program starts if the settings load, logging takes their level, the registry loads, the directory
  -- of the properties files can be made, and no file call raises for a cluster with IAM. It listens on
  -- the port of the settings, over a ready context with that registry and those settings, checks hosts
  -- as they say, and both semaphores have a slot.
  pub main_starts :
      (i : Inputs) (s : Settings h) (r : ClustersRegistry)
      → load_settings x.unicode h x.environ ≡ ok s
      → i.logging.basic_config (upper x.unicode s.log_level) ≡ ok tt
      → load_registry i.safe_load i.is_mapping i.read_clusters s.clusters_config_path
          (i.read_file s.clusters_config_path)
        ≡ ok r
      → x.fs.mkdir s.client_properties_dir ≡ ok tt
      → CanWriteAll x.fs r s.client_properties_dir
      → (v : Running) × (main i ≡ ok v)
        × (v.port ≡ s.port)
        × (v.app.mcp.transport_security ≡ build_transport_security s.allowed_hosts)
        × IsReady x v.app.mcp.context
        × (v.app.mcp.context.settings ≡ s)
        × (v.app.mcp.context.registry ≡ r)
        × (1 ≤ v.app.mcp.context.bouncer.tool_sem)
        × (1 ≤ v.app.mcp.context.bouncer.cli_sem)
  unfolding main
  main_starts i s r settings logging registry dir all =
      let (c, built, ready, same, registry', tools, clis, _) =
        build_context-IsReady x i s r settings logging registry dir all in
      let given : build_context x i (some s) ≡ ok c =
        sym (build_context-loaded i s settings) ∙ built in
      (
        record {
          app = record {
            mcp = create_mcp c;
            routes =
                record {
                  path = codes "/health";
                  methods = some (codes "GET" ∷ []);
                  endpoint = health_endpoint;
                }
                ∷ record { path = codes "/"; methods = none; endpoint = mcp_endpoint }
                ∷ [];
            correlation_ids = true;
          };
          listens_on = codes "0.0.0.0";
          port = s.port;
          log_level = lower x.unicode s.log_level;
        },
        rw (settings, given, main) refl,
        refl,
        ap (λ (v : Settings h). build_transport_security v.allowed_hosts) same,
        ready,
        same,
        registry',
        tools,
        clis,
      )
