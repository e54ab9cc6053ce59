-- ===== src/Server/Correlation.antt =====
-- How the context variable of correlation ids and the settings reach the subprocesses of the tools;
-- src/msk_mcp/server.py with src/msk_mcp/cli_executor.py.
use devops_agent_msk_mcp.Base.{Text, List}
use devops_agent_msk_mcp.CliExecutor.{Spawn}
use devops_agent_msk_mcp.Config.{Env, Host}
use devops_agent_msk_mcp.Server.{Outside, AppContext}
use devops_agent_msk_mcp.Tools.Acls.{ResourceTypes}

module _ {h : Host} {t : ResourceTypes} {Client : Type 0} (x : Outside h t Client)
    (world : List Text → Env → Spawn) where
  -- The same outside, but for its processes.
  abbrev pub outside_with : Outside h t Client
  outside_with = record x { world = world }

  abbrev pub moved : AppContext x → AppContext outside_with
  moved c = record {
    settings = c.settings;
    registry = c.registry;
    factory = c.factory;
    properties = c.properties;
    bouncer = c.bouncer;
    cli_executor = c.cli_executor;
  }
