-- ===== src/Tests/Calls.antt =====
-- Calls of tools that run at once, and the program from its start.
use devops_agent_msk_mcp.Base.{
  ℕ, ◌≤◌, pos, Text, codes, lower, true, some, text_leb, list_beq, leb_ℤ, int, List, [], ◌∷◌, map,
  none, All, Option, text_eq, ◌≡◌, refl,
}
use devops_agent_msk_mcp.Base.Dict
use devops_agent_msk_mcp.Base.Sort.{sort_by}
use devops_agent_msk_mcp.ClientProperties.{
  write, stored, new_manager, render_one, render_all, render,
}
use devops_agent_msk_mcp.Config.{Env, load_registry, load_settings, ids, parse_csv, get}
use devops_agent_msk_mcp.Base.Int.{pos_part}
use devops_agent_msk_mcp.Bouncer.{new_bouncer}
use devops_agent_msk_mcp.Bouncer.Laws.{tool_slots, cli_slots, total}
use devops_agent_msk_mcp.Errors.{ok}
use devops_agent_msk_mcp.Server.{build_context, build_transport_security}
use devops_agent_msk_mcp.Server.App.{
  Running, main, build_app, create_mcp, health_endpoint, mcp_endpoint, main_starts,
}
use devops_agent_msk_mcp.Server.Calls.{
  waiting, running, begun, call, System, start, acquire_tool, begin, Reach, here, next, arrive,
  work,
}
use devops_agent_msk_mcp.Server.Calls.Answers.{Works, ended}
use devops_agent_msk_mcp.Server.Calls.Replies.{IsSound, Reach-IsSound}
use devops_agent_msk_mcp.Server.Calls.View.{phase_of, Reach-bounded}
use devops_agent_msk_mcp.Server.Dispatch.{perform}
use devops_agent_msk_mcp.CliExecutor.{Spawn, file_not_found, permission_denied}
use devops_agent_msk_mcp.Server.Laws.{IsReady}
use devops_agent_msk_mcp.Server.Service.{main_answers, main-OnlyReads}
use devops_agent_msk_mcp.Server.ReadOnly.{IsReadOnly, commands}
use devops_agent_msk_mcp.Tests.Registry
use devops_agent_msk_mcp.Tests.Registry.{loaded-ok}
use devops_agent_msk_mcp.Tests.Samples.{registry}
use devops_agent_msk_mcp.Tests.Server.{
  outside, inputs, registry-loads, context, context-IsReady, ask_cluster, ask_log_dirs,
}

-- A call about a cluster and one of a CLI tool arrive and enter, and the first asks Kafka.
abbrev arrived : System outside
arrived = record (start outside context) {
  calls = call outside none ask_cluster waiting ∷ call outside none ask_log_dirs waiting ∷ [];
}

abbrev entered : System outside
entered = record {
  bouncer = record { tool_sem = 0; cli_sem = 4 };
  context = context;
  calls = call outside none ask_cluster running ∷ call outside none ask_log_dirs running ∷ [];
}

abbrev asked : System outside
asked = record {
  bouncer = record { tool_sem = 0; cli_sem = 4 };
  context = (perform outside context none ask_cluster).context;
  calls =
      call outside none ask_cluster (begun (perform outside context none ask_cluster))
      ∷ call outside none ask_log_dirs running
      ∷ [];
}

asked-reached : Reach outside (start outside context) asked
asked-reached =
    next
      (next
        (next (next (next here (arrive none ask_cluster refl)) (arrive none ask_log_dirs refl))
          (work (acquire_tool 0 1 none ask_cluster refl refl refl)))
        (work (acquire_tool 1 0 none ask_log_dirs refl refl refl)))
      (work (begin 0 none ask_cluster refl refl))

limits : new_bouncer (pos 2) (pos 4) ≡ ok context.bouncer
unfolding new_bouncer
limits = refl

Reach-bounded_example :
    (total tool_slots (map (phase_of outside) asked.calls) ≤ pos_part (pos 2))
    × (total cli_slots (map (phase_of outside) asked.calls) ≤ pos_part (pos 4))
Reach-bounded_example = Reach-bounded outside (pos 2) (pos 4) context limits asked asked-reached

Reach-IsSound_example : IsSound outside context context-IsReady asked
Reach-IsSound_example = Reach-IsSound outside context context-IsReady asked-reached

main_starts_example :
    (v : Running outside) × (main outside inputs ≡ ok v)
    × (v.port ≡ Registry.loaded.port)
    × (v.app.mcp.transport_security ≡ build_transport_security Registry.loaded.allowed_hosts)
    × IsReady outside v.app.mcp.context
    × (v.app.mcp.context.settings ≡ Registry.loaded)
    × (v.app.mcp.context.registry ≡ registry)
    × (1 ≤ v.app.mcp.context.bouncer.tool_sem)
    × (1 ≤ v.app.mcp.context.bouncer.cli_sem)
main_starts_example =
    main_starts outside inputs Registry.loaded registry loaded-ok refl registry-loads refl
      (λ k c g. (refl, refl, refl))

abbrev program : Running outside
program = record {
  app = record {
    mcp = record {
      name = codes "msk-debug";
      transport_security = build_transport_security Registry.loaded.allowed_hosts;
      context = context;
    };
    routes =
        record {
          path = codes "/health";
          methods = some (codes "GET" ∷ []);
          endpoint = health_endpoint;
        }
        ∷ record { path = codes "/"; methods = none; endpoint = mcp_endpoint }
        ∷ [];
    correlation_ids = true;
  };
  listens_on = codes "0.0.0.0";
  port = pos 8080;
  log_level = codes "info";
}

program-runs : main outside inputs ≡ ok program
unfolding codes main build_app create_mcp build_context load_settings load_registry list_beq
    text_leb int leb_ℤ parse_csv Dict.lookup Dict.keys new_manager render_one render_all render get
    ids new_bouncer write stored sort_by lower
program-runs = refl

main_answers_example :
    (ready : IsReady outside context) × (u : System outside) × (n : ℕ) × Works outside asked u n
    × (u.calls ≡ map (ended outside context ready) asked.calls)
main_answers_example = main_answers outside inputs program asked program-runs asked-reached

-- The CLI tool begins too, so that it has a command line.
abbrev both_asked : System outside
both_asked = record {
  bouncer = asked.bouncer;
  context = (perform outside asked.context none ask_log_dirs).context;
  calls =
      call outside none ask_cluster (begun (perform outside context none ask_cluster))
      ∷ call outside none ask_log_dirs (begun (perform outside asked.context none ask_log_dirs))
      ∷ [];
}

both_asked-reached : Reach outside (start outside context) both_asked
both_asked-reached = next asked-reached (work (begin 1 none ask_log_dirs refl refl))

main-OnlyReads_example :
    All
      (λ k.
        All (IsReadOnly program.app.mcp.context.settings.kafka_bin_path) (commands outside k.stage))
      both_asked.calls
main-OnlyReads_example =
    main-OnlyReads outside inputs program both_asked program-runs both_asked-reached

-- Processes that are refused without a correlation id, and not found with one, as in `outside`.
abbrev refused : Option Text → Spawn
refused none = permission_denied (codes "no id")
refused (some cid) = file_not_found

abbrev strict : List Text → Env → Spawn
strict argv env = refused (Dict.lookup (codes "MSK_MCP_CID") env)

abbrev tag : Option Text
tag = some (codes "r1")
