-- ===== src/Tests/Orphans.antt =====
-- Subprocesses that are left behind.
use devops_agent_msk_mcp.Base.{
  int, leb_ℤ, list_beq, text_leb, Text, codes, List, [], ◌∷◌, none, ◌≡◌, refl, sym, ◌∙◌, arith,
}
use mathlib.Core.Path.{subst}
use devops_agent_msk_mcp.Base.Dict
use devops_agent_msk_mcp.Base.Sort.{sort_by}
use devops_agent_msk_mcp.Bouncer.{new_bouncer}
use devops_agent_msk_mcp.ClientProperties.{
  write, stored, new_manager, render_one, render_all, render, get_path,
}
use devops_agent_msk_mcp.CliExecutor.{Process, exceeded, gone, started}
use devops_agent_msk_mcp.Config.{load_registry, load_settings, ids, parse_csv, get}
use devops_agent_msk_mcp.Errors.{ok, ok_injective}
use devops_agent_msk_mcp.KafkaClients.{Conf}
use devops_agent_msk_mcp.Server.{Outside, AppContext, build_context}
use devops_agent_msk_mcp.Server.Calls.{System, start, Reach}
use devops_agent_msk_mcp.Server.Calls.Orphans.{orphans, Reach-orphans}
use devops_agent_msk_mcp.Server.Correlation.{outside_with, moved}
use devops_agent_msk_mcp.Server.Dispatch.{perform, setup_of}
use devops_agent_msk_mcp.Server.Laws.{IsReady}
use devops_agent_msk_mcp.Server.Startup.{build_context-IsReady}
use devops_agent_msk_mcp.Tests.Registry.{host, loaded-ok}
use devops_agent_msk_mcp.Tests.Registry
use devops_agent_msk_mcp.Tests.Samples.{registry}
use devops_agent_msk_mcp.Tests.Server.{
  types, outside, inputs, registry-loads, context, ask_log_dirs,
}
use devops_agent_msk_mcp.Tools.LogDirs.{describe_log_dirs, log_dirs_argv}
use devops_agent_msk_mcp.Tools.Cli.{cli_call}

-- A process that does not end by itself.
abbrev endless : Process
endless = exceeded gone

abbrev busy : Outside host types Conf
busy = outside_with outside (λ argv env. started endless)

abbrev busy_context : AppContext busy
busy_context = moved outside (λ argv env. started endless) context

busy_context-starts : build_context busy inputs none ≡ ok busy_context
unfolding codes build_context load_settings load_registry list_beq text_leb int leb_ℤ parse_csv
    Dict.lookup Dict.keys new_manager render_one render_all render get ids new_bouncer write stored
    sort_by
busy_context-starts = refl

busy_context-IsReady : IsReady busy busy_context
busy_context-IsReady =
    let built =
      build_context-IsReady busy inputs Registry.loaded registry loaded-ok refl registry-loads refl
        (λ k c g. (refl, refl, refl)) in
    subst (IsReady busy) (ok_injective (sym built.1 ∙ busy_context-starts)) built.2

abbrev argv : List Text
argv =
    log_dirs_argv (setup_of busy busy_context none) none (codes "b-1:9098")
      (codes "/tmp/msk-mcp/prod.properties")

runs : (perform busy busy_context none ask_log_dirs).executed ≡ argv ∷ []
unfolding codes perform describe_log_dirs cli_call get get_path Dict.lookup list_beq log_dirs_argv
    write Dict.insert
runs = refl

Reach-orphans_example :
    (s : System busy) × Reach busy (start busy busy_context) s
    × (s.bouncer.tool_sem ≡ busy_context.bouncer.tool_sem)
    × (s.bouncer.cli_sem ≡ busy_context.bouncer.cli_sem)
    × (orphans busy s.calls ≡ 9)
Reach-orphans_example =
    Reach-orphans busy busy_context busy_context-IsReady none ask_log_dirs argv endless runs refl
      (omega arith) (omega arith) 9
