-- ===== src/Tools/ResetPlan/Laws.antt =====
-- `compute_offset_reset_plan`: what is run, and what is handed to the human.
use devops_agent_msk_mcp.Base.{Text, codes, true, false, List, [], ◌∷◌, ◌++◌, some, ◌≡◌, refl, All}
use mathlib.Core.Path.{subst, sym}
use devops_agent_msk_mcp.ClientProperties.{Manager}
use devops_agent_msk_mcp.Errors.{Result, ok, err, Raised, ok_injective, ◌>>=◌}
use devops_agent_msk_mcp.Tools.Cli.{Setup}
use devops_agent_msk_mcp.Tools.Cli.Laws.{All-cli_call, cli_call-IsAnswer}
use devops_agent_msk_mcp.Tools.ResetPlan.{
  Params, Plan, request, plan_of, dry_argv, after_run, validated, compute_offset_reset_plan,
}
use devops_agent_msk_mcp.Tools.ResetPlan.Argv.{Request, build_argv, validate_strategy}
use devops_agent_msk_mcp.Tools.ResetPlan.Argv.Laws.{common_args, build_argv-common_args}
use devops_agent_msk_mcp.Tools.ResetPlan.Parse.{Row, parse_plan}
use devops_agent_msk_mcp.Tools.ResetPlan.Quote.Laws.{shell_words, gap, shell_words-command_line}

-- A command line that ends in `--dry-run`.
abbrev pub IsDryRun : List Text → Type 0
IsDryRun argv = (front : List Text) × (argv ≡ front ++ (codes "--dry-run" ∷ []))

module _ (w : Setup) (p : Params) where
  validated-IsDryRun :
      (m : Manager) (r : Result (Unit {0})) → All IsDryRun (validated w p m r).executed
  validated-IsDryRun m (err e) = tt
  validated-IsDryRun m (ok _) =
      All-cli_call w p.cluster_id (dry_argv w p) (after_run w p) IsDryRun
        (λ servers path.
          let r = request w p servers path in (common_args r, (build_argv-common_args r).0))
        m

  -- Whatever the caller asks for and however the call ends, each command line that is handed to the
  -- executor ends in `--dry-run`.
  pub compute_offset_reset_plan-IsDryRun :
      (m : Manager) → All IsDryRun (compute_offset_reset_plan w p m).executed
  unfolding compute_offset_reset_plan
  compute_offset_reset_plan-IsDryRun m =
      validated-IsDryRun m (validate_strategy w.repr p.reset_strategy p.offset_value)

  -- What the answer says of the commands.
  abbrev pub IsRemedy : List (List Text) → Plan → Type 0
  IsRemedy executed plan =
      (common : List Text) × (executed ≡ (common ++ (codes "--dry-run" ∷ [])) ∷ [])
      × (shell_words gap [] plan.remediation_command ≡ some (common ++ (codes "--execute" ∷ [])))
      × (plan.dry_run ≡ true)

  plan_of-IsRemedy :
      (r : Request) (rows : List Row) → IsRemedy (build_argv r false ∷ []) (plan_of w p r rows)
  unfolding plan_of
  plan_of-IsRemedy r rows =
      let (dry, real) = build_argv-common_args r in
      (common_args r, rw dry, rw (shell_words-command_line w.unicode, real), refl)

  finish-IsRemedy :
      (r : Request) (parsed : Result (List Row)) (plan : Plan)
      → (parsed >>= λ rows. ok (plan_of w p r rows)) ≡ ok plan
      → IsRemedy (build_argv r false ∷ []) plan
  finish-IsRemedy r (err e) plan h = cc
  finish-IsRemedy r (ok rows) plan h =
      subst (IsRemedy (build_argv r false ∷ [])) (ok_injective h) (plan_of-IsRemedy r rows)

  validated-IsRemedy :
      (m : Manager) (r : Result (Unit {0})) (plan : Plan)
      → (validated w p m r).result ≡ ok plan
      → IsRemedy (validated w p m r).executed plan
  validated-IsRemedy m (err e) plan h = cc
  validated-IsRemedy m (ok _) plan h =
      let (servers, path, c, ran, made) =
        cli_call-IsAnswer w p.cluster_id (dry_argv w p) (after_run w p) m plan h in
      subst (λ l. IsRemedy l plan) (sym ran)
        (finish-IsRemedy (request w p servers path)
          (parse_plan w.unicode (w.unicode.decode c.stdout)) plan made)

  -- An answer comes from one run, of some arguments and `--dry-run`; a POSIX shell reads the
  -- remediation command as the same arguments and `--execute`; and `dry_run` is true.
  pub compute_offset_reset_plan-IsRemedy :
      (m : Manager) (plan : Plan)
      → (compute_offset_reset_plan w p m).result ≡ ok plan
      → IsRemedy (compute_offset_reset_plan w p m).executed plan
  unfolding compute_offset_reset_plan
  compute_offset_reset_plan-IsRemedy m plan h =
      validated-IsRemedy m (validate_strategy w.repr p.reset_strategy p.offset_value) plan h

  -- A request that does not pass the check of its strategy runs nothing and changes nothing, and the
  -- check's error is the outcome.
  pub compute_offset_reset_plan-rejected :
      (m : Manager) (e : Raised)
      → validate_strategy w.repr p.reset_strategy p.offset_value ≡ err e
      → compute_offset_reset_plan w p m
        ≡ record { result = err e; manager = m; executed = []; signals = [] }
  unfolding compute_offset_reset_plan
  compute_offset_reset_plan-rejected m e h = rw h
