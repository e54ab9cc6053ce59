-- ===== src/Tests/ResetPlan.antt =====
-- The offset reset planner.
use devops_agent_msk_mcp.Base.{
  ℤ, pos, int, show_ℤ, Text, codes, find, behind_last, split, length, is_alnum, is_space, text_leb,
  elem, list_beq, join, text_eq, true, [], ◌∷◌, map, Option, none, some, ◌≡◌, ◌≢◌, refl, All, arith,
}
use mathlib.Core.List.{cons-ne-nil}
use devops_agent_msk_mcp.Base.Dict
use devops_agent_msk_mcp.Base.Sort.{sort_by, IsSorted}
use devops_agent_msk_mcp.Base.Strings.Laws.{IsGap, spread}
use devops_agent_msk_mcp.ClientProperties.{get_path, render}
use devops_agent_msk_mcp.CliExecutor.{started, finished, run}
use devops_agent_msk_mcp.Config.{get}
use devops_agent_msk_mcp.Errors.{ok, err, tool_error, plain_error, invalid_params}
use devops_agent_msk_mcp.Tests.Registry.{fs}
use devops_agent_msk_mcp.Tests.Samples.{registry, ascii, manager}
use devops_agent_msk_mcp.Tools.Cli.{Setup}
use devops_agent_msk_mcp.Tools.ResetPlan.{Params, Plan, request, plan_of, compute_offset_reset_plan}
use devops_agent_msk_mcp.Tools.ResetPlan.Laws.{IsRemedy, compute_offset_reset_plan-IsRemedy}
use devops_agent_msk_mcp.Tools.ResetPlan.Argv.{
  build_argv, validate_strategy, valid_strategies, missing_value,
}
use devops_agent_msk_mcp.Tools.ResetPlan.Parse.{Layout, row_leb, parse_plan}
use devops_agent_msk_mcp.Tools.ResetPlan.Parse.Laws.{parse_plan_sound, IsPrinted}
use devops_agent_msk_mcp.Tools.ResetPlan.Parse.Table.{
  Line, IsLine, row_of, output, up_to_header, header, cells, parse_plan-output,
}
use devops_agent_msk_mcp.Tools.ResetPlan.Quote.{command_line}
use devops_agent_msk_mcp.Tools.ResetPlan.Quote.Laws.{shell_words, gap, shell_words-command_line}

abbrev line : Line
line = record {
  group = codes "g";
  topic = codes "orders";
  partition = pos 1;
  new_offset = pos 42;
  gap₁ = codes " ";
  gap₂ = codes "  ";
  gap₃ = codes " ";
  gap₄ = codes " ";
}

abbrev line₀ : Line
line₀ = record line { partition = pos 0; new_offset = pos 7 }

-- A log line, then the header and two rows on one line.
abbrev printed : Text
printed =
    output (codes "[WARN] x\n") (codes " ") (codes " ") (codes " ") (codes " ") (line ∷ line₀ ∷ [])

line-IsLine : IsLine ascii line
unfolding codes is_space
line-IsLine = record {
  group_word = (cons-ne-nil _ _, ground arith);
  topic_word = (cons-ne-nil _ _, ground arith);
  partition_fits = (omega arith, omega arith);
  offset_fits = (omega arith, omega arith);
  gaps = (
    (cons-ne-nil _ _, ground arith),
    (cons-ne-nil _ _, ground arith),
    (cons-ne-nil _ _, ground arith),
    (cons-ne-nil _ _, ground arith),
  );
}

line₀-IsLine : IsLine ascii line₀
unfolding codes is_space
line₀-IsLine = record {
  group_word = (cons-ne-nil _ _, ground arith);
  topic_word = (cons-ne-nil _ _, ground arith);
  partition_fits = (omega arith, omega arith);
  offset_fits = (omega arith, omega arith);
  gaps = (
    (cons-ne-nil _ _, ground arith),
    (cons-ne-nil _ _, ground arith),
    (cons-ne-nil _ _, ground arith),
    (cons-ne-nil _ _, ground arith),
  );
}

printed-found :
    find printed (codes "NEW-OFFSET")
    ≡ some (length (up_to_header (codes "[WARN] x\n") (codes " ") (codes " ") (codes " ")))
unfolding codes find spread header cells show_ℤ
printed-found = refl

lead-newline : behind_last (codes "[WARN] x\n") b'\n' ≡ length (codes "[WARN] x\n")
unfolding codes behind_last
lead-newline = refl

blank-IsGap : IsGap ascii (codes " ") × All (λ c. c ≢ b'\n') (codes " ")
unfolding codes is_space
blank-IsGap = ((cons-ne-nil _ _, (refl, tt)), (omega arith, tt))

parse_plan-output_example :
    parse_plan ascii printed ≡ ok (sort_by row_leb (map row_of (line ∷ line₀ ∷ [])))
parse_plan-output_example =
    parse_plan-output ascii (codes "[WARN] x\n") (codes " ") (codes " ") (codes " ") (codes " ")
      (line ∷ line₀ ∷ []) printed-found lead-newline (blank-IsGap, (blank-IsGap, (blank-IsGap, tt)))
      blank-IsGap.0 (line-IsLine, (line₀-IsLine, tt))

-- The rows come out in the order of their partitions.
printed_plan : parse_plan ascii printed ≡ ok (row_of line₀ ∷ row_of line ∷ [])
unfolding codes parse_plan spread header cells show_ℤ find behind_last split int sort_by row_leb
    list_beq text_leb
printed_plan = refl

parse_plan_sound_example :
    IsSorted row_leb (row_of line₀ ∷ row_of line ∷ [])
    × All (IsPrinted ascii printed) (row_of line₀ ∷ row_of line ∷ [])
parse_plan_sound_example =
    parse_plan_sound ascii printed (row_of line₀ ∷ row_of line ∷ []) printed_plan

abbrev four : Layout
four = record { cols_per_row = 4; partition_idx = 2; new_offset_idx = 3; topic_idx = 1 }

shell_words-command_line_example :
    shell_words gap [] (command_line ascii (codes "it's" ∷ [] ∷ codes "a;b" ∷ []))
    ≡ some (codes "it's" ∷ [] ∷ codes "a;b" ∷ [])
shell_words-command_line_example =
    shell_words-command_line ascii (codes "it's" ∷ [] ∷ codes "a;b" ∷ [])

quoted_line : command_line ascii (codes "it's" ∷ [] ∷ codes "a-b" ∷ []) ≡ codes "'it'\\''s' '' a-b"
unfolding codes command_line is_alnum elem join
quoted_line = refl

abbrev ask : Text → Option ℤ → Params
ask strategy value = record {
  cluster_id = codes "prod";
  group_id = codes "g";
  topic_name = codes "orders";
  reset_strategy = strategy;
  offset_value = value;
}

-- The process prints the table and exits with 0.
abbrev pub setup : Setup
setup = record {
  unicode = ascii;
  repr = λ t. t;
  fs = fs;
  kafka_bin_path = codes "/opt/kafka/bin";
  timeout = codes "30.0";
  classpath = none;
  correlation_id = none;
  environ = [];
  registry = registry;
  world = λ argv env. started (finished printed [] (some (pos 0)) (pos 12));
}

abbrev to_latest : Params
to_latest = ask (codes "to-latest") none

abbrev answered : Plan
answered =
    plan_of setup to_latest
      (request setup to_latest (codes "b-1:9098") (codes "/tmp/msk-mcp/prod.properties"))
      (row_of line₀ ∷ row_of line ∷ [])

answered-ok : (compute_offset_reset_plan setup to_latest manager).result ≡ ok answered
unfolding codes compute_offset_reset_plan build_argv render plan_of validate_strategy elem list_beq
    valid_strategies get Dict.lookup get_path run parse_plan spread header cells show_ℤ find
    behind_last split int sort_by row_leb text_leb
answered-ok = refl

compute_offset_reset_plan-IsRemedy_example :
    IsRemedy setup to_latest (compute_offset_reset_plan setup to_latest manager).executed answered
compute_offset_reset_plan-IsRemedy_example =
    compute_offset_reset_plan-IsRemedy setup to_latest manager answered answered-ok

no_value :
    validate_strategy (λ t. t) (codes "shift-by") none
    ≡ err (tool_error (plain_error invalid_params (missing_value (codes "shift-by"))))
unfolding codes validate_strategy elem list_beq valid_strategies
no_value = refl

shift_by-valid : elem (codes "shift-by") valid_strategies ≡ true
unfolding codes elem list_beq valid_strategies
shift_by-valid = refl

not_ok : validate_strategy (λ t. t) (codes "shift-by") none ≢ ok tt
unfolding codes validate_strategy elem list_beq valid_strategies
not_ok h = cc
