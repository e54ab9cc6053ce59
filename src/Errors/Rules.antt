-- ===== src/Errors/Rules.antt =====
-- An ordered table of patterns: an independent account of how an error's text is classified.
use devops_agent_msk_mcp.Base.{Text, any_in, List, [], ◌∷◌, if◌then◌else◌}
use devops_agent_msk_mcp.Errors.{ErrorType, execution_failure}

-- The first rule one of whose patterns is in the text decides.
unfoldable pub first_rule : List (List Text × ErrorType) → Text → ErrorType
first_rule [] text = execution_failure
first_rule ((patterns, t) ∷ rules) text =
    let rest = first_rule rules text in if any_in patterns text then t else rest
