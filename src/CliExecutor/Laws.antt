-- ===== src/CliExecutor/Laws.antt =====
-- What a run returns, which signals it sends, and the environment that it gives to the process.
use devops_agent_msk_mcp.Base.{
  ℕ, ℤ, pos, join, Bool-cases, inl, inr, ◌↔◌, ap, sym, ◌∙◌, Text, codes, Unicode, List, [], ◌∷◌,
  Option, none, some, ◌≡◌, refl, text_eq, int_eq, ◌==◌, if◌then◌else◌, nat_eq, list_beq,
}
use devops_agent_msk_mcp.Base.Dict
use devops_agent_msk_mcp.Base.Dict.{lookup-insert}
use devops_agent_msk_mcp.Config.{Env, non_empty}
use devops_agent_msk_mcp.Errors.{ok, ok_injective}
use devops_agent_msk_mcp.CliExecutor.{
  CliResult, Spawn, file_not_found, permission_denied, spawn_error, started, finished, exceeded,
  child_env, class_path, conclude, after_spawn, run, exit_code,
}

-- The run of a process that ends in time with the known exit code 0, and its result.
abbrev pub IsSuccess : Spawn → CliResult → Type 0
IsSuccess s r =
    (out : List ℕ) × (errors : List ℕ) × (millis : ℤ) × (s
      ≡ started (finished out errors (some (pos 0)) millis))
    × (r ≡ record { returncode = pos 0; stdout = out; stderr = errors; duration_ms = millis })

exit_code-zero : (code : Option ℤ) → exit_code code ≡ pos 0 → code ≡ some (pos 0)
unfolding exit_code
exit_code-zero none e = cc
exit_code-zero (some z) e = ap some e

module _ (u : Unicode) (classpath : Option Text) (world : List Text → Env → Spawn) where
  conclude-ok :
      (c r : CliResult) (argv : List Text)
      → conclude u c argv ≡ ok r
      → (c.returncode ≡ pos 0) × (r ≡ c)
  unfolding conclude
  conclude-ok c r argv h = elim (Bool-cases (c.returncode == pos 0)) [
    | inl e ↦ ((int_eq.beq_iff c.returncode (pos 0)).0 e, ok_injective (sym (rw e at h)))
    | inr e ↦ cc (rw e at h)
  ]

  after_spawn-ok :
      (s : Spawn) (argv : List Text) (name seconds : Text) (r : CliResult)
      → (after_spawn u argv name seconds s).1 ≡ ok r
      → IsSuccess s r × ((after_spawn u argv name seconds s).0 ≡ [])
  unfolding after_spawn
  after_spawn-ok file_not_found argv name seconds r h = cc
  after_spawn-ok (permission_denied e) argv name seconds r h = cc
  after_spawn-ok (spawn_error e) argv name seconds r h = cc
  after_spawn-ok (started (finished out errors code millis)) argv name seconds r h =
      let c : CliResult = record {
        returncode = exit_code code;
        stdout = out;
        stderr = errors;
        duration_ms = millis;
      } in
      let (zero_code, same) = conclude-ok c r argv h in
      (
        (
          out,
          errors,
          millis,
          ap (λ k. started (finished out errors k millis)) (exit_code-zero code zero_code),
          same
              ∙ ap
                  (λ k. record {
                    returncode = k;
                    stdout = out;
                    stderr = errors;
                    duration_ms = millis;
                  })
                  zero_code,
        ),
        refl,
      )
  after_spawn-ok (started (exceeded t)) argv name seconds r h = cc

  returned :
      (s : Spawn) (argv : List Text) (name seconds : Text) (r : CliResult)
      → IsSuccess s r
      → (after_spawn u argv name seconds s).1 ≡ ok r
  unfolding after_spawn conclude exit_code
  returned s argv name seconds r (out, errors, millis, e, same) = rw (e, same) refl

  -- A run returns a result exactly if its process was started, in the environment of the child, ended in
  -- time, and has the exit code 0, which is known; the result is then the process's output, its code and
  -- its duration, and no signal was sent.
  pub run-ok :
      (name : Text) (args : List Text) (seconds : Text) (cid : Option Text) (environ : Env)
      (r : CliResult)
      → let spawn = world (name ∷ args) (child_env classpath cid environ) in
        let ran = run u classpath world (name ∷ args) seconds cid environ in
        ((ran.1 ≡ ok r) ↔ IsSuccess spawn r) × (ran.1 ≡ ok r → ran.0 ≡ [])
  unfolding run
  run-ok name args seconds cid environ r =
      let spawn = world (name ∷ args) (child_env classpath cid environ) in
      let ends = after_spawn-ok spawn (name ∷ args) name seconds r in
      (
        ((λ h. (ends h).0), (λ success. returned spawn (name ∷ args) name seconds r success)),
        (λ h. (ends h).1),
      )

-- The class path of the settings, a colon, and the inherited one, if that is not empty.
abbrev pub joined : Text → Option Text → Text
joined own inherited = elim (non_empty inherited) [
  | none ↦ own
  | some theirs ↦ join (codes ":") (own ∷ theirs ∷ [])
]

-- A variable's value in the subprocess: the class path of the settings in front of the inherited
-- one, the correlation id, and otherwise what the server's own environment holds.
abbrev pub env_value : Option Text → Option Text → Env → Text → Option Text
env_value none none environ k = Dict.lookup k environ
env_value none (some cid) environ k =
    if k == codes "MSK_MCP_CID" then some cid else Dict.lookup k environ
env_value (some own) none environ k =
    if k == codes "CLASSPATH"
    then some (joined own (Dict.lookup (codes "CLASSPATH") environ))
    else Dict.lookup k environ
env_value (some own) (some cid) environ k =
    if k == codes "CLASSPATH"
    then some (joined own (Dict.lookup (codes "CLASSPATH") environ))
    else if k == codes "MSK_MCP_CID"
    then some cid
    else Dict.lookup k environ

class_path-joined :
    (own : Text) (inherited : Option Text) → class_path own inherited ≡ joined own inherited
unfolding join
class_path-joined own none = refl
class_path-joined own (some []) = refl
class_path-joined own (some (c ∷ theirs)) = refl

class_path_not_cid :
    (cid : Text) (environ : Env)
    → Dict.lookup (codes "CLASSPATH") (Dict.insert (codes "MSK_MCP_CID") cid environ)
      ≡ Dict.lookup (codes "CLASSPATH") environ
class_path_not_cid cid environ =
    rw (lookup-insert (codes "CLASSPATH") (codes "MSK_MCP_CID") cid environ)
      (unfold codes list_beq in refl)

-- Every variable of the subprocess's environment has that value; an empty class path or an empty
-- correlation id counts as none.
pub lookup-child_env :
    (classpath cid : Option Text) (environ : Env) (k : Text)
    → Dict.lookup k (child_env classpath cid environ)
      ≡ env_value (non_empty classpath) (non_empty cid) environ k
unfolding child_env
lookup-child_env none none environ k = refl
lookup-child_env none (some []) environ k = refl
lookup-child_env none (some (c ∷ cid)) environ k = lookup-insert k _ (c ∷ cid) environ
lookup-child_env (some []) none environ k = refl
lookup-child_env (some []) (some []) environ k = refl
lookup-child_env (some []) (some (c ∷ cid)) environ k = lookup-insert k _ (c ∷ cid) environ
lookup-child_env (some (o ∷ own)) none environ k = rw (lookup-insert, class_path-joined)
lookup-child_env (some (o ∷ own)) (some []) environ k = rw (lookup-insert, class_path-joined)
lookup-child_env (some (o ∷ own)) (some (c ∷ cid)) environ k =
    rw (lookup-insert, class_path_not_cid, class_path-joined, lookup-insert)
