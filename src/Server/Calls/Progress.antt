-- ===== src/Server/Calls/Progress.antt =====
-- Which calls of a server can go on.
use devops_agent_msk_mcp.Base.{
  ℕ, ◌≤◌, Text, List, [], ◌∷◌, Option, some, get_elem?, get_elem?-of_map, ◌≡◌, ◌≢◌, ◌⊎◌, inl, inr,
  refl, sym, arith,
}
use mathlib.Core.Path.{subst}
use mathlib.Core.List.{cons-ne-nil}
use devops_agent_msk_mcp.Bouncer
use devops_agent_msk_mcp.Bouncer.{Phase}
use devops_agent_msk_mcp.Bouncer.Laws.{tool_slots, cli_slots, IsBalanced}
use devops_agent_msk_mcp.Bouncer.Progress.{holder, predecessor}
use devops_agent_msk_mcp.Config.{Host}
use devops_agent_msk_mcp.Server.{Outside}
use devops_agent_msk_mcp.Server.Dispatch.{Request, Served}
use devops_agent_msk_mcp.Server.Calls.{
  Stage, waiting, running, begun, queued, in_cli, ran, over, cancelled, abandoned, System, At, Work,
  acquire_tool, begin, call_cli, acquire_cli, release_cli, answer, answer_cli,
}
use devops_agent_msk_mcp.Server.Calls.View.{phase, phase_of, view}
use devops_agent_msk_mcp.Tools.Acls.{ResourceTypes}

module _ {h : Host} {t : ResourceTypes} {Client : Type 0} (x : Outside h t Client) where
  abbrev pub CanWork : System x → Type 0
  CanWork s = (u : System x) × Work x s u

  runs_any : (l : List (List Text)) → (l ≡ []) ⊎ (l ≢ [])
  runs_any [] = inl refl
  runs_any (a ∷ l) = inr (cons-ne-nil _ _)

  -- A call of a phase.
  call_in_phase :
      (s : System x) (i : ℕ) (p : Phase)
      → get_elem? (view x s).tasks i ≡ some p
      → (cid : Option Text) × (q : Request) × (st : Stage x) × At x s i cid q st × (phase x st ≡ p)
  call_in_phase s i p at =
      let (k, there, e) = get_elem?-of_map (phase_of x) s.calls i p at in
      (k.cid, k.request, k.stage, there, e)

  module _ (b : Bouncer.Bouncer) (s : System x) (balanced : IsBalanced b (view x s)) where
    ends_cli :
        (i : ℕ) (cid : Option Text) (q : Request) (st : Stage x)
        → At x s i cid q st
        → 1 ≤ cli_slots (phase x st)
        → CanWork s
    ends_cli i cid q (in_cli d) at h = (_, release_cli i cid q d at refl)
    ends_cli i cid q waiting at h = absurd (omega arith)
    ends_cli i cid q running at h = absurd (omega arith)
    ends_cli i cid q (begun d) at h = absurd (omega arith)
    ends_cli i cid q (queued d) at h = absurd (omega arith)
    ends_cli i cid q (ran d) at h = absurd (omega arith)
    ends_cli i cid q (over r) at h = absurd (omega arith)
    ends_cli i cid q cancelled at h = absurd (omega arith)
    ends_cli i cid q (abandoned d) at h = absurd (omega arith)

    passes_queue :
        (i : ℕ) (cid : Option Text) (q : Request) (d : Served x)
        → 1 ≤ b.cli_sem
        → At x s i cid q (queued d)
        → CanWork s
    passes_queue i cid q d limit at = elim (predecessor s.bouncer.cli_sem) [
      | inr (n, free) ↦ (_, acquire_cli i n cid q d at free refl)
      | inl full ↦
          let (j, p, there, held) = holder cli_slots (view x s).tasks (omega arith) in
          let (cid', q', st, at', e) = call_in_phase s j p there in
          ends_cli j cid' q' st at' (subst (λ r. 1 ≤ cli_slots r) (sym e) held)
    ]

    ends_tool :
        (i : ℕ) (cid : Option Text) (q : Request) (st : Stage x)
        → 1 ≤ b.cli_sem
        → At x s i cid q st
        → 1 ≤ tool_slots (phase x st)
        → CanWork s
    ends_tool i cid q running limit at h = (_, begin i cid q at refl)
    ends_tool i cid q (begun d) limit at h = elim (runs_any d.executed) [
      | inl no_cli ↦ (_, answer i cid q d at no_cli refl)
      | inr some_cli ↦ (_, call_cli i cid q d at some_cli refl)
    ]
    ends_tool i cid q (queued d) limit at h = passes_queue i cid q d limit at
    ends_tool i cid q (in_cli d) limit at h = (_, release_cli i cid q d at refl)
    ends_tool i cid q (ran d) limit at h = (_, answer_cli i cid q d at refl)
    ends_tool i cid q waiting limit at h = absurd (omega arith)
    ends_tool i cid q (over r) limit at h = absurd (omega arith)
    ends_tool i cid q cancelled limit at h = absurd (omega arith)
    ends_tool i cid q (abandoned d) limit at h = absurd (omega arith)

    passes_door :
        (i : ℕ) (cid : Option Text) (q : Request)
        → 1 ≤ b.tool_sem
        → 1 ≤ b.cli_sem
        → At x s i cid q waiting
        → CanWork s
    passes_door i cid q tools clis at = elim (predecessor s.bouncer.tool_sem) [
      | inr (n, free) ↦ (_, acquire_tool i n cid q at free refl)
      | inl full ↦
          let (j, p, there, held) = holder tool_slots (view x s).tasks (omega arith) in
          let (cid', q', st, at', e) = call_in_phase s j p there in
          ends_tool j cid' q' st clis at' (subst (λ r. 1 ≤ tool_slots r) (sym e) held)
    ]

    pub goes_on :
        (i : ℕ) (cid : Option Text) (q : Request) (st : Stage x)
        → 1 ≤ b.tool_sem
        → 1 ≤ b.cli_sem
        → At x s i cid q st
        → phase x st ≢ Phase.finished
        → CanWork s
    goes_on i cid q waiting tools clis at h = passes_door i cid q tools clis at
    goes_on i cid q running tools clis at h = ends_tool i cid q running clis at (omega arith)
    goes_on i cid q (begun d) tools clis at h = ends_tool i cid q (begun d) clis at (omega arith)
    goes_on i cid q (queued d) tools clis at h = ends_tool i cid q (queued d) clis at (omega arith)
    goes_on i cid q (in_cli d) tools clis at h = ends_tool i cid q (in_cli d) clis at (omega arith)
    goes_on i cid q (ran d) tools clis at h = ends_tool i cid q (ran d) clis at (omega arith)
    goes_on i cid q (over r) tools clis at h = absurd (h refl)
    goes_on i cid q cancelled tools clis at h = absurd (h refl)
    goes_on i cid q (abandoned d) tools clis at h = absurd (h refl)
