-- ===== src/Server/Calls/View.antt =====
-- The system of calls seen from the semaphores: their abstract server.
use devops_agent_msk_mcp.Base.{
  ℕ, ◌≤◌, ℤ, Text, map, Option, some, get_elem?, set-same, map-set, map-append_one, get_elem?-map,
  ◌≡◌, ◌⊎◌, inl, inr, ap, sym, ◌∙◌,
}
use mathlib.Core.Path.{subst}
use devops_agent_msk_mcp.Base.Int.{pos_part}
use devops_agent_msk_mcp.Bouncer
use devops_agent_msk_mcp.Bouncer.{Phase, Server, new_bouncer}
use devops_agent_msk_mcp.Bouncer.Laws.{tool_slots, cli_slots, total, Reach-bounds}
use devops_agent_msk_mcp.Config.{Host}
use devops_agent_msk_mcp.Errors.{ok}
use devops_agent_msk_mcp.Server.{Outside, AppContext}
use devops_agent_msk_mcp.Server.Dispatch.{Request}
use devops_agent_msk_mcp.Server.Calls.{
  Stage, waiting, running, begun, queued, in_cli, ran, over, cancelled, abandoned, Call, call,
  System, start, advance, At, Work, acquire_tool, begin, call_cli, acquire_cli, release_cli, answer,
  answer_cli, Cancel, cancel_waiting, cancel_running, cancel_begun, cancel_queued, cancel_in_cli,
  abandon, cancel_ran, Step, arrive, work, cancel, Reach, here, next,
}
use devops_agent_msk_mcp.Tools.Acls.{ResourceTypes}

module _ {h : Host} {t : ResourceTypes} {Client : Type 0} (x : Outside h t Client) where
  abbrev pub phase : Stage x → Phase
  phase waiting = Phase.waiting
  phase running = Phase.running
  phase (begun d) = Phase.running
  phase (queued d) = Phase.queued
  phase (in_cli d) = Phase.in_cli
  phase (ran d) = Phase.running
  phase (over r) = Phase.finished
  phase cancelled = Phase.finished
  phase (abandoned d) = Phase.finished

  abbrev pub phase_of : Call x → Phase
  phase_of c = phase c.stage

  abbrev pub view : System x → Server
  view s = record { bouncer = s.bouncer; tasks = map phase_of s.calls }

  -- The abstract step of an advance.
  seen_advance :
      (s : System x) (i : ℕ) (c : Call x) (tools clis : ℕ)
      → view (advance x s i c tools clis) ≡ Bouncer.move (view s) i (phase_of c) tools clis
  seen_advance s i c tools clis =
      ap (λ l. record { bouncer = record { tool_sem = tools; cli_sem = clis }; tasks = l })
        (map-set phase_of s.calls i c)

  -- A step of the abstract server, or none.
  abbrev Seen : System x → System x → Type 0
  Seen s u = Bouncer.Step (view s) (view u) ⊎ (view u ≡ view s)

  -- Where a call stands, seen abstractly, and what an advance makes of it.
  in_phase :
      (s : System x) (i : ℕ) (cid : Option Text) (q : Request) (st : Stage x)
      → At x s i cid q st
      → get_elem? (view s).tasks i ≡ some (phase st)
  in_phase s i cid q st at = get_elem?-map phase_of s.calls i (call x cid q st) at

  moved :
      (s u : System x) (i : ℕ) (cid : Option Text) (q : Request) (st : Stage x) (tools clis : ℕ)
      → u ≡ advance x s i (call x cid q st) tools clis
      → view u ≡ Bouncer.move (view s) i (phase st) tools clis
  moved s u i cid q st tools clis e = ap view e ∙ seen_advance s i (call x cid q st) tools clis

  Work-Seen : {s u : System x} → Work x s u → Seen s u
  Work-Seen {s = s} {u = u} (acquire_tool i n cid q at free e) = inl (
      Bouncer.work (
        Bouncer.acquire_tool i n (in_phase s i cid q waiting at) free
          (moved s u i cid q running _ _ e)))
  Work-Seen {s = s} {u = u} (begin i cid q at e) = inr (
      ap view e
      ∙ ap (λ l. record { bouncer = s.bouncer; tasks = l })
          (map-set phase_of s.calls i _
            ∙ set-same (map phase_of s.calls) i Phase.running (in_phase s i cid q running at)))
  Work-Seen {s = s} {u = u} (call_cli i cid q d at some_cli e) = inl (
      Bouncer.work
        (Bouncer.call_cli i (in_phase s i cid q (begun d) at) (moved s u i cid q (queued d) _ _ e)))
  Work-Seen {s = s} {u = u} (acquire_cli i n cid q d at free e) = inl (
      Bouncer.work (
        Bouncer.acquire_cli i n (in_phase s i cid q (queued d) at) free
          (moved s u i cid q (in_cli d) _ _ e)))
  Work-Seen {s = s} {u = u} (release_cli i cid q d at e) = inl (
      Bouncer.work (
        Bouncer.release_cli i (in_phase s i cid q (in_cli d) at) (moved s u i cid q (ran d) _ _ e)))
  Work-Seen {s = s} {u = u} (answer i cid q d at no_cli e) = inl (
      Bouncer.work (
        Bouncer.release_tool i (in_phase s i cid q (begun d) at)
          (moved s u i cid q (over d.reply) _ _ e)))
  Work-Seen {s = s} {u = u} (answer_cli i cid q d at e) = inl (
      Bouncer.work (
        Bouncer.release_tool i (in_phase s i cid q (ran d) at)
          (moved s u i cid q (over d.reply) _ _ e)))

  Cancel-Seen : {s u : System x} → Cancel x s u → Bouncer.Cancel (view s) (view u)
  Cancel-Seen {s = s} {u = u} (cancel_waiting i cid q at e) =
      Bouncer.cancel_waiting i (in_phase s i cid q waiting at) (moved s u i cid q cancelled _ _ e)
  Cancel-Seen {s = s} {u = u} (cancel_running i cid q at e) =
      Bouncer.cancel_running i (in_phase s i cid q running at) (moved s u i cid q cancelled _ _ e)
  Cancel-Seen {s = s} {u = u} (cancel_begun i cid q d at e) =
      Bouncer.cancel_running i (in_phase s i cid q (begun d) at) (moved s u i cid q cancelled _ _ e)
  Cancel-Seen {s = s} {u = u} (cancel_queued i cid q d at e) =
      Bouncer.cancel_queued i (in_phase s i cid q (queued d) at) (moved s u i cid q cancelled _ _ e)
  Cancel-Seen {s = s} {u = u} (cancel_in_cli i cid q d at e) =
      Bouncer.cancel_in_cli i (in_phase s i cid q (in_cli d) at) (moved s u i cid q cancelled _ _ e)
  Cancel-Seen {s = s} {u = u} (abandon i cid q d argv p at ran_one lives e) =
      Bouncer.cancel_in_cli i (in_phase s i cid q (in_cli d) at)
        (moved s u i cid q (abandoned d) _ _ e)
  Cancel-Seen {s = s} {u = u} (cancel_ran i cid q d at e) =
      Bouncer.cancel_running i (in_phase s i cid q (ran d) at) (moved s u i cid q cancelled _ _ e)

  -- Each step of the calls is one of the semaphores' server, or is not seen by it.
  pub Step-Seen : {s u : System x} → Step x s u → Seen s u
  Step-Seen {s = s} (arrive cid q e) = inl (
      Bouncer.arrive (
        ap view e
        ∙ ap (λ l. record { bouncer = s.bouncer; tasks = l }) (map-append_one phase_of s.calls _)))
  Step-Seen (work w) = Work-Seen w
  Step-Seen (cancel c) = inl (Bouncer.cancel (Cancel-Seen c))

  -- Every run of the calls is, as the semaphores see it, a run of their server.
  pub view-Reach :
      (c : AppContext x) {s : System x}
      → Reach x (start x c) s
      → Bouncer.Reach (Bouncer.start c.bouncer) (view s)
  view-Reach c here = Bouncer.here
  view-Reach c (next {u = u} {v = v} r st) = elim (Step-Seen st) [
    | inl seen ↦ Bouncer.next (view-Reach c r) seen
    | inr same ↦ subst (Bouncer.Reach (Bouncer.start c.bouncer)) (sym same) (view-Reach c r)
  ]

  -- Whatever calls of tools run at once over the context of a server: at most as many hold a slot as the
  -- tool limit says, and at most as many start or wait for a subprocess as the CLI limit says.
  pub Reach-bounded :
      (tool_limit cli_limit : ℤ) (c : AppContext x)
      → new_bouncer tool_limit cli_limit ≡ ok c.bouncer
      → (s : System x) → Reach x (start x c) s
      → (total tool_slots (map phase_of s.calls) ≤ pos_part tool_limit)
        × (total cli_slots (map phase_of s.calls) ≤ pos_part cli_limit)
  Reach-bounded tool_limit cli_limit c made s r =
      Reach-bounds tool_limit cli_limit c.bouncer made (view-Reach c r)
