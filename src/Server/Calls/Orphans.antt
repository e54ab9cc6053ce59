-- ===== src/Server/Calls/Orphans.antt =====
-- Subprocesses whose call is cancelled: `run` of src/msk_mcp/cli_executor.py inside `run_tool` of
-- src/msk_mcp/concurrency.py.
use devops_agent_msk_mcp.Base.{
  ℕ, zero, suc, ◌+◌, ◌≤◌, Text, List, [], ◌∷◌, ◌++◌, length, Option, some, get_elem?, set, ◌≡◌, inl,
  inr, refl, ap, sym, ◌∙◌, arith,
}
use mathlib.Core.List.{cons-ne-nil}
use devops_agent_msk_mcp.Bouncer.Progress.{predecessor}
use devops_agent_msk_mcp.CliExecutor.{Process, started, child_env}
use devops_agent_msk_mcp.Config.{Host}
use devops_agent_msk_mcp.Server.{Outside, AppContext}
use devops_agent_msk_mcp.Server.Calls.{
  Stage, waiting, running, begun, queued, in_cli, ran, over, cancelled, abandoned, Call, call,
  System, start, advance, At, acquire_tool, begin, call_cli, acquire_cli, abandon, arrive, work,
  cancel, Reach, here, next,
}
use devops_agent_msk_mcp.Server.Calls.Replies.{Reach-IsSound}
use devops_agent_msk_mcp.Server.Dispatch.{Request, perform}
use devops_agent_msk_mcp.Server.Laws.{IsReady}
use devops_agent_msk_mcp.Server.Replies.{perform-like}
use devops_agent_msk_mcp.Tools.Acls.{ResourceTypes}

some_slot : (n : ℕ) → 1 ≤ n → (m : ℕ) × (n ≡ m + 1)
some_slot n h = elim (predecessor n) [ inl e ↦ absurd (omega arith) | inr found ↦ found ]

get_elem?-append_one {ℓ} :
    {A : Type ℓ} (xs : List A) (a : A) → get_elem? (xs ++ (a ∷ [])) (length xs) ≡ some a
get_elem?-append_one [] a = refl
get_elem?-append_one (x ∷ xs) a = get_elem?-append_one xs a

set-append_one {ℓ} :
    {A : Type ℓ} (xs : List A) (a b : A) → set (xs ++ (a ∷ [])) (length xs) b ≡ xs ++ (b ∷ [])
set-append_one [] a b = refl
set-append_one (x ∷ xs) a b = ap (λ l. x ∷ l) (set-append_one xs a b)

module _ {h : Host} {t : ResourceTypes} {Client : Type 0} (x : Outside h t Client) where
  abbrev pub orphan : Stage x → ℕ
  orphan (abandoned d) = 1
  orphan waiting = 0
  orphan running = 0
  orphan (begun d) = 0
  orphan (queued d) = 0
  orphan (in_cli d) = 0
  orphan (ran d) = 0
  orphan (over r) = 0
  orphan cancelled = 0

  -- The number of subprocesses that were left behind.
  unfoldable pub orphans : List (Call x) → ℕ
  orphans [] = 0
  orphans (k ∷ ks) = orphan k.stage + orphans ks

  orphans-append_one :
      (ks : List (Call x)) (k : Call x) → orphans (ks ++ (k ∷ [])) ≡ orphan k.stage + orphans ks
  unfolding orphans
  orphans-append_one [] k = refl
  orphans-append_one (l ∷ ks) k = omega (arith, orphans-append_one ks k)

  module _ (c : AppContext x) (ready : IsReady x c) (cid : Option Text) (q : Request)
      (argv : List Text) (p : Process) (runs : (perform x c cid q).executed ≡ argv ∷ [])
      (lives : x.world argv (child_env c.cli_executor.classpath cid x.environ) ≡ started p) where
    -- A system with one more call.
    abbrev with_last : System x → AppContext x → ℕ → ℕ → Stage x → System x
    with_last s d tools clis st = record {
      bouncer = record { tool_sem = tools; cli_sem = clis };
      context = d;
      calls = s.calls ++ (call x cid q st ∷ []);
    }

    last_call :
        (s : System x) (d : AppContext x) (tools clis : ℕ) (st : Stage x)
        → At x (with_last s d tools clis st) (length s.calls) cid q st
    last_call s d tools clis st = get_elem?-append_one s.calls (call x cid q st)

    advanced_last :
        (s : System x) (d : AppContext x) (tools clis tools' clis' : ℕ) (st st' : Stage x)
        → with_last s d tools' clis' st'
          ≡ advance x (with_last s d tools clis st) (length s.calls) (call x cid q st') tools' clis'
    advanced_last s d tools clis tools' clis' st st' =
        ap
          (λ l. record {
            bouncer = record { tool_sem = tools'; cli_sem = clis' };
            context = d;
            calls = l;
          })
          (sym (set-append_one s.calls (call x cid q st) (call x cid q st')))

    -- The call arrives, gets as far as its subprocess, and is cancelled there.
    left_behind :
        (n m : ℕ) (s : System x)
        → Reach x (start x c) s
        → s.bouncer.tool_sem ≡ n + 1
        → s.bouncer.cli_sem ≡ m + 1
        → Reach x (start x c) (
            with_last s
              (perform x s.context cid q).context
              (n + 1)
              (m + 1)
              (abandoned (perform x s.context cid q)))
    left_behind n m s r tools clis =
        let d = perform x s.context cid q in
        let like = (Reach-IsSound x c ready r).0 in
        let still : d.executed ≡ argv ∷ [] =
          ap (λ p. p.1) (perform-like x c ready like cid q) ∙ runs in
        let i = length s.calls in
        let r₀ = next r (arrive cid q refl) in
        let k = s.bouncer.cli_sem in
        let r₁ = next r₀ (
          work (
            acquire_tool i n cid q (last_call s s.context s.bouncer.tool_sem k waiting) tools
              (advanced_last s s.context s.bouncer.tool_sem k n k waiting running))) in
        let r₂ = next {v = with_last s d.context n k (begun d)} r₁ (
          work (
            begin i cid q (last_call s s.context n k running)
              (advanced_last s d.context n k n k running (begun d)))) in
        let r₃ = next r₂ (
          work (
            call_cli i cid q d (last_call s d.context n k (begun d))
              (λ e. cons-ne-nil _ _ (sym still ∙ e))
              (advanced_last s d.context n k n k (begun d) (queued d)))) in
        let r₄ = next r₃ (
          work (
            acquire_cli i m cid q d (last_call s d.context n k (queued d)) clis
              (advanced_last s d.context n k n m (queued d) (in_cli d)))) in
        let there =
          ap (λ (o : AppContext x). x.world argv (child_env o.cli_executor.classpath cid x.environ))
            (Reach-IsSound x c ready r₄).0.1
          ∙ lives in
        next r₄ (
          cancel (
            abandon i cid q d argv p (last_call s d.context n m (in_cli d)) still there
              (advanced_last s d.context n m (n + 1) (m + 1) (in_cli d) (abandoned d))))

    leave :
        (n m : ℕ)
        → c.bouncer.tool_sem ≡ n + 1
        → c.bouncer.cli_sem ≡ m + 1
        → (count : ℕ)
        → (s : System x) × Reach x (start x c) s
          × (s.bouncer.tool_sem ≡ n + 1)
          × (s.bouncer.cli_sem ≡ m + 1)
          × (orphans s.calls ≡ count)
    unfolding orphans
    leave n m tools clis zero = (start x c, here, tools, clis, refl)
    leave n m tools clis (suc count) =
        let (s, r, tools', clis', left) = leave n m tools clis count in
        let now =
          orphans-append_one s.calls (call x cid q (abandoned (perform x s.context cid q))) in
        (_, left_behind n m s r tools' clis', refl, refl, now ∙ omega (arith, left))

    -- The limit on subprocesses does not hold for those of cancelled calls. In a ready context with a slot of
    -- each kind, and with a call whose tool runs a command whose process starts: for every number a state
    -- can be reached in which so many processes have been left behind, neither waited for nor terminated,
    -- while both semaphores have as many free slots as at the start.
    pub Reach-orphans :
        1 ≤ c.bouncer.tool_sem
        → 1 ≤ c.bouncer.cli_sem
        → (count : ℕ)
        → (s : System x) × Reach x (start x c) s
          × (s.bouncer.tool_sem ≡ c.bouncer.tool_sem)
          × (s.bouncer.cli_sem ≡ c.bouncer.cli_sem)
          × (orphans s.calls ≡ count)
    Reach-orphans tools clis count =
        let (n, e) = some_slot c.bouncer.tool_sem tools in
        let (m, e') = some_slot c.bouncer.cli_sem clis in
        let (s, r, one, two, left) = leave n m e e' count in (s, r, one ∙ sym e, two ∙ sym e', left)
