-- ===== src/Server/Calls.antt =====
-- src/msk_mcp/server.py over src/msk_mcp/concurrency.py and src/msk_mcp/cli_executor.py: calls of tools
-- that run at once, step by step, over the one context and the two semaphores that they share.
pub mod View
pub mod Replies
pub mod Progress
pub mod Answers
pub mod Orphans
use devops_agent_msk_mcp.Base.{
  ℕ, ◌+◌, Text, List, [], ◌∷◌, ◌++◌, Option, some, get_elem?, set, ◌≡◌, ◌≢◌,
}
use devops_agent_msk_mcp.Bouncer.{Bouncer}
use devops_agent_msk_mcp.CliExecutor.{Process, started, child_env}
use devops_agent_msk_mcp.Config.{Host}
use devops_agent_msk_mcp.Server.{Outside, AppContext}
use devops_agent_msk_mcp.Server.Dispatch.{Request, Reply, Served, perform}
use devops_agent_msk_mcp.Tools.Acls.{ResourceTypes}

module _ {h : Host} {t : ResourceTypes} {Client : Type 0} (x : Outside h t Client) where
  -- How far a call is: in front of the tool semaphore; inside it, before the tool's first part; behind
  -- that part, with what the tool will answer and run; in front of the CLI semaphore; with a
  -- subprocess; behind it; answered; cancelled, by `wait_for` or by the framework; or
  -- cancelled with a subprocess, which is then neither waited for nor signalled any more, since `run` has
  -- no clause for CancelledError.
  pub data Stage : Type 0 where
    waiting : Stage
    running : Stage
    begun : Served x → Stage
    queued : Served x → Stage
    in_cli : Served x → Stage
    ran : Served x → Stage
    over : Reply → Stage
    cancelled : Stage
    abandoned : Served x → Stage

  pub record Call : Type 0 where
    pub cid : Option Text
    pub request : Request
    pub stage : Stage

  abbrev pub call : Option Text → Request → Stage → Call
  call cid q st = record { cid = cid; request = q; stage = st }

  pub record System : Type 0 where
    pub bouncer : Bouncer
    pub context : AppContext x
    pub calls : List Call

  abbrev pub start : AppContext x → System
  start c = record { bouncer = c.bouncer; context = c; calls = [] }

  -- A system with a call at another stage, and other counts of free slots.
  abbrev pub advance : System → ℕ → Call → ℕ → ℕ → System
  advance s i c tools clis = record {
    bouncer = record { tool_sem = tools; cli_sem = clis };
    context = s.context;
    calls = set s.calls i c;
  }

  abbrev pub At : System → ℕ → Option Text → Request → Stage → Type 0
  At s i cid q st = get_elem? s.calls i ≡ some (call cid q st)

  -- What a call does by itself. Between two steps lies an `await`; the tool's first part, up to its first
  -- one, is a single step, and the only one that touches the context.
  pub data Work (s u : System) : Type 0 where
    acquire_tool :
        (i n : ℕ) (cid : Option Text) (q : Request)
        → At s i cid q waiting
        → s.bouncer.tool_sem ≡ n + 1
        → u ≡ advance s i (call cid q running) n s.bouncer.cli_sem
        → Work s u
    begin :
        (i : ℕ) (cid : Option Text) (q : Request)
        → At s i cid q running
        → u ≡ record {
          bouncer = s.bouncer;
          context = (perform x s.context cid q).context;
          calls = set s.calls i (call cid q (begun (perform x s.context cid q)));
        }
        → Work s u
    call_cli :
        (i : ℕ) (cid : Option Text) (q : Request) (d : Served x)
        → At s i cid q (begun d)
        → d.executed ≢ []
        → u ≡ advance s i (call cid q (queued d)) s.bouncer.tool_sem s.bouncer.cli_sem
        → Work s u
    acquire_cli :
        (i n : ℕ) (cid : Option Text) (q : Request) (d : Served x)
        → At s i cid q (queued d)
        → s.bouncer.cli_sem ≡ n + 1
        → u ≡ advance s i (call cid q (in_cli d)) s.bouncer.tool_sem n
        → Work s u
    release_cli :
        (i : ℕ) (cid : Option Text) (q : Request) (d : Served x)
        → At s i cid q (in_cli d)
        → u ≡ advance s i (call cid q (ran d)) s.bouncer.tool_sem (s.bouncer.cli_sem + 1)
        → Work s u
    answer :
        (i : ℕ) (cid : Option Text) (q : Request) (d : Served x)
        → At s i cid q (begun d)
        → d.executed ≡ []
        → u ≡ advance s i (call cid q (over d.reply)) (s.bouncer.tool_sem + 1) s.bouncer.cli_sem
        → Work s u
    answer_cli :
        (i : ℕ) (cid : Option Text) (q : Request) (d : Served x)
        → At s i cid q (ran d)
        → u ≡ advance s i (call cid q (over d.reply)) (s.bouncer.tool_sem + 1) s.bouncer.cli_sem
        → Work s u

  -- A cancelled call leaves the blocks that it is in. With a subprocess it may be cancelled before that has
  -- started, or after.
  pub data Cancel (s u : System) : Type 0 where
    cancel_waiting :
        (i : ℕ) (cid : Option Text) (q : Request)
        → At s i cid q waiting
        → u ≡ advance s i (call cid q cancelled) s.bouncer.tool_sem s.bouncer.cli_sem
        → Cancel s u
    cancel_running :
        (i : ℕ) (cid : Option Text) (q : Request)
        → At s i cid q running
        → u ≡ advance s i (call cid q cancelled) (s.bouncer.tool_sem + 1) s.bouncer.cli_sem
        → Cancel s u
    cancel_begun :
        (i : ℕ) (cid : Option Text) (q : Request) (d : Served x)
        → At s i cid q (begun d)
        → u ≡ advance s i (call cid q cancelled) (s.bouncer.tool_sem + 1) s.bouncer.cli_sem
        → Cancel s u
    cancel_queued :
        (i : ℕ) (cid : Option Text) (q : Request) (d : Served x)
        → At s i cid q (queued d)
        → u ≡ advance s i (call cid q cancelled) (s.bouncer.tool_sem + 1) s.bouncer.cli_sem
        → Cancel s u
    cancel_in_cli :
        (i : ℕ) (cid : Option Text) (q : Request) (d : Served x)
        → At s i cid q (in_cli d)
        → u ≡ advance s i (call cid q cancelled) (s.bouncer.tool_sem + 1) (s.bouncer.cli_sem + 1)
        → Cancel s u
    abandon :
        (i : ℕ) (cid : Option Text) (q : Request) (d : Served x) (argv : List Text) (p : Process)
        → At s i cid q (in_cli d)
        → d.executed ≡ argv ∷ []
        → x.world argv (child_env s.context.cli_executor.classpath cid x.environ) ≡ started p
        → u
          ≡ advance s i (call cid q (abandoned d)) (s.bouncer.tool_sem + 1) (s.bouncer.cli_sem + 1)
        → Cancel s u
    cancel_ran :
        (i : ℕ) (cid : Option Text) (q : Request) (d : Served x)
        → At s i cid q (ran d)
        → u ≡ advance s i (call cid q cancelled) (s.bouncer.tool_sem + 1) s.bouncer.cli_sem
        → Cancel s u

  pub data Step (s u : System) : Type 0 where
    arrive :
        (cid : Option Text) (q : Request)
        → u ≡ record s { calls = s.calls ++ (call cid q waiting ∷ []) }
        → Step s u
    work : Work s u → Step s u
    cancel : Cancel s u → Step s u

  pub data Reach (s : System) : System → Type 0 where
    here : Reach s s
    next : {u v : System} → Reach s u → Step u v → Reach s v
