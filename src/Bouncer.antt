-- ===== src/Bouncer.antt =====
-- src/msk_mcp/concurrency.py, with the CLI semaphore as cli_executor.py takes it: the calls of tools as
-- tasks that acquire and release the two semaphores. A semaphore is the number of its free slots.
pub mod Laws
pub mod Progress
use devops_agent_msk_mcp.Base.{
  ℕ, suc, ◌+◌, ℤ, pos, leb_ℤ, Text, codes, Bool, true, not, ◌||◌, List, [], ◌∷◌, ◌++◌, Option, none,
  some, get_elem?, set, ◌≡◌, if◌then◌else◌,
}
use devops_agent_msk_mcp.Base.Int.{pos_part}
use devops_agent_msk_mcp.Config.{value_error}
use devops_agent_msk_mcp.Errors.{Result, ok, err}

pub record Bouncer : Type 0 where
  pub tool_sem : ℕ
  pub cli_sem : ℕ

unfoldable pub new_bouncer : ℤ → ℤ → Result Bouncer
new_bouncer tool_limit cli_limit =
    if not (leb_ℤ (pos 1) tool_limit) || not (leb_ℤ (pos 1) cli_limit)
    then err (value_error (codes "limits must be >= 1"))
    else ok (record { tool_sem = pos_part tool_limit; cli_sem = pos_part cli_limit })

-- A call of a tool: in front of the tool semaphore, inside it, in front of the CLI semaphore, with a
-- subprocess, or over.
pub data Phase : Type 0 where
  waiting running queued in_cli finished : Phase

pub record Server : Type 0 where
  pub bouncer : Bouncer
  pub tasks : List Phase

abbrev pub start : Bouncer → Server
start b = record { bouncer = b; tasks = [] }

-- The server with other counts of free slots and another phase of one task.
abbrev pub move : Server → ℕ → Phase → ℕ → ℕ → Server
move s i phase tools clis = record {
  bouncer = record { tool_sem = tools; cli_sem = clis };
  tasks = set s.tasks i phase;
}

-- What a task does by itself: `async with` acquires a semaphore with a free slot, and releases it at
-- the end of its block.
pub data Work (s t : Server) : Type 0 where
  acquire_tool :
      (i n : ℕ)
      → get_elem? s.tasks i ≡ some waiting
      → s.bouncer.tool_sem ≡ n + 1
      → t ≡ move s i running n s.bouncer.cli_sem
      → Work s t
  call_cli :
      (i : ℕ)
      → get_elem? s.tasks i ≡ some running
      → t ≡ move s i queued s.bouncer.tool_sem s.bouncer.cli_sem
      → Work s t
  acquire_cli :
      (i n : ℕ)
      → get_elem? s.tasks i ≡ some queued
      → s.bouncer.cli_sem ≡ n + 1
      → t ≡ move s i in_cli s.bouncer.tool_sem n
      → Work s t
  release_cli :
      (i : ℕ)
      → get_elem? s.tasks i ≡ some in_cli
      → t ≡ move s i running s.bouncer.tool_sem (s.bouncer.cli_sem + 1)
      → Work s t
  release_tool :
      (i : ℕ)
      → get_elem? s.tasks i ≡ some running
      → t ≡ move s i finished (s.bouncer.tool_sem + 1) s.bouncer.cli_sem
      → Work s t

-- A cancelled task leaves the blocks that it is in: `wait_for` cancels it when the tool's timeout is
-- over, and the framework may cancel one that still waits.
pub data Cancel (s t : Server) : Type 0 where
  cancel_waiting :
      (i : ℕ)
      → get_elem? s.tasks i ≡ some waiting
      → t ≡ move s i finished s.bouncer.tool_sem s.bouncer.cli_sem
      → Cancel s t
  cancel_running :
      (i : ℕ)
      → get_elem? s.tasks i ≡ some running
      → t ≡ move s i finished (s.bouncer.tool_sem + 1) s.bouncer.cli_sem
      → Cancel s t
  cancel_queued :
      (i : ℕ)
      → get_elem? s.tasks i ≡ some queued
      → t ≡ move s i finished (s.bouncer.tool_sem + 1) s.bouncer.cli_sem
      → Cancel s t
  cancel_in_cli :
      (i : ℕ)
      → get_elem? s.tasks i ≡ some in_cli
      → t ≡ move s i finished (s.bouncer.tool_sem + 1) (s.bouncer.cli_sem + 1)
      → Cancel s t

-- What can happen to the server: a call arrives, works, or is cancelled.
pub data Step (s t : Server) : Type 0 where
  arrive : t ≡ record s { tasks = s.tasks ++ (waiting ∷ []) } → Step s t
  work : Work s t → Step s t
  cancel : Cancel s t → Step s t

pub data Reach (s : Server) : Server → Type 0 where
  here : Reach s s
  next : {t u : Server} → Reach s t → Step t u → Reach s u
