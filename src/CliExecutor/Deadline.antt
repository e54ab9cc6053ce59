-- ===== src/CliExecutor/Deadline.antt =====
-- The clock of a CLI tool, in milliseconds: the two timeouts of cli_executor.py inside the one that
-- server.py gives to `run_tool` of concurrency.py.
use devops_agent_msk_mcp.Base.{
  ℕ, ◌+◌, ◌≤◌, ◌<◌, leb, ltb, List, [], ◌∷◌, Option, none, some, ◌≡◌, ◌≢◌, All, Bool-cases, inl,
  inr, arith, if◌then◌else◌,
}
use devops_agent_msk_mcp.CliExecutor.{Signal, sigterm, sigkill}

-- `GRACE_PERIOD_SECONDS`
abbrev pub grace_period : ℕ
grace_period = 5000

-- The `+ 5.0` of the CLI tools.
abbrev pub margin : ℕ
margin = 5000

-- How long a call takes until its process runs, what the process takes if it is left alone, and what it
-- takes to end after SIGTERM, if it heeds it.
pub record Timing : Type 0 where
  pub start : ℕ
  pub runtime : ℕ
  pub after_sigterm : Option ℕ

-- A run's end: with the exit of the process in time, with the executor's TIMEOUT error, or cancelled by
-- the outer timeout.
pub data Ending : Type 0 where
  exited timed_out cancelled : Ending

-- The signals with the moments when they are due, and when and how the run ends if nothing cancels it.
pub record Plan : Type 0 where
  pub due : List (ℕ × Signal)
  pub end : ℕ
  pub ending : Ending

abbrev terminate_plan : ℕ → Option ℕ → Plan
terminate_plan at none = record {
  due = (at, sigterm) ∷ (at + grace_period, sigkill) ∷ [];
  end = at + grace_period;
  ending = timed_out;
}
terminate_plan at (some d) =
    if leb d grace_period
    then record { due = (at, sigterm) ∷ []; end = at + d; ending = timed_out }
    else record {
      due = (at, sigterm) ∷ (at + grace_period, sigkill) ∷ [];
      end = at + grace_period;
      ending = timed_out;
    }

unfoldable pub run_plan : ℕ → Timing → Plan
run_plan timeout t =
    if leb t.runtime timeout
    then record { due = []; end = t.start + t.runtime; ending = exited }
    else terminate_plan (t.start + timeout) t.after_sigterm

-- The signals that are due before a moment.
unfoldable pub sent_before : ℕ → List (ℕ × Signal) → List Signal
sent_before deadline [] = []
sent_before deadline ((at, s) ∷ due) =
    let rest = sent_before deadline due in if ltb at deadline then s ∷ rest else rest

-- The run under the timeout of `run_tool`, which is the tool's timeout and the margin: what is due
-- later does not happen, since the cancelled run only leaves its blocks.
unfoldable pub timed_run : ℕ → Timing → List Signal × Ending
unfolding run_plan sent_before
timed_run timeout t =
    let p = run_plan timeout t in
    (
      sent_before (timeout + margin) p.due,
      if ltb p.end (timeout + margin) then p.ending else cancelled,
    )

-- Signals of which a kill is due at a moment or later.
abbrev IsLate : ℕ → List (ℕ × Signal) → Type 0
IsLate deadline = All (λ p. p.1 ≡ sigkill → deadline ≤ p.0)

sent_before-IsLate :
    (deadline : ℕ) (due : List (ℕ × Signal))
    → IsLate deadline due
    → All (λ s. s ≢ sigkill) (sent_before deadline due)
unfolding sent_before
sent_before-IsLate deadline [] h = tt
sent_before-IsLate deadline ((at, s) ∷ due) (late, h) = elim (Bool-cases (ltb at deadline)) [
  | inl e ↦
      rw e ((λ kill. let l = late kill in absurd (ground arith)), sent_before-IsLate deadline due h)
  | inr e ↦ rw e (sent_before-IsLate deadline due h)
]

terminate_plan-IsLate :
    (deadline at : ℕ) (reaction : Option ℕ)
    → deadline ≤ at + grace_period
    → IsLate deadline (terminate_plan at reaction).due
terminate_plan-IsLate deadline at none h = ((λ e. cc), ((λ e. h), tt))
terminate_plan-IsLate deadline at (some d) h = elim (Bool-cases (leb d grace_period)) [
  | inl e ↦ rw e ((λ e. cc), tt)
  | inr e ↦ rw e ((λ e. cc), ((λ e. h), tt))
]

run_plan-IsLate : (timeout : ℕ) (t : Timing) → IsLate (timeout + margin) (run_plan timeout t).due
unfolding run_plan
run_plan-IsLate timeout t = elim (Bool-cases (leb t.runtime timeout)) [
  | inl e ↦ rw e tt
  | inr e ↦
      rw e
        (terminate_plan-IsLate (timeout + margin) (t.start + timeout) t.after_sigterm (omega arith))
]

terminate_plan-silent :
    (deadline at : ℕ) (reaction : Option ℕ)
    → deadline ≤ at
    → (sent_before deadline (terminate_plan at reaction).due ≡ [])
      × (deadline ≤ (terminate_plan at reaction).end)
unfolding sent_before
terminate_plan-silent deadline at none h = ground arith
terminate_plan-silent deadline at (some d) h = ground arith

-- Whatever a process does, it is never killed. If the call takes as long as the margin until its process
-- runs, a process that exceeds the timeout gets no signal at all, and the call is cancelled.
pub timed_run-never_killed :
    (timeout : ℕ) (t : Timing)
    → All (λ s. s ≢ sigkill) (timed_run timeout t).0
      × (margin ≤ t.start → timeout < t.runtime → timed_run timeout t ≡ ([], cancelled))
unfolding timed_run run_plan
timed_run-never_killed timeout t = (
  sent_before-IsLate (timeout + margin) (run_plan timeout t).due (run_plan-IsLate timeout t),
  λ slow over.
      let (quiet, end) =
        terminate_plan-silent (timeout + margin) (t.start + timeout) t.after_sigterm
          (omega arith) in
      ground (arith, quiet),
)
