-- ===== src/Bouncer/Laws.antt =====
-- The slots of the two semaphores: those that are free, and those that calls hold.
use devops_agent_msk_mcp.Base.{
  ℕ, zero, suc, ◌+◌, ◌≤◌, ℤ, List, [], ◌∷◌, ◌++◌, some, get_elem?, set, ◌≡◌, arith, sym,
}
use mathlib.Core.Path.{subst}
use devops_agent_msk_mcp.Base.Int.{pos_part}
use devops_agent_msk_mcp.Errors.{ok}
use devops_agent_msk_mcp.Bouncer.{
  Bouncer, new_bouncer, Phase, waiting, running, queued, in_cli, finished, Server, start, move,
  Work, acquire_tool, call_cli, acquire_cli, release_cli, release_tool, Cancel, cancel_waiting,
  cancel_running, cancel_queued, cancel_in_cli, Step, arrive, work, cancel, Reach, here, next,
}

-- The slots that a task holds.
abbrev pub tool_slots : Phase → ℕ
tool_slots waiting = 0
tool_slots running = 1
tool_slots queued = 1
tool_slots in_cli = 1
tool_slots finished = 0

abbrev pub cli_slots : Phase → ℕ
cli_slots waiting = 0
cli_slots running = 0
cli_slots queued = 0
cli_slots in_cli = 1
cli_slots finished = 0

unfoldable pub total : (Phase → ℕ) → List Phase → ℕ
total f [] = 0
total f (p ∷ ps) = f p + total f ps

total-append :
    (f : Phase → ℕ) (ps : List Phase) (p : Phase) → total f (ps ++ (p ∷ [])) ≡ total f ps + f p
unfolding total
total-append f [] p = omega arith
total-append f (q ∷ ps) p = let rest = total-append f ps p in omega arith

total-set :
    (f : Phase → ℕ) (ps : List Phase) (i : ℕ) (p q : Phase)
    → get_elem? ps i ≡ some p
    → total f (set ps i q) + f p ≡ total f ps + f q
unfolding total
total-set f [] i p q h = cc
total-set f (r ∷ ps) zero p q h = ground arith
total-set f (r ∷ ps) (suc i) p q h = let rest = total-set f ps i p q h in omega arith

-- Free slots and slots that tasks hold add up to the limits.
abbrev pub IsBalanced : Bouncer → Server → Type 0
IsBalanced b s =
    (s.bouncer.tool_sem + total tool_slots s.tasks ≡ b.tool_sem)
    × (s.bouncer.cli_sem + total cli_slots s.tasks ≡ b.cli_sem)

move-IsBalanced :
    (b : Bouncer) (s : Server) (i : ℕ) (p q : Phase) (tools clis : ℕ)
    → get_elem? s.tasks i ≡ some p
    → tools + tool_slots q ≡ s.bouncer.tool_sem + tool_slots p
    → clis + cli_slots q ≡ s.bouncer.cli_sem + cli_slots p
    → IsBalanced b s
    → IsBalanced b (move s i q tools clis)
move-IsBalanced b s i p q tools clis at et ec (ht, hc) =
    let t = total-set tool_slots s.tasks i p q at in
    let c = total-set cli_slots s.tasks i p q at in (omega arith, omega arith)

Work-IsBalanced : (b : Bouncer) {s t : Server} → Work s t → IsBalanced b s → IsBalanced b t
Work-IsBalanced b {s = s} (acquire_tool i n at free e) h =
    subst (IsBalanced b) (sym e)
      (move-IsBalanced b s i waiting running _ _ at (omega arith) (omega arith) h)
Work-IsBalanced b {s = s} (call_cli i at e) h =
    subst (IsBalanced b) (sym e)
      (move-IsBalanced b s i running queued _ _ at (omega arith) (omega arith) h)
Work-IsBalanced b {s = s} (acquire_cli i n at free e) h =
    subst (IsBalanced b) (sym e)
      (move-IsBalanced b s i queued in_cli _ _ at (omega arith) (omega arith) h)
Work-IsBalanced b {s = s} (release_cli i at e) h =
    subst (IsBalanced b) (sym e)
      (move-IsBalanced b s i in_cli running _ _ at (omega arith) (omega arith) h)
Work-IsBalanced b {s = s} (release_tool i at e) h =
    subst (IsBalanced b) (sym e)
      (move-IsBalanced b s i running finished _ _ at (omega arith) (omega arith) h)

Cancel-IsBalanced : (b : Bouncer) {s t : Server} → Cancel s t → IsBalanced b s → IsBalanced b t
Cancel-IsBalanced b {s = s} (cancel_waiting i at e) h =
    subst (IsBalanced b) (sym e)
      (move-IsBalanced b s i waiting finished _ _ at (omega arith) (omega arith) h)
Cancel-IsBalanced b {s = s} (cancel_running i at e) h =
    subst (IsBalanced b) (sym e)
      (move-IsBalanced b s i running finished _ _ at (omega arith) (omega arith) h)
Cancel-IsBalanced b {s = s} (cancel_queued i at e) h =
    subst (IsBalanced b) (sym e)
      (move-IsBalanced b s i queued finished _ _ at (omega arith) (omega arith) h)
Cancel-IsBalanced b {s = s} (cancel_in_cli i at e) h =
    subst (IsBalanced b) (sym e)
      (move-IsBalanced b s i in_cli finished _ _ at (omega arith) (omega arith) h)

Step-IsBalanced : (b : Bouncer) {s t : Server} → Step s t → IsBalanced b s → IsBalanced b t
Step-IsBalanced b {s = s} (arrive e) (ht, hc) =
    let t = total-append tool_slots s.tasks waiting in
    let c = total-append cli_slots s.tasks waiting in
    subst (IsBalanced b) (sym e) (omega arith, omega arith)
Step-IsBalanced b (work w) h = Work-IsBalanced b w h
Step-IsBalanced b (cancel c) h = Cancel-IsBalanced b c h

pub Reach-IsBalanced : (b : Bouncer) {s : Server} → Reach (start b) s → IsBalanced b s
unfolding total
Reach-IsBalanced b here = (omega arith, omega arith)
Reach-IsBalanced b (next r st) = Step-IsBalanced b st (Reach-IsBalanced b r)

-- Whatever calls arrive, end or are cancelled, at most as many run as the tool limit says, and at most
-- as many start or wait for a subprocess as the CLI limit says.
pub Reach-bounds :
    (tool_limit cli_limit : ℤ) (b : Bouncer)
    → new_bouncer tool_limit cli_limit ≡ ok b
    → {s : Server} → Reach (start b) s
    → (total tool_slots s.tasks ≤ pos_part tool_limit)
      × (total cli_slots s.tasks ≤ pos_part cli_limit)
unfolding new_bouncer
Reach-bounds tool_limit cli_limit b made {s = s} r =
    let (t, c) = Reach-IsBalanced b r in ground arith
