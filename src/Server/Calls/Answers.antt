-- ===== src/Server/Calls/Answers.antt =====
-- That the calls of a server end, and with which answers.
use devops_agent_msk_mcp.Base.{
  ℕ, zero, suc, ◌+◌, ◌≤◌, Text, List, [], ◌∷◌, map, Option, none, some, get_elem?, set, map-set,
  get_elem?-map, set-same, ◌≡◌, ◌≢◌, ◌⊎◌, inl, inr, refl, ap, sym, ◌∙◌, arith, All,
}
use devops_agent_msk_mcp.Bouncer.{Phase}
use devops_agent_msk_mcp.Bouncer.Laws.{Reach-IsBalanced}
use devops_agent_msk_mcp.Config.{Host}
use devops_agent_msk_mcp.Server.{Outside, AppContext}
use devops_agent_msk_mcp.Server.Dispatch.{Request, Served}
use devops_agent_msk_mcp.Server.Laws.{IsReady}
use devops_agent_msk_mcp.Server.Calls.{
  Stage, waiting, running, begun, queued, in_cli, ran, over, cancelled, abandoned, Call, call,
  System, start, At, Work, acquire_tool, begin, call_cli, acquire_cli, release_cli, answer,
  answer_cli, work, Reach, next,
}
use devops_agent_msk_mcp.Server.Calls.View.{phase, phase_of, view-Reach}
use devops_agent_msk_mcp.Server.Calls.Replies.{alone, IsFaithfulAt, IsFaithful, Reach-IsSound}
use devops_agent_msk_mcp.Server.Calls.Progress.{CanWork, goes_on}
use devops_agent_msk_mcp.Tools.Acls.{ResourceTypes}

module _ {h : Host} {t : ResourceTypes} {Client : Type 0} (x : Outside h t Client) where
  -- The steps that a call has before it at most.
  abbrev pub steps_left : Stage x → ℕ
  steps_left waiting = 6
  steps_left running = 5
  steps_left (begun d) = 4
  steps_left (queued d) = 3
  steps_left (in_cli d) = 2
  steps_left (ran d) = 1
  steps_left (over r) = 0
  steps_left cancelled = 0
  steps_left (abandoned d) = 0

  unfoldable pub total_left : List (Call x) → ℕ
  total_left [] = 0
  total_left (k ∷ ks) = steps_left k.stage + total_left ks

  total_left-set :
      (ks : List (Call x)) (i : ℕ) (k l : Call x)
      → get_elem? ks i ≡ some k
      → total_left (set ks i l) + steps_left k.stage ≡ total_left ks + steps_left l.stage
  unfolding total_left
  total_left-set [] i k l e = cc
  total_left-set (m ∷ ks) zero k l e =
      let same : steps_left m.stage ≡ steps_left k.stage =
        ap (λ (o : Option (Call x)). elim o [ none ↦ 0 | some c ↦ steps_left c.stage ]) e in
      omega arith
  total_left-set (m ∷ ks) (suc i) k l e = let rest = total_left-set ks i k l e in omega arith

  advance_left :
      (s u : System x) (i : ℕ) (k l : Call x)
      → get_elem? s.calls i ≡ some k
      → u.calls ≡ set s.calls i l
      → suc (steps_left l.stage) ≤ steps_left k.stage
      → suc (total_left u.calls) ≤ total_left s.calls
  advance_left s u i k l at e less =
      let moved = total_left-set s.calls i k l at in
      let same : total_left u.calls ≡ total_left (set s.calls i l) = ap total_left e in omega arith

  abbrev calls_of : System x → List (Call x)
  calls_of s = s.calls

  -- Each step of a call brings it nearer to its end.
  Work-less : {s u : System x} → Work x s u → suc (total_left u.calls) ≤ total_left s.calls
  Work-less {s} {u} (acquire_tool i n cid q at free e) =
      advance_left s u i _ _ at (ap calls_of e) (omega arith)
  Work-less {s} {u} (begin i cid q at e) = advance_left s u i _ _ at (ap calls_of e) (omega arith)
  Work-less {s} {u} (call_cli i cid q d at some_cli e) =
      advance_left s u i _ _ at (ap calls_of e) (omega arith)
  Work-less {s} {u} (acquire_cli i n cid q d at free e) =
      advance_left s u i _ _ at (ap calls_of e) (omega arith)
  Work-less {s} {u} (release_cli i cid q d at e) =
      advance_left s u i _ _ at (ap calls_of e) (omega arith)
  Work-less {s} {u} (answer i cid q d at no_cli e) =
      advance_left s u i _ _ at (ap calls_of e) (omega arith)
  Work-less {s} {u} (answer_cli i cid q d at e) =
      advance_left s u i _ _ at (ap calls_of e) (omega arith)

  -- A number of steps of calls in a row.
  pub data Works (s : System x) : System x → ℕ → Type 0 where
    no_more : Works s s zero
    more : {u v : System x} {n : ℕ} → Works s u n → Work x u v → Works s v (suc n)

  after : {s u v : System x} {n : ℕ} → Work x s u → Works u v n → Works s v (suc n)
  after w no_more = more no_more w
  after w (more ws v) = more (after w ws) v

  finished_or_open :
      (ks : List (Call x))
      → All (λ k. phase_of x k ≡ Phase.finished) ks
        ⊎ ((i : ℕ) × (k : Call x) × (get_elem? ks i ≡ some k) × (phase_of x k ≢ Phase.finished))
  finished_or_open [] = inl tt
  finished_or_open (k ∷ ks) = elim (is_over (phase_of x k)) [
    | inr going ↦ inr (zero, k, refl, going)
    | inl done ↦ elim (finished_or_open ks) [
      | inl all ↦ inl (done, all)
      | inr (i, l, at, going) ↦ inr (suc i, l, at, going)
    ]
  ]
    where
      is_over : (p : Phase) → (p ≡ Phase.finished) ⊎ (p ≢ Phase.finished)
      is_over Phase.finished = inl refl
      is_over Phase.waiting = inr (λ e. cc)
      is_over Phase.running = inr (λ e. cc)
      is_over Phase.queued = inr (λ e. cc)
      is_over Phase.in_cli = inr (λ e. cc)

  module _ (c : AppContext x) (ready : IsReady x c) where
    -- The end of a call: as it is, if it is cancelled, else answered as its tool does by itself.
    abbrev pub end_of : Served x → Stage x → Stage x
    end_of a waiting = over a.reply
    end_of a running = over a.reply
    end_of a (begun d) = over a.reply
    end_of a (queued d) = over a.reply
    end_of a (in_cli d) = over a.reply
    end_of a (ran d) = over a.reply
    end_of a (over r) = over a.reply
    end_of a cancelled = cancelled
    end_of a (abandoned d) = abandoned d

    abbrev pub ended : Call x → Call x
    ended k = call x k.cid k.request (end_of (alone x c ready k) k.stage)

    advance_ended :
        (s u : System x) (i : ℕ) (cid : Option Text) (q : Request) (st st' : Stage x)
        → At x s i cid q st
        → u.calls ≡ set s.calls i (call x cid q st')
        → ended (call x cid q st') ≡ ended (call x cid q st)
        → map ended u.calls ≡ map ended s.calls
    advance_ended s u i cid q st st' at e same =
        ap (map ended) e
        ∙ (map-set ended s.calls i _
            ∙ (ap (set (map ended s.calls) i) same
                ∙ set-same (map ended s.calls) i _ (get_elem?-map ended s.calls i _ at)))

    Work-ended : {s u : System x} → Work x s u → map ended u.calls ≡ map ended s.calls
    Work-ended {s} {u} (acquire_tool i n cid q at free e) =
        advance_ended s u i cid q waiting running at (ap calls_of e) refl
    Work-ended {s} {u} (begin i cid q at e) =
        advance_ended s u i cid q running (begun _) at (ap calls_of e) refl
    Work-ended {s} {u} (call_cli i cid q d at some_cli e) =
        advance_ended s u i cid q (begun d) (queued d) at (ap calls_of e) refl
    Work-ended {s} {u} (acquire_cli i n cid q d at free e) =
        advance_ended s u i cid q (queued d) (in_cli d) at (ap calls_of e) refl
    Work-ended {s} {u} (release_cli i cid q d at e) =
        advance_ended s u i cid q (in_cli d) (ran d) at (ap calls_of e) refl
    Work-ended {s} {u} (answer i cid q d at no_cli e) =
        advance_ended s u i cid q (begun d) (over d.reply) at (ap calls_of e) refl
    Work-ended {s} {u} (answer_cli i cid q d at e) =
        advance_ended s u i cid q (ran d) (over d.reply) at (ap calls_of e) refl

    -- A faithful call that is over is at its end.
    ended-same_at :
        (a : Served x) (st : Stage x)
        → phase x st ≡ Phase.finished
        → IsFaithfulAt x c ready a st
        → end_of a st ≡ st
    ended-same_at a (over r) e f = ap over (sym f)
    ended-same_at a cancelled e f = refl
    ended-same_at a (abandoned d) e f = refl
    ended-same_at a waiting e f = cc
    ended-same_at a running e f = cc
    ended-same_at a (begun d) e f = cc
    ended-same_at a (queued d) e f = cc
    ended-same_at a (in_cli d) e f = cc
    ended-same_at a (ran d) e f = cc

    ended-same :
        (ks : List (Call x))
        → All (λ k. phase_of x k ≡ Phase.finished) ks
        → All (IsFaithful x c ready) ks
        → map ended ks ≡ ks
    ended-same [] e f = refl
    ended-same (k ∷ ks) (ek, e) (fk, f) =
        ap (λ (st : Stage x). call x k.cid k.request st ∷ map ended ks)
          (ended-same_at (alone x c ready k) k.stage ek fk)
        ∙ ap (λ l. k ∷ l) (ended-same ks e f)

    module _ (tools : 1 ≤ c.bouncer.tool_sem) (clis : 1 ≤ c.bouncer.cli_sem) where
      ended_or_goes_on :
          (s : System x) → Reach x (start x c) s → (s.calls ≡ map ended s.calls) ⊎ CanWork x s
      ended_or_goes_on s r = elim (finished_or_open s.calls) [
        | inl all ↦ inl (sym (ended-same s.calls all (Reach-IsSound x c ready r).1))
        | inr (i, k, at, going) ↦
            let balanced = Reach-IsBalanced c.bouncer (view-Reach x c r) in
            inr (goes_on x c.bouncer s balanced i k.cid k.request k.stage tools clis at going)
      ]

      drains :
          (fuel : ℕ) (s : System x)
          → Reach x (start x c) s
          → total_left s.calls ≤ fuel
          → (u : System x) × (n : ℕ) × Works s u n × (u.calls ≡ map ended s.calls)
      drains zero s r enough = elim (ended_or_goes_on s r) [
        | inl e ↦ (s, zero, no_more, e)
        | inr (u, w) ↦ let less = Work-less w in absurd (omega arith)
      ]
      drains (suc fuel) s r enough = elim (ended_or_goes_on s r) [
        | inl e ↦ (s, zero, no_more, e)
        | inr (u, w) ↦
            let less = Work-less w in
            let (v, n, ws, e) = drains fuel u (next r (work w)) (omega arith) in
            (v, suc n, after w ws, e ∙ Work-ended w)
      ]

      -- Whatever has happened to a server with a slot of each kind: if no call arrives any more and none is
      -- cancelled, its calls go on until each that was not cancelled before is answered, and each as its
      -- tool does by itself in the context that the server started with.
      pub Reach-answers :
          (s : System x)
          → Reach x (start x c) s
          → (u : System x) × (n : ℕ) × Works s u n × (u.calls ≡ map ended s.calls)
      Reach-answers s r = drains (total_left s.calls) s r (omega arith)
