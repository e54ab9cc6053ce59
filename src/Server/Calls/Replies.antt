-- ===== src/Server/Calls/Replies.antt =====
-- What calls that run at once answer, and what they make of the context that they share.
use devops_agent_msk_mcp.Base.{
  ℕ, Text, [], Option, ◌≡◌, ◌≢◌, ap, sym, All, All-append, All-set, All-get_elem?, refl,
}
use mathlib.Core.Path.{subst}
use devops_agent_msk_mcp.Config.{Host}
use devops_agent_msk_mcp.Server.{Outside, AppContext}
use devops_agent_msk_mcp.Server.Dispatch.{Request, Served, perform}
use devops_agent_msk_mcp.Server.Laws.{IsReady, IsLike, perform-IsLike}
use devops_agent_msk_mcp.Server.Replies.{seen, perform-like}
use devops_agent_msk_mcp.Server.Calls.{
  Stage, waiting, running, begun, queued, in_cli, ran, over, cancelled, abandoned, Call, call,
  System, start, advance, At, Work, acquire_tool, begin, call_cli, acquire_cli, release_cli, answer,
  answer_cli, Cancel, cancel_waiting, cancel_running, cancel_begun, cancel_queued, cancel_in_cli,
  abandon, cancel_ran, Step, arrive, work, cancel, Reach, here, next,
}
use devops_agent_msk_mcp.Tools.Acls.{ResourceTypes}

module _ {h : Host} {t : ResourceTypes} {Client : Type 0} (x : Outside h t Client)
    (c : AppContext x) (ready : IsReady x c) where
  -- What a tool does by itself, in the context that the server starts with.
  abbrev pub alone : Call x → Served x
  alone k = perform x c k.cid k.request

  -- What a call holds is what its tool does by itself; only a call that runs a command is on its way to
  -- the CLI semaphore or back.
  abbrev pub IsFaithfulAt : Served x → Stage x → Type 0
  IsFaithfulAt a waiting = Unit
  IsFaithfulAt a running = Unit
  IsFaithfulAt a (begun d) = seen x d ≡ seen x a
  IsFaithfulAt a (queued d) = (seen x d ≡ seen x a) × (d.executed ≢ [])
  IsFaithfulAt a (in_cli d) = (seen x d ≡ seen x a) × (d.executed ≢ [])
  IsFaithfulAt a (ran d) = (seen x d ≡ seen x a) × (d.executed ≢ [])
  IsFaithfulAt a (over r) = r ≡ a.reply
  IsFaithfulAt a cancelled = Unit
  IsFaithfulAt a (abandoned d) = (seen x d ≡ seen x a) × (d.executed ≢ [])

  abbrev pub IsFaithful : Call x → Type 0
  IsFaithful k = IsFaithfulAt (alone k) k.stage

  -- The context differs from the first in the factory only, and each call is faithful.
  abbrev pub IsSound : System x → Type 0
  IsSound s = IsLike x c s.context × All IsFaithful s.calls

  module _ (s : System x) (i : ℕ) (cid : Option Text) (q : Request) (st : Stage x) where
    faithful : All IsFaithful s.calls → At x s i cid q st → IsFaithful (call x cid q st)
    faithful f at = All-get_elem? IsFaithful s.calls i (call x cid q st) f at

  -- A call advances to a faithful stage.
  advanced :
      (s u : System x) (i : ℕ) (cid : Option Text) (q : Request) (st : Stage x) (tools clis : ℕ)
      → u ≡ advance x s i (call x cid q st) tools clis
      → IsSound s
      → IsFaithful (call x cid q st)
      → IsSound u
  advanced s u i cid q st tools clis e (like, f) now =
      subst IsSound (sym e) (like, All-set IsFaithful s.calls i (call x cid q st) now f)

  first_part :
      (s : System x) (cid : Option Text) (q : Request)
      → IsLike x c s.context
      → IsLike x c (perform x s.context cid q).context
  first_part s cid q (f, same, settled) =
      subst (λ d. IsLike x c (perform x d cid q).context) (sym same)
        (perform-IsLike x c ready f cid q settled)

  Work-IsSound : {s u : System x} → Work x s u → IsSound s → IsSound u
  Work-IsSound {s} {u} (acquire_tool i n cid q at free e) h =
      advanced s u i cid q running _ _ e h tt
  Work-IsSound {s} {u} (begin i cid q at e) (like, f) = subst IsSound (sym e) (
    first_part s cid q like,
    All-set IsFaithful s.calls i _ (perform-like x c ready like cid q) f,
  )
  Work-IsSound {s} {u} (call_cli i cid q d at some_cli e) h =
      advanced s u i cid q (queued d) _ _ e h (faithful s i cid q (begun d) h.1 at, some_cli)
  Work-IsSound {s} {u} (acquire_cli i n cid q d at free e) h =
      advanced s u i cid q (in_cli d) _ _ e h (faithful s i cid q (queued d) h.1 at)
  Work-IsSound {s} {u} (release_cli i cid q d at e) h =
      advanced s u i cid q (ran d) _ _ e h (faithful s i cid q (in_cli d) h.1 at)
  Work-IsSound {s} {u} (answer i cid q d at no_cli e) h =
      advanced s u i cid q (over d.reply) _ _ e h
        (ap (λ v. v.0) (faithful s i cid q (begun d) h.1 at))
  Work-IsSound {s} {u} (answer_cli i cid q d at e) h =
      advanced s u i cid q (over d.reply) _ _ e h
        (ap (λ v. v.0) (faithful s i cid q (ran d) h.1 at).0)

  Cancel-IsSound : {s u : System x} → Cancel x s u → IsSound s → IsSound u
  Cancel-IsSound {s} {u} (cancel_waiting i cid q at e) h = advanced s u i cid q cancelled _ _ e h tt
  Cancel-IsSound {s} {u} (cancel_running i cid q at e) h = advanced s u i cid q cancelled _ _ e h tt
  Cancel-IsSound {s} {u} (cancel_begun i cid q d at e) h = advanced s u i cid q cancelled _ _ e h tt
  Cancel-IsSound {s} {u} (cancel_queued i cid q d at e) h =
      advanced s u i cid q cancelled _ _ e h tt
  Cancel-IsSound {s} {u} (cancel_in_cli i cid q d at e) h =
      advanced s u i cid q cancelled _ _ e h tt
  Cancel-IsSound {s} {u} (abandon i cid q d argv p at ran_one lives e) h =
      advanced s u i cid q (abandoned d) _ _ e h (faithful s i cid q (in_cli d) h.1 at)
  Cancel-IsSound {s} {u} (cancel_ran i cid q d at e) h = advanced s u i cid q cancelled _ _ e h tt

  Step-IsSound : {s u : System x} → Step x s u → IsSound s → IsSound u
  Step-IsSound {s} (arrive cid q e) (like, f) =
      subst IsSound (sym e) (like, All-append IsFaithful s.calls _ f (tt, tt))
  Step-IsSound (work w) h = Work-IsSound w h
  Step-IsSound (cancel k) h = Cancel-IsSound k h

  -- Whatever calls run at once, are interleaved in whatever way, or are cancelled: each that is answered
  -- is answered as its tool does by itself in the context that the server started with, only calls that
  -- run a command take the CLI semaphore, and of the shared context only the factory's clients change.
  pub Reach-IsSound : {s : System x} → Reach x (start x c) s → IsSound s
  Reach-IsSound here = ((c.factory, refl, (ready.coherent, ready.factory_registry)), tt)
  Reach-IsSound (next r st) = Step-IsSound st (Reach-IsSound r)
