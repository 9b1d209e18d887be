-- ===== src/Server/Runs.antt =====
-- Whole runs of the server: `PrepareSessions`, and then any sequence of calls of `AcceptSessions`
-- and rounds of `IoWorkerThread`. The kernel's answers are arbitrary but for one: no completion
-- that failed or moved no bytes finds the thread's last error at WAIT_TIMEOUT, where the worker
-- drops the context with its reference.
use mathlib.Core.Option.{some-injective}
use gsp.Prelude.{
  ℕ, suc, ◌+◌, ◌≤◌, ◌≡◌, Bool, true, false, Option, some, List, arith, In, get_elem?, Distinct,
  length, subst, sym, ◌∙◌, ap,
}
use gsp.CircularBuffer.Memory.{Bytes}
use gsp.Server.State.{thread_main, thread_io_worker, IoContext, Server, max_connection, Calls}
use gsp.Server.Counting.{total, holds, keeps, cycles}
use gsp.Server.Worker.{Completion, accept_sessions, work, dequeue}
use gsp.Server.Invariant.{IsValid, Facts, linked}
use gsp.Server.Rounds.{work-Completes}
use gsp.Server.Accepting.{prepare_sessions, prepare_sessions-IsValid}
use gsp.Server.Issuing.{sessions_out, accept_sessions-IsValid}

-- A run without WAIT_TIMEOUT. The fuel of `AcceptSessions` is one more than the sessions there are.
pub data Reachable : Server → Type 0 where
  preparing :
      (bytes : ℕ → Bytes) {w : Server} → prepare_sessions thread_main bytes ≡ some w → Reachable w
  accepting :
      {w w' : Server} (started : ℕ → Bool) (b : Bool)
      → Reachable w
      → accept_sessions thread_main started (suc max_connection) w ≡ some (b, w')
      → Reachable w'
  working :
      {w w' : Server} (i : ℕ) (bytes : List ℕ) (c : IoContext) (q : Completion) (k : Calls)
      → Reachable w
      → get_elem? w.pending i ≡ some c
      → q.timed_out ≡ false
      → work thread_io_worker c q k (dequeue i bytes c w) ≡ some (tt, w')
      → Reachable w'

same_state :
    {A : Type 0} {o : Option (A × Server)} {a b : A} {w w' : Server}
    → o ≡ some (a, w)
    → o ≡ some (b, w')
    → w ≡ w'
same_state e e' = ap (λ p. p.1) (some-injective _ _ (sym e ∙ e'))

pub Reachable-IsValid : {w : Server} → Reachable w → (issued : ℕ → ℕ) × IsValid w issued
Reachable-IsValid (preparing bytes e) =
    let (w, e', v) = prepare_sessions-IsValid bytes in
    ((λ _. 0), subst (λ x. IsValid x (λ _. 0)) (some-injective _ _ (sym e' ∙ e)) v)
Reachable-IsValid (accepting started b r e) =
    let (issued, v) = Reachable-IsValid r in
    let (b', w', issued', e', v', full) =
      accept_sessions-IsValid started (suc max_connection) _ issued v (omega arith) in
    (issued', subst (λ x. IsValid x issued') (same_state e' e) v')
Reachable-IsValid (working i bytes c q k r e real done) =
    let (issued, v) = Reachable-IsValid r in
    let (w', issued', e', v') = work-Completes _ issued i bytes c q k v e real in
    (issued', subst (λ x. IsValid x issued') (same_state e' done) v')

-- In a server that a run without WAIT_TIMEOUT has reached, a round of the worker for any context
-- that the kernel holds, where the last error is not WAIT_TIMEOUT, ends without a failed assertion,
-- and the run can go on from its result.
pub working-Reachable :
    {w : Server} (i : ℕ) (bytes : List ℕ) (c : IoContext) (q : Completion) (k : Calls)
    → Reachable w
    → get_elem? w.pending i ≡ some c
    → q.timed_out ≡ false
    → (w' : Server) × (work thread_io_worker c q k (dequeue i bytes c w) ≡ some (tt, w'))
      × Reachable w'
working-Reachable i bytes c q k r e real =
    let (issued, v) = Reachable-IsValid r in
    let (w', issued', e', v') = work-Completes _ issued i bytes c q k v e real in
    (w', e', working i bytes c q k r e real e')

-- In a server that a run without WAIT_TIMEOUT has reached, `AcceptSessions` returns within
-- `MAX_CONNECTION` rounds, and when it returns true every session is out.
pub accepting-Reachable :
    {w : Server} (started : ℕ → Bool)
    → Reachable w
    → (b : Bool) × (w' : Server) × (accept_sessions thread_main started (suc max_connection) w
        ≡ some (b, w'))
      × Reachable w'
      × (b ≡ true → sessions_out w' ≡ max_connection)
accepting-Reachable started r =
    let (issued, v) = Reachable-IsValid r in
    let (b, w', issued', e, v', full) =
      accept_sessions-IsValid started (suc max_connection) _ issued v (omega arith) in
    (b, w', e, accepting started b r e, full)

-- In a server that a run without WAIT_TIMEOUT has reached, a session that is free is not connected,
-- has no reference and no context with the kernel.
pub free-Reachable :
    {w : Server} (t : ℕ)
    → Reachable w
    → In t w.free_sessions
    → ((w.session t).ref_count ≡ 0)
      × ((w.session t).connected ≡ false)
      × (total holds t w.pending ≡ 0)
free-Reachable {w} t r i =
    let (issued, v) = Reachable-IsValid r in
    let f : Facts w issued t 0 = v.facts t in
    let unused : (w.session t).ref_count ≡ 0 = v.free.unused t i in
    (unused, ground (arith, unused, f.refs, f.owner), omega (arith, unused, f.refs))

-- In a server that a run without WAIT_TIMEOUT has reached, in which therefore no context was
-- dropped before it was handled, every session has one reference for each of its contexts with the
-- kernel and at most one more, at most one of these contexts is for an operation other than a
-- disconnect, and at most one is for an accept or a disconnect, none while it is connected.
pub refs-Reachable :
    {w : Server} (t : ℕ)
    → Reachable w
    → (total holds t w.pending ≤ (w.session t).ref_count)
      × ((w.session t).ref_count ≤ total holds t w.pending + 1)
      × (total cycles t w.pending ≤ 1)
      × (linked (w.session t) + total keeps t w.pending ≤ 1)
refs-Reachable {w} t r =
    let (issued, v) = Reachable-IsValid r in
    let f : Facts w issued t 0 = v.facts t in
    (omega (arith, f.refs), omega (arith, f.refs, f.once), f.cycle, omega (arith, f.owner, f.once))

-- In a server that a run without WAIT_TIMEOUT has reached, the free list has no session twice, and
-- its length with the number of sessions issued and not returned is `MAX_CONNECTION`.
pub pool-Reachable :
    {w : Server}
    → Reachable w
    → Distinct w.free_sessions × (length w.free_sessions + sessions_out w ≡ max_connection)
pool-Reachable r = let (issued, v) = Reachable-IsValid r in (v.free.distinct, v.free.counted)
