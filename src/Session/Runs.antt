-- ===== src/Session/Runs.antt =====
-- Whole runs of the server of Homework6/EduServer_IOCP: `PrepareClientSessions`, and then any
-- sequence of rounds of `AcceptClientSessions`, of rounds of `DoIocpJob` and of flushes by
-- `DoSendJob`, the answers of the kernel being arbitrary.
use mathlib.Core.Option.{some-injective}
use gsp.Prelude.{
  ℕ, ◌+◌, ◌^◌, ◌≤◌, ◌<◌, ◌≡◌, refl, sym, ◌∙◌, ap, subst, ◌⊎◌, inl, inr, Bool, true, false, Option,
  none, some, List, [], ◌∷◌, arith, length, In, get_elem?, update,
}
use gsp.CircularBuffer.Memory.{Bytes}
use gsp.Database.State.{thread_main, thread_io_worker}
use gsp.Session.State.{IoContext, Player, Sessions, M}
use gsp.Session.{
  flush_send, add_ref, new_context, submit, delete_io_context, release_ref, return_client_session,
}
use gsp.Session.Accepting.{prepare_client_sessions, issue_session, pop_session, post_accept}
use gsp.Session.IoThread.{Completion, Answers, do_iocp_job}
use gsp.Session.Counting.{total, holds, cycles, sends, jobs_of}
use gsp.Session.References.{IsValid, IsValid-Handling, Handling-done}
use gsp.Session.Flushing.{flush_send-Keeps}
use gsp.Session.Rounds.{do_iocp_job-Done}
use gsp.Session.Completing.{dequeue, dequeue-Handling, dequeue-Room}
use gsp.Session.Issuing.{prepare-IsValid, issue_session-Handling}
use gsp.Session.Growing.{flush_send-Keeps as flush_send-jobs, do_iocp_job_jobs, grown-cases}

-- The job of an I/O thread for the context `c`, which the kernel gives up with what it received.
abbrev pub complete : ℕ → List ℕ → IoContext → Completion → Answers → M (Unit {0})
complete i bytes c q k w = do_iocp_job thread_io_worker (some c) q k (dequeue i bytes c w)

-- A step that returns. There are no more database contexts than memory has room for.
pub data Step : Sessions → Sessions → Type 0 where
  issuing :
      {w w' : Sessions} (started b : Bool)
      → issue_session thread_main started w ≡ some (b, w')
      → Step w w'
  working :
      {w w' : Sessions} (i : ℕ) (bytes : List ℕ) (c : IoContext) (q : Completion) (k : Answers)
      → get_elem? w.pending i ≡ some c
      → length w.jobs < 2 ^ 30
      → complete i bytes c q k w ≡ some (tt, w')
      → Step w w'
  flushing :
      {w w' : Sessions} (s : ℕ) (started disconnect_started b : Bool)
      → flush_send s started disconnect_started w ≡ some (b, w')
      → Step w w'

pub data Reachable : Sessions → Type 0 where
  preparing :
      {w : Sessions} (storage : ℕ → Bytes × Bytes) (unset : Player)
      → prepare_client_sessions thread_main storage unset ≡ some w
      → Reachable w
  stepping : {w w' : Sessions} → Reachable w → Step w w' → Reachable w'

-- The run goes on.
pub data Later : Sessions → Sessions → Type 0 where
  here : {w : Sessions} → Later w w
  next : {w w' w'' : Sessions} → Later w w' → Step w' w'' → Later w w''

complete-IsValid :
    (w : Sessions) (issued : ℕ → ℕ) (i : ℕ) (bytes : List ℕ) (c : IoContext) (q : Completion)
    (k : Answers)
    → IsValid w issued
    → get_elem? w.pending i ≡ some c
    → length w.jobs < 2 ^ 30
    → (w' : Sessions) × (issued' : ℕ → ℕ) × (complete i bytes c q k w ≡ some (tt, w'))
      × IsValid w' issued'
unfolding dequeue
complete-IsValid w issued i bytes c q k v e few =
    do_iocp_job-Done (dequeue i bytes c w) issued c q k (dequeue-Handling i bytes c v e)
      (dequeue-Room i bytes c v e) few

same_state :
    {A : Type 0} {o : Option (A × Sessions)} {a b : A} {w w' : Sessions}
    → o ≡ some (a, w)
    → o ≡ some (b, w')
    → w ≡ w'
same_state e e' = ap (λ p. p.1) (some-injective _ _ (sym e ∙ e'))

-- Nothing can be issued from an empty list.
issue_session_empty :
    (started : Bool) (w : Sessions)
    → w.free_sessions ≡ []
    → issue_session thread_main started w ≡ none
unfolding issue_session pop_session
issue_session_empty started w e = ground (arith, e)

List-cases : (xs : List ℕ) → (xs ≡ []) ⊎ ((s : ℕ) × (rest : List ℕ) × (xs ≡ s ∷ rest))
List-cases [] = inl refl
List-cases (s ∷ rest) = inr (s, rest, refl)

Step-IsValid :
    {w w' : Sessions} (issued : ℕ → ℕ)
    → IsValid w issued
    → Step w w'
    → (issued' : ℕ → ℕ) × IsValid w' issued'
Step-IsValid {w} issued v (issuing started b e) = elim (List-cases w.free_sessions) [
  | inl empty ↦ absurd (ground (arith, issue_session_empty started w empty, e))
  | inr (s, rest, q) ↦
      let (w₁, e₁, h) = issue_session-Handling v s rest q started in
      let issued' = update issued s 1 in
      (issued', subst (λ x. IsValid x issued') (same_state e₁ e) (Handling-done h))
]
Step-IsValid {w} issued v (working i bytes c q k e few done) =
    let (w₁, issued', e', v') = complete-IsValid w issued i bytes c q k v e few in
    (issued', subst (λ x. IsValid x issued') (same_state e' done) v')
Step-IsValid issued v (flushing s started d b done) =
    let (b', w₁, e', h, _) = flush_send-Keeps started d (IsValid-Handling s v) (omega arith) in
    (issued, subst (λ x. IsValid x issued) (same_state e' done) (Handling-done h))

Reachable-IsValid : {w : Sessions} → Reachable w → (issued : ℕ → ℕ) × IsValid w issued
Reachable-IsValid (preparing storage unset e) =
    let (e', v) = prepare-IsValid storage unset in
    ((λ _. 0), subst (λ x. IsValid x (λ _. 0)) (some-injective _ _ (sym e' ∙ e)) v)
Reachable-IsValid (stepping r s) = let (issued, v) = Reachable-IsValid r in Step-IsValid issued v s

-- In any state that a run of the server has reached, `DoIocpJob` of an I/O thread for a context
-- that the kernel holds, there being fewer than 2 ^ 30 database contexts, returns, whatever the
-- calls answer: no assertion fails, and the run can go on from the result. `DoSendJob`, which the
-- thread calls next, is not part of this.
pub complete-Reachable :
    {w : Sessions} (i : ℕ) (bytes : List ℕ) (c : IoContext) (q : Completion) (k : Answers)
    → Reachable w
    → get_elem? w.pending i ≡ some c
    → length w.jobs < 2 ^ 30
    → (w' : Sessions) × (complete i bytes c q k w ≡ some (tt, w')) × Reachable w'
complete-Reachable {w} i bytes c q k r e few =
    let (issued, v) = Reachable-IsValid r in
    let (w', issued', e', v') = complete-IsValid w issued i bytes c q k v e few in
    (w', e', stepping r (working i bytes c q k e few e'))

-- In any state that a run of the server has reached, the references of a session are one for each
-- of its contexts with the kernel, one for each of its database contexts, and at most one more; at
-- most one of the contexts is for an accept or a receive, and at most one for a send, which then is
-- counted as pending.
pub refs_jobs-Reachable :
    {w : Sessions} (t : ℕ)
    → Reachable w
    → (total holds t w.pending + jobs_of t w.jobs ≤ (w.session t).ref_count)
      × ((w.session t).ref_count ≤ total holds t w.pending + jobs_of t w.jobs + 1)
      × (total cycles t w.pending ≤ 1)
      × (total sends t w.pending ≤ (w.session t).send_pending_count)
      × ((w.session t).send_pending_count ≤ 1)
refs_jobs-Reachable t r =
    let (issued, v) = Reachable-IsValid r in
    let f = v t in
    (omega (arith, f.refs), omega (arith, f.refs, f.once), f.cycle, omega (arith, f.sent), f.count)

issue_session_jobs :
    (started b : Bool) (w w' : Sessions)
    → issue_session thread_main started w ≡ some (b, w')
    → w'.jobs ≡ w.jobs
unfolding issue_session pop_session post_accept add_ref new_context submit delete_io_context
    release_ref return_client_session
issue_session_jobs true b w w' e = ground arith
issue_session_jobs false b w w' e = ground arith

Step-jobs_of : {w w' : Sessions} (t : ℕ) → Step w w' → jobs_of t w.jobs ≤ jobs_of t w'.jobs
unfolding jobs_of dequeue
Step-jobs_of {w} {w'} t (issuing started b e) =
    omega (arith, ap (jobs_of t) (issue_session_jobs started b w w' e))
Step-jobs_of {w} {w'} t (working i bytes c q k e few done) =
    let after = do_iocp_job_jobs thread_io_worker (some c) q k (dequeue i bytes c w) w' tt done in
    elim (grown-cases (some c) k (dequeue i bytes c w)) [
      | inl same ↦ omega (arith, ap (jobs_of t) (after ∙ same))
      | inr (s, more) ↦ omega (arith, ap (jobs_of t) (after ∙ more))
    ]
Step-jobs_of {w} {w'} t (flushing s started d b e) =
    omega (arith, ap (jobs_of t) (flush_send-jobs s started d w b w' e))

Later-jobs_of : {w w' : Sessions} (t : ℕ) → Later w w' → jobs_of t w.jobs ≤ jobs_of t w'.jobs
Later-jobs_of t here = omega arith
Later-jobs_of t (next l s) = omega (arith, Later-jobs_of t l, Step-jobs_of t s)

Later-Reachable : {w w' : Sessions} → Reachable w → Later w w' → Reachable w'
Later-Reachable r here = r
Later-Reachable r (next l s) = stepping (Later-Reachable r l) s

-- Once a session has a database context in a state that a run of the server has reached, it has a
-- reference and is not in the free list, then and however the run goes on.
pub held-Later :
    {w w' : Sessions} (t : ℕ)
    → Reachable w
    → Later w w'
    → 1 ≤ jobs_of t w.jobs
    → (1 ≤ (w'.session t).ref_count) × (¬ In t w'.free_sessions)
held-Later {w} {w'} t r l some_job =
    let (issued, v) = Reachable-IsValid (Later-Reachable r l) in
    let f = v t in
    let held : 1 ≤ (w'.session t).ref_count = omega (arith, f.refs, Later-jobs_of t l, some_job) in
    (held, λ i. omega (arith, f.unused i, held))
