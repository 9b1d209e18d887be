-- ===== src/Server/Leaks.antt =====
-- Sessions that the server loses: a session whose only reference is that of its issue and that has
-- no context with the kernel is never handled again, and so is never returned.
use gsp.Prelude.{
  ℕ, suc, ◌+◌, ◌<◌, ◌≡◌, refl, sym, ◌∙◌, ap, inl, true, false, some, List, [], ◌∷◌, arith, In,
  get_elem?, subst,
}
use gsp.Server.State.{thread_main, thread_io_worker, IoContext, Server, max_connection, Calls}
use gsp.Server.Counting.{total, holds, total-holds-le, total-remove_at, total_self}
use gsp.Server.{
  add_ref, release_ref, new_context, submit, post, delete_io_context, disconnect_request,
  post_accept,
}
use gsp.Server.Worker.{
  Completion, work, accept_sessions, issue_session, pop_session, handle_closed, dequeue, remove_at,
  moves_bytes,
}
use gsp.Server.Invariant.{IsValid, Facts, linked}
use gsp.Server.Issuing.{sessions_out, issue_session-IsValid}
use gsp.Server.Rounds.{work-Completes}
use gsp.Server.Runs.{Reachable, Reachable-IsValid, free-Reachable}

-- The session is out for good.
abbrev pub Lost : Server → ℕ → Type 0
Lost w s =
    ((w.session s).ref_count ≡ 1)
    × ((w.session s).connected ≡ false)
    × (total holds s w.pending ≡ 0)
    × (¬ In s w.free_sessions)

closed_result :
    (c : IoContext) (k : Calls) (w w' : Server)
    → (w.session c.session).ref_count ≡ 2
    → (w.session c.session).connected ≡ true
    → k.disconnect_started ≡ false
    → handle_closed c k w ≡ some (tt, w')
    → ((w'.session c.session).ref_count ≡ 1)
      × ((w'.session c.session).connected ≡ false)
      × (w'.pending ≡ w.pending)
unfolding handle_closed disconnect_request post new_context add_ref submit delete_io_context
    release_ref
closed_result c k w w' two on off e = ground arith

closed_round :
    (c : IoContext) (q : Completion) (k : Calls) (w : Server)
    → q.timed_out ≡ false
    → q.ok ≡ false
    → moves_bytes c.io_type ≡ true
    → work thread_io_worker c q k w ≡ handle_closed c k w
unfolding work
closed_round c q k w real bad moves = ground arith

dequeued_session :
    (i : ℕ) (bytes : List ℕ) (c : IoContext) (w : Server)
    → (((dequeue i bytes c w).session c.session).ref_count ≡ (w.session c.session).ref_count)
      × (((dequeue i bytes c w).session c.session).connected ≡ (w.session c.session).connected)
      × ((dequeue i bytes c w).pending ≡ remove_at w.pending i)
unfolding dequeue
dequeued_session i bytes c w = ground arith

-- A connected session has no context but the one that the kernel gives up, and so two references.
alone :
    {w : Server} {issued : ℕ → ℕ} (i : ℕ) (c : IoContext)
    → IsValid w issued
    → get_elem? w.pending i ≡ some c
    → (w.session c.session).connected ≡ true
    → ((w.session c.session).ref_count ≡ 2) × (total holds c.session (remove_at w.pending i) ≡ 0)
alone {w} {issued} i c v e on =
    let f : Facts w issued c.session 0 = v.facts c.session in
    let taken : total holds c.session w.pending
        ≡ 1 + total holds c.session (remove_at w.pending i) =
      total-remove_at holds c.session w.pending i c e
      ∙ total_self holds c.session c (remove_at w.pending i) refl in
    let joined : linked (w.session c.session) ≡ 1 = ground (arith, on) in
    (
      omega (
        arith,
        f.refs,
        f.once,
        f.owner,
        f.cycle,
        taken,
        joined,
        total-holds-le c.session w.pending,
      ),
      omega (
        arith,
        f.refs,
        f.once,
        f.owner,
        f.cycle,
        taken,
        joined,
        total-holds-le c.session w.pending,
      ),
    )

-- A round whose AcceptEx fails at once.
issue_result :
    (free : List ℕ) (s : ℕ) (w w' : Server)
    → w.free_sessions ≡ free
    → issue_session thread_main false w ≡ some ((s, false), w')
    → In s w.free_sessions
      × ((w.session s).ref_count ≡ 0 → (w'.session s).ref_count ≡ 1)
      × ((w'.session s).connected ≡ (w.session s).connected)
      × (w'.pending ≡ w.pending)
unfolding issue_session pop_session post_accept post new_context add_ref submit delete_io_context
    release_ref
issue_result [] s w w' q e = absurd (ground arith)
issue_result (x ∷ free) s w w' q e =
    let p : x ≡ s = ground arith in
    (subst (In s) (sym q) (inl p), (λ z. ground arith), ground arith, ground arith)

-- In a server that a run without WAIT_TIMEOUT has reached, a worker gets a failed receive or send
-- of a connected session, the last error not being WAIT_TIMEOUT, and DisconnectEx fails at once:
-- the round ends, and the session is lost, with the reference of its issue and no context whose
-- completion would release it.
pub failed_disconnect-Lost :
    {w : Server} (i : ℕ) (bytes : List ℕ) (c : IoContext) (q : Completion) (k : Calls)
    → Reachable w
    → get_elem? w.pending i ≡ some c
    → q.timed_out ≡ false
    → q.ok ≡ false
    → moves_bytes c.io_type ≡ true
    → (w.session c.session).connected ≡ true
    → k.disconnect_started ≡ false
    → (w' : Server) × (work thread_io_worker c q k (dequeue i bytes c w) ≡ some (tt, w'))
      × Lost w' c.session
failed_disconnect-Lost {w} i bytes c q k r e real bad moves on off =
    let (issued, v) = Reachable-IsValid r in
    let (w', issued', e', v') = work-Completes w issued i bytes c q k v e real in
    let (two, none_left) = alone i c v e on in
    let (refs, links, pends) = dequeued_session i bytes c w in
    let (one, closed, same) =
      closed_result c k (dequeue i bytes c w) w' (refs ∙ two) (links ∙ on) off
        (sym (closed_round c q k (dequeue i bytes c w) real bad moves) ∙ e') in
    (
      w',
      e',
      (
        one,
        closed,
        ap (total holds c.session) (same ∙ pends) ∙ none_left,
        λ j. omega (arith, v'.free.unused c.session j, one),
      ),
    )

-- In a server that a run without WAIT_TIMEOUT has reached, with a session free, AcceptEx fails at
-- once: `AcceptSessions` returns false, and the session that it took is lost.
pub failed_accept-Lost :
    {w : Server} (fuel : ℕ)
    → Reachable w
    → sessions_out w < max_connection
    → (s : ℕ) × (w' : Server) × (accept_sessions thread_main (λ _. false) (suc fuel) w
        ≡ some (false, w'))
      × In s w.free_sessions
      × Lost w' s
unfolding accept_sessions
failed_accept-Lost {w} fuel r more =
    let (issued, v) = Reachable-IsValid r in
    let (s, w', issued', e, v', out) = issue_session-IsValid false v more in
    let (taken, one, off, pends) = issue_result w.free_sessions s w w' refl e in
    let (unused, closed, none_held) = free-Reachable s r taken in
    (
      s,
      w',
      ground (arith, e),
      taken,
      (
        one unused,
        off ∙ closed,
        ap (total holds s) pends ∙ none_held,
        λ j. omega (arith, v'.free.unused s j, one unused),
      ),
    )
