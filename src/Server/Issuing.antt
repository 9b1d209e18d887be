-- ===== src/Server/Issuing.antt =====
-- `SessionManager::AcceptSessions`: every round takes a session that is free, and enough rounds
-- empty the free list.
use gsp.Prelude.{
  ℕ, zero, suc, ◌+◌, ◌<◌, ◌≡◌, Bool, true, false, none, some, arith, dec_lt, Bool-cases, inl, inr,
  sub_u64,
}
use gsp.Server.State.{io_accept, thread_main, Server, max_connection}
use gsp.Server.{post_accept}
use gsp.Server.Worker.{pop_session, issue_session, accept_sessions}
use gsp.Server.Invariant.{IsValid}
use gsp.Server.References.{add_ref-Handling, post-Handling, Handling-done}
use gsp.Server.Accepting.{free_cases, popped-Handling, issued_too, taken_out-Handling, issue_room}

-- The sessions that are out.
abbrev pub sessions_out : Server → ℕ
sessions_out w = sub_u64 w.issue_count w.return_count

-- A session is free whenever fewer than `MAX_CONNECTION` are out, so the round does not fault.
pub issue_session-IsValid :
    {w : Server} {issued : ℕ → ℕ} (started : Bool)
    → IsValid w issued
    → sessions_out w < max_connection
    → (s : ℕ) × (w' : Server) × (issued' : ℕ → ℕ) × (issue_session thread_main started w
        ≡ some ((s, started), w'))
      × IsValid w' issued'
      × (sessions_out w' ≡ sessions_out w + 1)
unfolding issue_session pop_session post_accept
issue_session-IsValid {w} {issued} started v more =
    let (s, rest, e) = free_cases w.free_sessions (omega (arith, v.free.counted)) in
    let (add, _) = add_ref-Handling (popped-Handling v s rest e) (omega arith) in
    let (w', posted, h, same) =
      post-Handling 0 io_accept 0 none started (taken_out-Handling v s rest e) (omega arith)
        (ground arith) (issue_room v s rest e) in
    (
      s,
      w',
      issued_too v s rest e,
      ground (arith, e, add, posted),
      Handling-done h,
      omega (arith, same.0, same.1, v.free.words, more),
    )

-- With enough fuel for the sessions that are free, `AcceptSessions` returns, and it returns true
-- only when every session is out.
pub accept_sessions-IsValid :
    (started : ℕ → Bool) (fuel : ℕ) (w : Server) (issued : ℕ → ℕ)
    → IsValid w issued
    → max_connection < sessions_out w + fuel
    → (b : Bool) × (w' : Server) × (issued' : ℕ → ℕ) × (accept_sessions thread_main started fuel w
        ≡ some (b, w'))
      × IsValid w' issued'
      × (b ≡ true → sessions_out w' ≡ max_connection)
unfolding accept_sessions
accept_sessions-IsValid started zero w issued v enough = absurd (omega (arith, v.free.counted))
accept_sessions-IsValid started (suc f) w issued v enough =
    elim (dec_lt (sessions_out w) max_connection) [
      | no full ↦ (true, w, issued, ground arith, v, λ _. omega (arith, v.free.counted))
      | yes more ↦
          let (s, w', issued', e, v', out) = issue_session-IsValid (started f) v more in
          elim (Bool-cases (started f)) [
            | inr off ↦ (false, w', issued', ground arith, v', λ q. absurd (ground arith))
            | inl on ↦
                let (b, w'', issued'', e'', v'', full) =
                  accept_sessions-IsValid started f w' issued' v' (omega arith) in
                (b, w'', issued'', ground arith, v'', full)
          ]
    ]
