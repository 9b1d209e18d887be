-- ===== src/Session/Rounds.antt =====
-- `DoIocpJob` of Homework6/EduServer_IOCP/IOThread.cpp for a completed operation, and the reference
-- counts.
use gsp.Prelude.{
  ℕ, ◌^◌, ◌<◌, ◌≡◌, inl, inr, Bool, true, not, ◌||◌, Option, some, arith, ◌==◌, Bool-cases, length,
}
use gsp.Database.State.{thread_io_worker}
use gsp.Session.State.{
  IoType, io_send, io_recv, io_recv_zero, io_accept, io_disconnect, io_connect, dr_io_request_error,
  dr_completion_error, IoContext, Sessions, update,
}
use gsp.Session.{delete_io_context}
use gsp.Session.IoThread.{
  Completion, Answers, dispatch, handle, handle_closed, do_iocp_job, moves_bytes,
}
use gsp.Session.Counting.{sends}
use gsp.Session.References.{IsValid, Handling, Room, release_ref-IsValid}
use gsp.Session.Handlers.{
  disconnect_request-Keeps, pre_recv-Keeps, post_recv-Keeps, send_completion-Keeps,
  recv_completion-Keeps,
}
use gsp.Session.Flushing.{echo_back-Keeps}
use gsp.Session.Operations.{accept_completion-Handling, disconnect_completion-Handling}

-- What a round leaves behind, for some account of the sessions that are out.
abbrev pub Done : Option (Unit {0} × Sessions) → Type 0
Done o = (w : Sessions) × (issued : ℕ → ℕ) × (o ≡ some (tt, w)) × IsValid w issued

-- The reference of the context is given up.
delete-Done :
    {w : Sessions} {issued : ℕ → ℕ} (c : IoContext) (sending : ℕ)
    → Handling w issued c.session 1 sending
    → Done (delete_io_context c w)
unfolding delete_io_context
delete-Done {w} {issued} c sending h =
    let (w', e, v) = release_ref-IsValid sending h in (w', issued, e, v)

closed-Done :
    {w : Sessions} {issued : ℕ → ℕ} (c : IoContext) (k : Answers) (sending : ℕ)
    → Handling w issued c.session 1 sending
    → Done (handle_closed c k w)
unfolding handle_closed
closed-Done {w} {issued} c k sending h =
    let (_, w₁, e, h₁, _) =
      disconnect_request-Keeps h (omega arith) dr_completion_error k.disconnect_started in
    let (w', issued', e', v) = delete-Done c sending h₁ in (w', issued', ground (arith, e, e'), v)

-- What the `switch` leaves behind: the result, and the counts with the reference of the context.
abbrev Dispatched : ℕ → Option (Bool × Sessions) → Type 0
Dispatched s o =
    (b : Bool) × (w : Sessions) × (issued : ℕ → ℕ) × (o ≡ some (b, w)) × Handling w issued s 1 0

dispatch-Dispatched :
    (w : Sessions) (issued : ℕ → ℕ) (c : IoContext) (io_type : IoType) (transferred : ℕ)
    (k : Answers)
    → Handling w issued c.session 1 (sends io_type)
    → Room w issued c.session 0 io_type
    → length w.jobs < 2 ^ 30
    → Dispatched c.session (dispatch thread_io_worker c io_type transferred k w)
unfolding dispatch
dispatch-Dispatched w issued c io_send transferred k h room few =
    let (_, w', e, h', _) = send_completion-Keeps transferred h in
    (c.len == transferred, w', issued, ground (arith, e), h')
dispatch-Dispatched w issued c io_recv transferred k h room few =
    let (_, w₁, e₁, h₁, few₁) = recv_completion-Keeps transferred h in
    let (_, w₂, e₂, h₂, few₂) = echo_back-Keeps h₁ in
    let (b, w', e', h', _) =
      pre_recv-Keeps h₂ (omega arith) k.recv_started (omega (arith, room.0, few₁, few₂)) in
    (b, w', issued, ground (arith, e₁, e₂, e'), h')
dispatch-Dispatched w issued c io_recv_zero transferred k h room few =
    let (b, w', e, h', _) =
      post_recv-Keeps h (omega arith) k.recv_started (omega (arith, room.0)) in
    (b, w', issued, e, h')
dispatch-Dispatched w issued c io_accept transferred k h room few =
    let (w', e, h') =
      accept_completion-Handling k.setup k.recv_started k.disconnect_started h room few in
    (true, w', issued, ground (arith, e), h')
dispatch-Dispatched w issued c io_connect transferred k h room few = absurd (omega (arith, room.2))
dispatch-Dispatched w issued c io_disconnect transferred k h room few =
    let (w', e, h') = disconnect_completion-Handling h room in
    (true, w', update issued c.session 0, ground (arith, e), h')

handle-Done :
    (w : Sessions) (issued : ℕ → ℕ) (c : IoContext) (transferred : ℕ) (k : Answers)
    → Handling w issued c.session 1 (sends c.io_type)
    → Room w issued c.session 0 c.io_type
    → length w.jobs < 2 ^ 30
    → Done (handle thread_io_worker c transferred k w)
unfolding handle
handle-Done w issued c transferred k h room few =
    let (b, w₁, issued', e, h₁) =
      dispatch-Dispatched w issued c c.io_type transferred k h room few in
    elim (Bool-cases b) [
      | inl good ↦
          let (w', last, e', v) = delete-Done c 0 h₁ in (w', last, ground (arith, e, good, e'), v)
      | inr bad ↦
          let (_, w₂, e₂, h₂, _) =
            disconnect_request-Keeps h₁ (omega arith) dr_io_request_error k.disconnect_started in
          let (w', last, e', v) = delete-Done c 0 h₂ in
          (w', last, ground (arith, e, bad, e₂, e'), v)
    ]

pub do_iocp_job-Done :
    (w : Sessions) (issued : ℕ → ℕ) (c : IoContext) (q : Completion) (k : Answers)
    → Handling w issued c.session 1 (sends c.io_type)
    → Room w issued c.session 0 c.io_type
    → length w.jobs < 2 ^ 30
    → Done (do_iocp_job thread_io_worker (some c) q k w)
unfolding do_iocp_job
do_iocp_job-Done w issued c q k h room few =
    let (w₁, i₁, e₁, v₁) = closed-Done c k (sends c.io_type) h in
    let (w₂, i₂, e₂, v₂) = handle-Done w issued c q.transferred k h room few in
    elim (Bool-cases (not q.ok || q.transferred == 0)) [
      | inr moved ↦ (w₂, i₂, ground (arith, moved, e₂), v₂)
      | inl failed ↦ elim (Bool-cases (moves_bytes c.io_type)) [
        | inl bytes ↦ (w₁, i₁, ground (arith, failed, bytes, e₁), v₁)
        | inr none_moved ↦ (w₂, i₂, ground (arith, failed, none_moved, e₂), v₂)
      ]
    ]
