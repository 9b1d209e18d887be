-- ===== src/Server/Rounds.antt =====
-- A whole round of the worker: no assertion fails, and the reference counts are in order again.
use gsp.Prelude.{
  ℕ, ◌≡◌, refl, ◌⊎◌, inl, inr, Bool, true, false, not, ◌&&◌, ◌||◌, Option, some, List, arith, ◌==◌,
  Bool-cases, get_elem?,
}
use gsp.Server.State.{
  IoType, io_send, io_recv, io_recv_zero, io_accept, io_disconnect, dr_io_request_error,
  dr_completion_error, thread_io_worker, IoContext, Server, Calls,
}
use gsp.Server.Counting.{total, cycles}
use gsp.CircularBuffer
use gsp.CircularBuffer.{CircularBuffer}
use gsp.Server.{delete_io_context, recv_completion, send_completion}
use gsp.Server.Worker.{
  Completion, pre_receive_completion, receive_completion, sent_completion, dispatch, finish, handle,
  handle_closed, work, moves_bytes, dequeue,
}
use gsp.Server.Invariant.{IsValid, Handling, Room, dequeue-Handling, dequeue-Room}
use gsp.Server.References.{release_ref-IsValid}
use gsp.Server.Handlers.{
  Keeps, retire, disconnect_request-Keeps, pre_recv-Keeps, post_recv-Keeps, buffer-Handling,
  post_send-Keeps, accept_completion-Keeps, disconnect_completion-Keeps,
}

-- The action succeeds and leaves a server in order between two rounds.
abbrev pub Completes : Option (Unit {0} × Server) → Type 0
Completes o = (w : Server) × (issued : ℕ → ℕ) × (o ≡ some (tt, w)) × IsValid w issued

finish-Completes :
    {w : Server} {issued : ℕ → ℕ} (c : IoContext) (completion_ok : Bool) (k : Calls)
    → Handling w issued c.session 1
    → Completes (finish c completion_ok k w)
unfolding finish delete_io_context
finish-Completes {w} {issued} c true k h =
    let (w', e, v) = release_ref-IsValid h in (w', issued, e, v)
finish-Completes {w} {issued} c false k h =
    let (a, w', e, h') = disconnect_request-Keeps h dr_io_request_error k.disconnect_started in
    let (w'', e', v) = release_ref-IsValid h' in (w'', issued, ground arith, v)

handle_closed-Completes :
    {w : Server} {issued : ℕ → ℕ} (c : IoContext) (k : Calls)
    → Handling w issued c.session 1
    → Completes (handle_closed c k w)
unfolding handle_closed delete_io_context
handle_closed-Completes {w} {issued} c k h =
    let (a, w', e, h') = disconnect_request-Keeps h dr_completion_error k.disconnect_started in
    let (w'', e', v) = release_ref-IsValid h' in (w'', issued, ground arith, v)

-- Some handler also retires the session's own reference.
abbrev Dispatches : ℕ → Option (Bool × Server) → Type 0
Dispatches s o = (issued : ℕ → ℕ) × Keeps issued s o

module _ {w : Server} {issued : ℕ → ℕ} {s : ℕ} (h : Handling w issued s 1)
    (idle : total cycles s w.pending ≡ 0) (k : Calls) where
  receive_completion-Keeps :
      (transferred : ℕ) → Keeps issued s (receive_completion s transferred k w)
  unfolding receive_completion recv_completion
  receive_completion-Keeps transferred =
      let b : CircularBuffer = CircularBuffer.commit (w.session s).buffer transferred in
      post_send-Keeps (buffer-Handling h b) k.send_started idle

  sent_completion-Keeps :
      (c : IoContext) (transferred : ℕ)
      → c.session ≡ s
      → Keeps issued s (sent_completion c transferred k w)
  unfolding sent_completion send_completion
  sent_completion-Keeps c transferred e = rw e (elim (Bool-cases (c.len == transferred)) [
    | inr part ↦ (false, _, ground arith, buffer-Handling h b)
    | inl whole ↦
        let (a, w', e', h') = pre_recv-Keeps (buffer-Handling h b) k.recv_started idle in
        (a, w', ground arith, h')
  ])
    where
      b : CircularBuffer
      b = CircularBuffer.remove (w.session s).buffer transferred

dispatch-Dispatches :
    {w : Server} {issued : ℕ → ℕ} (c : IoContext) (io_type : IoType) (transferred : ℕ) (k : Calls)
    → Handling w issued c.session 1
    → Room w issued c.session io_type
    → Dispatches c.session (dispatch thread_io_worker c io_type transferred k w)
unfolding dispatch pre_receive_completion
dispatch-Dispatches {w} {issued} c io_disconnect transferred k h room =
    let (a, w', e, h') = disconnect_completion-Keeps h room in
    (retire issued c.session, (true, w', ground arith, h'))
dispatch-Dispatches {w} {issued} c io_accept transferred k h room =
    let (a, w', e, h') = accept_completion-Keeps h room k in (issued, (true, w', ground arith, h'))
dispatch-Dispatches {w} {issued} c io_recv_zero transferred k h room =
    (issued, post_recv-Keeps h k.recv_started (omega (arith, room.0)))
dispatch-Dispatches {w} {issued} c io_send transferred k h room =
    (issued, sent_completion-Keeps h (omega (arith, room.0)) k c transferred refl)
dispatch-Dispatches {w} {issued} c io_recv transferred k h room =
    (issued, receive_completion-Keeps h (omega (arith, room.0)) k transferred)

handle-Completes :
    {w : Server} {issued : ℕ → ℕ} (c : IoContext) (transferred : ℕ) (k : Calls)
    → Handling w issued c.session 1
    → Room w issued c.session c.io_type
    → Completes (handle thread_io_worker c transferred k w)
unfolding handle
handle-Completes {w} {issued} c transferred k h room =
    let (issued', (b, w', e, h')) = dispatch-Dispatches c c.io_type transferred k h room in
    let (w'', issued'', e', v) = finish-Completes c b k h' in (w'', issued'', ground arith, v)

work_cases :
    (c : IoContext) (q : Completion) (k : Calls) (w : Server)
    → q.timed_out ≡ false
    → (work thread_io_worker c q k w ≡ handle thread_io_worker c q.transferred k w)
      ⊎ (work thread_io_worker c q k w ≡ handle_closed c k w)
unfolding work
work_cases c q k w real =
    elim (Bool-cases ((not q.ok || q.transferred == 0) && moves_bytes c.io_type)) [
      | inl closed ↦ inr (ground arith)
      | inr open_still ↦ inl (ground arith)
    ]

-- A completed operation, whatever the Windows calls of its handler answer: no assertion fails, and
-- the reference counts are in order again.
pub work-Completes :
    (w : Server) (issued : ℕ → ℕ) (i : ℕ) (bytes : List ℕ) (c : IoContext) (q : Completion)
    (k : Calls)
    → IsValid w issued
    → get_elem? w.pending i ≡ some c
    → q.timed_out ≡ false
    → Completes (work thread_io_worker c q k (dequeue i bytes c w))
work-Completes w issued i bytes c q k v e real =
    let h : Handling (dequeue i bytes c w) issued c.session 1 = dequeue-Handling i bytes c v e in
    elim (work_cases c q k (dequeue i bytes c w) real) [
      | inl p ↦ rw p (handle-Completes c q.transferred k h (dequeue-Room i bytes c v e))
      | inr p ↦ rw p (handle_closed-Completes c k h)
    ]
