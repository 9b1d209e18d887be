-- ===== src/DummyClients/Jobs.antt =====
-- A round of a worker for a completed operation of a client, and the reference counts.
use gsp.Prelude.{
  ℕ, ◌≡◌, refl, inl, inr, Bool, true, false, not, ◌&&◌, ◌||◌, Option, some, arith, ◌==◌, Bool-cases,
}
use gsp.CircularBuffer
use gsp.CircularBuffer.{CircularBuffer}
use gsp.DummyClients.State.{
  IoType, io_send, io_recv, io_recv_zero, io_disconnect, io_connect, dr_io_request_error,
  dr_completion_error, IoContext, Clients, M, pure, ◌>>=◌, update,
}
use gsp.DummyClients.{delete_io_context}
use gsp.DummyClients.Packets.{Messages}
use gsp.DummyClients.Worker.{
  Completion, Answers, dispatch, handle, handle_closed, do_iocp_job, moves_bytes,
}
use gsp.DummyClients.Counting.{total, cycles, sends}
use gsp.DummyClients.References.{IsValid, Handling, Room, Handling-done, release_ref-Handling}
use gsp.DummyClients.Handlers.{
  Keeps, disconnect_request-Keeps, pre_recv-Keeps, post_recv-Keeps, send_completion-Keeps,
  recv_completion-Keeps,
}
use gsp.DummyClients.Operations.{
  Handling-drop, connect_completion-Keeps, disconnect_completion-Keeps,
}

-- What a round leaves behind, for some account of the sessions that are out.
abbrev pub Done : Option (Bool × Clients) → Type 0
Done o = (w : Clients) × (issued : ℕ → ℕ) × (o ≡ some (true, w)) × IsValid w issued

-- The reference of the context is given up.
delete-Done :
    {w : Clients} {issued : ℕ → ℕ} (c : IoContext) (sending : ℕ)
    → Handling w issued c.session 1 sending
    → Done ((delete_io_context c >>= λ _. pure true) w)
unfolding delete_io_context
delete-Done {w} {issued} c sending h =
    let (w', e, h', _, _) = release_ref-Handling 0 sending h in
    (w', issued, ground (arith, e), Handling-done (Handling-drop h'))

closed-Done :
    {w : Clients} {issued : ℕ → ℕ} (c : IoContext) (k : Answers) (sending : ℕ)
    → Handling w issued c.session 1 sending
    → Done (handle_closed c k w)
unfolding handle_closed
closed-Done {w} {issued} c k sending h =
    let (_, w₁, e, h₁, _) =
      disconnect_request-Keeps h (omega arith) dr_completion_error k.disconnect_started in
    let (w', issued', e', v) = delete-Done c sending h₁ in (w', issued', ground (arith, e, e'), v)

-- What the `switch` leaves behind: the result, and the counts with the reference of the context.
abbrev Dispatched : ℕ → Option (Bool × Clients) → Type 0
Dispatched s o =
    (b : Bool) × (w : Clients) × (issued : ℕ → ℕ) × (o ≡ some (b, w)) × Handling w issued s 1 0

module _ (P : Messages) (login_request : P.Message) (on_receive : ℕ → M (Unit {0})) where
  -- How `OnReceive` behaves after the commit of `transferred` bytes.
  abbrev pub Receives : ℕ → ℕ → Clients → (ℕ → ℕ) → Type 0
  Receives s transferred w issued =
      (w₁ : Clients)
      → Handling w₁ issued s 1 0
      → (w₁.session s).recv_buffer ≡ CircularBuffer.commit (w.session s).recv_buffer transferred
      → Keeps issued s 1 0 (total cycles s w₁.pending) (on_receive s w₁)

  dispatch-Dispatched :
      (w : Clients) (issued : ℕ → ℕ) (c : IoContext) (io_type : IoType) (transferred : ℕ)
      (k : Answers)
      → Handling w issued c.session 1 (sends io_type)
      → Room w issued c.session 0 io_type
      → (k.setup.no_delay_set && k.setup.receive_buffer_set) ≡ true
      → (io_type ≡ io_recv → Receives c.session transferred w issued)
      → Dispatched c.session (dispatch P login_request on_receive c io_type transferred k w)
  unfolding dispatch
  dispatch-Dispatched w issued c io_send transferred k h room set receives =
      let (_, w', e, h', _) = send_completion-Keeps transferred h in
      (c.len == transferred, w', issued, ground (arith, e), h')
  dispatch-Dispatched w issued c io_recv transferred k h room set receives =
      let (_, w₁, e, h₁, few) =
        recv_completion-Keeps (on_receive c.session) transferred (receives refl) h in
      let (b, w', e', h', _) =
        pre_recv-Keeps h₁ (omega arith) k.recv_started (omega (arith, room.0, few)) in
      (b, w', issued, ground (arith, e, e'), h')
  dispatch-Dispatched w issued c io_recv_zero transferred k h room set receives =
      let (b, w', e, h', _) =
        post_recv-Keeps h (omega arith) k.recv_started (omega (arith, room.0)) in
      (b, w', issued, e, h')
  dispatch-Dispatched w issued c io_connect transferred k h room set receives =
      let (_, w', e, h', _) =
        connect_completion-Keeps h P k.setup k.recv_started login_request room set in
      (true, w', issued, ground (arith, e), h')
  dispatch-Dispatched w issued c io_disconnect transferred k h room set receives =
      let (_, w', e, h', _) = disconnect_completion-Keeps h room in
      (true, w', update issued c.session 0, ground (arith, e), h')

  handle-Done :
      (w : Clients) (issued : ℕ → ℕ) (c : IoContext) (transferred : ℕ) (k : Answers)
      → Handling w issued c.session 1 (sends c.io_type)
      → Room w issued c.session 0 c.io_type
      → (k.setup.no_delay_set && k.setup.receive_buffer_set) ≡ true
      → (c.io_type ≡ io_recv → Receives c.session transferred w issued)
      → Done (handle P login_request on_receive c transferred k w)
  unfolding handle
  handle-Done w issued c transferred k h room set receives =
      let (b, w₁, issued', e, h₁) =
        dispatch-Dispatched w issued c c.io_type transferred k h room set receives in
      elim (Bool-cases b) [
        | inl good ↦
            let (w', last, e', v) = delete-Done c 0 h₁ in (w', last, ground (arith, e, good, e'), v)
        | inr bad ↦
            let (_, w₂, e₂, h₂, _) =
              disconnect_request-Keeps h₁ (omega arith) dr_io_request_error k.disconnect_started in
            let (w', last, e', v) = delete-Done c 0 h₂ in
            (w', last, ground (arith, e, bad, e₂, e'), v)
      ]

  pub do_iocp_job-Done :
      (w : Clients) (issued : ℕ → ℕ) (c : IoContext) (q : Completion) (k : Answers)
      → Handling w issued c.session 1 (sends c.io_type)
      → Room w issued c.session 0 c.io_type
      → (k.setup.no_delay_set && k.setup.receive_buffer_set) ≡ true
      → q.stop_now ≡ false
      → (c.io_type ≡ io_recv → Receives c.session q.transferred w issued)
      → Done (do_iocp_job P login_request on_receive (some c) q k w)
  unfolding do_iocp_job
  do_iocp_job-Done w issued c q k h room set go receives =
      let (w₁, i₁, e₁, v₁) = closed-Done c k (sends c.io_type) h in
      let (w₂, i₂, e₂, v₂) = handle-Done w issued c q.transferred k h room set receives in
      elim (Bool-cases (not q.ok || q.transferred == 0)) [
        | inr moved ↦ (w₂, i₂, ground (arith, moved, e₂), v₂)
        | inl failed ↦ elim (Bool-cases (moves_bytes c.io_type)) [
          | inl bytes ↦ (w₁, i₁, ground (arith, failed, go, bytes, e₁), v₁)
          | inr none_moved ↦ (w₂, i₂, ground (arith, failed, go, none_moved, e₂), v₂)
        ]
      ]
