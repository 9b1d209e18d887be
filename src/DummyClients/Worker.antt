-- ===== src/DummyClients/Worker.antt =====
-- The workers, Homework7/DummyClients/DummyClients/WorkerThread.cpp: `DoIocpJob` with the virtual
-- functions that it calls.
use gsp.Prelude.{ℕ, Bool, true, false, not, ◌||◌, Option, none, some, ◌==◌, if◌then◌else◌}
use gsp.DummyClients.State.{
  IoType, io_send, io_recv, io_recv_zero, io_disconnect, io_connect, dr_io_request_error,
  dr_completion_error, IoContext, M, pure, ◌>>=◌, ◌>>◌,
}
use gsp.DummyClients.{
  delete_io_context, disconnect_request, disconnect_completion, pre_recv, post_recv,
  send_completion, recv_completion, do_send_job,
}
use gsp.DummyClients.Packets.{Messages}
use gsp.DummyClients.Connect.{Setup, connect_completion}

-- What `GetQueuedCompletionStatus` gives beside the context: whether it is not 0, the number of
-- bytes, whether the key is CK_STOP_NOW, and whether `GetLastError` then says WAIT_TIMEOUT.
pub record Completion : Type 0 where
  pub ok : Bool
  pub transferred : ℕ
  pub stop_now : Bool
  pub timed_out : Bool

-- What the calls of a round answer.
pub record Answers : Type 0 where
  pub setup : Setup
  pub recv_started : Bool
  pub disconnect_started : Bool

abbrev pub moves_bytes : IoType → Bool
moves_bytes io_recv = true
moves_bytes io_send = true
moves_bytes _ = false

-- A send or a receive that failed, or moved nothing.
unfoldable pub handle_closed : IoContext → Answers → M Bool
handle_closed c k = do
  disconnect_request c.session dr_completion_error k.disconnect_started
  delete_io_context c
  pure true

-- `on_receive` is the virtual `OnReceive` of a session, `login_request` the message of the next
-- player.
module _ (P : Messages) (login_request : P.Message) (on_receive : ℕ → M (Unit {0})) where
  -- The `switch`.
  unfoldable pub dispatch : IoContext → IoType → ℕ → Answers → M Bool
  dispatch c io_connect transferred k = do
    connect_completion P c.session k.setup k.recv_started login_request
    pure true
  dispatch c io_disconnect transferred k = do disconnect_completion c.session; pure true
  dispatch c io_recv_zero transferred k = post_recv c.session k.recv_started
  dispatch c io_send transferred k = do
    send_completion c.session transferred
    pure (c.len == transferred)
  dispatch c io_recv transferred k = do
    recv_completion (on_receive c.session) c.session transferred
    pre_recv c.session k.recv_started

  -- The `switch` and what follows it.
  unfoldable pub handle : IoContext → ℕ → Answers → M Bool
  handle c transferred k = do
    completion_ok ← dispatch c c.io_type transferred k
    if completion_ok
        then pure tt
        else disconnect_request c.session dr_io_request_error k.disconnect_started
    delete_io_context c
    pure true

  -- The result is false when a stop is requested; a context that is null is a fault, or fails the
  -- assertion.
  unfoldable pub do_iocp_job : Option IoContext → Completion → Answers → M Bool
  do_iocp_job context q k =
      if not q.ok || q.transferred == 0
      then (if q.stop_now then pure false else elim context [
        | none ↦ (if q.timed_out then pure true else λ w. none)
        | some c ↦ (if moves_bytes c.io_type then handle_closed c k else handle c q.transferred k)
      ])
      else elim context [ none ↦ λ w. none | some c ↦ handle c q.transferred k ]

  -- One round of `Run`; the result is whether it goes on.
  unfoldable pub run_round :
      Option IoContext → Completion → Answers → (ℕ → Bool) → (ℕ → Bool) → ℕ → M Bool
  run_round context q k started disconnect_started fuel = do
    go_on ← do_iocp_job context q k
    if go_on then (do do_send_job started disconnect_started fuel; pure true) else pure false
