-- ===== src/Session/IoThread.antt =====
-- The I/O threads, Homework6/EduServer_IOCP/IOThread.cpp: `DoIocpJob`, and a round of `Run`.
use gsp.Prelude.{ℕ, Bool, true, false, not, ◌||◌, Option, none, some, ◌==◌, if◌then◌else◌}
use gsp.Database.State.{ThreadType}
use gsp.Session.State.{
  IoType, io_send, io_recv, io_recv_zero, io_accept, io_disconnect, io_connect, dr_io_request_error,
  dr_completion_error, IoContext, M, pure, ◌>>=◌, ◌>>◌,
}
use gsp.Session.{
  delete_io_context, disconnect_request, disconnect_completion, pre_recv, post_recv,
  send_completion, recv_completion, echo_back, do_send_job,
}
use gsp.Session.Accepting.{Setup, accept_completion}

-- What `GetQueuedCompletionStatus` gives beside the context: whether it is not 0, the number of
-- bytes, and whether `GetLastError` then says WAIT_TIMEOUT. The key CK_DB_RESULT, whose branch is
-- TODO in the source and which nothing posts, is left out.
pub record Completion : Type 0 where
  pub ok : Bool
  pub transferred : ℕ
  pub timed_out : Bool

-- What the calls of a round answer.
pub record Answers : Type 0 where
  pub setup : Setup
  pub recv_started : Bool
  pub disconnect_started : Bool

abbrev pub moves_bytes : IoType → Bool
moves_bytes io_recv = true
moves_bytes io_send = true
moves_bytes _ = false

-- A send or a receive that failed, or moved nothing.
unfoldable pub handle_closed : IoContext → Answers → M (Unit {0})
handle_closed c k = do
  disconnect_request c.session dr_completion_error k.disconnect_started
  delete_io_context c

-- The `switch`; a connect would take the client's session for a ServerSession, and faults.
unfoldable pub dispatch : ThreadType → IoContext → IoType → ℕ → Answers → M Bool
dispatch thread c io_connect transferred k = λ w. none
dispatch thread c io_disconnect transferred k = do disconnect_completion c.session; pure true
dispatch thread c io_accept transferred k = do
  accept_completion thread c.session k.setup k.recv_started k.disconnect_started
  pure true
dispatch thread c io_recv_zero transferred k = post_recv c.session k.recv_started
dispatch thread c io_send transferred k = do
  send_completion c.session transferred
  pure (c.len == transferred)
dispatch thread c io_recv transferred k = do
  recv_completion c.session transferred
  echo_back c.session
  pre_recv c.session k.recv_started

-- The `switch` and what follows it.
unfoldable pub handle : ThreadType → IoContext → ℕ → Answers → M (Unit {0})
handle thread c transferred k = do
  completion_ok ← dispatch thread c c.io_type transferred k
  if completion_ok
      then pure tt
      else disconnect_request c.session dr_io_request_error k.disconnect_started
  delete_io_context c

-- A context that is null is a fault, or fails the assertion.
unfoldable pub do_iocp_job : ThreadType → Option IoContext → Completion → Answers → M (Unit {0})
do_iocp_job thread context q k =
    if not q.ok || q.transferred == 0
    then elim context [
      | none ↦ (if q.timed_out then pure tt else λ w. none)
      | some c ↦
          (if moves_bytes c.io_type then handle_closed c k else handle thread c q.transferred k)
    ]
    else elim context [ none ↦ λ w. none | some c ↦ handle thread c q.transferred k ]

-- One round of `Run`.
unfoldable pub run_round :
    ThreadType
    → Option IoContext
    → Completion
    → Answers
    → (ℕ → Bool)
    → (ℕ → Bool)
    → ℕ
    → M (Unit {0})
run_round thread context q k started disconnect_started fuel = do
  do_iocp_job thread context q k
  do_send_job started disconnect_started fuel
