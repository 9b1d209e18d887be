-- ===== src/Server/Worker.antt =====
-- The loops that drive the handlers: `SessionManager::AcceptSessions` and
-- `IocpManager::IoWorkerThread` of Homework4/EduServer_IOCP, with its PreReceiveCompletion,
-- ReceiveCompletion and SendCompletion.
use gsp.Prelude.{
  ℕ, zero, suc, Bool, true, false, not, ◌||◌, none, some, List, [], ◌∷◌, ltb, ◌==◌, if◌then◌else◌,
  add_u64, sub_u64,
}
use gsp.CircularBuffer.{CircularBuffer}
use gsp.CircularBuffer.Memory.{copy}
use gsp.Server.State.{
  IoType, io_send, io_recv, io_recv_zero, io_accept, io_disconnect, dr_io_request_error,
  dr_completion_error, ThreadType, IoContext, Server, max_connection, Calls, M, pure, ◌>>=◌, ◌>>◌,
  update,
}
use gsp.Server.{
  add_ref, delete_io_context, disconnect_request, disconnect_completion, pre_recv, post_recv,
  recv_completion, post_send, send_completion, post_accept, accept_completion,
}

-- `back()` of an empty list is a fault.
unfoldable pub pop_session : M ℕ
pop_session w = elim w.free_sessions [
  | [] ↦ none
  | s ∷ rest ↦ some (s, record w { free_sessions = rest; issue_count = add_u64 w.issue_count 1 })
]

-- One round of the loop of `AcceptSessions`.
unfoldable pub issue_session : ThreadType → Bool → M (ℕ × Bool)
issue_session thread started = do
  s ← pop_session
  add_ref s
  posted ← post_accept thread s started
  pure (s, posted)

-- `AcceptSessions` on fuel: `started f` is the answer of AcceptEx with `f` rounds left.
unfoldable pub accept_sessions : ThreadType → (ℕ → Bool) → ℕ → M Bool
accept_sessions thread started zero w = none
accept_sessions thread started (suc f) w =
    elim (ltb (sub_u64 w.issue_count w.return_count) max_connection) [
      | false ↦ some (true, w)
      | true ↦ elim (issue_session thread (started f) w) [
        | none ↦ none
        | some ((s, false), w') ↦ some (false, w')
        | some ((s, true), w') ↦ accept_sessions thread started f w'
      ]
    ]

-- What `GetQueuedCompletionStatus` returns beside the context: whether it is not 0, the number of
-- bytes, and whether `GetLastError` then says WAIT_TIMEOUT.
pub record Completion : Type 0 where
  pub ok : Bool
  pub transferred : ℕ
  pub timed_out : Bool

unfoldable pub pre_receive_completion : ℕ → Calls → M Bool
pre_receive_completion s k = post_recv s k.recv_started

unfoldable pub receive_completion : ℕ → ℕ → Calls → M Bool
receive_completion s transferred k = do recv_completion s transferred; post_send s k.send_started

-- The handler; the completion's name has a prefix in `IocpManager` too.
unfoldable pub sent_completion : IoContext → ℕ → Calls → M Bool
sent_completion c transferred k = do
  send_completion c.session transferred
  if c.len == transferred then pre_recv c.session k.recv_started else pure false

-- The `switch` of the worker.
unfoldable pub dispatch : ThreadType → IoContext → IoType → ℕ → Calls → M Bool
dispatch thread c io_disconnect transferred k = do disconnect_completion c.session; pure true
dispatch thread c io_accept transferred k = do accept_completion thread c.session k; pure true
dispatch thread c io_recv_zero transferred k = pre_receive_completion c.session k
dispatch thread c io_send transferred k = sent_completion c transferred k
dispatch thread c io_recv transferred k = receive_completion c.session transferred k

abbrev pub moves_bytes : IoType → Bool
moves_bytes io_recv = true
moves_bytes io_send = true
moves_bytes _ = false

-- What follows the `switch`.
unfoldable pub finish : IoContext → Bool → Calls → M (Unit {0})
finish c completion_ok k = do
  if completion_ok
      then pure tt
      else disconnect_request c.session dr_io_request_error k.disconnect_started
  delete_io_context c

unfoldable pub handle : ThreadType → IoContext → ℕ → Calls → M (Unit {0})
handle thread c transferred k = do
  completion_ok ← dispatch thread c c.io_type transferred k
  finish c completion_ok k

-- A failed send or receive, or one that moved nothing, closes the connection.
unfoldable pub handle_closed : IoContext → Calls → M (Unit {0})
handle_closed c k = do
  disconnect_request c.session dr_completion_error k.disconnect_started
  delete_io_context c

-- One round of the worker's loop, from the context that it got on.
unfoldable pub work : ThreadType → IoContext → Completion → Calls → M (Unit {0})
work thread c q k =
    if not q.ok || q.transferred == 0
    then (if q.timed_out
        then pure tt
        else if moves_bytes c.io_type
        then handle_closed c k
        else handle thread c q.transferred k)
    else handle thread c q.transferred k

abbrev pub remove_at : List IoContext → ℕ → List IoContext
remove_at [] i = []
remove_at (c ∷ cs) zero = cs
remove_at (c ∷ cs) (suc i) = c ∷ remove_at cs i

-- The received bytes, where the context says.
unfoldable pub received : IoContext → List ℕ → CircularBuffer → CircularBuffer
received c bytes b = elim c.io_type [
  | io_recv ↦ elim c.buf [ none ↦ b | some p ↦ record b { bytes = copy b.bytes p bytes } ]
  | _ ↦ b
]

-- The kernel gives up the context at position `i` of its own, after it has put the received bytes
-- where the context says.
unfoldable pub dequeue : ℕ → List ℕ → IoContext → Server → Server
dequeue i bytes c w = record w {
  pending = remove_at w.pending i;
  session =
      update w.session c.session
        (record (w.session c.session) { buffer = received c bytes (w.session c.session).buffer });
}
