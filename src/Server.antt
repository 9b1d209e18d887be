-- ===== src/Server.antt =====
-- Homework4/EduServer_IOCP: ClientSession.cpp, SessionManager.cpp and the worker loop of
-- IocpManager.cpp. Sessions are numbered. A handler is an action on the server's state; what the
-- Windows calls answer is an argument. Of a session the socket, the address and the player are
-- left out: no branch here reads them.
pub mod State
pub mod Worker
pub mod Counting
pub mod Invariant
pub mod References
pub mod Handlers
pub mod Rounds
pub mod Accepting
pub mod Issuing
pub mod Runs
pub mod Leaks
mod Tests
use gsp.Prelude.{
  ℕ, ◌+◌, ◌-◌, ◌≡◌, zero, suc, Bool, true, false, not, ◌&&◌, ◌||◌, Option, none, some, List, [],
  ◌∷◌, ltb, ◌==◌, if◌then◌else◌, add_u64, sub_u64, to_u32, long_limit, length,
}
use gsp.CircularBuffer
use gsp.CircularBuffer.{CircularBuffer}
use gsp.CircularBuffer.Memory.{Bytes, copy}
use State.{
  IoType, io_send, io_recv, io_recv_zero, io_accept, io_disconnect, DisconnectReason,
  dr_onconnect_error, dr_io_request_error, dr_completion_error, ThreadType, IoContext,
  ClientSession, Server, max_connection, buf_size, Calls, M, pure, ◌>>=◌, ◌>>◌, crash_assert, get,
  put, start, is_main, is_io_worker,
}

-- `ClientSession::ClientSession`
unfoldable pub new_session : Bytes → ClientSession
new_session bytes = record {
  buffer = CircularBuffer.make bytes buf_size;
  ref_count = 0;
  connected = false;
}

-- `SessionReset`, without the new socket and the job that resets the player.
unfoldable pub session_reset : ClientSession → ClientSession
session_reset c = record {
  buffer = CircularBuffer.buffer_reset c.buffer;
  ref_count = 0;
  connected = false;
}

-- `SessionManager::ReturnClientSession`
unfoldable pub return_client_session : ℕ → M (Unit {0})
unfolding session_reset
return_client_session s = do
  c ← get s
  crash_assert (not c.connected && c.ref_count == 0)
  put s (session_reset c)
  λ w. some (
    tt,
    record w { free_sessions = s ∷ w.free_sessions; return_count = add_u64 w.return_count 1 },
  )

unfoldable pub add_ref : ℕ → M (Unit {0})
add_ref s = do
  c ← get s
  crash_assert (ltb (c.ref_count + 1) long_limit)
  put s (record c { ref_count = c.ref_count + 1 })

-- A count of 0 would go to -1, which the assertion refuses.
unfoldable pub release_ref : ℕ → M (Unit {0})
release_ref s = do
  c ← get s
  crash_assert (ltb 0 c.ref_count)
  put s (record c { ref_count = c.ref_count - 1 })
  if c.ref_count == 1 then return_client_session s else pure tt

-- The constructor of a context takes a reference.
unfoldable pub new_context : ℕ → IoType → ℕ → Option ℕ → M IoContext
new_context s io_type len buf = do
  add_ref s
  pure (record { session = s; io_type = io_type; len = len; buf = buf })

-- Its storage goes back to its ObjectPool, which is modelled by itself.
unfoldable pub delete_io_context : IoContext → M (Unit {0})
delete_io_context c = release_ref c.session

-- The kernel has the context if the operation started; else it is deleted. The result is
-- whether it started.
unfoldable pub submit : IoContext → Bool → M Bool
submit c true = do start c; pure true
submit c false = do delete_io_context c; pure false

-- The shape of every overlapped call: a new context, and the call on it.
unfoldable pub post : ℕ → IoType → ℕ → Option ℕ → Bool → M Bool
post s io_type len buf started = do context ← new_context s io_type len buf; submit context started

-- The reason goes into the context and is only printed.
unfoldable pub disconnect_request : ℕ → DisconnectReason → Bool → M (Unit {0})
disconnect_request s dr started = do
  c ← get s
  put s (record c { connected = false })
  if c.connected then (do _ ← post s io_disconnect 0 none started; pure tt) else pure tt

-- `DisconnectCompletion` gives up the reference that was taken when the session was issued.
unfoldable pub disconnect_completion : ℕ → M (Unit {0})
disconnect_completion s = release_ref s

unfoldable pub pre_recv : ℕ → Bool → M Bool
pre_recv s started = do
  c ← get s
  if c.connected then post s io_recv_zero 0 none started else pure false

unfoldable pub post_recv : ℕ → Bool → M Bool
post_recv s started = do
  c ← get s
  if c.connected
      then (do
        let (free, b) = CircularBuffer.get_free_space_size c.buffer
        put s (record c { buffer = b })
        if free == 0 then pure false else (do
          let (len, b') = CircularBuffer.get_free_space_size b
          put s (record c { buffer = b' })
          post s io_recv (to_u32 len) (some (CircularBuffer.get_buffer b')) started))
      else pure false

unfoldable pub recv_completion : ℕ → ℕ → M (Unit {0})
recv_completion s transferred = do
  c ← get s
  put s (record c { buffer = CircularBuffer.commit c.buffer transferred })

unfoldable pub post_send : ℕ → Bool → M Bool
post_send s started = do
  c ← get s
  if c.connected
      then (if CircularBuffer.get_contiguious_bytes c.buffer == 0
          then pure true
          else post s io_send (to_u32 (CircularBuffer.get_contiguious_bytes c.buffer))
              (CircularBuffer.get_buffer_start c.buffer) started)
      else pure false

unfoldable pub send_completion : ℕ → ℕ → M (Unit {0})
send_completion s transferred = do
  c ← get s
  put s (record c { buffer = CircularBuffer.remove c.buffer transferred })

unfoldable pub post_accept : ThreadType → ℕ → Bool → M Bool
post_accept thread s started = do crash_assert (is_main thread); post s io_accept 0 none started

-- `resultOk`: the five calls up to the first that fails.
abbrev pub setup_ok : Calls → Bool
setup_ok k =
    k.update_accept_context && k.tcp_nodelay && k.rcvbuf && k.getpeername && k.completion_port

-- The timer job for the player at the end is left out.
unfoldable pub accept_completion : ThreadType → ℕ → Calls → M (Unit {0})
accept_completion thread s k = do
  crash_assert (is_io_worker thread)
  c ← get s
  put s (record c { connected = true })
  crash_assert (not c.connected)
  if setup_ok k
      then (do _ ← pre_recv s k.recv_started; pure tt)
      else disconnect_request s dr_onconnect_error k.disconnect_started
