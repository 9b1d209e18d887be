-- ===== src/DummyClients.antt =====
-- The session of a dummy client, Homework7/DummyClients/DummyClients: Session.cpp with
-- OverlappedIOContext.cpp, and `OnRelease` of DummyClientSession.cpp. The locks are taken one
-- operation at a time.
pub mod State
pub mod Packets
pub mod Framing
pub mod Rounds
pub mod Receiving
pub mod Sending
pub mod Stalling
pub mod Connect
pub mod Worker
pub mod Login
pub mod Greeting
pub mod Connecting
pub mod Counting
pub mod References
pub mod Handlers
pub mod Handling
pub mod Flushing
pub mod Operations
pub mod Jobs
pub mod Completing
pub mod Starting
pub mod Runs
pub mod Preparing
mod Tests
mod ConnectTests
mod RunTests
use gsp.Prelude.{
  ℕ, zero, suc, ◌+◌, ◌-◌, ◌%◌, ◌^◌, Bool, true, false, ◌&&◌, Option, none, some, List, [], ◌∷◌, ltb,
  ◌==◌, if◌then◌else◌, add_u64, to_u32, long_limit, length, drop,
}
use gsp.CircularBuffer
use gsp.CircularBuffer.{CircularBuffer}
use gsp.CircularBuffer.Memory.{Bytes}
use State.{
  IoType, io_send, io_recv, io_recv_zero, io_disconnect, DisconnectReason, dr_sendflush_error,
  IoContext, DummyClientSession, Clients, client_buf_size, M, pure, ◌>>=◌, ◌>>◌, crash_assert, get,
  put, start,
}

-- `Session::Session` for `DummyClientSession::DummyClientSession`
unfoldable pub new_session : Bytes → Bytes → DummyClientSession
new_session recv_bytes send_bytes = record {
  recv_buffer = CircularBuffer.make recv_bytes client_buf_size;
  send_buffer = CircularBuffer.make send_bytes client_buf_size;
  send_pending_count = 0;
  ref_count = 0;
  connected = false;
  send_total = 0;
  recv_total = 0;
}

-- `SessionManager::DecreaseClientSession` and `IncreaseClientSession`
unfoldable pub decrease_client_session : M (Unit {0})
decrease_client_session w =
    some (tt, record w { current_return_count = (w.current_return_count + 1) % 2 ^ 32 })

unfoldable pub increase_client_session : M ℕ
increase_client_session w =
    let count : ℕ = (w.current_connect_count + 1) % 2 ^ 32 in
    some (count, record w { current_connect_count = count })

unfoldable pub on_release : ℕ → M (Unit {0})
on_release s = decrease_client_session

unfoldable pub add_ref : ℕ → M (Unit {0})
add_ref s = do
  c ← get s
  crash_assert (ltb (c.ref_count + 1) long_limit)
  put s (record c { ref_count = c.ref_count + 1 })

-- A count of 0 would go to -1, which the assertion refuses.
unfoldable pub release_ref : ℕ → M (Unit {0})
release_ref s = do
  c ← get s
  crash_assert (ltb 0 c.ref_count)
  put s (record c { ref_count = c.ref_count - 1 })
  if c.ref_count == 1 then on_release s else pure tt

unfoldable pub new_context : ℕ → IoType → ℕ → Option ℕ → M IoContext
new_context s io_type len buf = do
  add_ref s
  pure (record { session = s; io_type = io_type; len = len; buf = buf })

unfoldable pub delete_io_context : IoContext → M (Unit {0})
delete_io_context c = release_ref c.session

-- The kernel has the context if the operation started; else it is deleted. The result is
-- whether it started.
unfoldable pub submit : IoContext → Bool → M Bool
submit c true = do start c; pure true
submit c false = do delete_io_context c; pure false

-- `started` is the answer of DisconnectEx.
unfoldable pub disconnect_request : ℕ → DisconnectReason → Bool → M (Unit {0})
disconnect_request s reason started = do
  c ← get s
  put s (record c { connected = false })
  if c.connected
      then (do
        context ← new_context s io_disconnect 0 none
        submitted ← submit context started
        pure tt)
      else pure tt

-- Zero byte receive.
unfoldable pub pre_recv : ℕ → Bool → M Bool
pre_recv s started = do
  c ← get s
  if c.connected
      then (do context ← new_context s io_recv_zero 0 none; submit context started)
      else pure false

unfoldable pub post_recv : ℕ → Bool → M Bool
post_recv s started = do
  c ← get s
  if c.connected
      then (do
        let (free, b) = CircularBuffer.get_free_space_size c.recv_buffer
        put s (record c { recv_buffer = b })
        if free == 0 then pure false else (do
          context ← new_context s io_recv (to_u32 free) (some (CircularBuffer.get_buffer b))
          submit context started))
      else pure false

-- The tail of `FlushSend`, after `WSASend`.
unfoldable pub count_send : ℕ → Bool → Bool → M Bool
count_send s submitted disconnect_started = do
  c ← get s
  let count = (c.send_pending_count + 1) % 2 ^ 32
  if submitted
      then (do put s (record c { send_pending_count = count }); pure (count == 1))
      else (do disconnect_request s dr_sendflush_error disconnect_started; pure true)

unfoldable pub flush_send : ℕ → Bool → Bool → M Bool
flush_send s started disconnect_started = do
  c ← get s
  if c.connected
      then if CircularBuffer.get_contiguious_bytes c.send_buffer == 0
        then pure (c.send_pending_count == 0)
        else if ltb 0 c.send_pending_count && ltb c.send_pending_count long_limit
        then pure false
        else (do
          context ←
              new_context s io_send (to_u32 (CircularBuffer.get_contiguious_bytes c.send_buffer))
                (CircularBuffer.get_buffer_start c.send_buffer)
          submitted ← submit context started
          count_send s submitted disconnect_started)
      else (do disconnect_request s dr_sendflush_error disconnect_started; pure true)

-- `OnDisconnect` is empty.
unfoldable pub disconnect_completion : ℕ → M (Unit {0})
disconnect_completion s = release_ref s

unfoldable pub send_completion : ℕ → ℕ → M (Unit {0})
send_completion s transferred = do
  c ← get s
  put s (record c {
    send_buffer = CircularBuffer.remove c.send_buffer transferred;
    send_pending_count = (c.send_pending_count + (2 ^ 32 - 1)) % 2 ^ 32;
    send_total = add_u64 c.send_total transferred;
  })

-- `on_receive` is the virtual `OnReceive`, run between the commit and the total.
unfoldable pub recv_completion : M (Unit {0}) → ℕ → ℕ → M (Unit {0})
recv_completion on_receive s transferred = do
  c ← get s
  put s (record c { recv_buffer = CircularBuffer.commit c.recv_buffer transferred })
  on_receive
  d ← get s
  put s (record d { recv_total = add_u64 d.recv_total transferred })

-- `WorkerThread::DoSendJob` on fuel, one unit for each time round.
unfoldable pub do_send_job : (ℕ → Bool) → (ℕ → Bool) → ℕ → M (Unit {0})
do_send_job started disconnect_started zero w = none
do_send_job started disconnect_started (suc f) w = elim w.requests [
  | [] ↦ some (tt, w)
  | s ∷ rest ↦ elim (flush_send s (started f) (disconnect_started f) w) [
    | none ↦ none
    | some (true, w') ↦
        do_send_job started disconnect_started f (record w' { requests = drop 1 w'.requests })
    | some (false, w') ↦ do_send_job started disconnect_started f w'
  ]
]
