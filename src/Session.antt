-- ===== src/Session.antt =====
-- The operations of a client's session in Homework6/EduServer_IOCP: Session.cpp with
-- OverlappedIOContext.cpp, and `SessionReset`, `OnRelease` and `ReturnClientSession` of
-- ClientSession.cpp and ClientSessionManager.cpp. The locks are taken one operation at a time.
pub mod State
pub mod Flight
pub mod Outcomes
pub mod Stream
pub mod SendJob
pub mod Requests
pub mod Accepting
pub mod IoThread
pub mod Agreeing
pub mod Growing
pub mod Counting
pub mod References
pub mod Handlers
pub mod Flushing
pub mod Operations
pub mod Completing
pub mod Rounds
pub mod Issuing
pub mod Runs
mod Tests
mod ServerTests
mod RunTests
use gsp.Prelude.{
  ℕ, zero, suc, ◌+◌, ◌-◌, ◌%◌, ◌^◌, Bool, true, false, not, ◌&&◌, Option, none, some, List, [], ◌∷◌,
  ltb, leb, ◌==◌, if◌then◌else◌, add_u64, to_u32, long_limit, length, drop,
}
use gsp.CircularBuffer
use gsp.CircularBuffer.{CircularBuffer}
use gsp.CircularBuffer.Queue.{store, peek}
use State.{
  IoType, io_send, io_recv, io_recv_zero, io_disconnect, DisconnectReason, dr_sendflush_error,
  IoContext, Player, Session, Sessions, M, pure, ◌>>=◌, ◌>>◌, crash_assert, get, put, start,
  request,
}

-- `Player::PlayerReset`; the id is -1.
unfoldable pub player_reset : Player → Player
player_reset p = record {
  player_id = 2 ^ 32 - 1;
  pos_x = 0;
  pos_y = 0;
  pos_z = 0;
  is_valid = false;
  player_name = [];
  comment = [];
}

-- `SessionReset`, without the new socket. The pending count is not among what it resets.
unfoldable pub session_reset : Session → Session
session_reset c = record c {
  connected = false;
  ref_count = 0;
  recv_buffer = CircularBuffer.buffer_reset c.recv_buffer;
  send_buffer = CircularBuffer.buffer_reset c.send_buffer;
  player = player_reset c.player;
}

unfoldable pub return_client_session : ℕ → M (Unit {0})
unfolding session_reset
return_client_session s = do
  c ← get s
  crash_assert (not c.connected && c.ref_count == 0)
  put s (session_reset c)
  λ w. some (
    tt,
    record w { free_sessions = s ∷ w.free_sessions; return_count = add_u64 w.return_count 1 },
  )

-- `ClientSession::OnRelease`
abbrev pub on_release : ℕ → M (Unit {0})
on_release s = return_client_session s

unfoldable pub add_ref : ℕ → M (Unit {0})
add_ref s = do
  c ← get s
  crash_assert (ltb (c.ref_count + 1) long_limit)
  put s (record c { ref_count = c.ref_count + 1 })

-- A count of 0 would go to -1, which the assertion refuses.
unfoldable pub release_ref : ℕ → M (Unit {0})
release_ref s = do
  c ← get s
  crash_assert (ltb 0 c.ref_count)
  put s (record c { ref_count = c.ref_count - 1 })
  if c.ref_count == 1 then on_release s else pure tt

-- `OverlappedIOContext::OverlappedIOContext`
unfoldable pub new_context : ℕ → IoType → ℕ → Option ℕ → M IoContext
new_context s io_type len buf = do
  add_ref s
  pure (record { session = s; io_type = io_type; len = len; buf = buf })

unfoldable pub delete_io_context : IoContext → M (Unit {0})
delete_io_context c = release_ref c.session

-- The kernel has the context if the operation started; else it is deleted. The result is
-- whether it started.
unfoldable pub submit : IoContext → Bool → M Bool
submit c true = do start c; pure true
submit c false = do delete_io_context c; pure false

-- `started` is the answer of DisconnectEx.
unfoldable pub disconnect_request : ℕ → DisconnectReason → Bool → M (Unit {0})
disconnect_request s reason started = do
  c ← get s
  put s (record c { connected = false })
  if c.connected
      then (do
        context ← new_context s io_disconnect 0 none
        submitted ← submit context started
        pure tt)
      else pure tt

-- Zero byte receive.
unfoldable pub pre_recv : ℕ → Bool → M Bool
pre_recv s started = do
  c ← get s
  if c.connected
      then (do context ← new_context s io_recv_zero 0 none; submit context started)
      else pure false

unfoldable pub post_recv : ℕ → Bool → M Bool
post_recv s started = do
  c ← get s
  if c.connected
      then (do
        let (free, b) = CircularBuffer.get_free_space_size c.recv_buffer
        put s (record c { recv_buffer = b })
        if free == 0 then pure false else (do
          context ← new_context s io_recv (to_u32 free) (some (CircularBuffer.get_buffer b))
          submit context started))
      else pure false

unfoldable pub post_send : ℕ → List ℕ → M Bool
post_send s data_bytes = do
  c ← get s
  if c.connected
      then (do
        let (free, b) = CircularBuffer.get_free_space_size c.send_buffer
        put s (record c { send_buffer = b })
        if ltb free (length data_bytes)
            then pure false
            else (do request s; put s (record c { send_buffer = store b data_bytes }); pure true))
      else pure false

-- The tail of `FlushSend`, after `WSASend`.
unfoldable pub count_send : ℕ → Bool → Bool → M Bool
count_send s submitted disconnect_started = do
  c ← get s
  let count = (c.send_pending_count + 1) % 2 ^ 32
  if submitted
      then (do put s (record c { send_pending_count = count }); pure (count == 1))
      else (do disconnect_request s dr_sendflush_error disconnect_started; pure true)

unfoldable pub flush_send : ℕ → Bool → Bool → M Bool
flush_send s started disconnect_started = do
  c ← get s
  if c.connected
      then if CircularBuffer.get_contiguious_bytes c.send_buffer == 0
        then pure (c.send_pending_count == 0)
        else if ltb 0 c.send_pending_count && ltb c.send_pending_count long_limit
        then pure false
        else (do
          context ←
              new_context s io_send (to_u32 (CircularBuffer.get_contiguious_bytes c.send_buffer))
                (CircularBuffer.get_buffer_start c.send_buffer)
          submitted ← submit context started
          count_send s submitted disconnect_started)
      else (do disconnect_request s dr_sendflush_error disconnect_started; pure true)

unfoldable pub disconnect_completion : ℕ → M (Unit {0})
disconnect_completion s = release_ref s

unfoldable pub send_completion : ℕ → ℕ → M (Unit {0})
send_completion s transferred = do
  c ← get s
  put s (record c {
    send_buffer = CircularBuffer.remove c.send_buffer transferred;
    send_pending_count = (c.send_pending_count + (2 ^ 32 - 1)) % 2 ^ 32;
  })

unfoldable pub recv_completion : ℕ → ℕ → M (Unit {0})
recv_completion s transferred = do
  c ← get s
  put s (record c { recv_buffer = CircularBuffer.commit c.recv_buffer transferred })

-- The received bytes at the front go to the send buffer, if it has room for all of them.
unfoldable pub echo_back : ℕ → M (Unit {0})
echo_back s = do
  c ← get s
  let len = CircularBuffer.get_contiguious_bytes c.recv_buffer
  if len == 0 then pure tt else (do
    posted ← post_send s (peek c.recv_buffer)
    d ← get s
    if posted
        then put s (record d { recv_buffer = CircularBuffer.remove d.recv_buffer len })
        else pure tt)

-- `IOThread::DoSendJob` on fuel, one unit for each time round: the answers of the calls in the
-- round with `f` rounds left are `started f` and `disconnect_started f`.
unfoldable pub do_send_job : (ℕ → Bool) → (ℕ → Bool) → ℕ → M (Unit {0})
do_send_job started disconnect_started zero w = none
do_send_job started disconnect_started (suc f) w = elim w.requests [
  | [] ↦ some (tt, w)
  | s ∷ rest ↦ elim (flush_send s (started f) (disconnect_started f) w) [
    | none ↦ none
    | some (true, w') ↦
        do_send_job started disconnect_started f (record w' { requests = drop 1 w'.requests })
    | some (false, w') ↦ do_send_job started disconnect_started f w'
  ]
]
