-- ===== src/Server/State.antt =====
-- The data of Homework4/EduServer_IOCP/ClientSession.h and SessionManager.h, and the state monad
-- in which the handlers run: `none` is a CRASH_ASSERT that fails.
use gsp.Prelude.{Effect, ℕ, Bool, true, false, Option, some, List, ◌∷◌}
pub use gsp.Prelude.{pure, ◌>>=◌, ◌>>◌, crash_assert, update}
use gsp.CircularBuffer.{CircularBuffer}

-- `IO_NONE` is the default of no context and has no constructor.
pub data IoType : Type 0 where
  io_send io_recv io_recv_zero io_accept io_disconnect : IoType

pub data DisconnectReason : Type 0 where
  dr_none dr_active dr_onconnect_error dr_io_request_error dr_completion_error : DisconnectReason

pub data ThreadType : Type 0 where
  thread_main thread_io_worker thread_db_worker : ThreadType

-- `OverlappedIOContext`: its session, its type and its `WSABUF`, the buffer as an offset.
pub record IoContext : Type 0 where
  pub session : ℕ
  pub io_type : IoType
  pub len : ℕ
  pub buf : Option ℕ

pub record ClientSession : Type 0 where
  pub buffer : CircularBuffer
  pub ref_count : ℕ
  pub connected : Bool

-- The sessions with `SessionManager`. `free_sessions` has the back of `mFreeSessionList` at its
-- head. `pending` holds the contexts that the kernel has.
pub record Server : Type 0 where
  pub session : ℕ → ClientSession
  pub free_sessions : List ℕ
  pub issue_count : ℕ
  pub return_count : ℕ
  pub pending : List IoContext

-- `MAX_CONNECTION` and `BUFSIZE`
abbrev pub max_connection : ℕ
max_connection = 10000

abbrev pub buf_size : ℕ
buf_size = 65536

-- The results of the Windows calls that one handler makes: whether the call succeeded, and for the
-- overlapped ones whether the operation started (at once or as WSA_IO_PENDING).
pub record Calls : Type 0 where
  pub update_accept_context : Bool
  pub tcp_nodelay : Bool
  pub rcvbuf : Bool
  pub getpeername : Bool
  pub completion_port : Bool
  pub recv_started : Bool
  pub send_started : Bool
  pub disconnect_started : Bool

abbrev pub M : Type 0 → Type 0
M = Effect Server

abbrev pub get : ℕ → M ClientSession
get s w = some (w.session s, w)

abbrev pub put : ℕ → ClientSession → M (Unit {0})
put s c w = some (tt, record w { session = update w.session s c })

-- The kernel takes a context whose operation has started.
abbrev pub start : IoContext → M (Unit {0})
start c w = some (tt, record w { pending = c ∷ w.pending })

abbrev pub is_main : ThreadType → Bool
is_main thread_main = true
is_main _ = false

abbrev pub is_io_worker : ThreadType → Bool
is_io_worker thread_io_worker = true
is_io_worker _ = false
