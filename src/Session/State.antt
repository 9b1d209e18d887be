-- ===== src/Session/State.antt =====
-- The data of Homework6/EduServer_IOCP/Session.h, OverlappedIOContext.h, Player.h and DBContext.h
-- for the sessions of clients, with their manager, and the state monad of their operations: `none`
-- is a CRASH_ASSERT that fails.
use gsp.Prelude.{Effect, ℕ, Bool, Option, some, List, [], ◌∷◌, ◌++◌}
pub use gsp.Prelude.{pure, ◌>>=◌, ◌>>◌, crash_assert, update}
use gsp.CircularBuffer.{CircularBuffer}
use gsp.Database.State.{Job, Variables}

-- `IO_NONE` is the default of no context and has no constructor.
pub data IoType : Type 0 where
  io_send io_recv io_recv_zero io_accept io_disconnect io_connect : IoType

pub data DisconnectReason : Type 0 where
  dr_none dr_active dr_onconnect_error dr_io_request_error : DisconnectReason
  dr_completion_error dr_sendflush_error : DisconnectReason

pub record IoContext : Type 0 where
  pub session : ℕ
  pub io_type : IoType
  pub len : ℕ
  pub buf : Option ℕ

-- An `int` or a `float` is its bit pattern; a text is the characters before the first 0 of its
-- array.
pub record Player : Type 0 where
  pub player_id : ℕ
  pub pos_x : ℕ
  pub pos_y : ℕ
  pub pos_z : ℕ
  pub is_valid : Bool
  pub player_name : List ℕ
  pub comment : List ℕ

-- `DatabaseJobContext`, with its class and the members of that class.
pub record DatabaseJob : Type 0 where
  pub session_object : ℕ
  pub job : Job
  pub variables : Variables
  pub success : Bool

-- `send_pending_count` is the bit pattern of a 32-bit `int`.
pub record Session : Type 0 where
  pub recv_buffer : CircularBuffer
  pub send_buffer : CircularBuffer
  pub send_pending_count : ℕ
  pub ref_count : ℕ
  pub connected : Bool
  pub player : Player

-- The sessions with `ClientSessionManager`, the contexts that the kernel has, and the thread's
-- `LSendRequestSessionList` with its front at the head. `jobs` are the database contexts that
-- exist, the last one first; `next_pid` is the `id` of `AcceptCompletion`, an `int`.
pub record Sessions : Type 0 where
  pub session : ℕ → Session
  pub free_sessions : List ℕ
  pub issue_count : ℕ
  pub return_count : ℕ
  pub pending : List IoContext
  pub requests : List ℕ
  pub jobs : List DatabaseJob
  pub next_pid : ℕ

abbrev pub M : Type 0 → Type 0
M = Effect Sessions

abbrev pub get : ℕ → M Session
get s w = some (w.session s, w)

abbrev pub put : ℕ → Session → M (Unit {0})
put s c w = some (tt, record w { session = update w.session s c })

-- The kernel takes a context whose operation has started.
abbrev pub start : IoContext → M (Unit {0})
start c w = some (tt, record w { pending = c ∷ w.pending })

-- `LSendRequestSessionList->push_back`
abbrev pub request : ℕ → M (Unit {0})
request s w = some (tt, record w { requests = w.requests ++ (s ∷ []) })
