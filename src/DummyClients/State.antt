-- ===== src/DummyClients/State.antt =====
-- The data of Homework7/DummyClients/DummyClients: Session.h, DummyClientSession.h,
-- OverlappedIOContext.h, SessionManager.h and PacketInterface.h.
use gsp.Prelude.{Effect, ℕ, Bool, Option, some, List, [], ◌∷◌, ◌++◌}
pub use gsp.Prelude.{pure, ◌>>=◌, ◌>>◌, crash_assert, update}
use gsp.CircularBuffer.{CircularBuffer}

-- `IO_NONE` is the default of no context and has no constructor.
pub data IoType : Type 0 where
  io_send io_recv io_recv_zero io_disconnect io_connect : IoType

pub data DisconnectReason : Type 0 where
  dr_none dr_active dr_onconnect_error dr_io_request_error : DisconnectReason
  dr_completion_error dr_sendflush_error : DisconnectReason

pub data ThreadType : Type 0 where
  thread_main thread_io_worker : ThreadType

pub record IoContext : Type 0 where
  pub session : ℕ
  pub io_type : IoType
  pub len : ℕ
  pub buf : Option ℕ

-- The count of pending sends is the bit pattern of an `int`, the totals are those of an `int64_t`.
pub record DummyClientSession : Type 0 where
  pub recv_buffer : CircularBuffer
  pub send_buffer : CircularBuffer
  pub send_pending_count : ℕ
  pub ref_count : ℕ
  pub connected : Bool
  pub send_total : ℕ
  pub recv_total : ℕ

-- The sessions with `SessionManager`, the contexts that the kernel has, and the thread's
-- `LSendRequestSessionList` with its front at the head.
pub record Clients : Type 0 where
  pub session : ℕ → DummyClientSession
  pub ready_sessions : List ℕ
  pub current_connect_count : ℕ
  pub current_return_count : ℕ
  pub total_session_send : ℕ
  pub total_session_recv : ℕ
  pub pending : List IoContext
  pub requests : List ℕ

-- `PacketHeader`: two `short`s, as their bit patterns.
pub record PacketHeader : Type 0 where
  pub size : ℕ
  pub packet_type : ℕ

abbrev pub header_size : ℕ
header_size = 4

abbrev pub max_pkt_type : ℕ
max_pkt_type = 1024

-- `CLIENT_BUFSIZE`
abbrev pub client_buf_size : ℕ
client_buf_size = 65536

abbrev pub M : Type 0 → Type 0
M = Effect Clients

abbrev pub get : ℕ → M DummyClientSession
get s w = some (w.session s, w)

abbrev pub put : ℕ → DummyClientSession → M (Unit {0})
put s c w = some (tt, record w { session = update w.session s c })

-- The kernel takes a context whose operation has started.
abbrev pub start : IoContext → M (Unit {0})
start c w = some (tt, record w { pending = c ∷ w.pending })

-- `LSendRequestSessionList->push_back`
abbrev pub request : ℕ → M (Unit {0})
request s w = some (tt, record w { requests = w.requests ++ (s ∷ []) })
