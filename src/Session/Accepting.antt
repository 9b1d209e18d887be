-- ===== src/Session/Accepting.antt =====
-- Accepting clients, Homework6/EduServer_IOCP: `PostAccept` and `AcceptCompletion` of
-- ClientSession.cpp, and ClientSessionManager.cpp. What AcceptEx and the others answer is an
-- argument.
use gsp.Prelude.{
  ℕ, zero, suc, ◌+◌, ◌%◌, ◌^◌, Bool, true, false, not, ◌&&◌, Option, none, some, List, [], ◌∷◌, ltb,
  if◌then◌else◌, add_u64, sub_u64,
}
use gsp.CircularBuffer.{make}
use gsp.CircularBuffer.Memory.{Bytes}
use gsp.Database.State.{ThreadType, thread_main, thread_io_worker}
use gsp.Session.State.{
  io_accept, dr_onconnect_error, Player, Session, Sessions, M, ◌>>=◌, ◌>>◌, crash_assert, get, put,
}
use gsp.Session.{add_ref, new_context, submit, disconnect_request, pre_recv, player_reset}
use gsp.Session.Requests.{request_load}

abbrev pub is_main : ThreadType → Bool
is_main thread_main = true
is_main _ = false

abbrev pub is_io_worker : ThreadType → Bool
is_io_worker thread_io_worker = true
is_io_worker _ = false

unfoldable pub post_accept : ThreadType → ℕ → Bool → M Bool
post_accept thread s started = do
  crash_assert (is_main thread)
  context ← new_context s io_accept 0 none
  submit context started

-- The answers of the three setsockopt, of getpeername, and of CreateIoCompletionPort.
pub record Setup : Type 0 where
  pub update_accept_context : Bool
  pub tcp_no_delay : Bool
  pub recv_buffer_size : Bool
  pub peer_name : Bool
  pub registered : Bool

abbrev pub setup_ok : Setup → Bool
setup_ok k =
    k.update_accept_context
    && (k.tcp_no_delay && (k.recv_buffer_size && (k.peer_name && k.registered)))

-- `id++`
abbrev pub take_pid : M ℕ
take_pid w = some (w.next_pid, record w { next_pid = (w.next_pid + 1) % 2 ^ 32 })

-- A receive that does not start is only reported.
unfoldable pub accept_completion : ThreadType → ℕ → Setup → Bool → Bool → M (Unit {0})
accept_completion thread s k recv_started disconnect_started = do
  crash_assert (is_io_worker thread)
  c ← get s
  put s (record c { connected = true })
  crash_assert (not c.connected)
  if setup_ok k
      then (do _ ← pre_recv s recv_started; pid ← take_pid; request_load s pid)
      else disconnect_request s dr_onconnect_error disconnect_started

abbrev pub max_connection : ℕ
max_connection = 10000

abbrev pub client_buf_size : ℕ
client_buf_size = 65536

-- The constructor of `ClientSession`; the bytes of the fresh buffers are what is in their storage,
-- and `unset` is what is in the player's.
unfoldable pub new_session : Bytes → Bytes → Player → Session
new_session recv send unset = record {
  recv_buffer = make recv client_buf_size;
  send_buffer = make send client_buf_size;
  send_pending_count = 0;
  ref_count = 0;
  connected = false;
  player = player_reset unset;
}

-- `n` sessions, pushed back one after the other: the back is at the head.
unfoldable pub pushed_sessions : ℕ → List ℕ
pushed_sessions zero = []
pushed_sessions (suc n) = n ∷ pushed_sessions n

-- The sessions after `PrepareClientSessions`.
unfoldable pub prepare_client_sessions : ThreadType → (ℕ → Bytes × Bytes) → Player → Option Sessions
prepare_client_sessions thread storage unset =
    if is_main thread
    then some (record {
      session = λ s. new_session (storage s).0 (storage s).1 unset;
      free_sessions = pushed_sessions max_connection;
      issue_count = 0;
      return_count = 0;
      pending = [];
      requests = [];
      jobs = [];
      next_pid = 101;
    })
    else none

-- `back()` of an empty list is a fault.
unfoldable pub pop_session : M ℕ
pop_session w = elim w.free_sessions [
  | [] ↦ none
  | s ∷ rest ↦ some (s, record w { free_sessions = rest; issue_count = add_u64 w.issue_count 1 })
]

-- One round of the loop of `AcceptClientSessions`.
unfoldable pub issue_session : ThreadType → Bool → M Bool
issue_session thread started = do s ← pop_session; add_ref s; post_accept thread s started

-- `AcceptClientSessions` on fuel: `started f` is the answer of AcceptEx with `f` rounds left.
unfoldable pub accept_client_sessions : ThreadType → (ℕ → Bool) → ℕ → M Bool
accept_client_sessions thread started zero w = none
accept_client_sessions thread started (suc f) w =
    elim (ltb (sub_u64 w.issue_count w.return_count) max_connection) [
      | false ↦ some (true, w)
      | true ↦ elim (issue_session thread (started f) w) [
        | none ↦ none
        | some (false, w') ↦ some (false, w')
        | some (true, w') ↦ accept_client_sessions thread started f w'
      ]
    ]
