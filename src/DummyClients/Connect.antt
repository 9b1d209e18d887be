-- ===== src/DummyClients/Connect.antt =====
-- Connecting and the manager, Homework7/DummyClients/DummyClients: `PrepareSession`,
-- `ConnectRequest` and `ConnectCompletion` of DummyClientSession.cpp, and SessionManager.cpp. What
-- bind, ConnectEx and the others answer is an argument.
use gsp.Prelude.{
  ℕ, zero, suc, ◌+◌, Bool, true, false, not, ◌&&◌, none, some, List, [], ◌∷◌, ◌++◌, if◌then◌else◌,
  add_u64,
}
use gsp.CircularBuffer.Memory.{Bytes}
use gsp.DummyClients.State.{
  io_connect, dr_active, ThreadType, thread_main, thread_io_worker, Clients, M, pure, ◌>>=◌, ◌>>◌,
  crash_assert, get, put, update,
}
use gsp.DummyClients.{
  new_session, add_ref, new_context, submit, disconnect_request, pre_recv, increase_client_session,
}
use gsp.DummyClients.Packets.{Messages, login}

-- `bound` and `registered` are the answers of bind and CreateIoCompletionPort.
abbrev pub prepare_session : Bool → Bool → Bool
prepare_session bound registered = if bound then registered else false

-- The loop of `PrepareClientSessions` from the session `i` on, with `n` left; a session is `new`
-- storage for its buffers, and `prepared` whether it could be prepared.
unfoldable pub prepare_from : (ℕ → Bytes × Bytes) → (ℕ → Bool × Bool) → ℕ → ℕ → M Bool
prepare_from storage prepared zero i w = some (true, w)
prepare_from storage prepared (suc n) i w =
    let made : Clients = record w {
      session = update w.session i (new_session (storage i).0 (storage i).1);
    } in
    let rest =
      prepare_from storage prepared n (i + 1)
        (record made { ready_sessions = made.ready_sessions ++ (i ∷ []) }) in
    if prepare_session (prepared i).0 (prepared i).1 then rest else some (false, made)

-- `max_connection` is the global MAX_CONNECTION.
unfoldable pub prepare_client_sessions :
    ThreadType → ℕ → (ℕ → Bytes × Bytes) → (ℕ → Bool × Bool) → M Bool
prepare_client_sessions thread_io_worker max_connection storage prepared w = none
prepare_client_sessions thread_main max_connection storage prepared w =
    prepare_from storage prepared max_connection 0 w

-- `started` is the answer of ConnectEx. The result is true also when it fails.
unfoldable pub connect_request : ℕ → Bool → M Bool
connect_request s started = do
  c ← get s
  crash_assert (not c.connected)
  context ← new_context s io_connect 0 none
  submitted ← submit context started
  pure true

unfoldable pub connect_each : (ℕ → Bool) → List ℕ → M Bool
connect_each started [] = pure true
connect_each started (s ∷ ss) = do
  add_ref s
  requested ← connect_request s (started s)
  if requested then connect_each started ss else pure false

unfoldable pub connect_sessions : (ℕ → Bool) → M Bool
connect_sessions started w = connect_each started w.ready_sessions w

unfoldable pub disconnect_each : (ℕ → Bool) → List ℕ → M (Unit {0})
disconnect_each started [] = pure tt
disconnect_each started (s ∷ ss) = do
  c ← get s
  if c.connected then disconnect_request s dr_active (started s) else pure tt
  disconnect_each started ss

unfoldable pub disconnect_sessions : (ℕ → Bool) → M (Unit {0})
disconnect_sessions started w = disconnect_each started w.ready_sessions w

unfoldable pub add_totals : List ℕ → Clients → Clients
add_totals [] w = w
add_totals (s ∷ ss) w = add_totals ss (record w {
  total_session_send = add_u64 w.total_session_send (w.session s).send_total;
  total_session_recv = add_u64 w.total_session_recv (w.session s).recv_total;
})

-- The result is what is printed.
unfoldable pub print_total_transferred : M (ℕ × ℕ)
print_total_transferred w =
    let w' : Clients = add_totals w.ready_sessions w in
    some ((w'.total_session_send, w'.total_session_recv), w')

-- What the three calls of setsockopt answer.
pub record Setup : Type 0 where
  pub context_updated : Bool
  pub no_delay_set : Bool
  pub receive_buffer_set : Bool

-- `started` is the answer of WSARecv, `login_request` the message of the next player.
unfoldable pub connect_completion : (P : Messages) → ℕ → Setup → Bool → P.Message → M (Unit {0})
connect_completion P s setup started login_request =
    if setup.context_updated
    then (do
      crash_assert (setup.no_delay_set && setup.receive_buffer_set)
      c ← get s
      put s (record c { connected = true })
      crash_assert (not c.connected)
      posted ← pre_recv s started
      d ← get s
      if posted
          then (do curr ← increase_client_session; login P s login_request)
          else put s (record d { connected = false }))
    else pure tt
